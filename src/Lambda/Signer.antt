-- ===== src/Lambda/Signer.antt =====
-- lambda/sign-ssh-key/ssh.go: the certificate authority. golang.org/x/crypto/ssh, the random source and
-- the clock are parameters; a key of that package is a `Text` here.
pub mod Validity
use awstools.Prelude.{
  ℕ, ◌+◌, ◌*◌, Option, none, some, List, [], ◌∷◌, ◌++◌, Result, ok, err, ◌>>=◌, map_err,
  if◌then◌else◌,
}
use awstools.Prelude.Text.{Text, codes, is_empty, join}
use awstools.Prelude.Int.{ℤ, ◌+ℤ◌, ◌-ℤ◌, to_uint64, whole_seconds}

pub record Certificate : Type 0 where
  pub serial : ℕ
  pub key : Text
  pub key_id : Text
  pub valid_principals : List Text
  pub valid_after : ℕ
  pub valid_before : ℕ
  pub critical_options : List (Text × Text)
  pub extensions : List (Text × Text)
  pub signature : Text

-- `now_after` and `now_before` are the two readings of the clock, in nanoseconds.
pub record SshWorld : Type 0 where
  pub parse_private_key : Text → Result Text Text
  pub parse_private_key_with_passphrase : Text → Text → Result Text Text
  pub parse_authorized_key : Text → Result Text Text
  pub random_bytes : Result Text (List ℕ)
  pub now_after : ℤ
  pub now_before : ℤ
  pub sign_cert : Certificate → Text → Result Text Text
  pub marshal_authorized_key : Certificate → Text

pub record Signer : Type 0 where
  pub ca_cert : Text
  pub ca_key : Text
  pub allowed_clock_diff : ℤ
  pub max_ttl : ℤ

-- (*Signer).Init; the durations are in nanoseconds.
unfoldable pub init : SshWorld → Text → Text → Text → ℤ → ℤ → Result Text Signer
init w key passphrase pub_key allowed_clock_diff max_ttl = do
  ca_key ←
      map_err (λ e. codes "error parsing CA private key: " ++ e)
        (if is_empty passphrase
          then w.parse_private_key key
          else w.parse_private_key_with_passphrase key passphrase)
  ca_cert ←
      map_err (λ e. codes "error parsing CA public key: " ++ e) (w.parse_authorized_key pub_key)
  ok (record {
    ca_cert = ca_cert;
    ca_key = ca_key;
    allowed_clock_diff = allowed_clock_diff;
    max_ttl = max_ttl;
  })

-- binary.LittleEndian.Uint64
unfoldable pub little_endian : List ℕ → ℕ
little_endian [] = 0
little_endian (b ∷ bytes) = b + 256 * little_endian bytes

-- criticalOptions
unfoldable pub source_address_option : List Text → List (Text × Text)
source_address_option [] = []
source_address_option (a ∷ addresses) =
    (codes "source-address", join (codes ",") (a ∷ addresses)) ∷ []

unfoldable pub unsigned_certificate :
    SshWorld → Signer → ℕ → Text → Text → List Text → List Text → Certificate
unfolding source_address_option
unsigned_certificate w s serial pub_key key_id principals source_addresses = record {
  serial = serial;
  key = pub_key;
  key_id = key_id;
  valid_principals = principals;
  valid_after = to_uint64 (whole_seconds (w.now_after -ℤ s.allowed_clock_diff));
  valid_before = to_uint64 (whole_seconds (w.now_before +ℤ s.max_ttl));
  critical_options = source_address_option source_addresses;
  extensions = (codes "permit-pty", []) ∷ [];
  signature = [];
}

-- (Signer).Sign
unfoldable pub sign :
    SshWorld → Signer → Text → Text → List Text → List Text → Result Text Certificate
unfolding little_endian unsigned_certificate
sign w s key key_id principals source_addresses = do
  buf ← map_err (λ e. codes "failed to read random bytes: " ++ e) w.random_bytes
  pub_key ←
      map_err (λ e. codes "failed to parse user public key: " ++ e) (w.parse_authorized_key key)
  let certificate =
      unsigned_certificate w s (little_endian buf) pub_key key_id principals source_addresses
  signature ←
      map_err (λ e. codes "failed to sign user public key: " ++ e)
        (w.sign_cert certificate s.ca_key)
  ok (record certificate { signature = signature })
