-- ===== src/RequestSignature.antt =====
-- iam/request-ssh-key-signature/main.go: the program that asks lambda/sign-ssh-key for a certificate
-- and gives it to the SSH agent. Files, the AWS clients, encoding/json, the SSH libraries and the
-- network are parameters.
pub mod Durations
use awstools.Prelude.{
  ℕ, zero, suc, ◌+◌, ◌-◌, ◌/◌, ◌%◌, ◌^◌, Bool, true, false, Option, none, some, List, [], ◌∷◌, ◌++◌,
  Result, ok, err, ◌>>=◌, map_err, if◌then◌else◌,
}
use awstools.Prelude.Int.{ℤ, pos, negsuc}
use awstools.Prelude.Text.{Text, codes, eq_text, is_empty}
use awstools.Common.Config.Refresh.{wrap}

pub record LambdaPayload : Type 0 where
  pub identity_url : Text
  pub environment : Text
  pub ssh_public_key : Text
  -- a time.Duration that is encoded as its number
  pub duration : ℤ
  pub source_addresses : List Text

pub record SignatureResponse : Type 0 where
  pub certificate : Text
  pub duration : ℤ
  pub valid_before : Text

pub record Flags : Type 0 where
  pub ssh_private_key_filename : Text
  pub ssh_public_key_filename : Text
  pub environment : Text
  -- in nanoseconds
  pub duration : ℤ
  pub dump : Bool
  pub output : Text
  pub source_addresses : List Text
  pub proxy_config : Text

-- What the agent is given; the private key and the certificate are those that were read.
pub record AddedKey : Type 0 where
  pub comment : Text
  pub private_key : Text
  pub certificate : Text
  pub lifetime_secs : ℕ

pub record RequestWorld : Type 0 where
  -- homedir.Expand, and whether os.Stat finds the file
  pub expand : Text → Result Text Text
  pub exists : Text → Bool
  pub read_file : Text → Result Text Text
  -- common.NewSession("")
  pub new_session : Result Text (Unit {0})
  -- STSGetIdentityURL in that session
  pub identity_url : Result Text Text
  pub marshal : LambdaPayload → Result Text Text
  -- the payload of the answer of the function
  pub invoke : Text → Result Text Text
  pub unmarshal : Text → Result Text SignatureResponse
  -- ssh.ParseAuthorizedKey; a key that is no certificate is `none`
  pub parse_certificate : Text → Result Text (Option Text)
  pub parse_private_key : Text → Result Text Text
  pub dial_agent : Result Text (Unit {0})
  pub add_key : AddedKey → Result Text (Unit {0})
  pub dial_proxy : Text → Result Text (Unit {0})

-- How the program has ended: what it printed, or what it gave to the agent, and whether it has
-- connected to the proxy.
pub data Done : Type 0 where
  dumped : Text → Done
  printed : Text → Bool → Done
  added : AddedKey → Bool → Done

abbrev pub default_locations : List Text
default_locations = codes "~/.ssh/id_ecdsa" ∷ codes "~/.ssh/id_rsa" ∷ []

-- uint32(d)
unfoldable pub to_uint32 : ℤ → ℕ
to_uint32 (pos n) = n % 2 ^ 32
to_uint32 (negsuc n) = 2 ^ 32 - 1 - n % 2 ^ 32

negated : ℕ → ℤ
negated zero = pos 0
negated (suc n) = negsuc n

-- *duration / time.Second, which rounds towards zero.
unfoldable pub seconds : ℤ → ℤ
unfolding negated
seconds (pos n) = pos (n / 1000000000)
seconds (negsuc n) = negated ((n + 1) / 1000000000)

module _ (w : RequestWorld) where
  -- The loop over the default locations.
  unfoldable pub find_key : List Text → Option Text
  find_key [] = none
  find_key (location ∷ locations) = elim (w.expand location) [
    | err e ↦ find_key locations
    | ok detected ↦ elim (w.exists detected) [ true ↦ some detected | false ↦ find_key locations ]
  ]

  abbrev pub private_key_of : Text → Result Text Text
  private_key_of [] = elim (find_key default_locations) [
    | none ↦ err (codes "could not find the default private SSH key")
    | some detected ↦ ok detected
  ]
  private_key_of (c ∷ s) = ok (c ∷ s)

  -- HandleOptionalArgs
  unfoldable pub handle_optional_args : Flags → Result Text Flags
  unfolding find_key
  handle_optional_args flags = do
    private ← private_key_of flags.ssh_private_key_filename
    ok (record flags {
      ssh_private_key_filename = private;
      ssh_public_key_filename =
          if is_empty flags.ssh_public_key_filename
          then private ++ codes ".pub"
          else flags.ssh_public_key_filename;
    })

  unfoldable pub payload_of : Flags → Text → Text → LambdaPayload
  unfolding seconds
  payload_of flags url key = record {
    identity_url = url;
    environment = flags.environment;
    ssh_public_key = key;
    duration = seconds flags.duration;
    source_addresses = flags.source_addresses;
  }

  -- A key that is no certificate.
  abbrev pub certificate_of : Option Text → Result Text Text
  certificate_of none = err (codes "failed to parse response certificate")
  certificate_of (some certificate) = ok certificate

  -- case "agent"
  unfoldable pub add_to_agent : Flags → SignatureResponse → Result Text AddedKey
  unfolding to_uint32
  add_to_agent flags response = do
    parsed ←
        wrap (codes "could not parse the certificate from the response")
          (w.parse_certificate response.certificate)
    certificate ← certificate_of parsed
    bytes ←
        wrap (codes "could not read the private SSH key")
          (w.read_file flags.ssh_private_key_filename)
    private_key ← wrap (codes "could not parse the private SSH key") (w.parse_private_key bytes)
    dialled ←
        wrap (codes "could not connect to the SSH agent socket, make sure SSH_AUTH_SOCK is set")
          w.dial_agent
    let key : AddedKey = record {
      comment =
          codes "iam-request-ssh-key-signature env=\""
          ++ (flags.environment
              ++ (codes "\" expires=\"" ++ (response.valid_before ++ codes "\"")));
      private_key = private_key;
      certificate = certificate;
      lifetime_secs = to_uint32 response.duration;
    }
    done ← wrap (codes "could not add the certificate to the SSH agent") (w.add_key key)
    ok key

  -- if *proxyConfig != ""
  abbrev pub connect : Text → Result Text Bool
  connect [] = ok false
  connect (c ∷ s) = do
    dialled ← wrap (codes "could not connect to server") (w.dial_proxy (c ∷ s))
    ok true

  -- The switch over the output, which is agent or stdout, and what follows.
  unfoldable pub deliver : Flags → Text → SignatureResponse → Result Text Done
  unfolding add_to_agent
  deliver flags payload response =
      if eq_text flags.output (codes "agent")
      then (do
        key ← add_to_agent flags response
        connected ← connect flags.proxy_config
        ok (added key connected))
      else (connect flags.proxy_config >>= λ connected. ok (printed payload connected))

  -- From the lambda's answer on.
  unfoldable pub request_certificate : Flags → Text → Result Text Done
  unfolding deliver
  request_certificate flags bytes = do
    payload ← wrap (codes "could not invoke the lambda function") (w.invoke bytes)
    response ← wrap (codes "could not parse the signature response") (w.unmarshal payload)
    deliver flags payload response

  -- main
  unfoldable pub request_signature : Flags → Result Text Done
  unfolding handle_optional_args payload_of request_certificate
  request_signature given = do
    flags ← handle_optional_args given
    key ←
        wrap (codes "could not read the SSH public key") (w.read_file flags.ssh_public_key_filename)
    user_session ← wrap (codes "could not open user IAM session") w.new_session
    url ← wrap (codes "could not generate the STS signed URL") w.identity_url
    bytes ←
        wrap (codes "could not encode the lambda payload") (w.marshal (payload_of flags url key))
    if flags.dump then ok (dumped bytes) else request_certificate flags bytes
