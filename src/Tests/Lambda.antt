-- ===== src/Tests/Lambda.antt =====
-- Runs of ip.go, environment.go and ssh.go of lambda/sign-ssh-key at concrete inputs.
use awstools.Prelude.{
  ℕ, ◌≡◌, ◌+◌, ◌/◌, refl, arith, some, none, [], ◌∷◌, ◌++◌, Result, ok, err, if◌then◌else◌, inl,
}
use awstools.Prelude.Text.{Text, codes, eq_text, strip_prefix}
use awstools.Prelude.Int.{pos, nanoseconds, whole_seconds, to_int64, to_uint64, ◌+ℤ◌, ◌-ℤ◌}
use awstools.Common.Config.Values.{field, end, text, put}
use awstools.Common.Config.Generate.{ConfigValues, new_config_values, find_prefix, set_from_map}
use awstools.Common.Config.Refresh.{set_from_json, refresh}
use awstools.Lambda.Ip.{Octet, IpNet, parse_cidrs, validate_ip_ranges}
use awstools.Lambda.Ip.Ranges.{validate_ip_ranges_of_SameBase}
use awstools.Lambda.Environment.{Environment, default_validity, validate, load_environment}
use awstools.Lambda.Signer.{Certificate, SshWorld, Signer, sign}
use awstools.Lambda.Signer.Validity.{sign_window}
use awstools.Tests.Config.{small_world}

abbrev octet : ℕ → ℕ → Octet
octet addr mask = record { addr = addr; mask = mask }

-- 10.0.0.0/8, 10.1.0.0/16 and 10.0.0.0/7
abbrev ten_8 : IpNet
ten_8 = octet 10 255 ∷ octet 0 0 ∷ octet 0 0 ∷ octet 0 0 ∷ []

abbrev ten_16 : IpNet
ten_16 = octet 10 255 ∷ octet 1 255 ∷ octet 0 0 ∷ octet 0 0 ∷ []

abbrev ten_7 : IpNet
ten_7 = octet 10 254 ∷ octet 0 0 ∷ octet 0 0 ∷ octet 0 0 ∷ []

abbrev pub parse_ten : Text → Result Text IpNet
parse_ten s =
    if eq_text s (codes "10.0.0.0/8")
    then ok ten_8
    else if eq_text s (codes "10.1.0.0/16")
    then ok ten_16
    else if eq_text s (codes "10.0.0.0/7")
    then ok ten_7
    else err (codes "invalid CIDR address")

validate_ip_ranges_of_SameBase_example :
    validate_ip_ranges parse_ten (codes "10.0.0.0/7" ∷ []) (codes "10.0.0.0/8" ∷ [])
    ≡ ok (codes "10.0.0.0/7" ∷ [])
unfolding parse_cidrs
validate_ip_ranges_of_SameBase_example =
    validate_ip_ranges_of_SameBase parse_ten (codes "10.0.0.0/7" ∷ []) (codes "10.0.0.0/8" ∷ [])
      ten_7 ten_8 [] [] refl refl (inl (refl, (refl, (refl, (refl, tt)))), tt)

abbrev pub with_keys : Text → Text → Environment
with_keys private_key public_key = record {
  ca = record { private_key_passphrase = []; private_key = private_key; public_key = public_key };
  validity_max_duration = none;
  validity_start_offset = some (pos 10);
  extensions = none;
  source_addresses = codes "10.0.0.0/8" ∷ [];
}

abbrev pub decode_keys : Text → Result Text Environment
decode_keys s = ok (with_keys (codes "private") (codes "public"))

abbrev file_name : Text → Text
file_name name = name ++ codes ".json"

abbrev pub loaded : Environment
loaded = record (with_keys (codes "private") (codes "public")) {
  validity_max_duration = some default_validity;
  extensions = some [];
}

load_keys : load_environment small_world (λ name. name) decode_keys (codes "prod") ≡ ok loaded
unfolding load_environment set_from_json refresh validate set_from_map find_prefix new_config_values
    strip_prefix put
load_keys = refl

abbrev decode_keyless : Text → Result Text Environment
decode_keyless s = ok (with_keys (codes "private") [])

abbrev configured : ConfigValues
configured = record new_config_values { static = field (codes "k") (text (codes "prod")) end }

set_prod : set_from_json small_world new_config_values (codes "prod") ≡ ok configured
unfolding set_from_json set_from_map find_prefix new_config_values strip_prefix put
set_prod = refl

refresh_keyless :
    refresh small_world decode_keyless configured ≡ ok (with_keys (codes "private") [])
unfolding refresh
refresh_keyless = refl

-- A certificate authority whose clock stands at 100.5 seconds.
abbrev pub ssh_world : SshWorld
ssh_world = record {
  parse_private_key = λ s. ok s;
  parse_private_key_with_passphrase = λ s p. ok s;
  parse_authorized_key = λ s. ok s;
  random_bytes = ok (1 ∷ 1 ∷ []);
  now_after = pos 100500000000;
  now_before = pos 100500000000;
  sign_cert = λ cert key. ok key;
  marshal_authorized_key = λ cert. cert.signature;
}

abbrev signer : Signer
signer = record {
  ca_cert = codes "public";
  ca_key = codes "private";
  allowed_clock_diff = to_int64 (nanoseconds (pos 10));
  max_ttl = to_int64 (nanoseconds (pos 60));
}

abbrev pub bob_certificate : Certificate
bob_certificate = record {
  serial = 257;
  key = codes "key";
  key_id = codes "id";
  valid_principals = codes "bob" ∷ [];
  valid_after = 90;
  valid_before = 160;
  critical_options = [];
  extensions = (codes "permit-pty", []) ∷ [];
  signature = codes "private";
}

sign_bob :
    sign ssh_world signer (codes "key") (codes "id") (codes "bob" ∷ []) [] ≡ ok bob_certificate
unfolding sign to_uint64 whole_seconds ◌-ℤ◌ ◌+ℤ◌ to_int64 nanoseconds
sign_bob = refl

sign_window_example :
    (bob_certificate.valid_after + 10 ≡ 100500000000 / 1000000000)
    × (bob_certificate.valid_before ≡ 100500000000 / 1000000000 + 60)
sign_window_example =
    sign_window ssh_world signer (codes "key") (codes "id") (codes "bob" ∷ []) [] bob_certificate
      100500000000 10 60 sign_bob refl refl refl refl (omega arith) (omega arith) (omega arith)
      (omega arith)
