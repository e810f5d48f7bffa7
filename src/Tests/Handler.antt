-- ===== src/Tests/Handler.antt =====
-- A request of the IAM user bob that the handler of lambda/sign-ssh-key grants.
use awstools.Prelude.{◌≡◌, refl, true, false, some, [], ◌∷◌, ok, err}
use awstools.Prelude.Text.{codes, split, join, strip_prefix}
use awstools.Prelude.Int.{
  ℤ, pos, ltb_ℤ, ◌+ℤ◌, ◌-ℤ◌, nanoseconds, whole_seconds, to_int64, to_uint64,
}
use awstools.Common.Config.Values.{put}
use awstools.Common.Config.Generate.{new_config_values, find_prefix, set_from_map}
use awstools.Common.Config.Refresh.{set_from_json, refresh}
use awstools.Common.Arn.{parse_arn}
use awstools.Common.Sts.{sts_fetch_identity_url}
use awstools.Lambda.Ip.{validate_ip_ranges, intersect}
use awstools.Lambda.Environment.{load_environment, validate}
use awstools.Lambda.Signer.{init, sign, source_address_option}
use awstools.Lambda.Handler.{
  World, SignSshKeyEvent, SignSshKeyResponse, duration_exceeds_maximum, handle,
}
use awstools.Lambda.Handler.Granted.{IsGranted, handle-IsGranted}
use awstools.RequestSignature.{Flags, RequestWorld, payload_of, seconds}
use awstools.RequestSignature.Durations.{event_of, handle-payload_seconds}
use awstools.Tests.Config.{small_world}
use awstools.Tests.Sts.{sts_world}
use awstools.Tests.Lambda.{parse_ten, decode_keys, ssh_world}

abbrev world : World
world = record {
  config = small_world;
  filename = λ name. name;
  decode_environment = decode_keys;
  parse_cidr = parse_ten;
  sts = sts_world;
  ssh = ssh_world;
  generate_uuid = ok (codes "0");
}

abbrev request : ℤ → SignSshKeyEvent
request duration = record {
  identity_url = codes "u";
  environment = codes "prod";
  ssh_public_key = codes "key";
  duration = some duration;
  source_addresses = codes "10.1.0.0/16" ∷ [];
}

abbrev granted : SignSshKeyResponse
granted = record { certificate = codes "private"; duration = pos 30; valid_before = 130 }

handle-request : handle world (pos 5000000000) (request (pos 30)) ≡ ok granted
unfolding handle load_environment set_from_json set_from_map refresh find_prefix new_config_values
    strip_prefix put validate_ip_ranges validate intersect sts_fetch_identity_url ◌-ℤ◌ parse_arn
    split init sign to_uint64 whole_seconds ◌+ℤ◌ to_int64 nanoseconds join source_address_option
handle-request = refl

handle-long : handle world (pos 5000000000) (request (pos 61)) ≡ err duration_exceeds_maximum
unfolding handle load_environment set_from_json set_from_map refresh find_prefix new_config_values
    strip_prefix put validate_ip_ranges validate intersect
handle-long = refl

handle-IsGranted_example : IsGranted world (pos 5000000000) (request (pos 30)) granted
handle-IsGranted_example =
    handle-IsGranted world (pos 5000000000) (request (pos 30)) granted handle-request

-- The request of iam/request-ssh-key-signature for thirty seconds and a half.
abbrev requester : RequestWorld
requester = record {
  expand = λ s. ok s;
  exists = λ s. true;
  read_file = λ s. ok (codes "key");
  new_session = ok tt;
  identity_url = ok (codes "u");
  marshal = λ p. ok [];
  invoke = λ s. ok s;
  unmarshal = λ s. err (codes "unused");
  parse_certificate = λ s. ok (some s);
  parse_private_key = λ s. ok s;
  dial_agent = ok tt;
  add_key = λ k. ok tt;
  dial_proxy = λ s. ok tt;
}

abbrev flags : Flags
flags = record {
  ssh_private_key_filename = [];
  ssh_public_key_filename = [];
  environment = codes "prod";
  duration = pos 30500000000;
  dump = false;
  output = codes "agent";
  source_addresses = codes "10.1.0.0/16" ∷ [];
  proxy_config = [];
}

handle-payload :
    handle world (pos 5000000000) (event_of (payload_of requester flags (codes "u") (codes "key")))
    ≡ ok granted
unfolding payload_of seconds
handle-payload = handle-request

handle-payload_seconds_example : ltb_ℤ flags.duration (pos 1000000000) ≡ false
handle-payload_seconds_example =
    handle-payload_seconds requester world (pos 5000000000) flags (codes "u") (codes "key") granted
      handle-payload
