-- ===== src/Lambda/Environment/Durations.antt =====
-- What holds of every environment that LoadEnvironment returns.
use awstools.Prelude.{◌≡◌, ◌≢◌, ap, arith, none, [], Result, ok, err, >>=-eq-ok, ok-injective}
use awstools.Prelude.Text.{Text, codes, is_empty}
use awstools.Common.Config.Generate.{ConfigValues, new_config_values}
use awstools.Common.Config.Refresh.{ConfigWorld, refresh, set_from_json}
use awstools.Lambda.Environment.{Environment, default_to, validate, load_environment}

-- Both durations are set: pointers to them can be read.
abbrev pub HasDurations : Environment → Type 0
HasDurations e = (e.validity_max_duration ≢ none) × (e.validity_start_offset ≢ none)

validate-HasDurations :
    (base64_decode : Text → Result Text Text) (e : Environment)
    → HasDurations (validate base64_decode e).0
unfolding validate
validate-HasDurations base64_decode e = ground arith

-- The durations of a loaded environment are set, although LoadEnvironment does not read the error
-- of Validate.
load_environment-HasDurations :
    (w : ConfigWorld) (filename : Text → Text) (decode : Text → Result Text Environment)
    (name : Text) (e : Environment)
    → load_environment w filename decode name ≡ ok e
    → HasDurations e
unfolding load_environment
load_environment-HasDurations w filename decode name e h =
    let (c, configured, h1) = >>=-eq-ok (set_from_json w new_config_values (filename name)) _ h in
    let (raw, refreshed, h2) = >>=-eq-ok (refresh w decode c) _ h1 in
    rw (← ok-injective h2) (validate-HasDurations w.kms.base64_decode raw)

validate_without_key :
    (base64_decode : Text → Result Text Text) (e : Environment)
    → e.ca.public_key ≡ []
    → validate base64_decode e ≡ (
      record e {
        validity_max_duration = default_to e.validity_max_duration;
        validity_start_offset = default_to e.validity_start_offset;
      },
      err (codes "'ca_public_key' is missing in environment config."),
    )
unfolding validate
validate_without_key base64_decode e empty = rw (ap is_empty empty, validate)

-- An environment without a CA public key is loaded all the same, with its keys as they stand and
-- its durations set: the error that Validate returns for it is lost.
load_environment_without_key :
    (w : ConfigWorld) (filename : Text → Text) (decode : Text → Result Text Environment)
    (name : Text) (c : ConfigValues) (raw : Environment)
    → set_from_json w new_config_values (filename name) ≡ ok c
    → refresh w decode c ≡ ok raw
    → raw.ca.public_key ≡ []
    → ((validate w.kms.base64_decode raw).1
        ≡ err (codes "'ca_public_key' is missing in environment config."))
      × (load_environment w filename decode name
          ≡ ok (record raw {
            validity_max_duration = default_to raw.validity_max_duration;
            validity_start_offset = default_to raw.validity_start_offset;
          }))
unfolding load_environment
load_environment_without_key w filename decode name c raw configured refreshed empty =
    let lost = validate_without_key w.kms.base64_decode raw empty in
    (rw lost, rw (configured, refreshed, lost))
