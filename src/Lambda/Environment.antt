-- ===== src/Lambda/Environment.antt =====
-- lambda/sign-ssh-key/environment.go: the configuration of an environment.
pub mod Durations
use awstools.Prelude.{Option, none, some, List, [], ◌∷◌, Result, ok, err, ◌>>=◌, if◌then◌else◌}
use awstools.Prelude.Text.{Text, codes, is_empty}
use awstools.Prelude.Int.{ℤ, pos}
use awstools.Common.Config.Generate.{new_config_values}
use awstools.Common.Config.Refresh.{ConfigWorld, refresh, set_from_json}

pub record Ca : Type 0 where
  pub private_key_passphrase : Text
  pub private_key : Text
  pub public_key : Text

-- A nil pointer and a nil map are `none`.
pub record Environment : Type 0 where
  pub ca : Ca
  pub validity_max_duration : Option ℤ
  pub validity_start_offset : Option ℤ
  pub extensions : Option (List (Text × Text))
  pub source_addresses : List Text

-- DefaultValidityMaxDuration and DefaultValidityStartOffset
abbrev pub default_validity : ℤ
default_validity = pos 60

unfoldable pub default_to : Option ℤ → Option ℤ
default_to none = some default_validity
default_to (some n) = some n

decoded_key : (Text → Result Text Text) → Text → Text
decoded_key base64_decode key = elim (base64_decode key) [ ok text ↦ text | err e ↦ key ]

extensions_or_empty : Option (List (Text × Text)) → Option (List (Text × Text))
extensions_or_empty none = some []
extensions_or_empty (some m) = some m

-- (*Environment).Validate: the environment that it leaves, and its error.
unfoldable pub validate :
    (Text → Result Text Text) → Environment → Environment × Result Text (Unit {0})
unfolding default_to decoded_key extensions_or_empty
validate base64_decode e =
    let timed : Environment = record e {
      validity_max_duration = default_to e.validity_max_duration;
      validity_start_offset = default_to e.validity_start_offset;
    } in
    if is_empty e.ca.public_key
    then (timed, err (codes "'ca_public_key' is missing in environment config."))
    else if is_empty e.ca.private_key
    then (timed, err (codes "'ca_private_key' is missing in environment config."))
    else (
      record timed {
        ca = record e.ca { private_key = decoded_key base64_decode e.ca.private_key };
        extensions = extensions_or_empty e.extensions;
      },
      ok tt,
    )

-- LoadEnvironment; `filename` is the template with its name filled in, and `decode` is
-- json.Unmarshal. The error of Validate is not read.
unfoldable pub load_environment :
    ConfigWorld → (Text → Text) → (Text → Result Text Environment) → Text → Result Text Environment
load_environment w filename decode name = do
  c ← set_from_json w new_config_values (filename name)
  environment ← refresh w decode c
  ok (validate w.kms.base64_decode environment).0
