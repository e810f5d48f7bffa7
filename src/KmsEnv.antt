-- ===== src/KmsEnv.antt =====
-- kms/env/main.go: the program that runs a command with the configuration in its environment. What
-- Monitor sends is a list of messages, one refresh for each tick; reflect.DeepEqual, os/exec and the
-- clock are parameters.
pub mod Processes
use awstools.Prelude.{
  ℕ, Bool, true, false, ◌&&◌, not, ◌==◌, Option, none, some, List, [], ◌∷◌, ◌++◌, map, Result, ok,
  err, map_err, ◌>>=◌, if◌then◌else◌,
}
use awstools.Prelude.Text.{Text, codes, eq_text}
use awstools.Common.Config.Values.{Fields, SourceType, kms, ssm, secrets_manager, file}
use awstools.Common.Config.Generate.{
  ConfigValues, new_config_values, set_from_environment, is_refreshable,
}
use awstools.Common.Config.Refresh.{ConfigWorld}
use awstools.Common.Config.Retries.{refresh_with_retries}
use awstools.Common.Flatten.{
  FlattenError, unsupported_type, type_assertion_panic, flatten_env_var_map,
}

-- A map[string]string, as its entries.
abbrev pub Env : Type 0
Env = List (Text × Text)

pub data Refreshed : Type 0 where
  values : Env → Refreshed
  failed : Text → Refreshed
  -- the panic of v.(string), which ends the program
  panicked : Refreshed

abbrev pub flattened : Result FlattenError Env → Refreshed
flattened (ok env) = values env
flattened (err unsupported_type) =
    failed
      (codes "failed to flatten config map, make sure it doesn't contain slices: Unsupported type")
flattened (err type_assertion_panic) = panicked

-- What follows RefreshWithRetries.
abbrev pub flatten_refreshed : Result Text Fields → Refreshed
flatten_refreshed (err e) = failed (codes "failed to refresh config: " ++ e)
flatten_refreshed (ok value) = flattened (flatten_env_var_map value)

-- RefreshAndFlatten; the outside world may differ from round to round.
unfoldable pub refresh_and_flatten :
    (ℕ → ConfigWorld) → (Text → Result Text Fields) → ConfigValues → Refreshed
unfolding refresh_with_retries flatten_env_var_map
refresh_and_flatten worlds decode c =
    flatten_refreshed (refresh_with_retries worlds decode c).result

pub record Flags : Type 0 where
  pub kms_prefix : Text
  pub ssm_prefix : Text
  pub secrets_manager_prefix : Text
  pub secrets_manager_version_stage : Text
  -- in nanoseconds
  pub refresh_interval : ℕ
  pub refresh_action : Text
  pub refresh_max_retries : ℕ

-- The configuration that main makes before it reads the environment.
unfoldable pub config_of : Flags → ConfigValues
unfolding new_config_values
config_of flags = record new_config_values {
  max_retries = flags.refresh_max_retries;
  key_prefixes =
      (kms, flags.kms_prefix)
      ∷ (ssm, flags.ssm_prefix)
      ∷ (secrets_manager, flags.secrets_manager_prefix)
      ∷ (file, codes "FILE_")
      ∷ [];
  version_stage = flags.secrets_manager_version_stage;
}

-- What happens to processes, in order.
pub data Event : Type 0 where
  -- with the entries of its environment
  launch : List Text → Event
  -- SIGTERM, and the wait for its end
  terminate : Event
  exit : Event
  fatal : Text → Event

pub record EnvWorld : Type 0 where
  pub deep_equal : Env → Env → Bool
  -- the error of Start, for the entries of the environment
  pub start_error : List Text → Option Text

abbrev pub send_changed : Bool → Env → List (Option Env) → List (Option Env)
send_changed true new rest = rest
send_changed false new rest = some new ∷ rest

-- A loop that sends nil and ends after a failure.
unfoldable pub ticks : (Env → Env → Bool) → Env → List Refreshed → List (Option Env)
ticks deep_equal previous [] = []
ticks deep_equal previous (panicked ∷ rs) = []
ticks deep_equal previous (failed e ∷ rs) = none ∷ []
ticks deep_equal previous (values new ∷ rs) =
    send_changed (deep_equal new previous) new (ticks deep_equal new rs)

-- Monitor: the messages on the channel; a nil map is `none`.
unfoldable pub monitor :
    (Env → Env → Bool) → Flags → ConfigValues → List Refreshed → List (Option Env)
unfolding ticks
monitor deep_equal flags c [] = []
monitor deep_equal flags c (panicked ∷ rs) = []
monitor deep_equal flags c (failed e ∷ rs) = none ∷ []
monitor deep_equal flags c (values previous ∷ rs) =
    if is_refreshable c && not (flags.refresh_interval == 0)
    then some previous ∷ ticks deep_equal previous rs
    else some previous ∷ []

-- fmt.Sprintf("%s=%s", key, value)
unfoldable pub entries : Env → List Text
entries [] = []
entries ((key, value) ∷ env) = (key ++ (codes "=" ++ value)) ∷ entries env

abbrev pub started : List Text → Option Text → List Event → List Event
started env none rest = launch env ∷ rest
started env (some e) rest = fatal e ∷ []

-- if p != nil { ... }, before the next process is started
abbrev pub replaced : Bool → Bool → List Event → List Event
replaced false exits rest = rest
replaced true false rest = terminate ∷ rest
replaced true true rest = terminate ∷ exit ∷ []

-- The loop of main over the messages; `p` says whether there is a process.
unfoldable pub run_messages : EnvWorld → Text → Bool → List (Option Env) → List Event
unfolding entries
run_messages w action p [] = []
run_messages w action p (none ∷ messages) = run_messages w action p messages
run_messages w action p (some env ∷ messages) =
    let rest = run_messages w action true messages in
    replaced p (eq_text action (codes "EXIT"))
      (started (entries env) (w.start_error (entries env)) rest)

-- main, from the environment on; `refreshes` is what RefreshAndFlatten returns, from the first call.
unfoldable pub kms_env : EnvWorld → Flags → List Text → List Refreshed → List Event
unfolding config_of set_from_environment monitor run_messages
kms_env w flags environ refreshes = elim (set_from_environment (config_of flags) environ) [
  | err e ↦ fatal e ∷ []
  | ok c ↦ run_messages w flags.refresh_action false (monitor w.deep_equal flags c refreshes)
]
