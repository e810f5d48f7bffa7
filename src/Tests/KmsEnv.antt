-- ===== src/Tests/KmsEnv.antt =====
-- The program of kms/env with one variable in its environment.
use awstools.Prelude.{◌≡◌, refl, false, none, some, [], ◌∷◌, ok}
use awstools.Prelude.Text.{codes, strip_prefix}
use awstools.Common.Config.Values.{put, text, field, end}
use awstools.Common.Config.Generate.{ConfigValues, set_from_environment, find_prefix}
use awstools.KmsEnv.{
  Env, values, Flags, config_of, launch, terminate, EnvWorld, entries, run_messages, kms_env,
}
use awstools.KmsEnv.Processes.{OneAtATime, run_messages-OneAtATime, kms_env_once}

abbrev world : EnvWorld
world = record { deep_equal = λ a b. false; start_error = λ env. none }

abbrev flags : Flags
flags = record {
  kms_prefix = codes "KMS_";
  ssm_prefix = codes "SSM_";
  secrets_manager_prefix = codes "SECRETS_MANAGER_";
  secrets_manager_version_stage = codes "AWSCURRENT";
  refresh_interval = 1;
  refresh_action = codes "RESTART";
  refresh_max_retries = 5;
}

abbrev old : Env
old = (codes "A", codes "1") ∷ []

abbrev new : Env
new = (codes "A", codes "2") ∷ []

-- A second message restarts the command.
run_messages-restart :
    run_messages world (codes "RESTART") false (some old ∷ none ∷ some new ∷ [])
    ≡ launch (codes "A=1" ∷ []) ∷ terminate ∷ launch (codes "A=2" ∷ []) ∷ []
unfolding run_messages
run_messages-restart = refl

run_messages-OneAtATime_example :
    OneAtATime false (run_messages world (codes "RESTART") false (some old ∷ none ∷ some new ∷ []))
run_messages-OneAtATime_example =
    run_messages-OneAtATime world (codes "RESTART") false (some old ∷ none ∷ some new ∷ [])

abbrev config : ConfigValues
config = record (config_of flags) { static = field (codes "A") (text (codes "1")) end }

set_from_environment-config : set_from_environment (config_of flags) (codes "A=1" ∷ []) ≡ ok config
unfolding set_from_environment config_of find_prefix strip_prefix put
set_from_environment-config = refl

kms_env_once_example :
    kms_env world flags (codes "A=1" ∷ []) (values old ∷ values new ∷ [])
    ≡ launch (entries old) ∷ []
kms_env_once_example =
    kms_env_once world flags (codes "A=1" ∷ []) config old (values new ∷ [])
      set_from_environment-config refl
