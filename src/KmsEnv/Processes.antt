-- ===== src/KmsEnv/Processes.antt =====
-- Which processes kms/env/main.go starts and stops.
use awstools.Prelude.{
  ◌≡◌, refl, arith, Bool, true, false, Option, none, some, List, [], ◌∷◌, ok, >>=-eq-ok,
}
use awstools.Prelude.Text.{Text}
use awstools.Common.Config.Generate.{
  ConfigValues, new_config_values, set_from_environment, is_refreshable, set_from_map,
  generate_from_map, environment_fields,
}
use awstools.Common.Config.Values.{end}
use awstools.KmsEnv.{
  Env, Refreshed, values, Flags, config_of, Event, launch, terminate, exit, fatal, EnvWorld,
  monitor, entries, run_messages, kms_env,
}

-- At most one process runs at a time: it is started when there is none, and stopped before the next.
abbrev pub OneAtATime : Bool → List Event → Type 0
OneAtATime p [] = Unit
OneAtATime p (launch env ∷ events) = (p ≡ false) × OneAtATime true events
OneAtATime p (terminate ∷ events) = (p ≡ true) × OneAtATime false events
OneAtATime p (exit ∷ events) = events ≡ []
OneAtATime p (fatal e ∷ events) = events ≡ []

-- Whatever messages the loop of kms/env receives, it starts its command only when no process of its own
-- runs, it stops a process before it starts the next, and nothing happens after the program has ended.
pub run_messages-OneAtATime :
    (w : EnvWorld) (action : Text) (p : Bool) (messages : List (Option Env))
    → OneAtATime p (run_messages w action p messages)
unfolding run_messages
run_messages-OneAtATime w action p [] = tt
run_messages-OneAtATime w action p (none ∷ messages) = run_messages-OneAtATime w action p messages
run_messages-OneAtATime w action true (some env ∷ messages) =
    ground (arith, run_messages-OneAtATime w action true messages)
run_messages-OneAtATime w action false (some env ∷ messages) =
    ground (arith, run_messages-OneAtATime w action true messages)

set_from_environment-sources :
    (c d : ConfigValues) (environ : List Text)
    → set_from_environment c environ ≡ ok d
    → d.sources ≡ c.sources
unfolding set_from_environment set_from_map
set_from_environment-sources c d environ e =
    let (res, _, h) = >>=-eq-ok (generate_from_map c (environment_fields environ end)) _ e in
    ground arith

-- Nothing that main reads is ever in the sources, by which IsRefreshable goes.
not_refreshable :
    (flags : Flags) (environ : List Text) (c : ConfigValues)
    → set_from_environment (config_of flags) environ ≡ ok c
    → is_refreshable c ≡ false
unfolding is_refreshable config_of new_config_values
not_refreshable flags environ c e =
    rw (set_from_environment-sources (config_of flags) c environ e) refl

monitor-once :
    (deep_equal : Env → Env → Bool) (flags : Flags) (c : ConfigValues) (env : Env)
    (rs : List Refreshed)
    → is_refreshable c ≡ false
    → monitor deep_equal flags c (values env ∷ rs) ≡ some env ∷ []
unfolding monitor
monitor-once deep_equal flags c env rs e = rw (e, monitor) refl

-- If the environment can be read, the first refresh returns values and the command can be started,
-- kms/env starts it once, with these values, and never again: whatever the refresh flags are and
-- whatever later refreshes would return, a changed value does not reach the command.
pub kms_env_once :
    (w : EnvWorld) (flags : Flags) (environ : List Text) (c : ConfigValues) (env : Env)
    (refreshes : List Refreshed)
    → set_from_environment (config_of flags) environ ≡ ok c
    → w.start_error (entries env) ≡ none
    → kms_env w flags environ (values env ∷ refreshes) ≡ launch (entries env) ∷ []
unfolding kms_env run_messages
kms_env_once w flags environ c env refreshes e starts =
    rw
      (
        e,
        kms_env,
        monitor-once w.deep_equal flags c env refreshes (not_refreshable flags environ c e),
        starts,
      )
      refl
