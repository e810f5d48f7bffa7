-- ===== src/Common/Config/Generate.antt =====
-- NewConfigValues, GenerateFromMap, SetFromMap, SetFromEnvironment, Clear and IsRefreshable.
use awstools.Prelude.{
  Bool, true, false, ◌&&◌, ℕ, Option, none, some, List, [], ◌∷◌, Result, ok, ◌>>=◌, if◌then◌else◌,
  drop, length, ltb, ◌==◌,
}
use awstools.Prelude.Text.{Text, codes, has_prefix, strip_prefix}
use awstools.Common.Config.Values.{
  SourceType, kms, ssm, secrets_manager, file, Source, Value, Fields, text, object, secret, end,
  field, put,
}

-- The prefixes stand in the order in which a loop over the map meets them.
pub record ConfigValues : Type 0 where
  pub sources : List (Text × List Source)
  pub static : Fields
  pub max_retries : ℕ
  pub key_prefixes : List (SourceType × Text)
  pub value_prefixes : List (SourceType × Text)
  pub version_stage : Text

-- NewConfigValues
unfoldable pub new_config_values : ConfigValues
new_config_values = record {
  sources = [];
  static = end;
  max_retries = 5;
  key_prefixes =
      (kms, codes "KMS_")
      ∷ (ssm, codes "SSM_")
      ∷ (secrets_manager, codes "SECRETS_MANAGER_")
      ∷ (file, codes "FILE_")
      ∷ [];
  value_prefixes =
      (kms, codes "kms://")
      ∷ (ssm, codes "ssm://")
      ∷ (secrets_manager, codes "secrets-manager://")
      ∷ (file, codes "file://")
      ∷ [];
  version_stage = codes "AWSCURRENT";
}

-- Clear
unfoldable pub clear : ConfigValues → ConfigValues
clear c = record c { sources = []; static = end }

-- The loop over the prefixes: the first that s has, with the rest of s.
unfoldable pub find_prefix : List (SourceType × Text) → Text → Option (SourceType × Text)
find_prefix [] s = none
find_prefix ((kind, prefix) ∷ prefixes) s = elim (strip_prefix prefix s) [
  | some rest ↦ some (kind, rest)
  | none ↦ find_prefix prefixes s
]

-- secretType == "SECRETS_MANAGER" || secretType == "SSM"
abbrev pub holds_many : SourceType → Bool
holds_many secrets_manager = true
holds_many ssm = true
holds_many kms = false
holds_many file = false

-- The source that a key, less its prefix, and an identifier stand for.
unfoldable pub make_source : SourceType → Text → Text → Source
make_source kind key identifier =
    let collapse = has_prefix key (codes "_") in
    record {
      kind = kind;
      name = if collapse && holds_many kind then drop 1 key else key;
      identifier = identifier;
      collapse = collapse;
    }

put_source : Source → Fields → Fields
put_source s dst = put s.name (secret s) dst

-- The case of a string.
unfoldable pub generate_text : ConfigValues → Text → Text → Fields → Fields
unfolding make_source put_source
generate_text c key v dst = elim (find_prefix c.key_prefixes key) [
  | some (kind, name) ↦ put_source (make_source kind name v) dst
  | none ↦ elim (find_prefix c.value_prefixes v) [
    | some (kind, identifier) ↦ put_source (make_source kind key identifier) dst
    | none ↦ put key (text v) dst
  ]
]

-- GenerateFromMap; its only error is one of a nested map.
unfoldable mutual
  unfolding generate_text

  pub generate_fields : ConfigValues → Fields → Fields → Result Text Fields
  generate_fields c end dst = ok dst
  generate_fields c (field key value src) dst = do
    dst' ← generate_entry c value key dst
    generate_fields c src dst'

  pub generate_entry : ConfigValues → Value → Text → Fields → Result Text Fields
  generate_entry c (object m) key dst = do
    val ← generate_fields c m end
    ok (put key (object val) dst)
  generate_entry c (text v) key dst = ok (generate_text c key v dst)
  generate_entry c value key dst = ok (put key value dst)

unfoldable pub generate_from_map : ConfigValues → Fields → Result Text Fields
unfolding generate_fields
generate_from_map c src = generate_fields c src end

-- SetFromMap
unfoldable pub set_from_map : ConfigValues → Fields → Result Text ConfigValues
unfolding generate_from_map
set_from_map c m = do res ← generate_from_map c m; ok (record c { static = res })

push_name : ℕ → Option (Text × Text) → Option (Text × Text)
push_name x none = none
push_name x (some (name, v)) = some (x ∷ name, v)

-- strings.SplitN(env, "=", 2), where there are two parts.
unfoldable pub split_env : Text → Option (Text × Text)
unfolding push_name
split_env [] = none
split_env (x ∷ s) = let rest = split_env s in if x == b'=' then some ([], s) else push_name x rest

-- SetFromEnvironment; the environment is what os.Environ returns.
unfoldable pub environment_fields : List Text → Fields → Fields
environment_fields [] value = value
environment_fields (env ∷ environ) value = elim (split_env env) [
  | none ↦ environment_fields environ value
  | some (name, v) ↦ environment_fields environ (put name (text v) value)
]

unfoldable pub set_from_environment : ConfigValues → List Text → Result Text ConfigValues
unfolding set_from_map environment_fields split_env
set_from_environment c environ = set_from_map c (environment_fields environ end)

-- IsRefreshable
unfoldable pub is_refreshable : ConfigValues → Bool
is_refreshable c = ltb 0 (length c.sources)
