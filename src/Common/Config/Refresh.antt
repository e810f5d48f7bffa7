-- ===== src/Common/Config/Refresh.antt =====
-- RefreshMap, Refresh, SetFromJSON and the functions that fetch one source. The file system, the AWS
-- services and encoding/json are parameters.
use awstools.Prelude.{
  Bool, true, false, Option, none, some, List, [], ◌∷◌, Result, ok, ◌>>=◌, map_err, if◌then◌else◌,
  ◌++◌,
}
use awstools.Prelude.Text.{Text, codes, eq_text, split, strip_suffix}
use awstools.Common.Kms.{KmsWorld, decrypt_with_kms}
use awstools.Common.Config.Values.{
  SourceType, kms, ssm, secrets_manager, file, Source, Value, Fields, text, object, secret, end,
  field, put, put_all, string_fields,
}
use awstools.Common.Config.Generate.{ConfigValues, set_from_map}

-- GetSecretValueOutput; a nil SecretString is `none`.
pub record SecretValue : Type 0 where
  pub secret_string : Option Text
  pub secret_binary : Text

-- One page of GetParametersByPath: the names and values, and whether there is another page.
pub record ParameterPage : Type 0 where
  pub parameters : List (Text × Text)
  pub next_token : Option Text

pub record ConfigWorld : Type 0 where
  pub read_file : Text → Result Text Text
  pub get_parameters_by_path : Text → Result Text ParameterPage
  pub get_parameter : Text → Result Text Text
  pub get_secret_value : Text → Text → Result Text SecretValue
  pub unmarshal_strings : Text → Result Text (List (Text × Text))
  pub unmarshal_map : Text → Result Text Fields
  pub marshal : Fields → Result Text Text
  pub kms : KmsWorld

-- RefreshState: which of the three clients exist.
pub record RefreshState : Type 0 where
  pub ssm_client : Bool
  pub secrets_manager_client : Bool
  pub kms_client : Bool

-- errors.Wrap
abbrev pub wrap {ℓ} : {A : Type ℓ} → Text → Result Text A → Result Text A
wrap message r = map_err (λ cause. message ++ (codes ": " ++ cause)) r

abbrev pub for_key : Text → Text → Text
for_key what key = what ++ (codes " for key " ++ key)

unfoldable pub last : Text → List Text → Text
last d [] = d
last d (w ∷ ws) = last w ws

-- result[key] = value
unfoldable pub assign : Text → Text → List (Text × Text) → List (Text × Text)
assign k v [] = (k, v) ∷ []
assign k v ((j, u) ∷ m) =
    let rest = assign k v m in if eq_text j k then (j, v) ∷ m else (j, u) ∷ rest

parameter_values : List (Text × Text) → List (Text × Text) → List (Text × Text)
parameter_values [] result = result
parameter_values ((name, value) ∷ parameters) result =
    parameter_values parameters (assign (last [] (split b'/' name)) value result)

-- getParametersByPath
unfoldable pub get_parameters_by_path : ConfigWorld → Text → Result Text (List (Text × Text))
unfolding parameter_values
get_parameters_by_path w path = do
  res ← w.get_parameters_by_path path
  ok (parameter_values res.parameters [])

secret_content : ConfigWorld → SecretValue → Result Text Text
secret_content w result = elim result.secret_string [
  | some s ↦ ok s
  | none ↦ w.kms.base64_decode result.secret_binary
]

-- secretsManagerGetSecretValue
unfoldable pub get_secret_value : ConfigWorld → Text → Text → Result Text (List (Text × Text))
unfolding secret_content
get_secret_value w secret_name version_stage = do
  result ← w.get_secret_value secret_name version_stage
  content ← secret_content w result
  w.unmarshal_strings content

-- dst[subKey] = subValue for all of them, or dst[key] = values.
unfoldable pub merge : Source → Text → List (Text × Text) → Fields → Fields
merge s key values dst =
    if s.collapse then put_all values dst else put key (object (string_fields values)) dst

-- The case of a Source, by its type.
unfoldable pub refresh_file : ConfigWorld → Source → Text → Fields → Result Text Fields
refresh_file w s key dst = do
  bytes ←
      wrap (for_key (codes "failed to load file " ++ s.identifier) key) (w.read_file s.identifier)
  ok (put s.name (text bytes) dst)

unfoldable pub refresh_ssm : ConfigWorld → Source → Text → Fields → Result Text Fields
unfolding merge
refresh_ssm w s key dst = elim (strip_suffix (codes "/*") s.identifier) [
  | some path ↦ do
    values ←
        wrap (for_key (codes "failed to fetch from SSM by path") key)
          (get_parameters_by_path w path)
    ok (merge s key values dst)
  | none ↦ do
    value ← wrap (for_key (codes "failed to fetch from SSM") key) (w.get_parameter s.identifier)
    ok (put s.name (text value) dst)
]

unfoldable pub refresh_secrets_manager :
    ConfigWorld → Text → Source → Text → Fields → Result Text Fields
unfolding merge
refresh_secrets_manager w version_stage s key dst = do
  values ←
      wrap (for_key (codes "failed to fetch from Secrets Manager") key)
        (get_secret_value w s.identifier version_stage)
  ok (merge s key values dst)

unfoldable pub refresh_kms : ConfigWorld → Source → Text → Fields → Result Text Fields
refresh_kms w s key dst = do
  value ←
      wrap (for_key (codes "failed to decrypt KMS data") key) (decrypt_with_kms w.kms s.identifier)
  ok (put s.name (text value) dst)

-- The client that a type of source needs is created at its first use.
unfoldable pub with_client : SourceType → RefreshState → RefreshState
with_client file state = state
with_client ssm state = record state { ssm_client = true }
with_client secrets_manager state = record state { secrets_manager_client = true }
with_client kms state = record state { kms_client = true }

unfoldable pub fetch_source :
    ConfigWorld → Text → SourceType → Source → Text → Fields → Result Text Fields
unfolding refresh_file refresh_ssm refresh_secrets_manager refresh_kms
fetch_source w version_stage file s key dst = refresh_file w s key dst
fetch_source w version_stage ssm s key dst = refresh_ssm w s key dst
fetch_source w version_stage secrets_manager s key dst =
    refresh_secrets_manager w version_stage s key dst
fetch_source w version_stage kms s key dst = refresh_kms w s key dst

unfoldable pub refresh_source :
    ConfigWorld → Text → Source → Text → Fields → RefreshState → Result Text (Fields × RefreshState)
unfolding with_client fetch_source
refresh_source w version_stage s key dst state = do
  dst' ← fetch_source w version_stage s.kind s key dst
  ok (dst', with_client s.kind state)

-- RefreshMap
unfoldable mutual
  unfolding refresh_source

  pub refresh_fields :
      ConfigWorld → Text → Fields → Fields → RefreshState → Result Text (Fields × RefreshState)
  refresh_fields w stage end dst state = ok (dst, state)
  refresh_fields w stage (field key value src) dst state =
      refresh_entry w stage value key dst state >>= λ (r : Fields × RefreshState).
      refresh_fields w stage src r.0 r.1

  pub refresh_entry :
      ConfigWorld
      → Text
      → Value
      → Text
      → Fields
      → RefreshState
      → Result Text (Fields × RefreshState)
  refresh_entry w stage (object m) key dst state =
      wrap (codes "failed to refresh sub map with key " ++ key) (refresh_fields w stage m end state)
      >>= λ (r : Fields × RefreshState). ok (put key (object r.0) dst, r.1)
  refresh_entry w stage (secret s) key dst state = refresh_source w stage s key dst state
  refresh_entry w stage value key dst state = ok (put key value dst, state)

abbrev pub no_clients : RefreshState
no_clients = record { ssm_client = false; secrets_manager_client = false; kms_client = false }

unfoldable pub refresh_map : ConfigWorld → ConfigValues → Result Text (Fields × RefreshState)
unfolding refresh_fields
refresh_map w c = refresh_fields w c.version_stage c.static end no_clients

-- Refresh; `decode` is json.Unmarshal into the type of the output.
unfoldable pub refresh {ℓ} :
    {A : Type ℓ} → ConfigWorld → (Text → Result Text A) → ConfigValues → Result Text A
unfolding refresh_map
refresh w decode c =
    wrap (codes "failed to refresh config") (refresh_map w c) >>= λ (r : Fields × RefreshState).
    wrap (codes "failed to unmarshal the json config") (w.marshal r.0) >>= decode

-- SetFromJSON, with LoadJSON of common/utils.go
unfoldable pub set_from_json : ConfigWorld → ConfigValues → Text → Result Text ConfigValues
set_from_json w c filename = do
  bytes ← w.read_file filename
  value ← w.unmarshal_map bytes
  set_from_map c value
