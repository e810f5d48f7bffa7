-- ===== src/Common/Flatten.antt =====
-- FlattenMap, TransformKeyEnvVar and FlattenEnvVarMap of common/utils.go.
-- Letters are those of ASCII: other bytes are left as they are.
pub mod Keys
pub mod Texts
use awstools.Prelude.{
  ℕ, ◌-◌, Bool, ◌&&◌, List, [], ◌∷◌, ◌++◌, map, Result, ok, err, ◌>>=◌, leb, ◌==◌, if◌then◌else◌,
}
use awstools.Prelude.Text.{Text, codes}
use awstools.Common.Config.Values.{
  Value, Fields, null, boolean, number, list, text, object, secret, end, field,
}
use awstools.Common.Config.Refresh.{assign}

pub data FlattenError : Type 0 where
  -- errors.New("Unsupported type")
  unsupported_type : FlattenError
  -- the panic of v.(string) where v is a number or a boolean
  type_assertion_panic : FlattenError

unfoldable pub to_upper : ℕ → ℕ
to_upper c = if leb b'a' c && leb c b'z' then c - 32 else c

unfoldable pub dash_to_underscore : ℕ → ℕ
dash_to_underscore c = if c == b'-' then b'_' else c

-- TransformKeyEnvVar
unfoldable pub transform_key_env_var : Text → Text
unfolding to_upper dash_to_underscore
transform_key_env_var key = map dash_to_underscore (map to_upper key)

module _ (transform_key : Text → Text) (separator : Text) where
  -- The loop over a flattened nested map.
  unfoldable pub add_sub : Text → List (Text × Text) → List (Text × Text) → List (Text × Text)
  add_sub key [] result = result
  add_sub key ((sub_key, sub_value) ∷ sub) result =
      add_sub key sub (assign (key ++ (separator ++ transform_key sub_key)) sub_value result)

  -- FlattenMap
  unfoldable mutual
    unfolding add_sub

    pub flatten_fields : Fields → List (Text × Text) → Result FlattenError (List (Text × Text))
    flatten_fields end result = ok result
    flatten_fields (field key value input) result = do
      result' ← flatten_entry value (transform_key key) result
      flatten_fields input result'

    pub flatten_entry : Value → Text → List (Text × Text) → Result FlattenError (List (Text × Text))
    flatten_entry (text v) key result = ok (assign key v result)
    flatten_entry (number n) key result = err type_assertion_panic
    flatten_entry (boolean b) key result = err type_assertion_panic
    flatten_entry (object m) key result = do sub ← flatten_fields m []; ok (add_sub key sub result)
    flatten_entry _ key result = err unsupported_type

  unfoldable pub flatten_map : Fields → Result FlattenError (List (Text × Text))
  unfolding flatten_fields
  flatten_map input = flatten_fields input []

-- FlattenEnvVarMap
unfoldable pub flatten_env_var_map : Fields → Result FlattenError (List (Text × Text))
unfolding flatten_map transform_key_env_var
flatten_env_var_map input = flatten_map transform_key_env_var (codes "_") input
