-- ===== src/Tests/Flatten.antt =====
-- Runs of FlattenMap and FlattenEnvVarMap at concrete inputs.
use awstools.Prelude.{◌≡◌, refl, true, List, [], ◌∷◌, ok, err}
use awstools.Prelude.Text.{Text, codes}
use awstools.Common.Config.Values.{Fields, null, boolean, text, number, object, end, field}
use awstools.Common.Config.Refresh.{assign}
use awstools.Common.Flatten.{
  type_assertion_panic, transform_key_env_var, flatten_map, flatten_env_var_map,
}
use awstools.Common.Flatten.Texts.{error_of, first_error, error_of-flatten_map}

abbrev nested : Fields
nested =
    field (codes "db") (object (field (codes "user-name") (text (codes "u")) end))
      (field (codes "home") (text (codes "/")) end)

abbrev variables : List (Text × Text)
variables = (codes "DB_USER_NAME", codes "u") ∷ (codes "HOME", codes "/") ∷ []

flatten_nested : flatten_env_var_map nested ≡ ok variables
unfolding flatten_env_var_map assign
flatten_nested = refl

flatten_number :
    flatten_env_var_map (field (codes "port") (number (codes "80")) end) ≡ err type_assertion_panic
unfolding flatten_env_var_map
flatten_number = refl

-- The boolean in the nested map comes before the null.
abbrev mixed : Fields
mixed =
    field (codes "a") (text (codes "x")) (
      field (codes "b") (object (field (codes "c") (boolean true) end))
        (field (codes "d") null end))

error_of-flatten_map_example :
    error_of (flatten_map transform_key_env_var (codes "_") mixed) ≡ first_error mixed
error_of-flatten_map_example = error_of-flatten_map transform_key_env_var (codes "_") mixed
