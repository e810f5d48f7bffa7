-- ===== src/Common/Flatten/Keys.antt =====
-- The names of the environment variables that FlattenEnvVarMap makes.
use awstools.Prelude.{
  ℕ, ◌≡◌, refl, ap₂, arith, List, [], ◌∷◌, ◌++◌, ok, All, >>=-eq-ok, ok-injective,
}
use awstools.Prelude.Text.{Text, codes}
use mathlib.Core.List.{map-append}
use awstools.Common.Config.Values.{Value, Fields, text, object, end, field}
use awstools.Common.Config.Refresh.{assign}
use awstools.Common.Flatten.{
  to_upper, dash_to_underscore, transform_key_env_var, add_sub, flatten_fields, flatten_entry,
  flatten_env_var_map,
}

-- A name of an environment variable: no lower-case letter, and no dash.
abbrev pub IsEnvVarName : Text → Type 0
IsEnvVarName key = transform_key_env_var key ≡ key

byte_idempotent :
    (c : ℕ)
    → dash_to_underscore (to_upper (dash_to_underscore (to_upper c)))
      ≡ dash_to_underscore (to_upper c)
unfolding to_upper dash_to_underscore
byte_idempotent c = ground arith

pub transform_key_env_var_idempotent : (key : Text) → IsEnvVarName (transform_key_env_var key)
unfolding transform_key_env_var
transform_key_env_var_idempotent [] = refl
transform_key_env_var_idempotent (c ∷ key) =
    ap₂ (λ x y. x ∷ y) (byte_idempotent c) (transform_key_env_var_idempotent key)

IsEnvVarName-append : (s t : Text) → IsEnvVarName s → IsEnvVarName t → IsEnvVarName (s ++ t)
unfolding transform_key_env_var
IsEnvVarName-append s t h k = rw (map-append, map-append, h, k)

abbrev pub AllNames : List (Text × Text) → Type 0
AllNames vars = All (λ (e : Text × Text). IsEnvVarName e.0) vars

assign-AllNames :
    (k v : Text) (vars : List (Text × Text))
    → IsEnvVarName k
    → AllNames vars
    → AllNames (assign k v vars)
unfolding assign
assign-AllNames k v [] n h = (n, tt)
assign-AllNames k v ((j, u) ∷ vars) n h = ground (arith, assign-AllNames k v vars n)

add_sub-AllNames :
    (key : Text) (sub result : List (Text × Text))
    → IsEnvVarName key
    → AllNames result
    → AllNames (add_sub transform_key_env_var (codes "_") key sub result)
unfolding add_sub
add_sub-AllNames key [] result n h = h
add_sub-AllNames key ((k, v) ∷ sub) result n h =
    let name = IsEnvVarName-append key _ n (
      IsEnvVarName-append (codes "_") (transform_key_env_var k) underscore
        (transform_key_env_var_idempotent k)) in
    add_sub-AllNames key sub _ n (assign-AllNames _ v result name h)
  where
    underscore : IsEnvVarName (codes "_")
    underscore = unfold transform_key_env_var in refl

mutual
  unfolding flatten_fields

  flatten_fields-AllNames :
      (input : Fields) (result vars : List (Text × Text))
      → flatten_fields transform_key_env_var (codes "_") input result ≡ ok vars
      → AllNames result
      → AllNames vars
  flatten_fields-AllNames end result vars e h = rw (← ok-injective e) h
  flatten_fields-AllNames (field key value input) result vars e h =
      let (mid, first, e') =
        >>=-eq-ok
          (flatten_entry transform_key_env_var (codes "_") value (transform_key_env_var key) result)
          _ e in
      flatten_fields-AllNames input mid vars e' (
        flatten_entry-AllNames value (transform_key_env_var key) result mid first
          (transform_key_env_var_idempotent key) h)

  flatten_entry-AllNames :
      (value : Value) (key : Text) (result vars : List (Text × Text))
      → flatten_entry transform_key_env_var (codes "_") value key result ≡ ok vars
      → IsEnvVarName key
      → AllNames result
      → AllNames vars
  flatten_entry-AllNames (text v) key result vars e n h =
      rw (← ok-injective e) (assign-AllNames key v result n h)
  flatten_entry-AllNames (object m) key result vars e n h =
      let (sub, first, e') =
        >>=-eq-ok (flatten_fields transform_key_env_var (codes "_") m []) _ e in
      rw (← ok-injective e') (add_sub-AllNames key sub result n h)
  flatten_entry-AllNames value key result vars e n h = cc

-- Every name that FlattenEnvVarMap makes, also from nested maps, has no lower-case letter and no
-- dash: transforming it once more changes nothing.
flatten_env_var_map-AllNames :
    (input : Fields) (vars : List (Text × Text))
    → flatten_env_var_map input ≡ ok vars
    → AllNames vars
unfolding flatten_env_var_map
flatten_env_var_map-AllNames input vars e = flatten_fields-AllNames input [] vars e tt
