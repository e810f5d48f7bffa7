-- ===== src/Common/Flatten/Texts.antt =====
-- Which maps FlattenMap accepts, and how it fails for the others.
use awstools.Prelude.{
  ◌≡◌, refl, ap, ◌∙◌, Option, none, some, List, [], Result, ok, err, ◌>>=◌, >>=-eq-ok, ◌↔◌,
}
use awstools.Prelude.Text.{Text}
use awstools.Common.Config.Values.{
  Value, Fields, null, boolean, number, list, text, object, secret, end, field,
}
use awstools.Common.Flatten.{
  FlattenError, unsupported_type, type_assertion_panic, flatten_fields, flatten_entry, flatten_map,
  add_sub,
}

-- The error of a result, if it is one.
abbrev pub error_of : {E A : Type 0} → Result E A → Option E
error_of (ok a) = none
error_of (err e) = some e

abbrev pub earlier : Option FlattenError → Option FlattenError → Option FlattenError
earlier none other = other
earlier (some e) other = some e

-- The leaves of the map are texts.
unfoldable mutual
  pub AllTexts : Fields → Type 0
  AllTexts end = Unit
  AllTexts (field k v m) = AllTextsEntry v × AllTexts m

  pub AllTextsEntry : Value → Type 0
  AllTextsEntry (text v) = Unit
  AllTextsEntry (object m) = AllTexts m
  AllTextsEntry _ = ⊥

module _ (transform_key : Text → Text) (separator : Text) where
  mutual
    unfolding flatten_fields AllTexts

    flatten_fields-total :
        (input : Fields) (result : List (Text × Text))
        → AllTexts input
        → (vars : List (Text × Text)) × (flatten_fields transform_key separator input result
            ≡ ok vars)
    flatten_fields-total end result h = (result, refl)
    flatten_fields-total (field key value input) result h =
        let (mid, e) = flatten_entry-total value (transform_key key) result h.0 in
        let (vars, e') = flatten_fields-total input mid h.1 in (vars, rw e e')

    flatten_entry-total :
        (value : Value) (key : Text) (result : List (Text × Text))
        → AllTextsEntry value
        → (vars : List (Text × Text)) × (flatten_entry transform_key separator value key result
            ≡ ok vars)
    flatten_entry-total (text v) key result h = (_, refl)
    flatten_entry-total (object m) key result h =
        let (sub, e) = flatten_fields-total m [] h in
        (add_sub transform_key separator key sub result, rw e)
    flatten_entry-total value key result h = absurd h

  mutual
    unfolding flatten_fields AllTexts

    flatten_fields-AllTexts :
        (input : Fields) (result vars : List (Text × Text))
        → flatten_fields transform_key separator input result ≡ ok vars
        → AllTexts input
    flatten_fields-AllTexts end result vars e = tt
    flatten_fields-AllTexts (field key value input) result vars e =
        let (mid, first, e') =
          >>=-eq-ok (flatten_entry transform_key separator value (transform_key key) result) _ e in
        (
          flatten_entry-AllTexts value (transform_key key) result mid first,
          flatten_fields-AllTexts input mid vars e',
        )

    flatten_entry-AllTexts :
        (value : Value) (key : Text) (result vars : List (Text × Text))
        → flatten_entry transform_key separator value key result ≡ ok vars
        → AllTextsEntry value
    flatten_entry-AllTexts (text v) key result vars e = tt
    flatten_entry-AllTexts (object m) key result vars e =
        let (sub, first, e') = >>=-eq-ok (flatten_fields transform_key separator m []) _ e in
        flatten_fields-AllTexts m [] sub first
    flatten_entry-AllTexts value key result vars e = cc

  -- A result exactly for the maps whose leaves are all texts.
  flatten_map-eq-ok_iff :
      (input : Fields)
      → ((vars : List (Text × Text)) × (flatten_map transform_key separator input ≡ ok vars))
        ↔ AllTexts input
  unfolding flatten_map
  flatten_map-eq-ok_iff input =
      ((λ h. flatten_fields-AllTexts input [] h.0 h.1), λ h. flatten_fields-total input [] h)

-- What the first leaf that is no text, in the order of the loops, leads to; `none` if all are texts.
unfoldable mutual
  pub first_error : Fields → Option FlattenError
  first_error end = none
  first_error (field k v m) = earlier (entry_error v) (first_error m)

  pub entry_error : Value → Option FlattenError
  entry_error null = some unsupported_type
  entry_error (boolean b) = some type_assertion_panic
  entry_error (number n) = some type_assertion_panic
  entry_error (list vs) = some unsupported_type
  entry_error (text v) = none
  entry_error (object m) = first_error m
  entry_error (secret s) = some unsupported_type

error_of_bind :
    {A B : Type 0} (r : Result FlattenError A) (k : A → Result FlattenError B)
    (e : Option FlattenError)
    → ((a : A) → error_of (k a) ≡ e)
    → error_of (r >>= k) ≡ earlier (error_of r) e
error_of_bind (ok a) k e h = h a
error_of_bind (err d) k e h = refl

earlier-none : (e : Option FlattenError) → earlier e none ≡ e
earlier-none none = refl
earlier-none (some e) = refl

module _ (transform_key : Text → Text) (separator : Text) where
  mutual
    unfolding flatten_fields first_error

    flatten_fields-first_error :
        (input : Fields) (result : List (Text × Text))
        → error_of (flatten_fields transform_key separator input result) ≡ first_error input
    flatten_fields-first_error end result = refl
    flatten_fields-first_error (field key value input) result =
        rw (← flatten_entry-entry_error value (transform_key key) result) (
          error_of_bind (flatten_entry transform_key separator value (transform_key key) result) _
            (first_error input) (flatten_fields-first_error input))

    flatten_entry-entry_error :
        (value : Value) (key : Text) (result : List (Text × Text))
        → error_of (flatten_entry transform_key separator value key result) ≡ entry_error value
    flatten_entry-entry_error null key result = refl
    flatten_entry-entry_error (boolean b) key result = refl
    flatten_entry-entry_error (number n) key result = refl
    flatten_entry-entry_error (list vs) key result = refl
    flatten_entry-entry_error (text v) key result = refl
    flatten_entry-entry_error (object m) key result =
        error_of_bind (flatten_fields transform_key separator m []) _ none (λ sub. refl)
        ∙ (ap (λ e. earlier e none) (flatten_fields-first_error m [])
            ∙ earlier-none (first_error m))
    flatten_entry-entry_error (secret s) key result = refl

  -- FlattenMap fails exactly if some leaf of the map, at any depth, is no text, and the first such
  -- leaf in the order of the loops decides how: at a number or a boolean, for which the code has a
  -- case, it panics, and at null, a list or a source it returns the error "Unsupported type".
  pub error_of-flatten_map :
      (input : Fields) → error_of (flatten_map transform_key separator input) ≡ first_error input
  unfolding flatten_map
  error_of-flatten_map input = flatten_fields-first_error input []
