-- ===== src/Common/Entries.antt =====
-- Go's maps from strings, as lists of entries.
use awstools.Prelude.{
  ◌≡◌, ◌≢◌, refl, ap, arith, true, false, Option, none, some, List, [], ◌∷◌, Bool-cases, inl, inr,
  if◌then◌else◌,
}
use awstools.Prelude.Text.{Text, eq_text, eq_text_iff, eq_text_refl}

-- m[key]
unfoldable pub find_entry {ℓ} : {A : Type ℓ} → Text → List (Text × A) → Option A
find_entry key [] = none
find_entry key ((k, a) ∷ m) = if eq_text k key then some a else find_entry key m

-- m[key] = a
unfoldable pub put_entry {ℓ} : {A : Type ℓ} → Text → A → List (Text × A) → List (Text × A)
put_entry key a [] = (key, a) ∷ []
put_entry key a ((k, b) ∷ m) =
    let rest = put_entry key a m in if eq_text k key then (k, a) ∷ m else (k, b) ∷ rest

-- delete(m, key)
unfoldable pub remove_entry {ℓ} : {A : Type ℓ} → Text → List (Text × A) → List (Text × A)
remove_entry key [] = []
remove_entry key ((k, a) ∷ m) =
    let rest = remove_entry key m in if eq_text k key then rest else (k, a) ∷ rest

pub find-put :
    {A : Type 0} (key : Text) (a : A) (m : List (Text × A))
    → find_entry key (put_entry key a m) ≡ some a
unfolding find_entry put_entry
find-put key a [] = ground (arith, eq_text_refl key)
find-put key a ((k, b) ∷ m) = ground (arith, find-put key a m)

eq_text_of_ne : (s t : Text) → s ≢ t → eq_text s t ≡ false
eq_text_of_ne s t h = elim (Bool-cases (eq_text s t)) [
  | inl same ↦ absurd (h ((eq_text_iff s t).0 same))
  | inr other ↦ other
]

eq_text_ap : (k other key : Text) → eq_text k other ≡ true → eq_text k key ≡ eq_text other key
eq_text_ap k other key h = ap (λ s. eq_text s key) ((eq_text_iff k other).0 h)

pub find-put_other :
    {A : Type 0} (key other : Text) (a : A) (m : List (Text × A))
    → other ≢ key
    → find_entry key (put_entry other a m) ≡ find_entry key m
unfolding find_entry put_entry
find-put_other key other a [] h = ground (arith, eq_text_of_ne other key h)
find-put_other key other a ((k, b) ∷ m) h =
    ground
      (arith, eq_text_of_ne other key h, eq_text_ap k other key, find-put_other key other a m h)

pub find-remove :
    {A : Type 0} (key : Text) (m : List (Text × A)) → find_entry key (remove_entry key m) ≡ none
unfolding find_entry remove_entry
find-remove key [] = refl
find-remove key ((k, b) ∷ m) = ground (arith, find-remove key m)

pub find-remove_other :
    {A : Type 0} (key other : Text) (m : List (Text × A))
    → other ≢ key
    → find_entry key (remove_entry other m) ≡ find_entry key m
unfolding find_entry remove_entry
find-remove_other key other [] h = refl
find-remove_other key other ((k, b) ∷ m) h =
    ground
      (arith, eq_text_of_ne other key h, eq_text_ap k other key, find-remove_other key other m h)
