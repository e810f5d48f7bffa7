-- ===== src/Common/Config/Prefixes.antt =====
-- The loops over KeyPrefixes and ValuePrefixes: Go does not fix the order of a loop over a map, and
-- here it does not matter, since no prefix begins with another.
use mathlib.Core.List.Permᴰ
use mathlib.Core.List.{Memᴰ, Permᴰ}
use awstools.Prelude.{
  ◌≡◌, ◌≢◌, refl, sym, ◌∙◌, ap, arith, Option, none, some, List, [], ◌∷◌, All, ok, Option-cases,
  fun_ext, inl, inr,
}
use awstools.Prelude.Text.{Text, strip_prefix}
use awstools.Common.Config.Values.{SourceType, Value, Fields, text, object, end, field}
use awstools.Common.Config.Generate.{
  ConfigValues, new_config_values, find_prefix, generate_text, generate_fields, generate_entry,
  generate_from_map,
}

-- Neither text begins with the other.
abbrev pub AreApart : Text → Text → Type 0
AreApart p q = (strip_prefix p q ≡ none) × (strip_prefix q p ≡ none)

abbrev pub IsPrefixFree : List (SourceType × Text) → Type 0
IsPrefixFree [] = Unit
IsPrefixFree (e ∷ prefixes) =
    All (λ (f : SourceType × Text). AreApart e.1 f.1) prefixes × IsPrefixFree prefixes

AreApart-strip_prefix :
    (p q s a b : Text) → AreApart p q → strip_prefix p s ≡ some a → strip_prefix q s ≡ some b → ⊥
unfolding strip_prefix
AreApart-strip_prefix [] q s a b h x y = ground arith
AreApart-strip_prefix (c ∷ p) [] s a b h x y = ground arith
AreApart-strip_prefix (c ∷ p) (d ∷ q) [] a b h x y = ground arith
AreApart-strip_prefix (c ∷ p) (d ∷ q) (e ∷ s) a b h x y =
    ground (arith, AreApart-strip_prefix p q s a b)

AreApart-Memᴰ :
    (p : Text) {f : SourceType × Text} {prefixes : List (SourceType × Text)}
    → All (λ (g : SourceType × Text). AreApart p g.1) prefixes
    → Memᴰ f prefixes
    → AreApart p f.1
AreApart-Memᴰ p h (Memᴰ.head q) = rw q h.0
AreApart-Memᴰ p h (Memᴰ.tail m) = AreApart-Memᴰ p h.1 m

-- At most one prefix fits a text.
one_fits :
    {e f : SourceType × Text} {prefixes : List (SourceType × Text)} (s a b : Text)
    → IsPrefixFree prefixes
    → Memᴰ e prefixes
    → Memᴰ f prefixes
    → strip_prefix e.1 s ≡ some a
    → strip_prefix f.1 s ≡ some b
    → e ≡ f
one_fits s a b h (Memᴰ.head p) (Memᴰ.head q) x y = p ∙ sym q
one_fits {e} {f} s a b h (Memᴰ.head p) (Memᴰ.tail m) x y =
    absurd (AreApart-strip_prefix e.1 f.1 s a b (rw p (AreApart-Memᴰ _ h.0 m)) x y)
one_fits {e} {f} s a b h (Memᴰ.tail m) (Memᴰ.head q) x y =
    absurd (AreApart-strip_prefix f.1 e.1 s b a (rw q (AreApart-Memᴰ _ h.0 m)) y x)
one_fits s a b h (Memᴰ.tail m) (Memᴰ.tail n) x y = one_fits s a b h.1 m n x y

-- What the loop found is the rest of the text after a prefix of that type.
pub find_prefix-eq-some :
    (prefixes : List (SourceType × Text)) (s : Text) (kind : SourceType) (rest : Text)
    → find_prefix prefixes s ≡ some (kind, rest)
    → (p : Text) × Memᴰ (kind, p) prefixes × (strip_prefix p s ≡ some rest)
unfolding find_prefix
find_prefix-eq-some [] s kind rest h = cc
find_prefix-eq-some ((k, p) ∷ prefixes) s kind rest h = elim (Option-cases (strip_prefix p s)) [
  | inl missed ↦
      let (q, m, e) = find_prefix-eq-some prefixes s kind rest (ground arith) in (q, Memᴰ.tail m, e)
  | inr (r, found) ↦ (p, Memᴰ.head (ground arith), ground arith)
]

-- The loop finds a prefix if one fits.
find_prefix-ne-none :
    (prefixes : List (SourceType × Text)) (s : Text) {e : SourceType × Text} (a : Text)
    → Memᴰ e prefixes
    → strip_prefix e.1 s ≡ some a
    → find_prefix prefixes s ≢ none
unfolding find_prefix
find_prefix-ne-none [] s a m x = elim m [ ]
find_prefix-ne-none ((k, p) ∷ prefixes) s {e} a (Memᴰ.head q) x =
    ground (arith, ap (λ (t : SourceType × Text). t.1) q)
find_prefix-ne-none ((k, p) ∷ prefixes) s a (Memᴰ.tail m) x =
    ground (arith, find_prefix-ne-none prefixes s a m x)

Memᴰ-Permᴰ :
    {e : SourceType × Text} {ps qs : List (SourceType × Text)} → Permᴰ ps qs → Memᴰ e ps → Memᴰ e qs
Memᴰ-Permᴰ Permᴰ.nil m = elim m [ ]
Memᴰ-Permᴰ (Permᴰ.cons h p) (Memᴰ.head q) = Memᴰ.head (q ∙ h)
Memᴰ-Permᴰ (Permᴰ.cons h p) (Memᴰ.tail m) = Memᴰ.tail (Memᴰ-Permᴰ p m)
Memᴰ-Permᴰ (Permᴰ.swap h k) (Memᴰ.head q) = Memᴰ.tail (Memᴰ.head (q ∙ h))
Memᴰ-Permᴰ (Permᴰ.swap h k) (Memᴰ.tail (Memᴰ.head q)) = Memᴰ.head (q ∙ k)
Memᴰ-Permᴰ (Permᴰ.swap h k) (Memᴰ.tail (Memᴰ.tail m)) = Memᴰ.tail (Memᴰ.tail m)
Memᴰ-Permᴰ (Permᴰ.trans p q) m = Memᴰ-Permᴰ q (Memᴰ-Permᴰ p m)

same_find :
    {kind kind' : SourceType} {p p' rest rest' : Text} (s : Text)
    → ◌≡◌ {A = SourceType × Text} (kind, p) (kind', p')
    → strip_prefix p s ≡ some rest
    → strip_prefix p' s ≡ some rest'
    → ◌≡◌ {A = Option (SourceType × Text)} (some (kind, rest)) (some (kind', rest'))
same_find s same e e' = ground (
  arith,
  e,
  e',
  ap (λ (t : SourceType × Text). t.0) same,
  ap (λ (t : SourceType × Text). strip_prefix t.1 s) same,
)

-- The same prefixes, met in another order, find the same source type and the same rest.
pub find_prefix-Permᴰ :
    {ps qs : List (SourceType × Text)} (s : Text)
    → IsPrefixFree ps
    → Permᴰ ps qs
    → find_prefix ps s ≡ find_prefix qs s
find_prefix-Permᴰ {ps} {qs} s free perm = elim (Option-cases (find_prefix ps s)) [
  | inl missed ↦ elim (Option-cases (find_prefix qs s)) [
    | inl missed' ↦ missed ∙ sym missed'
    | inr ((kind, rest), found) ↦
        let (p, m, e) = find_prefix-eq-some qs s kind rest found in
        absurd (find_prefix-ne-none ps s rest (Memᴰ-Permᴰ (Permᴰ.symm perm) m) e missed)
  ]
  | inr ((kind, rest), found) ↦
      let (p, m, e) = find_prefix-eq-some ps s kind rest found in
      elim (Option-cases (find_prefix qs s)) [
        | inl missed' ↦ absurd (find_prefix-ne-none qs s rest (Memᴰ-Permᴰ perm m) e missed')
        | inr ((kind', rest'), found') ↦
            let (p', m', e') = find_prefix-eq-some qs s kind' rest' found' in
            let same = one_fits s rest rest' free m (Memᴰ-Permᴰ (Permᴰ.symm perm) m') e e' in
            found ∙ same_find s same e e' ∙ sym found'
      ]
]

-- Two configurations that differ in the order of their prefixes alone.
pub record SamePrefixes (c d : ConfigValues) : Type 0 where
  pub keys_free : IsPrefixFree c.key_prefixes
  pub values_free : IsPrefixFree c.value_prefixes
  pub keys : Permᴰ c.key_prefixes d.key_prefixes
  pub values : Permᴰ c.value_prefixes d.value_prefixes

module _ {c d : ConfigValues} (same : SamePrefixes c d) where
  generate_text-SamePrefixes :
      (key v : Text) (dst : Fields) → generate_text c key v dst ≡ generate_text d key v dst
  unfolding generate_text
  generate_text-SamePrefixes key v dst = ground (
    arith,
    find_prefix-Permᴰ key same.keys_free same.keys,
    find_prefix-Permᴰ v same.values_free same.values,
  )

  mutual
    unfolding generate_fields

    generate_fields-SamePrefixes :
        (src dst : Fields) → generate_fields c src dst ≡ generate_fields d src dst
    generate_fields-SamePrefixes end dst = refl
    generate_fields-SamePrefixes (field key value src) dst =
        rw (generate_entry-SamePrefixes value key dst, fun_ext (generate_fields-SamePrefixes src))

    generate_entry-SamePrefixes :
        (value : Value) (key : Text) (dst : Fields)
        → generate_entry c value key dst ≡ generate_entry d value key dst
    generate_entry-SamePrefixes (object m) key dst = rw (generate_fields-SamePrefixes m end)
    generate_entry-SamePrefixes (text v) key dst = ap ok (generate_text-SamePrefixes key v dst)
    generate_entry-SamePrefixes value key dst = refl

  -- GenerateFromMap does not depend on the order in which Go meets the prefixes, if none of them
  -- begins with another.
  pub generate_from_map-SamePrefixes :
      (src : Fields) → generate_from_map c src ≡ generate_from_map d src
  unfolding generate_from_map
  generate_from_map-SamePrefixes src = generate_fields-SamePrefixes src end

-- The prefixes of NewConfigValues are such.
pub new_config_values-IsPrefixFree :
    IsPrefixFree new_config_values.key_prefixes × IsPrefixFree new_config_values.value_prefixes
unfolding new_config_values strip_prefix
new_config_values-IsPrefixFree = ground arith
