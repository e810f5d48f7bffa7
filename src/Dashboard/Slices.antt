-- ===== src/Dashboard/Slices.antt =====
-- The requests for the services of a cluster.
use awstools.Prelude.{
  append-nil, ℕ, zero, suc, ◌+◌, ◌-◌, ◌≤◌, ◌<◌, ◌≡◌, refl, sym, ap, ◌∙◌, arith, true, List, [], ◌∷◌,
  ◌++◌, length, take, drop, take-append-drop, ltb, All, Bool-cases, inl, inr,
}
use awstools.Prelude.Text.{Text}
use awstools.Dashboard.{concat, max_index, slices_from, slices}

ten : (i : ℕ) → i + 10 - i ≡ 10
ten i = omega arith

zero_plus : (n : ℕ) → n ≡ 0 + n
zero_plus n = omega arith

suc_plus : (m n : ℕ) → suc (m + n) ≡ suc m + n
suc_plus m n = omega arith

module _ {ℓ} {A : Type ℓ} where
  drop_past : (n : ℕ) (xs : List A) → length xs ≤ n → drop n xs ≡ []
  drop_past zero [] h = refl
  drop_past zero (x ∷ xs) h = absurd (omega arith)
  drop_past (suc n) [] h = refl
  drop_past (suc n) (x ∷ xs) h = drop_past n xs (omega arith)

  drop-drop : (m n : ℕ) (xs : List A) → drop n (drop m xs) ≡ drop (m + n) xs
  drop-drop zero n xs = ap (λ k. drop k xs) (zero_plus n)
  drop-drop (suc m) zero [] = sym (drop_past (suc m + zero) [] (omega arith))
  drop-drop (suc m) (suc n) [] = sym (drop_past (suc m + suc n) [] (omega arith))
  drop-drop (suc m) n (x ∷ xs) = drop-drop m n xs ∙ ap (λ k. drop k (x ∷ xs)) (suc_plus m n)

  length-drop : (n : ℕ) (xs : List A) → length (drop n xs) ≡ length xs - n
  length-drop zero xs = omega arith
  length-drop (suc n) [] = omega arith
  length-drop (suc n) (x ∷ xs) = omega (arith, length-drop n xs)

  length-take : (n : ℕ) (xs : List A) → n ≤ length xs → length (take n xs) ≡ n
  length-take zero xs h = refl
  length-take (suc n) [] h = omega arith
  length-take (suc n) (x ∷ xs) h = ap suc (length-take n xs (omega arith))

  take_past : (n : ℕ) (xs : List A) → length xs ≤ n → take n xs ≡ xs
  take_past zero [] h = refl
  take_past zero (x ∷ xs) h = absurd (omega arith)
  take_past (suc n) [] h = refl
  take_past (suc n) (x ∷ xs) h = ap (λ (t : List A). x ∷ t) (take_past n xs (omega arith))

  -- One round: the slice, and what the later rounds take.
  slice-append :
      (i : ℕ) (xs : List A)
      → take (max_index i (length xs) - i) (drop i xs) ++ drop (i + 10) xs ≡ drop i xs
  slice-append i xs = elim (Bool-cases (ltb (length xs) (i + 10))) [
    | inl short ↦ rw (short) (
        rw
          (
            drop_past (i + 10) xs (ground arith),
            take_past (length xs - i) (drop i xs) (omega (arith, length-drop i xs)),
          )
          (append-nil (drop i xs)))
    | inr long ↦ rw (long) (rw (← drop-drop i 10 xs, ten i) (take-append-drop 10 (drop i xs)))
  ]

abbrev pub FitsRequest : List Text → Type 0
FitsRequest names = (0 < length names) × (length names ≤ 10)

slice-FitsRequest :
    (i : ℕ) (names : List Text)
    → ltb i (length names) ≡ true
    → FitsRequest (take (max_index i (length names) - i) (drop i names))
slice-FitsRequest i names more =
    rw
      (length-take (max_index i (length names) - i) (drop i names)
        (ground (arith, length-drop i names)))
      (ground arith, ground arith)

slices_from_lem :
    (fuel i : ℕ) (names : List Text)
    → length names ≤ i + fuel
    → (concat (slices_from fuel i names) ≡ drop i names)
      × All FitsRequest (slices_from fuel i names)
unfolding concat slices_from
slices_from_lem zero i names h = (sym (drop_past i names (omega arith)), tt)
slices_from_lem (suc fuel) i names h = elim (Bool-cases (ltb i (length names))) [
  | inl more ↦
      let later = slices_from_lem fuel (i + 10) names (omega arith) in
      rw (more, slices_from)
        (rw (later.0) (slice-append i names), (slice-FitsRequest i names more, later.1))
  | inr done ↦ rw (done, slices_from) (sym (drop_past i names (ground arith)), tt)
]

-- The requests of a cluster name each of its services once, in order, and each names between one
-- and ten of them.
pub slices_lem :
    (names : List Text) → (concat (slices names) ≡ names) × All FitsRequest (slices names)
unfolding slices
slices_lem names = slices_from_lem (length names) 0 names (omega arith)
