-- ===== src/Common/Config/Retries.antt =====
-- RefreshWithRetries: a refresh that fails is tried again after a wait that doubles.
use native.Mathlib.Nat.{add-zero, pow-suc}
use awstools.Prelude.{
  Result-cases, inl, inr, ◌⊎◌, ℕ, zero, suc, ◌+◌, ◌*◌, ◌^◌, ◌<◌, ◌≡◌, refl, ap, arith, List, [],
  ◌∷◌, Result, ok, err, length,
}
use awstools.Prelude.Text.{Text, codes}
use awstools.Common.Config.Generate.{ConfigValues}
use awstools.Common.Config.Refresh.{ConfigWorld, refresh}

-- The result, and the waits in seconds, in order.
pub record Retried {ℓ} (A : Type ℓ) : Type ℓ where
  pub result : Result Text A
  pub waits : List ℕ

abbrev pub slept {ℓ} : {A : Type ℓ} → ℕ → Retried A → Retried A
slept wait r = record { result = r.result; waits = wait ∷ r.waits }

-- The loop, with the rounds that are left; `attempt i` is the result of the refresh in round i.
unfoldable pub retry_from {ℓ} : {A : Type ℓ} → (ℕ → Result Text A) → ℕ → ℕ → ℕ → Retried A
retry_from attempt zero i wait = record {
  result = err (codes "Failed to refresh config");
  waits = [];
}
retry_from attempt (suc left) i wait = elim (attempt i) [
  | ok a ↦ record { result = ok a; waits = [] }
  | err e ↦ slept (wait * 2) (retry_from attempt left (i + 1) (wait * 2))
]

-- RefreshWithRetries; the outside world may differ from round to round.
unfoldable pub refresh_with_retries {ℓ} :
    {A : Type ℓ} → (ℕ → ConfigWorld) → (Text → Result Text A) → ConfigValues → Retried A
unfolding retry_from
refresh_with_retries worlds decode c =
    retry_from (λ i. refresh (worlds i) decode c) c.max_retries 0 2

abbrev pub sum : List ℕ → ℕ
sum [] = 0
sum (x ∷ xs) = x + sum xs

round_shift : (i k : ℕ) → i + suc k ≡ i + 1 + k
round_shift i k = omega arith

module _ {ℓ} {A : Type ℓ} (attempt : ℕ → Result Text A) where
  -- Rounds i to i + n - 1 fail.
  pub AllFail : ℕ → ℕ → Type ℓ
  AllFail i zero = Unit
  AllFail i (suc n) = ((e : Text) × (attempt i ≡ err e)) × AllFail (i + 1) n

  retry_from_ok :
      (left i wait : ℕ) (b : A)
      → attempt i ≡ ok b
      → retry_from attempt (suc left) i wait ≡ record { result = ok b; waits = [] }
  unfolding retry_from
  retry_from_ok left i wait b e = rw (e, retry_from)

  retry_from_err :
      (left i wait : ℕ) (e : Text)
      → attempt i ≡ err e
      → retry_from attempt (suc left) i wait
        ≡ slept (wait * 2) (retry_from attempt left (i + 1) (wait * 2))
  unfolding retry_from
  retry_from_err left i wait e h = rw (h, retry_from)

  -- What a run of the loop has done: either round k is the first that succeeds, or all fail.
  pub Outcome : ℕ → ℕ → Retried A → Type ℓ
  Outcome left i r =
      ((k : ℕ) × (a : A) × (k < left)
        × AllFail i k
        × (attempt (i + k) ≡ ok a)
        × (r.result ≡ ok a)
        × (length r.waits ≡ k))
      ⊎ (AllFail i left
          × (r.result ≡ err (codes "Failed to refresh config"))
          × (length r.waits ≡ left))

  retry_from-Outcome : (left i wait : ℕ) → Outcome left i (retry_from attempt left i wait)
  unfolding Outcome AllFail
  retry_from-Outcome zero i wait = inr (tt, unfold retry_from in refl, unfold retry_from in refl)
  retry_from-Outcome (suc left) i wait = elim (Result-cases (attempt i)) [
    | inl (b, e) ↦
        rw (retry_from_ok left i wait b e)
          (inl (0, b, omega arith, tt, rw (add-zero i) e, refl, refl))
    | inr (c, e) ↦
        rw (retry_from_err left i wait c e) (elim (retry_from-Outcome left (i + 1) (wait * 2)) [
          | inl (k, a, lt, fails, found, same, count) ↦ inl (
            suc k,
            a,
            omega arith,
            ((c, e), fails),
            rw (round_shift i k) found,
            same,
            ap suc count,
          )
          | inr (fails, same, count) ↦ inr (((c, e), fails), same, ap suc count)
        ])
  ]

sum_waits {ℓ} :
    {A : Type ℓ} (attempt : ℕ → Result Text A) (left i wait : ℕ)
    → sum (retry_from attempt left i wait).waits + 2 * wait
      ≡ wait * 2 ^ suc (length (retry_from attempt left i wait).waits)
sum_waits attempt zero i wait = unfold retry_from in omega arith
sum_waits attempt (suc left) i wait = elim (Result-cases (attempt i)) [
  | inl (b, e) ↦ rw (retry_from_ok attempt left i wait b e) (omega arith)
  | inr (c, e) ↦ rw (retry_from_err attempt left i wait c e) (
      rw (pow-suc 2 (suc (length (retry_from attempt left (i + 1) (wait * 2)).waits)))
        (omega (arith, sum_waits attempt left (i + 1) (wait * 2))))
]

-- The result of RefreshWithRetries is that of the first refresh that succeeds among max_retries
-- rounds, and its error appears exactly if all of them fail; there is one wait for each failure.
pub refresh_with_retries-Outcome {ℓ} :
    {A : Type ℓ} (worlds : ℕ → ConfigWorld) (decode : Text → Result Text A) (c : ConfigValues)
    → Outcome
        (λ i. refresh (worlds i) decode c)
        c.max_retries
        0
        (refresh_with_retries worlds decode c)
unfolding refresh_with_retries
refresh_with_retries-Outcome worlds decode c =
    retry_from-Outcome (λ i. refresh (worlds i) decode c) c.max_retries 0 2

-- The waits, in seconds, are 4, 8, 16 and so on: n of them make 4 * 2 ^ n - 4 seconds.
refresh_with_retries-sum {ℓ} :
    {A : Type ℓ} (worlds : ℕ → ConfigWorld) (decode : Text → Result Text A) (c : ConfigValues)
    → sum (refresh_with_retries worlds decode c).waits + 4
      ≡ 4 * 2 ^ length (refresh_with_retries worlds decode c).waits
unfolding refresh_with_retries
refresh_with_retries-sum worlds decode c =
    let attempt = λ (i : ℕ). refresh (worlds i) decode c in
    omega (
      arith,
      sum_waits attempt c.max_retries 0 2,
      pow-suc 2 (length (retry_from attempt c.max_retries 0 2).waits),
    )
