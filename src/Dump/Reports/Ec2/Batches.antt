-- ===== src/Dump/Reports/Ec2/Batches.antt =====
-- The batches of security groups of ec2.go.
use awstools.Prelude.{
  ℕ, zero, suc, ◌+◌, ◌≤◌, ◌<◌, ◌≡◌, refl, ap, ◌∙◌, arith, true, Option, none, some, List, [], ◌∷◌,
  ◌++◌, append-nil, length, take, drop, take-append-drop, ltb, All, Bool-cases, inl, inr,
}
use awstools.Prelude.Text.{Text}
use awstools.Dump.Jobs.{Session, ReportResult}
use awstools.Dump.Reports.Pages.{all_items, walk, empty_result}
use awstools.Dump.Reports.Ec2.{
  Ec2Client, batches_of, batch_size, attach_uses, ec2_list_security_groups, add_security_group,
  used_groups, with_uses,
}

length-take_le : (n : ℕ) (xs : List Text) → length (take n xs) ≤ n
length-take_le zero xs = omega arith
length-take_le (suc n) [] = omega arith
length-take_le (suc n) (x ∷ xs) = omega (arith, length-take_le n xs)

length-drop_lt : (n : ℕ) (xs : List Text) → 0 < n → n < length xs → length (drop n xs) < length xs
length-drop_lt zero xs h k = absurd (omega arith)
length-drop_lt (suc n) [] h k = absurd (omega arith)
length-drop_lt (suc n) (x ∷ xs) h k = omega (arith, length-drop_le n xs)
  where
    length-drop_le : (m : ℕ) (ys : List Text) → length (drop m ys) ≤ length ys
    length-drop_le zero ys = omega arith
    length-drop_le (suc m) [] = omega arith
    length-drop_le (suc m) (y ∷ ys) = omega (arith, length-drop_le m ys)

batches_of-more :
    (fuel size : ℕ) (ids : List Text) (batches : List (List Text))
    → ltb size (length ids) ≡ true
    → batches_of fuel size (drop size ids) ≡ some batches
    → batches_of (suc fuel) size ids ≡ some (take size ids ∷ batches)
unfolding batches_of
batches_of-more fuel size ids batches large e = rw (large, batches_of, e) refl

-- If the filter allows one id at least, the loop that cuts the ids of security groups into batches
-- ends with more rounds than there are ids; the batches have the ids in order, each once, and no
-- batch is larger than the filter allows.
pub batches_of-some :
    (fuel size : ℕ) (ids : List Text)
    → 0 < size
    → length ids < fuel
    → (batches : List (List Text)) × (batches_of fuel size ids ≡ some batches)
      × (all_items batches ≡ ids)
      × All (λ batch. length batch ≤ size) batches
unfolding batches_of
batches_of-some zero size ids h enough = absurd (omega arith)
batches_of-some (suc fuel) size ids h enough = elim (Bool-cases (ltb size (length ids))) [
  | inr small ↦ (ids ∷ [], rw (small, batches_of) refl, append-nil ids, (ground arith, tt))
  | inl large ↦
      let big : size < length ids = ground arith in
      let (batches, e, same, within) =
        batches_of-some fuel size (drop size ids) h
          (omega (arith, length-drop_lt size ids h big)) in
      (
        take size ids ∷ batches,
        batches_of-more fuel size ids batches large e,
        ap (λ (xs : List Text). take size ids ++ xs) same ∙ take-append-drop size ids,
        (length-take_le size ids, within),
      )
]

attach_uses-some :
    (client : Ec2Client) (session : Session) (s : (ReportResult × List Text) × Option Text)
    → (r : ReportResult) × (attach_uses client session s ≡ some r)
unfolding attach_uses
attach_uses-some client session ((result, ids), some e) = (record result { error = some e }, refl)
attach_uses-some client session ((result, ids), none) =
    let (batches, e, _, _) =
      batches_of-some (length ids + 1) batch_size ids (omega arith) (omega arith) in
    (with_uses client result (used_groups client session batches []), rw (e, attach_uses) refl)

-- The report of the security groups ends, whatever the service answers.
pub ec2_list_security_groups-some :
    (client : Ec2Client) (session : Session)
    → (r : ReportResult) × (ec2_list_security_groups client session ≡ some r)
unfolding ec2_list_security_groups
ec2_list_security_groups-some client session =
    let p = client.security_groups session in
    attach_uses-some client session
      (walk (add_security_group session) p.pages p.error (empty_result, []))
