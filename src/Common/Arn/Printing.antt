-- ===== src/Common/Arn/Printing.antt =====
-- (*ARN).String, and how it and ParseARN undo each other.
use awstools.Prelude.{◌≡◌, ◌≢◌, refl, ap, arith, [], ◌∷◌, append_assoc, ok}
use awstools.Prelude.Text.{
  Text, codes, split, split-append, split-Free_word, split-cons, join, split-join, join-split, Free,
}
use awstools.Common.Arn.{Arn, resource_string, arn_string, from_parts, with_resource, parse_arn}

-- An ARN whose fields are free of the separators, with a resource, and with a resource type if
-- there is a qualifier.
pub record IsWellFormed (a : Arn) : Type 0 where
  pub partition : Free b':' a.partition
  pub service : Free b':' a.service
  pub region : Free b':' a.region
  pub account_id : Free b':' a.account_id
  pub resource_type : Free b'/' a.resource_type
  pub resource : Free b'/' a.resource
  pub some_resource : a.resource ≢ []
  pub typed : a.resource_type ≡ [] → a.qualifier ≡ []
  pub whole : Free b':' (resource_string a)

-- The resource fields as ParseARN reads them back.
pub with_resource_string :
    (a b : Arn) (t r q : Text)
    → Free b'/' t
    → Free b'/' r
    → r ≢ []
    → (t ≡ [] → q ≡ [])
    → with_resource
        (record a { resource_type = []; resource = []; qualifier = [] })
        (resource_string (record b { resource_type = t; resource = r; qualifier = q }))
        []
      ≡ record a { resource_type = t; resource = r; qualifier = q }
unfolding with_resource resource_string join
with_resource_string a b [] [] [] ht hr ne ty = absurd (ne refl)
with_resource_string a b [] (d ∷ r) [] ht hr ne ty = rw (split-Free_word b'/' (d ∷ r) hr)
with_resource_string a b [] r (x ∷ q) ht hr ne ty = cc (ty refl)
with_resource_string a b (c ∷ t) [] q ht hr ne ty = absurd (ne refl)
with_resource_string a b (c ∷ t) (d ∷ r) [] ht hr ne ty =
    rw (split-append b'/' (c ∷ t) (d ∷ r) ht, split-Free_word b'/' (d ∷ r) hr)
with_resource_string a b (c ∷ t) (d ∷ r) (x ∷ q) ht hr ne ty =
    let (w, ws, e) = split-cons b'/' (x ∷ q) in
    rw (append_assoc, split-append b'/' (c ∷ t) _ ht, split-append b'/' (d ∷ r) _ hr, e)
      (ap (λ s. record a { resource_type = c ∷ t; resource = d ∷ r; qualifier = s })
        (rw (← e) (join-split b'/' (x ∷ q))))

pub arn_string-split :
    (a : Arn)
    → Free b':' a.partition
    → Free b':' a.service
    → Free b':' a.region
    → Free b':' a.account_id
    → Free b':' (resource_string a)
    → split b':' (arn_string a)
      ≡ codes "arn" ∷ a.partition ∷ a.service ∷ a.region ∷ a.account_id ∷ resource_string a ∷ []
unfolding arn_string
arn_string-split a p s r i w =
    split-join b':' (codes "arn")
      (a.partition ∷ a.service ∷ a.region ∷ a.account_id ∷ resource_string a ∷ [])
      (omega arith, (p, (s, (r, (i, (w, tt))))))

-- Parsing a printed well-formed ARN gives the ARN back.
pub parse_arn-arn_string : (a : Arn) → IsWellFormed a → parse_arn (arn_string a) ≡ ok a
unfolding parse_arn from_parts
parse_arn-arn_string a h =
    rw (arn_string-split a h.partition h.service h.region h.account_id h.whole) (
      ap ok (
        with_resource_string a a a.resource_type a.resource a.qualifier h.resource_type h.resource
          h.some_resource h.typed))
