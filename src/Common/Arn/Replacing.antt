-- ===== src/Common/Arn/Replacing.antt =====
-- ReplaceAccountID: what it changes, and what it leaves.
use awstools.Prelude.{◌≡◌, arith, [], ◌∷◌, ◌++◌, ok, ok-injective, All, List}
use awstools.Prelude.Text.{
  Text, codes, split, split-Free, split-Free_other, join-Free, Free, Free-append,
}
use awstools.Common.Arn.{
  Arn, head_fields, add_part, slash_resource, colon_resource, resource_string, arn_string,
  from_parts, with_resource, parse_arn, replace_account_id,
}
use awstools.Common.Arn.Printing.{arn_string-split}

-- No field of the ARN holds a colon.
pub record IsColonFree (a : Arn) : Type 0 where
  pub partition : Free b':' a.partition
  pub service : Free b':' a.service
  pub region : Free b':' a.region
  pub account_id : Free b':' a.account_id
  pub resource_type : Free b':' a.resource_type
  pub resource : Free b':' a.resource
  pub qualifier : Free b':' a.qualifier

slash_resource-IsColonFree :
    (a : Arn) (parts : List Text)
    → IsColonFree a
    → All (Free b':') parts
    → IsColonFree (slash_resource a parts)
unfolding slash_resource
slash_resource-IsColonFree a [] h k = h
slash_resource-IsColonFree a (r ∷ []) h k = ground arith
slash_resource-IsColonFree a (t ∷ r ∷ []) h k = ground arith
slash_resource-IsColonFree a (t ∷ r ∷ q ∷ qs) h k =
    ground (arith, join-Free b':' (codes "/") (q ∷ qs) (omega arith) k.1.1)

colon_resource-IsColonFree :
    (a : Arn) (parts : List Text) (p6 : Text) (rest : List Text)
    → IsColonFree a
    → All (Free b':') parts
    → Free b':' p6
    → All (Free b':') rest
    → IsColonFree (colon_resource a parts p6 rest)
unfolding colon_resource
colon_resource-IsColonFree a [] p6 rest h k k6 kr = h
colon_resource-IsColonFree a (t ∷ []) p6 rest h k k6 kr = ground arith
colon_resource-IsColonFree a (t ∷ r ∷ _) p6 rest h k k6 kr =
    ground (arith, join-Free b':' (codes "/") rest (omega arith) kr)

with_resource-IsColonFree :
    (a : Arn) (p5 : Text) (rest : List Text)
    → IsColonFree a
    → Free b':' p5
    → All (Free b':') rest
    → IsColonFree (with_resource a p5 rest)
unfolding with_resource
with_resource-IsColonFree a p5 [] h k kr =
    slash_resource-IsColonFree a _ h (split-Free_other b':' b'/' p5 k)
with_resource-IsColonFree a p5 (p6 ∷ []) h k kr =
    colon_resource-IsColonFree a _ p6 _ h (split-Free_other b':' b'/' p5 k) kr.0 kr
with_resource-IsColonFree a p5 (p6 ∷ p7 ∷ []) h k kr = ground arith
with_resource-IsColonFree a p5 (p6 ∷ p7 ∷ p8 ∷ rest) h k kr =
    colon_resource-IsColonFree a _ p6 _ h (split-Free_other b':' b'/' p5 k) kr.0 kr

from_parts-IsColonFree :
    (parts : List Text) (a : Arn) → All (Free b':') parts → from_parts parts ≡ ok a → IsColonFree a
unfolding from_parts
from_parts-IsColonFree (p0 ∷ p1 ∷ p2 ∷ p3 ∷ p4 ∷ p5 ∷ rest) a h e = rw (← ok-injective e) (
    with_resource-IsColonFree (head_fields p1 p2 p3 p4) p5 rest (ground arith) (ground arith)
      (ground arith))
from_parts-IsColonFree parts a h e = cc

parse_arn-IsColonFree : (arn : Text) (a : Arn) → parse_arn arn ≡ ok a → IsColonFree a
unfolding parse_arn
parse_arn-IsColonFree arn a e = from_parts-IsColonFree (split b':' arn) a (split-Free b':' arn) e

add_part-Free :
    (resource part : Text)
    → Free b':' resource
    → Free b':' part
    → Free b':' (add_part resource part)
unfolding add_part
add_part-Free resource part h k = ground (arith, Free-append b':' resource (codes "/" ++ part))

resource_string-Free : (a : Arn) → IsColonFree a → Free b':' (resource_string a)
unfolding resource_string
resource_string-Free a h =
    add_part-Free _ a.qualifier
      (add_part-Free _ a.resource (add_part-Free [] a.resource_type tt h.resource_type) h.resource)
      h.qualifier

-- The fields before the resource do not depend on how the resource was read.
pub record SameHead (a b : Arn) : Type 0 where
  pub partition : a.partition ≡ b.partition
  pub service : a.service ≡ b.service
  pub region : a.region ≡ b.region
  pub account_id : a.account_id ≡ b.account_id

pub slash_resource-SameHead : (a : Arn) (parts : List Text) → SameHead (slash_resource a parts) a
unfolding slash_resource
slash_resource-SameHead a [] = ground arith
slash_resource-SameHead a (r ∷ []) = ground arith
slash_resource-SameHead a (t ∷ r ∷ []) = ground arith
slash_resource-SameHead a (t ∷ r ∷ q ∷ qs) = ground arith

with_resource-SameHead_slash : (a : Arn) (p5 : Text) → SameHead (with_resource a p5 []) a
unfolding with_resource
with_resource-SameHead_slash a p5 = slash_resource-SameHead a (split b'/' p5)

-- Whatever the form of the ARN that was parsed, ReplaceAccountID succeeds for an account without a
-- colon, and its result parses to an ARN with the new account and the old partition, service and
-- region.
pub replace_account_id-parse :
    (arn account_id : Text) (a : Arn)
    → Free b':' account_id
    → parse_arn arn ≡ ok a
    → (out : Text) × (b : Arn) × (replace_account_id arn account_id ≡ ok out)
      × (parse_arn out ≡ ok b)
      × SameHead b (record a { account_id = account_id })
unfolding replace_account_id
replace_account_id-parse arn account_id a free parsed =
    let old = parse_arn-IsColonFree arn a parsed in
    let new : Arn = record a { account_id = account_id } in
    let parts =
      arn_string-split new old.partition old.service old.region free (resource_string-Free a old) in
    let head = head_fields a.partition a.service a.region account_id in
    let same = with_resource-SameHead_slash head (resource_string new) in
    (
      arn_string new,
      with_resource head (resource_string new) [],
      rw parsed,
      rw parts,
      record {
        partition = same.partition;
        service = same.service;
        region = same.region;
        account_id = same.account_id;
      },
    )
