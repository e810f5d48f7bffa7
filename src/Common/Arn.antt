-- ===== src/Common/Arn.antt =====
-- common/arn.go: ARNs as records, their parser, printer and account substitution.
pub mod Printing
pub mod Parsing
pub mod Replacing
pub mod Exact
use awstools.Prelude.{
  ℕ, Option, none, some, List, [], ◌∷◌, ◌++◌, Result, ok, err, ◌>>=◌, map_err, if◌then◌else◌,
}
use awstools.Prelude.Text.{Text, codes, split, join, is_empty}

pub record Arn : Type 0 where
  pub partition : Text
  pub service : Text
  pub region : Text
  pub account_id : Text
  pub resource_type : Text
  pub resource : Text
  pub qualifier : Text

pub data ArnError : Type 0 where
  invalid_format : ArnError

-- One round of the loop of `String` over the three resource fields.
unfoldable pub add_part : Text → Text → Text
add_part resource part =
    if is_empty part
    then resource
    else if is_empty resource
    then part
    else resource ++ (codes "/" ++ part)

add_parts : Text → List Text → Text
unfolding add_part
add_parts resource [] = resource
add_parts resource (part ∷ parts) = add_parts (add_part resource part) parts

unfoldable pub resource_string : Arn → Text
unfolding add_parts
resource_string a = add_parts [] (a.resource_type ∷ a.resource ∷ a.qualifier ∷ [])

-- (*ARN).String
unfoldable pub arn_string : Arn → Text
unfolding resource_string
arn_string a =
    join (codes ":")
      (codes "arn" ∷ a.partition ∷ a.service ∷ a.region ∷ a.account_id ∷ resource_string a ∷ [])

-- len(parts) == 6
pub slash_resource : Arn → List Text → Arn
slash_resource a [] = a
slash_resource a (r ∷ []) = record a { resource = r }
slash_resource a (t ∷ r ∷ []) = record a { resource_type = t; resource = r }
slash_resource a (t ∷ r ∷ q ∷ qs) = record a {
  resource_type = t;
  resource = r;
  qualifier = join (codes "/") (q ∷ qs);
}

-- len(parts) is 7 or more than 8; `rest` is parts[6:], and its head parts[6].
colon_resource : Arn → List Text → Text → List Text → Arn
colon_resource a [] p6 rest = a
colon_resource a (t ∷ []) p6 rest = record a { resource_type = t; resource = p6 }
colon_resource a (t ∷ r ∷ _) p6 rest = record a {
  resource_type = t;
  resource = r;
  qualifier = join (codes "/") rest;
}

unfoldable pub with_resource : Arn → Text → List Text → Arn
unfolding slash_resource colon_resource
with_resource a p5 [] = slash_resource a (split b'/' p5)
with_resource a p5 (p6 ∷ []) = colon_resource a (split b'/' p5) p6 (p6 ∷ [])
with_resource a p5 (p6 ∷ p7 ∷ []) = record a { resource_type = p5; resource = p6; qualifier = p7 }
with_resource a p5 (p6 ∷ p7 ∷ p8 ∷ rest) = colon_resource a (split b'/' p5) p6 (p6 ∷ p7 ∷ p8 ∷ rest)

-- The ARN with its first four fields set, and the others empty.
abbrev pub head_fields : Text → Text → Text → Text → Arn
head_fields partition service region account_id = record {
  partition = partition;
  service = service;
  region = region;
  account_id = account_id;
  resource_type = [];
  resource = [];
  qualifier = [];
}

unfoldable pub from_parts : List Text → Result ArnError Arn
unfolding with_resource
from_parts (p0 ∷ p1 ∷ p2 ∷ p3 ∷ p4 ∷ p5 ∷ rest) =
    ok (with_resource (head_fields p1 p2 p3 p4) p5 rest)
from_parts _ = err invalid_format

-- ParseARN
unfoldable pub parse_arn : Text → Result ArnError Arn
unfolding from_parts
parse_arn arn = from_parts (split b':' arn)

-- ReplaceAccountID
unfoldable pub replace_account_id : Text → Text → Result ArnError Text
unfolding parse_arn arn_string
replace_account_id arn account_id = do
  parsed ← parse_arn arn
  ok (arn_string (record parsed { account_id = account_id }))

-- ReplaceAccountIDPtr
unfoldable pub replace_account_id_ptr : Option Text → Text → Result ArnError (Option Text)
unfolding replace_account_id
replace_account_id_ptr none account_id = ok none
replace_account_id_ptr (some arn) account_id = do
  res ← replace_account_id arn account_id
  ok (some res)
