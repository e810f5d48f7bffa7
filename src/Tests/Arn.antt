-- ===== src/Tests/Arn.antt =====
-- The cases of common/arn_test.go and of aws/dump/resources/job_test.go.
use awstools.Prelude.{◌≡◌, refl, arith, [], ok, some}
use awstools.Prelude.Text.{Text, codes, split, join}
use awstools.Common.Arn.{Arn, arn_string, parse_arn, replace_account_id, replace_account_id_ptr}
use awstools.Common.Arn.Printing.{IsWellFormed, parse_arn-arn_string}
use awstools.Common.Arn.Replacing.{SameHead, replace_account_id-parse}

abbrev role_text : Text
role_text = codes "arn:aws:iam::33:role/aws-service-role/autoscaling.amazonaws.com/Service"

abbrev role : Arn
role = record {
  partition = codes "aws";
  service = codes "iam";
  region = [];
  account_id = codes "33";
  resource_type = codes "role";
  resource = codes "aws-service-role";
  qualifier = codes "autoscaling.amazonaws.com/Service";
}

parse_role : parse_arn role_text ≡ ok role
unfolding parse_arn split join
parse_role = refl

replace_role :
    replace_account_id_ptr (some role_text) (codes "99")
    ≡ ok (some (codes "arn:aws:iam::99:role/aws-service-role/autoscaling.amazonaws.com/Service"))
unfolding replace_account_id_ptr split join
replace_role = refl

abbrev sample : Text → Text → Text → Arn
sample kind name qualifier = record {
  partition = codes "p";
  service = codes "s";
  region = codes "r";
  account_id = codes "a";
  resource_type = kind;
  resource = name;
  qualifier = qualifier;
}

parse_forms :
    (parse_arn (codes "arn:p:s:r:a:res") ≡ ok (sample [] (codes "res") []))
    × (parse_arn (codes "arn:p:s:r:a:typ/res") ≡ ok (sample (codes "typ") (codes "res") []))
    × (parse_arn (codes "arn:p:s:r:a:typ/res/q")
        ≡ ok (sample (codes "typ") (codes "res") (codes "q")))
    × (parse_arn (codes "arn:p:s:r:a:typ:res") ≡ ok (sample (codes "typ") (codes "res") []))
    × (parse_arn (codes "arn:p:s:r:a:typ/res:q")
        ≡ ok (sample (codes "typ") (codes "res") (codes "q")))
    × (parse_arn (codes "arn:p:s:r:a:typ:res:q")
        ≡ ok (sample (codes "typ") (codes "res") (codes "q")))
unfolding parse_arn split join
parse_forms = (refl, refl, refl, refl, refl, refl)

role-IsWellFormed : IsWellFormed role
unfolding arn_string
role-IsWellFormed = ground arith

parse_arn-arn_string_example : parse_arn (arn_string role) ≡ ok role
parse_arn-arn_string_example = parse_arn-arn_string role role-IsWellFormed

replace_account_id-parse_example :
    (out : Text) × (b : Arn) × (replace_account_id role_text (codes "99") ≡ ok out)
    × (parse_arn out ≡ ok b)
    × SameHead b (record role { account_id = codes "99" })
replace_account_id-parse_example =
    replace_account_id-parse role_text (codes "99") role (omega arith) parse_role
