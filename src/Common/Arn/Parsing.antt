-- ===== src/Common/Arn/Parsing.antt =====
-- What ParseARN accepts.
use awstools.Prelude.{◌<◌, ◌≡◌, ◌↔◌, arith, List, [], ◌∷◌, err, length}
use awstools.Prelude.Text.{Text, split, occurrences, length-split}
use awstools.Common.Arn.{invalid_format, from_parts, parse_arn}

from_parts-eq-err_iff :
    (parts : List Text) → (from_parts parts ≡ err invalid_format) ↔ (length parts < 6)
unfolding from_parts
from_parts-eq-err_iff [] = ground arith
from_parts-eq-err_iff (a ∷ []) = ground arith
from_parts-eq-err_iff (a ∷ b ∷ []) = ground arith
from_parts-eq-err_iff (a ∷ b ∷ c ∷ []) = ground arith
from_parts-eq-err_iff (a ∷ b ∷ c ∷ d ∷ []) = ground arith
from_parts-eq-err_iff (a ∷ b ∷ c ∷ d ∷ e ∷ []) = ground arith
from_parts-eq-err_iff (a ∷ b ∷ c ∷ d ∷ e ∷ f ∷ rest) = ((λ h. cc), λ h. absurd (omega arith))

-- ParseARN fails exactly on the strings with fewer than five colons.
parse_arn-eq-err_iff :
    (arn : Text) → (parse_arn arn ≡ err invalid_format) ↔ (occurrences b':' arn < 5)
unfolding parse_arn
parse_arn-eq-err_iff arn =
    let (to, from) = from_parts-eq-err_iff (split b':' arn) in
    (
      (λ h. omega (arith, to h, length-split b':' arn)),
      λ h. from (omega (arith, length-split b':' arn)),
    )
