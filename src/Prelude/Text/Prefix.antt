-- ===== src/Prelude/Text/Prefix.antt =====
-- strings.HasPrefix, strings.HasSuffix and the slices that follow them.
use mathlib.Core.List.{[], ◌∷◌, ◌++◌, reverse}
use mathlib.Core.Logic.{◌↔◌}
use mathlib.Core.Path.{◌≡◌, refl}
use mathlib.Core.Bool.{Bool, true, false, ◌&&◌}
use mathlib.Core.Option
use mathlib.Core.Option.{Option, none, some}
use native.Mathlib.Omega.{arith}
use awstools.Prelude.Tests.{◌==◌, if◌then◌else◌}
use awstools.Prelude.Text.Basic.{Text}

-- strings.HasPrefix(s, p)
unfoldable pub has_prefix : Text → Text → Bool
has_prefix s [] = true
has_prefix [] (y ∷ p) = false
has_prefix (x ∷ s) (y ∷ p) = x == y && has_prefix s p

-- What follows the prefix p of s, if s has it.
unfoldable pub strip_prefix : Text → Text → Option Text
strip_prefix [] s = some s
strip_prefix (y ∷ p) [] = none
strip_prefix (y ∷ p) (x ∷ s) = let rest = strip_prefix p s in if x == y then rest else none

-- strings.HasSuffix(s, p) together with s[:len(s)-len(p)].
unfoldable pub strip_suffix : Text → Text → Option Text
unfolding strip_prefix
strip_suffix p s = Option.map reverse (strip_prefix (reverse p) (reverse s))

pub strip_prefix-append : (p s : Text) → strip_prefix p (p ++ s) ≡ some s
unfolding strip_prefix
strip_prefix-append [] s = refl
strip_prefix-append (y ∷ p) s = ground (arith, strip_prefix-append p s)

pub strip_prefix-eq-some : (p s rest : Text) → strip_prefix p s ≡ some rest → s ≡ p ++ rest
unfolding strip_prefix
strip_prefix-eq-some [] s rest h = ground arith
strip_prefix-eq-some (y ∷ p) [] rest h = ground arith
strip_prefix-eq-some (y ∷ p) (x ∷ s) rest h = ground (arith, strip_prefix-eq-some p s rest)

pub has_prefix-strip_prefix : (p s : Text) → (strip_prefix p s ≡ none) ↔ (has_prefix s p ≡ false)
unfolding strip_prefix has_prefix
has_prefix-strip_prefix [] [] = ground arith
has_prefix-strip_prefix [] (x ∷ s) = ground arith
has_prefix-strip_prefix (y ∷ p) [] = ground arith
has_prefix-strip_prefix (y ∷ p) (x ∷ s) = ground (arith, has_prefix-strip_prefix p s)
