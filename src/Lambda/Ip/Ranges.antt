-- ===== src/Lambda/Ip/Ranges.antt =====
-- ValidateIPRanges as a whole.
use awstools.Prelude.{
  ℕ, ◌≡◌, refl, arith, true, List, [], ◌∷◌, ok, Result, ◌⊎◌, inl, inr, All, Any, any,
}
use awstools.Prelude.Text.{Text}
use awstools.Lambda.Ip.{IpNet, intersect, parse_cidrs, check_all, choose_ranges, validate_ip_ranges}
use awstools.Lambda.Ip.Subsets.{Contains, IsNarrower, SameBase, base, intersect_of_SameBase}

-- Every address of the range lies in the other, if the prefix of the range is not shorter.
abbrev pub IsWithin : IpNet → IpNet → Type 0
IsWithin net out =
    (address : List ℕ) → IsNarrower net out → Contains net address → Contains out address

-- The range begins in the other, and lies within it if its prefix is not shorter.
abbrev pub Fits : IpNet → IpNet → Type 0
Fits net out = Contains out (base net) × IsWithin net out

abbrev pub IsAccepted : List Text → List Text → List IpNet → List IpNet → List Text → Type 0
IsAccepted inner outer nets outs res =
    ((nets ≡ []) × (res ≡ outer))
    ⊎ ((res ≡ inner) × ((outs ≡ []) ⊎ All (λ net. Any (λ out. Fits net out) outs) nets))

any_of_Any :
    (net : IpNet) (outer : List IpNet)
    → Any (λ out. SameBase out net) outer
    → any (λ out. intersect out net) outer ≡ true
any_of_Any net [] h = absurd h
any_of_Any net (out ∷ outer) (inl same) = ground (arith, intersect_of_SameBase out net same)
any_of_Any net (out ∷ outer) (inr h) = ground (arith, any_of_Any net outer h)

check_all_of_SameBase :
    (inner : List Text) (nets outer : List IpNet)
    → All (λ net. Any (λ out. SameBase out net) outer) nets
    → check_all inner nets outer ≡ ok tt
unfolding check_all
check_all_of_SameBase [] nets outer h = refl
check_all_of_SameBase (text ∷ inner) [] outer h = refl
check_all_of_SameBase (text ∷ inner) (net ∷ nets) outer h =
    ground (arith, any_of_Any net outer h.0, check_all_of_SameBase inner nets outer h.1)

-- Requested ranges that begin where allowed ones do are accepted, however wide they are.
pub validate_ip_ranges_of_SameBase :
    (parse_cidr : Text → Result Text IpNet) (inner outer : List Text) (net out : IpNet)
    (nets outs : List IpNet)
    → parse_cidrs parse_cidr inner ≡ ok (net ∷ nets)
    → parse_cidrs parse_cidr outer ≡ ok (out ∷ outs)
    → All (λ n. Any (λ o. SameBase o n) (out ∷ outs)) (net ∷ nets)
    → validate_ip_ranges parse_cidr inner outer ≡ ok inner
unfolding validate_ip_ranges choose_ranges
validate_ip_ranges_of_SameBase parse_cidr inner outer net out nets outs p q h =
    rw (p, q, check_all_of_SameBase inner (net ∷ nets) (out ∷ outs) h)
