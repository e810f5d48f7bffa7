-- ===== src/Lambda/Ip.antt =====
-- lambda/sign-ssh-key/ip.go: the check of the requested source addresses. net.ParseCIDR is a parameter.
pub mod Subsets
pub mod Ranges
use Prim.Native.Nat.{bit_and}
use awstools.Prelude.{
  ℕ, Bool, true, false, ◌&&◌, List, [], ◌∷◌, ◌++◌, Result, ok, err, ◌>>=◌, ◌>>◌, any, if◌then◌else◌,
  ◌==◌,
}
use awstools.Prelude.Text.{Text, codes}

-- One byte of the IP and of the Mask of a net.IPNet.
pub record Octet : Type 0 where
  pub addr : ℕ
  pub mask : ℕ

-- net.ParseCIDR returns an IP and a mask of one length, 4 or 16 bytes.
abbrev pub IpNet : Type 0
IpNet = List Octet

-- intersect
unfoldable pub intersect : IpNet → IpNet → Bool
intersect [] [] = true
intersect [] (q ∷ sub) = false
intersect (p ∷ sup) [] = false
intersect (p ∷ sup) (q ∷ sub) =
    (bit_and p.addr p.mask == bit_and (bit_and q.addr q.mask) p.mask) && intersect sup sub

-- ParseCIDRS
unfoldable pub parse_cidrs : (Text → Result Text IpNet) → List Text → Result Text (List IpNet)
parse_cidrs parse_cidr [] = ok []
parse_cidrs parse_cidr (cidr ∷ input) = do
  value ← parse_cidr cidr
  rest ← parse_cidrs parse_cidr input
  ok (value ∷ rest)

-- The two nested loops; the texts of the inner ranges serve for the message.
unfoldable pub check_all : List Text → List IpNet → List IpNet → Result Text (Unit {0})
check_all (text ∷ inner) (net ∷ nets) outer =
    let rest = check_all inner nets outer in
    if any (λ out. intersect out net) outer
    then rest
    else err (text ++ codes " is not a subset of allowed source addresses.")
check_all _ _ outer = ok tt

-- ValidateIPRanges, after the parsing
unfoldable pub choose_ranges :
    List Text → List Text → List IpNet → List IpNet → Result Text (List Text)
unfolding check_all
choose_ranges inner outer [] outer_ip = ok outer
choose_ranges inner outer (net ∷ nets) [] = ok inner
choose_ranges inner outer (net ∷ nets) (out ∷ outs) = do
  check_all inner (net ∷ nets) (out ∷ outs)
  ok inner

-- ValidateIPRanges
unfoldable pub validate_ip_ranges :
    (Text → Result Text IpNet) → List Text → List Text → Result Text (List Text)
unfolding parse_cidrs choose_ranges
validate_ip_ranges parse_cidr inner outer = do
  inner_ip ← parse_cidrs parse_cidr inner
  outer_ip ← parse_cidrs parse_cidr outer
  choose_ranges inner outer inner_ip outer_ip
