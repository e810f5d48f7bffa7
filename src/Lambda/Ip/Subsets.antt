-- ===== src/Lambda/Ip/Subsets.antt =====
-- What the check of a range against another means for the addresses in them.
use Prim.Native.Nat.{bit_and}
use awstools.Prelude.{
  ℕ, ◌≡◌, refl, sym, ap, ◌∙◌, arith, true, false, List, [], ◌∷◌, ok, Result, inl, inr, All, Any,
  any, >>=-eq-ok, ok-injective, Bool-cases,
}
use awstools.Prelude.Text.{Text}
use awstools.Prelude.Bits.{bit_and_assoc, bit_and_self}
use awstools.Lambda.Ip.{Octet, IpNet, intersect, parse_cidrs, check_all}

-- The address lies in the range.
abbrev pub Contains : IpNet → List ℕ → Type 0
Contains [] [] = Unit
Contains [] (a ∷ address) = ⊥
Contains (p ∷ net) [] = ⊥
Contains (p ∷ net) (a ∷ address) = (bit_and a p.mask ≡ bit_and p.addr p.mask) × Contains net address

-- The first address of the range.
abbrev pub base : IpNet → List ℕ
base [] = []
base (q ∷ sub) = bit_and q.addr q.mask ∷ base sub

-- Every bit of the mask of `sup` is one of the mask of `sub`: the prefix of `sub` is not shorter.
abbrev pub IsNarrower : IpNet → IpNet → Type 0
IsNarrower [] [] = Unit
IsNarrower [] (p ∷ sup) = ⊥
IsNarrower (q ∷ sub) [] = ⊥
IsNarrower (q ∷ sub) (p ∷ sup) = (bit_and q.mask p.mask ≡ p.mask) × IsNarrower sub sup

-- The ranges begin at one address, whatever their masks.
abbrev pub SameBase : IpNet → IpNet → Type 0
SameBase [] [] = Unit
SameBase [] (q ∷ sub) = ⊥
SameBase (p ∷ sup) [] = ⊥
SameBase (p ∷ sup) (q ∷ sub) = (bit_and p.addr p.mask ≡ bit_and q.addr q.mask) × SameBase sup sub

narrow_octet :
    (p q : Octet) (a : ℕ)
    → bit_and p.addr p.mask ≡ bit_and (bit_and q.addr q.mask) p.mask
    → bit_and q.mask p.mask ≡ p.mask
    → bit_and a q.mask ≡ bit_and q.addr q.mask
    → bit_and a p.mask ≡ bit_and p.addr p.mask
narrow_octet p q a fits narrow inside =
    ap (bit_and a) (sym narrow)
    ∙ sym (bit_and_assoc a q.mask p.mask)
    ∙ ap (λ x. bit_and x p.mask) inside
    ∙ sym fits

-- Where the prefix of the requested range is not shorter than that of the allowed one, the check
-- means that every address of the requested range is allowed.
pub intersect-Contains :
    (sup sub : IpNet) (address : List ℕ)
    → intersect sup sub ≡ true
    → IsNarrower sub sup
    → Contains sub address
    → Contains sup address
unfolding intersect
intersect-Contains [] [] [] e n c = tt
intersect-Contains [] [] (a ∷ address) e n c = absurd c
intersect-Contains [] (q ∷ sub) address e n c = absurd n
intersect-Contains (p ∷ sup) [] address e n c = absurd n
intersect-Contains (p ∷ sup) (q ∷ sub) [] e n c = absurd c
intersect-Contains (p ∷ sup) (q ∷ sub) (a ∷ address) e n c = (
  narrow_octet p q a (ground arith) n.0 c.0,
  intersect-Contains sup sub address (ground arith) n.1 c.1,
)

-- The check means that the requested range begins in the allowed one.
pub intersect-Contains-base : (sup sub : IpNet) → intersect sup sub ≡ true → Contains sup (base sub)
unfolding intersect
intersect-Contains-base [] [] e = tt
intersect-Contains-base [] (q ∷ sub) e = absurd (ground arith)
intersect-Contains-base (p ∷ sup) [] e = absurd (ground arith)
intersect-Contains-base (p ∷ sup) (q ∷ sub) e =
    (ground arith, intersect-Contains-base sup sub (ground arith))

-- The check passes for every range that begins where the allowed one does, also for one that is
-- wider.
pub intersect_of_SameBase : (sup sub : IpNet) → SameBase sup sub → intersect sup sub ≡ true
unfolding intersect
intersect_of_SameBase [] [] h = refl
intersect_of_SameBase [] (q ∷ sub) h = absurd h
intersect_of_SameBase (p ∷ sup) [] h = absurd h
intersect_of_SameBase (p ∷ sup) (q ∷ sub) h =
    let e : bit_and p.addr p.mask ≡ bit_and (bit_and q.addr q.mask) p.mask = sym (
      ap (λ x. bit_and x p.mask) (sym h.0)
      ∙ bit_and_assoc p.addr p.mask p.mask
      ∙ ap (bit_and p.addr) (bit_and_self p.mask)) in
    ground (arith, e, intersect_of_SameBase sup sub h.1)

any-Any :
    (net : IpNet) (outer : List IpNet)
    → any (λ out. intersect out net) outer ≡ true
    → Any (λ out. intersect out net ≡ true) outer
any-Any net [] h = cc
any-Any net (out ∷ outer) h = elim (Bool-cases (intersect out net)) [
  | inl e ↦ inl e
  | inr e ↦ inr (any-Any net outer (ground arith))
]

misses_absurd :
    (text : Text) (inner : List Text) (net : IpNet) (nets outer : List IpNet)
    → any (λ out. intersect out net) outer ≡ false
    → check_all (text ∷ inner) (net ∷ nets) outer ≡ ok tt
    → ⊥
unfolding check_all
misses_absurd text inner net nets outer misses e = ground arith

pub check_all_sound :
    (inner : List Text) (nets outer : List IpNet) (parse_cidr : Text → Result Text IpNet)
    → parse_cidrs parse_cidr inner ≡ ok nets
    → check_all inner nets outer ≡ ok tt
    → All (λ net. Any (λ out. intersect out net ≡ true) outer) nets
unfolding check_all parse_cidrs
check_all_sound [] [] outer parse_cidr p e = tt
check_all_sound [] (net ∷ nets) outer parse_cidr p e = ground arith
check_all_sound (text ∷ inner) nets outer parse_cidr p e =
    let (net, first, p1) = >>=-eq-ok (parse_cidr text) _ p in
    let (rest, later, p2) = >>=-eq-ok (parse_cidrs parse_cidr inner) _ p1 in
    rw (← ok-injective p2) (elim (Bool-cases (any (λ out. intersect out net) outer)) [
      | inl fits ↦ (
        any-Any net outer fits,
        check_all_sound inner rest outer parse_cidr later
            (rw (← ok-injective p2, check_all, fits) at e),
      )
      | inr misses ↦
          absurd (misses_absurd text inner net rest outer misses (rw (← ok-injective p2) at e))
    ])
