-- ===== src/Prelude/Text/Splitting.antt =====
-- strings.Split with a separator of one byte, strings.Join, and how they undo each other.
use mathlib.Core.List.{List, [], ◌∷◌, ◌++◌}
use mathlib.Core.Path.{◌≡◌, refl, ap, ◌∙◌}
use mathlib.Core.Bool.{true, false}
use Prim.Native.Nat.{ℕ, suc}
use native.Mathlib.Omega.{arith}
use awstools.Prelude.Tests.{◌==◌, if◌then◌else◌, ==_iff}
use awstools.Prelude.Lists.{All, length}
use awstools.Prelude.Text.Basic.{Text, Free, Free-append}

push_head : ℕ → List Text → List Text
push_head x [] = (x ∷ []) ∷ []
push_head x (w ∷ ws) = (x ∷ w) ∷ ws

-- strings.Split(s, c)
unfoldable pub split : ℕ → Text → List Text
unfolding push_head
split c [] = [] ∷ []
split c (x ∷ s) = let rest = split c s in if x == c then [] ∷ rest else push_head x rest

-- strings.Join(ws, sep)
unfoldable pub join : Text → List Text → Text
join sep [] = []
join sep (w ∷ []) = w
join sep (w ∷ v ∷ ws) = w ++ (sep ++ join sep (v ∷ ws))

-- How often the byte c occurs.
unfoldable pub occurrences : ℕ → Text → ℕ
occurrences c [] = 0
occurrences c (x ∷ s) = if x == c then suc (occurrences c s) else occurrences c s

pub split-cons : (c : ℕ) (s : Text) → (w : Text) × (ws : List Text) × (split c s ≡ w ∷ ws)
unfolding split
split-cons c [] = ([], [], refl)
split-cons c (x ∷ s) = go (x == c) refl (split-cons c s)
  where
    go :
        (b : _)
        → x == c ≡ b
        → ((w : Text) × (ws : List Text) × (split c s ≡ w ∷ ws))
        → (w : Text) × (ws : List Text) × (split c (x ∷ s) ≡ w ∷ ws)
    go true e (w, ws, h) = ([], w ∷ ws, ground arith)
    go false e (w, ws, h) = (x ∷ w, ws, ground arith)

length-push_head :
    (x : ℕ) (w : Text) (ws : List Text) → length (push_head x (w ∷ ws)) ≡ suc (length ws)
unfolding push_head
length-push_head x w ws = refl

-- There is one part more than there are separators.
pub length-split : (c : ℕ) (s : Text) → length (split c s) ≡ suc (occurrences c s)
unfolding split occurrences
length-split c [] = refl
length-split c (x ∷ s) =
    let (w, ws, h) = split-cons c s in ground (arith, h, length-split c s, ap length h)

-- No part holds the separator.
pub split-Free : (c : ℕ) (s : Text) → All (Free c) (split c s)
unfolding split
split-Free c [] = (tt, tt)
split-Free c (x ∷ s) =
    let (w, ws, h) = split-cons c s in let ih = split-Free c s in ground (arith, h, ih, ==_iff x c)

pub split-Free_word : (c : ℕ) (w : Text) → Free c w → split c w ≡ w ∷ []
unfolding split
split-Free_word c [] h = refl
split-Free_word c (x ∷ w) h = ground (arith, split-Free_word c w h.1)

-- A part that is free of the separator is split off first.
pub split-append : (c : ℕ) (w s : Text) → Free c w → split c (w ++ c ∷ s) ≡ w ∷ split c s
unfolding split
split-append c [] s h = ground arith
split-append c (x ∷ w) s h = ground (arith, split-append c w s h.1)

-- Splitting what was joined gives the parts back, if none of them holds the separator.
pub split-join :
    (c : ℕ) (w : Text) (ws : List Text)
    → All (Free c) (w ∷ ws)
    → split c (join (c ∷ []) (w ∷ ws)) ≡ w ∷ ws
unfolding join
split-join c w [] h = split-Free_word c w h.0
split-join c w (v ∷ ws) h =
    split-append c w (join (c ∷ []) (v ∷ ws)) h.0 ∙ ap (λ r. w ∷ r) (split-join c v ws h.1)

join-push_head :
    (x : ℕ) (sep w : Text) (ws : List Text)
    → join sep (push_head x (w ∷ ws)) ≡ x ∷ join sep (w ∷ ws)
unfolding push_head join
join-push_head x sep w [] = refl
join-push_head x sep w (v ∷ ws) = refl

join-cons :
    (sep w v : Text) (ws : List Text) → join sep (w ∷ v ∷ ws) ≡ w ++ (sep ++ join sep (v ∷ ws))
unfolding join
join-cons sep w v ws = refl

-- Joining what was split gives the string back.
pub join-split : (c : ℕ) (s : Text) → join (c ∷ []) (split c s) ≡ s
unfolding split
join-split c [] = unfold join in refl
join-split c (x ∷ s) =
    let (w, ws, h) = split-cons c s in
    ground (arith, h, join-split c s, join-push_head x (c ∷ []) w ws, join-cons (c ∷ []) [] w ws)

-- Splitting at one byte keeps the parts free of another.
pub split-Free_other : (c d : ℕ) (s : Text) → Free c s → All (Free c) (split d s)
unfolding split
split-Free_other c d [] h = (tt, tt)
split-Free_other c d (x ∷ s) h =
    let (w, ws, e) = split-cons d s in let ih = split-Free_other c d s h.1 in ground (arith, e, ih)

pub join-Free :
    (c : ℕ) (sep : Text) (ws : List Text) → Free c sep → All (Free c) ws → Free c (join sep ws)
unfolding join
join-Free c sep [] k h = tt
join-Free c sep (w ∷ []) k h = h.0
join-Free c sep (w ∷ v ∷ ws) k h =
    Free-append c w _ h.0 (Free-append c sep _ k (join-Free c sep (v ∷ ws) k h.1))
