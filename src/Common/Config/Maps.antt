-- ===== src/Common/Config/Maps.antt =====
-- The laws of assignment and lookup on the entries of a Go map.
use awstools.Prelude.{◌≡◌, refl, ap, arith, none, some, false, if◌then◌else◌}
use awstools.Prelude.Text.{Text, eq_text, eq_text_iff}
use awstools.Common.Config.Values.{Value, Fields, end, field, put, get}

-- The entries of m, and then one more.
abbrev pub append : Fields → Fields → Fields
append end n = n
append (field j w m) n = field j w (append m n)

pub eq_text_comm : (s t : Text) → eq_text s t ≡ eq_text t s
eq_text_comm s t = ground (arith, eq_text_iff s t, eq_text_iff t s)

pub get-put :
    (k j : Text) (v : Value) (m : Fields)
    → get j (put k v m) ≡ (if eq_text k j then some v else get j m)
unfolding get put
get-put k j v end = refl
get-put k j v (field i w m) =
    ground (arith, get-put k j v m, eq_text_iff i k, eq_text_iff i j, eq_text_iff k j)

-- A new key goes to the end.
pub put_of_fresh :
    (k : Text) (v : Value) (m : Fields) → get k m ≡ none → put k v m ≡ append m (field k v end)
unfolding get put
put_of_fresh k v end h = refl
put_of_fresh k v (field j w m) h = ground (arith, put_of_fresh k v m)

pub get-append_fresh :
    (j k : Text) (v : Value) (m : Fields)
    → get j m ≡ none
    → eq_text k j ≡ false
    → get j (append m (field k v end)) ≡ none
unfolding get
get-append_fresh j k v end h e = ground arith
get-append_fresh j k v (field i w m) h e = ground (arith, get-append_fresh j k v m)

pub append-append : (m n r : Fields) → append (append m n) r ≡ append m (append n r)
append-append end n r = refl
append-append (field j w m) n r = ap (field j w) (append-append m n r)

pub append-end : (m : Fields) → append m end ≡ m
append-end end = refl
append-end (field j w m) = ap (field j w) (append-end m)

-- The keys of src do not occur in dst.
abbrev pub IsApartFrom : Fields → Fields → Type 0
IsApartFrom dst end = Unit
IsApartFrom dst (field k v m) = (get k dst ≡ none) × IsApartFrom dst m

pub IsApartFrom-append :
    (dst m : Fields) (k : Text) (v : Value)
    → get k m ≡ none
    → IsApartFrom dst m
    → IsApartFrom (append dst (field k v end)) m
unfolding get
IsApartFrom-append dst end k v h a = tt
IsApartFrom-append dst (field j w m) k v h a =
    ground (arith, get-append_fresh j k v dst, IsApartFrom-append dst m k v, eq_text_comm j k)

pub IsApartFrom-end : (m : Fields) → IsApartFrom end m
unfolding get
IsApartFrom-end end = tt
IsApartFrom-end (field k v m) = (refl, IsApartFrom-end m)
