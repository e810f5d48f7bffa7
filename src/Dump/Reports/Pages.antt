-- ===== src/Dump/Reports/Pages.antt =====
-- The methods of the AWS SDK whose name ends in Pages: they call a function with one page after
-- another, until it returns false, a page cannot be fetched, or there is none left. A callback of the
-- reports is a loop over the items of its page that changes `result` and may return false.
use awstools.Prelude.{
  ◌≡◌, refl, sym, ap, ◌∙◌, Bool, true, false, Option, none, some, List, [], ◌∷◌, ◌++◌, append-nil,
  append_assoc,
}
use awstools.Prelude.Text.{Text}
use awstools.Dump.Jobs.{Resource, ReportResult}

-- The pages that can be fetched, and the error of the page after them, if it cannot.
pub record Pages (A : Type 0) : Type 0 where
  pub pages : List (List A)
  pub error : Option Text

-- A callback for one item: the result that it leaves, and whether the loop goes on.
abbrev pub Callback : Type 0 → Type 0
Callback A = A → ReportResult → ReportResult × Bool

abbrev pub empty_result : ReportResult
empty_result = record { resources = []; error = none }

abbrev pub add_resources : List Resource → ReportResult → ReportResult
add_resources rs result = record result { resources = result.resources ++ rs }

-- result.Error = err; return false
abbrev pub stop_with : Text → ReportResult → ReportResult × Bool
stop_with e result = (record result { error = some e }, false)

-- What follows a callback: the next item or page, or the end.
abbrev pub proceed : {S B : Type 0} → B → S × Bool → (S → S × B) → S × B
proceed stopped (result, true) next = next result
proceed stopped (result, false) next = (result, stopped)

module _ {S A : Type 0} (f : A → S → S × Bool) where
  -- The loop over the items of one page.
  unfoldable pub each : List A → S → S × Bool
  each [] result = (result, true)
  each (x ∷ items) result = proceed false (f x result) (λ r. each items r)

  -- The pages: what the callback has made, and what the method returns.
  unfoldable pub walk : List (List A) → Option Text → S → S × Option Text
  unfolding each
  walk [] error result = (result, error)
  walk (page ∷ pages) error result = proceed none (each page result) (λ r. walk pages error r)

pub proceed_inv :
    {S B : Type 0} (P : S → Type 0) (b : B) (s : S × Bool) (next : S → S × B)
    → P s.0
    → ((t : S) → P t → P (next t).0)
    → P (proceed b s next).0
proceed_inv P b (s, true) next h k = k s h
proceed_inv P b (s, false) next h k = h

-- What every call of the callback keeps holds after the walk.
module _ {S A : Type 0} (f : A → S → S × Bool) (P : S → Type 0)
    (keep : (x : A) (s : S) → P s → P (f x s).0) where
  each_inv : (items : List A) (s : S) → P s → P (each f items s).0
  unfolding each
  each_inv [] s h = h
  each_inv (x ∷ items) s h =
      proceed_inv P false (f x s) (λ r. each f items r) (keep x s h) (λ t k. each_inv items t k)

  pub walk_inv :
      (pages : List (List A)) (error : Option Text) (s : S) → P s → P (walk f pages error s).0
  unfolding walk
  walk_inv [] error s h = h
  walk_inv (page ∷ pages) error s h =
      proceed_inv P none (each f page s) (λ r. walk f pages error r) (each_inv page s h)
        (λ t k. walk_inv pages error t k)

-- err := client.XPages(...); result.Error = err. Also result.Error = client.XPages(...), since the
-- callback runs before the assignment.
unfoldable pub overwrite_error : ReportResult × Option Text → ReportResult
overwrite_error (result, error) = record result { error = error }

-- if result.Error != nil { return result }; result.Error = err
unfoldable pub keep_error : ReportResult × Option Text → ReportResult
keep_error (result, error) = elim result.error [
  | some e ↦ result
  | none ↦ record result { error = error }
]

unfoldable pub walk_pages : {A : Type 0} → Callback A → Pages A → ReportResult × Option Text
unfolding walk
walk_pages f p = walk f p.pages p.error empty_result

-- The reports whose callback appends one resource for each item, or none.
abbrev pub append_made : Option Resource → ReportResult → ReportResult
append_made none result = result
append_made (some r) result = add_resources (r ∷ []) result

abbrev pub append_one : {A : Type 0} → (A → Option Resource) → Callback A
append_one make x result = (append_made (make x) result, true)

unfoldable pub list_pages : {A : Type 0} → (A → Option Resource) → Pages A → ReportResult
unfolding walk_pages overwrite_error
list_pages make p = overwrite_error (walk_pages (append_one make) p)

abbrev pub all_items : {A : Type 0} → List (List A) → List A
all_items [] = []
all_items (page ∷ pages) = page ++ all_items pages

abbrev pub prepend : Option Resource → List Resource → List Resource
prepend none rs = rs
prepend (some r) rs = r ∷ rs

abbrev pub made : {A : Type 0} → (A → Option Resource) → List A → List Resource
made make [] = []
made make (x ∷ items) = prepend (make x) (made make items)

prepend-append :
    (o : Option Resource) (rs ss : List Resource) → prepend o (rs ++ ss) ≡ prepend o rs ++ ss
prepend-append none rs ss = refl
prepend-append (some r) rs ss = refl

add_made :
    (o : Option Resource) (rs : List Resource) (result : ReportResult)
    → add_resources rs (append_made o result) ≡ add_resources (prepend o rs) result
add_made none rs result = refl
add_made (some r) rs result = simp append_assoc refl

add-add :
    (rs ss : List Resource) (result : ReportResult)
    → add_resources ss (add_resources rs result) ≡ add_resources (rs ++ ss) result
add-add rs ss result = simp append_assoc refl

add_none : (result : ReportResult) → add_resources [] result ≡ result
add_none result = simp append-nil refl

module _ {A : Type 0} (make : A → Option Resource) where
  made-append : (xs ys : List A) → made make (xs ++ ys) ≡ made make xs ++ made make ys
  made-append [] ys = refl
  made-append (x ∷ xs) ys =
      ap (prepend (make x)) (made-append xs ys)
      ∙ prepend-append (make x) (made make xs) (made make ys)

  each-append_one :
      (items : List A) (result : ReportResult)
      → each (append_one make) items result ≡ (add_resources (made make items) result, true)
  unfolding each
  each-append_one [] result = ap (λ (r : ReportResult). (r, true)) (sym (add_none result))
  each-append_one (x ∷ items) result =
      each-append_one items (append_made (make x) result)
      ∙ ap (λ (r : ReportResult). (r, true)) (add_made (make x) (made make items) result)

  walk-append_one :
      (pages : List (List A)) (error : Option Text) (result : ReportResult)
      → walk (append_one make) pages error result
        ≡ (add_resources (made make (all_items pages)) result, error)
  unfolding walk
  walk-append_one [] error result = ap (λ (r : ReportResult). (r, error)) (sym (add_none result))
  walk-append_one (page ∷ pages) error result =
      rw (each-append_one page result, walk)
        (walk-append_one pages error (add_resources (made make page) result)
          ∙ ap (λ (r : ReportResult). (r, error))
              (add-add (made make page) (made make (all_items pages)) result
                ∙ ap (λ (rs : List Resource). add_resources rs result)
                    (sym (made-append page (all_items pages)))))

  -- A report whose callback appends what it makes of each item has the resources of the items of all
  -- pages, in order, and the error of the pages; how the items are cut into pages does not matter.
  pub list_pages_lem :
      (p : Pages A)
      → list_pages make p ≡ record { resources = made make (all_items p.pages); error = p.error }
  unfolding list_pages walk_pages overwrite_error
  list_pages_lem p = rw (walk-append_one p.pages p.error empty_result) refl
