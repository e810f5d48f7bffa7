-- ===== src/Dump/Reports/Fallible.antt =====
-- The reports whose callback makes a resource of an item or stops with an error, and how they end:
-- result.Error = client.XPages(...) forgets that error.
use awstools.Prelude.{
  ◌≡◌, refl, sym, ap, ◌∙◌, fun_ext, Bool, true, false, Option, none, some, List, [], ◌∷◌, ◌++◌,
  append-nil, append_assoc, Result, ok, err, if◌then◌else◌,
}
use awstools.Prelude.Text.{Text}
use awstools.Dump.Jobs.{Resource, ReportResult}
use awstools.Dump.Reports.Pages.{
  Pages, Callback, proceed, each, walk, walk_pages, overwrite_error, append_made, stop_with,
  all_items, prepend, empty_result,
}

abbrev pub answer : Result Text (Option Resource) → ReportResult → ReportResult × Bool
answer (err e) result = stop_with e result
answer (ok o) result = (append_made o result, true)

abbrev pub try_one : {A : Type 0} → (A → Result Text (Option Resource)) → Callback A
try_one make x result = answer (make x) result

unfoldable pub list_fallible :
    {A : Type 0} → (A → Result Text (Option Resource)) → Pages A → ReportResult
unfolding walk_pages overwrite_error
list_fallible make p = overwrite_error (walk_pages (try_one make) p)

abbrev pub before : Result Text (Option Resource) → List Resource × Bool → List Resource × Bool
before (err e) rest = ([], false)
before (ok o) rest = (prepend o rest.0, rest.1)

-- The resources of the items before the first that fails, and whether none does.
abbrev pub made_until :
    {A : Type 0} → (A → Result Text (Option Resource)) → List A → List Resource × Bool
made_until make [] = ([], true)
made_until make (x ∷ items) = before (make x) (made_until make items)

proceed-proceed :
    {S B : Type 0} (b : B) (s : S × Bool) (f : S → S × Bool) (g : S → S × B)
    → proceed b (proceed false s f) g ≡ proceed b s (λ t. proceed b (f t) g)
proceed-proceed b (s, true) f g = refl
proceed-proceed b (s, false) f g = refl

module _ {S A : Type 0} (f : A → S → S × Bool) where
  each-append :
      (xs ys : List A) (s : S)
      → each f (xs ++ ys) s ≡ proceed false (each f xs s) (λ t. each f ys t)
  unfolding each
  each-append [] ys s = refl
  each-append (x ∷ xs) ys s =
      ap (λ (next : S → S × Bool). proceed false (f x s) next) (fun_ext (λ t. each-append xs ys t))
      ∙ sym (proceed-proceed false (f x s) (λ t. each f xs t) (λ t. each f ys t))

  -- How the items are cut into pages does not matter.
  pub walk-each :
      (pages : List (List A)) (error : Option Text) (s : S)
      → walk f pages error s ≡ proceed none (each f (all_items pages) s) (λ t. (t, error))
  unfolding walk each
  walk-each [] error s = refl
  walk-each (page ∷ pages) error s =
      ap (λ (next : S → S × Option Text). proceed none (each f page s) next)
        (fun_ext (λ t. walk-each pages error t))
      ∙ (sym (
            proceed-proceed none (each f page s) (λ t. each f (all_items pages) t)
              (λ t. (t, error)))
          ∙ ap (λ (x : S × Bool). proceed none x (λ t. (t, error)))
              (sym (each-append page (all_items pages) s)))

abbrev add_until : List Resource × Bool → Option Text → ReportResult → ReportResult
add_until (rs, complete) error result = record {
  resources = result.resources ++ rs;
  error = if complete then error else none;
}

add_until_made :
    (o : Option Resource) (m : List Resource × Bool) (error : Option Text) (result : ReportResult)
    → add_until m error (append_made o result) ≡ add_until (prepend o m.0, m.1) error result
add_until_made none (rs, complete) error result = refl
add_until_made (some r) (rs, complete) error result = simp append_assoc refl

answered :
    (a : Result Text (Option Resource)) (next : ReportResult → ReportResult × Bool)
    (m : List Resource × Bool) (error : Option Text) (result : ReportResult)
    → ((r : ReportResult)
        → overwrite_error (proceed none (next r) (λ t. (t, error))) ≡ add_until m error r)
    → overwrite_error (proceed none (proceed false (answer a result) next) (λ t. (t, error)))
      ≡ add_until (before a m) error result
unfolding overwrite_error
answered (err e) next m error result h = simp append-nil refl
answered (ok o) next m error result h = h (append_made o result) ∙ add_until_made o m error result

module _ {A : Type 0} (make : A → Result Text (Option Resource)) where
  each-try_one :
      (items : List A) (error : Option Text) (result : ReportResult)
      → overwrite_error (proceed none (each (try_one make) items result) (λ r. (r, error)))
        ≡ add_until (made_until make items) error result
  unfolding each overwrite_error
  each-try_one [] error result = simp append-nil refl
  each-try_one (x ∷ items) error result =
      answered (make x) (each (try_one make) items) (made_until make items) error result
        (λ r. each-try_one items error r)

  -- A report whose callback stops at an item that fails has the resources of the items before the
  -- first such item, in order. If there is one, on any page, the others are missing and the report
  -- has no error; if there is none, its error is that of the pages.
  pub list_fallible_lem :
      (p : Pages A)
      → list_fallible make p ≡ record {
        resources = (made_until make (all_items p.pages)).0;
        error = if (made_until make (all_items p.pages)).1 then p.error else none;
      }
  unfolding list_fallible walk_pages
  list_fallible_lem p =
      rw (walk-each (try_one make) p.pages p.error empty_result)
        (each-try_one (all_items p.pages) p.error empty_result)
