-- ===== src/Dump/Iam/Errors.antt =====
-- Which errors the reports of iam.go return.
use awstools.Prelude.{
  ◌⊎◌, ℕ, ◌+◌, ◌≡◌, ◌≢◌, refl, Bool, true, false, Option, none, List, [], ◌∷◌, length,
}
use awstools.Prelude.Text.{Text}
use awstools.Dump.Jobs.{Session, ReportResult}
use awstools.Dump.Reports.Pages.{
  Callback, proceed, each, walk, walk_pages, overwrite_error, empty_result,
}
use awstools.Dump.Iam.{Owner, PolicyClient, list_policy, list_policies_of}

proceed-none :
    (s : ReportResult × Bool) (next : ReportResult → ReportResult × Option Text)
    → ((r : ReportResult) → (next r).1 ≡ none)
    → (proceed none s next).1 ≡ none
proceed-none (r, true) next h = h r
proceed-none (r, false) next h = refl

-- A loop has gone on with n more resources and no error, or has stopped with an error.
abbrev pub Went : ℕ → ReportResult → ReportResult × Bool → Type 0
Went n r (t, true) = (t.error ≡ none) × (length t.resources ≡ length r.resources + n)
Went n r (t, false) = t.error ≢ none

-- The pages have been walked to their end, with the error of the pages, or an error was left.
abbrev pub Walked : ℕ → Option Text → ReportResult → ReportResult × Option Text → Type 0
Walked n error r s =
    ((s.1 ≡ error) × (s.0.error ≡ none) × (length s.0.resources ≡ length r.resources + n))
    ⊎ (s.0.error ≢ none)

module _ {A : Type 0} (f : Callback A) where
  -- The methods of the SDK do not return what a callback stopped for.
  walk-none :
      (pages : List (List A)) (error : Option Text) (result : ReportResult)
      → error ≡ none
      → (walk f pages error result).1 ≡ none
  unfolding walk
  walk-none [] error result e = e
  walk-none (page ∷ pages) error result e =
      proceed-none (each f page result) (λ r. walk f pages error r) (λ r. walk-none pages error r e)

  -- The callback adds one resource, or stops with an error.
  abbrev pub AddsOne : Type 0
  AddsOne = (x : A) (r : ReportResult) → r.error ≡ none → Went 1 r (f x r)

-- The inline policies of a user, a group or a role are reported without an error whenever their
-- names can be listed, also if a policy could not be fetched or its document not be decoded.
pub list_policies_of-none :
    (client : PolicyClient) (owner : Owner) (session : Session) (owner_arn owner_name : Text)
    → (client.policy_names owner session owner_name).error ≡ none
    → (list_policies_of client owner session owner_arn owner_name).error ≡ none
unfolding list_policies_of walk_pages overwrite_error
list_policies_of-none client owner session owner_arn owner_name e =
    let names = client.policy_names owner session owner_name in
    walk-none (list_policy client owner session owner_arn owner_name) names.pages names.error
      empty_result e
