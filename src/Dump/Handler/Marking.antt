-- ===== src/Dump/Handler/Marking.antt =====
-- What the comparison with the terraform states does to the list of resources.
use awstools.Prelude.{
  ◌≡◌, refl, ap, arith, Bool, true, false, none, some, List, [], ◌∷◌, map, if◌then◌else◌, ok, err,
}
use awstools.Prelude.Text.{Text}
use awstools.Dump.Jobs.{Resource, unique_id}
use awstools.Dump.Terraform.{
  TerraformWorld, TerraformBackends, TerraformError, verify, pull, load, load_files,
}
use awstools.Dump.Handler.{Input, find_managed, managed_by_terraform, mark, report_resources}

abbrev pub is_unmanaged : List (Text × Text) → Resource → Bool
is_unmanaged managed r = elim (find_managed (unique_id r) managed) [ none ↦ true | some _ ↦ false ]

-- The resources of a list that pass a test, in order.
abbrev pub keep : (Resource → Bool) → List Resource → List Resource
keep test [] = []
keep test (r ∷ rs) = if test r then r ∷ keep test rs else keep test rs

-- With only_unmanaged exactly the resources that no state holds are left, in order and unchanged.
mark_only_unmanaged :
    (managed : List (Text × Text)) (rs : List Resource)
    → mark managed true rs ≡ keep (is_unmanaged managed) rs
unfolding mark
mark_only_unmanaged managed [] = refl
mark_only_unmanaged managed (r ∷ rs) = ground (arith, mark_only_unmanaged managed rs)

-- The resource with the state that holds it, if there is one.
abbrev pub annotate : List (Text × Text) → Resource → Resource
annotate managed r = elim (find_managed (unique_id r) managed) [
  | none ↦ r
  | some path ↦ record r { managed_by = managed_by_terraform path }
]

-- Without only_unmanaged every resource stays in its place, and those that a state holds name it.
mark_all :
    (managed : List (Text × Text)) (rs : List Resource)
    → mark managed false rs ≡ map (annotate managed) rs
unfolding mark
mark_all managed [] = refl
mark_all managed (r ∷ rs) = ground (arith, mark_all managed rs)

mark_nothing : (only : Bool) (rs : List Resource) → mark [] only rs ≡ rs
unfolding mark find_managed
mark_nothing only [] = refl
mark_nothing only (r ∷ rs) = ap (λ (t : List Resource). r ∷ t) (mark_nothing only rs)

pull_of_refused :
    (w : TerraformWorld) (t : TerraformBackends) (e : TerraformError)
    → verify t ≡ err e
    → pull w t ≡ ok t
unfolding pull
pull_of_refused w t e refused = rw (refused, pull) refl

load_of_fresh :
    (w : TerraformWorld) (t : TerraformBackends) → t.state_filenames ≡ [] → load w t ≡ ok []
unfolding load load_files
load_of_fresh w t fresh = rw (fresh, load) refl

-- A configuration of backends that Verify refuses, with no state files yet, does not stop the
-- handler: every resource is reported as it is, as if terraform managed none.
pub report_resources_unverified :
    (w : TerraformWorld) (event : Input) (t : TerraformBackends) (e : TerraformError)
    (result : List Resource)
    → verify t ≡ err e
    → t.state_filenames ≡ []
    → report_resources w event (some t) result ≡ ok result
unfolding report_resources
report_resources_unverified w event t e result refused fresh =
    rw (pull_of_refused w t e refused, load_of_fresh w t fresh)
      (ap ok (mark_nothing event.only_unmanaged result))
