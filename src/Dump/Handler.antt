-- ===== src/Dump/Handler.antt =====
-- aws/dump/main.go: the handler. The results of the jobs are those of a run of the worker pool.
pub mod Marking
use awstools.Prelude.{
  Bool, true, false, Option, none, some, List, [], ◌∷◌, ◌++◌, Result, ok, err, ◌>>=◌, map_err,
  if◌then◌else◌,
}
use awstools.Prelude.Text.{Text, codes, eq_text, split}
use awstools.Workers.{Pool}
use awstools.Dump.Jobs.{
  Resource, unique_id, Account, Service, Job, JobError, ReportResult, generate_jobs,
  generate_all_jobs,
}
use awstools.Dump.Jobs.Run.{run}
use awstools.Dump.Terraform.{TerraformWorld, TerraformBackends, TerraformError, pull, load}

pub record Input : Type 0 where
  pub accounts : List Account
  pub terraform_backend_config : Option TerraformBackends
  pub only_unmanaged : Bool
  pub reports : List Text

-- What ends the process.
pub data Fatal : Type 0 where
  jobs_failed : JobError → Fatal
  invalid_report_format invalid_service : Text → Fatal
  terraform_failed : TerraformError → Fatal

unfoldable pub find_service : Text → List (Text × Service) → Option Service
find_service name [] = none
find_service name ((key, s) ∷ services) =
    if eq_text key name then some s else find_service name services

jobs_of_accounts : (Account → Result JobError (List Job)) → List Account → Result Fatal (List Job)
jobs_of_accounts generate [] = ok []
jobs_of_accounts generate (account ∷ accounts) = do
  new_jobs ← map_err jobs_failed (generate account)
  jobs ← jobs_of_accounts generate accounts
  ok (new_jobs ++ jobs)

jobs_of_services : List (Text × Service) → List Account → Result Fatal (List Job)
unfolding jobs_of_accounts
jobs_of_services [] accounts = ok []
jobs_of_services ((key, s) ∷ services) accounts = do
  new_jobs ← jobs_of_accounts (generate_all_jobs s) accounts
  jobs ← jobs_of_services services accounts
  ok (new_jobs ++ jobs)

-- The two parts of `service:resource`.
unfoldable pub parse_report : Text → List Text → Result Fatal (Text × Text)
parse_report name (service ∷ resource ∷ []) = ok (service, resource)
parse_report name _ = err (invalid_report_format name)

service_of : Text → List (Text × Service) → Result Fatal Service
service_of name services = elim (find_service name services) [
  | none ↦ err (invalid_service name)
  | some s ↦ ok s
]

jobs_of_reports : List (Text × Service) → List Account → List Text → Result Fatal (List Job)
unfolding parse_report service_of jobs_of_accounts
jobs_of_reports services accounts [] = ok []
jobs_of_reports services accounts (name ∷ names) =
    parse_report name (split b':' name) >>= λ (parts : Text × Text). do
      s ← service_of parts.0 services
      new_jobs ← jobs_of_accounts (λ account. generate_jobs s account parts.1) accounts
      jobs ← jobs_of_reports services accounts names
      ok (new_jobs ++ jobs)

-- The jobs of an event; `services` are the entries of AllServices.
unfoldable pub event_jobs : List (Text × Service) → Input → List Text → Result Fatal (List Job)
unfolding jobs_of_services jobs_of_reports
event_jobs services event [] = jobs_of_services services event.accounts
event_jobs services event (name ∷ names) = jobs_of_reports services event.accounts (name ∷ names)

unfoldable pub find_managed : Text → List (Text × Text) → Option Text
find_managed id [] = none
find_managed id ((key, path) ∷ managed) =
    if eq_text key id then some path else find_managed id managed

-- resource.ManagedBy
abbrev pub managed_by_terraform : Text → List (Text × Text)
managed_by_terraform path = (codes "type", codes "terraform") ∷ (codes "state", path) ∷ []

-- The loop over the results.
unfoldable pub mark : List (Text × Text) → Bool → List Resource → List Resource
mark managed only_unmanaged [] = []
mark managed only_unmanaged (r ∷ resources) =
    let rest = mark managed only_unmanaged resources in
    elim (find_managed (unique_id r) managed) [
      | none ↦ r ∷ rest
      | some path ↦
          if only_unmanaged
          then rest
          else record r { managed_by = managed_by_terraform path } ∷ rest
    ]

unfoldable pub report_resources :
    TerraformWorld → Input → Option TerraformBackends → List Resource → Result Fatal (List Resource)
unfolding mark
report_resources w event none result = ok result
report_resources w event (some config) result = do
  pulled ← map_err terraform_failed (pull w config)
  managed ← map_err terraform_failed (load w pulled)
  ok (mark managed event.only_unmanaged result)

-- Handler, after OpenSessions: `p` is the pool when the jobs of the event are done.
unfoldable pub handle :
    TerraformWorld → Input → Pool Job ReportResult → Result Fatal (List Resource)
unfolding report_resources run
handle w event p = report_resources w event event.terraform_backend_config (run p).0
