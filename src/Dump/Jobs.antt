-- ===== src/Dump/Jobs.antt =====
-- aws/dump/resources/job.go: resources, services and the jobs that list them. A report is a function
-- of the session, since the AWS services behind it are parameters.
pub mod Counts
pub mod Run
use awstools.Prelude.{
  ℕ, Bool, true, false, Option, none, some, List, [], ◌∷◌, ◌++◌, map, Result, ok, err, ◌>>=◌,
  map_err, if◌then◌else◌,
}
use awstools.Prelude.Text.{Text, codes, eq_text, is_empty}
use awstools.Common.Arn.{Arn, ArnError, parse_arn}
use awstools.Common.Config.Values.{Fields}

pub record Resource : Type 0 where
  pub id : Text
  pub arn : Text
  pub service : Text
  pub kind : Text
  pub account_id : Text
  pub region : Text
  pub metadata : Fields
  pub managed_by : List (Text × Text)

-- (*Resource).UniqueID
unfoldable pub unique_id : Resource → Text
unique_id r = if is_empty r.arn then r.id else r.arn

-- NewResource; `metadata` is what structs.Map makes of its argument.
unfoldable pub new_resource : Text → Fields → Result ArnError Resource
new_resource arn metadata = do
  parsed ← parse_arn arn
  ok (record {
    id =
        if is_empty parsed.qualifier
        then parsed.resource
        else parsed.resource ++ (codes "/" ++ parsed.qualifier);
    arn = arn;
    service = parsed.service;
    kind = parsed.resource_type;
    account_id = parsed.account_id;
    region = parsed.region;
    metadata = metadata;
    managed_by = [];
  })

-- Session of aws.go: the account that STS named, and the region of its aws.Config.
pub record Session : Type 0 where
  pub account_id : Text
  pub region : Text

-- Account of aws.go
pub record Account : Type 0 where
  pub regions : List Text
  pub role_arn : Text
  pub role_policy : Text
  pub external_id : Text
  pub session_name : Text
  pub sessions : List Session

-- ReportResult; a nil error is `none`.
pub record ReportResult : Type 0 where
  pub resources : List Resource
  pub error : Option Text

abbrev pub Report : Type 0
Report = Session → ReportResult

pub record Service : Type 0 where
  pub name : Text
  pub is_global : Bool
  -- the entries of the map, in the order of a loop over it
  pub reports : List (Text × Report)

pub record Job : Type 0 where
  pub report : Report
  pub session : Session

pub data JobError : Type 0 where
  unknown_resource : Text → Text → JobError
  -- the panic of account.Sessions[0] where there is no session
  index_out_of_range : JobError

unfoldable pub find_report : Text → List (Text × Report) → Option Report
find_report resource [] = none
find_report resource ((name, report) ∷ reports) =
    if eq_text name resource then some report else find_report resource reports

first_session : List Session → Result JobError Session
first_session [] = err index_out_of_range
first_session (s ∷ sessions) = ok s

abbrev make_job : Report → Session → Job
make_job report session = record { report = report; session = session }

jobs_of : Service → Account → Report → Result JobError (List Job)
unfolding first_session
jobs_of s account report =
    if s.is_global
    then (do session ← first_session account.sessions; ok (make_job report session ∷ []))
    else ok (map (make_job report) account.sessions)

-- (*Service).GenerateJobs
unfoldable pub generate_jobs : Service → Account → Text → Result JobError (List Job)
unfolding find_report jobs_of
generate_jobs s account resource = elim (find_report resource s.reports) [
  | none ↦ err (unknown_resource resource s.name)
  | some report ↦ jobs_of s account report
]

jobs_of_all : Service → Account → List (Text × Report) → Result JobError (List Job)
unfolding generate_jobs
jobs_of_all s account [] = ok []
jobs_of_all s account ((resource, _) ∷ reports) = do
  new_jobs ← generate_jobs s account resource
  jobs ← jobs_of_all s account reports
  ok (new_jobs ++ jobs)

-- (*Service).GenerateAllJobs
unfoldable pub generate_all_jobs : Service → Account → Result JobError (List Job)
unfolding jobs_of_all
generate_all_jobs s account = jobs_of_all s account s.reports

abbrev pub run_job : Job → ReportResult
run_job job = job.report job.session

add_result : Option Text → List Resource → List Resource × List Text → List Resource × List Text
add_result none resources rest = (resources ++ rest.0, rest.1)
add_result (some e) resources rest = (rest.0, e ∷ rest.1)

-- The loop of Run over the results, in the order in which they arrive.
unfoldable pub collect : List ReportResult → List Resource × List Text
unfolding add_result
collect [] = ([], [])
collect (result ∷ results) = add_result result.error result.resources (collect results)
