-- ===== src/Tests/Dump.antt =====
-- A run of aws/dump with one service, one account and one resource.
use mathlib.Core.List.{Perm}
use awstools.Prelude.{Result, ◌≡◌, refl, arith, true, some, none, List, [], ◌∷◌, map, ok, err}
use awstools.Prelude.Text.{Text, codes}
use awstools.Common.Config.Values.{end}
use awstools.Workers.{Pool, Reach, here, next, take_job, send_result, start}
use awstools.Dump.Jobs.{Resource, Session, Account, ReportResult, Service, Job, run_job, collect}
use awstools.Dump.Sessions.{open_sessions}
use awstools.Dump.Jobs.Run.{run, run-perm}
use awstools.Dump.Terraform.{TerraformWorld, TerraformBackends, no_destination, verify}
use awstools.Dump.Handler.{Input, report_resources}
use awstools.Dump.Handler.Marking.{report_resources_unverified}

abbrev bucket : Resource
bucket = record {
  id = codes "b";
  arn = codes "arn:aws:s3:::b";
  service = codes "s3";
  kind = [];
  account_id = [];
  region = [];
  metadata = end;
  managed_by = [];
}

abbrev eu : Session
eu = record { account_id = codes "1"; region = codes "eu-west-1" }

abbrev account : Account
account = record {
  regions = codes "eu-west-1" ∷ [];
  role_arn = [];
  role_policy = [];
  external_id = [];
  session_name = [];
  sessions = eu ∷ [];
}

abbrev buckets : Session → ReportResult
buckets session = record { resources = bucket ∷ []; error = none }

abbrev s3 : Service
s3 = record { name = codes "s3"; is_global = true; reports = (codes "buckets", buckets) ∷ [] }

abbrev job : Job
job = record { report = buckets; session = eu }

abbrev finished : Pool Job ReportResult
finished = record { queue = []; running = []; done = run_job job ∷ [] }

one_job : Reach run_job 10 (start (job ∷ [])) finished
one_job = next (next here (take_job job [] [] [] (omega arith))) (send_result job [] [] [] [])

run-perm_example :
    Perm (run finished).0 (collect (map run_job (job ∷ []))).0
    × Perm (run finished).1 (collect (map run_job (job ∷ []))).1
run-perm_example =
    run-perm (job ∷ []) finished one_job (record { no_queue = refl; no_running = refl })

abbrev state : List (Text × Text)
state = (codes "arn:aws:s3:::b", codes "arn:aws:s3:::states/s") ∷ []

abbrev terraform_world : TerraformWorld
terraform_world = record {
  download = λ backend destination options. err (codes "no such bucket");
  read_state = λ filename. err (codes "no such file");
  unmarshal = λ s. ok end;
}

abbrev nowhere : TerraformBackends
nowhere = record { destination = []; options = none; s3 = []; state_filenames = [] }

abbrev event : Input
event = record {
  accounts = account ∷ [];
  terraform_backend_config = some nowhere;
  only_unmanaged = true;
  reports = [];
}

verify-nowhere : verify nowhere ≡ err no_destination
unfolding verify
verify-nowhere = refl

report_resources_unverified_example :
    report_resources terraform_world event (some nowhere) (bucket ∷ []) ≡ ok (bucket ∷ [])
report_resources_unverified_example =
    report_resources_unverified terraform_world event nowhere no_destination (bucket ∷ [])
      verify-nowhere refl

abbrev identify : Account → Text → Result Text Text
identify a region = ok (codes "1")

open_account : open_sessions identify (record account { sessions = [] } ∷ []) ≡ ok (account ∷ [])
unfolding open_sessions
open_account = refl
