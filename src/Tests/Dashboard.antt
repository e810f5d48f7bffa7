-- ===== src/Tests/Dashboard.antt =====
-- The dashboard's requests for twelve services, and updates of 203 and 204 accounts.
use awstools.Prelude.{
  ℕ, zero, suc, ◌≡◌, ◌≢◌, refl, arith, err, length, some, none, List, [], ◌∷◌, All, Option,
}
use awstools.Prelude.Text.{Text, codes}
use awstools.Dashboard.{Account, AccountState, EcsWorld, concat, slices}
use awstools.Dashboard.Updating.{Update, begin, IsDone, send_job, Updates, at_start, then}
use awstools.Dashboard.Updating.Room.{update_accounts_stuck}
use awstools.Dashboard.Updating.Ending.{update_accounts_end}
use awstools.Dashboard.Slices.{FitsRequest, slices_lem}

abbrev twelve : List Text
twelve =
    codes "a"
    ∷ codes "b"
    ∷ codes "c"
    ∷ codes "d"
    ∷ codes "e"
    ∷ codes "f"
    ∷ codes "g"
    ∷ codes "h"
    ∷ codes "i"
    ∷ codes "j"
    ∷ codes "k"
    ∷ codes "l"
    ∷ []

slices-twelve :
    slices twelve
    ≡ (codes "a"
        ∷ codes "b"
        ∷ codes "c"
        ∷ codes "d"
        ∷ codes "e"
        ∷ codes "f"
        ∷ codes "g"
        ∷ codes "h"
        ∷ codes "i"
        ∷ codes "j"
        ∷ [])
      ∷ (codes "k" ∷ codes "l" ∷ [])
      ∷ []
unfolding slices
slices-twelve = refl

slices_lem_example : (concat (slices twelve) ≡ twelve) × All FitsRequest (slices twelve)
slices_lem_example = slices_lem twelve

abbrev named : Text → Account
named name = record { account_name = name; role = []; external_id = []; prefix = []; region = [] }

abbrev state : Text → AccountState Text
state name = record {
  account = named name;
  updated_at = 1;
  clusters = [];
  services = [];
  task_definitions = [];
}

abbrev results : List (Option (AccountState Text))
results = none ∷ some (state (codes "dev")) ∷ some (state (codes "prod")) ∷ []

dev_ne_prod : codes "prod" ≢ codes "dev"
dev_ne_prod h = ground arith

prod_ne_old : codes "prod" ≢ codes "old"
prod_ne_old h = ground arith

dev_ne_old : codes "dev" ≢ codes "old"
dev_ne_old h = ground arith

abbrev ecs : EcsWorld (Unit {0})
ecs = record {
  list_clusters = λ a. err (codes "denied");
  describe_clusters = λ a arns. err (codes "denied");
  list_services_pages = λ a arn. err (codes "denied");
  describe_services = λ a cluster names. err (codes "denied");
  describe_task_definition = λ a name. err (codes "denied");
  now = 0;
}

abbrev some_account : Account
some_account = record {
  account_name = codes "a";
  role = [];
  external_id = [];
  prefix = [];
  region = codes "eu";
}

abbrev copies : ℕ → List Account
copies zero = []
copies (suc n) = some_account ∷ copies n

-- The first of so many accounts is in the channel.
abbrev one_sent : ℕ → Update (Unit {0})
one_sent n = record {
  to_send = copies n;
  jobs = some_account ∷ [];
  running = [];
  results = [];
  received = [];
}

first_sent : (n : ℕ) → Updates ecs (begin (copies (suc n))) (one_sent n)
first_sent n = then at_start (send_job some_account (copies n) [] [] [] [] (omega arith))

update_accounts_stuck_example : ((one_sent 203).to_send ≢ []) × ((one_sent 203).received ≡ [])
update_accounts_stuck_example =
    update_accounts_stuck ecs (copies 204) (one_sent 203) (omega arith) (first_sent 203)

update_accounts_end_example :
    (v : Update (Unit {0})) × Updates ecs (one_sent 202) v
    × IsDone v
    × (length v.received ≡ length (copies 203))
update_accounts_end_example =
    update_accounts_end ecs (copies 203) (one_sent 202) (omega arith) (first_sent 202)
