-- ===== src/Dashboard.antt =====
-- ecs/dashboard: refresh.go, ecs.go and types.go, the state of the accounts' clusters and services.
-- The ECS service, OpenSession and the clock are parameters.
pub mod Slices
pub mod States
pub mod Updating
use awstools.Prelude.{
  ℕ, zero, suc, ◌+◌, ◌-◌, Bool, true, false, Option, none, some, List, [], ◌∷◌, ◌++◌, Result, ok,
  err, ◌>>=◌, if◌then◌else◌, length, take, drop, ltb,
}
use awstools.Common.Entries.{find_entry, put_entry}
use awstools.Prelude.Text.{Text, codes, eq_text}

pub record Account : Type 0 where
  pub account_name : Text
  pub role : Text
  pub external_id : Text
  pub prefix : Text
  pub region : Text

pub record Config : Type 0 where
  pub accounts : List Account

-- What the code reads of an ecs.Cluster and of an ecs.Service.
pub record Cluster : Type 0 where
  pub cluster_arn : Text
  pub cluster_name : Text

pub record EcsService : Type 0 where
  pub service_name : Text
  pub task_definition : Text

-- `T` stands for ecs.TaskDefinition.
pub record AccountState (T : Type 0) : Type 0 where
  pub account : Account
  pub updated_at : ℕ
  pub clusters : List Cluster
  pub services : List EcsService
  pub task_definitions : List (Text × T)

pub record Message : Type 0 where
  pub message : Text
  pub kind : Text

-- The calls of the ECS service in the session of an account; ListServicesPages makes pages.
pub record EcsWorld (T : Type 0) : Type 0 where
  pub list_clusters : Account → Result Text (List Text)
  pub describe_clusters : Account → List Text → Result Text (List Cluster)
  pub list_services_pages : Account → Text → Result Text (List (List Text))
  pub describe_services : Account → Text → List Text → Result Text (List EcsService)
  pub describe_task_definition : Account → Text → Result Text T
  pub now : ℕ

unfoldable pub concat {ℓ} : {A : Type ℓ} → List (List A) → List A
concat [] = []
concat (xs ∷ xss) = xs ++ concat xss

-- serviceNameChunkSize
abbrev pub service_name_chunk_size : ℕ
service_name_chunk_size = 10

-- maxIndex
abbrev pub max_index : ℕ → ℕ → ℕ
max_index i count =
    if ltb count (i + service_name_chunk_size) then count else i + service_name_chunk_size

-- The slices serviceNames[i:maxIndex] of the loop, for at most as many rounds as there is fuel.
unfoldable pub slices_from : ℕ → ℕ → List Text → List (List Text)
slices_from zero i names = []
slices_from (suc fuel) i names =
    let rest = slices_from fuel (i + service_name_chunk_size) names in
    if ltb i (length names) then take (max_index i (length names) - i) (drop i names) ∷ rest else []

-- The slices of the whole loop.
unfoldable pub slices : List Text → List (List Text)
unfolding slices_from
slices names = slices_from (length names) 0 names

module _ {T : Type 0} (w : EcsWorld T) (account : Account) where
  -- listServices
  unfoldable pub list_services : Text → Result Text (List Text)
  unfolding concat
  list_services cluster_arn = do
    pages ← w.list_services_pages account cluster_arn
    ok (concat pages)

  -- The loop over the slices; a request that fails is skipped.
  unfoldable pub describe_slices : Text → List (List Text) → List EcsService
  describe_slices cluster_name [] = []
  describe_slices cluster_name (names ∷ rest) =
      let later = describe_slices cluster_name rest in
      elim (w.describe_services account cluster_name names) [
        | err e ↦ later
        | ok new_services ↦ new_services ++ later
      ]

  -- The services of one cluster.
  unfoldable pub services_of_cluster : Cluster → List EcsService
  unfolding list_services slices describe_slices
  services_of_cluster cluster = elim (list_services cluster.cluster_arn) [
    | err e ↦ []
    | ok service_names ↦ describe_slices cluster.cluster_name (slices service_names)
  ]

  unfoldable pub services_of_clusters : List Cluster → List EcsService
  unfolding services_of_cluster
  services_of_clusters [] = []
  services_of_clusters (cluster ∷ clusters) =
      services_of_cluster cluster ++ services_of_clusters clusters

  -- The loop over the services: it looks a service up by its name, and stores the task definition
  -- under the name of the task definition.
  unfoldable pub task_definitions_of : List EcsService → List (Text × T) → List (Text × T)
  unfolding find_entry put_entry
  task_definitions_of [] task_definitions = task_definitions
  task_definitions_of (s ∷ services) task_definitions =
      elim (find_entry s.service_name task_definitions) [
        | some t ↦ task_definitions_of services task_definitions
        | none ↦ elim (w.describe_task_definition account s.task_definition) [
          | err e ↦ task_definitions_of services task_definitions
          | ok t ↦ task_definitions_of services (put_entry s.task_definition t task_definitions)
        ]
      ]

  -- fetchAccount: the messages that it adds, and its result.
  unfoldable pub fetch_account : List Message × Result Text (AccountState T)
  unfolding services_of_clusters task_definitions_of
  fetch_account = elim (w.list_clusters account) [
    | err e ↦ (
      record {
        message =
            codes "Could not list clusters for "
            ++ (account.account_name ++ (codes " (" ++ (e ++ codes ")")));
        kind = codes "error";
      }
          ∷ [],
      err e,
    )
    | ok cluster_arns ↦ (
      [],
      w.describe_clusters account cluster_arns >>= λ clusters. ok (record {
        account = account;
        updated_at = w.now;
        clusters = clusters;
        services = services_of_clusters clusters;
        task_definitions = task_definitions_of (services_of_clusters clusters) [];
      }),
    )
  ]

  -- What worker sends: the state, or nil.
  unfoldable pub report : Option (AccountState T)
  unfolding fetch_account
  report = elim fetch_account.1 [ ok state ↦ some state | err e ↦ none ]

-- updateAccounts: the loop over the results, in the order in which the three workers send them.
unfoldable pub store :
    {T : Type 0}
    → List (Option (AccountState T))
    → List (Text × AccountState T)
    → List (Text × AccountState T)
unfolding put_entry
store [] account_states = account_states
store (none ∷ results) account_states = store results account_states
store (some result ∷ results) account_states =
    store results (put_entry result.account.account_name result account_states)
