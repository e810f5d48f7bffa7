-- ===== src/Deploy.antt =====
-- ecs/deploy/main.go: the task definition that it registers, and how it waits for the services. ECS,
-- STS, encoding/json and the clock are parameters.
pub mod Waiting
pub mod Roles
use awstools.Prelude.{
  ℕ, zero, suc, ◌+◌, ◌-◌, Bool, true, false, not, ◌&&◌, ◌==◌, leb, Option, none, some, List, [],
  ◌∷◌, ◌++◌, map, Result, ok, err, ◌>>=◌, map_err, if◌then◌else◌,
}
use awstools.Prelude.Text.{Text, codes, eq_text, is_empty}
use awstools.Common.Arn.{ArnError, replace_account_id_ptr}

pub record ContainerDefinition : Type 0 where
  pub name : Text
  pub image : Option Text
  -- the fields that are passed on
  pub other : Text

-- The fields of ecs.TaskDefinition that can be registered; a value that the code does not look into
-- is a text.
pub record TaskDefinition : Type 0 where
  pub family : Option Text
  pub container_definitions : List ContainerDefinition
  pub task_role_arn : Option Text
  pub execution_role_arn : Option Text
  pub cpu : Option Text
  pub memory : Option Text
  pub network_mode : Option Text
  pub placement_constraints : List Text
  pub requires_compatibilities : List Text
  pub volumes : List Text
  pub pid_mode : Option Text
  pub ipc_mode : Option Text
  pub proxy_configuration : Option Text
  pub runtime_platform : Option Text
  pub ephemeral_storage : Option Text
  pub inference_accelerators : List Text

-- ecs.RegisterTaskDefinitionInput has these fields, too, and tags.
pub record RegisterTaskDefinitionInput : Type 0 where
  pub definition : TaskDefinition
  pub tags : List Text

-- A deployment is its running count and its desired count; Deployments[0] of no deployment panics.
pub record DescribedService : Type 0 where
  pub deployments : List (ℕ × ℕ)

pub record Flags : Type 0 where
  pub task_name : Text
  pub services : List Text
  pub images : List (Text × Text)
  pub timeout : ℕ
  pub task_json : Text
  pub task_variables : List (Text × Text)
  pub overwrite_account_ids : Bool
  pub update_task_definition_only : Bool

pub record DeployWorld : Type 0 where
  pub read_file : Text → Result Text Text
  -- bytes.ReplaceAll
  pub replace_all : Text → Text → Text → Text
  pub unmarshal_task : Text → Result Text TaskDefinition
  pub describe_task_definition : Text → Result Text TaskDefinition
  pub get_caller_identity : Result Text Text
  -- the ARN of the definition that RegisterTaskDefinition makes
  pub register_task_definition : RegisterTaskDefinitionInput → Result Text Text
  pub update_service : Text → Text → Result Text (Unit {0})
  -- the answers of DescribeServices and of time.Since(start), by the number of the round
  pub describe_services : ℕ → List Text → Result Text (List DescribedService)
  pub since : ℕ → ℕ

-- How the program ends; `waiting` is a loop that has not ended yet.
pub data Exit : Type 0 where
  success : Exit
  fatal : Text → Exit
  gave_up : ℕ → Exit
  index_out_of_range : Exit
  waiting : Exit

-- (*images)[name]; the zero value is the empty text.
unfoldable pub image_for : List (Text × Text) → Text → Text
image_for [] name = []
image_for ((key, image) ∷ images) name = if eq_text key name then image else image_for images name

-- The loop over the container definitions.
unfoldable pub set_image : List (Text × Text) → ContainerDefinition → ContainerDefinition
unfolding image_for
set_image images c =
    if is_empty (image_for images c.name)
    then c
    else record c { image = some (image_for images c.name) }

unfoldable pub set_images : List (Text × Text) → TaskDefinition → TaskDefinition
unfolding set_image
set_images images t = record t {
  container_definitions = map (set_image images) t.container_definitions;
}

-- The loop over the task variables.
unfoldable pub replace_variables : (Text → Text → Text → Text) → List (Text × Text) → Text → Text
replace_variables replace_all [] b = b
replace_variables replace_all ((k, v) ∷ variables) b =
    replace_variables replace_all variables (replace_all b (codes "${" ++ (k ++ codes "}")) v)

abbrev pub role_error : {A : Type 0} → Text → Result ArnError A → Result Text A
role_error what r = map_err (λ e. codes "failed to replace accountID in " ++ what) r

-- taskRoleArn and executionRoleArn of updateTaskDefinition.
unfoldable pub replace_roles : TaskDefinition → Text → Result Text (Option Text × Option Text)
unfolding replace_account_id_ptr
replace_roles t account_id =
    if is_empty account_id then ok (t.task_role_arn, t.execution_role_arn) else (do
      task_role_arn ←
          role_error (codes "task role arn") (replace_account_id_ptr t.task_role_arn account_id)
      execution_role_arn ←
          role_error (codes "execution role arn")
            (replace_account_id_ptr t.execution_role_arn account_id)
      ok (task_role_arn, execution_role_arn))

-- updateInput of updateTaskDefinition; a field that the literal does not name is nil.
unfoldable pub update_input :
    TaskDefinition → Option Text → Option Text → RegisterTaskDefinitionInput
update_input t task_role_arn execution_role_arn = record {
  definition = record {
    container_definitions = t.container_definitions;
    cpu = t.cpu;
    execution_role_arn = execution_role_arn;
    family = t.family;
    memory = t.memory;
    network_mode = t.network_mode;
    placement_constraints = t.placement_constraints;
    requires_compatibilities = t.requires_compatibilities;
    task_role_arn = task_role_arn;
    volumes = t.volumes;
    pid_mode = none;
    ipc_mode = none;
    proxy_configuration = none;
    runtime_platform = none;
    ephemeral_storage = none;
    inference_accelerators = [];
  };
  tags = [];
}

module _ (w : DeployWorld) where
  -- updateTaskDefinition, which returns the ARN of what it registers.
  unfoldable pub update_task_definition : TaskDefinition → Text → Result Text Text
  unfolding replace_roles update_input
  update_task_definition t account_id = do
    roles ← replace_roles t account_id
    w.register_task_definition (update_input t roles.0 roles.1)

  -- The switch over the flags for the task definition.
  unfoldable pub load_task_definition : Flags → Result Text TaskDefinition
  unfolding replace_variables
  load_task_definition flags =
      if not (is_empty flags.task_json)
      then (if not (is_empty flags.task_name)
          then err (codes "Use only one of --task-json and --task-name")
          else (do
            b ← w.read_file flags.task_json
            w.unmarshal_task (replace_variables w.replace_all flags.task_variables b)))
      else if not (is_empty flags.task_name)
      then w.describe_task_definition flags.task_name
      else err (codes "One of --task-json or --task-name is required")

  abbrev pub account_id_of : Flags → Result Text Text
  account_id_of flags = if flags.overwrite_account_ids then w.get_caller_identity else ok []

  -- main, up to fmt.Println(*newTaskDefinition.TaskDefinitionArn)
  unfoldable pub register : Flags → Result Text Text
  unfolding load_task_definition set_images update_task_definition
  register flags = do
    t ← load_task_definition flags
    account_id ← account_id_of flags
    update_task_definition (set_images flags.images t) account_id

  abbrev pub updated : Result Text (Unit {0}) → ℕ
  updated (ok u) = 1
  updated (err e) = 0

  -- The loop that updates the services, and counts those that could be updated.
  unfoldable pub update_services : Text → List Text → ℕ
  update_services arn [] = 0
  update_services arn (service ∷ services) =
      updated (w.update_service service arn) + update_services arn services

  abbrev pub count_one : ℕ × ℕ → ℕ
  count_one (running, desired) = if running == desired then 0 else 1

  abbrev pub add_count : List (ℕ × ℕ) → Option ℕ → Option ℕ
  add_count [] rest = none
  add_count (d ∷ ds) none = none
  add_count (d ∷ ds) (some n) = some (count_one d + n)

  -- The loop over the described services; `none` is the panic of Deployments[0].
  unfoldable pub count_pending : List DescribedService → Option ℕ
  count_pending [] = some 0
  count_pending (s ∷ services) = add_count s.deployments (count_pending services)

  -- pending != 0 && time.Since(start) >= *timeout
  abbrev pub too_late : ℕ → Bool → Bool
  too_late zero passed = false
  too_late (suc pending) passed = passed

  -- The loop that waits, in its round number `i`.
  unfoldable pub wait : ℕ → List Text → ℕ → ℕ → ℕ → Exit
  unfolding count_pending
  wait fuel services timeout i zero = success
  wait zero services timeout i (suc pending) = waiting
  wait (suc fuel) services timeout i (suc pending) = elim (w.describe_services i services) [
    | err e ↦ fatal e
    | ok described ↦ elim (count_pending described) [
      | none ↦ index_out_of_range
      | some n ↦ elim (too_late n (leb timeout (w.since i))) [
        | true ↦ gave_up n
        | false ↦ wait fuel services timeout (i + 1) n
      ]
    ]
  ]

  -- main
  unfoldable pub deploy : ℕ → Flags → Exit
  unfolding register update_services wait
  deploy fuel flags = elim (register flags) [
    | err e ↦ fatal e
    | ok arn ↦ elim flags.update_task_definition_only [
      | true ↦ success
      | false ↦ wait fuel flags.services flags.timeout 0 (update_services arn flags.services)
    ]
  ]
