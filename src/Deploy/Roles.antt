-- ===== src/Deploy/Roles.antt =====
-- The roles of the task definition that ecs/deploy/main.go registers.
use awstools.Prelude.{◌≡◌, refl, false, Option, none, some, [], ok}
use awstools.Prelude.Text.{Text, Free, is_empty}
use awstools.Common.Arn.{Arn, parse_arn, replace_account_id_ptr}
use awstools.Common.Arn.Replacing.{replace_account_id-parse, SameHead}
use awstools.Deploy.{
  TaskDefinition, DeployWorld, replace_roles, update_input, update_task_definition,
}

-- A role that is missing, or an ARN.
abbrev pub IsArn : Option Text → Type 0
IsArn none = Unit {0}
IsArn (some arn) = (a : Arn) × (parse_arn arn ≡ ok a)

-- The role of the other account: missing as before, or the same ARN with this account.
abbrev pub InAccount : Text → Option Text → Option Text → Type 0
InAccount account_id none role = role ≡ none
InAccount account_id (some arn) role =
    (a : Arn) × (out : Text) × (b : Arn) × (parse_arn arn ≡ ok a)
    × (role ≡ some out)
    × (parse_arn out ≡ ok b)
    × SameHead b (record a { account_id = account_id })

replace_ptr-InAccount :
    (role : Option Text) (account_id : Text)
    → Free b':' account_id
    → IsArn role
    → (out : Option Text) × (replace_account_id_ptr role account_id ≡ ok out)
      × InAccount account_id role out
unfolding replace_account_id_ptr
replace_ptr-InAccount none account_id free h = (none, refl, refl)
replace_ptr-InAccount (some arn) account_id free (a, parsed) =
    let (out, b, e, parsed', same) = replace_account_id-parse arn account_id a free parsed in
    (some out, rw e refl, (a, out, b, parsed, refl, parsed', same))

replace_roles-InAccount :
    (t : TaskDefinition) (account_id : Text)
    → is_empty account_id ≡ false
    → Free b':' account_id
    → IsArn t.task_role_arn
    → IsArn t.execution_role_arn
    → (task execution : Option Text) × (replace_roles t account_id ≡ ok (task, execution))
      × InAccount account_id t.task_role_arn task
      × InAccount account_id t.execution_role_arn execution
unfolding replace_roles
replace_roles-InAccount t account_id given free task execution =
    let (task_role, e, in1) = replace_ptr-InAccount t.task_role_arn account_id free task in
    let (execution_role, e', in2) =
      replace_ptr-InAccount t.execution_role_arn account_id free execution in
    (task_role, execution_role, rw (given, replace_roles, e, e') refl, in1, in2)

-- The definition with the fields alone that updateTaskDefinition copies, less the roles.
abbrev pub copied : TaskDefinition → TaskDefinition
copied t = record t {
  task_role_arn = none;
  execution_role_arn = none;
  pid_mode = none;
  ipc_mode = none;
  proxy_configuration = none;
  runtime_platform = none;
  ephemeral_storage = none;
  inference_accelerators = [];
}

-- Where the roles are ARNs and the account is a text without colons that is not empty,
-- updateTaskDefinition registers both roles in the account, with the partition, service and region
-- of each. Of the rest it registers the container definitions, cpu, family, memory, network mode,
-- placement constraints, compatibilities and volumes as they were, and nothing else: a PID or IPC
-- mode, a proxy, a platform, a storage and accelerators are lost, and there are no tags.
pub update_task_definition-InAccount :
    (w : DeployWorld) (t : TaskDefinition) (account_id : Text)
    → is_empty account_id ≡ false
    → Free b':' account_id
    → IsArn t.task_role_arn
    → IsArn t.execution_role_arn
    → (task execution : Option Text) × InAccount account_id t.task_role_arn task
      × InAccount account_id t.execution_role_arn execution
      × (update_task_definition w t account_id
          ≡ w.register_task_definition (record {
            definition = record (copied t) { task_role_arn = task; execution_role_arn = execution };
            tags = [];
          }))
unfolding update_task_definition
update_task_definition-InAccount w t account_id given free task execution =
    let (task_role, execution_role, e, in1, in2) =
      replace_roles-InAccount t account_id given free task execution in
    (task_role, execution_role, in1, in2, rw (e, update_task_definition, update_input) refl)
