-- ===== src/Tests/Deploy.antt =====
-- A deployment of one service that is ready in the second round.
use awstools.Prelude.{
  ℕ, zero, suc, ◌≡◌, ◌≢◌, refl, arith, false, Option, none, some, List, [], ◌∷◌, ok, err,
}
use awstools.Prelude.Text.{Text, codes, split}
use awstools.Common.Arn.{Arn, parse_arn}
use awstools.Deploy.{
  TaskDefinition, DescribedService, Flags, DeployWorld, gave_up, waiting, update_task_definition,
  deploy,
}
use awstools.Deploy.Waiting.{deploy-ends}
use awstools.Deploy.Roles.{InAccount, copied, update_task_definition-InAccount}

abbrev task : TaskDefinition
task = record {
  family = some (codes "web");
  container_definitions = [];
  task_role_arn = some (codes "arn:aws:iam::1:role/web");
  execution_role_arn = none;
  cpu = some (codes "256");
  memory = none;
  network_mode = none;
  placement_constraints = [];
  requires_compatibilities = [];
  volumes = codes "data" ∷ [];
  pid_mode = some (codes "host");
  ipc_mode = none;
  proxy_configuration = none;
  runtime_platform = none;
  ephemeral_storage = none;
  inference_accelerators = [];
}

abbrev described : ℕ → List DescribedService
described zero = record { deployments = (0, 1) ∷ [] } ∷ []
described (suc n) = record { deployments = (1, 1) ∷ [] } ∷ []

abbrev world : DeployWorld
world = record {
  read_file = λ name. err (codes "missing");
  replace_all = λ s old new. s;
  unmarshal_task = λ s. ok task;
  describe_task_definition = λ name. ok task;
  get_caller_identity = ok (codes "2");
  register_task_definition = λ t. ok (codes "arn");
  update_service = λ service arn. ok tt;
  describe_services = λ n services. ok (described n);
  since = λ n. n;
}

abbrev flags : Flags
flags = record {
  task_name = codes "web";
  services = codes "s" ∷ [];
  images = [];
  timeout = 3;
  task_json = [];
  task_variables = [];
  overwrite_account_ids = false;
  update_task_definition_only = false;
}

deploy-late :
    deploy (record world { describe_services = λ n services. ok (described 0) }) 5 flags ≡ gave_up 1
unfolding deploy
deploy-late = refl

deploy-ends_example : deploy world 4 flags ≢ waiting
deploy-ends_example = deploy-ends world 4 3 flags (λ j h. ground arith) (omega arith)

parsed : (a : Arn) × (parse_arn (codes "arn:aws:iam::1:role/web") ≡ ok a)
unfolding parse_arn split
parsed = (_, refl)

update_task_definition-InAccount_example :
    (task_role execution_role : Option Text) × InAccount (codes "2") task.task_role_arn task_role
    × InAccount (codes "2") task.execution_role_arn execution_role
    × (update_task_definition world task (codes "2")
        ≡ world.register_task_definition (record {
          definition = record (copied task) {
            task_role_arn = task_role;
            execution_role_arn = execution_role;
          };
          tags = [];
        }))
update_task_definition-InAccount_example =
    update_task_definition-InAccount world task (codes "2") refl (omega arith) parsed tt
