-- ===== src/Dump/Reports/AutoScaling.antt =====
-- aws/dump/resources/autoscaling.go. The client is a parameter.
use awstools.Prelude.{Option, some, [], ◌∷◌, Bool}
use awstools.Prelude.Text.{Text, codes}
use awstools.Common.Config.Values.{Fields}
use awstools.Dump.Jobs.{Resource, Session, Report, Service}
use awstools.Dump.Reports.Pages.{Pages, list_pages}

-- A group or a launch configuration: its name, its ARN and its map.
pub record AutoScalingItem : Type 0 where
  pub name : Text
  pub arn : Text
  pub metadata : Fields

pub record AutoScalingClient : Type 0 where
  pub groups : Session → Pages AutoScalingItem
  pub launch_configurations : Session → Pages AutoScalingItem

abbrev pub autoscaling_resource : Session → Text → AutoScalingItem → Option Resource
autoscaling_resource session kind item = some (record {
  id = item.name;
  arn = item.arn;
  service = codes "autoscaling";
  kind = kind;
  account_id = session.account_id;
  region = session.region;
  metadata = item.metadata;
  managed_by = [];
})

module _ (client : AutoScalingClient) where
  unfoldable pub autoscaling_list_groups : Report
  unfolding list_pages
  autoscaling_list_groups session =
      list_pages (autoscaling_resource session (codes "group")) (client.groups session)

  unfoldable pub autoscaling_list_launch_configurations : Report
  unfolding list_pages
  autoscaling_list_launch_configurations session =
      list_pages (autoscaling_resource session (codes "launch-configuration"))
        (client.launch_configurations session)

  -- AutoScalingService
  unfoldable pub autoscaling_service : Service
  unfolding autoscaling_list_groups autoscaling_list_launch_configurations
  autoscaling_service = record {
    name = codes "autoscaling";
    is_global = Bool.false;
    reports =
        (codes "groups", autoscaling_list_groups)
        ∷ (codes "launch-configurations", autoscaling_list_launch_configurations)
        ∷ [];
  }
