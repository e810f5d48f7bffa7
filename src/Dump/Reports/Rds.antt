-- ===== src/Dump/Reports/Rds.antt =====
-- aws/dump/resources/rds.go. The RDS client is a parameter; structs.Map of a value is its `metadata`.
use awstools.Prelude.{Bool, Option, none, some, [], ◌∷◌, if◌then◌else◌}
use awstools.Prelude.Text.{Text, codes, has_prefix}
use awstools.Common.Config.Values.{Fields}
use awstools.Dump.Jobs.{Resource, Session, Report, Service}
use awstools.Dump.Reports.Pages.{Pages, list_pages}

-- What the reports read of a value of the SDK: what serves as the id, the ARN, and the name of an
-- option group.
pub record RdsItem : Type 0 where
  pub identifier : Text
  pub arn : Text
  pub metadata : Fields

pub record OptionGroup : Type 0 where
  pub option_group_name : Text
  pub option_group_arn : Text
  pub metadata : Fields

-- The Describe...Pages methods, in the session of a report.
pub record RdsClient : Type 0 where
  pub db_clusters : Session → Pages RdsItem
  pub db_instance_automated_backups : Session → Pages RdsItem
  pub db_instances : Session → Pages RdsItem
  pub db_parameter_groups : Session → Pages RdsItem
  pub db_security_groups : Session → Pages RdsItem
  pub db_snapshots : Session → Pages RdsItem
  pub db_subnet_groups : Session → Pages RdsItem
  pub event_subscriptions : Session → Pages RdsItem
  pub events : Session → Pages RdsItem
  pub global_clusters : Session → Pages RdsItem
  pub option_groups : Session → Pages OptionGroup
  pub reserved_db_instances : Session → Pages RdsItem

abbrev pub rds_resource : Session → Text → Text → Text → Fields → Resource
rds_resource session kind identifier arn metadata = record {
  id = identifier;
  arn = arn;
  service = codes "rds";
  kind = kind;
  account_id = session.account_id;
  region = session.region;
  metadata = metadata;
  managed_by = [];
}

-- The item with its identifier as the id, and with its ARN as the id.
abbrev pub named_item : Session → Text → RdsItem → Option Resource
named_item session kind item =
    some (rds_resource session kind item.identifier item.arn item.metadata)

abbrev pub arn_item : Session → Text → RdsItem → Option Resource
arn_item session kind item = some (rds_resource session kind item.arn item.arn item.metadata)

abbrev pub option_group : Session → OptionGroup → Option Resource
option_group session g =
    if has_prefix g.option_group_name (codes "default:")
    then none
    else some (
        rds_resource session (codes "option-group") g.option_group_arn g.option_group_arn
          g.metadata)

module _ (client : RdsClient) where
  unfoldable pub rds_list_db_clusters : Report
  unfolding list_pages
  rds_list_db_clusters session =
      list_pages (named_item session (codes "db-cluster")) (client.db_clusters session)

  unfoldable pub rds_list_db_instance_automated_backups : Report
  unfolding list_pages
  rds_list_db_instance_automated_backups session =
      list_pages (arn_item session (codes "db-instance-automated-backup"))
        (client.db_instance_automated_backups session)

  unfoldable pub rds_list_db_instances : Report
  unfolding list_pages
  rds_list_db_instances session =
      list_pages (named_item session (codes "db-instance")) (client.db_instances session)

  unfoldable pub rds_list_db_parameter_groups : Report
  unfolding list_pages
  rds_list_db_parameter_groups session =
      list_pages (arn_item session (codes "db-parameter-group"))
        (client.db_parameter_groups session)

  unfoldable pub rds_list_db_security_groups : Report
  unfolding list_pages
  rds_list_db_security_groups session =
      list_pages (arn_item session (codes "db-security-group")) (client.db_security_groups session)

  unfoldable pub rds_list_db_snapshots : Report
  unfolding list_pages
  rds_list_db_snapshots session =
      list_pages (named_item session (codes "db-snapshot")) (client.db_snapshots session)

  unfoldable pub rds_list_db_subnet_groups : Report
  unfolding list_pages
  rds_list_db_subnet_groups session =
      list_pages (arn_item session (codes "db-subnet-group")) (client.db_subnet_groups session)

  unfoldable pub rds_list_event_subscriptions : Report
  unfolding list_pages
  rds_list_event_subscriptions session =
      list_pages (arn_item session (codes "event-subscription"))
        (client.event_subscriptions session)

  unfoldable pub rds_list_events : Report
  unfolding list_pages
  rds_list_events session = list_pages (arn_item session (codes "event")) (client.events session)

  unfoldable pub rds_list_global_clusters : Report
  unfolding list_pages
  rds_list_global_clusters session =
      list_pages (named_item session (codes "global-cluster")) (client.global_clusters session)

  unfoldable pub rds_list_option_groups : Report
  unfolding list_pages
  rds_list_option_groups session = list_pages (option_group session) (client.option_groups session)

  unfoldable pub rds_list_reserved_db_instances : Report
  unfolding list_pages
  rds_list_reserved_db_instances session =
      list_pages (arn_item session (codes "reserved-db-instance"))
        (client.reserved_db_instances session)

  -- RDSService
  unfoldable pub rds_service : Service
  unfolding rds_list_db_clusters rds_list_db_instance_automated_backups rds_list_db_instances
      rds_list_db_parameter_groups rds_list_db_security_groups rds_list_db_snapshots
      rds_list_db_subnet_groups rds_list_event_subscriptions rds_list_events
      rds_list_global_clusters rds_list_option_groups rds_list_reserved_db_instances
  rds_service = record {
    name = codes "rds";
    is_global = Bool.false;
    reports =
        (codes "db-clusters", rds_list_db_clusters)
        ∷ (codes "db-instance-automated-backups", rds_list_db_instance_automated_backups)
        ∷ (codes "db-instances", rds_list_db_instances)
        ∷ (codes "db-parameter-groups", rds_list_db_parameter_groups)
        ∷ (codes "db-security-groups", rds_list_db_security_groups)
        ∷ (codes "db-snapshots", rds_list_db_snapshots)
        ∷ (codes "db-subnet-groups", rds_list_db_subnet_groups)
        ∷ (codes "event-subscriptions", rds_list_event_subscriptions)
        ∷ (codes "events", rds_list_events)
        ∷ (codes "global-clusters", rds_list_global_clusters)
        ∷ (codes "option-groups", rds_list_option_groups)
        ∷ (codes "reserved-db-instances", rds_list_reserved_db_instances)
        ∷ [];
  }
