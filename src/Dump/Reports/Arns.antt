-- ===== src/Dump/Reports/Arns.antt =====
-- aws/dump/resources: acm.go, cloudwatch.go, lambda.go and kms.go, whose reports make their resources
-- of ARNs. The clients are parameters.
use awstools.Prelude.{
  false, Option, none, some, [], ◌∷◌, Result, ok, ◌>>=◌, map_err, ◌||◌, if◌then◌else◌,
}
use awstools.Prelude.Text.{Text, codes, eq_text, has_prefix}
use awstools.Common.Arn.{ArnError, invalid_format}
use awstools.Common.Config.Values.{Fields}
use awstools.Dump.Jobs.{Resource, Session, Report, Service, new_resource}
use awstools.Dump.Reports.Pages.{Pages}
use awstools.Dump.Reports.Fallible.{list_fallible}

-- What the reports read of a value of the SDK.
pub record ArnItem : Type 0 where
  pub arn : Text
  pub metadata : Fields

pub record KeyMetadata : Type 0 where
  pub key_manager : Text
  pub key_state : Text
  pub metadata : Fields

pub record KeyEntry : Type 0 where
  pub key_id : Text
  pub key_arn : Text
  pub metadata : Fields

pub record AliasEntry : Type 0 where
  pub alias_name : Text
  pub alias_arn : Text
  pub metadata : Fields

pub record ArnClient : Type 0 where
  pub certificates : Session → Pages ArnItem
  pub alarms : Session → Pages ArnItem
  pub functions : Session → Pages ArnItem
  pub event_source_mappings : Session → Pages ArnItem
  pub keys : Session → Pages KeyEntry
  pub describe_key : Session → Text → Result Text KeyMetadata
  pub aliases : Session → Pages AliasEntry

-- The Error method of what ParseARN returns.
abbrev pub arn_error_text : ArnError → Text
arn_error_text invalid_format = codes "invalid format"

-- resource, err := NewResource(arn, x), with structs.Map(x)
abbrev pub resource_of : Text → Fields → Result Text Resource
resource_of arn metadata = map_err arn_error_text (new_resource arn metadata)

abbrev pub arn_resource : ArnItem → Result Text (Option Resource)
arn_resource item = do resource ← resource_of item.arn item.metadata; ok (some resource)

-- Keys of AWS and keys that are being deleted are left out, after the call that describes them.
abbrev pub described : Resource → KeyMetadata → Option Resource
described resource m =
    if eq_text m.key_manager (codes "AWS") || eq_text m.key_state (codes "PendingDeletion")
    then none
    else some (record resource { metadata = m.metadata })

abbrev pub alias_resource : AliasEntry → Result Text (Option Resource)
alias_resource alias =
    if has_prefix alias.alias_name (codes "alias/aws/")
    then ok none
    else (do resource ← resource_of alias.alias_arn alias.metadata; ok (some resource))

module _ (client : ArnClient) where
  unfoldable pub acm_list_certificates : Report
  unfolding list_fallible new_resource
  acm_list_certificates session = list_fallible arn_resource (client.certificates session)

  unfoldable pub cloudwatch_list_alarms : Report
  unfolding list_fallible new_resource
  cloudwatch_list_alarms session = list_fallible arn_resource (client.alarms session)

  unfoldable pub lambda_list_functions : Report
  unfolding list_fallible new_resource
  lambda_list_functions session = list_fallible arn_resource (client.functions session)

  unfoldable pub lambda_list_event_source_mappings : Report
  unfolding list_fallible new_resource
  lambda_list_event_source_mappings session =
      list_fallible arn_resource (client.event_source_mappings session)

  -- The callback of KMSListKeys.
  abbrev pub key_resource : Session → KeyEntry → Result Text (Option Resource)
  key_resource session key = do
    resource ← resource_of key.key_arn key.metadata
    m ← client.describe_key session key.key_id
    ok (described resource m)

  unfoldable pub kms_list_keys : Report
  unfolding list_fallible new_resource
  kms_list_keys session = list_fallible (key_resource session) (client.keys session)

  unfoldable pub kms_list_aliases : Report
  unfolding list_fallible new_resource has_prefix
  kms_list_aliases session = list_fallible alias_resource (client.aliases session)

  -- ACMService
  unfoldable pub acm_service : Service
  unfolding acm_list_certificates
  acm_service = record {
    name = codes "acm";
    is_global = false;
    reports = (codes "certificates", acm_list_certificates) ∷ [];
  }

  -- CloudwatchService
  unfoldable pub cloudwatch_service : Service
  unfolding cloudwatch_list_alarms
  cloudwatch_service = record {
    name = codes "cloudwatch";
    is_global = false;
    reports = (codes "alarms", cloudwatch_list_alarms) ∷ [];
  }

  -- LambdaService
  unfoldable pub lambda_service : Service
  unfolding lambda_list_functions lambda_list_event_source_mappings
  lambda_service = record {
    name = codes "lambda";
    is_global = false;
    reports =
        (codes "functions", lambda_list_functions)
        ∷ (codes "event-source-mappings", lambda_list_event_source_mappings)
        ∷ [];
  }

  -- KMSService
  unfoldable pub kms_service : Service
  unfolding kms_list_keys kms_list_aliases
  kms_service = record {
    name = codes "kms";
    is_global = false;
    reports = (codes "keys", kms_list_keys) ∷ (codes "aliases", kms_list_aliases) ∷ [];
  }
