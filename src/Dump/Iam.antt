-- ===== src/Dump/Iam.antt =====
-- aws/dump/resources/iam.go: users, groups, roles, policies and instance profiles. The IAM client is a
-- parameter; structs.Map of a value is its `metadata`, and a policy document is the text in it.
pub mod Entities
pub mod Authorization
pub mod Errors
pub mod LastUsed
use awstools.Prelude.{Bool, true, false, Option, none, some, List, [], ◌∷◌, ◌++◌, Result, ok, err}
use awstools.Prelude.Text.{Text, codes}
use awstools.Common.Config.Values.{Value, Fields, Items, text, list, put}
use awstools.Dump.Jobs.{Resource, Session, ReportResult}
use awstools.Dump.Reports.Pages.{
  Pages, Callback, empty_result, add_resources, stop_with, walk_pages, overwrite_error, keep_error,
  list_pages,
}
use awstools.Dump.Reports.Documents.{DocumentWorld, decode_inline_policy_document, decode_each}

-- The three sets of methods that the SDK has for the policies of users, groups and roles.
pub data Owner : Type 0 where
  user group role : Owner

pub record AttachedPolicy : Type 0 where
  pub policy_name : Text
  pub metadata : Fields

pub record InlinePolicy : Type 0 where
  pub policy_name : Text
  pub policy_document : Text
  pub metadata : Fields

pub record PolicyVersion : Type 0 where
  pub document : Text
  pub metadata : Fields

pub record AccessKey : Type 0 where
  pub access_key_id : Text
  pub metadata : Fields

-- AccessKeyLastUsed, as a map, and its date.
pub record KeyLastUsed : Type 0 where
  pub metadata : Fields
  pub last_used_date : Value

-- Each role of an instance profile is its assume-role document and its map.
pub record InstanceProfile : Type 0 where
  pub instance_profile_id : Text
  pub arn : Text
  pub metadata : Fields
  pub roles : List (Text × Fields)

pub record PolicyClient : Type 0 where
  pub attached_policies : Owner → Session → Text → Pages AttachedPolicy
  pub policy_names : Owner → Session → Text → Pages Text
  pub get_policy : Owner → Session → Text → Text → Result Text InlinePolicy
  pub policy_versions : Session → Text → Pages Text
  pub get_policy_version : Session → Text → Text → Result Text PolicyVersion
  pub access_keys : Session → Text → Pages AccessKey
  pub get_access_key_last_used : Session → Text → Result Text KeyLastUsed
  pub instance_profiles : Session → Pages InstanceProfile
  pub documents : DocumentWorld

-- The key of the metadata that names the owner.
abbrev owner_key : Owner → Text
owner_key user = codes "UserArn"
owner_key group = codes "GroupArn"
owner_key role = codes "RoleArn"

abbrev owner_kind : Owner → Text
owner_kind user = codes "user"
owner_kind group = codes "group"
owner_kind role = codes "role"

abbrev pub iam_resource : Session → Text → Text → Text → Text → Fields → Resource
iam_resource session region kind id arn metadata = record {
  id = id;
  arn = arn;
  service = codes "iam";
  kind = kind;
  account_id = session.account_id;
  region = region;
  metadata = metadata;
  managed_by = [];
}

attached_resource : Owner → Session → Text → Text → AttachedPolicy → Option Resource
attached_resource owner session owner_arn owner_name policy = some (
    iam_resource session session.region (owner_kind owner ++ codes "-policy-attachment")
      (owner_name ++ (codes "_" ++ policy.policy_name)) []
      (put (owner_key owner) (text owner_arn) policy.metadata))

inline_resource : Owner → Session → Text → Text → InlinePolicy → Fields → Resource
inline_resource owner session owner_arn owner_name policy document =
    iam_resource session session.region (owner_kind owner ++ codes "-policy-inline")
      (owner_name ++ (codes "_" ++ (policy.policy_name ++ codes "_inline"))) []
      (put (owner_key owner) (text owner_arn)
        (put (codes "PolicyDocument") (Value.object document) policy.metadata))

module _ (client : PolicyClient) where
  -- The functions for the policies that are attached.
  unfoldable pub list_attached_policies : Owner → Session → Text → Text → ReportResult
  unfolding list_pages attached_resource
  list_attached_policies owner session owner_arn owner_name =
      list_pages (attached_resource owner session owner_arn owner_name)
        (client.attached_policies owner session owner_name)

  -- The callback of the inline policies, for one name.
  unfoldable pub list_policy : Owner → Session → Text → Text → Callback Text
  unfolding decode_inline_policy_document inline_resource
  list_policy owner session owner_arn owner_name policy_name result =
      elim (client.get_policy owner session owner_name policy_name) [
        | err e ↦ stop_with e result
        | ok policy ↦ elim (decode_inline_policy_document client.documents policy.policy_document) [
          | err e ↦ stop_with e result
          | ok document ↦ (
            add_resources (inline_resource owner session owner_arn owner_name policy document ∷ [])
                result,
            true,
          )
        ]
      ]

  -- The functions for the inline policies.
  unfoldable pub list_policies_of : Owner → Session → Text → Text → ReportResult
  unfolding walk_pages overwrite_error list_policy
  list_policies_of owner session owner_arn owner_name = overwrite_error (
      walk_pages (list_policy owner session owner_arn owner_name)
        (client.policy_names owner session owner_name))

  -- IAMListUserAttachedPolicies
  unfoldable pub list_user_attached_policies : Session → Text → Text → ReportResult
  unfolding list_attached_policies
  list_user_attached_policies = list_attached_policies user

  -- IAMListUserPolicies
  unfoldable pub list_user_policies : Session → Text → Text → ReportResult
  unfolding list_policies_of
  list_user_policies = list_policies_of user

  -- IAMListGroupAttachedPolicies
  unfoldable pub list_group_attached_policies : Session → Text → Text → ReportResult
  unfolding list_attached_policies
  list_group_attached_policies = list_attached_policies group

  -- IAMListGroupPolicies
  unfoldable pub list_group_policies : Session → Text → Text → ReportResult
  unfolding list_policies_of
  list_group_policies = list_policies_of group

  -- IAMListRoleAttachedPolicies
  unfoldable pub list_role_attached_policies : Session → Text → Text → ReportResult
  unfolding list_attached_policies
  list_role_attached_policies = list_attached_policies role

  -- IAMListRolePolicies
  unfoldable pub list_role_policies : Session → Text → Text → ReportResult
  unfolding list_policies_of
  list_role_policies = list_policies_of role

  -- The callback of IAMListPolicyVersions.
  unfoldable pub list_version : Session → Text → Callback Text
  unfolding decode_inline_policy_document
  list_version session policy_arn version_id result =
      elim (client.get_policy_version session policy_arn version_id) [
        | err e ↦ stop_with e result
        | ok version ↦ elim (decode_inline_policy_document client.documents version.document) [
          | err e ↦ stop_with e result
          | ok document ↦
              let arn = policy_arn ++ (codes ":" ++ version_id) in
              (
                add_resources
                    (iam_resource session session.region (codes "policy-version") arn arn
                        (put (codes "Document") (Value.object document) version.metadata)
                      ∷ [])
                    result,
                true,
              )
        ]
      ]

  -- IAMListPolicyVersions
  unfoldable pub list_policy_versions : Session → Text → ReportResult
  unfolding walk_pages keep_error list_version
  list_policy_versions session policy_arn =
      keep_error
        (walk_pages (list_version session policy_arn) (client.policy_versions session policy_arn))

  -- The callback of IAMListAccessKeys; the resource has no region.
  unfoldable pub list_access_key : Session → Callback AccessKey
  list_access_key session key result =
      elim (client.get_access_key_last_used session key.access_key_id) [
        | err e ↦ stop_with e result
        | ok last_used ↦ (
          add_resources
              (iam_resource session [] (codes "access-key") key.access_key_id [] (
                  put (codes "LastUsed") last_used.last_used_date (
                    put (codes "AccessKeyLastUsed") (Value.object last_used.metadata) key.metadata))
                ∷ [])
              result,
          true,
        )
      ]

  -- IAMListAccessKeys
  unfoldable pub list_access_keys : Session → Text → ReportResult
  unfolding walk_pages overwrite_error list_access_key
  list_access_keys session username =
      overwrite_error (walk_pages (list_access_key session) (client.access_keys session username))

  -- The callback of IAMListInstanceProfiles.
  unfoldable pub list_instance_profile : Session → Callback InstanceProfile
  unfolding decode_each
  list_instance_profile session profile result =
      elim (decode_each client.documents (codes "AssumeRolePolicyDocument") profile.roles) [
        | err e ↦ stop_with e result
        | ok roles ↦ (
          add_resources
              (iam_resource session session.region (codes "instance-profile")
                  profile.instance_profile_id profile.arn
                  (put (codes "Roles") (list roles) profile.metadata)
                ∷ [])
              result,
          true,
        )
      ]

  -- IAMListInstanceProfiles
  unfoldable pub list_instance_profiles : Session → ReportResult
  unfolding walk_pages keep_error list_instance_profile
  list_instance_profiles session =
      keep_error (walk_pages (list_instance_profile session) (client.instance_profiles session))
