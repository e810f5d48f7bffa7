-- ===== src/Dump/Iam/Entities.antt =====
-- aws/dump/resources/iam.go: the reports of users, groups, roles and customer-managed policies, each
-- with what belongs to it and with when it was last used.
pub mod Complete
use awstools.Prelude.{
  ℕ, ◌+◌, Bool, true, false, Option, none, some, List, [], ◌∷◌, ◌++◌, Result, ok, err,
}
use awstools.Prelude.Text.{Text, codes}
use awstools.Dump.Reports.Arns.{arn_error_text}
use awstools.Common.Config.Values.{Fields, object, put}
use awstools.Dump.Jobs.{Resource, Session, ReportResult, new_resource}
use awstools.Dump.Reports.Pages.{Pages, proceed, walk}
use awstools.Dump.Reports.Documents.{decode_inline_policy_document}
use awstools.Dump.Iam.{
  Owner, user, group, role, PolicyClient, list_attached_policies, list_policies_of,
  list_policy_versions, list_access_keys,
}
use awstools.Dump.Iam.LastUsed.{
  LastUsedClient, Attached, attached, index_out_of_range, waiting, attach, generate_details_of,
}

-- What the reports read of a user, a group or a policy.
pub record Entity : Type 0 where
  pub arn : Text
  pub name : Text
  pub metadata : Fields

pub record RoleEntity : Type 0 where
  pub arn : Text
  pub name : Text
  pub role_id : Text
  pub assume_role_policy_document : Text
  pub metadata : Fields

pub record EntityClient : Type 0 where
  pub policies : PolicyClient
  pub last_used : LastUsedClient
  pub users : Session → Pages Entity
  pub groups : Session → Pages Entity
  pub roles : Session → Pages RoleEntity
  pub local_policies : Session → Pages Entity

-- The variables that the callback of a report changes.
pub record Listing : Type 0 where
  pub resources : List Resource
  pub error : Option Text
  pub arns : List Text
  pub access_keys : List Resource

abbrev pub empty_listing : Listing
empty_listing = record { resources = []; error = none; arns = []; access_keys = [] }

abbrev pub stop_listing : Text → Listing → Listing × Bool
stop_listing e s = (record s { error = some e }, false)

abbrev pub append_resources : List Resource → Listing → Listing
append_resources rs s = record s { resources = s.resources ++ rs }

abbrev pub append_arn : Text → Listing → Listing
append_arn arn s = record s { arns = s.arns ++ arn ∷ [] }

abbrev pub append_access_keys : List Resource → Listing → Listing
append_access_keys rs s = record s { access_keys = s.access_keys ++ rs }

-- What a callback does with another report: its error, or else its resources.
abbrev pub take_report :
    (List Resource → Listing → Listing) → ReportResult → Listing → Listing × Bool
take_report add report s = elim report.error [
  | some e ↦ stop_listing e s
  | none ↦ (add report.resources s, true)
]

-- arns and result.Resources, after NewResource.
abbrev pub add_entity : Text → Resource → Listing → Listing
add_entity arn resource s = append_resources (resource ∷ []) (append_arn arn s)

module _ (client : EntityClient) (session : Session) where
  -- for _, fn := range policiesFunctions
  unfoldable pub add_policies : Owner → Text → Text → Listing → Listing × Bool
  unfolding list_policies_of list_attached_policies
  add_policies owner arn name s =
      proceed false
        (take_report append_resources (list_policies_of client.policies owner session arn name) s)
        (take_report append_resources
          (list_attached_policies client.policies owner session arn name))

  -- The callback of IAMListUsersAndAccessKeys.
  unfoldable pub add_user : Entity → Listing → Listing × Bool
  unfolding new_resource add_policies list_access_keys
  add_user u s = elim (new_resource u.arn u.metadata) [
    | err e ↦ stop_listing (arn_error_text e) s
    | ok resource ↦
        proceed false (add_policies user u.arn u.name (add_entity u.arn resource s))
          (take_report append_access_keys (list_access_keys client.policies session u.name))
  ]

  -- The callback of IAMListGroups.
  unfoldable pub add_group : Entity → Listing → Listing × Bool
  unfolding new_resource add_policies
  add_group g s = elim (new_resource g.arn g.metadata) [
    | err e ↦ stop_listing (arn_error_text e) s
    | ok resource ↦ add_policies group g.arn g.name (add_entity g.arn resource s)
  ]

  -- The resource of a role, whose id is that of IAM.
  abbrev pub role_resource : RoleEntity → Resource → Fields → Resource
  role_resource r resource document = record resource {
    id = r.role_id;
    metadata = put (codes "AssumeRolePolicyDocument") (object document) resource.metadata;
  }

  -- The callback of IAMListRoles, which lists the inline policies twice.
  unfoldable pub add_role : RoleEntity → Listing → Listing × Bool
  unfolding new_resource decode_inline_policy_document add_policies list_policies_of
  add_role r s = elim (new_resource r.arn r.metadata) [
    | err e ↦ stop_listing (arn_error_text e) s
    | ok resource ↦
        elim (decode_inline_policy_document client.policies.documents
          r.assume_role_policy_document) [
            | err e ↦ stop_listing e s
            | ok document ↦
                proceed false
                  (take_report append_resources
                    (list_policies_of client.policies role session r.arn r.name)
                    (add_entity r.arn (role_resource r resource document) s))
                  (add_policies role r.arn r.name)
          ]
  ]

  -- The callback of IAMListPolicies: arns comes first, the resource after its versions are known.
  unfoldable pub add_policy : Entity → Listing → Listing × Bool
  unfolding new_resource list_policy_versions
  add_policy p s = elim (new_resource p.arn p.metadata) [
    | err e ↦ stop_listing (arn_error_text e) s
    | ok resource ↦
        take_report (λ versions t. append_resources (resource ∷ versions) t)
          (list_policy_versions client.policies session p.arn) (append_arn p.arn s)
  ]

  -- What follows the pages: jobIds, err := Generate...; AttachServiceLastAccessedDetails.
  unfoldable pub attach_listing : ℕ → Listing → Attached
  unfolding generate_details_of attach
  attach_listing fuel s = elim (generate_details_of client.last_used session s.arns) [
    | err e ↦ attached (record { resources = s.resources; error = some e })
    | ok job_ids ↦
        attach client.last_used fuel session 0 0 job_ids
          (record { resources = s.resources; error = none })
  ]

  -- result.Error = client.List...Pages(...), which forgets what a callback has left there.
  unfoldable pub finish : ℕ → Listing × Option Text → Attached
  unfolding attach_listing
  finish fuel (s, some e) = attached (record { resources = s.resources; error = some e })
  finish fuel (s, none) = attach_listing fuel s

  unfoldable pub walk_entities :
      {A : Type 0} → (A → Listing → Listing × Bool) → Pages A → Listing × Option Text
  unfolding walk
  walk_entities add p = walk add p.pages p.error empty_listing

  abbrev pub with_keys : List Resource → Attached → Attached
  with_keys keys (attached r) = attached (record r { resources = r.resources ++ keys })
  with_keys keys index_out_of_range = index_out_of_range
  with_keys keys waiting = waiting

  -- An error of generate_details_of returns before the keys are appended.
  unfoldable pub finish_users : ℕ → Listing × Option Text → Attached
  unfolding generate_details_of attach
  finish_users fuel (s, some e) = attached (record { resources = s.resources; error = some e })
  finish_users fuel (s, none) = elim (generate_details_of client.last_used session s.arns) [
    | err e ↦ attached (record { resources = s.resources; error = some e })
    | ok job_ids ↦ with_keys s.access_keys (
        attach client.last_used fuel session 0 0 job_ids
          (record { resources = s.resources; error = none }))
  ]

  -- What the callback of IAMListUsersAndAccessKeys has made.
  abbrev pub users_listing : Listing
  users_listing = (walk_entities add_user (client.users session)).0

  -- IAMListUsersAndAccessKeys
  unfoldable pub list_users_and_access_keys : ℕ → Attached
  unfolding finish_users walk_entities add_user
  list_users_and_access_keys fuel =
      finish_users fuel (walk_entities add_user (client.users session))

  -- What the callback of IAMListGroups has made.
  abbrev pub groups_listing : Listing
  groups_listing = (walk_entities add_group (client.groups session)).0

  -- IAMListGroups
  unfoldable pub list_groups : ℕ → Attached
  unfolding finish walk_entities add_group
  list_groups fuel = finish fuel (walk_entities add_group (client.groups session))

  -- What the callback of IAMListRoles has made.
  abbrev pub roles_listing : Listing
  roles_listing = (walk_entities add_role (client.roles session)).0

  -- IAMListRoles
  unfoldable pub list_roles : ℕ → Attached
  unfolding finish walk_entities add_role
  list_roles fuel = finish fuel (walk_entities add_role (client.roles session))

  -- IAMListPolicies
  unfoldable pub list_policies : ℕ → Attached
  unfolding finish walk_entities add_policy
  list_policies fuel = finish fuel (walk_entities add_policy (client.local_policies session))
