-- ===== src/Dump/Reports/Ec2.antt =====
-- aws/dump/resources/ec2.go. The EC2 client is a parameter; structs.Map of a value is its `metadata`.
pub mod Batches
use awstools.Prelude.{
  ℕ, zero, suc, ◌+◌, Bool, true, false, Option, none, some, List, [], ◌∷◌, ◌++◌, map, length, take,
  drop, any, Result, ok, err, ltb, if◌then◌else◌,
}
use awstools.Prelude.Text.{Text, codes, eq_text}
use awstools.Common.Config.Values.{Value, Fields, text, put}
use awstools.Dump.Jobs.{Resource, Session, ReportResult, Report, Service}
use awstools.Dump.Reports.Pages.{
  Pages, Callback, walk, walk_pages, list_pages, made, add_resources, empty_result, stop_with,
}

-- What the reports read of a VPC, an image, a key pair, an instance, a NAT gateway, a launch template
-- or a version of one. The owner is read of VPCs and images, which all have one.
pub record Ec2Item : Type 0 where
  pub identifier : Text
  pub owner_id : Text
  pub is_default : Bool
  pub metadata : Fields

pub record SecurityGroup : Type 0 where
  pub group_id : Text
  pub owner_id : Text
  pub vpc_id : Option Text
  pub metadata : Fields

-- The id of a launch template's version is the template's id and the number of the version.
pub record Ec2Client : Type 0 where
  pub vpcs : Session → Result Text (List Ec2Item)
  pub images : Session → Result Text (List Ec2Item)
  pub key_pairs : Session → Result Text (List Ec2Item)
  -- the instances of each reservation
  pub reservations : Session → Pages (List Ec2Item)
  pub nat_gateways : Session → Pages Ec2Item
  pub launch_templates : Session → Pages Ec2Item
  pub launch_template_versions : Session → Text → Pages (Text × Text × Fields)
  pub security_groups : Session → Pages SecurityGroup
  -- the ids of the groups of each interface that a filter on group-id finds
  pub network_interfaces : Session → List Text → Pages (List Text)
  pub now : ℕ
  -- a *time.Time as a value
  pub time_value : Option ℕ → Value

abbrev pub ec2_resource : Session → Text → Text → Text → Text → Fields → Resource
ec2_resource session kind account_id identifier arn metadata = record {
  id = identifier;
  arn = arn;
  service = codes "ec2";
  kind = kind;
  account_id = account_id;
  region = session.region;
  metadata = metadata;
  managed_by = [];
}

abbrev pub owned_item : Session → Text → Ec2Item → Resource
owned_item session kind item =
    ec2_resource session kind item.owner_id item.identifier [] item.metadata

-- A resource of the account of the session.
abbrev pub own_item : Session → Text → Ec2Item → Resource
own_item session kind item =
    ec2_resource session kind session.account_id item.identifier [] item.metadata

abbrev pub vpc_resource : Session → Ec2Item → Option Resource
vpc_resource session vpc =
    if vpc.is_default then none else some (owned_item session (codes "vpc") vpc)

-- The reports of one call without pages.
abbrev pub list_once : (Ec2Item → Option Resource) → Result Text (List Ec2Item) → ReportResult
list_once make (err e) = record { resources = []; error = some e }
list_once make (ok items) = record { resources = made make items; error = none }

abbrev pub security_group_resource : Session → SecurityGroup → Resource
security_group_resource session g =
    ec2_resource session (codes "security-group") g.owner_id g.group_id
      (codes "arn:aws:ec2:"
        ++ (session.region
            ++ (codes ":" ++ (g.owner_id ++ (codes ":security-group/" ++ g.group_id)))))
      (elim g.vpc_id [ none ↦ g.metadata | some id ↦ put (codes "VpcId") (text id) g.metadata ])

-- result.Resources and groupIds.
abbrev pub add_security_group :
    Session → SecurityGroup → ReportResult × List Text → (ReportResult × List Text) × Bool
add_security_group session g (result, ids) =
    ((add_resources (security_group_resource session g ∷ []) result, ids ++ g.group_id ∷ []), true)

-- The loop that cuts groupIds; `none` is a loop that has not ended yet.
abbrev pub more : List Text → Option (List (List Text)) → Option (List (List Text))
more batch none = none
more batch (some batches) = some (batch ∷ batches)

unfoldable pub batches_of : ℕ → ℕ → List Text → Option (List (List Text))
batches_of zero batch_size ids = none
batches_of (suc fuel) batch_size ids = elim (ltb batch_size (length ids)) [
  | true ↦ more (take batch_size ids) (batches_of fuel batch_size (drop batch_size ids))
  | false ↦ some (ids ∷ [])
]

abbrev pub batch_size : ℕ
batch_size = 200

module _ (client : Ec2Client) where
  unfoldable pub ec2_list_vpcs : Report
  ec2_list_vpcs session = list_once (vpc_resource session) (client.vpcs session)

  unfoldable pub ec2_list_images : Report
  ec2_list_images session =
      list_once (λ item. some (owned_item session (codes "image") item)) (client.images session)

  unfoldable pub ec2_list_key_pairs : Report
  ec2_list_key_pairs session =
      list_once (λ item. some (own_item session (codes "key-pair") item)) (client.key_pairs session)

  -- The callback of EC2ListInstances, for one reservation.
  abbrev pub add_reservation : Session → Callback (List Ec2Item)
  add_reservation session instances result =
      (add_resources (map (own_item session (codes "instance")) instances) result, true)

  unfoldable pub ec2_list_instances : Report
  unfolding walk_pages
  ec2_list_instances session =
      let walked = walk_pages (add_reservation session) (client.reservations session) in
      record { resources = walked.0.resources; error = walked.1 }

  unfoldable pub ec2_list_nat_gateways : Report
  unfolding list_pages
  ec2_list_nat_gateways session =
      list_pages (λ item. some (own_item session (codes "nat-gateway") item))
        (client.nat_gateways session)

  abbrev pub version_resource : Session → Text × Text × Fields → Resource
  version_resource session (template_id, version_number, metadata) =
      ec2_resource session (codes "launch-template-version") session.account_id
        (template_id ++ (codes ":" ++ version_number)) [] metadata

  unfoldable pub ec2_list_launch_template_versions : Session → Text → ReportResult
  unfolding list_pages
  ec2_list_launch_template_versions session template_id =
      list_pages (λ version. some (version_resource session version))
        (client.launch_template_versions session template_id)

  abbrev pub add_versions : ReportResult → ReportResult → ReportResult × Bool
  add_versions versions result = elim versions.error [
    | some e ↦ stop_with e result
    | none ↦ (add_resources versions.resources result, true)
  ]

  -- The callback of EC2ListLaunchTemplates.
  unfoldable pub add_launch_template : Session → Callback Ec2Item
  unfolding ec2_list_launch_template_versions
  add_launch_template session template result =
      add_versions (ec2_list_launch_template_versions session template.identifier)
        (add_resources (own_item session (codes "launch-template") template ∷ []) result)

  -- if err != nil { result.Error = err }
  abbrev pub set_error : ReportResult × Option Text → ReportResult
  set_error (result, none) = result
  set_error (result, some e) = record result { error = some e }

  unfoldable pub ec2_list_launch_templates : Report
  unfolding walk_pages add_launch_template
  ec2_list_launch_templates session =
      set_error (walk_pages (add_launch_template session) (client.launch_templates session))

  -- used[*group.GroupId] = 1, in the order of the pages; the first error ends the loop.
  unfoldable pub used_groups : Session → List (List Text) → List Text → Result Text (List Text)
  unfolding walk
  used_groups session [] used = ok used
  used_groups session (batch ∷ batches) used =
      let p = client.network_interfaces session batch in
      let walked =
        walk (λ (groups : List Text) (ids : List Text). (ids ++ groups, true)) p.pages p.error
          used in
      elim walked.1 [ some e ↦ err e | none ↦ used_groups session batches walked.0 ]

  abbrev pub is_used : List Text → Text → Bool
  is_used used id = any (eq_text id) used

  unfoldable pub put_group_use : List Text → Resource → Resource
  put_group_use used r = record r {
    metadata =
        put (codes "LastUsed")
          (client.time_value (if is_used used r.id then some client.now else none)) r.metadata;
  }

  abbrev pub with_uses : ReportResult → Result Text (List Text) → ReportResult
  with_uses result (err e) = record result { error = some e }
  with_uses result (ok used) = record result {
    resources = map (put_group_use used) result.resources;
  }

  -- What follows the pages of the groups.
  unfoldable pub attach_uses :
      Session → (ReportResult × List Text) × Option Text → Option ReportResult
  unfolding batches_of used_groups put_group_use
  attach_uses session ((result, ids), some e) = some (record result { error = some e })
  attach_uses session ((result, ids), none) = elim (batches_of (length ids + 1) batch_size ids) [
    | none ↦ none
    | some batches ↦ some (with_uses result (used_groups session batches []))
  ]

  -- EC2ListSecurityGroups; `none` would be a loop that has not ended.
  unfoldable pub ec2_list_security_groups : Session → Option ReportResult
  unfolding walk attach_uses
  ec2_list_security_groups session =
      let p = client.security_groups session in
      attach_uses session (walk (add_security_group session) p.pages p.error (empty_result, []))
