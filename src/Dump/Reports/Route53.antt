-- ===== src/Dump/Reports/Route53.antt =====
-- aws/dump/resources/route53.go. The client is a parameter; structs.Map of a value is its `metadata`.
use awstools.Prelude.{
  Bool, true, false, Option, none, some, List, [], ◌∷◌, ◌++◌, ◌||◌, ◌==◌, if◌then◌else◌,
}
use awstools.Prelude.Text.{Text, codes, eq_text, split}
use awstools.Common.Config.Values.{Value, Fields, Items, text, list, nil, cons, put}
use awstools.Dump.Jobs.{Resource, Session, ReportResult, Report, Service}
use awstools.Dump.Reports.Pages.{
  Pages, Callback, walk_pages, overwrite_error, list_pages, add_resources, stop_with,
}

pub record HostedZone : Type 0 where
  pub id : Text
  pub metadata : Fields

pub record RecordSet : Type 0 where
  pub name : Text
  pub kind : Text
  pub record_values : List Text
  pub alias_target : Option Value
  -- the TTL in decimals
  pub ttl : Option Text
  pub metadata : Fields

pub record Route53Client : Type 0 where
  pub hosted_zones : Session → Pages HostedZone
  pub record_sets : Session → Text → Pages RecordSet

abbrev last_part : Text → List Text → Text
last_part word [] = word
last_part word (w ∷ ws) = last_part w ws

-- parts[len(parts)-1], of at least one part
unfoldable pub short_id : Text → Text
unfolding split
short_id id = last_part [] (split b'/' id)

-- strings.TrimRight(s, ".")
unfoldable pub trim_dots : Text → Text
trim_dots [] = []
trim_dots (c ∷ s) =
    let rest = trim_dots s in
    elim rest [ [] ↦ if c == b'.' then [] else c ∷ [] | d ∷ t ↦ c ∷ d ∷ t ]

abbrev pub strings : List Text → Items
strings [] = nil
strings (s ∷ ss) = cons (text s) (strings ss)

abbrev pub put_some : Text → Option Value → Fields → Fields
put_some key none m = m
put_some key (some v) m = put key v m

abbrev records_value : List Text → Option Value
records_value [] = none
records_value (r ∷ rs) = some (list (strings (r ∷ rs)))

abbrev ttl_value : Option Text → Option Value
ttl_value none = none
ttl_value (some t) = some (text t)

abbrev pub route53_resource : Session → Text → Text → Fields → Resource
route53_resource session kind id metadata = record {
  id = id;
  arn = [];
  service = codes "route53";
  kind = kind;
  account_id = session.account_id;
  region = [];
  metadata = metadata;
  managed_by = [];
}

-- The callback of Route53ListResourceRecordSets, for one set: NS and SOA are left out.
unfoldable pub record_resource : Session → Text → RecordSet → Option Resource
unfolding trim_dots
record_resource session zone set =
    if eq_text set.kind (codes "NS") || eq_text set.kind (codes "SOA")
    then none
    else some (
        route53_resource session (codes "record")
          (zone ++ (codes "_" ++ (trim_dots set.name ++ (codes "_" ++ set.kind))))
          (put_some (codes "Ttl") (ttl_value set.ttl) (
            put_some (codes "AliasTarget") set.alias_target (
              put_some (codes "ResourceRecords") (records_value set.record_values)
                (put (codes "HostedZoneId") (text zone) set.metadata)))))

module _ (client : Route53Client) where
  unfoldable pub route53_list_resource_record_sets : Session → Text → ReportResult
  unfolding list_pages short_id record_resource
  route53_list_resource_record_sets session zone_id =
      list_pages (record_resource session (short_id zone_id)) (client.record_sets session zone_id)

  abbrev pub add_records : ReportResult → ReportResult → ReportResult × Bool
  add_records records result = elim records.error [
    | some e ↦ stop_with e result
    | none ↦ (add_resources records.resources result, true)
  ]

  -- The callback of Route53ListHostedZonesAndRecordSets.
  unfoldable pub add_zone : Session → Callback HostedZone
  unfolding route53_list_resource_record_sets short_id
  add_zone session zone result = add_records (route53_list_resource_record_sets session zone.id) (
      add_resources (route53_resource session (codes "zone") (short_id zone.id) zone.metadata ∷ [])
        result)

  unfoldable pub route53_list_hosted_zones_and_record_sets : Report
  unfolding walk_pages overwrite_error add_zone
  route53_list_hosted_zones_and_record_sets session =
      overwrite_error (walk_pages (add_zone session) (client.hosted_zones session))

  -- Route53Service
  unfoldable pub route53_service : Service
  unfolding route53_list_hosted_zones_and_record_sets
  route53_service = record {
    name = codes "route53";
    is_global = false;
    reports = (codes "zones-and-records", route53_list_hosted_zones_and_record_sets) ∷ [];
  }
