-- ===== src/Tests/Reports.antt =====
-- The reports of aws/dump on small accounts.
use awstools.Prelude.{
  ℕ, zero, suc, ◌≤◌, ◌≡◌, refl, arith, none, some, List, [], ◌∷◌, length, map, All, ok, err,
  if◌then◌else◌,
}
use awstools.Prelude.Text.{Text, codes, split}
use awstools.Common.Arn.{parse_arn}
use awstools.Common.Config.Values.{null, end}
use awstools.Dump.Jobs.{Resource, Session, ReportResult, new_resource}
use awstools.Dump.Reports.Pages.{Pages, list_pages, list_pages_lem, made, all_items}
use awstools.Dump.Reports.Documents.{DocumentWorld}
use awstools.Dump.Reports.Fallible.{list_fallible, made_until, list_fallible_lem}
use awstools.Dump.Reports.Arns.{ArnItem, arn_resource}
use awstools.Dump.Reports.Rds.{RdsItem, named_item}
use awstools.Dump.Iam.{user, PolicyClient, list_policy_versions, list_policies_of}
use awstools.Dump.Iam.Errors.{list_policies_of-none}
use awstools.Dump.Iam.LastUsed.{LastAccessed, LastUsedClient, index_out_of_range, attach}
use awstools.Dump.Iam.LastUsed.Finished.{without_metadata, Reports, Over, attach-Reports}
use awstools.Dump.Iam.Entities.{
  Entity, EntityClient, groups_listing, list_groups, list_policies, add_group, walk_entities,
}
use awstools.Dump.Iam.Entities.Complete.{list_groups-Reports, list_policies_out_of_range}
use awstools.Dump.Reports.Ec2.{batches_of}
use awstools.Dump.Reports.Ec2.Batches.{batches_of-some}
use awstools.Dump.Reports.S3.{
  S3Client, Bucket, reported, bucket_resource, bucket_policy_resource, s3_list_buckets,
}
use awstools.Dump.Reports.S3.Policies.{Listed, s3_list_buckets-Listed}

abbrev session : Session
session = record { account_id = codes "1"; region = codes "eu" }

abbrev database : RdsItem
database = record { identifier = codes "d"; arn = codes "a"; metadata = end }

abbrev databases : Pages RdsItem
databases = record {
  pages = (database ∷ []) ∷ [] ∷ (database ∷ []) ∷ [];
  error = some (codes "throttled");
}

list_pages_lem_example : list_pages (named_item session (codes "db")) databases ≡ record {
  resources = made (named_item session (codes "db")) (all_items databases.pages);
  error = some (codes "throttled");
}
list_pages_lem_example = list_pages_lem (named_item session (codes "db")) databases

abbrev named : Text → ArnItem
named arn = record { arn = arn; metadata = end }

-- The second of three ARNs is none.
abbrev certificates : Pages ArnItem
certificates = record {
  pages =
      (named (codes "arn:aws:acm:eu:1:certificate/x") ∷ named (codes "x") ∷ [])
      ∷ (named (codes "arn:aws:acm:eu:1:certificate/y") ∷ [])
      ∷ [];
  error = none;
}

certificates-made : length (list_fallible arn_resource certificates).resources ≡ 1
unfolding list_fallible new_resource parse_arn split
certificates-made = refl

list_fallible_lem_example : list_fallible arn_resource certificates ≡ record {
  resources = (made_until arn_resource (all_items certificates.pages)).0;
  error = if (made_until arn_resource (all_items certificates.pages)).1 then none else none;
}
list_fallible_lem_example = list_fallible_lem arn_resource certificates

abbrev documents : DocumentWorld
documents = record { query_unescape = λ s. ok s; unmarshal_map = λ s. ok end }

abbrev no_pages : {A : Type 0} → Pages A
no_pages = record { pages = []; error = none }

-- A policy has two versions, and the inline policies cannot be fetched.
abbrev policies : PolicyClient
policies = record {
  attached_policies = λ owner s name. no_pages;
  policy_names = λ owner s name. record { pages = (codes "p" ∷ []) ∷ []; error = none };
  get_policy = λ owner s name policy. err (codes "denied");
  policy_versions =
      λ s arn. record { pages = (codes "v1" ∷ []) ∷ (codes "v2" ∷ []) ∷ []; error = none };
  get_policy_version = λ s arn version. ok (record { document = codes "{}"; metadata = end });
  access_keys = λ s name. no_pages;
  get_access_key_last_used = λ s key. err (codes "denied");
  instance_profiles = λ s. no_pages;
  documents = documents;
}

list_policies_of-none_example :
    (list_policies_of policies user session (codes "a") (codes "n")).error ≡ none
list_policies_of-none_example =
    list_policies_of-none policies user session (codes "a") (codes "n") refl

abbrev details : Text → LastAccessed
details status = record {
  job_status = status;
  last_authenticated = some 3 ∷ none ∷ some 5 ∷ some 4 ∷ [];
  services_last_accessed = null;
}

-- The first call of a report finds its job in progress.
abbrev answer : ℕ → LastAccessed
answer zero = details (codes "IN_PROGRESS")
answer (suc n) = details (codes "COMPLETED")

abbrev last_used : LastUsedClient
last_used = record {
  generate_details = λ s arn. ok arn;
  last_accessed_details = λ s n job_id. ok (answer n);
  time_value = λ t. null;
}

last_used-Over : Over last_used session 1
last_used-Over zero job_id found h e = absurd (omega arith)
last_used-Over (suc n) job_id found h e =
    let same : details (codes "COMPLETED") ≡ found = cc in rw (← same) refl

abbrev resource : Text → Resource
resource id = record {
  id = id;
  arn = [];
  service = [];
  kind = [];
  account_id = [];
  region = [];
  metadata = end;
  managed_by = [];
}

abbrev two : ReportResult
two = record { resources = resource (codes "x") ∷ resource (codes "y") ∷ []; error = none }

attach-Reports_example :
    Reports
      (map without_metadata two.resources)
      (attach last_used 3 session 0 0 (codes "j" ∷ codes "k" ∷ []) two)
attach-Reports_example =
    attach-Reports last_used 3 session 1 0 0 (codes "j" ∷ codes "k" ∷ []) two last_used-Over
      (omega arith) (omega arith)

abbrev entity : Entity
entity = record { arn = codes "arn:aws:iam::1:group/g"; name = codes "g"; metadata = end }

abbrev entities : EntityClient
entities = record {
  policies = policies;
  last_used = last_used;
  users = λ s. no_pages;
  groups = λ s. record { pages = (entity ∷ []) ∷ []; error = none };
  roles = λ s. no_pages;
  local_policies = λ s. no_pages;
}

one_arn : length (groups_listing entities session).arns ≡ 1
unfolding walk_entities add_group parse_arn split
one_arn = refl

list_groups-Reports_example :
    Reports
      (map without_metadata (groups_listing entities session).resources)
      (list_groups entities session 2)
list_groups-Reports_example =
    list_groups-Reports entities session 1 2 last_used-Over (omega (arith, one_arn))

-- The versions of the only policy cannot be listed, and its job is completed at once.
abbrev without_versions : EntityClient
without_versions = record entities {
  policies = record policies {
    policy_versions = λ s arn. record { pages = []; error = some (codes "denied") };
  };
  last_used = record last_used {
    last_accessed_details = λ s n job_id. ok (details (codes "COMPLETED"));
  };
  local_policies = λ s. record { pages = (entity ∷ []) ∷ []; error = none };
}

entity-resource : (r : Resource) × (new_resource entity.arn entity.metadata ≡ ok r)
unfolding new_resource parse_arn split
entity-resource = (_, refl)

versions-denied :
    (list_policy_versions without_versions.policies session entity.arn).error
    ≡ some (codes "denied")
unfolding list_policy_versions
versions-denied = refl

list_policies_out_of_range_example : list_policies without_versions session 1 ≡ index_out_of_range
list_policies_out_of_range_example =
    list_policies_out_of_range without_versions session 0 entity [] [] entity-resource.0
      (codes "denied") entity.arn (details (codes "COMPLETED")) refl entity-resource.1
      versions-denied refl refl refl

batches_of-some_example :
    (batches : List (List Text)) × (batches_of 4 2 (codes "a" ∷ codes "b" ∷ codes "c" ∷ [])
      ≡ some batches)
    × (all_items batches ≡ codes "a" ∷ codes "b" ∷ codes "c" ∷ [])
    × All (λ batch. length batch ≤ 2) batches
batches_of-some_example =
    batches_of-some 4 2 (codes "a" ∷ codes "b" ∷ codes "c" ∷ []) (omega arith) (omega arith)

abbrev bucket : Bucket
bucket = record { name = codes "b"; metadata = end }

abbrev buckets : S3Client
buckets = record {
  buckets = λ s. ok (bucket ∷ []);
  location = λ s name. ok (some (codes "eu"));
  bucket_policy = λ s name. ok (codes "{}");
  documents = documents;
}

abbrev of_bucket : ReportResult
of_bucket = record {
  resources =
      bucket_resource session (codes "eu") bucket ∷ bucket_policy_resource session bucket end ∷ [];
  error = none;
}

buckets-reported : s3_list_buckets buckets session ≡ reported of_bucket
unfolding s3_list_buckets
buckets-reported = refl

s3_list_buckets-Listed_example : Listed buckets session (bucket ∷ []) of_bucket.resources
s3_list_buckets-Listed_example =
    s3_list_buckets-Listed buckets session (bucket ∷ []) of_bucket refl buckets-reported refl
