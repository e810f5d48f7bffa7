-- ===== src/Dump/Reports/S3.antt =====
-- aws/dump/resources/s3.go. The S3 client is a parameter; a bucket is its name and its map.
pub mod Policies
use awstools.Prelude.{
  ◌≡◌, Bool, true, false, Option, none, some, List, [], ◌∷◌, ◌++◌, Result, ok, err, if◌then◌else◌,
}
use awstools.Prelude.Text.{Text, codes, eq_text}
use awstools.Common.Config.Values.{Fields, object, put, end}
use awstools.Dump.Jobs.{Resource, Session, ReportResult, Service}
use awstools.Dump.Reports.Pages.{empty_result, add_resources}
use awstools.Dump.Reports.Documents.{DocumentWorld, decode_inline_policy_document}

pub record Bucket : Type 0 where
  pub name : Text
  pub metadata : Fields

pub record S3Client : Type 0 where
  pub buckets : Session → Result Text (List Bucket)
  -- LocationConstraint, a pointer
  pub location : Session → Text → Result Text (Option Text)
  pub bucket_policy : Session → Text → Result Text Text
  pub documents : DocumentWorld

-- A report, or the panic of *location.LocationConstraint on a nil pointer.
pub data Outcome : Type 0 where
  reported : ReportResult → Outcome
  nil_pointer : Outcome

abbrev pub bucket_resource : Session → Text → Bucket → Resource
bucket_resource session location bucket = record {
  id = bucket.name;
  arn = codes "arn:aws:s3:::" ++ bucket.name;
  service = codes "s3";
  kind = codes "bucket";
  account_id = session.account_id;
  region = location;
  metadata = bucket.metadata;
  managed_by = [];
}

abbrev pub bucket_policy_resource : Session → Bucket → Fields → Resource
bucket_policy_resource session bucket document = record {
  id = bucket.name;
  arn = [];
  service = codes "s3";
  kind = codes "bucket-policy";
  account_id = session.account_id;
  region = [];
  metadata = put (codes "PolicyDocument") (object document) end;
  managed_by = [];
}

abbrev pub failed_with : Text → ReportResult → ReportResult
failed_with e result = record result { error = some e }

module _ (client : S3Client) (session : Session) where
  -- From result.Resources = append(...) to the end of a round of the loop: the result, and whether
  -- the loop goes on.
  unfoldable pub add_bucket : Text → Bucket → ReportResult → ReportResult × Bool
  unfolding decode_inline_policy_document
  add_bucket location bucket result =
      let listed = add_resources (bucket_resource session location bucket ∷ []) result in
      elim (client.bucket_policy session bucket.name) [
        | err e ↦ (failed_with e listed, false)
        | ok policy ↦ elim (decode_inline_policy_document client.documents policy) [
          | err e ↦ (failed_with e listed, false)
          | ok document ↦
              (add_resources (bucket_policy_resource session bucket document ∷ []) listed, true)
        ]
      ]

  abbrev pub go_on : ReportResult × Bool → (ReportResult → Outcome) → Outcome
  go_on (result, true) next = next result
  go_on (result, false) next = reported result

  -- The loop over the buckets.
  unfoldable pub list_buckets : List Bucket → ReportResult → Outcome
  unfolding add_bucket
  list_buckets [] result = reported result
  list_buckets (bucket ∷ buckets) result = elim (client.location session bucket.name) [
    | err e ↦ reported (failed_with e result)
    | ok none ↦ nil_pointer
    | ok (some location) ↦ elim (eq_text location session.region) [
      | false ↦ list_buckets buckets result
      | true ↦ go_on (add_bucket location bucket result) (λ r. list_buckets buckets r)
    ]
  ]

  -- S3ListBuckets
  unfoldable pub s3_list_buckets : Outcome
  unfolding list_buckets
  s3_list_buckets = elim (client.buckets session) [
    | err e ↦ reported (failed_with e empty_result)
    | ok buckets ↦ list_buckets buckets empty_result
  ]
