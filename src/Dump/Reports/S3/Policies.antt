-- ===== src/Dump/Reports/S3/Policies.antt =====
-- What a report of s3.go without an error has.
use awstools.Prelude.{
  ◌≡◌, ◌≢◌, refl, sym, ap, ◌∙◌, Bool, true, false, none, some, List, [], ◌∷◌, ◌++◌, append_assoc,
  append-nil, ok, Result-cases, Bool-cases, ◌⊎◌, inl, inr, arith,
}
use awstools.Prelude.Text.{Text, eq_text, eq_text_iff}
use awstools.Common.Config.Values.{Fields}
use awstools.Dump.Jobs.{Resource, Session, ReportResult}
use awstools.Dump.Reports.Documents.{decode_inline_policy_document}
use awstools.Dump.Reports.Pages.{empty_result}
use awstools.Dump.Reports.S3.{
  Bucket, S3Client, Outcome, reported, nil_pointer, bucket_resource, bucket_policy_resource,
  add_bucket, go_on, list_buckets, s3_list_buckets,
}

-- The outcome is a report without an error.
abbrev pub Clean : Outcome → Type 0
Clean (reported r) = r.error ≡ none
Clean nil_pointer = ⊥

reported-injective : {r s : ReportResult} → reported r ≡ reported s → r ≡ s
reported-injective h = cc

module _ (client : S3Client) (session : Session) where
  -- The resources of a bucket with this policy document, and then the rest.
  abbrev pub with_bucket : Bucket → Text → Fields → List Resource → List Resource
  with_bucket bucket location document rest =
      bucket_resource session location bucket
      ∷ bucket_policy_resource session bucket document
      ∷ rest

  -- The resources are those of the buckets in the region of the session, in order: each with the
  -- document of its policy, and no others.
  abbrev pub Listed : List Bucket → List Resource → Type 0
  Listed [] rs = rs ≡ []
  Listed (bucket ∷ buckets) rs =
      (location : Text) × (client.location session bucket.name ≡ ok (some location))
      × (((location ≢ session.region) × Listed buckets rs)
          ⊎ ((location ≡ session.region)
              × ((policy : Text) × (document : Fields) × (rest : List Resource)
                  × (client.bucket_policy session bucket.name ≡ ok policy)
                  × (decode_inline_policy_document client.documents policy ≡ ok document)
                  × (rs ≡ with_bucket bucket location document rest)
                  × Listed buckets rest)))

  go_on-Clean :
      (s : ReportResult × Bool) (next : ReportResult → Outcome)
      → Clean (go_on client session s next)
      → (s.1 ≡ false → s.0.error ≢ none)
      → (s.1 ≡ true) × Clean (next s.0)
  go_on-Clean (r, true) next h k = (refl, h)
  go_on-Clean (r, false) next h k = absurd (k refl h)

  go_on-added :
      (s : ReportResult × Bool) (next : ReportResult → Outcome)
      → s.1 ≡ true
      → go_on client session s next ≡ next s.0
  go_on-added (r, true) next h = refl
  go_on-added (r, false) next h = absurd (ground arith)

  add_bucket-stopped :
      (location : Text) (bucket : Bucket) (result : ReportResult)
      → (add_bucket client session location bucket result).1 ≡ false
      → (add_bucket client session location bucket result).0.error ≢ none
  unfolding add_bucket
  add_bucket-stopped location bucket result h = ground arith

  add_bucket-resources :
      (location : Text) (bucket : Bucket) (result : ReportResult)
      → (add_bucket client session location bucket result).1 ≡ true
      → (policy : Text) × (document : Fields) × (client.bucket_policy session bucket.name
          ≡ ok policy)
        × (decode_inline_policy_document client.documents policy ≡ ok document)
        × ((add_bucket client session location bucket result).0.resources
            ≡ result.resources ++ with_bucket bucket location document [])
  unfolding add_bucket
  add_bucket-resources location bucket result h =
      elim (Result-cases (client.bucket_policy session bucket.name)) [
        | inr (e, failed) ↦ absurd (ground (arith))
        | inl (policy, read) ↦
            elim (Result-cases (decode_inline_policy_document client.documents policy)) [
              | inr (e, failed) ↦ absurd (ground (arith))
              | inl (document, decoded) ↦ (
                policy,
                document,
                read,
                decoded,
                rw (read, add_bucket, decoded) (simp append_assoc refl),
              )
            ]
      ]

  list_buckets-located :
      (bucket : Bucket) (buckets : List Bucket) (result : ReportResult)
      → Clean (list_buckets client session (bucket ∷ buckets) result)
      → (location : Text) × (client.location session bucket.name ≡ ok (some location))
  unfolding list_buckets
  list_buckets-located bucket buckets result h =
      elim (Result-cases (client.location session bucket.name)) [
        | inr (e, failed) ↦
            let h' : some e ≡ none = rw (failed, list_buckets) at h in absurd (ground arith)
        | inl (none, nowhere) ↦ absurd (rw (nowhere, list_buckets) at h)
        | inl (some location, there) ↦ (location, there)
      ]

  list_buckets-elsewhere :
      (bucket : Bucket) (buckets : List Bucket) (result : ReportResult) (location : Text)
      → client.location session bucket.name ≡ ok (some location)
      → eq_text location session.region ≡ false
      → list_buckets client session (bucket ∷ buckets) result
        ≡ list_buckets client session buckets result
  unfolding list_buckets
  list_buckets-elsewhere bucket buckets result location there other =
      rw (there, list_buckets, other) refl

  list_buckets-here :
      (bucket : Bucket) (buckets : List Bucket) (result : ReportResult) (location : Text)
      → client.location session bucket.name ≡ ok (some location)
      → eq_text location session.region ≡ true
      → list_buckets client session (bucket ∷ buckets) result
        ≡ go_on client session
            (add_bucket client session location bucket result)
            (λ r. list_buckets client session buckets r)
  unfolding list_buckets
  list_buckets-here bucket buckets result location there same = rw (there, list_buckets, same) refl

  elsewhere :
      (location : Text) → eq_text location session.region ≡ false → location ≢ session.region
  elsewhere location other same = ground (arith, eq_text_iff location session.region)

  -- The resources that the loop adds.
  list_buckets-Listed :
      (buckets : List Bucket) (result r : ReportResult)
      → list_buckets client session buckets result ≡ reported r
      → r.error ≡ none
      → (rs : List Resource) × (r.resources ≡ result.resources ++ rs) × Listed buckets rs
  list_buckets-Listed [] result r h fine =
      let h' : reported result ≡ reported r = unfold list_buckets in h in
      ([], rw (← reported-injective h') (sym (append-nil result.resources)), refl)
  list_buckets-Listed (bucket ∷ buckets) result r h fine =
      let (location, there) = list_buckets-located bucket buckets result (rw h fine) in
      elim (Bool-cases (eq_text location session.region)) [
        | inr other ↦
            let (rs, e, listed) =
              list_buckets-Listed buckets result r
                (sym (list_buckets-elsewhere bucket buckets result location there other) ∙ h)
                fine in
            (rs, e, (location, there, inl (elsewhere location other, listed)))
        | inl same ↦
            let h' = sym (list_buckets-here bucket buckets result location there same) ∙ h in
            let (added, _) =
              go_on-Clean (add_bucket client session location bucket result)
                (λ s. list_buckets client session buckets s) (rw h' fine)
                (add_bucket-stopped location bucket result) in
            let (policy, document, read, decoded, e) =
              add_bucket-resources location bucket result added in
            let (rs, e', listed) =
              list_buckets-Listed buckets (add_bucket client session location bucket result).0 r
                (sym (
                    go_on-added (add_bucket client session location bucket result)
                      (λ s. list_buckets client session buckets s) added)
                  ∙ h')
                fine in
            (
              with_bucket bucket location document rs,
              e'
                  ∙ (ap (λ (ss : List Resource). ss ++ rs) e
                      ∙ append_assoc result.resources (with_bucket bucket location document []) rs),
              (
                location,
                there,
                inr (
                  (eq_text_iff location session.region).0 same,
                  (policy, document, rs, read, decoded, refl, listed),
                ),
              ),
            )
      ]

  -- A report without an error has, for each bucket of the region and in order, the bucket and the
  -- document of its policy, and nothing else; so every such bucket has a policy, and one without is
  -- enough for the report to fail.
  pub s3_list_buckets-Listed :
      (buckets : List Bucket) (r : ReportResult)
      → client.buckets session ≡ ok buckets
      → s3_list_buckets client session ≡ reported r
      → r.error ≡ none
      → Listed buckets r.resources
  unfolding s3_list_buckets
  s3_list_buckets-Listed buckets r e h fine =
      let (rs, same, listed) =
        list_buckets-Listed buckets empty_result r (rw (e, s3_list_buckets) at h) fine in
      rw same listed
