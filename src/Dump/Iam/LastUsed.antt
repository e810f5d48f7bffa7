-- ===== src/Dump/Iam/LastUsed.antt =====
-- aws/dump/resources/iam.go: GenerateServiceLastAccessedDetails and AttachServiceLastAccessedDetails,
-- which asks for each job until it is over. The answers of IAM are a parameter, which is given the
-- number of calls so far; a time is a number.
pub mod Finished
use awstools.Prelude.{
  ℕ, zero, suc, ◌+◌, Bool, true, false, Option, none, some, List, [], ◌∷◌, Result, ok, err, ◌>>=◌,
  ltb, if◌then◌else◌,
}
use awstools.Prelude.Text.{Text, codes, eq_text}
use awstools.Common.Config.Values.{Value, put}
use awstools.Dump.Jobs.{Resource, Session, ReportResult}

-- GetServiceLastAccessedDetailsOutput: the status, LastAuthenticated of each service, and
-- ServicesLastAccessed as a value.
pub record LastAccessed : Type 0 where
  pub job_status : Text
  pub last_authenticated : List (Option ℕ)
  pub services_last_accessed : Value

pub record LastUsedClient : Type 0 where
  pub generate_details : Session → Text → Result Text Text
  pub last_accessed_details : Session → ℕ → Text → Result Text LastAccessed
  -- a *time.Time as a value
  pub time_value : Option ℕ → Value

-- What a report with polling comes to; `waiting` when the calls that are allowed are used up.
pub data Attached : Type 0 where
  attached : ReportResult → Attached
  -- the panic of result.Resources[i]
  index_out_of_range : Attached
  waiting : Attached

-- The round of the inner loop of AttachServiceLastAccessedDetails.
abbrev pub later : Option ℕ → Option ℕ → Option ℕ
later last_used_at none = last_used_at
later none (some t) = some t
later (some last) (some t) = if ltb last t then some t else some last

-- The inner loop, which finds lastUsedAt.
unfoldable pub latest : Option ℕ → List (Option ℕ) → Option ℕ
latest last_used_at [] = last_used_at
latest last_used_at (t ∷ ts) = latest (later last_used_at t) ts

-- result.Resources[i] is changed; `none` is an index out of range.
unfoldable pub update_at : ℕ → (Resource → Resource) → List Resource → Option (List Resource)
update_at i f [] = none
update_at zero f (r ∷ rs) = some (f r ∷ rs)
update_at (suc i) f (r ∷ rs) = elim (update_at i f rs) [ none ↦ none | some rs' ↦ some (r ∷ rs') ]

module _ (client : LastUsedClient) where
  unfoldable pub put_last_used : LastAccessed → Resource → Resource
  unfolding latest
  put_last_used details r = record r {
    metadata =
        put (codes "LastUsed") (client.time_value (latest none details.last_authenticated))
          (put (codes "ServiceLastAccessed") details.services_last_accessed r.metadata);
  }

  abbrev pub with_resources : ReportResult → Option (List Resource) → Option ReportResult
  with_resources result none = none
  with_resources result (some rs) = some (record result { resources = rs })

  -- A job that is over, but not completed, leaves its resource as it is.
  unfoldable pub record_last_used : ℕ → LastAccessed → ReportResult → Option ReportResult
  unfolding put_last_used update_at
  record_last_used i details result =
      if eq_text details.job_status (codes "COMPLETED")
      then with_resources result (update_at i (put_last_used details) result.resources)
      else some result

  abbrev pub in_progress : LastAccessed → Bool
  in_progress details = eq_text details.job_status (codes "IN_PROGRESS")

  -- AttachServiceLastAccessedDetails, with at most `fuel` calls of the service.
  unfoldable pub attach : ℕ → Session → ℕ → ℕ → List Text → ReportResult → Attached
  unfolding record_last_used
  attach fuel session calls i [] result = attached result
  attach zero session calls i (job_id ∷ job_ids) result = waiting
  attach (suc fuel) session calls i (job_id ∷ job_ids) result =
      elim (client.last_accessed_details session calls job_id) [
        | err e ↦ attached (record result { error = some e })
        | ok details ↦ elim (in_progress details) [
          | true ↦ attach fuel session (calls + 1) i (job_id ∷ job_ids) result
          | false ↦ elim (record_last_used i details result) [
            | none ↦ index_out_of_range
            | some result' ↦ attach fuel session (calls + 1) (i + 1) job_ids result'
          ]
        ]
      ]

  -- GenerateServiceLastAccessedDetails
  unfoldable pub generate_details_of : Session → List Text → Result Text (List Text)
  generate_details_of session [] = ok []
  generate_details_of session (arn ∷ arns) = do
    job_id ← client.generate_details session arn
    job_ids ← generate_details_of session arns
    ok (job_id ∷ job_ids)
