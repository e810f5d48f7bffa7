-- ===== src/Dump/Jobs/Counts.antt =====
-- How many jobs a service and an account make.
use awstools.Prelude.{
  ℕ, suc, ◌*◌, ◌≡◌, ◌≢◌, refl, ap, arith, none, List, [], ◌∷◌, ◌++◌, map, length, length-append,
  All, All-map, ok, Bool-cases, Option-cases, inl, inr, if◌then◌else◌,
}
use awstools.Prelude.Text.{Text, eq_text_refl}
use awstools.Dump.Jobs.{
  Service, Account, Session, Report, Job, find_report, make_job, first_session, jobs_of,
  generate_jobs, jobs_of_all, generate_all_jobs,
}

-- The sessions that one report of the service is run in.
abbrev pub runs_per_report : Service → Account → ℕ
runs_per_report s account = if s.is_global then 1 else length account.sessions

length-map {ℓ κ} :
    {A : Type ℓ} {B : Type κ} (f : A → B) (xs : List A) → length (map f xs) ≡ length xs
length-map f [] = refl
length-map f (x ∷ xs) = ap suc (length-map f xs)

first_session-ok :
    (sessions : List Session) → sessions ≢ [] → (x : Session) × (first_session sessions ≡ ok x)
unfolding first_session
first_session-ok [] h = absurd (h refl)
first_session-ok (x ∷ sessions) h = (x, refl)

jobs_of-length :
    (s : Service) (account : Account) (report : Report)
    → account.sessions ≢ []
    → (jobs : List Job) × (jobs_of s account report ≡ ok jobs)
      × (length jobs ≡ runs_per_report s account)
unfolding jobs_of
jobs_of-length s account report h = elim (Bool-cases s.is_global) [
  | inl e ↦
      let (x, first) = first_session-ok account.sessions h in
      (make_job report x ∷ [], rw (e, first), rw e)
  | inr e ↦ (
    map (make_job report) account.sessions,
    rw e,
    rw e (length-map (make_job report) account.sessions),
  )
]

generate_jobs-length :
    (s : Service) (account : Account) (resource : Text)
    → account.sessions ≢ []
    → find_report resource s.reports ≢ none
    → (jobs : List Job) × (generate_jobs s account resource ≡ ok jobs)
      × (length jobs ≡ runs_per_report s account)
unfolding generate_jobs
generate_jobs-length s account resource h listed =
    elim (Option-cases (find_report resource s.reports)) [
      | inl e ↦ absurd (listed e)
      | inr (report, e) ↦
          let (jobs, made, count) = jobs_of-length s account report h in
          (jobs, rw (e, generate_jobs) made, count)
    ]

jobs_of_all-length :
    (s : Service) (account : Account) (reports : List (Text × Report))
    → account.sessions ≢ []
    → All (λ (e : Text × Report). find_report e.0 s.reports ≢ none) reports
    → (jobs : List Job) × (jobs_of_all s account reports ≡ ok jobs)
      × (length jobs ≡ length reports * runs_per_report s account)
unfolding jobs_of_all
jobs_of_all-length s account [] h listed = ([], refl, omega arith)
jobs_of_all-length s account ((resource, r) ∷ reports) h listed =
    let (new_jobs, made, count) = generate_jobs-length s account resource h listed.0 in
    let (jobs, rest, total) = jobs_of_all-length s account reports h listed.1 in
    (
      new_jobs ++ jobs,
      rw (made, rest),
      count_sum new_jobs jobs (runs_per_report s account) (length reports) count total,
    )
  where
    count_sum :
        (xs ys : List Job) (n k : ℕ)
        → length xs ≡ n
        → length ys ≡ k * n
        → length (xs ++ ys) ≡ suc k * n
    count_sum xs ys n k p q = omega (arith, length-append xs ys)

-- A name of a report finds a report, also where the list is longer.
listed_self :
    (reports : List (Text × Report))
    → All (λ (e : Text × Report). find_report e.0 reports ≢ none) reports
unfolding find_report
listed_self [] = tt
listed_self ((name, report) ∷ reports) = (
  ground (arith, eq_text_refl name),
  All-map _ _ reports (λ e h. ground (arith, h)) (listed_self reports),
)

-- An account with a session makes, for all the reports of a service, one job for each report if the
-- service is global, and else one for each report and session; GenerateAllJobs does not fail.
generate_all_jobs-length :
    (s : Service) (account : Account)
    → account.sessions ≢ []
    → (jobs : List Job) × (generate_all_jobs s account ≡ ok jobs)
      × (length jobs ≡ length s.reports * runs_per_report s account)
unfolding generate_all_jobs
generate_all_jobs-length s account h =
    jobs_of_all-length s account s.reports h (listed_self s.reports)
