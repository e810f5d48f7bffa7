-- ===== src/Dump/Iam/LastUsed/Finished.antt =====
-- The polling of AttachServiceLastAccessedDetails ends, and the time that it finds is the latest.
use awstools.Prelude.{
  ℕ, zero, suc, ◌+◌, ◌-◌, ◌≤◌, ◌<◌, ◌≡◌, refl, arith, false, Option, none, some, List, [], ◌∷◌,
  length, map, ok, inl, inr, Bool-cases, Result-cases, All,
}
use awstools.Prelude.Text.{Text, codes, eq_text}
use awstools.Common.Config.Values.{end}
use awstools.Dump.Jobs.{Resource, Session, ReportResult}
use awstools.Dump.Iam.LastUsed.{
  LastAccessed, LastUsedClient, Attached, attached, index_out_of_range, waiting, later, latest,
  update_at, put_last_used, record_last_used, in_progress, attach,
}

-- At most the optional time, if it is there.
abbrev pub Before : Option ℕ → Option ℕ → Type 0
Before none last = Unit {0}
Before (some t) none = ⊥
Before (some t) (some last) = t ≤ last

Before-later : (a b : Option ℕ) → Before a (later a b) × Before b (later a b)
Before-later none none = (tt, tt)
Before-later none (some t) = (tt, omega arith)
Before-later (some t) none = (omega arith, tt)
Before-later (some last) (some t) = ground arith

Before-trans : (a b c : Option ℕ) → Before a b → Before b c → Before a c
Before-trans none b c h k = tt
Before-trans (some a) none c h k = absurd h
Before-trans (some a) (some b) none h k = k
Before-trans (some a) (some b) (some c) h k = omega arith

latest_bounds :
    (start : Option ℕ) (times : List (Option ℕ))
    → Before start (latest start times) × All (λ t. Before t (latest start times)) times
unfolding latest
latest_bounds start [] = (Before-refl start, tt)
  where
    Before-refl : (t : Option ℕ) → Before t t
    Before-refl none = tt
    Before-refl (some t) = omega arith
latest_bounds start (t ∷ times) =
    let (first, rest) = latest_bounds (later start t) times in
    let (old, new) = Before-later start t in
    (
      Before-trans start (later start t) _ old first,
      (Before-trans t (later start t) _ new first, rest),
    )

-- All fields of a resource but its metadata.
abbrev pub without_metadata : Resource → Resource
without_metadata r = record r { metadata = end }

update_at-some :
    (i : ℕ) (f : Resource → Resource) (rs : List Resource)
    → i < length rs
    → ((r : Resource) → without_metadata (f r) ≡ without_metadata r)
    → (ss : List Resource) × (update_at i f rs ≡ some ss)
      × (length ss ≡ length rs)
      × (map without_metadata ss ≡ map without_metadata rs)
unfolding update_at
update_at-some zero f [] h same = absurd (omega arith)
update_at-some (suc i) f [] h same = absurd (omega arith)
update_at-some zero f (r ∷ rs) h same = (f r ∷ rs, refl, refl, cc (same r))
update_at-some (suc i) f (r ∷ rs) h same =
    let (ss, e, count, ids) = update_at-some i f rs (omega arith) same in
    (r ∷ ss, rw e refl, omega arith, cc)

-- The report ends, with these resources in this order, less their metadata.
abbrev pub Reports : List Resource → Attached → Type 0
Reports rs (attached r) = map without_metadata r.resources ≡ rs
Reports rs index_out_of_range = ⊥
Reports rs waiting = ⊥

module _ (client : LastUsedClient) where
  put_last_used-metadata :
      (details : LastAccessed) (r : Resource)
      → without_metadata (put_last_used client details r) ≡ without_metadata r
  unfolding put_last_used
  put_last_used-metadata details r = refl

  record_last_used-some :
      (i : ℕ) (details : LastAccessed) (r : ReportResult)
      → i < length r.resources
      → (s : ReportResult) × (record_last_used client i details r ≡ some s)
        × (length s.resources ≡ length r.resources)
        × (map without_metadata s.resources ≡ map without_metadata r.resources)
  unfolding record_last_used
  record_last_used-some i details r h =
      let (ss, e, count, ids) =
        update_at-some i (put_last_used client details) r.resources h
          (put_last_used-metadata details) in
      elim (Bool-cases (eq_text details.job_status (codes "COMPLETED"))) [
        | inl completed ↦ (record r { resources = ss }, rw (completed, e) refl, count, ids)
        | inr failed ↦ (r, rw failed refl, refl, refl)
      ]

  -- From the call `last` on, no job is in progress any more.
  abbrev pub Over : Session → ℕ → Type 0
  Over session last =
      (n : ℕ) (job_id : Text) (details : LastAccessed)
      → last ≤ n
      → client.last_accessed_details session n job_id ≡ ok details
      → in_progress client details ≡ false

  -- If no job is in progress from the call `last` on, `last` calls and one for each job are enough,
  -- and if there are as many resources as jobs no index is out of range: the function returns, with
  -- the same resources in the same order, of which at most the metadata has changed.
  pub attach-Reports :
      (fuel : ℕ) (session : Session) (last calls i : ℕ) (job_ids : List Text) (r : ReportResult)
      → Over session last
      → (last - calls) + length job_ids ≤ fuel
      → i + length job_ids ≤ length r.resources
      → Reports (map without_metadata r.resources) (attach client fuel session calls i job_ids r)
  unfolding attach
  attach-Reports zero session last calls i [] r over enough h = refl
  attach-Reports (suc fuel) session last calls i [] r over enough h = refl
  attach-Reports zero session last calls i (j ∷ js) r over enough h = absurd (omega arith)
  attach-Reports (suc fuel) session last calls i (j ∷ js) r over enough h =
      elim (Result-cases (client.last_accessed_details session calls j)) [
        | inr (e, failed) ↦ rw (failed, attach) refl
        | inl (details, answer) ↦ elim (Bool-cases (in_progress client details)) [
          | inl busy ↦
              let before : calls < last = ground (arith, over calls j details) in
              rw (answer, attach, busy)
                (attach-Reports fuel session last (calls + 1) i (j ∷ js) r over (omega arith) h)
          | inr ended ↦
              let (s, e, count, ids) = record_last_used-some i details r (omega arith) in
              rw (answer, attach, ended, e, ← ids)
                (attach-Reports fuel session last (calls + 1) (i + 1) js s over (omega arith)
                  (omega arith))
        ]
      ]
