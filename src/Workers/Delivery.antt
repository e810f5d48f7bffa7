-- ===== src/Workers/Delivery.antt =====
-- Whatever the scheduler does, each job's result is delivered once.
use mathlib.Core.List.{Perm, perm_middle, map-append}
use mathlib.Core.List.Perm
use awstools.Prelude.{ℕ, List, ◌∷◌, ◌++◌, append_assoc, append-nil, map}
use awstools.Workers.{Pool, Step, take_job, send_result, Reach, here, next, start, IsFinished}

module _ {A B : Type 0} (report : A → B) (workers : ℕ) where
  -- The results sent, and those to come.
  abbrev outcome : Pool A B → List B
  outcome p = p.done ++ map report (p.running ++ p.queue)

  map_middle :
      (j : A) (xs ys : List A) → Perm (report j ∷ map report (xs ++ ys)) (map report (xs ++ j ∷ ys))
  map_middle j xs ys = simp map-append (Perm.symm (perm_middle (map report xs) (map report ys)))

  Step-outcome : {p q : Pool A B} → Step report workers p q → Perm (outcome q) (outcome p)
  Step-outcome (take_job j queue running done h) =
      Perm.append_left done (map_middle j running queue)
  Step-outcome (send_result j queue before after done) =
      simp append_assoc (Perm.append_left done (map_middle j before (after ++ queue)))

  Reach-outcome : {p q : Pool A B} → Reach report workers p q → Perm (outcome q) (outcome p)
  Reach-outcome here = Perm.refl _
  Reach-outcome (next r s) = Perm.trans (Step-outcome s) (Reach-outcome r)

  finished :
      (jobs : List A) (p : Pool A B)
      → IsFinished p
      → Perm (outcome p) (map report jobs)
      → Perm p.done (map report jobs)
  finished jobs p f h = rw (f.no_queue, f.no_running, append-nil) at h

  -- When the pool has finished, the results are those of the jobs, each once, in some order.
  pub results-perm :
      (jobs : List A) (p : Pool A B)
      → Reach report workers (start jobs) p
      → IsFinished p
      → Perm p.done (map report jobs)
  results-perm jobs p r f = finished jobs p f (Reach-outcome r)
