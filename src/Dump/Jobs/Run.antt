-- ===== src/Dump/Jobs/Run.antt =====
-- Run: ten goroutines work off the jobs, and the results are collected as they arrive.
use mathlib.Core.List.{Perm, Permᴰ, Perm-prop, perm_append_comm}
use mathlib.Core.List.Perm
use mathlib.Core.Logic.{∥∥₁_elim}
use awstools.Prelude.{Option, none, some, List, append_assoc, map}
use awstools.Prelude.Text.{Text}
use awstools.Workers.{Pool, Reach, start, IsFinished}
use awstools.Workers.Delivery.{results-perm}
use awstools.Dump.Jobs.{Resource, ReportResult, Job, run_job, add_result, collect}

add_result-perm :
    (e : Option Text) (resources : List Resource) (a b : List Resource × List Text)
    → Perm a.0 b.0
    → Perm a.1 b.1
    → Perm (add_result e resources a).0 (add_result e resources b).0
      × Perm (add_result e resources a).1 (add_result e resources b).1
unfolding add_result
add_result-perm none resources a b p q = (Perm.append_left resources p, q)
add_result-perm (some e) resources a b p q = (p, Perm.cons e q)

add_result-swap :
    (d e : Option Text) (xs ys : List Resource) (a : List Resource × List Text)
    → Perm (add_result d xs (add_result e ys a)).0 (add_result e ys (add_result d xs a)).0
      × Perm (add_result d xs (add_result e ys a)).1 (add_result e ys (add_result d xs a)).1
unfolding add_result
add_result-swap none none xs ys a = (
  rw (← append_assoc xs ys a.0, ← append_assoc ys xs a.0)
      (Perm.append_right a.0 (perm_append_comm xs ys)),
  Perm.refl a.1,
)
add_result-swap none (some e) xs ys a = (Perm.refl _, Perm.refl _)
add_result-swap (some d) none xs ys a = (Perm.refl _, Perm.refl _)
add_result-swap (some d) (some e) xs ys a = (Perm.refl _, Perm.swap e d a.1)

collect-Permᴰ :
    {rs ss : List ReportResult}
    → Permᴰ rs ss
    → Perm (collect rs).0 (collect ss).0 × Perm (collect rs).1 (collect ss).1
unfolding collect
collect-Permᴰ Permᴰ.nil = (Perm.refl _, Perm.refl _)
collect-Permᴰ (Permᴰ.cons {b = b} {l₁ = xs} {l₂ = ys} p h) =
    let (c, d) = collect-Permᴰ h in
    rw p (add_result-perm b.error b.resources (collect xs) (collect ys) c d)
collect-Permᴰ (Permᴰ.swap {a' = c} {b' = d} {l = l} p q) =
    rw (p, q) (add_result-swap d.error c.error d.resources c.resources (collect l))
collect-Permᴰ (Permᴰ.trans h k) =
    let (a, b) = collect-Permᴰ h in let (c, d) = collect-Permᴰ k in (Perm.trans a c, Perm.trans b d)

collect-perm :
    {rs ss : List ReportResult}
    → Perm rs ss
    → Perm (collect rs).0 (collect ss).0 × Perm (collect rs).1 (collect ss).1
collect-perm h = (
  ∥∥₁_elim h Perm-prop (λ d. (collect-Permᴰ d).0),
  ∥∥₁_elim h Perm-prop (λ d. (collect-Permᴰ d).1),
)

-- Run, for a run of the pool that has finished.
unfoldable pub run : Pool Job ReportResult → List Resource × List Text
run p = collect p.done

-- Whatever the scheduler does, Run returns the resources of the reports that succeed and the errors
-- of those that fail, each once, in some order: those of running the jobs one after the other.
pub run-perm :
    (jobs : List Job) (p : Pool Job ReportResult)
    → Reach run_job 10 (start jobs) p
    → IsFinished p
    → Perm (run p).0 (collect (map run_job jobs)).0 × Perm (run p).1 (collect (map run_job jobs)).1
unfolding run
run-perm jobs p r f = collect-perm (results-perm run_job 10 jobs p r f)
