-- ===== src/Tests/Workers.antt =====
-- A pool with one goroutine that works off two jobs.
use awstools.Prelude.{ℕ, ◌+◌, arith, List, [], ◌∷◌}
use awstools.Workers.{Pool, Step, take_job, send_result, Reach, here, next, start}

abbrev double : ℕ → ℕ
double n = n + n

abbrev pool : List ℕ → List ℕ → List ℕ → Pool ℕ ℕ
pool queue running done = record { queue = queue; running = running; done = done }

first-Step : Step double 1 (start (3 ∷ 4 ∷ [])) (pool (4 ∷ []) (3 ∷ []) [])
first-Step = take_job 3 (4 ∷ []) [] [] (omega arith)

all_steps : Reach double 1 (start (3 ∷ 4 ∷ [])) (pool [] [] (6 ∷ 8 ∷ []))
all_steps =
    next
      (next (next (next here first-Step) (send_result 3 (4 ∷ []) [] [] []))
        (take_job 4 [] [] (6 ∷ []) (omega arith)))
      (send_result 4 [] [] [] (6 ∷ []))
