-- ===== src/Workers.antt =====
-- The pool of goroutines that aws/dump/resources/job.go and iam/sync-users start: `workers` goroutines
-- range over a channel of jobs, and send one result for each job to a channel of results. The caller
-- fills the jobs channel, closes it, and reads as many results as there were jobs. Both channels have
-- room for all jobs. Which goroutine runs next is the scheduler's choice.
pub mod Delivery
use awstools.Prelude.{ℕ, ◌<◌, List, [], ◌∷◌, ◌++◌, ◌≡◌, length}

-- The jobs in the channel, those that a goroutine has taken, and the results sent.
pub record Pool (A B : Type 0) : Type 0 where
  pub queue : List A
  pub running : List A
  pub done : List B

module _ {A B : Type 0} (report : A → B) (workers : ℕ) where
  pub data Step : Pool A B → Pool A B → Type 0 where
    -- An idle goroutine receives the next job.
    take_job :
        (j : A) (queue running : List A) (done : List B)
        → length running < workers
        → Step
            (record { queue = j ∷ queue; running = running; done = done })
            (record { queue = queue; running = j ∷ running; done = done })
    -- A goroutine ends its job and sends the result.
    send_result :
        (j : A) (queue before after : List A) (done : List B)
        → Step
            (record { queue = queue; running = before ++ j ∷ after; done = done })
            (record { queue = queue; running = before ++ after; done = done ++ report j ∷ [] })

  pub data Reach (p : Pool A B) : Pool A B → Type 0 where
    here : Reach p p
    next : {q r : Pool A B} → Reach p q → Step q r → Reach p r

module _ {A B : Type 0} where
  abbrev pub start : List A → Pool A B
  start jobs = record { queue = jobs; running = []; done = [] }

  -- Every job was taken and its result sent.
  pub record IsFinished (p : Pool A B) : Type 0 where
    pub no_queue : p.queue ≡ []
    pub no_running : p.running ≡ []
