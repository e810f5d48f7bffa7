-- ===== src/Dashboard/Updating.antt =====
-- updateAccounts and worker of ecs/dashboard/refresh.go, as steps of the caller and of the three
-- goroutines: the caller sends all accounts before it receives the first result, and both channels
-- have room for a hundred.
pub mod Room
pub mod Ending
use awstools.Prelude.{
  ℕ, ◌+◌, ◌≤◌, ◌<◌, ◌≡◌, ◌≢◌, refl, arith, Option, List, [], ◌∷◌, ◌++◌, length, length-append, ◌⊎◌,
  inl, inr, Bool-cases, ltb,
}
use awstools.Dashboard.{Account, AccountState, EcsWorld, report}

abbrev pub channel_size : ℕ
channel_size = 100

abbrev pub worker_count : ℕ
worker_count = 3

-- The accounts that are still to be sent, those in the channel, those that a goroutine has received,
-- the results in the channel, and those that the caller has received.
pub record Update (T : Type 0) : Type 0 where
  pub to_send : List Account
  pub jobs : List Account
  pub running : List Account
  pub results : List (Option (AccountState T))
  pub received : List (Option (AccountState T))

module _ {T : Type 0} where
  abbrev pub begin : List Account → Update T
  begin accounts = record {
    to_send = accounts;
    jobs = [];
    running = [];
    results = [];
    received = [];
  }

  -- All results were received.
  pub record IsDone (u : Update T) : Type 0 where
    pub none_to_send : u.to_send ≡ []
    pub no_jobs : u.jobs ≡ []
    pub none_running : u.running ≡ []
    pub no_results : u.results ≡ []

module _ {T : Type 0} (w : EcsWorld T) where
  pub data UpdateStep : Update T → Update T → Type 0 where
    -- jobs <- account
    send_job :
        (a : Account) (to_send jobs running : List Account)
        (results received : List (Option (AccountState T)))
        → length jobs < channel_size
        → UpdateStep
            (record {
              to_send = a ∷ to_send;
              jobs = jobs;
              running = running;
              results = results;
              received = received;
            })
            (record {
              to_send = to_send;
              jobs = jobs ++ a ∷ [];
              running = running;
              results = results;
              received = received;
            })
    -- An idle goroutine receives an account.
    take_account :
        (a : Account) (to_send jobs running : List Account)
        (results received : List (Option (AccountState T)))
        → length running < worker_count
        → UpdateStep
            (record {
              to_send = to_send;
              jobs = a ∷ jobs;
              running = running;
              results = results;
              received = received;
            })
            (record {
              to_send = to_send;
              jobs = jobs;
              running = a ∷ running;
              results = results;
              received = received;
            })
    -- results <- state
    send_state :
        (a : Account) (to_send jobs before after : List Account)
        (results received : List (Option (AccountState T)))
        → length results < channel_size
        → UpdateStep
            (record {
              to_send = to_send;
              jobs = jobs;
              running = before ++ a ∷ after;
              results = results;
              received = received;
            })
            (record {
              to_send = to_send;
              jobs = jobs;
              running = before ++ after;
              results = results ++ report w a ∷ [];
              received = received;
            })
    -- result := <-results, in the loop after close(jobs)
    receive :
        (r : Option (AccountState T)) (jobs running : List Account)
        (results received : List (Option (AccountState T)))
        → UpdateStep
            (record {
              to_send = [];
              jobs = jobs;
              running = running;
              results = r ∷ results;
              received = received;
            })
            (record {
              to_send = [];
              jobs = jobs;
              running = running;
              results = results;
              received = received ++ r ∷ [];
            })

  pub data Updates (u : Update T) : Update T → Type 0 where
    at_start : Updates u u
    then : {v x : Update T} → Updates u v → UpdateStep v x → Updates u x
