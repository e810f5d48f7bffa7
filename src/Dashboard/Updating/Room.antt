-- ===== src/Dashboard/Updating/Room.antt =====
-- What the channels and goroutines of updateAccounts in ecs/dashboard/refresh.go have room for.
use awstools.Prelude.{
  ℕ, ◌+◌, ◌≤◌, ◌<◌, ◌≡◌, ◌≢◌, refl, arith, List, [], ◌∷◌, length, length-append, ap,
}
use awstools.Dashboard.{Account, EcsWorld}
use awstools.Dashboard.Updating.{
  channel_size, worker_count, Update, begin, UpdateStep, send_job, take_account, send_state,
  receive, Updates, at_start, then,
}

module _ {T : Type 0} where
  -- The accounts and the results, wherever they are.
  abbrev pub total : Update T → ℕ
  total u =
      length u.to_send + length u.jobs + length u.running + length u.results + length u.received

  -- Neither the channels nor the goroutines hold more than they have room for.
  record Fits (u : Update T) : Type 0 where
    jobs : length u.jobs ≤ channel_size
    running : length u.running ≤ worker_count
    results : length u.results ≤ channel_size

module _ {T : Type 0} (w : EcsWorld T) where
  pub UpdateStep-total : {u v : Update T} → UpdateStep w u v → total v ≡ total u
  UpdateStep-total (send_job a to_send jobs running results received h) =
      omega (arith, length-append jobs (a ∷ []))
  UpdateStep-total (take_account a to_send jobs running results received h) = omega arith
  UpdateStep-total (send_state a to_send jobs before after results received h) = omega (
    arith,
    length-append before (a ∷ after),
    length-append before after,
    length-append results (_ ∷ []),
  )
  UpdateStep-total (receive r jobs running results received) =
      omega (arith, length-append received (r ∷ []))

  UpdateStep-Fits : {u v : Update T} → UpdateStep w u v → Fits u → Fits v
  UpdateStep-Fits (send_job a to_send jobs running results received h) f = record {
    jobs = omega (arith, length-append jobs (a ∷ []));
    running = f.running;
    results = f.results;
  }
  UpdateStep-Fits (take_account a to_send jobs running results received h) f = record {
    jobs = let k = f.jobs in omega arith;
    running = omega arith;
    results = f.results;
  }
  UpdateStep-Fits (send_state a to_send jobs before after results received h) f = record {
    jobs = f.jobs;
    running =
        let k = f.running in
        omega (arith, length-append before (a ∷ after), length-append before after);
    results = omega (arith, length-append results (_ ∷ []));
  }
  UpdateStep-Fits (receive r jobs running results received) f = record {
    jobs = f.jobs;
    running = f.running;
    results = let k = f.results in omega arith;
  }

  pub Updates-total : {u v : Update T} → Updates w u v → total v ≡ total u
  Updates-total at_start = refl
  Updates-total (then r s) = omega (arith, Updates-total r, UpdateStep-total s)

  Updates-Fits : {u v : Update T} → Updates w u v → Fits u → Fits v
  Updates-Fits at_start f = f
  Updates-Fits (then r s) f = UpdateStep-Fits s (Updates-Fits r f)

  -- Nothing is received before all is sent.
  UpdateStep-received :
      {u v : Update T} → UpdateStep w u v → u.to_send ≢ [] → u.received ≡ [] → v.received ≡ []
  UpdateStep-received (send_job a to_send jobs running results received h) more e = e
  UpdateStep-received (take_account a to_send jobs running results received h) more e = e
  UpdateStep-received (send_state a to_send jobs before after results received h) more e = e
  UpdateStep-received (receive r jobs running results received) more e = absurd (more refl)

  begin-Fits : (accounts : List Account) → Fits (begin {T = T} accounts)
  begin-Fits accounts = record { jobs = omega arith; running = omega arith; results = omega arith }

  -- More accounts than the channels and the goroutines have room for are never all sent.
  some_to_send :
      (u : Update T)
      → Fits u
      → channel_size + channel_size + worker_count < total u
      → u.received ≡ []
      → u.to_send ≢ []
  some_to_send u f many e all_sent =
      let j = f.jobs in
      let k = f.running in let l = f.results in omega (arith, ap length e, ap length all_sent)

  -- With more than 203 accounts updateAccounts of the dashboard never returns, whatever the scheduler
  -- does: in every state that it can come to, some account is still to be sent, and no result was
  -- received.
  pub update_accounts_stuck :
      (accounts : List Account) (u : Update T)
      → 203 < length accounts
      → Updates w (begin accounts) u
      → (u.to_send ≢ []) × (u.received ≡ [])
  update_accounts_stuck accounts u many at_start =
      (some_to_send (begin accounts) (begin-Fits accounts) (omega arith) refl, refl)
  update_accounts_stuck accounts u many (then {v = v} r s) =
      let (more, e) = update_accounts_stuck accounts v many r in
      let e' = UpdateStep-received s more e in
      (
        some_to_send u (UpdateStep-Fits s (Updates-Fits r (begin-Fits accounts)))
            (omega (arith, Updates-total r, UpdateStep-total s)) e',
        e',
      )
