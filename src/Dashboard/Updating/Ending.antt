-- ===== src/Dashboard/Updating/Ending.antt =====
-- updateAccounts of ecs/dashboard/refresh.go ends if there is room for all accounts.
use awstools.Prelude.{
  ℕ, ◌+◌, ◌*◌, ◌≤◌, ◌<◌, ◌≡◌, refl, arith, Option, List, [], ◌∷◌, length, length-append, ◌⊎◌, inl,
  inr, Bool-cases, ltb, ap,
}
use awstools.Dashboard.{Account, AccountState, EcsWorld}
use awstools.Dashboard.Updating.{
  channel_size, worker_count, Update, begin, IsDone, UpdateStep, send_job, take_account, send_state,
  receive, Updates, at_start, then,
}
use awstools.Dashboard.Updating.Room.{total, UpdateStep-total, Updates-total}

module _ {T : Type 0} (w : EcsWorld T) where
  -- The steps that a run has left.
  abbrev steps_left : Update T → ℕ
  steps_left u = 4 * length u.to_send + 3 * length u.jobs + 2 * length u.running + length u.results

  UpdateStep-steps_left : {u v : Update T} → UpdateStep w u v → steps_left v < steps_left u
  UpdateStep-steps_left (send_job a to_send jobs running results received h) =
      omega (arith, length-append jobs (a ∷ []))
  UpdateStep-steps_left (take_account a to_send jobs running results received h) = omega arith
  UpdateStep-steps_left (send_state a to_send jobs before after results received h) = omega (
    arith,
    length-append before (a ∷ after),
    length-append before after,
    length-append results (_ ∷ []),
  )
  UpdateStep-steps_left (receive r jobs running results received) = omega arith

  -- The caller or a goroutine can go on.
  abbrev CanGoOn : Update T → Type 0
  CanGoOn u = (v : Update T) × UpdateStep w u v

  -- As long as accounts are to be sent and there is room for all.
  sending :
      (a : Account) (to_send jobs running : List Account)
      (results received : List (Option (AccountState T)))
      → length jobs + length running + length results < channel_size + channel_size + worker_count
      → CanGoOn (record {
        to_send = a ∷ to_send;
        jobs = jobs;
        running = running;
        results = results;
        received = received;
      })
  sending a to_send jobs running results received room =
      elim (Bool-cases (ltb (length jobs) channel_size)) [
        | inl fits ↦ (_, send_job a to_send jobs running results received (ground arith))
        | inr full ↦ blocked jobs running (ground arith) room
      ]
    where
      blocked :
          (jobs running : List Account)
          → channel_size ≤ length jobs
          → length jobs + length running + length results
            < channel_size + channel_size + worker_count
          → CanGoOn (record {
            to_send = a ∷ to_send;
            jobs = jobs;
            running = running;
            results = results;
            received = received;
          })
      blocked [] running full room = absurd (omega arith)
      blocked (j ∷ jobs) [] full room =
          (_, take_account j (a ∷ to_send) jobs [] results received (omega arith))
      blocked (j ∷ jobs) (b ∷ running) full room =
          elim (Bool-cases (ltb (length results) channel_size)) [
            | inl fits ↦ (
              _,
              send_state b (a ∷ to_send) (j ∷ jobs) [] running results received (ground arith),
            )
            | inr stuck ↦
                (_, take_account j (a ∷ to_send) jobs (b ∷ running) results received (ground arith))
          ]

  go_on :
      (to_send jobs running : List Account) (results received : List (Option (AccountState T)))
      → length to_send + length jobs + length running + length results
        ≤ channel_size + channel_size + worker_count
      → CanGoOn (record {
        to_send = to_send;
        jobs = jobs;
        running = running;
        results = results;
        received = received;
      })
        ⊎ IsDone (record {
          to_send = to_send;
          jobs = jobs;
          running = running;
          results = results;
          received = received;
        })
  go_on (a ∷ to_send) jobs running results received room =
      inl (sending a to_send jobs running results received (omega arith))
  go_on [] jobs running (r ∷ results) received room =
      inl (_, receive r jobs running results received)
  go_on [] jobs (a ∷ running) [] received room =
      inl (_, send_state a [] jobs [] running [] received (omega arith))
  go_on [] (a ∷ jobs) [] [] received room =
      inl (_, take_account a [] jobs [] [] received (omega arith))
  go_on [] [] [] [] received room =
      inr (record { none_to_send = refl; no_jobs = refl; none_running = refl; no_results = refl })

  first_step : {u v x : Update T} → UpdateStep w u v → Updates w v x → Updates w u x
  first_step s at_start = then at_start s
  first_step s (then r s') = then (first_step s r) s'

  to_end :
      (fuel : ℕ) (u : Update T)
      → steps_left u < fuel
      → total u ≤ channel_size + channel_size + worker_count
      → (v : Update T) × Updates w u v × IsDone v
  to_end ℕ.zero u enough room = absurd (omega arith)
  to_end (ℕ.suc fuel) u enough room =
      elim (go_on u.to_send u.jobs u.running u.results u.received (omega arith)) [
        | inr done ↦ (u, at_start, done)
        | inl (v, s) ↦
            let (x, r, done) =
              to_end fuel v (omega (arith, UpdateStep-steps_left s))
                (omega (arith, UpdateStep-total w s)) in
            (x, first_step s r, done)
      ]

  -- With at most 203 accounts updateAccounts of the dashboard is never stuck: whatever the scheduler
  -- has done so far, some further steps lead to the end, where as many results were received as there
  -- are accounts.
  pub update_accounts_end :
      (accounts : List Account) (u : Update T)
      → length accounts ≤ 203
      → Updates w (begin accounts) u
      → (v : Update T) × Updates w u v × IsDone v × (length v.received ≡ length accounts)
  update_accounts_end accounts u room r =
      let (v, r', done) =
        to_end (steps_left u + 1) u (omega arith) (omega (arith, Updates-total w r)) in
      (
        v,
        r',
        done,
        omega (
          arith,
          Updates-total w r,
          Updates-total w r',
          ap length done.none_to_send,
          ap length done.no_jobs,
          ap length done.none_running,
          ap length done.no_results,
        ),
      )
