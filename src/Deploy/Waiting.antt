-- ===== src/Deploy/Waiting.antt =====
-- How ecs/deploy/main.go ends.
use awstools.Prelude.{
  ℕ, zero, suc, ◌+◌, ◌≤◌, ◌<◌, ◌≡◌, ◌≢◌, refl, arith, true, false, leb, none, some, List, [], ◌∷◌,
  ok, err, Result-cases, Option-cases, Bool-cases, inl, inr, All,
}
use awstools.Prelude.Text.{Text}
use awstools.Deploy.{
  DescribedService, Flags, DeployWorld, success, fatal, gave_up, index_out_of_range, waiting,
  register, update_services, count_pending, wait, deploy,
}

-- Every service runs as many tasks as it should.
abbrev pub Ready : DescribedService → Type 0
Ready s = (d : ℕ × ℕ) × (ds : List (ℕ × ℕ)) × (s.deployments ≡ d ∷ ds) × (d.0 ≡ d.1)

module _ (w : DeployWorld) where
  -- In some round each service that the answer of DescribeServices had was ready.
  abbrev pub WereReady : List Text → Type 0
  WereReady services =
      (i : ℕ) × (described : List DescribedService) × (w.describe_services i services
        ≡ ok described)
      × All Ready described

  wait-fatal :
      (fuel : ℕ) (services : List Text) (timeout i pending : ℕ) (e : Text)
      → w.describe_services i services ≡ err e
      → wait w (suc fuel) services timeout i (suc pending) ≡ fatal e
  unfolding wait
  wait-fatal fuel services timeout i pending e failed = rw (failed, wait) refl

  module _ (fuel : ℕ) (services : List Text) (timeout i pending : ℕ)
      (described : List DescribedService)
      (answer : w.describe_services i services ≡ ok described) where
    wait-out_of_range :
        count_pending w described ≡ none
        → wait w (suc fuel) services timeout i (suc pending) ≡ index_out_of_range
    unfolding wait
    wait-out_of_range panics = rw (answer, wait, panics) refl

    wait-zero :
        count_pending w described ≡ some 0
        → wait w (suc fuel) services timeout i (suc pending) ≡ success
    unfolding wait
    wait-zero done = rw (answer, wait, done) (go fuel)
      where
        go : (f : ℕ) → wait w f services timeout (i + 1) 0 ≡ success
        go zero = refl
        go (suc f) = refl

    wait-late :
        (n : ℕ)
        → count_pending w described ≡ some (suc n)
        → leb timeout (w.since i) ≡ true
        → wait w (suc fuel) services timeout i (suc pending) ≡ gave_up (suc n)
    unfolding wait
    wait-late n counted late = rw (answer, wait, counted, late) refl

    wait-early :
        (n : ℕ)
        → count_pending w described ≡ some (suc n)
        → leb timeout (w.since i) ≡ false
        → wait w (suc fuel) services timeout i (suc pending)
          ≡ wait w fuel services timeout (i + 1) (suc n)
    unfolding wait
    wait-early n counted early = rw (answer, wait, counted, early) refl

  -- The clock passes the timeout by round `last`, and the loop ends by then.
  wait-ends :
      (fuel last : ℕ) (services : List Text) (timeout i pending : ℕ)
      → ((j : ℕ) → last ≤ j → leb timeout (w.since j) ≡ true)
      → last < fuel + i
      → 0 < fuel
      → wait w fuel services timeout i pending ≢ waiting
  unfolding wait
  wait-ends zero last services timeout i zero clock enough some_fuel h = absurd (omega arith)
  wait-ends (suc fuel) last services timeout i zero clock enough some_fuel h = absurd (ground arith)
  wait-ends zero last services timeout i (suc pending) clock enough some_fuel h =
      absurd (omega arith)
  wait-ends (suc fuel) last services timeout i (suc pending) clock enough some_fuel h =
      elim (Result-cases (w.describe_services i services)) [
        | inr (e, failed) ↦
            let h' : fatal e ≡ waiting =
              rw (wait-fatal fuel services timeout i pending e failed) at h in
            absurd (ground arith)
        | inl (described, answer) ↦ elim (Option-cases (count_pending w described)) [
          | inl panics ↦
              let h' : index_out_of_range ≡ waiting =
                rw (wait-out_of_range fuel services timeout i pending described answer panics) at
                  h in
              absurd (ground arith)
          | inr (zero, counted) ↦
              let h' : success ≡ waiting =
                rw (wait-zero fuel services timeout i pending described answer counted) at h in
              absurd (ground arith)
          | inr (suc n, counted) ↦ elim (Bool-cases (leb timeout (w.since i))) [
            | inl late ↦
                let h' : gave_up (suc n) ≡ waiting =
                  rw (wait-late fuel services timeout i pending described answer n counted late) at
                    h in
                absurd (ground arith)
            | inr early ↦
                let before : i < last = ground (arith, clock i) in
                wait-ends fuel last services timeout (i + 1) (suc n) clock (omega arith)
                  (omega arith)
                  (rw (wait-early fuel services timeout i pending described answer n counted early)
                    at h)
          ]
        ]
      ]

  -- If the clock is past the timeout from the round `last` on, ecs/deploy ends, and more than `last`
  -- rounds are enough.
  pub deploy-ends :
      (fuel last : ℕ) (flags : Flags)
      → ((j : ℕ) → last ≤ j → leb flags.timeout (w.since j) ≡ true)
      → last < fuel
      → deploy w fuel flags ≢ waiting
  unfolding deploy
  deploy-ends fuel last flags clock enough h = elim (Result-cases (register w flags)) [
    | inr (e, failed) ↦
        let h' : fatal e ≡ waiting = rw (failed, deploy) at h in absurd (ground arith)
    | inl (arn, registered) ↦ elim (Bool-cases flags.update_task_definition_only) [
      | inl only ↦
          let h' : success ≡ waiting = rw (registered, deploy, only) at h in absurd (ground arith)
      | inr more ↦
          wait-ends fuel last flags.services flags.timeout 0 (update_services w arn flags.services)
            clock (omega arith) (omega arith) (rw (registered, deploy, more) at h)
    ]
  ]

  none_updated :
      (arn : Text) (services : List Text)
      → All (λ s. (e : Text) × (w.update_service s arn ≡ err e)) services
      → update_services w arn services ≡ 0
  unfolding update_services
  none_updated arn [] h = refl
  none_updated arn (s ∷ services) ((e, failed), h) =
      rw (failed, update_services, none_updated arn services h) refl

  wait-success :
      (fuel i timeout : ℕ) (services : List Text) → wait w fuel services timeout i 0 ≡ success
  unfolding wait
  wait-success zero i timeout services = refl
  wait-success (suc fuel) i timeout services = refl

  -- If no service can be updated the program ends well, as if all had been.
  pub deploy-none_updated :
      (fuel : ℕ) (flags : Flags) (arn : Text)
      → register w flags ≡ ok arn
      → flags.update_task_definition_only ≡ false
      → All (λ s. (e : Text) × (w.update_service s arn ≡ err e)) flags.services
      → deploy w fuel flags ≡ success
  unfolding deploy
  deploy-none_updated fuel flags arn registered more failed =
      rw (registered, deploy, more, none_updated arn flags.services failed)
        (wait-success fuel 0 flags.timeout flags.services)
