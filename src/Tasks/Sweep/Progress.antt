-- ===== src/Tasks/Sweep/Progress.antt =====
-- The sweep of app/tasks.py works off the health checks that are due, and can be held up by
-- keep-alive rows that it skips.
use mathlib.Core.List.{append-nil}
use ping_gaurd.Prelude.{
  ℕ, zero, suc, ◌+◌, ◌-◌, ◌*◌, ◌≤◌, ◌≡◌, refl, ◌∙◌, Bool, true, false, none, inl, inr, List, [],
  ◌∷◌, arith, All, length, Bool-cases,
}
use ping_gaurd.Models.{Monitor}
use ping_gaurd.Tasks.Sweep.{
  Lane, Outside, Sweep, monitoring_lane, keep_alive_lane, select_due, claim_rows, dispatch, recover,
  run_batch, run_batches, start,
}
use ping_gaurd.Tasks.Sweep.Count.{rows_with}
use ping_gaurd.Tasks.Sweep.Schedule.{IsPositive, monitoring_lane-IsLane}
use ping_gaurd.Tasks.Sweep.Backlog.{IsClaimable, backlog, run_batches-backlog}

positive-IsClaimable : (t : List Monitor) → All IsPositive t → All (IsClaimable monitoring_lane) t
unfolding monitoring_lane
positive-IsClaimable [] h = tt
positive-IsClaimable (m ∷ t) h = ((m.check_interval_seconds, refl, h.0), positive-IsClaimable t h.1)

-- With unique keys, positive check intervals, no row locked and the broker accepting every call, the
-- health-check loop takes `max_batches * batch_size` monitors off the backlog, or all of it, and
-- sends exactly one message for each monitor that it takes off.
pub health_backlog :
    (outside : Outside) (now batch_size max_batches : ℕ) (table : List Monitor)
    → All IsPositive table
    → ((i : ℕ) → rows_with i table ≤ 1)
    → ((k : ℕ) → outside.accepts k ≡ true)
    → ((b i : ℕ) → outside.locked b i ≡ false)
    → let checks = run_batches monitoring_lane now outside batch_size max_batches (start table) in
      (backlog monitoring_lane now checks.table
        ≡ backlog monitoring_lane now table - max_batches * batch_size)
      × (length checks.queue + backlog monitoring_lane now checks.table
          ≡ backlog monitoring_lane now table)
health_backlog outside now batch_size max_batches table positive keys up free =
    let worked =
      run_batches-backlog monitoring_lane monitoring_lane-IsLane now outside up free batch_size
        max_batches (start table) (positive-IsClaimable table positive, keys) in
    (worked.0, omega (arith, worked.1))

abbrev pub IsSkipped : Lane → Monitor → Type 0
IsSkipped lane m = lane.interval m ≡ none

module _ (lane : Lane) (now : ℕ) (outside : Outside) where
  claim_rows-skipped :
      (ms t : List Monitor) → All (IsSkipped lane) ms → claim_rows lane now ms t ≡ (t, [])
  unfolding claim_rows
  claim_rows-skipped [] t h = refl
  claim_rows-skipped (m ∷ ms) t h = rw (h.0, claim_rows) (claim_rows-skipped ms t h.1)

  run_batch-skipped :
      (ms : List Monitor) (s : Sweep)
      → All (IsSkipped lane) ms
      → ((run_batch lane now outside ms s).0.table ≡ s.table)
        × ((run_batch lane now outside ms s).0.queue ≡ s.queue)
  unfolding run_batch dispatch recover
  run_batch-skipped [] s h = (refl, refl)
  run_batch-skipped (m ∷ ms) s h =
      rw (claim_rows-skipped (m ∷ ms) s.table h) (refl, append-nil s.queue)

  -- If the rows that the first batch selects are all skipped and no lock changes, then no later batch
  -- of the loop sees any other row: the table and the queue stay as they are.
  run_batches-skipped :
      (limit n : ℕ) (s : Sweep) (locked : ℕ → Bool)
      → ((b : ℕ) → outside.locked b ≡ locked)
      → All (IsSkipped lane) (select_due lane now locked limit s.table)
      → ((run_batches lane now outside limit n s).table ≡ s.table)
        × ((run_batches lane now outside limit n s).queue ≡ s.queue)
  unfolding run_batches
  run_batches-skipped limit zero s locked same h = (refl, refl)
  run_batches-skipped limit (suc n) s locked same h =
      let here =
        run_batch-skipped (select_due lane now (outside.locked s.batch) limit s.table) s
          (rw (same s.batch) h) in
      let after =
        (run_batch lane now outside (select_due lane now (outside.locked s.batch) limit s.table)
          s).0 in
      let again = run_batches-skipped limit n after locked same (rw here.0 h) in
      elim (Bool-cases
        (run_batch lane now outside (select_due lane now (outside.locked s.batch) limit s.table)
          s).1) [
            | inl stops ↦ rw stops here
            | inr goes_on ↦ rw goes_on (again.0 ∙ here.0, again.1 ∙ here.1)
          ]

no_interval-IsSkipped :
    (ms : List Monitor)
    → All (λ m. m.keep_alive_interval_seconds ≡ none) ms
    → All (IsSkipped keep_alive_lane) ms
unfolding keep_alive_lane
no_interval-IsSkipped [] h = tt
no_interval-IsSkipped (m ∷ ms) h = (ground arith, no_interval-IsSkipped ms h.1)

-- A batch full of enabled keep-alive rows with no interval starves the loop: however many batches it
-- may take, and whatever else is due, no keep-alive task is queued and nothing is rescheduled.
pub keep_alive_starves :
    (outside : Outside) (now batch_size max_batches : ℕ) (table : List Monitor) (locked : ℕ → Bool)
    → ((b : ℕ) → outside.locked b ≡ locked)
    → All
        (λ m. m.keep_alive_interval_seconds ≡ none)
        (select_due keep_alive_lane now locked batch_size table)
    → let pings = run_batches keep_alive_lane now outside batch_size max_batches (start table) in
      (pings.table ≡ table) × (pings.queue ≡ [])
keep_alive_starves outside now batch_size max_batches table locked same h =
    run_batches-skipped keep_alive_lane now outside batch_size max_batches (start table) locked same
      (no_interval-IsSkipped (select_due keep_alive_lane now locked batch_size table) h)
