-- ===== src/Tasks/Sweep/Schedule.antt =====
-- `sweep_due_monitors` of app/tasks.py as a whole, over the two lanes.
use ping_gaurd.Prelude.{
  ℕ, ◌+◌, ◌*◌, ◌≤◌, ◌<◌, ◌≡◌, refl, true, List, [], ◌∷◌, All, arith, ◌&&◌, length, ◌==◌,
}
use ping_gaurd.Models.{Monitor}
use ping_gaurd.Tasks.Sweep.{
  Outside, Sweep, monitoring_lane, keep_alive_lane, sweep_due_monitors, run_batches, start,
}
use ping_gaurd.Tasks.Sweep.Count.{IsLane, IsPaced, rows_with, due_with}
use ping_gaurd.Tasks.Sweep.Batch.{queued}
use ping_gaurd.Tasks.Sweep.Loop.{run_batches_count}
use ping_gaurd.Tasks.Sweep.Frame.{run_batches_frame, run_batches_sizes}

pub monitoring_lane-IsLane : IsLane monitoring_lane
unfolding monitoring_lane
monitoring_lane-IsLane = record {
  same_id = λ t m. refl;
  same_interval = λ t m. refl;
  not_due_later = λ now t m h. ground arith;
  due_at_once = λ now m h. ground arith;
  overwrites = λ s t m. refl;
}

keep_alive_lane-IsLane : IsLane keep_alive_lane
unfolding keep_alive_lane
keep_alive_lane-IsLane = record {
  same_id = λ t m. refl;
  same_interval = λ t m. refl;
  not_due_later = λ now t m h. ground arith;
  due_at_once = λ now m h. ground arith;
  overwrites = λ s t m. refl;
}

-- The bound `ge=15` of the schemas, as far as a sweep needs it.
abbrev pub IsPositive : Monitor → Type 0
IsPositive m = 0 < m.check_interval_seconds

positive-IsPaced : (t : List Monitor) → All IsPositive t → All (IsPaced monitoring_lane) t
unfolding monitoring_lane
positive-IsPaced [] h = tt
positive-IsPaced (m ∷ t) h = (λ s e. ground arith, positive-IsPaced t h.1)

keep_alive-IsPaced : (t : List Monitor) → All (IsPaced keep_alive_lane) t
unfolding keep_alive_lane
keep_alive-IsPaced [] = tt
keep_alive-IsPaced (m ∷ t) = (λ s e. ground arith, keep_alive-IsPaced t)

module _ (outside outside' : Outside) (now batch_size max_batches : ℕ) (table : List Monitor) where
  abbrev checks : Sweep
  checks = run_batches monitoring_lane now outside batch_size max_batches (start table)

  abbrev pings : Sweep
  pings = run_batches keep_alive_lane now outside' batch_size max_batches (start checks.table)

  -- Each loop leaves the other loop's column, and so what is due by it, as it was.
  other_column :
      (i : ℕ)
      → (due_with keep_alive_lane now i checks.table ≡ due_with keep_alive_lane now i table)
        × (due_with monitoring_lane now i pings.table ≡ due_with monitoring_lane now i checks.table)
        × (rows_with i checks.table ≡ rows_with i table)
  unfolding monitoring_lane keep_alive_lane
  other_column i = (
    run_batches_frame monitoring_lane now (λ m. m.id == i && keep_alive_lane.is_due now m)
        (λ t m. refl) outside batch_size max_batches (start table),
    run_batches_frame keep_alive_lane now (λ m. m.id == i && monitoring_lane.is_due now m)
        (λ t m. refl) outside' batch_size max_batches (start checks.table),
    run_batches_frame monitoring_lane now (λ m. m.id == i) (λ t m. refl) outside batch_size
        max_batches (start table),
  )

  pub health_count :
      (i : ℕ)
      → rows_with i table ≤ 1
      → All IsPositive table
      → let total = queued i checks.queue + due_with monitoring_lane now i checks.table in
        let due = due_with monitoring_lane now i table in
        (total ≤ due) × (outside.recovers ≡ true → total ≡ due)
  health_count i unique positive =
      let count =
        run_batches_count monitoring_lane now monitoring_lane-IsLane outside i batch_size
          max_batches (start table) (positive-IsPaced table positive) unique in
      (omega (arith, count.0), λ works. omega (arith, count.1 works))

  keep_alive_count :
      (i : ℕ)
      → rows_with i table ≤ 1
      → let total = queued i pings.queue + due_with keep_alive_lane now i pings.table in
        let due = due_with keep_alive_lane now i table in
        (total ≤ due) × (outside'.recovers ≡ true → total ≡ due)
  keep_alive_count i unique =
      let other = other_column i in
      let count =
        run_batches_count keep_alive_lane now keep_alive_lane-IsLane outside' i batch_size
          max_batches (start checks.table) (keep_alive-IsPaced checks.table) (omega arith) in
      (omega (arith, count.0), λ works. omega (arith, count.1 works))

  -- Let the keys be unique, the check intervals positive, and let the recovery sessions commit. Then
  -- after the sweep every monitor due for a health check is queued for one or still due, exactly
  -- one of the two and once, and likewise for keep-alive; a monitor that was not due is neither.
  pub sweep_conserves :
      (i : ℕ)
      → rows_with i table ≤ 1
      → All IsPositive table
      → outside.recovers ≡ true
      → outside'.recovers ≡ true
      → let (checked, pinged) =
          sweep_due_monitors outside outside' now batch_size max_batches table in
        (queued i checked.queue + due_with monitoring_lane now i pinged.table
          ≡ due_with monitoring_lane now i table)
        × (queued i pinged.queue + due_with keep_alive_lane now i pinged.table
            ≡ due_with keep_alive_lane now i table)
  unfolding sweep_due_monitors
  sweep_conserves i unique positive works works' =
      let other = other_column i in
      let health = (health_count i unique positive).1 works in
      let wake = (keep_alive_count i unique).1 works' in (omega arith, omega arith)

  -- The two counts that the task returns are the numbers of messages sent, at most
  -- `max_batches * batch_size` each.
  pub sweep_reports :
      let (checked, pinged) =
        sweep_due_monitors outside outside' now batch_size max_batches table in
      (checked.enqueued ≡ length checked.queue)
      × (pinged.enqueued ≡ length pinged.queue)
      × (checked.enqueued ≤ max_batches * batch_size)
      × (pinged.enqueued ≤ max_batches * batch_size)
  unfolding sweep_due_monitors
  sweep_reports =
      let a =
        run_batches_sizes monitoring_lane now outside batch_size max_batches (start table) refl in
      let b =
        run_batches_sizes keep_alive_lane now outside' batch_size max_batches (start checks.table)
          refl in
      omega arith
