-- ===== src/Worker/Deployed.antt =====
-- The worker with validated settings, on a database that the program made.
use ping_gaurd.Prelude.{
  ℕ, ◌+◌, ◌-◌, ◌*◌, ◌≤◌, ◌<◌, ◌≡◌, true, false, Text, Option, some, List, All, arith, length, refl,
  count_p_mono, ◌&&◌, ◌==◌, count_p-le-length,
}
use ping_gaurd.Models.{Monitor, ok}
use ping_gaurd.Net.Resolve.{UrlLibrary}
use ping_gaurd.Config.{Settings, DatabaseUrl, magnitude, validate_settings}
use ping_gaurd.Config.Budget.{settings_budget}
use ping_gaurd.Worker.{celery_conf, scheduled_sweep, scheduled_prune}
use ping_gaurd.Tasks.Sweep.{
  Outside, ping_task, monitoring_lane, run_batches, start, sweep_due_monitors,
}
use ping_gaurd.Tasks.Sweep.Backlog.{backlog}
use ping_gaurd.Tasks.Sweep.Batch.{queued}
use ping_gaurd.Tasks.Sweep.Count.{rows_with, due_with}
use ping_gaurd.Tasks.Sweep.Sent.{sure, run_batches-sure, run_batches_task}
use ping_gaurd.Tasks.Sweep.Progress.{health_backlog}
use ping_gaurd.Tasks.Prune.{cutoff_of}
use ping_gaurd.Tasks.Prune.Exact.{prune_exact, expired_rows, fresh_rows}
use ping_gaurd.System.{no_rows}
use ping_gaurd.System.Rows.{All_imp}
use ping_gaurd.System.Overlap.{Event, run_events, idle}
use ping_gaurd.System.Overlap.Safe.{IsSafeRow}
use ping_gaurd.System.Overlap.Bounded.{IsAllowed}
use ping_gaurd.System.Overlap.Reach.{run_events-IsStored}
use ping_gaurd.Tasks.Sweep.Schedule.{IsPositive, health_count}

pub due-backlog :
    (now i : ℕ) (t : List Monitor)
    → due_with monitoring_lane now i t ≤ backlog monitoring_lane now t
due-backlog now i t =
    count_p_mono (λ m. m.id == i && monitoring_lane.is_due now m) (monitoring_lane.is_due now)
      (λ m h. ground arith) t

each_sent :
    (outside : Outside) (now size rounds : ℕ) (table : List Monitor) (i : ℕ)
    → All IsPositive table
    → rows_with i table ≤ 1
    → ((k : ℕ) → outside.accepts k ≡ true)
    → backlog monitoring_lane now
        (run_batches monitoring_lane now outside size rounds (start table)).table
      ≡ 0
    → queued i (run_batches monitoring_lane now outside size rounds (start table)).queue
      ≡ due_with monitoring_lane now i table
each_sent outside now size rounds table i paced unique up done =
    let unsure = run_batches-sure monitoring_lane now outside size rounds (start table) up in
    let certain = sure monitoring_lane now outside in
    let counted = (health_count certain certain now size rounds table i unique paced).1 refl in
    let checks = run_batches monitoring_lane now outside size rounds (start table) in
    let left = due-backlog now i checks.table in
    let total : queued i checks.queue + due_with monitoring_lane now i checks.table
        ≡ due_with monitoring_lane now i table =
      rw unsure counted in
    omega (arith, total, left, done)

-- With room in a sweep for the limit on monitors and one less than the API's connections more, on a
-- database that any interleaving of handlers, whose requests passed validation, with the transactions
-- of the worker made, let a scheduled sweep find no row locked and the broker working. Its first loop
-- sends exactly one message under the key of each monitor that is due for a health check and none under
-- any other key, each for the task `execute_ping`; and it leaves no health check due.
pub scheduled_sweep_complete :
    (lib : UrlLibrary) (s : Settings) (connections : ℕ) (events : List Event)
    (outside outside' : Outside) (now : ℕ)
    → magnitude s.max_monitors + connections - 1
      ≤ magnitude s.sweep_max_batches * magnitude s.sweep_batch_size
    → All (IsAllowed lib) events
    → ((k : ℕ) → outside.accepts k ≡ true)
    → ((b i : ℕ) → outside.locked b i ≡ false)
    → let table =
        (run_events (magnitude s.max_monitors) connections events (idle no_rows)).db.monitors in
      let checks = (scheduled_sweep s outside outside' now table).0 in
      (length checks.queue ≡ backlog monitoring_lane now table)
      × (backlog monitoring_lane now checks.table ≡ 0)
      × All (λ msg. msg.task ≡ ping_task) checks.queue
      × ((i : ℕ) → queued i checks.queue ≡ due_with monitoring_lane now i table)
unfolding scheduled_sweep sweep_due_monitors monitoring_lane
scheduled_sweep_complete lib s connections events outside outside' now room admitted up free =
    let table =
      (run_events (magnitude s.max_monitors) connections events (idle no_rows)).db.monitors in
    let sound = run_events-IsStored lib (magnitude s.max_monitors) connections events admitted in
    let size = magnitude s.sweep_batch_size in
    let rounds = magnitude s.sweep_max_batches in
    let paced =
      All_imp {P = IsSafeRow} {Q = IsPositive} table (λ m safe. ground arith) sound.rows in
    let (less, sent) = health_backlog outside now size rounds table paced sound.unique up free in
    let few = count_p-le-length (monitoring_lane.is_due now) table in
    let most = sound.few in
    let done : backlog monitoring_lane now
          (run_batches monitoring_lane now outside size rounds (start table)).table
        ≡ 0 =
      omega (arith, less, few, most, room) in
    (
      omega (arith, done, sent),
      done,
      run_batches_task monitoring_lane now outside size rounds (start table) tt,
      λ i. each_sent outside now size rounds table i paced (sound.unique i) up done,
    )

module _ (lib : UrlLibrary) (upper : Text → Text) (make_url : Text → Option DatabaseUrl)
    (s : Settings) where
  -- With settings that pass validation, the worker stops a task softly at least two seconds after the
  -- probe's own deadline, and kills it at least three seconds after that.
  pub worker_limits :
      validate_settings lib upper make_url s ≡ ok tt
      → (magnitude s.probe_total_timeout + 2000000
          ≤ magnitude (celery_conf s).task_soft_time_limit * 1000000)
        × (magnitude (celery_conf s).task_soft_time_limit + 3
            ≤ magnitude (celery_conf s).task_time_limit)
  unfolding celery_conf
  worker_limits valid = let b = settings_budget lib upper make_url s valid in (b.0, b.1)

  -- With settings that pass validation, on a database that any interleaving of handlers, whose
  -- requests passed validation, with the transactions of the worker made, scheduled pruning ends, with
  -- more fuel than there are expired results: these are gone, the others are kept in their order, and
  -- the number returned is the number of results deleted.
  pub scheduled_prune_exact :
      (connections : ℕ) (events : List Event) (now fuel : ℕ)
      → validate_settings lib upper make_url s ≡ ok tt
      → All (IsAllowed lib) events
      → expired_rows
          (cutoff_of now (magnitude s.ping_results_retention_days))
          (run_events (magnitude s.max_monitors) connections events (idle no_rows)).db.results
        < fuel
      → let results =
          (run_events (magnitude s.max_monitors) connections events (idle no_rows)).db.results in
        let cutoff = cutoff_of now (magnitude s.ping_results_retention_days) in
        scheduled_prune s now fuel results
        ≡ some (expired_rows cutoff results, fresh_rows cutoff results)
  unfolding scheduled_prune
  scheduled_prune_exact connections events now fuel valid admitted enough =
      let b = settings_budget lib upper make_url s valid in
      let sound = run_events-IsStored lib (magnitude s.max_monitors) connections events admitted in
      prune_exact now (magnitude s.ping_results_retention_days) (magnitude s.retention_batch_size)
        fuel _ (ground arith) enough sound.results_unique
