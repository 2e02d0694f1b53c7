-- ===== src/Tasks/Examples.antt =====
-- Runs of the tasks of app/tasks.py on small tables, and the theorems about them at such inputs.
use ping_gaurd.Prelude.{
  ℕ, ◌≤◌, ◌≡◌, refl, Bool, true, false, Option, none, some, List, [], ◌∷◌, codes, arith, All, ◌==◌,
}
use ping_gaurd.Enums.{MonitorStatus, MonitorMode}
use ping_gaurd.Models.{Monitor, PingResult, update_monitor_row}
use ping_gaurd.Tasks.Sweep.{
  Outside, ping_task, keep_alive_task, monitoring_lane, keep_alive_lane, select_due, claim_rows,
  dispatch, reset_rows, recover, run_batch, run_batches, sweep_due_monitors, start,
}
use ping_gaurd.Tasks.Sweep.Count.{rows_with}
use ping_gaurd.Tasks.Sweep.Progress.{keep_alive_starves}
use ping_gaurd.Tasks.Prune.{
  prune_ping_results, cutoff_of, prune_loop, prune_batch, batch_ids, delete_ids,
}
use ping_gaurd.Tasks.Prune.Exact.{prune_exact, expired_rows, fresh_rows, results_with}

abbrev site : ℕ → MonitorMode → Option ℕ → Bool → Option ℕ → Option ℕ → Monitor
site id mode next enabled interval next_wake = record {
  id = id;
  name = codes "site";
  url = codes "https://site.example/";
  check_interval_seconds = 60;
  status = MonitorStatus.up;
  last_checked_at = none;
  next_check_at = next;
  mode = mode;
  keep_alive_enabled = enabled;
  keep_alive_interval_seconds = interval;
  keep_alive_path = none;
  next_keep_alive_at = next_wake;
}

abbrev table : List Monitor
table =
    site 1 MonitorMode.monitor (some 5) false none none
    ∷ site 2 MonitorMode.monitor_and_keep_alive (some 4) true (some 30) (some 9)
    ∷ site 3 MonitorMode.monitor (some 99) false none none
    ∷ []

-- The broker accepts one call and then refuses.
abbrev flaky : Outside
flaky = record { locked = λ b i. false; accepts = λ k. k == 0; recovers = true }

abbrev steady : Outside
steady = record { locked = λ b i. false; accepts = λ k. true; recovers = true }

program : Unit {0}
unfolding sweep_due_monitors run_batches run_batch select_due claim_rows dispatch reset_rows recover
    monitoring_lane keep_alive_lane update_monitor_row
program = tt

-- Monitor 2 is the first by its schedule and is sent; monitor 1 is refused and stays due.
flaky_sweep :
    let (checked, pinged) = sweep_due_monitors flaky steady 10 500 20 table in
    (checked.queue ≡ record { task = ping_task; monitor_id = 2; expires = 60 } ∷ [])
    × (checked.enqueued ≡ 1)
    × (pinged.queue ≡ record { task = keep_alive_task; monitor_id = 2; expires = 30 } ∷ [])
unfolding program
flaky_sweep = (refl, refl, refl)

table-keys : (i : ℕ) → rows_with i table ≤ 1
table-keys i = ground arith

-- Row 7 has no interval and is the oldest; row 8 is due and is never reached.
abbrev stuck : List Monitor
stuck =
    site 7 MonitorMode.keep_alive none true none (some 1)
    ∷ site 8 MonitorMode.keep_alive none true (some 30) (some 2)
    ∷ []

stuck_batch :
    All
      (λ m. m.keep_alive_interval_seconds ≡ none)
      (select_due keep_alive_lane 10 (λ i. false) 1 stuck)
unfolding program
stuck_batch = (refl, tt)

keep_alive_starves_example :
    let pings = run_batches keep_alive_lane 10 steady 1 20 (start stuck) in
    (pings.table ≡ stuck) × (pings.queue ≡ [])
keep_alive_starves_example =
    keep_alive_starves steady 10 1 20 stuck (λ i. false) (λ b. refl) stuck_batch

abbrev result_at : ℕ → ℕ → PingResult
result_at id at = record {
  id = id;
  monitor_id = 1;
  check_type = "monitor";
  status_code = some 200;
  latency_ms = some 1200;
  error = none;
  checked_at = at;
}

abbrev history : List PingResult
history = result_at 1 5 ∷ result_at 2 90000000000 ∷ result_at 3 7 ∷ []

history_keys : (i : ℕ) → results_with i history ≤ 1
history_keys i = ground arith

prune_exact_example :
    prune_ping_results 86400000100 1 1 4 history
    ≡ some (
      expired_rows (cutoff_of 86400000100 1) history,
      fresh_rows (cutoff_of 86400000100 1) history,
    )
prune_exact_example = prune_exact 86400000100 1 1 4 history (omega arith) (omega arith) history_keys

prune_history :
    prune_ping_results 86400000100 1 1 4 history ≡ some (2, result_at 2 90000000000 ∷ [])
unfolding prune_ping_results prune_loop prune_batch batch_ids delete_ids
prune_history = refl
