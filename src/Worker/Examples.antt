-- ===== src/Worker/Examples.antt =====
-- The theorems on the worker at the default settings.
use ping_gaurd.Prelude.{
  ℕ, ◌*◌, ◌<◌, ◌≡◌, refl, true, false, codes, none, some, List, [], ◌∷◌, All, length, arith,
}
use ping_gaurd.Config.Examples.{defaults, origins_only, strong, defaults_pass}
use ping_gaurd.Schemas.{
  validate_create, validate_keep_alive_rules, validate_relative_path,
  validate_url_scheme_and_safety,
}
use ping_gaurd.Enums.{PingOutcome}
use ping_gaurd.Api.{create_monitor, new_monitor}
use ping_gaurd.Api.Examples.{wanted}
use ping_gaurd.Tasks.Probe.{
  PingResultDto, returned, Request, execute_ping, run_probe_task, settle, get_sync_db, body, gate,
  attempt, record_probe, is_transient, commit, set_changed, flush_changed, flush_added,
  insert_result,
}
use ping_gaurd.Models.{find_monitor, update_monitor_row}
use ping_gaurd.Tasks.Sweep.{Outside, ping_task, monitoring_lane}
use ping_gaurd.Tasks.Sweep.Backlog.{backlog}
use ping_gaurd.Tasks.Sweep.Batch.{queued}
use ping_gaurd.Tasks.Prune.{cutoff_of}
use ping_gaurd.Tasks.Prune.Exact.{expired_rows, fresh_rows}
use ping_gaurd.System.{ping, step, no_rows}
use ping_gaurd.System.Tasks.{is_work}
use ping_gaurd.System.Overlap.{
  Event, create_handler, begin, finish, work, step_event, run_events, commit_handler, idle,
  pool_connections,
}
use ping_gaurd.System.Overlap.Bounded.{IsAllowed}
use ping_gaurd.Api.Overlap.{create_over}
use ping_gaurd.Status.{outcome_to_status}
use ping_gaurd.Worker.{scheduled_sweep, scheduled_prune}
use ping_gaurd.Tasks.Sweep.Count.{due_with}
use ping_gaurd.Worker.Deployed.{scheduled_sweep_complete, scheduled_prune_exact}

abbrev up_again : PingResultDto
up_again = record {
  outcome = PingOutcome.up;
  status_code = some 200;
  latency_ms = some 1200;
  error_detail = none;
  original_url = codes "https://shop.example/";
  final_url = none;
}

abbrev first_try : Request
first_try = record { retries = 0; max_retries = 3; now = 3000000; now_after_limit = 9000000 }

abbrev history : List Event
history =
    begin (create_handler 1000000 wanted)
    ∷ begin (create_handler 2000000 wanted)
    ∷ finish 0
    ∷ finish 0
    ∷ work
        (ping (λ url. returned up_again) first_try 1 (create_monitor 100 1000000 wanted no_rows).1)
    ∷ []

admitted : All (IsAllowed origins_only) history
unfolding validate_create validate_keep_alive_rules validate_relative_path
    validate_url_scheme_and_safety is_work
admitted = (refl, (refl, (tt, (tt, (refl, tt)))))

abbrev steady : Outside
steady = record { locked = λ batch i. false; accepts = λ call. true; recovers = true }

scheduled_sweep_complete_example :
    let table = (run_events 100 pool_connections history (idle no_rows)).db.monitors in
    let checks = (scheduled_sweep defaults steady steady 5000000 table).0 in
    (length checks.queue ≡ backlog monitoring_lane 5000000 table)
    × (backlog monitoring_lane 5000000 checks.table ≡ 0)
    × All (λ msg. msg.task ≡ ping_task) checks.queue
    × ((i : ℕ) → queued i checks.queue ≡ due_with monitoring_lane 5000000 i table)
scheduled_sweep_complete_example =
    scheduled_sweep_complete origins_only defaults pool_connections history steady steady 5000000
      (omega arith) admitted (λ k. refl) (λ b i. refl)

-- 31 days later.
abbrev later : ℕ
later = 31 * 86400000000

one_expired :
    expired_rows
      (cutoff_of later 30)
      (run_events 100 pool_connections history (idle no_rows)).db.results
    < 2
unfolding run_events step_event commit_handler create_over step create_monitor execute_ping
    run_probe_task settle get_sync_db body find_monitor new_monitor gate attempt record_probe
    is_transient commit flush_changed flush_added update_monitor_row insert_result outcome_to_status
    set_changed
one_expired = omega arith

scheduled_prune_exact_example :
    let results = (run_events 100 pool_connections history (idle no_rows)).db.results in
    let cutoff = cutoff_of later 30 in
    scheduled_prune defaults later 2 results
    ≡ some (expired_rows cutoff results, fresh_rows cutoff results)
scheduled_prune_exact_example =
    scheduled_prune_exact origins_only (λ t. t) strong defaults pool_connections history later 2
      defaults_pass admitted one_expired

abbrev last_try : ℕ → Request
last_try id = record { retries = 3; max_retries = 3; now = 5000500; now_after_limit = 9000000 }
