-- ===== src/Tasks/Probe/Writes.antt =====
-- What a completed health check, and a task cut off by the soft time limit, write to the database.
use ping_gaurd.Prelude.{
  ap, ℕ, ◌≡◌, refl, true, false, ◌&&◌, Text, Option, none, some, [], ◌∷◌, ◌++◌, List, ==_refl,
  arith, ltb,
}
use ping_gaurd.Enums.{MonitorStatus, PingOutcome}
use ping_gaurd.Status.{outcome_to_status}
use ping_gaurd.Models.{Monitor, Database, ok, find_monitor, update_monitor_row}
use ping_gaurd.Models.Rows.{find_monitor_id, find_monitor-update}
use ping_gaurd.Tasks.Probe.{
  Harness, PingResultDto, ProbeCall, returned, soft_time_limit_exceeded, completed, Request,
  is_transient, insert_result, get_sync_db, gate, settle, run_probe_task, execute_ping,
  execute_keep_alive,
}
use ping_gaurd.Tasks.Probe.Body.{
  checked, written, written_loaded, body_calls, settle_finished, recover_lem,
}

-- A health check whose probe returns, and is not to be retried, while the monitor is still stored:
-- the task reports the result; it sets status and time of the last check in that monitor's row, each
-- where it is not what the task had loaded, else the row keeps what others committed; it changes no
-- other column and no other row; and it adds exactly one result row, under the next key and with the
-- probe's values.
pub ping_writes :
    (robust_ping : Text → ProbeCall) (request : Request) (monitor_id : ℕ)
    (others : Database → Database) (db : Database) (m row : Monitor) (c : ℕ) (cs : Text)
    (dto : PingResultDto)
    → find_monitor monitor_id db.monitors ≡ some m
    → m.url ≡ c ∷ cs
    → robust_ping m.url ≡ returned dto
    → (is_transient dto.error_detail && ltb request.retries request.max_retries) ≡ false
    → find_monitor monitor_id (others db).monitors ≡ some row
    → let (result, after) = execute_ping robust_ping request monitor_id others db in
      (result
        ≡ ok (
            completed monitor_id "monitor" dto.outcome dto.status_code dto.latency_ms
              dto.error_detail dto.final_url))
      × (after.monitors
          ≡ update_monitor_row monitor_id
              (written m (outcome_to_status dto.outcome) request.now)
              (others db).monitors)
      × (after.results
          ≡ (others db).results
            ++ record {
              id = (others db).next_result_id;
              monitor_id = monitor_id;
              check_type = "monitor";
              status_code = dto.status_code;
              latency_ms = dto.latency_ms;
              error = dto.error_detail;
              checked_at = request.now;
            }
              ∷ [])
unfolding execute_ping run_probe_task gate insert_result
ping_writes robust_ping request monitor_id others db m row c cs dto here address called final
      there =
    let h : Harness = record {
      probe = λ m. robust_ping m.url;
      check_type = "monitor";
      update_monitor_status = true;
      gatekeeper = none;
    } in
    let mine = find_monitor_id monitor_id db.monitors m here in
    let opened =
      body_calls h request monitor_id db m c cs (returned dto) here refl address called in
    let settled =
      settle_finished h request monitor_id m row dto (others db) refl mine final (rw mine there) in
    rw opened (
      rw settled (
        refl,
        ap
            (λ i.
              update_monitor_row i (written m (outcome_to_status dto.outcome) request.now)
                (others db).monitors)
            mine,
        refl,
      ))

found_written :
    (i : ℕ) (row : Monitor) (status : MonitorStatus) (now : ℕ) (ms : List Monitor)
    → row.id ≡ i
    → find_monitor i ms ≡ some row
    → find_monitor i (update_monitor_row row.id (written row status now) ms)
      ≡ some (checked status now row)
found_written i row status now ms mine there =
    let found = find_monitor-update (written row status now) (λ x. refl) i i ms in
    let target = written_loaded row status now in ground (arith, ==_refl i)

-- The soft time limit during a keep-alive probe of an enabled monitor that is still stored: the task
-- marks the monitor `down`, whatever its health status was, and reports the time limit.
pub keep_alive_limit_sets_down :
    (robust_keep_alive : Text → Option Text → ProbeCall) (request : Request) (monitor_id : ℕ)
    (others : Database → Database) (db : Database) (m row : Monitor) (c : ℕ) (cs : Text)
    → find_monitor monitor_id db.monitors ≡ some m
    → m.keep_alive_enabled ≡ true
    → m.url ≡ c ∷ cs
    → robust_keep_alive m.url m.keep_alive_path ≡ soft_time_limit_exceeded
    → find_monitor monitor_id (others db).monitors ≡ some row
    → let (result, after) = execute_keep_alive robust_keep_alive request monitor_id others db in
      (result
        ≡ ok (
            completed monitor_id "keep_alive" PingOutcome.down none none
              (some "task_soft_time_limit")
              none))
      × (after.monitors
          ≡ update_monitor_row monitor_id
              (written row MonitorStatus.down request.now_after_limit)
              (others db).monitors)
      × (find_monitor monitor_id after.monitors
          ≡ some (checked MonitorStatus.down request.now_after_limit row))
unfolding execute_keep_alive run_probe_task gate settle get_sync_db insert_result
keep_alive_limit_sets_down robust_keep_alive request monitor_id others db m row c cs here enabled
      address called there =
    let h : Harness = record {
      probe = λ m. robust_keep_alive m.url m.keep_alive_path;
      check_type = "keep_alive";
      update_monitor_status = false;
      gatekeeper = some (λ m. (m.keep_alive_enabled, "keep_alive_disabled"));
    } in
    let mine = find_monitor_id monitor_id (others db).monitors row there in
    let opened =
      body_calls h request monitor_id db m c cs soft_time_limit_exceeded here (ground arith) address
        called in
    let f = written row MonitorStatus.down request.now_after_limit in
    let marked =
      found_written monitor_id row MonitorStatus.down request.now_after_limit (others db).monitors
        mine there in
    rw opened (
      rw (recover_lem h request monitor_id row (others db) mine there) (
        refl,
        ap
            (λ i.
              update_monitor_row i (written row MonitorStatus.down request.now_after_limit)
                (others db).monitors)
            mine,
        marked,
      ))
