-- ===== src/Tasks/Probe.antt =====
-- `save_ping_result`, `_run_probe_task`, `execute_ping` and `execute_keep_alive` of app/tasks.py, with
-- the session of app/db.py in Session. The prober of app/net.py, the clock, the broker's
-- retry count and what other transactions commit while the probe runs are the arguments.
mod Session
pub mod Outcomes
pub mod Effects
pub mod Body
pub mod Writes
use mathlib.Core.Option
use ping_gaurd.Prelude.{
  ℕ, suc, ◌+◌, ◌^◌, ◌<◌, Bool, true, false, not, ◌&&◌, Text, String, Option, none, some, List, [],
  ◌∷◌, ◌++◌, ltb, ◌==◌, ◌==ˢ◌, str_in, if◌then◌else◌,
}
use ping_gaurd.Enums.{PingOutcome}
use ping_gaurd.Status.{outcome_to_status}
use ping_gaurd.Models.{
  Monitor, PingResult, Database, Result, ok, raise, find_monitor, update_monitor_row,
}
unfoldable pub use ping_gaurd.Tasks.Probe.Session.*

-- `PingResultDTO` of app/net.py. A latency is a number of hundredths of a millisecond.
pub record PingResultDto : Type 0 where
  pub outcome : PingOutcome
  pub status_code : Option ℕ
  pub latency_ms : Option ℕ
  pub error_detail : Option String
  pub original_url : Text
  pub final_url : Option Text

abbrev pub transient_errors : List String
transient_errors =
    "connect_timeout" ∷ "read_timeout" ∷ "write_timeout" ∷ "pool_timeout" ∷ "total_timeout"
    ∷ "connect_error" ∷ []

unfoldable pub is_transient : Option String → Bool
is_transient none = false
is_transient (some e) = str_in e transient_errors

-- What a call of the prober comes to: a result, the worker's soft time limit, or another exception.
pub data ProbeCall : Type 0 where
  returned : PingResultDto → ProbeCall
  soft_time_limit_exceeded : ProbeCall
  other_exception : ProbeCall

-- The dictionaries that a task returns.
pub data Report : Type 0 where
  not_found : (monitor_id : ℕ) → Report
  skipped : (reason : String) (monitor_id : ℕ) → Report
  missing_url : (monitor_id : ℕ) → Report
  completed :
      (monitor_id : ℕ) (check_type : String) (outcome : PingOutcome)
      (status_code latency_ms : Option ℕ) (error : Option String) (final_url : Option Text)
      → Report

-- The arguments of the harness that the two tasks choose.
pub record Harness : Type 0 where
  pub probe : Monitor → ProbeCall
  pub check_type : String
  pub update_monitor_status : Bool
  pub gatekeeper : Option (Monitor → Bool × String)

-- `task.request.retries` and `task.max_retries`, and the two readings of the clock.
pub record Request : Type 0 where
  pub retries : ℕ
  pub max_retries : ℕ
  pub now : ℕ
  pub now_after_limit : ℕ

-- `Exception(dto.error_detail)`
abbrev pub error_text : Option String → String
error_text none = "None"
error_text (some e) = e

module _ (h : Harness) (request : Request) (monitor_id : ℕ) where
  -- From the result of the probe to the end of the `with` block.
  unfoldable pub record_probe : Monitor → PingResultDto → Result Exception (Report × Pending)
  record_probe m dto =
      let changed =
        if h.update_monitor_status
        then some (record {
          loaded = m;
          current = record m {
            status = outcome_to_status dto.outcome;
            last_checked_at = some request.now;
          };
        })
        else none in
      let pending =
        save_ping_result monitor_id h.check_type dto.status_code dto.latency_ms dto.error_detail
          request.now (record { changed = changed; added = none }) in
      if is_transient dto.error_detail && ltb request.retries request.max_retries
      then raise (retry (error_text dto.error_detail) (2 ^ request.retries))
      else ok (
        completed monitor_id h.check_type dto.outcome dto.status_code dto.latency_ms
            dto.error_detail dto.final_url,
        pending,
      )

  unfoldable pub attempt : Monitor → Result Exception (Report × Pending)
  attempt m = elim m.url [
    | [] ↦ ok (missing_url monitor_id, nothing_pending)
    | c ∷ cs ↦ elim (h.probe m) [
      | returned dto ↦ record_probe m dto
      | soft_time_limit_exceeded ↦ raise soft_time_limit
      | other_exception ↦ raise probe_error
    ]
  ]

  unfoldable pub gate :
      Option (Monitor → Bool × String) → Monitor → Result Exception (Report × Pending)
  gate none m = attempt m
  gate (some g) m =
      let (allowed, reason) = g m in
      if allowed then attempt m else ok (skipped reason monitor_id, nothing_pending)

  unfoldable pub body : Database → Result Exception (Report × Pending)
  body db = elim (find_monitor monitor_id db.monitors) [
    | none ↦ ok (not_found monitor_id, nothing_pending)
    | some m ↦ gate h.gatekeeper m
  ]

  -- The handler of SoftTimeLimitExceeded.
  unfoldable pub recover_from_limit : Database → Result Exception Report × Database
  recover_from_limit db =
      let mark : Monitor → Change = λ mon. record {
        loaded = mon;
        current = record mon {
          status = outcome_to_status PingOutcome.down;
          last_checked_at = some request.now_after_limit;
        };
      } in
      let changed = Option.map mark (find_monitor monitor_id db.monitors) in
      get_sync_db
        (ok (
          completed monitor_id h.check_type PingOutcome.down none none (some "task_soft_time_limit")
              none,
          save_ping_result monitor_id h.check_type none none (some "task_soft_time_limit")
              request.now_after_limit (record { changed = changed; added = none }),
        ))
        db

  -- `try: with get_sync_db() ... except SoftTimeLimitExceeded`, over what the block's body came to and
  -- the database that it is committed to.
  unfoldable pub settle :
      Result Exception (Report × Pending) → Database → Result Exception Report × Database
  settle done db =
      let (result, after) = get_sync_db done db in
      elim result [ raise soft_time_limit ↦ recover_from_limit after | other ↦ (other, after) ]

  -- `others` is what other transactions commit between the read and the commit of the session.
  unfoldable pub run_probe_task :
      (Database → Database) → Database → Result Exception Report × Database
  run_probe_task others db = settle (body db) (others db)

-- `robust_ping` and `robust_keep_alive` are those of app/net.py.
unfoldable pub execute_ping :
    (robust_ping : Text → ProbeCall)
    → Request
    → ℕ
    → (Database → Database)
    → Database
    → Result Exception Report × Database
execute_ping robust_ping = run_probe_task (record {
  probe = λ m. robust_ping m.url;
  check_type = "monitor";
  update_monitor_status = true;
  gatekeeper = none;
})

unfoldable pub execute_keep_alive :
    (robust_keep_alive : Text → Option Text → ProbeCall)
    → Request
    → ℕ
    → (Database → Database)
    → Database
    → Result Exception Report × Database
execute_keep_alive robust_keep_alive = run_probe_task (record {
  probe = λ m. robust_keep_alive m.url m.keep_alive_path;
  check_type = "keep_alive";
  update_monitor_status = false;
  gatekeeper = some (λ m. (m.keep_alive_enabled, "keep_alive_disabled"));
})
