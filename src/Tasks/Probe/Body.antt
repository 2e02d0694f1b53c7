-- ===== src/Tasks/Probe/Body.antt =====
-- The sessions of a task step by step: a body that calls its probe, the commit of a finished check, and
-- the recovery from the soft time limit.
use ping_gaurd.Prelude.{
  subst, ap, sym, ◌∙◌, ℕ, ◌≡◌, refl, true, false, ◌&&◌, Text, none, some, [], ◌∷◌, arith, ltb, List,
  ◌==◌, inl, inr, Bool-cases, if◌then◌else◌,
}
use ping_gaurd.Enums.{MonitorStatus, PingOutcome}
use ping_gaurd.Status.{outcome_to_status}
use ping_gaurd.Models.{
  Monitor, PingResult, Database, Result, ok, raise, find_monitor, update_monitor_row,
}
use ping_gaurd.Models.Columns.{
  status_eq, option_eq, status_eq→eq, number_eq→eq, option_eq→eq, column_loaded,
}
use ping_gaurd.Models.Rows.{find_monitor-update}
use ping_gaurd.Tasks.Probe.{
  other_exception, soft_time_limit, missing_url, nothing_pending, probe_error, Harness,
  PingResultDto, ProbeCall, returned, soft_time_limit_exceeded, Exception, Report, completed,
  Request, is_transient, NewResult, Change, set_changed, is_changed, Pending, insert_result,
  flush_changed, flush_added, commit, get_sync_db, record_probe, attempt, gate, body, settle,
  recover_from_limit,
}

-- The row that a result becomes under the next key of the sequence.
abbrev pub stored : NewResult → ℕ → PingResult
stored r id = record {
  id = id;
  monitor_id = r.monitor_id;
  check_type = r.check_type;
  status_code = r.status_code;
  latency_ms = r.latency_ms;
  error = r.error;
  checked_at = r.checked_at;
}

-- Status and time of the last check, and no other column.
abbrev pub checked : MonitorStatus → ℕ → Monitor → Monitor
checked status now row = record row { status = status; last_checked_at = some now }

-- What the UPDATE makes of a row that is stored: status and time of the last check, each where it is not
-- what the session had loaded, and no other column.
abbrev pub written : (loaded : Monitor) → MonitorStatus → ℕ → Monitor → Monitor
written loaded status now row = record row {
  status = if status_eq loaded.status status then row.status else status;
  last_checked_at =
      if option_eq ◌==◌ loaded.last_checked_at (some now) then row.last_checked_at else some now;
}

-- Over the row that was loaded, that is the status and the time.
pub written_loaded :
    (row : Monitor) (status : MonitorStatus) (now : ℕ)
    → written row status now row ≡ checked status now row
written_loaded row status now = ground (
  arith,
  column_loaded status_eq status_eq→eq row.status status,
  column_loaded (option_eq ◌==◌) (option_eq→eq ◌==◌ number_eq→eq) row.last_checked_at (some now),
)

update_row_same :
    (i : ℕ) (f : Monitor → Monitor) (ms : List Monitor)
    → ((m : Monitor) → f m ≡ m)
    → update_monitor_row i f ms ≡ ms
unfolding update_monitor_row
update_row_same i f [] same = refl
update_row_same i f (m ∷ ms) same = ground (arith, same m, update_row_same i f ms same)

-- A commit of a changed monitor, whose row is still there, and of a result of that monitor.
commit_both :
    (m row : Monitor) (status : MonitorStatus) (now : ℕ) (r : NewResult) (db : Database)
    → r.monitor_id ≡ m.id
    → find_monitor m.id db.monitors ≡ some row
    → let c : Change = record { loaded = m; current = checked status now m } in
      let p : Pending = record { changed = some c; added = some r } in
      commit p db
      ≡ ok (
          insert_result r
            (record db { monitors = update_monitor_row m.id (written m status now) db.monitors }))
unfolding commit flush_changed flush_added set_changed
commit_both m row status now r db its here =
    let c : Change = record { loaded = m; current = checked status now m } in
    let found = find_monitor-update (written m status now) (λ x. refl) m.id m.id db.monitors in
    elim (Bool-cases (is_changed c)) [
      | inl changed ↦ ground arith
      | inr unchanged ↦
          let same_status : status_eq m.status status ≡ true = ground arith in
          let same_time : option_eq ◌==◌ m.last_checked_at (some now) ≡ true = ground arith in
          let same =
            update_row_same m.id (written m status now) db.monitors
              (λ x. rw (same_status, same_time) refl) in
          ground arith
    ]

module _ (h : Harness) (request : Request) (monitor_id : ℕ) where
  attempt_calls :
      (m : Monitor) (c : ℕ) (cs : Text)
      → m.url ≡ c ∷ cs
      → attempt h request monitor_id m ≡ (elim (h.probe m) [
        | returned dto ↦ record_probe h request monitor_id m dto
        | soft_time_limit_exceeded ↦ raise soft_time_limit
        | other_exception ↦ raise probe_error
      ])
  unfolding attempt
  attempt_calls m c cs e =
      ap {B = Result Exception (Report × Pending)}
        (λ u. elim u [
          | [] ↦ ok (missing_url monitor_id, nothing_pending)
          | c ∷ cs ↦ elim (h.probe m) [
            | returned dto ↦ record_probe h request monitor_id m dto
            | soft_time_limit_exceeded ↦ raise soft_time_limit
            | other_exception ↦ raise probe_error
          ]
        ])
        e

  body_opens :
      (db : Database) (m : Monitor)
      → find_monitor monitor_id db.monitors ≡ some m
      → gate h request monitor_id h.gatekeeper m ≡ attempt h request monitor_id m
      → body h request monitor_id db ≡ attempt h request monitor_id m
  unfolding body
  body_opens db m here open_gate = rw (here, body) open_gate

  -- The monitor is found, let through and called: what the call comes to decides.
  pub body_calls :
      (db : Database) (m : Monitor) (c : ℕ) (cs : Text) (call : ProbeCall)
      → find_monitor monitor_id db.monitors ≡ some m
      → gate h request monitor_id h.gatekeeper m ≡ attempt h request monitor_id m
      → m.url ≡ c ∷ cs
      → h.probe m ≡ call
      → body h request monitor_id db ≡ (elim call [
        | returned dto ↦ record_probe h request monitor_id m dto
        | soft_time_limit_exceeded ↦ raise soft_time_limit
        | other_exception ↦ raise probe_error
      ])
  body_calls db m c cs call here open_gate address called =
      body_opens db m here open_gate
      ∙ attempt_calls m c cs address
      ∙ ap {B = Result Exception (Report × Pending)}
          (λ x. elim x [
            | returned dto ↦ record_probe h request monitor_id m dto
            | soft_time_limit_exceeded ↦ raise soft_time_limit
            | other_exception ↦ raise probe_error
          ])
          called

  -- The session of a finished health check, committed over the other transactions' work.
  pub settle_finished :
      (m row : Monitor) (dto : PingResultDto) (db : Database)
      → h.update_monitor_status ≡ true
      → m.id ≡ monitor_id
      → (is_transient dto.error_detail && ltb request.retries request.max_retries) ≡ false
      → find_monitor m.id db.monitors ≡ some row
      → settle h request monitor_id (record_probe h request monitor_id m dto) db ≡ (
        ok (
            completed monitor_id h.check_type dto.outcome dto.status_code dto.latency_ms
              dto.error_detail dto.final_url),
        insert_result
            (record {
              monitor_id = monitor_id;
              check_type = h.check_type;
              status_code = dto.status_code;
              latency_ms = dto.latency_ms;
              error = dto.error_detail;
              checked_at = request.now;
            })
            (record db {
              monitors =
                  update_monitor_row m.id
                    (written m (outcome_to_status dto.outcome) request.now)
                    db.monitors;
            }),
      )
  unfolding record_probe settle get_sync_db
  settle_finished m row dto db updates mine final here =
      let r : NewResult = record {
        monitor_id = monitor_id;
        check_type = h.check_type;
        status_code = dto.status_code;
        latency_ms = dto.latency_ms;
        error = dto.error_detail;
        checked_at = request.now;
      } in
      let written =
        commit_both m row (outcome_to_status dto.outcome) request.now r db (sym mine) here in
      ground arith

  -- The handler of the soft time limit, for a monitor that is still there.
  pub recover_lem :
      (row : Monitor) (db : Database)
      → row.id ≡ monitor_id
      → find_monitor monitor_id db.monitors ≡ some row
      → recover_from_limit h request monitor_id db ≡ (
        ok (
            completed monitor_id h.check_type PingOutcome.down none none
              (some "task_soft_time_limit")
              none),
        insert_result
            (record {
              monitor_id = monitor_id;
              check_type = h.check_type;
              status_code = none;
              latency_ms = none;
              error = some "task_soft_time_limit";
              checked_at = request.now_after_limit;
            })
            (record db {
              monitors =
                  update_monitor_row row.id
                    (written row MonitorStatus.down request.now_after_limit)
                    db.monitors;
            }),
      )
  unfolding recover_from_limit get_sync_db outcome_to_status
  recover_lem row db mine here =
      let r : NewResult = record {
        monitor_id = monitor_id;
        check_type = h.check_type;
        status_code = none;
        latency_ms = none;
        error = some "task_soft_time_limit";
        checked_at = request.now_after_limit;
      } in
      let written =
        commit_both row row MonitorStatus.down request.now_after_limit r db (sym mine)
          (subst (λ i. find_monitor i db.monitors ≡ some row) (sym mine) here) in
      ground arith
