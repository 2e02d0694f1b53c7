-- ===== src/Tasks/Probe/Session.antt =====
-- `save_ping_result` of app/tasks.py, and the session that `get_sync_db` of app/db.py provides: what it
-- holds back, and its commit.
use ping_gaurd.Prelude.{
  ℕ, suc, Bool, true, false, String, Option, none, some, [], ◌∷◌, ◌++◌, not, ◌&&◌, ◌==◌,
  if◌then◌else◌,
}
use ping_gaurd.Models.Columns.{column, status_eq, option_eq}
use ping_gaurd.Models.{Monitor, Database, Result, ok, raise, find_monitor, update_monitor_row}

-- The exceptions that leave a task.
pub data Exception : Type 0 where
  retry : (error : String) (countdown : ℕ) → Exception
  integrity_error : Exception
  stale_data_error : Exception
  soft_time_limit : Exception
  probe_error : Exception

-- A row that `session.add` has put into the session, with no key yet.
pub record NewResult : Type 0 where
  pub monitor_id : ℕ
  pub check_type : String
  pub status_code : Option ℕ
  pub latency_ms : Option ℕ
  pub error : Option String
  pub checked_at : ℕ

-- A changed monitor: as it was loaded, and as it stands in the session.
pub record Change : Type 0 where
  pub loaded : Monitor
  pub current : Monitor

-- What a session holds back until its commit: the changed monitor, and the new result.
pub record Pending : Type 0 where
  pub changed : Option Change
  pub added : Option NewResult

abbrev pub nothing_pending : Pending
nothing_pending = record { changed = none; added = none }

abbrev pub save_ping_result :
    (monitor_id : ℕ) (check_type : String) (status_code latency_ms : Option ℕ)
    (error : Option String) (checked_at : ℕ)
    → Pending
    → Pending
save_ping_result monitor_id check_type status_code latency_ms error checked_at p = record p {
  added = some (record {
    monitor_id = monitor_id;
    check_type = check_type;
    status_code = status_code;
    latency_ms = latency_ms;
    error = error;
    checked_at = checked_at;
  });
}

unfoldable pub insert_result : NewResult → Database → Database
insert_result r db = record db {
  results =
      db.results
      ++ record {
        id = db.next_result_id;
        monitor_id = r.monitor_id;
        check_type = r.check_type;
        status_code = r.status_code;
        latency_ms = r.latency_ms;
        error = r.error;
        checked_at = r.checked_at;
      }
        ∷ [];
  next_result_id = suc db.next_result_id;
}

abbrev pub has_monitor : ℕ → Database → Bool
has_monitor id db = elim (find_monitor id db.monitors) [ none ↦ false | some m ↦ true ]

-- The UPDATE of a changed object writes its status and its time of the last check, each where it is not
-- the value that was loaded. Where both are, there is no UPDATE; one whose row is gone fails.
unfoldable pub set_changed : Change → Monitor → Monitor
set_changed c row = record row {
  status = column status_eq c.loaded.status c.current.status row.status;
  last_checked_at =
      column (option_eq ◌==◌) c.loaded.last_checked_at c.current.last_checked_at
        row.last_checked_at;
}

abbrev pub is_changed : Change → Bool
is_changed c = not (
    status_eq c.loaded.status c.current.status
    && option_eq ◌==◌ c.loaded.last_checked_at c.current.last_checked_at)

unfoldable pub flush_changed : Option Change → Database → Result Exception Database
flush_changed none db = ok db
flush_changed (some c) db =
    if not (is_changed c)
    then ok db
    else if has_monitor c.current.id db
    then ok (record db { monitors = update_monitor_row c.current.id (set_changed c) db.monitors })
    else raise stale_data_error

-- The INSERT of a result fails if its foreign key names no row.
unfoldable pub flush_added : Option NewResult → Database → Result Exception Database
flush_added none db = ok db
flush_added (some r) db =
    if has_monitor r.monitor_id db then ok (insert_result r db) else raise integrity_error

unfoldable pub commit : Pending → Database → Result Exception Database
commit p db = elim (flush_changed p.changed db) [
  | raise e ↦ raise e
  | ok db' ↦ flush_added p.added db'
]

-- `with get_sync_db() as session`: a body that returns is committed, one that raises rolled back.
unfoldable pub get_sync_db :
    {A : Type 0} → Result Exception (A × Pending) → Database → Result Exception A × Database
get_sync_db (raise e) db = (raise e, db)
get_sync_db (ok (a, p)) db = elim (commit p db) [ raise e ↦ (raise e, db) | ok db' ↦ (ok a, db') ]
