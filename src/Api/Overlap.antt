-- ===== src/Api/Overlap.antt =====
-- The handlers of app/main.py that write, where other transactions commit between what a handler reads
-- and its own commit. The first SELECT of a handler takes no lock: `seen` is the database at that time,
-- and `db` the one at its commit. SQLAlchemy's UPDATE sets the columns whose value is not the loaded
-- one; an UPDATE or a refresh of a row that is gone raises. A commit and its refresh are one step.
pub mod Serial
pub mod Race
use ping_gaurd.Prelude.{
  ℕ, suc, Bool, true, false, Text, Option, none, some, List, [], ◌∷◌, ◌++◌, length, leb, ◌==◌,
  text_eq, if◌then◌else◌,
}
use ping_gaurd.Enums.{MonitorMode}
use ping_gaurd.Models.{
  Monitor, Database, Result, ok, raise, find_monitor, update_monitor_row, delete_monitor_row,
  cascade_results,
}
use ping_gaurd.Models.Columns.{column, mode_eq, flag_eq, option_eq}
use ping_gaurd.Schemas.{MonitorCreate, MonitorUpdate}
use ping_gaurd.Api.{
  MonitorRead, read_monitor, Response, not_found, limit_reached, server_error, new_monitor,
  updated_row,
}

-- The UPDATE of a row that `updated_row` has changed in the session, on the row that is stored.
unfoldable pub write_changed : (loaded row current : Monitor) → Monitor
write_changed loaded row current = record {
  id = current.id;
  name = column text_eq loaded.name row.name current.name;
  url = current.url;
  check_interval_seconds =
      column ◌==◌ loaded.check_interval_seconds row.check_interval_seconds
        current.check_interval_seconds;
  status = current.status;
  last_checked_at = current.last_checked_at;
  next_check_at = current.next_check_at;
  mode = column mode_eq loaded.mode row.mode current.mode;
  keep_alive_enabled =
      column flag_eq loaded.keep_alive_enabled row.keep_alive_enabled current.keep_alive_enabled;
  keep_alive_interval_seconds =
      column (option_eq ◌==◌) loaded.keep_alive_interval_seconds row.keep_alive_interval_seconds
        current.keep_alive_interval_seconds;
  keep_alive_path =
      column (option_eq text_eq) loaded.keep_alive_path row.keep_alive_path current.keep_alive_path;
  next_keep_alive_at =
      column (option_eq ◌==◌) loaded.next_keep_alive_at row.next_keep_alive_at
        current.next_keep_alive_at;
}

unfoldable pub create_over :
    (max_monitors now : ℕ) → MonitorCreate → (seen db : Database) → Response MonitorRead
create_over max_monitors now payload seen db =
    let created = new_monitor db.next_monitor_id now payload in
    if leb max_monitors (length seen.monitors) then (raise limit_reached, db) else (
      ok (read_monitor created),
      record {
        monitors = db.monitors ++ created ∷ [];
        results = db.results;
        next_monitor_id = suc db.next_monitor_id;
        next_result_id = db.next_result_id;
      },
    )

unfoldable pub update_over :
    (now id : ℕ) → MonitorUpdate → (seen db : Database) → Response MonitorRead
update_over now id payload seen db = elim (find_monitor id seen.monitors) [
  | none ↦ (raise not_found, db)
  | some loaded ↦ elim (updated_row now loaded payload) [
    | raise e ↦ (raise e, db)
    | ok row ↦ elim (find_monitor id db.monitors) [
      | none ↦ (raise server_error, db)
      | some current ↦ (
        ok (read_monitor (write_changed loaded row current)),
        record {
          monitors = update_monitor_row id (write_changed loaded row) db.monitors;
          results = db.results;
          next_monitor_id = db.next_monitor_id;
          next_result_id = db.next_result_id;
        },
      )
    ]
  ]
]

-- A DELETE that matches no row is only a warning.
unfoldable pub delete_over : (id : ℕ) → (seen db : Database) → Response (Unit {0})
delete_over id seen db = elim (find_monitor id seen.monitors) [
  | none ↦ (raise not_found, db)
  | some m ↦ (
    ok tt,
    record {
      monitors = delete_monitor_row id db.monitors;
      results = cascade_results id db.results;
      next_monitor_id = db.next_monitor_id;
      next_result_id = db.next_result_id;
    },
  )
]
