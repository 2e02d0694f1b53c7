-- ===== src/Api/Overlap/Race.antt =====
-- Two updates of one row that overlap: each is validated against the row as it was read.
use ping_gaurd.Prelude.{ℕ, ◌≡◌, refl, true, false, none, some, arith}
use ping_gaurd.Enums.{monitor, keep_alive, monitor_and_keep_alive}
use ping_gaurd.Models.{Monitor, Database, ok, find_monitor, update_monitor_row}
use ping_gaurd.Models.Rows.{find_monitor-update}
use ping_gaurd.Schemas.{MonitorUpdate}
use ping_gaurd.Schemas.{given, validate_keep_alive_rules, validate_relative_path, validate_update}
use ping_gaurd.Api.{
  MonitorRead, read_monitor, get_or, reset_keep_alive, check_merged, assign, updated_row,
}
use ping_gaurd.Api.Overlap.{write_changed, update_over}
use ping_gaurd.Tasks.Sweep.{monitoring_lane, keep_alive_lane}

-- `{"keep_alive_enabled": false}`
abbrev pub switch_off_request : MonitorUpdate
switch_off_request = record {
  name = none;
  check_interval_seconds = none;
  mode = none;
  keep_alive_enabled = some (some false);
  keep_alive_interval_seconds = none;
  keep_alive_path = none;
}

-- `{"mode": "keep_alive"}`
abbrev pub keep_alive_only_request : MonitorUpdate
keep_alive_only_request = record {
  name = none;
  check_interval_seconds = none;
  mode = some (some keep_alive);
  keep_alive_enabled = none;
  keep_alive_interval_seconds = none;
  keep_alive_path = none;
}

switched_off : Monitor → Monitor
switched_off m = record m {
  mode = monitor;
  keep_alive_enabled = false;
  keep_alive_interval_seconds = none;
  keep_alive_path = none;
  next_keep_alive_at = none;
}

switched_off_lem :
    (now : ℕ) (m : Monitor)
    → m.mode ≡ monitor_and_keep_alive
    → updated_row now m switch_off_request ≡ ok (switched_off m)
unfolding updated_row reset_keep_alive check_merged assign validate_keep_alive_rules switched_off
switched_off_lem now m both = ground arith

kept_alive : ℕ → Monitor → Monitor
kept_alive now m = record m {
  mode = keep_alive;
  next_keep_alive_at = some (get_or m.next_keep_alive_at now);
}

kept_alive_lem :
    (now : ℕ) (m : Monitor)
    → m.keep_alive_enabled ≡ true
    → given m.keep_alive_interval_seconds ≡ true
    → updated_row now m keep_alive_only_request ≡ ok (kept_alive now m)
unfolding updated_row reset_keep_alive check_merged assign validate_keep_alive_rules kept_alive
kept_alive_lem now m on interval = ground arith

-- Of a monitor with both modes, one request switches keep-alive off and another, which has read the row
-- before that commit, asks for the mode `keep_alive` alone. Both pass validation and are answered with
-- success, and the row then has that mode with keep-alive off: it is never due, for a health check or a
-- keep-alive.
pub lost_monitor :
    (now later id : ℕ) (db : Database) {m : Monitor}
    → find_monitor id db.monitors ≡ some m
    → m.mode ≡ monitor_and_keep_alive
    → m.keep_alive_enabled ≡ true
    → given m.keep_alive_interval_seconds ≡ true
    → let first = update_over now id switch_off_request db db in
      let second = update_over later id keep_alive_only_request db first.1 in
      (validate_update switch_off_request ≡ ok tt)
      × (validate_update keep_alive_only_request ≡ ok tt)
      × (row : Monitor) × (find_monitor id second.1.monitors ≡ some row)
      × (second.0 ≡ ok (read_monitor row))
      × ((answer : MonitorRead) × (first.0 ≡ ok answer))
      × (row.mode ≡ keep_alive)
      × (row.keep_alive_enabled ≡ false)
      × ((t : ℕ) → (monitoring_lane.is_due t row ≡ false) × (keep_alive_lane.is_due t row ≡ false))
unfolding update_over write_changed switched_off kept_alive monitoring_lane keep_alive_lane
    validate_update validate_keep_alive_rules validate_relative_path
lost_monitor now later id db {m} found both on interval =
    let off = switched_off_lem now m both in
    let only = kept_alive_lem later m on interval in
    let between = write_changed m (switched_off m) in
    let after = write_changed m (kept_alive later m) in
    let found_between = find_monitor-update between (λ x. refl) id id db.monitors in
    let found_after =
      find_monitor-update after (λ x. refl) id id (update_monitor_row id between db.monitors) in
    (
      ground arith,
      ground arith,
      after (between m),
      ground arith,
      ground arith,
      (read_monitor (between m), ground arith),
      ground arith,
      ground arith,
      λ t. (ground arith, ground arith),
    )
