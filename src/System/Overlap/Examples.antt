-- ===== src/System/Overlap/Examples.antt =====
-- The theorems on overlapping handlers at concrete runs.
use ping_gaurd.Prelude.{
  ℕ, ◌+◌, ◌-◌, ◌≡◌, refl, Bool, true, false, Option, none, some, List, [], ◌∷◌, ◌++◌, All, length,
  arith, map,
}
use ping_gaurd.Enums.{keep_alive, monitor_and_keep_alive}
use ping_gaurd.Models.{Database, ok, find_monitor, update_monitor_row, Monitor}
use ping_gaurd.Schemas.{
  MonitorCreate, MonitorUpdate, validate_create, validate_update, validate_keep_alive_rules,
  validate_relative_path, validate_url_scheme_and_safety,
}
use ping_gaurd.Api.{
  MonitorRead, updated_row, reset_keep_alive, check_merged, assign, new_monitor, read_monitor,
}
use ping_gaurd.Api.Examples.{wanted, switch_off, no_addresses}
use ping_gaurd.Api.Overlap.{write_changed, create_over, update_over}
use ping_gaurd.Api.Overlap.Race.{switch_off_request, keep_alive_only_request, lost_monitor}
use ping_gaurd.System.{no_rows, claim}
use ping_gaurd.System.Tasks.{is_work}
use ping_gaurd.System.Stored.{IsStored}
use ping_gaurd.System.Overlap.{
  Event, create_handler, update_handler, delete_handler, begin, finish, abandon, work, run_events,
  step_event, commit_handler, idle, pool_connections,
}
use ping_gaurd.System.Overlap.Safe.{IsSafeRow}
use ping_gaurd.System.Overlap.Bounded.{IsAllowed}
use ping_gaurd.System.Overlap.Reach.{run_events-IsStored}
use ping_gaurd.System.Sound.{IsSound}
use ping_gaurd.System.Overlap.Single.{run_events-IsSound}
use ping_gaurd.System.Overlap.Limit.{all_begin, all_finish, overrun}
use ping_gaurd.Tasks.Sweep.{Outside, keep_alive_task, monitoring_lane, keep_alive_lane}

-- Two creates overlap, one more is abandoned; then an update and a delete of the same row.
abbrev busy : List Event
busy =
    begin (create_handler 1000000 wanted)
    ∷ begin (create_handler 1500000 wanted)
    ∷ finish 1
    ∷ work (claim keep_alive_task 2000000 (λ id. false) 500)
    ∷ begin (create_handler 2500000 wanted)
    ∷ finish 0
    ∷ abandon 0
    ∷ begin (update_handler 3000000 1 switch_off)
    ∷ begin (delete_handler 1)
    ∷ finish 0
    ∷ finish 0
    ∷ []

busy_allowed : All (IsAllowed no_addresses) busy
unfolding validate_create validate_update validate_keep_alive_rules validate_relative_path
    validate_url_scheme_and_safety is_work
busy_allowed = (refl, (refl, (tt, (refl, (refl, (tt, (tt, (refl, (tt, (tt, (tt, tt)))))))))))

run_events-IsStored_example :
    IsStored IsSafeRow
      (1 + pool_connections - 1)
      (run_events 1 pool_connections busy (idle no_rows)).db
run_events-IsStored_example = run_events-IsStored no_addresses 1 pool_connections busy busy_allowed

-- The worker claims the row between the SELECT and the commit of its update; a delete finds no
-- connection meanwhile.
abbrev one_at_a_time : List Event
one_at_a_time =
    begin (create_handler 1000000 wanted)
    ∷ finish 0
    ∷ begin (update_handler 3000000 1 switch_off)
    ∷ work (claim keep_alive_task 2000000 (λ id. false) 500)
    ∷ begin (delete_handler 1)
    ∷ finish 0
    ∷ []

one_at_a_time_allowed : All (IsAllowed no_addresses) one_at_a_time
unfolding validate_create validate_update validate_keep_alive_rules validate_relative_path
    validate_url_scheme_and_safety is_work
one_at_a_time_allowed = (refl, (tt, (refl, (refl, (tt, (tt, tt))))))

run_events-IsSound_example : IsSound 1 (run_events 1 1 one_at_a_time (idle no_rows)).db
run_events-IsSound_example = run_events-IsSound 1 no_addresses one_at_a_time one_at_a_time_allowed

abbrev working : Outside
working = record { locked = λ batch i. false; accepts = λ call. true; recovers = true }

abbrev three : List (ℕ × MonitorCreate)
three = (1000000, wanted) ∷ (1000001, wanted) ∷ (1000002, wanted) ∷ []

overrun_example :
    let after =
      run_events 1 pool_connections (all_begin three ++ all_finish three) (idle no_rows) in
    (length after.db.monitors ≡ length no_rows.monitors + length three) × (after.in_flight ≡ [])
overrun_example = overrun 1 pool_connections three no_rows (omega arith) (omega arith)

abbrev both_ways : MonitorCreate
both_ways = record wanted { mode = monitor_and_keep_alive }

abbrev two_modes : Database
two_modes = record {
  monitors = new_monitor 1 1000000 both_ways ∷ [];
  results = [];
  next_monitor_id = 2;
  next_result_id = 1;
}

lost_monitor_example :
    let first = update_over 3000000 1 switch_off_request two_modes two_modes in
    let second = update_over 3000001 1 keep_alive_only_request two_modes first.1 in
    (validate_update switch_off_request ≡ ok tt)
    × (validate_update keep_alive_only_request ≡ ok tt)
    × (row : Monitor) × (find_monitor 1 second.1.monitors ≡ some row)
    × (second.0 ≡ ok (read_monitor row))
    × ((answer : MonitorRead) × (first.0 ≡ ok answer))
    × (row.mode ≡ keep_alive)
    × (row.keep_alive_enabled ≡ false)
    × ((t : ℕ) → (monitoring_lane.is_due t row ≡ false) × (keep_alive_lane.is_due t row ≡ false))
unfolding new_monitor find_monitor
lost_monitor_example = lost_monitor 3000000 3000001 1 two_modes refl refl refl refl

abbrev longer_interval : MonitorUpdate
longer_interval = record {
  name = none;
  check_interval_seconds = none;
  mode = none;
  keep_alive_enabled = none;
  keep_alive_interval_seconds = some (some 600);
  keep_alive_path = none;
}

abbrev switch_on : MonitorUpdate
switch_on = record longer_interval {
  mode = some (some monitor_and_keep_alive);
  keep_alive_enabled = some (some true);
}

abbrev no_interval : MonitorUpdate
no_interval = record longer_interval { keep_alive_interval_seconds = some none }

-- Two pairs of updates that overlap.
abbrev two_races : List Event
two_races =
    begin (create_handler 1000000 both_ways)
    ∷ finish 0
    ∷ begin (update_handler 2000000 1 switch_off_request)
    ∷ begin (update_handler 2000000 1 longer_interval)
    ∷ finish 0
    ∷ finish 0
    ∷ begin (update_handler 3000000 1 switch_on)
    ∷ begin (update_handler 3000000 1 no_interval)
    ∷ finish 0
    ∷ finish 0
    ∷ []

two_races_allowed : All (IsAllowed no_addresses) two_races
unfolding validate_create validate_update validate_keep_alive_rules validate_relative_path
    validate_url_scheme_and_safety
two_races_allowed = (refl, (tt, (refl, (refl, (tt, (tt, (refl, (refl, (tt, (tt, tt))))))))))

-- The row then has keep-alive on and no interval.
two_races_starve :
    map {B = Bool × Option ℕ}
      (λ m. (m.keep_alive_enabled, m.keep_alive_interval_seconds))
      (run_events 5 pool_connections two_races (idle no_rows)).db.monitors
    ≡ (true, none) ∷ []
unfolding run_events step_event commit_handler create_over update_over new_monitor find_monitor
    update_monitor_row updated_row reset_keep_alive check_merged assign write_changed
    validate_keep_alive_rules
two_races_starve = refl
