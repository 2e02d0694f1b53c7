-- ===== src/System/Overlap/Safe.antt =====
-- What overlapping handlers keep of the rows and of the keys.
use ping_gaurd.Prelude.{
  ℕ, ◌<◌, ◌≡◌, refl, ◌⊎◌, true, some, inl, inr, arith, length, leb, Bool-cases, Option-cases,
}
use ping_gaurd.Models.{Monitor, Database, Result-cases, ok, find_monitor, update_monitor_row}
use ping_gaurd.Net.Resolve.{UrlLibrary}
use ping_gaurd.Schemas.{MonitorCreate, MonitorUpdate, validate_create, validate_update}
use ping_gaurd.Api.{new_monitor, updated_row}
use ping_gaurd.Api.Updates.{update_exact}
use ping_gaurd.Api.Overlap.{write_changed, create_over, update_over, delete_over}
use ping_gaurd.System.{lane_of}
use ping_gaurd.System.Rows.{All-update_row, rows_with-update, length-update_row}
use ping_gaurd.System.Sound.{in_bounds}
use ping_gaurd.System.Stored.{IsStored, rewrite-IsStored, insert_row-IsStored, delete_row-IsStored}
use ping_gaurd.Tasks.Sweep.{TaskName, ping_task, keep_alive_task, monitoring_lane, keep_alive_lane}

-- A row with both intervals within bounds.
abbrev pub IsSafeRow : Monitor → Type 0
IsSafeRow m =
    (in_bounds (some m.check_interval_seconds) ≡ true)
    × (in_bounds m.keep_alive_interval_seconds ≡ true)

pub set_next-IsSafeRow :
    (task : TaskName) (t : ℕ) (m : Monitor) → IsSafeRow m → IsSafeRow ((lane_of task).set_next t m)
unfolding lane_of monitoring_lane keep_alive_lane
set_next-IsSafeRow ping_task t m h = h
set_next-IsSafeRow keep_alive_task t m h = h

-- The columns that an update writes come from its request, which was validated, whatever row it read.
write_changed-IsSafeRow :
    (now : ℕ) (loaded row current : Monitor) (payload : MonitorUpdate)
    → validate_update payload ≡ ok tt
    → updated_row now loaded payload ≡ ok row
    → IsSafeRow current
    → IsSafeRow (write_changed loaded row current)
unfolding validate_update write_changed
write_changed-IsSafeRow now loaded row current payload valid h safe =
    let exact = update_exact now loaded payload h in (ground arith, ground arith)

write_changed_id : (loaded row m : Monitor) → (write_changed loaded row m).id ≡ m.id
unfolding write_changed
write_changed_id loaded row m = refl

new_monitor-IsSafeRow :
    (lib : UrlLibrary) (id now : ℕ) (payload : MonitorCreate)
    → validate_create lib payload ≡ ok tt
    → (IsSafeRow (new_monitor id now payload)) × ((new_monitor id now payload).id ≡ id)
unfolding validate_create new_monitor
new_monitor-IsSafeRow lib id now payload h = ((ground arith, ground arith), refl)

module _ (bound : ℕ) where
  pub create_over-IsStored :
      (lib : UrlLibrary) (max_monitors now : ℕ) (payload : MonitorCreate) (seen db : Database)
      → validate_create lib payload ≡ ok tt
      → leb max_monitors (length seen.monitors) ≡ true ⊎ length db.monitors < bound
      → IsStored IsSafeRow bound db
      → IsStored IsSafeRow bound (create_over max_monitors now payload seen db).1
  unfolding create_over
  create_over-IsStored lib max_monitors now payload seen db valid room s =
      elim (Bool-cases (leb max_monitors (length seen.monitors))) [
        | inl full ↦ rw full s
        | inr below ↦
            let created = new_monitor db.next_monitor_id now payload in
            let row = new_monitor-IsSafeRow lib db.next_monitor_id now payload valid in
            rw below (insert_row-IsStored IsSafeRow bound db created s row.1 row.0 (ground arith))
      ]

  pub update_over-IsStored :
      (now id : ℕ) (payload : MonitorUpdate) (seen db : Database)
      → validate_update payload ≡ ok tt
      → IsStored IsSafeRow bound db
      → IsStored IsSafeRow bound (update_over now id payload seen db).1
  unfolding update_over
  update_over-IsStored now id payload seen db valid s =
      elim (Option-cases (find_monitor id seen.monitors)) [
        | inl missing ↦ rw (missing, update_over) s
        | inr (loaded, found) ↦ elim (Result-cases (updated_row now loaded payload)) [
          | inr (e, failed) ↦ rw (found, failed, update_over) s
          | inl (row, updated) ↦ elim (Option-cases (find_monitor id db.monitors)) [
            | inl gone ↦ rw (found, updated, gone, update_over) s
            | inr (current, there) ↦
                let f = write_changed loaded row in
                let same = write_changed_id loaded row in
                rw (found, updated, there, update_over)
                  (rewrite-IsStored IsSafeRow bound db (update_monitor_row id f db.monitors) s
                    (λ i. rows_with-update id i f db.monitors same)
                    (length-update_row id f db.monitors)
                    (All-update_row (λ m. m.id < db.next_monitor_id) id f db.monitors
                      (λ m h. omega (arith, same m)) s.fresh)
                    (All-update_row IsSafeRow id f db.monitors
                      (λ m. write_changed-IsSafeRow now loaded row m payload valid updated) s.rows))
          ]
        ]
      ]

  pub delete_over-IsStored :
      (id : ℕ) (seen db : Database)
      → IsStored IsSafeRow bound db
      → IsStored IsSafeRow bound (delete_over id seen db).1
  unfolding delete_over
  delete_over-IsStored id seen db s = elim (Option-cases (find_monitor id seen.monitors)) [
    | inl missing ↦ rw (missing, delete_over) s
    | inr (m, found) ↦ rw (found, delete_over) (delete_row-IsStored IsSafeRow bound id db s)
  ]
