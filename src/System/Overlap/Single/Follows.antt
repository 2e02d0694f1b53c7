-- ===== src/System/Overlap/Single/Follows.antt =====
-- A row while a handler holds an earlier state of it, and only the worker commits.
use ping_gaurd.Prelude.{
  ℕ, ◌≤◌, ◌≡◌, refl, Bool, true, not, ◌||◌, some, inl, inr, List, [], ◌∷◌, All, arith, text_eq,
  text_eq→eq, ◌==◌, Bool-cases,
}
use ping_gaurd.Models.{Monitor, ok, find_monitor}
use ping_gaurd.Models.Columns.{
  column, mode_eq, flag_eq, option_eq, mode_eq→eq, flag_eq→eq, number_eq→eq, option_eq→eq,
  column_loaded,
}
use ping_gaurd.Schemas.{MonitorUpdate, validate_update, given}
use ping_gaurd.Api.{updated_row}
use ping_gaurd.Api.Overlap.{write_changed}
use ping_gaurd.System.{lane_of}
use ping_gaurd.System.Rows.{All_imp, found_count}
use ping_gaurd.System.Sound.{IsSoundRow, updated-IsSoundRow}
use ping_gaurd.Tasks.Probe.{Change, set_changed}
use ping_gaurd.Tasks.Sweep.{TaskName, ping_task, keep_alive_task, monitoring_lane, keep_alive_lane}
use ping_gaurd.Tasks.Sweep.Count.{rows_with}

-- The columns that only a handler writes are those that were loaded, and keep-alive has not lost its
-- time.
abbrev pub Agrees : (loaded m : Monitor) → Type 0
Agrees loaded m =
    (m.check_interval_seconds ≡ loaded.check_interval_seconds)
    × (m.mode ≡ loaded.mode)
    × (m.keep_alive_enabled ≡ loaded.keep_alive_enabled)
    × (m.keep_alive_interval_seconds ≡ loaded.keep_alive_interval_seconds)
    × (m.keep_alive_path ≡ loaded.keep_alive_path)
    × ((not (given loaded.next_keep_alive_at) || given m.next_keep_alive_at) ≡ true)

-- A sound row that agrees with the row of its key in the table that was read.
abbrev pub IsFollowing : List Monitor → Monitor → Type 0
IsFollowing seen m =
    IsSoundRow m × ((loaded : Monitor) → find_monitor m.id seen ≡ some loaded → Agrees loaded m)

Agrees-self : (m : Monitor) → Agrees m m
Agrees-self m = (refl, refl, refl, refl, refl, ground arith)

-- Where keys are unique, each row is the one that is found under its key.
find_self :
    (ms : List Monitor)
    → ((i : ℕ) → rows_with i ms ≤ 1)
    → All (λ m. find_monitor m.id ms ≡ some m) ms
unfolding find_monitor
find_self [] unique = tt
find_self (x ∷ ms) unique = (
  ground arith,
  All_imp {P = λ m. find_monitor m.id ms ≡ some m} ms
      (λ m found. elim (Bool-cases (x.id == m.id)) [
        | inl same ↦
            let twice = unique m.id in
            let there = found_count m.id ms found in absurd (ground arith)
        | inr other ↦ ground arith
      ])
      (find_self ms (λ i. let u = unique i in ground arith)),
)

pub rows-IsFollowing :
    (ms : List Monitor)
    → ((i : ℕ) → rows_with i ms ≤ 1)
    → All IsSoundRow ms
    → All (IsFollowing ms) ms
rows-IsFollowing ms unique sound = both ms (find_self ms unique) sound
  where
    both :
        (xs : List Monitor)
        → All (λ m. find_monitor m.id ms ≡ some m) xs
        → All IsSoundRow xs
        → All (IsFollowing ms) xs
    both [] found sound = tt
    both (x ∷ xs) found sound = (
      (
        sound.0,
        λ loaded e. let same : loaded ≡ x = ground (arith, found.0) in rw same (Agrees-self x),
      ),
      both xs found.1 sound.1,
    )

-- The worker's writes do not touch the columns that must agree, and never take keep-alive's time.
pub set_next-IsFollowing :
    (seen : List Monitor) (task : TaskName) (t : ℕ) (m : Monitor)
    → IsFollowing seen m
    → IsFollowing seen ((lane_of task).set_next t m)
unfolding lane_of monitoring_lane keep_alive_lane
set_next-IsFollowing seen ping_task t m h = h
set_next-IsFollowing seen keep_alive_task t m h = (
  (h.0.0, h.0.1, h.0.2, ground arith),
  λ loaded found. let a = h.1 loaded found in (a.0, a.1, a.2, a.3, a.4, ground arith),
)

pub set_changed-IsFollowing :
    (seen : List Monitor) (c : Change) (m : Monitor)
    → IsFollowing seen m
    → IsFollowing seen (set_changed c m)
unfolding set_changed
set_changed-IsFollowing seen c m h = h

-- Over a row that agrees with the one that was loaded, an update has the columns that it validated.
pub write_changed-IsSoundRow :
    (now : ℕ) (loaded row m : Monitor) (payload : MonitorUpdate)
    → validate_update payload ≡ ok tt
    → updated_row now loaded payload ≡ ok row
    → IsSoundRow loaded
    → Agrees loaded m
    → IsSoundRow (write_changed loaded row m)
unfolding write_changed
write_changed-IsSoundRow now loaded row m payload valid updated sound same =
    let next = updated-IsSoundRow 0 now loaded row payload valid updated sound in
    let number = option_eq→eq ◌==◌ number_eq→eq in
    let text = option_eq→eq text_eq text_eq→eq in
    let seconds =
      column_loaded ◌==◌ number_eq→eq loaded.check_interval_seconds row.check_interval_seconds in
    let mode = column_loaded mode_eq mode_eq→eq loaded.mode row.mode in
    let enabled =
      column_loaded flag_eq flag_eq→eq loaded.keep_alive_enabled row.keep_alive_enabled in
    let interval =
      column_loaded (option_eq ◌==◌) number loaded.keep_alive_interval_seconds
        row.keep_alive_interval_seconds in
    let path = column_loaded (option_eq text_eq) text loaded.keep_alive_path row.keep_alive_path in
    let (s, d, e, i, p, t) = same in
    (
      rw (s, seconds) next.0,
      rw (i, interval) next.1,
      rw (d, mode, e, enabled, i, interval, p, path) next.2,
      rw (e, enabled) (timed row.keep_alive_enabled next.3 t),
    )
  where
    timed :
        (on : Bool)
        → (not on || given row.next_keep_alive_at) ≡ true
        → (not (given loaded.next_keep_alive_at) || given m.next_keep_alive_at) ≡ true
        → (not on
            || given (
                column
                  (option_eq ◌==◌)
                  loaded.next_keep_alive_at
                  row.next_keep_alive_at
                  m.next_keep_alive_at))
          ≡ true
    timed on set kept =
        elim (Bool-cases (option_eq ◌==◌ loaded.next_keep_alive_at row.next_keep_alive_at)) [
          | inl equal ↦
              let unchanged =
                option_eq→eq ◌==◌ number_eq→eq loaded.next_keep_alive_at row.next_keep_alive_at
                  equal in
              ground arith
          | inr other ↦ ground arith
        ]
