-- ===== src/System/Overlap/Single.antt =====
-- The program with one connection for its API: its handlers do not overlap each other, and the worker's
-- transactions come in between what a handler reads and its commit.
pub mod Follows
use ping_gaurd.Prelude.{
  ℕ, ◌<◌, ◌==◌, ◌≡◌, refl, true, false, zero, suc, some, inl, inr, List, [], ◌∷◌, All, arith,
  length, leb, ltb, Bool-cases, Option-cases,
}
use ping_gaurd.Models.{Monitor, Database, Result-cases, ok, find_monitor, update_monitor_row}
use ping_gaurd.Models.Rows.{find_monitor_id}
use ping_gaurd.Net.Resolve.{UrlLibrary}
use ping_gaurd.Schemas.{MonitorCreate, MonitorUpdate, validate_create, validate_update}
use ping_gaurd.Api.{new_monitor, updated_row}
use ping_gaurd.Api.Overlap.{write_changed, create_over, update_over, delete_over}
use ping_gaurd.System.{Action, step, no_rows}
use ping_gaurd.System.Rows.{All_imp, All-update_row, All_found, rows_with-update, length-update_row}
use ping_gaurd.System.Sound.{IsSound, IsSoundRow, created-IsSoundRow, new_monitor_id}
use ping_gaurd.System.Stored.{
  IsStored, rewrite-IsStored, insert_row-IsStored, delete_row-IsStored, rebound-IsStored,
}
use ping_gaurd.System.Tasks.{is_work, work-IsStored, set_next-IsSoundRow}
use ping_gaurd.System.Overlap.{
  WriteHandler, create_handler, update_handler, delete_handler, InFlight, Concurrent, Event, begin,
  finish, abandon, work, commit_handler, step_event, run_events, idle,
}
use ping_gaurd.System.Overlap.Bounded.{IsValid, IsAllowed}
use ping_gaurd.System.Overlap.Single.Follows.{
  IsFollowing, rows-IsFollowing, set_next-IsFollowing, set_changed-IsFollowing,
  write_changed-IsSoundRow,
}
use ping_gaurd.System.Reach.{no_rows-IsSound}
use ping_gaurd.Tasks.Probe.{Change, set_changed}

-- What holds of the database while a handler holds what it has read: no more rows, and rows that agree.
abbrev IsHeld : (seen db : Database) → Type 0
IsHeld seen db = IsStored (IsFollowing seen.monitors) (length seen.monitors) db

All-update_key :
    (P Q : Monitor → Type 0) (id : ℕ) (f : Monitor → Monitor) (ms : List Monitor)
    → ((m : Monitor) → m.id ≡ id → P m → Q (f m))
    → ((m : Monitor) → P m → Q m)
    → All P ms
    → All Q (update_monitor_row id f ms)
unfolding update_monitor_row
All-update_key P Q id f [] set keep h = tt
All-update_key P Q id f (m ∷ ms) set keep h = elim (Bool-cases (m.id == id)) [
  | inl mine ↦ rw mine (set m (ground arith) h.0, All-update_key P Q id f ms set keep h.1)
  | inr other ↦ rw other (keep m h.0, All-update_key P Q id f ms set keep h.1)
]

write_changed_id : (loaded row m : Monitor) → (write_changed loaded row m).id ≡ m.id
unfolding write_changed
write_changed_id loaded row m = refl

set_changed-IsSoundRow : (c : Change) (m : Monitor) → IsSoundRow m → IsSoundRow (set_changed c m)
unfolding set_changed
set_changed-IsSoundRow c m h = h

module _ (max_monitors : ℕ) where
  begin-IsHeld : (db : Database) → IsSound max_monitors db → IsHeld db db
  begin-IsHeld db s = record {
    unique = s.unique;
    fresh = s.fresh;
    rows = rows-IsFollowing db.monitors s.unique s.rows;
    few = omega arith;
    results_unique = s.results_unique;
    results_fresh = s.results_fresh;
    owned = s.owned;
  }

  IsHeld-IsSound :
      (seen db : Database) → IsSound max_monitors seen → IsHeld seen db → IsSound max_monitors db
  IsHeld-IsSound seen db was held = record {
    unique = held.unique;
    fresh = held.fresh;
    rows = All_imp {P = IsFollowing seen.monitors} db.monitors (λ m h. h.0) held.rows;
    few = omega (arith, held.few, was.few);
    results_unique = held.results_unique;
    results_fresh = held.results_fresh;
    owned = held.owned;
  }

  create-IsSound_held :
      (lib : UrlLibrary) (now : ℕ) (payload : MonitorCreate) (seen db : Database)
      → validate_create lib payload ≡ ok tt
      → IsSound max_monitors seen
      → IsHeld seen db
      → IsSound max_monitors (create_over max_monitors now payload seen db).1
  unfolding create_over
  create-IsSound_held lib now payload seen db valid was held =
      let s = IsHeld-IsSound seen db was held in
      elim (Bool-cases (leb max_monitors (length seen.monitors))) [
        | inl full ↦ rw full s
        | inr room ↦
            let created = new_monitor db.next_monitor_id now payload in
            let few = held.few in
            rw room (
              insert_row-IsStored IsSoundRow max_monitors db created s
                (new_monitor_id max_monitors db.next_monitor_id now payload)
                (created-IsSoundRow max_monitors lib db.next_monitor_id now payload valid)
                (ground arith))
      ]

  update-IsSound_held :
      (now id : ℕ) (payload : MonitorUpdate) (seen db : Database)
      → validate_update payload ≡ ok tt
      → IsSound max_monitors seen
      → IsHeld seen db
      → IsSound max_monitors (update_over now id payload seen db).1
  unfolding update_over
  update-IsSound_held now id payload seen db valid was held =
      let s = IsHeld-IsSound seen db was held in
      elim (Option-cases (find_monitor id seen.monitors)) [
        | inl missing ↦ rw (missing, update_over) s
        | inr (loaded, found) ↦ elim (Result-cases (updated_row now loaded payload)) [
          | inr (e, failed) ↦ rw (found, failed, update_over) s
          | inl (row, updated) ↦ elim (Option-cases (find_monitor id db.monitors)) [
            | inl gone ↦ rw (found, updated, gone, update_over) s
            | inr (current, there) ↦
                let f = write_changed loaded row in
                let same = write_changed_id loaded row in
                let sound = All_found IsSoundRow id seen.monitors found was.rows in
                rw (found, updated, there, update_over)
                  (rewrite-IsStored IsSoundRow max_monitors db (update_monitor_row id f db.monitors)
                    s (λ i. rows_with-update id i f db.monitors same)
                    (length-update_row id f db.monitors)
                    (All-update_row (λ m. m.id < db.next_monitor_id) id f db.monitors
                      (λ m h. omega (arith, same m)) s.fresh)
                    (All-update_key (IsFollowing seen.monitors) IsSoundRow id f db.monitors
                      (λ m key h.
                        let mine : find_monitor m.id seen.monitors ≡ some loaded = rw key found in
                        write_changed-IsSoundRow now loaded row m payload valid updated sound
                          (h.1 loaded mine))
                      (λ m h. h.0) held.rows))
          ]
        ]
      ]

  delete-IsSound_held :
      (id : ℕ) (seen db : Database)
      → IsSound max_monitors seen
      → IsHeld seen db
      → IsSound max_monitors (delete_over id seen db).1
  unfolding delete_over
  delete-IsSound_held id seen db was held =
      let s = IsHeld-IsSound seen db was held in
      elim (Option-cases (find_monitor id seen.monitors)) [
        | inl missing ↦ rw (missing, delete_over) s
        | inr (m, found) ↦
            rw (found, delete_over) (delete_row-IsStored IsSoundRow max_monitors id db s)
      ]

  commit-IsSound :
      (lib : UrlLibrary) (h : WriteHandler) (seen db : Database)
      → IsValid lib h
      → IsSound max_monitors seen
      → IsHeld seen db
      → IsSound max_monitors (commit_handler max_monitors h seen db)
  unfolding commit_handler
  commit-IsSound lib (create_handler now payload) seen db valid =
      create-IsSound_held lib now payload seen db valid
  commit-IsSound lib (update_handler now id payload) seen db valid =
      update-IsSound_held now id payload seen db valid
  commit-IsSound lib (delete_handler id) seen db valid = delete-IsSound_held id seen db

  -- No handler has begun, or one that holds an earlier state.
  abbrev IsSingle : UrlLibrary → List InFlight → Database → Type 0
  IsSingle lib [] db = IsSound max_monitors db
  IsSingle lib (o ∷ []) db = IsValid lib o.handler × IsSound max_monitors o.seen × IsHeld o.seen db
  IsSingle lib (o ∷ p ∷ os) db = true ≡ false

  single-IsSound :
      (lib : UrlLibrary) (os : List InFlight) (db : Database)
      → IsSingle lib os db
      → IsSound max_monitors db
  single-IsSound lib [] db i = i
  single-IsSound lib (o ∷ []) db i = IsHeld-IsSound o.seen db i.1 i.2
  single-IsSound lib (o ∷ p ∷ os) db i = absurd (cc)

  step-IsSingle :
      (lib : UrlLibrary) (e : Event) (os : List InFlight) (db : Database)
      → IsAllowed lib e
      → IsSingle lib os db
      → let after = step_event max_monitors 1 e (record { db = db; in_flight = os }) in
        IsSingle lib after.in_flight after.db
  unfolding step_event
  step-IsSingle lib (begin h) [] db valid i = (valid, i, begin-IsHeld db i)
  step-IsSingle lib (begin h) (o ∷ []) db valid i = i
  step-IsSingle lib (finish n) [] db valid i = i
  step-IsSingle lib (finish zero) (o ∷ []) db valid i =
      commit-IsSound lib o.handler o.seen db i.0 i.1 i.2
  step-IsSingle lib (finish (suc n)) (o ∷ []) db valid i = i
  step-IsSingle lib (abandon n) [] db valid i = i
  step-IsSingle lib (abandon zero) (o ∷ []) db valid i = IsHeld-IsSound o.seen db i.1 i.2
  step-IsSingle lib (abandon (suc n)) (o ∷ []) db valid i = i
  step-IsSingle lib (work a) [] db worker i =
      work-IsStored IsSoundRow max_monitors max_monitors set_next-IsSoundRow set_changed-IsSoundRow
        a db worker i
  step-IsSingle lib (work a) (o ∷ []) db worker i = (
    i.0,
    i.1,
    work-IsStored (IsFollowing o.seen.monitors) (length o.seen.monitors) max_monitors
        (set_next-IsFollowing o.seen.monitors) (set_changed-IsFollowing o.seen.monitors) a db worker
        i.2,
  )
  step-IsSingle lib e (o ∷ p ∷ os) db valid i = absurd (cc)

  run-IsSingle :
      (lib : UrlLibrary) (events : List Event) (s : Concurrent)
      → All (IsAllowed lib) events
      → IsSingle lib s.in_flight s.db
      → IsSound max_monitors (run_events max_monitors 1 events s).db
  unfolding run_events
  run-IsSingle lib [] s allowed i = single-IsSound lib s.in_flight s.db i
  run-IsSingle lib (e ∷ events) s allowed i =
      run-IsSingle lib events (step_event max_monitors 1 e s) allowed.1
        (step-IsSingle lib e s.in_flight s.db allowed.0 i)

  -- With one connection for the API, so that its handlers do not overlap each other, after any events
  -- from the empty database, the worker's transactions anywhere between what a handler reads and its
  -- commit, and with requests that passed validation: keys of monitors and of results are unique and
  -- below their sequences; there are at most `max_monitors` monitors; each has intervals within bounds,
  -- keep-alive columns that fit its mode, and a time for the next keep-alive if enabled; and every
  -- result belongs to a monitor that is stored.
  pub run_events-IsSound :
      (lib : UrlLibrary) (events : List Event)
      → All (IsAllowed lib) events
      → IsSound max_monitors (run_events max_monitors 1 events (idle no_rows)).db
  run_events-IsSound lib events allowed =
      run-IsSingle lib events (idle no_rows) allowed (no_rows-IsSound lib max_monitors)
