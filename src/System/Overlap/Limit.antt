-- ===== src/System/Overlap/Limit.antt =====
-- The limit on monitors when creates overlap: the count is read before the insert, with no lock.
use ping_gaurd.Prelude.{
  ℕ, zero, suc, ◌+◌, ◌≤◌, ◌<◌, ◌≡◌, ◌∙◌, refl, List, [], ◌∷◌, ◌++◌, arith, length, length-append,
  ap,
}
use ping_gaurd.Models.{Database}
use ping_gaurd.Schemas.{MonitorCreate}
use ping_gaurd.Api.{new_monitor}
use ping_gaurd.Api.Overlap.{create_over}
use ping_gaurd.System.Overlap.{
  WriteHandler, create_handler, InFlight, Concurrent, Event, begin, finish, commit_handler,
  step_event, run_events, idle,
}

-- Each create reads, before any of them commits.
abbrev pub all_begin : List (ℕ × MonitorCreate) → List Event
all_begin [] = []
all_begin (r ∷ requests) = begin (create_handler r.0 r.1) ∷ all_begin requests

abbrev pub all_finish : List (ℕ × MonitorCreate) → List Event
all_finish [] = []
all_finish (r ∷ requests) = finish zero ∷ all_finish requests

abbrev reading : Database → List (ℕ × MonitorCreate) → List InFlight
reading db [] = []
reading db (r ∷ requests) =
    record { handler = create_handler r.0 r.1; seen = db } ∷ reading db requests

append_assoc :
    (xs : List InFlight) (x : InFlight) (ys : List InFlight) → (xs ++ x ∷ []) ++ ys ≡ xs ++ x ∷ ys
append_assoc [] x ys = refl
append_assoc (y ∷ xs) x ys = ap (λ (t : List InFlight). y ∷ t) (append_assoc xs x ys)

append_nil : (xs : List InFlight) → xs ++ [] ≡ xs
append_nil [] = refl
append_nil (y ∷ xs) = ap (λ (t : List InFlight). y ∷ t) (append_nil xs)

module _ (max_monitors connections : ℕ) where
  pub run_append :
      (es fs : List Event) (s : Concurrent)
      → run_events max_monitors connections (es ++ fs) s
        ≡ run_events max_monitors connections fs (run_events max_monitors connections es s)
  unfolding run_events
  run_append [] fs s = refl
  run_append (e ∷ es) fs s = run_append es fs (step_event max_monitors connections e s)

  begin_free :
      (h : WriteHandler) (s : Concurrent)
      → length s.in_flight < connections
      → step_event max_monitors connections (begin h) s
        ≡ record s { in_flight = s.in_flight ++ record { handler = h; seen = s.db } ∷ [] }
  unfolding step_event
  begin_free h s free = ground arith

  run-all_begin :
      (requests : List (ℕ × MonitorCreate)) (s : Concurrent)
      → length s.in_flight + length requests ≤ connections
      → run_events max_monitors connections (all_begin requests) s
        ≡ record s { in_flight = s.in_flight ++ reading s.db requests }
  unfolding run_events
  run-all_begin [] s free = ground (arith, append_nil s.in_flight)
  run-all_begin (r ∷ requests) s free =
      let h = create_handler r.0 r.1 in
      let one : InFlight = record { handler = h; seen = s.db } in
      let next : Concurrent = record s { in_flight = s.in_flight ++ one ∷ [] } in
      let longer = length-append s.in_flight (one ∷ []) in
      ap (run_events max_monitors connections (all_begin requests)) (begin_free h s (omega arith))
      ∙ run-all_begin requests next (omega (arith, longer))
      ∙ ap (λ (os : List InFlight). record s { in_flight = os })
          (append_assoc s.in_flight one (reading s.db requests))

  commit_longer :
      (now : ℕ) (payload : MonitorCreate) (seen db : Database)
      → length seen.monitors < max_monitors
      → length (commit_handler max_monitors (create_handler now payload) seen db).monitors
        ≡ suc (length db.monitors)
  unfolding commit_handler create_over
  commit_longer now payload seen db room =
      let created = new_monitor db.next_monitor_id now payload in
      ground (arith, length-append db.monitors (created ∷ []))

  run-all_finish :
      (requests : List (ℕ × MonitorCreate)) (seen db : Database)
      → length seen.monitors < max_monitors
      → let after =
          run_events max_monitors connections
            (all_finish requests)
            (record { db = db; in_flight = reading seen requests }) in
        (length after.db.monitors ≡ length db.monitors + length requests) × (after.in_flight ≡ [])
  unfolding run_events step_event
  run-all_finish [] seen db room = (omega arith, refl)
  run-all_finish (r ∷ requests) seen db room =
      let next = commit_handler max_monitors (create_handler r.0 r.1) seen db in
      let one = commit_longer r.0 r.1 seen db room in
      let rest = run-all_finish requests seen next room in (omega (arith, one, rest.0), rest.1)

  -- Creates that all read while there is room for one are all carried out: as many rows are added as
  -- there are requests, whatever the limit, if each finds a connection.
  pub overrun :
      (requests : List (ℕ × MonitorCreate)) (db : Database)
      → length db.monitors < max_monitors
      → length requests ≤ connections
      → let after =
          run_events max_monitors connections
            (all_begin requests ++ all_finish requests)
            (idle db) in
        (length after.db.monitors ≡ length db.monitors + length requests) × (after.in_flight ≡ [])
  overrun requests db room free =
      let start = run-all_begin requests (idle db) (omega arith) in
      let split = run_append (all_begin requests) (all_finish requests) (idle db) in
      let finish_all = run-all_finish requests db db room in rw (split, start) finish_all
