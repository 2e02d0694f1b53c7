-- ===== src/System/Overlap/Reach.antt =====
-- What holds after any interleaving of handlers that overlap with the transactions of the worker.
use ping_gaurd.Prelude.{ℕ, ◌+◌, ◌-◌, List, [], ◌∷◌, All, arith}
use ping_gaurd.Net.Resolve.{UrlLibrary}
use ping_gaurd.System.{no_rows}
use ping_gaurd.System.Stored.{IsStored}
use ping_gaurd.System.Overlap.{Concurrent, Event, begin, finish, abandon, work, run_events, idle}
use ping_gaurd.System.Overlap.Safe.{IsSafeRow}
use ping_gaurd.System.Overlap.Bounded.{
  IsAllowed, IsBounded, begin-IsBounded, finish-IsBounded, abandon-IsBounded, work-IsBounded,
}

module _ (lib : UrlLibrary) (max_monitors connections : ℕ) where
  run_events-IsBounded :
      (events : List Event) (s : Concurrent)
      → All (IsAllowed lib) events
      → IsBounded lib max_monitors connections s
      → IsBounded lib max_monitors connections (run_events max_monitors connections events s)
  unfolding run_events
  run_events-IsBounded [] s allowed i = i
  run_events-IsBounded (begin h ∷ events) s allowed i =
      run_events-IsBounded events _ allowed.1
        (begin-IsBounded lib max_monitors connections h s allowed.0 i)
  run_events-IsBounded (finish n ∷ events) s allowed i =
      run_events-IsBounded events _ allowed.1 (finish-IsBounded lib max_monitors connections n s i)
  run_events-IsBounded (abandon n ∷ events) s allowed i =
      run_events-IsBounded events _ allowed.1 (abandon-IsBounded lib max_monitors connections n s i)
  run_events-IsBounded (work a ∷ events) s allowed i =
      run_events-IsBounded events _ allowed.1
        (work-IsBounded lib max_monitors connections a s allowed.0 i)

  no_rows-IsBounded : IsBounded lib max_monitors connections (idle no_rows)
  no_rows-IsBounded = record {
    stored = record {
      unique = λ i. omega arith;
      fresh = tt;
      rows = tt;
      few = omega arith;
      results_unique = λ i. omega arith;
      results_fresh = tt;
      owned = tt;
    };
    budget = omega arith;
    held = omega arith;
    valid = tt;
  }

  -- After any interleaving, from the empty database, of handlers that overlap, whose requests passed
  -- validation, with the transactions of the worker: keys of monitors and of results are unique and
  -- below their sequences; both intervals of each monitor are within bounds; every result belongs to a
  -- monitor that is stored; and there are at most `max_monitors` monitors and one less than the
  -- connections more.
  pub run_events-IsStored :
      (events : List Event)
      → All (IsAllowed lib) events
      → IsStored IsSafeRow
          (max_monitors + connections - 1)
          (run_events max_monitors connections events (idle no_rows)).db
  run_events-IsStored events allowed =
      (run_events-IsBounded events (idle no_rows) allowed no_rows-IsBounded).stored
