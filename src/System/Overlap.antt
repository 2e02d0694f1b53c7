-- ===== src/System/Overlap.antt =====
-- The program with its handlers overlapping: a handler takes a connection of the pool of app/db.py for
-- its session, reads, and commits later, and the commits of other handlers and of the worker come in
-- between. A session that ends without a commit, by an exception or a cancelled request, is rolled back.
pub mod Safe
pub mod Positions
pub mod Bounded
pub mod Reach
pub mod Limit
pub mod Single
mod Examples
use ping_gaurd.Prelude.{
  ℕ, zero, suc, ◌+◌, Bool, Option, none, some, List, [], ◌∷◌, ◌++◌, length, ltb, if◌then◌else◌,
}
use ping_gaurd.Models.{Database}
use ping_gaurd.Schemas.{MonitorCreate, MonitorUpdate}
use ping_gaurd.Api.Overlap.{create_over, update_over, delete_over}
use ping_gaurd.System.{Action, step}

-- A request that a handler serves, with the time that the handler reads off the clock.
pub data WriteHandler : Type 0 where
  create_handler : (now : ℕ) → MonitorCreate → WriteHandler
  update_handler : (now id : ℕ) → MonitorUpdate → WriteHandler
  delete_handler : (id : ℕ) → WriteHandler

-- A handler that has read the database and has not ended.
pub record InFlight : Type 0 where
  pub handler : WriteHandler
  pub seen : Database

pub record Concurrent : Type 0 where
  pub db : Database
  pub in_flight : List InFlight

pub data Event : Type 0 where
  begin : WriteHandler → Event
  finish abandon : (position : ℕ) → Event
  work : Action → Event

abbrev pub nth_of : ℕ → List InFlight → Option InFlight
nth_of n [] = none
nth_of zero (o ∷ os) = some o
nth_of (suc n) (o ∷ os) = nth_of n os

abbrev pub without : ℕ → List InFlight → List InFlight
without n [] = []
without zero (o ∷ os) = os
without (suc n) (o ∷ os) = o ∷ without n os

-- `pool_size` and `max_overflow` of the engine of the API.
abbrev pub pool_connections : ℕ
pool_connections = 10 + 20

unfoldable pub commit_handler : (max_monitors : ℕ) → WriteHandler → (seen db : Database) → Database
commit_handler max_monitors (create_handler now payload) seen db =
    (create_over max_monitors now payload seen db).1
commit_handler max_monitors (update_handler now id payload) seen db =
    (update_over now id payload seen db).1
commit_handler max_monitors (delete_handler id) seen db = (delete_over id seen db).1

module _ (max_monitors connections : ℕ) where
  -- A handler that finds no connection free has not begun.
  unfoldable pub step_event : Event → Concurrent → Concurrent
  step_event (begin h) s =
      if ltb (length s.in_flight) connections
      then record s { in_flight = s.in_flight ++ record { handler = h; seen = s.db } ∷ [] }
      else s
  step_event (finish n) s = elim (nth_of n s.in_flight) [
    | none ↦ s
    | some o ↦ record {
      db = commit_handler max_monitors o.handler o.seen s.db;
      in_flight = without n s.in_flight;
    }
  ]
  step_event (abandon n) s = record s { in_flight = without n s.in_flight }
  step_event (work a) s = record s { db = step max_monitors a s.db }

  unfoldable pub run_events : List Event → Concurrent → Concurrent
  run_events [] s = s
  run_events (e ∷ events) s = run_events events (step_event e s)

abbrev pub idle : Database → Concurrent
idle db = record { db = db; in_flight = [] }
