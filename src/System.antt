-- ===== src/System.antt =====
-- The program's transactions on one database, in any order. Here a handler of the API reads and commits
-- with no other commit in between; System.Overlap has the handlers that others overlap.
-- A sweep and a pruning run commit batch by batch, so that the transactions of others may come between;
-- a probe task reads an earlier state of the database than it commits to.
pub mod Rows
pub mod Stored
pub mod Sound
pub mod Commit
pub mod Tasks
pub mod Reach
pub mod Catalog
pub mod Represents
pub mod Refine
pub mod Overlap
mod Examples
use ping_gaurd.Prelude.{ℕ, Bool, Text, Option, List, [], ◌∷◌}
use ping_gaurd.Models.{Database, Result}
use ping_gaurd.Schemas.{SchemaError, MonitorCreate, MonitorUpdate}
use ping_gaurd.Api.Overlap.{create_over, update_over, delete_over}
use ping_gaurd.Tasks.Sweep.{
  TaskName, ping_task, keep_alive_task, Lane, monitoring_lane, keep_alive_lane, select_due,
  claim_rows, reset_rows,
}
use ping_gaurd.Tasks.Probe.{ProbeCall, Request, execute_ping, execute_keep_alive}
use ping_gaurd.Tasks.Prune.{prune_batch}

-- One committed transaction, with what it read of its environment.
pub data Action : Type 0 where
  create : (now : ℕ) → MonitorCreate → Action
  update : (now id : ℕ) → MonitorUpdate → Action
  delete : (id : ℕ) → Action
  -- The claim of one batch of the sweep, and the recovery session of one.
  claim : TaskName → (now : ℕ) (locked : ℕ → Bool) (batch_size : ℕ) → Action
  reset : TaskName → (now : ℕ) → List ℕ → Action
  ping : (robust_ping : Text → ProbeCall) → Request → (id : ℕ) (seen : Database) → Action
  keep_alive :
      (robust_keep_alive : Text → Option Text → ProbeCall)
      → Request
      → (id : ℕ) (seen : Database) → Action
  prune : (cutoff batch_limit : ℕ) → Action

unfoldable pub lane_of : TaskName → Lane
lane_of ping_task = monitoring_lane
lane_of keep_alive_task = keep_alive_lane

module _ (max_monitors : ℕ) where
  unfoldable pub step : Action → Database → Database
  step (create now payload) db = (create_over max_monitors now payload db db).1
  step (update now id payload) db = (update_over now id payload db db).1
  step (delete id) db = (delete_over id db db).1
  step (claim task now locked limit) db =
      let rows = select_due (lane_of task) now locked limit db.monitors in
      record db { monitors = (claim_rows (lane_of task) now rows db.monitors).0 }
  step (reset task now ids) db = record db {
    monitors = reset_rows (lane_of task) now ids db.monitors;
  }
  step (ping robust_ping request id seen) db =
      (execute_ping robust_ping request id (λ before. db) seen).1
  step (keep_alive robust_keep_alive request id seen) db =
      (execute_keep_alive robust_keep_alive request id (λ before. db) seen).1
  step (prune cutoff limit) db = record db { results = prune_batch cutoff limit db.results }

  unfoldable pub run : List Action → Database → Database
  run [] db = db
  run (a ∷ actions) db = run actions (step a db)

-- Before the first request.
abbrev pub no_rows : Database
no_rows = record { monitors = []; results = []; next_monitor_id = 1; next_result_id = 1 }
