-- ===== src/Tasks/Sweep.antt =====
-- `sweep_due_monitors` of app/tasks.py. Its two loops differ in the WHERE clause, the column of the
-- schedule and the row that is skipped: what differs is a `Lane`, the loop is written once.
pub mod Count
pub mod Batch
pub mod Loop
pub mod Frame
pub mod Schedule
pub mod Backlog
pub mod Progress
pub mod Sent
use ping_gaurd.Prelude.{
  ℕ, zero, suc, ◌+◌, ◌≤◌, Bool, true, false, not, ◌&&◌, ◌||◌, Option, none, some, List, [], ◌∷◌,
  ◌++◌, map, length, take, select, sort_by, leb, ◌==◌, if◌then◌else◌,
}
use ping_gaurd.Enums.{MonitorMode}
use ping_gaurd.Models.{Monitor, timedelta_seconds, update_monitor_row}

pub data TaskName : Type 0 where
  ping_task keep_alive_task : TaskName

-- A message of `apply_async(args=[monitor_id], expires=expires)` in the broker's queue.
pub record Message : Type 0 where
  pub task : TaskName
  pub monitor_id : ℕ
  pub expires : ℕ

pub record Lane : Type 0 where
  pub task : TaskName
  pub is_due : ℕ → Monitor → Bool
  pub due_at : Monitor → Option ℕ
  -- `none`: the row is skipped with a warning.
  pub interval : Monitor → Option ℕ
  pub set_next : ℕ → Monitor → Monitor

-- `column <= now` in SQL is not true of a NULL.
abbrev pub is_past : Option ℕ → ℕ → Bool
is_past none now = false
is_past (some t) now = leb t now

-- `ORDER BY column ASC` over rows whose column is not NULL.
abbrev pub sort_key : Option ℕ → ℕ
sort_key none = 0
sort_key (some t) = t

abbrev pub in_monitoring_modes : MonitorMode → Bool
in_monitoring_modes MonitorMode.monitor = true
in_monitoring_modes MonitorMode.keep_alive = false
in_monitoring_modes MonitorMode.monitor_and_keep_alive = true

abbrev pub in_keep_alive_modes : MonitorMode → Bool
in_keep_alive_modes MonitorMode.monitor = false
in_keep_alive_modes MonitorMode.keep_alive = true
in_keep_alive_modes MonitorMode.monitor_and_keep_alive = true

-- `not monitor.keep_alive_interval_seconds` holds of None and of 0.
abbrev pub truthy_interval : Option ℕ → Option ℕ
truthy_interval none = none
truthy_interval (some zero) = none
truthy_interval (some (suc n)) = some (suc n)

unfoldable pub monitoring_lane : Lane
monitoring_lane = record {
  task = ping_task;
  is_due = λ now m. in_monitoring_modes m.mode && is_past m.next_check_at now;
  due_at = λ m. m.next_check_at;
  interval = λ m. some m.check_interval_seconds;
  set_next = λ t m. record m { next_check_at = some t };
}

unfoldable pub keep_alive_lane : Lane
keep_alive_lane = record {
  task = keep_alive_task;
  is_due = λ now m.
      m.keep_alive_enabled && (in_keep_alive_modes m.mode && is_past m.next_keep_alive_at now);
  due_at = λ m. m.next_keep_alive_at;
  interval =
      λ m. if not m.keep_alive_enabled then none else truthy_interval m.keep_alive_interval_seconds;
  set_next = λ t m. record m { next_keep_alive_at = some t };
}

-- What the database and the broker decide during a sweep: the rows that another transaction has
-- locked at a batch, the calls of `apply_async` that the broker accepts, and whether the recovery
-- session can be committed.
pub record Outside : Type 0 where
  pub locked : ℕ → ℕ → Bool
  pub accepts : ℕ → Bool
  pub recovers : Bool

pub record Sweep : Type 0 where
  pub table : List Monitor
  pub queue : List Message
  pub enqueued : ℕ
  pub calls : ℕ
  pub batch : ℕ

abbrev pub contains : ℕ → List ℕ → Bool
contains i [] = false
contains i (j ∷ js) = i == j || contains i js

module _ (lane : Lane) (now : ℕ) where
  -- The query: WHERE, FOR UPDATE SKIP LOCKED, ORDER BY and LIMIT. Ties keep the table's order.
  unfoldable pub select_due : (ℕ → Bool) → ℕ → List Monitor → List Monitor
  select_due locked limit table = take limit (
      sort_by (λ m. sort_key (lane.due_at m))
        (select (λ m. lane.is_due now m && not (locked m.id)) table))

  -- The loop over the locked rows, up to the commit: the table and `batch_items`.
  unfoldable pub claim_rows : List Monitor → List Monitor → List Monitor × List (ℕ × ℕ)
  claim_rows [] table = (table, [])
  claim_rows (m ∷ ms) table = elim (lane.interval m) [
    | none ↦ claim_rows ms table
    | some seconds ↦
        let (after, items) =
          claim_rows ms
            (update_monitor_row m.id (lane.set_next (now + timedelta_seconds seconds)) table) in
        (after, (m.id, seconds) ∷ items)
  ]

  -- Recovery after a broker error: `UPDATE monitors SET next = now WHERE id IN failed_ids`.
  unfoldable pub reset_rows : List ℕ → List Monitor → List Monitor
  reset_rows ids = map (λ m. if contains m.id ids then lane.set_next now m else m)

  -- The loop over `batch_items`: the accepted items, and `failed_ids` from the first refusal on.
  unfoldable pub dispatch : (ℕ → Bool) → ℕ → List (ℕ × ℕ) → List (ℕ × ℕ) × List ℕ
  dispatch accepts k [] = ([], [])
  dispatch accepts k (item ∷ items) =
      let (sent, failed) = dispatch accepts (suc k) items in
      if accepts k then (item ∷ sent, failed) else ([], map (λ i. i.0) (item ∷ items))

  abbrev pub message : ℕ × ℕ → Message
  message (id, seconds) = record { task = lane.task; monitor_id = id; expires = seconds }

  module _ (outside : Outside) where
    unfoldable pub recover : List ℕ → List Monitor → List Monitor
    recover [] table = table
    recover (i ∷ is) table = if outside.recovers then reset_rows (i ∷ is) table else table

    -- One round of the loop; the flag says whether to `break`.
    unfoldable pub run_batch : List Monitor → Sweep → Sweep × Bool
    run_batch [] s = (s, true)
    run_batch (m ∷ ms) s =
        let (claimed, items) = claim_rows (m ∷ ms) s.table in
        let (sent, failed) = dispatch outside.accepts s.calls items in
        (
          record {
            table = recover failed claimed;
            queue = s.queue ++ map message sent;
            enqueued = s.enqueued + length sent;
            calls = s.calls + length items;
            batch = suc s.batch;
          },
          elim failed [ [] ↦ false | i ∷ is ↦ true ],
        )

    -- `for _ in range(m_batches)`
    unfoldable pub run_batches : ℕ → ℕ → Sweep → Sweep
    run_batches limit zero s = s
    run_batches limit (suc n) s =
        let (after, stop) = run_batch (select_due (outside.locked s.batch) limit s.table) s in
        let rest = run_batches limit n after in if stop then after else rest

abbrev pub start : List Monitor → Sweep
start table = record { table = table; queue = []; enqueued = 0; calls = 0; batch = 0 }

-- The whole task: health checks first, then keep-alive over the table that the first loop left.
unfoldable pub sweep_due_monitors :
    (outside outside' : Outside) (now batch_size max_batches : ℕ) → List Monitor → Sweep × Sweep
sweep_due_monitors outside outside' now batch_size max_batches table =
    let checks = run_batches monitoring_lane now outside batch_size max_batches (start table) in
    (checks, run_batches keep_alive_lane now outside' batch_size max_batches (start checks.table))
