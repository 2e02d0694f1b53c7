-- ===== src/System/Tasks.antt =====
-- The worker's transactions keep the database sound.
use ping_gaurd.Prelude.{
  ℕ, Bool, false, suc, ◌+◌, ◌<◌, ◌≡◌, refl, ◌∙◌, true, not, ◌&&◌, inl, inr, List, [], ◌∷◌, arith,
  length, length-map, count_p-append, count_p-select, count_p_mono, All-select, Option-cases, ◌==◌,
}
use ping_gaurd.Models.{Monitor, PingResult, Database, find_monitor, timedelta_seconds}
use ping_gaurd.System.{
  Action, create, update, delete, claim, reset, ping, keep_alive, prune, lane_of, step,
}
use ping_gaurd.System.Rows.{
  All-update_row, All-claim_rows, All-reset_rows, rows_with-update, length-update_row, All_imp,
  All_snoc, result_count-below, found_count,
}
use ping_gaurd.System.Sound.{IsSoundRow}
use ping_gaurd.System.Stored.{IsStored, rewrite-IsStored}
use ping_gaurd.System.Commit.{task_keeps}
use ping_gaurd.Tasks.Sweep.{
  TaskName, ping_task, keep_alive_task, Lane, monitoring_lane, keep_alive_lane, claim_rows,
  reset_rows, contains,
}
use ping_gaurd.Tasks.Sweep.Frame.{claim_rows_frame}
use ping_gaurd.Tasks.Sweep.Count.{rows_with}
use ping_gaurd.Tasks.Probe.{
  NewResult, insert_result, has_monitor, Change, set_changed, Harness, Request, run_probe_task,
  execute_ping, execute_keep_alive,
}
use ping_gaurd.Tasks.Probe.Body.{stored}
use ping_gaurd.Tasks.Prune.{prune_batch, batch_ids, delete_ids}

-- Writing the schedule's column keeps the key and the soundness of a row.
set_next_id : (task : TaskName) (t : ℕ) (m : Monitor) → ((lane_of task).set_next t m).id ≡ m.id
unfolding lane_of monitoring_lane keep_alive_lane
set_next_id ping_task t m = refl
set_next_id keep_alive_task t m = refl

pub set_next-IsSoundRow :
    (task : TaskName) (t : ℕ) (m : Monitor)
    → IsSoundRow m
    → IsSoundRow ((lane_of task).set_next t m)
unfolding lane_of monitoring_lane keep_alive_lane
set_next-IsSoundRow ping_task t m h = h
set_next-IsSoundRow keep_alive_task t m h = (h.0, h.1, h.2, ground arith)

module _ (lane : Lane) (now : ℕ) where
  pub length-claim_rows :
      (rows ms : List Monitor) → length (claim_rows lane now rows ms).0 ≡ length ms
  unfolding claim_rows
  length-claim_rows [] ms = refl
  length-claim_rows (m ∷ rows) ms = elim (Option-cases (lane.interval m)) [
    | inl skipped ↦ rw (skipped, claim_rows) (length-claim_rows rows ms)
    | inr (s, e) ↦
        rw (e, claim_rows)
          (length-claim_rows rows _
            ∙ length-update_row m.id (lane.set_next (now + timedelta_seconds s)) ms)
  ]

  pub length-reset_rows :
      (ids : List ℕ) (ms : List Monitor) → length (reset_rows lane now ids ms) ≡ length ms
  unfolding reset_rows
  length-reset_rows ids ms = length-map ms _

  rows_with-reset :
      (same : (t : ℕ) (m : Monitor) → (lane.set_next t m).id ≡ m.id)
      → (i : ℕ) (ids : List ℕ) (ms : List Monitor)
      → rows_with i (reset_rows lane now ids ms) ≡ rows_with i ms
  unfolding reset_rows
  rows_with-reset same i ids [] = refl
  rows_with-reset same i ids (m ∷ ms) = ground (arith, rows_with-reset same i ids ms, same now m)

module _ (R : Monitor → Type 0) (bound : ℕ)
    (keeps_next : (task : TaskName) (t : ℕ) (m : Monitor)
      → R m
      → R ((lane_of task).set_next t m)) where
  claim-IsStored :
      (task : TaskName) (now : ℕ) (rows : List Monitor) (db : Database)
      → IsStored R bound db
      → IsStored R bound
          (record db { monitors = (claim_rows (lane_of task) now rows db.monitors).0 })
  claim-IsStored task now rows db s =
      let lane = lane_of task in
      let same = set_next_id task in
      rewrite-IsStored R bound db _ s
        (λ i.
          claim_rows_frame lane now (λ m. m.id == i) (λ t m. ground (arith, same t m)) rows
            db.monitors)
        (length-claim_rows lane now rows db.monitors)
        (All-claim_rows (λ m. m.id < db.next_monitor_id) lane now (λ t m h. omega (arith, same t m))
          rows db.monitors s.fresh)
        (All-claim_rows R lane now (keeps_next task) rows db.monitors s.rows)

  reset-IsStored :
      (task : TaskName) (now : ℕ) (ids : List ℕ) (db : Database)
      → IsStored R bound db
      → IsStored R bound (record db { monitors = reset_rows (lane_of task) now ids db.monitors })
  reset-IsStored task now ids db s =
      let lane = lane_of task in
      let same = set_next_id task in
      rewrite-IsStored R bound db _ s (λ i. rows_with-reset lane now same i ids db.monitors)
        (length-reset_rows lane now ids db.monitors)
        (All-reset_rows (λ m. m.id < db.next_monitor_id) lane now (λ t m h. omega (arith, same t m))
          ids db.monitors s.fresh)
        (All-reset_rows R lane now (keeps_next task) ids db.monitors s.rows)

  has_monitor-count :
      (id : ℕ) (db : Database)
      → has_monitor id db ≡ true
      → IsStored R bound db
      → rows_with id db.monitors ≡ 1
  has_monitor-count id db h s = elim (Option-cases (find_monitor id db.monitors)) [
    | inl absent ↦ absurd (ground arith)
    | inr (m, found) ↦ omega (arith, found_count id db.monitors found, s.unique id)
  ]

  insert_result-IsStored :
      (r : NewResult) (db : Database)
      → has_monitor r.monitor_id db ≡ true
      → IsStored R bound db
      → IsStored R bound (insert_result r db)
  unfolding insert_result
  insert_result-IsStored r db there s =
      let added : PingResult = stored r db.next_result_id in
      let counts = λ (i : ℕ). count_p-append (λ x. x.id == i) db.results (added ∷ []) in
      let none_yet = result_count-below db.next_result_id db.results s.results_fresh in
      record {
        unique = s.unique;
        fresh = s.fresh;
        rows = s.rows;
        few = s.few;
        results_unique = λ i. ground (arith, counts i, s.results_unique i);
        results_fresh =
            All_snoc (λ x. x.id < suc db.next_result_id) db.results added
              (All_imp db.results (λ x h. omega arith) s.results_fresh) (omega arith);
        owned =
            All_snoc (λ x. rows_with x.monitor_id db.monitors ≡ 1) db.results added s.owned
              (has_monitor-count r.monitor_id db there s);
      }

  task-IsStored :
      ((c : Change) (row : Monitor) → R row → R (set_changed c row))
      → (h : Harness) (request : Request) (id : ℕ) (db seen : Database) → IsStored R bound db
      → IsStored R bound (run_probe_task h request id (λ before. db) seen).1
  unfolding set_changed
  task-IsStored keeps_check =
      task_keeps (IsStored R bound)
        (λ c db s.
          rewrite-IsStored R bound db _ s
            (λ i. rows_with-update c.current.id i (set_changed c) db.monitors (λ row. refl))
            (length-update_row c.current.id (set_changed c) db.monitors)
            (All-update_row (λ row. row.id < db.next_monitor_id) c.current.id (set_changed c)
              db.monitors (λ row h. h) s.fresh)
            (All-update_row R c.current.id (set_changed c) db.monitors (keeps_check c) s.rows))
        insert_result-IsStored

  prune-IsStored :
      (cutoff limit : ℕ) (db : Database)
      → IsStored R bound db
      → IsStored R bound (record db { results = prune_batch cutoff limit db.results })
  unfolding prune_batch delete_ids
  prune-IsStored cutoff limit db s =
      let kept = λ (r : PingResult). not (contains r.id (batch_ids cutoff limit db.results)) in
      record {
        unique = s.unique;
        fresh = s.fresh;
        rows = s.rows;
        few = s.few;
        results_unique = λ i. omega (
          arith,
          s.results_unique i,
          count_p-select (λ r. r.id == i) kept db.results,
          count_p_mono (λ r. r.id == i && kept r) (λ r. r.id == i) (λ r h. ground arith) db.results,
        );
        results_fresh = All-select (λ r. r.id < db.next_result_id) kept db.results s.results_fresh;
        owned = All-select (λ r. rows_with r.monitor_id db.monitors ≡ 1) kept db.results s.owned;
      }

-- The transactions of the worker.
unfoldable pub is_work : Action → Bool
is_work (create now payload) = false
is_work (update now id payload) = false
is_work (delete id) = false
is_work _ = true

-- What holds of each row, and is kept by the columns that the worker writes, is kept by the worker.
pub work-IsStored :
    (R : Monitor → Type 0) (bound max_monitors : ℕ)
    → ((task : TaskName) (t : ℕ) (m : Monitor) → R m → R ((lane_of task).set_next t m))
    → ((c : Change) (row : Monitor) → R row → R (set_changed c row))
    → (a : Action) (db : Database) → is_work a ≡ true
    → IsStored R bound db
    → IsStored R bound (step max_monitors a db)
unfolding is_work step execute_ping execute_keep_alive
work-IsStored R bound mx next checked (create now payload) db w s = absurd (ground arith)
work-IsStored R bound mx next checked (update now id payload) db w s = absurd (ground arith)
work-IsStored R bound mx next checked (delete id) db w s = absurd (ground arith)
work-IsStored R bound mx next checked (claim task now locked limit) db w s =
    claim-IsStored R bound next task now _ db s
work-IsStored R bound mx next checked (reset task now ids) db w s =
    reset-IsStored R bound next task now ids db s
work-IsStored R bound mx next checked (ping robust_ping request id seen) db w s =
    task-IsStored R bound next checked _ request id db seen s
work-IsStored R bound mx next checked (keep_alive robust_keep_alive request id seen) db w s =
    task-IsStored R bound next checked _ request id db seen s
work-IsStored R bound mx next checked (prune cutoff limit) db w s =
    prune-IsStored R bound next cutoff limit db s
