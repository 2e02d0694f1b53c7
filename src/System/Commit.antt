-- ===== src/System/Commit.antt =====
-- A property that the two writes of a session keep is kept by a whole probe task, on every way out.
use ping_gaurd.Prelude.{ℕ, ◌≡◌, true, inl, inr, Option, none, some, arith, subst, Bool-cases}
use ping_gaurd.Models.{Database, Result, Result-cases, ok, raise, update_monitor_row}
use ping_gaurd.Tasks.Probe.{
  Exception, soft_time_limit, Report, Change, set_changed, is_changed, Pending, NewResult,
  insert_result, has_monitor, flush_changed, flush_added, commit, get_sync_db, body, settle,
  recover_from_limit, Harness, Request, run_probe_task,
}

module _ (Q : Database → Type 0)
    (checked : (c : Change) (db : Database)
      → Q db
      → Q (record db { monitors = update_monitor_row c.current.id (set_changed c) db.monitors }))
    (inserted : (r : NewResult) (db : Database)
      → has_monitor r.monitor_id db ≡ true
      → Q db
      → Q (insert_result r db)) where
  flush_changed_keeps :
      (changed : Option Change) (db after : Database)
      → flush_changed changed db ≡ ok after
      → Q db
      → Q after
  unfolding flush_changed
  flush_changed_keeps none db after h s = let same : db ≡ after = ground arith in subst Q same s
  flush_changed_keeps (some c) db after h s = elim (Bool-cases (is_changed c)) [
    | inr unchanged ↦ let same : db ≡ after = ground arith in subst Q same s
    | inl changed ↦ elim (Bool-cases (has_monitor c.current.id db)) [
      | inr gone ↦ absurd (ground arith)
      | inl stored ↦
          let ms = update_monitor_row c.current.id (set_changed c) db.monitors in
          let same : record db { monitors = ms } ≡ after = ground arith in
          subst Q same (checked c db s)
    ]
  ]

  flush_added_keeps :
      (added : Option NewResult) (db after : Database)
      → flush_added added db ≡ ok after
      → Q db
      → Q after
  unfolding flush_added
  flush_added_keeps none db after h s = let same : db ≡ after = ground arith in subst Q same s
  flush_added_keeps (some r) db after h s = elim (Bool-cases (has_monitor r.monitor_id db)) [
    | inr gone ↦ absurd (ground arith)
    | inl there ↦
        let same : insert_result r db ≡ after = ground arith in subst Q same (inserted r db there s)
  ]

  commit_keeps : (p : Pending) (db after : Database) → commit p db ≡ ok after → Q db → Q after
  unfolding commit
  commit_keeps p db after h s = elim (Result-cases (flush_changed p.changed db)) [
    | inr (e, failed) ↦ absurd (ground arith)
    | inl (between, flushed) ↦
        flush_added_keeps p.added between after (ground arith)
          (flush_changed_keeps p.changed db between flushed s)
  ]

  get_sync_db_keeps :
      {A : Type 0} (r : Result Exception (A × Pending)) (db : Database)
      → Q db
      → Q (get_sync_db r db).1
  unfolding get_sync_db
  get_sync_db_keeps (raise e) db s = s
  get_sync_db_keeps (ok (a, p)) db s = elim (Result-cases (commit p db)) [
    | inr (e, failed) ↦ rw (failed, get_sync_db) s
    | inl (after, done) ↦ rw (done, get_sync_db) (commit_keeps p db after done s)
  ]

  settle_keeps :
      (h : Harness) (request : Request) (id : ℕ) (r : Result Exception (Report × Pending))
      (db : Database)
      → Q db
      → Q (settle h request id r db).1
  unfolding settle recover_from_limit
  settle_keeps h request id r db s =
      let after = get_sync_db r db in
      let kept = get_sync_db_keeps r db s in finished after.0 after.1 kept
    where
      finished :
          (result : Result Exception Report) (after : Database)
          → Q after
          → Q
              (elim result as (λ x. Result Exception Report × Database) [
                | raise soft_time_limit ↦ recover_from_limit h request id after
                | other ↦ (other, after)
              ]).1
      finished (ok report) after s = s
      finished (raise soft_time_limit) after s = get_sync_db_keeps _ after s
      finished (raise other) after s = s

  pub task_keeps :
      (h : Harness) (request : Request) (id : ℕ) (db seen : Database)
      → Q db
      → Q (run_probe_task h request id (λ before. db) seen).1
  unfolding run_probe_task
  task_keeps h request id db seen s = settle_keeps h request id (body h request id seen) db s
