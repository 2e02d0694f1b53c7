-- ===== src/System/Refine.antt =====
-- The program implements the catalogue.
use ping_gaurd.Prelude.{
  ℕ, ◌+◌, ◌≡◌, refl, sym, subst, ◌∙◌, inl, inr, List, [], ◌∷◌, All, arith, length, Option-cases,
}
use ping_gaurd.Models.{Monitor, Database, find_monitor, update_monitor_row, timedelta_seconds}
use ping_gaurd.Net.Resolve.{UrlLibrary}
use ping_gaurd.Api.{Response, MonitorRead}
use ping_gaurd.Api.Overlap.Serial.{create_serial, update_serial, delete_serial}
use ping_gaurd.System.{
  Action, create, update, delete, claim, reset, ping, keep_alive, prune, lane_of, step, run,
  no_rows,
}
use ping_gaurd.System.Rows.{length-update_row}
use ping_gaurd.System.Represents.{
  configured, Represents, create-Represents, update-Represents, delete-Represents,
}
use ping_gaurd.System.Commit.{task_keeps}
use ping_gaurd.System.Tasks.{length-claim_rows, length-reset_rows}
use ping_gaurd.Tasks.Sweep.{
  TaskName, ping_task, keep_alive_task, monitoring_lane, keep_alive_lane, claim_rows, reset_rows,
}
use ping_gaurd.Tasks.Probe.{
  set_changed, Harness, Request, insert_result, run_probe_task, execute_ping, execute_keep_alive,
}
use ping_gaurd.System.Sound.{IsSound}
use ping_gaurd.System.Reach.{IsAdmitted, step-IsSound, no_rows-IsSound}
use ping_gaurd.System.Catalog.{config_of, Catalog, empty, act, replay}

module _ (max_monitors : ℕ) where
  -- A write to rows that keeps keys and configurations is invisible.
  rewrite-Represents :
      (db : Database) (ms : List Monitor) (c : Catalog)
      → ((j : ℕ) → configured j ms ≡ configured j db.monitors)
      → length ms ≡ length db.monitors
      → Represents db c
      → Represents (record db { monitors = ms }) c
  rewrite-Represents db ms c same size r = record {
    shows = λ j. r.shows j ∙ sym (same j);
    sized = r.sized ∙ sym size;
    numbered = r.numbered;
  }

  configured-update :
      (i j : ℕ) (f : Monitor → Monitor) (ms : List Monitor)
      → ((m : Monitor) → ((f m).id ≡ m.id) × (config_of (f m) ≡ config_of m))
      → configured j (update_monitor_row i f ms) ≡ configured j ms
  unfolding find_monitor update_monitor_row
  configured-update i j f [] same = refl
  configured-update i j f (m ∷ ms) same = ground (arith, configured-update i j f ms same, same m)

  set_next_config :
      (task : TaskName) (t : ℕ) (m : Monitor)
      → (((lane_of task).set_next t m).id ≡ m.id)
        × (config_of ((lane_of task).set_next t m) ≡ config_of m)
  unfolding lane_of monitoring_lane keep_alive_lane
  set_next_config ping_task t m = (refl, refl)
  set_next_config keep_alive_task t m = (refl, refl)

  configured-claim :
      (task : TaskName) (now j : ℕ) (rows ms : List Monitor)
      → configured j (claim_rows (lane_of task) now rows ms).0 ≡ configured j ms
  unfolding claim_rows
  configured-claim task now j [] ms = refl
  configured-claim task now j (m ∷ rows) ms = elim (Option-cases ((lane_of task).interval m)) [
    | inl skipped ↦ rw (skipped, claim_rows) (configured-claim task now j rows ms)
    | inr (s, e) ↦
        let next = now + timedelta_seconds s in
        rw (e, claim_rows)
          (configured-claim task now j rows _
            ∙ configured-update m.id j ((lane_of task).set_next next) ms
                (set_next_config task next))
  ]

  configured-reset :
      (task : TaskName) (now j : ℕ) (ids : List ℕ) (ms : List Monitor)
      → configured j (reset_rows (lane_of task) now ids ms) ≡ configured j ms
  unfolding reset_rows find_monitor
  configured-reset task now j ids [] = refl
  configured-reset task now j ids (m ∷ ms) =
      ground (arith, configured-reset task now j ids ms, set_next_config task now m)

  task-Represents :
      (h : Harness) (request : Request) (id : ℕ) (db seen : Database) (c : Catalog)
      → Represents db c
      → Represents (run_probe_task h request id (λ before. db) seen).1 c
  unfolding insert_result set_changed
  task-Represents h request id db seen c =
      task_keeps (λ db. Represents db c)
        (λ change db r.
          rewrite-Represents db _ c
            (λ j.
              configured-update change.current.id j (set_changed change) db.monitors
                (λ row. (refl, refl)))
            (length-update_row change.current.id (set_changed change) db.monitors) r)
        (λ x db there r. record { shows = r.shows; sized = r.sized; numbered = r.numbered }) h
        request id db seen

  step-Represents :
      (lib : UrlLibrary) (a : Action) (db : Database) (c : Catalog)
      → IsSound max_monitors db
      → Represents db c
      → Represents (step max_monitors a db) (act max_monitors a c)
  unfolding step act execute_ping execute_keep_alive
  step-Represents lib (create now payload) db c s r =
      subst (λ (x : Response MonitorRead). Represents x.1 (act max_monitors (create now payload) c))
        (sym (create_serial max_monitors now payload db))
        (create-Represents max_monitors now payload db c s r)
  step-Represents lib (update now id payload) db c s r =
      subst
        (λ (x : Response MonitorRead). Represents x.1 (act max_monitors (update now id payload) c))
        (sym (update_serial now id payload db (s.unique id)))
        (update-Represents max_monitors now id payload db c r)
  step-Represents lib (delete id) db c s r =
      subst (λ (x : Response (Unit {0})). Represents x.1 (act max_monitors (delete id) c))
        (sym (delete_serial id db)) (delete-Represents max_monitors id db c s r)
  step-Represents lib (claim task now locked limit) db c s r =
      rewrite-Represents db _ c (λ j. configured-claim task now j _ db.monitors)
        (length-claim_rows (lane_of task) now _ db.monitors) r
  step-Represents lib (reset task now ids) db c s r =
      rewrite-Represents db _ c (λ j. configured-reset task now j ids db.monitors)
        (length-reset_rows (lane_of task) now ids db.monitors) r
  step-Represents lib (ping robust_ping request id seen) db c s r =
      task-Represents _ request id db seen c r
  step-Represents lib (keep_alive robust_keep_alive request id seen) db c s r =
      task-Represents _ request id db seen c r
  step-Represents lib (prune cutoff limit) db c s r = record {
    shows = r.shows;
    sized = r.sized;
    numbered = r.numbered;
  }

  run-Represents_from :
      (lib : UrlLibrary) (actions : List Action) (db : Database) (c : Catalog)
      → All (IsAdmitted lib max_monitors) actions
      → IsSound max_monitors db
      → Represents db c
      → Represents (run max_monitors actions db) (replay max_monitors actions c)
  unfolding run replay
  run-Represents_from lib [] db c valid s r = r
  run-Represents_from lib (a ∷ actions) db c valid s r =
      run-Represents_from lib actions (step max_monitors a db) (act max_monitors a c) valid.1
        (step-IsSound lib max_monitors a db valid.0 s) (step-Represents lib a db c s r)

  -- Where no handler is overlapped: after any sequence of transactions from the empty database, whose
  -- requests passed validation, the database represents the catalogue that the same sequence makes of
  -- the empty one: under every key the same configuration, as many monitors, and the same next key.
  -- What the worker's transactions write shows nowhere in it.
  pub run-Represents :
      (lib : UrlLibrary) (actions : List Action)
      → All (IsAdmitted lib max_monitors) actions
      → Represents (run max_monitors actions no_rows) (replay max_monitors actions empty)
  unfolding find_monitor
  run-Represents lib actions valid =
      run-Represents_from lib actions no_rows empty valid (no_rows-IsSound lib max_monitors)
        (record { shows = λ j. refl; sized = refl; numbered = refl })
