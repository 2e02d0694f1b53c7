-- ===== src/System/Reach.antt =====
-- What holds after any run of the program, and what a sweep does then.
use ping_gaurd.Prelude.{
  ℕ, suc, ◌+◌, ◌≡◌, refl, sym, subst, true, not, Bool, ap, ◌&&◌, inl, inr, some, List, [], ◌∷◌, All,
  arith, length, Option-cases, Bool-cases, All-take, All-sort, select,
}
use ping_gaurd.Models.{Monitor, Database, ok}
use ping_gaurd.Net.Resolve.{UrlLibrary}
use ping_gaurd.Schemas.{validate_create, validate_update}
use ping_gaurd.Api.{Response, MonitorRead}
use ping_gaurd.Api.Overlap.Serial.{create_serial, update_serial, delete_serial}
use ping_gaurd.System.{
  Action, create, update, delete, claim, reset, ping, keep_alive, prune, lane_of, step, run,
  no_rows,
}
use ping_gaurd.System.Rows.{All_imp}
use ping_gaurd.System.Sound.{IsSound, IsSoundRow, create-IsSound, update-IsSound}
use ping_gaurd.System.Stored.{delete-IsStored}
use ping_gaurd.System.Tasks.{is_work, work-IsStored, set_next-IsSoundRow}
use ping_gaurd.Tasks.Probe.{set_changed}
use ping_gaurd.Tasks.Sweep.{
  sort_key, Outside, TaskName, ping_task, keep_alive_task, monitoring_lane, keep_alive_lane,
  select_due, claim_rows, sweep_due_monitors,
}
use ping_gaurd.Tasks.Sweep.Count.{due_with}
use ping_gaurd.Tasks.Sweep.Batch.{queued}
use ping_gaurd.Tasks.Sweep.Schedule.{IsPositive, sweep_conserves}

All_selected :
    (P : Monitor → Type 0) (p : Monitor → Bool) (ms : List Monitor)
    → All P ms
    → All (λ m. (p m ≡ true) × P m) (select p ms)
All_selected P p [] h = tt
All_selected P p (m ∷ ms) h = elim (Bool-cases (p m)) [
  | inl kept ↦ rw kept ((kept, h.0), All_selected P p ms h.1)
  | inr left_out ↦ rw left_out (All_selected P p ms h.1)
]

module _ (lib : UrlLibrary) (max_monitors : ℕ) where
  -- FastAPI validates the body of a request before its handler runs.
  abbrev pub IsAdmitted : Action → Type 0
  IsAdmitted (create now payload) = validate_create lib payload ≡ ok tt
  IsAdmitted (update now id payload) = validate_update payload ≡ ok tt
  IsAdmitted _ = Unit

  works :
      (a : Action) (db : Database)
      → is_work a ≡ true
      → IsSound max_monitors db
      → IsSound max_monitors (step max_monitors a db)
  unfolding set_changed
  works = work-IsStored IsSoundRow max_monitors max_monitors set_next-IsSoundRow (λ m row h. h)

  pub step-IsSound :
      (a : Action) (db : Database)
      → IsAdmitted a
      → IsSound max_monitors db
      → IsSound max_monitors (step max_monitors a db)
  unfolding step is_work
  step-IsSound (create now payload) db valid s =
      subst (λ (r : Response MonitorRead). IsSound max_monitors r.1)
        (sym (create_serial max_monitors now payload db))
        (create-IsSound max_monitors lib now payload db valid s)
  step-IsSound (update now id payload) db valid s =
      subst (λ (r : Response MonitorRead). IsSound max_monitors r.1)
        (sym (update_serial now id payload db (s.unique id)))
        (update-IsSound max_monitors now id payload db valid s)
  step-IsSound (delete id) db valid s =
      subst (λ (r : Response (Unit {0})). IsSound max_monitors r.1) (sym (delete_serial id db))
        (delete-IsStored IsSoundRow max_monitors id db s)
  step-IsSound (claim task now locked limit) db valid s =
      works (claim task now locked limit) db refl s
  step-IsSound (reset task now ids) db valid s = works (reset task now ids) db refl s
  step-IsSound (ping robust_ping request id seen) db valid s =
      works (ping robust_ping request id seen) db refl s
  step-IsSound (keep_alive robust_keep_alive request id seen) db valid s =
      works (keep_alive robust_keep_alive request id seen) db refl s
  step-IsSound (prune cutoff limit) db valid s = works (prune cutoff limit) db refl s

  run-IsSound_from :
      (actions : List Action) (db : Database)
      → All IsAdmitted actions
      → IsSound max_monitors db
      → IsSound max_monitors (run max_monitors actions db)
  unfolding run
  run-IsSound_from [] db valid s = s
  run-IsSound_from (a ∷ actions) db valid s =
      run-IsSound_from actions (step max_monitors a db) valid.1 (step-IsSound a db valid.0 s)

  pub no_rows-IsSound : IsSound max_monitors no_rows
  no_rows-IsSound = record {
    unique = λ i. omega arith;
    fresh = tt;
    rows = tt;
    few = omega arith;
    results_unique = λ i. omega arith;
    results_fresh = tt;
    owned = tt;
  }

  -- Where no handler is overlapped: after any sequence of transactions from the empty database, whose
  -- requests passed validation: keys
  -- of monitors and of results are unique and below their sequences; there are at most `max_monitors`
  -- monitors; each has intervals within bounds, keep-alive columns that fit its mode, and a time for
  -- the next keep-alive if enabled; and every result belongs to a monitor that is stored.
  pub run-IsSound :
      (actions : List Action)
      → All IsAdmitted actions
      → IsSound max_monitors (run max_monitors actions no_rows)
  run-IsSound actions valid = run-IsSound_from actions no_rows valid no_rows-IsSound

  pub positive : (ms : List Monitor) → All IsSoundRow ms → All IsPositive ms
  positive ms h = All_imp ms (λ m sound. ground arith) h

  -- Where no handler is overlapped: after any sequence of transactions from the empty database, whose
  -- requests passed validation, a
  -- sweep whose recovery sessions commit loses no due work and does none twice: what was due for a
  -- health check or a keep-alive is queued once or still due, and not both, and nothing else is.
  pub run_sweep_conserves :
      (actions : List Action) (outside outside' : Outside) (now batch_size max_batches i : ℕ)
      → All IsAdmitted actions
      → outside.recovers ≡ true
      → outside'.recovers ≡ true
      → let table = (run max_monitors actions no_rows).monitors in
        let (checked, pinged) =
          sweep_due_monitors outside outside' now batch_size max_batches table in
        (queued i checked.queue + due_with monitoring_lane now i pinged.table
          ≡ due_with monitoring_lane now i table)
        × (queued i pinged.queue + due_with keep_alive_lane now i pinged.table
            ≡ due_with keep_alive_lane now i table)
  run_sweep_conserves actions outside outside' now batch_size max_batches i valid works works' =
      let s = run-IsSound actions valid in
      sweep_conserves outside outside' now batch_size max_batches _ i (s.unique i)
        (positive _ s.rows) works works'

  interval_given :
      (task : TaskName) (now : ℕ) (m : Monitor)
      → ((lane_of task).is_due now m ≡ true) × IsSoundRow m
      → (seconds : ℕ) × ((lane_of task).interval m ≡ some seconds)
  unfolding lane_of monitoring_lane keep_alive_lane
  interval_given ping_task now m h = (m.check_interval_seconds, refl)
  interval_given keep_alive_task now m (due, sound) =
      elim (Option-cases m.keep_alive_interval_seconds) [
        | inl missing ↦ absurd (ground arith)
        | inr (n, there) ↦ (n, ground arith)
      ]

  length-claimed :
      (task : TaskName) (now : ℕ) (rows ms : List Monitor)
      → All (λ m. (seconds : ℕ) × ((lane_of task).interval m ≡ some seconds)) rows
      → length (claim_rows (lane_of task) now rows ms).1 ≡ length rows
  unfolding claim_rows
  length-claimed task now [] ms h = refl
  length-claimed task now (m ∷ rows) ms ((seconds, e), h) =
      rw (e, claim_rows) (ap suc (length-claimed task now rows _ h))

  -- Where no handler is overlapped: after any sequence of transactions from the empty database, whose
  -- requests passed validation, a
  -- batch of a sweep passes over none of the rows that it has locked: it has one item for each.
  pub run_claims_all :
      (actions : List Action) (task : TaskName) (now : ℕ) (locked : ℕ → Bool) (batch_size : ℕ)
      → All IsAdmitted actions
      → let table = (run max_monitors actions no_rows).monitors in
        let rows = select_due (lane_of task) now locked batch_size table in
        length (claim_rows (lane_of task) now rows table).1 ≡ length rows
  unfolding select_due
  run_claims_all actions task now locked batch_size valid =
      let s = run-IsSound actions valid in
      let table = (run max_monitors actions no_rows).monitors in
      let lane = lane_of task in
      let chosen = λ (m : Monitor). lane.is_due now m && not (locked m.id) in
      let key = λ (m : Monitor). sort_key (lane.due_at m) in
      let due_rows = All_selected IsSoundRow chosen table s.rows in
      let sorted = All-sort _ key _ due_rows in
      let batch = All-take _ batch_size _ sorted in
      length-claimed task now _ _ (
        All_imp (select_due lane now locked batch_size table)
          (λ m h. interval_given task now m (ground arith, h.1)) batch)
