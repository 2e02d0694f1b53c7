-- ===== src/Tasks/Probe/Effects.antt =====
-- The retries and the writes of the two probe tasks of app/tasks.py.
use ping_gaurd.Prelude.{
  Bool-cases, ℕ, ◌^◌, ◌<◌, ◌≡◌, ◌≢◌, refl, inl, inr, true, false, ◌&&◌, Text, String, Option, none,
  some, arith, ltb,
}
use ping_gaurd.Models.{Monitor, Database, Result, ok, raise}
use ping_gaurd.Tasks.Probe.{
  PingResultDto, ProbeCall, soft_time_limit_exceeded, Exception, retry, soft_time_limit, Report,
  settle, Pending, NewResult, Harness, Request, is_transient, insert_result, flush_changed,
  flush_added, commit, get_sync_db, record_probe, body, recover_from_limit, run_probe_task,
  execute_keep_alive,
}
use ping_gaurd.Tasks.Probe.Outcomes.{record_probe_retry, body_ind, commit_raises, recovery_raises}

module _ (h : Harness) (request : Request) (monitor_id : ℕ) where
  settle_retry :
      (done : Result Exception (Report × Pending)) (db : Database) (e : String) (c : ℕ)
      → (settle h request monitor_id done db).0 ≡ raise (retry e c)
      → done ≡ raise (retry e c)
  unfolding settle get_sync_db
  settle_retry (ok (r, p)) db e c eq = ground (
    arith,
    commit_raises p db (retry e c),
    commit_raises p db soft_time_limit,
    recovery_raises h request monitor_id db (retry e c),
  )
  settle_retry (raise x) db e c eq =
      ground (arith, recovery_raises h request monitor_id db (retry e c))

  -- A task asks for a retry only after a transient error, only while it has retries left, and with a
  -- countdown of 2 to the number of retries made.
  pub retry_exact :
      (others : Database → Database) (db : Database) (e : String) (c : ℕ)
      → (run_probe_task h request monitor_id others db).0 ≡ raise (retry e c)
      → (request.retries < request.max_retries)
        × (c ≡ 2 ^ request.retries)
        × (is_transient (some e) ≡ true)
  unfolding run_probe_task
  retry_exact others db e c eq =
      let asked = settle_retry (body h request monitor_id db) (others db) e c eq in
      body_ind h request monitor_id
        (λ r.
          r ≡ raise (retry e c)
          → (request.retries < request.max_retries)
            × (c ≡ 2 ^ request.retries)
            × (is_transient (some e) ≡ true))
        (λ x. cc) (λ reason x. cc) (λ x. cc) (λ m call x. cc) (λ x. cc) db
        (λ m dto here call x. record_probe_retry h request monitor_id m dto x) asked

  -- A session whose object was not changed leaves the table of monitors as it found it.
  settle_unchanged :
      (r : Report) (added : Option NewResult) (db : Database)
      → (settle h request monitor_id
          (ok (r, record { changed = none; added = added }))
          db).1.monitors
        ≡ db.monitors
  unfolding settle get_sync_db commit flush_changed flush_added insert_result
  settle_unchanged r none db = refl
  settle_unchanged r (some n) db = ground arith

  settle_raised :
      (x : Exception) (db : Database)
      → x ≢ soft_time_limit
      → (settle h request monitor_id (raise x) db).1.monitors ≡ db.monitors
  unfolding settle get_sync_db
  settle_raised x db ne = ground arith

  record_probe_unchanged :
      (m : Monitor) (dto : PingResultDto) (db : Database)
      → h.update_monitor_status ≡ false
      → (settle h request monitor_id (record_probe h request monitor_id m dto) db).1.monitors
        ≡ db.monitors
  unfolding record_probe settle recover_from_limit
  record_probe_unchanged m dto db keeps =
      elim (Bool-cases (is_transient dto.error_detail && ltb request.retries request.max_retries)) [
        | inl again ↦ rw (keeps, again) (settle_raised _ db (λ e. cc))
        | inr done ↦ rw (keeps, done) (settle_unchanged _ _ db)
      ]

-- Unless the soft time limit strikes, a keep-alive task leaves the table of monitors, and so every
-- health status, as the other transactions made it: on every exit, retries and errors included.
pub keep_alive_preserves_status :
    (robust_keep_alive : Text → Option Text → ProbeCall) (request : Request) (monitor_id : ℕ)
    (others : Database → Database) (db : Database)
    → ((url : Text) (path : Option Text) → robust_keep_alive url path ≢ soft_time_limit_exceeded)
    → (execute_keep_alive robust_keep_alive request monitor_id others db).1.monitors
      ≡ (others db).monitors
unfolding execute_keep_alive run_probe_task
keep_alive_preserves_status robust_keep_alive request monitor_id others db in_time =
    let h : Harness = record {
      probe = λ m. robust_keep_alive m.url m.keep_alive_path;
      check_type = "keep_alive";
      update_monitor_status = false;
      gatekeeper = some (λ m. (m.keep_alive_enabled, "keep_alive_disabled"));
    } in
    body_ind h request monitor_id
      (λ r. (settle h request monitor_id r (others db)).1.monitors ≡ (others db).monitors)
      (settle_unchanged h request monitor_id _ none (others db))
      (λ reason. settle_unchanged h request monitor_id _ none (others db))
      (settle_unchanged h request monitor_id _ none (others db))
      (λ m call. absurd (in_time m.url m.keep_alive_path call))
      (settle_raised h request monitor_id _ (others db) (λ e. cc)) db
      (λ m dto here call. record_probe_unchanged h request monitor_id m dto (others db) refl)
