-- ===== src/Tasks/Probe/Outcomes.antt =====
-- What a probe task of app/tasks.py leaves behind on each way out.
use ping_gaurd.Prelude.{
  ◌⊎◌, Bool-cases, Option-cases, ℕ, ◌^◌, ◌<◌, ◌≡◌, refl, inl, inr, Bool, true, false, String,
  Option, none, some, [], ◌∷◌, arith,
}
use ping_gaurd.Models.{Monitor, Database, Result, ok, raise, find_monitor}
use ping_gaurd.Tasks.Probe.{
  PingResultDto, ProbeCall, returned, soft_time_limit_exceeded, other_exception, Exception, retry,
  soft_time_limit, Report, not_found, skipped, missing_url, nothing_pending, probe_error,
  stale_data_error, integrity_error, settle, Pending, Harness, Request, is_transient, flush_changed,
  flush_added, commit, get_sync_db, record_probe, attempt, gate, body, recover_from_limit,
  run_probe_task,
}

get_sync_db_atomic :
    {A : Type 0} (r : Result Exception (A × Pending)) (db : Database) (e : Exception)
    → (get_sync_db r db).0 ≡ raise e
    → (get_sync_db r db).1 ≡ db
unfolding get_sync_db
get_sync_db_atomic (raise x) db e h = refl
get_sync_db_atomic (ok (a, p)) db e h = ground arith

is_transient-none : is_transient none ≡ false
unfolding is_transient
is_transient-none = refl

module _ (h : Harness) (request : Request) (monitor_id : ℕ) where
  pub record_probe_retry :
      (m : Monitor) (dto : PingResultDto) {e : String} {c : ℕ}
      → record_probe h request monitor_id m dto ≡ raise (retry e c)
      → (request.retries < request.max_retries)
        × (c ≡ 2 ^ request.retries)
        × (is_transient (some e) ≡ true)
  unfolding record_probe
  record_probe_retry m dto eq = ground (arith, is_transient-none)

  -- A property of every exit of the `with` block.
  module _ (Q : Result Exception (Report × Pending) → Type 0)
      (gone : Q (ok (not_found monitor_id, nothing_pending)))
      (blocked : (reason : String) → Q (ok (skipped reason monitor_id, nothing_pending)))
      (blank : Q (ok (missing_url monitor_id, nothing_pending)))
      (limit : (m : Monitor) → h.probe m ≡ soft_time_limit_exceeded → Q (raise soft_time_limit))
      (failed : Q (raise probe_error)) where
    attempt_ind :
        (m : Monitor)
        → ((dto : PingResultDto)
            → h.probe m ≡ returned dto
            → Q (record_probe h request monitor_id m dto))
        → Q (attempt h request monitor_id m)
    unfolding attempt
    attempt_ind m probed =
        (elim m.url
          as (λ u. Q (elim u [
            | [] ↦ ok (missing_url monitor_id, nothing_pending)
            | c ∷ cs ↦ elim (h.probe m) [
              | returned dto ↦ record_probe h request monitor_id m dto
              | soft_time_limit_exceeded ↦ raise soft_time_limit
              | other_exception ↦ raise probe_error
            ]
          ])) [ [] ↦ blank | c ∷ cs ↦ called (h.probe m) probed (limit m) ])
      where
        called :
            (call : ProbeCall)
            → ((dto : PingResultDto)
                → call ≡ returned dto
                → Q (record_probe h request monitor_id m dto))
            → (call ≡ soft_time_limit_exceeded → Q (raise soft_time_limit))
            → Q (elim call [
              | returned dto ↦ record_probe h request monitor_id m dto
              | soft_time_limit_exceeded ↦ raise soft_time_limit
              | other_exception ↦ raise probe_error
            ])
        called (returned dto) k l = k dto refl
        called soft_time_limit_exceeded k l = l refl
        called other_exception k l = failed

    gate_ind :
        (g : Option (Monitor → Bool × String)) (m : Monitor)
        → ((dto : PingResultDto)
            → h.probe m ≡ returned dto
            → Q (record_probe h request monitor_id m dto))
        → Q (gate h request monitor_id g m)
    unfolding gate
    gate_ind none m probed = attempt_ind m probed
    gate_ind (some g) m probed = elim (Bool-cases (g m).0) [
      | inl allowed ↦ rw allowed (attempt_ind m probed)
      | inr refused ↦ rw refused (blocked (g m).1)
    ]

    pub body_ind :
        (db : Database)
        → ((m : Monitor) (dto : PingResultDto)
            → find_monitor monitor_id db.monitors ≡ some m
            → h.probe m ≡ returned dto
            → Q (record_probe h request monitor_id m dto))
        → Q (body h request monitor_id db)
    unfolding body
    body_ind db probed = elim (Option-cases (find_monitor monitor_id db.monitors)) [
      | inl absent ↦ rw (absent, body) gone
      | inr (m, here) ↦ rw (here, body) (gate_ind h.gatekeeper m (λ dto. probed m dto here))
    ]

pub commit_raises :
    (p : Pending) (db : Database) (x : Exception)
    → commit p db ≡ raise x
    → (x ≡ stale_data_error) ⊎ (x ≡ integrity_error)
unfolding commit flush_changed flush_added
commit_raises p db x eq = ground arith

get_sync_db_raises :
    (a : Report) (p : Pending) (db : Database) (x : Exception)
    → (get_sync_db (ok (a, p)) db).0 ≡ raise x
    → ((x ≡ stale_data_error) ⊎ (x ≡ integrity_error)) × ((get_sync_db (ok (a, p)) db).1 ≡ db)
unfolding get_sync_db
get_sync_db_raises a p db x eq = ground (arith, commit_raises p db x)

module _ (h : Harness) (request : Request) (monitor_id : ℕ) where
  pub recovery_raises :
      (db : Database) (x : Exception)
      → (recover_from_limit h request monitor_id db).0 ≡ raise x
      → ((x ≡ stale_data_error) ⊎ (x ≡ integrity_error))
        × ((recover_from_limit h request monitor_id db).1 ≡ db)
  unfolding recover_from_limit
  recovery_raises db x eq = get_sync_db_raises _ _ db x eq

  -- An exception that leaves the task leaves the database as the other transactions made it.
  pub task_atomic :
      (others : Database → Database) (db : Database) (x : Exception)
      → (run_probe_task h request monitor_id others db).0 ≡ raise x
      → (run_probe_task h request monitor_id others db).1 ≡ others db
  unfolding run_probe_task settle
  task_atomic others db x eq =
      let done = body h request monitor_id db in
      ground (
        arith,
        get_sync_db_atomic done (others db) x,
        get_sync_db_atomic done (others db) soft_time_limit,
        recovery_raises (get_sync_db done (others db)).1 x,
      )
