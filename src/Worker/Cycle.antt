-- ===== src/Worker/Cycle.antt =====
-- A scheduled sweep and the worker together: each message of the sweep is worked off by its task.
use ping_gaurd.Prelude.{
  ℕ, ◌+◌, ◌≤◌, ◌≡◌, ◌⊎◌, ◌∙◌, refl, Bool, true, false, not, ◌&&◌, Text, none, some, inl, inr, List,
  [], ◌∷◌, All, arith, ap, ltb, ◌==◌, ◌==ˢ◌, ==_refl, count_p, count_p-append, Bool-cases,
  Option-cases, if◌then◌else◌,
}
use ping_gaurd.Status.{outcome_to_status}
use ping_gaurd.Models.{Monitor, PingResult, Database, find_monitor}
use ping_gaurd.Models.Rows.{find_monitor-update}
use ping_gaurd.Tasks.Probe.{
  PingResultDto, returned, Request, is_transient, execute_ping, run_probe_task, body, gate, attempt,
  settle, get_sync_db, commit, flush_changed, flush_added,
}
use ping_gaurd.Tasks.Probe.Body.{written}
use ping_gaurd.Tasks.Probe.Writes.{ping_writes}
use ping_gaurd.Tasks.Sweep.{Message}
use ping_gaurd.Tasks.Sweep.Batch.{queued}
use ping_gaurd.Tasks.Sweep.Count.{rows_with}

abbrev pub has_url : Monitor → Bool
has_url m = elim m.url [ [] ↦ false | c ∷ cs ↦ true ]

-- The results of health checks of one monitor at one time.
abbrev pub checks_of : (i now : ℕ) → List PingResult → ℕ
checks_of i now =
    count_p (λ r. r.monitor_id == i && (r.check_type ==ˢ "monitor" && r.checked_at == now))

-- Can be probed.
abbrev pub can_check : ℕ → Database → Bool
can_check i db = elim (find_monitor i db.monitors) [ none ↦ false | some m ↦ has_url m ]

Text-cases : (t : Text) → (t ≡ []) ⊎ ((c : ℕ) × (cs : Text) × (t ≡ c ∷ cs))
Text-cases [] = inl refl
Text-cases (c ∷ cs) = inr (c, cs, refl)

module _ (robust_ping : Text → PingResultDto) (request : (monitor_id : ℕ) → Request) where
  -- The probe returns, and is not to be retried.
  abbrev pub IsFinal : Type 0
  IsFinal =
      (i : ℕ) (url : Text)
      → (is_transient (robust_ping url).error_detail
          && ltb (request i).retries (request i).max_retries)
        ≡ false

  -- The tasks of the messages, one after the other.
  unfoldable pub work_off : List Message → Database → Database
  work_off [] db = db
  work_off (msg ∷ queue) db =
      let i = msg.monitor_id in
      work_off queue
        (execute_ping (λ url. returned (robust_ping url)) (request i) i (λ before. db) db).1

  abbrev check : ℕ → Database → Database
  check j db = (execute_ping (λ url. returned (robust_ping url)) (request j) j (λ before. db) db).1

  check_missing : (j : ℕ) (db : Database) → can_check j db ≡ false → check j db ≡ db
  unfolding execute_ping run_probe_task body gate attempt settle get_sync_db commit flush_changed
      flush_added
  check_missing j db h = elim (Option-cases (find_monitor j db.monitors)) [
    | inl missing ↦ ground arith
    | inr (m, found) ↦ elim (Text-cases m.url) [
      | inl empty ↦ ground arith
      | inr (c, cs, e) ↦ absurd (ground arith)
    ]
  ]

  check_there :
      (i j : ℕ) (db : Database)
      → IsFinal
      → can_check j db ≡ true
      → (can_check i (check j db) ≡ can_check i db)
        × (checks_of i (request i).now (check j db).results
            ≡ checks_of i (request i).now db.results + (if j == i then 1 else 0))
  check_there i j db final h = elim (Option-cases (find_monitor j db.monitors)) [
    | inl missing ↦ absurd (ground arith)
    | inr (m, found) ↦ elim (Text-cases m.url) [
      | inl empty ↦ absurd (ground arith)
      | inr (c, cs, e) ↦
          let dto = robust_ping m.url in
          let (reported, columns, rows) =
            ping_writes (λ url. returned (robust_ping url)) (request j) j (λ before. db) db m m c cs
              dto found e refl (final j m.url) found in
          let f = written m (outcome_to_status dto.outcome) (request j).now in
          let added : PingResult = record {
            id = db.next_result_id;
            monitor_id = j;
            check_type = "monitor";
            status_code = dto.status_code;
            latency_ms = dto.latency_ms;
            error = dto.error_detail;
            checked_at = (request j).now;
          } in
          let one = λ (r : PingResult).
            r.monitor_id == i && (r.check_type ==ˢ "monitor" && r.checked_at == (request i).now) in
          (
            ground (arith, find_monitor-update f (λ x. refl) j i db.monitors),
            ap (checks_of i (request i).now) rows
                ∙ count_p-append one db.results (added ∷ [])
                ∙ ground (arith, ==_refl (request j).now),
          )
    ]
  ]

  -- A monitor that can be checked gets one result for each of its messages, and no other result is added.
  pub work_off-queued :
      (i : ℕ) (queue : List Message) (db : Database)
      → IsFinal
      → checks_of i (request i).now (work_off queue db).results
        ≡ checks_of i (request i).now db.results + (if can_check i db then queued i queue else 0)
  unfolding work_off
  work_off-queued i [] db final = ground arith
  work_off-queued i (msg ∷ queue) db final =
      let j = msg.monitor_id in
      elim (Bool-cases (can_check j db)) [
        | inr missing ↦
            let same = check_missing j db missing in
            ground (arith, work_off-queued i queue (check j db) final)
        | inl there ↦
            let (still, one) = check_there i j db final there in
            ground (arith, work_off-queued i queue (check j db) final)
      ]

pub found-has_url :
    (i : ℕ) (ms : List Monitor)
    → count_p (λ m. not (has_url m)) ms ≡ 0
    → 1 ≤ rows_with i ms
    → (m : Monitor) × (find_monitor i ms ≡ some m) × (has_url m ≡ true)
unfolding find_monitor
found-has_url i [] all there = absurd (omega arith)
found-has_url i (m ∷ ms) all there = elim (Bool-cases (m.id == i)) [
  | inl mine ↦ (m, ground arith, ground arith)
  | inr other ↦
      let below : count_p (λ x. not (has_url x)) ms ≡ 0 = ground arith in
      let rest : 1 ≤ rows_with i ms = ground arith in
      let (x, found, addressed) = found-has_url i ms below rest in (x, ground arith, addressed)
]

pub all-has_url :
    (ms : List Monitor) → All (λ m. has_url m ≡ true) ms → count_p (λ m. not (has_url m)) ms ≡ 0
all-has_url [] h = refl
all-has_url (m ∷ ms) h = ground (arith, all-has_url ms h.1)
