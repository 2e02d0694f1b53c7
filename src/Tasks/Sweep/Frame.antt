-- ===== src/Tasks/Sweep/Frame.antt =====
-- What a sweep leaves alone: tests that the schedule's column does not enter, rows of monitors
-- that are not due, and the size of the queue against the batches.
use ping_gaurd.Prelude.{
  ℕ, zero, suc, ◌+◌, ◌*◌, ◌≤◌, ◌≡◌, refl, ◌∙◌, Bool, inl, inr, List, [], ◌∷◌, map, arith,
  Option-cases, Bool-cases, count_p, length, length-append, length-take, length-map,
}
use ping_gaurd.Models.{Monitor, timedelta_seconds, update_monitor_row}
use ping_gaurd.Tasks.Sweep.{
  Lane, Outside, Sweep, message, select_due, claim_rows, dispatch, recover, reset_rows, run_batch,
  run_batches,
}

module _ (lane : Lane) (now : ℕ) (p : Monitor → Bool)
    (ignores : (t : ℕ) (m : Monitor) → p (lane.set_next t m) ≡ p m) where
  update_frame :
      (j t : ℕ) (ms : List Monitor)
      → count_p p (update_monitor_row j (lane.set_next t) ms) ≡ count_p p ms
  unfolding update_monitor_row
  update_frame j t [] = refl
  update_frame j t (m ∷ ms) = ground (arith, update_frame j t ms, ignores t m)

  pub claim_rows_frame :
      (ms t : List Monitor) → count_p p (claim_rows lane now ms t).0 ≡ count_p p t
  unfolding claim_rows
  claim_rows_frame [] t = refl
  claim_rows_frame (m ∷ ms) t = elim (Option-cases (lane.interval m)) [
    | inl skipped ↦ rw (skipped, claim_rows) (claim_rows_frame ms t)
    | inr (s, e) ↦
        rw (e, claim_rows) (claim_rows_frame ms _ ∙ update_frame m.id (now + timedelta_seconds s) t)
  ]

  reset_rows_frame :
      (ids : List ℕ) (t : List Monitor) → count_p p (reset_rows lane now ids t) ≡ count_p p t
  unfolding reset_rows
  reset_rows_frame ids [] = refl
  reset_rows_frame ids (m ∷ t) = ground (arith, reset_rows_frame ids t, ignores now m)

  module _ (outside : Outside) where
    recover_frame :
        (failed : List ℕ) (t : List Monitor)
        → count_p p (recover lane now outside failed t) ≡ count_p p t
    unfolding recover
    recover_frame [] t = refl
    recover_frame (j ∷ js) t = ground (arith, reset_rows_frame (j ∷ js) t)

    run_batch_frame :
        (ms : List Monitor) (s : Sweep)
        → count_p p (run_batch lane now outside ms s).0.table ≡ count_p p s.table
    unfolding run_batch
    run_batch_frame [] s = refl
    run_batch_frame (m ∷ ms) s = recover_frame _ _ ∙ claim_rows_frame (m ∷ ms) s.table

    -- A test that the schedule's column does not enter counts the same rows before and after.
    pub run_batches_frame :
        (limit n : ℕ) (s : Sweep)
        → count_p p (run_batches lane now outside limit n s).table ≡ count_p p s.table
    unfolding run_batches
    run_batches_frame limit zero s = refl
    run_batches_frame limit (suc n) s =
        let ms = select_due lane now (outside.locked s.batch) limit s.table in
        let after = (run_batch lane now outside ms s).0 in
        elim (Bool-cases (run_batch lane now outside ms s).1) [
          | inl stops ↦ rw stops (run_batch_frame ms s)
          | inr goes_on ↦ rw goes_on (run_batches_frame limit n after ∙ run_batch_frame ms s)
        ]

module _ (lane : Lane) (now : ℕ) where
  length-claimed : (ms t : List Monitor) → length (claim_rows lane now ms t).1 ≤ length ms
  unfolding claim_rows
  length-claimed [] t = omega arith
  length-claimed (m ∷ ms) t = elim (Option-cases (lane.interval m)) [
    | inl skipped ↦ rw (skipped, claim_rows) (omega (arith, length-claimed ms t))
    | inr (s, e) ↦ rw (e, claim_rows) (omega (arith, length-claimed ms _))
  ]

  length-sent :
      (accepts : ℕ → Bool) (k : ℕ) (items : List (ℕ × ℕ))
      → length (dispatch lane now accepts k items).0 ≤ length items
  unfolding dispatch
  length-sent accepts k [] = omega arith
  length-sent accepts k (x ∷ items) = ground (arith, length-sent accepts (suc k) items)

  module _ (outside : Outside) where
    run_batch_sizes :
        (ms : List Monitor) (s : Sweep)
        → s.enqueued ≡ length s.queue
        → let after = (run_batch lane now outside ms s).0 in
          (after.enqueued ≡ length after.queue) × (after.enqueued ≤ s.enqueued + length ms)
    unfolding run_batch
    run_batch_sizes [] s h = (h, omega arith)
    run_batch_sizes (m ∷ ms) s h =
        let items = (claim_rows lane now (m ∷ ms) s.table).1 in
        let sent = (dispatch lane now outside.accepts s.calls items).0 in
        let total = length-append s.queue (map (message lane now) sent) in
        let same = length-map sent (message lane now) in
        let fewer = length-sent outside.accepts s.calls items in
        let fewest = length-claimed (m ∷ ms) s.table in ground arith

    -- The count that the task reports is the number of messages, and batches bound it.
    pub run_batches_sizes :
        (limit n : ℕ) (s : Sweep)
        → s.enqueued ≡ length s.queue
        → let after = run_batches lane now outside limit n s in
          (after.enqueued ≡ length after.queue) × (after.enqueued ≤ s.enqueued + n * limit)
    unfolding run_batches
    run_batches_sizes limit zero s h = (h, omega arith)
    run_batches_sizes limit (suc n) s h =
        let ms = select_due lane now (outside.locked s.batch) limit s.table in
        let after = (run_batch lane now outside ms s).0 in
        let once = run_batch_sizes ms s h in
        let again = run_batches_sizes limit n after once.0 in
        let small : length ms ≤ limit = unfold select_due in length-take limit _ in
        elim (Bool-cases (run_batch lane now outside ms s).1) [
          | inl stops ↦ rw stops (once.0, grind arith)
          | inr goes_on ↦ rw goes_on (again.0, grind arith)
        ]
