-- ===== src/Tasks/Sweep/Loop.antt =====
-- All rounds of a sweep, by induction on the rounds left.
use ping_gaurd.Prelude.{
  ℕ, zero, suc, ◌+◌, ◌≤◌, ◌≡◌, refl, true, inl, inr, List, [], ◌∷◌, arith, All, All-map, Bool-cases,
}
use ping_gaurd.Models.{Monitor}
use ping_gaurd.Tasks.Sweep.{
  Lane, Outside, Sweep, contains, select_due, claim_rows, dispatch, recover, reset_rows, run_batch,
  run_batches,
}
use ping_gaurd.Tasks.Sweep.Count.{IsLane, IsPaced, rows_with, due_with, claim_rows_count}
use ping_gaurd.Tasks.Sweep.Batch.{
  queued, select_due_count, run_batch_count, IsPaced-claim, IsPaced-select, IsPaced-set_next,
  reset_rows_with,
}

module _ (lane : Lane) (now : ℕ) (law : IsLane lane) (outside : Outside) where
  rows_with-recover :
      (i : ℕ) (failed : List ℕ) (t : List Monitor)
      → rows_with i (recover lane now outside failed t) ≡ rows_with i t
  unfolding recover
  rows_with-recover i [] t = refl
  rows_with-recover i (j ∷ js) t = ground (arith, reset_rows_with lane now law i (j ∷ js) t)

  IsPaced-recover :
      (failed : List ℕ) (t : List Monitor)
      → All (IsPaced lane) t
      → All (IsPaced lane) (recover lane now outside failed t)
  unfolding recover reset_rows
  IsPaced-recover [] t h = h
  IsPaced-recover (j ∷ js) t h = elim (Bool-cases outside.recovers) [
    | inl works ↦ rw works (
        All-map (IsPaced lane) _
          (λ m k. elim (Bool-cases (contains m.id (j ∷ js))) [
            | inl here ↦ rw here (IsPaced-set_next lane now law now m k)
            | inr elsewhere ↦ rw elsewhere k
          ])
          t h)
    | inr fails ↦ rw fails h
  ]

  run_batch_rows :
      (i : ℕ) (ms : List Monitor) (s : Sweep)
      → All (IsPaced lane) ms
      → rows_with i s.table ≤ 1
      → rows_with i ms ≤ due_with lane now i s.table
      → rows_with i (run_batch lane now outside ms s).0.table ≡ rows_with i s.table
  unfolding run_batch
  run_batch_rows i [] s paced unique few = refl
  run_batch_rows i (m ∷ ms) s paced unique few =
      let claimed = claim_rows lane now (m ∷ ms) s.table in
      let failed = (dispatch lane now outside.accepts s.calls claimed.1).1 in
      let claims = claim_rows_count lane law now i (m ∷ ms) s.table paced unique few in
      ground (arith, rows_with-recover i failed claimed.0)

  IsPaced-run_batch :
      (ms : List Monitor) (s : Sweep)
      → All (IsPaced lane) s.table
      → All (IsPaced lane) (run_batch lane now outside ms s).0.table
  unfolding run_batch
  IsPaced-run_batch [] s h = h
  IsPaced-run_batch (m ∷ ms) s h =
      IsPaced-recover _ _ (IsPaced-claim lane now law (m ∷ ms) s.table h)

  -- A sweep keeps the sum of what is queued for a monitor and what is due, or loses in it only when
  -- the recovery session fails.
  pub run_batches_count :
      (i limit n : ℕ) (s : Sweep)
      → All (IsPaced lane) s.table
      → rows_with i s.table ≤ 1
      → let after = run_batches lane now outside limit n s in
        let before = queued i s.queue + due_with lane now i s.table in
        let total = queued i after.queue + due_with lane now i after.table in
        (total ≤ before) × (outside.recovers ≡ true → total ≡ before)
  unfolding run_batches
  run_batches_count i limit zero s paced unique = (omega arith, λ _. refl)
  run_batches_count i limit (suc n) s paced unique =
      let ms = select_due lane now (outside.locked s.batch) limit s.table in
      let chosen = IsPaced-select lane now law (outside.locked s.batch) limit s.table paced in
      let few = select_due_count lane now i (outside.locked s.batch) limit s.table in
      let once = run_batch_count lane now law outside i ms s chosen unique few in
      let rows = run_batch_rows i ms s chosen unique few in
      let after = (run_batch lane now outside ms s).0 in
      let again = run_batches_count i limit n after (IsPaced-run_batch ms s paced) (omega arith) in
      elim (Bool-cases (run_batch lane now outside ms s).1) [
        | inl stops ↦ rw stops once
        | inr goes_on ↦
            rw goes_on (omega arith, λ works. omega (arith, once.1 works, again.1 works))
      ]
