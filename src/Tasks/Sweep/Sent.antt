-- ===== src/Tasks/Sweep/Sent.antt =====
-- What a sweep's loop sends, where the broker takes every message.
use ping_gaurd.Prelude.{
  ℕ, zero, suc, ◌≡◌, refl, Bool, true, List, [], ◌∷◌, map, All, All-append, arith, inl, inr,
  Bool-cases,
}
use ping_gaurd.Models.{Monitor}
use ping_gaurd.Tasks.Sweep.{
  Lane, Outside, Sweep, message, select_due, claim_rows, dispatch, recover, run_batch, run_batches,
}

module _ (lane : Lane) (now : ℕ) where
  dispatch_none_failed :
      (accepts : ℕ → Bool) (k : ℕ) (items : List (ℕ × ℕ))
      → ((j : ℕ) → accepts j ≡ true)
      → (dispatch lane now accepts k items).1 ≡ []
  unfolding dispatch
  dispatch_none_failed accepts k [] up = refl
  dispatch_none_failed accepts k (x ∷ items) up =
      ground (arith, up k, dispatch_none_failed accepts (suc k) items up)

  module _ (outside : Outside) where
    abbrev pub sure : Outside
    sure = record outside { recovers = true }

    run_batch-sure :
        (ms : List Monitor) (s : Sweep)
        → ((j : ℕ) → outside.accepts j ≡ true)
        → run_batch lane now outside ms s ≡ run_batch lane now sure ms s
    unfolding run_batch recover
    run_batch-sure [] s up = refl
    run_batch-sure (m ∷ ms) s up =
        let items = (claim_rows lane now (m ∷ ms) s.table).1 in
        rw (dispatch_none_failed outside.accepts s.calls items up) refl

    -- Where every call is accepted, whether recovery sessions commit does not matter.
    pub run_batches-sure :
        (limit n : ℕ) (s : Sweep)
        → ((j : ℕ) → outside.accepts j ≡ true)
        → run_batches lane now outside limit n s ≡ run_batches lane now sure limit n s
    unfolding run_batches
    run_batches-sure limit zero s up = refl
    run_batches-sure limit (suc n) s up =
        let ms = select_due lane now (outside.locked s.batch) limit s.table in
        let once = run_batch-sure ms s up in
        let after = (run_batch lane now sure ms s).0 in
        rw once (ground (arith, run_batches-sure limit n after up))

    map_message-All :
        (items : List (ℕ × ℕ)) → All (λ msg. msg.task ≡ lane.task) (map (message lane now) items)
    map_message-All [] = tt
    map_message-All (x ∷ items) = (refl, map_message-All items)

    run_batch_task :
        (ms : List Monitor) (s : Sweep)
        → All (λ msg. msg.task ≡ lane.task) s.queue
        → All (λ msg. msg.task ≡ lane.task) (run_batch lane now outside ms s).0.queue
    unfolding run_batch
    run_batch_task [] s h = h
    run_batch_task (m ∷ ms) s h =
        let items = (claim_rows lane now (m ∷ ms) s.table).1 in
        let sent = (dispatch lane now outside.accepts s.calls items).0 in
        All-append (λ msg. msg.task ≡ lane.task) s.queue (map (message lane now) sent) h
          (map_message-All sent)

    -- All messages are of the lane's task.
    pub run_batches_task :
        (limit n : ℕ) (s : Sweep)
        → All (λ msg. msg.task ≡ lane.task) s.queue
        → All (λ msg. msg.task ≡ lane.task) (run_batches lane now outside limit n s).queue
    unfolding run_batches
    run_batches_task limit zero s h = h
    run_batches_task limit (suc n) s h =
        let ms = select_due lane now (outside.locked s.batch) limit s.table in
        let once = run_batch_task ms s h in
        let after = (run_batch lane now outside ms s).0 in
        elim (Bool-cases (run_batch lane now outside ms s).1) [
          | inl stops ↦ rw stops once
          | inr goes_on ↦ rw goes_on (run_batches_task limit n after once)
        ]
