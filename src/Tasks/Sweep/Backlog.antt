-- ===== src/Tasks/Sweep/Backlog.antt =====
-- How fast a sweep works off what is due, when nothing fails and nothing is locked.
use ping_gaurd.Prelude.{
  ℕ, zero, suc, ◌+◌, ◌-◌, ◌*◌, ◌≤◌, ◌<◌, ◌≡◌, refl, Bool, true, false, not, ◌&&◌, some, inl, inr,
  List, [], ◌∷◌, map, arith, Bool-cases, All, All-select, All-sort, All-take, All-map, count_p,
  length, length-map, length-append, length-select, length-sort, length-take-min, min, select,
  sort_by, ◌==◌, if◌then◌else◌,
}
use ping_gaurd.Models.{Monitor, timedelta_seconds, update_monitor_row}
use ping_gaurd.Tasks.Sweep.{
  Lane, Outside, Sweep, message, select_due, claim_rows, dispatch, recover, sort_key, run_batch,
  run_batches,
}
use ping_gaurd.Tasks.Sweep.Count.{
  IsLane, rows_with, due_with, rows_with-update, due_with-update, due_with-le-ready,
  ready_with-le-rows, claim_rows-some,
}
use ping_gaurd.Tasks.Sweep.Batch.{select_due_count}
use ping_gaurd.Tasks.Sweep.Frame.{claim_rows_frame}

-- The row is not one that the loop skips, and its interval is positive.
abbrev pub IsClaimable : Lane → Monitor → Type 0
IsClaimable lane m = (s : ℕ) × (lane.interval m ≡ some s) × (0 < s)

module _ (lane : Lane) (now : ℕ) where
  abbrev pub backlog : List Monitor → ℕ
  backlog = count_p (lane.is_due now)

module _ (lane : Lane) (law : IsLane lane) (now : ℕ) where
  backlog-update :
      (j later : ℕ)
      → now < later
      → (t : List Monitor)
      → backlog lane now (update_monitor_row j (lane.set_next later) t) + due_with lane now j t
        ≡ backlog lane now t
  unfolding update_monitor_row
  backlog-update j later h [] = refl
  backlog-update j later h (m ∷ t) =
      ground (arith, backlog-update j later h t, law.not_due_later now later m)

  few_left :
      (m : Monitor) (ms t : List Monitor) (later i : ℕ)
      → now < later
      → rows_with i t ≤ 1
      → rows_with i (m ∷ ms) ≤ due_with lane now i t
      → rows_with i ms ≤ due_with lane now i (update_monitor_row m.id (lane.set_next later) t)
  few_left m ms t later i h unique few =
      let due = due_with-update lane law now i m.id later h t in
      let most : due_with lane now i t ≤ 1 =
        omega (arith, ready_with-le-rows lane law now i t, due_with-le-ready lane law now i t) in
      ground arith

  claim_rows-backlog :
      (ms t : List Monitor)
      → All (IsClaimable lane) ms
      → ((i : ℕ) → rows_with i t ≤ 1)
      → ((i : ℕ) → rows_with i ms ≤ due_with lane now i t)
      → (backlog lane now (claim_rows lane now ms t).0 + length ms ≡ backlog lane now t)
        × (length (claim_rows lane now ms t).1 ≡ length ms)
  claim_rows-backlog [] t sound unique few = unfold claim_rows in omega arith
  claim_rows-backlog (m ∷ ms) t ((s, e, pos), sound) unique few =
      let next = now + timedelta_seconds s in
      let later : now < next = omega arith in
      let t' = update_monitor_row m.id (lane.set_next next) t in
      let one = backlog-update m.id next later t in
      let there : 1 ≤ due_with lane now m.id t = ground (arith, few m.id) in
      let most : due_with lane now m.id t ≤ 1 = omega (
        arith,
        unique m.id,
        ready_with-le-rows lane law now m.id t,
        due_with-le-ready lane law now m.id t,
      ) in
      let ih =
        claim_rows-backlog ms t' sound
          (λ i. omega (arith, unique i, rows_with-update lane law now i m.id next later t))
          (λ i. few_left m ms t next i later (unique i) (few i)) in
      rw (claim_rows-some lane law now m.id m ms t s e) (omega arith)

  IsClaimable-set_next :
      (next : ℕ) (m : Monitor) → IsClaimable lane m → IsClaimable lane (lane.set_next next m)
  IsClaimable-set_next next m (s, e, pos) = (s, rw (law.same_interval next m) e, pos)

  IsClaimable-claim :
      (ms t : List Monitor)
      → All (IsClaimable lane) ms
      → All (IsClaimable lane) t
      → All (IsClaimable lane) (claim_rows lane now ms t).0
  IsClaimable-claim [] t sound h = unfold claim_rows in h
  IsClaimable-claim (m ∷ ms) t ((s, e, pos), sound) h =
      let next = now + timedelta_seconds s in
      let kept =
        All-map (IsClaimable lane) (λ r. if r.id == m.id then lane.set_next next r else r)
          (λ r k. elim (Bool-cases (r.id == m.id)) [
            | inl here ↦ rw here (IsClaimable-set_next next r k)
            | inr elsewhere ↦ rw elsewhere k
          ])
          t h in
      rw (claim_rows-some lane law now m.id m ms t s e)
        (IsClaimable-claim ms _ sound (unfold update_monitor_row in kept))

  pub dispatch_all :
      (accepts : ℕ → Bool) (k : ℕ) (items : List (ℕ × ℕ))
      → ((j : ℕ) → accepts j ≡ true)
      → dispatch lane now accepts k items ≡ (items, [])
  unfolding dispatch
  dispatch_all accepts k [] up = refl
  dispatch_all accepts k (x ∷ items) up =
      ground (arith, up k, dispatch_all accepts (suc k) items up)

  select_due_all :
      (locked : ℕ → Bool) (limit : ℕ) (t : List Monitor)
      → ((i : ℕ) → locked i ≡ false)
      → length (select_due lane now locked limit t) ≡ min limit (backlog lane now t)
  unfolding select_due
  select_due_all locked limit t free =
      let q = λ (m : Monitor). lane.is_due now m && not (locked m.id) in
      let key = λ (m : Monitor). sort_key (lane.due_at m) in
      let whole = length-take-min limit (sort_by key (select q t)) in
      let sorted = length-sort key (select q t) in
      let chosen = length-select q t in let same = unlocked locked t free in omega arith
    where
      unlocked :
          (locked : ℕ → Bool) (t : List Monitor)
          → ((i : ℕ) → locked i ≡ false)
          → count_p (λ m. lane.is_due now m && not (locked m.id)) t ≡ backlog lane now t
      unlocked locked [] free = refl
      unlocked locked (m ∷ t) free = ground (arith, free m.id, unlocked locked t free)

  module _ (outside : Outside) (up : (k : ℕ) → outside.accepts k ≡ true)
      (free : (b i : ℕ) → outside.locked b i ≡ false) where
    abbrev IsWorkable : List Monitor → Type 0
    IsWorkable t = All (IsClaimable lane) t × ((i : ℕ) → rows_with i t ≤ 1)

    goes_on :
        (m : Monitor) (ms : List Monitor) (s : Sweep)
        → (run_batch lane now outside (m ∷ ms) s).1 ≡ false
    unfolding run_batch
    goes_on m ms s = rw (
      dispatch_all outside.accepts s.calls (claim_rows lane now (m ∷ ms) s.table).1 up,
      run_batch,
    )

    run_batch-backlog :
        (ms : List Monitor) (s : Sweep)
        → All (IsClaimable lane) ms
        → IsWorkable s.table
        → ((i : ℕ) → rows_with i ms ≤ due_with lane now i s.table)
        → let (after, stop) = run_batch lane now outside ms s in
          (backlog lane now after.table + length ms ≡ backlog lane now s.table)
          × (length after.queue ≡ length s.queue + length ms)
          × IsWorkable after.table
          × (stop ≡ true → length ms ≡ 0)
    unfolding run_batch recover
    run_batch-backlog [] s sound ok few = (omega arith, omega arith, ok, λ _. refl)
    run_batch-backlog (m ∷ ms) s sound ok few =
        let (claimed, items) = claim_rows lane now (m ∷ ms) s.table in
        let counts = claim_rows-backlog (m ∷ ms) s.table sound ok.1 few in
        let total = length-append s.queue (map (message lane now) items) in
        let same = length-map items (message lane now) in
        rw (dispatch_all outside.accepts s.calls items up) (
          counts.0,
          omega arith,
          (
            IsClaimable-claim (m ∷ ms) s.table sound ok.0,
            λ i. omega (
              arith,
              ok.1 i,
              claim_rows_frame lane now (λ r. r.id == i) (λ t r. rw law.same_id) (m ∷ ms) s.table,
            ),
          ),
          λ e. cc (goes_on m ms s),
        )

    -- With the broker up and no row locked, the rounds send `n * limit` messages, or what there was.
    pub run_batches-backlog :
        (limit n : ℕ) (s : Sweep)
        → IsWorkable s.table
        → let after = run_batches lane now outside limit n s in
          (backlog lane now after.table ≡ backlog lane now s.table - n * limit)
          × (length after.queue + backlog lane now after.table
              ≡ length s.queue + backlog lane now s.table)
    unfolding run_batches
    run_batches-backlog limit zero s ok = (omega arith, refl)
    run_batches-backlog limit (suc n) s ok =
        let ms = select_due lane now (outside.locked s.batch) limit s.table in
        let chosen : All (IsClaimable lane) ms =
          unfold select_due in All-take _ limit _ (All-sort _ _ _ (All-select _ _ s.table ok.0)) in
        let few = λ (i : ℕ). select_due_count lane now i (outside.locked s.batch) limit s.table in
        let size = select_due_all (outside.locked s.batch) limit s.table (free s.batch) in
        let once = run_batch-backlog ms s chosen ok few in
        let after = (run_batch lane now outside ms s).0 in
        let again = run_batches-backlog limit n after once.2 in
        elim (Bool-cases (run_batch lane now outside ms s).1) [
          | inl stops ↦ rw stops (grind (arith, once.3 stops), omega arith)
          | inr goes ↦ rw goes (omega arith, omega arith)
        ]
