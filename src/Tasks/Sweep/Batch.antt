-- ===== src/Tasks/Sweep/Batch.antt =====
-- One round of a sweep, and all rounds: what is due, what is sent and what is given back.
use ping_gaurd.Prelude.{
  ℕ, suc, ◌+◌, ◌≤◌, ◌≡◌, refl, Bool, true, false, not, ◌&&◌, inl, inr, List, [], ◌∷◌, map, arith,
  All, All-map, All-select, All-sort, All-take, count_p, count_p_mono, count_p-take, count_p-sort,
  count_p-select, count_p-append, select, sort_by, ◌==◌, if◌then◌else◌, Option-cases, Bool-cases,
}
use ping_gaurd.Models.{Monitor, timedelta_seconds, update_monitor_row}
use ping_gaurd.Tasks.Sweep.{
  Lane, Message, Outside, Sweep, contains, message, select_due, claim_rows, reset_rows, dispatch,
  recover, run_batch, sort_key,
}
use ping_gaurd.Tasks.Sweep.Count.{
  IsLane, IsPaced, rows_with, items_with, ids_with, due_with, ready_with, due_with-le-ready,
  ready_with-le-rows, claim_rows_count,
}

-- How often a monitor's task stands in a queue.
abbrev pub queued : ℕ → List Message → ℕ
queued i = count_p (λ msg. msg.monitor_id == i)

pub ids_with-contains : (i : ℕ) (ids : List ℕ) → contains i ids ≡ false → ids_with i ids ≡ 0
ids_with-contains i [] h = refl
ids_with-contains i (j ∷ js) h = ground (arith, ids_with-contains i js)

pub contains-ids_with : (i : ℕ) (ids : List ℕ) → contains i ids ≡ true → 1 ≤ ids_with i ids
contains-ids_with i [] h = absurd (ground arith)
contains-ids_with i (j ∷ js) h = ground (arith, contains-ids_with i js)

ids_with-items :
    (i : ℕ) (items : List (ℕ × ℕ)) → ids_with i (map (λ x. x.0) items) ≡ items_with i items
ids_with-items i [] = refl
ids_with-items i (x ∷ items) = ground (arith, ids_with-items i items)

module _ (lane : Lane) (now : ℕ) where
  -- Every claimed item is sent or among the failed ids.
  dispatch_count :
      (i : ℕ) (accepts : ℕ → Bool) (k : ℕ) (items : List (ℕ × ℕ))
      → let (sent, failed) = dispatch lane now accepts k items in
        items_with i sent + ids_with i failed ≡ items_with i items
  unfolding dispatch
  dispatch_count i accepts k [] = refl
  dispatch_count i accepts k (x ∷ items) =
      ground (arith, dispatch_count i accepts (suc k) items, ids_with-items i items)

  queued-message :
      (i : ℕ) (items : List (ℕ × ℕ)) → queued i (map (message lane now) items) ≡ items_with i items
  queued-message i [] = refl
  queued-message i ((j, s) ∷ items) = ground (arith, queued-message i items)

  pub select_due_count :
      (i : ℕ) (locked : ℕ → Bool) (limit : ℕ) (t : List Monitor)
      → rows_with i (select_due lane now locked limit t) ≤ due_with lane now i t
  unfolding select_due
  select_due_count i locked limit t =
      let p = λ (m : Monitor). m.id == i in
      let q = λ (m : Monitor). lane.is_due now m && not (locked m.id) in
      let key = λ (m : Monitor). sort_key (lane.due_at m) in
      let weaker =
        count_p_mono (λ m. p m && q m) (λ m. p m && lane.is_due now m) (λ m h. ground arith) t in
      omega (
        arith,
        count_p-take p limit (sort_by key (select q t)),
        count_p-sort p key (select q t),
        count_p-select p q t,
        weaker,
      )

  module _ (law : IsLane lane) where
    reset_rows_due :
        (i : ℕ) (ids : List ℕ) (t : List Monitor)
        → due_with lane now i (reset_rows lane now ids t)
          ≡ (if contains i ids then ready_with lane now i t else due_with lane now i t)
    unfolding reset_rows
    reset_rows_due i ids [] = ground arith
    reset_rows_due i ids (m ∷ t) = ground (arith, reset_rows_due i ids t, law.same_id now m)

    pub reset_rows_with :
        (i : ℕ) (ids : List ℕ) (t : List Monitor)
        → rows_with i (reset_rows lane now ids t) ≡ rows_with i t
    unfolding reset_rows
    reset_rows_with i ids [] = refl
    reset_rows_with i ids (m ∷ t) = ground (arith, reset_rows_with i ids t, law.same_id now m)

    pub IsPaced-set_next :
        (next : ℕ) (m : Monitor) → IsPaced lane m → IsPaced lane (lane.set_next next m)
    IsPaced-set_next next m h s e = h s (rw (law.same_interval next m) at e)

    IsPaced-update :
        (j next : ℕ) (t : List Monitor)
        → All (IsPaced lane) t
        → All (IsPaced lane) (update_monitor_row j (lane.set_next next) t)
    unfolding update_monitor_row
    IsPaced-update j next =
        All-map (IsPaced lane) (λ m. if m.id == j then lane.set_next next m else m)
          (λ m h. elim (Bool-cases (m.id == j)) [
            | inl here ↦ rw here (IsPaced-set_next next m h)
            | inr elsewhere ↦ rw elsewhere h
          ])

    pub IsPaced-claim :
        (ms t : List Monitor)
        → All (IsPaced lane) t
        → All (IsPaced lane) (claim_rows lane now ms t).0
    unfolding claim_rows
    IsPaced-claim [] t h = h
    IsPaced-claim (m ∷ ms) t h = elim (Option-cases (lane.interval m)) [
      | inl skipped ↦ rw (skipped, claim_rows) (IsPaced-claim ms t h)
      | inr (s, e) ↦
          rw (e, claim_rows)
            (IsPaced-claim ms _ (IsPaced-update m.id (now + timedelta_seconds s) t h))
    ]

    pub IsPaced-select :
        (locked : ℕ → Bool) (limit : ℕ) (t : List Monitor)
        → All (IsPaced lane) t
        → All (IsPaced lane) (select_due lane now locked limit t)
    unfolding select_due
    IsPaced-select locked limit t h = All-take _ limit _ (
        All-sort _ (λ m. sort_key (lane.due_at m)) _
          (All-select _ (λ m. lane.is_due now m && not (locked m.id)) t h))

    module _ (outside : Outside) where
      recover_due :
          (i : ℕ) (failed : List ℕ) (t : List Monitor)
          → due_with lane now i (recover lane now outside failed t) ≡ (
              if outside.recovers && contains i failed
              then ready_with lane now i t
              else due_with lane now i t)
      unfolding recover
      recover_due i [] t = ground arith
      recover_due i (j ∷ js) t = ground (arith, reset_rows_due i (j ∷ js) t)

      -- A round keeps the sum of what is queued for a monitor and what is due, unless the recovery
      -- after a broker error fails.
      pub run_batch_count :
          (i : ℕ) (ms : List Monitor) (s : Sweep)
          → All (IsPaced lane) ms
          → rows_with i s.table ≤ 1
          → rows_with i ms ≤ due_with lane now i s.table
          → let after = (run_batch lane now outside ms s).0 in
            let before = queued i s.queue + due_with lane now i s.table in
            let total = queued i after.queue + due_with lane now i after.table in
            (total ≤ before) × (outside.recovers ≡ true → total ≡ before)
      unfolding run_batch
      run_batch_count i [] s paced unique few = (omega arith, λ _. refl)
      run_batch_count i (m ∷ ms) s paced unique few =
          let (claimed, items) = claim_rows lane now (m ∷ ms) s.table in
          let (sent, failed) = dispatch lane now outside.accepts s.calls items in
          let claims = claim_rows_count lane law now i (m ∷ ms) s.table paced unique few in
          let split = dispatch_count i outside.accepts s.calls items in
          let fresh = queued-message i sent in
          let longer =
            count_p-append (λ (x : Message). x.monitor_id == i) s.queue
              (map (message lane now) sent) in
          let back = recover_due i failed claimed in
          let ready = due_with-le-ready lane law now i s.table in
          let rows = ready_with-le-rows lane law now i s.table in
          let inside = contains-ids_with i failed in
          let absent = ids_with-contains i failed in ground arith
