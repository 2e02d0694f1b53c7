-- ===== src/Tasks/Sweep/Count.antt =====
-- Accounting for one monitor id through the steps of a sweep: rows that are due, items claimed,
-- messages sent and ids given back.
use ping_gaurd.Prelude.{
  ℕ, ◌+◌, ◌≤◌, ◌<◌, ◌≡◌, refl, true, false, ◌&&◌, none, some, inl, inr, List, [], ◌∷◌, arith, All,
  count_p, ◌==◌, if◌then◌else◌, Option-cases,
}
use ping_gaurd.Models.{Monitor, timedelta_seconds, update_monitor_row}
use ping_gaurd.Tasks.Sweep.{Lane, claim_rows}

-- What the two lanes have in common.
pub record IsLane (lane : Lane) : Type 0 where
  pub same_id : (t : ℕ) (m : Monitor) → (lane.set_next t m).id ≡ m.id
  pub same_interval : (t : ℕ) (m : Monitor) → lane.interval (lane.set_next t m) ≡ lane.interval m
  pub not_due_later :
      (now t : ℕ) (m : Monitor) → now < t → lane.is_due now (lane.set_next t m) ≡ false
  pub due_at_once :
      (now : ℕ) (m : Monitor)
      → lane.is_due now m ≡ true
      → lane.is_due now (lane.set_next now m) ≡ true
  pub overwrites : (s t : ℕ) (m : Monitor) → lane.set_next s (lane.set_next t m) ≡ lane.set_next s m

-- The row's interval, where it has one, is not zero.
abbrev pub IsPaced : Lane → Monitor → Type 0
IsPaced lane m = (s : ℕ) → lane.interval m ≡ some s → 0 < s

abbrev pub rows_with : ℕ → List Monitor → ℕ
rows_with i = count_p (λ m. m.id == i)

abbrev pub items_with : ℕ → List (ℕ × ℕ) → ℕ
items_with i = count_p (λ item. item.0 == i)

abbrev pub ids_with : ℕ → List ℕ → ℕ
ids_with i = count_p (λ j. j == i)

module _ (lane : Lane) (now i : ℕ) where
  abbrev pub due_with : List Monitor → ℕ
  due_with = count_p (λ m. m.id == i && lane.is_due now m)

  -- Rows that would be due if their schedule were set to now.
  abbrev pub ready_with : List Monitor → ℕ
  ready_with = count_p (λ m. m.id == i && lane.is_due now (lane.set_next now m))

module _ (lane : Lane) (law : IsLane lane) (now i : ℕ) where
  pub due_with-le-ready : (t : List Monitor) → due_with lane now i t ≤ ready_with lane now i t
  due_with-le-ready [] = omega arith
  due_with-le-ready (m ∷ t) = ground (arith, law.due_at_once now m, due_with-le-ready t)

  pub ready_with-le-rows : (t : List Monitor) → ready_with lane now i t ≤ rows_with i t
  ready_with-le-rows [] = omega arith
  ready_with-le-rows (m ∷ t) = ground (arith, ready_with-le-rows t)

  module _ (j later : ℕ) (pace : now < later) where
    pub rows_with-update :
        (t : List Monitor)
        → rows_with i (update_monitor_row j (lane.set_next later) t) ≡ rows_with i t
    unfolding update_monitor_row
    rows_with-update [] = refl
    rows_with-update (m ∷ t) = ground (arith, rows_with-update t, law.same_id later m)

    pub ready_with-update :
        (t : List Monitor)
        → ready_with lane now i (update_monitor_row j (lane.set_next later) t)
          ≡ ready_with lane now i t
    unfolding update_monitor_row
    ready_with-update [] = refl
    ready_with-update (m ∷ t) =
        ground (arith, ready_with-update t, law.same_id later m, law.overwrites now later m)

    pub due_with-update :
        (t : List Monitor)
        → due_with lane now i (update_monitor_row j (lane.set_next later) t)
          ≡ (if j == i then 0 else due_with lane now i t)
    unfolding update_monitor_row
    due_with-update [] = ground arith
    due_with-update (m ∷ t) =
        ground (arith, due_with-update t, law.same_id later m, law.not_due_later now later m)

  claim_rows-none :
      (m : Monitor) (ms t : List Monitor)
      → lane.interval m ≡ none
      → claim_rows lane now (m ∷ ms) t ≡ claim_rows lane now ms t
  unfolding claim_rows
  claim_rows-none m ms t e = rw (e, claim_rows)

  pub claim_rows-some :
      (m : Monitor) (ms t : List Monitor) (s : ℕ)
      → lane.interval m ≡ some s
      → let next = now + timedelta_seconds s in
        let rest = claim_rows lane now ms (update_monitor_row m.id (lane.set_next next) t) in
        claim_rows lane now (m ∷ ms) t ≡ (rest.0, (m.id, s) ∷ rest.1)
  unfolding claim_rows
  claim_rows-some m ms t s e = rw (e, claim_rows)

  -- The rows of the batch are among the due rows; each claimed one becomes one item.
  pub claim_rows_count :
      (ms t : List Monitor)
      → All (IsPaced lane) ms
      → rows_with i t ≤ 1
      → rows_with i ms ≤ due_with lane now i t
      → (items_with i (claim_rows lane now ms t).1
            + due_with lane now i (claim_rows lane now ms t).0
          ≡ due_with lane now i t)
        × (ready_with lane now i (claim_rows lane now ms t).0 ≡ ready_with lane now i t)
        × (rows_with i (claim_rows lane now ms t).0 ≡ rows_with i t)
  claim_rows_count [] t paced unique few = unfold claim_rows in (omega arith, refl, refl)
  claim_rows_count (m ∷ ms) t paced unique few = elim (Option-cases (lane.interval m)) [
    | inl skipped ↦
        rw (claim_rows-none m ms t skipped) (claim_rows_count ms t paced.1 unique (ground arith))
    | inr (s, e) ↦
        let next = now + timedelta_seconds s in
        let pace : now < next = omega (arith, paced.0 s e) in
        let t' = update_monitor_row m.id (lane.set_next next) t in
        let rows = rows_with-update m.id next pace t in
        let ready = ready_with-update m.id next pace t in
        let due = due_with-update m.id next pace t in
        let most : due_with lane now i t ≤ 1 =
          omega (arith, ready_with-le-rows t, due_with-le-ready t) in
        let few' : rows_with i ms ≤ due_with lane now i t' = ground arith in
        let ih = claim_rows_count ms t' paced.1 (ground arith) few' in
        rw (claim_rows-some m ms t s e) (ground arith)
  ]
