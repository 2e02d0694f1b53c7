-- ===== src/System/Rows.antt =====
-- What the writes of all transactions do to keys and to properties of the rows.
use ping_gaurd.Prelude.{
  ℕ, ◌+◌, ◌≤◌, ◌<◌, ◌≡◌, refl, Bool, false, inl, inr, List, [], ◌∷◌, ◌++◌, All, arith, subst, some,
  length, length-map, count_p, Option-cases, Bool-cases, ◌==◌, if◌then◌else◌,
}
use ping_gaurd.Models.{
  Monitor, PingResult, update_monitor_row, delete_monitor_row, find_monitor, cascade_results,
  timedelta_seconds,
}
use ping_gaurd.Tasks.Sweep.{Lane, contains, claim_rows, reset_rows}
use ping_gaurd.Tasks.Sweep.Count.{rows_with}

module _ (P : Monitor → Type 0) where
  pub All-update_row :
      (i : ℕ) (f : Monitor → Monitor) (ms : List Monitor)
      → ((m : Monitor) → P m → P (f m))
      → All P ms
      → All P (update_monitor_row i f ms)
  unfolding update_monitor_row
  All-update_row i f [] keep h = tt
  All-update_row i f (m ∷ ms) keep h = elim (Bool-cases (m.id == i)) [
    | inl mine ↦ rw mine (keep m h.0, All-update_row i f ms keep h.1)
    | inr other ↦ rw other (h.0, All-update_row i f ms keep h.1)
  ]

  pub All-delete_row : (i : ℕ) (ms : List Monitor) → All P ms → All P (delete_monitor_row i ms)
  unfolding delete_monitor_row
  All-delete_row i [] h = tt
  All-delete_row i (m ∷ ms) h = elim (Bool-cases (m.id == i)) [
    | inl mine ↦ rw mine (All-delete_row i ms h.1)
    | inr other ↦ rw other (h.0, All-delete_row i ms h.1)
  ]

  module _ (lane : Lane) (now : ℕ)
      (keep : (t : ℕ) (m : Monitor) → P m → P (lane.set_next t m)) where
    pub All-claim_rows : (rows ms : List Monitor) → All P ms → All P (claim_rows lane now rows ms).0
    unfolding claim_rows
    All-claim_rows [] ms h = h
    All-claim_rows (m ∷ rows) ms h = elim (Option-cases (lane.interval m)) [
      | inl skipped ↦ rw (skipped, claim_rows) (All-claim_rows rows ms h)
      | inr (s, e) ↦
          let next = now + timedelta_seconds s in
          rw (e, claim_rows)
            (All-claim_rows rows _ (All-update_row m.id (lane.set_next next) ms (keep next) h))
    ]

    pub All-reset_rows :
        (ids : List ℕ) (ms : List Monitor) → All P ms → All P (reset_rows lane now ids ms)
    unfolding reset_rows
    All-reset_rows ids [] h = tt
    All-reset_rows ids (m ∷ ms) h = elim (Bool-cases (contains m.id ids)) [
      | inl mine ↦ rw mine (keep now m h.0, All-reset_rows ids ms h.1)
      | inr other ↦ rw other (h.0, All-reset_rows ids ms h.1)
    ]

pub rows_with-update :
    (i j : ℕ) (f : Monitor → Monitor) (ms : List Monitor)
    → ((m : Monitor) → (f m).id ≡ m.id)
    → rows_with j (update_monitor_row i f ms) ≡ rows_with j ms
unfolding update_monitor_row
rows_with-update i j f [] same = refl
rows_with-update i j f (m ∷ ms) same = ground (arith, rows_with-update i j f ms same, same m)

pub rows_with-replace :
    (i j : ℕ) (row : Monitor) (ms : List Monitor)
    → row.id ≡ i
    → rows_with j (update_monitor_row i (λ old. row) ms) ≡ rows_with j ms
unfolding update_monitor_row
rows_with-replace i j row [] same = refl
rows_with-replace i j row (m ∷ ms) same = ground (arith, rows_with-replace i j row ms same)

pub rows_with-delete :
    (i j : ℕ) (ms : List Monitor)
    → rows_with j (delete_monitor_row i ms) ≡ (if i == j then 0 else rows_with j ms)
unfolding delete_monitor_row
rows_with-delete i j [] = ground arith
rows_with-delete i j (m ∷ ms) = ground (arith, rows_with-delete i j ms)

pub length-delete_row :
    (i : ℕ) (ms : List Monitor) → length (delete_monitor_row i ms) + rows_with i ms ≡ length ms
unfolding delete_monitor_row
length-delete_row i [] = refl
length-delete_row i (m ∷ ms) = ground (arith, length-delete_row i ms)

-- A key that all rows are below is the key of none.
pub rows_with-below : (n : ℕ) (ms : List Monitor) → All (λ m. m.id < n) ms → rows_with n ms ≡ 0
rows_with-below n [] h = refl
rows_with-below n (m ∷ ms) h = ground (arith, rows_with-below n ms h.1)

pub length-update_row :
    (i : ℕ) (f : Monitor → Monitor) (ms : List Monitor)
    → length (update_monitor_row i f ms) ≡ length ms
unfolding update_monitor_row
length-update_row i f ms = length-map ms _

pub All_found :
    (P : Monitor → Type 0) (i : ℕ) (ms : List Monitor) {m : Monitor}
    → find_monitor i ms ≡ some m
    → All P ms
    → P m
unfolding find_monitor
All_found P i [] found h = absurd (ground arith)
All_found P i (x ∷ ms) {m} found h = elim (Bool-cases (x.id == i)) [
  | inl mine ↦ let same : x ≡ m = ground arith in subst P same h.0
  | inr other ↦ All_found P i ms (ground arith) h.1
]

pub found_count :
    (id : ℕ) (ms : List Monitor) {m : Monitor} → find_monitor id ms ≡ some m → 1 ≤ rows_with id ms
unfolding find_monitor
found_count id [] {m} h = absurd (ground arith)
found_count id (x ∷ ms) {m} h = elim (Bool-cases (x.id == id)) [
  | inl mine ↦ ground arith
  | inr other ↦ ground (arith, found_count id ms {m = m} (ground arith))
]

pub All_imp :
    {A : Type 0} {P Q : A → Type 0} (xs : List A) → ((x : A) → P x → Q x) → All P xs → All Q xs
All_imp [] f h = tt
All_imp (x ∷ xs) f h = (f x h.0, All_imp xs f h.1)

-- The foreign key's cascade leaves results of other monitors, and only those.
pub All-cascade :
    (P : PingResult → Type 0) (i : ℕ) (rs : List PingResult)
    → All P rs
    → All (λ r. P r × ((r.monitor_id == i) ≡ false)) (cascade_results i rs)
unfolding cascade_results
All-cascade P i [] h = tt
All-cascade P i (r ∷ rs) h = elim (Bool-cases (r.monitor_id == i)) [
  | inl mine ↦ rw mine (All-cascade P i rs h.1)
  | inr other ↦ rw other ((h.0, other), All-cascade P i rs h.1)
]

pub count_p-cascade :
    (p : PingResult → Bool) (i : ℕ) (rs : List PingResult)
    → count_p p (cascade_results i rs) ≤ count_p p rs
unfolding cascade_results
count_p-cascade p i [] = omega arith
count_p-cascade p i (r ∷ rs) = ground (arith, count_p-cascade p i rs)

pub All_snoc :
    {A : Type 0} (P : A → Type 0) (xs : List A) (x : A) → All P xs → P x → All P (xs ++ x ∷ [])
All_snoc P [] x h p = (p, tt)
All_snoc P (y ∷ xs) x h p = (h.0, All_snoc P xs x h.1 p)

pub result_count-below :
    (n : ℕ) (rs : List PingResult) → All (λ r. r.id < n) rs → count_p (λ r. r.id == n) rs ≡ 0
result_count-below n [] h = refl
result_count-below n (r ∷ rs) h = ground (arith, result_count-below n rs h.1)
