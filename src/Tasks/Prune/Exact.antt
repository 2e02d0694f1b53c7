-- ===== src/Tasks/Prune/Exact.antt =====
-- Pruning deletes exactly the expired rows, and ends.
use ping_gaurd.Prelude.{
  ℕ, zero, suc, ◌+◌, ◌-◌, ◌≤◌, ◌<◌, ◌≡◌, refl, ap, ◌∙◌, false, not, ◌&&◌, some, inl, inr, List, [],
  ◌∷◌, map, arith, count_p, count_p-take, count_p-sort, count_p-select, min, length, length-map,
  length-take-min, length-sort, length-select, take, select, sort_by, Bool-cases, ◌==◌,
}
use ping_gaurd.Models.{PingResult}
use ping_gaurd.Tasks.Sweep.{contains}
use ping_gaurd.Tasks.Sweep.Count.{ids_with}
use ping_gaurd.Tasks.Sweep.Batch.{contains-ids_with}
use ping_gaurd.Tasks.Prune.{
  cutoff_of, is_expired, batch_ids, delete_ids, prune_batch, prune_loop, prune_ping_results,
}

-- How many rows have this id.
abbrev pub results_with : ℕ → List PingResult → ℕ
results_with i = count_p (λ r. r.id == i)

ids_with-map :
    (i : ℕ) (rows : List PingResult) → ids_with i (map (λ r. r.id) rows) ≡ results_with i rows
ids_with-map i [] = refl
ids_with-map i (r ∷ rows) = ground (arith, ids_with-map i rows)

length-delete :
    (ids : List ℕ) (rows : List PingResult)
    → length (delete_ids ids rows) + count_p (λ r. contains r.id ids) rows ≡ length rows
unfolding delete_ids
length-delete ids [] = refl
length-delete ids (r ∷ rows) = ground (arith, length-delete ids rows)

-- Rows with the id `j`, and rows with an id in a list that does not hold `j`, are different rows.
count-cons :
    (j : ℕ) (js : List ℕ) (rows : List PingResult)
    → contains j js ≡ false
    → count_p (λ r. contains r.id (j ∷ js)) rows
      ≡ results_with j rows + count_p (λ r. contains r.id js) rows
count-cons j js [] h = refl
count-cons j js (r ∷ rows) h = ground (arith, count-cons j js rows h)

count-nothing : (rows : List PingResult) → count_p (λ r. contains r.id []) rows ≡ 0
count-nothing [] = refl
count-nothing (r ∷ rows) = count-nothing rows

count-contains :
    (ids : List ℕ) (rows : List PingResult)
    → ((i : ℕ) → ids_with i ids ≤ results_with i rows)
    → ((i : ℕ) → results_with i rows ≤ 1)
    → count_p (λ r. contains r.id ids) rows ≡ length ids
count-contains [] rows there unique = count-nothing rows
count-contains (j ∷ js) rows there unique =
    let one : ids_with j js ≡ 0 = ground (arith, there j, unique j) in
    let apart : contains j js ≡ false = ground (arith, contains-ids_with j js) in
    let split = count-cons j js rows apart in
    let ih = count-contains js rows (λ i. ground (arith, there i)) unique in
    ground (arith, there j, unique j)

module _ (cutoff : ℕ) where
  abbrev pub expired_rows : List PingResult → ℕ
  expired_rows = count_p (is_expired cutoff)

  abbrev pub fresh_rows : List PingResult → List PingResult
  fresh_rows = select (λ r. not (is_expired cutoff r))

  abbrev expired_with : ℕ → List PingResult → ℕ
  expired_with i = count_p (λ r. r.id == i && is_expired cutoff r)

  abbrev fresh_with : ℕ → List PingResult → ℕ
  fresh_with i = count_p (λ r. r.id == i && not (is_expired cutoff r))

  with_splits :
      (i : ℕ) (rows : List PingResult)
      → expired_with i rows + fresh_with i rows ≡ results_with i rows
  with_splits i [] = refl
  with_splits i (r ∷ rows) = ground (arith, with_splits i rows)

  rows_split : (rows : List PingResult) → expired_rows rows + length (fresh_rows rows) ≡ length rows
  rows_split [] = refl
  rows_split (r ∷ rows) = ground (arith, rows_split rows)

  -- The ids of a batch are those of expired rows, at most one for each row.
  batch_ids_count :
      (limit i : ℕ) (rows : List PingResult)
      → ids_with i (batch_ids cutoff limit rows) ≤ expired_with i rows
  unfolding batch_ids
  batch_ids_count limit i rows =
      let p = λ (r : PingResult). r.id == i in
      let key = λ (r : PingResult). r.id in
      let chosen = select (is_expired cutoff) rows in
      omega (
        arith,
        ids_with-map i (take limit (sort_by key chosen)),
        count_p-take p limit (sort_by key chosen),
        count_p-sort p key chosen,
        count_p-select p (is_expired cutoff) rows,
      )

  length-batch_ids :
      (limit : ℕ) (rows : List PingResult)
      → length (batch_ids cutoff limit rows) ≡ min limit (expired_rows rows)
  unfolding batch_ids
  length-batch_ids limit rows =
      let key = λ (r : PingResult). r.id in
      let chosen = select (is_expired cutoff) rows in
      omega (
        arith,
        length-map (take limit (sort_by key chosen)) key,
        length-take-min limit (sort_by key chosen),
        length-sort key chosen,
        length-select (is_expired cutoff) rows,
      )

  -- A deletion of ids that no fresh row of the table has keeps the fresh rows, in their order.
  fresh-delete :
      (ids : List ℕ) (table rows : List PingResult)
      → ((i : ℕ) → ids_with i ids ≤ expired_with i table)
      → ((i : ℕ) → results_with i table ≤ 1)
      → ((i : ℕ) → fresh_with i rows ≤ fresh_with i table)
      → fresh_rows (delete_ids ids rows) ≡ fresh_rows rows
  unfolding delete_ids
  fresh-delete ids table [] there unique inside = refl
  fresh-delete ids table (r ∷ rows) there unique inside =
      let ih = fresh-delete ids table rows there unique (λ i. ground (arith, inside i)) in
      let split = with_splits r.id table in
      ground (arith, there r.id, unique r.id, inside r.id, contains-ids_with r.id ids)

  results_with-delete :
      (i : ℕ) (ids : List ℕ) (rows : List PingResult)
      → results_with i (delete_ids ids rows) ≤ results_with i rows
  unfolding delete_ids
  results_with-delete i ids [] = omega arith
  results_with-delete i ids (r ∷ rows) = ground (arith, results_with-delete i ids rows)

  -- One batch deletes `limit` expired rows, or all of them, and no fresh one.
  prune_batch_lem :
      (limit : ℕ) (rows : List PingResult)
      → ((i : ℕ) → results_with i rows ≤ 1)
      → (length (prune_batch cutoff limit rows) + min limit (expired_rows rows) ≡ length rows)
        × (fresh_rows (prune_batch cutoff limit rows) ≡ fresh_rows rows)
        × (expired_rows (prune_batch cutoff limit rows)
            ≡ expired_rows rows - min limit (expired_rows rows))
        × ((i : ℕ) → results_with i (prune_batch cutoff limit rows) ≤ 1)
  unfolding prune_batch
  prune_batch_lem limit rows unique =
      let ids = batch_ids cutoff limit rows in
      let there = λ (i : ℕ). batch_ids_count limit i rows in
      let kept = fresh-delete ids rows rows there unique (λ i. omega arith) in
      let size = length-delete ids rows in
      let hits = count-contains ids rows (λ i. omega (arith, there i, with_splits i rows)) unique in
      let many = length-batch_ids limit rows in
      (
        omega arith,
        kept,
        omega (
          arith,
          rows_split (delete_ids ids rows),
          rows_split rows,
          ap (length {A = PingResult}) kept,
        ),
        λ i. omega (arith, results_with-delete i ids rows, unique i),
      )

  fresh-none : (rows : List PingResult) → expired_rows rows ≡ 0 → fresh_rows rows ≡ rows
  fresh-none [] h = refl
  fresh-none (r ∷ rows) h = ground (arith, fresh-none rows)

  prune_loop_lem :
      (limit fuel total : ℕ) (rows : List PingResult)
      → 0 < limit
      → expired_rows rows < fuel
      → ((i : ℕ) → results_with i rows ≤ 1)
      → prune_loop cutoff limit fuel total rows ≡ some (total + expired_rows rows, fresh_rows rows)
  unfolding prune_loop
  prune_loop_lem limit zero total rows some_limit enough unique = absurd (omega arith)
  prune_loop_lem limit (suc fuel) total rows some_limit enough unique =
      let rest = prune_batch cutoff limit rows in
      let once = prune_batch_lem limit rows unique in
      let deleted = length rows - length rest in
      elim (Bool-cases (deleted == 0)) [
        | inl stops ↦
            let none_left : expired_rows rows ≡ 0 = ground arith in
            let gone : expired_rows rest ≡ 0 = omega (arith, once.2) in
            rw stops (ground (arith, fresh-none rest gone, once.1))
        | inr goes_on ↦
            let fewer : expired_rows rest < fuel = ground arith in
            let ih = prune_loop_lem limit fuel (total + deleted) rest some_limit fewer once.3 in
            let sum : total + deleted + expired_rows rest ≡ total + expired_rows rows =
              omega (arith, once.0, once.2) in
            rw goes_on (ground (arith, ih, sum, once.1))
      ]

-- With unique ids, a batch limit of at least 1 and more fuel than there are expired rows, pruning
-- ends: the rows older than the retention period are gone, all other rows are kept in their order,
-- and the number returned is the number of rows deleted.
pub prune_exact :
    (now retention_days batch_limit fuel : ℕ) (rows : List PingResult)
    → 0 < batch_limit
    → expired_rows (cutoff_of now retention_days) rows < fuel
    → ((i : ℕ) → results_with i rows ≤ 1)
    → prune_ping_results now retention_days batch_limit fuel rows
      ≡ some (
        expired_rows (cutoff_of now retention_days) rows,
        fresh_rows (cutoff_of now retention_days) rows,
      )
unfolding prune_ping_results
prune_exact now retention_days batch_limit fuel rows some_limit enough unique =
    prune_loop_lem (cutoff_of now retention_days) batch_limit fuel 0 rows some_limit enough unique
    ∙ ground arith
