-- ===== src/System/Stored.antt =====
-- What the database keeps whatever the rows hold: keys, their sequences and the foreign key.
use ping_gaurd.Prelude.{
  ℕ, suc, ◌≤◌, ◌<◌, ◌≡◌, ◌∙◌, inl, inr, List, [], ◌∷◌, ◌++◌, All, arith, length, length-append,
  count_p, count_p-append, Option-cases, ◌==◌,
}
use ping_gaurd.Models.{
  Monitor, PingResult, Database, find_monitor, cascade_results, delete_monitor_row,
}
use ping_gaurd.Api.{delete_monitor}
use ping_gaurd.System.Rows.{
  All-delete_row, All_snoc, rows_with-delete, length-delete_row, rows_with-below, All_imp,
  All-cascade, count_p-cascade,
}
use ping_gaurd.Tasks.Sweep.Count.{rows_with}

abbrev pub result_count : ℕ → List PingResult → ℕ
result_count i = count_p (λ r. r.id == i)

-- Keys are unique and below their sequences, each row is as `R` says, no more of them than `bound`, and
-- every result belongs to a monitor that is stored.
pub record IsStored (R : Monitor → Type 0) (bound : ℕ) (db : Database) : Type 0 where
  pub unique : (i : ℕ) → rows_with i db.monitors ≤ 1
  pub fresh : All (λ m. m.id < db.next_monitor_id) db.monitors
  pub rows : All R db.monitors
  pub few : length db.monitors ≤ bound
  pub results_unique : (i : ℕ) → result_count i db.results ≤ 1
  pub results_fresh : All (λ r. r.id < db.next_result_id) db.results
  pub owned : All (λ r. rows_with r.monitor_id db.monitors ≡ 1) db.results

module _ (R : Monitor → Type 0) (bound : ℕ) where
  -- A write to the rows that keeps their number, their keys and what the rows satisfy.
  pub rewrite-IsStored :
      (db : Database) (ms : List Monitor)
      → IsStored R bound db
      → ((i : ℕ) → rows_with i ms ≡ rows_with i db.monitors)
      → length ms ≡ length db.monitors
      → All (λ m. m.id < db.next_monitor_id) ms
      → All R ms
      → IsStored R bound (record db { monitors = ms })
  rewrite-IsStored db ms s keys size fresh rows = record {
    unique = λ i. omega (arith, keys i, s.unique i);
    fresh = fresh;
    rows = rows;
    few = omega (arith, s.few);
    results_unique = s.results_unique;
    results_fresh = s.results_fresh;
    owned = owned_again db.results s.owned;
  }
    where
      owned_again :
          (rs : List PingResult)
          → All (λ r. rows_with r.monitor_id db.monitors ≡ 1) rs
          → All (λ r. rows_with r.monitor_id ms ≡ 1) rs
      owned_again [] h = tt
      owned_again (r ∷ rs) h = (keys r.monitor_id ∙ h.0, owned_again rs h.1)

  -- A row added under the next key.
  pub insert_row-IsStored :
      (db : Database) (created : Monitor)
      → IsStored R bound db
      → created.id ≡ db.next_monitor_id
      → R created
      → length db.monitors < bound
      → IsStored R bound (record db {
        monitors = db.monitors ++ created ∷ [];
        next_monitor_id = suc db.next_monitor_id;
      })
  insert_row-IsStored db created s key row room =
      let counts = λ (i : ℕ). count_p-append (λ m. m.id == i) db.monitors (created ∷ []) in
      let none_yet = rows_with-below db.next_monitor_id db.monitors s.fresh in
      record {
        unique = λ i. ground (arith, counts i, s.unique i);
        fresh =
            All_snoc (λ m. m.id < suc db.next_monitor_id) db.monitors created
              (All_imp db.monitors (λ m h. omega arith) s.fresh) (omega arith);
        rows = All_snoc R db.monitors created s.rows row;
        few = ground (arith, length-append db.monitors (created ∷ []));
        results_unique = s.results_unique;
        results_fresh = s.results_fresh;
        owned = All_imp db.results (λ r h. ground (arith, counts r.monitor_id)) s.owned;
      }

  -- A row taken out with its results, or no row where none has the key.
  pub delete_row-IsStored :
      (id : ℕ) (db : Database)
      → IsStored R bound db
      → IsStored R bound (record db {
        monitors = delete_monitor_row id db.monitors;
        results = cascade_results id db.results;
      })
  delete_row-IsStored id db s =
      let counts = λ (i : ℕ). rows_with-delete id i db.monitors in
      record {
        unique = λ i. ground (arith, counts i, s.unique i);
        fresh = All-delete_row (λ m. m.id < db.next_monitor_id) id db.monitors s.fresh;
        rows = All-delete_row R id db.monitors s.rows;
        few = omega (arith, length-delete_row id db.monitors, s.few);
        results_unique =
            λ i. omega (arith, s.results_unique i, count_p-cascade (λ r. r.id == i) id db.results);
        results_fresh =
            All_imp (cascade_results id db.results) (λ r h. h.0)
              (All-cascade (λ r. r.id < db.next_result_id) id db.results s.results_fresh);
        owned =
            All_imp (cascade_results id db.results) (λ r h. ground (arith, counts r.monitor_id))
              (All-cascade (λ r. rows_with r.monitor_id db.monitors ≡ 1) id db.results s.owned);
      }

  pub delete-IsStored :
      (id : ℕ) (db : Database) → IsStored R bound db → IsStored R bound (delete_monitor id db).1
  unfolding delete_monitor
  delete-IsStored id db s = elim (Option-cases (find_monitor id db.monitors)) [
    | inl missing ↦ rw (missing, delete_monitor) s
    | inr (m, found) ↦ rw (found, delete_monitor) (delete_row-IsStored id db s)
  ]

-- Another bound on the number of rows.
pub rebound-IsStored :
    (R : Monitor → Type 0) (bound bound' : ℕ) (db : Database)
    → IsStored R bound db
    → length db.monitors ≤ bound'
    → IsStored R bound' db
rebound-IsStored R bound bound' db s few = record {
  unique = s.unique;
  fresh = s.fresh;
  rows = s.rows;
  few = few;
  results_unique = s.results_unique;
  results_fresh = s.results_fresh;
  owned = s.owned;
}
