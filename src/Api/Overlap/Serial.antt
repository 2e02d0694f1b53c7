-- ===== src/Api/Overlap/Serial.antt =====
-- A handler that no other commit overlaps is the handler taken as one transaction.
use ping_gaurd.Prelude.{
  ℕ, ◌≤◌, ◌≡◌, ◌∙◌, refl, ap, some, inl, inr, List, [], ◌∷◌, arith, text_eq, text_eq→eq, ◌==◌,
  Bool-cases, Option-cases,
}
use ping_gaurd.Models.{Monitor, Database, Result-cases, ok, find_monitor, update_monitor_row}
use ping_gaurd.Models.Columns.{
  mode_eq, flag_eq, option_eq, mode_eq→eq, flag_eq→eq, number_eq→eq, option_eq→eq, column_loaded,
}
use ping_gaurd.Schemas.{MonitorCreate, MonitorUpdate}
use ping_gaurd.Api.{create_monitor, update_monitor, delete_monitor, updated_row}
use ping_gaurd.Api.Updates.{update_exact}
use ping_gaurd.Api.Overlap.{write_changed, create_over, update_over, delete_over}
use ping_gaurd.Tasks.Sweep.Count.{rows_with}

write_changed_loaded :
    (now : ℕ) (m : Monitor) (payload : MonitorUpdate) {row : Monitor}
    → updated_row now m payload ≡ ok row
    → write_changed m row m ≡ row
unfolding write_changed
write_changed_loaded now m payload {row} h =
    let exact = update_exact now m payload h in
    let number = option_eq→eq ◌==◌ number_eq→eq in
    ground (
      arith,
      column_loaded text_eq text_eq→eq m.name row.name,
      column_loaded ◌==◌ number_eq→eq m.check_interval_seconds row.check_interval_seconds,
      column_loaded mode_eq mode_eq→eq m.mode row.mode,
      column_loaded flag_eq flag_eq→eq m.keep_alive_enabled row.keep_alive_enabled,
      column_loaded (option_eq ◌==◌) number m.keep_alive_interval_seconds
          row.keep_alive_interval_seconds,
      column_loaded (option_eq text_eq) (option_eq→eq text_eq text_eq→eq) m.keep_alive_path
          row.keep_alive_path,
      column_loaded (option_eq ◌==◌) number m.next_keep_alive_at row.next_keep_alive_at,
    )

update_row_absent :
    (i : ℕ) (f : Monitor → Monitor) (ms : List Monitor)
    → rows_with i ms ≡ 0
    → update_monitor_row i f ms ≡ ms
unfolding update_monitor_row
update_row_absent i f [] none_there = refl
update_row_absent i f (m ∷ ms) none_there = elim (Bool-cases (m.id == i)) [
  | inl mine ↦ absurd (ground arith)
  | inr other ↦ ground (arith, update_row_absent i f ms)
]

-- Where the key is unique, an UPDATE does to the row that is found what it does to the table.
update_row_found :
    (i : ℕ) (f : Monitor → Monitor) (row : Monitor) (ms : List Monitor) {m : Monitor}
    → rows_with i ms ≤ 1
    → find_monitor i ms ≡ some m
    → f m ≡ row
    → update_monitor_row i f ms ≡ update_monitor_row i (λ old. row) ms
unfolding find_monitor update_monitor_row
update_row_found i f row [] unique found same = refl
update_row_found i f row (x ∷ ms) {m} unique found same = elim (Bool-cases (x.id == i)) [
  | inl mine ↦
      let single : x ≡ m = ground arith in
      let rest : rows_with i ms ≡ 0 = ground arith in
      let written : f x ≡ row = ap f single ∙ same in
      ground
        (arith, update_row_absent i f ms rest, update_row_absent i (λ (old : Monitor). row) ms rest)
  | inr other ↦
      let found_below : find_monitor i ms ≡ some m = ground arith in
      let unique_below : rows_with i ms ≤ 1 = ground arith in
      ground (arith, update_row_found i f row ms unique_below found_below same)
]

-- Where no other row has the key, an UPDATE of the changed columns replaces the row.
pub update_serial :
    (now id : ℕ) (payload : MonitorUpdate) (db : Database)
    → rows_with id db.monitors ≤ 1
    → update_over now id payload db db ≡ update_monitor now id payload db
unfolding update_over update_monitor
update_serial now id payload db unique = elim (Option-cases (find_monitor id db.monitors)) [
  | inl missing ↦ ground arith
  | inr (m, found) ↦ elim (Result-cases (updated_row now m payload)) [
    | inr (e, failed) ↦ ground arith
    | inl (row, updated) ↦
        let written = write_changed_loaded now m payload updated in
        ground (
          arith,
          written,
          update_row_found id (write_changed m row) row db.monitors unique found written,
        )
  ]
]

pub create_serial :
    (max_monitors now : ℕ) (payload : MonitorCreate) (db : Database)
    → create_over max_monitors now payload db db ≡ create_monitor max_monitors now payload db
unfolding create_over create_monitor
create_serial max_monitors now payload db = refl

pub delete_serial : (id : ℕ) (db : Database) → delete_over id db db ≡ delete_monitor id db
unfolding delete_over delete_monitor
delete_serial id db = refl
