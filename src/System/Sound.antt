-- ===== src/System/Sound.antt =====
-- What every transaction keeps true of the database.
use ping_gaurd.Prelude.{
  ℕ, ◌<◌, ◌≡◌, refl, Bool, true, not, ◌&&◌, ◌||◌, inl, inr, Option, none, some, arith, length,
  Option-cases, Bool-cases, leb,
}
use ping_gaurd.Models.{Result-cases, Monitor, Database, ok, find_monitor, update_monitor_row}
use ping_gaurd.Models.Rows.{find_monitor_id}
use ping_gaurd.Net.Resolve.{UrlLibrary}
use ping_gaurd.Schemas.{MonitorCreate, MonitorUpdate, validate_create, validate_update, given}
use ping_gaurd.Api.{create_monitor, update_monitor, new_monitor, updated_row}
use ping_gaurd.Api.Updates.{update_consistent, update_exact, create_consistent}
use ping_gaurd.Schemas.Rules.{IsConsistent}
use ping_gaurd.System.Rows.{All-update_row, rows_with-replace, length-update_row, All_found}
use ping_gaurd.System.Stored.{IsStored, rewrite-IsStored, insert_row-IsStored}

-- A column of seconds within the bounds that the schemas set.
abbrev pub in_bounds : Option ℕ → Bool
in_bounds none = true
in_bounds (some n) = leb 15 n && leb n 86400

-- A row whose schedule works: both intervals are within bounds, the keep-alive columns fit the mode,
-- and keep-alive, where it is enabled, has a time.
abbrev pub IsSoundRow : Monitor → Type 0
IsSoundRow m =
    (in_bounds (some m.check_interval_seconds) ≡ true)
    × (in_bounds m.keep_alive_interval_seconds ≡ true)
    × IsConsistent m.mode m.keep_alive_enabled m.keep_alive_interval_seconds m.keep_alive_path
    × ((not m.keep_alive_enabled || given m.next_keep_alive_at) ≡ true)

-- Keys are unique and below their sequences, the rows are sound, no more of them than the limit, and
-- every result belongs to a monitor that is stored.
abbrev pub IsSound : (max_monitors : ℕ) → Database → Type 0
IsSound = IsStored IsSoundRow

module _ (max_monitors : ℕ) where
  pub created-IsSoundRow :
      (lib : UrlLibrary) (id now : ℕ) (payload : MonitorCreate)
      → validate_create lib payload ≡ ok tt
      → IsSoundRow (new_monitor id now payload)
  unfolding validate_create new_monitor
  created-IsSoundRow lib id now payload h =
      let consistent = create_consistent lib id now payload h in
      (ground arith, ground arith, consistent.0, ground arith)

  pub updated-IsSoundRow :
      (now : ℕ) (m row : Monitor) (payload : MonitorUpdate)
      → validate_update payload ≡ ok tt
      → updated_row now m payload ≡ ok row
      → IsSoundRow m
      → IsSoundRow row
  unfolding validate_update
  updated-IsSoundRow now m row payload valid h sound =
      let consistent = update_consistent now m payload h in
      let exact = update_exact now m payload h in
      (ground arith, ground arith, consistent.0, ground arith)

  pub new_monitor_id : (id now : ℕ) (payload : MonitorCreate) → (new_monitor id now payload).id ≡ id
  unfolding new_monitor
  new_monitor_id id now payload = refl

  pub create-IsSound :
      (lib : UrlLibrary) (now : ℕ) (payload : MonitorCreate) (db : Database)
      → validate_create lib payload ≡ ok tt
      → IsSound max_monitors db
      → IsSound max_monitors (create_monitor max_monitors now payload db).1
  unfolding create_monitor
  create-IsSound lib now payload db valid s =
      elim (Bool-cases (leb max_monitors (length db.monitors))) [
        | inl full ↦ rw full s
        | inr room ↦
            let created = new_monitor db.next_monitor_id now payload in
            rw room (
              insert_row-IsStored IsSoundRow max_monitors db created s
                (new_monitor_id db.next_monitor_id now payload)
                (created-IsSoundRow lib db.next_monitor_id now payload valid) (ground arith))
      ]

  pub update-IsSound :
      (now id : ℕ) (payload : MonitorUpdate) (db : Database)
      → validate_update payload ≡ ok tt
      → IsSound max_monitors db
      → IsSound max_monitors (update_monitor now id payload db).1
  unfolding update_monitor
  update-IsSound now id payload db valid s = elim (Option-cases (find_monitor id db.monitors)) [
    | inl missing ↦ rw (missing, update_monitor) s
    | inr (m, found) ↦ elim (Result-cases (updated_row now m payload)) [
      | inr (e, failed) ↦ rw (found, failed, update_monitor) s
      | inl (row, updated) ↦
          let m_key = find_monitor_id id db.monitors m found in
          let exact = update_exact now m payload updated in
          let key : row.id ≡ id = ground arith in
          let m_fresh = All_found (λ m. m.id < db.next_monitor_id) id db.monitors found s.fresh in
          let m_sound = All_found IsSoundRow id db.monitors found s.rows in
          let row_sound = updated-IsSoundRow now m row payload valid updated m_sound in
          let ms = update_monitor_row id (λ old. row) db.monitors in
          rw (found, updated, update_monitor)
            (rewrite-IsStored IsSoundRow max_monitors db ms s
              (λ i. rows_with-replace id i row db.monitors key)
              (length-update_row id (λ old. row) db.monitors)
              (All-update_row (λ m. m.id < db.next_monitor_id) id (λ old. row) db.monitors
                (λ old h. omega arith) s.fresh)
              (All-update_row IsSoundRow id (λ old. row) db.monitors (λ old h. row_sound) s.rows))
    ]
  ]
