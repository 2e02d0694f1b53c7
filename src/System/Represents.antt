-- ===== src/System/Represents.antt =====
-- What the requests do to the catalogue that the database represents.
use mathlib.Core.Option
use ping_gaurd.Prelude.{
  ℕ, ◌≡◌, refl, sym, ◌∙◌, true, false, inl, inr, Option, none, some, List, [], ◌∷◌, arith, length,
  length-append, leb, Option-cases, Bool-cases,
}
use ping_gaurd.Models.{Monitor, Database, Result-cases, ok, raise, find_monitor}
use ping_gaurd.Models.Rows.{find_monitor-delete, find_monitor_id}
use ping_gaurd.Schemas.{MonitorCreate, MonitorUpdate, validate_keep_alive_rules}
use ping_gaurd.Api.{
  create_monitor, update_monitor, delete_monitor, new_monitor, updated_row, reset_keep_alive,
  check_merged, assign,
}
use ping_gaurd.Api.Updates.{update_consistent, update_exact}
use ping_gaurd.Api.Table.{find_monitor-replace, find_monitor-append}
use ping_gaurd.System.{create, update, delete}
use ping_gaurd.System.Rows.{found_count, length-update_row, length-delete_row}
use ping_gaurd.System.Rows.{found_count, All_imp}
use ping_gaurd.System.Sound.{IsSound}
use ping_gaurd.System.Catalog.{Config, config_of, requested, edit, Catalog, act}

abbrev pub configured : ℕ → List Monitor → Option Config
configured j ms = Option.map config_of (find_monitor j ms)

-- The catalogue shows, under every key, the configuration of the row with that key, and knows how many
-- rows there are and which key is next.
pub record Represents (db : Database) (c : Catalog) : Type 0 where
  pub shows : (j : ℕ) → c.configs j ≡ configured j db.monitors
  pub sized : c.size ≡ length db.monitors
  pub numbered : c.next ≡ db.next_monitor_id

-- The handler's merge of request and row is the edit of its configuration.
updated_row-edit :
    (now : ℕ) (m row : Monitor) (payload : MonitorUpdate)
    → updated_row now m payload ≡ ok row
    → edit payload (config_of m) ≡ some (config_of row)
unfolding edit
updated_row-edit now m row payload h =
    let exact = update_exact now m payload h in
    let consistent = update_consistent now m payload h in ground arith

refused-edit :
    (now : ℕ) (m : Monitor) (payload : MonitorUpdate) {e : _}
    → updated_row now m payload ≡ raise e
    → edit payload (config_of m) ≡ none
unfolding updated_row check_merged assign reset_keep_alive validate_keep_alive_rules edit
refused-edit now m payload h = ground arith

module _ (max_monitors : ℕ) where
  new_monitor_config :
      (id now : ℕ) (payload : MonitorCreate)
      → ((new_monitor id now payload).id ≡ id)
        × (config_of (new_monitor id now payload) ≡ requested payload)
  unfolding new_monitor
  new_monitor_config id now payload = (refl, refl)

  pub create-Represents :
      (now : ℕ) (payload : MonitorCreate) (db : Database) (c : Catalog)
      → IsSound max_monitors db
      → Represents db c
      → Represents
          (create_monitor max_monitors now payload db).1
          (act max_monitors (create now payload) c)
  unfolding create_monitor act
  create-Represents now payload db c s r =
      elim (Bool-cases (leb max_monitors (length db.monitors))) [
        | inl full ↦
            let same : leb max_monitors c.size ≡ true = ground (arith, r.sized) in rw (full, same) r
        | inr room ↦
            let same : leb max_monitors c.size ≡ false = ground (arith, r.sized) in
            let created = new_monitor db.next_monitor_id now payload in
            let key = new_monitor_config db.next_monitor_id now payload in
            rw (room, same)
              (record {
                shows = λ j. ground (
                  arith,
                  r.shows j,
                  r.numbered,
                  find_monitor-append j db.monitors created
                      (All_imp db.monitors (λ m h. omega arith) s.fresh),
                );
                sized = omega (arith, r.sized, length-append db.monitors (created ∷ []));
                numbered = omega (arith, r.numbered);
              })
      ]

  pub update-Represents :
      (now id : ℕ) (payload : MonitorUpdate) (db : Database) (c : Catalog)
      → Represents db c
      → Represents (update_monitor now id payload db).1 (act max_monitors (update now id payload) c)
  unfolding update_monitor act
  update-Represents now id payload db c r = elim (Option-cases (find_monitor id db.monitors)) [
    | inl missing ↦
        let unknown : c.configs id ≡ none = ground (arith, r.shows id) in
        rw (missing, unknown, update_monitor, act) r
    | inr (m, found) ↦
        let known : c.configs id ≡ some (config_of m) = ground (arith, r.shows id) in
        elim (Result-cases (updated_row now m payload)) [
          | inr (e, failed) ↦
              let refused = refused-edit now m payload failed in
              rw (found, failed, known, refused, update_monitor, act) r
          | inl (row, updated) ↦
              let edited = updated_row-edit now m row payload updated in
              let m_key = find_monitor_id id db.monitors m found in
              let exact = update_exact now m payload updated in
              let key : row.id ≡ id = ground arith in
              rw (found, updated, known, edited, update_monitor, act)
                (record {
                  shows =
                      λ j. ground (arith, r.shows j, find_monitor-replace id j row db.monitors key);
                  sized = r.sized ∙ sym (length-update_row id (λ old. row) db.monitors);
                  numbered = r.numbered;
                })
        ]
  ]

  pub delete-Represents :
      (id : ℕ) (db : Database) (c : Catalog)
      → IsSound max_monitors db
      → Represents db c
      → Represents (delete_monitor id db).1 (act max_monitors (delete id) c)
  unfolding delete_monitor act
  delete-Represents id db c s r = elim (Option-cases (find_monitor id db.monitors)) [
    | inl missing ↦
        let unknown : c.configs id ≡ none = ground (arith, r.shows id) in
        rw (missing, unknown, delete_monitor, act) r
    | inr (m, found) ↦
        let known : c.configs id ≡ some (config_of m) = ground (arith, r.shows id) in
        rw (found, known, delete_monitor, act)
          (record {
            shows = λ j. ground (arith, r.shows j, find_monitor-delete id j db.monitors);
            sized = omega (
              arith,
              r.sized,
              length-delete_row id db.monitors,
              s.unique id,
              found_count id db.monitors found,
            );
            numbered = r.numbered;
          })
  ]
