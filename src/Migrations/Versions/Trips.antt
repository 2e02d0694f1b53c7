-- ===== src/Migrations/Versions/Trips.antt =====
-- All revisions up, and down again.
use ping_gaurd.Prelude.{◌≡◌, refl, ◌∙◌, false, String, List, [], ◌∷◌, All}
use ping_gaurd.Models.{ok}
use ping_gaurd.Migrations.{
  Check, Index, Row, Table, Schema, Step, run_steps, has_table, targets_exist, has_index,
  is_referenced, alter_table, create_table, remove_table, drop_table, create_index, drop_index,
  all_satisfy, create_check, drop_check, update_invalid,
}
use ping_gaurd.Migrations.Declared.{model_monitors, model_ping_results, stripped}
use ping_gaurd.Migrations.Versions.{
  monitors_columns, ping_results_columns, monitor_id_key, statuses, modes, check_types,
  initial_upgrade, initial_downgrade, constraints_upgrade, constraints_downgrade, index_upgrade,
  index_downgrade, upgrade_head, downgrade_base,
}

abbrev pub index : String → List String → Index
index name columns = record { name = name; columns = columns }

abbrev pub check : String → String → List String → Check
check name column values = record { name = name; column = column; values = values }

abbrev pub monitors_head : Table
monitors_head = record {
  columns = monitors_columns;
  primary_key = record { name = "pk_monitors"; column = "id" };
  foreign_keys = [];
  checks =
      check "ck_monitors_status" "status" statuses ∷ check "ck_monitors_mode" "mode" modes ∷ [];
  indexes =
      index "ix_monitors_next_check_at" ("next_check_at" ∷ [])
      ∷ index "ix_monitors_next_keep_alive_at" ("next_keep_alive_at" ∷ [])
      ∷ [];
  rows = [];
}

abbrev pub ping_results_head : Table
ping_results_head = record {
  columns = ping_results_columns;
  primary_key = record { name = "pk_ping_results"; column = "id" };
  foreign_keys = monitor_id_key ∷ [];
  checks = check "ck_ping_results_check_type" "check_type" check_types ∷ [];
  indexes =
      index "ix_ping_results_checked_at" ("checked_at" ∷ [])
      ∷ index "idx_ping_results_monitor_checked" ("monitor_id" ∷ "checked_at" ∷ [])
      ∷ [];
  rows = [];
}

abbrev pub at_head : Schema → Schema
at_head db = ("ping_results", ping_results_head) ∷ ("monitors", monitors_head) ∷ db

-- Another schema's tables beside which the program's are made.
abbrev pub IsFree : Schema → Type 0
IsFree db =
    All (λ name. (has_table name db ≡ false) × (is_referenced name db ≡ false))
      ("monitors" ∷ "ping_results" ∷ [])
    × All (λ name. has_index name db ≡ false)
        ("ix_monitors_next_check_at" ∷ "ix_monitors_next_keep_alive_at"
          ∷ "ix_ping_results_checked_at" ∷ "ix_ping_results_monitor_id"
          ∷ "idx_ping_results_monitor_checked" ∷ [])

-- The tables as the first revision makes them, with rows.
abbrev pub monitors_initial : List Row → Table
monitors_initial rows = record monitors_head { checks = []; rows = rows }

abbrev pub ping_results_initial : List Row → Table
ping_results_initial rows = record ping_results_head {
  checks = [];
  indexes =
      index "ix_ping_results_checked_at" ("checked_at" ∷ [])
      ∷ index "ix_ping_results_monitor_id" ("monitor_id" ∷ [])
      ∷ index "idx_ping_results_monitor_checked" ("monitor_id" ∷ "checked_at" ∷ [])
      ∷ [];
  rows = rows;
}

abbrev pub at_initial : List Row → List Row → Schema → Schema
at_initial ms rs db =
    ("ping_results", ping_results_initial rs) ∷ ("monitors", monitors_initial ms) ∷ db

-- The tables with the second revision's constraints.
abbrev pub at_constraints : List Row → List Row → Schema → Schema
at_constraints ms rs db =
    ("ping_results", record (ping_results_initial rs) { checks = ping_results_head.checks })
    ∷ ("monitors", record (monitors_initial ms) { checks = monitors_head.checks })
    ∷ db

run_steps-two :
    (s t : Step) (steps : List Step) (a b c : Schema)
    → s a ≡ ok b
    → t b ≡ ok c
    → run_steps (s ∷ t ∷ steps) a ≡ run_steps steps c
unfolding run_steps
run_steps-two s t steps a b c h k = rw (run_steps, h, k) refl

initial_upgrade_lem : (db : Schema) → IsFree db → initial_upgrade db ≡ ok (at_initial [] [] db)
unfolding initial_upgrade run_steps create_table targets_exist create_index alter_table has_table
    has_index
initial_upgrade_lem db (((m, mr), ((p, pr), u)), (i1, (i2, (i3, (i4, (i5, v)))))) =
    rw (initial_upgrade, run_steps, create_table, m, i1, i2, p, i3, i4, i5) refl

constraints_upgrade_empty :
    (db : Schema) → constraints_upgrade (at_initial [] [] db) ≡ ok (at_constraints [] [] db)
unfolding constraints_upgrade run_steps update_invalid create_check alter_table all_satisfy
constraints_upgrade_empty db = refl

pub constraints_downgrade_lem :
    (ms rs : List Row) (db : Schema)
    → constraints_downgrade (at_constraints ms rs db) ≡ ok (at_initial ms rs db)
unfolding constraints_downgrade run_steps drop_check alter_table
constraints_downgrade_lem ms rs db = refl

index_upgrade_lem : (db : Schema) → index_upgrade (at_constraints [] [] db) ≡ ok (at_head db)
unfolding index_upgrade run_steps drop_index
index_upgrade_lem db = refl

downgrade_base_lem : (db : Schema) → IsFree db → downgrade_base (at_head db) ≡ ok db
unfolding downgrade_base initial_downgrade constraints_downgrade index_downgrade run_steps
    drop_table remove_table create_index drop_check drop_index alter_table is_referenced has_index
downgrade_base_lem db (((m, mr), ((p, pr), u)), (i1, (i2, (i3, (i4, (i5, v)))))) =
    rw (i4, pr, mr) refl

upgrade_head_lem : (db : Schema) → IsFree db → upgrade_head db ≡ ok (at_head db)
unfolding upgrade_head run_steps
upgrade_head_lem db free =
    run_steps-two initial_upgrade constraints_upgrade (index_upgrade ∷ []) db (at_initial [] [] db)
      (at_constraints [] [] db) (initial_upgrade_lem db free) (constraints_upgrade_empty db)
    ∙ rw (run_steps, index_upgrade_lem db) refl

stripped_head :
    (stripped monitors_head ≡ model_monitors) × (stripped ping_results_head ≡ model_ping_results)
unfolding model_monitors model_ping_results
stripped_head = (refl, refl)

-- On a database that has no table of the program's names and no index of theirs, the three revisions
-- make the tables of app/models.py, with columns, keys, checks and indexes, and the three downgrades
-- give back the database as it was.
pub upgrade_head-downgrade_base :
    (db : Schema)
    → IsFree db
    → (monitors ping_results : Table) × ((upgrade_head db
          ≡ ok (("ping_results", ping_results) ∷ ("monitors", monitors) ∷ db))
        × (((stripped monitors ≡ model_monitors) × (stripped ping_results ≡ model_ping_results))
            × (run_steps (upgrade_head ∷ downgrade_base ∷ []) db ≡ ok db)))
unfolding run_steps
upgrade_head-downgrade_base db free = (
  monitors_head,
  ping_results_head,
  (
    upgrade_head_lem db free,
    (
      stripped_head,
      run_steps-two upgrade_head downgrade_base [] db (at_head db) db (upgrade_head_lem db free)
          (downgrade_base_lem db free),
    ),
  ),
)
