-- ===== src/Migrations/Versions.antt =====
-- The three revisions, and the tables of app/models.py.
pub mod Trips
use ping_gaurd.Prelude.{Bool, true, false, String, Option, none, some, List, [], ◌∷◌, ◌++◌}
use ping_gaurd.Models.{Result}
use ping_gaurd.Migrations.{
  ColumnType, integer, boolean, float, timestamp, varchar, Column, PrimaryKey, ForeignKey, Step,
  MigrationError, Schema, run_steps, create_table, drop_table, create_index, drop_index,
  create_check, drop_check, update_invalid,
}

abbrev pub column : String → ColumnType → Bool → Option String → Column
column name kind nullable server_default = record {
  name = name;
  kind = kind;
  nullable = nullable;
  server_default = server_default;
}

abbrev pub monitors_columns : List Column
monitors_columns =
    column "id" integer false none
    ∷ column "name" (varchar 120) false none
    ∷ column "url" (varchar 2048) false none
    ∷ column "check_interval_seconds" integer false (some "60")
    ∷ column "status" (varchar 20) false (some "pending")
    ∷ column "last_checked_at" timestamp true none
    ∷ column "next_check_at" timestamp true none
    ∷ column "mode" (varchar 30) false (some "monitor")
    ∷ column "keep_alive_enabled" boolean false (some "false")
    ∷ column "keep_alive_interval_seconds" integer true none
    ∷ column "keep_alive_path" (varchar 255) true none
    ∷ column "next_keep_alive_at" timestamp true none
    ∷ []

abbrev pub ping_results_columns : List Column
ping_results_columns =
    column "id" integer false none
    ∷ column "monitor_id" integer false none
    ∷ column "check_type" (varchar 20) false (some "monitor")
    ∷ column "status_code" integer true none
    ∷ column "latency_ms" float true none
    ∷ column "error" (varchar 500) true none
    ∷ column "checked_at" timestamp false none
    ∷ []

abbrev pub monitor_id_key : ForeignKey
monitor_id_key = record {
  name = "fk_ping_results_monitor_id_monitors";
  column = "monitor_id";
  target = "monitors";
  target_column = "id";
  cascades = true;
}

-- Revision ea1acc2dea1b.
unfoldable pub initial_upgrade : Step
initial_upgrade = run_steps (
    create_table "monitors" monitors_columns (record { name = "pk_monitors"; column = "id" }) []
    ∷ create_index "ix_monitors_next_check_at" "monitors" ("next_check_at" ∷ [])
    ∷ create_index "ix_monitors_next_keep_alive_at" "monitors" ("next_keep_alive_at" ∷ [])
    ∷ create_table "ping_results" ping_results_columns
        (record { name = "pk_ping_results"; column = "id" }) (monitor_id_key ∷ [])
    ∷ create_index "ix_ping_results_checked_at" "ping_results" ("checked_at" ∷ [])
    ∷ create_index "ix_ping_results_monitor_id" "ping_results" ("monitor_id" ∷ [])
    ∷ create_index "idx_ping_results_monitor_checked" "ping_results"
        ("monitor_id" ∷ "checked_at" ∷ [])
    ∷ [])

unfoldable pub initial_downgrade : Step
initial_downgrade = run_steps (
    drop_index "idx_ping_results_monitor_checked"
    ∷ drop_index "ix_ping_results_monitor_id"
    ∷ drop_index "ix_ping_results_checked_at"
    ∷ drop_table "ping_results"
    ∷ drop_index "ix_monitors_next_keep_alive_at"
    ∷ drop_index "ix_monitors_next_check_at"
    ∷ drop_table "monitors"
    ∷ [])

abbrev pub statuses : List String
statuses = "up" ∷ "degraded" ∷ "down" ∷ "pending" ∷ []

abbrev pub modes : List String
modes = "monitor" ∷ "keep_alive" ∷ "monitor_and_keep_alive" ∷ []

abbrev pub check_types : List String
check_types = "monitor" ∷ "keep_alive" ∷ []

-- Revision 7a2e4b8c9d10.
unfoldable pub constraints_upgrade : Step
constraints_upgrade = run_steps (
    update_invalid "monitors" "status" "down" statuses
    ∷ create_check "ck_monitors_status" "monitors" "status" statuses
    ∷ create_check "ck_monitors_mode" "monitors" "mode" modes
    ∷ create_check "ck_ping_results_check_type" "ping_results" "check_type" check_types
    ∷ [])

unfoldable pub constraints_downgrade : Step
constraints_downgrade = run_steps (
    drop_check "ck_ping_results_check_type" "ping_results"
    ∷ drop_check "ck_monitors_mode" "monitors"
    ∷ drop_check "ck_monitors_status" "monitors"
    ∷ [])

-- Revision 8d3f1a4e2c6b.
unfoldable pub index_upgrade : Step
index_upgrade = run_steps (drop_index "ix_ping_results_monitor_id" ∷ [])

unfoldable pub index_downgrade : Step
index_downgrade =
    run_steps (create_index "ix_ping_results_monitor_id" "ping_results" ("monitor_id" ∷ []) ∷ [])

-- `alembic upgrade head` and `alembic downgrade base`.
unfoldable pub upgrade_head : Step
upgrade_head = run_steps (initial_upgrade ∷ constraints_upgrade ∷ index_upgrade ∷ [])

unfoldable pub downgrade_base : Step
downgrade_base = run_steps (index_downgrade ∷ constraints_downgrade ∷ initial_downgrade ∷ [])
