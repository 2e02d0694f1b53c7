-- ===== src/Migrations/Declared.antt =====
-- The tables of app/models.py.
use ping_gaurd.Prelude.{Bool, true, false, String, none, [], ◌∷◌, map}
use ping_gaurd.Migrations.{
  ColumnType, integer, boolean, float, timestamp, varchar, Column, ForeignKey, Table,
}

abbrev pub model_column : String → ColumnType → Bool → Column
model_column name kind nullable = record {
  name = name;
  kind = kind;
  nullable = nullable;
  server_default = none;
}

-- The class `Monitor`; an index is named for its table and column.
unfoldable pub model_monitors : Table
model_monitors = record {
  columns =
      model_column "id" integer false
      ∷ model_column "name" (varchar 120) false
      ∷ model_column "url" (varchar 2048) false
      ∷ model_column "check_interval_seconds" integer false
      ∷ model_column "status" (varchar 20) false
      ∷ model_column "last_checked_at" timestamp true
      ∷ model_column "next_check_at" timestamp true
      ∷ model_column "mode" (varchar 30) false
      ∷ model_column "keep_alive_enabled" boolean false
      ∷ model_column "keep_alive_interval_seconds" integer true
      ∷ model_column "keep_alive_path" (varchar 255) true
      ∷ model_column "next_keep_alive_at" timestamp true
      ∷ [];
  primary_key = record { name = ""; column = "id" };
  foreign_keys = [];
  checks =
      record {
        name = "ck_monitors_status";
        column = "status";
        values = "up" ∷ "degraded" ∷ "down" ∷ "pending" ∷ [];
      }
      ∷ record {
        name = "ck_monitors_mode";
        column = "mode";
        values = "monitor" ∷ "keep_alive" ∷ "monitor_and_keep_alive" ∷ [];
      }
      ∷ [];
  indexes =
      record { name = "ix_monitors_next_check_at"; columns = "next_check_at" ∷ [] }
      ∷ record { name = "ix_monitors_next_keep_alive_at"; columns = "next_keep_alive_at" ∷ [] }
      ∷ [];
  rows = [];
}

-- The class `PingResult`.
unfoldable pub model_ping_results : Table
model_ping_results = record {
  columns =
      model_column "id" integer false
      ∷ model_column "monitor_id" integer false
      ∷ model_column "check_type" (varchar 20) false
      ∷ model_column "status_code" integer true
      ∷ model_column "latency_ms" float true
      ∷ model_column "error" (varchar 500) true
      ∷ model_column "checked_at" timestamp false
      ∷ [];
  primary_key = record { name = ""; column = "id" };
  foreign_keys =
      record {
        name = "";
        column = "monitor_id";
        target = "monitors";
        target_column = "id";
        cascades = true;
      }
      ∷ [];
  checks =
      record {
        name = "ck_ping_results_check_type";
        column = "check_type";
        values = "monitor" ∷ "keep_alive" ∷ [];
      }
      ∷ [];
  indexes =
      record { name = "ix_ping_results_checked_at"; columns = "checked_at" ∷ [] }
      ∷ record {
        name = "idx_ping_results_monitor_checked";
        columns = "monitor_id" ∷ "checked_at" ∷ [];
      }
      ∷ [];
  rows = [];
}

abbrev without_default : Column → Column
without_default c = record c { server_default = none }

abbrev without_name : ForeignKey → ForeignKey
without_name k = record k { name = "" }

-- A table without the names of its keys, its defaults and its rows: those the models leave to the
-- database, or to the session that inserts a row.
abbrev pub stripped : Table → Table
stripped t = record t {
  columns = map without_default t.columns;
  primary_key = record (t.primary_key) { name = "" };
  foreign_keys = map without_name t.foreign_keys;
  rows = [];
}
