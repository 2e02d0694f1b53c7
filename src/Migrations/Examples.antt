-- ===== src/Migrations/Examples.antt =====
-- The theorems on the migrations at concrete databases.
use ping_gaurd.Prelude.{
  ◌≡◌, refl, true, ◌&&◌, ◌==ˢ◌, none, some, List, [], ◌∷◌, All, map, if◌then◌else◌,
}
use ping_gaurd.Models.{ok, raise}
use ping_gaurd.Migrations.{
  Row, Table, Schema, check_violated, run_steps, has_table, has_index, is_referenced, all_satisfy,
}
use ping_gaurd.Migrations.Declared.{model_monitors, model_ping_results, stripped}
use ping_gaurd.Migrations.Versions.{
  statuses, modes, check_types, constraints_upgrade, constraints_downgrade, upgrade_head,
  downgrade_base,
}
use ping_gaurd.Migrations.Versions.Trips.{
  IsFree, at_initial, at_constraints, upgrade_head-downgrade_base,
}
use ping_gaurd.Migrations.Cleanup.{cleaned, IsCleaned, constraints_upgrade_exact}

-- Alembic's own table.
abbrev version_table : Table
version_table = record {
  columns = [];
  primary_key = record { name = "alembic_version_pkc"; column = "version_num" };
  foreign_keys = [];
  checks = [];
  indexes = [];
  rows = [];
}

abbrev fresh : Schema
fresh = ("alembic_version", version_table) ∷ []

fresh-IsFree : IsFree fresh
unfolding has_table has_index is_referenced
fresh-IsFree = (((refl, refl), ((refl, refl), tt)), (refl, (refl, (refl, (refl, (refl, tt))))))

upgrade_head-downgrade_base_example :
    (monitors ping_results : Table) × ((upgrade_head fresh
        ≡ ok (("ping_results", ping_results) ∷ ("monitors", monitors) ∷ fresh))
      × (((stripped monitors ≡ model_monitors) × (stripped ping_results ≡ model_ping_results))
          × (run_steps (upgrade_head ∷ downgrade_base ∷ []) fresh ≡ ok fresh)))
upgrade_head-downgrade_base_example = upgrade_head-downgrade_base fresh fresh-IsFree

-- A monitor with a status of old.
abbrev row : Row
row = λ c. if c ==ˢ "status" then some "unknown" else if c ==ˢ "mode" then some "monitor" else none

abbrev rows : List Row
rows = row ∷ []

constraints_upgrade_exact_example :
    (constraints_upgrade (at_initial rows [] fresh) ≡ (
      if all_satisfy "mode" modes rows && all_satisfy "check_type" check_types []
      then ok (at_constraints (map cleaned rows) [] fresh)
      else raise check_violated))
    × (All IsCleaned rows
        × ((all_satisfy "status" statuses (map cleaned rows) ≡ true)
            × (constraints_downgrade (at_constraints (map cleaned rows) [] fresh)
                ≡ ok (at_initial (map cleaned rows) [] fresh))))
constraints_upgrade_exact_example = constraints_upgrade_exact rows [] fresh
