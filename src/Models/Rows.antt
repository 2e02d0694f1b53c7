-- ===== src/Models/Rows.antt =====
-- Lookups in the tables of app/models.py after an update or a deletion of one row.
use ping_gaurd.Prelude.{ℕ, ◌≡◌, List, [], ◌∷◌, none, some, ◌==◌, if◌then◌else◌, arith}
use mathlib.Core.Option
use ping_gaurd.Models.{Monitor, find_monitor, update_monitor_row, delete_monitor_row}

module _ (f : Monitor → Monitor) (same_id : (m : Monitor) → (f m).id ≡ m.id) where
  -- An update changes the row of its id and no other.
  pub find_monitor-update :
      (i j : ℕ) (ms : List Monitor)
      → find_monitor j (update_monitor_row i f ms)
        ≡ (if i == j then Option.map f (find_monitor j ms) else find_monitor j ms)
  unfolding find_monitor update_monitor_row
  find_monitor-update i j [] = ground arith
  find_monitor-update i j (m ∷ ms) = ground (arith, find_monitor-update i j ms, same_id m)

pub find_monitor-delete :
    (i j : ℕ) (ms : List Monitor)
    → find_monitor j (delete_monitor_row i ms) ≡ (if i == j then none else find_monitor j ms)
unfolding find_monitor delete_monitor_row
find_monitor-delete i j [] = ground arith
find_monitor-delete i j (m ∷ ms) = ground (arith, find_monitor-delete i j ms)

pub find_monitor_id :
    (i : ℕ) (ms : List Monitor) (m : Monitor) → find_monitor i ms ≡ some m → m.id ≡ i
unfolding find_monitor
find_monitor_id i [] m h = absurd (ground arith)
find_monitor_id i (r ∷ ms) m h = ground (arith, find_monitor_id i ms m)
