-- ===== src/Models.antt =====
-- app/models.py and the two session providers of app/db.py. A table is the list of its rows in the
-- order of their ids, and a timestamp is a number of microseconds since the epoch.
pub mod Rows
pub mod Columns
use ping_gaurd.Prelude.{
  ℕ, zero, suc, ◌+◌, ◌*◌, Text, String, Bool, true, false, not, Option, none, some, List, [], ◌∷◌,
  ◌++◌, map, ◌==◌, ◌≡◌, refl, ◌⊎◌, inl, inr, if◌then◌else◌,
}
use ping_gaurd.Enums.{MonitorStatus, MonitorMode}

pub record Monitor : Type 0 where
  pub id : ℕ
  pub name : Text
  pub url : Text
  pub check_interval_seconds : ℕ
  pub status : MonitorStatus
  pub last_checked_at : Option ℕ
  pub next_check_at : Option ℕ
  pub mode : MonitorMode
  pub keep_alive_enabled : Bool
  pub keep_alive_interval_seconds : Option ℕ
  pub keep_alive_path : Option Text
  pub next_keep_alive_at : Option ℕ

pub record PingResult : Type 0 where
  pub id : ℕ
  pub monitor_id : ℕ
  pub check_type : String
  pub status_code : Option ℕ
  pub latency_ms : Option ℕ
  pub error : Option String
  pub checked_at : ℕ

-- The two tables, with the sequences of their primary keys.
pub record Database : Type 0 where
  pub monitors : List Monitor
  pub results : List PingResult
  pub next_monitor_id : ℕ
  pub next_result_id : ℕ

-- `timedelta(seconds=n)`
abbrev pub timedelta_seconds : ℕ → ℕ
timedelta_seconds n = n * 1000000

-- `session.get(Monitor, id)`
unfoldable pub find_monitor : ℕ → List Monitor → Option Monitor
find_monitor id [] = none
find_monitor id (m ∷ ms) = if m.id == id then some m else find_monitor id ms

-- `UPDATE monitors SET ... WHERE id = ...`
unfoldable pub update_monitor_row : ℕ → (Monitor → Monitor) → List Monitor → List Monitor
update_monitor_row id f = map (λ m. if m.id == id then f m else m)

-- `DELETE FROM monitors WHERE id = ...`
unfoldable pub delete_monitor_row : ℕ → List Monitor → List Monitor
delete_monitor_row id [] = []
delete_monitor_row id (m ∷ ms) =
    let rest = delete_monitor_row id ms in if m.id == id then rest else m ∷ rest

-- The foreign key's `ON DELETE CASCADE`.
unfoldable pub cascade_results : ℕ → List PingResult → List PingResult
cascade_results id [] = []
cascade_results id (r ∷ rs) =
    let rest = cascade_results id rs in if r.monitor_id == id then rest else r ∷ rest

-- A session's body returns its result and what it has written, or raises; an exception that leaves
-- the `with` block rolls back what was not committed.
pub data Result {ℓ} (E : Type ℓ) (A : Type ℓ) : Type ℓ where
  ok : A → Result E A
  raise : E → Result E A

-- To split on what a call comes to, with the equation kept.
pub Result-cases :
    {E A : Type 0} (r : Result E A) → ((a : A) × (r ≡ ok a)) ⊎ ((e : E) × (r ≡ raise e))
Result-cases (ok a) = inl (a, refl)
Result-cases (raise e) = inr (e, refl)
