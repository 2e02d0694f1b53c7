-- ===== src/Api/Updates.antt =====
-- The rows that the handlers write: consistent, and what the request asked for.
use ping_gaurd.Prelude.{ℕ, ◌≡◌, ◌⊎◌, inl, inr, true, none, some, arith, if◌then◌else◌}
use ping_gaurd.Enums.{monitor}
use ping_gaurd.Models.{Result-cases, Monitor, ok, raise}
use ping_gaurd.Schemas.{
  MonitorUpdate, MonitorCreate, validate_keep_alive_rules, validate_create, is_false, given,
}
use ping_gaurd.Schemas.Rules.{IsConsistent, rules_iff}
use ping_gaurd.Net.Resolve.{UrlLibrary}
use ping_gaurd.Api.{
  ApiError, get_or, reset_keep_alive, check_merged, assign, updated_row, new_monitor,
}

-- A row whose keep-alive columns fit its mode, and that is due for a keep-alive sometime exactly if
-- keep-alive is enabled.
abbrev pub IsConsistentRow : Monitor → Type 0
IsConsistentRow m =
    IsConsistent m.mode m.keep_alive_enabled m.keep_alive_interval_seconds m.keep_alive_path
    × (given m.next_keep_alive_at ≡ m.keep_alive_enabled)

assigned_rules :
    (now : ℕ) (m : Monitor) (d : MonitorUpdate) (row : Monitor)
    → check_merged m d ≡ ok tt
    → assign now m d ≡ some row
    → validate_keep_alive_rules
        (some row.mode)
        (some row.keep_alive_enabled)
        row.keep_alive_interval_seconds
        row.keep_alive_path
        true
      ≡ ok tt
unfolding check_merged assign
assigned_rules now m d row h k = ground arith

assigned :
    (now : ℕ) (m : Monitor) (d : MonitorUpdate) (row : Monitor)
    → check_merged m d ≡ ok tt
    → assign now m d ≡ some row
    → IsConsistentRow row
unfolding assign
assigned now m d row h k = ((rules_iff _ _ _ _).0 (assigned_rules now m d row h k), ground arith)

-- Whatever the row was before, and whatever the request asks for: an update that succeeds leaves a
-- row whose keep-alive columns fit its mode, with a time for the next keep-alive exactly if enabled.
pub update_consistent :
    (now : ℕ) (m : Monitor) (payload : MonitorUpdate) {row : Monitor}
    → updated_row now m payload ≡ ok row
    → IsConsistentRow row
unfolding updated_row
update_consistent now m payload {row} h =
    let d = reset_keep_alive m payload in
    let passed : check_merged m d ≡ ok tt = ground arith in
    let set : assign now m d ≡ some row = ground arith in assigned now m d row passed set

-- A request that passes validation creates a row of that kind.
pub create_consistent :
    (lib : UrlLibrary) (id now : ℕ) (payload : MonitorCreate)
    → validate_create lib payload ≡ ok tt
    → IsConsistentRow (new_monitor id now payload)
unfolding validate_create new_monitor
create_consistent lib id now payload h =
    let rules : validate_keep_alive_rules (some payload.mode) (some payload.keep_alive_enabled)
          payload.keep_alive_interval_seconds payload.keep_alive_path true
        ≡ ok tt =
      ground arith in
    ((rules_iff _ _ _ _).0 rules, ground arith)

pub update_exact :
    (now : ℕ) (m : Monitor) (payload : MonitorUpdate) {row : Monitor}
    → updated_row now m payload ≡ ok row
    → (let off = is_false (get_or payload.keep_alive_enabled none) in
        (some row.name ≡ get_or payload.name (some m.name))
        × (some row.check_interval_seconds
            ≡ get_or payload.check_interval_seconds (some m.check_interval_seconds))
        × (some row.mode ≡ get_or payload.mode (some (if off then monitor else m.mode)))
        × (some row.keep_alive_enabled
            ≡ get_or payload.keep_alive_enabled (some m.keep_alive_enabled))
        × (row.keep_alive_interval_seconds
            ≡ get_or payload.keep_alive_interval_seconds
                (if off then none else m.keep_alive_interval_seconds))
        × (row.keep_alive_path
            ≡ get_or payload.keep_alive_path (if off then none else m.keep_alive_path))
        × (row.id ≡ m.id)
        × (row.url ≡ m.url)
        × (row.status ≡ m.status)
        × (row.last_checked_at ≡ m.last_checked_at)
        × (row.next_check_at ≡ m.next_check_at)
        × (row.next_keep_alive_at
            ≡ (if row.keep_alive_enabled then some (get_or m.next_keep_alive_at now) else none)))
unfolding updated_row reset_keep_alive assign
update_exact now m payload h = ground arith

-- A request that sets one of the four required fields to null never succeeds.
pub null_refused :
    (now : ℕ) (m : Monitor) (payload : MonitorUpdate)
    → (payload.name ≡ some none)
      ⊎ (payload.check_interval_seconds ≡ some none)
      ⊎ (payload.mode ≡ some none)
      ⊎ (payload.keep_alive_enabled ≡ some none)
    → (e : ApiError) × (updated_row now m payload ≡ raise e)
unfolding updated_row reset_keep_alive assign
null_refused now m payload h = elim (Result-cases (updated_row now m payload)) [
  | inr failed ↦ failed
  | inl (row, e) ↦ absurd (ground (arith, update_exact now m payload e))
]
