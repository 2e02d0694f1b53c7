-- ===== src/Schemas/Rules.antt =====
-- The keep-alive rules, as one table.
use ping_gaurd.Prelude.{ℕ, ◌≡◌, ◌↔◌, Bool, true, false, Text, Option, none, some, arith}
use ping_gaurd.Enums.{MonitorMode, monitor, keep_alive, monitor_and_keep_alive}
use ping_gaurd.Models.{ok}
use ping_gaurd.Schemas.{validate_keep_alive_rules, given}

-- Keep-alive is on exactly if the mode asks for it; an interval is set exactly then, and a path at most
-- then.
abbrev pub IsConsistent : MonitorMode → Bool → Option ℕ → Option Text → Type 0
IsConsistent monitor enabled interval path = (enabled ≡ false) × (interval ≡ none) × (path ≡ none)
IsConsistent _ enabled interval path = (enabled ≡ true) × (given interval ≡ true)

-- The validator with its path check passes exactly the settings that fit the mode: keep-alive
-- enabled with an interval where the mode includes it, and all three fields off where it does not.
pub rules_iff :
    (mode : MonitorMode) (enabled : Bool) (interval : Option ℕ) (path : Option Text)
    → (validate_keep_alive_rules (some mode) (some enabled) interval path true ≡ ok tt)
      ↔ IsConsistent mode enabled interval path
unfolding validate_keep_alive_rules
rules_iff monitor enabled interval path = ground arith
rules_iff keep_alive enabled interval path = ground arith
rules_iff monitor_and_keep_alive enabled interval path = ground arith
