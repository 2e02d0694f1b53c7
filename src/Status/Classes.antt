-- ===== src/Status/Classes.antt =====
-- What the classification of app/status.py means for the hundreds class of a status code.
use ping_gaurd.Prelude.{ℕ, ◌/◌, ◌≤◌, ◌≡◌, ◌↔◌, ◌⊎◌, ◌≢◌, none, some, arith}
use ping_gaurd.Enums.{MonitorStatus, PingOutcome}
use ping_gaurd.Status.{classify_status_code, outcome_to_status}

-- The outcome is read off the hundreds digit: 1 to 3 is up, 4 degraded, 5 down, and any other code
-- is refused; so the status shown for an accepted code is `down` exactly for the class 5.
pub classify_by_hundreds :
    (code : ℕ)
    → ((classify_status_code code ≡ some PingOutcome.up) ↔ ((1 ≤ code / 100) × (code / 100 ≤ 3)))
      × ((classify_status_code code ≡ some PingOutcome.degraded) ↔ (code / 100 ≡ 4))
      × ((classify_status_code code ≡ some PingOutcome.down) ↔ (code / 100 ≡ 5))
      × ((classify_status_code code ≡ none) ↔ ((code / 100 ≡ 0) ⊎ (6 ≤ code / 100)))
unfolding classify_status_code
classify_by_hundreds code = ground arith

-- A status is never reset to pending by a probe.
pub outcome_to_status-ne-pending : (o : PingOutcome) → outcome_to_status o ≢ MonitorStatus.pending
unfolding outcome_to_status
outcome_to_status-ne-pending o = ground arith
