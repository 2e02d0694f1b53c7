-- ===== src/Status.antt =====
-- app/status.py. A `ValueError` is `none`.
pub mod Classes
use ping_gaurd.Prelude.{ℕ, Option, none, some, ◌&&◌, leb, ltb, if◌then◌else◌}
use ping_gaurd.Enums.{MonitorStatus, PingOutcome}

-- The table `OUTCOME_TO_STATUS` has every outcome, so the lookup never raises.
unfoldable pub outcome_to_status : PingOutcome → MonitorStatus
outcome_to_status PingOutcome.up = MonitorStatus.up
outcome_to_status PingOutcome.degraded = MonitorStatus.degraded
outcome_to_status PingOutcome.down = MonitorStatus.down
outcome_to_status PingOutcome.unreachable = MonitorStatus.down

unfoldable pub classify_status_code : ℕ → Option PingOutcome
classify_status_code code =
    if leb 100 code && ltb code 400
    then some PingOutcome.up
    else if leb 400 code && ltb code 500
    then some PingOutcome.degraded
    else if leb 500 code && ltb code 600
    then some PingOutcome.down
    else none
