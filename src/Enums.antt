-- ===== src/Enums.antt =====
-- app/enums.py. A member of a `StrEnum` is identified with its value: a column that stores
-- `member.value` holds the member. `mode_of_value` is the constructor call `MonitorMode(text)`.
use ping_gaurd.Prelude.{String, Option, none, some, ◌==ˢ◌, if◌then◌else◌}

pub data MonitorStatus : Type 0 where
  up degraded down pending : MonitorStatus

pub data MonitorMode : Type 0 where
  monitor keep_alive monitor_and_keep_alive : MonitorMode

pub data PingOutcome : Type 0 where
  up degraded down unreachable : PingOutcome

unfoldable pub status_value : MonitorStatus → String
status_value MonitorStatus.up = "up"
status_value MonitorStatus.degraded = "degraded"
status_value MonitorStatus.down = "down"
status_value MonitorStatus.pending = "pending"

unfoldable pub mode_value : MonitorMode → String
mode_value monitor = "monitor"
mode_value keep_alive = "keep_alive"
mode_value monitor_and_keep_alive = "monitor_and_keep_alive"

unfoldable pub outcome_value : PingOutcome → String
outcome_value PingOutcome.up = "up"
outcome_value PingOutcome.degraded = "degraded"
outcome_value PingOutcome.down = "down"
outcome_value PingOutcome.unreachable = "unreachable"

unfoldable pub mode_of_value : String → Option MonitorMode
mode_of_value s =
    if s ==ˢ "monitor"
    then some monitor
    else if s ==ˢ "keep_alive"
    then some keep_alive
    else if s ==ˢ "monitor_and_keep_alive"
    then some monitor_and_keep_alive
    else none

unfoldable pub status_of_value : String → Option MonitorStatus
status_of_value s =
    if s ==ˢ "up"
    then some MonitorStatus.up
    else if s ==ˢ "degraded"
    then some MonitorStatus.degraded
    else if s ==ˢ "down"
    then some MonitorStatus.down
    else if s ==ˢ "pending"
    then some MonitorStatus.pending
    else none
