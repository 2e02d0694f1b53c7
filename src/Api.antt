-- ===== src/Api.antt =====
-- The handlers of app/main.py under `/monitors`. A handler takes the database at its start and returns
-- the response, or the error, with the database at its end. Those that write run in Api.Overlap, with
-- other commits before their own; `create_monitor`, `update_monitor` and `delete_monitor` here are what
-- they come to where there is none. Authentication and rate limits run before the handlers.
pub mod Updates
pub mod Table
pub mod Results
pub mod Overlap
pub mod Examples
use ping_gaurd.Prelude.{
  ℕ, suc, Bool, true, false, not, ◌&&◌, Text, String, Option, none, some, List, [], ◌∷◌, ◌++◌, map,
  take, drop, select, sort_by, length, leb, ◌==◌, ◌==ˢ◌, if◌then◌else◌,
}
use ping_gaurd.Enums.{MonitorStatus, MonitorMode, monitor}
use ping_gaurd.Models.{
  Monitor, PingResult, Database, Result, ok, raise, find_monitor, update_monitor_row,
  delete_monitor_row, cascade_results,
}
use ping_gaurd.Schemas.{
  SchemaError, HttpUrl, MonitorCreate, MonitorUpdate, validate_keep_alive_rules, mode_is_monitor,
  is_false,
}

-- `HTTPException` with its status code, and exceptions that end in a response 500.
pub data ApiError : Type 0 where
  not_found limit_reached : ApiError
  unprocessable : SchemaError → ApiError
  server_error : ApiError

pub record MonitorRead : Type 0 where
  pub id : ℕ
  pub name : Text
  pub url : Text
  pub check_interval_seconds : ℕ
  pub status : MonitorStatus
  pub last_checked_at : Option ℕ
  pub next_check_at : Option ℕ
  pub mode : MonitorMode
  pub keep_alive_enabled : Bool
  pub keep_alive_interval_seconds : Option ℕ
  pub keep_alive_path : Option Text

-- `MonitorRead.model_validate(monitor)`
unfoldable pub read_monitor : Monitor → MonitorRead
read_monitor m = record {
  id = m.id;
  name = m.name;
  url = m.url;
  check_interval_seconds = m.check_interval_seconds;
  status = m.status;
  last_checked_at = m.last_checked_at;
  next_check_at = m.next_check_at;
  mode = m.mode;
  keep_alive_enabled = m.keep_alive_enabled;
  keep_alive_interval_seconds = m.keep_alive_interval_seconds;
  keep_alive_path = m.keep_alive_path;
}

abbrev pub Response : Type 0 → Type 0
Response A = Result ApiError A × Database

unfoldable pub new_monitor : ℕ → ℕ → MonitorCreate → Monitor
new_monitor id now payload = record {
  id = id;
  name = payload.name;
  url = payload.url.text;
  check_interval_seconds = payload.check_interval_seconds;
  status = MonitorStatus.pending;
  last_checked_at = none;
  next_check_at = some now;
  mode = payload.mode;
  keep_alive_enabled = payload.keep_alive_enabled;
  keep_alive_interval_seconds = payload.keep_alive_interval_seconds;
  keep_alive_path = payload.keep_alive_path;
  next_keep_alive_at = if payload.keep_alive_enabled then some now else none;
}

unfoldable pub create_monitor :
    (max_monitors now : ℕ) → MonitorCreate → Database → Response MonitorRead
create_monitor max_monitors now payload db =
    let created = new_monitor db.next_monitor_id now payload in
    if leb max_monitors (length db.monitors) then (raise limit_reached, db) else (
      ok (read_monitor created),
      record {
        monitors = db.monitors ++ created ∷ [];
        results = db.results;
        next_monitor_id = suc db.next_monitor_id;
        next_result_id = db.next_result_id;
      },
    )

unfoldable pub get_monitor : ℕ → Database → Response MonitorRead
get_monitor id db = elim (find_monitor id db.monitors) [
  | none ↦ (raise not_found, db)
  | some m ↦ (ok (read_monitor m), db)
]

-- `data.get(key, default)`, where the default is a column of the row.
abbrev pub get_or {ℓ} : {A : Type ℓ} → Option A → A → A
get_or none default = default
get_or (some a) default = a

-- The reset logic of `keep_alive_enabled = false`.
unfoldable pub reset_keep_alive : Monitor → MonitorUpdate → MonitorUpdate
reset_keep_alive m u =
    let switched_off = is_false (get_or u.keep_alive_enabled none) in
    let leaves_mode = switched_off && not (mode_is_monitor (some m.mode)) in
    record {
      name = u.name;
      check_interval_seconds = u.check_interval_seconds;
      mode = if leaves_mode then some (get_or u.mode (some monitor)) else u.mode;
      keep_alive_enabled = u.keep_alive_enabled;
      keep_alive_interval_seconds =
          if switched_off
          then some (get_or u.keep_alive_interval_seconds none)
          else u.keep_alive_interval_seconds;
      keep_alive_path =
          if switched_off then some (get_or u.keep_alive_path none) else u.keep_alive_path;
    }

-- The rules on the merged state; `MonitorMode(None)` raises outside the handler's `try`.
unfoldable pub check_merged : Monitor → MonitorUpdate → Result ApiError (Unit {0})
check_merged m d = elim (get_or d.mode (some m.mode)) [
  | none ↦ raise server_error
  | some target_mode ↦
      elim (validate_keep_alive_rules (some target_mode)
        (get_or d.keep_alive_enabled (some m.keep_alive_enabled))
        (get_or d.keep_alive_interval_seconds m.keep_alive_interval_seconds)
        (get_or d.keep_alive_path m.keep_alive_path) true) [
          | ok u ↦ ok tt
          | raise e ↦ raise (unprocessable e)
        ]
]

infixl 5 ◌>>=◌
abbrev ◌>>=◌ : {A B : Type 0} → Option A → (A → Option B) → Option B
none >>= f = none
some a >>= f = f a

-- The row after the assignments and the synchronisation of `next_keep_alive_at`. Its commit fails where
-- a column that is not nullable holds null.
unfoldable pub assign : ℕ → Monitor → MonitorUpdate → Option Monitor
assign now m d = do
  name ← get_or d.name (some m.name)
  interval ← get_or d.check_interval_seconds (some m.check_interval_seconds)
  mode ← get_or d.mode (some m.mode)
  enabled ← get_or d.keep_alive_enabled (some m.keep_alive_enabled)
  some (record {
    id = m.id;
    name = name;
    url = m.url;
    check_interval_seconds = interval;
    status = m.status;
    last_checked_at = m.last_checked_at;
    next_check_at = m.next_check_at;
    mode = mode;
    keep_alive_enabled = enabled;
    keep_alive_interval_seconds =
        get_or d.keep_alive_interval_seconds m.keep_alive_interval_seconds;
    keep_alive_path = get_or d.keep_alive_path m.keep_alive_path;
    next_keep_alive_at = if enabled then some (get_or m.next_keep_alive_at now) else none;
  })

unfoldable pub updated_row : ℕ → Monitor → MonitorUpdate → Result ApiError Monitor
updated_row now m payload =
    let d = reset_keep_alive m payload in
    elim (check_merged m d) [
      | raise e ↦ raise e
      | ok u ↦ elim (assign now m d) [ none ↦ raise server_error | some row ↦ ok row ]
    ]

unfoldable pub update_monitor : ℕ → ℕ → MonitorUpdate → Database → Response MonitorRead
update_monitor now id payload db = elim (find_monitor id db.monitors) [
  | none ↦ (raise not_found, db)
  | some m ↦ elim (updated_row now m payload) [
    | raise e ↦ (raise e, db)
    | ok row ↦ (
      ok (read_monitor row),
      record {
        monitors = update_monitor_row id (λ old. row) db.monitors;
        results = db.results;
        next_monitor_id = db.next_monitor_id;
        next_result_id = db.next_result_id;
      },
    )
  ]
]

unfoldable pub list_monitors : (skip limit : ℕ) → Database → Response (List MonitorRead)
list_monitors skip limit db =
    (ok (map read_monitor (take limit (drop skip (sort_by (λ m. m.id) db.monitors)))), db)

unfoldable pub delete_monitor : ℕ → Database → Response (Unit {0})
delete_monitor id db = elim (find_monitor id db.monitors) [
  | none ↦ (raise not_found, db)
  | some m ↦ (
    ok tt,
    record {
      monitors = delete_monitor_row id db.monitors;
      results = cascade_results id db.results;
      next_monitor_id = db.next_monitor_id;
      next_result_id = db.next_result_id;
    },
  )
]

-- `if check_type:`, an empty text filters nothing.
abbrev pub matches_type : Option String → PingResult → Bool
matches_type none r = true
matches_type (some t) r = if t ==ˢ "" then true else r.check_type ==ˢ t

-- The latest results first: a descending sort on the time.
abbrev pub insert_latest : PingResult → List PingResult → List PingResult
insert_latest r [] = r ∷ []
insert_latest r (s ∷ rest) =
    let later = insert_latest r rest in
    if leb s.checked_at r.checked_at then r ∷ s ∷ rest else s ∷ later

abbrev pub latest_first : List PingResult → List PingResult
latest_first [] = []
latest_first (r ∷ rs) = insert_latest r (latest_first rs)

unfoldable pub get_monitor_results :
    (id limit : ℕ) → Option String → Database → Response (List PingResult)
get_monitor_results id limit check_type db = elim (find_monitor id db.monitors) [
  | none ↦ (raise not_found, db)
  | some m ↦ (
    ok (
        take limit (
          latest_first (select (λ r. r.monitor_id == id && matches_type check_type r) db.results))),
    db,
  )
]

-- The monitors whose probe has been queued with `execute_ping.delay`; `accepts` is the broker's answer.
unfoldable pub trigger_monitor_check :
    (accepts : Bool) (id : ℕ) → Database → List ℕ → Result ApiError ℕ × List ℕ
trigger_monitor_check accepts id db queue = elim (find_monitor id db.monitors) [
  | none ↦ (raise not_found, queue)
  | some m ↦ if accepts then (ok m.id, queue ++ m.id ∷ []) else (raise server_error, queue)
]
