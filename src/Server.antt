-- ===== src/Server.antt =====
-- The HTTP interface of app/main.py: the routes of `/monitors` with the dependencies that run before
-- them, over the handlers that overlap. A request that waits for a connection of the pool is one that
-- arrives when it gets it. FastAPI answers a request whose path, query or body it cannot read by
-- itself; those that it can read are the routes below.
pub mod Answers
pub mod Strangers
pub mod Safe
pub mod ReadBack
pub mod Throttle
mod Examples
use ping_gaurd.Prelude.{
  ℕ, Bool, true, false, not, ◌&&◌, Text, String, Option, none, some, List, [], ◌∷◌, map, length,
  leb, ltb, if◌then◌else◌,
}
use ping_gaurd.Models.{PingResult, Database, Result, ok, raise}
use ping_gaurd.Net.Resolve.{UrlLibrary}
use ping_gaurd.Schemas.{SchemaError, MonitorCreate, MonitorUpdate, validate_create, validate_update}
use ping_gaurd.Api.{
  ApiError, not_found, limit_reached, unprocessable, server_error, MonitorRead, get_monitor,
  list_monitors, get_monitor_results, trigger_monitor_check,
}
use ping_gaurd.Api.Overlap.{create_over, update_over, delete_over}
use ping_gaurd.Routes.{
  read_result, MonitorCheckResponse, ReadRoute, get_one, get_list, get_results, WriteRoute,
  post_monitor, patch_one, put_one, delete_one, post_check, reading, writing, Content,
  monitor_content, list_content, results_content, empty_content, check_content, Answer, refused,
  invalid, failed, success, HttpCall, valid_read, valid_write, answer_with,
}
use ping_gaurd.Ratelimit.{
  Caller, Refusal, unauthorized, too_many_requests, require_api_key, write_route,
}
use ping_gaurd.System.{Action}
use ping_gaurd.System.Overlap.{
  WriteHandler, create_handler, update_handler, delete_handler, Concurrent, begin, finish, abandon,
  work, nth_of, step_event,
}

-- The handler of a route that reads, with the database at its end.
unfoldable pub serve_read : ReadRoute → Database → Answer × Database
serve_read (get_one id) db =
    let (result, after) = get_monitor id db in (answer_with monitor_content result, after)
serve_read (get_list skip limit) db =
    let (result, after) = list_monitors skip limit db in (answer_with list_content result, after)
serve_read (get_results id limit check_type) db =
    let (result, after) = get_monitor_results id limit check_type db in
    (answer_with (λ rs. results_content (map read_result rs)) result, after)

-- The response of a handler at its commit.
unfoldable pub handler_answer : (max_monitors : ℕ) → WriteHandler → (seen db : Database) → Answer
handler_answer max_monitors (create_handler now payload) seen db =
    answer_with monitor_content (create_over max_monitors now payload seen db).0
handler_answer max_monitors (update_handler now id payload) seen db =
    answer_with monitor_content (update_over now id payload seen db).0
handler_answer max_monitors (delete_handler id) seen db =
    answer_with (λ u. empty_content) (delete_over id seen db).0

-- The limiter's state, the handlers with the database, and the monitors whose probe was queued.
pub record Server (L : Type 0) : Type 0 where
  pub limiter : L
  pub core : Concurrent
  pub queue : List ℕ

pub data ServerEvent : Type 0 where
  arrive : HttpCall → ServerEvent
  complete cancel : (position : ℕ) → ServerEvent
  worker : Action → ServerEvent

abbrev check_answer : ℕ → Content
check_answer id = check_content (record { status = "queued"; monitor_id = id })

module _ (max_monitors connections : ℕ) where
  -- A handler begins, with no response yet, or the pool has no connection for it.
  unfoldable pub start_handler :
      WriteHandler → Concurrent × List ℕ → Option Answer × (Concurrent × List ℕ)
  start_handler h (core, queue) =
      if ltb (length core.in_flight) connections
      then (none, (step_event max_monitors connections (begin h) core, queue))
      else (some (failed server_error), (core, queue))

  unfoldable pub start_write :
      (now : ℕ) (accepts : Bool)
      → WriteRoute
      → Concurrent × List ℕ
      → Option Answer × (Concurrent × List ℕ)
  start_write now accepts (post_monitor payload) s = start_handler (create_handler now payload) s
  start_write now accepts (patch_one id payload) s = start_handler (update_handler now id payload) s
  start_write now accepts (put_one id payload) s = start_handler (update_handler now id payload) s
  start_write now accepts (delete_one id) s = start_handler (delete_handler id) s
  start_write now accepts (post_check id) (core, queue) =
      let (answer, queued) = trigger_monitor_check accepts id core.db queue in
      (some (answer_with check_answer answer), (core, queued))

  -- A route that writes, after its dependencies: validation, then the handler.
  unfoldable pub validated_write :
      (lib : UrlLibrary) (now : ℕ) (accepts : Bool)
      → WriteRoute
      → Concurrent × List ℕ
      → Option Answer × (Concurrent × List ℕ)
  validated_write lib now accepts route s =
      if valid_write lib route then start_write now accepts route s else (some invalid, s)

module _ {L : Type 0} (lib : UrlLibrary) (max_monitors connections : ℕ) (configured_key : Text)
    (sha256_hex : Text → Text) (hit : (now : ℕ) → Text → L → Option (Bool × ℕ) × L) where
  unfoldable pub serve : HttpCall → Server L → Option Answer × Server L
  serve call s = elim call.route [
    | reading route ↦ elim (require_api_key configured_key call.caller.api_key) [
      | raise e ↦ (some (refused e), s)
      | ok key ↦
          let (answer, db) = serve_read route s.core.db in
          let after : Server L = record s { core = record s.core { db = db } } in
          if valid_read route then (some answer, after) else (some invalid, s)
    ]
    | writing route ↦
        let (result, (limiter, (core, queue))) =
          write_route configured_key sha256_hex (hit call.now)
            (validated_write max_monitors connections lib call.now call.accepts route) call.caller
            (s.limiter, (s.core, s.queue)) in
        let after : Server L = record { limiter = limiter; core = core; queue = queue } in
        elim result [ ok answer ↦ (answer, after) | raise e ↦ (some (refused e), after) ]
  ]

  unfoldable pub step_server : ServerEvent → Server L → Option Answer × Server L
  step_server (arrive call) s = serve call s
  step_server (complete n) s =
      let after = step_event max_monitors connections (finish n) s.core in
      elim (nth_of n s.core.in_flight) [
        | none ↦ (none, s)
        | some o ↦ (
          some (handler_answer max_monitors o.handler o.seen s.core.db),
          record s { core = after },
        )
      ]
  step_server (cancel n) s =
      (none, record s { core = step_event max_monitors connections (abandon n) s.core })
  step_server (worker a) s =
      (none, record s { core = step_event max_monitors connections (work a) s.core })

  unfoldable pub run_server : List ServerEvent → Server L → Server L
  run_server [] s = s
  run_server (e ∷ events) s = run_server events (step_server e s).1
