-- ===== src/Routes.antt =====
-- The routes that app/main.py declares, with the response contracts of app/schemas.py: what a request
-- asks for, which of them FastAPI refuses as invalid, and the status codes of the responses.
use ping_gaurd.Prelude.{ℕ, Bool, true, false, ◌&&◌, String, Option, List, leb}
use ping_gaurd.Models.{PingResult, Result, ok, raise}
use ping_gaurd.Net.Resolve.{UrlLibrary}
use ping_gaurd.Schemas.{MonitorCreate, MonitorUpdate, validate_create, validate_update}
use ping_gaurd.Api.{ApiError, not_found, limit_reached, unprocessable, server_error, MonitorRead}
use ping_gaurd.Ratelimit.{Caller, Refusal, unauthorized, too_many_requests}

pub record PingResultRead : Type 0 where
  pub id : ℕ
  pub monitor_id : ℕ
  pub check_type : String
  pub status_code : Option ℕ
  pub latency_ms : Option ℕ
  pub error : Option String
  pub checked_at : ℕ

-- `PingResultRead.model_validate(r)`
unfoldable pub read_result : PingResult → PingResultRead
read_result r = record {
  id = r.id;
  monitor_id = r.monitor_id;
  check_type = r.check_type;
  status_code = r.status_code;
  latency_ms = r.latency_ms;
  error = r.error;
  checked_at = r.checked_at;
}

pub record MonitorCheckResponse : Type 0 where
  pub status : String
  pub monitor_id : ℕ

pub data ReadRoute : Type 0 where
  get_one : (monitor_id : ℕ) → ReadRoute
  get_list : (skip limit : ℕ) → ReadRoute
  get_results : (monitor_id limit : ℕ) (check_type : Option String) → ReadRoute

-- The routes with the dependency `rate_limit_write`; PATCH and PUT have one handler.
pub data WriteRoute : Type 0 where
  post_monitor : MonitorCreate → WriteRoute
  patch_one put_one : (monitor_id : ℕ) → MonitorUpdate → WriteRoute
  delete_one : (monitor_id : ℕ) → WriteRoute
  post_check : (monitor_id : ℕ) → WriteRoute

pub data Route : Type 0 where
  reading : ReadRoute → Route
  writing : WriteRoute → Route

pub data Content : Type 0 where
  monitor_content : MonitorRead → Content
  list_content : List MonitorRead → Content
  results_content : List PingResultRead → Content
  empty_content : Content
  check_content : MonitorCheckResponse → Content

-- `invalid` is FastAPI's response to a request that fails validation.
pub data Answer : Type 0 where
  refused : Refusal → Answer
  invalid : Answer
  failed : ApiError → Answer
  success : Content → Answer

-- A request, the time at which it arrives, and whether the broker takes a message then.
pub record HttpCall : Type 0 where
  pub caller : Caller
  pub now : ℕ
  pub accepts : Bool
  pub route : Route

unfoldable pub error_status : ApiError → ℕ
error_status not_found = 404
error_status limit_reached = 409
error_status (unprocessable e) = 422
error_status server_error = 500

unfoldable pub success_status : Route → ℕ
success_status (writing (post_monitor payload)) = 201
success_status (writing (delete_one id)) = 204
success_status (writing (post_check id)) = 202
success_status _ = 200

unfoldable pub status_of : Route → Answer → ℕ
status_of route (refused unauthorized) = 401
status_of route (refused (too_many_requests wait)) = 429
status_of route invalid = 422
status_of route (failed e) = error_status e
status_of route (success content) = success_status route

abbrev pub is_ok : {E A : Type 0} → Result E A → Bool
is_ok (ok a) = true
is_ok (raise e) = false

-- `Path(ge=1)`, `Query(ge=0)` and `Query(ge=1, le=...)`
unfoldable pub valid_read : ReadRoute → Bool
valid_read (get_one id) = leb 1 id
valid_read (get_list skip limit) = leb 1 limit && leb limit 1000
valid_read (get_results id limit check_type) = leb 1 id && (leb 1 limit && leb limit 500)

-- The parameters of `create_monitor`, `update_monitor`, `delete_monitor` and `trigger_monitor_check`.
unfoldable pub valid_create_call : UrlLibrary → MonitorCreate → Bool
valid_create_call lib payload = is_ok (validate_create lib payload)

unfoldable pub valid_update_call : (monitor_id : ℕ) → MonitorUpdate → Bool
valid_update_call id payload = leb 1 id && is_ok (validate_update payload)

unfoldable pub valid_delete_call : (monitor_id : ℕ) → Bool
valid_delete_call id = leb 1 id

unfoldable pub valid_check_call : (monitor_id : ℕ) → Bool
valid_check_call id = leb 1 id

unfoldable pub valid_write : UrlLibrary → WriteRoute → Bool
valid_write lib (post_monitor payload) = valid_create_call lib payload
valid_write lib (patch_one id payload) = valid_update_call id payload
valid_write lib (put_one id payload) = valid_update_call id payload
valid_write lib (delete_one id) = valid_delete_call id
valid_write lib (post_check id) = valid_check_call id

abbrev pub answer_with : {A : Type 0} → (A → Content) → Result ApiError A → Answer
answer_with content (ok a) = success (content a)
answer_with content (raise e) = failed e
