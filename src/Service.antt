-- ===== src/Service.antt =====
-- The parts of app/main.py around the handlers: the middleware of the request ID, with its pattern in
-- app/logging_config.py, the startup, and the health and readiness checks.
pub mod RequestId
pub mod Correlation
pub mod Readiness
mod Examples
use ping_gaurd.Prelude.{
  ℕ, ◌+◌, Bool, true, false, ◌&&◌, ◌||◌, Text, codes, Option, none, some, List, [], ◌∷◌, ◌++◌,
  text_eq, leb, ltb, ◌==◌, length, if◌then◌else◌,
}
use ping_gaurd.Models.{Result, ok, raise}
use ping_gaurd.Logging.{LoggingConfig, configure_logging}

-- `[A-Za-z0-9_-]`
abbrev pub is_id_char : ℕ → Bool
is_id_char c =
    (leb 65 c && leb c 90)
    || ((leb 97 c && leb c 122) || ((leb 48 c && leb c 57) || (c == 95 || c == 45)))

abbrev pub all_chars : (ℕ → Bool) → Text → Bool
all_chars p [] = true
all_chars p (c ∷ cs) = p c && all_chars p cs

-- What `$` may leave: nothing, or a last line feed.
abbrev pub at_end : Text → Bool
at_end [] = true
at_end (c ∷ []) = c == 10
at_end (c ∷ d ∷ ds) = false

-- The characters that the class takes, and the rest; no character of the class can be left for `$`.
unfoldable pub take_class : Text → Text × Text
take_class [] = ([], [])
take_class (c ∷ cs) =
    let rest = take_class cs in if is_id_char c then (c ∷ rest.0, rest.1) else ([], c ∷ cs)

-- `REQUEST_ID_REGEX.match(text)`
unfoldable pub match_request_id : Text → Bool
match_request_id s =
    let (taken, rest) = take_class s in
    leb 8 (length taken) && (leb (length taken) 64 && at_end rest)

abbrev pub Header : Type 0
Header = Text × Text

-- A response; the names of its headers are in lower case.
pub record HttpReply : Type 0 where
  pub status_code : ℕ
  pub headers : List Header
  pub content : Text

abbrev pub request_id_key : Text
request_id_key = codes "x-request-id"

unfoldable pub remove_header : Text → List Header → List Header
remove_header key [] = []
remove_header key ((name, value) ∷ rest) =
    let others = remove_header key rest in
    if text_eq name key then others else (name, value) ∷ others

-- `headers[key] = value`: the first value under the name is replaced, others are removed.
unfoldable pub set_header : Text → Text → List Header → List Header
set_header key value [] = (key, value) ∷ []
set_header key value ((name, old) ∷ rest) =
    let others = set_header key value rest in
    if text_eq name key then (key, value) ∷ remove_header key rest else (name, old) ∷ others

abbrev pub request_id_of : (fresh : Text) → Option Text → Text
request_id_of fresh none = fresh
request_id_of fresh (some incoming) = if match_request_id incoming then incoming else fresh

-- The response, or the exception, with the variable's value reset.
abbrev pub end_request :
    {E : Type 0} (id : Text) (before : Option Text)
    → Result E HttpReply
    → Result E HttpReply × Option Text
end_request id before (raise e) = (raise e, before)
end_request id before (ok reply) =
    (ok (record reply { headers = set_header request_id_key id reply.headers }), before)

-- `request_id_middleware`, on the value of the context variable before the request. What comes after
-- the middleware runs in a copy of the context, and sees the variable's value there.
unfoldable pub request_id_middleware :
    {E : Type 0} (fresh : Text)
    → Option Text
    → (call_next : Option Text → Result E HttpReply) → Option Text
    → Result E HttpReply × Option Text
request_id_middleware fresh incoming call_next before =
    let id = request_id_of fresh incoming in end_request id before (call_next (some id))

-- A call of another service: how long it takes, and whether it returns or raises.
pub record Call : Type 0 where
  pub microseconds : ℕ
  pub returns : Bool

-- `async with asyncio.timeout(2.0)` around calls in a row, in an `except Exception`.
unfoldable pub calls_return : (spent : ℕ) → List Call → Bool
calls_return spent [] = true
calls_return spent (call ∷ calls) =
    let rest = calls_return (spent + call.microseconds) calls in
    ltb (spent + call.microseconds) 2_000_000 && (call.returns && rest)

-- Without a session the engine lends a connection, and takes it back.
unfoldable pub check_database_readiness : (has_session : Bool) (connect execute close : Call) → Bool
check_database_readiness has_session connect execute close =
    calls_return 0 (if has_session then execute ∷ [] else connect ∷ execute ∷ close ∷ [])

-- `from_url` may refuse the URL. The client is closed whether or not the PING returns.
unfoldable pub check_redis_readiness : (from_url ping aclose : Call) → Bool
check_redis_readiness from_url ping aclose = calls_return 0 (from_url ∷ ping ∷ aclose ∷ [])

pub data Service : Type 0 where
  database redis : Service

pub record ReadinessReport : Type 0 where
  pub status_code : ℕ
  pub ready : Bool
  pub failed : List Service

-- `readiness_check`, on what the calls of the two checks do.
unfoldable pub readiness_check : (execute from_url ping aclose : Call) → ReadinessReport
readiness_check execute from_url ping aclose =
    let db_ok = check_database_readiness true execute execute execute in
    let redis_ok = check_redis_readiness from_url ping aclose in
    if db_ok && redis_ok then record { status_code = 200; ready = true; failed = [] } else record {
      status_code = 503;
      ready = false;
      failed = (if db_ok then [] else database ∷ []) ++ (if redis_ok then [] else redis ∷ []);
    }

-- The body of the health check, which asks no service.
unfoldable pub health_check : (version : Text) → List (Text × Text)
health_check version =
    (codes "status", codes "healthy")
    ∷ (codes "service", codes "PingGuard API")
    ∷ (codes "version", version)
    ∷ []

-- `lifespan`, at startup.
unfoldable pub lifespan : (upper : Text → Text) (log_level : Text) (log_json : Bool) → LoggingConfig
lifespan upper log_level log_json = configure_logging upper log_level log_json none
