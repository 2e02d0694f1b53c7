-- ===== src/Ratelimit.antt =====
-- app/ratelimit.py and the API key of app/security.py. The clock counts microseconds. What Redis answers
-- to the pipeline is an argument, and so is the digest of a key.
pub mod Window
pub mod Guard
mod Examples
use ping_gaurd.Prelude.{
  ℕ, suc, ◌+◌, ◌-◌, ◌*◌, ◌/◌, max, Bool, true, false, not, Text, codes, Option, none, some, List,
  [], ◌∷◌, ◌++◌, leb, ltb, take, text_eq, if◌then◌else◌,
}
use ping_gaurd.Models.{Result, ok, raise, timedelta_seconds}
use ping_gaurd.Net.Resolve.{truthy}

-- `_data` of the in-memory limiter: a key's count and the end of its window.
abbrev pub Windows : Type 0
Windows = List (Text × (ℕ × ℕ))

abbrev pub window_of : Text → Windows → Option (ℕ × ℕ)
window_of key [] = none
window_of key (entry ∷ entries) =
    let rest = window_of key entries in if text_eq entry.0 key then some entry.1 else rest

-- `self._data[key] = window`
abbrev pub set_window : Text → ℕ × ℕ → Windows → Windows
set_window key window [] = (key, window) ∷ []
set_window key window (entry ∷ entries) =
    let rest = set_window key window entries in
    if text_eq entry.0 key then (entry.0, window) ∷ entries else entry ∷ rest

-- What `hit` makes of a key's window at one time: whether it is allowed, the seconds to wait, and the
-- window after it.
unfoldable pub hit_window : (limit window_seconds now : ℕ) → Option (ℕ × ℕ) → (Bool × ℕ) × (ℕ × ℕ)
hit_window limit window_seconds now none = ((true, 0), (1, now + timedelta_seconds window_seconds))
hit_window limit window_seconds now (some (count, reset_at)) =
    if leb reset_at now
    then ((true, 0), (1, now + timedelta_seconds window_seconds))
    else if ltb count limit
    then ((true, 0), (suc count, reset_at))
    else ((false, max 1 ((reset_at - now) / 1000000)), (count, reset_at))

-- `InMemoryRateLimiter.hit`
unfoldable pub in_memory_hit :
    (key : Text) (limit window_seconds now : ℕ) → Windows → (Bool × ℕ) × Windows
in_memory_hit key limit window_seconds now windows =
    let (answer, window) = hit_window limit window_seconds now (window_of key windows) in
    (answer, set_window key window windows)

-- The pipeline's answer: the count and the time to live, `none` where the key has none.
abbrev pub PipelineReply : Type 0
PipelineReply = Option (ℕ × Option ℕ)

-- `RedisRateLimiter.hit`; no reply, or an EXPIRE that fails, is an exception.
unfoldable pub redis_hit :
    (limit window_seconds : ℕ) → PipelineReply → (expire_works : Bool) → Bool × ℕ
redis_hit limit window_seconds none expire_works = (true, 0)
redis_hit limit window_seconds (some (count, none)) expire_works =
    if not expire_works
    then (true, 0)
    else if leb count limit
    then (true, 0)
    else (false, max 1 window_seconds)
redis_hit limit window_seconds (some (count, some ttl)) expire_works =
    if leb count limit then (true, 0) else (false, max 1 ttl)

-- The headers and the address that the dependencies read of a request.
pub record Caller : Type 0 where
  pub api_key : Option Text
  pub client_host : Option Text

abbrev text_or_empty : Option Text → Text
text_or_empty none = []
text_or_empty (some t) = t

-- The key under which a request is counted.
unfoldable pub limit_key : (sha256_hex : Text → Text) → Caller → Text
limit_key sha256_hex caller =
    if truthy caller.api_key
    then take 16 (sha256_hex (text_or_empty caller.api_key))
    else if truthy caller.client_host
    then codes "ip:" ++ text_or_empty caller.client_host
    else codes "unknown_client"

-- The responses 401 and 429.
pub data Refusal : Type 0 where
  unauthorized : Refusal
  too_many_requests : (retry_after : ℕ) → Refusal

-- `rate_limit_write` over what the limiter answers; `none` is an exception of the limiter.
unfoldable pub rate_limit_write : Option (Bool × ℕ) → Result Refusal (Unit {0})
rate_limit_write none = ok tt
rate_limit_write (some (allowed, retry_after)) =
    if allowed then ok tt else raise (too_many_requests retry_after)

-- `require_api_key`
unfoldable pub require_api_key : (configured_key : Text) → Option Text → Result Refusal Text
require_api_key configured_key none = raise unauthorized
require_api_key configured_key (some []) = raise unauthorized
require_api_key configured_key (some (c ∷ cs)) =
    if text_eq (c ∷ cs) configured_key then ok (c ∷ cs) else raise unauthorized

-- A route that writes: the router's dependency, then the route's, then the handler. The state is that of
-- the limiter, any `RateLimiter`, and the handler's.
unfoldable pub write_route :
    {A L S : Type 0} (configured_key : Text) (sha256_hex : Text → Text)
    (hit : Text → L → Option (Bool × ℕ) × L) (handler : S → A × S)
    → Caller
    → L × S
    → Result Refusal A × (L × S)
write_route configured_key sha256_hex hit handler caller (limiter, s) =
    elim (require_api_key configured_key caller.api_key) [
      | raise e ↦ (raise e, (limiter, s))
      | ok key ↦
          let (answer, counted) = hit (limit_key sha256_hex caller) limiter in
          elim (rate_limit_write answer) [
            | raise e ↦ (raise e, (counted, s))
            | ok u ↦ let (a, after) = handler s in (ok a, (counted, after))
          ]
    ]
