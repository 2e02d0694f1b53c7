-- ===== src/Server/Answers.antt =====
-- A handler is never answered by a refusal.
use mathlib.Core.Option
use ping_gaurd.Prelude.{none, ◌↔◌, ℕ, ◌≡◌, refl, ◌==◌, Bool, true, false, Option, some, List, arith}
use ping_gaurd.Net.Resolve.{UrlLibrary}
use ping_gaurd.Api.{
  ApiError, not_found, limit_reached, unprocessable, server_error, trigger_monitor_check,
}
use ping_gaurd.Ratelimit.{unauthorized, too_many_requests}
use ping_gaurd.Routes.{
  WriteRoute, post_monitor, patch_one, put_one, delete_one, post_check, Answer, refused, invalid,
  failed, success, Route, reading, writing, success_status, error_status, status_of,
}
use ping_gaurd.Server.{start_handler, start_write, validated_write}
use ping_gaurd.System.Overlap.{Concurrent}

-- Is answered 401 or 429.
abbrev pub is_refused : Option Answer → Bool
is_refused (some (refused e)) = true
is_refused _ = false

module _ (max_monitors connections : ℕ) where
  start_write_answered :
      (now : ℕ) (accepts : Bool) (route : WriteRoute) (core : Concurrent) (queue : List ℕ)
      → is_refused (start_write max_monitors connections now accepts route (core, queue)).0 ≡ false
  unfolding start_write start_handler trigger_monitor_check
  start_write_answered now accepts (post_monitor payload) core queue = ground arith
  start_write_answered now accepts (patch_one id payload) core queue = ground arith
  start_write_answered now accepts (put_one id payload) core queue = ground arith
  start_write_answered now accepts (delete_one id) core queue = ground arith
  start_write_answered now accepts (post_check id) core queue = ground arith

  pub validated_write_answered :
      (lib : UrlLibrary) (now : ℕ) (accepts : Bool) (route : WriteRoute) (core : Concurrent)
      (queue : List ℕ)
      → is_refused (validated_write max_monitors connections lib now accepts route (core, queue)).0
        ≡ false
  unfolding validated_write
  validated_write_answered lib now accepts route core queue =
      ground (arith, start_write_answered now accepts route core queue)

-- Is answered 429.
abbrev pub is_throttled : Option Answer → Bool
is_throttled (some (refused (too_many_requests wait))) = true
is_throttled _ = false

-- The status codes of answers to requests that the dependencies let pass.
success_codes :
    (route : Route) → (success_status route == 401 ≡ false) × (success_status route == 429 ≡ false)
unfolding success_status
success_codes (reading route) = (refl, refl)
success_codes (writing (post_monitor payload)) = (refl, refl)
success_codes (writing (patch_one id payload)) = (refl, refl)
success_codes (writing (put_one id payload)) = (refl, refl)
success_codes (writing (delete_one id)) = (refl, refl)
success_codes (writing (post_check id)) = (refl, refl)

error_codes : (e : ApiError) → (error_status e == 401 ≡ false) × (error_status e == 429 ≡ false)
unfolding error_status
error_codes not_found = (refl, refl)
error_codes limit_reached = (refl, refl)
error_codes (unprocessable e) = (refl, refl)
error_codes server_error = (refl, refl)

-- The answer `too_many_requests` is the only one with the status code 429.
pub is_throttled-eq :
    (route : Route) (a : Option Answer)
    → (Option.map (status_of route) a ≡ some 429) ↔ (is_throttled a ≡ true)
unfolding status_of
is_throttled-eq route none = (λ h. absurd (cc), λ h. absurd (cc))
is_throttled-eq route (some (refused unauthorized)) = (λ h. absurd (ground arith), λ h. absurd (cc))
is_throttled-eq route (some (refused (too_many_requests wait))) = (λ h. refl, λ h. refl)
is_throttled-eq route (some invalid) = (λ h. absurd (ground arith), λ h. absurd (cc))
is_throttled-eq route (some (failed e)) =
    let other = error_codes e in (λ h. absurd (ground arith), λ h. absurd (cc))
is_throttled-eq route (some (success content)) =
    let other = success_codes route in (λ h. absurd (ground arith), λ h. absurd (cc))

-- No other answer has the status code 401.
pub status_401 : (route : Route) (a : Answer) → status_of route a ≡ 401 → a ≡ refused unauthorized
unfolding status_of
status_401 route (refused unauthorized) h = refl
status_401 route (refused (too_many_requests wait)) h = absurd (ground arith)
status_401 route invalid h = absurd (ground arith)
status_401 route (failed e) h = absurd (ground (arith, error_codes e))
status_401 route (success content) h = absurd (ground (arith, success_codes route))
