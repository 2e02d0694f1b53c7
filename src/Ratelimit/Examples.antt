-- ===== src/Ratelimit/Examples.antt =====
-- The theorems on app/ratelimit.py and app/security.py at concrete inputs.
use ping_gaurd.Prelude.{ℕ, ◌*◌, ◌≤◌, ◌≡◌, refl, arith, Text, codes, List, [], ◌∷◌}
use ping_gaurd.Ratelimit.{
  Windows, hit_window, in_memory_hit, redis_hit, limit_key, rate_limit_write, require_api_key,
  write_route,
}
use ping_gaurd.Ratelimit.Window.{admitted_hits, window_bound}

abbrev secret : Text
secret = codes "a-key-of-many-characters-0"

program : Unit {0}
unfolding hit_window in_memory_hit limit_key rate_limit_write require_api_key write_route
    admitted_hits redis_hit
program = tt

-- Two hits on either side of the window's end: four are allowed, with a limit of two.
abbrev around_the_end : List ℕ
around_the_end = 59000000 ∷ 59000001 ∷ 59000002 ∷ 60000000 ∷ 60000001 ∷ 60000002 ∷ []

abbrev started : Windows
started = (secret, (0, 60000000)) ∷ []

twice_the_limit : admitted_hits 2 60 secret started around_the_end ≡ 4
unfolding program
twice_the_limit = refl

window_bound_example :
    admitted_hits 2 60 secret started (59000000 ∷ 59000001 ∷ 60000000 ∷ []) ≤ 2 * 2
window_bound_example =
    window_bound 2 60 secret 59000000 started (59000000 ∷ 59000001 ∷ 60000000 ∷ []) (omega arith)
      (omega arith) (omega arith)
