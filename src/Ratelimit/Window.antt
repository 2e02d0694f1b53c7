-- ===== src/Ratelimit/Window.antt =====
-- How many requests a window admits.
use ping_gaurd.Prelude.{
  ℕ, suc, ◌+◌, ◌*◌, ◌≤◌, ◌<◌, ◌≡◌, refl, Bool, false, Option, none, some, List, [], ◌∷◌, All, arith,
  leb, ltb, if◌then◌else◌, Bool-cases, inl, inr, Text, text_eq_refl, ap, ◌∙◌,
}
use ping_gaurd.Models.{timedelta_seconds}
use ping_gaurd.Ratelimit.{
  hit_window, redis_hit, PipelineReply, Windows, window_of, set_window, in_memory_hit,
}

window_of-set_window :
    (key : Text) (window : ℕ × ℕ) (windows : Windows)
    → window_of key (set_window key window windows) ≡ some window
window_of-set_window key window [] = ground (arith, text_eq_refl key)
window_of-set_window key window (entry ∷ entries) =
    ground (arith, window_of-set_window key window entries)

module _ (limit window_seconds : ℕ) where
  -- The number of allowed hits of one key at the given times, in their order.
  unfoldable pub admitted : Option (ℕ × ℕ) → List ℕ → ℕ
  admitted window [] = 0
  admitted window (now ∷ times) =
      let (answer, after) = hit_window limit window_seconds now window in
      let rest = admitted (some after) times in if answer.0 then suc rest else rest

  -- Before the end of its window, a key is allowed what is left of the limit.
  admitted_inside :
      (count reset_at : ℕ) (times : List ℕ)
      → count ≤ limit
      → All (λ now. now < reset_at) times
      → admitted (some (count, reset_at)) times + count ≤ limit
  unfolding admitted hit_window
  admitted_inside count reset_at [] low before = ground arith
  admitted_inside count reset_at (now ∷ times) low (first, before) =
      elim (Bool-cases (ltb count limit)) [
        | inl more ↦
            ground (arith, admitted_inside (suc count) reset_at times (ground arith) before)
        | inr full ↦ ground (arith, admitted_inside count reset_at times low before)
      ]

  -- Hits from a time on, all less than a window later.
  abbrev pub IsWithinWindow : ℕ → List ℕ → Type 0
  IsWithinWindow t0 times =
      All (λ now. (t0 ≤ now) × (now < t0 + timedelta_seconds window_seconds)) times

  within-before :
      (t0 start : ℕ) (times : List ℕ)
      → t0 ≤ start
      → IsWithinWindow t0 times
      → All (λ now. now < start + timedelta_seconds window_seconds) times
  within-before t0 start [] later h = tt
  within-before t0 start (now ∷ times) later h =
      (ground arith, within-before t0 start times later h.1)

  admitted_across :
      (t0 count reset_at : ℕ) (times : List ℕ)
      → 1 ≤ limit
      → count ≤ limit
      → IsWithinWindow t0 times
      → admitted (some (count, reset_at)) times + count ≤ 2 * limit
  unfolding admitted hit_window
  admitted_across t0 count reset_at [] some_limit low h = ground arith
  admitted_across t0 count reset_at (now ∷ times) some_limit low (first, later) =
      elim (Bool-cases (leb reset_at now)) [
        | inl over ↦
            let window = now + timedelta_seconds window_seconds in
            let before = within-before t0 now times first.0 later in
            ground (arith, admitted_inside 1 window times some_limit before)
        | inr inside ↦ elim (Bool-cases (ltb count limit)) [
          | inl more ↦
              ground (
                arith,
                admitted_across t0 (suc count) reset_at times some_limit (ground arith) later,
              )
          | inr full ↦ ground (arith, admitted_across t0 count reset_at times some_limit low later)
        ]
      ]

  -- A count that the limiter can have stored.
  abbrev pub IsCounted : Option (ℕ × ℕ) → Type 0
  IsCounted none = Unit
  IsCounted (some (count, reset_at)) = count ≤ limit

  admitted_any :
      (t0 : ℕ) (window : Option (ℕ × ℕ)) (times : List ℕ)
      → 1 ≤ limit
      → IsCounted window
      → IsWithinWindow t0 times
      → admitted window times ≤ 2 * limit
  unfolding admitted hit_window
  admitted_any t0 (some (count, reset_at)) times some_limit low h =
      ground (arith, admitted_across t0 count reset_at times some_limit low h)
  admitted_any t0 none [] some_limit low h = ground arith
  admitted_any t0 none (now ∷ times) some_limit low (first, later) =
      let window = now + timedelta_seconds window_seconds in
      let before = within-before t0 now times first.0 later in
      ground (arith, admitted_inside 1 window times some_limit before)

  -- The number of allowed hits of the limiter itself.
  unfoldable pub admitted_hits : Text → Windows → List ℕ → ℕ
  admitted_hits key windows [] = 0
  admitted_hits key windows (now ∷ times) =
      let (answer, after) = in_memory_hit key limit window_seconds now windows in
      let rest = admitted_hits key after times in if answer.0 then suc rest else rest

  admitted-hits :
      (key : Text) (windows : Windows) (times : List ℕ)
      → admitted_hits key windows times ≡ admitted (window_of key windows) times
  unfolding admitted_hits admitted in_memory_hit
  admitted-hits key windows [] = refl
  admitted-hits key windows (now ∷ times) =
      let answered = hit_window limit window_seconds now (window_of key windows) in
      let later = admitted-hits key (set_window key answered.1 windows) times in
      let stored = window_of-set_window key answered.1 windows in
      ap (λ rest. if answered.0.0 then suc rest else rest)
        (later ∙ ap (λ w. admitted w times) stored)

  -- Of the limiter in memory, the one that tests put in the place of the one over Redis: if the limit
  -- is positive and the count stored for a key is within it, then in any span of the length of a window
  -- it allows that key at most twice the limit, whatever else it has stored before.
  pub window_bound :
      (key : Text) (t0 : ℕ) (windows : Windows) (times : List ℕ)
      → 1 ≤ limit
      → IsCounted (window_of key windows)
      → IsWithinWindow t0 times
      → admitted_hits key windows times ≤ 2 * limit
  window_bound key t0 windows times some_limit low h =
      let bound = admitted_any t0 (window_of key windows) times some_limit low h in
      ground (arith, admitted-hits key windows times)

-- If Redis refuses a write, its count is above the limit, and the caller is told to wait at least a
-- second: an outage never refuses one.
pub redis_refuses :
    (limit window_seconds wait : ℕ) (reply : PipelineReply) (expire_works : Bool)
    → redis_hit limit window_seconds reply expire_works ≡ (false, wait)
    → (count : ℕ) × (ttl : Option ℕ) × (reply ≡ some (count, ttl)) × (limit < count) × (1 ≤ wait)
unfolding redis_hit
redis_refuses limit window_seconds wait none expire_works h = absurd (ground arith)
redis_refuses limit window_seconds wait (some (count, none)) expire_works h =
    (count, none, refl, ground arith, ground arith)
redis_refuses limit window_seconds wait (some (count, some ttl)) expire_works h =
    (count, some ttl, refl, ground arith, ground arith)
