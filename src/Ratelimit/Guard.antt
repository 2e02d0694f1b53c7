-- ===== src/Ratelimit/Guard.antt =====
-- What stands before a route that writes.
use ping_gaurd.Prelude.{
  ℕ, ◌≡◌, refl, ap, ◌⊎◌, inl, inr, Bool, true, false, Text, Option, none, some, [], ◌∷◌, arith,
  text_eq, text_eq→eq, Bool-cases,
}
use ping_gaurd.Models.{ok, raise}
use ping_gaurd.Ratelimit.{
  Caller, limit_key, Refusal, unauthorized, too_many_requests, rate_limit_write, require_api_key,
  write_route,
}

require_api_key-eq :
    (configured_key : Text) (given : Option Text) {key : Text}
    → require_api_key configured_key given ≡ ok key
    → given ≡ some configured_key
unfolding require_api_key
require_api_key-eq configured_key none h = absurd (cc)
require_api_key-eq configured_key (some []) h = absurd (cc)
require_api_key-eq configured_key (some (c ∷ cs)) h =
    elim (Bool-cases (text_eq (c ∷ cs) configured_key)) [
      | inl same ↦ ap some (text_eq→eq (c ∷ cs) configured_key same)
      | inr other ↦ absurd (ground arith)
    ]

require_api_key-cases :
    (configured_key : Text) (given : Option Text)
    → ((key : Text) × (require_api_key configured_key given ≡ ok key))
      ⊎ (require_api_key configured_key given ≡ raise unauthorized)
unfolding require_api_key
require_api_key-cases configured_key none = inr refl
require_api_key-cases configured_key (some []) = inr refl
require_api_key-cases configured_key (some (c ∷ cs)) =
    elim (Bool-cases (text_eq (c ∷ cs) configured_key)) [
      | inl same ↦ inl (c ∷ cs, ground arith)
      | inr other ↦ inr (ground arith)
    ]

rate_limit_write-cases :
    (answer : Option (Bool × ℕ))
    → (rate_limit_write answer ≡ ok tt)
      ⊎ ((wait : ℕ) × (rate_limit_write answer ≡ raise (too_many_requests wait)))
unfolding rate_limit_write
rate_limit_write-cases none = inl refl
rate_limit_write-cases (some (true, wait)) = inl refl
rate_limit_write-cases (some (false, wait)) = inr (wait, refl)

module _ {A L S : Type 0} (configured_key : Text) (sha256_hex : Text → Text)
    (hit : Text → L → Option (Bool × ℕ) × L) (handler : S → A × S) where
  -- A write that is answered other than by a refusal came with the configured key, was allowed by
  -- the limiter, and did what the handler does.
  pub write_admitted :
      (caller : Caller) (limiter : L) (s : S) {a : A} {counted : L} {after : S}
      → write_route configured_key sha256_hex hit handler caller (limiter, s)
        ≡ (ok a, (counted, after))
      → (caller.api_key ≡ some configured_key)
        × (rate_limit_write (hit (limit_key sha256_hex caller) limiter).0 ≡ ok tt)
        × (handler s ≡ (a, after))
  unfolding write_route
  write_admitted caller limiter s h = elim (require_api_key-cases configured_key caller.api_key) [
    | inr refused ↦ absurd (ground arith)
    | inl (key, e) ↦
        let same = require_api_key-eq configured_key caller.api_key e in
        elim (rate_limit_write-cases (hit (limit_key sha256_hex caller) limiter).0) [
          | inl allowed ↦ (same, allowed, ground arith)
          | inr (wait, over) ↦ absurd (ground arith)
        ]
  ]

  -- A write that is refused leaves the handler's state as it was. Either it is answered 401 and the
  -- limiter's state is as it was, or it is answered 429 and came with the configured key.
  pub write_refused :
      (caller : Caller) (limiter : L) (s : S) {e : Refusal} {counted : L} {after : S}
      → write_route configured_key sha256_hex hit handler caller (limiter, s)
        ≡ (raise e, (counted, after))
      → (after ≡ s)
        × (((e ≡ unauthorized) × (counted ≡ limiter))
            ⊎ ((wait : ℕ) × (e ≡ too_many_requests wait) × (caller.api_key ≡ some configured_key)))
  unfolding write_route
  write_refused caller limiter s h = elim (require_api_key-cases configured_key caller.api_key) [
    | inr refused ↦ (ground arith, inl (ground arith, ground arith))
    | inl (key, e) ↦
        let same = require_api_key-eq configured_key caller.api_key e in
        elim (rate_limit_write-cases (hit (limit_key sha256_hex caller) limiter).0) [
          | inl allowed ↦ absurd (ground arith)
          | inr (wait, over) ↦ (ground arith, inr (wait, ground arith, same))
        ]
  ]

  -- The handler's state after a route that writes is as before, or as the handler leaves it.
  pub write_route_state :
      (caller : Caller) (limiter : L) (s : S)
      → let after = (write_route configured_key sha256_hex hit handler caller (limiter, s)).1.1 in
        (after ≡ s) ⊎ (after ≡ (handler s).1)
  unfolding write_route
  write_route_state caller limiter s = elim (require_api_key-cases configured_key caller.api_key) [
    | inr denied ↦ inl (ground arith)
    | inl (key, e) ↦ elim (rate_limit_write-cases (hit (limit_key sha256_hex caller) limiter).0) [
      | inl allowed ↦ inr (ground arith)
      | inr (wait, over) ↦ inl (ground arith)
    ]
  ]

  -- Without the key nothing is counted, and nothing is done.
  pub write_route_denied :
      (caller : Caller) (limiter : L) (s : S)
      → require_api_key configured_key caller.api_key ≡ raise unauthorized
      → write_route configured_key sha256_hex hit handler caller (limiter, s)
        ≡ (raise unauthorized, (limiter, s))
  unfolding write_route
  write_route_denied caller limiter s denied = ground arith
