-- ===== src/Server/Throttle.antt =====
-- The limit on writes with the limiter over Redis, the one that the service uses.
use ping_gaurd.Prelude.{
  ℕ, ◌≡◌, refl, ◌↔◌, ◌∙◌, sym, Bool, true, false, not, ◌&&◌, Text, Option, none, some, [], ◌∷◌, inl,
  inr, arith, take, ltb, text_eq, text_eq→eq, Option-cases, Bool-cases,
}
use mathlib.Core.Option
use ping_gaurd.Net.Resolve.{UrlLibrary}
use ping_gaurd.Ratelimit.{
  Caller, PipelineReply, redis_hit, limit_key, rate_limit_write, write_route,
}
use ping_gaurd.Routes.{WriteRoute, writing, status_of, Answer, HttpCall}
use ping_gaurd.Server.{Server, serve, serve_read}
use ping_gaurd.Server.Answers.{is_throttled, is_throttled-eq, validated_write_answered}
use ping_gaurd.Server.Safe.{Route-cases}
use ping_gaurd.Server.Strangers.{has_key, is_reading, known_key, stranger_answered}

-- Redis counted more than the limit. A key without a time to live must get one first.
abbrev pub is_over : (limit : ℕ) → PipelineReply → (expire_works : Bool) → Bool
is_over limit none expire_works = false
is_over limit (some (count, none)) expire_works = expire_works && ltb limit count
is_over limit (some (count, some ttl)) expire_works = ltb limit count

redis_hit_over :
    (limit window : ℕ) (reply : PipelineReply) (expire_works : Bool)
    → (redis_hit limit window reply expire_works).0 ≡ not (is_over limit reply expire_works)
unfolding redis_hit
redis_hit_over limit window none expire_works = refl
redis_hit_over limit window (some (count, none)) expire_works = ground arith
redis_hit_over limit window (some (count, some ttl)) expire_works = ground arith

module _ (lib : UrlLibrary) (max_monitors connections limit : ℕ) (configured_key : Text)
    (sha256_hex : Text → Text) (reply : (now : ℕ) → Text → PipelineReply)
    (expire_works : (now : ℕ) → Text → Bool) where
  -- `limiter.hit` of the limiter over Redis. Its counts are in Redis: the process keeps none.
  abbrev pub redis : (now : ℕ) → Text → Unit {0} → Option (Bool × ℕ) × Unit {0}
  redis now key l = (some (redis_hit limit 60 (reply now key) (expire_works now key)), l)

  abbrev pub serve_redis : HttpCall → Server (Unit {0}) → Option Answer × Server (Unit {0})
  serve_redis = serve lib max_monitors connections configured_key sha256_hex redis

  -- The key in Redis under which all callers with the configured key are counted.
  abbrev pub shared_key : Text
  shared_key = take 16 (sha256_hex configured_key)

  shared_key_lem :
      (caller : Caller)
      → text_eq [] configured_key ≡ false
      → has_key configured_key caller ≡ true
      → limit_key sha256_hex caller ≡ shared_key
  unfolding limit_key
  shared_key_lem caller not_empty known = elim (Option-cases caller.api_key) [
    | inl missing ↦ absurd (ground arith)
    | inr (given, e) ↦
        let same = text_eq→eq given configured_key (ground arith) in
        filled configured_key not_empty (ground arith)
  ]
    where
      filled :
          (key : Text)
          → text_eq [] key ≡ false
          → caller.api_key ≡ some key
          → limit_key sha256_hex caller ≡ take 16 (sha256_hex key)
      filled [] empty e = absurd (cc)
      filled (c ∷ cs) full e = ground arith

  -- Which requests the limit refuses.
  abbrev pub exceeds : HttpCall → Bool
  exceeds call =
      not (is_reading call.route)
      && has_key configured_key call.caller
      && is_over limit (reply call.now shared_key) (expire_works call.now shared_key)

  known_throttled :
      (call : HttpCall) (route : WriteRoute) (s : Server (Unit {0}))
      → text_eq [] configured_key ≡ false
      → call.route ≡ writing route
      → has_key configured_key call.caller ≡ true
      → is_throttled (serve_redis call s).0 ≡ exceeds call
  unfolding serve write_route rate_limit_write
  known_throttled call route s not_empty e known =
      let allowed = known_key configured_key call.caller not_empty known in
      let key = shared_key_lem call.caller not_empty known in
      let over =
        redis_hit_over limit 60 (reply call.now shared_key) (expire_works call.now shared_key) in
      let answered =
        validated_write_answered max_monitors connections lib call.now call.accepts route s.core
          s.queue in
      ground arith

  is_throttled_exact :
      (call : HttpCall) (s : Server (Unit {0}))
      → text_eq [] configured_key ≡ false
      → is_throttled (serve_redis call s).0 ≡ exceeds call
  unfolding serve serve_read
  is_throttled_exact call s not_empty = elim (Bool-cases (has_key configured_key call.caller)) [
    | inr stranger ↦
        let answered =
          stranger_answered lib max_monitors connections configured_key sha256_hex redis call s
            stranger in
        ground arith
    | inl known ↦ elim (Route-cases call.route) [
      | inl (route, e) ↦
          let allowed = known_key configured_key call.caller not_empty known in ground arith
      | inr (route, e) ↦ known_throttled call route s not_empty e known
    ]
  ]

  throttled_silent :
      (call : HttpCall) (s : Server (Unit {0}))
      → text_eq [] configured_key ≡ false
      → exceeds call ≡ true
      → (serve_redis call s).1 ≡ s
  unfolding serve write_route rate_limit_write
  throttled_silent call s not_empty more = elim (Route-cases call.route) [
    | inl (route, e) ↦ absurd (ground arith)
    | inr (route, e) ↦
        let known : has_key configured_key call.caller ≡ true = ground arith in
        let allowed = known_key configured_key call.caller not_empty known in
        let key = shared_key_lem call.caller not_empty known in
        let over =
          redis_hit_over limit 60 (reply call.now shared_key) (expire_works call.now shared_key) in
        ground arith
  ]

  -- With a configured key that is not empty, whatever Redis replies: a request is answered at once with
  -- the status code 429 exactly if its route writes, it carries the configured key, and Redis' reply for
  -- the one key under which all such requests are counted shows more than the limit, where a key without
  -- a time to live must also get one; and then no handler runs and nothing is queued. So a limiter that
  -- gets no reply refuses nothing.
  pub throttled_iff :
      (call : HttpCall) (s : Server (Unit {0}))
      → text_eq [] configured_key ≡ false
      → ((Option.map (status_of call.route) (serve_redis call s).0 ≡ some 429)
          ↔ (exceeds call ≡ true))
        × (exceeds call ≡ true → (serve_redis call s).1 ≡ s)
  throttled_iff call s not_empty =
      let exact = is_throttled_exact call s not_empty in
      let status = is_throttled-eq call.route (serve_redis call s).0 in
      (
        (λ answered. sym exact ∙ status.0 answered, λ over. status.1 (exact ∙ over)),
        throttled_silent call s not_empty,
      )
