-- ===== src/Server/Strangers.antt =====
-- What requests without the key, and requests that only read, do to the server: nothing.
use ping_gaurd.Prelude.{
  ℕ, ◌≡◌, refl, ap, ◌↔◌, inl, inr, Bool, true, false, not, ◌||◌, Text, Option, none, some, List, [],
  ◌∷◌, arith, select, text_eq, text_eq_refl, text_eq→eq, Bool-cases, Option-cases,
}
use mathlib.Core.Option
use ping_gaurd.Models.{ok, raise}
use ping_gaurd.Net.Resolve.{UrlLibrary}
use ping_gaurd.Ratelimit.{Caller, unauthorized, require_api_key, rate_limit_write, write_route}
use ping_gaurd.Ratelimit.Guard.{write_route_denied}
use ping_gaurd.Routes.{status_of, Route, WriteRoute, reading, writing, Answer, refused, HttpCall}
use ping_gaurd.Server.{
  Server, ServerEvent, arrive, complete, cancel, worker, validated_write, serve_read, serve,
  step_server, run_server,
}
use ping_gaurd.Server.Answers.{status_401, validated_write_answered}
use ping_gaurd.Server.Safe.{Route-cases, reading_silent}

-- The header carries the configured key.
abbrev pub has_key : (configured_key : Text) → Caller → Bool
has_key configured_key caller = elim caller.api_key [
  | none ↦ false
  | some given ↦ text_eq given configured_key
]

abbrev pub is_reading : Route → Bool
is_reading (reading route) = true
is_reading (writing route) = false

-- The arrival of a request without the key, or of one that reads.
abbrev pub is_silent : (configured_key : Text) → ServerEvent → Bool
is_silent configured_key (arrive call) =
    not (has_key configured_key call.caller) || is_reading call.route
is_silent configured_key _ = false

-- Is answered 401.
abbrev is_unauthorized : Option Answer → Bool
is_unauthorized (some (refused unauthorized)) = true
is_unauthorized _ = false

stranger_denied :
    (configured_key : Text) (caller : Caller)
    → has_key configured_key caller ≡ false
    → require_api_key configured_key caller.api_key ≡ raise unauthorized
unfolding require_api_key
stranger_denied configured_key caller h = elim (Option-cases caller.api_key) [
  | inl missing ↦ ground arith
  | inr (given, e) ↦ denied_given given (ground arith) e
]
  where
    denied_given :
        (given : Text)
        → text_eq given configured_key ≡ false
        → caller.api_key ≡ some given
        → require_api_key configured_key caller.api_key ≡ raise unauthorized
    denied_given [] other e = ground arith
    denied_given (c ∷ cs) other e = ground arith

pub known_key :
    (configured_key : Text) (caller : Caller)
    → text_eq [] configured_key ≡ false
    → has_key configured_key caller ≡ true
    → require_api_key configured_key caller.api_key ≡ ok configured_key
unfolding require_api_key
known_key configured_key caller not_empty h = elim (Option-cases caller.api_key) [
  | inl missing ↦ absurd (ground arith)
  | inr (given, e) ↦
      let same = text_eq→eq given configured_key (ground arith) in
      rw (e, same) (known_same configured_key not_empty)
]
  where
    known_same : (key : Text) → text_eq [] key ≡ false → require_api_key key (some key) ≡ ok key
    known_same [] empty = absurd (cc)
    known_same (c ∷ cs) filled = ground (arith, text_eq_refl (c ∷ cs))

module _ {L : Type 0} (lib : UrlLibrary) (max_monitors connections : ℕ) (configured_key : Text)
    (sha256_hex : Text → Text) (hit : (now : ℕ) → Text → L → Option (Bool × ℕ) × L) where
  stranger_writing :
      (call : HttpCall) (route : WriteRoute) (s : Server L)
      → call.route ≡ writing route
      → has_key configured_key call.caller ≡ false
      → serve lib max_monitors connections configured_key sha256_hex hit call s
        ≡ (some (refused unauthorized), s)
  unfolding serve
  stranger_writing call route s e stranger =
      let denied = stranger_denied configured_key call.caller stranger in
      ground (
        arith,
        write_route_denied configured_key sha256_hex (hit call.now)
            (validated_write max_monitors connections lib call.now call.accepts route) call.caller
            s.limiter (s.core, s.queue),
      )

  pub silent_step :
      (e : ServerEvent) (s : Server L)
      → is_silent configured_key e ≡ true
      → (step_server lib max_monitors connections configured_key sha256_hex hit e s).1 ≡ s
  unfolding step_server
  silent_step (arrive call) s silent = elim (Route-cases call.route) [
    | inl (route, e) ↦
        reading_silent lib max_monitors connections configured_key sha256_hex hit call route s e
    | inr (route, e) ↦
        let stranger : has_key configured_key call.caller ≡ false = ground arith in
        ap (λ (r : Option Answer × Server L). r.1) (stranger_writing call route s e stranger)
  ]
  silent_step (complete n) s silent = absurd (cc)
  silent_step (cancel n) s silent = absurd (cc)
  silent_step (worker a) s silent = absurd (cc)

  -- Requests that do not carry the configured key, and requests that only read, leave no trace: after
  -- any sequence of events the limiter, the database, the handlers in flight and the queue are as if
  -- none of those requests had arrived.
  pub strangers_silent :
      (events : List ServerEvent) (s : Server L)
      → run_server lib max_monitors connections configured_key sha256_hex hit events s
        ≡ run_server lib max_monitors connections configured_key sha256_hex hit
            (select (λ e. not (is_silent configured_key e)) events)
            s
  unfolding run_server
  strangers_silent [] s = refl
  strangers_silent (e ∷ events) s =
      let next = (step_server lib max_monitors connections configured_key sha256_hex hit e s).1 in
      elim (Bool-cases (is_silent configured_key e)) [
        | inl silent ↦
            let same : next ≡ s = silent_step e s silent in
            ground (arith, strangers_silent events s)
        | inr heard ↦ ground (arith, strangers_silent events next)
      ]

  known_answered :
      (call : HttpCall) (key : Text) (s : Server L)
      → require_api_key configured_key call.caller.api_key ≡ ok key
      → is_unauthorized (serve lib max_monitors connections configured_key sha256_hex hit call s).0
        ≡ false
  unfolding serve write_route rate_limit_write serve_read
  known_answered call key s known = elim (Route-cases call.route) [
    | inl (route, e) ↦ ground arith
    | inr (route, e) ↦ ground (
      arith,
      validated_write_answered max_monitors connections lib call.now call.accepts route s.core
          s.queue,
    )
  ]

  pub stranger_answered :
      (call : HttpCall) (s : Server L)
      → has_key configured_key call.caller ≡ false
      → (serve lib max_monitors connections configured_key sha256_hex hit call s).0
        ≡ some (refused unauthorized)
  unfolding serve
  stranger_answered call s stranger = elim (Route-cases call.route) [
    | inl (route, e) ↦
        let denied = stranger_denied configured_key call.caller stranger in ground arith
    | inr (route, e) ↦
        ap (λ (r : Option Answer × Server L). r.0) (stranger_writing call route s e stranger)
  ]

  status_reached :
      (call : HttpCall) (answer : Option Answer)
      → Option.map (status_of call.route) answer ≡ some 401
      → answer ≡ some (refused unauthorized)
  status_reached call none h = absurd (cc)
  status_reached call (some a) h = ap some (status_401 call.route a (ground arith))

  -- With a configured key that is not empty, a request is answered at once with the status code 401
  -- exactly if it does not carry that key.
  pub unauthorized_iff :
      (call : HttpCall) (s : Server L)
      → text_eq [] configured_key ≡ false
      → (Option.map
            (status_of call.route)
            (serve lib max_monitors connections configured_key sha256_hex hit call s).0
          ≡ some 401)
        ↔ (has_key configured_key call.caller ≡ false)
  unfolding status_of
  unauthorized_iff call s not_empty = elim (Bool-cases (has_key configured_key call.caller)) [
    | inr stranger ↦ (λ answered. stranger, λ h. rw (stranger_answered call s stranger) refl)
    | inl known ↦
        let e = known_key configured_key call.caller not_empty known in
        let served = known_answered call configured_key s e in
        (
          λ answered. let refusal = status_reached call _ answered in absurd (ground arith),
          λ h. absurd (ground arith),
        )
  ]
