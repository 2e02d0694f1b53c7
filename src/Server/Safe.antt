-- ===== src/Server/Safe.antt =====
-- Whatever requests arrive, the server runs handlers whose requests passed validation.
use ping_gaurd.Prelude.{
  ℕ, ◌+◌, ◌-◌, ◌≡◌, ◌∙◌, refl, ap, sym, subst, ◌⊎◌, inl, inr, Bool, true, Text, Option, List, [],
  ◌∷◌, ◌++◌, All, arith, ltb, length, Bool-cases, Option-cases,
}
use ping_gaurd.Models.{Database, Result, Result-cases, ok, raise}
use ping_gaurd.Net.Resolve.{UrlLibrary}
use ping_gaurd.Ratelimit.{write_route, require_api_key}
use ping_gaurd.Ratelimit.Guard.{write_route_state}
use ping_gaurd.Api.{get_monitor, list_monitors, get_monitor_results}
use ping_gaurd.Routes.{
  get_one, get_list, get_results, WriteRoute, post_monitor, patch_one, put_one, delete_one,
  post_check, ReadRoute, Route, reading, writing, is_ok, valid_write, valid_create_call,
  valid_update_call, HttpCall,
}
use ping_gaurd.Server.{
  serve_read, Server, ServerEvent, arrive, complete, cancel, worker, start_handler, start_write,
  validated_write, serve, step_server, run_server,
}
use ping_gaurd.System.{no_rows}
use ping_gaurd.System.Stored.{IsStored}
use ping_gaurd.System.Tasks.{is_work}
use ping_gaurd.System.Overlap.{
  WriteHandler, create_handler, update_handler, delete_handler, Concurrent, Event, begin, finish,
  abandon, work, nth_of, step_event, run_events, idle,
}
use ping_gaurd.System.Overlap.Safe.{IsSafeRow}
use ping_gaurd.System.Overlap.Limit.{run_append}
use ping_gaurd.System.Overlap.Bounded.{IsValid, IsAllowed}
use ping_gaurd.System.Overlap.Reach.{run_events-IsStored}

-- The transactions that the worker adds are the worker's.
abbrev pub IsService : ServerEvent → Type 0
IsService (worker a) = is_work a ≡ true
IsService _ = Unit

is_ok-eq : {E : Type 0} (r : Result E (Unit {0})) → is_ok r ≡ true → r ≡ ok tt
is_ok-eq (ok u) h = refl
is_ok-eq (raise e) h = absurd (cc)

pub Route-cases :
    (r : Route)
    → ((route : ReadRoute) × (r ≡ reading route)) ⊎ ((route : WriteRoute) × (r ≡ writing route))
Route-cases (reading route) = inl (route, refl)
Route-cases (writing route) = inr (route, refl)

All-append : (P : Event → Type 0) (xs ys : List Event) → All P xs → All P ys → All P (xs ++ ys)
All-append P [] ys h k = k
All-append P (x ∷ xs) ys h k = (h.0, All-append P xs ys h.1 k)

-- The handlers that read leave the database as it was.
serve_read_keeps : (route : ReadRoute) (db : Database) → (serve_read route db).1 ≡ db
unfolding serve_read get_monitor list_monitors get_monitor_results
serve_read_keeps (get_one id) db = ground arith
serve_read_keeps (get_list skip limit) db = refl
serve_read_keeps (get_results id limit check_type) db = ground arith

module _ (lib : UrlLibrary) (max_monitors connections : ℕ) where
  -- The handlers between two states, as events that are allowed.
  abbrev Leads : Concurrent → Concurrent → Type 0
  Leads before after =
      (events : List Event) × All (IsAllowed lib) events
      × (after ≡ run_events max_monitors connections events before)

  nowhere-Leads : (core : Concurrent) → Leads core core
  unfolding run_events
  nowhere-Leads core = ([], tt, refl)

  once-Leads :
      (e : Event) (core : Concurrent)
      → IsAllowed lib e
      → Leads core (step_event max_monitors connections e core)
  unfolding run_events
  once-Leads e core allowed = (e ∷ [], (allowed, tt), refl)

  start_handler-Leads :
      (h : WriteHandler) (core : Concurrent) (queue : List ℕ)
      → IsValid lib h
      → Leads core (start_handler max_monitors connections h (core, queue)).1.0
  unfolding start_handler
  start_handler-Leads h core queue valid =
      elim (Bool-cases (ltb (length core.in_flight) connections)) [
        | inl free ↦ rw free (once-Leads (begin h) core valid)
        | inr full ↦ rw full (nowhere-Leads core)
      ]

  start_write-Leads :
      (now : ℕ) (accepts : Bool) (route : WriteRoute) (core : Concurrent) (queue : List ℕ)
      → valid_write lib route ≡ true
      → Leads core (start_write max_monitors connections now accepts route (core, queue)).1.0
  unfolding start_write valid_write valid_create_call valid_update_call
  start_write-Leads now accepts (post_monitor payload) core queue valid =
      start_handler-Leads (create_handler now payload) core queue (is_ok-eq _ valid)
  start_write-Leads now accepts (patch_one id payload) core queue valid =
      start_handler-Leads (update_handler now id payload) core queue (is_ok-eq _ (ground arith))
  start_write-Leads now accepts (put_one id payload) core queue valid =
      start_handler-Leads (update_handler now id payload) core queue (is_ok-eq _ (ground arith))
  start_write-Leads now accepts (delete_one id) core queue valid =
      start_handler-Leads (delete_handler id) core queue tt
  start_write-Leads now accepts (post_check id) core queue valid = nowhere-Leads core

  validated_write-Leads :
      (now : ℕ) (accepts : Bool) (route : WriteRoute) (core : Concurrent) (queue : List ℕ)
      → Leads core
          (validated_write max_monitors connections lib now accepts route (core, queue)).1.0
  unfolding validated_write
  validated_write-Leads now accepts route core queue = elim (Bool-cases (valid_write lib route)) [
    | inl valid ↦ rw valid (start_write-Leads now accepts route core queue valid)
    | inr not_valid ↦ rw not_valid (nowhere-Leads core)
  ]

  module _ {L : Type 0} (configured_key : Text) (sha256_hex : Text → Text)
      (hit : (now : ℕ) → Text → L → Option (Bool × ℕ) × L) where
    abbrev pub after_event : ServerEvent → Server L → Server L
    after_event e s = (step_server lib max_monitors connections configured_key sha256_hex hit e s).1

    writing-Leads :
        (call : HttpCall) (route : WriteRoute) (s : Server L)
        → call.route ≡ writing route
        → Leads s.core (after_event (arrive call) s).core
    unfolding step_server serve
    writing-Leads call route s e =
        let handler = validated_write max_monitors connections lib call.now call.accepts route in
        let moved =
          write_route_state configured_key sha256_hex (hit call.now) handler call.caller s.limiter
            (s.core, s.queue) in
        let reached : (after_event (arrive call) s).core
            ≡ (write_route configured_key sha256_hex (hit call.now) handler call.caller
                (s.limiter, (s.core, s.queue))).1.1.0 =
          ground arith in
        elim moved [
          | inl stays ↦
              subst (Leads s.core) (sym (reached ∙ ap (λ p. p.0) stays)) (nowhere-Leads s.core)
          | inr goes ↦
              subst (Leads s.core) (sym (reached ∙ ap (λ p. p.0) goes))
                (validated_write-Leads call.now call.accepts route s.core s.queue)
        ]

    pub reading_silent :
        (call : HttpCall) (route : ReadRoute) (s : Server L)
        → call.route ≡ reading route
        → after_event (arrive call) s ≡ s
    unfolding step_server serve
    reading_silent call route s e =
        elim (Result-cases (require_api_key configured_key call.caller.api_key)) [
          | inl (key, given) ↦ ground (arith, serve_read_keeps route s.core.db)
          | inr (refusal, denied) ↦ ground arith
        ]

    complete-Leads : (n : ℕ) (s : Server L) → Leads s.core (after_event (complete n) s).core
    unfolding step_server
    complete-Leads n s =
        let next = step_event max_monitors connections (finish n) s.core in
        elim (Option-cases (nth_of n s.core.in_flight)) [
          | inl missing ↦
              let same : (after_event (complete n) s).core ≡ s.core = ground arith in
              subst (Leads s.core) (sym same) (nowhere-Leads s.core)
          | inr (o, there) ↦
              let same : (after_event (complete n) s).core ≡ next = ground arith in
              subst (Leads s.core) (sym same) (once-Leads (finish n) s.core tt)
        ]

    step-Leads :
        (e : ServerEvent) (s : Server L) → IsService e → Leads s.core (after_event e s).core
    unfolding step_server
    step-Leads (arrive call) s service = elim (Route-cases call.route) [
      | inl (route, e) ↦
          subst (λ t. Leads s.core t.core) (sym (reading_silent call route s e))
            (nowhere-Leads s.core)
      | inr (route, e) ↦ writing-Leads call route s e
    ]
    step-Leads (complete n) s service = complete-Leads n s
    step-Leads (cancel n) s service = once-Leads (abandon n) s.core tt
    step-Leads (worker a) s service = once-Leads (work a) s.core service

    -- Whatever requests arrive, whoever sends them, and whenever handlers complete or are cancelled: the
    -- server makes of them a sequence of handlers that overlap, each with a request that passed
    -- validation, among the same transactions of the worker.
    pub server-Leads :
        (events : List ServerEvent) (s : Server L)
        → All IsService events
        → (trace : List Event) × All (IsAllowed lib) trace
          × ((run_server lib max_monitors connections configured_key sha256_hex hit events s).core
              ≡ run_events max_monitors connections trace s.core)
    unfolding run_server
    server-Leads [] s service = nowhere-Leads s.core
    server-Leads (e ∷ events) s service =
        let first = step-Leads e s service.0 in
        let next = server-Leads events (after_event e s) service.1 in
        (
          first.0 ++ next.0,
          All-append (IsAllowed lib) first.0 next.0 first.1 next.1,
          next.2
              ∙ ap (run_events max_monitors connections next.0) first.2
              ∙ sym (run_append max_monitors connections first.0 next.0 s.core),
        )

    -- Whatever requests arrive at a server with an empty database, whoever sends them, and whatever the
    -- worker does: keys of monitors and of results are unique and below their sequences; both intervals
    -- of each monitor are within bounds; every result belongs to a monitor that is stored; and there are
    -- at most `max_monitors` monitors and one less than the connections more.
    pub server-IsStored :
        (events : List ServerEvent) (limiter : L)
        → All IsService events
        → let start : Server L = record { limiter = limiter; core = idle no_rows; queue = [] } in
          IsStored IsSafeRow
            (max_monitors + connections - 1)
            (run_server lib max_monitors connections configured_key sha256_hex hit events
              start).core.db
    server-IsStored events limiter service =
        let start : Server L = record { limiter = limiter; core = idle no_rows; queue = [] } in
        let led = server-Leads events start service in
        subst (λ c. IsStored IsSafeRow (max_monitors + connections - 1) c.db) (sym led.2)
          (run_events-IsStored lib max_monitors connections led.0 led.1)
