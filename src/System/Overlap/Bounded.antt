-- ===== src/System/Overlap/Bounded.antt =====
-- Each event keeps the rows that are stored, and those about to be, within one bound.
use ping_gaurd.Prelude.{
  ℕ, ◌+◌, ◌-◌, ◌≤◌, ◌<◌, ◌≡◌, true, false, not, Bool, inl, inr, [], ◌∷◌, ◌++◌, All, arith, length,
  length-append, leb, ltb, count_p, count_p-append, Bool-cases, Option-cases, if◌then◌else◌,
}
use ping_gaurd.Models.{Database, ok}
use ping_gaurd.Net.Resolve.{UrlLibrary}
use ping_gaurd.Tasks.Probe.{set_changed}
use ping_gaurd.Schemas.{validate_create, validate_update}
use ping_gaurd.System.{Action}
use ping_gaurd.System.Rows.{All_snoc}
use ping_gaurd.System.Stored.{IsStored, rebound-IsStored}
use ping_gaurd.System.Tasks.{is_work, work-IsStored}
use ping_gaurd.System.Overlap.{
  WriteHandler, create_handler, update_handler, delete_handler, InFlight, Concurrent, Event, begin,
  finish, abandon, work, nth_of, commit_handler, step_event,
}
use ping_gaurd.System.Overlap.Safe.{
  IsSafeRow, set_next-IsSafeRow, create_over-IsStored, update_over-IsStored, delete_over-IsStored,
}
use ping_gaurd.System.Overlap.Positions.{
  All-nth_of, All-without, length-without, count_p-without, count_p-taken, count_p-length,
}

-- A handler that will insert a row: its count was below the limit.
abbrev pub has_room : (max_monitors : ℕ) → WriteHandler → (seen : Database) → Bool
has_room max_monitors (create_handler now payload) seen =
    not (leb max_monitors (length seen.monitors))
has_room max_monitors (update_handler now id payload) seen = false
has_room max_monitors (delete_handler id) seen = false

-- The body passed FastAPI's validation.
abbrev pub IsValid : UrlLibrary → WriteHandler → Type 0
IsValid lib (create_handler now payload) = validate_create lib payload ≡ ok tt
IsValid lib (update_handler now id payload) = validate_update payload ≡ ok tt
IsValid lib (delete_handler id) = Unit

abbrev pub IsAllowed : UrlLibrary → Event → Type 0
IsAllowed lib (begin h) = IsValid lib h
IsAllowed lib (finish n) = Unit
IsAllowed lib (abandon n) = Unit
IsAllowed lib (work a) = is_work a ≡ true

commit-IsStored :
    (lib : UrlLibrary) (max_monitors bound : ℕ) (h : WriteHandler) (seen db : Database)
    → IsValid lib h
    → length db.monitors + (if has_room max_monitors h seen then 1 else 0) ≤ bound
    → IsStored IsSafeRow bound db
    → IsStored IsSafeRow bound (commit_handler max_monitors h seen db)
unfolding commit_handler
commit-IsStored lib mx bound (create_handler now payload) seen db valid b s =
    elim (Bool-cases (leb mx (length seen.monitors))) [
      | inl full ↦ create_over-IsStored bound lib mx now payload seen db valid (inl full) s
      | inr below ↦
          create_over-IsStored bound lib mx now payload seen db valid (inr (ground arith)) s
    ]
commit-IsStored lib mx bound (update_handler now id payload) seen db valid b s =
    update_over-IsStored bound now id payload seen db valid s
commit-IsStored lib mx bound (delete_handler id) seen db valid b s =
    delete_over-IsStored bound id seen db s

module _ (lib : UrlLibrary) (max_monitors connections : ℕ) where
  -- The rows stored and the rows that are about to be, together within one bound.
  pub record IsBounded (s : Concurrent) : Type 0 where
    pub stored : IsStored IsSafeRow (max_monitors + connections - 1) s.db
    pub budget :
        length s.db.monitors + count_p (λ o. has_room max_monitors o.handler o.seen) s.in_flight
        ≤ max_monitors + connections - 1
    pub held : length s.in_flight ≤ connections
    pub valid : All (λ o. IsValid lib o.handler) s.in_flight

  has_room-below :
      (h : WriteHandler) (db : Database)
      → has_room max_monitors h db ≡ true
      → length db.monitors < max_monitors
  has_room-below (create_handler now payload) db h = ground arith
  has_room-below (update_handler now id payload) db h = absurd (cc)
  has_room-below (delete_handler id) db h = absurd (cc)

  begin_budget :
      (h : WriteHandler) (s : Concurrent)
      → ltb (length s.in_flight) connections ≡ true
      → IsBounded s
      → length s.db.monitors
          + count_p
              (λ o. has_room max_monitors o.handler o.seen)
              (s.in_flight ++ record { handler = h; seen = s.db } ∷ [])
        ≤ max_monitors + connections - 1
  begin_budget h s free i =
      let p = λ (o : InFlight). has_room max_monitors o.handler o.seen in
      let started : InFlight = record { handler = h; seen = s.db } in
      let budget = i.budget in
      elim (Bool-cases (has_room max_monitors h s.db)) [
        | inl room ↦ ground (
          arith,
          count_p-append p s.in_flight (started ∷ []),
          count_p-length p s.in_flight,
          has_room-below h s.db room,
        )
        | inr never ↦ ground (arith, count_p-append p s.in_flight (started ∷ []))
      ]

  pub begin-IsBounded :
      (h : WriteHandler) (s : Concurrent)
      → IsValid lib h
      → IsBounded s
      → IsBounded (step_event max_monitors connections (begin h) s)
  unfolding step_event
  begin-IsBounded h s valid i = elim (Bool-cases (ltb (length s.in_flight) connections)) [
    | inr full ↦ rw full i
    | inl free ↦
        let started : InFlight = record { handler = h; seen = s.db } in
        rw free (record {
          stored = i.stored;
          budget = begin_budget h s free i;
          held = ground (arith, length-append s.in_flight (started ∷ []));
          valid = All_snoc (λ o. IsValid lib o.handler) s.in_flight started i.valid valid;
        })
  ]

  pub finish-IsBounded :
      (n : ℕ) (s : Concurrent)
      → IsBounded s
      → IsBounded (step_event max_monitors connections (finish n) s)
  unfolding step_event
  finish-IsBounded n s i = elim (Option-cases (nth_of n s.in_flight)) [
    | inl missing ↦ rw (missing, step_event) i
    | inr (o, there) ↦
        let p = λ (o : InFlight). has_room max_monitors o.handler o.seen in
        let taken = count_p-taken p n s.in_flight there in
        let valid = All-nth_of (λ o. IsValid lib o.handler) n s.in_flight there i.valid in
        let more = length s.db.monitors + (if p o then 1 else 0) in
        let few : length s.db.monitors ≤ more = omega arith in
        let tight = rebound-IsStored IsSafeRow _ more s.db i.stored few in
        let after =
          commit-IsStored lib max_monitors more o.handler o.seen s.db valid (omega arith) tight in
        let budget = i.budget in
        rw (there, step_event)
          (record {
            stored = rebound-IsStored IsSafeRow more _ _ after (omega (arith, after.few));
            budget = omega (arith, after.few);
            held = omega (arith, length-without n s.in_flight, i.held);
            valid = All-without (λ o. IsValid lib o.handler) n s.in_flight i.valid;
          })
  ]

  pub abandon-IsBounded :
      (n : ℕ) (s : Concurrent)
      → IsBounded s
      → IsBounded (step_event max_monitors connections (abandon n) s)
  unfolding step_event
  abandon-IsBounded n s i =
      let p = λ (o : InFlight). has_room max_monitors o.handler o.seen in
      record {
        stored = i.stored;
        budget = omega (arith, count_p-without p n s.in_flight, i.budget);
        held = omega (arith, length-without n s.in_flight, i.held);
        valid = All-without (λ o. IsValid lib o.handler) n s.in_flight i.valid;
      }

  pub work-IsBounded :
      (a : Action) (s : Concurrent)
      → is_work a ≡ true
      → IsBounded s
      → IsBounded (step_event max_monitors connections (work a) s)
  unfolding step_event set_changed
  work-IsBounded a s worker i =
      let size = length s.db.monitors in
      let tight = rebound-IsStored IsSafeRow _ size s.db i.stored (omega arith) in
      let after =
        work-IsStored IsSafeRow size max_monitors set_next-IsSafeRow (λ m row h. h) a s.db worker
          tight in
      record {
        stored = rebound-IsStored IsSafeRow size _ _ after (omega (arith, after.few, i.stored.few));
        budget = omega (arith, after.few, i.budget);
        held = i.held;
        valid = i.valid;
      }
