-- ===== src/Service/RequestId.antt =====
-- The request ID.
use mathlib.Core.Bool.{true≢false}
use mathlib.Core.List.{append-nil}
use ping_gaurd.Prelude.{
  ◌≤◌, ◌≡◌, refl, sym, ap, ◌∙◌, ◌↔◌, ◌⊎◌, inl, inr, true, false, ◌&&◌, not, Text, Option, none,
  some, List, [], ◌∷◌, ◌++◌, select, text_eq, text_eq_refl, subst, leb, length, if◌then◌else◌,
  Bool-cases, arith,
}
use ping_gaurd.Models.{Result, ok, raise}
use ping_gaurd.Service.{
  is_id_char, all_chars, at_end, take_class, match_request_id, Header, HttpReply, request_id_key,
  remove_header, set_header, request_id_of, end_request, request_id_middleware,
}

-- 8 to 64 letters, digits, dashes and underscores, as the comment in the source has it.
abbrev pub IsRequestId : Text → Type 0
IsRequestId s = (all_chars is_id_char s ≡ true) × ((8 ≤ length s) × (length s ≤ 64))

-- The values under a name.
abbrev pub header_values : Text → List Header → List Text
header_values key [] = []
header_values key ((name, value) ∷ rest) =
    let others = header_values key rest in if text_eq name key then value ∷ others else others

abbrev pub other_headers : Text → List Header → List Header
other_headers key hs = select (λ h. not (text_eq h.0 key)) hs

take_class-append :
    (s rest : Text)
    → all_chars is_id_char s ≡ true
    → (take_class rest).0 ≡ []
    → take_class (s ++ rest) ≡ (s, (take_class rest).1)
unfolding take_class
take_class-append [] rest h none_taken = ap (λ t. (t, (take_class rest).1)) none_taken
take_class-append (c ∷ cs) rest h none_taken =
    let here : is_id_char c ≡ true = ground arith in
    let later : all_chars is_id_char cs ≡ true = ground arith in
    rw (here, take_class-append cs rest later none_taken) refl

take_class_lem :
    (s : Text)
    → (s ≡ (take_class s).0 ++ (take_class s).1) × (all_chars is_id_char (take_class s).0 ≡ true)
unfolding take_class
take_class_lem [] = (refl, refl)
take_class_lem (c ∷ cs) = elim (Bool-cases (is_id_char c)) [
  | inl h ↦ let (split, all) = take_class_lem cs in rw h (ap (λ t. c ∷ t) split, rw h all)
  | inr h ↦ rw h (refl, refl)
]

at_end-cases : (s : Text) → at_end s ≡ true → (s ≡ []) ⊎ (s ≡ 10 ∷ [])
at_end-cases [] h = inl refl
at_end-cases (c ∷ []) h = let e : c ≡ 10 = ground arith in inr (ap (λ x. x ∷ []) e)
at_end-cases (c ∷ d ∷ ds) h = ground arith

match_request_id-split :
    (s taken rest : Text)
    → take_class s ≡ (taken, rest)
    → at_end rest ≡ true
    → (8 ≤ length taken) × (length taken ≤ 64)
    → match_request_id s ≡ true
unfolding match_request_id
match_request_id-split s taken rest split ends (low, high) =
    let whole : (leb 8 (length taken) && (leb (length taken) 64 && at_end rest)) ≡ true =
      ground arith in
    rw (match_request_id, split) whole

match_request_id-id : (s : Text) → match_request_id s ≡ true → IsRequestId (take_class s).0
unfolding match_request_id
match_request_id-id s m = let all = (take_class_lem s).1 in (all, ground arith)

-- The pattern takes a text if and only if it is 8 to 64 letters, digits, dashes and underscores, or
-- such a text with one line feed after it.
pub match_request_id_iff :
    (s : Text)
    → (match_request_id s ≡ true)
      ↔ (IsRequestId s ⊎ ((id : Text) × (IsRequestId id × (s ≡ id ++ 10 ∷ []))))
unfolding match_request_id take_class
match_request_id_iff s = (
  λ m.
      let id = match_request_id-id s m in
      let split = (take_class_lem s).0 in
      let ends : at_end (take_class s).1 ≡ true = ground arith in
      elim (at_end-cases (take_class s).1 ends) [
        | inl e ↦
            let same : s ≡ (take_class s).0 =
              split ∙ ap (λ t. (take_class s).0 ++ t) e ∙ append-nil (take_class s).0 in
            inl (subst IsRequestId (sym same) id)
        | inr e ↦ inr ((take_class s).0, (id, split ∙ ap (λ t. (take_class s).0 ++ t) e))
      ],
  λ is. elim is [
    | inl (all, lengths) ↦
        let split : take_class s ≡ (s, []) =
          ap take_class (sym (append-nil s)) ∙ take_class-append s [] all refl in
        match_request_id-split s s [] split refl lengths
    | inr (id, ((all, lengths), e)) ↦
        let split : take_class s ≡ (id, 10 ∷ []) =
          ap take_class e ∙ take_class-append id (10 ∷ []) all refl in
        match_request_id-split s id (10 ∷ []) split refl lengths
  ],
)

request_id_of_matches :
    (fresh : Text) (incoming : Option Text)
    → match_request_id fresh ≡ true
    → match_request_id (request_id_of fresh incoming) ≡ true
request_id_of_matches fresh none h = h
request_id_of_matches fresh (some s) h = elim (Bool-cases (match_request_id s)) [
  | inl e ↦ rw e e
  | inr e ↦ rw e h
]

end_request_lem :
    {E : Type 0} (r : Result E HttpReply) (id : Text) (before after : Option Text)
    (reply : HttpReply)
    → end_request id before r ≡ (ok reply, after)
    → (after ≡ before)
      × ((sent : HttpReply) × ((r ≡ ok sent)
            × (reply.headers ≡ set_header request_id_key id sent.headers)))
end_request_lem (raise x) id before after reply e =
    let never : true ≡ false = ground arith in elim (true≢false never) [ ]
end_request_lem (ok sent) id before after reply e =
    let reset : after ≡ before = ground arith in
    let headers : reply.headers ≡ set_header request_id_key id sent.headers = ground arith in
    (reset, (sent, (refl, headers)))

header_values-remove_header :
    (key : Text) (hs : List Header) → header_values key (remove_header key hs) ≡ []
unfolding remove_header
header_values-remove_header key [] = refl
header_values-remove_header key ((name, value) ∷ rest) =
    ground (arith, header_values-remove_header key rest)

header_values-set_header :
    (key value : Text) (hs : List Header) → header_values key (set_header key value hs) ≡ value ∷ []
unfolding set_header
header_values-set_header key value [] = ground (arith, text_eq_refl key)
header_values-set_header key value ((name, old) ∷ rest) = ground (
  arith,
  text_eq_refl key,
  header_values-remove_header key rest,
  header_values-set_header key value rest,
)

other_headers-remove_header :
    (key : Text) (hs : List Header)
    → other_headers key (remove_header key hs) ≡ other_headers key hs
unfolding remove_header
other_headers-remove_header key [] = refl
other_headers-remove_header key ((name, value) ∷ rest) =
    ground (arith, other_headers-remove_header key rest)

other_headers-set_header :
    (key value : Text) (hs : List Header)
    → other_headers key (set_header key value hs) ≡ other_headers key hs
unfolding set_header
other_headers-set_header key value [] = ground (arith, text_eq_refl key)
other_headers-set_header key value ((name, old) ∷ rest) = ground (
  arith,
  text_eq_refl key,
  other_headers-remove_header key rest,
  other_headers-set_header key value rest,
)

-- A request that succeeds is served under one ID: the incoming one if the pattern takes it, else the
-- fresh one, which the pattern takes. What comes after the middleware sees that ID in the context
-- variable, the response has it as its only X-Request-ID, its other headers are those that were sent,
-- and the variable has its value of before again.
pub middleware_correlates :
    {E : Type 0} (fresh : Text) (incoming : Option Text)
    (call_next : Option Text → Result E HttpReply) (before after : Option Text) (reply : HttpReply)
    → match_request_id fresh ≡ true
    → request_id_middleware fresh incoming call_next before ≡ (ok reply, after)
    → (id : Text) × ((id ≡ request_id_of fresh incoming)
        × ((match_request_id id ≡ true)
            × ((after ≡ before)
                × ((sent : HttpReply) × ((call_next (some id) ≡ ok sent)
                      × ((header_values request_id_key reply.headers ≡ id ∷ [])
                          × (other_headers request_id_key reply.headers
                              ≡ other_headers request_id_key sent.headers)))))))
unfolding request_id_middleware
middleware_correlates fresh incoming call_next before after reply h e =
    let id = request_id_of fresh incoming in
    let (reset, (sent, (called, headers))) =
      end_request_lem (call_next (some id)) id before after reply e in
    let own =
      ap (header_values request_id_key) headers
      ∙ header_values-set_header request_id_key id sent.headers in
    let others =
      ap (other_headers request_id_key) headers
      ∙ other_headers-set_header request_id_key id sent.headers in
    (id, (refl, (request_id_of_matches fresh incoming h, (reset, (sent, (called, (own, others)))))))
