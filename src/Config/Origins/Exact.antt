-- ===== src/Config/Origins/Exact.antt =====
-- What the accepted origins are.
use mathlib.Core.Bool.{true≢false}
use ping_gaurd.Prelude.{
  ◌≡◌, refl, ap, ◌∙◌, subst, inl, inr, true, false, ◌||◌, Text, codes, some, List, [], ◌∷◌, ◌++◌,
  All, All-append, text_eq, text_eq_refl, text_eq_comm, Option-cases, if◌then◌else◌, Bool-cases,
  arith,
}
use ping_gaurd.Models.{ok, Result-cases}
use ping_gaurd.Net.Resolve.{SplitResult, UrlLibrary, text_in}
use ping_gaurd.Urls.{rstrip_slash}
use ping_gaurd.Config.Origins.{
  OriginInput, raw_origins, is_empty, wildcards, origin_parts, origin_of, collect_origins,
  parse_and_validate_cors_origins,
}

-- No origin stands twice.
abbrev pub NoRepeats : List Text → Type 0
NoRepeats [] = Unit
NoRepeats (o ∷ os) = (text_in o os ≡ false) × NoRepeats os

text_in-append :
    (s : Text) (xs ys : List Text) → text_in s (xs ++ ys) ≡ (text_in s xs || text_in s ys)
text_in-append s [] ys = refl
text_in-append s (x ∷ xs) ys = ground (arith, text_in-append s xs ys)

append-NoRepeats :
    (xs : List Text) (o : Text) → NoRepeats xs → text_in o xs ≡ false → NoRepeats (xs ++ o ∷ [])
append-NoRepeats [] o h e = (refl, tt)
append-NoRepeats (x ∷ xs) o h e =
    let differ : text_eq x o ≡ false = ground (arith, text_eq_comm x o) in
    let later : text_in o xs ≡ false = ground arith in
    (text_in-append x xs (o ∷ []) ∙ ground arith, append-NoRepeats xs o h.1 later)

module _ (lib : UrlLibrary) where
  -- The item's origin, with no wildcard, of a parsed URL that has nothing but an HTTP scheme and an
  -- authority.
  abbrev pub IsOriginOf : Text → Text → Type 0
  IsOriginOf item o =
      (text_in item wildcards ≡ false)
      × ((parsed : SplitResult) × ((lib.urlsplit (rstrip_slash item) ≡ some parsed)
            × ((text_in (lib.lower parsed.scheme) (codes "http" ∷ codes "https" ∷ []) ≡ true)
                × ((is_empty parsed.netloc ≡ false)
                    × ((is_empty parsed.path ≡ true)
                        × ((is_empty parsed.query ≡ true)
                            × ((is_empty parsed.fragment ≡ true)
                                × (o
                                    ≡ lib.lower parsed.scheme
                                      ++ codes "://"
                                      ++ parsed.netloc))))))))

  origin_parts_lem :
      (parsed : SplitResult) (o : Text)
      → origin_parts lib parsed ≡ ok o
      → (text_in (lib.lower parsed.scheme) (codes "http" ∷ codes "https" ∷ []) ≡ true)
        × ((is_empty parsed.netloc ≡ false)
            × ((is_empty parsed.path ≡ true)
                × ((is_empty parsed.query ≡ true)
                    × ((is_empty parsed.fragment ≡ true)
                        × (o ≡ lib.lower parsed.scheme ++ codes "://" ++ parsed.netloc)))))
  unfolding origin_parts
  origin_parts_lem parsed o h = ground arith

  origin_of-IsOriginOf : (item o : Text) → origin_of lib item ≡ ok o → IsOriginOf item o
  unfolding origin_of
  origin_of-IsOriginOf item o h = elim (Option-cases (lib.urlsplit (rstrip_slash item))) [
    | inl e ↦ let never : true ≡ false = ground arith in elim (true≢false never) [ ]
    | inr (parsed, e) ↦
        let plain : text_in item wildcards ≡ false = ground arith in
        let parts : origin_parts lib parsed ≡ ok o = ground arith in
        (plain, (parsed, (e, origin_parts_lem parsed o parts)))
  ]

  -- One round of the loop, and the others.
  abbrev added : List Text → Text → List Text
  added validated o = if text_in o validated then validated else validated ++ o ∷ []

  collect_origins-cases :
      (validated : List Text) (item : Text) (items out : List Text)
      → collect_origins lib validated (item ∷ items) ≡ ok out
      → (o : Text) × ((origin_of lib item ≡ ok o)
          × (collect_origins lib (added validated o) items ≡ ok out))
  unfolding collect_origins
  collect_origins-cases validated item items out h = elim (Result-cases (origin_of lib item)) [
    | inl (o, r) ↦ (o, (r, ground arith))
    | inr (e, r) ↦ let never : true ≡ false = ground arith in elim (true≢false never) [ ]
  ]

  -- A property of the list that each addition preserves.
  collect_origins_keeps :
      (P : List Text → Type 0)
      → ((validated : List Text) (o : Text) → P validated → P (added validated o))
      → (validated items out : List Text) → P validated
      → collect_origins lib validated items ≡ ok out
      → P out
  unfolding collect_origins
  collect_origins_keeps P step validated [] out p h =
      let same : validated ≡ out = ground arith in subst P same p
  collect_origins_keeps P step validated (item ∷ items) out p h =
      let (o, (own, rest)) = collect_origins-cases validated item items out h in
      collect_origins_keeps P step (added validated o) items out (step validated o p) rest

  added-NoRepeats :
      (validated : List Text) (o : Text) → NoRepeats validated → NoRepeats (added validated o)
  added-NoRepeats validated o h = elim (Bool-cases (text_in o validated)) [
    | inl e ↦ rw e h
    | inr e ↦ rw e (append-NoRepeats validated o h e)
  ]

  added_keeps :
      (a : Text) (validated : List Text) (o : Text)
      → text_in a validated ≡ true
      → text_in a (added validated o) ≡ true
  added_keeps a validated o h = elim (Bool-cases (text_in o validated)) [
    | inl e ↦ rw e h
    | inr e ↦ rw e (text_in-append a validated (o ∷ []) ∙ ap (λ b. b || (text_eq a o || false)) h)
  ]

  added_has : (validated : List Text) (o : Text) → text_in o (added validated o) ≡ true
  added_has validated o = elim (Bool-cases (text_in o validated)) [
    | inl e ↦ rw e e
    | inr e ↦ rw e (text_in-append o validated (o ∷ []) ∙ ground (arith, text_eq_refl o))
  ]

  -- Every item has its origin in the list.
  collect_origins_has :
      (validated items out : List Text)
      → collect_origins lib validated items ≡ ok out
      → All (λ item. (o : Text) × (IsOriginOf item o × (text_in o out ≡ true))) items
  collect_origins_has validated [] out h = tt
  collect_origins_has validated (item ∷ items) out h =
      let (o, (own, rest)) = collect_origins-cases validated item items out h in
      let kept =
        collect_origins_keeps (λ os. text_in o os ≡ true) (added_keeps o) (added validated o) items
          out (added_has validated o) rest in
      (
        (o, (origin_of-IsOriginOf item o own, kept)),
        collect_origins_has (added validated o) items out rest,
      )

  -- Every element of the list is the origin of an item.
  collect_origins_from :
      (P : Text → Type 0) (validated items out : List Text)
      → ((item o : Text) → text_in item items ≡ true → origin_of lib item ≡ ok o → P o)
      → All P validated
      → collect_origins lib validated items ≡ ok out
      → All P out
  unfolding collect_origins
  collect_origins_from P validated [] out f p h =
      let same : validated ≡ out = ground arith in subst (All P) same p
  collect_origins_from P validated (item ∷ items) out f p h =
      let (o, (own, rest)) = collect_origins-cases validated item items out h in
      let first : P o = f item o (ground (arith, text_eq_refl item)) own in
      let more : All P (added validated o) = elim (Bool-cases (text_in o validated)) [
        | inl e ↦ rw e p
        | inr e ↦ rw e (All-append P validated (o ∷ []) p (first, tt))
      ] in
      collect_origins_from P (added validated o) items out (λ x y there. f x y (ground arith)) more
        rest

  -- If the setting is accepted, then no origin stands twice in the list; every item of the setting has
  -- its origin in it; and every origin of the list is that of an item which is no wildcard and whose
  -- URL has the scheme http or https, an authority, and no path, query or fragment.
  pub cors_origins_exact :
      (v : OriginInput) (raw origins : List Text)
      → raw_origins lib.strip v ≡ ok raw
      → parse_and_validate_cors_origins lib v ≡ ok origins
      → NoRepeats origins
        × (All (λ item. (o : Text) × (IsOriginOf item o × (text_in o origins ≡ true))) raw
            × All (λ o. (item : Text) × ((text_in item raw ≡ true) × IsOriginOf item o)) origins)
  unfolding parse_and_validate_cors_origins
  cors_origins_exact v raw origins r h =
      let loop : collect_origins lib [] raw ≡ ok origins = ground arith in
      (
        collect_origins_keeps NoRepeats added-NoRepeats [] raw origins tt loop,
        (
          collect_origins_has [] raw origins loop,
          collect_origins_from
              (λ o. (item : Text) × ((text_in item raw ≡ true) × IsOriginOf item o)) [] raw origins
              (λ item o there own. (item, (there, origin_of-IsOriginOf item o own))) tt loop,
        ),
      )
