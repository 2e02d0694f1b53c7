-- ===== src/Api/Results.antt =====
-- The page of results that a monitor has.
use ping_gaurd.Prelude.{
  ℕ, zero, suc, ◌+◌, ◌≤◌, ◌≡◌, refl, sym, ap, ◌∙◌, subst, inl, inr, Bool, true, ◌&&◌, String,
  Option, some, List, [], ◌∷◌, ◌++◌, arith, All, All-take, length, length-take-min, length-select,
  take, drop, min, select, count_p, count_p-append, count_p-select, leb, ◌==◌, Bool-cases,
}
use ping_gaurd.Models.{Monitor, PingResult, Database, ok, find_monitor}
use ping_gaurd.Api.{insert_latest, latest_first, matches_type, get_monitor_results}

-- No result is older than one after it.
abbrev pub IsLatestFirst : List PingResult → Type 0
IsLatestFirst [] = Unit
IsLatestFirst (r ∷ rs) = All (λ s. s.checked_at ≤ r.checked_at) rs × IsLatestFirst rs

count_p-insert_latest :
    (p : PingResult → Bool) (r : PingResult) (rs : List PingResult)
    → count_p p (insert_latest r rs) ≡ count_p p (r ∷ rs)
count_p-insert_latest p r [] = refl
count_p-insert_latest p r (s ∷ rs) = ground (arith, count_p-insert_latest p r rs)

count_p-latest_first :
    (p : PingResult → Bool) (rs : List PingResult) → count_p p (latest_first rs) ≡ count_p p rs
count_p-latest_first p [] = refl
count_p-latest_first p (r ∷ rs) =
    ground (arith, count_p-insert_latest p r (latest_first rs), count_p-latest_first p rs)

All-insert_latest :
    (P : PingResult → Type 0) (r : PingResult) (rs : List PingResult)
    → P r
    → All P rs
    → All P (insert_latest r rs)
All-insert_latest P r [] h hs = (h, tt)
All-insert_latest P r (s ∷ rs) h hs = elim (Bool-cases (leb s.checked_at r.checked_at)) [
  | inl first ↦ rw first (h, hs)
  | inr later ↦ rw later (hs.0, All-insert_latest P r rs h hs.1)
]

All-latest_first :
    (P : PingResult → Type 0) (rs : List PingResult) → All P rs → All P (latest_first rs)
All-latest_first P [] h = tt
All-latest_first P (r ∷ rs) h =
    All-insert_latest P r (latest_first rs) h.0 (All-latest_first P rs h.1)

older_too :
    (rs : List PingResult) (a b : ℕ)
    → a ≤ b
    → All (λ s. s.checked_at ≤ a) rs
    → All (λ s. s.checked_at ≤ b) rs
older_too [] a b le h = tt
older_too (r ∷ rs) a b le h = (omega (arith, le, h.0), older_too rs a b le h.1)

insert_latest-IsLatestFirst :
    (r : PingResult) (rs : List PingResult) → IsLatestFirst rs → IsLatestFirst (insert_latest r rs)
insert_latest-IsLatestFirst r [] h = (tt, tt)
insert_latest-IsLatestFirst r (s ∷ rs) h = elim (Bool-cases (leb s.checked_at r.checked_at)) [
  | inl first ↦
      let le : s.checked_at ≤ r.checked_at = ground arith in
      rw first ((le, older_too rs s.checked_at r.checked_at le h.0), h)
  | inr later ↦
      let le : r.checked_at ≤ s.checked_at = ground arith in
      rw later (
        All-insert_latest (λ x. x.checked_at ≤ s.checked_at) r rs le h.0,
        insert_latest-IsLatestFirst r rs h.1,
      )
]

latest_first-IsLatestFirst : (rs : List PingResult) → IsLatestFirst (latest_first rs)
latest_first-IsLatestFirst [] = tt
latest_first-IsLatestFirst (r ∷ rs) =
    insert_latest-IsLatestFirst r (latest_first rs) (latest_first-IsLatestFirst rs)

take-drop : (n : ℕ) (rs : List PingResult) → take n rs ++ drop n rs ≡ rs
take-drop zero rs = refl
take-drop (suc n) [] = refl
take-drop (suc n) (r ∷ rs) = ap (λ t. r ∷ t) (take-drop n rs)

all_selected : (p : PingResult → Bool) (rs : List PingResult) → All (λ r. p r ≡ true) (select p rs)
all_selected p [] = tt
all_selected p (r ∷ rs) = elim (Bool-cases (p r)) [
  | inl kept ↦ rw kept (kept, all_selected p rs)
  | inr left_out ↦ rw left_out (all_selected p rs)
]

count_p-all : (rs : List PingResult) → count_p (λ r. true) rs ≡ length rs
count_p-all [] = refl
count_p-all (r ∷ rs) = ap suc (count_p-all rs)

-- The results asked for: those of the monitor, and of the check type if one is given.
abbrev pub asked_for : ℕ → Option String → PingResult → Bool
asked_for id check_type r = r.monitor_id == id && matches_type check_type r

-- For a monitor that is stored: the page has as many of its results of the check type as there are, or
-- `limit` of them; page and rest together are exactly these, each as often as it is stored; and no
-- result is older than one after it, so that none of the rest is newer than one of the page.
pub results_latest :
    (id limit : ℕ) (check_type : Option String) (db : Database) (m : Monitor)
    → find_monitor id db.monitors ≡ some m
    → (page rest : List PingResult) × ((get_monitor_results id limit check_type db ≡ (ok page, db))
        × ((length page ≡ min limit (count_p (asked_for id check_type) db.results))
            × (All (λ r. asked_for id check_type r ≡ true) page
                × (IsLatestFirst (page ++ rest)
                    × ((p : PingResult → Bool)
                        → count_p p page + count_p p rest
                          ≡ count_p (λ r. p r && asked_for id check_type r) db.results)))))
unfolding get_monitor_results
results_latest id limit check_type db m here =
    let found = select (asked_for id check_type) db.results in
    let sorted = latest_first found in
    let size : length sorted ≡ count_p (asked_for id check_type) db.results =
      sym (count_p-all sorted)
      ∙ count_p-latest_first (λ r. true) found
      ∙ count_p-all found
      ∙ length-select (asked_for id check_type) db.results in
    let own =
      All-take (λ r. asked_for id check_type r ≡ true) limit sorted
        (All-latest_first (λ r. asked_for id check_type r ≡ true) found
          (all_selected (asked_for id check_type) db.results)) in
    (
      take limit sorted,
      drop limit sorted,
      (
        rw (get_monitor_results, here) refl,
        (
          length-take-min limit sorted ∙ ap (min limit) size,
          (
            own,
            (
              subst IsLatestFirst (sym (take-drop limit sorted)) (latest_first-IsLatestFirst found),
              λ p.
                  sym (count_p-append p (take limit sorted) (drop limit sorted))
                  ∙ ap (count_p p) (take-drop limit sorted)
                  ∙ count_p-latest_first p found
                  ∙ count_p-select p (asked_for id check_type) db.results,
            ),
          ),
        ),
      ),
    )
