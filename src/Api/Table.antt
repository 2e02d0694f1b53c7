-- ===== src/Api/Table.antt =====
-- The table under the handlers: what a request leaves of the other rows, and what the next request
-- reads.
use mathlib.Core.Option
use ping_gaurd.Prelude.{
  ℕ, zero, suc, ◌+◌, ◌≤◌, ◌<◌, ◌≡◌, refl, sym, ap, ◌∙◌, inl, inr, Option, none, some, List, [], ◌∷◌,
  ◌++◌, arith, All, length, take, drop, map, select, sort_by, Option-cases, ◌==◌, if◌then◌else◌,
}
use ping_gaurd.Models.{
  Result-cases, Monitor, PingResult, Database, ok, raise, find_monitor, update_monitor_row,
  cascade_results,
}
use ping_gaurd.Models.Rows.{find_monitor-delete, find_monitor_id}
use ping_gaurd.Schemas.{MonitorUpdate, MonitorCreate}
use ping_gaurd.Api.{
  ApiError, MonitorRead, read_monitor, new_monitor, create_monitor, updated_row, update_monitor,
  list_monitors, delete_monitor,
}
use ping_gaurd.Api.Updates.{update_exact}

-- Every key is below the next one of the sequence.
abbrev pub HasFreshKeys : Database → Type 0
HasFreshKeys db = All (λ m. m.id < db.next_monitor_id) db.monitors

-- What a client reads of the monitor with a key.
abbrev pub view : ℕ → Database → Option MonitorRead
view id db = Option.map read_monitor (find_monitor id db.monitors)

pub find_monitor-replace :
    (i j : ℕ) (row : Monitor) (ms : List Monitor)
    → row.id ≡ i
    → find_monitor j (update_monitor_row i (λ old. row) ms)
      ≡ (if i == j then Option.map (λ old. row) (find_monitor j ms) else find_monitor j ms)
unfolding find_monitor update_monitor_row
find_monitor-replace i j row [] same = ground arith
find_monitor-replace i j row (m ∷ ms) same = ground (arith, find_monitor-replace i j row ms same)

-- After an update that succeeds, a client reads what the update returned under the monitor's key, and
-- under every other key what it read before; the results are as before.
pub view-update_monitor :
    (now id j : ℕ) (payload : MonitorUpdate) (db : Database) {r : MonitorRead} {after : Database}
    → update_monitor now id payload db ≡ (ok r, after)
    → (view j after ≡ (if id == j then some r else view j db)) × (after.results ≡ db.results)
unfolding update_monitor
view-update_monitor now id j payload db {r} {after} h =
    elim (Option-cases (find_monitor id db.monitors)) [
      | inl missing ↦ absurd (ground arith)
      | inr (m, found) ↦ elim (Result-cases (updated_row now m payload)) [
        | inr (e, failed) ↦ absurd (ground arith)
        | inl (row, updated) ↦
            let same_key = find_monitor_id id db.monitors m found in
            let exact = update_exact now m payload updated in
            let row_key : row.id ≡ id = ground arith in
            let replaced = find_monitor-replace id j row db.monitors row_key in ground arith
      ]
    ]

-- A request that fails leaves the database as it was.
pub update_atomic :
    (now id : ℕ) (payload : MonitorUpdate) (db : Database) {e : ApiError} {after : Database}
    → update_monitor now id payload db ≡ (raise e, after)
    → after ≡ db
unfolding update_monitor
update_atomic now id payload db h = ground arith

pub find_monitor-append :
    (j : ℕ) (ms : List Monitor) (created : Monitor)
    → All (λ m. m.id < created.id) ms
    → find_monitor j (ms ++ created ∷ [])
      ≡ (if created.id == j then some created else find_monitor j ms)
unfolding find_monitor
find_monitor-append j [] created below = ground arith
find_monitor-append j (m ∷ ms) created below =
    ground (arith, find_monitor-append j ms created below.1)

length-append :
    (ms : List Monitor) (created : Monitor) → length (ms ++ created ∷ []) ≡ suc (length ms)
length-append [] created = refl
length-append (m ∷ ms) created = ap suc (length-append ms created)

-- If the keys of the table are below the sequence: after a creation that succeeds, a client reads the
-- new monitor under its key, and under every other key what it read before; the table holds at most
-- `max_monitors` rows.
pub view-create_monitor :
    (max_monitors now j : ℕ) (payload : MonitorCreate) (db : Database) {r : MonitorRead}
    {after : Database}
    → HasFreshKeys db
    → create_monitor max_monitors now payload db ≡ (ok r, after)
    → (view j after ≡ (if r.id == j then some r else view j db))
      × (length after.monitors ≤ max_monitors)
unfolding create_monitor new_monitor read_monitor
view-create_monitor max_monitors now j payload db fresh h =
    let created = new_monitor db.next_monitor_id now payload in
    let found = find_monitor-append j db.monitors created fresh in
    let longer = length-append db.monitors created in ground arith

select-cascade :
    (i j : ℕ) (rs : List PingResult)
    → select (λ r. r.monitor_id == j) (cascade_results i rs)
      ≡ (if i == j then [] else select (λ r. r.monitor_id == j) rs)
unfolding cascade_results
select-cascade i j [] = ground arith
select-cascade i j (r ∷ rs) = ground (arith, select-cascade i j rs)

-- After a deletion that succeeds, a client finds no monitor and no result under the key, and under
-- every other key the monitor and the results that it found before.
pub view-delete_monitor :
    (id j : ℕ) (db : Database) {after : Database}
    → delete_monitor id db ≡ (ok tt, after)
    → (view j after ≡ (if id == j then none else view j db))
      × (select (λ r. r.monitor_id == j) after.results
          ≡ (if id == j then [] else select (λ r. r.monitor_id == j) db.results))
unfolding delete_monitor
view-delete_monitor id j db h =
    let gone = find_monitor-delete id j db.monitors in
    let cascaded = select-cascade id j db.results in ground arith

module _ {A : Type 0} where
  take-nil : (n : ℕ) → ◌≡◌ {A = List A} (take n []) []
  take-nil zero = refl
  take-nil (suc n) = refl

  drop-nil : (n : ℕ) → ◌≡◌ {A = List A} (drop n []) []
  drop-nil zero = refl
  drop-nil (suc n) = refl

  take-pages : (n m : ℕ) (xs : List A) → take n xs ++ take m (drop n xs) ≡ take (n + m) xs
  take-pages zero m xs = let sum : 0 + m ≡ m = omega arith in rw sum
  take-pages (suc n) m [] = take-nil m ∙ sym (take-nil (suc n + m))
  take-pages (suc n) m (x ∷ xs) =
      let sum : suc n + m ≡ suc (n + m) = omega arith in
      rw sum (ap (λ s. x ∷ s) (take-pages n m xs))

  drop-add : (n m : ℕ) (xs : List A) → drop (n + m) xs ≡ drop m (drop n xs)
  drop-add zero m xs = let sum : 0 + m ≡ m = omega arith in rw sum
  drop-add (suc n) m [] = drop-nil (suc n + m) ∙ sym (drop-nil m)
  drop-add (suc n) m (x ∷ xs) =
      let sum : suc n + m ≡ suc (n + m) = omega arith in rw sum (drop-add n m xs)

  map-append : {B : Type 0} (f : A → B) (xs ys : List A) → map f (xs ++ ys) ≡ map f xs ++ map f ys
  map-append f [] ys = refl
  map-append f (x ∷ xs) ys = ap (λ s. f x ∷ s) (map-append f xs ys)

-- Two consecutive pages are one page of both lengths: pages neither overlap nor leave a monitor out.
pub list_pages :
    (skip n m : ℕ) (db : Database)
    → (first second : List MonitorRead) → (list_monitors skip n db).0 ≡ ok first
    → (list_monitors (skip + n) m db).0 ≡ ok second
    → (list_monitors skip (n + m) db).0 ≡ ok (first ++ second)
unfolding list_monitors
list_pages skip n m db first second one two =
    let rows = sort_by (λ r. r.id) db.monitors in
    let joined =
      map-append read_monitor (take n (drop skip rows)) (take m (drop n (drop skip rows))) in
    let rest = take m (drop (skip + n) rows) in
    let whole : map read_monitor (take n (drop skip rows)) ++ map read_monitor rest
        ≡ map read_monitor (take (n + m) (drop skip rows)) =
      rw (drop-add skip n rows)
        (sym joined ∙ ap (map read_monitor) (take-pages n m (drop skip rows))) in
    ground arith
