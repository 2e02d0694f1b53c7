-- ===== src/Migrations/Cleanup.antt =====
-- The second revision on tables with rows.
use ping_gaurd.Prelude.{
  ◌≡◌, refl, ap, ◌∙◌, ◌⊎◌, inl, inr, Bool, true, false, ◌&&◌, String, ◌==ˢ◌, some, List, [], ◌∷◌,
  All, map, if◌then◌else◌, Bool-cases, arith,
}
use ping_gaurd.Models.{ok, raise}
use ping_gaurd.Migrations.{
  Row, Schema, check_violated, run_steps, alter_table, satisfies, all_satisfy, create_check,
  replace_invalid, update_invalid,
}
use ping_gaurd.Migrations.Versions.{
  statuses, modes, check_types, constraints_upgrade, constraints_downgrade,
}
use ping_gaurd.Migrations.Versions.Trips.{at_initial, at_constraints, constraints_downgrade_lem}

abbrev pub cleaned : Row → Row
cleaned = replace_invalid "status" "down" statuses

abbrev pub down_set : Row → Row
down_set row = λ c. if c ==ˢ "status" then some "down" else row c

cleaned-cases :
    (row : Row)
    → ((satisfies "status" statuses row ≡ true) × (cleaned row ≡ row))
      ⊎ ((satisfies "status" statuses row ≡ false) × (cleaned row ≡ down_set row))
unfolding replace_invalid
cleaned-cases row = elim (Bool-cases (satisfies "status" statuses row)) [
  | inl e ↦ inl (e, rw (replace_invalid, e) refl)
  | inr e ↦ inr (e, rw (replace_invalid, e) refl)
]

cleaned_status : (row : Row) → satisfies "status" statuses (cleaned row) ≡ true
cleaned_status row = elim (cleaned-cases row) [
  | inl (valid, same) ↦ ap (satisfies "status" statuses) same ∙ valid
  | inr (invalid, set) ↦ ap (satisfies "status" statuses) set
]

all_cleaned : (rows : List Row) → all_satisfy "status" statuses (map cleaned rows) ≡ true
unfolding all_satisfy
all_cleaned [] = refl
all_cleaned (row ∷ rows) = rw (cleaned_status row) (all_cleaned rows)

cleaned_others : (row : Row) (c : String) → (c ==ˢ "status") ≡ false → cleaned row c ≡ row c
cleaned_others row c other = elim (cleaned-cases row) [
  | inl (valid, same) ↦ ap (λ r. r c) same
  | inr (invalid, set) ↦ ap (λ r. r c) set ∙ rw other refl
]

satisfies_same :
    (a b : Row) (c : String) (values : List String)
    → a c ≡ b c
    → satisfies c values a ≡ satisfies c values b
satisfies_same a b c values h = rw (satisfies, h) refl

both : (a b c d : Bool) → a ≡ b → c ≡ d → (a && c) ≡ (b && d)
both a b c d h k = ground arith

all_satisfy-cleaned :
    (rows : List Row) → all_satisfy "mode" modes (map cleaned rows) ≡ all_satisfy "mode" modes rows
unfolding all_satisfy
all_satisfy-cleaned [] = refl
all_satisfy-cleaned (row ∷ rows) =
    let same = satisfies_same (cleaned row) row "mode" modes (cleaned_others row "mode" refl) in
    both (satisfies "mode" modes (cleaned row)) (satisfies "mode" modes row)
      (all_satisfy "mode" modes (map cleaned rows)) (all_satisfy "mode" modes rows) same
      (all_satisfy-cleaned rows)

constraints_upgrade_lem :
    (ms rs : List Row) (db : Schema)
    → constraints_upgrade (at_initial ms rs db) ≡ (
        if all_satisfy "mode" modes ms && all_satisfy "check_type" check_types rs
        then ok (at_constraints (map cleaned ms) rs db)
        else raise check_violated)
unfolding constraints_upgrade run_steps update_invalid create_check alter_table
constraints_upgrade_lem ms rs db = elim (Bool-cases (all_satisfy "mode" modes ms)) [
  | inl m ↦
      let kept : all_satisfy "mode" modes (map cleaned ms) ≡ true = all_satisfy-cleaned ms ∙ m in
      elim (Bool-cases (all_satisfy "check_type" check_types rs)) [
        | inl r ↦ rw (constraints_upgrade, run_steps, all_cleaned ms, kept, r, m) refl
        | inr r ↦ rw (constraints_upgrade, run_steps, all_cleaned ms, kept, r, m) refl
      ]
  | inr m ↦
      let kept : all_satisfy "mode" modes (map cleaned ms) ≡ false = all_satisfy-cleaned ms ∙ m in
      rw (constraints_upgrade, run_steps, all_cleaned ms, kept, m) refl
]

-- The rows before and after.
abbrev pub IsCleaned : Row → Type 0
IsCleaned row =
    ((satisfies "status" statuses row ≡ true) × (cleaned row ≡ row))
    ⊎ ((satisfies "status" statuses row ≡ false) × (cleaned row ≡ down_set row))

rows-IsCleaned : (rows : List Row) → All IsCleaned rows
rows-IsCleaned [] = tt
rows-IsCleaned (row ∷ rows) = (cleaned-cases row, rows-IsCleaned rows)

-- The second revision, on tables with any rows: it succeeds if and only if all modes and check types
-- are valid, else it ends at a violated check. A row of monitors with a valid status stays as it is,
-- another has the status "down" and is otherwise the same, so that all are valid afterwards. The
-- downgrade keeps the rows and takes the checks away.
pub constraints_upgrade_exact :
    (ms rs : List Row) (db : Schema)
    → (constraints_upgrade (at_initial ms rs db) ≡ (
        if all_satisfy "mode" modes ms && all_satisfy "check_type" check_types rs
        then ok (at_constraints (map cleaned ms) rs db)
        else raise check_violated))
      × (All IsCleaned ms
          × ((all_satisfy "status" statuses (map cleaned ms) ≡ true)
              × (constraints_downgrade (at_constraints (map cleaned ms) rs db)
                  ≡ ok (at_initial (map cleaned ms) rs db))))
constraints_upgrade_exact ms rs db = (
  constraints_upgrade_lem ms rs db,
  (rows-IsCleaned ms, (all_cleaned ms, constraints_downgrade_lem (map cleaned ms) rs db)),
)
