-- ===== src/Prelude/ListLaws.antt =====
-- Counting and universal predicates through selection, sorting, cutting and mapping.
use Prim.Native.Nat.{ℕ, zero, suc, ◌+◌, ◌≤◌, min}
use mathlib.Core.Path.{◌≡◌, refl}
use mathlib.Core.Logic.{inl, inr}
use mathlib.Core.Bool.{Bool, true, ◌&&◌}
use mathlib.Core.List.{List, [], ◌∷◌, ◌++◌, map}
use native.Mathlib.Omega.{arith}
use ping_gaurd.Prelude.Tests.{leb, ==_refl, Bool-cases}
use ping_gaurd.Prelude.Texts.{Text, text_eq}
use ping_gaurd.Prelude.Lists.{All, length, take, count_p, select, insert_by, sort_by}

module _ {ℓ} {A : Type ℓ} where
  pub length-append : (xs ys : List A) → length (xs ++ ys) ≡ length xs + length ys
  length-append [] ys = omega arith
  length-append (x ∷ xs) ys = omega (arith, length-append xs ys)

  pub count_p-append :
      (p : A → Bool) (xs ys : List A) → count_p p (xs ++ ys) ≡ count_p p xs + count_p p ys
  count_p-append p [] ys = omega arith
  count_p-append p (x ∷ xs) ys = ground (arith, count_p-append p xs ys)

  pub count_p-take : (p : A → Bool) (n : ℕ) (xs : List A) → count_p p (take n xs) ≤ count_p p xs
  count_p-take p zero xs = omega arith
  count_p-take p (suc n) [] = omega arith
  count_p-take p (suc n) (x ∷ xs) = ground (arith, count_p-take p n xs)

  pub count_p-insert :
      (p : A → Bool) (key : A → ℕ) (x : A) (ys : List A)
      → count_p p (insert_by key x ys) ≡ count_p p (x ∷ ys)
  count_p-insert p key x [] = refl
  count_p-insert p key x (y ∷ ys) = ground (arith, count_p-insert p key x ys)

  pub count_p-sort :
      (p : A → Bool) (key : A → ℕ) (xs : List A) → count_p p (sort_by key xs) ≡ count_p p xs
  count_p-sort p key [] = refl
  count_p-sort p key (x ∷ xs) =
      ground (arith, count_p-insert p key x (sort_by key xs), count_p-sort p key xs)

  -- A test of a selection is the conjunction of the two tests.
  pub count_p-select :
      (p q : A → Bool) (xs : List A) → count_p p (select q xs) ≡ count_p (λ x. p x && q x) xs
  count_p-select p q [] = refl
  count_p-select p q (x ∷ xs) = ground (arith, count_p-select p q xs)

  pub count_p-le-length : (p : A → Bool) (xs : List A) → count_p p xs ≤ length xs
  count_p-le-length p [] = omega arith
  count_p-le-length p (x ∷ xs) = ground (arith, count_p-le-length p xs)

  -- A weaker test counts at least as many.
  pub count_p_mono :
      (p q : A → Bool)
      → ((x : A) → p x ≡ true → q x ≡ true)
      → (xs : List A) → count_p p xs ≤ count_p q xs
  count_p_mono p q h [] = omega arith
  count_p_mono p q h (x ∷ xs) = ground (arith, h x, count_p_mono p q h xs)

  pub length-take : (n : ℕ) (xs : List A) → length (take n xs) ≤ n
  length-take zero xs = omega arith
  length-take (suc n) [] = omega arith
  length-take (suc n) (x ∷ xs) = omega (arith, length-take n xs)

  pub length-take-min : (n : ℕ) (xs : List A) → length (take n xs) ≡ min n (length xs)
  length-take-min zero xs = omega arith
  length-take-min (suc n) [] = omega arith
  length-take-min (suc n) (x ∷ xs) = omega (arith, length-take-min n xs)

  pub length-insert :
      (key : A → ℕ) (x : A) (ys : List A) → length (insert_by key x ys) ≡ suc (length ys)
  length-insert key x [] = refl
  length-insert key x (y ∷ ys) = ground (arith, length-insert key x ys)

  pub length-sort : (key : A → ℕ) (xs : List A) → length (sort_by key xs) ≡ length xs
  length-sort key [] = refl
  length-sort key (x ∷ xs) =
      ground (arith, length-insert key x (sort_by key xs), length-sort key xs)

  pub length-select : (p : A → Bool) (xs : List A) → length (select p xs) ≡ count_p p xs
  length-select p [] = refl
  length-select p (x ∷ xs) = ground (arith, length-select p xs)

module _ {ℓ κ} {A : Type ℓ} {B : Type κ} where
  pub length-map : (xs : List A) (f : A → B) → length (map f xs) ≡ length xs
  length-map [] f = refl
  length-map (x ∷ xs) f = omega (arith, length-map xs f)

module _ {ℓ κ} {A : Type ℓ} (P : A → Type κ) where
  pub All-take : (n : ℕ) (xs : List A) → All P xs → All P (take n xs)
  All-take zero xs h = tt
  All-take (suc n) [] h = tt
  All-take (suc n) (x ∷ xs) h = (h.0, All-take n xs h.1)

  pub All-append : (xs ys : List A) → All P xs → All P ys → All P (xs ++ ys)
  All-append [] ys h k = k
  All-append (x ∷ xs) ys h k = (h.0, All-append xs ys h.1 k)

  pub All-insert : (key : A → ℕ) (x : A) (ys : List A) → P x → All P ys → All P (insert_by key x ys)
  All-insert key x [] h hs = (h, tt)
  All-insert key x (y ∷ ys) h hs = elim (Bool-cases (leb (key x) (key y))) [
    | inl first ↦ rw first (h, hs)
    | inr later ↦ rw later (hs.0, All-insert key x ys h hs.1)
  ]

  pub All-sort : (key : A → ℕ) (xs : List A) → All P xs → All P (sort_by key xs)
  All-sort key [] h = tt
  All-sort key (x ∷ xs) h = All-insert key x (sort_by key xs) h.0 (All-sort key xs h.1)

  pub All-select : (p : A → Bool) (xs : List A) → All P xs → All P (select p xs)
  All-select p [] h = tt
  All-select p (x ∷ xs) h = elim (Bool-cases (p x)) [
    | inl kept ↦ rw kept (h.0, All-select p xs h.1)
    | inr left_out ↦ rw left_out (All-select p xs h.1)
  ]

  pub All-map :
      (f : A → A) → ((x : A) → P x → P (f x)) → (xs : List A) → All P xs → All P (map f xs)
  All-map f k [] h = tt
  All-map f k (x ∷ xs) h = (k x h.0, All-map f k xs h.1)

pub text_eq_refl : (s : Text) → text_eq s s ≡ true
text_eq_refl [] = refl
text_eq_refl (c ∷ cs) = ground (arith, ==_refl c, text_eq_refl cs)

pub text_eq_comm : (s t : Text) → text_eq s t ≡ text_eq t s
text_eq_comm [] [] = refl
text_eq_comm [] (d ∷ ds) = refl
text_eq_comm (c ∷ cs) [] = refl
text_eq_comm (c ∷ cs) (d ∷ ds) = ground (arith, text_eq_comm cs ds)

pub text_eq→eq : (s t : Text) → text_eq s t ≡ true → s ≡ t
text_eq→eq [] [] h = refl
text_eq→eq [] (d ∷ ds) h = absurd (ground arith)
text_eq→eq (c ∷ cs) [] h = absurd (ground arith)
text_eq→eq (c ∷ cs) (d ∷ ds) h =
    let heads : c ≡ d = ground arith in
    let tails : text_eq cs ds ≡ true = ground arith in let same = text_eq→eq cs ds tails in cc
