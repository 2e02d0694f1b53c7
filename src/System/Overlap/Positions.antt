-- ===== src/System/Overlap/Positions.antt =====
-- The handlers in flight as a list: what is left when one ends.
use ping_gaurd.Prelude.{
  ℕ, zero, suc, ◌+◌, ◌≤◌, ◌≡◌, subst, Bool, some, List, [], ◌∷◌, All, arith, length, count_p,
  if◌then◌else◌,
}
use ping_gaurd.System.Overlap.{InFlight, nth_of, without}

pub All-nth_of :
    (P : InFlight → Type 0) (n : ℕ) (os : List InFlight) {o : InFlight}
    → nth_of n os ≡ some o
    → All P os
    → P o
All-nth_of P n [] h all = absurd (cc)
All-nth_of P zero (x ∷ os) {o} h all = let same : x ≡ o = ground arith in subst P same all.0
All-nth_of P (suc n) (x ∷ os) h all = All-nth_of P n os h all.1

pub All-without :
    (P : InFlight → Type 0) (n : ℕ) (os : List InFlight) → All P os → All P (without n os)
All-without P n [] all = tt
All-without P zero (x ∷ os) all = all.1
All-without P (suc n) (x ∷ os) all = (all.0, All-without P n os all.1)

pub length-without : (n : ℕ) (os : List InFlight) → length (without n os) ≤ length os
length-without n [] = omega arith
length-without zero (x ∷ os) = omega arith
length-without (suc n) (x ∷ os) = omega (arith, length-without n os)

pub count_p-without :
    (p : InFlight → Bool) (n : ℕ) (os : List InFlight) → count_p p (without n os) ≤ count_p p os
count_p-without p n [] = omega arith
count_p-without p zero (x ∷ os) = ground arith
count_p-without p (suc n) (x ∷ os) = ground (arith, count_p-without p n os)

pub count_p-taken :
    (p : InFlight → Bool) (n : ℕ) (os : List InFlight) {o : InFlight}
    → nth_of n os ≡ some o
    → count_p p (without n os) + (if p o then 1 else 0) ≡ count_p p os
count_p-taken p n [] h = absurd (cc)
count_p-taken p zero (x ∷ os) h = ground arith
count_p-taken p (suc n) (x ∷ os) h = ground (arith, count_p-taken p n os h)

pub count_p-length : (p : InFlight → Bool) (os : List InFlight) → count_p p os ≤ length os
count_p-length p [] = omega arith
count_p-length p (o ∷ os) = ground (arith, count_p-length p os)
