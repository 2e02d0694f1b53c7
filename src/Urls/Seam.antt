-- ===== src/Urls/Seam.antt =====
-- The seam of a joined URL.
use ping_gaurd.Prelude.{
  ℕ, zero, suc, ◌≡◌, ◌≢◌, refl, ap, subst, ◌∙◌, ◌⊎◌, inl, inr, Bool, false, Text, some, [], ◌∷◌,
  ◌++◌, ◌==◌, Bool-cases, arith,
}
use ping_gaurd.Urls.{slash, lstrip_slash, rstrip_slash, safe_join_url}

abbrev pub slashes : ℕ → Text
slashes zero = []
slashes (suc n) = slash ∷ slashes n

abbrev pub starts_with_slash : Text → Bool
starts_with_slash [] = false
starts_with_slash (c ∷ cs) = c == slash

abbrev pub ends_with_slash : Text → Bool
ends_with_slash [] = false
ends_with_slash (c ∷ []) = c == slash
ends_with_slash (c ∷ d ∷ ds) = ends_with_slash (d ∷ ds)

-- What `lstrip("/")` and `rstrip("/")` leave and take away.
List-cases : (s : Text) → (s ≡ []) ⊎ ((c : ℕ) × (cs : Text) × (s ≡ c ∷ cs))
List-cases [] = inl refl
List-cases (c ∷ cs) = inr (c, cs, refl)

lstripped :
    (s : Text)
    → (starts_with_slash (lstrip_slash s) ≡ false) × ((n : ℕ) × (s ≡ slashes n ++ lstrip_slash s))
unfolding lstrip_slash
lstripped [] = (refl, (0, refl))
lstripped (c ∷ cs) = elim (Bool-cases (c == slash)) [
  | inl e ↦
      let (plain, (n, split)) = lstripped cs in
      let at : c ≡ slash = ground arith in rw e (plain, (suc n, cc))
  | inr e ↦ rw e (e, (0, refl))
]

rstripped :
    (s : Text)
    → (ends_with_slash (rstrip_slash s) ≡ false) × ((n : ℕ) × (s ≡ rstrip_slash s ++ slashes n))
unfolding rstrip_slash
rstripped [] = (refl, (0, refl))
rstripped (c ∷ cs) = elim (List-cases (rstrip_slash cs)) [
  | inl e ↦
      let (n, split) = (rstripped cs).1 in
      let rest : cs ≡ slashes n = cc in
      elim (Bool-cases (c == slash)) [
        | inl d ↦ let at : c ≡ slash = ground arith in rw (e, d) (refl, (suc n, cc))
        | inr d ↦ rw (e, d) (d, (n, cc))
      ]
  | inr (d, ds, e) ↦
      let (plain, (n, split)) = rstripped cs in
      let plain_here : ends_with_slash (d ∷ ds) ≡ false =
        subst (λ s. ends_with_slash s ≡ false) e plain in
      let split_here : cs ≡ (d ∷ ds) ++ slashes n = subst (λ s. cs ≡ s ++ slashes n) e split in
      rw e (plain_here, (n, ap (λ s. c ∷ s) split_here))
]

-- For a path that is not blank: the joined URL is the base URL without its last slashes, one slash,
-- and the stripped path without its first slashes; so the seam has exactly one slash.
pub join_seam :
    (strip : Text → Text) (base_url path : Text)
    → path ≢ []
    → strip path ≢ []
    → (base : Text) × (rest : Text) × (m : ℕ) × (n : ℕ) × (safe_join_url strip base_url (some path)
        ≡ base ++ slash ∷ rest)
      × (base_url ≡ base ++ slashes m)
      × (ends_with_slash base ≡ false)
      × (strip path ≡ slashes n ++ rest)
      × (starts_with_slash rest ≡ false)
unfolding safe_join_url
join_seam strip base_url [] given filled = absurd (given refl)
join_seam strip base_url (c ∷ cs) given filled = elim (List-cases (strip (c ∷ cs))) [
  | inl blank ↦ absurd (filled blank)
  | inr (d, ds, e) ↦
      let (base_ends, (m, base_split)) = rstripped base_url in
      let (rest_starts, (n, rest_split)) = lstripped (d ∷ ds) in
      let joined : safe_join_url strip base_url (some (c ∷ cs))
          ≡ rstrip_slash base_url ++ slash ∷ lstrip_slash (d ∷ ds) =
        ground arith in
      (
        rstrip_slash base_url,
        lstrip_slash (d ∷ ds),
        m,
        n,
        joined,
        base_split,
        base_ends,
        e ∙ rest_split,
        rest_starts,
      )
]
