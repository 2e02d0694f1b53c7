-- ===== src/Urls/Examples.antt =====
-- The join of URLs at concrete inputs.
use ping_gaurd.Prelude.{ℕ, ◌≡◌, ◌≢◌, refl, false, Text, codes, some, ◌∷◌, ◌++◌, []}
use ping_gaurd.Urls.{slash, lstrip_slash, rstrip_slash, safe_join_url}
use ping_gaurd.Urls.Seam.{slashes, starts_with_slash, ends_with_slash, join_seam}

joined_health :
    safe_join_url (λ s. s) (codes "https://a.example/") (some (codes "/health"))
    ≡ codes "https://a.example/health"
unfolding safe_join_url lstrip_slash rstrip_slash
joined_health = refl

filled : codes "/health" ≢ []
filled e = absurd (cc)

join_seam_example :
    (base : Text) × (rest : Text) × (m : ℕ) × (n : ℕ) × (safe_join_url
        (λ s. s)
        (codes "https://a.example/")
        (some (codes "/health"))
      ≡ base ++ slash ∷ rest)
    × (codes "https://a.example/" ≡ base ++ slashes m)
    × (ends_with_slash base ≡ false)
    × (codes "/health" ≡ slashes n ++ rest)
    × (starts_with_slash rest ≡ false)
join_seam_example = join_seam (λ s. s) (codes "https://a.example/") (codes "/health") filled filled
