-- ===== src/Urls.antt =====
-- `safe_join_url` of app/urls.py. `str.strip` without an argument, which strips all white space of
-- Unicode, is a parameter.
pub mod Seam
mod Examples
use ping_gaurd.Prelude.{
  ℕ, Bool, true, false, Text, codes, Option, none, some, List, [], ◌∷◌, ◌++◌, ◌==◌, if◌then◌else◌,
}

abbrev pub slash : ℕ
slash = 47

-- `s.lstrip("/")`
unfoldable pub lstrip_slash : Text → Text
lstrip_slash [] = []
lstrip_slash (c ∷ cs) = let rest = lstrip_slash cs in if c == slash then rest else c ∷ cs

-- `s.rstrip("/")`: a slash stays if something else comes after it.
unfoldable pub rstrip_slash : Text → Text
rstrip_slash [] = []
rstrip_slash (c ∷ cs) = elim (rstrip_slash cs) [
  | [] ↦ if c == slash then [] else c ∷ []
  | d ∷ ds ↦ c ∷ d ∷ ds
]

unfoldable pub safe_join_url : (strip : Text → Text) → Text → Option Text → Text
safe_join_url strip base_url none = base_url
safe_join_url strip base_url (some []) = base_url
safe_join_url strip base_url (some (c ∷ cs)) = elim (strip (c ∷ cs)) [
  | [] ↦ base_url
  | d ∷ ds ↦ rstrip_slash base_url ++ slash ∷ lstrip_slash (d ∷ ds)
]
