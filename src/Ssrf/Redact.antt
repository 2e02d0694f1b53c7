-- ===== src/Ssrf/Redact.antt =====
-- `redact_url_credentials` of app/ssrf.py.
use ping_gaurd.Prelude.{
  ℕ, ◌≡◌, true, ◌||◌, Text, codes, Option, none, some, [], ◌++◌, ◌==◌, if◌then◌else◌,
}
use ping_gaurd.Net.Resolve.{UrlLibrary, SplitResult, Port, bad_port, port_is, truthy}

-- `parsed.hostname or ""`
abbrev pub host_or_empty : Option Text → Text
host_or_empty none = []
host_or_empty (some h) = h

-- The hostname with `:port`, where there is a port other than 0.
abbrev pub with_port : (port_text : ℕ → Text) → Text → Option ℕ → Text
with_port port_text host none = host
with_port port_text host (some n) = if n == 0 then host else host ++ codes ":" ++ port_text n

module _ (lib : UrlLibrary) where
  unfoldable pub hide_credentials :
      (scheme : Text) → Option Text → Port → (path query fragment : Text) → Text
  hide_credentials scheme hostname bad_port path query fragment = codes "[redacted_url]"
  hide_credentials scheme hostname (port_is number) path query fragment =
      let netloc = with_port lib.port_text (host_or_empty hostname) number in
      lib.urlunsplit scheme (codes "***:***@" ++ netloc) path query fragment

  unfoldable pub redact_parsed : Text → SplitResult → Text
  redact_parsed url p =
      if truthy p.username || truthy p.password
      then hide_credentials p.scheme p.hostname p.port p.path p.query p.fragment
      else url

  unfoldable pub redact_url_credentials : Text → Text
  redact_url_credentials url = elim (lib.urlsplit url) [
    | none ↦ codes "[redacted_url]"
    | some parsed ↦ redact_parsed url parsed
  ]

-- Two URLs that differ in their credentials only.
abbrev pub AgreeOutside : SplitResult → SplitResult → Type 0
AgreeOutside p q =
    (p.scheme ≡ q.scheme)
    × ((p.hostname ≡ q.hostname)
        × ((p.port ≡ q.port)
            × ((p.path ≡ q.path) × ((p.query ≡ q.query) × (p.fragment ≡ q.fragment)))))

abbrev pub HasCredentials : SplitResult → Type 0
HasCredentials p = (truthy p.username || truthy p.password) ≡ true

redact_parsed_agree :
    (lib : UrlLibrary) (u v : Text) (p q : SplitResult)
    → HasCredentials p
    → HasCredentials q
    → AgreeOutside p q
    → redact_parsed lib u p ≡ redact_parsed lib v q
unfolding redact_parsed
redact_parsed_agree lib u v p q h k (scheme, (host, (port, (path, (query, fragment))))) =
    rw (h, k) cc

-- What is logged of a URL with credentials does not depend on them: two URLs that differ in user name
-- and password only are logged alike.
pub redact_hides :
    (lib : UrlLibrary) (u v : Text) (p q : SplitResult)
    → lib.urlsplit u ≡ some p
    → lib.urlsplit v ≡ some q
    → HasCredentials p
    → HasCredentials q
    → AgreeOutside p q
    → redact_url_credentials lib u ≡ redact_url_credentials lib v
unfolding redact_url_credentials
redact_hides lib u v p q eu ev h k agree =
    rw (redact_url_credentials, eu, ev) (redact_parsed_agree lib u v p q h k agree)
