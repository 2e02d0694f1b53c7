-- ===== src/Net/Resolve.antt =====
-- `resolve_and_validate_target` and `async_resolve_and_validate_target` of app/net.py. The parsers of
-- URLs and addresses are the standard library's and enter as a record; the resolver is an argument.
pub mod Safe
use ping_gaurd.Prelude.{
  ℕ, Bool, true, false, not, ◌&&◌, ◌||◌, Text, text_eq, codes, Option, none, some, List, [], ◌∷◌,
  ◌++◌, ◌==◌, if◌then◌else◌,
}
use ping_gaurd.Models.{Result, ok, raise}
use ping_gaurd.Net.Http.{HttpError}
use ping_gaurd.Ssrf.{Ip, is_ip_blocked, is_loopback}

-- The attribute `port` raises ValueError on a number out of range.
pub data Port : Type 0 where
  bad_port : Port
  port_is : Option ℕ → Port

pub record SplitResult : Type 0 where
  pub scheme : Text
  pub netloc : Text
  pub path : Text
  pub query : Text
  pub fragment : Text
  pub hostname : Option Text
  pub username : Option Text
  pub password : Option Text
  pub port : Port

-- `urllib.parse`, `ipaddress.ip_address` and the methods of `str`; `none` is a ValueError.
pub record UrlLibrary : Type 0 where
  pub urlsplit : Text → Option SplitResult
  pub urljoin : Text → Text → Option Text
  pub urlunsplit : (scheme netloc path query fragment : Text) → Text
  pub ip_address : Text → Option Ip
  pub ip_text : Ip → Text
  pub port_text : ℕ → Text
  pub lower : Text → Text
  pub strip : Text → Text

-- The exceptions that end a probe; `bad_url` is httpx.InvalidURL.
pub data NetError : Type 0 where
  ssrf_blocked dns_resolution value_error deadline bad_url : NetError
  http_error : HttpError → NetError

-- What the resolver does: the addresses of its entries, an exception, or the probe's deadline.
pub data DnsReply : Type 0 where
  entries : List Text → DnsReply
  failed : DnsReply
  timed_out : DnsReply

infixl 5 ◌>>=◌ ◌>>◌
abbrev pub ◌>>=◌ : {A B : Type 0} → Result NetError A → (A → Result NetError B) → Result NetError B
ok a >>= f = f a
raise e >>= f = raise e

abbrev pub ◌>>◌ : {B : Type 0} → Result NetError (Unit {0}) → Result NetError B → Result NetError B
m >> k = m >>= λ _. k

-- `if test: raise SSRFBlockedError(...)`
abbrev pub forbid : Bool → Result NetError (Unit {0})
forbid true = raise ssrf_blocked
forbid false = ok tt

-- The truth of an optional text.
abbrev pub truthy : Option Text → Bool
truthy none = false
truthy (some []) = false
truthy (some (c ∷ cs)) = true

abbrev pub text_in : Text → List Text → Bool
text_in s [] = false
text_in s (t ∷ ts) = text_eq s t || text_in s ts

-- Duplicates are dropped, the order of the first occurrences kept.
unfoldable pub distinct : List Text → List Text → List Text
distinct resolved [] = resolved
distinct resolved (ip ∷ ips) =
    distinct (if text_in ip resolved then resolved else resolved ++ ip ∷ []) ips

abbrev pub reply_entries : DnsReply → Result NetError (List Text)
reply_entries (entries ips) = ok ips
reply_entries failed = raise dns_resolution
reply_entries timed_out = raise deadline

abbrev pub some_resolved : List Text → Result NetError (List Text)
some_resolved [] = raise dns_resolution
some_resolved (ip ∷ ips) = ok (ip ∷ ips)

abbrev pub first : List Text → Text
first [] = []
first (ip ∷ ips) = ip

module _ (lib : UrlLibrary) where
  open lib use {urlsplit, ip_address, ip_text, lower, strip}

  unfoldable pub split_target : Text → Result NetError SplitResult
  split_target url = elim (urlsplit url) [ none ↦ raise ssrf_blocked | some parsed ↦ ok parsed ]

  abbrev pub is_http : SplitResult → Bool
  is_http parsed = text_in (lower parsed.scheme) (codes "http" ∷ codes "https" ∷ [])

  unfoldable pub host_of : SplitResult → Result NetError Text
  host_of parsed = elim parsed.hostname [
    | none ↦ raise ssrf_blocked
    | some h ↦ elim h [ [] ↦ raise ssrf_blocked | c ∷ cs ↦ ok (lower (strip (c ∷ cs))) ]
  ]

  -- Steps 1 and 2: the scheme, the host name and the credentials.
  unfoldable pub check_url : Text → Result NetError (SplitResult × Text)
  check_url url = do
    parsed ← split_target url
    forbid (not (is_http parsed))
    host ← host_of parsed
    forbid (truthy parsed.username || truthy parsed.password)
    ok (parsed, host)

  -- A blocked address passes only as a loopback address where those are allowed.
  unfoldable pub is_refused : Bool → Ip → Bool
  is_refused allow_loopback ip =
      is_ip_blocked ip
      && not (allow_loopback && (is_loopback ip || text_eq (ip_text ip) (codes "127.0.0.1")))

  -- Step 5's port: `parsed.port or (443 if https else 80)`.
  unfoldable pub port_of : SplitResult → Result NetError ℕ
  port_of parsed = elim parsed.port [
    | bad_port ↦ raise value_error
    | port_is p ↦
        let default_port = if text_eq (lower parsed.scheme) (codes "https") then 443 else 80 in
        elim p [ none ↦ ok default_port | some n ↦ ok (if n == 0 then default_port else n) ]
  ]

  -- Step 6: the loop over the resolved addresses.
  unfoldable pub verify_all : Bool → List Text → Result NetError (Unit {0})
  verify_all allow_loopback [] = ok tt
  verify_all allow_loopback (ip ∷ ips) =
      let rest = verify_all allow_loopback ips in
      elim (ip_address ip) [
        | none ↦ raise ssrf_blocked
        | some address ↦ do forbid (is_refused allow_loopback address); rest
      ]

  -- Steps 4 to 6, for a host name that is no address.
  unfoldable pub resolve_name :
      Bool → (Text → ℕ → DnsReply) → SplitResult → Text → Result NetError (List Text)
  resolve_name allow_loopback dns parsed host = do
    forbid (
        text_in host (codes "localhost" ∷ codes "localhost.localdomain" ∷ []) && not allow_loopback)
    number ← port_of parsed
    found ← reply_entries (dns host number)
    resolved ← some_resolved (distinct [] found)
    verify_all allow_loopback resolved
    ok resolved

  unfoldable pub resolve_and_validate_target :
      Text → Bool → (Text → ℕ → DnsReply) → Result NetError (SplitResult × List Text)
  resolve_and_validate_target url allow_loopback dns = do
    (parsed, host) ← check_url url
    elim (ip_address host) [
      | some literal ↦ do
        forbid (is_refused allow_loopback literal)
        ok (parsed, ip_text literal ∷ [])
      | none ↦ do resolved ← resolve_name allow_loopback dns parsed host; ok (parsed, resolved)
    ]

  unfoldable pub async_resolve_and_validate_target :
      Text → Bool → (Text → ℕ → DnsReply) → Result NetError (SplitResult × Text)
  async_resolve_and_validate_target url allow_loopback dns = do
    (parsed, host) ← check_url url
    elim (ip_address host) [
      | some literal ↦ do forbid (is_refused allow_loopback literal); ok (parsed, ip_text literal)
      | none ↦ do
        resolved ← resolve_name allow_loopback dns parsed host
        ok (parsed, first resolved)
    ]
