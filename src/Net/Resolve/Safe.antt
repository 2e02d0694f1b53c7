-- ===== src/Net/Resolve/Safe.antt =====
-- What the two resolvers of app/net.py let through.
use ping_gaurd.Prelude.{
  ℕ, subst, sym, ◌∙◌, ◌≡◌, inl, inr, Bool, false, Text, some, List, [], ◌∷◌, arith, All,
  Option-cases, Bool-cases,
}
use ping_gaurd.Models.{Result-cases, ok}
use ping_gaurd.Ssrf.{Ip, is_ip_blocked}
use ping_gaurd.Net.Resolve.{
  SplitResult, UrlLibrary, DnsReply, ◌>>=◌, ◌>>◌, check_url, is_refused, port_of, distinct,
  verify_all, resolve_name, reply_entries, some_resolved, first, resolve_and_validate_target,
  async_resolve_and_validate_target,
}

-- The text names an address, and that address is not blocked.
abbrev pub IsPublic : UrlLibrary → Text → Type 0
IsPublic lib t = (ip : Ip) × (lib.ip_address t ≡ some ip) × (is_ip_blocked ip ≡ false)

module _ (lib : UrlLibrary) where
  is_refused_strict : (ip : Ip) → is_refused lib false ip ≡ is_ip_blocked ip
  unfolding is_refused
  is_refused_strict ip = ground arith

  verify_all-IsPublic :
      (ips : List Text) → verify_all lib false ips ≡ ok tt → All (IsPublic lib) ips
  unfolding verify_all
  verify_all-IsPublic [] h = tt
  verify_all-IsPublic (t ∷ ips) h = elim (Option-cases (lib.ip_address t)) [
    | inl bad ↦ absurd (ground arith)
    | inr (ip, e) ↦
        let passes : is_refused lib false ip ≡ false = ground arith in
        let others : verify_all lib false ips ≡ ok tt = ground arith in
        ((ip, e, sym (is_refused_strict ip) ∙ passes), verify_all-IsPublic ips others)
  ]

  verified_list :
      (resolved : List Text) {ips : List Text}
      → (do some_found ← some_resolved resolved; verify_all lib false some_found; ok some_found)
        ≡ ok ips
      → IsPublic lib (first ips)
  verified_list [] h = absurd (ground arith)
  verified_list (t ∷ ts) {ips} h = elim (Result-cases (verify_all lib false (t ∷ ts))) [
    | inl (u, e) ↦
        let found : t ≡ first ips = ground arith in
        subst (IsPublic lib) found (verify_all-IsPublic (t ∷ ts) (ground arith)).0
    | inr (err, e) ↦ absurd (ground arith)
  ]

  -- A resolved name's first address is public.
  resolve_name-IsPublic :
      (dns : Text → ℕ → DnsReply) (parsed : SplitResult) (host : Text) {ips : List Text}
      → resolve_name lib false dns parsed host ≡ ok ips
      → IsPublic lib (first ips)
  unfolding resolve_name
  resolve_name-IsPublic dns parsed host {ips} h = elim (Result-cases (port_of lib parsed)) [
    | inr (err, e) ↦ absurd (ground arith)
    | inl (number, e) ↦ elim (Result-cases (reply_entries (dns host number))) [
      | inr (err, d) ↦ absurd (ground arith)
      | inl (found, d) ↦ verified_list (distinct [] found) {ips = ips} (ground arith)
    ]
  ]

  -- With loopback not allowed, and if printed addresses parse back: an address that the asynchronous
  -- resolver hands out to be connected to is a public one, literal or resolved.
  pub resolve_pins-IsPublic :
      ((ip : Ip) → lib.ip_address (lib.ip_text ip) ≡ some ip)
      → (url : Text) (dns : Text → ℕ → DnsReply) (parsed : SplitResult) (pinned : Text)
      → async_resolve_and_validate_target lib url false dns ≡ ok (parsed, pinned)
      → IsPublic lib pinned
  unfolding async_resolve_and_validate_target
  resolve_pins-IsPublic prints url dns parsed pinned h = elim (Result-cases (check_url lib url)) [
    | inr (err, e) ↦ absurd (ground arith)
    | inl ((split, host), e) ↦ elim (Option-cases (lib.ip_address host)) [
      | inl named ↦ elim (Result-cases (resolve_name lib false dns split host)) [
        | inr (err, d) ↦ absurd (ground arith)
        | inl (ips, d) ↦
            let same : first ips ≡ pinned = ground arith in
            subst (IsPublic lib) same (resolve_name-IsPublic dns split host d)
      ]
      | inr (literal, is_literal) ↦
          let same : lib.ip_text literal ≡ pinned = ground arith in
          let passes : is_refused lib false literal ≡ false = ground arith in
          subst (IsPublic lib) same
            (literal, prints literal, sym (is_refused_strict literal) ∙ passes)
    ]
  ]

  -- The two resolvers agree: the asynchronous one fails as the other does, and pins the first address
  -- that the other lists.
  pub async_pins_first :
      (url : Text) (allow_loopback : Bool) (dns : Text → ℕ → DnsReply)
      → async_resolve_and_validate_target lib url allow_loopback dns ≡ (do
        (parsed, ips) ← resolve_and_validate_target lib url allow_loopback dns
        ok (parsed, first ips))
  unfolding async_resolve_and_validate_target resolve_and_validate_target
  async_pins_first url allow_loopback dns = elim (Result-cases (check_url lib url)) [
    | inr (err, e) ↦ ground arith
    | inl ((split, host), e) ↦ elim (Option-cases (lib.ip_address host)) [
      | inl named ↦ elim (Result-cases (resolve_name lib allow_loopback dns split host)) [
        | inr (err, d) ↦ ground arith
        | inl (ips, d) ↦ ground arith
      ]
      | inr (literal, is_literal) ↦ elim (Bool-cases (is_refused lib allow_loopback literal)) [
        | inl d ↦ ground arith
        | inr d ↦ ground arith
      ]
    ]
  ]
