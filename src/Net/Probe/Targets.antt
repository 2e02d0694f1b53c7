-- ===== src/Net/Probe/Targets.antt =====
-- Where a probe connects to.
use ping_gaurd.Prelude.{
  ℕ, suc, ◌⊎◌, ◌++◌, [], none, codes, refl, Bool-cases, true, ◌≡◌, inl, inr, false, Text, some,
  arith, All, drop, ◌==◌, if◌then◌else◌,
}
use ping_gaurd.Models.{Result-cases, ok}
use ping_gaurd.Ssrf.{Ip}
use ping_gaurd.Net.Http.{HttpRequest}
use ping_gaurd.Net.Resolve.{
  Port, bad_port, port_is, SplitResult, UrlLibrary, async_resolve_and_validate_target,
}
use ping_gaurd.Net.Resolve.Safe.{IsPublic, resolve_pins-IsPublic}
use ping_gaurd.Net.Probe.Loop.{loop_ind}
use ping_gaurd.Net.Probe.{
  Setting, World, build_pinned_request, port_suffix, or_slash, text_contains, hop_request,
  probe_loop, perform_http_probe,
}

-- How an address stands in the authority of a URL: an IPv6 address in brackets.
abbrev pub IsLiteral : (pinned literal : Text) → Type 0
IsLiteral pinned literal =
    ((text_contains (codes ":") pinned ≡ false) × (literal ≡ pinned))
    ⊎ ((text_contains (codes ":") pinned ≡ true) × (literal ≡ codes "[" ++ (pinned ++ codes "]")))

-- No port, or a port.
abbrev pub IsPortSuffix : UrlLibrary → Text → Type 0
IsPortSuffix lib suffix = (suffix ≡ []) ⊎ ((port : ℕ) × (suffix ≡ codes ":" ++ lib.port_text port))

-- The authority of the request's URL is a public address, with a port or none.
abbrev pub IsPinned : UrlLibrary → HttpRequest → Type 0
IsPinned lib r =
    (pinned : Text) × IsPublic lib pinned
    × (literal : Text) × IsLiteral pinned literal
    × (suffix : Text) × IsPortSuffix lib suffix
    × (scheme : Text) × (path : Text) × (query : Text) × (fragment : Text) × (r.url
        ≡ lib.urlunsplit scheme (literal ++ suffix) path query fragment)

Port-cases : (p : Port) → (p ≡ bad_port) ⊎ ((p ≡ port_is none) ⊎ ((n : ℕ) × (p ≡ port_is (some n))))
Port-cases bad_port = inl refl
Port-cases (port_is none) = inr (inl refl)
Port-cases (port_is (some n)) = inr (inr (n, refl))

port_suffix-IsPortSuffix :
    (lib : UrlLibrary) (parsed : SplitResult) {suffix : Text}
    → port_suffix lib parsed ≡ ok suffix
    → IsPortSuffix lib suffix
port_suffix-IsPortSuffix lib parsed {suffix} h = elim (Port-cases parsed.port) [
  | inl bad ↦ absurd (ground arith)
  | inr (inl unset) ↦ inl (ground arith)
  | inr (inr (n, written)) ↦ elim (Bool-cases (n == 0)) [
    | inl zero_port ↦ inl (ground arith)
    | inr other ↦ inr (n, ground arith)
  ]
]

build_pinned_request-IsPinned :
    (lib : UrlLibrary) (user_agent : Text) (parsed : SplitResult) (pinned : Text) {r : HttpRequest}
    → build_pinned_request lib user_agent parsed pinned ≡ ok r
    → IsPublic lib pinned
    → IsPinned lib r
unfolding build_pinned_request
build_pinned_request-IsPinned lib user_agent parsed pinned {r} h public =
    elim (Result-cases (port_suffix lib parsed)) [
      | inr (e, failed) ↦ absurd (ground arith)
      | inl (suffix, port_given) ↦
          let port = port_suffix-IsPortSuffix lib parsed port_given in
          elim (Bool-cases (text_contains (codes ":") pinned)) [
            | inl colon ↦ (
              pinned,
              public,
              codes "[" ++ (pinned ++ codes "]"),
              inr (colon, refl),
              suffix,
              port,
              parsed.scheme,
              or_slash parsed.path,
              parsed.query,
              parsed.fragment,
              ground arith,
            )
            | inr plain ↦ (
              pinned,
              public,
              pinned,
              inl (plain, refl),
              suffix,
              port,
              parsed.scheme,
              or_slash parsed.path,
              parsed.query,
              parsed.fragment,
              ground arith,
            )
          ]
    ]

module _ (lib : UrlLibrary) (prints : (ip : Ip) → lib.ip_address (lib.ip_text ip) ≡ some ip) where
  module _ (setting : Setting) (world : World) where
    hop_request-IsPinned :
        (url : Text) (c : ℕ) {r : HttpRequest}
        → (if c == 0 then setting.allow_loopback else false) ≡ false
        → hop_request lib setting world url c ≡ ok r
        → IsPinned lib r
    unfolding hop_request
    hop_request-IsPinned url c {r} strict h =
        elim (Result-cases (
          async_resolve_and_validate_target lib url
            (if c == 0 then setting.allow_loopback else false) (world.dns c))) [
              | inr (e, d) ↦ absurd (ground arith)
              | inl ((parsed, pinned), d) ↦
                  let built : build_pinned_request lib setting.user_agent parsed pinned ≡ ok r =
                    ground arith in
                  let strictly : async_resolve_and_validate_target lib url false (world.dns c)
                      ≡ ok (parsed, pinned) =
                    ground arith in
                  build_pinned_request-IsPinned lib setting.user_agent parsed pinned built
                    (resolve_pins-IsPublic lib prints url (world.dns c) parsed pinned strictly)
            ]

    later_hop : (c : ℕ) → (if suc c == 0 then setting.allow_loopback else false) ≡ false
    later_hop c = ground arith

    -- After the first hop the strict check holds whatever the setting.
    probe_loop-IsPinned :
        (fuel : ℕ) (url : Text) (c : ℕ)
        → ((if c == 0 then setting.allow_loopback else false) ≡ false
            → All (IsPinned lib) (probe_loop lib setting world fuel url c).0)
          × All (IsPinned lib) (drop 1 (probe_loop lib setting world fuel url c).0)
    probe_loop-IsPinned =
        loop_ind lib setting world
          (λ fuel url c run.
            ((if c == 0 then setting.allow_loopback else false) ≡ false → All (IsPinned lib) run.0)
            × All (IsPinned lib) (drop 1 run.0))
          (λ url c. (λ strict. tt, tt)) (λ fuel url c e d. (λ strict. tt, tt))
          (λ fuel url c r e d k. (λ strict. (hop_request-IsPinned url c strict d, tt), tt))
          (λ fuel url c r f d k. (λ strict. (hop_request-IsPinned url c strict d, tt), tt))
          (λ fuel url c r next rest d k later. (
            λ strict. (hop_request-IsPinned url c strict d, later.0 (later_hop c)),
            later.0 (later_hop c),
          ))

    -- If printed addresses parse back: the URL of every request that a redirect leads to has the literal
    -- of an address that is not blocked as its authority, with a port or none, whatever the first target was allowed to be, and whatever the resolver and
    -- the servers answer at each hop.
    pub redirects_public :
        (url : Text) → All (IsPinned lib) (drop 1 (perform_http_probe lib setting world url).0)
    unfolding perform_http_probe
    redirects_public url = (probe_loop-IsPinned _ url 0).1

    -- If printed addresses parse back and loopback is not allowed: every request of a probe, the first
    -- and those that redirects lead to, is sent to a URL whose authority is the literal of an address
    -- that is not blocked, in brackets if it is one of IPv6, with a port or none. No name is left in it
    -- to be resolved again.
    pub requests_public :
        setting.allow_loopback ≡ false
        → (url : Text) → All (IsPinned lib) (perform_http_probe lib setting world url).0
    unfolding perform_http_probe
    requests_public strict url = (probe_loop-IsPinned _ url 0).0 strict
