-- ===== src/Net/Examples.antt =====
-- The theorems on app/net.py at concrete inputs.
use ping_gaurd.Prelude.{
  ℕ, zero, ◌==◌, if◌then◌else◌, ◌≡◌, ◌≤◌, refl, true, false, Text, codes, Option, none, some, [],
  ◌∷◌, All, length,
}
use ping_gaurd.Models.{Result}
use ping_gaurd.Ssrf.{
  Ip, v4, v6, quad, is_ip_blocked, is_listed, is_private, is_loopback, is_link_local, is_reserved,
  is_multicast, is_unspecified,
}
use ping_gaurd.Net.Http.{HttpRequest, bytes, Reply, answered}
use ping_gaurd.Net.Resolve.{
  port_is, SplitResult, UrlLibrary, NetError, DnsReply, entries, check_url, split_target, host_of,
  port_of, resolve_name, distinct, verify_all, is_refused, async_resolve_and_validate_target,
}
use ping_gaurd.Net.Resolve.Safe.{IsPublic, resolve_pins-IsPublic}
use ping_gaurd.Net.Probe.{
  Setting, World, read_body, redirects, next_url, hop_request, hop_reply, probe_loop,
  build_pinned_request, probe_result, build_probe_error_result, error_detail_of, perform_http_probe,
}
use ping_gaurd.Net.Probe.Targets.{IsPinned, requests_public}
use ping_gaurd.Net.Probe.Ends.{probe_ends, IsAllowed, probe_well_formed}
use ping_gaurd.Tasks.Probe.{PingResultDto}

-- URLs that are host names, and addresses printed as their version and their number.
abbrev split_host : Text → SplitResult
split_host host = record {
  scheme = codes "https";
  netloc = host;
  path = [];
  query = [];
  fragment = [];
  hostname = some host;
  username = none;
  password = none;
  port = port_is none;
}

abbrev parse_address : Text → Option Ip
parse_address (v ∷ n ∷ []) = if v == 4 then some (v4 n) else if v == 6 then some (v6 n) else none
parse_address _ = none

abbrev print_address : Ip → Text
print_address (v4 n) = 4 ∷ n ∷ []
print_address (v6 n) = 6 ∷ n ∷ []

abbrev hosts : UrlLibrary
hosts = record {
  urlsplit = λ url. some (split_host url);
  urljoin = λ base url. some url;
  urlunsplit = λ scheme netloc path query fragment. netloc;
  ip_address = parse_address;
  ip_text = print_address;
  port_text = λ n. n ∷ [];
  lower = λ s. s;
  strip = λ s. s;
}

prints_back : (ip : Ip) → hosts.ip_address (hosts.ip_text ip) ≡ some ip
prints_back (v4 n) = refl
prints_back (v6 n) = refl

abbrev public_server : Text
public_server = 4 ∷ quad 93 184 216 34 ∷ []

abbrev dns : Text → ℕ → DnsReply
dns host number = entries (public_server ∷ public_server ∷ [])

-- A redirect, then a page in two chunks.
abbrev send_at : ℕ → HttpRequest → Reply
send_at zero r = answered (record {
  status_code = 302;
  is_redirect = true;
  location = some (codes "b.example");
  body = [];
})
send_at _ r = answered (record {
  status_code = 200;
  is_redirect = false;
  location = none;
  body = bytes 60 ∷ bytes 60 ∷ bytes 60 ∷ [];
})

abbrev world : World
world = record { dns = λ hop. dns; send = send_at; round_trip = λ hop. 12; elapsed = 1300 }

abbrev setting : Setting
setting = record {
  user_agent = codes "PingGuard/1.0";
  max_bytes = 100;
  max_redirects = 5;
  allow_loopback = false;
}

program : Unit {0}
unfolding check_url split_target host_of port_of resolve_name distinct verify_all is_refused
    async_resolve_and_validate_target read_body redirects next_url hop_request hop_reply probe_loop
    build_pinned_request probe_result build_probe_error_result error_detail_of perform_http_probe
    is_ip_blocked is_listed is_private is_loopback is_link_local is_reserved is_multicast
    is_unspecified
program = tt

-- Both hops are requested, and the body is cut off after the second chunk.
two_hops : length (perform_http_probe hosts setting world (codes "a.example")).0 ≡ 2
unfolding program
two_hops = refl

resolve_pins-IsPublic_example : IsPublic hosts public_server
unfolding program
resolve_pins-IsPublic_example =
    resolve_pins-IsPublic hosts prints_back (codes "a.example") dns (split_host (codes "a.example"))
      public_server refl

requests_public_example :
    All (IsPinned hosts) (perform_http_probe hosts setting world (codes "a.example")).0
requests_public_example = requests_public hosts prints_back setting world refl (codes "a.example")

probe_ends_example :
    (length (perform_http_probe hosts setting world (codes "a.example")).0 ≤ 6)
    × ((result : Result NetError PingResultDto) × ((perform_http_probe hosts setting world
            (codes "a.example")).1
          ≡ some result))
probe_ends_example = probe_ends hosts setting world (codes "a.example")

probe_well_formed_example :
    (result : Result NetError PingResultDto) × ((perform_http_probe hosts setting world
        (codes "a.example")).1
      ≡ some result)
    × IsAllowed hosts setting world (codes "a.example") result
probe_well_formed_example = probe_well_formed hosts setting world (codes "a.example")
