-- ===== src/Ssrf.antt =====
-- `is_ip_blocked` of app/ssrf.py, with the address flags of Python 3.12's `ipaddress` that it reads.
-- An address is its number; a network is its first address and the number of its host bits.
pub mod Networks
pub mod Redact
mod Examples
use ping_gaurd.Prelude.{
  ℕ, ◌*◌, ◌+◌, ◌/◌, ◌%◌, ◌^◌, Bool, true, false, not, ◌&&◌, ◌||◌, List, [], ◌∷◌, ◌==◌,
  if◌then◌else◌,
}

pub data Ip : Type 0 where
  v4 v6 : ℕ → Ip

pub data Network : Type 0 where
  net4 net6 : (base host_bits : ℕ) → Network

-- `a.b.c.d`
abbrev pub quad : (a b c d : ℕ) → ℕ
quad a b c d = ((a * 256 + b) * 256 + c) * 256 + d

-- `ip in network`: the network bits agree. An address is in no network of the other version.
abbrev pub in_network : Ip → Network → Bool
in_network (v4 x) (net4 base k) = x / 2 ^ k == base / 2 ^ k
in_network (v6 x) (net6 base k) = x / 2 ^ k == base / 2 ^ k
in_network (v4 x) (net6 base k) = false
in_network (v6 x) (net4 base k) = false

abbrev pub in_any : Ip → List Network → Bool
in_any ip [] = false
in_any ip (n ∷ ns) = in_network ip n || in_any ip ns

-- `BLOCKED_NETWORKS`
abbrev pub blocked_networks : List Network
blocked_networks =
    net4 (quad 127 0 0 0) 24
    ∷ net4 (quad 10 0 0 0) 24
    ∷ net4 (quad 172 16 0 0) 20
    ∷ net4 (quad 192 168 0 0) 16
    ∷ net4 (quad 169 254 0 0) 16
    ∷ net4 (quad 0 0 0 0) 24
    ∷ net4 (quad 100 64 0 0) 22
    ∷ net4 (quad 192 0 0 0) 8
    ∷ net4 (quad 192 0 2 0) 8
    ∷ net4 (quad 198 51 100 0) 8
    ∷ net4 (quad 203 0 113 0) 8
    ∷ net4 (quad 224 0 0 0) 28
    ∷ net4 (quad 240 0 0 0) 28
    ∷ net4 (quad 255 255 255 255) 0
    ∷ net6 1 0
    ∷ net6 0 0
    ∷ net6 (0xfe80 * 2 ^ 112) 118
    ∷ net6 (0xfc00 * 2 ^ 112) 121
    ∷ net6 (0xff00 * 2 ^ 112) 120
    ∷ []

-- 64:ff9b::/96
abbrev pub nat64_well_known_prefix : Network
nat64_well_known_prefix = net6 (0x64ff9b * 2 ^ 96) 32

-- `_private_networks` and its exceptions.
abbrev private_networks : List Network
private_networks =
    net4 (quad 0 0 0 0) 24
    ∷ net4 (quad 10 0 0 0) 24
    ∷ net4 (quad 127 0 0 0) 24
    ∷ net4 (quad 169 254 0 0) 16
    ∷ net4 (quad 172 16 0 0) 20
    ∷ net4 (quad 192 0 0 0) 8
    ∷ net4 (quad 192 0 0 170) 1
    ∷ net4 (quad 192 0 2 0) 8
    ∷ net4 (quad 192 168 0 0) 16
    ∷ net4 (quad 198 18 0 0) 17
    ∷ net4 (quad 198 51 100 0) 8
    ∷ net4 (quad 203 0 113 0) 8
    ∷ net4 (quad 240 0 0 0) 28
    ∷ net4 (quad 255 255 255 255) 0
    ∷ net6 1 0
    ∷ net6 0 0
    ∷ net6 (0xffff * 2 ^ 32) 32
    ∷ net6 (0x64ff9b0001 * 2 ^ 80) 80
    ∷ net6 (0x100 * 2 ^ 112) 64
    ∷ net6 (0x2001 * 2 ^ 112) 105
    ∷ net6 (0x20010db8 * 2 ^ 96) 96
    ∷ net6 (0x2002 * 2 ^ 112) 112
    ∷ net6 (0x3fff * 2 ^ 112) 108
    ∷ net6 (0xfc00 * 2 ^ 112) 121
    ∷ net6 (0xfe80 * 2 ^ 112) 118
    ∷ []

abbrev private_exceptions : List Network
private_exceptions =
    net4 (quad 192 0 0 9) 0
    ∷ net4 (quad 192 0 0 10) 0
    ∷ net6 (0x20010001 * 2 ^ 96 + 1) 0
    ∷ net6 (0x20010001 * 2 ^ 96 + 2) 0
    ∷ net6 (0x20010003 * 2 ^ 96) 96
    ∷ net6 (0x200100040112 * 2 ^ 80) 80
    ∷ net6 (0x20010020 * 2 ^ 96) 100
    ∷ net6 (0x20010030 * 2 ^ 96) 100
    ∷ []

abbrev reserved_networks : List Network
reserved_networks =
    net4 (quad 240 0 0 0) 28
    ∷ net6 0 120
    ∷ net6 (2 ^ 120) 120
    ∷ net6 (2 * 2 ^ 120) 121
    ∷ net6 (4 * 2 ^ 120) 122
    ∷ net6 (8 * 2 ^ 120) 123
    ∷ net6 (0x10 * 2 ^ 120) 124
    ∷ net6 (0x40 * 2 ^ 120) 125
    ∷ net6 (0x60 * 2 ^ 120) 125
    ∷ net6 (0x80 * 2 ^ 120) 125
    ∷ net6 (0xa0 * 2 ^ 120) 125
    ∷ net6 (0xc0 * 2 ^ 120) 125
    ∷ net6 (0xe0 * 2 ^ 120) 124
    ∷ net6 (0xf0 * 2 ^ 120) 123
    ∷ net6 (0xf8 * 2 ^ 120) 122
    ∷ net6 (0xfe * 2 ^ 120) 119
    ∷ []

-- `ip.ipv4_mapped` decides `is_private` of a mapped address.
unfoldable pub is_private : Ip → Bool
is_private (v4 x) = in_any (v4 x) private_networks && not (in_any (v4 x) private_exceptions)
is_private (v6 x) =
    if in_network (v6 x) (net6 (0xffff * 2 ^ 32) 32)
    then in_any (v4 (x % 2 ^ 32)) private_networks
      && not (in_any (v4 (x % 2 ^ 32)) private_exceptions)
    else in_any (v6 x) private_networks && not (in_any (v6 x) private_exceptions)

unfoldable pub is_loopback : Ip → Bool
is_loopback ip = in_any ip (net4 (quad 127 0 0 0) 24 ∷ net6 1 0 ∷ [])

unfoldable pub is_link_local : Ip → Bool
is_link_local ip = in_any ip (net4 (quad 169 254 0 0) 16 ∷ net6 (0xfe80 * 2 ^ 112) 118 ∷ [])

unfoldable pub is_reserved : Ip → Bool
is_reserved ip = in_any ip reserved_networks

unfoldable pub is_multicast : Ip → Bool
is_multicast ip = in_any ip (net4 (quad 224 0 0 0) 28 ∷ net6 (0xff00 * 2 ^ 112) 120 ∷ [])

unfoldable pub is_unspecified : Ip → Bool
is_unspecified ip = in_any ip (net4 0 0 ∷ net6 0 0 ∷ [])

-- The two tests that follow the NAT64 case.
unfoldable pub is_listed : Ip → Bool
is_listed ip =
    is_private ip
    || (is_loopback ip
        || (is_link_local ip
            || (is_reserved ip
                || (is_multicast ip || (is_unspecified ip || in_any ip blocked_networks)))))

-- The recursive call is on an IPv4 address, which is never in the NAT64 prefix.
unfoldable pub is_ip_blocked : Ip → Bool
is_ip_blocked ip = elim ip [
  | v4 x ↦ is_listed (v4 x)
  | v6 x ↦
      if in_network (v6 x) nat64_well_known_prefix
      then is_listed (v4 (x % 2 ^ 32))
      else is_listed (v6 x)
]
