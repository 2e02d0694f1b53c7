-- ===== src/Ssrf/Networks.antt =====
-- What `is_ip_blocked` of app/ssrf.py blocks.
use ping_gaurd.Prelude.{
  ◌∙◌, ℕ, ◌*◌, ◌+◌, ◌/◌, ◌%◌, ◌^◌, ◌<◌, ◌≡◌, Bool, true, false, not, ◌&&◌, ◌||◌, ◌==◌, leb, arith,
}
use ping_gaurd.Ssrf.{
  Ip, v4, v6, is_private, is_loopback, is_link_local, is_reserved, is_multicast, is_unspecified,
  is_listed, is_ip_blocked, quad,
}

-- An address range, both ends included.
abbrev pub within : (lo hi x : ℕ) → Bool
within lo hi x = leb lo x && leb x hi

-- The same blocked IPv4 space as an ordered list of disjoint ranges.
abbrev pub blocked_ranges : ℕ → Bool
blocked_ranges x =
    within (quad 0 0 0 0) (quad 0 255 255 255) x
    || (within (quad 10 0 0 0) (quad 10 255 255 255) x
        || (within (quad 100 64 0 0) (quad 100 127 255 255) x
            || (within (quad 127 0 0 0) (quad 127 255 255 255) x
                || (within (quad 169 254 0 0) (quad 169 254 255 255) x
                    || (within (quad 172 16 0 0) (quad 172 31 255 255) x
                        || (within (quad 192 0 0 0) (quad 192 0 0 255) x
                            || (within (quad 192 0 2 0) (quad 192 0 2 255) x
                                || (within (quad 192 168 0 0) (quad 192 168 255 255) x
                                    || (within (quad 198 18 0 0) (quad 198 19 255 255) x
                                        || (within (quad 198 51 100 0) (quad 198 51 100 255) x
                                            || (within (quad 203 0 113 0) (quad 203 0 113 255) x
                                                || within (quad 224 0 0 0) (quad 255 255 255 255)
                                                    x)))))))))))

-- An address under the NAT64 prefix is blocked exactly if the IPv4 address that it embeds is.
pub nat64_embeds :
    (x : ℕ) → x < 2 ^ 32 → is_ip_blocked (v6 (0x64ff9b * 2 ^ 96 + x)) ≡ is_ip_blocked (v4 x)
unfolding is_ip_blocked
nat64_embeds x h =
    let q : (0x64ff9b * 2 ^ 96 + x) / 2 ^ 32 ≡ 0x64ff9b * 2 ^ 64 = omega arith in
    let r : (0x64ff9b * 2 ^ 96 + x) % 2 ^ 32 ≡ x = omega arith in rw (q, r)

reserved_low : (y : ℕ) → y / 2 ^ 120 ≡ 0 → is_reserved (v6 y) ≡ true
unfolding is_reserved
reserved_low y h = rw h

reserved-is_listed : (ip : Ip) → is_reserved ip ≡ true → is_listed ip ≡ true
unfolding is_listed
reserved-is_listed ip h = ground arith

-- Every IPv4-mapped IPv6 address is blocked.
pub mapped_blocked : (x : ℕ) → x < 2 ^ 32 → is_ip_blocked (v6 (0xffff * 2 ^ 32 + x)) ≡ true
unfolding is_ip_blocked
mapped_blocked x h =
    let q : (0xffff * 2 ^ 32 + x) / 2 ^ 32 ≡ 0xffff = omega arith in
    let r : (0xffff * 2 ^ 32 + x) / 2 ^ 120 ≡ 0 = omega arith in
    rw q (reserved-is_listed _ (reserved_low _ r))

-- The flags and the list of networks as one disjunction: the two exceptions of `is_private` and the
-- network 192.0.0.170/31 lie in 192.0.0.0/24, which is blocked.
listed_or :
    (t0 t10 t127 t169 t172 t192 t170 t2 t168 t18 t51 t113 t240 t255 x9 x10 t224 t100 zero : Bool)
    → (x9 ≡ true → (t192 ≡ true) × (t18 ≡ false))
    → (x10 ≡ true → (t192 ≡ true) × (t18 ≡ false))
    → (t170 ≡ true → t192 ≡ true)
    → (zero ≡ true → t0 ≡ true)
    → (((t0
              || (t10
                  || (t127
                      || (t169
                          || (t172
                              || (t192
                                  || (t170
                                      || (t2
                                          || (t168
                                              || (t18
                                                  || (t51
                                                      || (t113
                                                          || (t240 || (t255 || false))))))))))))))
            && not (x9 || (x10 || false)))
          || ((t127 || false)
              || ((t169 || false)
                  || ((t240 || false)
                      || ((t224 || false)
                          || ((zero || false)
                              || (t127
                                  || (t10
                                      || (t172
                                          || (t168
                                              || (t169
                                                  || (t0
                                                      || (t100
                                                          || (t192
                                                            || (t2
                                                            || (t51
                                                            || (t113
                                                            || (t224
                                                            || (t240
                                                            || (t255 || false)))))))))))))))))))
        ≡ (t0
            || (t10
                || (t100
                    || (t127
                        || (t169
                            || (t172
                                || (t192
                                    || (t2
                                        || (t168
                                            || (t18
                                                || (t51
                                                    || (t113
                                                        || (t224 || (t240 || t255)))))))))))))))
listed_or t0 t10 t127 t169 t172 t192 t170 t2 t168 t18 t51 t113 t240 t255 x9 x10 t224 t100 zero h k l
      m =
    ground arith

or_cong : {a b r s : Bool} → a ≡ b → r ≡ s → (a || r) ≡ (b || s)
or_cong p q = cc

top_range :
    (x : ℕ)
    → x < 2 ^ 32
    → (x / 2 ^ 28 == quad 224 0 0 0 / 2 ^ 28
        || (x / 2 ^ 28 == quad 240 0 0 0 / 2 ^ 28 || x / 2 ^ 0 == quad 255 255 255 255 / 2 ^ 0))
      ≡ within (quad 224 0 0 0) (quad 255 255 255 255) x
top_range x h = ground arith

-- An IPv4 address is blocked exactly if it lies in one of thirteen disjoint ranges.
pub blocked_v4_ranges : (x : ℕ) → x < 2 ^ 32 → is_ip_blocked (v4 x) ≡ blocked_ranges x
unfolding is_ip_blocked is_listed is_private is_loopback is_link_local is_reserved is_multicast
    is_unspecified
blocked_v4_ranges x h =
    let t = λ (base k : ℕ). x / 2 ^ k == base / 2 ^ k in
    let flat =
      listed_or (t (quad 0 0 0 0) 24) (t (quad 10 0 0 0) 24) (t (quad 127 0 0 0) 24)
        (t (quad 169 254 0 0) 16) (t (quad 172 16 0 0) 20) (t (quad 192 0 0 0) 8)
        (t (quad 192 0 0 170) 1) (t (quad 192 0 2 0) 8) (t (quad 192 168 0 0) 16)
        (t (quad 198 18 0 0) 17) (t (quad 198 51 100 0) 8) (t (quad 203 0 113 0) 8)
        (t (quad 240 0 0 0) 28) (t (quad 255 255 255 255) 0) (t (quad 192 0 0 9) 0)
        (t (quad 192 0 0 10) 0) (t (quad 224 0 0 0) 28) (t (quad 100 64 0 0) 22) (t 0 0)
        (λ e. ground arith) (λ e. ground arith) (λ e. ground arith) (λ e. ground arith) in
    let r0_0_0_0 : t (quad 0 0 0 0) 24 ≡ within (quad 0 0 0 0) (quad 0 255 255 255) x =
      ground arith in
    let r10_0_0_0 : t (quad 10 0 0 0) 24 ≡ within (quad 10 0 0 0) (quad 10 255 255 255) x =
      ground arith in
    let r100_64_0_0 : t (quad 100 64 0 0) 22 ≡ within (quad 100 64 0 0) (quad 100 127 255 255) x =
      ground arith in
    let r127_0_0_0 : t (quad 127 0 0 0) 24 ≡ within (quad 127 0 0 0) (quad 127 255 255 255) x =
      ground arith in
    let r169_254_0_0 : t (quad 169 254 0 0) 16
        ≡ within (quad 169 254 0 0) (quad 169 254 255 255) x =
      ground arith in
    let r172_16_0_0 : t (quad 172 16 0 0) 20 ≡ within (quad 172 16 0 0) (quad 172 31 255 255) x =
      ground arith in
    let r192_0_0_0 : t (quad 192 0 0 0) 8 ≡ within (quad 192 0 0 0) (quad 192 0 0 255) x =
      ground arith in
    let r192_0_2_0 : t (quad 192 0 2 0) 8 ≡ within (quad 192 0 2 0) (quad 192 0 2 255) x =
      ground arith in
    let r192_168_0_0 : t (quad 192 168 0 0) 16
        ≡ within (quad 192 168 0 0) (quad 192 168 255 255) x =
      ground arith in
    let r198_18_0_0 : t (quad 198 18 0 0) 17 ≡ within (quad 198 18 0 0) (quad 198 19 255 255) x =
      ground arith in
    let r198_51_100_0 : t (quad 198 51 100 0) 8
        ≡ within (quad 198 51 100 0) (quad 198 51 100 255) x =
      ground arith in
    let r203_0_113_0 : t (quad 203 0 113 0) 8 ≡ within (quad 203 0 113 0) (quad 203 0 113 255) x =
      ground arith in
    flat
    ∙ or_cong r0_0_0_0 (
        or_cong r10_0_0_0 (
          or_cong r100_64_0_0 (
            or_cong r127_0_0_0 (
              or_cong r169_254_0_0 (
                or_cong r172_16_0_0 (
                  or_cong r192_0_0_0 (
                    or_cong r192_0_2_0 (
                      or_cong r192_168_0_0 (
                        or_cong r198_18_0_0
                          (or_cong r198_51_100_0 (or_cong r203_0_113_0 (top_range x h))))))))))))
