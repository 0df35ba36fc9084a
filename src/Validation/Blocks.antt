-- ===== src/Validation/Blocks.antt =====
-- The IPv4 guard against the table of special-purpose blocks, an independent description: an
-- address is a 32-bit number, and lies in a block if it has the block's leading bits.
use mcp_web_search.Validation.{blocked_v4}
use mcp_web_search.Base.{
  false, ◌||◌, true, any, within, ◌&&◌, [], ◌==◌, arith, ◌∷◌, ◌^◌, ◌+◌, ◌≡◌, ◌/◌, List, Bool, ◌*◌,
  ◌<◌, ℕ,
}
use mcp_web_search.Net.{Ipv4Addr}

pub record IsIpv4 (ip : Ipv4Addr) : Type 0 where
  pub a_byte : ip.a < 256
  pub b_byte : ip.b < 256
  pub c_byte : ip.c < 256
  pub d_byte : ip.d < 256

abbrev pub octets : ℕ → ℕ → ℕ → ℕ → Ipv4Addr
octets a b c d = record { a = a; b = b; c = c; d = d }

unfoldable pub to_u32 : Ipv4Addr → ℕ
to_u32 ip = ip.a * 16777216 + ip.b * 65536 + ip.c * 256 + ip.d

-- A network and the number of bits that it leaves to the host.
pub record Block : Type 0 where
  pub net : Ipv4Addr
  pub host_bits : ℕ

unfoldable pub in_block : Ipv4Addr → Block → Bool
unfolding to_u32
in_block ip block = to_u32 ip / 2 ^ block.host_bits == to_u32 block.net / 2 ^ block.host_bits

abbrev block : ℕ → ℕ → ℕ → ℕ → ℕ → Block
block a b c d bits = record { net = octets a b c d; host_bits = bits }

-- 0.0.0.0/8, 10.0.0.0/8, 100.64.0.0/10, 127.0.0.0/8, 169.254.0.0/16, 172.16.0.0/12, 192.0.2.0/24,
-- 192.168.0.0/16, 198.18.0.0/15, 198.51.100.0/24, 203.0.113.0/24, 255.255.255.255/32.
abbrev pub special_blocks : List Block
special_blocks =
    block 0 0 0 0 24
    ∷ block 10 0 0 0 24
    ∷ block 100 64 0 0 22
    ∷ block 127 0 0 0 24
    ∷ block 169 254 0 0 16
    ∷ block 172 16 0 0 20
    ∷ block 192 0 2 0 8
    ∷ block 192 168 0 0 16
    ∷ block 198 18 0 0 17
    ∷ block 198 51 100 0 8
    ∷ block 203 0 113 0 8
    ∷ block 255 255 255 255 0
    ∷ []

-- The source's tests, with their repetitions, against each block once.
same_tests :
    (p127 p10 p172 p168 p169 p255 p192 p51 p203 zero_ip p0 p100 p18 : Bool)
    → (zero_ip ≡ true → p0 ≡ true)
    → (p127
        || (p10 || p172 || p168)
        || p169
        || p255
        || (p192 || p51 || p203)
        || zero_ip
        || p0
        || p100
        || p18
        || p51
        || p203)
      ≡ (p0
          || (p10
              || (p100
                  || (p127
                      || (p169
                          || (p172
                              || (p192
                                  || (p168 || (p18 || (p51 || (p203 || (p255 || false))))))))))))
same_tests p127 p10 p172 p168 p169 p255 p192 p51 p203 zero_ip p0 p100 p18 h = ground arith

module _ (ip : Ipv4Addr) (v : IsIpv4 ip) where
  first_octet : to_u32 ip / 16777216 ≡ ip.a
  unfolding to_u32
  first_octet = omega arith

  two_octets : to_u32 ip / 65536 ≡ ip.a * 256 + ip.b
  unfolding to_u32
  two_octets = omega arith

  three_octets : to_u32 ip / 256 ≡ (ip.a * 256 + ip.b) * 256 + ip.c
  unfolding to_u32
  three_octets = omega arith

  slash_10 : to_u32 ip / 4194304 ≡ ip.a * 4 + ip.b / 64
  unfolding to_u32
  slash_10 = omega arith

  slash_12 : to_u32 ip / 1048576 ≡ ip.a * 16 + ip.b / 16
  unfolding to_u32
  slash_12 = omega arith

  slash_15 : to_u32 ip / 131072 ≡ ip.a * 128 + ip.b / 2
  unfolding to_u32
  slash_15 = omega arith

  slash_32 : to_u32 ip / 1 ≡ ip.a * 16777216 + ip.b * 65536 + ip.c * 256 + ip.d
  unfolding to_u32
  slash_32 = omega arith

  in_0 : in_block ip (block 0 0 0 0 24) ≡ (ip.a == 0)
  unfolding in_block
  in_0 = ground (arith, first_octet)

  in_10 : in_block ip (block 10 0 0 0 24) ≡ (ip.a == 10)
  unfolding in_block
  in_10 = ground (arith, first_octet)

  in_100 : in_block ip (block 100 64 0 0 22) ≡ (ip.a == 100 && ip.b / 64 * 64 == 0x40)
  unfolding in_block
  in_100 = ground (arith, slash_10)

  in_127 : in_block ip (block 127 0 0 0 24) ≡ (ip.a == 127)
  unfolding in_block
  in_127 = ground (arith, first_octet)

  in_169 : in_block ip (block 169 254 0 0 16) ≡ (ip.a == 169 && ip.b == 254)
  unfolding in_block
  in_169 = ground (arith, two_octets)

  in_172 : in_block ip (block 172 16 0 0 20) ≡ (ip.a == 172 && within 16 31 ip.b)
  unfolding in_block
  in_172 = ground (arith, slash_12)

  in_192_0 : in_block ip (block 192 0 2 0 8) ≡ (ip.a == 192 && ip.b == 0 && ip.c == 2)
  unfolding in_block
  in_192_0 = ground (arith, three_octets)

  in_192_168 : in_block ip (block 192 168 0 0 16) ≡ (ip.a == 192 && ip.b == 168)
  unfolding in_block
  in_192_168 = ground (arith, two_octets)

  in_198_18 : in_block ip (block 198 18 0 0 17) ≡ (ip.a == 198 && ip.b / 2 * 2 == 0x12)
  unfolding in_block
  in_198_18 = ground (arith, slash_15)

  in_198_51 : in_block ip (block 198 51 100 0 8) ≡ (ip.a == 198 && ip.b == 51 && ip.c == 100)
  unfolding in_block
  in_198_51 = ground (arith, three_octets)

  in_203 : in_block ip (block 203 0 113 0 8) ≡ (ip.a == 203 && ip.b == 0 && ip.c == 113)
  unfolding in_block
  in_203 = ground (arith, three_octets)

  in_255 :
      in_block ip (block 255 255 255 255 0)
      ≡ (ip.a == 255 && ip.b == 255 && ip.c == 255 && ip.d == 255)
  unfolding in_block
  in_255 = ground (arith, slash_32)

  pub blocked_v4-special_blocks : blocked_v4 ip ≡ any (in_block ip) special_blocks
  unfolding blocked_v4
  blocked_v4-special_blocks =
      rw
        (
          in_0, in_10, in_100, in_127, in_169, in_172, in_192_0, in_192_168, in_198_18, in_198_51,
          in_203, in_255,
        )
        (same_tests (ip.a == 127) (ip.a == 10) (ip.a == 172 && within 16 31 ip.b)
          (ip.a == 192 && ip.b == 168) (ip.a == 169 && ip.b == 254)
          (ip.a == 255 && ip.b == 255 && ip.c == 255 && ip.d == 255)
          (ip.a == 192 && ip.b == 0 && ip.c == 2) (ip.a == 198 && ip.b == 51 && ip.c == 100)
          (ip.a == 203 && ip.b == 0 && ip.c == 113)
          (ip.a == 0 && ip.b == 0 && ip.c == 0 && ip.d == 0) (ip.a == 0)
          (ip.a == 100 && ip.b / 64 * 64 == 0x40) (ip.a == 198 && ip.b / 2 * 2 == 0x12)
          (ground arith))
