-- ===== src/Firewall/Reserved.antt =====
-- The tests of `isRestrictedOutbound` on the octets of an IPv4 address, against the ranges that
-- they stand for.
use mathlib.Core.Bool.{or-false, or_assoc}
use zonzon.Base.{
  ℕ, ◌+◌, ◌-◌, ◌*◌, ◌/◌, ◌^◌, ◌≤◌, ◌≡◌, refl, ◌∙◌, ◌≢◌, ◌&&◌, List, [], ◌∷◌, arith, leb, ◌==◌, any,
}
use zonzon.Base.Text.{Text, codes, split}
use zonzon.Firewall.Address.{pos, parse_int}
use zonzon.Firewall.Cidr.{ip_to_int, match_cidr, IsPrefix, match_cidr_iff}
use zonzon.Firewall.{is_restricted_octets, is_restricted_outbound, firewall}
use zonzon.Firewall.Quads.{quad, IsQuad, ip_to_int-quad, is_restricted_outbound-quad}

-- The ranges that may not be reached, in the notation of the configuration.
abbrev pub reserved : List Text
reserved =
    codes "0.0.0.0/8"
    ∷ codes "10.0.0.0/8"
    ∷ codes "127.0.0.0/8"
    ∷ codes "100.64.0.0/10"
    ∷ codes "169.254.0.0/16"
    ∷ codes "172.16.0.0/12"
    ∷ codes "192.168.0.0/16"
    ∷ codes "224.0.0.0/4"
    ∷ codes "240.0.0.0/4"
    ∷ []

-- What a block says of an address: its first n bits are those of `base`.
record IsBlock (cidr : Text) (n base : ℕ) : Type 0 where
  range : Text
  prefix : IsPrefix cidr range n
  value : ip_to_int range / 2 ^ (32 - n) ≡ base

-- `range/n` as `split` and `parseInt` see it.
IsBlock-of :
    (cidr range bits : Text) (n base : ℕ)
    → split b'/' cidr ≡ range ∷ bits ∷ []
    → bits ≢ []
    → parse_int 10 bits ≡ pos n
    → n ≤ 32
    → ip_to_int range / 2 ^ (32 - n) ≡ base
    → IsBlock cidr n base
IsBlock-of cidr range bits n base parts given number most value = record {
  range = range;
  prefix = record { bits = bits; parts = parts; given = given; number = number; most = most };
  value = value;
}

blocks :
    IsBlock (codes "0.0.0.0/8") 8 0
    × IsBlock (codes "10.0.0.0/8") 8 10
    × IsBlock (codes "127.0.0.0/8") 8 127
    × IsBlock (codes "100.64.0.0/10") 10 401
    × IsBlock (codes "169.254.0.0/16") 16 43518
    × IsBlock (codes "172.16.0.0/12") 12 2753
    × IsBlock (codes "192.168.0.0/16") 16 49320
    × IsBlock (codes "224.0.0.0/4") 4 14
    × IsBlock (codes "240.0.0.0/4") 4 15
unfolding firewall
blocks = (
  IsBlock-of _ (codes "0.0.0.0") (codes "8") 8 0 refl (λ e. cc) refl (omega arith) refl,
  IsBlock-of _ (codes "10.0.0.0") (codes "8") 8 10 refl (λ e. cc) refl (omega arith) refl,
  IsBlock-of _ (codes "127.0.0.0") (codes "8") 8 127 refl (λ e. cc) refl (omega arith) refl,
  IsBlock-of _ (codes "100.64.0.0") (codes "10") 10 401 refl (λ e. cc) refl (omega arith) refl,
  IsBlock-of _ (codes "169.254.0.0") (codes "16") 16 43518 refl (λ e. cc) refl (omega arith) refl,
  IsBlock-of _ (codes "172.16.0.0") (codes "12") 12 2753 refl (λ e. cc) refl (omega arith) refl,
  IsBlock-of _ (codes "192.168.0.0") (codes "16") 16 49320 refl (λ e. cc) refl (omega arith) refl,
  IsBlock-of _ (codes "224.0.0.0") (codes "4") 4 14 refl (λ e. cc) refl (omega arith) refl,
  IsBlock-of _ (codes "240.0.0.0") (codes "4") 4 15 refl (λ e. cc) refl (omega arith) refl,
)

module _ (a b c d : ℕ) (q : IsQuad a b c d) where
  match_block :
      (cidr : Text) (n base : ℕ)
      → IsBlock cidr n base
      → match_cidr (quad a b c d) cidr
        ≡ ((((a * 256 + b) * 256 + c) * 256 + d) / 2 ^ (32 - n) == base)
  match_block cidr n base k =
      let h = match_cidr_iff (quad a b c d) cidr k.range n k.prefix in
      ground (arith, h, ip_to_int-quad a b c d q, k.value)

  in_block_0 : match_cidr (quad a b c d) (codes "0.0.0.0/8") ≡ (a == 0)
  in_block_0 =
      match_block (codes "0.0.0.0/8") 8 0 blocks.0
      ∙ ground (arith, q.first, q.second, q.third, q.fourth)

  in_block_1 : match_cidr (quad a b c d) (codes "10.0.0.0/8") ≡ (a == 10)
  in_block_1 =
      match_block (codes "10.0.0.0/8") 8 10 blocks.1
      ∙ ground (arith, q.first, q.second, q.third, q.fourth)

  in_block_2 : match_cidr (quad a b c d) (codes "127.0.0.0/8") ≡ (a == 127)
  in_block_2 =
      match_block (codes "127.0.0.0/8") 8 127 blocks.2
      ∙ ground (arith, q.first, q.second, q.third, q.fourth)

  in_block_3 :
      match_cidr (quad a b c d) (codes "100.64.0.0/10") ≡ (a == 100 && leb 64 b && leb b 127)
  in_block_3 =
      match_block (codes "100.64.0.0/10") 10 401 blocks.3
      ∙ ground (arith, q.first, q.second, q.third, q.fourth)

  in_block_4 : match_cidr (quad a b c d) (codes "169.254.0.0/16") ≡ (a == 169 && b == 254)
  in_block_4 =
      match_block (codes "169.254.0.0/16") 16 43518 blocks.4
      ∙ ground (arith, q.first, q.second, q.third, q.fourth)

  in_block_5 :
      match_cidr (quad a b c d) (codes "172.16.0.0/12") ≡ (a == 172 && leb 16 b && leb b 31)
  in_block_5 =
      match_block (codes "172.16.0.0/12") 12 2753 blocks.5
      ∙ ground (arith, q.first, q.second, q.third, q.fourth)

  in_block_6 : match_cidr (quad a b c d) (codes "192.168.0.0/16") ≡ (a == 192 && b == 168)
  in_block_6 =
      match_block (codes "192.168.0.0/16") 16 49320 blocks.6
      ∙ ground (arith, q.first, q.second, q.third, q.fourth)

  in_block_7 : match_cidr (quad a b c d) (codes "224.0.0.0/4") ≡ (leb 224 a && leb a 239)
  in_block_7 =
      match_block (codes "224.0.0.0/4") 4 14 blocks.7
      ∙ ground (arith, q.first, q.second, q.third, q.fourth)

  in_block_8 : match_cidr (quad a b c d) (codes "240.0.0.0/4") ≡ (leb 240 a && leb a 255)
  in_block_8 =
      match_block (codes "240.0.0.0/4") 4 15 blocks.8
      ∙ ground (arith, q.first, q.second, q.third, q.fourth)

  -- An IPv4 address is restricted exactly when it lies in one of the reserved ranges.
  pub is_restricted_outbound-reserved :
      is_restricted_outbound (quad a b c d) ≡ any (match_cidr (quad a b c d)) reserved
  unfolding is_restricted_octets
  is_restricted_outbound-reserved =
      rw
        (
          is_restricted_outbound-quad a b c d q,
          in_block_0,
          in_block_1,
          in_block_2,
          in_block_3,
          in_block_4,
          in_block_5,
          in_block_6,
          in_block_7,
          in_block_8,
        )
        (simp (or_assoc, or-false))
