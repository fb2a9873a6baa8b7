-- ===== src/Firewall/Cidr.antt =====
-- `ipToInt` and `matchCidr`, and what a match means.
use zonzon.Base.{
  ℕ, ◌+◌, ◌-◌, ◌*◌, ◌/◌, ◌%◌, ◌^◌, ◌≤◌, ◌<◌, ◌≡◌, refl, ◌≢◌, ◌↔◌, Bool, true, List, [], ◌∷◌, arith,
  leb, ◌==◌, ==_iff, if◌then◌else◌, bit_and,
}
use zonzon.Base.Bits.{high_mask-eq_iff}
use zonzon.Base.Text.{Text, split}
use zonzon.Firewall.Address.{Number, nan, pos, neg, parse_int, to_uint32}

abbrev pub word : ℕ
word = 4294967296

-- `(int << 8) + parseInt(octet, 10)` modulo 2 ^ 32; NaN shifts to 0
abbrev pub add_octet : ℕ → Number → ℕ
add_octet int nan = 0
add_octet int (pos n) = (int * 256 + to_uint32 (pos n)) % word
add_octet int (neg n) = (int * 256 + to_uint32 (neg n)) % word

unfoldable pub octets_to_int : ℕ → List Text → ℕ
octets_to_int int [] = int
octets_to_int int (octet ∷ rest) = octets_to_int (add_octet int (parse_int 10 octet)) rest

unfoldable pub ip_to_int : Text → ℕ
unfolding octets_to_int
ip_to_int ip = octets_to_int 0 (split b'.' ip)

-- `~(Math.pow(2, 32 - n) - 1)` as an unsigned word: past 32 bits, for NaN and past the precision
-- of doubles every bit is on; a longer power of two has its low 32 bits off.
abbrev prefix_mask : Number → ℕ
prefix_mask nan = word - 1
prefix_mask (pos n) = if leb n 32 then word - 2 ^ (32 - n) else word - 1
prefix_mask (neg n) = if leb n 21 then 0 else word - 1

-- `bits ? … : 0xFFFFFFFF`, on the parts of `cidr.split('/')`
unfoldable pub cidr_mask : List Text → ℕ
cidr_mask [] = word - 1
cidr_mask (range ∷ []) = word - 1
cidr_mask (range ∷ [] ∷ rest) = word - 1
cidr_mask (range ∷ (c ∷ bits) ∷ rest) = prefix_mask (parse_int 10 (c ∷ bits))

abbrev pub cidr_range : List Text → Text
cidr_range [] = []
cidr_range (range ∷ rest) = range

unfoldable pub match_cidr : Text → Text → Bool
match_cidr ip cidr =
    let parts = split b'/' cidr in
    let mask = cidr_mask parts in
    bit_and (ip_to_int ip) mask == bit_and (ip_to_int (cidr_range parts)) mask

octets_to_int-lt : (int : ℕ) (l : List Text) → int < word → octets_to_int int l < word
unfolding octets_to_int
octets_to_int-lt int [] h = h
octets_to_int-lt int (octet ∷ rest) h =
    octets_to_int-lt (add_octet int (parse_int 10 octet)) rest (ground arith)

pub ip_to_int-lt : (ip : Text) → ip_to_int ip < word
unfolding ip_to_int
ip_to_int-lt ip = octets_to_int-lt 0 (split b'.' ip) (omega arith)

-- `range/n` with n from 0 to 32.
pub record IsPrefix (cidr range : Text) (n : ℕ) : Type 0 where
  pub bits : Text
  pub parts : split b'/' cidr ≡ range ∷ bits ∷ []
  pub given : bits ≢ []
  pub number : parse_int 10 bits ≡ pos n
  pub most : n ≤ 32

bits-mask :
    (range bits : Text) (n : ℕ)
    → bits ≢ []
    → parse_int 10 bits ≡ pos n
    → n ≤ 32
    → cidr_mask (range ∷ bits ∷ []) ≡ 2 ^ 32 - 2 ^ (32 - n)
unfolding cidr_mask
bits-mask range [] n given e most = absurd (given refl)
bits-mask range (c ∷ bits) n given e most = rw e (ground arith)

-- An address matches `range/n` exactly when the two agree on their first n bits.
pub match_cidr_iff :
    (ip cidr range : Text) (n : ℕ)
    → IsPrefix cidr range n
    → (match_cidr ip cidr ≡ true) ↔ (ip_to_int ip / 2 ^ (32 - n) ≡ ip_to_int range / 2 ^ (32 - n))
unfolding match_cidr
match_cidr_iff ip cidr range n p =
    rw (p.parts, bits-mask range p.bits n p.given p.number p.most)
      (let masked =
          high_mask-eq_iff (32 - n) 32 (ip_to_int ip) (ip_to_int range) (omega arith)
            (ip_to_int-lt ip) (ip_to_int-lt range) in
        let same =
          ==_iff (bit_and (ip_to_int ip) (2 ^ 32 - 2 ^ (32 - n)))
            (bit_and (ip_to_int range) (2 ^ 32 - 2 ^ (32 - n))) in
        (λ h. masked.0 (same.0 h), λ e. same.1 (masked.1 e)))
