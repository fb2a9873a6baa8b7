-- ===== src/Base/Bytes.antt =====
-- Byte buffers as lists of numbers: big-endian words, and UTF-8 as `Buffer.from(text)` and
-- `TextDecoder` have it.
use Prim.Native.Nat.{ℕ, zero, suc, ◌+◌, ◌-◌, ◌*◌, ◌/◌, ◌%◌, ◌<◌}
use mathlib.Core.Path.{◌≡◌, refl, ap, ◌∙◌}
use mathlib.Core.Bool.{Bool, ◌&&◌, ◌||◌}
use mathlib.Core.Option.{Option, none, some}
use mathlib.Core.List.{List, [], ◌∷◌, ◌++◌}
use native.Mathlib.Omega.{arith}
use zonzon.Base.Tests.{ltb, leb, ◌==◌, if◌then◌else◌}
use zonzon.Base.Lists.{get_or, length, All}
use zonzon.Base.Text.{Text}

abbrev pub Bytes : Type 0
Bytes = List ℕ

abbrev pub IsBytes : Bytes → Type 0
IsBytes = All (λ b. b < 256)

-- chunks one behind the other
abbrev pub joined : List Bytes → Bytes
joined [] = []
joined (chunk ∷ chunks) = chunk ++ joined chunks

abbrev pub byte_at : Bytes → ℕ → ℕ
byte_at buf i = get_or buf i 0

-- `readUInt16BE` and `readUInt32BE` inside the buffer
abbrev pub u16_at : Bytes → ℕ → ℕ
u16_at buf i = byte_at buf i * 256 + byte_at buf (i + 1)

abbrev pub u32_at : Bytes → ℕ → ℕ
u32_at buf i = u16_at buf i * 65536 + u16_at buf (i + 2)

-- the bytes that `writeUInt16BE` and `writeUInt32BE` store
abbrev pub be16 : ℕ → Bytes
be16 v = v / 256 ∷ v % 256 ∷ []

abbrev pub be32 : ℕ → Bytes
be32 v = v / 16777216 ∷ v / 65536 % 256 ∷ v / 256 % 256 ∷ v % 256 ∷ []

-- `data.copy(buf, at)`: what does not fit is dropped
abbrev pub blit : Bytes → ℕ → Bytes → Bytes
blit [] i d = []
blit (b ∷ buf) zero [] = b ∷ buf
blit (b ∷ buf) zero (x ∷ d) = x ∷ blit buf zero d
blit (b ∷ buf) (suc i) d = b ∷ blit buf i d

-- UTF-8 of UTF-16 code units. A surrogate pair is one code point, a lone surrogate is U+FFFD.
abbrev is_high : ℕ → Bool
is_high c = leb 0xd800 c && ltb c 0xdc00

abbrev is_low : ℕ → Bool
is_low c = leb 0xdc00 c && ltb c 0xe000

abbrev replacement : Bytes
replacement = 0xef ∷ 0xbf ∷ 0xbd ∷ []

utf8_unit : ℕ → Bytes
utf8_unit c =
    if ltb c 0x80
    then c ∷ []
    else if ltb c 0x800
    then (0xc0 + c / 64) ∷ (0x80 + c % 64) ∷ []
    else if is_high c || is_low c
    then replacement
    else (0xe0 + c / 4096) ∷ (0x80 + c / 64 % 64) ∷ (0x80 + c % 64) ∷ []

utf8_pair : ℕ → ℕ → Bytes
utf8_pair hi lo =
    let cp = 0x10000 + (hi - 0xd800) * 1024 + (lo - 0xdc00) in
    (0xf0 + cp / 262144) ∷ (0x80 + cp / 4096 % 64) ∷ (0x80 + cp / 64 % 64) ∷ (0x80 + cp % 64) ∷ []

-- `held` is a high surrogate that waits for its partner
utf8_from : Option ℕ → Text → Bytes
utf8_from none [] = []
utf8_from (some hi) [] = replacement
utf8_from none (c ∷ s) =
    let waiting = utf8_from (some c) s in
    let plain = utf8_unit c ++ utf8_from none s in if is_high c then waiting else plain
utf8_from (some hi) (c ∷ s) =
    let paired = utf8_pair hi c ++ utf8_from none s in
    let waiting = replacement ++ utf8_from (some c) s in
    let plain = replacement ++ (utf8_unit c ++ utf8_from none s) in
    if is_low c then paired else if is_high c then waiting else plain

unfoldable pub utf8 : Text → Bytes
unfolding utf8_from utf8_unit utf8_pair
utf8 s = utf8_from none s

-- The decoder's state: continuation bytes still to come, the code point so far, and the range of
-- the next byte.
record Pending : Type 0 where
  needed : ℕ
  point : ℕ
  lowest : ℕ
  highest : ℕ

abbrev idle : Pending
idle = record { needed = 0; point = 0; lowest = 0x80; highest = 0xbf }

abbrev units : ℕ → Text
units cp =
    if ltb cp 0x10000
    then cp ∷ []
    else (0xd800 + (cp - 0x10000) / 1024) ∷ (0xdc00 + (cp - 0x10000) % 1024) ∷ []

decode_first : ℕ → Text × Pending
decode_first b =
    if ltb b 0x80
    then (b ∷ [], idle)
    else if leb 0xc2 b && leb b 0xdf
    then ([], record idle { needed = 1; point = b - 0xc0 })
    else if leb 0xe0 b && leb b 0xef
    then (
      [],
      record {
        needed = 2;
        point = b - 0xe0;
        lowest = if b == 0xe0 then 0xa0 else 0x80;
        highest = if b == 0xed then 0x9f else 0xbf;
      },
    )
    else if leb 0xf0 b && leb b 0xf4
    then (
      [],
      record {
        needed = 3;
        point = b - 0xf0;
        lowest = if b == 0xf0 then 0x90 else 0x80;
        highest = if b == 0xf4 then 0x8f else 0xbf;
      },
    )
    else (0xfffd ∷ [], idle)

decode_step : Pending → ℕ → Text × Pending
decode_step p b =
    if p.needed == 0
    then decode_first b
    else if leb p.lowest b && leb b p.highest
    then (if p.needed == 1
        then (units (p.point * 64 + (b - 0x80)), idle)
        else ([], record idle { needed = p.needed - 1; point = p.point * 64 + (b - 0x80) }))
    else (let (out, q) = decode_first b in (0xfffd ∷ out, q))

decode_from : Pending → Bytes → Text
decode_from p [] = if p.needed == 0 then [] else 0xfffd ∷ []
decode_from p (b ∷ d) = (decode_step p b).0 ++ decode_from (decode_step p b).1 d

-- `bytes.toString("utf8")`, which keeps a byte order mark
unfoldable pub utf8_text : Bytes → Text
unfolding decode_from decode_step decode_first
utf8_text d = decode_from idle d

-- a byte order mark in front is dropped
abbrev drop_mark : Text → Text
drop_mark [] = []
drop_mark (c ∷ s) = if c == 0xfeff then s else c ∷ s

-- `new TextDecoder().decode(bytes)`
unfoldable pub decode : Bytes → Text
unfolding decode_from decode_step decode_first
decode d = drop_mark (decode_from idle d)

abbrev pub IsAscii : Text → Type 0
IsAscii = All (λ c. c < 128)

utf8_from_ascii : (s : Text) → IsAscii s → utf8_from none s ≡ s
unfolding utf8_from utf8_unit
utf8_from_ascii [] h = refl
utf8_from_ascii (c ∷ s) h = ground (arith, utf8_from_ascii s h.1)

pub utf8_ascii : (s : Text) → IsAscii s → utf8 s ≡ s
unfolding utf8
utf8_ascii s h = utf8_from_ascii s h

decode_from_ascii : (s : Bytes) → IsAscii s → decode_from idle s ≡ s
unfolding decode_from decode_step decode_first
decode_from_ascii [] h = refl
decode_from_ascii (c ∷ s) h = ground (arith, decode_from_ascii s h.1)

drop_mark_ascii : (s : Text) → IsAscii s → drop_mark s ≡ s
drop_mark_ascii [] h = refl
drop_mark_ascii (c ∷ s) h = ground arith

pub decode_ascii : (s : Bytes) → IsAscii s → decode s ≡ s
unfolding decode
decode_ascii s h = ap drop_mark (decode_from_ascii s h) ∙ drop_mark_ascii s h

utf8_test :
    utf8 (0x41 ∷ 0xe9 ∷ 0x20ac ∷ 0xd83d ∷ 0xde00 ∷ 0xd800 ∷ [])
    ≡ 0x41 ∷ 0xc3 ∷ 0xa9 ∷ 0xe2 ∷ 0x82 ∷ 0xac ∷ 0xf0 ∷ 0x9f ∷ 0x98 ∷ 0x80 ∷ 0xef ∷ 0xbf ∷ 0xbd ∷ []
unfolding utf8
utf8_test = refl

decode_test :
    decode (0x41 ∷ 0xc3 ∷ 0xa9 ∷ 0xe2 ∷ 0x82 ∷ 0xac ∷ 0xf0 ∷ 0x9f ∷ 0x98 ∷ 0x80 ∷ 0xed ∷ 0x42 ∷ [])
    ≡ (0x41 ∷ 0xe9 ∷ 0x20ac ∷ 0xd83d ∷ 0xde00 ∷ 0xfffd ∷ 0x42 ∷ [])
unfolding decode
decode_test = refl

mark_test : utf8_text (0xef ∷ 0xbb ∷ 0xbf ∷ 0x41 ∷ []) ≡ 0xfeff ∷ 0x41 ∷ []
unfolding utf8_text
mark_test = refl

pub byte_at-lt : (buf : Bytes) (i : ℕ) → IsBytes buf → byte_at buf i < 256
byte_at-lt [] i h = omega arith
byte_at-lt (b ∷ buf) zero h = h.0
byte_at-lt (b ∷ buf) (suc i) h = byte_at-lt buf i h.1

pub u16_at-lt : (buf : Bytes) (i : ℕ) → IsBytes buf → u16_at buf i < 65536
u16_at-lt buf i h = omega (arith, byte_at-lt buf i h, byte_at-lt buf (i + 1) h)

-- What stands in a buffer is there, too, when more bytes follow.
pub byte_at-front : (p q : Bytes) (i : ℕ) → i < length p → byte_at (p ++ q) i ≡ byte_at p i
byte_at-front [] q i h = absurd (omega arith)
byte_at-front (x ∷ p) q zero h = refl
byte_at-front (x ∷ p) q (suc i) h = byte_at-front p q i (omega arith)

pub u16_at-front : (p q : Bytes) (i : ℕ) → i + 1 < length p → u16_at (p ++ q) i ≡ u16_at p i
u16_at-front p q i h = omega (arith, byte_at-front p q i (omega arith), byte_at-front p q (i + 1) h)
