-- ===== src/Wire.antt =====
-- `DnsWireFormat` of packages/core/src/dns-service.ts: a buffer with a cursor. The readers never
-- throw; a writer throws a RangeError (`none`) where the buffer or the word is too small.
-- The calls of `audit.error` beside the bounds checks only log.
pub mod Names
pub mod Encoding
pub mod Words
pub mod RoundTrip
mod Tests
use zonzon.Base.{
  ℕ, zero, suc, ◌+◌, ◌*◌, ◌≡◌, Bool, ◌&&◌, ◌||◌, Option, none, some, List, [], ◌∷◌, ◌++◌, ◌>>=◌,
  ltb, leb, ◌==◌, if◌then◌else◌, length, take, drop, replicate, bit_and, bit_or,
}
use zonzon.Base.Text.{Text, split, join, to_lower, lower}
use zonzon.Base.Bytes.{Bytes, byte_at, u16_at, u32_at, be16, be32, blit, utf8, decode}

pub record DnsWireFormat : Type 0 where
  pub buf : Bytes
  pub offset : ℕ

-- `new DnsWireFormat(buffer)`, and with no argument
abbrev pub over : Bytes → DnsWireFormat
over buffer = record { buf = buffer; offset = 0 }

abbrev pub allocated : ℕ
allocated = 4096

unfoldable pub fresh : DnsWireFormat
fresh = over (replicate allocated 0)

unfoldable pub write_uint16 : ℕ → DnsWireFormat → Option DnsWireFormat
write_uint16 v w =
    if leb (w.offset + 2) (length w.buf) && ltb v 65536
    then some (record { buf = blit w.buf w.offset (be16 v); offset = w.offset + 2 })
    else none

unfoldable pub write_uint8 : ℕ → DnsWireFormat → Option DnsWireFormat
write_uint8 v w =
    if leb (w.offset + 1) (length w.buf) && ltb v 256
    then some (record { buf = blit w.buf w.offset (v ∷ []); offset = w.offset + 1 })
    else none

unfoldable pub write_uint32 : ℕ → DnsWireFormat → Option DnsWireFormat
write_uint32 v w =
    if leb (w.offset + 4) (length w.buf) && ltb v 4294967296
    then some (record { buf = blit w.buf w.offset (be32 v); offset = w.offset + 4 })
    else none

-- `copy` drops what does not fit, and the cursor moves on by the whole length
unfoldable pub write_bytes : Bytes → DnsWireFormat → Option DnsWireFormat
write_bytes d w = some (record { buf = blit w.buf w.offset d; offset = w.offset + length d })

-- one round of the loop over the labels: the length byte counts UTF-16 code units
unfoldable pub write_label : Text → DnsWireFormat → Option DnsWireFormat
write_label label w =
    if length label == 0
    then some w
    else (do w1 ← write_uint8 (length label) w; write_bytes (utf8 label) w1)

unfoldable pub write_labels : List Text → DnsWireFormat → Option DnsWireFormat
write_labels [] w = some w
write_labels (label ∷ labels) w = do w1 ← write_label label w; write_labels labels w1

unfoldable pub write_domain_name : Text → DnsWireFormat → Option DnsWireFormat
write_domain_name name w = do w1 ← write_labels (split b'.' (to_lower name)) w; write_uint8 0 w1

-- `finish`
unfoldable pub finish : DnsWireFormat → Bytes
finish w = take w.offset w.buf

-- A read gives the value and the decoder after it. Out of bounds it gives 0, at the buffer's end.
unfoldable pub read_uint16 : DnsWireFormat → ℕ × DnsWireFormat
read_uint16 w =
    if ltb (length w.buf) (w.offset + 2)
    then (0, record w { offset = length w.buf })
    else (u16_at w.buf w.offset, record w { offset = w.offset + 2 })

unfoldable pub read_uint8 : DnsWireFormat → ℕ × DnsWireFormat
read_uint8 w =
    if ltb (length w.buf) (w.offset + 1)
    then (0, record w { offset = length w.buf })
    else (byte_at w.buf w.offset, record w { offset = w.offset + 1 })

unfoldable pub read_uint32 : DnsWireFormat → ℕ × DnsWireFormat
read_uint32 w =
    if ltb (length w.buf) (w.offset + 4)
    then (0, record w { offset = length w.buf })
    else (u32_at w.buf w.offset, record w { offset = w.offset + 4 })

-- The variables of the loop of `readDomainName`; `saved` is none for -1.
pub record Cursor : Type 0 where
  pub labels : List Text
  pub jumps : ℕ
  pub current : ℕ
  pub saved : Option ℕ

pub data Round : Type 0 where
  stop : Cursor → Round
  again : Cursor → Round

abbrev pub max_jumps : ℕ
max_jumps = 5

abbrev keep_saved : Option ℕ → ℕ → Option ℕ
keep_saved none here = some here
keep_saved (some o) here = some o

unfoldable pub is_pointer : ℕ → Bool
is_pointer len = bit_and len 0xc0 == 0xc0

-- the branch of a compression pointer; `c.current` is past its first byte
unfoldable pub follow : Bytes → ℕ → Cursor → Round
follow buf len c =
    if ltb max_jumps (c.jumps + 1)
    then stop (record c { jumps = c.jumps + 1 })
    else if leb (length buf) c.current
    then stop (record c { jumps = c.jumps + 1 })
    else again (record c {
      jumps = c.jumps + 1;
      current = bit_or (bit_and len 0x3f * 256) (byte_at buf c.current);
      saved = keep_saved c.saved (c.current + 1);
    })

-- the branch of a label; the inner loop copies `len` bytes
unfoldable pub take_label : Bytes → ℕ → Cursor → Round
take_label buf len c =
    if ltb 63 len || ltb (length buf) (c.current + len)
    then stop c
    else again (record c {
      labels = c.labels ++ (decode (take len (drop c.current buf)) ∷ []);
      current = c.current + len;
    })

-- the body of `while (true)`
unfoldable pub name_round : Bytes → Cursor → Round
name_round buf c =
    if leb (length buf) c.current
    then stop c
    else (let len = byte_at buf c.current in
        let next = record c { current = c.current + 1 } in
        if len == 0
        then stop next
        else if is_pointer len
        then follow buf len next
        else take_label buf len next)

-- `none` when the fuel runs out
unfoldable pub name_loop : ℕ → Bytes → Cursor → Option Cursor
name_loop zero buf c = none
name_loop (suc fuel) buf c = elim (name_round buf c) [
  | stop c' ↦ some c'
  | again c' ↦ name_loop fuel buf c'
]

abbrev pub start_cursor : ℕ → Cursor
start_cursor offset = record { labels = []; jumps = 0; current = offset; saved = none }

-- six stretches without a jump, each at most through the whole buffer
abbrev pub name_fuel : Bytes → ℕ
name_fuel buf = suc (7 * (length buf + 1))

abbrev pub end_offset : Cursor → ℕ
end_offset c = elim (c.saved) [ none ↦ c.current | some o ↦ o ]

abbrev pub or_start : ℕ → Option Cursor → Cursor
or_start offset none = start_cursor offset
or_start offset (some c) = c

unfoldable pub read_cursor : DnsWireFormat → Cursor
read_cursor w = or_start w.offset (name_loop (name_fuel w.buf) w.buf (start_cursor w.offset))

unfoldable pub read_domain_name : DnsWireFormat → Text × DnsWireFormat
read_domain_name w =
    let c = read_cursor w in (join b'.' c.labels, record w { offset = end_offset c })

-- The module's functions together, for evaluation.
unfoldable pub wire : Unit {0}
unfolding read_domain_name read_cursor join name_loop name_round follow take_label is_pointer decode
    read_uint8 read_uint16 read_uint32 write_uint8 write_uint16 write_uint32 write_bytes write_label
    write_labels write_domain_name fresh finish split utf8 lower
wire = tt
