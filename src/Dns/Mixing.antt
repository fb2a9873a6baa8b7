-- ===== src/Dns/Mixing.antt =====
-- `apply0x20Encoding` of packages/core/src/dns-service.ts. `random` gives the random byte that is
-- drawn for each position of the query.
pub mod Case
mod Tests
use zonzon.Base.{
  ℕ, zero, suc, ◌+◌, ◌%◌, Bool, ◌&&◌, ◌||◌, Option, none, some, List, [], ◌∷◌, map, ltb, leb, ◌==◌,
  if◌then◌else◌, ◌>>=◌, length, set, bit_and, bit_or,
}
use zonzon.Base.Text.{Text}
use zonzon.Base.Bytes.{Bytes, byte_at, u16_at}
use zonzon.Wire.{is_pointer}
use zonzon.Dns.Question.{ParsedQuestion, extract_questions, questions}

abbrev pub is_letter : ℕ → Bool
is_letter c = (leb 0x41 c && leb c 0x5a) || (leb 0x61 c && leb c 0x7a)

unfoldable pub mix_byte : ℕ → ℕ → ℕ
mix_byte entropy c =
    if is_letter c then (if entropy % 2 == 0 then bit_or c 0x20 else bit_and c 0xffffffdf) else c

module _ (random : ℕ → ℕ) where
  -- the loop over the bytes of a label that are still to come
  unfoldable pub mix_label : ℕ → ℕ → Bytes → Bytes
  mix_label zero offset query = query
  mix_label (suc n) offset query =
      let mixed = set query offset (mix_byte (random offset) (byte_at query offset)) in
      let rest = mix_label n (offset + 1) mixed in if leb (length query) offset then query else rest

  -- the loop over the labels of a name: the query, and the offset behind the name
  unfoldable pub mix_name : ℕ → ℕ → Bytes → Bytes × ℕ
  mix_name zero offset query = (query, offset)
  mix_name (suc fuel) offset query =
      let len = byte_at query offset in
      let rest = mix_name fuel (offset + 1 + len) (mix_label len (offset + 1) query) in
      if leb (length query) offset
      then (query, offset)
      else if len == 0
      then (query, offset + 1)
      else if is_pointer len
      then (query, offset + 2)
      else rest

  -- every round moves on by a byte at least
  abbrev pub mix_fuel : Bytes → ℕ
  mix_fuel query = suc (length query)

  -- the fixed part of a question, where there is one
  abbrev pub after_question : ℕ → Bytes → ℕ
  after_question offset query = if leb (offset + 4) (length query) then offset + 4 else offset

  unfoldable pub mix_questions : ℕ → ℕ → Bytes → Bytes
  mix_questions zero offset query = query
  mix_questions (suc n) offset query =
      let (mixed, behind) = mix_name (mix_fuel query) offset query in
      mix_questions n (after_question behind mixed) mixed

  -- the query, and the names that its reply must have; `none` is a RangeError
  unfoldable pub apply_0x20_encoding : Bytes → Option (Bytes × List Text)
  apply_0x20_encoding query =
      let mixed = mix_questions (u16_at query 4) 12 query in
      if ltb (length query) 12
      then some (query, [])
      else (extract_questions mixed >>= λ qs. some (mixed, map (λ q. q.name) qs))

unfoldable pub mixing : Unit {0}
unfolding questions mix_byte mix_label mix_name mix_questions apply_0x20_encoding
mixing = tt
