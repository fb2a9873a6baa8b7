-- ===== src/Dns/Question.antt =====
-- `parseQuestion` and `extractQuestions` of packages/core/src/dns-service.ts.
pub mod Bounds
pub mod RoundTrip
use zonzon.Base.{
  ℕ, zero, suc, ◌+◌, Bool, ◌&&◌, not, Option, none, some, List, [], ◌∷◌, ltb, ◌==◌, if◌then◌else◌,
  length,
}
use zonzon.Base.Text.{Text}
use zonzon.Base.Bytes.{Bytes, u16_at}
use zonzon.Types.{class_in}
use zonzon.Wire.{DnsWireFormat, read_domain_name, read_uint16, wire}

pub record ParsedQuestion : Type 0 where
  pub name : Text
  pub type : ℕ
  pub next_offset : ℕ

unfoldable pub parse_question : Bytes → ℕ → Option ParsedQuestion
parse_question query base =
    let (name, d1) = read_domain_name (record { buf = query; offset = base }) in
    if ltb (length query) (d1.offset + 4)
    then none
    else (let (type, d2) = read_uint16 d1 in
        let (dclass, d3) = read_uint16 d2 in
        if not (dclass == class_in) && not (dclass == 255)
        then none
        else some (record { name = name; type = type; next_offset = d3.offset }))

-- the loop, over the questions still to come
unfoldable pub question_loop : ℕ → Bytes → ℕ → List ParsedQuestion
question_loop zero query offset = []
question_loop (suc n) query offset = elim (parse_question query offset) [
  | none ↦ []
  | some question ↦ question ∷ question_loop n query question.next_offset
]

-- `query.readUInt16BE(at)`: `none` is the RangeError
abbrev pub read_at : Bytes → ℕ → Option ℕ
read_at query at = if ltb (length query) (at + 2) then none else some (u16_at query at)

unfoldable pub extract_questions : Bytes → Option (List ParsedQuestion)
extract_questions query = elim (read_at query 4) [
  | none ↦ none
  | some qdcount ↦ some (question_loop qdcount query 12)
]

unfoldable pub questions : Unit {0}
unfolding wire extract_questions question_loop parse_question
questions = tt
