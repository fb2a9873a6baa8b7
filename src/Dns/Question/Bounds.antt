-- ===== src/Dns/Question/Bounds.antt =====
-- The questions of a query lie one behind the other inside it.
use zonzon.Base.{
  ℕ, zero, suc, ◌+◌, ◌*◌, ◌≤◌, ◌≡◌, some, List, arith, length, Option-cases, inl, inr,
}
use zonzon.Base.Bytes.{Bytes, u16_at}
use zonzon.Wire.{read_uint16}
use zonzon.Wire.Names.{read_domain_name_bounds}
use zonzon.Dns.Question.{ParsedQuestion, parse_question, question_loop, extract_questions}

-- A question takes at least its type and class, and ends inside the query.
parse_question_bounds :
    (query : Bytes) (base : ℕ) (q : ParsedQuestion)
    → base ≤ length query
    → parse_question query base ≡ some q
    → (base + 4 ≤ q.next_offset) × (q.next_offset ≤ length query)
unfolding parse_question read_uint16
parse_question_bounds query base q h e =
    ground (arith, read_domain_name_bounds (record { buf = query; offset = base }) h)

question_loop_bound :
    (n : ℕ) (query : Bytes) (base : ℕ)
    → base ≤ length query
    → (length (question_loop n query base) ≤ n)
      × (base + 4 * length (question_loop n query base) ≤ length query)
unfolding question_loop
question_loop_bound zero query base h = ground arith
question_loop_bound (suc n) query base h = elim (Option-cases (parse_question query base)) [
  | inl e ↦ rw (e, question_loop) (ground arith)
  | inr (q, e) ↦
      let (lo, hi) = parse_question_bounds query base q h e in
      let (few, fit) = question_loop_bound n query q.next_offset hi in
      rw (e, question_loop) (omega arith, omega arith)
]

-- However large the count in its header, a query of at least 12 bytes yields at most one question
-- for each 4 bytes behind the header.
pub extract_questions_bound :
    (query : Bytes)
    → 12 ≤ length query
    → (qs : List ParsedQuestion) × (extract_questions query ≡ some qs)
      × (12 + 4 * length qs ≤ length query)
unfolding extract_questions
extract_questions_bound query h =
    let n = u16_at query 4 in
    (question_loop n query 12, ground arith, (question_loop_bound n query 12 h).1)
