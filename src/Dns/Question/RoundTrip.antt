-- ===== src/Dns/Question/RoundTrip.antt =====
-- Questions that stand in a message one behind the other are read back, in their spelling.
use mathlib.Core.Path.{subst}
use zonzon.Base.{
  ℕ, ◌+◌, ◌≡◌, refl, ap, ◌∙◌, some, List, [], ◌∷◌, ◌++◌, arith, length, All, append_assoc,
  length-append, map, length-map,
}
use zonzon.Base.Text.{Text, split, to_lower, join-split}
use zonzon.Base.Bytes.{Bytes, be16, u16_at}
use zonzon.Types.{class_in}
use zonzon.Wire.Encoding.{labels_bytes, name_bytes}
use zonzon.Wire.RoundTrip.{IsLabel, read_labels}
use zonzon.Wire.Words.{read_uint16-append}
use zonzon.Dns.Question.{ParsedQuestion, parse_question, question_loop, extract_questions}

-- the labels of a name as they are, with their lengths
abbrev pub spelled_bytes : Text → Bytes
spelled_bytes name = labels_bytes (split b'.' name) ++ (0 ∷ [])

abbrev pub wire_bytes : ParsedQuestion → Bytes
wire_bytes q = spelled_bytes q.name ++ (be16 q.type ++ be16 class_in)

abbrev pub wires_bytes : List ParsedQuestion → Bytes
wires_bytes [] = []
wires_bytes (q ∷ qs) = wire_bytes q ++ wires_bytes qs

-- A question whose name the wire format can carry, as it is spelled.
abbrev pub IsSpelled : ParsedQuestion → Type 0
IsSpelled q = All IsLabel (split b'.' q.name)

-- The questions as they stand behind `start` bytes: each knows where the next begins.
abbrev pub placed : ℕ → List ParsedQuestion → List ParsedQuestion
placed start [] = []
placed start (q ∷ qs) =
    let next = start + length (wire_bytes q) in
    record { name = q.name; type = q.type; next_offset = next } ∷ placed next qs

-- the question in lower case, which is how it is written
abbrev pub lowered : ParsedQuestion → ParsedQuestion
lowered q = record q { name = to_lower q.name }

abbrev pub question_bytes : ParsedQuestion → Bytes
question_bytes q = name_bytes q.name ++ (be16 q.type ++ be16 class_in)

abbrev pub questions_bytes : List ParsedQuestion → Bytes
questions_bytes [] = []
questions_bytes (q ∷ qs) = question_bytes q ++ questions_bytes qs

-- A question whose name the wire format can carry.
abbrev pub IsQuestion : ParsedQuestion → Type 0
IsQuestion q = All IsLabel (split b'.' (to_lower q.name))

-- The questions as they are read behind `start` bytes.
abbrev pub reread : ℕ → List ParsedQuestion → List ParsedQuestion
reread start [] = []
reread start (q ∷ qs) =
    let next = start + length (question_bytes q) in
    record { name = to_lower q.name; type = q.type; next_offset = next } ∷ reread next qs

parse_question-append :
    (buf pre rest : Bytes) (q : ParsedQuestion)
    → IsSpelled q
    → buf ≡ pre ++ (wire_bytes q ++ rest)
    → parse_question buf (length pre)
      ≡ some (record {
        name = q.name;
        type = q.type;
        next_offset = length pre + length (wire_bytes q);
      })
unfolding parse_question
parse_question-append buf pre rest q v e =
    let n = spelled_bytes q.name in
    let e₁ : buf ≡ pre ++ (n ++ ((be16 q.type ++ be16 class_in) ++ rest)) =
      e ∙ ap (λ t. pre ++ t) (append_assoc n _ rest) in
    let e₂ : buf ≡ (pre ++ n) ++ (be16 q.type ++ (be16 class_in ++ rest)) = e ∙ simp append_assoc in
    let e₃ : buf ≡ ((pre ++ n) ++ be16 q.type) ++ (be16 class_in ++ rest) = e ∙ simp append_assoc in
    let r₁ = read_labels (split b'.' q.name) buf pre _ v e₁ in
    let at = length pre + length n in
    let r₂ =
      read_uint16-append buf (pre ++ n) _ q.type at (omega (arith, length-append pre n)) e₂ in
    let r₃ =
      read_uint16-append buf ((pre ++ n) ++ be16 q.type) rest class_in (at + 2)
        (omega (arith, length-append pre n, length-append (pre ++ n) (be16 q.type))) e₃ in
    rw (r₁, join-split b'.' q.name, r₂, r₃)
      (ground (
        arith,
        ap length e,
        length-append pre (wire_bytes q ++ rest),
        length-append (wire_bytes q) rest,
        length-append n (be16 q.type ++ be16 class_in),
      ))

question_loop-append :
    (qs : List ParsedQuestion) (buf pre rest : Bytes)
    → All IsSpelled qs
    → buf ≡ pre ++ (wires_bytes qs ++ rest)
    → question_loop (length qs) buf (length pre) ≡ placed (length pre) qs
unfolding question_loop
question_loop-append [] buf pre rest v e = refl
question_loop-append (q ∷ qs) buf pre rest (v, vs) e =
    let here = parse_question-append buf pre (wires_bytes qs ++ rest) q v (e ∙ simp append_assoc) in
    let ih = question_loop-append qs buf (pre ++ wire_bytes q) rest vs (e ∙ simp append_assoc) in
    rw (here, question_loop, ← length-append pre (wire_bytes q)) (rw ih)

-- A message with a 12-byte header, whose bytes 4 and 5 count the questions behind it, yields these
-- questions, in their order, with their types and with their names in the spelling of the message,
-- if each label has 1 to 63 ASCII characters and the class is IN.
pub extract_questions-wires_bytes :
    (header rest : Bytes) (qs : List ParsedQuestion)
    → length header ≡ 12
    → u16_at (header ++ (wires_bytes qs ++ rest)) 4 ≡ length qs
    → All IsSpelled qs
    → extract_questions (header ++ (wires_bytes qs ++ rest)) ≡ some (placed 12 qs)
unfolding extract_questions
extract_questions-wires_bytes header rest qs twelve count v =
    let buf = header ++ (wires_bytes qs ++ rest) in
    let loop : question_loop (length qs) buf 12 ≡ placed 12 qs =
      subst (λ k. question_loop (length qs) buf k ≡ placed k qs) twelve
        (question_loop-append qs buf header rest v refl) in
    ground (arith, loop, length-append header (wires_bytes qs ++ rest))

wires_bytes-lowered : (qs : List ParsedQuestion) → wires_bytes (map lowered qs) ≡ questions_bytes qs
wires_bytes-lowered [] = refl
wires_bytes-lowered (q ∷ qs) = ap (λ t. question_bytes q ++ t) (wires_bytes-lowered qs)

placed-lowered :
    (start : ℕ) (qs : List ParsedQuestion) → placed start (map lowered qs) ≡ reread start qs
placed-lowered start [] = refl
placed-lowered start (q ∷ qs) =
    ap
      (λ t.
        record {
          name = to_lower q.name;
          type = q.type;
          next_offset = start + length (question_bytes q);
        }
        ∷ t)
      (placed-lowered (start + length (question_bytes q)) qs)

lowered-IsSpelled : (qs : List ParsedQuestion) → All IsQuestion qs → All IsSpelled (map lowered qs)
lowered-IsSpelled [] v = tt
lowered-IsSpelled (q ∷ qs) (v, vs) = (v, lowered-IsSpelled qs vs)

-- Questions that were written, and so in lower case.
pub extract-questions_bytes :
    (header rest : Bytes) (qs : List ParsedQuestion)
    → length header ≡ 12
    → u16_at (header ++ (questions_bytes qs ++ rest)) 4 ≡ length qs
    → All IsQuestion qs
    → extract_questions (header ++ (questions_bytes qs ++ rest)) ≡ some (reread 12 qs)
extract-questions_bytes header rest qs twelve count v =
    subst (λ t. extract_questions (header ++ (t ++ rest)) ≡ some (reread 12 qs))
      (wires_bytes-lowered qs)
      (extract_questions-wires_bytes header rest (map lowered qs) twelve
          (rw (wires_bytes-lowered qs, length-map qs lowered) count) (lowered-IsSpelled qs v)
        ∙ ap some (placed-lowered 12 qs))
