-- ===== src/Dns/Cache/Lifetime.antt =====
-- `rewriteResponseTtl` on the messages that the server builds.
use zonzon.Base.{
  ℕ, zero, suc, ◌+◌, ◌≤◌, ◌<◌, ◌≡◌, refl, ap, sym, ◌∙◌, true, false, some, List, [], ◌∷◌, ◌++◌,
  arith, length, All, map, append_assoc, append-nil, length-append, ltb,
}
use zonzon.Base.Text.{Text, split, to_lower}
use zonzon.Base.Bytes.{Bytes, be16, be32, blit, byte_at, u16_at}
use zonzon.Types.{class_in}
use zonzon.Wire.Encoding.{label_bytes, labels_bytes, name_bytes}
use zonzon.Wire.RoundTrip.{IsLabel, not_pointer, label_bytes_lem}
use zonzon.Wire.Words.{byte_at-append, u16_at-append}
use zonzon.Dns.Question.{ParsedQuestion}
use zonzon.Dns.Question.RoundTrip.{IsQuestion, question_bytes, questions_bytes}
use zonzon.Dns.Packet.Message.{header_bytes}
use zonzon.Dns.Packet.Errors.{message}
use zonzon.Dns.Packet.Answers.{Answer, IsAnswer, answer_bytes, answers_bytes}
use zonzon.Dns.Cache.{
  ended, skip_name, skip_fuel, skip_question_section, skip_questions, ttl_loop,
  rewrite_response_ttl,
}

skip_name-labels :
    (ls : List Text) (fuel : ℕ) (buf pre rest : Bytes)
    → length ls < fuel
    → All IsLabel ls
    → buf ≡ pre ++ (labels_bytes ls ++ (0 ∷ rest))
    → skip_name fuel buf (length pre) ≡ ended (length pre + length (labels_bytes ls) + 1)
unfolding skip_name
skip_name-labels ls zero buf pre rest f v e = absurd (omega arith)
skip_name-labels [] (suc fuel) buf pre rest f v e =
    let byte : byte_at buf (length pre) ≡ 0 = rw e (byte_at-append pre rest 0 (length pre) refl) in
    ground (arith, ap length e, length-append pre (0 ∷ rest))
skip_name-labels (l ∷ ls) (suc fuel) buf pre rest f (v, vs) e =
    let spelt : label_bytes l ++ (labels_bytes ls ++ (0 ∷ rest))
        ≡ length l ∷ (l ++ (labels_bytes ls ++ (0 ∷ rest))) =
      rw (label_bytes_lem l v) refl in
    let e₁ : buf ≡ pre ++ (length l ∷ (l ++ (labels_bytes ls ++ (0 ∷ rest)))) =
      e ∙ ap (λ t. pre ++ t) (append_assoc (label_bytes l) (labels_bytes ls) (0 ∷ rest) ∙ spelt) in
    let byte : byte_at buf (length pre) ≡ length l =
      rw e₁ (byte_at-append pre _ (length l) (length pre) refl) in
    let ih =
      skip_name-labels ls fuel buf (pre ++ (length l ∷ l)) rest (omega (arith, f)) vs
        (e₁ ∙ simp append_assoc) in
    let here : length (pre ++ (length l ∷ l)) ≡ length pre + 1 + length l =
      omega (arith, length-append pre (length l ∷ l)) in
    ground (
      arith,
      rw here at ih,
      not_pointer (length l) v.few,
      v.some_units,
      ap length e₁,
      length-append pre (length l ∷ (l ++ (labels_bytes ls ++ (0 ∷ rest)))),
      length-append l (labels_bytes ls ++ (0 ∷ rest)),
      length-append (label_bytes l) (labels_bytes ls),
      ap length (label_bytes_lem l v),
    )

blit-append : (p q d : Bytes) (i k : ℕ) → k ≡ length p + i → blit (p ++ q) k d ≡ p ++ blit q i d
blit-append [] q d i k e = rw e (ap (λ j. blit q j d) (omega arith))
blit-append (x ∷ p) q d i zero e = absurd (omega arith)
blit-append (x ∷ p) q d i (suc k) e = ap (◌∷◌ x) (blit-append p q d i k (omega arith))

abbrev pub with_ttl : ℕ → Answer → Answer
with_ttl ttl a = record a { ttl = ttl }

regroup : (p a r post : Bytes) → p ++ ((a ++ r) ++ post) ≡ (p ++ a) ++ (r ++ post)
regroup p a r post = simp append_assoc

ap₃ :
    {D : Type 0} (f : Bytes → ℕ → Bytes → D) {b b' : Bytes} {n n' : ℕ} {c c' : Bytes}
    → b ≡ b'
    → n ≡ n'
    → c ≡ c'
    → f b n c ≡ f b' n' c'
ap₃ f p q r = rw (p, q, r) refl

ttl_loop-answers :
    (answers : List Answer) (ttl : ℕ) (pre pre' post : Bytes)
    → length pre ≡ length pre'
    → ttl < 4294967296
    → All IsAnswer answers
    → ttl_loop
        (length answers)
        ttl
        (pre ++ (answers_bytes answers ++ post))
        (length pre)
        (pre' ++ (answers_bytes answers ++ post))
      ≡ some (pre' ++ (answers_bytes (map (with_ttl ttl) answers) ++ post))
unfolding ttl_loop
ttl_loop-answers [] ttl pre pre' post same t v = refl
ttl_loop-answers (a ∷ rest) ttl pre pre' post same t (v, vs) =
    let more = answers_bytes rest ++ post in
    let response = pre ++ ((answer_bytes a ++ answers_bytes rest) ++ post) in
    let b = with_ttl ttl a in
    let ih =
      ttl_loop-answers rest ttl (pre ++ answer_bytes a) (pre' ++ answer_bytes b) post
        (omega
          (arith, same, length-append pre (answer_bytes a), length-append pre' (answer_bytes b)))
        t vs in
    let ten = 0xc0 ∷ 0x0c ∷ (be16 a.type ++ (be16 a.dclass ++ be32 a.ttl)) in
    let tail = (a.rdata ++ answers_bytes rest) ++ post in
    let at : length pre + 10 ≡ length (pre ++ ten) = omega (arith, length-append pre ten) in
    let size : u16_at response (length pre + 10) ≡ length a.rdata =
      ap (λ t. u16_at t (length pre + 10))
        (sym (append_assoc pre ten (be16 (length a.rdata) ++ tail)))
      ∙ u16_at-append (pre ++ ten) tail (length a.rdata) (length pre + 10) at in
    let written : blit (pre' ++ ((answer_bytes a ++ answers_bytes rest) ++ post)) (length pre + 6)
          (be32 ttl)
        ≡ (pre' ++ answer_bytes b) ++ more =
      blit-append pre' ((answer_bytes a ++ answers_bytes rest) ++ post) (be32 ttl) 6
        (length pre + 6) (omega (arith, same))
      ∙ regroup pre' (answer_bytes b) (answers_bytes rest) post in
    let next : length pre + 12 + u16_at response (length pre + 10)
        ≡ length (pre ++ answer_bytes a) =
      omega (arith, size, length-append pre (answer_bytes a)) in
    let loop : ttl_loop (length rest) ttl response
          (length pre + 12 + u16_at response (length pre + 10))
          (blit (pre' ++ ((answer_bytes a ++ answers_bytes rest) ++ post)) (length pre + 6)
            (be32 ttl))
        ≡ some (pre' ++ ((answer_bytes b ++ answers_bytes (map (with_ttl ttl) rest)) ++ post)) =
      ap₃ (ttl_loop (length rest) ttl) (regroup pre (answer_bytes a) (answers_bytes rest) post) next
        written
      ∙ (ih
          ∙ ap some (
              sym
                (regroup pre' (answer_bytes b) (answers_bytes (map (with_ttl ttl) rest)) post))) in
    let inside : ltb (length response) (length pre + 12) ≡ false =
      ground (arith, length-append pre ((answer_bytes a ++ answers_bytes rest) ++ post)) in
    let word : ltb ttl 4294967296 ≡ true = ground arith in rw (inside, word) loop

labels_count : (ls : List Text) → All IsLabel ls → length ls ≤ length (labels_bytes ls)
labels_count [] v = omega arith
labels_count (l ∷ ls) (v, vs) = omega (
  arith,
  labels_count ls vs,
  length-append (label_bytes l) (labels_bytes ls),
  ap length (label_bytes_lem l v),
)

skip_question :
    (q : ParsedQuestion) (buf pre rest : Bytes)
    → IsQuestion q
    → buf ≡ pre ++ (question_bytes q ++ rest)
    → skip_question_section buf (length pre) ≡ length pre + length (question_bytes q)
unfolding skip_question_section
skip_question q buf pre rest v e =
    let ls = split b'.' (to_lower q.name) in
    let words = be16 q.type ++ be16 class_in in
    let e₁ : buf ≡ pre ++ (labels_bytes ls ++ (0 ∷ (words ++ rest))) = e ∙ simp append_assoc in
    let total = length-append pre (labels_bytes ls ++ (0 ∷ (words ++ rest))) in
    let inner = length-append (labels_bytes ls) (0 ∷ (words ++ rest)) in
    let name = length-append (labels_bytes ls) (0 ∷ []) in
    let whole = length-append (name_bytes q.name) words in
    let named =
      skip_name-labels ls (skip_fuel buf) buf pre _
        (omega (arith, labels_count ls v, ap length e₁, total, inner)) v e₁ in
    rw named (ground (arith, ap length e₁, total, inner, name, whole))

skip_questions-questions :
    (qs : List ParsedQuestion) (buf pre rest : Bytes)
    → All IsQuestion qs
    → buf ≡ pre ++ (questions_bytes qs ++ rest)
    → skip_questions (length qs) buf (length pre) ≡ length pre + length (questions_bytes qs)
unfolding skip_questions
skip_questions-questions [] buf pre rest v e = omega arith
skip_questions-questions (q ∷ qs) buf pre rest (v, vs) e =
    let one = skip_question q buf pre (questions_bytes qs ++ rest) v (e ∙ simp append_assoc) in
    let at = length-append pre (question_bytes q) in
    let ih =
      skip_questions-questions qs buf (pre ++ question_bytes q) rest vs (e ∙ simp append_assoc) in
    let whole = length-append (name_bytes q.name) (be16 q.type ++ be16 class_in) in
    rw one
      (ground (arith, rw at at ih, whole, length-append (question_bytes q) (questions_bytes qs)))

-- On a message with a header, questions and answers as the server builds them, the rewriting
-- changes the TTL of every answer to the new one and nothing else.
pub rewrite_response_ttl-message :
    (id flags ttl : ℕ) (qs : List ParsedQuestion) (answers : List Answer)
    → length qs < 65536
    → length answers < 65536
    → ttl < 4294967296
    → All IsQuestion qs
    → All IsAnswer answers
    → rewrite_response_ttl (message id flags (length answers) qs ++ answers_bytes answers) ttl
      ≡ some (message id flags (length answers) qs ++ answers_bytes (map (with_ttl ttl) answers))
unfolding rewrite_response_ttl
rewrite_response_ttl-message id flags ttl qs answers few some_answers t v w =
    let header = header_bytes id flags (length qs) (length answers) in
    let head = message id flags (length answers) qs in
    let response = head ++ answers_bytes answers in
    let skipped = skip_questions-questions qs response header (answers_bytes answers) v refl in
    let loop = ttl_loop-answers answers ttl head head [] refl t w in
    let questions : u16_at response 4 ≡ length qs = omega arith in
    let counted : u16_at response 6 ≡ length answers = omega arith in
    let at : skip_questions (length qs) response 12 ≡ length head = skipped ∙ omega arith in
    let long : ltb (length response) 12 ≡ false = ground arith in
    rw (long, questions, counted, at)
      (rw
        (
          append-nil (answers_bytes answers),
          append-nil (answers_bytes (map (with_ttl ttl) answers)),
        )
        at loop)
