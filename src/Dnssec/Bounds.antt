-- ===== src/Dnssec/Bounds.antt =====
-- The records of a response lie inside it, and their number is bounded by its length.
use zonzon.Base.{
  ℕ, some, zero, suc, ◌+◌, ◌-◌, ◌*◌, ◌<◌, ◌≤◌, ◌≡◌, refl, ap, ◌∙◌, inl, inr, true, ◌++◌, arith, leb,
  if◌then◌else◌, Bool-cases, length, drop, All, All-append, min, length-append, length-take,
  length-drop,
}
use mathlib.Core.Path.{subst}
use zonzon.Base.Bytes.{Bytes}
use zonzon.Wire.{
  DnsWireFormat, read_domain_name, read_cursor, name_loop, name_round, Cursor, stop, start_cursor,
  read_uint16, read_uint32,
}
use zonzon.Wire.Names.{read_domain_name_bounds}
use zonzon.Dnssec.{
  ParsedRecord, parse_domain_name, subarray, parse_record, parse_section, skip_questions,
  extract_records,
}
use zonzon.Dnssec.Validation.{all_records}

-- A record's data are the bytes behind its head, as many as it says or as there are.
abbrev pub InBuffer : Bytes → ParsedRecord → Type 0
InBuffer buf r =
    (r.offset + length r.rdata ≤ length buf)
    × (r.rdata ≡ subarray buf r.offset (r.offset + r.rdlength))

-- how far reading has come: at the end a last record may have been cut short
unfoldable reach : ℕ → ℕ → ℕ
reach n offset = if leb n offset then n + 9 else offset

reach-le : (n offset : ℕ) → reach n offset ≤ n + 9
unfolding reach
reach-le n offset = ground arith

reach_of_le : (n offset : ℕ) → 12 ≤ n → min n 12 ≤ offset → 12 ≤ reach n offset
unfolding reach
reach_of_le n offset h k = ground arith

-- A reader of `k` bytes stays in the buffer, and moves on by them or to the end.
record Reads (k : ℕ) (d e : DnsWireFormat) : Type 0 where
  same : e.buf ≡ d.buf
  inside : e.offset ≤ length d.buf
  moved : min (length d.buf) (d.offset + k) ≤ e.offset

read_uint16-Reads : (d : DnsWireFormat) → d.offset ≤ length d.buf → Reads 2 d (read_uint16 d).1
unfolding read_uint16
read_uint16-Reads d h = ground arith

read_uint32-Reads : (d : DnsWireFormat) → d.offset ≤ length d.buf → Reads 4 d (read_uint32 d).1
unfolding read_uint32
read_uint32-Reads d h = ground arith

read_domain_name-Reads :
    (d : DnsWireFormat) → d.offset ≤ length d.buf → Reads 0 d (read_domain_name d).1
read_domain_name-Reads d h =
    let (lo, hi, e) = read_domain_name_bounds d h in
    record { same = e; inside = hi; moved = omega arith }

Reads-then : (j k : ℕ) (d e f : DnsWireFormat) → Reads j d e → Reads k e f → Reads (j + k) d f
Reads-then j k d e f p q = record {
  same = q.same ∙ p.same;
  inside = omega (arith, ap length p.same, q.inside);
  moved = omega (arith, ap length p.same, p.moved, q.moved);
}

Reads-room : (k : ℕ) (d e : DnsWireFormat) → Reads k d e → e.offset ≤ length e.buf
Reads-room k d e p = omega (arith, ap length p.same, p.inside)

-- the decoder behind the head of a record
abbrev behind_head : DnsWireFormat → DnsWireFormat
behind_head d =
    (read_uint16 (read_uint32 (read_uint16 (read_uint16 (read_domain_name d).1).1).1).1).1

head-Reads : (d : DnsWireFormat) → d.offset ≤ length d.buf → Reads 10 d (behind_head d)
head-Reads d h =
    let d1 = (read_domain_name d).1 in
    let d2 = (read_uint16 d1).1 in
    let d3 = (read_uint16 d2).1 in
    let d4 = (read_uint32 d3).1 in
    let p1 = read_domain_name-Reads d h in
    let p2 = Reads-then 0 2 d d1 d2 p1 (read_uint16-Reads d1 (Reads-room 0 d d1 p1)) in
    let p3 = Reads-then 2 2 d d2 d3 p2 (read_uint16-Reads d2 (Reads-room 2 d d2 p2)) in
    let p4 = Reads-then 4 4 d d3 d4 p3 (read_uint32-Reads d3 (Reads-room 4 d d3 p3)) in
    Reads-then 8 2 d d4 (behind_head d) p4 (read_uint16-Reads d4 (Reads-room 8 d d4 p4))

parse_record_bounds :
    (d : DnsWireFormat)
    → d.offset < length d.buf
    → InBuffer d.buf (parse_record d).0
      × ((parse_record d).1.buf ≡ d.buf)
      × (reach (length d.buf) d.offset + 10 ≤ reach (length d.buf) (parse_record d).1.offset)
unfolding reach parse_record parse_domain_name
parse_record_bounds d h =
    let p = head-Reads d (omega arith) in
    let e = behind_head d in
    let n =
      (read_uint16 (read_uint32 (read_uint16 (read_uint16 (read_domain_name d).1).1).1).1).0 in
    (
      (
        rw p.same (
            omega (
              arith,
              p.inside,
              length-take (e.offset + n - e.offset) (drop e.offset d.buf),
              length-drop e.offset d.buf,
            )),
        ap (λ b. subarray b e.offset (e.offset + n)) p.same,
      ),
      p.same,
      ground (arith, p.moved, p.inside),
    )

parse_section_bounds :
    (n : ℕ) (d : DnsWireFormat)
    → All (InBuffer d.buf) (parse_section n d).0
      × ((parse_section n d).1.buf ≡ d.buf)
      × (reach (length d.buf) d.offset + 10 * length (parse_section n d).0
          ≤ reach (length d.buf) (parse_section n d).1.offset)
unfolding parse_section reach
parse_section_bounds zero d = (tt, refl, omega arith)
parse_section_bounds (suc n) d = elim (Bool-cases (leb (length d.buf) d.offset)) [
  | inl out ↦ rw out (tt, refl, ground arith)
  | inr in_ ↦
      let e = (parse_record d).1 in
      let (b, same, far) = parse_record_bounds d (ground arith) in
      let (bs, same', far') = parse_section_bounds n e in
      rw in_ ((b, rw same at bs), same' ∙ same, ground (arith, far, far', ap length same))
]

name_round_past :
    (buf : Bytes) (c : Cursor) → leb (length buf) c.current ≡ true → name_round buf c ≡ stop c
unfolding name_round
name_round_past buf c h = rw h refl

name_loop_past :
    (fuel : ℕ) (buf : Bytes) (c : Cursor)
    → leb (length buf) c.current ≡ true
    → name_loop (suc fuel) buf c ≡ some c
unfolding name_loop
name_loop_past fuel buf c h = rw (name_round_past buf c h, name_loop) refl

read_domain_name_past :
    (d : DnsWireFormat)
    → leb (length d.buf) d.offset ≡ true
    → (read_domain_name d).1.offset ≡ d.offset
unfolding read_domain_name read_cursor
read_domain_name_past d h = rw (name_loop_past _ d.buf (start_cursor d.offset) h) refl

read_domain_name_buf : (d : DnsWireFormat) → (read_domain_name d).1.buf ≡ d.buf
unfolding read_domain_name
read_domain_name_buf d = refl

read_domain_name-reach :
    (d : DnsWireFormat)
    → ((read_domain_name d).1.buf ≡ d.buf)
      × (reach (length d.buf) d.offset ≤ reach (length d.buf) ((read_domain_name d).1.offset + 4))
unfolding reach
read_domain_name-reach d = elim (Bool-cases (leb (length d.buf) d.offset)) [
  | inl past ↦ (read_domain_name_buf d, ground (arith, read_domain_name_past d past))
  | inr in_ ↦
      let p = read_domain_name-Reads d (ground arith) in (p.same, ground (arith, p.moved, p.inside))
]

skip_questions_bounds :
    (n : ℕ) (d : DnsWireFormat)
    → ((skip_questions n d).buf ≡ d.buf)
      × (reach (length d.buf) d.offset ≤ reach (length d.buf) (skip_questions n d).offset)
unfolding skip_questions
skip_questions_bounds zero d = (refl, omega arith)
skip_questions_bounds (suc n) d =
    let name = (read_domain_name d).1 in
    let next = record name { offset = name.offset + 4 } in
    let (same, far) = skip_questions_bounds n next in
    let (same', far') = read_domain_name-reach d in
    (same ∙ same', ground (arith, far, far', ap length same'))

-- A response with a header: all its records lie inside it, and whatever counts the header claims,
-- there are no more of them than one for each 10 bytes behind it, and one that is cut short.
pub extract_records_bounds :
    (buffer : Bytes)
    → 12 ≤ length buffer
    → All (InBuffer buffer) (all_records (extract_records buffer))
      × (10 * length (all_records (extract_records buffer)) + 12 ≤ length buffer + 9)
unfolding extract_records
extract_records_bounds buffer h =
    let d0 : DnsWireFormat = record { buf = buffer; offset = 4 } in
    let d1 = (read_uint16 d0).1 in
    let d2 = (read_uint16 d1).1 in
    let d3 = (read_uint16 d2).1 in
    let d4 = (read_uint16 d3).1 in
    let p1 = read_uint16-Reads d0 (omega arith) in
    let p2 = Reads-then 2 2 d0 d1 d2 p1 (read_uint16-Reads d1 (Reads-room 2 d0 d1 p1)) in
    let p3 = Reads-then 4 2 d0 d2 d3 p2 (read_uint16-Reads d2 (Reads-room 4 d0 d2 p2)) in
    let p4 = Reads-then 6 2 d0 d3 d4 p3 (read_uint16-Reads d3 (Reads-room 6 d0 d3 p3)) in
    let s0 = skip_questions (read_uint16 d0).0 d4 in
    let (e0, f0) = skip_questions_bounds (read_uint16 d0).0 d4 in
    let (b1, e1, f1) = parse_section_bounds (read_uint16 d1).0 s0 in
    let s1 = (parse_section (read_uint16 d1).0 s0).1 in
    let (b2, e2, f2) = parse_section_bounds (read_uint16 d2).0 s1 in
    let s2 = (parse_section (read_uint16 d2).0 s1).1 in
    let (b3, e3, f3) = parse_section_bounds (read_uint16 d3).0 s2 in
    let s3 = (parse_section (read_uint16 d3).0 s2).1 in
    let q0 : s0.buf ≡ buffer = e0 ∙ p4.same in
    let q1 : s1.buf ≡ buffer = e1 ∙ q0 in
    let q2 : s2.buf ≡ buffer = e2 ∙ q1 in
    let answers = (parse_section (read_uint16 d1).0 s0).0 in
    let authorities = (parse_section (read_uint16 d2).0 s1).0 in
    let additionals = (parse_section (read_uint16 d3).0 s2).0 in
    (
      All-append (InBuffer buffer) answers (authorities ++ additionals)
          (subst (λ b. All (InBuffer b) answers) q0 b1)
          (All-append (InBuffer buffer) authorities additionals
            (subst (λ b. All (InBuffer b) authorities) q1 b2)
            (subst (λ b. All (InBuffer b) additionals) q2 b3)),
      omega (
        arith,
        length-append answers (authorities ++ additionals),
        length-append authorities additionals,
        reach-le (length buffer) s3.offset,
        reach_of_le (length buffer) d4.offset h p4.moved,
        subst (λ b. reach (length b) d4.offset ≤ reach (length b) s0.offset) p4.same f0,
        subst (λ b. reach (length b) s0.offset + 10 * length answers ≤ reach (length b) s1.offset)
            q0 f1,
        subst
            (λ b. reach (length b) s1.offset + 10 * length authorities ≤ reach (length b) s2.offset)
            q1 f2,
        subst
            (λ b. reach (length b) s2.offset + 10 * length additionals ≤ reach (length b) s3.offset)
            q2 f3,
      ),
    )
