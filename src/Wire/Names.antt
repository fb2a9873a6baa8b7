-- ===== src/Wire/Names.antt =====
-- `readDomainName`: the loop ends, stays in the buffer and does not move back.
use zonzon.Base.{
  ℕ, zero, suc, ◌+◌, ◌-◌, ◌*◌, ◌≤◌, ◌<◌, ◌≡◌, refl, ap, some, arith, length, inl, inr, Bool-cases,
  leb, ltb,
}
use zonzon.Base.Bytes.{Bytes, byte_at}
use zonzon.Wire.{
  DnsWireFormat, Cursor, Round, stop, again, max_jumps, follow, take_label, name_round, name_loop,
  start_cursor, name_fuel, end_offset, read_cursor, read_domain_name,
}

-- What bounds the rounds still to come.
abbrev pub name_measure : Bytes → Cursor → ℕ
name_measure buf c = (6 - c.jumps) * (length buf + 1) + (length buf - c.current)

-- What a round leaves: few jumps, and less to do.
abbrev Decreases : Bytes → ℕ → Round → Type 0
Decreases buf m (stop c) = Unit
Decreases buf m (again c) = (c.jumps ≤ 5) × (name_measure buf c < m)

module _ (buf : Bytes) (m len : ℕ) (c : Cursor) (below : name_measure buf c < m) where
  follow-Decreases : Decreases buf m (follow buf len c)
  unfolding follow
  follow-Decreases = elim (Bool-cases (ltb max_jumps (c.jumps + 1))) [
    | inl far ↦ rw far tt
    | inr near ↦
        let e : 6 - c.jumps ≡ 6 - (c.jumps + 1) + 1 = ground arith in
        ground (arith, ap (λ (t : ℕ). t * (length buf + 1)) e)
  ]

  take_label-Decreases : c.jumps ≤ 5 → Decreases buf m (take_label buf len c)
  unfolding take_label
  take_label-Decreases j = ground arith

name_round-Decreases :
    (buf : Bytes) (c : Cursor) → c.jumps ≤ 5 → Decreases buf (name_measure buf c) (name_round buf c)
unfolding name_round
name_round-Decreases buf c j = elim (Bool-cases (leb (length buf) c.current)) [
  | inl out ↦ rw out tt
  | inr inside ↦
      let next = record c { current = c.current + 1 } in
      let m = name_measure buf c in
      let len = byte_at buf c.current in
      let below : name_measure buf next < m = ground arith in
      ground
        (arith, follow-Decreases buf m len next below, take_label-Decreases buf m len next below j)
]

-- With more fuel than the measure the loop comes to its end.
name_loop_total :
    (fuel : ℕ) (buf : Bytes) (c : Cursor)
    → c.jumps ≤ 5
    → name_measure buf c < fuel
    → (c' : Cursor) × (name_loop fuel buf c ≡ some c')
unfolding name_loop
name_loop_total zero buf c j h = absurd (omega arith)
name_loop_total (suc fuel) buf c j h =
    go (name_round buf c) refl (name_round-Decreases buf c j)
      (λ c' j' h'. name_loop_total fuel buf c' j' h')
  where
    go :
        (r : Round)
        → name_round buf c ≡ r
        → Decreases buf (name_measure buf c) r
        → ((c' : Cursor)
            → c'.jumps ≤ 5
            → name_measure buf c' < fuel
            → (d : Cursor) × (name_loop fuel buf c' ≡ some d))
        → (d : Cursor) × (name_loop (suc fuel) buf c ≡ some d)
    go (stop c') e d ih = (c', rw (e, name_loop))
    go (again c') e d ih = rw (e, name_loop) (ih c' d.0 (omega arith))

-- The fuel of `read_cursor` is never used up: the result is that of the loop.
pub read_cursor_total :
    (w : DnsWireFormat)
    → name_loop (name_fuel w.buf) w.buf (start_cursor w.offset) ≡ some (read_cursor w)
unfolding read_cursor
read_cursor_total w =
    let (c, e) =
      name_loop_total (name_fuel w.buf) w.buf (start_cursor w.offset) (omega arith) (omega arith) in
    rw e

-- Where the cursor will stand stays between the start and the end of the buffer.
abbrev Within : Bytes → ℕ → Cursor → Type 0
Within buf start c = (start ≤ end_offset c) × (end_offset c ≤ length buf)

abbrev RoundWithin : Bytes → ℕ → Round → Type 0
RoundWithin buf start (stop c) = Within buf start c
RoundWithin buf start (again c) = Within buf start c

module _ (buf : Bytes) (start len : ℕ) (c : Cursor) (w : Within buf start c) where
  follow-Within : RoundWithin buf start (follow buf len c)
  unfolding follow
  follow-Within = ground arith

  take_label-Within : RoundWithin buf start (take_label buf len c)
  unfolding take_label
  take_label-Within = ground arith

name_round-Within :
    (buf : Bytes) (start : ℕ) (c : Cursor)
    → Within buf start c
    → RoundWithin buf start (name_round buf c)
unfolding name_round
name_round-Within buf start c w =
    let next = record c { current = c.current + 1 } in
    let len = byte_at buf c.current in
    elim (Bool-cases (leb (length buf) c.current)) [
      | inl out ↦ rw out w
      | inr inside ↦
          let w' : Within buf start next = ground arith in
          ground
            (arith, follow-Within buf start len next w', take_label-Within buf start len next w')
    ]

name_loop-Within :
    (fuel : ℕ) (buf : Bytes) (start : ℕ) (c d : Cursor)
    → Within buf start c
    → name_loop fuel buf c ≡ some d
    → Within buf start d
unfolding name_loop
name_loop-Within zero buf start c d w e = cc
name_loop-Within (suc fuel) buf start c d w e =
    go (name_round buf c) refl (name_round-Within buf start c w)
      (λ c' w' e'. name_loop-Within fuel buf start c' d w' e')
  where
    go :
        (r : Round)
        → name_round buf c ≡ r
        → RoundWithin buf start r
        → ((c' : Cursor)
            → Within buf start c'
            → name_loop fuel buf c' ≡ some d
            → Within buf start d)
        → Within buf start d
    go (stop c') q w' ih = ground arith
    go (again c') q w' ih = ih c' w' (rw (q, name_loop) at e)

-- Reading a name moves the cursor forwards, never out of the buffer, and changes no byte.
pub read_domain_name_bounds :
    (w : DnsWireFormat)
    → w.offset ≤ length w.buf
    → (w.offset ≤ (read_domain_name w).1.offset)
      × ((read_domain_name w).1.offset ≤ length w.buf)
      × ((read_domain_name w).1.buf ≡ w.buf)
unfolding read_domain_name
read_domain_name_bounds w h =
    let (lo, hi) =
      name_loop-Within (name_fuel w.buf) w.buf w.offset (start_cursor w.offset) (read_cursor w)
        (omega arith) (read_cursor_total w) in
    (lo, hi, refl)
