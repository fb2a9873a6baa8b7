-- ===== src/Wire/RoundTrip.antt =====
-- A name that `writeDomainName` has put into a message is read back by `readDomainName`.
use mathlib.Core.Path.{subst}
use zonzon.Base.{
  some-eq-some, ℕ, zero, suc, ◌+◌, ◌≤◌, ◌<◌, ◌≡◌, refl, sym, ap, ◌∙◌, none, some, List, [], ◌∷◌,
  ◌++◌, false, arith, append-nil, append_assoc, length, take, drop, All, get_or_at, lt→leb_false,
  length-append, length-take, length-drop, take_append_drop, take_of_length, drop_of_length,
}
use zonzon.Base.Bits.{bit_and-high_mask}
use zonzon.Base.Text.{Text, split, join, to_lower, join-split}
use zonzon.Base.Bytes.{Bytes, byte_at, IsAscii, utf8_ascii, decode_ascii}
use zonzon.Wire.{
  DnsWireFormat, Cursor, stop, again, take_label, name_round, name_loop, is_pointer, start_cursor,
  name_fuel, read_cursor, read_domain_name, write_domain_name,
}
use zonzon.Wire.Encoding.{
  label_bytes, labels_bytes, name_bytes, Short, Holds, write_domain_name-Appends,
}
use zonzon.Wire.Names.{read_cursor_total}

-- A label that the wire format can carry: 1 to 63 ASCII characters.
pub record IsLabel (label : Text) : Type 0 where
  pub some_units : 1 ≤ length label
  pub few : length label ≤ 63
  pub ascii : IsAscii label

pub not_pointer : (len : ℕ) → len ≤ 63 → is_pointer len ≡ false
unfolding is_pointer
not_pointer len h = ground (arith, bit_and-high_mask 6 8 len (omega arith) (omega arith))

pub label_bytes_lem : (l : Text) → IsLabel l → label_bytes l ≡ length l ∷ l
label_bytes_lem l v = ground (arith, utf8_ascii l v.ascii)

-- The round at a label: the label is taken, and the cursor stands behind it.
round_label :
    (buf : Bytes) (l : Text) (c : Cursor)
    → IsLabel l
    → byte_at buf c.current ≡ length l
    → c.current + 1 + length l ≤ length buf
    → take (length l) (drop (c.current + 1) buf) ≡ l
    → name_round buf c
      ≡ again (record c { labels = c.labels ++ (l ∷ []); current = c.current + 1 + length l })
unfolding name_round take_label
round_label buf l c v byte room slice =
    let plain = not_pointer (length l) v.few in
    rw byte (
      simp (slice, decode_ascii l v.ascii, plain, lt→leb_false (length buf) c.current (omega arith))
        (ground arith))

round_end :
    (buf : Bytes) (c : Cursor)
    → byte_at buf c.current ≡ 0
    → c.current < length buf
    → name_round buf c ≡ stop (record c { current = c.current + 1 })
unfolding name_round
round_end buf c byte inside = ground arith

-- What stands at the cursor, in a buffer that is split there.
module _ (pre tail : Bytes) (x : ℕ) where
  byte_here : (i : ℕ) → i ≡ length pre → byte_at (pre ++ (x ∷ tail)) i ≡ x
  byte_here i at = rw at (get_or_at pre tail x 0)

  drop_here : (i : ℕ) → i ≡ length pre → drop (i + 1) (pre ++ (x ∷ tail)) ≡ tail
  drop_here i at =
      let e : i + 1 ≡ length (pre ++ (x ∷ [])) = omega (arith, length-append pre (x ∷ [])) in
      rw (e, ← append_assoc pre (x ∷ []) tail) (drop_of_length (pre ++ (x ∷ [])) tail)

regroup : (pre a b rest : Bytes) → pre ++ ((a ++ b) ++ rest) ≡ (pre ++ a) ++ (b ++ rest)
regroup pre a b rest = simp append_assoc

-- The loop over the labels of a name, from the first of them to the closing 0.
name_loop-labels :
    (ls : List Text) (fuel : ℕ) (buf pre rest : Bytes) (c : Cursor)
    → length ls < fuel
    → All IsLabel ls
    → buf ≡ pre ++ (labels_bytes ls ++ (0 ∷ rest))
    → c.current ≡ length pre
    → name_loop fuel buf c
      ≡ some
          (record c { labels = c.labels ++ ls; current = c.current + length (labels_bytes ls) + 1 })
unfolding name_loop
name_loop-labels ls zero buf pre rest c f v e at = absurd (omega arith)
name_loop-labels [] (suc fuel) buf pre rest c f v e at =
    let r =
      round_end buf c (rw e (byte_here pre rest 0 c.current at))
        (omega (arith, ap length e, length-append pre (0 ∷ rest))) in
    rw (r, name_loop) (ground (arith, append-nil c.labels))
name_loop-labels (l ∷ ls) (suc fuel) buf pre rest c f (v, vs) e at =
    let b = label_bytes_lem l v in
    let tail = labels_bytes ls ++ (0 ∷ rest) in
    let e' : buf ≡ pre ++ (length l ∷ (l ++ tail)) =
      e ∙ ap (λ t. pre ++ ((t ++ labels_bytes ls) ++ (0 ∷ rest))) b ∙ (simp append_assoc) in
    let next = record c { labels = c.labels ++ (l ∷ []); current = c.current + 1 + length l } in
    let r =
      round_label buf l c v (rw e' (byte_here pre (l ++ tail) (length l) c.current at))
        (omega
          (arith, ap length e', length-append pre (length l ∷ (l ++ tail)), length-append l tail))
        (rw (e', drop_here pre (l ++ tail) (length l) c.current at) (take_of_length l tail)) in
    let ih =
      name_loop-labels ls fuel buf (pre ++ label_bytes l) rest next (omega arith) vs
        (e ∙ regroup pre (label_bytes l) (labels_bytes ls) (0 ∷ rest))
        (omega (arith, length-append pre (label_bytes l), ap length b)) in
    rw (r, name_loop)
      (ih
        ∙ ground (
          arith,
          append_assoc c.labels (l ∷ []) ls,
          length-append (label_bytes l) (labels_bytes ls),
          ap length b,
        ))

labels_count : (ls : List Text) → All IsLabel ls → length ls ≤ length (labels_bytes ls)
labels_count [] v = omega arith
labels_count (l ∷ ls) (v, vs) = omega (
  arith,
  labels_count ls vs,
  length-append (label_bytes l) (labels_bytes ls),
  ap length (label_bytes_lem l v),
)

-- Reading at the start of a name that stands anywhere in a buffer.
module _ (ls : List Text) (buf pre rest : Bytes) (v : All IsLabel ls)
    (e : buf ≡ pre ++ ((labels_bytes ls ++ (0 ∷ [])) ++ rest)) where
  read_cursor-labels : read_cursor (record { buf = buf; offset = length pre }) ≡ record {
    labels = ls;
    jumps = 0;
    current = length pre + length (labels_bytes ls) + 1;
    saved = none;
  }
  read_cursor-labels =
      let whole : buf ≡ pre ++ (labels_bytes ls ++ (0 ∷ rest)) = e ∙ simp append_assoc in
      let w : DnsWireFormat = record { buf = buf; offset = length pre } in
      let enough : length ls < name_fuel buf = omega (
        arith,
        labels_count ls v,
        ap length whole,
        length-append pre (labels_bytes ls ++ (0 ∷ rest)),
        length-append (labels_bytes ls) (0 ∷ rest),
      ) in
      let run =
        name_loop-labels ls (name_fuel buf) buf pre rest (start_cursor (length pre)) enough v whole
          refl in
      some-eq-some (sym (read_cursor_total w) ∙ run)

  pub read_labels : read_domain_name (record { buf = buf; offset = length pre }) ≡ (
    join b'.' ls,
    record { buf = buf; offset = length pre + length (labels_bytes ls ++ (0 ∷ [])) },
  )
  unfolding read_domain_name
  read_labels = rw read_cursor-labels (ground (arith, length-append (labels_bytes ls) (0 ∷ [])))

-- The bytes of a name are read back in lower case.
pub read-name_bytes :
    (name : Text) (buf pre rest : Bytes)
    → All IsLabel (split b'.' (to_lower name))
    → buf ≡ pre ++ (name_bytes name ++ rest)
    → read_domain_name (record { buf = buf; offset = length pre })
      ≡ (to_lower name, record { buf = buf; offset = length pre + length (name_bytes name) })
read-name_bytes name buf pre rest v e =
    read_labels (split b'.' (to_lower name)) buf pre rest v e
    ∙ ap (λ (t : Text). (t, after)) (join-split b'.' (to_lower name))
  where
    after : DnsWireFormat
    after = record { buf = buf; offset = length pre + length (name_bytes name) }

labels-Short : (ls : List Text) → All IsLabel ls → All Short ls
labels-Short [] v = tt
labels-Short (l ∷ ls) (v, vs) = (omega (arith, v.few), labels-Short ls vs)

cut :
    (w : DnsWireFormat)
    → w.offset ≤ length w.buf
    → Holds w (take w.offset w.buf) (drop w.offset w.buf)
cut w h = record {
  content = sym (take_append_drop w.offset w.buf);
  cursor = omega (arith, length-take w.offset w.buf);
}

read_behind :
    (name : Text) (w' : DnsWireFormat) (out rest : Bytes) (start : ℕ)
    → All IsLabel (split b'.' (to_lower name))
    → length out ≡ start
    → w'.buf ≡ out ++ (name_bytes name ++ rest)
    → start + length (name_bytes name) ≡ w'.offset
    → read_domain_name (record { buf = w'.buf; offset = start }) ≡ (to_lower name, w')
read_behind name w' out rest start v at content stands =
    subst
      (λ k.
        read_domain_name (record { buf = w'.buf; offset = k })
        ≡ (to_lower name, record { buf = w'.buf; offset = k + length (name_bytes name) }))
      at (read-name_bytes name w'.buf out rest v content)
    ∙ ap (λ k. (to_lower name, record w' { offset = k })) stands

-- Where there is room for a name whose labels have 1 to 63 ASCII characters each, it is written,
-- and a reader that stands where the writer stood reads it back in lower case and comes to stand
-- where the writer stands.
pub read-write_domain_name :
    (name : Text) (w : DnsWireFormat)
    → All IsLabel (split b'.' (to_lower name))
    → w.offset + length (name_bytes name) ≤ length w.buf
    → (w' : DnsWireFormat) × (write_domain_name name w ≡ some w')
      × (read_domain_name (record { buf = w'.buf; offset = w.offset }) ≡ (to_lower name, w'))
read-write_domain_name name w v room =
    let out = take w.offset w.buf in
    let (w', e, h) =
      write_domain_name-Appends name (labels-Short (split b'.' (to_lower name)) v) w out
        (drop w.offset w.buf) (cut w (omega (arith, room)))
        (omega (arith, length-drop w.offset w.buf, room)) in
    let at : length out ≡ w.offset = omega (arith, length-take w.offset w.buf, room) in
    let behind = drop (length (name_bytes name)) (drop w.offset w.buf) in
    (
      w',
      e,
      read_behind name w' out behind w.offset v at
          (h.content ∙ append_assoc out (name_bytes name) behind)
          (omega (arith, at, h.cursor, length-append out (name_bytes name))),
    )
