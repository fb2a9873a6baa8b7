-- ===== src/Wire/Encoding.antt =====
-- The writers of `DnsWireFormat` append: what they leave in front of the cursor is a byte string
-- that grows at its end, as long as the buffer has room.
use zonzon.Base.{
  Bool-cases, inl, inr, ℕ, ◌+◌, ◌≤◌, ◌<◌, ◌≡◌, refl, ap, sym, ◌∙◌, Option, some, List, [], ◌∷◌,
  ◌++◌, arith, append-nil, append_assoc, ◌>>=◌, length, drop, replicate, All, ◌==◌, if◌then◌else◌,
  length-append, length-drop, length-replicate, take_of_length,
}
use mathlib.Core.Path.{ap₂}
use zonzon.Base.Text.{Text, split, to_lower}
use zonzon.Base.Bytes.{Bytes, be16, be32, blit, utf8}
use zonzon.Wire.{
  DnsWireFormat, fresh, allocated, write_uint8, write_uint16, write_uint32, write_bytes,
  write_label, write_labels, write_domain_name, finish,
}

-- `out` has been written, and `room` is what follows it in the buffer.
pub record Holds (w : DnsWireFormat) (out room : Bytes) : Type 0 where
  pub content : w.buf ≡ out ++ room
  pub cursor : w.offset ≡ length out

abbrev pub Writer : Type 0
Writer = DnsWireFormat → Option DnsWireFormat

-- Where there is room for `d`, the writer succeeds and appends `d`.
abbrev pub Appends : Writer → Bytes → Type 0
Appends op d =
    (w : DnsWireFormat) (out room : Bytes)
    → Holds w out room
    → length d ≤ length room
    → (w' : DnsWireFormat) × (op w ≡ some w') × Holds w' (out ++ d) (drop (length d) room)

blit_front : (d room : Bytes) → length d ≤ length room → blit room 0 d ≡ d ++ drop (length d) room
blit_front [] [] h = refl
blit_front [] (b ∷ room) h = refl
blit_front (x ∷ d) [] h = absurd (omega arith)
blit_front (x ∷ d) (b ∷ room) h = ap (◌∷◌ x) (blit_front d room (omega arith))

blit_end :
    (out room d : Bytes)
    → length d ≤ length room
    → blit (out ++ room) (length out) d ≡ (out ++ d) ++ drop (length d) room
blit_end [] room d h = blit_front d room h
blit_end (b ∷ out) room d h = ap (◌∷◌ b) (blit_end out room d h)

pub Holds-blit :
    (w : DnsWireFormat) (out room d : Bytes)
    → Holds w out room
    → length d ≤ length room
    → Holds
        (record { buf = blit w.buf w.offset d; offset = w.offset + length d })
        (out ++ d)
        (drop (length d) room)
Holds-blit w out room d h k = record {
  content = rw (h.content, h.cursor) (blit_end out room d k);
  cursor = omega (arith, length-append out d, h.cursor);
}

pub Holds-room :
    (w : DnsWireFormat) (out room : Bytes)
    → Holds w out room
    → length w.buf ≡ w.offset + length room
Holds-room w out room h = omega (arith, ap length h.content, length-append out room, h.cursor)

pub write_bytes-Appends : (d : Bytes) → Appends (write_bytes d) d
unfolding write_bytes
write_bytes-Appends d w out room h k = (_, refl, Holds-blit w out room d h k)

pub write_uint8-Appends : (v : ℕ) → v < 256 → Appends (write_uint8 v) (v ∷ [])
unfolding write_uint8
write_uint8-Appends v p w out room h k =
    (_, ground (arith, Holds-room w out room h), Holds-blit w out room (v ∷ []) h k)

pub write_uint16-Appends : (v : ℕ) → v < 65536 → Appends (write_uint16 v) (be16 v)
unfolding write_uint16
write_uint16-Appends v p w out room h k =
    (_, ground (arith, Holds-room w out room h), Holds-blit w out room (be16 v) h k)

pub write_uint32-Appends : (v : ℕ) → v < 4294967296 → Appends (write_uint32 v) (be32 v)
unfolding write_uint32
write_uint32-Appends v p w out room h k =
    (_, ground (arith, Holds-room w out room h), Holds-blit w out room (be32 v) h k)

drop-append :
    (d e room : Bytes) → drop (length e) (drop (length d) room) ≡ drop (length (d ++ e)) room
drop-append [] e room = refl
drop-append (x ∷ d) [] [] = refl
drop-append (x ∷ d) (y ∷ e) [] = refl
drop-append (x ∷ d) e (b ∷ room) = drop-append d e room

pub Holds-join :
    (w : DnsWireFormat) (out d e room : Bytes)
    → Holds w ((out ++ d) ++ e) (drop (length e) (drop (length d) room))
    → Holds w (out ++ (d ++ e)) (drop (length (d ++ e)) room)
Holds-join w out d e room h = record {
  content = h.content ∙ ap₂ ◌++◌ (append_assoc out d e) (drop-append d e room);
  cursor = h.cursor ∙ ap length (append_assoc out d e);
}

-- One writer after another.
pub Appends-bind :
    (op₁ op₂ : Writer) (d₁ d₂ : Bytes)
    → Appends op₁ d₁
    → Appends op₂ d₂
    → Appends (λ w. op₁ w >>= op₂) (d₁ ++ d₂)
Appends-bind op₁ op₂ d₁ d₂ a₁ a₂ w out room h k =
    let (w₁, e₁, h₁) = a₁ w out room h (omega (arith, length-append d₁ d₂)) in
    let (w₂, e₂, h₂) =
      a₂ w₁ (out ++ d₁) (drop (length d₁) room) h₁
        (omega (arith, length-append d₁ d₂, length-drop (length d₁) room)) in
    (w₂, rw e₁ e₂, Holds-join w₂ out d₁ d₂ room h₂)

pub Appends-id : Appends some []
Appends-id w out room h k = (
  w,
  refl,
  record {
    content = h.content ∙ ap (λ t. t ++ room) (sym (append-nil out));
    cursor = h.cursor ∙ ap length (sym (append-nil out));
  },
)

-- The bytes of a label, of the labels in turn, and of a name.
abbrev pub label_bytes : Text → Bytes
label_bytes label = if length label == 0 then [] else length label ∷ utf8 label

abbrev pub labels_bytes : List Text → Bytes
labels_bytes [] = []
labels_bytes (l ∷ ls) = label_bytes l ++ labels_bytes ls

abbrev pub name_bytes : Text → Bytes
name_bytes name = labels_bytes (split b'.' (to_lower name)) ++ (0 ∷ [])

abbrev pub Short : Text → Type 0
Short label = length label < 256

write_label-Appends : (label : Text) → Short label → Appends (write_label label) (label_bytes label)
unfolding write_label
write_label-Appends label s = elim (Bool-cases (length label == 0)) [
  | inl empty ↦ rw empty Appends-id
  | inr other ↦ rw other (
      Appends-bind (write_uint8 (length label)) (write_bytes (utf8 label)) (length label ∷ [])
        (utf8 label) (write_uint8-Appends (length label) s) (write_bytes-Appends (utf8 label)))
]

write_labels-Appends : (ls : List Text) → All Short ls → Appends (write_labels ls) (labels_bytes ls)
unfolding write_labels
write_labels-Appends [] h = Appends-id
write_labels-Appends (l ∷ ls) h =
    Appends-bind (write_label l) (write_labels ls) (label_bytes l) (labels_bytes ls)
      (write_label-Appends l h.0) (write_labels-Appends ls h.1)

-- A name whose labels have fewer than 256 code units is appended label by label and closed by 0.
pub write_domain_name-Appends :
    (name : Text)
    → All Short (split b'.' (to_lower name))
    → Appends (write_domain_name name) (name_bytes name)
unfolding write_domain_name
write_domain_name-Appends name h =
    Appends-bind (write_labels labels) (write_uint8 0) (labels_bytes labels) (0 ∷ [])
      (write_labels-Appends labels h) (write_uint8-Appends 0 (omega arith))
  where
    labels : List Text
    labels = split b'.' (to_lower name)

pub fresh-Holds : Holds fresh [] (replicate allocated 0)
unfolding fresh
fresh-Holds = record { content = refl; cursor = refl }

pub finish-Holds : (w : DnsWireFormat) (out room : Bytes) → Holds w out room → finish w ≡ out
unfolding finish
finish-Holds w out room h = rw (h.content, h.cursor) (take_of_length out room)

-- A whole message: what the writer appends to a fresh buffer is what `finish` returns.
pub finish-Appends :
    (op : Writer) (d : Bytes)
    → Appends op d
    → length d ≤ allocated
    → (w : DnsWireFormat) × (op fresh ≡ some w) × (finish w ≡ d)
finish-Appends op d a h =
    let (w, e, k) =
      a fresh [] (replicate allocated 0) fresh-Holds
        (omega (arith, length-replicate {0} {A = ℕ} allocated 0)) in
    (w, e, finish-Holds w d _ k)
