-- ===== src/Handler/Tcp/Frames.antt =====
-- Messages behind their lengths: what one message at the front of a buffer is, whatever follows.
use zonzon.Base.{
  ℕ, zero, suc, ◌+◌, ◌*◌, ◌/◌, ◌%◌, ◌<◌, ◌≤◌, ◌≡◌, refl, ap, inl, inr, false, List, [], ◌∷◌, ◌++◌,
  arith, ltb, ◌==◌, Bool-cases, length, take, drop, length-append, length-drop, take_of_length,
  drop_of_length,
}
use zonzon.Base.Bytes.{Bytes, be16}
use zonzon.Handler.Tcp.{Frame, incomplete, zero_length, frame, next_frame}

take-append : (n : ℕ) (xs ys : Bytes) → n ≤ length xs → take n (xs ++ ys) ≡ take n xs
take-append zero xs ys h = refl
take-append (suc n) [] ys h = absurd (omega arith)
take-append (suc n) (x ∷ xs) ys h = ap (◌∷◌ x) (take-append n xs ys (omega arith))

drop-append : (n : ℕ) (xs ys : Bytes) → n ≤ length xs → drop n (xs ++ ys) ≡ drop n xs ++ ys
drop-append zero xs ys h = refl
drop-append (suc n) [] ys h = absurd (omega arith)
drop-append (suc n) (x ∷ xs) ys h = drop-append n xs ys (omega arith)

-- more bytes change neither a whole message nor a length of 0
abbrev pub Extends : Bytes → Bytes → Frame → Type 0
Extends buffer more incomplete = Unit {0}
Extends buffer more zero_length = next_frame (buffer ++ more) ≡ zero_length
Extends buffer more (frame query rest) =
    (next_frame (buffer ++ more) ≡ frame query (rest ++ more)) × (length rest + 3 ≤ length buffer)

pub next_frame-Extends : (buffer more : Bytes) → Extends buffer more (next_frame buffer)
unfolding next_frame
next_frame-Extends [] more = tt
next_frame-Extends (x ∷ []) more = tt
next_frame-Extends (x ∷ y ∷ rest) more = elim (Bool-cases (x * 256 + y == 0)) [
  | inl none_ ↦ rw (none_, none_) refl
  | inr some_ ↦ elim (Bool-cases (ltb (2 + length rest) (2 + (x * 256 + y)))) [
    | inl short ↦ rw (some_, short) tt
    | inr long ↦
        let enough : x * 256 + y ≤ length rest = ground arith in
        let longer : ltb (2 + length (rest ++ more)) (2 + (x * 256 + y)) ≡ false =
          ground (arith, length-append rest more) in
        rw (some_, long)
          (
            rw
                (
                  some_,
                  longer,
                  take-append (x * 256 + y) rest more enough,
                  drop-append (x * 256 + y) rest more enough,
                )
                refl,
            ground (arith, length-drop (x * 256 + y) rest),
          )
  ]
]

-- the bytes of a message, and of messages one behind the other
abbrev pub frame_bytes : Bytes → Bytes
frame_bytes query = be16 (length query) ++ query

abbrev pub frames : List Bytes → Bytes
frames [] = []
frames (query ∷ queries) = frame_bytes query ++ frames queries

abbrev pub IsMessage : Bytes → Type 0
IsMessage query = (1 ≤ length query) × (length query < 65536)

pub next_frame-frame_bytes :
    (query rest : Bytes)
    → IsMessage query
    → next_frame (frame_bytes query ++ rest) ≡ frame query rest
unfolding next_frame
next_frame-frame_bytes query rest m =
    let size : length query / 256 * 256 + length query % 256 ≡ length query = omega arith in
    let positive : (length query == 0) ≡ false = ground (arith, m.0) in
    let whole : ltb (2 + length (query ++ rest)) (2 + length query) ≡ false =
      ground (arith, length-append query rest) in
    rw (size, positive, whole, take_of_length query rest, drop_of_length query rest) refl
