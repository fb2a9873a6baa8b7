-- ===== src/Sni/Extensions.antt =====
-- The loop of `extractSNI` over the extensions of a ClientHello.
use zonzon.Base.{
  ℕ, zero, suc, ◌+◌, ◌≤◌, ◌<◌, ◌≡◌, ◌≢◌, ◌∙◌, refl, sym, ap, true, false, some, List, [], ◌∷◌, ◌++◌,
  arith, ltb, leb, ◌==◌, length, drop, All, length-append, append_assoc, take_of_length,
  drop_of_length,
}
use zonzon.Base.Bytes.{Bytes, byte_at, u16_at, be16, utf8_text}
use zonzon.Wire.Words.{u16_at-append, u16_at-after, byte_at-after}
use zonzon.Sni.{read_u16, host_name, extension_loop}

pub record Extension : Type 0 where
  pub type : ℕ
  pub body : Bytes

abbrev pub extension_bytes : Extension → Bytes
extension_bytes x = be16 x.type ++ (be16 (length x.body) ++ x.body)

abbrev pub extensions_bytes : List Extension → Bytes
extensions_bytes [] = []
extensions_bytes (x ∷ rest) = extension_bytes x ++ extensions_bytes rest

-- Another extension than the server's name.
pub record IsOther (x : Extension) : Type 0 where
  pub other : x.type ≢ 0
  pub word : x.type < 65536
  pub short : length x.body < 65536

-- The server name extension with one host name.
abbrev pub name_extension : Bytes → Bytes
name_extension name =
    be16 0
    ++ (be16 (length name + 5) ++ (be16 (length name + 3) ++ (0 ∷ (be16 (length name) ++ name))))

host_name-append :
    (buf pre name rest : Bytes)
    → buf ≡ pre ++ (be16 (length name) ++ (name ++ rest))
    → host_name buf (length pre) ≡ some (utf8_text name)
unfolding host_name read_u16
host_name-append buf pre name rest e =
    let n = length name in
    let total = length-append pre (be16 n ++ (name ++ rest)) in
    let inner = length-append name rest in
    let value : u16_at buf (length pre) ≡ n =
      rw e (u16_at-append pre (name ++ rest) n (length pre) refl) in
    let first : ltb (length buf) (length pre + 2) ≡ false = ground (arith, ap length e, total) in
    let at : length pre + 2 ≡ length (pre ++ be16 n) = omega (arith, length-append pre (be16 n)) in
    let behind : drop (length pre + 2) buf ≡ name ++ rest =
      rw (e, ← append_assoc pre (be16 n) (name ++ rest), at)
        (drop_of_length (pre ++ be16 n) (name ++ rest)) in
    let whole : ltb (length buf) (length pre + 2 + n) ≡ false =
      ground (arith, ap length e, total, inner) in
    rw (first, value, whole, behind, take_of_length name rest) refl

loop-name :
    (n : ℕ) (buf pre name rest : Bytes) (end : ℕ)
    → length name < 65536
    → length pre < end
    → buf ≡ pre ++ (name_extension name ++ rest)
    → extension_loop (suc n) buf (length pre) end ≡ some (utf8_text name)
unfolding extension_loop
loop-name n buf pre name rest end short inside_ e =
    let k = length name in
    let tail = be16 k ++ (name ++ rest) in
    let total : length buf ≡ length pre + (9 + length (name ++ rest)) =
      ap length e ∙ (length-append pre (name_extension name ++ rest) ∙ omega arith) in
    let type : u16_at buf (length pre) ≡ 0 =
      rw e (u16_at-append pre (be16 (k + 5) ++ (be16 (k + 3) ++ (0 ∷ tail))) 0 (length pre) refl) in
    let kind : byte_at buf (length pre + 4 + 2) ≡ 0 = rw e (
      byte_at-after pre (be16 0 ++ (be16 (k + 5) ++ be16 (k + 3))) tail 0 (length pre + 4 + 2)
        (omega arith)) in
    let before = pre ++ (be16 0 ++ (be16 (k + 5) ++ (be16 (k + 3) ++ (0 ∷ [])))) in
    let at : length pre + 4 + 3 ≡ length before =
      omega (arith, length-append pre (be16 0 ++ (be16 (k + 5) ++ (be16 (k + 3) ++ (0 ∷ []))))) in
    let named : host_name buf (length pre + 4 + 3) ≡ some (utf8_text name) =
      rw at (host_name-append buf before name rest (e ∙ sym (append_assoc pre _ tail))) in
    let going : ltb (length pre) end ≡ true = ground arith in
    let room : leb (length pre + 4) (length buf) ≡ true = ground (arith, total) in
    let within : leb (length buf) (length pre + 4 + 2) ≡ false = ground (arith, total) in
    rw (going, room, type, within, kind) named

loop-step :
    (n : ℕ) (buf : Bytes) (offset end : ℕ)
    → offset < end
    → offset + 4 ≤ length buf
    → u16_at buf offset ≢ 0
    → extension_loop (suc n) buf offset end
      ≡ extension_loop n buf (offset + 4 + u16_at buf (offset + 2)) end
unfolding extension_loop
loop-step n buf offset end before room other =
    let going : ltb offset end ≡ true = ground arith in
    let whole : leb (offset + 4) (length buf) ≡ true = ground arith in
    let unnamed : (u16_at buf offset == 0) ≡ false = ground arith in rw (going, whole, unnamed) refl

pub loop-others :
    (others : List Extension) (n : ℕ) (buf pre name rest : Bytes) (end : ℕ)
    → length others < n
    → All IsOther others
    → length name < 65536
    → length pre + length (extensions_bytes others) < end
    → buf ≡ pre ++ (extensions_bytes others ++ (name_extension name ++ rest))
    → extension_loop n buf (length pre) end ≡ some (utf8_text name)
loop-others others zero buf pre name rest end f v short before e = absurd (omega arith)
loop-others [] (suc n) buf pre name rest end f v short before e =
    loop-name n buf pre name rest end short (omega (arith, before)) e
loop-others (x ∷ others) (suc n) buf pre name rest end f (v, vs) short before e =
    let more = extensions_bytes others ++ (name_extension name ++ rest) in
    let e' : buf ≡ pre ++ (extension_bytes x ++ more) =
      e
      ∙ ap (λ t. pre ++ t)
          (append_assoc (extension_bytes x) (extensions_bytes others)
            (name_extension name ++ rest)) in
    let sizes = length-append (extension_bytes x) (extensions_bytes others) in
    let ih =
      loop-others others n buf (pre ++ extension_bytes x) name rest end (omega arith) vs short
        (omega (arith, sizes, length-append pre (extension_bytes x)))
        (e' ∙ sym (append_assoc pre (extension_bytes x) more)) in
    let type : u16_at buf (length pre) ≡ x.type =
      rw e'
        (u16_at-append pre ((be16 (length x.body) ++ x.body) ++ more) x.type (length pre) refl) in
    let size : u16_at buf (length pre + 2) ≡ length x.body = rw e' (
      u16_at-after pre (be16 x.type) (x.body ++ more) (length x.body) (length pre + 2)
        (omega arith)) in
    let next : length pre + 4 + u16_at buf (length pre + 2) ≡ length (pre ++ extension_bytes x) =
      omega (arith, size, length-append pre (extension_bytes x)) in
    let room : length pre + 4 ≤ length buf =
      omega (arith, ap length e', length-append pre (extension_bytes x ++ more)) in
    loop-step n buf (length pre) end (omega (arith, before)) room (λ z. v.other (sym type ∙ z))
    ∙ (ap (λ o. extension_loop n buf o end) next ∙ ih)
