-- ===== src/Sni/ClientHello.antt =====
-- `extractSNI` on a ClientHello that names its server.
use zonzon.Base.{
  ℕ, ◌+◌, ◌≤◌, ◌<◌, ◌≡◌, ◌∙◌, refl, sym, ap, false, some, List, ◌∷◌, ◌++◌, arith, ltb, leb, length,
  All, length-append, append_assoc,
}
use zonzon.Base.Bytes.{Bytes, byte_at, u16_at, be16, utf8_text, byte_at-front}
use zonzon.Wire.Words.{u16_at-append, byte_at-append}
use zonzon.Sni.{read_u16, inside, find_extensions, extract_sni, max_tls_extensions}
use zonzon.Sni.Extensions.{Extension, extensions_bytes, IsOther, name_extension, loop-others}

-- A ClientHello: 43 bytes up to the session id, and then what has a length of its own.
pub record ClientHello : Type 0 where
  pub head : Bytes
  pub session : Bytes
  pub ciphers : Bytes
  pub compression : Bytes
  pub before_name : List Extension
  pub name : Bytes
  pub behind_name : Bytes

abbrev pub extension_block : ClientHello → Bytes
extension_block h = extensions_bytes h.before_name ++ (name_extension h.name ++ h.behind_name)

abbrev pub hello_bytes : ClientHello → Bytes
hello_bytes h =
    h.head
    ++ (length h.session
        ∷ (h.session
            ++ (be16 (length h.ciphers)
                ++ (h.ciphers
                    ++ (length h.compression
                        ∷ (h.compression
                            ++ (be16 (length (extension_block h)) ++ extension_block h)))))))

-- The lengths fit into their fields, and there are at most as many extensions in front of the
-- server's name as the parser reads.
pub record IsHello (h : ClientHello) : Type 0 where
  pub start : length h.head ≡ 43
  pub handshake : byte_at h.head 0 ≡ 0x16
  pub client_hello : byte_at h.head 5 ≡ 0x01
  pub session : length h.session < 256
  pub ciphers : length h.ciphers < 65536
  pub compression : length h.compression < 256
  pub extensions : length (extension_block h) < 65536
  pub others : All IsOther h.before_name
  pub few : length h.before_name ≤ max_tls_extensions
  pub name : length h.name < 65536

inside_here :
    (d pre rest : Bytes) (x i : ℕ) → d ≡ pre ++ (x ∷ rest) → i ≡ length pre → inside d i ≡ some i
unfolding inside
inside_here d pre rest x i e at =
    let within : leb (length d) i ≡ false =
      ground (arith, ap length e, length-append pre (x ∷ rest)) in
    rw within refl

byte_here :
    (d pre rest : Bytes) (x i : ℕ) → d ≡ pre ++ (x ∷ rest) → i ≡ length pre → byte_at d i ≡ x
byte_here d pre rest x i e at = rw e (byte_at-append pre rest x i at)

read_here :
    (d pre rest : Bytes) (x i : ℕ)
    → d ≡ pre ++ (be16 x ++ rest)
    → i ≡ length pre
    → read_u16 d i ≡ some x
unfolding read_u16
read_here d pre rest x i e at =
    let whole : ltb (length d) (i + 2) ≡ false =
      ground (arith, ap length e, length-append pre (be16 x ++ rest)) in
    let value : u16_at d i ≡ x = rw e (u16_at-append pre rest x i at) in rw (whole, value) refl

-- The bytes in front of each of the four lengths.
abbrev to_ciphers : ClientHello → Bytes
to_ciphers h = h.head ++ (length h.session ∷ h.session)

abbrev to_compression : ClientHello → Bytes
to_compression h = to_ciphers h ++ (be16 (length h.ciphers) ++ h.ciphers)

abbrev to_extensions : ClientHello → Bytes
to_extensions h = to_compression h ++ (length h.compression ∷ h.compression)

module _ (h : ClientHello) (v : IsHello h) (d : Bytes) (e : d ≡ hello_bytes h) where
  abbrev offset_ciphers : ℕ
  offset_ciphers = 43 + 1 + length h.session

  abbrev offset_compression : ℕ
  offset_compression = offset_ciphers + 2 + length h.ciphers

  abbrev offset_extensions : ℕ
  offset_extensions = offset_compression + 1 + length h.compression

  at_ciphers : offset_ciphers ≡ length (to_ciphers h)
  at_ciphers = omega (arith, v.start, length-append h.head (length h.session ∷ h.session))

  at_compression : offset_compression ≡ length (to_compression h)
  at_compression =
      omega (arith, at_ciphers, length-append (to_ciphers h) (be16 (length h.ciphers) ++ h.ciphers))

  at_extensions : offset_extensions ≡ length (to_extensions h)
  at_extensions = omega (
    arith,
    at_compression,
    length-append (to_compression h) (length h.compression ∷ h.compression),
  )

  e_ciphers :
      d
      ≡ to_ciphers h
        ++ (be16 (length h.ciphers)
            ++ (h.ciphers
                ++ (length h.compression
                    ∷ (h.compression ++ (be16 (length (extension_block h)) ++ extension_block h)))))
  e_ciphers = e ∙ sym (append_assoc h.head (length h.session ∷ h.session) _)

  e_compression :
      d
      ≡ to_compression h
        ++ (length h.compression
            ∷ (h.compression ++ (be16 (length (extension_block h)) ++ extension_block h)))
  e_compression =
      e_ciphers ∙ sym (append_assoc (to_ciphers h) (be16 (length h.ciphers) ++ h.ciphers) _)

  e_extensions : d ≡ to_extensions h ++ (be16 (length (extension_block h)) ++ extension_block h)
  e_extensions =
      e_compression ∙ sym (append_assoc (to_compression h) (length h.compression ∷ h.compression) _)

  found :
      find_extensions d
      ≡ some (offset_extensions + 2, offset_extensions + 2 + length (extension_block h))
  unfolding find_extensions
  found =
      rw
        (
          inside_here d h.head _ _ 43 e (sym v.start),
          byte_here d h.head _ _ 43 e (sym v.start),
          inside_here d (to_ciphers h) _ _ offset_ciphers e_ciphers at_ciphers,
          read_here d (to_ciphers h) _ _ offset_ciphers e_ciphers at_ciphers,
          inside_here d (to_compression h) _ _ offset_compression e_compression at_compression,
          byte_here d (to_compression h) _ _ offset_compression e_compression at_compression,
          read_here d (to_extensions h) _ _ offset_extensions e_extensions at_extensions,
        )
        refl

  e_block :
      d
      ≡ (to_extensions h ++ be16 (length (extension_block h)))
        ++ (extensions_bytes h.before_name ++ (name_extension h.name ++ h.behind_name))
  e_block =
      e_extensions
      ∙ sym (append_assoc (to_extensions h) (be16 (length (extension_block h))) (extension_block h))

  at_block : length (to_extensions h ++ be16 (length (extension_block h))) ≡ offset_extensions + 2
  at_block =
      omega
        (arith, at_extensions, length-append (to_extensions h) (be16 (length (extension_block h))))

  extracted : extract_sni d ≡ some (utf8_text h.name)
  unfolding extract_sni
  extracted =
      let inner =
        length-append (extensions_bytes h.before_name) (name_extension h.name ++ h.behind_name) in
      let loop =
        loop-others h.before_name (max_tls_extensions + 1) d
          (to_extensions h ++ be16 (length (extension_block h))) h.name h.behind_name
          (offset_extensions + 2 + length (extension_block h)) (omega (arith, v.few)) v.others
          v.name (omega (arith, at_block, inner)) e_block in
      let long : ltb (length d) 5 ≡ false = ground (
        arith,
        at_ciphers,
        ap length e_ciphers,
        length-append (to_ciphers h) (
            be16 (length h.ciphers)
            ++ (h.ciphers
                ++ (length h.compression
                    ∷ (h.compression
                        ++ (be16 (length (extension_block h)) ++ extension_block h))))),
      ) in
      let first : byte_at d 0 ≡ 0x16 =
        rw e (byte_at-front h.head _ 0 (omega (arith, v.start)) ∙ v.handshake) in
      let sixth : byte_at d 5 ≡ 0x01 =
        rw e (byte_at-front h.head _ 5 (omega (arith, v.start)) ∙ v.client_hello) in
      rw (long, first, sixth, found) (rw at_block at loop)

-- The server name of a ClientHello is extracted, whatever the session, the cipher suites, and the
-- other extensions are, as long as no more extensions come before it than the parser reads.
pub extract_sni-hello_bytes :
    (h : ClientHello) → IsHello h → extract_sni (hello_bytes h) ≡ some (utf8_text h.name)
extract_sni-hello_bytes h v = extracted h v (hello_bytes h) refl
