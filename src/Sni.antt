-- ===== src/Sni.antt =====
-- `extractSNI` of packages/core/src/sni-proxy.ts. A read out of bounds throws, and the `catch`
-- gives `null`: `none`.
pub mod Extensions
pub mod ClientHello
pub mod Connection
mod Tests
use zonzon.Base.{
  ℕ, zero, suc, ◌+◌, Bool, not, ◌||◌, ◌&&◌, Option, none, some, List, [], ltb, leb, ◌==◌,
  if◌then◌else◌, ◌>>=◌, length, take, drop,
}
use zonzon.Base.Text.{Text}
use zonzon.Base.Bytes.{Bytes, byte_at, u16_at, utf8_text}

abbrev pub max_tls_extensions : ℕ
max_tls_extensions = 50

-- `data.readUInt16BE(at)`
unfoldable pub read_u16 : Bytes → ℕ → Option ℕ
read_u16 data_ at = if ltb (length data_) (at + 2) then none else some (u16_at data_ at)

-- a jump over what a length announces; `null` where nothing is behind it
unfoldable pub inside : Bytes → ℕ → Option ℕ
inside data_ offset = if leb (length data_) offset then none else some offset

-- the name of a host name entry, behind its type
unfoldable pub host_name : Bytes → ℕ → Option Text
host_name data_ offset = do
  name_length ← read_u16 data_ offset
  if ltb (length data_) (offset + 2 + name_length)
      then none
      else some (utf8_text (take name_length (drop (offset + 2) data_)))

-- The loop over the extensions, with the number of rounds that are left: the round after the last
-- of them returns `null`.
unfoldable pub extension_loop : ℕ → Bytes → ℕ → ℕ → Option Text
extension_loop zero data_ offset extensions_end = none
extension_loop (suc n) data_ offset extensions_end =
    let body = offset + 4 in
    let rest = extension_loop n data_ (body + u16_at data_ (offset + 2)) extensions_end in
    if not (ltb offset extensions_end && leb (offset + 4) (length data_))
    then none
    else if not (u16_at data_ offset == 0)
    then rest
    else if leb (length data_) (body + 2)
    then none
    else if byte_at data_ (body + 2) == 0
    then host_name data_ (body + 3)
    else rest

-- the offset of the extensions, and their end
unfoldable pub find_extensions : Bytes → Option (ℕ × ℕ)
find_extensions data_ = do
  session ← inside data_ 43
  ciphers ← inside data_ (session + 1 + byte_at data_ session)
  ciphers_length ← read_u16 data_ ciphers
  compression ← inside data_ (ciphers + 2 + ciphers_length)
  let extensions = compression + 1 + byte_at data_ compression
  extensions_length ← read_u16 data_ extensions
  some (extensions + 2, extensions + 2 + extensions_length)

unfoldable pub extract_sni : Bytes → Option Text
extract_sni data_ =
    if ltb (length data_) 5 || not (byte_at data_ 0 == 0x16) || not (byte_at data_ 5 == 0x01)
    then none
    else find_extensions data_ >>= λ (offset, extensions_end).
        extension_loop (max_tls_extensions + 1) data_ offset extensions_end

unfoldable pub sniffing : Unit {0}
unfolding read_u16 inside host_name extension_loop find_extensions extract_sni utf8_text
sniffing = tt
