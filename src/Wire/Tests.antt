-- ===== src/Wire/Tests.antt =====
-- Runs of `DnsWireFormat`, and the instances of its theorems.
use zonzon.Base.{some, replicate, ◌≡◌, refl, [], ◌∷◌, arith, All}
use zonzon.Base.Text.{Text, codes, split, to_lower}
use zonzon.Base.Bytes.{Bytes}
use zonzon.Wire.{DnsWireFormat, read_domain_name, write_domain_name, wire}
use zonzon.Wire.RoundTrip.{IsLabel, read-write_domain_name}

-- `a.bc` behind two bytes, and a name that points to it.
abbrev pointing : Bytes
pointing = 7 ∷ 7 ∷ 1 ∷ b'a' ∷ 2 ∷ b'b' ∷ b'c' ∷ 0 ∷ 1 ∷ b'x' ∷ 0xc0 ∷ 2 ∷ 9 ∷ []

pointer_followed :
    read_domain_name (record { buf = pointing; offset = 8 })
    ≡ (codes "x.a.bc", record { buf = pointing; offset = 12 })
unfolding wire
pointer_followed = refl

-- A name that points to itself ends at the limit of jumps.
abbrev looping : Bytes
looping = 1 ∷ b'x' ∷ 0xc0 ∷ 0 ∷ []

loop_cut :
    read_domain_name (record { buf = looping; offset = 0 })
    ≡ (codes "x.x.x.x.x.x", record { buf = looping; offset = 4 })
unfolding wire
loop_cut = refl

abbrev mixed : Text
mixed = codes "Ab.C"

mixed_labels : All IsLabel (split b'.' (to_lower mixed))
unfolding wire
mixed_labels = (
  record { some_units = omega arith; few = omega arith; ascii = (omega arith, (omega arith, tt)) },
  (record { some_units = omega arith; few = omega arith; ascii = (omega arith, tt) }, tt),
)

-- a buffer with a byte in front and room for nine
abbrev writer : DnsWireFormat
writer = record { buf = 9 ∷ replicate 9 5; offset = 1 }

read-write_domain_name_example :
    (w' : DnsWireFormat) × (write_domain_name mixed writer ≡ some w')
    × (read_domain_name (record { buf = w'.buf; offset = 1 }) ≡ (codes "ab.c", w'))
unfolding wire
read-write_domain_name_example = read-write_domain_name mixed writer mixed_labels (omega arith)
