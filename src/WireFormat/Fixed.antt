-- ===== src/WireFormat/Fixed.antt =====
-- The fixed-width readers and writers of src/wire_format.cc, for both settings of HTQ_LITTLE_ENDIAN. A
-- writer returns the bytes that it stores; a reader is given the memory from its pointer on, and `none`
-- is a read past its end.
pub mod RoundTrip
use flash_forwarder.Prelude.{
  ℕ, zero, suc, ◌+◌, ◌*◌, ◌/◌, ◌%◌, ◌^◌, ◌<◌, ◌≡◌, bit_or, List, [], ◌∷◌, ◌++◌, Option, none, some,
  refl, ap, ap₂, sym, ◌∙◌, arith,
}
use mathlib.Core.List.{reverse}

-- What memcpy of a word meets in memory: the host's byte order, of which HTQ_LITTLE_ENDIAN tells.
pub data Host : Type 0 where
  little big : Host

-- The `n` bytes of a word, the lowest first, and the word that such bytes are.
abbrev pub digits : ℕ → ℕ → List ℕ
digits zero v = []
digits (suc n) v = v % 256 ∷ digits n (v / 256)

abbrev pub undigits : List ℕ → ℕ
undigits [] = 0
undigits (b ∷ bs) = b + 256 * undigits bs

-- `static_cast<uint8_t>(value >> k)`
abbrev pub low_byte : ℕ → ℕ → ℕ
low_byte k value = value / 2 ^ k % 256

abbrev pub or2 : ℕ → ℕ → ℕ
or2 b0 b1 = bit_or b0 (b1 * 2 ^ 8)

abbrev pub or4 : ℕ → ℕ → ℕ → ℕ → ℕ
or4 b0 b1 b2 b3 = bit_or (bit_or (bit_or b0 (b1 * 2 ^ 8)) (b2 * 2 ^ 16)) (b3 * 2 ^ 24)

abbrev pub or_parts : ℕ → ℕ → ℕ
or_parts part0 part1 = bit_or part0 (part1 * 2 ^ 32)

unfoldable pub read_little_endian16 : Host → List ℕ → Option ℕ
read_little_endian16 little (b0 ∷ b1 ∷ _) = some (undigits (b0 ∷ b1 ∷ []))
read_little_endian16 big (b0 ∷ b1 ∷ _) = some (or2 b0 b1)
read_little_endian16 _ _ = none

unfoldable pub read_little_endian32 : Host → List ℕ → Option ℕ
read_little_endian32 little (b0 ∷ b1 ∷ b2 ∷ b3 ∷ _) = some (undigits (b0 ∷ b1 ∷ b2 ∷ b3 ∷ []))
read_little_endian32 big (b0 ∷ b1 ∷ b2 ∷ b3 ∷ _) = some (or4 b0 b1 b2 b3)
read_little_endian32 _ _ = none

unfoldable pub read_little_endian64 : Host → List ℕ → Option ℕ
read_little_endian64 little (b0 ∷ b1 ∷ b2 ∷ b3 ∷ b4 ∷ b5 ∷ b6 ∷ b7 ∷ _) =
    some (undigits (b0 ∷ b1 ∷ b2 ∷ b3 ∷ b4 ∷ b5 ∷ b6 ∷ b7 ∷ []))
read_little_endian64 big (b0 ∷ b1 ∷ b2 ∷ b3 ∷ b4 ∷ b5 ∷ b6 ∷ b7 ∷ _) =
    some (or_parts (or4 b0 b1 b2 b3) (or4 b4 b5 b6 b7))
read_little_endian64 _ _ = none

unfoldable pub write_little_endian16 : Host → ℕ → List ℕ
write_little_endian16 little value = digits 2 value
write_little_endian16 big value = low_byte 0 value ∷ low_byte 8 value ∷ []

unfoldable pub write_little_endian32 : Host → ℕ → List ℕ
write_little_endian32 little value = digits 4 value
write_little_endian32 big value =
    low_byte 0 value ∷ low_byte 8 value ∷ low_byte 16 value ∷ low_byte 24 value ∷ []

unfoldable pub write_little_endian64 : Host → ℕ → List ℕ
write_little_endian64 little value = digits 8 value
write_little_endian64 big value =
    let part0 = value % 2 ^ 32 in
    let part1 = value / 2 ^ 32 % 2 ^ 32 in
    low_byte 0 part0
    ∷ low_byte 8 part0
    ∷ low_byte 16 part0
    ∷ low_byte 24 part0
    ∷ low_byte 0 part1
    ∷ low_byte 8 part1
    ∷ low_byte 16 part1
    ∷ low_byte 24 part1
    ∷ []

unfoldable pub read_big_endian16 : Host → List ℕ → Option ℕ
read_big_endian16 little (b0 ∷ b1 ∷ _) = some (or2 b1 b0)
read_big_endian16 big (b0 ∷ b1 ∷ _) = some (undigits (b1 ∷ b0 ∷ []))
read_big_endian16 _ _ = none

unfoldable pub read_big_endian32 : Host → List ℕ → Option ℕ
read_big_endian32 little (b0 ∷ b1 ∷ b2 ∷ b3 ∷ _) = some (or4 b3 b2 b1 b0)
read_big_endian32 big (b0 ∷ b1 ∷ b2 ∷ b3 ∷ _) = some (undigits (b3 ∷ b2 ∷ b1 ∷ b0 ∷ []))
read_big_endian32 _ _ = none

unfoldable pub write_big_endian16 : Host → ℕ → List ℕ
write_big_endian16 little value = low_byte 8 value ∷ low_byte 0 value ∷ []
write_big_endian16 big value = reverse (digits 2 value)

unfoldable pub write_big_endian32 : Host → ℕ → List ℕ
write_big_endian32 little value =
    low_byte 24 value ∷ low_byte 16 value ∷ low_byte 8 value ∷ low_byte 0 value ∷ []
write_big_endian32 big value = reverse (digits 4 value)

unfoldable pub read_big_endian64 : Host → List ℕ → Option ℕ
read_big_endian64 little (b0 ∷ b1 ∷ b2 ∷ b3 ∷ b4 ∷ b5 ∷ b6 ∷ b7 ∷ _) =
    some (or_parts (or4 b7 b6 b5 b4) (or4 b3 b2 b1 b0))
read_big_endian64 big (b0 ∷ b1 ∷ b2 ∷ b3 ∷ b4 ∷ b5 ∷ b6 ∷ b7 ∷ _) =
    some (undigits (b7 ∷ b6 ∷ b5 ∷ b4 ∷ b3 ∷ b2 ∷ b1 ∷ b0 ∷ []))
read_big_endian64 _ _ = none

unfoldable pub write_big_endian64 : Host → ℕ → List ℕ
write_big_endian64 little value =
    let part0 = value % 2 ^ 32 in
    let part1 = value / 2 ^ 32 % 2 ^ 32 in
    low_byte 24 part1
    ∷ low_byte 16 part1
    ∷ low_byte 8 part1
    ∷ low_byte 0 part1
    ∷ low_byte 24 part0
    ∷ low_byte 16 part0
    ∷ low_byte 8 part0
    ∷ low_byte 0 part0
    ∷ []
write_big_endian64 big value = reverse (digits 8 value)
