-- ===== src/Wire.antt =====
-- src/wire.hpp: integers in network byte order.
-- A `put` returns the bytes that it stores through its pointer; a `get` is given the memory from its
-- pointer on, and `none` means that it read past the end of that memory.
pub mod RoundTrip
mod Examples
use flash_forwarder.Prelude.{
  ℕ, ◌+◌, ◌*◌, ◌/◌, ◌%◌, ◌^◌, ◌<◌, bit_and, bit_or, List, [], ◌∷◌, Option, none, some,
}

abbrev pub IsByte : ℕ → Type 0
IsByte b = b < 256

-- `(unsigned char) (((value) >> k) & 0xff)`
abbrev pub byte_at : ℕ → ℕ → ℕ
byte_at k value = bit_and (value / 2 ^ k) 0xff % 256

unfoldable pub put_uint8 : ℕ → List ℕ
put_uint8 value = value ∷ []

unfoldable pub get_uint8 : List ℕ → Option ℕ
get_uint8 (b ∷ _) = some b
get_uint8 [] = none

unfoldable pub put_uint16 : ℕ → List ℕ
put_uint16 value = byte_at 8 value ∷ byte_at 0 value ∷ []

unfoldable pub get_uint16 : List ℕ → Option ℕ
get_uint16 (b0 ∷ b1 ∷ _) = some (bit_or (b0 * 2 ^ 8) b1)
get_uint16 _ = none

unfoldable pub put_uint32 : ℕ → List ℕ
put_uint32 value = byte_at 24 value ∷ byte_at 16 value ∷ byte_at 8 value ∷ byte_at 0 value ∷ []

unfoldable pub get_uint32 : List ℕ → Option ℕ
get_uint32 (b0 ∷ b1 ∷ b2 ∷ b3 ∷ _) =
    some (bit_or (bit_or (bit_or (b0 * 2 ^ 24) (b1 * 2 ^ 16)) (b2 * 2 ^ 8)) b3)
get_uint32 _ = none

unfoldable pub put_uint64 : ℕ → List ℕ
put_uint64 value =
    byte_at 56 value
    ∷ byte_at 48 value
    ∷ byte_at 40 value
    ∷ byte_at 32 value
    ∷ byte_at 24 value
    ∷ byte_at 16 value
    ∷ byte_at 8 value
    ∷ byte_at 0 value
    ∷ []

unfoldable pub get_uint64 : List ℕ → Option ℕ
get_uint64 (b0 ∷ b1 ∷ b2 ∷ b3 ∷ b4 ∷ b5 ∷ b6 ∷ b7 ∷ _) =
    let x1 = bit_or (b0 * 2 ^ 56) (b1 * 2 ^ 48) in
    let x2 = bit_or x1 (b2 * 2 ^ 40) in
    let x3 = bit_or x2 (b3 * 2 ^ 32) in
    let x4 = bit_or x3 (b4 * 2 ^ 24) in
    let x5 = bit_or x4 (b5 * 2 ^ 16) in some (bit_or (bit_or x5 (b6 * 2 ^ 8)) b7)
get_uint64 _ = none
