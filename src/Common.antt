-- ===== src/Common.antt =====
-- The fields of characters of src/common.cc that a space ends. A character is its code. `none` is a read
-- past the end of the memory that is given.
pub mod SpaceTerm
mod Examples
use flash_forwarder.Prelude.{
  ℕ, zero, suc, List, [], ◌∷◌, Option, none, some, Bool, true, false, ◌||◌, ◌==◌, if◌then◌else◌,
}

abbrev pub space : ℕ
space = 32

abbrev pub put_front : ℕ → Option (List ℕ) → Option (List ℕ)
put_front c none = none
put_front c (some cs) = some (c ∷ cs)

-- What ReadSpaceTermString appends to its string.
unfoldable pub read_space_term_string : ℕ → List ℕ → Option (List ℕ)
read_space_term_string zero str = some []
read_space_term_string (suc size) [] = none
read_space_term_string (suc size) (ch ∷ str) =
    let rest = read_space_term_string size str in
    if (ch == space) || (ch == 0) then some [] else put_front ch rest

-- The loop of WriteSpaceTermString from some `i` on, with `size - i` characters to go: what it stores.
unfoldable pub write_loop : ℕ → Bool → List ℕ → Option (List ℕ)
write_loop zero ended source = some []
write_loop (suc size) true source = put_front space (write_loop size true source)
write_loop (suc size) false [] = none
write_loop (suc size) false (ch ∷ source) =
    let padded = write_loop size true source in
    let rest = write_loop size false source in
    if ch == 0 then put_front space padded else put_front ch rest

unfoldable pub write_space_term_string : ℕ → List ℕ → Option (List ℕ)
write_space_term_string size source = write_loop size false source
