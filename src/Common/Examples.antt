-- ===== src/Common/Examples.antt =====
-- A field of four characters, and the theorem at a concrete input.
use flash_forwarder.Prelude.{ℕ, ◌≡◌, refl, List, [], ◌∷◌, ◌++◌, some, length, take, All, arith}
use flash_forwarder.Common.{read_space_term_string, write_space_term_string, write_loop}
use flash_forwarder.Common.SpaceTerm.{IsNameChar, read_space_term_string-write_space_term_string}

abbrev name : List ℕ
name = 72 ∷ 105 ∷ []

padded_field : write_space_term_string 4 (name ++ 0 ∷ 9 ∷ []) ≡ some (72 ∷ 105 ∷ 32 ∷ 32 ∷ [])
unfolding write_space_term_string write_loop
padded_field = refl

name_ok : All IsNameChar name
name_ok = (((λ e. omega arith), (λ e. omega arith)), (((λ e. omega arith), (λ e. omega arith)), tt))

read_space_term_string-write_space_term_string_example :
    (field : List ℕ) × (write_space_term_string 4 (name ++ 0 ∷ 9 ∷ []) ≡ some field)
    × (length field ≡ 4)
    × (read_space_term_string 4 field ≡ some (take 4 name))
read_space_term_string-write_space_term_string_example =
    read_space_term_string-write_space_term_string 4 name (9 ∷ []) name_ok
