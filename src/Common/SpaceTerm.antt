-- ===== src/Common/SpaceTerm.antt =====
-- What is written to a field of src/common.cc is read back.
use flash_forwarder.Prelude.{
  ℕ, zero, suc, ◌≡◌, ◌≢◌, refl, ap, List, [], ◌∷◌, ◌++◌, some, true, length, take, All, ne→==_false,
}
use flash_forwarder.Common.{
  space, put_front, read_space_term_string, write_loop, write_space_term_string,
}

-- A character that may stand in a name.
abbrev pub IsNameChar : ℕ → Type 0
IsNameChar c = (c ≢ 0) × (c ≢ space)

spaces :
    (size : ℕ) (source : List ℕ)
    → (field : List ℕ) × (write_loop size true source ≡ some field)
      × (length field ≡ size)
      × (read_space_term_string size field ≡ some [])
unfolding write_loop read_space_term_string
spaces zero source = ([], refl, refl, refl)
spaces (suc size) source =
    let (field, e, l, r) = spaces size source in
    (space ∷ field, ap (put_front space) e, ap suc l, refl)

-- A name of no spaces, with a null character and anything behind it: WriteSpaceTermString fills the field
-- whole, and ReadSpaceTermString reads the name back, or what of it fits in the field.
pub read_space_term_string-write_space_term_string :
    (size : ℕ) (name rest : List ℕ)
    → All IsNameChar name
    → (field : List ℕ) × (write_space_term_string size (name ++ 0 ∷ rest) ≡ some field)
      × (length field ≡ size)
      × (read_space_term_string size field ≡ some (take size name))
unfolding write_space_term_string write_loop read_space_term_string
read_space_term_string-write_space_term_string zero name rest a = ([], refl, refl, refl)
read_space_term_string-write_space_term_string (suc size) [] rest a =
    let (field, e, l, r) = spaces size rest in
    (space ∷ field, ap (put_front space) e, ap suc l, refl)
read_space_term_string-write_space_term_string (suc size) (c ∷ name) rest a =
    let (field, e, l, r) = read_space_term_string-write_space_term_string size name rest a.1 in
    (
      c ∷ field,
      rw (ne→==_false c 0 a.0.0) (ap (put_front c) e),
      ap suc l,
      rw (ne→==_false c 0 a.0.0, ne→==_false c space a.0.1) (ap (put_front c) r),
    )
