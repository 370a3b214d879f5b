-- ===== src/Compressor/Fields.antt =====
-- src/Field.hpp and src/Message.h. An int64_t and a uint64_t are their 64-bit patterns.
use flash_forwarder.Prelude.{
  ℕ, zero, suc, ◌+◌, ◌-◌, ◌%◌, ◌^◌, List, [], ◌∷◌, ◌++◌, Option, none, leb, ltb, if◌then◌else◌,
  length, get_elem?, set,
}

pub data FieldType : Type 0 where
  int32 uint32 int64 uint64 string rawdata decimal : FieldType

pub record Field : Type 0 where
  pub string_value : List ℕ
  pub sint_value : ℕ
  pub uint_value : ℕ
  pub type : FieldType

-- The constructor `Field(type)`.
abbrev pub new_field : FieldType → Field
new_field t = record { string_value = []; sint_value = 0; uint_value = 0; type = t }

abbrev pub reset_field : Field → Field
reset_field f = record f { string_value = []; sint_value = 0; uint_value = 0 }

-- The C type of the argument, which chooses the overload.
pub data IntType : Type 0 where
  c_int32 c_uint32 c_int64 c_uint64 : IntType

-- An int32_t as an int64_t.
abbrev pub sign_extend : ℕ → ℕ
sign_extend v = if ltb v (2 ^ 31) then v else v + (2 ^ 64 - 2 ^ 32)

-- What `val` holds after `getValue(val)`, when it held `val` before: a field of another type leaves it.
unfoldable pub get_value : IntType → Field → ℕ → ℕ
get_value c_int32 f val = elim f.type [ int32 ↦ f.sint_value % 2 ^ 32 | _ ↦ val ]
get_value c_uint32 f val = elim f.type [ uint32 ↦ f.uint_value % 2 ^ 32 | _ ↦ val ]
get_value c_int64 f val = elim f.type [ int64 ↦ f.sint_value | _ ↦ val ]
get_value c_uint64 f val = elim f.type [ uint64 ↦ f.uint_value | _ ↦ val ]

unfoldable pub get_string : Field → List ℕ → List ℕ
get_string f val = elim f.type [ string ↦ f.string_value | _ ↦ val ]

unfoldable pub set_value : IntType → ℕ → Field → Field
set_value c_int32 v f = elim f.type [ int32 ↦ record f { sint_value = sign_extend v } | _ ↦ f ]
set_value c_uint32 v f = elim f.type [ uint32 ↦ record f { uint_value = v } | _ ↦ f ]
set_value c_int64 v f = elim f.type [ int64 ↦ record f { sint_value = v } | _ ↦ f ]
set_value c_uint64 v f = elim f.type [ uint64 ↦ record f { uint_value = v } | _ ↦ f ]

unfoldable pub set_string : List ℕ → Field → Field
set_string v f = elim f.type [ string ↦ record f { string_value = v } | _ ↦ f ]

pub record Message : Type 0 where
  pub index : ℕ
  pub template_id : ℕ
  pub field_count : ℕ
  pub fields : List Field

abbrev pub new_message : Message
new_message = record { index = 0; template_id = 0; field_count = 0; fields = [] }

unfoldable pub add_field : Field → Message → Message
add_field f m = record m { field_count = (m.field_count + 1) % 2 ^ 16; fields = m.fields ++ f ∷ [] }

-- The loop of `Message::reset` over the first `n` fields.
unfoldable pub reset_fields : ℕ → List Field → List Field
reset_fields zero fs = fs
reset_fields (suc n) [] = []
reset_fields (suc n) (f ∷ fs) = reset_field f ∷ reset_fields n fs

unfoldable pub reset_message : Message → Message
reset_message m = record {
  index = 0;
  template_id = 0;
  field_count = length m.fields % 2 ^ 16;
  fields = reset_fields m.field_count m.fields;
}

-- `none` is the null pointer.
unfoldable pub get_field : ℕ → Message → Option Field
get_field index m = if leb m.field_count index then none else get_elem? m.fields index

-- What stands behind the pointer that `getField(index)` returned.
unfoldable pub put_field : ℕ → Field → Message → Message
put_field index f m = record m { fields = set m.fields index f }

unfoldable pub set_index : ℕ → Message → Message
set_index i m = record m { index = i }
