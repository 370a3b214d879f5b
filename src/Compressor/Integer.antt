-- ===== src/Compressor/Integer.antt =====
-- src/FieldInstructionInteger.hpp, at any of its template arguments.
use flash_forwarder.Prelude.{
  ℕ, zero, suc, ◌+◌, ◌-◌, ◌*◌, ◌%◌, ◌/◌, ◌^◌, List, [], ◌∷◌, Option, none, some, Bool, true, leb,
  ltb, ◌==◌, if◌then◌else◌, bit_and, bit_or,
}
use flash_forwarder.WireFormat.Defs.{
  u32, Outcome, done, fail, fault, ◌>>=◌, write_varint32, write_varint64, write_signed_varint32,
  write_signed_varint64, read_varint32, read_varint64, read_signed_varint32, read_signed_varint64,
}
use flash_forwarder.Compressor.Fields.{
  IntType, c_int32, c_uint32, c_int64, c_uint64, sign_extend, get_value, set_value, Message, Field,
  get_field, put_field,
}

-- `enum InstrcutionType`
pub data InstructionType : Type 0 where
  copy delta : InstructionType

-- The members, with the template arguments `intType`, `s` as `signed` and `!b` as `short_bits`.
pub record Instruction : Type 0 where
  pub int_type : IntType
  pub signed : Bool
  pub short_bits : Bool
  pub type : InstructionType
  pub index : ℕ

-- sizeof(intType)
abbrev pub size_of : IntType → ℕ
size_of c_int32 = 4
size_of c_uint32 = 4
size_of c_int64 = 8
size_of c_uint64 = 8

-- A value converted to 64 bits, and 64 bits converted to the type.
abbrev pub widen : IntType → ℕ → ℕ
widen c_int32 v = sign_extend v
widen c_uint32 v = v
widen c_int64 v = v
widen c_uint64 v = v

abbrev pub narrow : IntType → ℕ → ℕ
narrow c_int32 v = u32 v
narrow c_uint32 v = u32 v
narrow c_int64 v = v
narrow c_uint64 v = v

-- `static_cast<int64_t>(newValue) - cacheValue`
abbrev pub difference : IntType → ℕ → ℕ → ℕ
difference t new cache = (widen t new + 2 ^ 64 - widen t cache) % 2 ^ 64

-- `cacheValue + delta`
abbrev pub moved : IntType → ℕ → ℕ → ℕ
moved t cache d = narrow t ((widen t cache + d) % 2 ^ 64)

-- The bytes of a changed COPY field, with the conversion to the parameter of the writer.
abbrev pub write_copy : Instruction → ℕ → List ℕ
write_copy ins v =
    if ins.signed
    then (if ins.short_bits
        then write_signed_varint32 (u32 v)
        else write_signed_varint64 (widen ins.int_type v))
    else (if ins.short_bits then write_varint32 (u32 v) else write_varint64 (widen ins.int_type v))

-- `pMap_ |= (uint32_t)1 << bit`, in 32 bits. A shift by 32 or more, which C++ leaves undefined, sets no
-- bit here.
abbrev pub set_pmap : ℕ → ℕ → ℕ
set_pmap bit pmap = bit_or pmap (2 ^ bit % 2 ^ 32)

-- What `encode` appended, and the cache message and the pmap afterwards. `none`: a null field.
pub record Encoded : Type 0 where
  pub bytes : List ℕ
  pub cache : Message
  pub pmap : ℕ

unfoldable pub encode_value : Instruction → ℕ → ℕ → Field → Message → ℕ → Encoded
encode_value ins new old cache_field cache pmap = elim ins.type [
  | copy ↦ if new == old then record { bytes = []; cache = cache; pmap = pmap } else record {
    bytes = write_copy ins new;
    cache = put_field ins.index (set_value ins.int_type new cache_field) cache;
    pmap = set_pmap ins.index pmap;
  }
  | delta ↦ record {
    bytes = write_signed_varint64 (difference ins.int_type new old);
    cache = put_field ins.index (set_value ins.int_type new cache_field) cache;
    pmap = set_pmap ins.index pmap;
  }
]

unfoldable pub encode_fields :
    Instruction → ℕ → ℕ → Option Field → Option Field → Message → ℕ → Option Encoded
encode_fields ins junk junk' (some field) (some cache_field) cache pmap = some (
    encode_value ins (get_value ins.int_type field junk) (get_value ins.int_type cache_field junk')
      cache_field cache pmap)
encode_fields ins junk junk' _ _ cache pmap = none

-- `encode(message, cacheMessage, buffer, templatePtr)`; `junk` and `junk'` are what `newValue` and
-- `cacheValue` hold before `getValue`.
unfoldable pub encode_integer : Instruction → ℕ → ℕ → Message → Message → ℕ → Option Encoded
encode_integer ins junk junk' message cache pmap =
    encode_fields ins junk junk' (get_field ins.index message) (get_field ins.index cache) cache
      pmap

-- Bytes in memory of a little-endian host.
abbrev pub store_host : ℕ → ℕ → List ℕ
store_host zero v = []
store_host (suc n) v = v % 256 ∷ store_host n (v / 256)

abbrev pub load_host : ℕ → List ℕ → Outcome ℕ
load_host zero xs = done 0
load_host (suc n) [] = fault
load_host (suc n) (x ∷ xs) = do v ← load_host n xs; done (x + 256 * v)

-- `encode(message, buffer)`, without field operation
unfoldable pub encode_full : Instruction → ℕ → Message → Option (List ℕ)
encode_full ins junk message = elim (get_field ins.index message) [
  | none ↦ none
  | some field ↦ some (store_host (size_of ins.int_type) (get_value ins.int_type field junk))
]

-- The read of a COPY field into `value`, which was 0. Eight bytes stored in a variable of four are
-- a fault.
abbrev pub fits_type : Instruction → Bool
fits_type ins = if ins.short_bits then true else leb 8 (size_of ins.int_type)

abbrev pub read_copy : Instruction → List ℕ → Outcome (ℕ × ℕ)
read_copy ins buffer =
    if fits_type ins
    then (if ins.signed
        then (if ins.short_bits then read_signed_varint32 buffer else read_signed_varint64 buffer)
        else (if ins.short_bits then read_varint32 buffer else read_varint64 buffer))
    else fault

-- What `decode` consumed, the out message and the cache message afterwards.
pub record Decoded : Type 0 where
  pub consume : ℕ
  pub out : Message
  pub cache : Message

-- `cacheField->setValue(value); outField->setValue(value); return consume`
abbrev pub give : Instruction → ℕ → ℕ → Field → Field → Message → Message → Decoded
give ins value n out_field cache_field out cache = record {
  consume = n;
  out = put_field ins.index (set_value ins.int_type value out_field) out;
  cache = put_field ins.index (set_value ins.int_type value cache_field) cache;
}

-- The test `n == -1 || n > size` is on what the reader returned; `fail` is its -1 already.
unfoldable pub decode_value :
    Instruction → ℕ → List ℕ → ℕ → Field → Field → Message → Message → ℕ → Outcome Decoded
decode_value ins junk buffer size out_field cache_field out cache pmap =
    if bit_and pmap (2 ^ 31) == 0
    then elim ins.type [
      | copy ↦
          if bit_and pmap (2 ^ ins.index) == 0
          then done (record { consume = 0; out = out; cache = cache })
          else (do
            (value, n) ← read_copy ins buffer
            if ltb size n then fail else done (give ins value n out_field cache_field out cache))
      | delta ↦ do
        (d, n) ← read_signed_varint64 buffer
        let value = moved ins.int_type (get_value ins.int_type cache_field junk) d
        if ltb size n then fail else done (give ins value n out_field cache_field out cache)
    ]
    else (if ltb size (size_of ins.int_type) then fail else (do
      value ← load_host (size_of ins.int_type) buffer
      done (give ins value (size_of ins.int_type) out_field cache_field out cache)))

unfoldable pub decode_fields :
    Instruction
    → ℕ
    → List ℕ
    → ℕ
    → Option Field
    → Option Field
    → Message
    → Message
    → ℕ
    → Outcome Decoded
decode_fields ins junk buffer size (some out_field) (some cache_field) out cache pmap =
    decode_value ins junk buffer size out_field cache_field out cache pmap
decode_fields ins junk buffer size _ _ out cache pmap = fault

-- `decode(buffer, size, message, cacheMessage, tmpPtr)`; `fault` is a null field or a read past the
-- end of the memory.
unfoldable pub decode_integer :
    Instruction → ℕ → List ℕ → ℕ → Message → Message → ℕ → Outcome Decoded
decode_integer ins junk buffer size out cache pmap =
    decode_fields ins junk buffer size (get_field ins.index out) (get_field ins.index cache) out
      cache pmap
