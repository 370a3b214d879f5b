-- ===== src/Compressor/Strings.antt =====
-- src/FieldInstructionString.hpp. A string is its bytes, and shorter than 2^31.
use flash_forwarder.Prelude.{
  ℕ, ◌+◌, ◌^◌, List, [], ◌∷◌, ◌++◌, Option, none, some, Bool, true, false, ltb, ◌==◌, ◌&&◌, ◌||◌,
  if◌then◌else◌, length, take, drop, bit_and,
}
use flash_forwarder.WireFormat.Defs.{
  u32, Outcome, done, fail, fault, ◌>>=◌, write_varint32, read_varint32,
}
use flash_forwarder.Compressor.Fields.{Message, Field, get_string, set_string, get_field, put_field}
use flash_forwarder.Compressor.Integer.{InstructionType, copy, delta, Encoded, Decoded, set_pmap}

pub record StringInstruction : Type 0 where
  pub type : InstructionType
  pub index : ℕ

-- `==` of two strings
abbrev pub equal_bytes : List ℕ → List ℕ → Bool
equal_bytes [] [] = true
equal_bytes [] (y ∷ ys) = false
equal_bytes (x ∷ xs) [] = false
equal_bytes (x ∷ xs) (y ∷ ys) = x == y && equal_bytes xs ys

-- The size as a varint, and as many bytes.
abbrev pub write_string : List ℕ → List ℕ
write_string v = write_varint32 (u32 (length v)) ++ take (u32 (length v)) v

unfoldable pub encode_string_value : StringInstruction → List ℕ → Field → Message → ℕ → Encoded
encode_string_value ins new cache_field cache pmap = elim ins.type [
  | copy ↦
      if equal_bytes new (get_string cache_field [])
      then record { bytes = []; cache = cache; pmap = pmap }
      else record {
        bytes = write_string new;
        cache = put_field ins.index (set_string new cache_field) cache;
        pmap = set_pmap ins.index pmap;
      }
  | delta ↦ record { bytes = []; cache = cache; pmap = pmap }
]

-- `encode(message, cacheMessage, buffer, templatePtr)`; `none` is a null field.
unfoldable pub encode_string : StringInstruction → Message → Message → ℕ → Option Encoded
encode_string ins message cache pmap = elim (get_field ins.index message) [
  | none ↦ none
  | some field ↦ elim (get_field ins.index cache) [
    | none ↦ none
    | some cache_field ↦ some (encode_string_value ins (get_string field []) cache_field cache pmap)
  ]
]

-- `encode(message, buffer)`
unfoldable pub encode_string_full : StringInstruction → Message → Option (List ℕ)
encode_string_full ins message = elim (get_field ins.index message) [
  | none ↦ none
  | some field ↦ some (write_string (get_string field []))
]

-- `tmp.assign(buffer, len)`, from the byte behind the varint on.
abbrev pub assign : ℕ → ℕ → List ℕ → Outcome (List ℕ)
assign n len buffer =
    if ltb (length (drop n buffer)) len then fault else done (take len (drop n buffer))

-- `setValue` on both fields, and the bytes consumed.
abbrev pub give_string :
    StringInstruction → List ℕ → ℕ → Field → Field → Message → Message → Decoded
give_string ins v n out_field cache_field out cache = record {
  consume = n;
  out = put_field ins.index (set_string v out_field) out;
  cache = put_field ins.index (set_string v cache_field) cache;
}

-- The branch with a value in the buffer.
unfoldable pub decode_sent :
    StringInstruction → List ℕ → ℕ → Field → Field → Message → Message → Outcome Decoded
decode_sent ins buffer size out_field cache_field out cache = read_varint32 buffer >>= λ (len, n).
    if ltb size n || ltb size len
    then fail
    else (assign n len buffer >>= λ tmp.
        done (give_string ins tmp (n + len) out_field cache_field out cache))

unfoldable pub decode_string_value :
    StringInstruction → List ℕ → ℕ → Field → Field → Message → Message → ℕ → Outcome Decoded
decode_string_value ins buffer size out_field cache_field out cache pmap =
    if pmap == 2 ^ 31
    then decode_sent ins buffer size out_field cache_field out cache
    else elim ins.type [
      | copy ↦
          if bit_and pmap (2 ^ ins.index) == 0
          then done (record {
            consume = 0;
            out = put_field ins.index (set_string (get_string cache_field []) out_field) out;
            cache = cache;
          })
          else decode_sent ins buffer size out_field cache_field out cache
      | delta ↦ fail
    ]

-- `decode(buffer, size, message, cacheMessage, tmpPtr)`; `fault` is a null field or a read past the
-- end of the memory.
unfoldable pub decode_string :
    StringInstruction → List ℕ → ℕ → Message → Message → ℕ → Outcome Decoded
decode_string ins buffer size out cache pmap = elim (get_field ins.index cache) [
  | none ↦ fault
  | some cache_field ↦ elim (get_field ins.index out) [
    | none ↦ fault
    | some out_field ↦ decode_string_value ins buffer size out_field cache_field out cache pmap
  ]
]
