-- ===== src/Compressor/Template.antt =====
-- src/Template.hpp and src/Templates.hpp. `setpMap` stands in Compressor/Integer.antt. pMap_ is set anew
-- by each call that reads it, so it is an argument of the loops and no field. A size is below 2^31.
use flash_forwarder.Prelude.{
  ℕ, ◌+◌, ◌-◌, ◌%◌, ◌^◌, List, [], ◌∷◌, ◌++◌, Option, none, some, true, false, ltb, ◌==◌,
  if◌then◌else◌, length, drop,
}
use flash_forwarder.WireFormat.Defs.{Outcome, done, fail, fault, write_varint32, write_varint64}
use flash_forwarder.Compressor.Fields.{Message}
use flash_forwarder.Compressor.Integer.{
  Instruction, Encoded, encode_integer, encode_full, Decoded, decode_integer, store_host, load_host,
}
use flash_forwarder.Compressor.Strings.{
  StringInstruction, encode_string, encode_string_full, decode_string,
}

-- The subclasses of `FieldInstruction`.
pub data FieldInstruction : Type 0 where
  integer : Instruction → FieldInstruction
  text : StringInstruction → FieldInstruction

-- What uninitialised variables hold, by the index of their instruction: `newValue` and `cacheValue` of
-- `encode`, and `cacheValue` of `decode`.
pub record Junk : Type 0 where
  pub new : ℕ → ℕ
  pub cached : ℕ → ℕ

unfoldable pub encode_instruction : FieldInstruction → Junk → Message → Message → ℕ → Option Encoded
encode_instruction (integer ins) junk message cache pmap =
    encode_integer ins (junk.new ins.index) (junk.cached ins.index) message cache pmap
encode_instruction (text ins) junk message cache pmap = encode_string ins message cache pmap

unfoldable pub encode_instruction_full : FieldInstruction → Junk → Message → Option (List ℕ)
encode_instruction_full (integer ins) junk message = encode_full ins (junk.new ins.index) message
encode_instruction_full (text ins) junk message = encode_string_full ins message

unfoldable pub decode_instruction :
    FieldInstruction → Junk → List ℕ → ℕ → Message → Message → ℕ → Outcome Decoded
decode_instruction (integer ins) junk buffer size out cache pmap =
    decode_integer ins (junk.cached ins.index) buffer size out cache pmap
decode_instruction (text ins) junk buffer size out cache pmap =
    decode_string ins buffer size out cache pmap

pub record Template : Type 0 where
  pub id : ℕ
  pub index : ℕ
  pub instructions : List FieldInstruction
  pub message : Message

abbrev pub set_instruction_index : ℕ → FieldInstruction → FieldInstruction
set_instruction_index i (integer ins) = integer (record ins { index = i })
set_instruction_index i (text ins) = text (record ins { index = i })

-- `instrcutionArray_.size() - 1` is the number of the instructions before.
unfoldable pub add_instruction : FieldInstruction → Template → Template
add_instruction ins t = record t {
  instructions = t.instructions ++ set_instruction_index (length t.instructions % 2 ^ 16) ins ∷ [];
}

-- The loop over the instructions: the bytes that it appends, and the cache and pMap_ after it.
unfoldable pub encode_all : List FieldInstruction → Junk → Message → Message → ℕ → Option Encoded
encode_all [] junk message cache pmap = some (record { bytes = []; cache = cache; pmap = pmap })
encode_all (ins ∷ rest) junk message cache pmap =
    elim (encode_instruction ins junk message cache pmap) [
      | none ↦ none
      | some e ↦ elim (encode_all rest junk message e.cache e.pmap) [
        | none ↦ none
        | some e' ↦ some (record e' { bytes = e.bytes ++ e'.bytes })
      ]
    ]

-- The template id, the message index, the four bytes reserved for the pmap, and the fields.
abbrev pub put_parts : ℕ → ℕ → ℕ → List ℕ → List ℕ
put_parts id index pmap bytes =
    write_varint32 id ++ (write_varint64 index ++ (store_host 4 pmap ++ bytes))

-- `encode(message, cacheMessage, buffer)`: what it appends, and the cache message. The pmap is stored
-- last, in the place reserved for it.
unfoldable pub encode_template : Template → Junk → Message → Message → Option (List ℕ × Message)
encode_template t junk message cache = elim (encode_all t.instructions junk message cache 0) [
  | none ↦ none
  | some e ↦ some (put_parts t.id cache.index e.pmap e.bytes, e.cache)
]

unfoldable pub encode_all_full : List FieldInstruction → Junk → Message → Option (List ℕ)
encode_all_full [] junk message = some []
encode_all_full (ins ∷ rest) junk message = elim (encode_instruction_full ins junk message) [
  | none ↦ none
  | some b ↦ elim (encode_all_full rest junk message) [ none ↦ none | some bs ↦ some (b ++ bs) ]
]

-- `encode(message, buffer)`
unfoldable pub encode_template_full : Template → Junk → Message → Option (List ℕ)
encode_template_full t junk message = elim (encode_all_full t.instructions junk message) [
  | none ↦ none
  | some bs ↦ some (put_parts t.id message.index (2 ^ 31) bs)
]

-- `accepted n out cache`: `decode` returned `n` and had pushed `out`; `refused cache`: it returned -1,
-- and the cache message is as far as it had come; `crash`: a null field or a read past the memory.
pub data Decoding : Type 0 where
  accepted : ℕ → Message → Message → Decoding
  refused : Message → Decoding
  crash : Decoding

-- The loop, with the bytes left and `bufferSize`; it ends early when `bufferSize` is negative.
unfoldable pub decode_all :
    List FieldInstruction → Junk → List ℕ → ℕ → ℕ → Message → Message → ℕ → Decoding
decode_all [] junk buffer size consume out cache pmap = accepted consume out cache
decode_all (ins ∷ rest) junk buffer size consume out cache pmap =
    elim (decode_instruction ins junk buffer size out cache pmap) [
      | done d ↦ elim (ltb size d.consume) [
        | true ↦ accepted (consume + d.consume) d.out d.cache
        | false ↦
            decode_all rest junk (drop d.consume buffer) (size - d.consume) (consume + d.consume)
              d.out d.cache pmap
      ]
      | fail ↦ refused cache
      | fault ↦ crash
    ]

unfoldable pub decode_fields_from : Template → Junk → List ℕ → ℕ → Message → Outcome ℕ → Decoding
decode_fields_from t junk buffer size cache (done pmap) =
    if ltb size 4
    then accepted 4 t.message cache
    else decode_all t.instructions junk (drop 4 buffer) (size - 4) 4 t.message cache pmap
decode_fields_from t junk buffer size cache fail = crash
decode_fields_from t junk buffer size cache fault = crash

-- `decode(buffer, size, message, cacheMessage)`: the message pushed starts as the template's.
unfoldable pub decode_template : Template → Junk → List ℕ → ℕ → Message → Decoding
decode_template t junk buffer size cache =
    if size == 0
    then refused cache
    else decode_fields_from t junk buffer size cache (load_host 4 buffer)
