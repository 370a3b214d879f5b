-- ===== src/Compressor/Examples.antt =====
-- Runs of the integer instructions, and their theorems at concrete inputs.
use flash_forwarder.Prelude.{
  ℕ, ◌^◌, ◌≡◌, refl, List, [], ◌∷◌, ◌++◌, true, false, some, length, arith,
}
use flash_forwarder.WireFormat.Defs.{
  done, write_signed_varint64, write_varint64, varint64_bytes, zigzag_encode64,
}
use flash_forwarder.Compressor.Fields.{
  c_int64, c_uint32, int64, uint32, Field, Message, get_field, get_value, set_value, put_field,
  new_field, string, get_string, set_string,
}
use flash_forwarder.Compressor.Integer.{
  Instruction, copy, delta, encode_integer, encode_fields, encode_value, encode_full,
  decode_integer, Encoded,
}
use flash_forwarder.Compressor.Strings.{StringInstruction, encode_string, decode_string}
use flash_forwarder.Compressor.StringStep.{string-in_step}
use flash_forwarder.Compressor.InStep.{InStep, copy-InStep, delta-InStep}
use flash_forwarder.Compressor.Full.{decode_integer-encode_full}

abbrev price : Instruction
price = record { int_type = c_int64; signed = true; short_bits = false; type = delta; index = 0 }

abbrev volume : Instruction
volume = record { int_type = c_uint32; signed = false; short_bits = true; type = copy; index = 1 }

abbrev fields : ℕ → ℕ → List Field
fields p v =
    record { string_value = []; sint_value = p; uint_value = 0; type = int64 }
    ∷ record { string_value = []; sint_value = 0; uint_value = v; type = uint32 }
    ∷ []

abbrev order : ℕ → ℕ → Message
order p v = record { index = 0; template_id = 0; field_count = 2; fields = fields p v }

-- A price that fell by 2 is sent as the zigzag number 3.
price_run :
    encode_integer price 0 0 (order 998 7) (order 1000 7) 0
    ≡ some (record { bytes = 3 ∷ []; cache = order 998 7; pmap = 1 })
unfolding encode_integer encode_fields encode_value get_field get_value set_value put_field
    write_signed_varint64 write_varint64 varint64_bytes zigzag_encode64
price_run = refl

delta-InStep_example :
    InStep price 5
      (9 ∷ [])
      (order 1000 7)
      (order 0 0)
      (new_field int64)
      1
      998
      (encode_integer price 0 0 (order 998 7) (order 1000 7) 0)
unfolding get_field get_value
delta-InStep_example =
    delta-InStep price 0 0 5 (order 998 7) (order 1000 7) (order 0 0)
      (record { string_value = []; sint_value = 998; uint_value = 0; type = int64 })
      (record { string_value = []; sint_value = 1000; uint_value = 0; type = int64 })
      (new_field int64) (9 ∷ []) 0 1 refl refl refl refl refl refl (omega arith) (omega arith)

copy-InStep_example :
    InStep volume 5 []
      (order 1000 7)
      (order 0 0)
      (new_field uint32)
      2
      300
      (encode_integer volume 0 0 (order 998 300) (order 1000 7) 0)
unfolding get_field get_value
copy-InStep_example =
    copy-InStep volume 0 0 5 (order 998 300) (order 1000 7) (order 0 0)
      (record { string_value = []; sint_value = 0; uint_value = 300; type = uint32 })
      (record { string_value = []; sint_value = 0; uint_value = 7; type = uint32 })
      (new_field uint32) [] 0 2 refl refl refl refl refl (refl, refl) (omega arith) (omega arith)
      (omega arith)

decode_integer-encode_full_example :
    (b : List ℕ) × (encode_full volume 0 (order 998 300) ≡ some b)
    × (decode_integer volume 5 (b ++ 9 ∷ []) (length (b ++ 9 ∷ [])) (order 0 0) (order 1 2) (2 ^ 31)
        ≡ done (record {
          consume = length b;
          out = put_field 1 (set_value c_uint32 300 (new_field uint32)) (order 0 0);
          cache =
              put_field 1
                (set_value c_uint32 300 (record (new_field uint32) { uint_value = 2 }))
                (order 1 2);
        }))
unfolding get_field get_value
decode_integer-encode_full_example =
    decode_integer-encode_full volume 0 5 (order 998 300) (order 0 0) (order 1 2)
      (record { string_value = []; sint_value = 0; uint_value = 300; type = uint32 })
      (new_field uint32) (record (new_field uint32) { uint_value = 2 }) (9 ∷ []) (2 ^ 31) refl refl
      refl (omega arith) (omega arith)

abbrev code : StringInstruction
code = record { type = copy; index = 0 }

abbrev symbol : List ℕ → Message
symbol v = record {
  index = 0;
  template_id = 0;
  field_count = 1;
  fields = record { string_value = v; sint_value = 0; uint_value = 0; type = string } ∷ [];
}

string-in_step_example :
    (e : Encoded) × (encode_string code (symbol (65 ∷ 66 ∷ [])) (symbol (65 ∷ [])) 0 ≡ some e)
    × (decode_string code
          (e.bytes ++ 9 ∷ [])
          (length (e.bytes ++ 9 ∷ []))
          (symbol [])
          (symbol (65 ∷ []))
          1
        ≡ done (record {
          consume = length e.bytes;
          out = put_field 0 (set_string (65 ∷ 66 ∷ []) (new_field string)) (symbol []);
          cache = e.cache;
        }))
unfolding get_field get_string
string-in_step_example =
    string-in_step code (symbol (65 ∷ 66 ∷ [])) (symbol (65 ∷ [])) (symbol [])
      (record { string_value = 65 ∷ 66 ∷ []; sint_value = 0; uint_value = 0; type = string })
      (record { string_value = 65 ∷ []; sint_value = 0; uint_value = 0; type = string })
      (new_field string) (9 ∷ []) 0 1 refl refl refl refl (omega arith) (omega arith) refl
