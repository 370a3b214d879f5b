-- ===== src/Compressor/Exchange.antt =====
-- A template and two contexts at work, and their theorems at concrete inputs.
use flash_forwarder.Prelude.{
  ℕ, ◌+◌, ◌^◌, ◌≤◌, ◌<◌, bit_and, ◌≡◌, ◌≢◌, refl, List, [], ◌∷◌, ◌++◌, some, true, false, length,
  arith,
}
use flash_forwarder.Compressor.Fields.{
  c_int64, c_uint32, int64, uint32, string, Field, Message, get_value, get_string,
}
use flash_forwarder.Compressor.Integer.{copy, delta, store_host}
use flash_forwarder.Compressor.Template.{
  FieldInstruction, integer, text, Junk, Template, put_parts, encode_template, accepted,
  decode_template,
}
use flash_forwarder.Compressor.Rows.{
  all_bytes, Marks, all_stored, all_received, AllServe, nil, row, with_fields,
}
use flash_forwarder.Compressor.TemplateStep.{template-in_step, encode_template-Marks}
use flash_forwarder.Compressor.Values.{AllAgree, template-AllAgree}
use flash_forwarder.Compressor.Context.{
  Context, get_template, written, encode_context, read, endless, decode_context,
}
use flash_forwarder.Compressor.ContextStep.{
  Fitting, Holds, with_cache, stored_fields, handed_over, context-in_step,
}
use flash_forwarder.Compressor.Ends.{decode_context-ne-endless}

-- A price sent as a difference, a volume and a symbol sent when they change.
abbrev instructions : List FieldInstruction
instructions =
    integer
      (record { int_type = c_int64; signed = true; short_bits = false; type = delta; index = 0 })
    ∷ integer
        (record { int_type = c_uint32; signed = false; short_bits = true; type = copy; index = 1 })
    ∷ text (record { type = copy; index = 2 })
    ∷ []

abbrev fields : ℕ → ℕ → List ℕ → List Field
fields p v s =
    record { string_value = []; sint_value = p; uint_value = 0; type = int64 }
    ∷ record { string_value = []; sint_value = 0; uint_value = v; type = uint32 }
    ∷ record { string_value = s; sint_value = 0; uint_value = 0; type = string }
    ∷ []

abbrev message : ℕ → ℕ → List ℕ → Message
message p v s = record { index = 0; template_id = 0; field_count = 3; fields = fields p v s }

abbrev quote : Template
quote = record { id = 7; index = 0; instructions = instructions; message = message 0 0 [] }

abbrev no_junk : Junk
no_junk = record { new = λ i. i; cached = λ i. i + 5 }

abbrev new : Message
new = message 998 300 (65 ∷ [])

abbrev old : Message
old = message 1000 7 (65 ∷ [])

serve : AllServe 0 instructions (fields 998 300 (65 ∷ [])) (fields 1000 7 (65 ∷ [])) (fields 0 0 [])
unfolding get_value get_string
serve =
    row (refl, refl, refl, (refl, refl), omega arith, omega arith)
      (row (refl, refl, refl, (refl, refl), omega arith, omega arith)
        (row (refl, refl, omega arith, refl) nil))

template-in_step_example :
    (pmap : ℕ) × (b : List ℕ) × (encode_template quote no_junk new old
      ≡ some
          (put_parts 7 0 pmap b, with_fields old (all_stored instructions new.fields old.fields)))
    × (let body = store_host 4 pmap ++ (b ++ (9 ∷ [])) in
        decode_template quote no_junk body (length body) old
        ≡ accepted
            (4 + length b)
            (with_fields
              (message 0 0 [])
              (all_received instructions new.fields old.fields (fields 0 0 [])))
            (with_fields old (all_stored instructions new.fields old.fields)))
template-in_step_example =
    template-in_step quote no_junk no_junk new old old (9 ∷ []) serve (omega arith) refl refl refl
      refl refl

template-AllAgree_example :
    (pmap : ℕ) × (b : List ℕ) × (sender : Message) × (encode_template quote no_junk new old
      ≡ some (put_parts 7 0 pmap b, sender))
    × AllAgree instructions new.fields sender.fields
    × (let body = store_host 4 pmap ++ (b ++ (9 ∷ [])) in
        (out : Message) × (receiver : Message) × (decode_template quote no_junk body
            (length body)
            old
          ≡ accepted (4 + length b) out receiver)
        × AllAgree instructions new.fields receiver.fields)
template-AllAgree_example =
    template-AllAgree quote no_junk no_junk new old old (9 ∷ []) serve (omega arith) refl refl refl
      refl refl

encode_template-Marks_example :
    (pmap : ℕ) × (cache' : Message) × (encode_template quote no_junk new old
      ≡ some (put_parts 7 0 pmap (all_bytes instructions new.fields old.fields), cache'))
    × (pmap < 2 ^ 32)
    × Marks pmap 0 instructions new.fields old.fields
    × ((k : ℕ) → length instructions ≤ k → bit_and pmap (2 ^ k) ≡ 0)
encode_template-Marks_example =
    encode_template-Marks quote no_junk new old serve (omega arith) refl refl

-- The symbol's bytes are the token, and its cache message stands at place 0.
abbrev context : Context
context = record {
  templates = record { map = (7, quote) ∷ []; index = 1 };
  maps = ((65 ∷ [], 0) ∷ []) ∷ [];
  arrays = (some old ∷ []) ∷ [];
}

fitting : Fitting quote new old old
fitting = record {
  serve = serve;
  few = omega arith;
  same = refl;
  counted = refl;
  counted_cache = refl;
  counted_cache' = refl;
  counted_out = refl;
  id_bound = omega arith;
  index_bound = omega arith;
}

holds : Holds context quote (some old ∷ []) 0 old
unfolding get_template
holds = record { known = refl; arrays = refl; cached = refl }

context-in_step_example :
    (bytes : List ℕ) × (encode_context context no_junk new 7 (65 ∷ [])
      ≡ written bytes (
          with_cache context quote
            (some old ∷ [])
            0
            (with_fields old (stored_fields quote new old))))
    × (decode_context context no_junk bytes []
        ≡ read (handed_over quote new old ∷ []) (
            with_cache context quote
              (some old ∷ [])
              0
              (with_fields old (stored_fields quote new old))))
context-in_step_example =
    context-in_step context context no_junk no_junk quote new old old (65 ∷ []) ((65 ∷ [], 0) ∷ [])
      (some old ∷ []) (some old ∷ []) 0 [] fitting refl refl holds holds

decode_context-ne-endless_example : decode_context context no_junk (7 ∷ 0 ∷ 1 ∷ []) [] ≢ endless
decode_context-ne-endless_example = decode_context-ne-endless context no_junk (7 ∷ 0 ∷ 1 ∷ []) []
