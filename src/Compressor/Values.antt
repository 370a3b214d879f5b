-- ===== src/Compressor/Values.antt =====
-- The values in the cache after a message.
use flash_forwarder.Prelude.{
  ℕ, ◌+◌, ◌≤◌, ◌≡◌, sym, List, [], ◌∷◌, ◌++◌, some, length, Bool-cases, inl, inr, ==→eq, arith,
}
use flash_forwarder.Compressor.Fields.{
  IntType, c_int32, c_uint32, c_int64, c_uint64, Field, string, Message, get_value, set_value,
  get_string, set_string,
}
use flash_forwarder.Compressor.Integer.{store_host}
use flash_forwarder.Compressor.Template.{
  FieldInstruction, integer, text, Junk, Template, put_parts, encode_template, accepted,
  decode_template,
}
use flash_forwarder.Compressor.InStep.{type_of, Fits}
use flash_forwarder.Compressor.StringStep.{equal_bytes→eq}
use flash_forwarder.Compressor.Step.{shown, sent, stored, Serves, not-false, unsent-copy}
use flash_forwarder.Compressor.Rows.{AllServe, nil, row, all_stored}
use flash_forwarder.Compressor.TemplateStep.{template-in_step}

-- Two fields have one value for an instruction.
abbrev pub Agree : FieldInstruction → Field → Field → Type 0
Agree (integer ins) f c = shown ins c ≡ shown ins f
Agree (text ins) f c = get_string c [] ≡ get_string f []

abbrev pub AllAgree : List FieldInstruction → List Field → List Field → Type 0
AllAgree (ins ∷ is) (f ∷ fs) (c ∷ cs) = Agree ins f c × AllAgree is fs cs
AllAgree _ _ _ = Unit {0}

get_value-set_value :
    (t : IntType) (v : ℕ) (g : Field)
    → g.type ≡ type_of t
    → Fits t v
    → get_value t (set_value t v g) 0 ≡ v
unfolding get_value set_value
get_value-set_value c_int32 v g e h = rw (e, set_value) (ground arith)
get_value-set_value c_uint32 v g e h = rw (e, set_value) (ground arith)
get_value-set_value c_int64 v g e h = rw (e, set_value) (ground arith)
get_value-set_value c_uint64 v g e h = rw (e, set_value) (ground arith)

get_string-set_string :
    (v : List ℕ) (g : Field) → g.type ≡ string → get_string (set_string v g) [] ≡ v
unfolding get_string set_string
get_string-set_string v g e = rw (e, set_string) (ground arith)

stored-Agree :
    (i : ℕ) (ins : FieldInstruction) (f c : Field) → Serves i ins f c → Agree ins f (stored ins f c)
stored-Agree i (integer ins) f c (at, tf, tc, s, vf, vc) =
    elim (Bool-cases (sent (integer ins) f c)) [
      | inl s ↦ rw s (get_value-set_value ins.int_type (shown ins f) c tc vf)
      | inr u ↦
          let (_, e) = unsent-copy ins.type (shown ins f) (shown ins c) u in
          rw u (sym (==→eq _ _ e))
    ]
stored-Agree i (text ins) f c (at, k, small, tc) = elim (Bool-cases (sent (text ins) f c)) [
  | inl s ↦ rw s (get_string-set_string (get_string f []) c tc)
  | inr u ↦ rw u (sym (equal_bytes→eq (get_string f []) (get_string c []) (not-false _ u)))
]

-- Sent or not field by field, the fields of the cache have its values.
all_stored-AllAgree :
    {i : ℕ} {is : List FieldInstruction} {fs cs os : List Field}
    → AllServe i is fs cs os
    → AllAgree is fs (all_stored is fs cs)
all_stored-AllAgree nil = tt
all_stored-AllAgree (row {i} {ins} {f = f} {c = c} a as') =
    (stored-Agree i ins f c a, all_stored-AllAgree as')

-- A message of a template, with field operation, that `encode` appends and `decode` takes, where the
-- instructions, 31 at most, are right for the fields of the message and of the caches, which have the
-- same fields on both sides: afterwards the cache message of either side has the values of the
-- message, in every field and for its instruction, whichever of them were sent.
pub template-AllAgree :
    (t : Template) (junk junk' : Junk) (m cache cache' : Message) (rest : List ℕ)
    → AllServe 0 t.instructions m.fields cache.fields t.message.fields
    → length t.instructions ≤ 31
    → cache'.fields ≡ cache.fields
    → m.field_count ≡ length m.fields
    → cache.field_count ≡ length cache.fields
    → cache'.field_count ≡ length cache'.fields
    → t.message.field_count ≡ length t.message.fields
    → (pmap : ℕ) × (b : List ℕ) × (sender : Message) × (encode_template t junk m cache
        ≡ some (put_parts t.id cache.index pmap b, sender))
      × AllAgree t.instructions m.fields sender.fields
      × (let body = store_host 4 pmap ++ (b ++ rest) in
          (out : Message) × (receiver : Message) × (decode_template t junk' body
              (length body)
              cache'
            ≡ accepted (4 + length b) out receiver)
          × AllAgree t.instructions m.fields receiver.fields)
template-AllAgree t junk junk' m cache cache' rest a few same cm cn cn' ct =
    let (pmap, b, encoded, decoded) =
      template-in_step t junk junk' m cache cache' rest a few same cm cn cn' ct in
    let agree = all_stored-AllAgree a in (pmap, b, _, encoded, agree, (_, _, decoded, agree))
