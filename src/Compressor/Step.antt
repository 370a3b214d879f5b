-- ===== src/Compressor/Step.antt =====
-- One instruction of a template on both sides: what it sends, stores and hands over.
use flash_forwarder.Prelude.{
  ℕ, zero, suc, ◌^◌, ◌<◌, ◌≡◌, refl, sym, ap, ◌∙◌, List, [], ◌∷◌, some, Bool, true, false, not,
  ◌==◌, if◌then◌else◌, length, Bool-cases, inl, inr, ◌⊎◌, arith, get_elem?, set,
}
use flash_forwarder.WireFormat.Defs.{write_signed_varint64}
use flash_forwarder.Compressor.Fields.{
  Message, Field, string, get_value, set_value, get_string, set_string, get_field, put_field,
}
use flash_forwarder.Compressor.Integer.{
  Instruction, InstructionType, copy, delta, difference, write_copy, Encoded, encode_value,
  encode_fields, encode_integer, Decoded, set_pmap,
}
use flash_forwarder.Compressor.Strings.{
  StringInstruction, equal_bytes, write_string, encode_string_value, encode_string,
}
use flash_forwarder.Compressor.Template.{FieldInstruction, integer, text, Junk, encode_instruction}
use flash_forwarder.Compressor.InStep.{type_of, Fits, Suits, get_value-junk}

-- The value of a field that has the type of the instruction.
abbrev pub shown : Instruction → Field → ℕ
shown ins f = get_value ins.int_type f 0

abbrev pub sent_by : InstructionType → ℕ → ℕ → Bool
sent_by copy new old = not (new == old)
sent_by delta new old = true

-- Whether the field is in the message.
abbrev pub sent : FieldInstruction → Field → Field → Bool
sent (integer ins) f cf = sent_by ins.type (shown ins f) (shown ins cf)
sent (text ins) f cf = not (equal_bytes (get_string f []) (get_string cf []))

abbrev pub bytes_by : InstructionType → Instruction → ℕ → ℕ → List ℕ
bytes_by copy ins new old = write_copy ins new
bytes_by delta ins new old = write_signed_varint64 (difference ins.int_type new old)

abbrev pub whole_bytes : FieldInstruction → Field → Field → List ℕ
whole_bytes (integer ins) f cf = bytes_by ins.type ins (shown ins f) (shown ins cf)
whole_bytes (text ins) f cf = write_string (get_string f [])

abbrev pub bytes_of : FieldInstruction → Field → Field → List ℕ
bytes_of ins f cf = if sent ins f cf then whole_bytes ins f cf else []

-- The field `g` with the value of `f`.
abbrev pub hold : FieldInstruction → Field → Field → Field
hold (integer ins) f g = set_value ins.int_type (shown ins f) g
hold (text ins) f g = set_string (get_string f []) g

-- The cached field afterwards.
abbrev pub stored : FieldInstruction → Field → Field → Field
stored ins f cf = if sent ins f cf then hold ins f cf else cf

-- The out field afterwards: an integer that is not sent is left as it was.
abbrev pub received : FieldInstruction → Field → Field → Field → Field
received (integer ins) f cf of = if sent (integer ins) f cf then hold (integer ins) f of else of
received (text ins) f cf of = hold (text ins) f of

-- An instruction at place `i`, and the fields of the message and of the cache that it is right for.
abbrev pub Serves : ℕ → FieldInstruction → Field → Field → Type 0
Serves i (integer ins) f cf =
    (ins.index ≡ i)
    × (f.type ≡ type_of ins.int_type)
    × (cf.type ≡ type_of ins.int_type)
    × Suits ins.int_type ins.signed ins.short_bits
    × Fits ins.int_type (shown ins f)
    × Fits ins.int_type (shown ins cf)
Serves i (text ins) f cf =
    (ins.index ≡ i) × (ins.type ≡ copy) × (length (get_string f []) < 2 ^ 31) × (cf.type ≡ string)

set_self {ℓ} :
    {A : Type ℓ} (xs : List A) (i : ℕ) (x : A) → get_elem? xs i ≡ some x → set xs i x ≡ xs
set_self [] i x e = refl
set_self (y ∷ ys) zero x e = ap (λ t. t ∷ ys) (sym (ground (arith, e)))
set_self (y ∷ ys) (suc i) x e = ap (λ t. y ∷ t) (set_self ys i x e)

get_field-elem :
    (i : ℕ) (m : Message) (f : Field) → get_field i m ≡ some f → get_elem? m.fields i ≡ some f
unfolding get_field
get_field-elem i m f e = ground (arith, e)

-- A field put back where it was.
pub put_field_self :
    (i : ℕ) (m : Message) (f : Field) → get_field i m ≡ some f → put_field i f m ≡ m
unfolding put_field
put_field_self i m f e =
    ap (λ fs. record m { fields = fs }) (set_self m.fields i f (get_field-elem i m f e))

abbrev pub encoded : ℕ → FieldInstruction → Field → Field → Message → ℕ → Encoded
encoded i ins f cf cache pm = record {
  bytes = bytes_of ins f cf;
  cache = put_field i (stored ins f cf) cache;
  pmap = if sent ins f cf then set_pmap i pm else pm;
}

abbrev pub decoded : ℕ → FieldInstruction → Field → Field → Field → Message → Message → Decoded
decoded i ins f cf of out cache = record {
  consume = length (bytes_of ins f cf);
  out = put_field i (received ins f cf of) out;
  cache = put_field i (stored ins f cf) cache;
}

pub type_cases : (t : InstructionType) → (t ≡ copy) ⊎ (t ≡ delta)
type_cases copy = inl refl
type_cases delta = inr refl

encode_kept :
    (ins : Instruction) (new old : ℕ) (cf : Field) (cache : Message) (pm : ℕ)
    → ins.type ≡ copy
    → (new == old) ≡ true
    → encode_value ins new old cf cache pm ≡ record { bytes = []; cache = cache; pmap = pm }
unfolding encode_value
encode_kept ins new old cf cache pm c e = rw c (rw e refl)

encode_sent :
    (ins : Instruction) (new old : ℕ) (cf : Field) (cache : Message) (pm : ℕ)
    → sent_by ins.type new old ≡ true
    → encode_value ins new old cf cache pm ≡ record {
      bytes = bytes_by ins.type ins new old;
      cache = put_field ins.index (set_value ins.int_type new cf) cache;
      pmap = set_pmap ins.index pm;
    }
unfolding encode_value
encode_sent ins new old cf cache pm s = elim (type_cases ins.type) [
  | inl c ↦ let e : (new == old) ≡ false = ground (arith, c, s) in rw c (rw e refl)
  | inr d ↦ rw d refl
]

pub not-true : (b : Bool) → not b ≡ true → b ≡ false
not-true b h = ground arith

pub not-false : (b : Bool) → not b ≡ false → b ≡ true
not-false b h = ground arith

pub unsent-copy :
    (t : InstructionType) (new old : ℕ)
    → sent_by t new old ≡ false
    → (t ≡ copy) × ((new == old) ≡ true)
unsent-copy copy new old h = (refl, not-false _ h)
unsent-copy delta new old h = cc

-- `encode` of an integer, on the values of the two fields.
encode_value_lem :
    (ins : Instruction) (f cf : Field) (cache : Message) (pm : ℕ)
    → get_field ins.index cache ≡ some cf
    → encode_value ins (shown ins f) (shown ins cf) cf cache pm
      ≡ encoded ins.index (integer ins) f cf cache pm
encode_value_lem ins f cf cache pm has = elim (Bool-cases (sent (integer ins) f cf)) [
  | inl s ↦ encode_sent ins (shown ins f) (shown ins cf) cf cache pm s ∙ sym (simp s refl)
  | inr u ↦
      let (c, e) = unsent-copy ins.type (shown ins f) (shown ins cf) u in
      encode_kept ins (shown ins f) (shown ins cf) cf cache pm c e
      ∙ ap (λ (m : Message). record { bytes = []; cache = m; pmap = pm })
          (sym (put_field_self ins.index cache cf has))
      ∙ sym (simp u refl)
]

encode_integer_lem :
    (ins : Instruction) (j j' : ℕ) (m cache : Message) (f cf : Field) (pm : ℕ)
    → get_field ins.index m ≡ some f
    → get_field ins.index cache ≡ some cf
    → f.type ≡ type_of ins.int_type
    → cf.type ≡ type_of ins.int_type
    → encode_integer ins j j' m cache pm ≡ some (encoded ins.index (integer ins) f cf cache pm)
unfolding encode_integer encode_fields
encode_integer_lem ins j j' m cache f cf pm hf hc tf tc =
    rw (hf, encode_integer)
      (rw (hc, encode_fields)
        (rw (get_value-junk ins.int_type f j 0 tf) (
          rw (get_value-junk ins.int_type cf j' 0 tc)
            (ap some (encode_value_lem ins f cf cache pm hc)))))

encode_string_kept :
    (ins : StringInstruction) (new : List ℕ) (cf : Field) (cache : Message) (pm : ℕ)
    → ins.type ≡ copy
    → equal_bytes new (get_string cf []) ≡ true
    → encode_string_value ins new cf cache pm ≡ record { bytes = []; cache = cache; pmap = pm }
unfolding encode_string_value
encode_string_kept ins new cf cache pm c e = rw c (rw e refl)

encode_string_sent :
    (ins : StringInstruction) (new : List ℕ) (cf : Field) (cache : Message) (pm : ℕ)
    → ins.type ≡ copy
    → equal_bytes new (get_string cf []) ≡ false
    → encode_string_value ins new cf cache pm ≡ record {
      bytes = write_string new;
      cache = put_field ins.index (set_string new cf) cache;
      pmap = set_pmap ins.index pm;
    }
unfolding encode_string_value
encode_string_sent ins new cf cache pm c e = rw c (rw e refl)

encode_string_lem :
    (ins : StringInstruction) (m cache : Message) (f cf : Field) (pm : ℕ)
    → ins.type ≡ copy
    → get_field ins.index m ≡ some f
    → get_field ins.index cache ≡ some cf
    → encode_string ins m cache pm ≡ some (encoded ins.index (text ins) f cf cache pm)
unfolding encode_string
encode_string_lem ins m cache f cf pm c hf hc =
    let run : encode_string ins m cache pm
        ≡ some (encode_string_value ins (get_string f []) cf cache pm) =
      rw (hf, encode_string) (rw hc refl) in
    elim (Bool-cases (sent (text ins) f cf)) [
      | inl s ↦
          run
          ∙ ap some (encode_string_sent ins (get_string f []) cf cache pm c (not-true _ s))
          ∙ sym (simp s refl)
      | inr u ↦
          run
          ∙ ap some (encode_string_kept ins (get_string f []) cf cache pm c (not-false _ u))
          ∙ ap (λ (k : Message). some (record { bytes = []; cache = k; pmap = pm }))
              (sym (put_field_self ins.index cache cf hc))
          ∙ sym (simp u refl)
    ]

-- `encode` of one instruction, at its place.
pub encode_instruction_lem :
    (i : ℕ) (ins : FieldInstruction) (junk : Junk) (m cache : Message) (f cf : Field) (pm : ℕ)
    → Serves i ins f cf
    → get_field i m ≡ some f
    → get_field i cache ≡ some cf
    → encode_instruction ins junk m cache pm ≡ some (encoded i ins f cf cache pm)
unfolding encode_instruction
encode_instruction_lem i (integer ins) junk m cache f cf pm (at, tf, tc, _, _, _) hf hc =
    encode_integer_lem ins _ _ m cache f cf pm (rw at hf) (rw at hc) tf tc
    ∙ ap (λ k. some (encoded k (integer ins) f cf cache pm)) at
encode_instruction_lem i (text ins) junk m cache f cf pm (at, c, _, _) hf hc =
    encode_string_lem ins m cache f cf pm c (rw at hf) (rw at hc)
    ∙ ap (λ k. some (encoded k (text ins) f cf cache pm)) at
