-- ===== src/Compressor/StepBack.antt =====
-- `decode` of one instruction, at its place.
use flash_forwarder.Prelude.{
  ℕ, ◌^◌, ◌≤◌, ◌≡◌, ◌≢◌, refl, sym, ap, ◌∙◌, List, [], ◌++◌, some, true, false, not, ◌==◌, length,
  bit_and, Bool-cases, inl, inr, ne→==_false, eq→==, arith, length-append,
}
use flash_forwarder.WireFormat.Defs.{Outcome, done, write_signed_varint64, read_signed_varint64}
use flash_forwarder.WireFormat.ZigZag.{read_signed_varint64-write_signed_varint64}
use flash_forwarder.Compressor.Fields.{
  Message, Field, get_value, get_string, set_string, get_field, put_field,
}
use flash_forwarder.Compressor.Integer.{
  Instruction, copy, delta, difference, moved, write_copy, read_copy, Decoded, give, decode_value,
  decode_fields, decode_integer,
}
use flash_forwarder.Compressor.Strings.{
  StringInstruction, decode_sent, decode_string_value, decode_string,
}
use flash_forwarder.Compressor.Template.{FieldInstruction, integer, text, Junk, decode_instruction}
use flash_forwarder.Compressor.InStep.{
  moved-difference, difference-lt, get_value-junk, read_copy-by_type, le→ltb_false,
}
use flash_forwarder.Compressor.StringStep.{equal_bytes→eq, decode_sent_lem}
use flash_forwarder.Compressor.Step.{
  shown, sent, bytes_by, bytes_of, Serves, decoded, put_field_self, type_cases, not-false,
  unsent-copy,
}

decode_copy_lem :
    (ins : Instruction) (k : ℕ) (b : List ℕ) (size v n : ℕ) (of cf : Field) (out cache : Message)
    (pmap : ℕ)
    → bit_and pmap (2 ^ 31) ≡ 0
    → ins.type ≡ copy
    → (bit_and pmap (2 ^ ins.index) == 0) ≡ false
    → read_copy ins b ≡ done (v, n)
    → n ≤ size
    → decode_value ins k b size of cf out cache pmap ≡ done (give ins v n of cf out cache)
unfolding decode_value
decode_copy_lem ins k b size v n of cf out cache pmap partial ty set r le =
    rw (eq→== _ _ partial) (rw ty (rw set (rw r (rw (le→ltb_false size n le) refl))))

decode_kept_lem :
    (ins : Instruction) (k : ℕ) (b : List ℕ) (size : ℕ) (of cf : Field) (out cache : Message)
    (pmap : ℕ)
    → bit_and pmap (2 ^ 31) ≡ 0
    → ins.type ≡ copy
    → (bit_and pmap (2 ^ ins.index) == 0) ≡ true
    → decode_value ins k b size of cf out cache pmap
      ≡ done (record { consume = 0; out = out; cache = cache })
unfolding decode_value
decode_kept_lem ins k b size of cf out cache pmap partial ty set =
    rw (eq→== _ _ partial) (rw ty (rw set refl))

decode_delta_lem :
    (ins : Instruction) (k : ℕ) (b : List ℕ) (size v d n : ℕ) (of cf : Field) (out cache : Message)
    (pmap : ℕ)
    → bit_and pmap (2 ^ 31) ≡ 0
    → ins.type ≡ delta
    → read_signed_varint64 b ≡ done (d, n)
    → moved ins.int_type (get_value ins.int_type cf k) d ≡ v
    → n ≤ size
    → decode_value ins k b size of cf out cache pmap ≡ done (give ins v n of cf out cache)
unfolding decode_value
decode_delta_lem ins k b size v d n of cf out cache pmap partial ty r e le =
    rw (eq→== _ _ partial)
      (rw ty (rw r (rw (le→ltb_false size n le) (ap (λ t. done (give ins t n of cf out cache)) e))))

-- An integer that is in the message.
decode_sent_integer :
    (ins : Instruction) (k : ℕ) (f of cf : Field) (out cache : Message) (pmap : ℕ) (rest : List ℕ)
    → Serves ins.index (integer ins) f cf
    → bit_and pmap (2 ^ 31) ≡ 0
    → (bit_and pmap (2 ^ ins.index) == 0) ≡ false
    → (let b = bytes_by ins.type ins (shown ins f) (shown ins cf) in
        decode_value ins k (b ++ rest) (length (b ++ rest)) of cf out cache pmap
        ≡ done (give ins (shown ins f) (length b) of cf out cache))
decode_sent_integer ins k f of cf out cache pmap rest (at, tf, tc, s, vf, vc) partial set =
    let new = shown ins f in
    let old = shown ins cf in
    elim (type_cases ins.type) [
      | inl c ↦
          let b = write_copy ins new in
          let e : bytes_by ins.type ins new old ≡ b = ap (λ t. bytes_by t ins new old) c in
          rw e (
            decode_copy_lem ins k (b ++ rest) (length (b ++ rest)) new (length b) of cf out cache
              pmap partial c set (read_copy-by_type ins.int_type ins new rest refl s vf)
              (omega (arith, length-append b rest)))
      | inr d ↦
          let x = difference ins.int_type new old in
          let b = write_signed_varint64 x in
          let e : bytes_by ins.type ins new old ≡ b = ap (λ t. bytes_by t ins new old) d in
          rw e (
            decode_delta_lem ins k (b ++ rest) (length (b ++ rest)) new x (length b) of cf out cache
              pmap partial d
              (read_signed_varint64-write_signed_varint64 x rest
                (difference-lt ins.int_type new old))
              (ap (λ o. moved ins.int_type o x) (get_value-junk ins.int_type cf k 0 tc)
                ∙ moved-difference ins.int_type new old vf vc)
              (omega (arith, length-append b rest)))
    ]

decode_integer_run :
    (ins : Instruction) (k : ℕ) (b : List ℕ) (size : ℕ) (of cf : Field) (out cache : Message)
    (pmap : ℕ)
    → get_field ins.index out ≡ some of
    → get_field ins.index cache ≡ some cf
    → decode_integer ins k b size out cache pmap ≡ decode_value ins k b size of cf out cache pmap
unfolding decode_integer decode_fields
decode_integer_run ins k b size of cf out cache pmap ho hc =
    rw (ho, decode_integer) (rw (hc, decode_fields) refl)

-- Nothing read, and both messages put back as they were.
put_back :
    (i n : ℕ) (of cf : Field) (out cache : Message)
    → get_field i out ≡ some of
    → get_field i cache ≡ some cf
    → ◌≡◌ {A = Outcome Decoded}
        (done (record { consume = n; out = out; cache = cache }))
        (done (record { consume = n; out = put_field i of out; cache = put_field i cf cache }))
put_back i n of cf out cache ho hc =
    ap (λ (o : Message). done (record { consume = n; out = o; cache = cache }))
      (sym (put_field_self i out of ho))
    ∙ ap (λ (c : Message). done (record { consume = n; out = put_field i of out; cache = c }))
        (sym (put_field_self i cache cf hc))

decode_integer_lem :
    (ins : Instruction) (k : ℕ) (f of cf : Field) (out cache : Message) (pmap : ℕ) (rest : List ℕ)
    → Serves ins.index (integer ins) f cf
    → get_field ins.index out ≡ some of
    → get_field ins.index cache ≡ some cf
    → bit_and pmap (2 ^ 31) ≡ 0
    → (bit_and pmap (2 ^ ins.index) == 0) ≡ not (sent (integer ins) f cf)
    → (let b = bytes_of (integer ins) f cf in
        decode_integer ins k (b ++ rest) (length (b ++ rest)) out cache pmap
        ≡ done (decoded ins.index (integer ins) f cf of out cache))
decode_integer_lem ins k f of cf out cache pmap rest serves ho hc partial bit =
    let b = bytes_of (integer ins) f cf in
    decode_integer_run ins k (b ++ rest) (length (b ++ rest)) of cf out cache pmap ho hc
    ∙ elim (Bool-cases (sent (integer ins) f cf)) [
      | inl s ↦
          simp s
            (decode_sent_integer ins k f of cf out cache pmap rest serves partial (bit ∙ ap not s))
      | inr u ↦ simp u (
          decode_kept_lem ins k rest (length rest) of cf out cache pmap partial
            (unsent-copy ins.type (shown ins f) (shown ins cf) u).0 (bit ∙ ap not u)
          ∙ put_back ins.index 0 of cf out cache ho hc)
    ]

decode_string_run :
    (ins : StringInstruction) (b : List ℕ) (size : ℕ) (of cf : Field) (out cache : Message)
    (pmap : ℕ)
    → get_field ins.index out ≡ some of
    → get_field ins.index cache ≡ some cf
    → decode_string ins b size out cache pmap ≡ decode_string_value ins b size of cf out cache pmap
unfolding decode_string
decode_string_run ins b size of cf out cache pmap ho hc = rw (hc, decode_string) (rw ho refl)

string_kept_lem :
    (ins : StringInstruction) (b : List ℕ) (size : ℕ) (of cf : Field) (out cache : Message)
    (pmap : ℕ)
    → pmap ≢ 2 ^ 31
    → ins.type ≡ copy
    → (bit_and pmap (2 ^ ins.index) == 0) ≡ true
    → decode_string_value ins b size of cf out cache pmap
      ≡ done (record {
        consume = 0;
        out = put_field ins.index (set_string (get_string cf []) of) out;
        cache = cache;
      })
unfolding decode_string_value
string_kept_lem ins b size of cf out cache pmap partial c e =
    rw (ne→==_false _ _ partial) (rw c (rw e refl))

string_taken_lem :
    (ins : StringInstruction) (b : List ℕ) (size : ℕ) (of cf : Field) (out cache : Message)
    (pmap : ℕ)
    → pmap ≢ 2 ^ 31
    → ins.type ≡ copy
    → (bit_and pmap (2 ^ ins.index) == 0) ≡ false
    → decode_string_value ins b size of cf out cache pmap ≡ decode_sent ins b size of cf out cache
unfolding decode_string_value decode_sent
string_taken_lem ins b size of cf out cache pmap partial c e =
    rw (ne→==_false _ _ partial) (rw c (rw e refl))

partial-ne : (pmap : ℕ) → bit_and pmap (2 ^ 31) ≡ 0 → pmap ≢ 2 ^ 31
partial-ne pmap h e = absurd (omega (arith, h, ap (λ (t : ℕ). bit_and t (2 ^ 31)) e))

decode_string_lem :
    (ins : StringInstruction) (f of cf : Field) (out cache : Message) (pmap : ℕ) (rest : List ℕ)
    → Serves ins.index (text ins) f cf
    → get_field ins.index out ≡ some of
    → get_field ins.index cache ≡ some cf
    → bit_and pmap (2 ^ 31) ≡ 0
    → (bit_and pmap (2 ^ ins.index) == 0) ≡ not (sent (text ins) f cf)
    → (let b = bytes_of (text ins) f cf in
        decode_string ins (b ++ rest) (length (b ++ rest)) out cache pmap
        ≡ done (decoded ins.index (text ins) f cf of out cache))
decode_string_lem ins f of cf out cache pmap rest (at, c, small, tc) ho hc partial bit =
    let b = bytes_of (text ins) f cf in
    let ne = partial-ne pmap partial in
    let new = get_string f [] in
    decode_string_run ins (b ++ rest) (length (b ++ rest)) of cf out cache pmap ho hc
    ∙ elim (Bool-cases (sent (text ins) f cf)) [
      | inl s ↦ simp s (
          string_taken_lem ins _ _ of cf out cache pmap ne c (bit ∙ ap not s)
          ∙ decode_sent_lem ins new rest of cf out cache small)
      | inr u ↦ simp u (
          string_kept_lem ins rest (length rest) of cf out cache pmap ne c (bit ∙ ap not u)
          ∙ ap
              (λ v. done (record {
                consume = 0;
                out = put_field ins.index (set_string v of) out;
                cache = cache;
              }))
              (sym (equal_bytes→eq new (get_string cf []) (not-false _ u)))
          ∙ ap
              (λ (k : Message). done (record {
                consume = 0;
                out = put_field ins.index (set_string new of) out;
                cache = k;
              }))
              (sym (put_field_self ins.index cache cf hc)))
    ]

pub decode_instruction_lem :
    (i : ℕ) (ins : FieldInstruction) (junk : Junk) (f of cf : Field) (out cache : Message)
    (pmap : ℕ) (rest : List ℕ)
    → Serves i ins f cf
    → get_field i out ≡ some of
    → get_field i cache ≡ some cf
    → bit_and pmap (2 ^ 31) ≡ 0
    → (bit_and pmap (2 ^ i) == 0) ≡ not (sent ins f cf)
    → (let b = bytes_of ins f cf in
        decode_instruction ins junk (b ++ rest) (length (b ++ rest)) out cache pmap
        ≡ done (decoded i ins f cf of out cache))
unfolding decode_instruction
decode_instruction_lem i (integer ins) junk f of cf out cache pmap rest (at, tf, tc, s, vf, vc) ho
      hc partial bit =
    decode_integer_lem ins _ f of cf out cache pmap rest (refl, tf, tc, s, vf, vc) (rw at ho)
      (rw at hc) partial (rw at bit)
    ∙ ap (λ k. done (decoded k (integer ins) f cf of out cache)) at
decode_instruction_lem i (text ins) junk f of cf out cache pmap rest (at, c, small, tc) ho hc
      partial bit =
    decode_string_lem ins f of cf out cache pmap rest (refl, c, small, tc) (rw at ho) (rw at hc)
      partial (rw at bit)
    ∙ ap (λ k. done (decoded k (text ins) f cf of out cache)) at
