-- ===== src/Compressor/StringStep.antt =====
-- What a string instruction encodes, it decodes, and the caches of both sides stay the same.
use flash_forwarder.Prelude.{
  ℕ, ◌+◌, ◌%◌, ◌^◌, ◌<◌, ◌≤◌, ◌≡◌, ◌≢◌, refl, sym, ap, ap₂, ◌∙◌, List, [], ◌∷◌, ◌++◌, some, true,
  false, ltb, ◌==◌, length, bit_and, Bool-cases, inl, inr, ==→eq, ne→==_false, arith, length-append,
  take-append, drop-append, append_assoc, take_of_length_le,
}
use flash_forwarder.WireFormat.Defs.{u32, done, write_varint32}
use flash_forwarder.WireFormat.Decode.{read_varint32-write_varint32}
use flash_forwarder.Compressor.Fields.{Message, Field, get_string, set_string, get_field, put_field}
use flash_forwarder.Compressor.Integer.{copy, Encoded, set_pmap}
use flash_forwarder.Compressor.Strings.{
  StringInstruction, equal_bytes, write_string, encode_string_value, encode_string, assign,
  give_string, decode_sent, decode_string_value, decode_string,
}

pub equal_bytes→eq : (xs ys : List ℕ) → equal_bytes xs ys ≡ true → xs ≡ ys
equal_bytes→eq [] [] h = refl
equal_bytes→eq [] (y ∷ ys) h = ground arith
equal_bytes→eq (x ∷ xs) [] h = ground arith
equal_bytes→eq (x ∷ xs) (y ∷ ys) h = elim (Bool-cases (x == y)) [
  | inl e ↦ ap₂ (λ a b. a ∷ b) (==→eq x y e) (equal_bytes→eq xs ys (ground (arith, e)))
  | inr e ↦ ground (arith, e)
]

write_string_lem :
    (v : List ℕ) → length v < 2 ^ 31 → write_string v ≡ write_varint32 (length v) ++ v
write_string_lem v h =
    let m : length v % 2 ^ 32 ≡ length v = omega arith in
    rw (m, u32)
      (ap (λ t. write_varint32 (length v) ++ t) (take_of_length_le (length v) v (omega arith)))

not_less : (a b : ℕ) → b ≤ a → ltb a b ≡ false
not_less a b h = ground arith

assign_lem : (w v rest : List ℕ) → assign (length w) (length v) (w ++ (v ++ rest)) ≡ done v
assign_lem w v rest = rw (drop-append w (v ++ rest)) (
    rw (not_less (length (v ++ rest)) (length v) (omega (arith, length-append v rest)))
      (ap (λ t. done t) (take-append v rest)))

pub decode_sent_lem :
    (ins : StringInstruction) (v rest : List ℕ) (of cf : Field) (out cache : Message)
    → length v < 2 ^ 31
    → decode_sent ins (write_string v ++ rest) (length (write_string v ++ rest)) of cf out cache
      ≡ done (give_string ins v (length (write_string v)) of cf out cache)
unfolding decode_sent
decode_sent_lem ins v rest of cf out cache h =
    let w = write_varint32 (length v) in
    let split : write_string v ++ rest ≡ w ++ (v ++ rest) =
      ap (λ t. t ++ rest) (write_string_lem v h) ∙ append_assoc w v rest in
    let size = length (w ++ (v ++ rest)) in
    let l : size ≡ length w + length v + length rest =
      omega (arith, length-append w (v ++ rest), length-append v rest) in
    let whole : length (write_string v) ≡ length w + length v =
      ap length (write_string_lem v h) ∙ length-append w v in
    rw split (
      rw whole (
        rw (read_varint32-write_varint32 (length v) (v ++ rest) (omega arith)) (
          rw (not_less size (length w) (omega arith))
            (rw (not_less size (length v) (omega arith)) (rw (assign_lem w v rest) refl)))))

module _ (ins : StringInstruction) (message cache out : Message) (f cf of : Field) (rest : List ℕ)
    (pm pmap : ℕ) (has_f : get_field ins.index message ≡ some f)
    (has_cf : get_field ins.index cache ≡ some cf) (has_of : get_field ins.index out ≡ some of)
    (is_copy : ins.type ≡ copy) (partial : pmap ≢ 2 ^ 31) where
  abbrev new : List ℕ
  new = get_string f []

  abbrev old : List ℕ
  old = get_string cf []

  abbrev sent : Encoded
  sent = record {
    bytes = write_string new;
    cache = put_field ins.index (set_string new cf) cache;
    pmap = set_pmap ins.index pm;
  }

  encode_lem : encode_string ins message cache pm ≡ some (encode_string_value ins new cf cache pm)
  unfolding encode_string
  encode_lem = rw (has_f, encode_string) (rw has_cf refl)

  same_lem :
      equal_bytes new old ≡ true
      → encode_string_value ins new cf cache pm ≡ record { bytes = []; cache = cache; pmap = pm }
  unfolding encode_string_value
  same_lem e = rw is_copy (rw e refl)

  sent_lem : equal_bytes new old ≡ false → encode_string_value ins new cf cache pm ≡ sent
  unfolding encode_string_value
  sent_lem e = rw is_copy (rw e refl)

  decode_lem :
      (b : List ℕ) (size : ℕ)
      → decode_string ins b size out cache pmap
        ≡ decode_string_value ins b size of cf out cache pmap
  unfolding decode_string
  decode_lem b size = rw (has_cf, decode_string) (rw has_of refl)

  kept_lem :
      (b : List ℕ) (size : ℕ)
      → (bit_and pmap (2 ^ ins.index) == 0) ≡ true
      → decode_string_value ins b size of cf out cache pmap
        ≡ done (record {
          consume = 0;
          out = put_field ins.index (set_string old of) out;
          cache = cache;
        })
  unfolding decode_string_value
  kept_lem b size e = rw (ne→==_false _ _ partial) (rw is_copy (rw e refl))

  taken_lem :
      (b : List ℕ) (size : ℕ)
      → (bit_and pmap (2 ^ ins.index) == 0) ≡ false
      → decode_string_value ins b size of cf out cache pmap ≡ decode_sent ins b size of cf out cache
  unfolding decode_string_value decode_sent
  taken_lem b size e = rw (ne→==_false _ _ partial) (rw is_copy (rw e refl))

  -- A STRING field with COPY, sent or not, shorter than 2^31: `encode` gives bytes from which `decode`, with the same
  -- cache and a pmap that is not the mark of a full message and has the bit of the field just if the
  -- value differs from the cached one, sets the out field to the value; it takes just these bytes, and
  -- both caches are the same again.
  pub string-in_step :
      length (get_string f []) < 2 ^ 31
      → (bit_and pmap (2 ^ ins.index) == 0) ≡ equal_bytes (get_string f []) (get_string cf [])
      → (e : Encoded) × (encode_string ins message cache pm ≡ some e)
        × (decode_string ins (e.bytes ++ rest) (length (e.bytes ++ rest)) out cache pmap
            ≡ done (record {
              consume = length e.bytes;
              out = put_field ins.index (set_string (get_string f []) of) out;
              cache = e.cache;
            }))
  string-in_step small bit = elim (Bool-cases (equal_bytes new old)) [
    | inl same ↦ (
      record { bytes = []; cache = cache; pmap = pm },
      encode_lem ∙ ap some (same_lem same),
      decode_lem rest (length rest)
          ∙ kept_lem rest (length rest) (bit ∙ same)
          ∙ ap
              (λ v. done (record {
                consume = 0;
                out = put_field ins.index (set_string v of) out;
                cache = cache;
              }))
              (sym (equal_bytes→eq new old same)),
    )
    | inr differs ↦
        let b = write_string new ++ rest in
        (
          sent,
          encode_lem ∙ ap some (sent_lem differs),
          decode_lem b (length b)
              ∙ taken_lem b (length b) (bit ∙ differs)
              ∙ decode_sent_lem ins new rest of cf out cache small,
        )
  ]
