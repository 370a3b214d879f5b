-- ===== src/Compressor/InStep.antt =====
-- What an integer instruction encodes, it decodes, and the caches of both sides stay the same.
use flash_forwarder.Prelude.{
  ℕ, ◌%◌, ◌^◌, ◌≤◌, ◌<◌, ◌≡◌, ◌≢◌, refl, ap, ◌∙◌, List, ◌++◌, Option, some, Bool, true, false, ltb,
  length, bit_and, ne→==_false, eq→==, arith, length-append,
}
use flash_forwarder.WireFormat.Defs.{u32, done, write_signed_varint64, read_signed_varint64}
use flash_forwarder.WireFormat.Decode.{read_varint32-write_varint32, read_varint64-write_varint64}
use flash_forwarder.WireFormat.ZigZag.{
  read_signed_varint64-write_signed_varint64, read_signed_varint32-write_signed_varint32,
}
use flash_forwarder.Compressor.Fields.{
  IntType, c_int32, c_uint32, c_int64, c_uint64, get_value, set_value, Message, Field, FieldType,
  int32, uint32, int64, uint64, get_field, put_field,
}
use flash_forwarder.Compressor.Integer.{
  Instruction, copy, delta, difference, moved, write_copy, read_copy, Encoded, encode_value,
  encode_fields, encode_integer, Decoded, give, decode_value, decode_fields, decode_integer,
  set_pmap,
}

-- The field type that the overloads of a C type serve.
abbrev pub type_of : IntType → FieldType
type_of c_int32 = int32
type_of c_uint32 = uint32
type_of c_int64 = int64
type_of c_uint64 = uint64

-- The patterns of a C type.
abbrev pub Fits : IntType → ℕ → Type 0
Fits c_int32 v = v < 2 ^ 32
Fits c_uint32 v = v < 2 ^ 32
Fits c_int64 v = v < 2 ^ 64
Fits c_uint64 v = v < 2 ^ 64

-- The flags that choose the reader and the writer of a C type.
abbrev pub Suits : IntType → Bool → Bool → Type 0
Suits c_int32 signed short_bits = (signed ≡ true) × (short_bits ≡ true)
Suits c_uint32 signed short_bits = (signed ≡ false) × (short_bits ≡ true)
Suits c_int64 signed short_bits = (signed ≡ true) × (short_bits ≡ false)
Suits c_uint64 signed short_bits = (signed ≡ false) × (short_bits ≡ false)

pub moved-difference :
    (t : IntType) (new old : ℕ) → Fits t new → Fits t old → moved t old (difference t new old) ≡ new
moved-difference c_int32 new old p q = ground arith
moved-difference c_uint32 new old p q = omega arith
moved-difference c_int64 new old p q = omega arith
moved-difference c_uint64 new old p q = omega arith

pub difference-lt : (t : IntType) (new old : ℕ) → difference t new old < 2 ^ 64
difference-lt t new old = omega arith

-- A field of the type shows the same, whatever the variable held.
pub get_value-junk :
    (t : IntType) (f : Field) (j k : ℕ) → f.type ≡ type_of t → get_value t f j ≡ get_value t f k
unfolding get_value
get_value-junk c_int32 f j k e = rw (e, get_value) refl
get_value-junk c_uint32 f j k e = rw (e, get_value) refl
get_value-junk c_int64 f j k e = rw (e, get_value) refl
get_value-junk c_uint64 f j k e = rw (e, get_value) refl

pub le→ltb_false : (a b : ℕ) → b ≤ a → ltb a b ≡ false
le→ltb_false a b h = ground arith

pub read_copy-by_type :
    (t : IntType) (ins : Instruction) (v : ℕ) (rest : List ℕ)
    → ins.int_type ≡ t
    → Suits t ins.signed ins.short_bits
    → Fits t v
    → read_copy ins (write_copy ins v ++ rest) ≡ done (v, length (write_copy ins v))
read_copy-by_type c_int32 ins v rest e (p, q) h =
    let m : v % 2 ^ 32 ≡ v = omega arith in
    rw p (rw q (rw (m, u32) (read_signed_varint32-write_signed_varint32 v rest h)))
read_copy-by_type c_uint32 ins v rest e (p, q) h =
    let m : v % 2 ^ 32 ≡ v = omega arith in
    rw p (rw q (rw (m, u32) (read_varint32-write_varint32 v rest h)))
read_copy-by_type c_int64 ins v rest e (p, q) h =
    rw p (rw q (rw e (read_signed_varint64-write_signed_varint64 v rest h)))
read_copy-by_type c_uint64 ins v rest e (p, q) h =
    rw p (rw q (rw e (read_varint64-write_varint64 v rest h)))

module _ (ins : Instruction) (junk : ℕ) (rest : List ℕ) (cache out : Message) (out_field : Field)
    (pmap : ℕ) where
  -- What both sides have when `encode` gave `e` and sent `v`: `decode` of the bytes that were appended,
  -- with the same cache before, takes just these bytes, leaves the same cache, and sets the out field
  -- to `v`.
  pub record InStep (v : ℕ) (e : Option Encoded) : Type 0 where
    pub encoded : Encoded
    pub decoded : Decoded
    pub appends : e ≡ some encoded
    pub returns :
        decode_integer ins junk
          (encoded.bytes ++ rest)
          (length (encoded.bytes ++ rest))
          out
          cache
          pmap
        ≡ done decoded
    pub consumes : decoded.consume ≡ length encoded.bytes
    pub caches : decoded.cache ≡ encoded.cache
    pub value : decoded.out ≡ put_field ins.index (set_value ins.int_type v out_field) out

module _ (ins : Instruction) (j j' k : ℕ) (message cache out : Message) (f cf of : Field)
    (rest : List ℕ) (pm pmap : ℕ) (has_f : get_field ins.index message ≡ some f)
    (has_cf : get_field ins.index cache ≡ some cf) (has_of : get_field ins.index out ≡ some of)
    (partial : bit_and pmap (2 ^ 31) ≡ 0) where
  abbrev new : ℕ
  new = get_value ins.int_type f j

  abbrev old : ℕ
  old = get_value ins.int_type cf j'

  encode_lem :
      encode_integer ins j j' message cache pm ≡ some (encode_value ins new old cf cache pm)
  unfolding encode_integer encode_fields
  encode_lem = rw has_f (rw has_cf refl)

  decode_lem :
      (b : List ℕ) (size : ℕ)
      → decode_integer ins k b size out cache pmap ≡ decode_value ins k b size of cf out cache pmap
  unfolding decode_integer decode_fields
  decode_lem b size = rw has_of (rw has_cf refl)

  decode_copy_lem :
      (b : List ℕ) (size v n : ℕ)
      → ins.type ≡ copy
      → bit_and pmap (2 ^ ins.index) ≢ 0
      → read_copy ins b ≡ done (v, n)
      → n ≤ size
      → decode_value ins k b size of cf out cache pmap ≡ done (give ins v n of cf out cache)
  unfolding decode_value
  decode_copy_lem b size v n ty set r le =
      rw (eq→== _ _ partial)
        (rw ty (rw (ne→==_false _ _ set) (rw r (rw (le→ltb_false size n le) refl))))

  decode_delta_lem :
      (b : List ℕ) (size v d n : ℕ)
      → ins.type ≡ delta
      → read_signed_varint64 b ≡ done (d, n)
      → moved ins.int_type (get_value ins.int_type cf k) d ≡ v
      → n ≤ size
      → decode_value ins k b size of cf out cache pmap ≡ done (give ins v n of cf out cache)
  unfolding decode_value
  decode_delta_lem b size v d n ty r e le =
      rw (eq→== _ _ partial) (
        rw ty
          (rw r (rw (le→ltb_false size n le) (ap (λ t. done (give ins t n of cf out cache)) e))))

  encode_copy_lem :
      ins.type ≡ copy
      → new ≢ old
      → encode_value ins new old cf cache pm ≡ record {
        bytes = write_copy ins new;
        cache = put_field ins.index (set_value ins.int_type new cf) cache;
        pmap = set_pmap ins.index pm;
      }
  unfolding encode_value
  encode_copy_lem ty ne = rw ty (rw (ne→==_false _ _ ne) refl)

  encode_delta_lem :
      ins.type ≡ delta
      → encode_value ins new old cf cache pm ≡ record {
        bytes = write_signed_varint64 (difference ins.int_type new old);
        cache = put_field ins.index (set_value ins.int_type new cf) cache;
        pmap = set_pmap ins.index pm;
      }
  unfolding encode_value
  encode_delta_lem ty = rw ty refl

  -- An integer COPY field of the type and the flags of its instruction, whose value is not the cached
  -- one: `encode` appends bytes from which `decode`, with the same cache and a pmap that has the bit
  -- of the field and not bit 31, sets the out field to the value; it takes just these bytes, and both
  -- caches are the same again.
  pub copy-InStep :
      ins.type ≡ copy
      → Suits ins.int_type ins.signed ins.short_bits
      → Fits ins.int_type (get_value ins.int_type f j)
      → get_value ins.int_type f j ≢ get_value ins.int_type cf j'
      → bit_and pmap (2 ^ ins.index) ≢ 0
      → InStep ins k rest cache out of pmap
          (get_value ins.int_type f j)
          (encode_integer ins j j' message cache pm)
  copy-InStep ty s h ne set =
      let b = write_copy ins new in
      let size = length (b ++ rest) in
      let r = read_copy-by_type ins.int_type ins new rest refl s h in
      record {
        encoded = record {
          bytes = b;
          cache = put_field ins.index (set_value ins.int_type new cf) cache;
          pmap = set_pmap ins.index pm;
        };
        decoded = give ins new (length b) of cf out cache;
        appends = encode_lem ∙ ap some (encode_copy_lem ty ne);
        returns =
            decode_lem (b ++ rest) size
            ∙ decode_copy_lem (b ++ rest) size new (length b) ty set r
                (omega (arith, length-append b rest));
        consumes = refl;
        caches = refl;
        value = refl;
      }

  -- An integer DELTA field of the type of its instruction, with any values of that type as the new and
  -- the cached one: `encode` appends bytes from which `decode`, with the same cache and a pmap without
  -- bit 31, sets the out field to the new value; it takes just these bytes, and both caches are the
  -- same again.
  pub delta-InStep :
      ins.type ≡ delta
      → cf.type ≡ type_of ins.int_type
      → Fits ins.int_type (get_value ins.int_type f j)
      → Fits ins.int_type (get_value ins.int_type cf j')
      → InStep ins k rest cache out of pmap
          (get_value ins.int_type f j)
          (encode_integer ins j j' message cache pm)
  delta-InStep ty tc h hc =
      let d = difference ins.int_type new old in
      let b = write_signed_varint64 d in
      let size = length (b ++ rest) in
      let r =
        read_signed_varint64-write_signed_varint64 d rest (difference-lt ins.int_type new old) in
      let e : moved ins.int_type (get_value ins.int_type cf k) d ≡ new =
        ap (λ o. moved ins.int_type o d) (get_value-junk ins.int_type cf k j' tc)
        ∙ moved-difference ins.int_type new old h hc in
      record {
        encoded = record {
          bytes = b;
          cache = put_field ins.index (set_value ins.int_type new cf) cache;
          pmap = set_pmap ins.index pm;
        };
        decoded = give ins new (length b) of cf out cache;
        appends = encode_lem ∙ ap some (encode_delta_lem ty);
        returns =
            decode_lem (b ++ rest) size
            ∙ decode_delta_lem (b ++ rest) size new d (length b) ty r e
                (omega (arith, length-append b rest));
        consumes = refl;
        caches = refl;
        value = refl;
      }
