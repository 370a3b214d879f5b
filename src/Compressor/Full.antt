-- ===== src/Compressor/Full.antt =====
-- A message without field operation, and the bits of the presence map.
use flash_forwarder.Prelude.{
  ℕ, zero, suc, ◌+◌, ◌*◌, ◌/◌, ◌%◌, ◌^◌, ◌≤◌, ◌<◌, ◌≡◌, ◌≢◌, refl, sym, ap, ◌∙◌, List, ◌++◌, some,
  false, ltb, length, bit_and, bit_or, ne→==_false, arith, length-append,
}
use flash_forwarder.Prelude.Bits.{and_digit, digit-or_self, digit-or_ne, pow_pos}
use native.Mathlib.Nat.{pow-suc, pow-le-pow_right}
use flash_forwarder.WireFormat.Defs.{done}
use flash_forwarder.Compressor.Fields.{
  IntType, c_int32, c_uint32, c_int64, c_uint64, get_value, set_value, Message, Field, get_field,
  put_field,
}
use flash_forwarder.Compressor.Integer.{
  Instruction, size_of, store_host, load_host, encode_full, give, decode_value, decode_fields,
  decode_integer, set_pmap,
}
use flash_forwarder.Compressor.InStep.{Fits}

pub load_host-store_host :
    (n v : ℕ) (rest : List ℕ) → v < 256 ^ n → load_host n (store_host n v ++ rest) ≡ done v
load_host-store_host zero v rest h = ap (λ (t : ℕ). done t) {x = 0} {y = v} (omega arith)
load_host-store_host (suc n) v rest h =
    rw (load_host-store_host n (v / 256) rest (omega (arith, pow-suc 256 n)))
      (ap (λ (t : ℕ). done t) {x = v % 256 + 256 * (v / 256)} {y = v} (omega arith))

pub length-store_host : (n v : ℕ) → length (store_host n v) ≡ n
length-store_host zero v = refl
length-store_host (suc n) v = omega (arith, length-store_host n (v / 256))

Fits-size : (t : IntType) (v : ℕ) → Fits t v → v < 256 ^ size_of t
Fits-size c_int32 v h = omega arith
Fits-size c_uint32 v h = omega arith
Fits-size c_int64 v h = omega arith
Fits-size c_uint64 v h = omega arith

not_less : (a b : ℕ) → b ≤ a → ltb a b ≡ false
not_less a b h = ground arith

decode_full_lem :
    (ins : Instruction) (k size v : ℕ) (b : List ℕ) (of cf : Field) (out cache : Message) (pmap : ℕ)
    → bit_and pmap (2 ^ 31) ≢ 0
    → size_of ins.int_type ≤ size
    → load_host (size_of ins.int_type) b ≡ done v
    → decode_value ins k b size of cf out cache pmap
      ≡ done (give ins v (size_of ins.int_type) of cf out cache)
unfolding decode_value
decode_full_lem ins k size v b of cf out cache pmap ne le e =
    rw (ne→==_false _ _ ne) (rw (not_less size (size_of ins.int_type) le) (rw e refl))

-- A field that holds a pattern of the type of its instruction, encoded without field operation and
-- decoded with bit 31 in the pmap: the out field and the cached field are set to its value, and just
-- the bytes that were appended are consumed.
pub decode_integer-encode_full :
    (ins : Instruction) (j k : ℕ) (message out cache : Message) (f of cf : Field) (rest : List ℕ)
    (pmap : ℕ)
    → get_field ins.index message ≡ some f
    → get_field ins.index out ≡ some of
    → get_field ins.index cache ≡ some cf
    → Fits ins.int_type (get_value ins.int_type f j)
    → bit_and pmap (2 ^ 31) ≢ 0
    → (b : List ℕ) × (encode_full ins j message ≡ some b)
      × (decode_integer ins k (b ++ rest) (length (b ++ rest)) out cache pmap
          ≡ done (record {
            consume = length b;
            out = put_field ins.index (set_value ins.int_type (get_value ins.int_type f j) of) out;
            cache =
                put_field ins.index (set_value ins.int_type (get_value ins.int_type f j) cf) cache;
          }))
unfolding encode_full decode_integer decode_fields
decode_integer-encode_full ins j k message out cache f of cf rest pmap hf ho hc h ne =
    let v = get_value ins.int_type f j in
    let n = size_of ins.int_type in
    let b = store_host n v in
    let l : length b ≡ n = length-store_host n v in
    (
      b,
      rw (hf, encode_full) refl,
      rw ho (
          rw hc (
            decode_full_lem ins k (length (b ++ rest)) v (b ++ rest) of cf out cache pmap ne
              (omega (arith, length-append b rest, l))
              (load_host-store_host n v rest (Fits-size ins.int_type v h))
            ∙ ap (λ (m : ℕ). done (give ins v m of cf out cache)) (sym l))),
    )

pow_lt : (i : ℕ) → i < 32 → 2 ^ i < 2 ^ 32
pow_lt i h =
    let le : 2 ^ i ≤ 2 ^ 31 =
      pow-le-pow_right {n = 2} (omega arith) {i = i} {j = 31} (omega arith) in
    omega arith

word_bit : (i pmap : ℕ) → i < 32 → set_pmap i pmap ≡ bit_or pmap (2 ^ i)
word_bit i pmap h = ap (bit_or pmap) {x = 2 ^ i % 2 ^ 32} {y = 2 ^ i} (omega (arith, pow_lt i h))

-- `setpMap` sets the bit at an index below 32, and leaves the others as they were.
pub set_pmap-bits :
    (i pmap : ℕ)
    → i < 32
    → (bit_and (set_pmap i pmap) (2 ^ i) ≢ 0)
      × ((k : ℕ) → k ≢ i → bit_and (set_pmap i pmap) (2 ^ k) ≡ bit_and pmap (2 ^ k))
set_pmap-bits i pmap h = rw (word_bit i pmap h) (
  λ e. absurd (
      omega (
        arith,
        e,
        pow_pos i,
        and_digit i (bit_or pmap (2 ^ i)),
        ap (λ (t : ℕ). t * 2 ^ i) (digit-or_self i pmap),
      )),
  λ k ne.
      and_digit k (bit_or pmap (2 ^ i))
      ∙ ap (λ (t : ℕ). t * 2 ^ k) (digit-or_ne k i pmap ne)
      ∙ sym (and_digit k pmap),
)
