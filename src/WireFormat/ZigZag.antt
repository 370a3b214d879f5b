-- ===== src/WireFormat/ZigZag.antt =====
-- The zigzag maps of src/wire_format-inl.h: a signed word and its unsigned image.
use flash_forwarder.Prelude.{ℕ, ◌+◌, ◌-◌, ◌*◌, ◌^◌, ◌<◌, ◌≡◌, List, ◌++◌, length, ap, ◌∙◌, arith}
use native.Mathlib.Decide.{dec_lt}
use flash_forwarder.Prelude.Bits.{and-one, xor_ones, xor-zero}
use flash_forwarder.WireFormat.Defs.{
  zigzag_encode32, zigzag_decode32, zigzag_encode64, zigzag_decode64, shl32, shl64, shr, done,
  write_varint64, write_signed_varint64, read_signed_varint64, write_varint32,
  write_signed_varint32, read_signed_varint32,
}
use flash_forwarder.WireFormat.Decode.{read_varint32-write_varint32, read_varint64-write_varint64}

-- A pattern that stands for `n` from 0 on is sent to `2 n`, one that stands for `-n - 1` to `2 n + 1`.
pub zigzag_encode64_values :
    (n : ℕ)
    → n < 2 ^ 63
    → (zigzag_encode64 n ≡ 2 * n) × (zigzag_encode64 (2 ^ 64 - 1 - n) ≡ 2 * n + 1)
unfolding zigzag_encode64
zigzag_encode64_values n h =
    (ground (arith, xor-zero (shl64 n 1)), ground (arith, xor_ones 64 (shl64 (2 ^ 64 - 1 - n) 1)))

pub zigzag_decode64_values :
    (n : ℕ)
    → n < 2 ^ 63
    → (zigzag_decode64 (2 * n) ≡ n) × (zigzag_decode64 (2 * n + 1) ≡ 2 ^ 64 - 1 - n)
unfolding zigzag_decode64
zigzag_decode64_values n h = (
  ground (arith, and-one (2 * n), xor-zero (shr (2 * n) 1)),
  ground (arith, and-one (2 * n + 1), xor_ones 64 (shr (2 * n + 1) 1)),
)

pub zigzag_encode32_values :
    (n : ℕ)
    → n < 2 ^ 31
    → (zigzag_encode32 n ≡ 2 * n) × (zigzag_encode32 (2 ^ 32 - 1 - n) ≡ 2 * n + 1)
unfolding zigzag_encode32
zigzag_encode32_values n h =
    (ground (arith, xor-zero (shl32 n 1)), ground (arith, xor_ones 32 (shl32 (2 ^ 32 - 1 - n) 1)))

pub zigzag_decode32_values :
    (n : ℕ)
    → n < 2 ^ 31
    → (zigzag_decode32 (2 * n) ≡ n) × (zigzag_decode32 (2 * n + 1) ≡ 2 ^ 32 - 1 - n)
unfolding zigzag_decode32
zigzag_decode32_values n h = (
  ground (arith, and-one (2 * n), xor-zero (shr (2 * n) 1)),
  ground (arith, and-one (2 * n + 1), xor_ones 32 (shr (2 * n + 1) 1)),
)

-- `ZigZagDecode64` undoes `ZigZagEncode64` on every int64_t, whose image is a uint64_t.
pub zigzag_decode64-zigzag_encode64 :
    (n : ℕ) → n < 2 ^ 64 → (zigzag_decode64 (zigzag_encode64 n) ≡ n) × (zigzag_encode64 n < 2 ^ 64)
zigzag_decode64-zigzag_encode64 n h = elim (dec_lt n (2 ^ 63)) [
  | yes p ↦
      let (e, _) = zigzag_encode64_values n p in
      (ap zigzag_decode64 e ∙ (zigzag_decode64_values n p).0, omega arith)
  | no p ↦
      let m = 2 ^ 64 - 1 - n in
      let back : n ≡ 2 ^ 64 - 1 - m = omega arith in
      let (_, e) = zigzag_encode64_values m (omega arith) in
      (
        ap (λ t. zigzag_decode64 (zigzag_encode64 t)) back
            ∙ ap zigzag_decode64 e
            ∙ (zigzag_decode64_values m (omega arith)).1
            ∙ omega arith,
        omega (arith, e, ap zigzag_encode64 back),
      )
]

pub zigzag_decode32-zigzag_encode32 :
    (n : ℕ) → n < 2 ^ 32 → (zigzag_decode32 (zigzag_encode32 n) ≡ n) × (zigzag_encode32 n < 2 ^ 32)
zigzag_decode32-zigzag_encode32 n h = elim (dec_lt n (2 ^ 31)) [
  | yes p ↦
      let (e, _) = zigzag_encode32_values n p in
      (ap zigzag_decode32 e ∙ (zigzag_decode32_values n p).0, omega arith)
  | no p ↦
      let m = 2 ^ 32 - 1 - n in
      let back : n ≡ 2 ^ 32 - 1 - m = omega arith in
      let (_, e) = zigzag_encode32_values m (omega arith) in
      (
        ap (λ t. zigzag_decode32 (zigzag_encode32 t)) back
            ∙ ap zigzag_decode32 e
            ∙ (zigzag_decode32_values m (omega arith)).1
            ∙ omega arith,
        omega (arith, e, ap zigzag_encode32 back),
      )
]

-- What `WriteSignedVarint64` stored, `ReadSignedVarint64` reads back, and it takes just those bytes.
pub read_signed_varint64-write_signed_varint64 :
    (v : ℕ) (rest : List ℕ)
    → v < 2 ^ 64
    → read_signed_varint64 (write_signed_varint64 v ++ rest)
      ≡ done (v, length (write_signed_varint64 v))
unfolding read_signed_varint64 write_signed_varint64
read_signed_varint64-write_signed_varint64 v rest h =
    let (e, lt) = zigzag_decode64-zigzag_encode64 v h in
    rw (read_varint64-write_varint64 (zigzag_encode64 v) rest lt)
      (ap (λ t. done (t, length (write_varint64 (zigzag_encode64 v)))) e)

-- What `WriteSignedVarint32` stored, `ReadSignedVarint32` reads back, and it takes just those bytes.
pub read_signed_varint32-write_signed_varint32 :
    (v : ℕ) (rest : List ℕ)
    → v < 2 ^ 32
    → read_signed_varint32 (write_signed_varint32 v ++ rest)
      ≡ done (v, length (write_signed_varint32 v))
unfolding read_signed_varint32 write_signed_varint32
read_signed_varint32-write_signed_varint32 v rest h =
    let (e, lt) = zigzag_decode32-zigzag_encode32 v h in
    rw (read_varint32-write_varint32 (zigzag_encode32 v) rest lt)
      (ap (λ t. done (t, length (write_varint32 (zigzag_encode32 v)))) e)
