-- ===== src/Wire/RoundTrip.antt =====
-- `get` after `put`, and `put` after `get`, for each width of src/wire.hpp.
use flash_forwarder.Prelude.{
  ℕ, ◌+◌, ◌*◌, ◌/◌, ◌%◌, ◌^◌, ◌≤◌, ◌<◌, ◌≡◌, refl, ap, ◌∙◌, List, [], ◌∷◌, ◌++◌, length, some,
  arith,
}
use flash_forwarder.Prelude.Bits.{and-ff, or_add}
use flash_forwarder.Wire.{
  byte_at, put_uint16, get_uint16, put_uint32, get_uint32, put_uint64, get_uint64,
}

byte_at_lem : (k v : ℕ) → byte_at k v ≡ v / 2 ^ k % 256
byte_at_lem k v = omega (arith, and-ff (v / 2 ^ k))

-- The number that bytes stand for, the first byte the highest.
pub get_uint16_value :
    (b0 b1 : ℕ) (rest : List ℕ) → b1 < 256 → get_uint16 (b0 ∷ b1 ∷ rest) ≡ some (b0 * 2 ^ 8 + b1)
unfolding get_uint16
get_uint16_value b0 b1 rest h = ap some (or_add 8 b0 (b0 * 2 ^ 8) b1 (omega arith) h)

pub get_uint32_value :
    (b0 b1 b2 b3 : ℕ) (rest : List ℕ)
    → b1 < 256
    → b2 < 256
    → b3 < 256
    → get_uint32 (b0 ∷ b1 ∷ b2 ∷ b3 ∷ rest) ≡ some (((b0 * 256 + b1) * 256 + b2) * 256 + b3)
unfolding get_uint32
get_uint32_value b0 b1 b2 b3 rest h1 h2 h3 =
    let x1 = b0 * 2 ^ 24 + b1 * 2 ^ 16 in
    let x2 = x1 + b2 * 2 ^ 8 in
    rw (or_add 24 b0 (b0 * 2 ^ 24) (b1 * 2 ^ 16) (omega arith) (omega arith)) (
      rw (or_add 16 (b0 * 256 + b1) x1 (b2 * 2 ^ 8) (omega arith) (omega arith)) (
        rw (or_add 8 ((b0 * 256 + b1) * 256 + b2) x2 b3 (omega arith) (omega arith))
          (ap some (omega arith))))

-- `get_uint32` gives back the uint32_t that `put_uint32` stored, whatever stands behind it.
pub get_uint32-put_uint32 :
    (v : ℕ) (rest : List ℕ) → v < 2 ^ 32 → get_uint32 (put_uint32 v ++ rest) ≡ some v
unfolding put_uint32
get_uint32-put_uint32 v rest h =
    get_uint32_value (byte_at 24 v) (byte_at 16 v) (byte_at 8 v) (byte_at 0 v) rest
      (omega (arith, byte_at_lem 16 v)) (omega (arith, byte_at_lem 8 v))
      (omega (arith, byte_at_lem 0 v))
    ∙ ap some (omega (arith, byte_at_lem 24 v, byte_at_lem 16 v, byte_at_lem 8 v, byte_at_lem 0 v))

get_uint16-put_uint16 :
    (v : ℕ) (rest : List ℕ) → v < 2 ^ 16 → get_uint16 (put_uint16 v ++ rest) ≡ some v
unfolding put_uint16
get_uint16-put_uint16 v rest h =
    get_uint16_value (byte_at 8 v) (byte_at 0 v) rest (omega (arith, byte_at_lem 0 v))
    ∙ ap some (omega (arith, byte_at_lem 8 v, byte_at_lem 0 v))

-- The fields of `get_uint64`, joined one after the other.
join_bytes :
    (b0 b1 b2 b3 b4 b5 b6 b7 : ℕ) (rest : List ℕ)
    → (b1 < 256) × (b2 < 256) × (b3 < 256) × (b4 < 256) × (b5 < 256) × (b6 < 256) × (b7 < 256)
    → get_uint64 (b0 ∷ b1 ∷ b2 ∷ b3 ∷ b4 ∷ b5 ∷ b6 ∷ b7 ∷ rest)
      ≡ some (
          b0 * 2 ^ 56
          + b1 * 2 ^ 48
          + b2 * 2 ^ 40
          + b3 * 2 ^ 32
          + b4 * 2 ^ 24
          + b5 * 2 ^ 16
          + b6 * 2 ^ 8
          + b7)
unfolding get_uint64
join_bytes b0 b1 b2 b3 b4 b5 b6 b7 rest h =
    let y1 = b0 * 2 ^ 56 + b1 * 2 ^ 48 in
    let y2 = y1 + b2 * 2 ^ 40 in
    let y3 = y2 + b3 * 2 ^ 32 in
    let y4 = y3 + b4 * 2 ^ 24 in
    let y5 = y4 + b5 * 2 ^ 16 in
    let y6 = y5 + b6 * 2 ^ 8 in
    rw (or_add 56 b0 (b0 * 2 ^ 56) (b1 * 2 ^ 48) (omega arith) (omega arith)) (
      rw (or_add 48 (y1 / 2 ^ 48) y1 (b2 * 2 ^ 40) (omega arith) (omega arith)) (
        rw (or_add 40 (y2 / 2 ^ 40) y2 (b3 * 2 ^ 32) (omega arith) (omega arith)) (
          rw (or_add 32 (y3 / 2 ^ 32) y3 (b4 * 2 ^ 24) (omega arith) (omega arith)) (
            rw (or_add 24 (y4 / 2 ^ 24) y4 (b5 * 2 ^ 16) (omega arith) (omega arith)) (
              rw (or_add 16 (y5 / 2 ^ 16) y5 (b6 * 2 ^ 8) (omega arith) (omega arith))
                (rw (or_add 8 (y6 / 2 ^ 8) y6 b7 (omega arith) (omega arith)) refl))))))

get_uint64-put_uint64 :
    (v : ℕ) (rest : List ℕ) → v < 2 ^ 64 → get_uint64 (put_uint64 v ++ rest) ≡ some v
unfolding put_uint64
get_uint64-put_uint64 v rest h =
    join_bytes (byte_at 56 v) (byte_at 48 v) (byte_at 40 v) (byte_at 32 v) (byte_at 24 v)
      (byte_at 16 v) (byte_at 8 v) (byte_at 0 v) rest
      (
        omega (arith, byte_at_lem 48 v),
        omega (arith, byte_at_lem 40 v),
        omega (arith, byte_at_lem 32 v),
        omega (arith, byte_at_lem 24 v),
        omega (arith, byte_at_lem 16 v),
        omega (arith, byte_at_lem 8 v),
        omega (arith, byte_at_lem 0 v),
      )
    ∙ ap some (
        omega (
          arith,
          byte_at_lem 56 v,
          byte_at_lem 48 v,
          byte_at_lem 40 v,
          byte_at_lem 32 v,
          byte_at_lem 24 v,
          byte_at_lem 16 v,
          byte_at_lem 8 v,
          byte_at_lem 0 v,
        ))

-- At each width, `get` gives back what `put` stored of a uint64_t cast to that width, whatever stands
-- behind the bytes.
pub get-put :
    (v : ℕ) (rest : List ℕ)
    → v < 2 ^ 64
    → (get_uint16 (put_uint16 (v % 2 ^ 16) ++ rest) ≡ some (v % 2 ^ 16))
      × (get_uint32 (put_uint32 (v % 2 ^ 32) ++ rest) ≡ some (v % 2 ^ 32))
      × (get_uint64 (put_uint64 v ++ rest) ≡ some v)
get-put v rest h = (
  get_uint16-put_uint16 (v % 2 ^ 16) rest (omega arith),
  get_uint32-put_uint32 (v % 2 ^ 32) rest (omega arith),
  get_uint64-put_uint64 v rest h,
)

-- `get_uint32` looks at four bytes only.
pub get_uint32-append : (xs ys : List ℕ) → 4 ≤ length xs → get_uint32 (xs ++ ys) ≡ get_uint32 xs
unfolding get_uint32
get_uint32-append [] ys h = absurd (omega arith)
get_uint32-append (a ∷ []) ys h = absurd (omega arith)
get_uint32-append (a ∷ b ∷ []) ys h = absurd (omega arith)
get_uint32-append (a ∷ b ∷ c ∷ []) ys h = absurd (omega arith)
get_uint32-append (a ∷ b ∷ c ∷ d ∷ xs) ys h = refl
