-- ===== src/Prelude/Bits.antt =====
-- Laws of `bit_and`, `bit_or` and `bit_xor` at variables, from the digit recursion that they stand for.
use Prim.Native.Nat.{
  ℕ, zero, suc, ◌+◌, ◌-◌, ◌*◌, ◌/◌, ◌%◌, ◌^◌, ◌≤◌, ◌<◌, min, max, bit_and, bit_or, bit_xor, digits,
  differ, bit_and-bitwise, bit_or-bitwise, bit_xor-bitwise,
}
use mathlib.Core.Path.{◌≡◌, refl, ap, ◌∙◌}
use mathlib.Core.Logic.{◌≢◌}
use native.Mathlib.Omega.{arith}
use native.Mathlib.Nat.{pow-suc}

-- A recursion on digits that has enough fuel gives the same on more of it.
module _ (empty : ℕ → ℕ) (op : ℕ → ℕ → ℕ) where
  one_more : (fuel x y : ℕ) → x ≤ fuel → digits empty op (suc fuel) x y ≡ digits empty op fuel x y
  one_more zero zero y h = refl
  one_more (suc fuel) zero y h = refl
  one_more zero (suc x) y h = absurd (omega arith)
  one_more (suc fuel) (suc x) y h = omega (arith, one_more fuel (suc x / 2) (y / 2) (omega arith))

  more_fuel :
      (extra fuel x y : ℕ)
      → x ≤ fuel
      → digits empty op (extra + fuel) x y ≡ digits empty op fuel x y
  more_fuel zero fuel x y h =
      let unchanged : 0 + fuel ≡ fuel = omega arith in
      ap (λ (t : ℕ). digits empty op t x y) unchanged
  more_fuel (suc extra) fuel x y h =
      let moved : suc extra + fuel ≡ suc (extra + fuel) = omega arith in
      ap (λ (t : ℕ). digits empty op t x y) moved
      ∙ one_more (extra + fuel) x y (omega arith)
      ∙ more_fuel extra fuel x y h

  lowest_digit :
      (x y : ℕ)
      → digits empty op (suc x) (suc x) y
        ≡ digits empty op (suc x / 2) (suc x / 2) (y / 2) * 2 + op (suc x % 2) (y % 2)
  lowest_digit x y =
      let half = suc x / 2 in
      let whole : x - half + half ≡ x = omega arith in
      omega (
        arith,
        ap (λ (t : ℕ). digits empty op t half (y / 2)) whole,
        more_fuel (x - half) half half (y / 2) (omega arith),
      )

-- One digit of each operation.
pub and_step : (a b : ℕ) → bit_and a b ≡ bit_and (a / 2) (b / 2) * 2 + min (a % 2) (b % 2)
and_step zero b = omega (arith, bit_and-bitwise 0 b, bit_and-bitwise 0 (b / 2))
and_step (suc a) b = omega (
  arith,
  bit_and-bitwise (suc a) b,
  bit_and-bitwise (suc a / 2) (b / 2),
  lowest_digit (λ b. zero) min a b,
)

pub or_step : (a b : ℕ) → bit_or a b ≡ bit_or (a / 2) (b / 2) * 2 + max (a % 2) (b % 2)
or_step zero b = omega (arith, bit_or-bitwise 0 b, bit_or-bitwise 0 (b / 2))
or_step (suc a) b = omega (
  arith,
  bit_or-bitwise (suc a) b,
  bit_or-bitwise (suc a / 2) (b / 2),
  lowest_digit (λ b. b) max a b,
)

xor_step : (a b : ℕ) → bit_xor a b ≡ bit_xor (a / 2) (b / 2) * 2 + differ (a % 2) (b % 2)
xor_step zero b = ground (arith, bit_xor-bitwise 0 b, bit_xor-bitwise 0 (b / 2))
xor_step (suc a) b = omega (
  arith,
  bit_xor-bitwise (suc a) b,
  bit_xor-bitwise (suc a / 2) (b / 2),
  lowest_digit (λ b. b) differ a b,
)

differ_bits : (x y : ℕ) → x < 2 → y < 2 → differ x y ≡ (x + y) % 2
differ_bits zero y p q = omega arith
differ_bits (suc zero) zero p q = refl
differ_bits (suc zero) (suc zero) p q = refl
differ_bits (suc zero) (suc (suc y)) p q = absurd (omega arith)
differ_bits (suc (suc x)) y p q = absurd (omega arith)

-- The digit recursion goes from `a / 2` to `a`: induction on a bound of `a`.
or_zero_below : (n a : ℕ) → a ≤ n → bit_or a 0 ≡ a
or_zero_below n zero h = refl
or_zero_below zero (suc a) h = absurd (omega arith)
or_zero_below (suc n) (suc a) h =
    omega (arith, or_step (suc a) 0, or_zero_below n (suc a / 2) (omega arith))

pub or-zero : (a : ℕ) → bit_or a 0 ≡ a
or-zero a = or_zero_below a a (omega arith)

and_zero_below : (n a : ℕ) → a ≤ n → bit_and a 0 ≡ 0
and_zero_below n zero h = refl
and_zero_below zero (suc a) h = absurd (omega arith)
and_zero_below (suc n) (suc a) h =
    omega (arith, and_step (suc a) 0, and_zero_below n (suc a / 2) (omega arith))

pub and-zero : (a : ℕ) → bit_and a 0 ≡ 0
and-zero a = and_zero_below a a (omega arith)

pub zero-and : (b : ℕ) → bit_and 0 b ≡ 0
zero-and b = omega (arith, bit_and-bitwise 0 b)

xor_zero_below : (n a : ℕ) → a ≤ n → bit_xor a 0 ≡ a
xor_zero_below n zero h = refl
xor_zero_below zero (suc a) h = absurd (omega arith)
xor_zero_below (suc n) (suc a) h = omega (
  arith,
  xor_step (suc a) 0,
  differ_bits (suc a % 2) 0 (omega arith) (omega arith),
  xor_zero_below n (suc a / 2) (omega arith),
)

pub xor-zero : (a : ℕ) → bit_xor a 0 ≡ a
xor-zero a = xor_zero_below a a (omega arith)

pub mul_two-pow-suc : (q k : ℕ) → q * 2 ^ suc k ≡ 2 * (q * 2 ^ k)
mul_two-pow-suc q k = omega (arith, ap (λ (t : ℕ). q * t) (pow-suc 2 k))

pub pow_pos : (k : ℕ) → 0 < 2 ^ k
pow_pos zero = omega arith
pow_pos (suc k) = omega (arith, pow_pos k, pow-suc 2 k)

-- `(q << k) | r` is a sum where `r` has at most `k` digits.
pub or_fields : (k q r : ℕ) → r < 2 ^ k → bit_or (q * 2 ^ k) r ≡ q * 2 ^ k + r
or_fields zero q r h = ground (arith, or-zero q)
or_fields (suc k) q r h = ground (
  arith,
  or_step (q * 2 ^ suc k) r,
  mul_two-pow-suc q k,
  pow-suc 2 k,
  or_fields k q (r / 2) (omega (arith, pow-suc 2 k)),
)

half_ones : (k : ℕ) → (2 ^ suc k - 1) / 2 ≡ 2 ^ k - 1
half_ones k = omega (arith, pow-suc 2 k, pow_pos k)

-- Exclusive or with `k` ones takes the complement in `k` digits.
pub xor_ones : (k x : ℕ) → x < 2 ^ k → bit_xor x (2 ^ k - 1) ≡ 2 ^ k - 1 - x
xor_ones zero x h = omega (arith, xor-zero x)
xor_ones (suc k) x h = omega (
  arith,
  pow-suc 2 k,
  pow_pos k,
  xor_step x (2 ^ suc k - 1),
  differ_bits (x % 2) ((2 ^ suc k - 1) % 2) (omega arith) (omega arith),
  ap (λ (t : ℕ). bit_xor (x / 2) t) {x = (2 ^ suc k - 1) / 2} {y = 2 ^ k - 1} (half_ones k),
  xor_ones k (x / 2) (omega (arith, pow-suc 2 k)),
)

-- The masks of the program.
pub and-one : (a : ℕ) → bit_and a 1 ≡ a % 2
and-one a = omega (arith, and_step a 1, and-zero (a / 2))

-- A mask of one more digit.
and_mask :
    (m n a : ℕ) → bit_and (a / 2) m ≡ a / 2 % n → bit_and a (2 * m + 1) ≡ a / 2 % n * 2 + a % 2
and_mask m n a h = omega (
  arith,
  and_step a (2 * m + 1),
  ap (λ (t : ℕ). bit_and (a / 2) t) {x = (2 * m + 1) / 2} {y = m} (omega arith),
)

and-3 : (a : ℕ) → bit_and a 3 ≡ a % 4
and-3 a = omega (arith, and_mask 1 2 a (and-one (a / 2)))

and-7 : (a : ℕ) → bit_and a 7 ≡ a % 8
and-7 a = omega (arith, and_mask 3 4 a (and-3 (a / 2)))

and-f : (a : ℕ) → bit_and a 0xf ≡ a % 16
and-f a = omega (arith, and_mask 7 8 a (and-7 (a / 2)))

and-1f : (a : ℕ) → bit_and a 0x1f ≡ a % 32
and-1f a = omega (arith, and_mask 15 16 a (and-f (a / 2)))

and-3f : (a : ℕ) → bit_and a 0x3f ≡ a % 64
and-3f a = omega (arith, and_mask 31 32 a (and-1f (a / 2)))

pub and-7f : (a : ℕ) → bit_and a 0x7f ≡ a % 128
and-7f a = omega (arith, and_mask 63 64 a (and-3f (a / 2)))

pub and-ff : (a : ℕ) → bit_and a 0xff ≡ a % 256
and-ff a = omega (arith, and_step a 255, and-7f (a / 2))

and-1ff : (a : ℕ) → bit_and a 0x1ff ≡ a % 0x200
and-1ff a = omega (arith, and_step a 0x1ff, and-ff (a / 2))

and-3ff : (a : ℕ) → bit_and a 0x3ff ≡ a % 0x400
and-3ff a = omega (arith, and_step a 0x3ff, and-1ff (a / 2))

and-7ff : (a : ℕ) → bit_and a 0x7ff ≡ a % 0x800
and-7ff a = omega (arith, and_step a 0x7ff, and-3ff (a / 2))

and-fff : (a : ℕ) → bit_and a 0xfff ≡ a % 0x1000
and-fff a = omega (arith, and_step a 0xfff, and-7ff (a / 2))

pub and-1fff : (a : ℕ) → bit_and a 0x1fff ≡ a % 0x2000
and-1fff a = omega (arith, and_step a 0x1fff, and-fff (a / 2))

or-one : (a : ℕ) → bit_or a 1 ≡ a / 2 * 2 + 1
or-one a = omega (arith, or_step a 1, or-zero (a / 2))

or_bit : (m n a : ℕ) → bit_or (a / 2) m ≡ n → bit_or a (2 * m) ≡ n * 2 + a % 2
or_bit m n a h = omega (
  arith,
  or_step a (2 * m),
  ap (λ (t : ℕ). bit_or (a / 2) t) {x = 2 * m / 2} {y = m} (omega arith),
)

or-2 : (a : ℕ) → bit_or a 2 ≡ a / 4 * 4 + a % 2 + 2
or-2 a = omega (arith, or_bit 1 _ a (or-one (a / 2)))

or-4 : (a : ℕ) → bit_or a 4 ≡ a / 8 * 8 + a % 4 + 4
or-4 a = omega (arith, or_bit 2 _ a (or-2 (a / 2)))

or-8 : (a : ℕ) → bit_or a 8 ≡ a / 16 * 16 + a % 8 + 8
or-8 a = omega (arith, or_bit 4 _ a (or-4 (a / 2)))

or-10 : (a : ℕ) → bit_or a 0x10 ≡ a / 32 * 32 + a % 16 + 16
or-10 a = omega (arith, or_bit 8 _ a (or-8 (a / 2)))

or-20 : (a : ℕ) → bit_or a 0x20 ≡ a / 64 * 64 + a % 32 + 32
or-20 a = omega (arith, or_bit 16 _ a (or-10 (a / 2)))

or-40 : (a : ℕ) → bit_or a 0x40 ≡ a / 128 * 128 + a % 64 + 64
or-40 a = omega (arith, or_bit 32 _ a (or-20 (a / 2)))

pub or-80 : (a : ℕ) → bit_or a 0x80 ≡ a / 256 * 256 + a % 128 + 128
or-80 a = omega (arith, or_bit 64 _ a (or-40 (a / 2)))

-- One digit: a test by `a & (1 << i)`, and setting it by `a | (1 << i)`.
abbrev pub digit : ℕ → ℕ → ℕ
digit zero a = a % 2
digit (suc i) a = digit i (a / 2)

pub and_digit : (i a : ℕ) → bit_and a (2 ^ i) ≡ digit i a * 2 ^ i
and_digit zero a = omega (arith, and-one a)
and_digit (suc i) a = omega (
  arith,
  pow-suc 2 i,
  and_step a (2 ^ suc i),
  ap (λ (t : ℕ). bit_and (a / 2) t) {x = 2 ^ suc i / 2} {y = 2 ^ i} (omega (arith, pow-suc 2 i)),
  and_digit i (a / 2),
  mul_two-pow-suc (digit i (a / 2)) i,
)

and_bit : (m n a : ℕ) → bit_and (a / 2) m ≡ n → bit_and a (2 * m) ≡ n * 2
and_bit m n a h = omega (
  arith,
  and_step a (2 * m),
  ap (λ (t : ℕ). bit_and (a / 2) t) {x = 2 * m / 2} {y = m} (omega arith),
)

and-8 : (a : ℕ) → bit_and a 8 ≡ a / 8 % 2 * 8
and-8 a =
    omega (
      arith,
      and_bit 4 _ a (and_bit 2 _ (a / 2) (and_bit 1 _ (a / 2 / 2) (and-one (a / 2 / 2 / 2)))),
    )

and-40 : (a : ℕ) → bit_and a 0x40 ≡ a / 64 % 2 * 64
and-40 a =
    omega (
      arith,
      and_bit 32 _ a (and_bit 16 _ (a / 2) (and_bit 8 _ (a / 2 / 2) (and-8 (a / 2 / 2 / 2)))),
    )

pub and-80 : (a : ℕ) → bit_and a 0x80 ≡ a / 128 % 2 * 128
and-80 a = omega (arith, and_bit 64 _ a (and-40 (a / 2)))

half-or_digit : (j a : ℕ) → bit_or a (2 ^ suc j) / 2 ≡ bit_or (a / 2) (2 ^ j)
half-or_digit j a = omega (
  arith,
  or_step a (2 ^ suc j),
  pow-suc 2 j,
  ap (λ (t : ℕ). bit_or (a / 2) t) {x = 2 ^ suc j / 2} {y = 2 ^ j} (omega (arith, pow-suc 2 j)),
)

pub digit-or_self : (i a : ℕ) → digit i (bit_or a (2 ^ i)) ≡ 1
digit-or_self zero a = omega (arith, or-one a)
digit-or_self (suc i) a = rw half-or_digit (digit-or_self i (a / 2))

pub digit-or_ne : (i j a : ℕ) → i ≢ j → digit i (bit_or a (2 ^ j)) ≡ digit i a
digit-or_ne zero zero a h = absurd (h refl)
digit-or_ne zero (suc j) a h = omega (arith, or_step a (2 ^ suc j), pow-suc 2 j)
digit-or_ne (suc i) zero a h =
    ap (digit i) {x = bit_or a 1 / 2} {y = a / 2} (omega (arith, or-one a))
digit-or_ne (suc i) (suc j) a h = rw half-or_digit (digit-or_ne i j (a / 2) (λ e. h (ap suc e)))

pub or-lt : (k a b : ℕ) → a < 2 ^ k → b < 2 ^ k → bit_or a b < 2 ^ k
or-lt zero zero b p q = omega (arith, bit_or-bitwise 0 b)
or-lt zero (suc a) b p q = absurd (omega arith)
or-lt (suc k) a b p q = omega (
  arith,
  pow-suc 2 k,
  or_step a b,
  or-lt k (a / 2) (b / 2) (omega (arith, pow-suc 2 k)) (omega (arith, pow-suc 2 k)),
)

-- `r | (q << k)`, the fields in the other order.
pub or_fields_low : (k q r : ℕ) → r < 2 ^ k → bit_or r (q * 2 ^ k) ≡ r + q * 2 ^ k
or_fields_low zero q r h = ground (arith, or_step r q, or_low_zero r q)
  where
    or_low_zero : (r q : ℕ) → r < 1 → bit_or r (q * 2 ^ 0) ≡ q
    or_low_zero zero q h = omega (arith, bit_or-bitwise 0 (q * 2 ^ 0))
    or_low_zero (suc r) q h = absurd (omega arith)
or_fields_low (suc k) q r h = ground (
  arith,
  or_step r (q * 2 ^ suc k),
  mul_two-pow-suc q k,
  pow-suc 2 k,
  or_fields_low k q (r / 2) (omega (arith, pow-suc 2 k)),
)

-- Both with the shifted field as it stands, and its quotient beside it.
pub or_add : (k q x r : ℕ) → x ≡ q * 2 ^ k → r < 2 ^ k → bit_or x r ≡ x + r
or_add k q x r e h = rw e (or_fields k q r h)

pub or_add_low : (k q r x : ℕ) → x ≡ q * 2 ^ k → r < 2 ^ k → bit_or r x ≡ r + x
or_add_low k q r x e h = rw e (or_fields_low k q r h)
