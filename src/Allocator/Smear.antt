-- ===== src/Allocator/Smear.antt =====
-- The position of the highest bit, as src/message_allocator.cpp finds it.
use flash_forwarder.Prelude.{
  ℕ, zero, suc, ◌+◌, ◌-◌, ◌/◌, ◌%◌, ◌^◌, ◌≤◌, ◌<◌, ◌≡◌, inl, inr, refl, sym, ap, ◌∙◌, bit_or,
  Option, none, some, Bool, true, false, ◌&&◌, ◌==◌, ltb, ltb→lt, ltb_false→le, ==→eq, Bool-cases,
  arith,
}
use native.Mathlib.Nat.{pow-suc}
use flash_forwarder.Prelude.Bits.{or_step, digit, or-lt}
use flash_forwarder.Allocator.{smear, position_of}

digit_le : (i a : ℕ) → digit i a ≤ 1
digit_le zero a = omega arith
digit_le (suc i) a = digit_le i (a / 2)

-- A digit that one of two numbers has, both together have.
digit_or_left : (i a b : ℕ) → digit i a ≡ 1 → digit i (bit_or a b) ≡ 1
digit_or_left zero a b h = omega (arith, or_step a b)
digit_or_left (suc i) a b h =
    ap (digit i) {x = bit_or a b / 2} {y = bit_or (a / 2) (b / 2)} (omega (arith, or_step a b))
    ∙ digit_or_left i (a / 2) (b / 2) h

digit_or_right : (i a b : ℕ) → digit i b ≡ 1 → digit i (bit_or a b) ≡ 1
digit_or_right zero a b h = omega (arith, or_step a b)
digit_or_right (suc i) a b h =
    ap (digit i) {x = bit_or a b / 2} {y = bit_or (a / 2) (b / 2)} (omega (arith, or_step a b))
    ∙ digit_or_right i (a / 2) (b / 2) h

top_digit : (k v : ℕ) → 2 ^ k ≤ v → v < 2 ^ suc k → digit k v ≡ 1
top_digit zero v h l = omega arith
top_digit (suc k) v h l =
    top_digit k (v / 2) (omega (arith, pow-suc 2 k)) (omega (arith, pow-suc 2 (suc k)))

-- The digits from `k` down, `t` of them.
abbrev Ones : ℕ → ℕ → ℕ → Type 0
Ones k t v = (i : ℕ) → i ≤ k → k < i + t → digit i v ≡ 1

abbrev Shifts : ℕ → ℕ → ℕ → Type 0
Shifts t v w = (i : ℕ) → digit i w ≡ digit (i + t) v

spread-Ones : (k t v w : ℕ) → Shifts t v w → Ones k t v → Ones k (t + t) (bit_or v w)
spread-Ones k t v w s h i le less = elim (Bool-cases (ltb k (i + t))) [
  | inl e ↦ digit_or_left i v w (h i le (ltb→lt k (i + t) e))
  | inr e ↦
      let far = ltb_false→le k (i + t) e in digit_or_right i v w (s i ∙ h (i + t) far (omega arith))
]

shift_one : (v : ℕ) → Shifts 1 v (v / 2)
shift_one v i = ap (λ (n : ℕ). digit n v) {x = suc i} {y = i + 1} (omega arith)

shift_twice : (s t v w x : ℕ) → Shifts t v w → Shifts t w x → s ≡ t + t → Shifts s v x
shift_twice s t v w x f g e i =
    g i ∙ f (i + t) ∙ ap (λ (n : ℕ). digit n v) {x = i + t + t} {y = i + s} (omega arith)

shift_two : (v : ℕ) → Shifts 2 v (v / 4)
shift_two v i =
    ap (digit i) {x = v / 4} {y = v / 2 / 2} (omega arith)
    ∙ shift_twice 2 1 v (v / 2) (v / 2 / 2) (shift_one v) (shift_one (v / 2)) refl i

shift_four : (v : ℕ) → Shifts 4 v (v / 16)
shift_four v i =
    ap (digit i) {x = v / 16} {y = v / 4 / 4} (omega arith)
    ∙ shift_twice 4 2 v (v / 4) (v / 4 / 4) (shift_two v) (shift_two (v / 4)) refl i

shift_eight : (v : ℕ) → Shifts 8 v (v / 256)
shift_eight v i =
    ap (digit i) {x = v / 256} {y = v / 16 / 16} (omega arith)
    ∙ shift_twice 8 4 v (v / 16) (v / 16 / 16) (shift_four v) (shift_four (v / 16)) refl i

shift_sixteen : (v : ℕ) → Shifts 16 v (v / 65536)
shift_sixteen v i =
    ap (digit i) {x = v / 65536} {y = v / 256 / 256} (omega arith)
    ∙ shift_twice 16 8 v (v / 256) (v / 256 / 256) (shift_eight v) (shift_eight (v / 256)) refl i

all_ones : (k v : ℕ) → v < 2 ^ suc k → ((i : ℕ) → i ≤ k → digit i v ≡ 1) → v ≡ 2 ^ suc k - 1
all_ones zero v l h = let odd : v % 2 ≡ 1 = h 0 (omega arith) in omega arith
all_ones (suc k) v l h =
    let half =
      all_ones k (v / 2) (omega (arith, pow-suc 2 (suc k))) (λ i le. h (suc i) (omega arith)) in
    let odd : v % 2 ≡ 1 = h 0 (omega arith) in omega (arith, half, pow-suc 2 (suc k), pow-suc 2 k)

-- A number of at most 32 digits becomes the number of as many ones.
pub smear_lem : (k v : ℕ) → k < 32 → 2 ^ k ≤ v → v < 2 ^ suc k → smear v ≡ 2 ^ suc k - 1
unfolding smear
smear_lem k v few h l =
    let v1 = bit_or v (v / 2 ^ 1) in
    let v2 = bit_or v1 (v1 / 2 ^ 2) in
    let v4 = bit_or v2 (v2 / 2 ^ 4) in
    let v8 = bit_or v4 (v4 / 2 ^ 8) in
    let l1 = or-lt (suc k) v (v / 2) l (omega arith) in
    let l2 = or-lt (suc k) v1 (v1 / 4) l1 (omega arith) in
    let l4 = or-lt (suc k) v2 (v2 / 16) l2 (omega arith) in
    let l8 = or-lt (suc k) v4 (v4 / 256) l4 (omega arith) in
    let l16 = or-lt (suc k) v8 (v8 / 65536) l8 (omega arith) in
    let o0 : Ones k 1 v =
      λ i le less. ap (λ (n : ℕ). digit n v) {x = i} {y = k} (omega arith) ∙ top_digit k v h l in
    let o1 = spread-Ones k 1 v (v / 2) (shift_one v) o0 in
    let o2 = spread-Ones k 2 v1 (v1 / 4) (shift_two v1) o1 in
    let o4 = spread-Ones k 4 v2 (v2 / 16) (shift_four v2) o2 in
    let o8 = spread-Ones k 8 v4 (v4 / 256) (shift_eight v4) o4 in
    let o16 = spread-Ones k 16 v8 (v8 / 65536) (shift_sixteen v8) o8 in
    all_ones k (bit_or v8 (v8 / 65536)) l16 (λ i le. o16 i le (omega arith))

abbrev is_some : ℕ → Option ℕ → Bool
is_some k none = false
is_some k (some n) = n == k

-- The table at the numbers of ones, up to a number of digits.
abbrev looked_up : ℕ → Bool
looked_up zero = true
looked_up (suc n) = looked_up n && is_some n (position_of (2 ^ suc n - 1))

whole_table : looked_up 32 ≡ true
unfolding position_of
whole_table = refl

both : (a b : Bool) → (a && b) ≡ true → (a ≡ true) × (b ≡ true)
both true true e = (refl, refl)
both true false e = absurd cc
both false b e = absurd cc

is_some_lem : (k : ℕ) (o : Option ℕ) → is_some k o ≡ true → o ≡ some k
is_some_lem k none e = absurd cc
is_some_lem k (some n) e = ap some (==→eq n k e)

looked_up_lem : (n k : ℕ) → looked_up n ≡ true → k < n → position_of (2 ^ suc k - 1) ≡ some k
looked_up_lem zero k e l = absurd (omega arith)
looked_up_lem (suc n) k e l =
    let (before, here) = both (looked_up n) _ e in
    elim (Bool-cases (ltb k n)) [
      | inl less ↦ looked_up_lem n k before (ltb→lt k n less)
      | inr more ↦
          let same : n ≡ k = omega (arith, ltb_false→le k n more) in
          ap (λ (n : ℕ). position_of (2 ^ suc n - 1)) (sym same)
          ∙ is_some_lem n (position_of (2 ^ suc n - 1)) here
          ∙ ap some same
    ]

highest_bit : (n v : ℕ) → 0 < v → v < 2 ^ n → (k : ℕ) × (k < n) × (2 ^ k ≤ v) × (v < 2 ^ suc k)
highest_bit zero v h l = absurd (omega arith)
highest_bit (suc n) v h l = elim (Bool-cases (ltb v (2 ^ n))) [
  | inl less ↦
      let (k, few, low, high) = highest_bit n v h (ltb→lt v (2 ^ n) less) in
      (k, omega arith, low, high)
  | inr more ↦ (n, omega arith, ltb_false→le v (2 ^ n) more, l)
]

-- The position of the highest bit of a uint32_t.
pub position_of-smear :
    (v : ℕ)
    → 0 < v
    → v < 2 ^ 32
    → (k : ℕ) × (2 ^ k ≤ v) × (v < 2 ^ suc k) × (position_of (smear v) ≡ some k)
position_of-smear v h l =
    let (k, few, low, high) = highest_bit 32 v h l in
    (k, low, high, ap position_of (smear_lem k v few low high) ∙ looked_up_lem 32 k whole_table few)
