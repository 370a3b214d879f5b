-- ===== src/WireFormat/Encode.antt =====
-- What the varint writers of src/wire_format-inl.h store, against a description of the format.
use flash_forwarder.Prelude.{
  ℕ, zero, suc, ◌+◌, ◌/◌, ◌%◌, ◌^◌, ◌≤◌, ◌<◌, ◌-◌, ◌≡◌, refl, List, [], ◌∷◌, ltb, if◌then◌else◌,
  length, take, ap, sym, ◌∙◌, arith,
}
use Prim.Native.Nat.{max}
use native.Mathlib.Nat.{pow-suc, one-le-pow}
use flash_forwarder.Prelude.Bits.{or-80, and-7f}
use flash_forwarder.WireFormat.Defs.{
  flagged, last_flagged, shr, write_varint32, write_varint64, varint64_bytes, varint_size32,
  varint_size64, varint64_stores, unflag_last, u32,
}

abbrev pub IsByte : ℕ → Type 0
IsByte b = b < 256

-- Groups of seven digits, the lowest first, each but the last with the flag 0x80; at most `k + 1`.
unfoldable pub base128 : ℕ → ℕ → List ℕ
base128 zero v = v ∷ []
base128 (suc k) v =
    let rest = base128 k (v / 128) in if ltb v 128 then v ∷ [] else (v % 128 + 128) ∷ rest

flagged_lem : (x : ℕ) → flagged x ≡ x % 128 + 128
flagged_lem x = omega (arith, or-80 x)

last_flagged_lem : (x : ℕ) → last_flagged x ≡ x % 128
last_flagged_lem x = omega (arith, and-7f (flagged x), flagged_lem x)

pub write_varint32-base128 : (v : ℕ) → v < 2 ^ 32 → write_varint32 v ≡ base128 4 v
unfolding write_varint32 base128
write_varint32-base128 v h = ground (
  arith,
  flagged_lem v,
  flagged_lem (shr v 7),
  flagged_lem (shr v 14),
  flagged_lem (shr v 21),
  last_flagged_lem v,
  last_flagged_lem (shr v 7),
  last_flagged_lem (shr v 14),
  last_flagged_lem (shr v 21),
)

-- `n + 1` groups hold `v`, and `n` do not.
abbrev pub Fits : ℕ → ℕ → Type 0
Fits n v = (v < 128 ^ suc n) × (128 ^ n ≤ max v 1)

pub Fits-div : (n v : ℕ) → Fits (suc n) v → Fits n (v / 128)
Fits-div n v h = omega (arith, pow-suc 128 n, pow-suc 128 (suc n), one-le-pow n 128)

pub ne-small : (n v : ℕ) → Fits (suc n) v → 128 ≤ v
ne-small n v h = omega (arith, pow-suc 128 n, one-le-pow n 128)

pub length-base128 : (k n v : ℕ) → n ≤ k → Fits n v → length (base128 k v) ≡ suc n
unfolding base128
length-base128 zero zero v p h = refl
length-base128 zero (suc n) v p h = absurd (omega arith)
length-base128 (suc k) zero v p h = ground arith
length-base128 (suc k) (suc n) v p h =
    ground (arith, ne-small n v, length-base128 k n (v / 128) (omega arith) (Fits-div n v h))

-- All the groups of `v`, each with its flag.
abbrev flagged_groups : ℕ → ℕ → List ℕ
flagged_groups zero v = []
flagged_groups (suc k) v = flagged v ∷ flagged_groups k (v / 128)

take_groups :
    (k m n v : ℕ)
    → n ≤ k
    → n ≤ m
    → unflag_last (take (suc n) (flagged_groups (suc k) v))
      ≡ unflag_last (take (suc n) (flagged_groups (suc m) v))
take_groups k m n v p q = ap unflag_last (short k m n v p q)
  where
    short :
        (k m n v : ℕ)
        → n ≤ k
        → n ≤ m
        → take (suc n) (flagged_groups (suc k) v) ≡ take (suc n) (flagged_groups (suc m) v)
    short k m zero v p q = refl
    short (suc k) (suc m) (suc n) v p q =
        ap (λ t. flagged v ∷ t) (short k m n (v / 128) (omega arith) (omega arith))
    short zero m (suc n) v p q = absurd (omega arith)
    short (suc k) zero (suc n) v p q = absurd (omega arith)

unflag_last-take :
    (k n v : ℕ)
    → n ≤ k
    → Fits n v
    → unflag_last (take (suc n) (flagged_groups (suc k) v)) ≡ base128 k v
unfolding base128
unflag_last-take zero zero v p h = ap (λ t. t ∷ []) (omega (arith, last_flagged_lem v))
unflag_last-take zero (suc n) v p h = absurd (omega arith)
unflag_last-take (suc k) zero v p h = ground (arith, last_flagged_lem v)
unflag_last-take (suc k) (suc n) v p h = ground (
  arith,
  ne-small n v,
  flagged_lem v,
  unflag_last-take k n (v / 128) (omega arith) (Fits-div n v h),
)

pub varint_size64-Fits :
    (v : ℕ) → v < 2 ^ 64 → Fits (varint_size64 v - 1) v × (varint_size64 v ≤ 10)
unfolding varint_size64
varint_size64-Fits v h = ground arith

pub varint_size64-pos : (v : ℕ) → 0 < varint_size64 v
unfolding varint_size64
varint_size64-pos v = ground arith

varint64_bytes-size :
    (v : ℕ)
    → v < 2 ^ 64
    → varint64_bytes (u32 v) (u32 (shr v 28)) (u32 (shr v 56)) ≡ varint_size64 v
unfolding varint64_bytes varint_size64
varint64_bytes-size v h = ground arith

same_flagged : (a b : ℕ) → a % 128 ≡ b % 128 → flagged a ≡ flagged b
same_flagged a b h = omega (arith, flagged_lem a, flagged_lem b)

varint64_stores-groups :
    (v : ℕ)
    → v < 2 ^ 64
    → varint64_stores (u32 v) (u32 (shr v 28)) (u32 (shr v 56)) ≡ flagged_groups 10 v
varint64_stores-groups v h = cc (
  same_flagged (u32 v) v (omega arith),
  same_flagged (shr (u32 v) 7) (v / 128) (omega arith),
  same_flagged (shr (u32 v) 14) (v / 128 / 128) (omega arith),
  same_flagged (shr (u32 v) 21) (v / 128 / 128 / 128) (omega arith),
  same_flagged (u32 (shr v 28)) (v / 128 / 128 / 128 / 128) (omega arith),
  same_flagged (shr (u32 (shr v 28)) 7) (v / 128 / 128 / 128 / 128 / 128) (omega arith),
  same_flagged (shr (u32 (shr v 28)) 14) (v / 128 / 128 / 128 / 128 / 128 / 128) (omega arith),
  same_flagged (shr (u32 (shr v 28)) 21) (v / 128 / 128 / 128 / 128 / 128 / 128 / 128)
      (omega arith),
  same_flagged (u32 (shr v 56)) (v / 128 / 128 / 128 / 128 / 128 / 128 / 128 / 128) (omega arith),
  same_flagged (shr (u32 (shr v 56)) 7) (v / 128 / 128 / 128 / 128 / 128 / 128 / 128 / 128 / 128)
      (omega arith),
)

-- On a uint64_t, `WriteVarint64`, with its search tree and its ten stores, stores the groups of seven
-- digits, the lowest first, each but the last flagged.
pub write_varint64-base128 : (v : ℕ) → v < 2 ^ 64 → write_varint64 v ≡ base128 9 v
unfolding write_varint64
write_varint64-base128 v h =
    let (fits, le) = varint_size64-Fits v h in
    let e : varint_size64 v ≡ suc (varint_size64 v - 1) = omega (arith, varint_size64-pos v) in
    ap (λ n. unflag_last (take n (varint64_stores (u32 v) (u32 (shr v 28)) (u32 (shr v 56)))))
      (varint64_bytes-size v h ∙ e)
    ∙ ap (λ t. unflag_last (take (suc (varint_size64 v - 1)) t)) (varint64_stores-groups v h)
    ∙ unflag_last-take 9 (varint_size64 v - 1) v (omega arith) fits

-- On a uint64_t, `WriteVarint64` stores as many bytes as `VarintSize64` says.
pub length-write_varint64 : (v : ℕ) → v < 2 ^ 64 → length (write_varint64 v) ≡ varint_size64 v
length-write_varint64 v h =
    let (fits, le) = varint_size64-Fits v h in
    ap length (write_varint64-base128 v h)
    ∙ length-base128 9 (varint_size64 v - 1) v (omega arith) fits
    ∙ omega (arith, varint_size64-pos v)

pub varint_size32-size64 : (v : ℕ) → v < 2 ^ 32 → varint_size32 v ≡ varint_size64 v
unfolding varint_size32 varint_size64
varint_size32-size64 v h = ground arith

pub short_size : (v : ℕ) → v < 2 ^ 32 → varint_size64 v ≤ 5
unfolding varint_size64
short_size v h = ground arith

-- A wider description of the same number is the same.
base128-fuel : (k m n v : ℕ) → n ≤ k → n ≤ m → Fits n v → base128 k v ≡ base128 m v
base128-fuel k m n v p q h =
    sym (unflag_last-take k n v p h) ∙ take_groups k m n v p q ∙ unflag_last-take m n v q h

-- On a uint32_t, `WriteVarint32` stores what `WriteVarint64` stores.
pub write_varint32-write_varint64 : (v : ℕ) → v < 2 ^ 32 → write_varint32 v ≡ write_varint64 v
write_varint32-write_varint64 v h =
    let (fits, le) = varint_size64-Fits v (omega arith) in
    write_varint32-base128 v h
    ∙ base128-fuel 4 9 (varint_size64 v - 1) v (omega (arith, short_size v h)) (omega arith) fits
    ∙ sym (write_varint64-base128 v (omega arith))

pub length-write_varint32 : (v : ℕ) → v < 2 ^ 32 → length (write_varint32 v) ≡ varint_size32 v
length-write_varint32 v h =
    ap length (write_varint32-write_varint64 v h)
    ∙ length-write_varint64 v (omega arith)
    ∙ sym (varint_size32-size64 v h)
