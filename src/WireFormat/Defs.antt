-- ===== src/WireFormat/Defs.antt =====
-- The functions of src/wire_format-inl.h, and `VarintSize32`, `VarintSize64` of src/wire_format.cc.
use flash_forwarder.Prelude.{
  ℕ, zero, suc, ◌+◌, ◌-◌, ◌*◌, ◌/◌, ◌%◌, ◌^◌, bit_and, bit_or, bit_xor, List, [], ◌∷◌, ltb, leb,
  ◌==◌, if◌then◌else◌, take,
}

-- `static_cast<uint8_t>`, `static_cast<uint32_t>`
abbrev pub u8 : ℕ → ℕ
u8 x = x % 2 ^ 8

abbrev pub u32 : ℕ → ℕ
u32 x = x % 2 ^ 32

abbrev pub u64 : ℕ → ℕ
u64 x = x % 2 ^ 64

-- `x << k` of a uint32_t and `x >> k`
abbrev pub shl32 : ℕ → ℕ → ℕ
shl32 x k = u32 (x * 2 ^ k)

abbrev pub shl64 : ℕ → ℕ → ℕ
shl64 x k = u64 (x * 2 ^ k)

abbrev pub shr : ℕ → ℕ → ℕ
shr x k = x / 2 ^ k

-- `n >> 31` of an int32_t, and `n >> 63` of an int64_t: the sign in every digit.
sign_mask32 : ℕ → ℕ
sign_mask32 n = if ltb n (2 ^ 31) then 0 else 2 ^ 32 - 1

sign_mask64 : ℕ → ℕ
sign_mask64 n = if ltb n (2 ^ 63) then 0 else 2 ^ 64 - 1

unfoldable pub zigzag_encode32 : ℕ → ℕ
unfolding sign_mask32
zigzag_encode32 n = bit_xor (shl32 n 1) (sign_mask32 n)

unfoldable pub zigzag_decode32 : ℕ → ℕ
zigzag_decode32 n = bit_xor (shr n 1) (u32 (2 ^ 32 - bit_and n 1))

unfoldable pub zigzag_encode64 : ℕ → ℕ
unfolding sign_mask64
zigzag_encode64 n = bit_xor (shl64 n 1) (sign_mask64 n)

unfoldable pub zigzag_decode64 : ℕ → ℕ
zigzag_decode64 n = bit_xor (shr n 1) (u64 (2 ^ 64 - bit_and n 1))

-- `static_cast<uint8_t>(x | 0x80)`
abbrev pub flagged : ℕ → ℕ
flagged x = u8 (bit_or x 0x80)

-- `target[i] &= 0x7F` on a byte that `flagged` stored
abbrev pub last_flagged : ℕ → ℕ
last_flagged x = bit_and (flagged x) 0x7f

unfoldable pub write_varint32 : ℕ → List ℕ
write_varint32 v =
    if leb (2 ^ 7) v
    then flagged v
      ∷ (if leb (2 ^ 14) v
          then flagged (shr v 7)
            ∷ (if leb (2 ^ 21) v
                then flagged (shr v 14)
                  ∷ (if leb (2 ^ 28) v
                      then flagged (shr v 21) ∷ u8 (shr v 28) ∷ []
                      else last_flagged (shr v 21) ∷ [])
                else last_flagged (shr v 14) ∷ [])
          else last_flagged (shr v 7) ∷ [])
    else last_flagged v ∷ []

-- The search tree of `WriteVarint64` for the number of bytes.
unfoldable pub varint64_bytes : ℕ → ℕ → ℕ → ℕ
varint64_bytes part0 part1 part2 =
    if part2 == 0
    then (if part1 == 0
        then (if ltb part0 (2 ^ 14)
            then (if ltb part0 (2 ^ 7) then 1 else 2)
            else (if ltb part0 (2 ^ 21) then 3 else 4))
        else (if ltb part1 (2 ^ 14)
            then (if ltb part1 (2 ^ 7) then 5 else 6)
            else (if ltb part1 (2 ^ 21) then 7 else 8)))
    else (if ltb part2 (2 ^ 7) then 9 else 10)

-- The ten stores under the labels size1 to size10, by address.
abbrev pub varint64_stores : ℕ → ℕ → ℕ → List ℕ
varint64_stores part0 part1 part2 =
    flagged part0
    ∷ flagged (shr part0 7)
    ∷ flagged (shr part0 14)
    ∷ flagged (shr part0 21)
    ∷ flagged part1
    ∷ flagged (shr part1 7)
    ∷ flagged (shr part1 14)
    ∷ flagged (shr part1 21)
    ∷ flagged part2
    ∷ flagged (shr part2 7)
    ∷ []

-- `target[size-1] &= 0x7F`
abbrev pub unflag_last : List ℕ → List ℕ
unflag_last [] = []
unflag_last (b ∷ []) = bit_and b 0x7f ∷ []
unflag_last (b ∷ c ∷ bs) = b ∷ unflag_last (c ∷ bs)

-- The jump to `size<n>` makes the stores at the addresses below n.
unfoldable pub write_varint64 : ℕ → List ℕ
write_varint64 v =
    let part0 = u32 v in
    let part1 = u32 (shr v 28) in
    let part2 = u32 (shr v 56) in
    unflag_last (take (varint64_bytes part0 part1 part2) (varint64_stores part0 part1 part2))

unfoldable pub write_signed_varint32 : ℕ → List ℕ
write_signed_varint32 v = write_varint32 (zigzag_encode32 v)

unfoldable pub write_signed_varint64 : ℕ → List ℕ
write_signed_varint64 v = write_varint64 (zigzag_encode64 v)

-- `done x` is a return of a count that is not -1, `fail` the return of -1, and `fault` a read past
-- the end of the memory.
pub data Outcome {ℓ} (A : Type ℓ) : Type ℓ where
  done : A → Outcome A
  fail : Outcome A
  fault : Outcome A

infixl 5 ◌>>=◌
abbrev pub ◌>>=◌ {ℓ κ} : {A : Type ℓ} {B : Type κ} → Outcome A → (A → Outcome B) → Outcome B
done a >>= f = f a
fail >>= f = fail
fault >>= f = fault

-- What a row of lines `b = *(ptr++); part += b << shift; if (!(b & 0x80)) goto done; part -= …`
-- leaves: it met a byte with no flag, or it used up its lines, or it left the memory.
pub data Groups : Type 0 where
  last : ℕ → ℕ → Groups
  more : ℕ → ℕ → List ℕ → Groups
  past : Groups

-- `lines` lines, the first at `shift`, with `part` so far and `n` bytes read; uint32_t arithmetic.
unfoldable pub read_groups : ℕ → ℕ → ℕ → ℕ → List ℕ → Groups
read_groups zero shift part n buffer = more part n buffer
read_groups (suc lines) shift part n [] = past
read_groups (suc lines) shift part n (b ∷ buffer) =
    let sum = u32 (part + shl32 b shift) in
    let rest =
      read_groups lines (shift + 7) (u32 (sum + 2 ^ 32 - shl32 0x80 shift)) (n + 1) buffer in
    if bit_and b 0x80 == 0 then last sum (n + 1) else rest

-- The value and the count that the function returns.
unfoldable pub read_varint32 : List ℕ → Outcome (ℕ × ℕ)
read_varint32 buffer = elim (read_groups 5 0 0 0 buffer) [
  | last result n ↦ done (result, n)
  | more _ _ _ ↦ fail
  | past ↦ fault
]

-- `part0 | part1 << 28 | part2 << 56`
unfoldable pub join_parts : ℕ → ℕ → ℕ → ℕ
join_parts part0 part1 part2 = bit_or (bit_or part0 (shl64 part1 28)) (shl64 part2 56)

unfoldable pub read_part2 : ℕ → ℕ → ℕ → List ℕ → Outcome (ℕ × ℕ)
read_part2 part0 part1 n buffer = elim (read_groups 2 0 0 n buffer) [
  | last part2 m ↦ done (join_parts part0 part1 part2, m)
  | more _ _ _ ↦ fail
  | past ↦ fault
]

unfoldable pub read_part1 : ℕ → ℕ → List ℕ → Outcome (ℕ × ℕ)
read_part1 part0 n buffer = elim (read_groups 4 0 0 n buffer) [
  | last part1 m ↦ done (join_parts part0 part1 0, m)
  | more part1 m rest ↦ read_part2 part0 part1 m rest
  | past ↦ fault
]

unfoldable pub read_varint64 : List ℕ → Outcome (ℕ × ℕ)
read_varint64 buffer = elim (read_groups 4 0 0 0 buffer) [
  | last part0 n ↦ done (join_parts part0 0 0, n)
  | more part0 n rest ↦ read_part1 part0 n rest
  | past ↦ fault
]

unfoldable pub read_signed_varint32 : List ℕ → Outcome (ℕ × ℕ)
read_signed_varint32 buffer = do (v, n) ← read_varint32 buffer; done (zigzag_decode32 v, n)

unfoldable pub read_signed_varint64 : List ℕ → Outcome (ℕ × ℕ)
read_signed_varint64 buffer = do (v, n) ← read_varint64 buffer; done (zigzag_decode64 v, n)

unfoldable pub varint_size32 : ℕ → ℕ
varint_size32 v =
    if ltb v (2 ^ 7)
    then 1
    else (if ltb v (2 ^ 14)
        then 2
        else (if ltb v (2 ^ 21) then 3 else (if ltb v (2 ^ 28) then 4 else 5)))

unfoldable pub varint_size64 : ℕ → ℕ
varint_size64 v =
    if ltb v (2 ^ 35)
    then (if ltb v (2 ^ 7)
        then 1
        else (if ltb v (2 ^ 14)
            then 2
            else (if ltb v (2 ^ 21) then 3 else (if ltb v (2 ^ 28) then 4 else 5))))
    else (if ltb v (2 ^ 42)
        then 6
        else (if ltb v (2 ^ 49)
            then 7
            else (if ltb v (2 ^ 56) then 8 else (if ltb v (2 ^ 63) then 9 else 10))))
