-- ===== src/WireFormat/Safe.antt =====
-- `ReadVarint32Safe` and `ReadVarint64Safe` of src/wire_format-inl.h, which are given the size of the
-- memory. The size is the 32-bit pattern of an int.
use flash_forwarder.Prelude.{
  ℕ, zero, suc, ◌+◌, ◌-◌, ◌^◌, ◌<◌, ◌≡◌, refl, sym, ap, ◌∙◌, List, [], ◌∷◌, Bool, true, false, ◌||◌,
  bit_and, leb, ◌==◌, if◌then◌else◌, length, arith,
}
use flash_forwarder.WireFormat.Defs.{
  u32, shl32, Outcome, done, fail, fault, ◌>>=◌, Groups, last, more, past, read_groups,
  read_varint32, read_varint64, read_part1, read_part2, join_parts,
}

-- The test before byte `n`: `size <= 0` before the first, `size == n` before the others.
abbrev pub stop : ℕ → ℕ → Bool
stop zero size = size == 0 || leb (2 ^ 31) size
stop (suc n) size = size == suc n

-- A row of the lines of `read_groups`, each after its test; `fail` is the return of -1.
unfoldable pub read_groups_safe : ℕ → ℕ → ℕ → ℕ → ℕ → List ℕ → Outcome Groups
read_groups_safe zero shift part n size buffer = done (more part n buffer)
read_groups_safe (suc lines) shift part n size [] = if stop n size then fail else fault
read_groups_safe (suc lines) shift part n size (b ∷ buffer) =
    let sum = u32 (part + shl32 b shift) in
    let rest =
      read_groups_safe lines (shift + 7) (u32 (sum + 2 ^ 32 - shl32 0x80 shift)) (n + 1) size
        buffer in
    if stop n size then fail else (if bit_and b 0x80 == 0 then done (last sum (n + 1)) else rest)

abbrev pub finish32 : Groups → Outcome (ℕ × ℕ)
finish32 (last result n) = done (result, n)
finish32 (more _ _ _) = fail
finish32 past = fault

unfoldable pub read_varint32_safe : ℕ → List ℕ → Outcome (ℕ × ℕ)
read_varint32_safe size buffer = do g ← read_groups_safe 5 0 0 0 size buffer; finish32 g

abbrev pub finish_part2 : ℕ → ℕ → Groups → Outcome (ℕ × ℕ)
finish_part2 part0 part1 (last part2 n) = done (join_parts part0 part1 part2, n)
finish_part2 part0 part1 (more _ _ _) = fail
finish_part2 part0 part1 past = fault

abbrev pub finish_part1 : ℕ → ℕ → Groups → Outcome (ℕ × ℕ)
finish_part1 part0 size (last part1 n) = done (join_parts part0 part1 0, n)
finish_part1 part0 size (more part1 n rest) = do
  g ← read_groups_safe 2 0 0 n size rest
  finish_part2 part0 part1 g
finish_part1 part0 size past = fault

abbrev pub finish_part0 : ℕ → Groups → Outcome (ℕ × ℕ)
finish_part0 size (last part0 n) = done (join_parts part0 0 0, n)
finish_part0 size (more part0 n rest) = do
  g ← read_groups_safe 4 0 0 n size rest
  finish_part1 part0 size g
finish_part0 size past = fault

unfoldable pub read_varint64_safe : ℕ → List ℕ → Outcome (ℕ × ℕ)
read_varint64_safe size buffer = do g ← read_groups_safe 4 0 0 0 size buffer; finish_part0 size g

-- A read past the end becomes a return of -1.
abbrev pub guarded {ℓ} : {A : Type ℓ} → Outcome A → Outcome A
guarded (done x) = done x
guarded fail = fail
guarded fault = fail

abbrev guarded_groups : Groups → Outcome Groups
guarded_groups (last v n) = done (last v n)
guarded_groups (more v n rest) = done (more v n rest)
guarded_groups past = fail

stop-end : (n size : ℕ) → size ≡ n → stop n size ≡ true
stop-end zero size e = ground arith
stop-end (suc n) size e = ground arith

stop-before : (n size : ℕ) → n < size → size < 2 ^ 31 → stop n size ≡ false
stop-before zero size p q = ground arith
stop-before (suc n) size p q = ground arith

if_guarded :
    (b : Bool) (g h : Groups) (s : Outcome Groups)
    → s ≡ guarded_groups h
    → (if b then guarded_groups g else s) ≡ guarded_groups (if b then g else h)
if_guarded true g h s e = refl
if_guarded false g h s e = e

read_groups_safe_lem :
    (lines shift part n size : ℕ) (buffer : List ℕ)
    → size ≡ n + length buffer
    → size < 2 ^ 31
    → read_groups_safe lines shift part n size buffer
      ≡ guarded_groups (read_groups lines shift part n buffer)
unfolding read_groups_safe read_groups
read_groups_safe_lem zero shift part n size buffer e h = refl
read_groups_safe_lem (suc lines) shift part n size [] e h = rw (stop-end n size (omega arith)) refl
read_groups_safe_lem (suc lines) shift part n size (b ∷ buffer) e h =
    let sum = u32 (part + shl32 b shift) in
    let part' = u32 (sum + 2 ^ 32 - shl32 0x80 shift) in
    rw (stop-before n size (omega arith) h) (
      if_guarded (bit_and b 0x80 == 0) (last sum (n + 1))
        (read_groups lines (shift + 7) part' (n + 1) buffer) _
        (read_groups_safe_lem lines (shift + 7) part' (n + 1) size buffer (omega arith) h))

-- The bytes that a row leaves and those that it took are those that were there.
abbrev Kept : ℕ → Groups → Type 0
Kept size (last _ _) = Unit {0}
Kept size (more _ n rest) = size ≡ n + length rest
Kept size past = Unit {0}

if_Kept :
    (b : Bool) (size v n : ℕ) (g : Groups) → Kept size g → Kept size (if b then last v n else g)
if_Kept true size v n g k = tt
if_Kept false size v n g k = k

read_groups-Kept :
    (lines shift part n size : ℕ) (buffer : List ℕ)
    → size ≡ n + length buffer
    → Kept size (read_groups lines shift part n buffer)
unfolding read_groups
read_groups-Kept zero shift part n size buffer e = e
read_groups-Kept (suc lines) shift part n size [] e = tt
read_groups-Kept (suc lines) shift part n size (b ∷ buffer) e =
    let sum = u32 (part + shl32 b shift) in
    let part' = u32 (sum + 2 ^ 32 - shl32 0x80 shift) in
    if_Kept (bit_and b 0x80 == 0) size sum (n + 1)
      (read_groups lines (shift + 7) part' (n + 1) buffer)
      (read_groups-Kept lines (shift + 7) part' (n + 1) size buffer (omega arith))

finish32-guarded : (g : Groups) → (guarded_groups g >>= finish32) ≡ guarded (finish32 g)
finish32-guarded (last v n) = refl
finish32-guarded (more v n rest) = refl
finish32-guarded past = refl

finish_part2-guarded :
    (p0 p1 : ℕ) (g : Groups)
    → (guarded_groups g >>= finish_part2 p0 p1) ≡ guarded (finish_part2 p0 p1 g)
finish_part2-guarded p0 p1 (last v n) = refl
finish_part2-guarded p0 p1 (more v n rest) = refl
finish_part2-guarded p0 p1 past = refl

read_varint32-finish : (b : List ℕ) → read_varint32 b ≡ finish32 (read_groups 5 0 0 0 b)
unfolding read_varint32
read_varint32-finish b = refl

read_part2-finish :
    (p0 p1 n : ℕ) (b : List ℕ) → read_part2 p0 p1 n b ≡ finish_part2 p0 p1 (read_groups 2 0 0 n b)
unfolding read_part2
read_part2-finish p0 p1 n b = refl

-- The rows of the second and of the third part.
part1_lem :
    (p0 size : ℕ) (g : Groups)
    → Kept size g
    → size < 2 ^ 31
    → (guarded_groups g >>= finish_part1 p0 size)
      ≡ guarded (elim g [
        | last part1 m ↦ done (join_parts p0 part1 0, m)
        | more part1 m rest ↦ read_part2 p0 part1 m rest
        | past ↦ fault
      ])
part1_lem p0 size (last v n) k h = refl
part1_lem p0 size (more v n rest) k h =
    ap (λ o. o >>= finish_part2 p0 v) (read_groups_safe_lem 2 0 0 n size rest k h)
    ∙ finish_part2-guarded p0 v (read_groups 2 0 0 n rest)
    ∙ ap guarded (sym (read_part2-finish p0 v n rest))
part1_lem p0 size past k h = refl

part0_lem :
    (size : ℕ) (g : Groups)
    → Kept size g
    → size < 2 ^ 31
    → (guarded_groups g >>= finish_part0 size)
      ≡ guarded (elim g [
        | last part0 m ↦ done (join_parts part0 0 0, m)
        | more part0 m rest ↦ read_part1 part0 m rest
        | past ↦ fault
      ])
unfolding read_part1
part0_lem size (last v n) k h = refl
part0_lem size (more v n rest) k h =
    ap (λ o. o >>= finish_part1 v size) (read_groups_safe_lem 4 0 0 n size rest k h)
    ∙ part1_lem v size (read_groups 4 0 0 n rest) (read_groups-Kept 4 0 0 n size rest k) h
part0_lem size past k h = refl

-- Given the size of the memory, below 2^31, both Safe readers return what the readers without a size
-- return, and -1 where those read past the end of the memory.
pub read_safe-read :
    (b : List ℕ)
    → length b < 2 ^ 31
    → (read_varint32_safe (length b) b ≡ guarded (read_varint32 b))
      × (read_varint64_safe (length b) b ≡ guarded (read_varint64 b))
unfolding read_varint32_safe read_varint64_safe read_varint64
read_safe-read b h = (
  ap (λ o. o >>= finish32) (read_groups_safe_lem 5 0 0 0 (length b) b (omega arith) h)
      ∙ finish32-guarded (read_groups 5 0 0 0 b)
      ∙ ap guarded (sym (read_varint32-finish b)),
  ap (λ o. o >>= finish_part0 (length b))
        (read_groups_safe_lem 4 0 0 0 (length b) b (omega arith) h)
      ∙ part0_lem (length b) (read_groups 4 0 0 0 b)
          (read_groups-Kept 4 0 0 0 (length b) b (omega arith)) h,
)
