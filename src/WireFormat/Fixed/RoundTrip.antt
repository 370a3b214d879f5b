-- ===== src/WireFormat/Fixed/RoundTrip.antt =====
-- What a fixed-width writer of src/wire_format.cc stored, the reader reads back, on hosts of any order.
use flash_forwarder.Prelude.{
  ℕ, zero, suc, ◌+◌, ◌*◌, ◌/◌, ◌%◌, ◌^◌, ◌<◌, ◌≡◌, bit_or, List, [], ◌∷◌, ◌++◌, some, refl, ap, ap₂,
  ◌∙◌, arith,
}
use native.Mathlib.Nat.{pow-suc}
use mathlib.Core.List.{reverse}
use flash_forwarder.Prelude.Bits.{or_fields_low}
use flash_forwarder.WireFormat.Fixed.{
  Host, little, big, digits, undigits, low_byte, or2, or4, or_parts, read_little_endian16,
  read_little_endian32, read_little_endian64, write_little_endian16, write_little_endian32,
  write_little_endian64, read_big_endian16, read_big_endian32, read_big_endian64,
  write_big_endian16, write_big_endian32, write_big_endian64,
}

digits_below : (n v : ℕ) → v < 256 ^ suc n → v / 256 < 256 ^ n
digits_below n v h = omega (arith, pow-suc 256 n)

undigits-digits : (n v : ℕ) → v < 256 ^ n → undigits (digits n v) ≡ v
undigits-digits zero v h = omega arith
undigits-digits (suc n) v h = omega (arith, undigits-digits n (v / 256) (digits_below n v h))

or2_lem : (a b : ℕ) → a < 256 → or2 a b ≡ undigits (a ∷ b ∷ [])
or2_lem a b h = or_fields_low 8 b a h ∙ omega arith

or4_lem : (a b c d : ℕ) → a < 256 → b < 256 → c < 256 → or4 a b c d ≡ undigits (a ∷ b ∷ c ∷ d ∷ [])
or4_lem a b c d ha hb hc =
    ap (λ x. bit_or (bit_or x (c * 2 ^ 16)) (d * 2 ^ 24)) (or_fields_low 8 b a ha)
    ∙ ap (λ x. bit_or x (d * 2 ^ 24)) (or_fields_low 16 c (a + b * 2 ^ 8) (omega arith))
    ∙ or_fields_low 24 d (a + b * 2 ^ 8 + c * 2 ^ 16) (omega arith)
    ∙ omega arith

-- The bytes of a shift and those of a memcpy are the same.
low_bytes16 : (v : ℕ) → low_byte 0 v ∷ low_byte 8 v ∷ [] ≡ digits 2 v
low_bytes16 v = ap₂ (λ a b. a ∷ b ∷ []) (omega arith) (omega arith)

low_bytes32 :
    (v : ℕ) → low_byte 0 v ∷ low_byte 8 v ∷ low_byte 16 v ∷ low_byte 24 v ∷ [] ≡ digits 4 v
low_bytes32 v =
    ap₂ (λ a b. a ∷ b ∷ low_byte 16 v ∷ low_byte 24 v ∷ []) (omega arith) (omega arith)
    ∙ ap₂ (λ a b. v % 256 ∷ v / 256 % 256 ∷ a ∷ b ∷ []) (omega arith) (omega arith)

low_bytes64 :
    (v : ℕ)
    → (digits 4 (v % 2 ^ 32) ≡ digits 4 v)
      × (digits 4 (v / 2 ^ 32 % 2 ^ 32) ≡ digits 4 (v / 256 / 256 / 256 / 256))
low_bytes64 v = (
  ap₂ (λ a b. a ∷ b ∷ v % 2 ^ 32 / 256 / 256 % 256 ∷ v % 2 ^ 32 / 256 / 256 / 256 % 256 ∷ [])
        (omega arith) (omega arith)
      ∙ ap₂ (λ a b. v % 256 ∷ v / 256 % 256 ∷ a ∷ b ∷ []) (omega arith) (omega arith),
  part1 (v / 2 ^ 32) ∙ ap (digits 4) (omega arith),
)
  where
    part1 : (u : ℕ) → digits 4 (u % 2 ^ 32) ≡ digits 4 u
    part1 u =
        ap₂ (λ a b. a ∷ b ∷ u % 2 ^ 32 / 256 / 256 % 256 ∷ u % 2 ^ 32 / 256 / 256 / 256 % 256 ∷ [])
          (omega arith) (omega arith)
        ∙ ap₂ (λ a b. u % 256 ∷ u / 256 % 256 ∷ a ∷ b ∷ []) (omega arith) (omega arith)

-- What a writer stores is the same on both hosts.
write16 : (w : Host) (v : ℕ) → write_little_endian16 w v ≡ digits 2 v
unfolding write_little_endian16
write16 little v = refl
write16 big v = low_bytes16 v

write32 : (w : Host) (v : ℕ) → write_little_endian32 w v ≡ digits 4 v
unfolding write_little_endian32
write32 little v = refl
write32 big v = low_bytes32 v

write64 : (w : Host) (v : ℕ) → write_little_endian64 w v ≡ digits 8 v
unfolding write_little_endian64
write64 little v = refl
write64 big v =
    ap₂ (λ (xs ys : List ℕ). xs ++ ys) (low_bytes32 (v % 2 ^ 32) ∙ (low_bytes64 v).0)
      (low_bytes32 (v / 2 ^ 32 % 2 ^ 32) ∙ (low_bytes64 v).1)

write_big16 : (w : Host) (v : ℕ) → write_big_endian16 w v ≡ reverse (digits 2 v)
unfolding write_big_endian16
write_big16 little v = ap reverse (low_bytes16 v)
write_big16 big v = refl

write_big32 : (w : Host) (v : ℕ) → write_big_endian32 w v ≡ reverse (digits 4 v)
unfolding write_big_endian32
write_big32 little v = ap reverse (low_bytes32 v)
write_big32 big v = refl

write_big64 : (w : Host) (v : ℕ) → write_big_endian64 w v ≡ reverse (digits 8 v)
unfolding write_big_endian64 write_little_endian64
write_big64 little v = ap reverse (write64 big v)
write_big64 big v = refl

or8_lem :
    (a b c d e f g i : ℕ)
    → a < 256
    → b < 256
    → c < 256
    → d < 256
    → e < 256
    → f < 256
    → g < 256
    → or_parts (or4 a b c d) (or4 e f g i) ≡ undigits (a ∷ b ∷ c ∷ d ∷ e ∷ f ∷ g ∷ i ∷ [])
or8_lem a b c d e f g i ha hb hc hd he hf hg =
    ap₂ or_parts (or4_lem a b c d ha hb hc) (or4_lem e f g i he hf hg)
    ∙ or_fields_low 32 (undigits (e ∷ f ∷ g ∷ i ∷ [])) (undigits (a ∷ b ∷ c ∷ d ∷ [])) (omega arith)
    ∙ omega arith

-- The bytes of a word are read as the word.
read16 :
    (r : Host) (v : ℕ) (rest : List ℕ)
    → (read_little_endian16 r (digits 2 v ++ rest) ≡ some (undigits (digits 2 v)))
      × (read_big_endian16 r (reverse (digits 2 v) ++ rest) ≡ some (undigits (digits 2 v)))
unfolding read_little_endian16 read_big_endian16
read16 little v rest = (refl, ap some (or2_lem (v % 256) (v / 256 % 256) (omega arith)))
read16 big v rest = (ap some (or2_lem (v % 256) (v / 256 % 256) (omega arith)), refl)

read32 :
    (r : Host) (v : ℕ) (rest : List ℕ)
    → (read_little_endian32 r (digits 4 v ++ rest) ≡ some (undigits (digits 4 v)))
      × (read_big_endian32 r (reverse (digits 4 v) ++ rest) ≡ some (undigits (digits 4 v)))
unfolding read_little_endian32 read_big_endian32
read32 little v rest = (
  refl,
  ap some (or4_lem _ _ _ (v / 256 / 256 / 256 % 256) (omega arith) (omega arith) (omega arith)),
)
read32 big v rest = (
  ap some (or4_lem _ _ _ (v / 256 / 256 / 256 % 256) (omega arith) (omega arith) (omega arith)),
  refl,
)

byte_lt : (v : ℕ) → v % 256 < 256
byte_lt v = omega arith

read64 :
    (r : Host) (v : ℕ) (rest : List ℕ)
    → (read_little_endian64 r (digits 8 v ++ rest) ≡ some (undigits (digits 8 v)))
      × (read_big_endian64 r (reverse (digits 8 v) ++ rest) ≡ some (undigits (digits 8 v)))
unfolding read_little_endian64 read_big_endian64
read64 little v rest = (
  refl,
  ap some (
      or8_lem _ _ _ _ _ _ _ _ (byte_lt _) (byte_lt _) (byte_lt _) (byte_lt _) (byte_lt _)
        (byte_lt _) (byte_lt _)),
)
read64 big v rest = (
  ap some (
      or8_lem _ _ _ _ _ _ _ _ (byte_lt _) (byte_lt _) (byte_lt _) (byte_lt _) (byte_lt _)
        (byte_lt _) (byte_lt _)),
  refl,
)

-- At each width and in each byte order: what a fixed-width writer stored on a host of any byte order,
-- the reader on a host of any byte order reads back, whatever stands behind the bytes.
pub read_endian-write_endian :
    (r w : Host) (v : ℕ) (rest : List ℕ)
    → v < 2 ^ 64
    → (read_little_endian16 r (write_little_endian16 w (v % 2 ^ 16) ++ rest) ≡ some (v % 2 ^ 16))
      × (read_little_endian32 r (write_little_endian32 w (v % 2 ^ 32) ++ rest) ≡ some (v % 2 ^ 32))
      × (read_little_endian64 r (write_little_endian64 w v ++ rest) ≡ some v)
      × (read_big_endian16 r (write_big_endian16 w (v % 2 ^ 16) ++ rest) ≡ some (v % 2 ^ 16))
      × (read_big_endian32 r (write_big_endian32 w (v % 2 ^ 32) ++ rest) ≡ some (v % 2 ^ 32))
      × (read_big_endian64 r (write_big_endian64 w v ++ rest) ≡ some v)
read_endian-write_endian r w v rest h =
    let a = v % 2 ^ 16 in
    let b = v % 2 ^ 32 in
    let ea = undigits-digits 2 a (omega arith) in
    let eb = undigits-digits 4 b (omega arith) in
    let ev = undigits-digits 8 v (omega arith) in
    (
      ap (λ x. read_little_endian16 r (x ++ rest)) (write16 w a) ∙ (read16 r a rest).0 ∙ ap some ea,
      ap (λ x. read_little_endian32 r (x ++ rest)) (write32 w b) ∙ (read32 r b rest).0 ∙ ap some eb,
      ap (λ x. read_little_endian64 r (x ++ rest)) (write64 w v) ∙ (read64 r v rest).0 ∙ ap some ev,
      ap (λ x. read_big_endian16 r (x ++ rest)) (write_big16 w a)
          ∙ (read16 r a rest).1
          ∙ ap some ea,
      ap (λ x. read_big_endian32 r (x ++ rest)) (write_big32 w b)
          ∙ (read32 r b rest).1
          ∙ ap some eb,
      ap (λ x. read_big_endian64 r (x ++ rest)) (write_big64 w v)
          ∙ (read64 r v rest).1
          ∙ ap some ev,
    )
