-- ===== src/WireFormat/Decode.antt =====
-- The varint readers of src/wire_format-inl.h on what the writers store.
use flash_forwarder.Prelude.{
  ℕ, zero, suc, ◌+◌, ◌-◌, ◌*◌, ◌/◌, ◌%◌, ◌^◌, ◌≤◌, ◌<◌, ◌≡◌, refl, List, ◌∷◌, ◌++◌, length, ap, ◌∙◌,
  arith,
}
use flash_forwarder.Prelude.Bits.{and-80, or_fields_low}
use native.Mathlib.Nat.{pow-suc, one-le-pow, div-add-mod}
use native.Mathlib.Numerals.{towards_suc}
use native.Mathlib.Decide.{dec_lt}
use flash_forwarder.WireFormat.Defs.{
  write_varint32, write_varint64, varint_size64, Outcome, done, last, more, read_groups,
  read_varint32, read_varint64, read_part1, read_part2, join_parts, u32, shl32, shl64,
}
use flash_forwarder.WireFormat.Encode.{
  base128, Fits, Fits-div, ne-small, varint_size64-Fits, varint_size64-pos, write_varint32-base128,
  write_varint64-base128, varint_size32-size64, short_size, length-write_varint32,
  length-write_varint64,
}

-- One line on a byte without its flag, and on a byte with it.
read_last :
    (l s p n b : ℕ) (rest : List ℕ)
    → b < 128
    → p + b * 2 ^ s < 2 ^ 32
    → read_groups (suc l) s p n (b ∷ rest) ≡ last (p + b * 2 ^ s) (n + 1)
unfolding read_groups
read_last l s p n b rest hb fits = ground (arith, and-80 b)

read_more :
    (l s p n g : ℕ) (rest : List ℕ)
    → g < 128
    → p + g * 2 ^ s < 2 ^ 32
    → read_groups (suc l) s p n ((g + 128) ∷ rest)
      ≡ read_groups l (s + 7) (p + g * 2 ^ s) (n + 1) rest
unfolding read_groups
read_more l s p n g rest hg fits = ground (
  arith,
  and-80 (g + 128),
  ap (λ (t : ℕ). read_groups l (s + 7) t (n + 1) rest)
      {x = u32 (u32 (p + shl32 (g + 128) s) + 2 ^ 32 - shl32 0x80 s)} {y = p + g * 2 ^ s}
      (omega arith),
)

-- The lowest group of `w` and the groups above it, where the lowest is shifted by `s`.
groups_sum : (w s : ℕ) → w % 128 * 2 ^ s + w / 128 * 2 ^ (s + 7) ≡ w * 2 ^ s
groups_sum w s =
    let e : 2 ^ (s + 7) ≡ 2 ^ s * 128 = simp towards_suc (omega arith) in
    let d : (128 * (w / 128) + w % 128) * 2 ^ s ≡ w * 2 ^ s =
      ap (λ (t : ℕ). t * 2 ^ s) (div-add-mod w 128) in
    omega (arith, d, ap (λ (t : ℕ). w / 128 * t) e)

read_groups-last :
    (l k m s p n w : ℕ) (rest : List ℕ)
    → m < l
    → m ≤ k
    → Fits m w
    → p + w * 2 ^ s < 2 ^ 32
    → read_groups l s p n (base128 k w ++ rest) ≡ last (p + w * 2 ^ s) (n + suc m)
unfolding base128
read_groups-last zero k m s p n w rest ml mk h fits = absurd (omega arith)
read_groups-last (suc l) zero zero s p n w rest ml mk h fits =
    read_last l s p n w rest (omega arith) fits
read_groups-last (suc l) zero (suc m) s p n w rest ml mk h fits = absurd (omega arith)
read_groups-last (suc l) (suc k) zero s p n w rest ml mk h fits =
    ground (arith, read_last l s p n w rest)
read_groups-last (suc l) (suc k) (suc m) s p n w rest ml mk h fits = ground (
  arith,
  ne-small m w h,
  groups_sum w s,
  read_more l s p n (w % 128) (base128 k (w / 128) ++ rest),
  read_groups-last l k m (s + 7) (p + w % 128 * 2 ^ s) (n + 1) (w / 128) rest (omega arith)
      (omega arith) (Fits-div m w h) (omega (arith, groups_sum w s)),
)

base128_more : (k w : ℕ) → 128 ≤ w → base128 (suc k) w ≡ (w % 128 + 128) ∷ base128 k (w / 128)
unfolding base128
base128_more k w h = ground arith

read_groups_end : (s p n : ℕ) (rest : List ℕ) → read_groups 0 s p n rest ≡ more p n rest
unfolding read_groups
read_groups_end s p n rest = refl

more_eq :
    (k p q n m w v : ℕ) (rest : List ℕ)
    → p ≡ q
    → n ≡ m
    → w ≡ v
    → more p n (base128 k w ++ rest) ≡ more q m (base128 k v ++ rest)
more_eq k p q n m w v rest a b c = cc

-- Four lines on a number of more than four groups.
read_groups_four :
    (k n w : ℕ) (rest : List ℕ)
    → 2 ^ 28 ≤ w
    → read_groups 4 0 0 n (base128 (suc (suc (suc (suc k)))) w ++ rest)
      ≡ more (w % 2 ^ 28) (n + 4) (base128 k (w / 2 ^ 28) ++ rest)
read_groups_four k n w rest h =
    let w1 = w / 128 in
    let w2 = w1 / 128 in
    let w3 = w2 / 128 in
    let p1 = 0 + w % 128 * 2 ^ 0 in
    let p2 = p1 + w1 % 128 * 2 ^ 7 in
    let p3 = p2 + w2 % 128 * 2 ^ 14 in
    let p4 = p3 + w3 % 128 * 2 ^ 21 in
    let bytes = λ (t : List ℕ). read_groups 4 0 0 n (t ++ rest) in
    ap bytes (base128_more _ w (omega arith))
    ∙ read_more 3 0 0 n (w % 128) _ (omega arith) (omega arith)
    ∙ ap (λ t. read_groups 3 7 p1 (n + 1) (t ++ rest)) (base128_more _ w1 (omega arith))
    ∙ read_more 2 7 p1 (n + 1) (w1 % 128) _ (omega arith) (omega arith)
    ∙ ap (λ t. read_groups 2 14 p2 (n + 1 + 1) (t ++ rest)) (base128_more _ w2 (omega arith))
    ∙ read_more 1 14 p2 (n + 1 + 1) (w2 % 128) _ (omega arith) (omega arith)
    ∙ ap (λ t. read_groups 1 21 p3 (n + 1 + 1 + 1) (t ++ rest)) (base128_more _ w3 (omega arith))
    ∙ read_more 0 21 p3 (n + 1 + 1 + 1) (w3 % 128) _ (omega arith) (omega arith)
    ∙ read_groups_end 28 p4 (n + 1 + 1 + 1 + 1) _
    ∙ more_eq k _ _ _ _ _ _ rest (omega arith) (omega arith) (omega arith)

join_parts_lem :
    (part0 part1 part2 : ℕ)
    → part0 < 2 ^ 28
    → part1 < 2 ^ 28
    → part2 < 2 ^ 8
    → join_parts part0 part1 part2 ≡ part0 + part1 * 2 ^ 28 + part2 * 2 ^ 56
unfolding join_parts
join_parts_lem part0 part1 part2 h0 h1 h2 =
    let e1 : shl64 part1 28 ≡ part1 * 2 ^ 28 = omega arith in
    let e2 : shl64 part2 56 ≡ part2 * 2 ^ 56 = omega arith in
    rw (e1, e2, or_fields_low 28 part1 part0 h0)
      (or_fields_low 56 part2 (part0 + part1 * 2 ^ 28) (omega arith))

read_varint32-last :
    (buffer : List ℕ) (v n : ℕ)
    → read_groups 5 0 0 0 buffer ≡ last v n
    → read_varint32 buffer ≡ done (v, n)
unfolding read_varint32
read_varint32-last buffer v n e = rw (e, read_varint32)

last_eq : (v w n m : ℕ) → v ≡ w → n ≡ m → last v n ≡ last w m
last_eq v w n m p q = cc

done_eq : (v w n m : ℕ) → v ≡ w → n ≡ m → ◌≡◌ {A = Outcome (ℕ × ℕ)} (done (v, n)) (done (w, m))
done_eq v w n m p q = cc

-- What `WriteVarint32` stored, `ReadVarint32` reads back, and it takes just those bytes.
pub read_varint32-write_varint32 :
    (v : ℕ) (rest : List ℕ)
    → v < 2 ^ 32
    → read_varint32 (write_varint32 v ++ rest) ≡ done (v, length (write_varint32 v))
read_varint32-write_varint32 v rest h =
    let m = varint_size64 v - 1 in
    let (fits, le) = varint_size64-Fits v (omega arith) in
    let m4 : m ≤ 4 = omega (arith, short_size v h) in
    read_varint32-last _ v (length (write_varint32 v)) (
      ap (λ t. read_groups 5 0 0 0 (t ++ rest)) (write_varint32-base128 v h)
      ∙ read_groups-last 5 4 m 0 0 0 v rest (omega arith) m4 fits (omega arith)
      ∙ last_eq _ _ _ _ (omega arith)
          (omega (arith, length-write_varint32 v h, varint_size32-size64 v h, varint_size64-pos v)))

read_part2_lem :
    (part0 part1 n m w : ℕ) (rest : List ℕ)
    → part0 < 2 ^ 28
    → part1 < 2 ^ 28
    → w < 2 ^ 8
    → m < 2
    → Fits m w
    → read_part2 part0 part1 n (base128 1 w ++ rest)
      ≡ done (part0 + part1 * 2 ^ 28 + w * 2 ^ 56, n + suc m)
unfolding read_part2
read_part2_lem part0 part1 n m w rest h0 h1 hw hm fits = ground (
  arith,
  read_groups-last 2 1 m 0 0 n w rest (omega arith) (omega arith) fits (omega arith),
  join_parts_lem part0 part1 w h0 h1 hw,
)

read_part1_last :
    (part0 n m w : ℕ) (rest : List ℕ)
    → part0 < 2 ^ 28
    → w < 2 ^ 28
    → m < 4
    → Fits m w
    → read_part1 part0 n (base128 5 w ++ rest) ≡ done (part0 + w * 2 ^ 28, n + suc m)
unfolding read_part1
read_part1_last part0 n m w rest h0 hw hm fits = ground (
  arith,
  read_groups-last 4 5 m 0 0 n w rest (omega arith) (omega arith) fits (omega arith),
  join_parts_lem part0 w 0 h0 hw (omega arith),
)

read_part1_more :
    (part0 n w : ℕ) (rest : List ℕ)
    → 2 ^ 28 ≤ w
    → read_part1 part0 n (base128 5 w ++ rest)
      ≡ read_part2 part0 (w % 2 ^ 28) (n + 4) (base128 1 (w / 2 ^ 28) ++ rest)
unfolding read_part1
read_part1_more part0 n w rest h = rw (read_groups_four 1 n w rest h, read_part1)

read_varint64_last :
    (m v : ℕ) (rest : List ℕ)
    → v < 2 ^ 28
    → m < 4
    → Fits m v
    → read_varint64 (base128 9 v ++ rest) ≡ done (v, suc m)
unfolding read_varint64
read_varint64_last m v rest hv hm fits = ground (
  arith,
  read_groups-last 4 9 m 0 0 0 v rest (omega arith) (omega arith) fits (omega arith),
  join_parts_lem v 0 0 hv (omega arith) (omega arith),
)

read_varint64_more :
    (v : ℕ) (rest : List ℕ)
    → 2 ^ 28 ≤ v
    → read_varint64 (base128 9 v ++ rest)
      ≡ read_part1 (v % 2 ^ 28) 4 (base128 5 (v / 2 ^ 28) ++ rest)
unfolding read_varint64
read_varint64_more v rest h = rw (read_groups_four 5 0 v rest h, read_varint64)

-- Four groups fewer for a number without its lowest four.
Fits-four :
    (m v : ℕ)
    → 2 ^ 28 ≤ v
    → Fits m v
    → (k : ℕ) × (m ≡ suc (suc (suc (suc k)))) × Fits k (v / 2 ^ 28)
Fits-four zero v h f = absurd (omega arith)
Fits-four (suc zero) v h f = absurd (omega arith)
Fits-four (suc (suc zero)) v h f = absurd (omega arith)
Fits-four (suc (suc (suc zero))) v h f = absurd (omega arith)
Fits-four (suc (suc (suc (suc k)))) v h f =
    let f1 = Fits-div (suc (suc (suc k))) v f in
    let f2 = Fits-div (suc (suc k)) (v / 128) f1 in
    let f3 = Fits-div (suc k) (v / 128 / 128) f2 in
    let f4 = Fits-div k (v / 128 / 128 / 128) f3 in
    let e : v / 128 / 128 / 128 / 128 ≡ v / 2 ^ 28 = omega arith in (k, refl, rw e at f4)

Fits-lt : (k m v : ℕ) → Fits m v → v < 128 ^ suc k → m < suc k
Fits-lt k zero v f h = omega arith
Fits-lt zero (suc m) v f h = absurd (omega (arith, pow-suc 128 m, one-le-pow m 128))
Fits-lt (suc k) (suc m) v f h =
    omega (arith, Fits-lt k m (v / 128) (Fits-div m v f) (omega (arith, pow-suc 128 (suc k))))

-- The second and third part, behind a first part of 28 digits.
read_part1_lem :
    (part0 n m w : ℕ) (rest : List ℕ)
    → part0 < 2 ^ 28
    → w < 2 ^ 36
    → Fits m w
    → read_part1 part0 n (base128 5 w ++ rest) ≡ done (part0 + w * 2 ^ 28, n + suc m)
read_part1_lem part0 n m w rest h0 hw f = elim (dec_lt w (2 ^ 28)) [
  | yes p ↦ read_part1_last part0 n m w rest h0 p (Fits-lt 3 m w f (omega arith)) f
  | no p ↦
      let (k, e, g) = Fits-four m w (omega arith) f in
      read_part1_more part0 n w rest (omega arith)
      ∙ read_part2_lem part0 (w % 2 ^ 28) (n + 4) k (w / 2 ^ 28) rest h0 (omega arith) (omega arith)
          (Fits-lt 1 k (w / 2 ^ 28) g (omega arith)) g
      ∙ done_eq _ _ _ _ (omega arith) (omega arith)
]

read_varint64-base128 :
    (m v : ℕ) (rest : List ℕ)
    → v < 2 ^ 64
    → Fits m v
    → read_varint64 (base128 9 v ++ rest) ≡ done (v, suc m)
read_varint64-base128 m v rest h f = elim (dec_lt v (2 ^ 28)) [
  | yes p ↦ read_varint64_last m v rest p (Fits-lt 3 m v f (omega arith)) f
  | no p ↦
      let (k, e, g) = Fits-four m v (omega arith) f in
      read_varint64_more v rest (omega arith)
      ∙ read_part1_lem (v % 2 ^ 28) 4 k (v / 2 ^ 28) rest (omega arith) (omega arith) g
      ∙ done_eq _ _ _ _ (omega arith) (omega arith)
]

-- What `WriteVarint64` stored, `ReadVarint64` reads back, and it takes just those bytes.
pub read_varint64-write_varint64 :
    (v : ℕ) (rest : List ℕ)
    → v < 2 ^ 64
    → read_varint64 (write_varint64 v ++ rest) ≡ done (v, length (write_varint64 v))
read_varint64-write_varint64 v rest h =
    let (fits, le) = varint_size64-Fits v h in
    ap (λ t. read_varint64 (t ++ rest)) (write_varint64-base128 v h)
    ∙ read_varint64-base128 (varint_size64 v - 1) v rest h fits
    ∙ done_eq _ _ _ _ refl (omega (arith, length-write_varint64 v h, varint_size64-pos v))
