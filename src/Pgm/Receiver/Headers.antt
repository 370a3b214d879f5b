-- ===== src/Pgm/Receiver/Headers.antt =====
-- The header of a packet, written by src/pgm_sender.cc and read by src/pgm_receiver.cc.
use flash_forwarder.Prelude.{
  ℕ, ◌+◌, ◌-◌, ◌*◌, ◌/◌, ◌%◌, ◌^◌, ◌≤◌, ◌<◌, ◌≡◌, refl, ap, ap₂, ◌∙◌, bit_and, List, some, Bool,
  true, false, if◌then◌else◌, arith,
}
use flash_forwarder.Prelude.Bits.{and-1fff, and_digit, or_add_low}
use flash_forwarder.Pgm.{non_exist_offset, packet}
use flash_forwarder.Pgm.Sender.{mask_of}
use flash_forwarder.Pgm.Peer.{Header, header_of, read_header}

-- What a header says.
abbrev pub the_header : ℕ → ℕ → Bool → ℕ → List ℕ → Header
the_header start level increment index content = record {
  offset = start;
  compress_level = level;
  inc_update = increment;
  index = index;
  content = content;
}

read_header-packet :
    (offset index : ℕ) (content : List ℕ)
    → offset < 2 ^ 16
    → index < 2 ^ 32
    → read_header (packet offset index content) ≡ some (header_of offset index content)
unfolding read_header packet
read_header-packet offset index content h k =
    ap₂ (λ t i. some (header_of t i content)) {x = _} {y = offset} (omega arith) (omega arith)

mask_of_lem :
    (level : ℕ) (increment : Bool)
    → level < 4
    → mask_of level increment ≡ (if increment then level + 4 else level) * 0x2000
unfolding mask_of
mask_of_lem level true h =
    omega (arith, or_add_low 15 1 (level * 2 ^ 13 % 2 ^ 16) (2 ^ 15) refl (omega arith))
mask_of_lem level false h = omega arith

-- Bit 2 of the options is the one for increments.
four_of : (level : ℕ) → level < 4 → bit_and level (2 ^ 2) ≡ 0
four_of level h = omega (arith, and_digit 2 level)

four_of_more : (level : ℕ) → level < 4 → bit_and (level + 4) (2 ^ 2) ≡ 4
four_of_more level h = omega (arith, and_digit 2 (level + 4))

header_of_lem :
    (tvalue start level : ℕ) (increment : Bool) (index : ℕ) (content : List ℕ)
    → start < 0x2000
    → level < 4
    → tvalue ≡ start + (if increment then level + 4 else level) * 0x2000
    → header_of tvalue index content ≡ the_header start level increment index content
unfolding header_of
header_of_lem tvalue start level true index content h l e =
    let low : bit_and tvalue non_exist_offset ≡ start = omega (arith, and-1fff tvalue) in
    let high : tvalue / 2 ^ 13 ≡ level + 4 = omega arith in
    rw (low, high, four_of_more level l)
      (ap (λ (n : ℕ). the_header start n true index content) {x = level + 4 - 4} {y = level}
        (omega arith))
header_of_lem tvalue start level false index content h l e =
    let low : bit_and tvalue non_exist_offset ≡ start = omega (arith, and-1fff tvalue) in
    let high : tvalue / 2 ^ 13 ≡ level = omega arith in
    rw (low, high, four_of level l)
      (ap (λ (n : ℕ). the_header start n false index content) {x = level - 0} {y = level}
        (omega arith))

below_word :
    (start level : ℕ) (increment : Bool)
    → start < 0x2000
    → level < 4
    → start + (if increment then level + 4 else level) * 0x2000 < 2 ^ 16
below_word start level true h l = omega arith
below_word start level false h l = omega arith

pub read_header-start :
    (start level : ℕ) (increment : Bool) (index : ℕ) (content : List ℕ)
    → start ≤ non_exist_offset
    → level < 4
    → index < 2 ^ 32
    → read_header (packet (start + mask_of level increment) index content)
      ≡ some (the_header start level increment index content)
read_header-start start level increment index content h l k =
    let e = mask_of_lem level increment l in
    let tvalue = start + mask_of level increment in
    let same : tvalue ≡ start + (if increment then level + 4 else level) * 0x2000 =
      omega (arith, e) in
    read_header-packet tvalue index content
      (omega (arith, same, below_word start level increment (omega arith) l)) k
    ∙ ap some (header_of_lem tvalue start level increment index content (omega arith) l same)
