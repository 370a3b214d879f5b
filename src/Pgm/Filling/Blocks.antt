-- ===== src/Pgm/Filling/Blocks.antt =====
-- What the loop of OutEvent (src/pgm_sender.cc) puts into the data of a packet.
use flash_forwarder.Prelude.{
  ℕ, ◌+◌, ◌-◌, ◌/◌, ◌%◌, ◌^◌, ◌≤◌, ◌<◌, ◌≡◌, ◌≢◌, inl, inr, refl, sym, ap, ◌∙◌, bit_and, List, [],
  ◌∷◌, ◌++◌, Option, none, some, ltb, leb, if◌then◌else◌, length, take, drop, Bool-cases, leb→le,
  length-append, length-take, length-drop, take-append-drop, drop-add, append_assoc,
  drop_of_length_le, eq→==, ne→==_false, arith,
}
use flash_forwarder.Prelude.Bits.{and-1fff, or_add_low}
use flash_forwarder.Pgm.Filling.{Coder, Reads, Filling, copy_current, started_at, encode_one}

-- The messages that the calls of Read give.
abbrev pub messages_of : Reads → List (List ℕ)
messages_of [] = []
messages_of (none ∷ reads) = messages_of reads
messages_of (some msg ∷ reads) = msg ∷ messages_of reads

abbrev pub encode_each {ℓ} : {Z : Type ℓ} → Coder Z → List (List ℕ) → Z → Z
encode_each coder [] z = z
encode_each coder (msg ∷ msgs) z = encode_each coder msgs (encode_one coder msg z)

-- The blocks of bytes of a serializer that is given some messages, flushed, given some more, and so on.
abbrev pub blocks_of {ℓ} : {Z : Type ℓ} → Coder Z → Z → List (List (List ℕ)) → List (List ℕ) × Z
blocks_of coder z [] = ([], z)
blocks_of coder z (msgs ∷ groups) =
    let (block, z') = coder.flush (encode_each coder msgs z) in
    let (blocks, z'') = blocks_of coder z' groups in (block ∷ blocks, z'')

-- What was not copied yet of the block at hand.
abbrev pub rest_from : Option (List ℕ) → ℕ → List ℕ
rest_from none offset = []
rest_from (some block) offset = drop offset block

abbrev pub rest_of {ℓ} : {Z : Type ℓ} → Filling Z → List ℕ
rest_of f = rest_from f.current f.current_offset

-- An offset in 13 bits under a mask is free as long as it stands for no offset.
abbrev pub IsFree : ℕ → Type 0
IsFree offset = offset % 0x2000 ≡ 0x1fff

pub started_at-free :
    (mask bytes offset : ℕ)
    → mask % 0x2000 ≡ 0
    → bytes < 0x2000
    → IsFree offset
    → started_at mask bytes offset ≡ bytes + mask
unfolding started_at
started_at-free mask bytes offset m h free =
    rw (eq→== (bit_and offset 0x1fff) 0x1fff (and-1fff offset ∙ free)) (
      or_add_low 13 (mask / 0x2000) (bytes % 2 ^ 16) mask (omega arith) (omega arith) ∙ omega arith)

pub started_at-taken :
    (mask bytes offset : ℕ) → offset % 0x2000 ≢ 0x1fff → started_at mask bytes offset ≡ offset
unfolding started_at
started_at-taken mask bytes offset h =
    rw (ne→==_false (bit_and offset 0x1fff) 0x1fff (λ e. h (sym (and-1fff offset) ∙ e))) refl

some_ne_none {ℓ} : {A : Type ℓ} {x : A} → some x ≢ none
some_ne_none e = absurd cc

module _ {ℓ} {Z : Type ℓ} (room : ℕ) where
  -- A copy takes a part of the rest.
  pub record Copied (block : List ℕ) (f g : Filling Z) : Type ℓ where
    pub bytes : g.content ++ rest_of g ≡ f.content ++ drop f.current_offset block
    pub fits : length g.content ≤ room
    pub same_offset : g.offset ≡ f.offset
    pub same_serializer : g.serializer ≡ f.serializer
    pub same_reads : g.reads ≡ f.reads
    pub in_place : g.current ≡ none → g.current_offset ≡ 0

  pub copy_current-Copied :
      (block : List ℕ) (f : Filling Z)
      → length f.content < room
      → f.current ≡ some block
      → Copied block f (copy_current room block f)
  unfolding copy_current
  copy_current-Copied block f h c =
      let wanted = length block - f.current_offset in
      let available = room - length f.content in
      let w = (if ltb available wanted then available else wanted) in
      let bits = take w (drop f.current_offset block) in
      let cut : (f.content ++ bits) ++ drop w (drop f.current_offset block)
          ≡ f.content ++ drop f.current_offset block =
        append_assoc f.content bits (drop w (drop f.current_offset block))
        ∙ ap (λ t. f.content ++ t) (take-append-drop w (drop f.current_offset block)) in
      let width : length bits ≡ w =
        length-take w (drop f.current_offset block)
          (ground (arith, length-drop f.current_offset block)) in
      let small : w ≤ available = ground arith in
      let held : length (f.content ++ bits) ≤ room = omega (arith, length-append f.content bits) in
      elim (Bool-cases (leb (length block) (f.current_offset + w))) [
        | inl e ↦ simp e (record {
          bytes =
              ap (λ t. (f.content ++ bits) ++ t)
                (sym (
                  drop_of_length_le w (drop f.current_offset block) (
                    ground (
                      arith,
                      length-drop f.current_offset block,
                      leb→le (length block) (f.current_offset + w) e,
                    ))))
              ∙ cut;
          fits = held;
          same_offset = refl;
          same_serializer = refl;
          same_reads = refl;
          in_place = λ n. refl;
        })
        | inr e ↦ simp e (record {
          bytes = simp c (
              ap (λ (n : ℕ). (f.content ++ bits) ++ drop n block) {x = f.current_offset + w}
                {y = w + f.current_offset} (omega arith)
              ∙ ap (λ t. (f.content ++ bits) ++ t) (sym (drop-add f.current_offset w block))
              ∙ cut);
          fits = held;
          same_offset = refl;
          same_serializer = refl;
          same_reads = refl;
          in_place = λ n. absurd (some_ne_none (sym c ∙ n));
        })
      ]
