-- ===== src/Pgm/Filling/Ends.antt =====
-- The loop of OutEvent (src/pgm_sender.cc) as rounds, and that it ends.
use flash_forwarder.Prelude.{
  ℕ, zero, suc, ◌+◌, ◌-◌, ◌≤◌, ◌<◌, ◌≡◌, ◌⊎◌, inl, inr, refl, ap, subst, List, [], ◌∷◌, Option,
  none, some, Bool, true, false, ltb, leb, if◌then◌else◌, length, take, drop, Bool-cases, ltb→lt,
  leb_false→lt, ltb_false→le, length-append, length-take, length-drop, arith,
}
use flash_forwarder.Pgm.Filling.{
  max_message_per_time, Coder, Reads, Filling, FillRound, goes_on, ends, read_messages,
  flush_current, copy_current, copy_flushed, after_reading, fill_round, fill,
}

-- The rounds of the loop, up to one that ends it.
pub data Fills {ℓ} {Z : Type ℓ} (coder : Coder Z) (mask room : ℕ)
    : Filling Z → Filling Z → Type ℓ where
  ended : {f g : Filling Z} → fill_round coder mask room f ≡ ends g → Fills coder mask room f g
  went_on :
      {f g h : Filling Z}
      → fill_round coder mask room f ≡ goes_on g
      → Fills coder mask room g h
      → Fills coder mask room f h

FillRound-cases {ℓ} :
    {Z : Type ℓ} (r : FillRound Z)
    → ((g : Filling Z) × (r ≡ goes_on g)) ⊎ ((g : Filling Z) × (r ≡ ends g))
FillRound-cases (goes_on g) = inl (g, refl)
FillRound-cases (ends g) = inr (g, refl)

pub Option-cases {ℓ} : {A : Type ℓ} (o : Option A) → ((x : A) × (o ≡ some x)) ⊎ (o ≡ none)
Option-cases (some x) = inl (x, refl)
Option-cases none = inr refl

abbrev pub is_set {ℓ} : {A : Type ℓ} → Option A → ℕ
is_set (some x) = 1
is_set none = 0

pub is_set_le {ℓ} : {A : Type ℓ} (o : Option A) → is_set o ≤ 1
is_set_le (some x) = omega arith
is_set_le none = omega arith

-- What the loop has before it: room, results of Read, and the rest of a block.
abbrev pub left {ℓ} : {Z : Type ℓ} → ℕ → Filling Z → ℕ
left room f = room - length f.content + length f.reads + is_set f.current

module _ {ℓ} {Z : Type ℓ} (coder : Coder Z) (mask room : ℕ) where
  -- A copy makes room smaller, or ends the block.
  copy_current-left :
      (block : List ℕ) (f : Filling Z)
      → length f.content < room
      → left room (copy_current room block f) < room - length f.content + length f.reads + 1
  unfolding copy_current
  copy_current-left block f h =
      let wanted = length block - f.current_offset in
      let available = room - length f.content in
      let w = (if ltb available wanted then available else wanted) in
      let bits = take w (drop f.current_offset block) in
      elim (Bool-cases (leb (length block) (f.current_offset + w))) [
        | inl e ↦ simp e (omega (arith, length-append f.content bits))
        | inr e ↦
            let more = leb_false→lt (length block) (f.current_offset + w) e in
            let all_room : w ≡ available = ground arith in
            let full =
              length-take w (drop f.current_offset block)
                (omega (arith, length-drop f.current_offset block)) in
            simp e (omega (arith, length-append f.content bits, is_set_le f.current))
      ]

  -- The loop on `kMaxMessagePerTime` takes results of Read, and leaves the content and the block.
  read_messages-left :
      (i : ℕ) (reads : Reads) (available : Bool) (f : Filling Z)
      → let r = read_messages coder mask i reads available f in
        (r.1.content ≡ f.content)
        × (r.1.current ≡ f.current)
        × (length r.1.reads ≤ length reads)
        × ((r.0 ≡ available) ⊎ (length r.1.reads < length reads))
  unfolding read_messages
  read_messages-left zero reads available f = (refl, refl, omega arith, inl refl)
  read_messages-left (suc i) [] available f = (refl, refl, omega arith, inl refl)
  read_messages-left (suc i) (none ∷ reads) available f = (refl, refl, omega arith, inl refl)
  read_messages-left (suc i) (some msg ∷ reads) available f =
      let (a, b, c, d) = read_messages-left i reads true _ in (a, b, omega arith, inr (omega arith))

  -- What a round did.
  abbrev pub messages_read : Filling Z → Bool × Filling Z
  messages_read f = read_messages coder mask max_message_per_time f.reads false f

  pub data RoundCase (f : Filling Z) (r : FillRound Z) : Type ℓ where
    no_room : room ≤ length f.content → r ≡ ends f → RoundCase f r
    copied :
        (block : List ℕ)
        → length f.content < room
        → f.current ≡ some block
        → r ≡ goes_on (copy_current room block f)
        → RoundCase f r
    found_none :
        length f.content < room
        → f.current ≡ none
        → (messages_read f).0 ≡ false
        → r ≡ ends (messages_read f).1
        → RoundCase f r
    found :
        length f.content < room
        → f.current ≡ none
        → (messages_read f).0 ≡ true
        → r
          ≡ goes_on (
              copy_current room
                (coder.flush (messages_read f).1.serializer).0
                (flush_current coder (messages_read f).1))
        → RoundCase f r

  reads_some :
      (p : Bool × Filling Z)
      → p.0 ≡ true
      → after_reading coder room p
        ≡ goes_on (copy_current room (coder.flush p.1.serializer).0 (flush_current coder p.1))
  unfolding after_reading flush_current copy_flushed
  reads_some (true, f) e = refl
  reads_some (false, f) e = absurd cc

  reads_none : (p : Bool × Filling Z) → p.0 ≡ false → after_reading coder room p ≡ ends p.1
  unfolding after_reading
  reads_none (true, f) e = absurd cc
  reads_none (false, f) e = refl

  pub fill_round-case : (f : Filling Z) → RoundCase f (fill_round coder mask room f)
  unfolding fill_round
  fill_round-case f = elim (Bool-cases (ltb (length f.content) room)) [
    | inr e ↦ no_room (ltb_false→le (length f.content) room e) (simp e refl)
    | inl e ↦
        let enough = ltb→lt (length f.content) room e in
        elim (Option-cases f.current) [
          | inl (block, c) ↦ copied block enough c (simp (e, c) refl)
          | inr c ↦ elim (Bool-cases (messages_read f).0) [
            | inl a ↦ found enough c a (simp (e, c) (reads_some (messages_read f) a))
            | inr a ↦ found_none enough c a (simp (e, c) (reads_none (messages_read f) a))
          ]
        ]
  ]

  -- Each round that goes on has less before it.
  fill_round-left :
      (f g : Filling Z) → fill_round coder mask room f ≡ goes_on g → left room g < left room f
  unfolding flush_current
  fill_round-left f g e = elim (fill_round-case f) [
    | no_room h r ↦ absurd cc
    | copied block h c r ↦
        let same : copy_current room block f ≡ g = cc in
        subst (λ k. left room k < left room f) same (simp c (copy_current-left block f h))
    | found_none h c a r ↦ absurd cc
    | found h c a r ↦
        let read = messages_read f in
        let block = (coder.flush read.1.serializer).0 in
        let flushed = flush_current coder read.1 in
        let same : copy_current room block flushed ≡ g = cc in
        let (content, current, reads, fewer) =
          read_messages-left max_message_per_time f.reads false f in
        let some_read : length read.1.reads < length f.reads = elim fewer [
          | inl same ↦ absurd cc
          | inr less ↦ less
        ] in
        subst (λ k. left room k < left room f) same
          (simp c (
            omega (
              arith,
              some_read,
              ap (λ (c : List ℕ). length c) content,
              copy_current-left block flushed
                  (omega (arith, ap (λ (c : List ℕ). length c) content)),
            )))
  ]

  pub fill-Fills :
      (fuel : ℕ) (f : Filling Z)
      → left room f < fuel
      → Fills coder mask room f (fill coder mask room fuel f)
  unfolding fill
  fill-Fills zero f h = absurd (omega arith)
  fill-Fills (suc fuel) f h = elim (FillRound-cases (fill_round coder mask room f)) [
    | inl (g, e) ↦
        rw (e, fill) (went_on e (fill-Fills fuel g (omega (arith, fill_round-left f g e))))
    | inr (g, e) ↦ rw (e, fill) (ended e)
  ]
