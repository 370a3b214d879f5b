-- ===== src/Pgm/Filling/Reading.antt =====
-- The loop of OutEvent (src/pgm_sender.cc) over kMaxMessagePerTime: the messages that it reads.
use flash_forwarder.Prelude.{
  ℕ, zero, suc, ◌+◌, ◌%◌, ◌≤◌, ◌<◌, ◌≡◌, ◌≢◌, ◌⊎◌, inl, inr, refl, ap, ◌∙◌, List, [], ◌∷◌, ◌++◌,
  none, some, Bool, true, length, arith,
}
use flash_forwarder.Pgm.Filling.{Coder, Reads, Filling, read_messages, started_at, encode_one}
use flash_forwarder.Pgm.Filling.Blocks.{
  messages_of, encode_each, IsFree, started_at-free, started_at-taken,
}

module _ (mask : ℕ) where
  abbrev pub offset_after : List (List ℕ) → ℕ → ℕ → ℕ
  offset_after [] bytes offset = offset
  offset_after (msg ∷ msgs) bytes offset = offset_after msgs bytes (started_at mask bytes offset)

  pub offset_after-taken :
      (msgs : List (List ℕ)) (bytes offset : ℕ)
      → offset % 0x2000 ≢ 0x1fff
      → offset_after msgs bytes offset ≡ offset
  offset_after-taken [] bytes offset h = refl
  offset_after-taken (msg ∷ msgs) bytes offset h =
      let same = started_at-taken mask bytes offset h in
      ap (offset_after msgs bytes) same ∙ offset_after-taken msgs bytes offset h

  pub offset_after-free :
      (msgs : List (List ℕ)) (bytes offset : ℕ)
      → mask % 0x2000 ≡ 0
      → bytes < 0x1fff
      → IsFree offset
      → 0 < length msgs
      → offset_after msgs bytes offset ≡ bytes + mask
  offset_after-free [] bytes offset m h free some_msg = absurd (omega arith)
  offset_after-free (msg ∷ msgs) bytes offset m h free some_msg =
      ap (offset_after msgs bytes) (started_at-free mask bytes offset m (omega arith) free)
      ∙ offset_after-taken msgs bytes (bytes + mask) (λ e. omega arith)

module _ {ℓ} {Z : Type ℓ} (coder : Coder Z) (mask : ℕ) where
  -- What a loop on `kMaxMessagePerTime` did to `f` with some messages.
  pub record ReadAll (limit : ℕ) (reads : Reads) (available : Bool) (f : Filling Z)
      (msgs : List (List ℕ)) (r : Bool × Filling Z) : Type ℓ where
    pub few : length msgs ≤ limit
    pub given : messages_of reads ≡ msgs ++ messages_of r.1.reads
    pub flag : ((msgs ≡ []) × (r.0 ≡ available)) ⊎ ((0 < length msgs) × (r.0 ≡ true))
    pub serializer : r.1.serializer ≡ encode_each coder msgs f.serializer
    pub offset : r.1.offset ≡ offset_after mask msgs (length f.content) f.offset
    pub content : r.1.content ≡ f.content
    pub current : r.1.current ≡ f.current
    pub current_offset : r.1.current_offset ≡ f.current_offset

  nothing_read :
      (limit : ℕ) (reads reads' : Reads) (available : Bool) (f : Filling Z)
      → messages_of reads ≡ messages_of reads'
      → (msgs : List (List ℕ)) × ReadAll limit reads available f msgs
          (available, record f { reads = reads' })
  nothing_read limit reads reads' available f e = (
    [],
    record {
      few = omega arith;
      given = e;
      flag = inl (refl, refl);
      serializer = refl;
      offset = refl;
      content = refl;
      current = refl;
      current_offset = refl;
    },
  )

  pub read_messages-ReadAll :
      (limit : ℕ) (reads : Reads) (available : Bool) (f : Filling Z)
      → (msgs : List (List ℕ)) × ReadAll limit reads available f msgs
          (read_messages coder mask limit reads available f)
  unfolding read_messages
  read_messages-ReadAll zero reads available f = nothing_read 0 reads reads available f refl
  read_messages-ReadAll (suc limit) [] available f = nothing_read (suc limit) [] [] available f refl
  read_messages-ReadAll (suc limit) (none ∷ reads) available f =
      nothing_read (suc limit) (none ∷ reads) reads available f refl
  read_messages-ReadAll (suc limit) (some msg ∷ reads) available f =
      let (msgs, a) = read_messages-ReadAll limit reads true (record f {
        serializer = encode_one coder msg f.serializer;
        offset = started_at mask (length f.content) f.offset;
      }) in
      (
        msg ∷ msgs,
        record {
          few = omega (arith, a.few);
          given = ap (λ t. msg ∷ t) a.given;
          flag = inr (omega arith, elim a.flag [ inl (e, g) ↦ g | inr (e, g) ↦ g ]);
          serializer = a.serializer;
          offset = a.offset;
          content = a.content;
          current = a.current;
          current_offset = a.current_offset;
        },
      )
