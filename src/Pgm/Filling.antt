-- ===== src/Pgm/Filling.antt =====
-- The loop of OutEvent (src/pgm_sender.cc) that fills the data of a packet. The serializer and the
-- increment session are parameters; of the pipe the results of the coming calls of Read are given.
pub mod Ends
pub mod Blocks
pub mod Reading
pub mod Packed
use flash_forwarder.Prelude.{
  ℕ, zero, suc, ◌+◌, ◌-◌, ◌%◌, ◌^◌, bit_and, bit_or, List, [], ◌∷◌, ◌++◌, Option, none, some, Bool,
  true, false, ltb, leb, ◌==◌, if◌then◌else◌, length, take, drop,
}
use flash_forwarder.Pgm.{non_exist_offset}

abbrev pub max_message_per_time : ℕ
max_message_per_time = 50

-- `serializer_` with `increment_session_`, which may be null; `Z` is the state of both.
pub record Coder {ℓ} (Z : Type ℓ) : Type ℓ where
  pub serialize : List ℕ → Z → Z
  pub flush : Z → List ℕ × Z
  pub on_increment : Option (List ℕ → Z → Z)

-- What the coming calls of `io_pipe_->Read(0, &msg)` give: the bytes of a message, or no message. When
-- the list ends, no more messages come.
abbrev pub Reads : Type 0
Reads = List (Option (List ℕ))

-- A message is given to the increment session, or else to the serializer.
unfoldable pub encode_one {ℓ} : {Z : Type ℓ} → Coder Z → List ℕ → Z → Z
encode_one coder msg z = elim coder.on_increment [
  | some on_increment ↦ on_increment msg z
  | none ↦ coder.serialize msg z
]

-- The variables of the loop `while (bytes < bfsz)`; `content` is the `bytes` bytes written to `bf`.
pub record Filling {ℓ} (Z : Type ℓ) : Type ℓ where
  pub content : List ℕ
  pub offset : ℕ
  pub current : Option (List ℕ)
  pub current_offset : ℕ
  pub serializer : Z
  pub reads : Reads

-- The offset after a message was read.
unfoldable pub started_at : ℕ → ℕ → ℕ → ℕ
started_at mask bytes offset =
    if bit_and offset non_exist_offset == non_exist_offset
    then bit_or (bytes % 2 ^ 16) mask
    else offset

-- The loop over `kMaxMessagePerTime`, with whether a message was read.
unfoldable pub read_messages {ℓ} :
    {Z : Type ℓ} → Coder Z → ℕ → ℕ → Reads → Bool → Filling Z → Bool × Filling Z
read_messages coder mask zero reads available f = (available, record f { reads = reads })
read_messages coder mask (suc i) [] available f = (available, record f { reads = [] })
read_messages coder mask (suc i) (none ∷ reads) available f =
    (available, record f { reads = reads })
read_messages coder mask (suc i) (some msg ∷ reads) available f =
    read_messages coder mask i reads true (record f {
      serializer = encode_one coder msg f.serializer;
      offset = started_at mask (length f.content) f.offset;
    })

unfoldable pub flush_current {ℓ} : {Z : Type ℓ} → Coder Z → Filling Z → Filling Z
flush_current coder f =
    let (block, z) = coder.flush f.serializer in record f { current = some block; serializer = z }

-- What the loop copies of a `current_`.
unfoldable pub copy_current {ℓ} : {Z : Type ℓ} → ℕ → List ℕ → Filling Z → Filling Z
copy_current room block f =
    let wanted = length block - f.current_offset in
    let available = room - length f.content in
    let wbytes = (if ltb available wanted then available else wanted) in
    let content = f.content ++ take wbytes (drop f.current_offset block) in
    if leb (length block) (f.current_offset + wbytes)
    then record f { content = content; current = none; current_offset = 0 }
    else record f { content = content; current_offset = f.current_offset + wbytes }

unfoldable pub copy_flushed {ℓ} : {Z : Type ℓ} → ℕ → Filling Z → Filling Z
copy_flushed room f = elim f.current [ some block ↦ copy_current room block f | none ↦ f ]

-- One round of the loop: it goes on, or ends.
pub data FillRound {ℓ} (Z : Type ℓ) : Type ℓ where
  goes_on : Filling Z → FillRound Z
  ends : Filling Z → FillRound Z

unfoldable pub after_reading {ℓ} : {Z : Type ℓ} → Coder Z → ℕ → Bool × Filling Z → FillRound Z
after_reading coder room (false, f) = ends f
after_reading coder room (true, f) = goes_on (copy_flushed room (flush_current coder f))

unfoldable pub fill_round {ℓ} : {Z : Type ℓ} → Coder Z → ℕ → ℕ → Filling Z → FillRound Z
fill_round coder mask room f =
    if ltb (length f.content) room
    then elim f.current [
      | some block ↦ goes_on (copy_current room block f)
      | none ↦
          after_reading coder room (read_messages coder mask max_message_per_time f.reads false f)
    ]
    else ends f

unfoldable pub fill {ℓ} : {Z : Type ℓ} → Coder Z → ℕ → ℕ → ℕ → Filling Z → Filling Z
fill coder mask room zero f = f
fill coder mask room (suc fuel) f = elim (fill_round coder mask room f) [
  | goes_on g ↦ fill coder mask room fuel g
  | ends g ↦ g
]
