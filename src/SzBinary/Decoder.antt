-- ===== src/SzBinary/Decoder.antt =====
-- src/szBinary_decoder.hpp: frames out of a stream of chunks.
-- An `int` is its 32-bit pattern: a pattern from 2^31 on is negative. A chunk is shorter than 2^31
-- bytes (the service reads at most MAX_BUFFER_SIZE = 8192 at a time). The pointer `begin` is a place
-- in the chunk: the bytes before it, last first, and the bytes from it on.
pub mod Frames
pub mod Steps
pub mod Stream
pub mod Calls
pub mod Checks
mod Examples
use flash_forwarder.Prelude.{
  ℕ, zero, suc, ◌+◌, ◌-◌, ◌*◌, ◌%◌, ◌^◌, ◌≤◌, ◌<◌, ◌≡◌, List, [], ◌∷◌, ◌++◌, Option, none, some,
  Bool, true, false, ◌||◌, leb, ◌==◌, if◌then◌else◌, length, take, drop,
}
use mathlib.Core.List.{foldl, reverse}
use flash_forwarder.Wire.{get_uint32}

-- `enum STATE`
pub data State : Type 0 where
  head body tail : State

pub record Decoder : Type 0 where
  pub state : State
  pub decode_buffer : List ℕ
  pub body_size : ℕ

-- the constructor, and `reset`
abbrev pub fresh : Decoder
fresh = record { state = head; decode_buffer = []; body_size = 0 }

-- sizeof(SZB_Head), sizeof(SZB_Tail)
abbrev pub head_size : ℕ
head_size = 8

abbrev pub tail_size : ℕ
tail_size = 4

-- `int lack = total - decodeBuffer_.size()`
abbrev pub lack : ℕ → ℕ → ℕ
lack total size = (total + 2 ^ 32 - size % 2 ^ 32) % 2 ^ 32

-- `toRead >= lack`
abbrev pub reached : ℕ → ℕ → Bool
reached l to_read = leb (2 ^ 31) l || leb l to_read

-- the rounds of `while (count < lack)`
abbrev pub rounds : ℕ → ℕ
rounds l = if leb (2 ^ 31) l then 0 else l

-- What `begin += consumed` does.
pub data Move : Type 0 where
  forward back : ℕ → Move

abbrev pub move_by : ℕ → Move
move_by l = if leb (2 ^ 31) l then back (2 ^ 32 - l) else forward l

-- `consume` returned 0, having moved and called `handle` on the listed buffers; it returned -1; or
-- it read outside `decodeBuffer_`.
pub data Consumed : Type 0 where
  next : Move → Decoder → List (List ℕ) → Consumed
  reject : Decoder → Consumed
  bad_read : Consumed

-- `GenerateCheckSum`, in uint32_t arithmetic
unfoldable pub generate_checksum : List ℕ → ℕ
generate_checksum bytes = foldl (λ sum b. (sum + b) % 2 ^ 32) 0 bytes % 256

-- The copying loops: `n` bytes from `begin` on join the buffer.
abbrev pub push_bytes : Decoder → ℕ → List ℕ → List ℕ
push_bytes d n input = d.decode_buffer ++ take n input

-- The branch `else` of each case: all that there is joins the buffer.
abbrev pub keep_all : Decoder → List ℕ → Consumed
keep_all d input =
    next (forward (length input)) (record d { decode_buffer = d.decode_buffer ++ input }) []

abbrev pub start_body : ℕ → List ℕ → Option ℕ → Consumed
start_body l buffer none = bad_read
start_body l buffer (some size) =
    next (move_by l) (record { state = body; decode_buffer = buffer; body_size = size }) []

abbrev pub check_tail : ℕ → List ℕ → Option ℕ → Consumed
check_tail l buffer none = bad_read
check_tail l buffer (some cks_wire) =
    if cks_wire == generate_checksum (take (length buffer - 4) buffer)
    then next (move_by l) fresh (buffer ∷ [])
    else reject fresh

pub consume_head : Decoder → List ℕ → Consumed
consume_head d input =
    let l = lack head_size (length d.decode_buffer) in
    let buffer = push_bytes d (rounds l) input in
    if reached l (length input)
    then start_body l buffer (get_uint32 (drop 4 buffer))
    else keep_all d input

pub consume_body : Decoder → List ℕ → Consumed
consume_body d input =
    let l = lack (d.body_size + head_size) (length d.decode_buffer) in
    if reached l (length input)
    then next (move_by l) (record d { state = tail; decode_buffer = push_bytes d (rounds l) input })
        []
    else keep_all d input

pub consume_tail : Decoder → List ℕ → Consumed
consume_tail d input =
    let l = lack (d.body_size + head_size + tail_size) (length d.decode_buffer) in
    let buffer = push_bytes d (rounds l) input in
    if reached l (length input)
    then check_tail l buffer (get_uint32 (drop (length buffer - 4) buffer))
    else keep_all d input

pub consume_in : State → Decoder → List ℕ → Consumed
unfolding consume_head consume_body consume_tail
consume_in head d input = consume_head d input
consume_in body d input = consume_body d input
consume_in tail d input = consume_tail d input

pub consume : Decoder → List ℕ → Consumed
unfolding consume_in
consume d input = consume_in d.state d input

-- `none`: the pointer left the chunk at its front.
abbrev pub rewind : ℕ → List ℕ → List ℕ → Option (List ℕ × List ℕ)
rewind zero before after = some (before, after)
rewind (suc n) [] after = none
rewind (suc n) (b ∷ before) after = rewind n before (b ∷ after)

abbrev pub move : Move → List ℕ → List ℕ → Option (List ℕ × List ℕ)
move (forward n) before after = some (reverse (take n after) ++ before, drop n after)
move (back n) before after = rewind n before after

-- `returned r d out`: `decode` returned 0 (`true`) or -1 (`false`), left the decoder `d`, and called
-- `handle` on `out` in that order. `fault out` is an access outside the chunk or the buffer after these
-- calls; `stuck out` is no outcome of the code: the loop ran out of fuel after them.
pub data Result : Type 0 where
  returned : Bool → Decoder → List (List ℕ) → Result
  fault : List (List ℕ) → Result
  stuck : List (List ℕ) → Result

abbrev pub after_calls : List (List ℕ) → Result → Result
after_calls out (returned r d out') = returned r d (out ++ out')
after_calls out (fault out') = fault (out ++ out')
after_calls out (stuck out') = stuck (out ++ out')

pub decode_loop : ℕ → Decoder → List ℕ → List ℕ → Result
decode_loop fuel d before [] = returned true d []
decode_loop zero d before (x ∷ xs) = stuck []
decode_loop (suc fuel) d before (x ∷ xs) = elim (consume d (x ∷ xs)) [
  | next m d' out ↦ elim (move m before (x ∷ xs)) [
    | none ↦ fault out
    | some (b, a) ↦ after_calls out (decode_loop fuel d' b a)
  ]
  | reject d' ↦ returned false d' []
  | bad_read ↦ fault []
]

pub decode : Decoder → List ℕ → Result
decode d chunk = decode_loop (3 * length chunk + 3) d [] chunk

-- `handleRead` passes each chunk that arrives to `decode` and ignores what it returns.
pub decode_all : Decoder → List (List ℕ) → Result
decode_all d [] = returned true d []
decode_all d (chunk ∷ chunks) = elim (decode d chunk) [
  | returned r d' out ↦ after_calls out (decode_all d' chunks)
  | fault out ↦ fault out
  | stuck out ↦ stuck out
]
