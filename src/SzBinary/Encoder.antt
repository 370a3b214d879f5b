-- ===== src/SzBinary/Encoder.antt =====
-- src/szBinary_encoder.hpp: frames from messages that are structs in memory, on a little-endian host.
-- `none` is a read or write outside the buffer that waits.
pub mod Frames
pub mod Pending
mod Examples
use flash_forwarder.Prelude.{
  ℕ, ◌+◌, ◌*◌, ◌%◌, ◌^◌, List, [], ◌∷◌, ◌++◌, Option, none, some, Bool, true, false, if◌then◌else◌,
  length, take, drop, leb,
}
use mathlib.Core.List.{foldl}
use flash_forwarder.Wire.{put_uint32}

-- `enum MSG_TYPE`
pub data MsgType : Type 0 where
  logon logout heartbeat others : MsgType

-- `buffer_[2]`, and which of the two `wait_buffer_ptr_` points to; `write_buffer_ptr_` points to the
-- other one.
pub record Encoder : Type 0 where
  pub buffer0 : List ℕ
  pub buffer1 : List ℕ
  pub waits0 : Bool

-- the constructor, and `reset`
abbrev pub fresh : Encoder
fresh = record { buffer0 = []; buffer1 = []; waits0 = true }

abbrev pub wait_buffer : Encoder → List ℕ
wait_buffer e = if e.waits0 then e.buffer0 else e.buffer1

abbrev pub set_wait : Encoder → List ℕ → Encoder
set_wait e b = if e.waits0 then record e { buffer0 = b } else record e { buffer1 = b }

infixl 5 ◌>>=◌
abbrev pub ◌>>=◌ {ℓ κ} : {A : Type ℓ} {B : Type κ} → Option A → (A → Option B) → Option B
none >>= f = none
some a >>= f = f a

-- A uint32_t of a struct, by its first byte.
abbrev pub host_uint32 : List ℕ → Option ℕ
host_uint32 (b0 ∷ b1 ∷ b2 ∷ b3 ∷ _) = some (b0 + b1 * 2 ^ 8 + b2 * 2 ^ 16 + b3 * 2 ^ 24)
host_uint32 _ = none

abbrev pub load : ℕ → List ℕ → Option ℕ
load offset b = host_uint32 (drop offset b)

-- `put_uint32` at a field, of which a `load` has shown that the buffer holds it.
abbrev pub store : ℕ → ℕ → List ℕ → List ℕ
store offset v b = take offset b ++ (put_uint32 v ++ drop (offset + 4) b)

-- The fields `header.MsgType` and `header.BodyLength` are at 0 and 4; `HeartBtInt` of a logon is at
-- 48 and `SessionStatus` of a logout at 8. All are read, and then stored in network order.
abbrev pub swap_two : List ℕ → Option (List ℕ)
swap_two b = do
  msg_type ← load 0 b
  body_len ← load 4 b
  some (store 4 body_len (store 0 msg_type b))

abbrev pub swap_three : ℕ → List ℕ → Option (List ℕ)
swap_three offset b = do
  msg_type ← load 0 b
  body_len ← load 4 b
  field ← load offset b
  some (store offset field (store 4 body_len (store 0 msg_type b)))

-- The sum of the first `size` bytes of the buffer, and the tail made of it.
abbrev pub sum_bytes : List ℕ → ℕ
sum_bytes bytes = foldl (λ cks b. (cks + b) % 2 ^ 32) 0 bytes % 256

unfoldable pub add_tail : ℕ → List ℕ → Option (List ℕ)
add_tail size b =
    if leb size (length b) then some (b ++ put_uint32 (sum_bytes (take size b))) else none

-- What `encode` makes of the buffer that waits, once the content is behind it.
unfoldable pub finish : MsgType → ℕ → List ℕ → Option (List ℕ)
finish logon size b = do b' ← swap_three 48 b; add_tail size b'
finish logout size b = do b' ← swap_three 8 b; add_tail size b'
finish heartbeat size b = do b' ← swap_two b; add_tail size b'
finish others size b = some b

-- `encode(content, size, type)`, where `content` is these `size` bytes.
unfoldable pub encode : Encoder → List ℕ → MsgType → Option Encoder
encode e content type = do
  b ← finish type (length content) (wait_buffer e ++ content)
  some (set_wait e b)

-- `flush`: the bytes handed out, and the buffers afterwards.
unfoldable pub flush : Encoder → List ℕ × Encoder
flush e =
    if e.waits0
    then (e.buffer0, record { buffer0 = e.buffer0; buffer1 = []; waits0 = false })
    else (e.buffer1, record { buffer0 = []; buffer1 = e.buffer1; waits0 = true })
