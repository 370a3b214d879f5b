-- ===== src/Pipe.antt =====
-- The pipe between two threads, src/pipe.cpp. One end writes and the other reads through a queue of
-- src/spsc_queue.hpp; the two directions are alike. A message is its address, and nullptr is 0.
pub mod Calls
pub mod Sealed
pub mod Writer
pub mod Steps
pub mod Order
mod Examples
use flash_forwarder.Prelude.{
  ℕ, zero, suc, ◌-◌, ◌^◌, List, [], ◌∷◌, Option, none, some, Bool, true, false, not, ◌==◌,
  if◌then◌else◌,
}
use flash_forwarder.Queue.Batch.{BatchQueue}
use flash_forwarder.Queue.Spsc.{SpscQueue, init_queue, write, unwrite, flush, check_read, read_item}

-- The granularity of `messageQueue`.
abbrev pub granularity : ℕ
granularity = 256

-- The members of a pipe that change. `peer_` is whether the pointer is set.
pub record Pipe : Type 0 where
  pub terminated : Bool
  pub peer_terminated : Bool
  pub peer : Bool

-- The constructor and `Init`; its queue is one of the two of `CreatePipePair`.
abbrev pub new_pipe : Pipe
new_pipe = record { terminated = false; peer_terminated = false; peer = true }

unfoldable pub new_queue : ℕ → ℕ → BatchQueue ℕ → SpscQueue ℕ
new_queue address address' q = init_queue granularity address address' q

-- What a call of the writer does: 0 or -1 as `ok`, the pipe, its out queue, and whether it called
-- SendReadActivated of its peer.
pub record Sent : Type 0 where
  pub ok : Bool
  pub pipe : Pipe
  pub queue : SpscQueue ℕ
  pub activated : Bool

unfoldable pub flushed_message : Pipe → SpscQueue ℕ → Sent
flushed_message pipe q = record {
  ok = true;
  pipe = pipe;
  queue = (flush q).1;
  activated = not (flush q).0;
}

-- `Write(msg, incomplete)`; `address` is what malloc gives if the queue calls it.
unfoldable pub write_message : ℕ → ℕ → Bool → Pipe → SpscQueue ℕ → Sent
write_message address msg incomplete pipe q =
    if pipe.terminated
    then record { ok = false; pipe = pipe; queue = q; activated = false }
    else (let q' = write granularity address msg incomplete q in
        if incomplete
        then record { ok = true; pipe = pipe; queue = q'; activated = false }
        else flushed_message pipe q')

-- `Write(msg, o_wake_peer)`: `activated` is what it stores in `*o_wake_peer`, which stays as it is
-- when the result is -1.
unfoldable pub write_and_wake : ℕ → ℕ → Pipe → SpscQueue ℕ → Sent
write_and_wake address msg pipe q =
    if pipe.terminated
    then record { ok = false; pipe = pipe; queue = q; activated = false }
    else flushed_message pipe (write granularity address msg false q)

-- `none` is -1.
unfoldable pub unwrite_message : SpscQueue ℕ → Option (ℕ × SpscQueue ℕ)
unwrite_message q = unwrite granularity q

unfoldable pub terminate : ℕ → Pipe → SpscQueue ℕ → Sent
terminate address pipe q =
    if pipe.terminated
    then record { ok = true; pipe = pipe; queue = q; activated = false }
    else flushed_message (record pipe { terminated = true; peer = false })
        (write granularity address 0 false q)

unfoldable pub check_read_message : Pipe → SpscQueue ℕ → Bool × SpscQueue ℕ
check_read_message pipe q = if pipe.peer_terminated then (false, q) else check_read q

-- `DoRead`: `received m` and `ended` are true with `*res` 0 and -1; `nothing` is false.
pub data Received : Type 0 where
  received : ℕ → Received
  ended : Received
  nothing : Received

pub record Taken : Type 0 where
  pub result : Received
  pub pipe : Pipe
  pub queue : SpscQueue ℕ

unfoldable pub taken : Pipe → Option ℕ → SpscQueue ℕ → Taken
taken pipe none q = record { result = nothing; pipe = pipe; queue = q }
taken pipe (some msg) q =
    if msg == 0
    then record { result = ended; pipe = record pipe { peer_terminated = true }; queue = q }
    else record { result = received msg; pipe = pipe; queue = q }

unfoldable pub do_read : Pipe → SpscQueue ℕ → Taken
do_read pipe q =
    if pipe.peer_terminated
    then record { result = ended; pipe = pipe; queue = q }
    else (let (item, q') = read_item granularity q in taken pipe item q')

-- The waits of `Read`: what the writer did to the queue until the next `DoRead`.
abbrev pub Waits : Type 0
Waits = List (SpscQueue ℕ → SpscQueue ℕ)

-- `DoRead` as long as it finds nothing, after each of the waits. At the end of the list the reader has
-- timed out, or still waits.
unfoldable pub read_waiting : Waits → Taken → Taken
read_waiting [] t = t
read_waiting (wait ∷ waits) t = elim t.result [
  | nothing ↦ read_waiting waits (do_read t.pipe (wait t.queue))
  | _ ↦ t
]

-- `Read(timeout)`: without a wait for a timeout of 0; else it locks the mutex and tries again, waits
-- and tries again, once for a positive timeout and for ever for a negative one.
pub data Timeout : Type 0 where
  no_wait : Timeout
  one_wait : Timeout
  for_ever : Timeout

abbrev pub waits_of : Timeout → Waits → Waits
waits_of no_wait waits = []
waits_of one_wait [] = []
waits_of one_wait (lock ∷ []) = lock ∷ []
waits_of one_wait (lock ∷ wait ∷ waits) = lock ∷ wait ∷ []
waits_of for_ever waits = waits

unfoldable pub read_message : Timeout → Waits → Pipe → SpscQueue ℕ → Taken
read_message timeout waits pipe q = read_waiting (waits_of timeout waits) (do_read pipe q)
