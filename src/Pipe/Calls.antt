-- ===== src/Pipe/Calls.antt =====
-- The calls of the two ends of a pipe (src/pipe.cpp) in any order.
use flash_forwarder.Prelude.{
  ℕ, ◌-◌, ◌≡◌, ◌≢◌, some, length, take, List, [], ◌∷◌, ◌++◌, Bool, true, false, if◌then◌else◌, All,
}
use flash_forwarder.Queue.Batch.{BatchQueue, init_batch}
use flash_forwarder.Queue.Spsc.{SpscQueue}
use flash_forwarder.Queue.Holds.{Fresh}
use flash_forwarder.Pipe.Sealed.{Sealed}
use flash_forwarder.Queue.Run.{Run}
use flash_forwarder.Pipe.{
  granularity, Pipe, new_pipe, new_queue, Sent, write_message, write_and_wake, unwrite_message,
  terminate, Received, received, ended, nothing, Taken, do_read, check_read_message,
}

abbrev pub more_got : Received → List ℕ → List ℕ
more_got (received msg) got = got ++ msg ∷ []
more_got ended got = got
more_got nothing got = got

-- The writing end, the reading end and their queue after some calls, the messages that `Write` took and
-- `Unwrite` did not take back, and those that `DoRead` gave, both in order. A message is no null pointer, and malloc does not fail.
pub data Calls : Pipe → Pipe → SpscQueue ℕ → List ℕ → List ℕ → Type 0 where
  opened :
      (address address' : ℕ) (q : BatchQueue ℕ)
      → q.spare ≡ 0
      → Fresh address q
      → Fresh address' (init_batch address q).0
      → Calls new_pipe new_pipe (new_queue address address' q) [] []
  wrote_message :
      {w r : Pipe} {q : SpscQueue ℕ} {sent got : List ℕ} (address msg : ℕ) (incomplete : Bool)
      (s : Sent)
      → Calls w r q sent got
      → msg ≢ 0
      → Fresh address q.queue
      → write_message address msg incomplete w q ≡ s
      → Calls s.pipe r s.queue (if s.ok then sent ++ msg ∷ [] else sent) got
  wrote_and_woke :
      {w r : Pipe} {q : SpscQueue ℕ} {sent got : List ℕ} (address msg : ℕ) (s : Sent)
      → Calls w r q sent got
      → msg ≢ 0
      → Fresh address q.queue
      → write_and_wake address msg w q ≡ s
      → Calls s.pipe r s.queue (if s.ok then sent ++ msg ∷ [] else sent) got
  took_back_message :
      {w r : Pipe} {q : SpscQueue ℕ} {sent got : List ℕ} (msg : ℕ) (q' : SpscQueue ℕ)
      → Calls w r q sent got
      → unwrite_message q ≡ some (msg, q')
      → Calls w r q' (take (length sent - 1) sent) got
  terminated :
      {w r : Pipe} {q : SpscQueue ℕ} {sent got : List ℕ} (address : ℕ)
      → Calls w r q sent got
      → Fresh address q.queue
      → Calls (terminate address w q).pipe r (terminate address w q).queue sent got
  looked :
      {w r : Pipe} {q : SpscQueue ℕ} {sent got : List ℕ}
      → Calls w r q sent got
      → Calls w r (check_read_message r q).1 sent got
  tried :
      {w r : Pipe} {q : SpscQueue ℕ} {sent got : List ℕ} (t : Taken)
      → Calls w r q sent got
      → do_read r q ≡ t
      → Calls w t.pipe t.queue sent (more_got t.result got)

-- What stands in the queue: the messages, and a null pointer behind them at the end.
abbrev pub items : Bool → List ℕ → List ℕ
items true ms = ms ++ 0 ∷ []
items false ms = ms

-- The calls as steps of the two threads of the queue.
pub record Steps (w r : Pipe) (q : SpscQueue ℕ) (sent got : List ℕ) : Type 0 where
  pub run : Run granularity q false (items w.terminated sent) (items r.peer_terminated got)
  pub sent_real : All (λ m. m ≢ 0) sent
  pub got_real : All (λ m. m ≢ 0) got
  pub sealed : w.terminated ≡ true → Sealed q
