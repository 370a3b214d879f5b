-- ===== src/Pgm/Push.antt =====
-- The side of PGMSender (src/pgm_sender.cc) that pushes messages: it gathers them in a cache and writes
-- whole caches to the pipe. What the allocator and the pipe return is given.
pub mod Batches
pub mod Whole
mod Examples
use flash_forwarder.Prelude.{
  ℕ, ◌+◌, List, [], ◌∷◌, ◌++◌, Option, none, some, Bool, true, false, leb, if◌then◌else◌, length,
}

-- The content of a message and its timestamp.
pub record PushedMessage : Type 0 where
  pub content : List ℕ
  pub timestamp : ℕ

-- The members that the pushing thread uses; `cache_msg` is `none` for a null pointer.
pub record Pusher : Type 0 where
  pub timestamp : ℕ
  pub cache_size : ℕ
  pub cache_msg : Option PushedMessage
  pub written_size : ℕ

-- What the calls give that a push may make: whether Allocate returns 0, and for the Write of the cache
-- and the Write of a new message `none` for an error, or 0 with whether the peer is to be woken.
pub record PushOutcome : Type 0 where
  pub allocated : Bool
  pub cache_written : Option Bool
  pub message_written : Option Bool

pub data PushAction : Type 0 where
  written released : PushedMessage → PushAction
  wake_peer : PushAction

pub record PushResult : Type 0 where
  pub ok : Bool
  pub pusher : Pusher
  pub actions : List PushAction

abbrev pub new_pusher : ℕ → Pusher
new_pusher size = record { timestamp = 0; cache_size = size; cache_msg = none; written_size = 0 }

unfoldable pub write_out : PushedMessage → Option Bool → Bool × List PushAction
write_out msg none = (false, released msg ∷ [])
write_out msg (some true) = (true, written msg ∷ wake_peer ∷ [])
write_out msg (some false) = (true, written msg ∷ [])

unfoldable pub do_write_message : PushOutcome → List ℕ → Pusher → PushResult
do_write_message o content p =
    if o.allocated
    then (let (ok, actions) =
          write_out (record { content = content; timestamp = p.timestamp }) o.message_written in
        record { ok = ok; pusher = p; actions = actions })
    else record { ok = false; pusher = p; actions = [] }

-- `PushMessage` without a cache.
unfoldable pub start_cache : PushOutcome → List ℕ → Pusher → PushResult
start_cache o content p =
    if leb p.cache_size (length content)
    then do_write_message o content p
    else if o.allocated
    then record {
      ok = true;
      pusher = record p {
        cache_msg = some (record { content = content; timestamp = p.timestamp });
        written_size = p.written_size + length content;
      };
      actions = [];
    }
    else record { ok = false; pusher = p; actions = [] }

unfoldable pub after_flush : PushOutcome → List ℕ → Pusher → Bool × List PushAction → PushResult
after_flush o content p (false, actions) = record { ok = false; pusher = p; actions = actions }
after_flush o content p (true, actions) =
    let rest = start_cache o content p in record rest { actions = actions ++ rest.actions }

unfoldable pub push_message : PushOutcome → List ℕ → Pusher → PushResult
push_message o content p = elim p.cache_msg [
  | some msg ↦
      if leb (length content + length msg.content) p.cache_size
      then record {
        ok = true;
        pusher = record p { cache_msg = some (record msg { content = msg.content ++ content }) };
        actions = [];
      }
      else after_flush o content (record p { cache_msg = none }) (write_out msg o.cache_written)
  | none ↦ start_cache o content p
]

unfoldable pub begin_push : ℕ → Pusher → Pusher
begin_push timestamp p = record p { timestamp = timestamp }

unfoldable pub end_push : PushOutcome → Pusher → PushResult
end_push o p = elim p.cache_msg [
  | some msg ↦
      (let (ok, actions) = write_out msg o.cache_written in
        record { ok = ok; pusher = record p { cache_msg = none }; actions = actions })
  | none ↦ record { ok = true; pusher = p; actions = [] }
]
