-- ===== src/Pgm/Push/Examples.antt =====
-- A few pushes into a cache of 4 bytes.
use flash_forwarder.Prelude.{ℕ, refl, List, [], ◌∷◌, true, false, some, none}
use flash_forwarder.Pgm.Push.{
  Pusher, PushOutcome, new_pusher, write_out, do_write_message, start_cache, after_flush,
  push_message, begin_push, end_push,
}
use flash_forwarder.Pgm.Push.Batches.{Batched}
use flash_forwarder.Pgm.Push.Whole.{Pushes, fresh, began, gave, done_with, push_message-end_push}

abbrev all_well : PushOutcome
all_well = record { allocated = true; cache_written = some true; message_written = some false }

abbrev first_pusher : Pusher
first_pusher = begin_push 50 (new_pusher 4)

-- Two contents share a message, the third starts a new one, and the fourth is too large for the cache.
abbrev contents : List (List ℕ)
contents = (1 ∷ 2 ∷ []) ∷ (3 ∷ []) ∷ (4 ∷ 5 ∷ []) ∷ (6 ∷ 7 ∷ 8 ∷ 9 ∷ 10 ∷ []) ∷ []

abbrev messages : List (List ℕ)
messages = (1 ∷ 2 ∷ 3 ∷ []) ∷ (4 ∷ 5 ∷ []) ∷ (6 ∷ 7 ∷ 8 ∷ 9 ∷ 10 ∷ []) ∷ []

abbrev last_pusher : Pusher
last_pusher = record { timestamp = 50; cache_size = 4; cache_msg = none; written_size = 4 }

some_pushes : Pushes 4 last_pusher contents messages
unfolding push_message end_push begin_push start_cache after_flush write_out do_write_message
some_pushes =
    done_with all_well
      (gave all_well (6 ∷ 7 ∷ 8 ∷ 9 ∷ 10 ∷ [])
        (gave all_well (4 ∷ 5 ∷ [])
          (gave all_well (3 ∷ []) (gave all_well (1 ∷ 2 ∷ []) (began 50 fresh) refl) refl) refl)
        refl)
      refl

push_message-end_push_example : Batched 4 last_pusher contents messages
push_message-end_push_example = push_message-end_push some_pushes
