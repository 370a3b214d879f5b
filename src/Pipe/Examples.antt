-- ===== src/Pipe/Examples.antt =====
-- A pipe at work, and its theorem at a concrete run.
use flash_forwarder.Prelude.{ℕ, ◌≡◌, refl, List, [], ◌∷◌, ◌++◌, true, false, arith}
use flash_forwarder.Queue.Batch.{
  BatchQueue, init_batch, push, unpush, unpush_back, unpush_end, pop, next_chunk, link_chunk,
}
use flash_forwarder.Queue.Spsc.{
  SpscQueue, init_queue, write, unwrite, flush, flush_swap, flush_store, prefetched, prefetch,
  check_read, read_item,
}
use flash_forwarder.Pipe.{
  new_pipe, new_queue, Sent, flushed_message, write_message, unwrite_message, granularity,
  terminate, received, Taken, taken, do_read, read_waiting, one_wait, read_message,
}
use flash_forwarder.Pipe.Calls.{Calls, opened, wrote_message, took_back_message, terminated, tried}
use flash_forwarder.Pipe.Order.{do_read-write_message}

abbrev memory : BatchQueue ℕ
memory = record {
  begin_chunk = 0;
  begin_pos = 0;
  back_chunk = 0;
  back_pos = 0;
  end_chunk = 0;
  end_pos = 0;
  spare = 0;
  values = λ c p. 0;
  prev = λ c. 0;
  next = λ c. 0;
  live = λ c. false;
}

abbrev message : List ℕ
message = 700 ∷ []

abbrev first : SpscQueue ℕ
first = new_queue 1 2 memory

abbrev second : Sent
second = write_message 3 700 false new_pipe first

abbrev incomplete : Sent
incomplete = write_message 3 800 true second.pipe second.queue

abbrev taken_back : SpscQueue ℕ
taken_back = record incomplete.queue { queue = unpush granularity incomplete.queue.queue }

abbrev third : Sent
third = terminate 4 incomplete.pipe taken_back

abbrev fourth : Taken
fourth = do_read new_pipe third.queue

abbrev fifth : Taken
fifth = do_read fourth.pipe fourth.queue

run : Calls third.pipe fifth.pipe fifth.queue (700 ∷ []) (700 ∷ [])
unfolding new_queue init_queue init_batch push next_chunk link_chunk write flush flush_swap
    prefetched prefetch check_read read_item pop flushed_message write_message terminate taken
    do_read unwrite_message unwrite unpush unpush_back unpush_end
run =
    tried fifth
      (tried fourth
        (terminated 4
          (took_back_message 800 taken_back
            (wrote_message 3 800 true incomplete
              (wrote_message 3 700 false second
                (opened 1 2 memory refl (record { real = omega arith; free = refl })
                  (record { real = omega arith; free = refl }))
                (omega arith) (record { real = omega arith; free = refl }) refl)
              (omega arith) (record { real = omega arith; free = refl }) refl)
            refl)
          (record { real = omega arith; free = refl }))
        refl)
      refl

do_read-write_message_example :
    ((rest : List ℕ) × (message ≡ message ++ rest))
    × (fifth.pipe.peer_terminated ≡ true → message ≡ message)
do_read-write_message_example = do_read-write_message run

-- A reader that waits gets the message that is written meanwhile.
waited :
    (read_message one_wait
      ((λ q. q) ∷ (λ q. (write_message 3 700 false new_pipe q).queue) ∷ [])
      new_pipe
      first).result
    ≡ received 700
unfolding new_queue init_queue init_batch push next_chunk link_chunk write flush flush_swap
    prefetched prefetch check_read read_item pop flushed_message write_message taken do_read
    read_waiting read_message flush_store
waited = refl
