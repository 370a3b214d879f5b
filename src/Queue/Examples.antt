-- ===== src/Queue/Examples.antt =====
-- A queue with two slots to a chunk, and the theorems at concrete runs.
use flash_forwarder.Prelude.{ℕ, ◌≡◌, refl, List, [], ◌∷◌, ◌++◌, some, true, false, arith}
use flash_forwarder.Queue.Batch.{
  BatchQueue, init_batch, push, pop, unpush, unpush_back, unpush_end, next_chunk, link_chunk,
}
use flash_forwarder.Queue.Spsc.{
  SpscQueue, init_queue, write, unwrite, flush, flush_swap, prefetched, prefetch, check_read,
  read_item, probe,
}
use flash_forwarder.Queue.Run.{Run, started, wrote, swapped, took}
use flash_forwarder.Queue.Order.{queue_order, chunks-alive}
use flash_forwarder.Queue.Wake.{read-flush-none, flush-read_none}

abbrev memory : BatchQueue ℕ
memory = record {
  begin_chunk = 0;
  begin_pos = 0;
  back_chunk = 0;
  back_pos = 0;
  end_chunk = 0;
  end_pos = 0;
  spare = 0;
  values = λ c p. 0;
  prev = λ c. 0;
  next = λ c. 0;
  live = λ c. false;
}

abbrev new_queue : SpscQueue ℕ
new_queue = init_queue 2 1 2 memory

abbrev one_written : SpscQueue ℕ
one_written = write 2 3 10 false new_queue

abbrev two_written : SpscQueue ℕ
two_written = write 2 4 11 false one_written

abbrev two_flushed : SpscQueue ℕ
two_flushed = (flush two_written).1

abbrev one_read : SpscQueue ℕ
one_read = (read_item 2 two_flushed).1

abbrev two_read : SpscQueue ℕ
two_read = (read_item 2 one_read).1

abbrev items : List ℕ
items = 10 ∷ 11 ∷ []

run_new : Run 2 new_queue false [] []
unfolding init_batch
run_new =
    started 1 2 memory (omega arith) refl (record { real = omega arith; free = refl })
      (record { real = omega arith; free = refl })

run_written : Run 2 two_written false (10 ∷ 11 ∷ []) []
unfolding init_queue init_batch push next_chunk link_chunk write
run_written =
    wrote 4 11 false (wrote 3 10 false run_new (record { real = omega arith; free = refl }))
      (record { real = omega arith; free = refl })

run_read : Run 2 two_read false (10 ∷ 11 ∷ []) (10 ∷ 11 ∷ [])
unfolding init_queue init_batch push next_chunk link_chunk write flush flush_swap prefetched
    prefetch check_read read_item pop
run_read = took 11 two_read (took 10 one_read (swapped two_flushed run_written refl) refl) refl

queue_order_example : (rest : List ℕ) × (10 ∷ 11 ∷ [] ≡ (10 ∷ 11 ∷ []) ++ rest)
queue_order_example = queue_order run_read

chunks-alive_example :
    (two_read.queue.live two_read.queue.begin_chunk ≡ true)
    × (two_read.queue.live two_read.queue.back_chunk ≡ true)
    × (two_read.queue.live two_read.queue.end_chunk ≡ true)
chunks-alive_example = chunks-alive run_read

read-flush-none_example : items ≡ 10 ∷ 11 ∷ []
unfolding init_queue init_batch push next_chunk link_chunk write flush flush_swap prefetched
    prefetch check_read read_item pop
read-flush-none_example =
    read-flush-none {q' = (read_item 2 (flush two_read).1).1} run_read refl refl

flush-read_none_example : (flush (write 2 7 12 false (read_item 2 two_read).1)).0 ≡ false
unfolding init_queue init_batch push next_chunk link_chunk write flush flush_swap prefetched
    prefetch check_read read_item pop
flush-read_none_example =
    flush-read_none {address = 7} 12 {q' = (read_item 2 two_read).1} run_read refl
      (record { real = omega arith; free = refl })

-- An item that is not complete can be taken back.
unwrite_incomplete : (q : SpscQueue ℕ) × (unwrite 2 (write 2 3 10 true new_queue) ≡ some (10, q))
unfolding init_queue init_batch push next_chunk link_chunk write unwrite unpush unpush_back
    unpush_end
unwrite_incomplete = (_, refl)

-- The items are complete and not flushed.
probe_nothing : (probe (λ x. true) two_written).0 ≡ false
unfolding init_queue init_batch push next_chunk link_chunk write prefetched prefetch check_read
    probe
probe_nothing = refl
