-- ===== src/Queue/Order.antt =====
-- What a SpscQueue (src/spsc_queue.hpp) promises its two threads.
use flash_forwarder.Prelude.{
  ℕ, suc, ◌<◌, ◌≤◌, ◌≡◌, refl, sym, ap, ap₂, ◌∙◌, List, [], ◌++◌, some, Bool, true, false, length,
  drop, take-append-drop, ne→==_false, arith,
}
use flash_forwarder.Queue.Batch.{BatchQueue, back_item, init_batch, push}
use flash_forwarder.Queue.Spsc.{SpscQueue, init_queue}
use flash_forwarder.Queue.Chain.{update-eq}
use flash_forwarder.Queue.Holds.{Holds, Fresh, push-Holds}
use flash_forwarder.Queue.Run.{
  Run, started, wrote, took_back, swapped, unswapped, stored, checked, missed, took,
}
use flash_forwarder.Queue.Invariant.{slot, awake, upto, Inv}
use flash_forwarder.Queue.Invariant.Reader.{check_read-Inv, read_some-Inv, read_none-Inv}
use flash_forwarder.Queue.Invariant.Writer.{write-Inv}
use flash_forwarder.Queue.Invariant.Flush.{unwrite-Inv, flushed-Inv, asleep-Inv, flush_store-Inv}

-- The one chunk of a new queue.
init-Holds {ℓ} :
    {A : Type ℓ} (n address : ℕ) (q : BatchQueue A)
    → 0 < n
    → q.spare ≡ 0
    → Fresh address q
    → Holds n (λ i. address) (λ i. 0) 0 0 (init_batch address q).0
unfolding init_batch
init-Holds n address q lt z f = rw (ne→==_false address 0 f.real) (record {
  chain = record {
    bound = λ i hi it. lt;
    order = λ i j hi ij jt e. omega arith;
    linked = λ i hi it. absurd (omega arith);
    alive = λ i hi it. update-eq address true q.live;
    real = λ i hi it. f.real;
    apart = λ i hi it e. f.real (e ∙ z);
    kept = λ k. absurd (k z);
  };
  begin_chunk = refl;
  begin_pos = refl;
  end_chunk = refl;
  end_pos = refl;
})

init-Inv {ℓ} :
    {A : Type ℓ} (n address address' : ℕ) (q : BatchQueue A)
    → 0 < n
    → q.spare ≡ 0
    → Fresh address q
    → Fresh address' (init_batch address q).0
    → Inv n (init_queue n address address' q) false [] []
unfolding init_queue
init-Inv n address address' q lt z f f' =
    let P = push-Holds address' (omega arith) lt f' (init-Holds n address q lt z f) in
    let first : some (back_item (push n address' (init_batch address q).0).0)
        ≡ slot P.chunk' P.pos' 0 =
      ap₂ (λ x y. some (x, y)) (P.back.back_chunk ∙ sym (P.same_chunk 0 (omega arith)))
        (P.back.back_pos ∙ sym (P.same_pos 0 (omega arith))) in
    record {
      chunk = P.chunk';
      pos = P.pos';
      w = 0;
      f = 0;
      read_le = omega arith;
      flushed_le = omega arith;
      complete_le = omega arith;
      holds = P.holds;
      back = record {
        back_chunk = P.back.back_chunk ∙ sym (P.same_chunk 0 (omega arith));
        back_pos = P.back.back_pos ∙ sym (P.same_pos 0 (omega arith));
      };
      values = λ i hi it. absurd (omega arith);
      f_item = first;
      contact = awake refl first first;
      prefetch = upto 0 (omega arith) (omega arith) first;
      order = refl;
    }

pub Run-Inv {ℓ} :
    {A : Type ℓ} {n : ℕ} {q : SpscQueue A} {waking : Bool} {ws rs : List A}
    → Run n q waking ws rs
    → Inv n q waking ws rs
Run-Inv (started a a' q lt z f f') = init-Inv _ a a' q lt z f f'
Run-Inv (wrote a v b r f) = write-Inv a v b (Run-Inv r) f
Run-Inv (took_back v q' r e) = unwrite-Inv v q' (Run-Inv r) e
Run-Inv (swapped q' r e) = flushed-Inv q' (Run-Inv r) e
Run-Inv (unswapped q' r e) = asleep-Inv q' (Run-Inv r) e
Run-Inv (stored r) = flush_store-Inv (Run-Inv r)
Run-Inv (checked r) = check_read-Inv (Run-Inv r)
Run-Inv (missed q' r e) = read_none-Inv q' (Run-Inv r) e
Run-Inv (took v q' r e) = read_some-Inv v q' (Run-Inv r) e

-- Whatever the order of the steps of the two threads, and whatever chunks malloc gives: the items that
-- were read are the first of those that were written and not taken back, each once and in order.
pub queue_order {ℓ} :
    {A : Type ℓ} {n : ℕ} {q : SpscQueue A} {waking : Bool} {ws rs : List A}
    → Run n q waking ws rs
    → (rest : List A) × (ws ≡ rs ++ rest)
queue_order {ws} {rs} r =
    let s = Run-Inv r in
    (
      drop (length rs) ws,
      sym (take-append-drop (length rs) ws) ∙ ap (λ t. t ++ drop (length rs) ws) (sym s.order),
    )

-- Whatever the order of the steps of the two threads: the chunks of the begin, the back and the end
-- position were allocated and not freed.
pub chunks-alive {ℓ} :
    {A : Type ℓ} {n : ℕ} {q : SpscQueue A} {waking : Bool} {ws rs : List A}
    → Run n q waking ws rs
    → (q.queue.live q.queue.begin_chunk ≡ true)
      × (q.queue.live q.queue.back_chunk ≡ true)
      × (q.queue.live q.queue.end_chunk ≡ true)
chunks-alive {q} {ws} {rs} r =
    let s = Run-Inv r in
    let le : length rs ≤ length ws = omega (arith, s.read_le, s.flushed_le, s.complete_le) in
    (
      ap q.queue.live s.holds.begin_chunk
          ∙ s.holds.chain.alive (length rs) (omega arith) (omega arith),
      ap q.queue.live s.back.back_chunk ∙ s.holds.chain.alive (length ws) le (omega arith),
      ap q.queue.live s.holds.end_chunk
          ∙ s.holds.chain.alive (suc (length ws)) (omega arith) (omega arith),
    )
