-- ===== src/Queue/Run.antt =====
-- The two threads of a SpscQueue (src/spsc_queue.hpp) as steps in any order.
use flash_forwarder.Prelude.{
  ℕ, ◌-◌, ◌<◌, ◌≡◌, List, [], ◌∷◌, ◌++◌, none, some, Bool, true, false, length, take,
}
use flash_forwarder.Queue.Batch.{BatchQueue, init_batch}
use flash_forwarder.Queue.Spsc.{
  SpscQueue, init_queue, write, unwrite, flushed, asleep, flush_swap, flush_store, check_read,
  read_item,
}
use flash_forwarder.Queue.Holds.{Fresh}

-- The queue after some steps, whether the writer is between the two halves of `Flush`, the items that
-- were written and not taken back, and the items that were read, both in order. The writer steps in
-- `wrote` to `stored` and the reader in `checked` to `took`; malloc does not fail.
pub data Run {ℓ} {A : Type ℓ} (n : ℕ) : SpscQueue A → Bool → List A → List A → Type ℓ where
  started :
      (address address' : ℕ) (q : BatchQueue A)
      → 0 < n
      → q.spare ≡ 0
      → Fresh address q
      → Fresh address' (init_batch address q).0
      → Run n (init_queue n address address' q) false [] []
  wrote :
      {q : SpscQueue A} {ws rs : List A} (address : ℕ) (v : A) (incomplete : Bool)
      → Run n q false ws rs
      → Fresh address q.queue
      → Run n (write n address v incomplete q) false (ws ++ v ∷ []) rs
  took_back :
      {q : SpscQueue A} {ws rs : List A} (v : A) (q' : SpscQueue A)
      → Run n q false ws rs
      → unwrite n q ≡ some (v, q')
      → Run n q' false (take (length ws - 1) ws) rs
  swapped :
      {q : SpscQueue A} {ws rs : List A} (q' : SpscQueue A)
      → Run n q false ws rs
      → flush_swap q ≡ flushed q'
      → Run n q' false ws rs
  unswapped :
      {q : SpscQueue A} {ws rs : List A} (q' : SpscQueue A)
      → Run n q false ws rs
      → flush_swap q ≡ asleep q'
      → Run n q' true ws rs
  stored :
      {q : SpscQueue A} {ws rs : List A} → Run n q true ws rs → Run n (flush_store q) false ws rs
  checked :
      {q : SpscQueue A} {waking : Bool} {ws rs : List A}
      → Run n q waking ws rs
      → Run n (check_read q).1 waking ws rs
  missed :
      {q : SpscQueue A} {waking : Bool} {ws rs : List A} (q' : SpscQueue A)
      → Run n q waking ws rs
      → read_item n q ≡ (none, q')
      → Run n q' waking ws rs
  took :
      {q : SpscQueue A} {waking : Bool} {ws rs : List A} (v : A) (q' : SpscQueue A)
      → Run n q waking ws rs
      → read_item n q ≡ (some v, q')
      → Run n q' waking ws (rs ++ v ∷ [])
