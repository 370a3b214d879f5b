-- ===== src/Queue/Spsc.antt =====
-- The class SpscQueue of src/spsc_queue.hpp. A pointer to an item is its slot, and nullptr is `none`.
-- Flush is two functions, for its two accesses to `contention_`.
use flash_forwarder.Prelude.{
  ℕ, Option, none, some, Bool, true, false, ◌&&◌, not, ◌==◌, if◌then◌else◌,
}
use flash_forwarder.Queue.Batch.{
  BatchQueue, front_item, back_item, front, back, set_back, init_batch, push, unpush, pop,
}

pub record SpscQueue {ℓ} (A : Type ℓ) : Type ℓ where
  pub queue : BatchQueue A
  pub w_item : Option (ℕ × ℕ)
  pub r_item : Option (ℕ × ℕ)
  pub f_item : Option (ℕ × ℕ)
  pub contention : Option (ℕ × ℕ)

abbrev pub same_item : Option (ℕ × ℕ) → Option (ℕ × ℕ) → Bool
same_item none none = true
same_item none (some y) = false
same_item (some x) none = false
same_item (some x) (some y) = (x.0 == y.0) && (x.1 == y.1)

abbrev pub is_null : Option (ℕ × ℕ) → Bool
is_null none = true
is_null (some x) = false

-- The constructor of a queue and `Init`, with what malloc returns to the two that it calls, on memory
-- that is as `q` says. The failures of `Init` and `Push` are not looked at.
unfoldable pub init_queue {ℓ} : {A : Type ℓ} → ℕ → ℕ → ℕ → BatchQueue A → SpscQueue A
init_queue size address address' q =
    let q' = (push size address' (init_batch address q).0).0 in
    record {
      queue = q';
      w_item = some (back_item q');
      r_item = some (back_item q');
      f_item = some (back_item q');
      contention = some (back_item q');
    }

-- What `Push` returns is not looked at.
unfoldable pub write {ℓ} : {A : Type ℓ} → ℕ → ℕ → A → Bool → SpscQueue A → SpscQueue A
write size address value incomplete q =
    let q' = (push size address (set_back value q.queue)).0 in
    record q { queue = q'; f_item = if incomplete then q.f_item else some (back_item q') }

-- `none` is the result false.
unfoldable pub unwrite {ℓ} : {A : Type ℓ} → ℕ → SpscQueue A → Option (A × SpscQueue A)
unwrite size q =
    if same_item q.f_item (some (back_item q.queue))
    then none
    else (let q' = unpush size q.queue in some (back q', record q { queue = q' }))

-- `Flush` up to its compare-and-swap: it returned true, or the swap failed, which puts the value of
-- `contention_` into `w_item_`.
pub data Flushing {ℓ} (A : Type ℓ) : Type ℓ where
  flushed : SpscQueue A → Flushing A
  asleep : SpscQueue A → Flushing A

unfoldable pub flush_swap {ℓ} : {A : Type ℓ} → SpscQueue A → Flushing A
flush_swap q =
    if same_item q.w_item q.f_item
    then flushed q
    else (if same_item q.contention q.w_item
        then flushed (record q { contention = q.f_item; w_item = q.f_item })
        else asleep (record q { w_item = q.contention }))

-- The rest of `Flush` after a failed swap.
unfoldable pub flush_store {ℓ} : {A : Type ℓ} → SpscQueue A → SpscQueue A
flush_store q = record q { contention = q.f_item; w_item = q.f_item }

unfoldable pub flush {ℓ} : {A : Type ℓ} → SpscQueue A → Bool × SpscQueue A
flush q = elim (flush_swap q) [ flushed q' ↦ (true, q') | asleep q' ↦ (false, flush_store q') ]

unfoldable pub prefetched {ℓ} : {A : Type ℓ} → SpscQueue A → Bool
prefetched q = not (same_item (some (front_item q.queue)) q.r_item) && not (is_null q.r_item)

-- The compare-and-swap of `CheckRead`, which leaves in `first_item` what `contention_` was.
unfoldable pub prefetch {ℓ} : {A : Type ℓ} → SpscQueue A → SpscQueue A
prefetch q =
    if same_item q.contention (some (front_item q.queue))
    then record q { contention = none; r_item = some (front_item q.queue) }
    else record q { r_item = q.contention }

unfoldable pub check_read {ℓ} : {A : Type ℓ} → SpscQueue A → Bool × SpscQueue A
check_read q = if prefetched q then (true, q) else (prefetched (prefetch q), prefetch q)

-- `none` is the result false.
unfoldable pub read_item {ℓ} : {A : Type ℓ} → ℕ → SpscQueue A → Option A × SpscQueue A
read_item size q =
    let (ready, q') = check_read q in
    if ready then (some (front q'.queue), record q' { queue = pop size q'.queue }) else (none, q')

unfoldable pub probe {ℓ} : {A : Type ℓ} → (A → Bool) → SpscQueue A → Bool × SpscQueue A
probe fn q =
    let (ready, q') = check_read q in if ready then (fn (front q'.queue), q') else (false, q')
