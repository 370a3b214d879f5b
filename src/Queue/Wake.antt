-- ===== src/Queue/Wake.antt =====
-- No item of a SpscQueue (src/spsc_queue.hpp) is forgotten while its reader sleeps.
use flash_forwarder.Prelude.{
  ℕ, ◌<◌, ◌≡◌, inl, inr, refl, sym, ap, ap₂, ◌∙◌, List, [], ◌∷◌, none, some, Bool, true, false, not,
  ◌&&◌, length, Bool-cases, take_of_length_le, length-append, arith,
}
use flash_forwarder.Queue.Batch.{front_item, back_item}
use flash_forwarder.Queue.Spsc.{
  SpscQueue, same_item, is_null, write, asleep, flush_swap, flush_store, flush, prefetched,
  prefetch, check_read, read_item,
}
use flash_forwarder.Queue.Holds.{Fresh}
use flash_forwarder.Queue.Run.{Run, wrote, missed}
use flash_forwarder.Queue.Invariant.{
  slot, awake, sleeping, woken, Inv, same_item→eq, eq→same_item, front_slot, back_slot, slot_eq,
}
use flash_forwarder.Queue.Invariant.Reader.{read_item_ready, read_item_empty}
use flash_forwarder.Queue.Invariant.Flush.{
  all_flushed, flush_swap-cases, true-not-false, some-not-none,
}
use flash_forwarder.Queue.Order.{Run-Inv}

not_prefetched : (a b : Bool) → (not a && not b) ≡ false → b ≡ false → a ≡ true
not_prefetched true b e z = refl
not_prefetched false true e z = cc
not_prefetched false false e z = cc

prefetched_more {ℓ} :
    {A : Type ℓ} (q : SpscQueue A)
    → same_item q.contention (some (front_item q.queue)) ≡ false
    → prefetched (prefetch q)
      ≡ not (same_item (some (front_item q.queue)) q.contention) && not (is_null q.contention)
unfolding prefetched prefetch
prefetched_more q z = rw z refl

-- What a `CheckRead` that finds nothing did.
check_read_missed {ℓ} :
    {A : Type ℓ} (q : SpscQueue A)
    → (check_read q).0 ≡ false
    → (prefetched (prefetch q) ≡ false) × ((check_read q).1 ≡ prefetch q)
unfolding check_read
check_read_missed q = elim (Bool-cases (prefetched q)) [
  | inl e ↦ rw e (λ h. absurd (true-not-false h))
  | inr e ↦ rw e (λ h. (h, refl))
]

-- A `Read` of none is a `CheckRead` that finds nothing.
read_missed {ℓ} :
    {A : Type ℓ} (n : ℕ) (q q' : SpscQueue A)
    → read_item n q ≡ (none, q')
    → ((check_read q).0 ≡ false) × ((check_read q).1 ≡ q')
read_missed n q q' e = elim (Bool-cases (check_read q).0) [
  | inl r ↦ absurd (some-not-none (ap (λ x. x.0) (sym (read_item_ready n q r) ∙ e)))
  | inr r ↦ (r, ap (λ x. x.1) (sym (read_item_empty n q r) ∙ e))
]

module _ {ℓ} {A : Type ℓ} {n : ℕ} {q : SpscQueue A} {ws rs : List A} where
  -- When `CheckRead` finds nothing, all flushed items were read and `contention_` is null.
  prefetched-none :
      (s : Inv n q false ws rs)
      → prefetched (prefetch q) ≡ false
      → (length rs ≡ s.w) × ((prefetch q).contention ≡ none)
  unfolding prefetch prefetched
  prefetched-none s e = elim (Bool-cases (same_item q.contention (some (front_item q.queue)))) [
    | inl z ↦ elim s.contact [
      | awake a b c ↦ (
        slot_eq s (length rs) s.w (omega arith)
            (omega (arith, s.read_le, s.flushed_le, s.complete_le)) s.read_le
            (omega (arith, s.flushed_le, s.complete_le))
            (sym (front_slot s) ∙ sym (same_item→eq _ _ z) ∙ c),
        rw z refl,
      )
      | sleeping a b c d ↦ (d, rw z refl)
      | woken a c d ↦ (d, rw z refl)
    ]
    | inr z ↦ elim s.contact [
      | awake a b c ↦
          let y = not_prefetched _ _ (sym (prefetched_more q z) ∙ e) (ap is_null c) in
          absurd (
            true-not-false (
              sym (
                eq→same_item q.contention (some (front_item q.queue))
                  (sym (same_item→eq (some (front_item q.queue)) q.contention y)))
              ∙ z))
      | sleeping a b c d ↦ (d, rw z c)
      | woken a c d ↦ (d, rw z c)
    ]
  ]

w_slot {ℓ} :
    {A : Type ℓ} {n : ℕ} {q : SpscQueue A} {ws rs : List A}
    → (s : Inv n q false ws rs) → q.w_item ≡ slot s.chunk s.pos s.w
w_slot s = elim s.contact [
  | awake a b c ↦ b
  | sleeping a b c d ↦ b
  | woken a c d ↦ absurd (true-not-false (sym a))
]

-- After a whole `Flush` the flushed items are the complete ones.
flush-Inv {ℓ} :
    {A : Type ℓ} {n : ℕ} {q : SpscQueue A} {ws rs : List A}
    → (s : Inv n q false ws rs) → s.f ≡ length ws
    → (s' : Inv n (flush q).1 false ws rs) × (s'.w ≡ length ws)
unfolding flush flush_store
flush-Inv {q} {ws} s e = elim (flush_swap-cases q) [
  | inl (y, z) ↦
      let same =
        slot_eq s s.w s.f s.read_le (omega (arith, s.flushed_le))
          (omega (arith, s.read_le, s.flushed_le)) s.complete_le
          (sym (w_slot s) ∙ same_item→eq q.w_item q.f_item y ∙ s.f_item) in
      rw (z, flush) (s, same ∙ e)
  | inr (inl z) ↦ rw (z, flush) ((all_flushed s).0, (all_flushed s).1 ∙ e)
  | inr (inr (a, z)) ↦ rw (z, flush) ((all_flushed s).0, (all_flushed s).1 ∙ e)
]

-- All items are complete when `f_item_` is the back item.
complete_all {ℓ} :
    {A : Type ℓ} {n : ℕ} {q : SpscQueue A} {ws rs : List A}
    → (s : Inv n q false ws rs) → q.f_item ≡ some (back_item q.queue)
    → s.f ≡ length ws
complete_all {ws} s e =
    slot_eq s s.f (length ws) (omega (arith, s.read_le, s.flushed_le)) s.complete_le
      (omega (arith, s.read_le, s.flushed_le, s.complete_le)) (omega arith)
      (sym s.f_item ∙ e ∙ back_slot s)

-- After any steps of the two threads, the writer not within Flush, and when the last item written is
-- complete: if the writer calls Flush and the next Read finds nothing, then all items that were written
-- and not taken back were read.
pub read-flush-none {ℓ} :
    {A : Type ℓ} {n : ℕ} {q q' : SpscQueue A} {ws rs : List A}
    → Run n q false ws rs
    → q.f_item ≡ some (back_item q.queue)
    → read_item n (flush q).1 ≡ (none, q')
    → rs ≡ ws
read-flush-none {n} {q} {q'} {ws} {rs} r e miss =
    let s = Run-Inv r in
    let (s', top) = flush-Inv s (complete_all s e) in
    let (m, _) = read_missed n (flush q).1 q' miss in
    let (all, _) = prefetched-none s' (check_read_missed (flush q).1 m).0 in
    s'.order ∙ take_of_length_le (length rs) ws (omega (arith, all, top))

swap_fails {ℓ} :
    {A : Type ℓ} (q : SpscQueue A)
    → same_item q.w_item q.f_item ≡ false
    → same_item q.contention q.w_item ≡ false
    → flush_swap q ≡ asleep (record q { w_item = q.contention })
unfolding flush_swap
swap_fails q e z = rw (e, z) refl

-- The second half of `Flush` runs when the reader sleeps and something new is complete.
flush_wakes {ℓ} :
    {A : Type ℓ} (q : SpscQueue A)
    → same_item q.w_item q.f_item ≡ false
    → same_item q.contention q.w_item ≡ false
    → (flush q).0 ≡ false
unfolding flush
flush_wakes q e z = rw (swap_fails q e z, flush) refl

written_contention {ℓ} :
    {A : Type ℓ} (n address : ℕ) (v : A) (q : SpscQueue A)
    → ((write n address v false q).contention ≡ q.contention)
      × ((write n address v false q).f_item ≡ some (back_item (write n address v false q).queue))
unfolding write
written_contention n address v q = (refl, refl)

asleep_wakes {ℓ} :
    {A : Type ℓ} {n : ℕ} {q : SpscQueue A} {ws rs : List A}
    → (s : Inv n q false ws rs) → q.contention ≡ none
    → s.f ≡ length ws
    → length rs < length ws
    → (flush q).0 ≡ false
asleep_wakes {q} {ws} {rs} s null top more = elim s.contact [
  | awake a b c ↦ absurd (some-not-none (sym c ∙ null))
  | woken a c d ↦ absurd (true-not-false (sym a))
  | sleeping a b c d ↦ elim (Bool-cases (same_item q.w_item q.f_item)) [
    | inl y ↦
        let same =
          slot_eq s s.w s.f s.read_le (omega (arith, s.flushed_le, s.complete_le))
            (omega (arith, s.read_le, s.flushed_le)) s.complete_le
            (sym b ∙ same_item→eq q.w_item q.f_item y ∙ s.f_item) in
        absurd (omega arith)
    | inr y ↦ flush_wakes q y (ap₂ same_item c b)
  ]
]

-- After any steps of the two threads, the writer not within Flush: if a Read finds nothing, then the
-- writer who writes a complete item next gets false from Flush, the sign to wake the reader.
pub flush-read_none {ℓ} :
    {A : Type ℓ} {n address : ℕ} (v : A) {q q' : SpscQueue A} {ws rs : List A}
    → Run n q false ws rs
    → read_item n q ≡ (none, q')
    → Fresh address q'.queue
    → (flush (write n address v false q')).0 ≡ false
flush-read_none {n} {address} v {q} {q'} {ws} {rs} r miss fresh =
    let (m, same) = read_missed n q q' miss in
    let (e, to) = check_read_missed q m in
    let (all, null) = prefetched-none (Run-Inv r) e in
    let s = Run-Inv (wrote address v false (missed q' r miss) fresh) in
    let (c, f) = written_contention n address v q' in
    let none_left : (write n address v false q').contention ≡ none =
      c ∙ ap (λ x. x.contention) (sym same ∙ to) ∙ null in
    asleep_wakes s none_left (complete_all s f) (
      omega (
        arith,
        length-append ws (v ∷ []),
        (Run-Inv r).read_le,
        (Run-Inv r).flushed_le,
        (Run-Inv r).complete_le,
      ))
