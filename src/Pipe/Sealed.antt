-- ===== src/Pipe/Sealed.antt =====
-- Behind the null pointer of a terminated pipe (src/pipe.cpp) there is nothing to take back.
use flash_forwarder.Prelude.{
  ℕ, suc, ◌≡◌, refl, sym, ap, ◌∙◌, subst, Option, some, none, false, ◌==◌, Bool-cases, inl, inr,
  eq→==, if_both,
}
use flash_forwarder.Queue.Batch.{BatchQueue, back_item, pop}
use flash_forwarder.Queue.Spsc.{
  SpscQueue, same_item, write, unwrite, flush_swap, flush_store, flush, prefetched, prefetch,
  check_read, read_item,
}

-- All that was written is complete.
abbrev pub Sealed {ℓ} : {A : Type ℓ} → SpscQueue A → Type 0
Sealed q = q.f_item ≡ some (back_item q.queue)

module _ {ℓ} {A : Type ℓ} where
  pub write-Sealed : (n address : ℕ) (v : A) (q : SpscQueue A) → Sealed (write n address v false q)
  unfolding write
  write-Sealed n address v q = refl

  pub flush-Sealed : (q : SpscQueue A) → Sealed q → Sealed (flush q).1
  unfolding flush flush_swap flush_store
  flush-Sealed q s = elim (Bool-cases (same_item q.w_item q.f_item)) [
    | inl e ↦ simp (e, flush_swap, flush) s
    | inr e ↦ elim (Bool-cases (same_item q.contention q.w_item)) [
      | inl c ↦ simp (e, c, flush_swap, flush) s
      | inr c ↦ simp (e, c, flush_swap, flush, flush_store) s
    ]
  ]

  prefetch-Sealed : (q : SpscQueue A) → Sealed q → Sealed (prefetch q)
  unfolding prefetch
  prefetch-Sealed q s = if_both Sealed (same_item q.contention _) _ _ s s

  pub check_read-Sealed : (q : SpscQueue A) → Sealed q → Sealed (check_read q).1
  unfolding check_read
  check_read-Sealed q s = elim (Bool-cases (prefetched q)) [
    | inl e ↦ simp (e, check_read) s
    | inr e ↦ simp (e, check_read) (prefetch-Sealed q s)
  ]

  pop-back_item : (n : ℕ) (q : BatchQueue A) → back_item (pop n q) ≡ back_item q
  unfolding pop
  pop-back_item n q =
      if_both (λ (p : BatchQueue A). back_item p ≡ back_item q) (suc q.begin_pos == n) _ _ refl refl

  read_item-Sealed : (n : ℕ) (q : SpscQueue A) → Sealed q → Sealed (read_item n q).1
  unfolding read_item
  read_item-Sealed n q s =
      let q' = (check_read q).1 in
      let kept : Sealed q' = check_read-Sealed q s in
      elim (Bool-cases (check_read q).0) [
        | inl e ↦ simp (e, read_item) (kept ∙ ap some (sym (pop-back_item n q'.queue)))
        | inr e ↦ simp (e, read_item) kept
      ]

  pub unwrite-Sealed : (n : ℕ) (q : SpscQueue A) → Sealed q → unwrite n q ≡ none
  unfolding unwrite
  unwrite-Sealed n q s = rw s (
      rw (eq→== q.queue.back_chunk q.queue.back_chunk refl)
        (rw (eq→== q.queue.back_pos q.queue.back_pos refl) refl))

  pub still_Sealed :
      {item : Option A} (n : ℕ) (q q' : SpscQueue A)
      → read_item n q ≡ (item, q')
      → Sealed q
      → Sealed q'
  still_Sealed n q q' z sealed = subst Sealed (ap (λ x. x.1) z) (read_item-Sealed n q sealed)
