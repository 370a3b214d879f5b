-- ===== src/Queue/Invariant/Flush.antt =====
-- Unwrite and Flush of a SpscQueue (src/spsc_queue.hpp) keep the invariant.
use flash_forwarder.Prelude.{
  ℕ, suc, ◌-◌, ◌<◌, ◌≤◌, ◌≡◌, ◌≢◌, ◌⊎◌, inl, inr, refl, sym, ap, subst, ◌∙◌, List, Option, none,
  some, Bool, true, false, length, take, Bool-cases, length-take, arith,
}
use flash_forwarder.Queue.Batch.{back_item, back, unpush}
use flash_forwarder.Queue.Spsc.{
  SpscQueue, same_item, unwrite, Flushing, flushed, asleep, flush_swap, flush_store,
}
use flash_forwarder.Queue.Holds.{Holds, BackAt}
use flash_forwarder.Queue.Holds.Removal.{unpush-Holds, values-unpush}
use flash_forwarder.Queue.Invariant.{
  slot, awake, sleeping, woken, Prefetch, nothing, upto, Inv, eq→same_item, get_take, take-take,
  back_slot,
}

pub true-not-false : true ≢ false
true-not-false e = cc

pub some-not-none {ℓ} : {A : Type ℓ} {x : A} → some x ≢ none
some-not-none e = cc

some_inj {ℓ} : {A : Type ℓ} {x y : A} → some x ≡ some y → x ≡ y
some_inj e = cc

abbrev queue_of {ℓ} : {A : Type ℓ} → Flushing A → SpscQueue A
queue_of (flushed q) = q
queue_of (asleep q) = q

abbrev is_flushed {ℓ} : {A : Type ℓ} → Flushing A → Bool
is_flushed (flushed q) = true
is_flushed (asleep q) = false

farther :
    {h w f : ℕ} {c p : ℕ → ℕ} {r : Option (ℕ × ℕ)} → w ≤ f → Prefetch c p r h w → Prefetch c p r h f
farther le (nothing z) = nothing z
farther le (upto p hp pw z) = upto p hp (omega arith) z

unwrite-some {ℓ} :
    {A : Type ℓ} (n : ℕ) (q : SpscQueue A)
    → same_item q.f_item (some (back_item q.queue)) ≡ false
    → unwrite n q ≡ some (back (unpush n q.queue), record q { queue = unpush n q.queue })
unfolding unwrite
unwrite-some n q e = rw e refl

unwrite-none {ℓ} :
    {A : Type ℓ} (n : ℕ) (q : SpscQueue A)
    → same_item q.f_item (some (back_item q.queue)) ≡ true
    → unwrite n q ≡ none
unfolding unwrite
unwrite-none n q e = rw e refl

pub flush_swap-cases {ℓ} :
    {A : Type ℓ} (q : SpscQueue A)
    → ((same_item q.w_item q.f_item ≡ true) × (flush_swap q ≡ flushed q))
      ⊎ (flush_swap q ≡ flushed (record q { contention = q.f_item; w_item = q.f_item }))
      ⊎ ((same_item q.contention q.w_item ≡ false)
          × (flush_swap q ≡ asleep (record q { w_item = q.contention })))
unfolding flush_swap
flush_swap-cases q = elim (Bool-cases (same_item q.w_item q.f_item)) [
  | inl e ↦ rw e (inl (refl, refl))
  | inr e ↦ elim (Bool-cases (same_item q.contention q.w_item)) [
    | inl z ↦ rw (e, z) (inr (inl refl))
    | inr z ↦ rw (e, z) (inr (inr (refl, refl)))
  ]
]

module _ {ℓ} {A : Type ℓ} {n : ℕ} {q : SpscQueue A} {ws rs : List A} where
  -- There is an item to take back just if the last one is not complete.
  incomplete :
      (s : Inv n q false ws rs)
      → same_item q.f_item (some (back_item q.queue)) ≡ false
      → s.f < length ws
  incomplete s e =
      let ne : s.f ≢ length ws = λ x.
        true-not-false
          (sym (eq→same_item _ _ (s.f_item ∙ ap (slot s.chunk s.pos) x ∙ sym (back_slot s))) ∙ e) in
      omega (arith, s.complete_le)

  unpush-Inv :
      (s : Inv n q false ws rs)
      → s.f < length ws
      → Inv n (record q { queue = unpush n q.queue }) false (take (length ws - 1) ws) rs
  unpush-Inv s lt =
      let b = length ws - 1 in
      let len : length (take b ws) ≡ b = length-take b ws (omega arith) in
      let le : length rs ≤ b = omega (arith, s.read_le, s.flushed_le) in
      let top : length ws ≡ suc b = omega arith in
      let (k, held) =
        unpush-Holds (subst (λ t. Holds n s.chunk s.pos (length rs) (suc t) q.queue) top s.holds) le
          (subst (λ t. BackAt s.chunk s.pos t q.queue) top s.back) in
      record {
        chunk = s.chunk;
        pos = s.pos;
        w = s.w;
        f = s.f;
        read_le = s.read_le;
        flushed_le = s.flushed_le;
        complete_le = rw len (omega arith);
        holds = rw len held;
        back = rw len k;
        values = λ i hi it.
            rw (values-unpush n q.queue)
              (get_take b ws i (omega (arith, len)) ∙ s.values i hi (omega (arith, len)));
        f_item = s.f_item;
        contact = s.contact;
        prefetch = s.prefetch;
        order = s.order ∙ sym (take-take (length rs) b ws le);
      }

  pub unwrite-Inv :
      (v : A) (q' : SpscQueue A)
      → Inv n q false ws rs
      → unwrite n q ≡ some (v, q')
      → Inv n q' false (take (length ws - 1) ws) rs
  unwrite-Inv v q' s e = elim (Bool-cases (same_item q.f_item (some (back_item q.queue)))) [
    | inl z ↦ absurd (some-not-none (sym e ∙ unwrite-none n q z))
    | inr z ↦
        subst (λ x. Inv n x false (take (length ws - 1) ws) rs)
          (ap (λ x. x.1) (some_inj (sym (unwrite-some n q z) ∙ e))) (unpush-Inv s (incomplete s z))
  ]

  -- All complete items are flushed.
  pub all_flushed :
      {waking : Bool} (s : Inv n q waking ws rs)
      → (s' : Inv n (record q { contention = q.f_item; w_item = q.f_item }) false ws rs) × (s'.w
          ≡ s.f)
  all_flushed s = (
    record {
      chunk = s.chunk;
      pos = s.pos;
      w = s.f;
      f = s.f;
      read_le = omega (arith, s.read_le, s.flushed_le);
      flushed_le = omega arith;
      complete_le = s.complete_le;
      holds = s.holds;
      back = s.back;
      values = s.values;
      f_item = s.f_item;
      contact = awake refl s.f_item s.f_item;
      prefetch = farther s.flushed_le s.prefetch;
      order = s.order;
    },
    refl,
  )

  -- The writer found the reader asleep.
  about_to_wake :
      (s : Inv n q false ws rs)
      → same_item q.contention q.w_item ≡ false
      → Inv n (record q { w_item = q.contention }) true ws rs
  about_to_wake s e = record {
    chunk = s.chunk;
    pos = s.pos;
    w = s.w;
    f = s.f;
    read_le = s.read_le;
    flushed_le = s.flushed_le;
    complete_le = s.complete_le;
    holds = s.holds;
    back = s.back;
    values = s.values;
    f_item = s.f_item;
    contact = elim s.contact [
      | awake a b c ↦ absurd (true-not-false (sym (eq→same_item _ _ (c ∙ sym b)) ∙ e))
      | sleeping a b c d ↦ woken refl c d
      | woken a c d ↦ woken refl c d
    ];
    prefetch = s.prefetch;
    order = s.order;
  }

  pub flush_store-Inv : Inv n q true ws rs → Inv n (flush_store q) false ws rs
  unfolding flush_store
  flush_store-Inv s = (all_flushed s).0

  pub flushed-Inv :
      (q' : SpscQueue A) → Inv n q false ws rs → flush_swap q ≡ flushed q' → Inv n q' false ws rs
  flushed-Inv q' s e = elim (flush_swap-cases q) [
    | inl (y, z) ↦ subst (λ x. Inv n x false ws rs) (ap queue_of (sym z ∙ e)) s
    | inr (inl z) ↦ subst (λ x. Inv n x false ws rs) (ap queue_of (sym z ∙ e)) (all_flushed s).0
    | inr (inr (a, z)) ↦ absurd (true-not-false (ap is_flushed (sym e ∙ z)))
  ]

  pub asleep-Inv :
      (q' : SpscQueue A) → Inv n q false ws rs → flush_swap q ≡ asleep q' → Inv n q' true ws rs
  asleep-Inv q' s e = elim (flush_swap-cases q) [
    | inl (y, z) ↦ absurd (true-not-false (ap is_flushed (sym z ∙ e)))
    | inr (inl z) ↦ absurd (true-not-false (ap is_flushed (sym z ∙ e)))
    | inr (inr (a, z)) ↦
        subst (λ x. Inv n x true ws rs) (ap queue_of (sym z ∙ e)) (about_to_wake s a)
  ]
