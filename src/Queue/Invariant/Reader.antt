-- ===== src/Queue/Invariant/Reader.antt =====
-- The reader's half of a SpscQueue (src/spsc_queue.hpp) keeps the invariant.
use flash_forwarder.Prelude.{
  ℕ, suc, ◌<◌, ◌≤◌, ◌≡◌, ◌≢◌, inl, inr, refl, sym, ap, subst, ◌∙◌, List, [], ◌∷◌, ◌++◌, Option,
  none, some, Bool, true, false, not, length, get_elem?, Bool-cases, length-append, arith,
}
use flash_forwarder.Queue.Batch.{front_item, front, pop}
use flash_forwarder.Queue.Spsc.{
  SpscQueue, same_item, is_null, prefetched, prefetch, check_read, read_item,
}
use flash_forwarder.Queue.Holds.Removal.{pop-Holds, pop-BackAt, values-pop}
use flash_forwarder.Queue.Invariant.{
  slot, Contact, awake, sleeping, woken, Prefetch, nothing, upto, Inv, and_parts, same_item→eq,
  eq→same_item, take_get, front_slot, slot_eq,
}

not-true-true : (b : Bool) → not b ≡ true → b ≢ true
not-true-true true e z = cc
not-true-true false e z = cc

module _ {ℓ} {A : Type ℓ} {n : ℕ} {q : SpscQueue A} {waking : Bool} {ws rs : List A} where
  -- An item that `CheckRead` finds was flushed and not read.
  pub prefetched_upto :
      (s : Inv n q waking ws rs)
      → prefetched q ≡ true
      → (p : ℕ) × (length rs < p) × (p ≤ s.w) × (q.r_item ≡ slot s.chunk s.pos p)
  unfolding prefetched
  prefetched_upto s e =
      let (a, b) =
        and_parts (not (same_item (some (front_item q.queue)) q.r_item)) (not (is_null q.r_item))
          e in
      elim s.prefetch [
        | nothing z ↦ absurd (not-true-true (is_null q.r_item) b (ap is_null z))
        | upto p hp pw z ↦
            let ne : length rs ≢ p = λ e'.
              not-true-true (same_item (some (front_item q.queue)) q.r_item) a
                (eq→same_item _ _ (front_slot s ∙ ap (slot s.chunk s.pos) e' ∙ sym z)) in
            (p, omega arith, pw, z)
      ]

  -- The reader changes no more than its pointer and `contention_`.
  reader_moves :
      (s : Inv n q waking ws rs) (r c : Option (ℕ × ℕ))
      → Contact waking q.w_item c (slot s.chunk s.pos s.w) (length rs) s.w
      → Prefetch s.chunk s.pos r (length rs) s.w
      → Inv n (record q { r_item = r; contention = c }) waking ws rs
  reader_moves s r c contact prefetch = record {
    chunk = s.chunk;
    pos = s.pos;
    w = s.w;
    f = s.f;
    read_le = s.read_le;
    flushed_le = s.flushed_le;
    complete_le = s.complete_le;
    holds = s.holds;
    back = s.back;
    values = s.values;
    f_item = s.f_item;
    contact = contact;
    prefetch = prefetch;
    order = s.order;
  }

  prefetch_empty :
      (s : Inv n q waking ws rs) → q.contention ≡ none → Inv n (prefetch q) waking ws rs
  unfolding prefetch
  prefetch_empty s z =
      rw (ap (λ x. same_item x (some (front_item q.queue))) z)
        (reader_moves s q.contention q.contention s.contact (nothing z))

  prefetch-Inv : Inv n q waking ws rs → Inv n (prefetch q) waking ws rs
  unfolding prefetch
  prefetch-Inv s = elim s.contact [
    | sleeping a b z e ↦ prefetch_empty s z
    | woken a z e ↦ prefetch_empty s z
    | awake a b z ↦ elim (Bool-cases (same_item q.contention (some (front_item q.queue)))) [
      | inl y ↦
          let e =
            slot_eq s (length rs) s.w (omega arith)
              (omega (arith, s.read_le, s.flushed_le, s.complete_le)) s.read_le
              (omega (arith, s.flushed_le, s.complete_le))
              (sym (front_slot s) ∙ sym (same_item→eq _ _ y) ∙ z) in
          rw y (
            reader_moves s _ none (sleeping a b refl e)
              (upto (length rs) (omega arith) s.read_le (front_slot s)))
      | inr y ↦ rw y (reader_moves s _ q.contention s.contact (upto s.w s.read_le (omega arith) z))
    ]
  ]

  pub check_read-Inv : Inv n q waking ws rs → Inv n (check_read q).1 waking ws rs
  unfolding check_read
  check_read-Inv s = elim (Bool-cases (prefetched q)) [
    | inl e ↦ rw e s
    | inr e ↦ rw e (prefetch-Inv s)
  ]

  front_value :
      (s : Inv n q waking ws rs)
      → length rs < length ws
      → get_elem? ws (length rs) ≡ some (front q.queue)
  front_value s h =
      rw (s.holds.begin_chunk, s.holds.begin_pos) (s.values (length rs) (omega arith) h)

  pop-Inv :
      Inv n q waking ws rs
      → prefetched q ≡ true
      → Inv n (record q { queue = pop n q.queue }) waking ws (rs ++ front q.queue ∷ [])
  pop-Inv s e =
      let (p, hp, pw, z) = prefetched_upto s e in
      let len : length (rs ++ front q.queue ∷ []) ≡ suc (length rs) =
        omega (arith, length-append rs (front q.queue ∷ [])) in
      let lt : length rs < length ws = omega (arith, s.flushed_le, s.complete_le) in
      record {
        chunk = s.chunk;
        pos = s.pos;
        w = s.w;
        f = s.f;
        read_le = rw len (omega arith);
        flushed_le = s.flushed_le;
        complete_le = s.complete_le;
        holds = rw len (pop-Holds s.holds (omega arith));
        back = pop-BackAt n q.queue s.back;
        values = λ i hi it. rw (values-pop n q.queue) (s.values i (omega (arith, len)) it);
        f_item = s.f_item;
        contact = rw len (elim s.contact [
          | awake a b c ↦ awake a b c
          | sleeping a b c d ↦ absurd (omega arith)
          | woken a c d ↦ absurd (omega arith)
        ]);
        prefetch = rw len (upto p (omega arith) pw z);
        order = rw len (
            ap (λ t. t ++ front q.queue ∷ []) s.order
            ∙ sym (take_get (length rs) ws (front q.queue) (front_value s lt)));
      }

check_read_ready {ℓ} :
    {A : Type ℓ} (q : SpscQueue A) → (check_read q).0 ≡ true → prefetched (check_read q).1 ≡ true
unfolding check_read
check_read_ready q = elim (Bool-cases (prefetched q)) [
  | inl e ↦ rw e (λ h. e)
  | inr e ↦ rw e (λ h. h)
]

-- What `Read` returns, by what `CheckRead` returned.
pub read_item_ready {ℓ} :
    {A : Type ℓ} (n : ℕ) (q : SpscQueue A)
    → (check_read q).0 ≡ true
    → read_item n q ≡ (
      some (front (check_read q).1.queue),
      record (check_read q).1 { queue = pop n (check_read q).1.queue },
    )
unfolding read_item
read_item_ready n q e = rw e refl

pub read_item_empty {ℓ} :
    {A : Type ℓ} (n : ℕ) (q : SpscQueue A)
    → (check_read q).0 ≡ false
    → read_item n q ≡ (none, (check_read q).1)
unfolding read_item
read_item_empty n q e = rw e refl

-- A `Read` of an item.
pub read_some-Inv {ℓ} :
    {A : Type ℓ} {n : ℕ} {q : SpscQueue A} {waking : Bool} {ws rs : List A} (v : A)
    (q' : SpscQueue A)
    → Inv n q waking ws rs
    → read_item n q ≡ (some v, q')
    → Inv n q' waking ws (rs ++ v ∷ [])
read_some-Inv {n} {q} {waking} {ws} {rs} v q' s e = elim (Bool-cases (check_read q).0) [
  | inl r ↦
      let e' = sym (read_item_ready n q r) ∙ e in
      let ev : front (check_read q).1.queue ≡ v = cc in
      let eq : record (check_read q).1 { queue = pop n (check_read q).1.queue } ≡ q' =
        ap (λ x. x.1) e' in
      subst (λ x. Inv n x waking ws (rs ++ v ∷ [])) eq
        (subst
          (λ x.
            Inv n (record (check_read q).1 { queue = pop n (check_read q).1.queue }) waking ws
              (rs ++ x ∷ []))
          ev (pop-Inv (check_read-Inv s) (check_read_ready q r)))
  | inr r ↦ let e' = sym (read_item_empty n q r) ∙ e in absurd cc
]

-- A `Read` of none.
pub read_none-Inv {ℓ} :
    {A : Type ℓ} {n : ℕ} {q : SpscQueue A} {waking : Bool} {ws rs : List A} (q' : SpscQueue A)
    → Inv n q waking ws rs
    → read_item n q ≡ (none, q')
    → Inv n q' waking ws rs
read_none-Inv {n} {q} {waking} {ws} {rs} q' s e = elim (Bool-cases (check_read q).0) [
  | inl r ↦ let e' = sym (read_item_ready n q r) ∙ e in absurd cc
  | inr r ↦
      subst (λ x. Inv n x waking ws rs) (ap (λ x. x.1) (sym (read_item_empty n q r) ∙ e))
        (check_read-Inv s)
]
