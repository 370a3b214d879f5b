-- ===== src/Allocator/Allocate.antt =====
-- What Allocate and Release of src/message_allocator.cpp promise.
use flash_forwarder.Prelude.{
  ℕ, zero, suc, ◌+◌, ◌-◌, ◌^◌, ◌≤◌, ◌<◌, ◌≡◌, inl, inr, refl, ap, ◌∙◌, List, [], ◌∷◌, none, some,
  ltb, get_elem?, All, Bool-cases, ltb→lt, ltb_false→le, arith,
}
use native.Mathlib.Nat.{pow-suc}
use flash_forwarder.Allocator.{
  allocate_start, allocate_stop, Message, new_message, clear, Allocator, smear, position_of,
  above_start, consume_all, consume_idle_queue, take_free, allocate_again, allocate_at, allocate,
  release,
}
use flash_forwarder.Allocator.Smear.{position_of-smear}
use flash_forwarder.Allocator.Pool.{
  IsOf, IsOf, IsPool, IsKnown, listed, unlisted, list_at, replaced, put_free-IsPool,
}

pow_le : (k n : ℕ) → k ≤ n → 2 ^ k ≤ 2 ^ n
pow_le k zero l = ap_le k (omega arith)
  where
    ap_le : (k : ℕ) → k ≡ 0 → 2 ^ k ≤ 2 ^ 0
    ap_le k e = rw e (omega arith)
pow_le k (suc n) l = elim (Bool-cases (ltb k (suc n))) [
  | inl less ↦ omega (arith, pow_le k n (omega (arith, ltb→lt k (suc n) less)), pow-suc 2 n)
  | inr more ↦
      let same : k ≡ suc n = omega (arith, ltb_false→le k (suc n) more) in rw same (omega arith)
]

no_bit : position_of (smear 0) ≡ some 0
unfolding position_of smear
no_bit = refl

-- The free list of a capacity that is cached.
list_of :
    (capacity : ℕ)
    → capacity ≤ 2 ^ 22
    → (k : ℕ) × (position_of (smear capacity) ≡ some k)
      × (above_start k < 18)
      × (capacity ≤ 2 ^ (6 + above_start k))
list_of zero l = (0, no_bit, omega arith, omega arith)
list_of (suc c) l =
    let (k, low, high, e) = position_of-smear (suc c) (omega arith) (omega arith) in
    elim (Bool-cases (ltb 22 k)) [
      | inl large ↦ absurd (omega (arith, pow_le 23 k (omega (arith, ltb→lt 22 k large))))
      | inr small ↦ elim (Bool-cases (ltb 5 k)) [
        | inl above ↦ (
          k,
          e,
          rw above (omega (arith, ltb_false→le 22 k small, ltb→lt 5 k above)),
          rw above (omega (arith, pow_le (suc k) (6 + (k - 5)) (omega (arith, ltb→lt 5 k above)))),
        )
        | inr below ↦ (
          k,
          e,
          rw below (omega arith),
          rw below (omega (arith, pow_le (suc k) 6 (omega (arith, ltb_false→le 5 k below)))),
        )
      ]
    ]

abbrev pub IsListed : Message → Type 0
IsListed msg = (index : ℕ) × (index < 18) × IsOf index msg

consume_all-IsPool :
    (msgs : List Message) (a : Allocator)
    → IsPool a
    → All IsListed msgs
    → (a' : Allocator) × (consume_all msgs a ≡ some a') × IsPool a'
unfolding consume_all
consume_all-IsPool [] a p all = (a, refl, p)
consume_all-IsPool (msg ∷ msgs) a p ((index, l, m), all) =
    let (a', e, p') = put_free-IsPool index msg a p l m in
    let (a'', f, p'') = consume_all-IsPool msgs a' p' all in
    (a'', rw (m.same_index, consume_all) (rw (e, consume_all) f), p'')

consume_idle_queue-IsPool :
    (idle : List Message) (a : Allocator)
    → IsPool a
    → All IsListed idle
    → (a' : Allocator) × (consume_idle_queue idle a ≡ some a') × IsPool a'
unfolding consume_idle_queue
consume_idle_queue-IsPool idle a p all = elim (Bool-cases a.enable_recycle) [
  | inl e ↦ simp e (consume_all-IsPool idle a p all)
  | inr e ↦ simp e (a, refl, p)
]

-- A message that was allocated with this capacity, and the allocator behind it.
pub record IsAllocated (capacity : ℕ) (msg : Message) (a : Allocator) : Type 0 where
  pub large : capacity ≤ msg.capacity
  pub known : IsKnown msg
  pub pool : IsPool a

take_free-IsAllocated :
    (address index : ℕ) (list : List Message) (a : Allocator) (capacity : ℕ)
    → IsPool a
    → index < 18
    → All (IsOf index) list
    → capacity ≤ 2 ^ (6 + index)
    → let r = take_free address index list a in IsAllocated capacity r.0 r.1
unfolding take_free new_message
take_free-IsAllocated address index (msg ∷ list) a capacity p l all fits = record {
  large = omega (arith, all.0.same_capacity);
  known = listed index l all.0;
  pool = replaced a index list p all.1;
}
take_free-IsAllocated address index [] a capacity p l all fits =
    let same : 2 ^ (allocate_start + index + 1) ≡ 2 ^ (6 + index) =
      ap (λ (n : ℕ). 2 ^ n) {x = allocate_start + index + 1} {y = 6 + index} (omega arith) in
    record {
      large = omega (arith, same);
      known = listed index l (record { same_index = refl; same_capacity = same });
      pool = p;
    }

allocate_again-IsAllocated :
    (address index : ℕ) (a : Allocator) (capacity : ℕ)
    → IsPool a
    → index < 18
    → capacity ≤ 2 ^ (6 + index)
    → (msg : Message) × (a' : Allocator) × (allocate_again address index (some a) ≡ some (msg, a'))
      × IsAllocated capacity msg a'
unfolding allocate_again
allocate_again-IsAllocated address index a capacity p l fits =
    let (list, e, all) = list_at a index p l in
    let r = take_free address index list a in
    (
      r.0,
      r.1,
      rw (e, allocate_again) refl,
      take_free-IsAllocated address index list a capacity p l all fits,
    )

allocate_at-IsAllocated :
    (address index : ℕ) (idle : List Message) (a : Allocator) (capacity : ℕ)
    → IsPool a
    → All IsListed idle
    → index < 18
    → capacity ≤ 2 ^ (6 + index)
    → (msg : Message) × (a' : Allocator) × (allocate_at address idle index a ≡ some (msg, a'))
      × IsAllocated capacity msg a'
unfolding allocate_at
allocate_at-IsAllocated address index idle a capacity p waiting l fits =
    let (list, e, all) = list_at a index p l in at_list list e all
  where
    at_list :
        (list : List Message)
        → get_elem? a.free_lists index ≡ some list
        → All (IsOf index) list
        → (msg : Message) × (a' : Allocator) × (allocate_at address idle index a ≡ some (msg, a'))
          × IsAllocated capacity msg a'
    at_list (msg ∷ list) e all =
        let r = take_free address index (msg ∷ list) a in
        (
          r.0,
          r.1,
          rw (e, allocate_at) refl,
          take_free-IsAllocated address index (msg ∷ list) a capacity p l all fits,
        )
    at_list [] e all =
        let (a', f, p') = consume_idle_queue-IsPool idle a p waiting in
        let (msg, a'', g, done) = allocate_again-IsAllocated address index a' capacity p' l fits in
        (msg, a'', rw (e, allocate_at) (ap (allocate_again address index) f ∙ g), done)

release-IsPool :
    (msg : Message) (a : Allocator)
    → IsKnown msg
    → IsPool a
    → (a' : Allocator) × (release msg a ≡ some a') × IsPool a'
unfolding release clear
release-IsPool msg a (unlisted e) p = (a, rw (e, release) refl, p)
release-IsPool msg a (listed index l m) p =
    let cleared : IsOf index (clear msg) = record {
      same_index = m.same_index;
      same_capacity = m.same_capacity;
    } in
    let (a', e, p') = put_free-IsPool index (clear msg) a p l cleared in
    (a', rw (m.same_index, release) e, p')

allocate-IsAllocated :
    (address : ℕ) (idle : List Message) (capacity : ℕ) (a : Allocator)
    → IsPool a
    → All IsListed idle
    → (msg : Message) × (a' : Allocator) × (allocate address idle capacity a ≡ some (msg, a'))
      × IsAllocated capacity msg a'
unfolding allocate new_message
allocate-IsAllocated address idle capacity a p waiting =
    elim (Bool-cases (ltb (2 ^ allocate_stop) capacity)) [
      | inl big ↦ (
        new_message address none capacity,
        a,
        rw big refl,
        record { large = omega arith; known = unlisted refl; pool = p },
      )
      | inr small ↦
          let (k, e, l, fits) = list_of capacity (ltb_false→le (2 ^ 22) capacity small) in
          let (msg, a', f, done) =
            allocate_at-IsAllocated address (above_start k) idle a capacity p waiting l fits in
          (msg, a', rw (small, e, allocate) f, done)
    ]

-- An allocator with 18 free lists, in which each message has the index of its list and the capacity of
-- 2 to the power of 6 and the index; what waits in the idle queue has an index below 18 and that
-- capacity. Release of a message that the allocator gave, then Allocate, of any capacity that is not
-- negative: no access is outside the lists, the message that is allocated has the capacity asked for at
-- least and may be released, and the allocator is such an allocator still.
pub allocate-release :
    (address : ℕ) (idle : List Message) (capacity : ℕ) (a : Allocator) (old : Message)
    → IsPool a
    → All IsListed idle
    → IsKnown old
    → (a' : Allocator) × (release old a ≡ some a')
      × (msg : Message) × (a'' : Allocator) × (allocate address idle capacity a' ≡ some (msg, a''))
      × IsAllocated capacity msg a''
allocate-release address idle capacity a old p waiting known =
    let (a', e, p') = release-IsPool old a known p in
    let (msg, a'', f, done) = allocate-IsAllocated address idle capacity a' p' waiting in
    (a', e, msg, a'', f, done)
