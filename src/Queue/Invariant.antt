-- ===== src/Queue/Invariant.antt =====
-- What holds of a SpscQueue (src/spsc_queue.hpp) between the steps of its two threads.
pub mod Reader
pub mod Writer
pub mod Flush
use flash_forwarder.Prelude.{
  ℕ, zero, suc, ◌+◌, ◌<◌, ◌≤◌, ◌≡◌, ◌≢◌, refl, sym, ap, ap₂, ◌∙◌, List, [], ◌∷◌, ◌++◌, Option, none,
  some, Bool, true, false, ◌&&◌, ◌==◌, length, take, get_elem?, ==→eq, eq→==, Bool-cases, arith,
}
use flash_forwarder.Queue.Batch.{BatchQueue, front_item, back_item}
use flash_forwarder.Queue.Spsc.{SpscQueue, same_item}
use flash_forwarder.Queue.Chain.{Chain, slot_inj}
use flash_forwarder.Queue.Holds.{Holds, BackAt}

-- A pointer to item `i`.
abbrev pub slot : (ℕ → ℕ) → (ℕ → ℕ) → ℕ → Option (ℕ × ℕ)
slot chunk pos i = some (chunk i, pos i)

-- The pointers of the writer and `contention_` when `h` items were read and `w` flushed: the reader is
-- awake; it sleeps and has read them all; or the writer is about to wake it.
pub data Contact (waking : Bool) (w_item contention to : Option (ℕ × ℕ)) (h w : ℕ) : Type 0 where
  awake : waking ≡ false → w_item ≡ to → contention ≡ to → Contact waking w_item contention to h w
  sleeping :
      waking ≡ false
      → w_item ≡ to
      → contention ≡ none
      → h ≡ w
      → Contact waking w_item contention to h w
  woken : waking ≡ true → contention ≡ none → h ≡ w → Contact waking w_item contention to h w

-- The items before `p` are prefetched.
pub data Prefetch (chunk pos : ℕ → ℕ) (r_item : Option (ℕ × ℕ)) (h w : ℕ) : Type 0 where
  nothing : r_item ≡ none → Prefetch chunk pos r_item h w
  upto : (p : ℕ) → h ≤ p → p ≤ w → r_item ≡ slot chunk pos p → Prefetch chunk pos r_item h w

-- `w` items are flushed and `f` complete; the values of those not read stand in their slots.
pub record Inv {ℓ} {A : Type ℓ} (n : ℕ) (q : SpscQueue A) (waking : Bool) (ws rs : List A)
    : Type ℓ where
  pub chunk : ℕ → ℕ
  pub pos : ℕ → ℕ
  pub w : ℕ
  pub f : ℕ
  pub read_le : length rs ≤ w
  pub flushed_le : w ≤ f
  pub complete_le : f ≤ length ws
  pub holds : Holds n chunk pos (length rs) (suc (length ws)) q.queue
  pub back : BackAt chunk pos (length ws) q.queue
  pub values :
      (i : ℕ)
      → length rs ≤ i
      → i < length ws
      → get_elem? ws i ≡ some (q.queue.values (chunk i) (pos i))
  pub f_item : q.f_item ≡ slot chunk pos f
  pub contact : Contact waking q.w_item q.contention (slot chunk pos w) (length rs) w
  pub prefetch : Prefetch chunk pos q.r_item (length rs) w
  pub order : rs ≡ take (length rs) ws

pub and_parts : (a b : Bool) → (a && b) ≡ true → (a ≡ true) × (b ≡ true)
and_parts true b e = (refl, e)
and_parts false b e = cc

pub same_item→eq : (x y : Option (ℕ × ℕ)) → same_item x y ≡ true → x ≡ y
same_item→eq none none e = refl
same_item→eq none (some y) e = cc
same_item→eq (some x) none e = cc
same_item→eq (some (a, b)) (some (c, d)) e =
    let (z, z') = and_parts (a == c) (b == d) e in
    ap₂ (λ s t. some (s, t)) (==→eq a c z) (==→eq b d z')

pub eq→same_item : (x y : Option (ℕ × ℕ)) → x ≡ y → same_item x y ≡ true
eq→same_item x none e = rw e refl
eq→same_item x (some (c, d)) e = rw (e, eq→== c c refl, eq→== d d refl) refl

module _ {ℓ} {A : Type ℓ} where
  pub get_append_left :
      (xs ys : List A) (i : ℕ) → i < length xs → get_elem? (xs ++ ys) i ≡ get_elem? xs i
  get_append_left [] ys i h = absurd (omega arith)
  get_append_left (x ∷ xs) ys zero h = refl
  get_append_left (x ∷ xs) ys (suc i) h = get_append_left xs ys i (omega arith)

  pub get_append_end : (xs : List A) (v : A) → get_elem? (xs ++ v ∷ []) (length xs) ≡ some v
  get_append_end [] v = refl
  get_append_end (x ∷ xs) v = get_append_end xs v

  pub get_take : (k : ℕ) (xs : List A) (i : ℕ) → i < k → get_elem? (take k xs) i ≡ get_elem? xs i
  get_take zero xs i h = absurd (omega arith)
  get_take (suc k) [] i h = refl
  get_take (suc k) (x ∷ xs) zero h = refl
  get_take (suc k) (x ∷ xs) (suc i) h = get_take k xs i (omega arith)

  pub take_get :
      (k : ℕ) (xs : List A) (v : A)
      → get_elem? xs k ≡ some v
      → take (suc k) xs ≡ take k xs ++ v ∷ []
  take_get k [] v e = cc
  take_get zero (x ∷ xs) v e = cc
  take_get (suc k) (x ∷ xs) v e = ap (λ t. x ∷ t) (take_get k xs v e)

  pub take-take : (j k : ℕ) (xs : List A) → j ≤ k → take j (take k xs) ≡ take j xs
  take-take zero k xs h = refl
  take-take (suc j) zero xs h = absurd (omega arith)
  take-take (suc j) (suc k) [] h = refl
  take-take (suc j) (suc k) (x ∷ xs) h = ap (λ t. x ∷ t) (take-take j k xs (omega arith))

module _ {ℓ} {A : Type ℓ} {n : ℕ} {q : SpscQueue A} {waking : Bool} {ws rs : List A} where
  pub front_slot :
      (s : Inv n q waking ws rs) → some (front_item q.queue) ≡ slot s.chunk s.pos (length rs)
  front_slot s = ap₂ (λ a b. some (a, b)) s.holds.begin_chunk s.holds.begin_pos

  pub back_slot :
      (s : Inv n q waking ws rs) → some (back_item q.queue) ≡ slot s.chunk s.pos (length ws)
  back_slot s = ap₂ (λ a b. some (a, b)) s.back.back_chunk s.back.back_pos

  -- Pointers to two items are the same only if the items are.
  pub slot_eq :
      (s : Inv n q waking ws rs) (i j : ℕ)
      → length rs ≤ i
      → i ≤ length ws
      → length rs ≤ j
      → j ≤ length ws
      → slot s.chunk s.pos i ≡ slot s.chunk s.pos j
      → i ≡ j
  slot_eq s i j hi it hj jt e =
      let same : s.chunk i ≡ s.chunk j = cc in
      let same' : s.pos i ≡ s.pos j = cc in
      slot_inj s.holds.chain i j hi (omega arith) hj (omega arith) same same'
