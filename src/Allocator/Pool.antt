-- ===== src/Allocator/Pool.antt =====
-- The free lists of src/message_allocator.cpp hold messages of their sizes, and a message that is
-- allocated is large enough.
use flash_forwarder.Prelude.{
  ℕ, zero, suc, ◌+◌, ◌^◌, ◌<◌, ◌≡◌, refl, ap, subst, ◌∙◌, List, [], ◌∷◌, none, some, get_elem?, set,
  length, All, arith,
}
use flash_forwarder.Allocator.{Message, Allocator, put_free}

-- A message of the free list with this index.
pub record IsOf (index : ℕ) (msg : Message) : Type 0 where
  pub same_index : msg.index ≡ some index
  pub same_capacity : msg.capacity ≡ 2 ^ (6 + index)

abbrev pub Sorted : ℕ → List (List Message) → Type 0
Sorted index [] = Unit {0}
Sorted index (list ∷ lists) = All (IsOf index) list × Sorted (suc index) lists

pub record IsPool (a : Allocator) : Type 0 where
  pub count : length a.free_lists ≡ 18
  pub sorted : Sorted 0 a.free_lists

-- A message that came from the allocator: it is of one of the lists, or of none.
pub data IsKnown (msg : Message) : Type 0 where
  listed : (index : ℕ) → index < 18 → IsOf index msg → IsKnown msg
  unlisted : msg.index ≡ none → IsKnown msg

get_list :
    (lists : List (List Message)) (start i : ℕ)
    → Sorted start lists
    → i < length lists
    → (list : List Message) × (get_elem? lists i ≡ some list) × All (IsOf (i + start)) list
get_list [] start i s l = absurd (omega arith)
get_list (list ∷ lists) start zero s l =
    (list, refl, subst (λ n. All (IsOf n) list) {x = start} {y = 0 + start} (omega arith) s.0)
get_list (list ∷ lists) start (suc i) s l =
    let (found, e, a) = get_list lists (suc start) i s.1 (omega arith) in
    (
      found,
      e,
      subst (λ n. All (IsOf n) found) {x = i + suc start} {y = suc i + start} (omega arith) a,
    )

set_list :
    (lists : List (List Message)) (start i : ℕ) (list : List Message)
    → Sorted start lists
    → All (IsOf (i + start)) list
    → Sorted start (set lists i list) × (length (set lists i list) ≡ length lists)
set_list [] start i list s a = (tt, refl)
set_list (old ∷ lists) start zero list s a =
    ((subst (λ n. All (IsOf n) list) {x = 0 + start} {y = start} (omega arith) a, s.1), refl)
set_list (old ∷ lists) start (suc i) list s a =
    let (sorted, same) =
      set_list lists (suc start) i list s.1
        (subst (λ n. All (IsOf n) list) {x = suc i + start} {y = i + suc start} (omega arith) a) in
    ((s.0, sorted), ap suc same)

pub list_at :
    (a : Allocator) (index : ℕ)
    → IsPool a
    → index < 18
    → (list : List Message) × (get_elem? a.free_lists index ≡ some list) × All (IsOf index) list
list_at a index p l =
    let (list, e, all) = get_list a.free_lists 0 index p.sorted (omega (arith, p.count)) in
    (list, e, subst (λ n. All (IsOf n) list) {x = index + 0} {y = index} (omega arith) all)

pub replaced :
    (a : Allocator) (index : ℕ) (list : List Message)
    → IsPool a
    → All (IsOf index) list
    → IsPool (record a { free_lists = set a.free_lists index list })
replaced a index list p all =
    let (sorted, same) =
      set_list a.free_lists 0 index list p.sorted
        (subst (λ n. All (IsOf n) list) {x = index} {y = index + 0} (omega arith) all) in
    record { count = same ∙ p.count; sorted = sorted }

pub put_free-IsPool :
    (index : ℕ) (msg : Message) (a : Allocator)
    → IsPool a
    → index < 18
    → IsOf index msg
    → (a' : Allocator) × (put_free index msg a ≡ some a') × IsPool a'
unfolding put_free
put_free-IsPool index msg a p l m =
    let (list, e, all) = list_at a index p l in
    (
      record a { free_lists = set a.free_lists index (msg ∷ list) },
      rw (e, put_free) refl,
      replaced a index (msg ∷ list) p (m, all),
    )
