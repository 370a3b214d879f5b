-- ===== src/Allocator.antt =====
-- The class message_allocator_t of src/message_allocator.cpp. A capacity is an int that is not negative;
-- the bytes of a message stand aside. What the coming calls of `idle_queue_.Read` give is an argument.
-- `none` is an access outside `free_lists_`.
pub mod Smear
pub mod Pool
pub mod Allocate
mod Examples
use flash_forwarder.Prelude.{
  ℕ, zero, suc, ◌+◌, ◌-◌, ◌*◌, ◌/◌, ◌%◌, ◌^◌, bit_or, List, [], ◌∷◌, Option, none, some, Bool, ltb,
  if◌then◌else◌, get_elem?, set,
}

abbrev pub allocate_start : ℕ
allocate_start = 5

abbrev pub allocate_stop : ℕ
allocate_stop = 22

-- `index` is `none` for -1.
pub record Message : Type 0 where
  pub address : ℕ
  pub index : Option ℕ
  pub capacity : ℕ
  pub size : ℕ
  pub id : ℕ
  pub timestamp : ℕ

-- A new message after `Init`.
unfoldable pub new_message : ℕ → Option ℕ → ℕ → Message
new_message address index capacity = record {
  address = address;
  index = index;
  capacity = capacity;
  size = 0;
  id = 0;
  timestamp = 0;
}

unfoldable pub clear : Message → Message
clear msg = record msg { size = 0; timestamp = 0; id = 0 }

-- The lists that `next_` links.
pub record Allocator : Type 0 where
  pub enable_recycle : Bool
  pub free_lists : List (List Message)

-- `v |= v >> 1` and so on.
unfoldable pub smear : ℕ → ℕ
smear v =
    let v1 = bit_or v (v / 2 ^ 1) in
    let v2 = bit_or v1 (v1 / 2 ^ 2) in
    let v4 = bit_or v2 (v2 / 2 ^ 4) in let v8 = bit_or v4 (v4 / 2 ^ 8) in bit_or v8 (v8 / 2 ^ 16)

abbrev pub bit_position : List ℕ
bit_position =
    0 ∷ 9 ∷ 1 ∷ 10 ∷ 13 ∷ 21 ∷ 2 ∷ 29 ∷ 11 ∷ 14 ∷ 16 ∷ 18 ∷ 22 ∷ 25 ∷ 3 ∷ 30 ∷ 8 ∷ 12 ∷ 20 ∷ 28 ∷ 15
    ∷ 17 ∷ 24 ∷ 7 ∷ 19 ∷ 27 ∷ 23 ∷ 6 ∷ 26 ∷ 5 ∷ 4 ∷ 31 ∷ []

unfoldable pub position_of : ℕ → Option ℕ
position_of v = get_elem? bit_position (v * 0x07C4ACDD % 2 ^ 32 / 2 ^ 27)

abbrev pub above_start : ℕ → ℕ
above_start position = if ltb allocate_start position then position - allocate_start else 0

unfoldable pub put_free : ℕ → Message → Allocator → Option Allocator
put_free index msg a = elim (get_elem? a.free_lists index) [
  | some list ↦ some (record a { free_lists = set a.free_lists index (msg ∷ list) })
  | none ↦ none
]

unfoldable pub consume_all : List Message → Allocator → Option Allocator
consume_all [] a = some a
consume_all (msg ∷ msgs) a = elim msg.index [
  | some index ↦ elim (put_free index msg a) [ some a' ↦ consume_all msgs a' | none ↦ none ]
  | none ↦ none
]

unfoldable pub consume_idle_queue : List Message → Allocator → Option Allocator
consume_idle_queue idle a = if a.enable_recycle then consume_all idle a else some a

-- A message of the free list, or a new one at the address that `new` gives.
unfoldable pub take_free : ℕ → ℕ → List Message → Allocator → Message × Allocator
take_free address index (msg ∷ list) a =
    (msg, record a { free_lists = set a.free_lists index list })
take_free address index [] a =
    (new_message address (some index) (2 ^ (allocate_start + index + 1)), a)

unfoldable pub allocate_again : ℕ → ℕ → Option Allocator → Option (Message × Allocator)
allocate_again address index none = none
allocate_again address index (some a) = elim (get_elem? a.free_lists index) [
  | some list ↦ some (take_free address index list a)
  | none ↦ none
]

unfoldable pub allocate_at : ℕ → List Message → ℕ → Allocator → Option (Message × Allocator)
allocate_at address idle index a = elim (get_elem? a.free_lists index) [
  | some (msg ∷ list) ↦ some (take_free address index (msg ∷ list) a)
  | some [] ↦ allocate_again address index (consume_idle_queue idle a)
  | none ↦ none
]

unfoldable pub allocate : ℕ → List Message → ℕ → Allocator → Option (Message × Allocator)
allocate address idle capacity a =
    if ltb (2 ^ allocate_stop) capacity
    then some (new_message address none capacity, a)
    else elim (position_of (smear capacity)) [
      | some position ↦ allocate_at address idle (above_start position) a
      | none ↦ none
    ]

unfoldable pub release : Message → Allocator → Option Allocator
release msg a = elim msg.index [ some index ↦ put_free index (clear msg) a | none ↦ some a ]

-- What `Recycle` writes to the idle queue, if it does not delete the message.
unfoldable pub recycle : Message → Option Message
recycle msg = elim msg.index [ some index ↦ some msg | none ↦ none ]
