-- ===== src/Memory.antt =====
-- The class MemoryAllocator of src/memory_allocator.hpp. malloc and realloc do not fail; realloc keeps
-- the bytes up to the old capacity, and memset makes the others 0. `none` is an int that overflows.
pub mod Growth
mod Examples
use flash_forwarder.Prelude.{
  ℕ, zero, suc, ◌+◌, ◌-◌, ◌*◌, ◌/◌, List, [], ◌∷◌, ◌++◌, Option, none, some, ltb, if◌then◌else◌,
  ◌^◌,
}

-- `memory` is `none` for a null pointer.
pub record MemoryAllocator : Type 0 where
  pub capacity : ℕ
  pub memory : Option (List ℕ)

abbrev pub new_allocator : MemoryAllocator
new_allocator = record { capacity = 0; memory = none }

abbrev pub zeros : ℕ → List ℕ
zeros zero = []
zeros (suc n) = 0 ∷ zeros n

-- `capacity_ * 3 / 2`, or the capacity that is asked for.
abbrev pub larger : ℕ → ℕ → ℕ
larger capacity old = let size = old * 3 / 2 in if ltb size capacity then capacity else size

unfoldable pub grown : ℕ → ℕ → Option ℕ
grown capacity old = if ltb (old * 3) (2 ^ 31) then some (larger capacity old) else none

unfoldable pub ensure_in : ℕ → MemoryAllocator → Option (List ℕ) → Option MemoryAllocator
ensure_in capacity a none = some (record { capacity = capacity; memory = some (zeros capacity) })
ensure_in capacity a (some bytes) =
    if ltb a.capacity capacity
    then elim (grown capacity a.capacity) [
      | some size ↦
          some (record { capacity = size; memory = some (bytes ++ zeros (size - a.capacity)) })
      | none ↦ none
    ]
    else some a

unfoldable pub ensure : ℕ → MemoryAllocator → Option MemoryAllocator
ensure capacity a = ensure_in capacity a a.memory
