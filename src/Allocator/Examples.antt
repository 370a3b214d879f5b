-- ===== src/Allocator/Examples.antt =====
-- An allocator at work, and its theorem at a concrete input.
use flash_forwarder.Prelude.{◌-◌, ◌^◌, ◌≡◌, refl, [], ◌∷◌, some, true, arith}
use flash_forwarder.Allocator.{Message, Allocator, smear, position_of, allocate, release}
use flash_forwarder.Allocator.Pool.{IsPool, IsKnown, listed}
use flash_forwarder.Allocator.Allocate.{IsAllocated, allocate-release}

abbrev fresh_allocator : Allocator
fresh_allocator = record {
  enable_recycle = true;
  free_lists =
      [] ∷ [] ∷ [] ∷ [] ∷ [] ∷ [] ∷ [] ∷ [] ∷ [] ∷ [] ∷ [] ∷ [] ∷ [] ∷ [] ∷ [] ∷ [] ∷ [] ∷ [] ∷ [];
}

fresh_allocator-IsPool : IsPool fresh_allocator
fresh_allocator-IsPool = record {
  count = refl;
  sorted = (
    tt,
    (
      tt,
      (
        tt,
        (
          tt,
          (tt, (tt, (tt, (tt, (tt, (tt, (tt, (tt, (tt, (tt, (tt, (tt, (tt, (tt, tt)))))))))))))),
        ),
      ),
    ),
  );
}

-- A message of 128 bytes.
abbrev old_message : Message
old_message = record {
  address = 9;
  index = some 1;
  capacity = 128;
  size = 3;
  id = 0;
  timestamp = 5;
}

old_message-IsKnown : IsKnown old_message
old_message-IsKnown = listed 1 (omega arith) (record { same_index = refl; same_capacity = refl })

allocate-release_example :
    (a' : Allocator) × (release old_message fresh_allocator ≡ some a')
    × (msg : Message) × (a'' : Allocator) × (allocate 77 [] 100 a' ≡ some (msg, a''))
    × IsAllocated 100 msg a''
allocate-release_example =
    allocate-release 77 [] 100 fresh_allocator old_message fresh_allocator-IsPool tt
      old_message-IsKnown

-- The highest bit of -1 as a uint32_t, beyond the free lists.
position_of_negative : position_of (smear (2 ^ 32 - 1)) ≡ some 31
unfolding position_of smear
position_of_negative = refl
