-- ===== src/Memory/Examples.antt =====
-- An allocator that grows, and its theorem at a concrete input.
use flash_forwarder.Prelude.{◌≡◌, refl, [], ◌∷◌, some, none, arith}
use flash_forwarder.Memory.{MemoryAllocator, grown, ensure_in, ensure}
use flash_forwarder.Memory.Growth.{IsEnsured, ensure-IsSized}

abbrev four : MemoryAllocator
four = record { capacity = 4; memory = some (1 ∷ 2 ∷ 3 ∷ 4 ∷ []) }

grows_by_half :
    ensure 5 four ≡ some (record { capacity = 6; memory = some (1 ∷ 2 ∷ 3 ∷ 4 ∷ 0 ∷ 0 ∷ []) })
unfolding ensure ensure_in grown
grows_by_half = refl

-- From a capacity of 715827883 on, its triple is no int.
overflows : grown 715827884 715827883 ≡ none
unfolding grown
overflows = refl

ensure-IsSized_example : (a' : MemoryAllocator) × (ensure 5 four ≡ some a') × IsEnsured 5 four a'
ensure-IsSized_example = ensure-IsSized 5 four refl (omega arith) (omega arith)
