-- ===== src/Memory/Growth.antt =====
-- What Ensure of src/memory_allocator.hpp promises.
use flash_forwarder.Prelude.{
  ℕ, zero, suc, ◌+◌, ◌-◌, ◌*◌, ◌/◌, ◌≤◌, ◌<◌, ◌≡◌, ◌⊎◌, inl, inr, refl, sym, ap, ◌∙◌, List, [],
  ◌++◌, Option, none, some, ltb, length, Bool-cases, ltb→lt, lt→ltb, ltb_false→le, ◌^◌, append-nil,
  length-append, arith,
}
use flash_forwarder.Memory.{MemoryAllocator, zeros, larger, grown, ensure_in, ensure}

-- The memory has as many bytes as the capacity says.
abbrev pub bytes_of : Option (List ℕ) → List ℕ
bytes_of none = []
bytes_of (some bytes) = bytes

abbrev pub IsSized : MemoryAllocator → Type 0
IsSized a = length (bytes_of a.memory) ≡ a.capacity

length-zeros : (n : ℕ) → length (zeros n) ≡ n
length-zeros zero = refl
length-zeros (suc n) = ap suc (length-zeros n)

larger_le :
    (c old : ℕ)
    → old < c
    → old * 3 < 2 ^ 31
    → c < 2 ^ 31
    → (c ≤ larger c old)
      × (old ≤ larger c old)
      × (3 * old ≤ 2 * larger c old + 1)
      × (larger c old < 2 ^ 31)
larger_le c old h o l = elim (Bool-cases (ltb (old * 3 / 2) c)) [
  | inl e ↦ rw e (omega (arith, ltb→lt (old * 3 / 2) c e))
  | inr e ↦ rw e (ground (arith, ltb_false→le (old * 3 / 2) c e))
]

-- What an allocator holds after `Ensure` of a capacity: `grew` is by half at least, rounded down.
pub record IsEnsured (capacity : ℕ) (a a' : MemoryAllocator) : Type 0 where
  pub extra : ℕ
  pub memory : a'.memory ≡ some (bytes_of a.memory ++ zeros extra)
  pub sized : IsSized a'
  pub enough : capacity ≤ a'.capacity
  pub bound : a'.capacity < 2 ^ 31
  pub grew : (a'.capacity ≡ a.capacity) ⊎ (3 * a.capacity ≤ 2 * a'.capacity + 1)

-- On an allocator whose memory is as large as its capacity says, with a capacity below 715827883,
-- asked for one that is an int: no int overflows; afterwards the memory is as large as the capacity
-- says again, there is memory, it has the bytes asked for at least, it starts with what it had, the
-- others are 0; and when it grew at all it grew by half at least, rounded down.
pub ensure-IsSized :
    (capacity : ℕ) (a : MemoryAllocator)
    → IsSized a
    → a.capacity < 715827883
    → capacity < 2 ^ 31
    → (a' : MemoryAllocator) × (ensure capacity a ≡ some a') × IsEnsured capacity a a'
unfolding ensure ensure_in grown
ensure-IsSized capacity a sized small int = in_memory a.memory refl
  where
    in_memory :
        (m : Option (List ℕ))
        → a.memory ≡ m
        → (a' : MemoryAllocator) × (ensure_in capacity a m ≡ some a') × IsEnsured capacity a a'
    in_memory none e =
        let empty : 0 ≡ a.capacity = ap (λ m. length (bytes_of m)) (sym e) ∙ sized in
        (
          record { capacity = capacity; memory = some (zeros capacity) },
          refl,
          record {
            extra = capacity;
            memory = ap (λ m. some (bytes_of m ++ zeros capacity)) (sym e);
            sized = length-zeros capacity;
            enough = omega arith;
            bound = int;
            grew = inr (omega arith);
          },
        )
    in_memory (some bytes) e =
        let full : length bytes ≡ a.capacity = ap (λ m. length (bytes_of m)) (sym e) ∙ sized in
        let g = larger capacity a.capacity in
        elim (Bool-cases (ltb a.capacity capacity)) [
          | inl more ↦
              let (x, y, z, b) =
                larger_le capacity a.capacity (ltb→lt a.capacity capacity more) (omega arith) int in
              (
                record { capacity = g; memory = some (bytes ++ zeros (g - a.capacity)) },
                rw more (rw (lt→ltb (a.capacity * 3) (2 ^ 31) (omega arith)) refl),
                record {
                  extra = g - a.capacity;
                  memory = ap (λ m. some (bytes_of m ++ zeros (g - a.capacity))) (sym e);
                  sized =
                      length-append bytes (zeros (g - a.capacity))
                      ∙ omega (arith, length-zeros (g - a.capacity));
                  enough = x;
                  bound = b;
                  grew = inr z;
                },
              )
          | inr enough ↦ (
            a,
            rw enough refl,
            record {
              extra = 0;
              memory =
                  e ∙ ap (λ m. some m) (ap bytes_of (sym e) ∙ sym (append-nil (bytes_of a.memory)));
              sized = sized;
              enough = ltb_false→le a.capacity capacity enough;
              bound = omega arith;
              grew = inl refl;
            },
          )
        ]
