-- ===== src/Compressor/PresenceMap.antt =====
-- The bits of the pmap that a template writes.
use flash_forwarder.Prelude.{
  ℕ, ◌+◌, ◌%◌, ◌^◌, ◌<◌, ◌≤◌, ◌≡◌, ◌≢◌, refl, ap, ◌∙◌, List, not, ◌==◌, length, bit_and, Bool-cases,
  inl, inr, ne→==_false, eq→==, arith,
}
use flash_forwarder.Prelude.Bits.{or-lt}
use flash_forwarder.Compressor.Fields.{Field}
use flash_forwarder.Compressor.Template.{FieldInstruction}
use flash_forwarder.Compressor.Full.{set_pmap-bits}
use flash_forwarder.Compressor.Step.{sent}
use flash_forwarder.Compressor.Rows.{next_pmap, all_pmap, AllServe, nil, row, Marks}

next_pmap-other :
    (i k : ℕ) (ins : FieldInstruction) (f c : Field) (pm : ℕ)
    → i < 32
    → k ≢ i
    → bit_and (next_pmap i ins f c pm) (2 ^ k) ≡ bit_and pm (2 ^ k)
next_pmap-other i k ins f c pm h ne = elim (Bool-cases (sent ins f c)) [
  | inl s ↦ rw s ((set_pmap-bits i pm h).1 k ne)
  | inr u ↦ rw u refl
]

next_pmap_self :
    (i : ℕ) (ins : FieldInstruction) (f c : Field) (pm : ℕ)
    → i < 32
    → bit_and pm (2 ^ i) ≡ 0
    → (bit_and (next_pmap i ins f c pm) (2 ^ i) == 0) ≡ not (sent ins f c)
next_pmap_self i ins f c pm l h = elim (Bool-cases (sent ins f c)) [
  | inl s ↦ rw s (ne→==_false _ _ (set_pmap-bits i pm l).0)
  | inr u ↦ rw u (eq→== _ _ h)
]

-- Fields from place `i` on leave the bits below.
all_pmap-below :
    {i : ℕ} {is : List FieldInstruction} {fs cs os : List Field}
    → AllServe i is fs cs os
    → (k pm : ℕ) → i + length is ≤ 32
    → k < i
    → bit_and (all_pmap i is fs cs pm) (2 ^ k) ≡ bit_and pm (2 ^ k)
all_pmap-below nil k pm l h = refl
all_pmap-below (row {i} {ins} {f = f} {c = c} a as') k pm l h =
    all_pmap-below as' k (next_pmap i ins f c pm) (omega arith) (omega arith)
    ∙ next_pmap-other i k ins f c pm (omega arith) (λ e. absurd (omega arith))

-- And the bits above.
pub all_pmap-above :
    {i : ℕ} {is : List FieldInstruction} {fs cs os : List Field}
    → AllServe i is fs cs os
    → (k pm : ℕ) → i + length is ≤ 32
    → i + length is ≤ k
    → bit_and (all_pmap i is fs cs pm) (2 ^ k) ≡ bit_and pm (2 ^ k)
all_pmap-above nil k pm l h = refl
all_pmap-above (row {i} {ins} {f = f} {c = c} a as') k pm l h =
    all_pmap-above as' k (next_pmap i ins f c pm) (omega arith) (omega arith)
    ∙ next_pmap-other i k ins f c pm (omega arith) (λ e. absurd (omega arith))

-- The pmap marks just the fields that are sent.
pub all_pmap-Marks :
    {i : ℕ} {is : List FieldInstruction} {fs cs os : List Field}
    → AllServe i is fs cs os
    → (pm : ℕ) → i + length is ≤ 32
    → ((k : ℕ) → i ≤ k → bit_and pm (2 ^ k) ≡ 0)
    → Marks (all_pmap i is fs cs pm) i is fs cs
all_pmap-Marks nil pm l h = tt
all_pmap-Marks (row {i} {ins} {f = f} {c = c} a as') pm l h =
    let pm' = next_pmap i ins f c pm in
    (
      ap (λ t. t == 0) (all_pmap-below as' i pm' (omega arith) (omega arith))
          ∙ next_pmap_self i ins f c pm (omega arith) (h i (omega arith)),
      all_pmap-Marks as' pm' (omega arith) (λ k le.
          next_pmap-other i k ins f c pm (omega arith) (λ e. absurd (omega arith))
          ∙ h k (omega arith)),
    )

pub all_pmap-lt :
    {i : ℕ} {is : List FieldInstruction} {fs cs os : List Field}
    → AllServe i is fs cs os
    → (pm : ℕ) → pm < 2 ^ 32
    → all_pmap i is fs cs pm < 2 ^ 32
all_pmap-lt nil pm p = p
all_pmap-lt (row {i} {ins} {f = f} {c = c} a as') pm p =
    all_pmap-lt as' (next_pmap i ins f c pm) (elim (Bool-cases (sent ins f c)) [
      | inl s ↦ rw s (or-lt 32 pm (2 ^ i % 2 ^ 32) p (omega arith))
      | inr u ↦ rw u p
    ])
