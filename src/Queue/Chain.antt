-- ===== src/Queue/Chain.antt =====
-- The slots of a BatchQueue (src/spsc_queue.hpp) in the order of its items: item i stands at position
-- `pos i` of the chunk `chunk i`.
pub mod Extend
pub mod Release
use flash_forwarder.Prelude.{
  ℕ, suc, ◌+◌, ◌-◌, ◌<◌, ◌≤◌, ◌≡◌, ◌≢◌, ◌⊎◌, inl, inr, refl, sym, ap, ◌∙◌, Bool, true, false, ◌==◌,
  Bool-cases, ne→==_false, eq→==, arith,
}
use flash_forwarder.Queue.Batch.{update, freed}

pub update-eq {ℓ} : {A : Type ℓ} (k : ℕ) (v : A) (f : ℕ → A) → update k v f k ≡ v
update-eq k v f = rw (eq→== k k refl) refl

pub update-ne {ℓ} : {A : Type ℓ} (k : ℕ) (v : A) (f : ℕ → A) (i : ℕ) → i ≢ k → update k v f i ≡ f i
update-ne k v f i h = rw (ne→==_false i k h) refl

-- From slot `(c, p)` to the next one, in the same chunk or in the chunk that is linked with it.
pub data Next (n : ℕ) (next prev : ℕ → ℕ) (c p c' p' : ℕ) : Type 0 where
  within : suc p < n → c' ≡ c → p' ≡ suc p → Next n next prev c p c' p'
  across : suc p ≡ n → p' ≡ 0 → next c ≡ c' → prev c' ≡ c → Next n next prev c p c' p'

-- The slots of the items from `h` to `t`: no two are the same, their chunks are live and linked, and
-- the spare chunk is none of them.
pub record Chain (n : ℕ) (chunk pos next prev : ℕ → ℕ) (live : ℕ → Bool) (spare h t : ℕ)
    : Type 0 where
  pub bound : (i : ℕ) → h ≤ i → i ≤ t → pos i < n
  pub order : (i j : ℕ) → h ≤ i → i ≤ j → j ≤ t → chunk i ≡ chunk j → pos j ≡ pos i + (j - i)
  pub linked :
      (i : ℕ) → h ≤ i → i < t → Next n next prev (chunk i) (pos i) (chunk (suc i)) (pos (suc i))
  pub alive : (i : ℕ) → h ≤ i → i ≤ t → live (chunk i) ≡ true
  pub real : (i : ℕ) → h ≤ i → i ≤ t → chunk i ≢ 0
  pub apart : (i : ℕ) → h ≤ i → i ≤ t → chunk i ≢ spare
  pub kept : spare ≢ 0 → live spare ≡ true

le_either : (i j : ℕ) → (i ≤ j) ⊎ (j ≤ i)
le_either i j = omega arith

module _ {n : ℕ} {chunk pos next prev : ℕ → ℕ} {live : ℕ → Bool} {spare h t : ℕ} where
  -- Two slots of the chain that are the same have the same item.
  pub slot_inj :
      Chain n chunk pos next prev live spare h t
      → (i j : ℕ) → h ≤ i
      → i ≤ t
      → h ≤ j
      → j ≤ t
      → chunk i ≡ chunk j
      → pos i ≡ pos j
      → i ≡ j
  slot_inj s i j hi it hj jt e e' = elim (le_either i j) [
    | inl le ↦ omega (arith, s.order i j hi le jt e)
    | inr le ↦ omega (arith, s.order j i hj le it (sym e))
  ]

  -- A chunk that ends with item `k` holds no later one.
  pub left_chunk :
      Chain n chunk pos next prev live spare h t
      → (k i : ℕ) → h ≤ k
      → k < i
      → i ≤ t
      → suc (pos k) ≡ n
      → chunk i ≢ chunk k
  left_chunk s k i hk ki it e c =
      omega (arith, s.order k i hk (omega arith) it (sym c), s.bound i (omega arith) it)

  -- A chunk that starts with item `k` holds no earlier one.
  pub new_chunk :
      Chain n chunk pos next prev live spare h t
      → (k i : ℕ) → h ≤ i
      → i < k
      → k ≤ t
      → pos k ≡ 0
      → chunk i ≢ chunk k
  new_chunk s k i hi ik kt e c = omega (arith, s.order i k hi (omega arith) kt c)
