-- ===== src/Queue/Chain/Release.antt =====
-- The slots of a BatchQueue (src/spsc_queue.hpp) without the first or without the last item.
use flash_forwarder.Prelude.{
  ℕ, suc, ◌<◌, ◌≤◌, ◌≡◌, ◌≢◌, inl, inr, sym, ◌∙◌, Bool, true, false, ◌==◌, Bool-cases, arith,
}
use flash_forwarder.Queue.Batch.{update, freed}
use flash_forwarder.Queue.Chain.{update-ne, Next, within, across, Chain, left_chunk, new_chunk}

pub freed-keep :
    (spare x : ℕ) (live : ℕ → Bool) → x ≢ spare → live x ≡ true → freed spare live x ≡ true
freed-keep spare x live h e = elim (Bool-cases (spare == 0)) [
  | inl z ↦ rw z e
  | inr z ↦ rw z (update-ne spare false live x h ∙ e)
]

module _ {n : ℕ} {chunk pos next prev : ℕ → ℕ} {live : ℕ → Bool} {spare h t : ℕ} where
  -- The chain without its first item.
  pub drop_first :
      Chain n chunk pos next prev live spare h t → Chain n chunk pos next prev live spare (suc h) t
  drop_first s = record {
    bound = λ i hi it. s.bound i (omega arith) it;
    order = λ i j hi ij jt e. s.order i j (omega arith) ij jt e;
    linked = λ i hi it. s.linked i (omega arith) it;
    alive = λ i hi it. s.alive i (omega arith) it;
    real = λ i hi it. s.real i (omega arith) it;
    apart = λ i hi it. s.apart i (omega arith) it;
    kept = s.kept;
  }

  -- The chain without its first item when its chunk becomes the spare one.
  pub release_first :
      Chain n chunk pos next prev live spare h t
      → h < t
      → suc (pos h) ≡ n
      → Chain n chunk pos next
          (update (chunk (suc h)) 0 prev)
          (freed spare live)
          (chunk h)
          (suc h)
          t
  release_first s ht full = record {
    bound = λ i hi it. s.bound i (omega arith) it;
    order = λ i j hi ij jt e. s.order i j (omega arith) ij jt e;
    linked = λ i hi it. relink i hi it (s.linked i (omega arith) it);
    alive = λ i hi it.
        freed-keep spare (chunk i) live (s.apart i (omega arith) it) (s.alive i (omega arith) it);
    real = λ i hi it. s.real i (omega arith) it;
    apart = λ i hi it. left_chunk s h i (omega arith) hi it full;
    kept = λ _.
        freed-keep spare (chunk h) live (s.apart h (omega arith) (omega arith))
          (s.alive h (omega arith) (omega arith));
  }
    where
      relink :
          (i : ℕ)
          → suc h ≤ i
          → i < t
          → Next n next prev (chunk i) (pos i) (chunk (suc i)) (pos (suc i))
          → Next n next
              (update (chunk (suc h)) 0 prev)
              (chunk i)
              (pos i)
              (chunk (suc i))
              (pos (suc i))
      relink i hi it (within a b d) = within a b d
      relink i hi it (across a b d e) = across a b d (
          update-ne (chunk (suc h)) 0 prev (chunk (suc i))
            (λ q. new_chunk s (suc i) (suc h) (omega arith) (omega arith) (omega arith) b (sym q))
          ∙ e)

module _ {n : ℕ} {chunk pos next prev : ℕ → ℕ} {live : ℕ → Bool} {spare h t : ℕ} where
  -- The chain without its last item.
  pub drop_last :
      Chain n chunk pos next prev live spare h (suc t) → Chain n chunk pos next prev live spare h t
  drop_last s = record {
    bound = λ i hi it. s.bound i hi (omega arith);
    order = λ i j hi ij jt e. s.order i j hi ij (omega arith) e;
    linked = λ i hi it. s.linked i hi (omega arith);
    alive = λ i hi it. s.alive i hi (omega arith);
    real = λ i hi it. s.real i hi (omega arith);
    apart = λ i hi it. s.apart i hi (omega arith);
    kept = s.kept;
  }

  -- The chain without its last item, when that had a chunk of its own, which is freed.
  pub release_last :
      Chain n chunk pos next prev live spare h (suc t)
      → h ≤ t
      → pos (suc t) ≡ 0
      → Chain n chunk pos
          (update (chunk t) 0 next)
          prev
          (update (chunk (suc t)) false live)
          spare
          h
          t
  release_last s ht z = record {
    bound = λ i hi it. s.bound i hi (omega arith);
    order = λ i j hi ij jt e. s.order i j hi ij (omega arith) e;
    linked = λ i hi it. relink i hi it (s.linked i hi (omega arith));
    alive = λ i hi it.
        update-ne (chunk (suc t)) false live (chunk i)
          (new_chunk s (suc t) i hi (omega arith) (omega arith) z)
        ∙ s.alive i hi (omega arith);
    real = λ i hi it. s.real i hi (omega arith);
    apart = λ i hi it. s.apart i hi (omega arith);
    kept = λ k.
        update-ne (chunk (suc t)) false live spare
          (λ q. s.apart (suc t) (omega arith) (omega arith) (sym q))
        ∙ s.kept k;
  }
    where
      relink :
          (i : ℕ)
          → h ≤ i
          → i < t
          → Next n next prev (chunk i) (pos i) (chunk (suc i)) (pos (suc i))
          → Next n (update (chunk t) 0 next) prev (chunk i) (pos i) (chunk (suc i)) (pos (suc i))
      relink i hi it (within a b d) = within a b d
      relink i hi it (across a b d e) =
          across a b
            (update-ne (chunk t) 0 next (chunk i)
                (λ q. left_chunk s i t hi it (omega arith) a (sym q))
              ∙ d)
            e
