-- ===== src/Queue/Chain/Extend.antt =====
-- One more item behind the slots of a BatchQueue (src/spsc_queue.hpp).
use flash_forwarder.Prelude.{
  ℕ, suc, ◌<◌, ◌≤◌, ◌≡◌, ◌≢◌, ◌⊎◌, inl, inr, refl, sym, ap, ◌∙◌, Bool, true, arith,
}
use flash_forwarder.Queue.Batch.{update}
use flash_forwarder.Queue.Chain.{update-eq, update-ne, Next, within, across, Chain, left_chunk}

le-suc-cases : (i t : ℕ) → i ≤ suc t → (i ≤ t) ⊎ (i ≡ suc t)
le-suc-cases i t h = omega arith

module _ {n : ℕ} {chunk pos next prev : ℕ → ℕ} {live : ℕ → Bool} {spare h t : ℕ} where
  -- The next item in the same chunk.
  pub extend_within :
      {chunk' pos' : ℕ → ℕ}
      → Chain n chunk pos next prev live spare h t
      → h ≤ t
      → ((i : ℕ) → i ≤ t → chunk' i ≡ chunk i)
      → ((i : ℕ) → i ≤ t → pos' i ≡ pos i)
      → chunk' (suc t) ≡ chunk t
      → pos' (suc t) ≡ suc (pos t)
      → suc (pos t) < n
      → Chain n chunk' pos' next prev live spare h (suc t)
  extend_within {chunk'} {pos'} s ht ec ep c p lt = record {
    bound = λ i hi it. elim (le-suc-cases i t it) [
      | inl le ↦ rw (ep i le) (s.bound i hi le)
      | inr e ↦ rw (e, p) lt
    ];
    order = λ i j hi ij jt e. elim (le-suc-cases j t jt) [
      | inl le ↦
          rw (ep i (omega arith), ep j le)
            (s.order i j hi ij le (sym (ec i (omega arith)) ∙ e ∙ ec j le))
      | inr ej ↦ elim (le-suc-cases i t (omega arith)) [
        | inl le ↦ omega (
          arith,
          ep i le,
          p,
          ap pos' ej,
          s.order i t hi le (omega arith) (sym (ec i le) ∙ e ∙ ap chunk' ej ∙ c),
        )
        | inr ei ↦ omega (arith, ap pos' ei, ap pos' ej)
      ]
    ];
    linked = λ i hi it. elim (le-suc-cases (suc i) t (omega arith)) [
      | inl le ↦
          rw (ec i (omega arith), ec (suc i) le, ep i (omega arith), ep (suc i) le)
            (s.linked i hi (omega arith))
      | inr e ↦
          let e' : i ≡ t = omega arith in
          rw (e', ec t (omega arith), ep t (omega arith), c, p) (within lt refl refl)
    ];
    alive = λ i hi it. elim (le-suc-cases i t it) [
      | inl le ↦ rw (ec i le) (s.alive i hi le)
      | inr e ↦ rw (e, c) (s.alive t ht (omega arith))
    ];
    real = λ i hi it. elim (le-suc-cases i t it) [
      | inl le ↦ rw (ec i le) (s.real i hi le)
      | inr e ↦ rw (e, c) (s.real t ht (omega arith))
    ];
    apart = λ i hi it. elim (le-suc-cases i t it) [
      | inl le ↦ rw (ec i le) (s.apart i hi le)
      | inr e ↦ rw (e, c) (s.apart t ht (omega arith))
    ];
    kept = s.kept;
  }

  -- The next item in another chunk, which is linked behind the last one.
  pub extend_across :
      {chunk' pos' : ℕ → ℕ} {live' : ℕ → Bool} {spare' c : ℕ}
      → Chain n chunk pos next prev live spare h t
      → h ≤ t
      → ((i : ℕ) → i ≤ t → chunk' i ≡ chunk i)
      → ((i : ℕ) → i ≤ t → pos' i ≡ pos i)
      → chunk' (suc t) ≡ c
      → pos' (suc t) ≡ 0
      → suc (pos t) ≡ n
      → 0 < n
      → c ≢ 0
      → ((i : ℕ) → h ≤ i → i ≤ t → chunk i ≢ c)
      → live' c ≡ true
      → ((x : ℕ) → live x ≡ true → live' x ≡ true)
      → c ≢ spare'
      → ((i : ℕ) → h ≤ i → i ≤ t → chunk i ≢ spare')
      → (spare' ≢ 0 → live' spare' ≡ true)
      → Chain n chunk' pos'
          (update (chunk t) c next)
          (update c (chunk t) prev)
          live'
          spare'
          h
          (suc t)
  extend_across {chunk'} {pos'} {live'} {spare'} {c} s ht ec ep ce pe full lt cz fresh lc keep cs
        out kept =
      record {
        bound = λ i hi it. elim (le-suc-cases i t it) [
          | inl le ↦ rw (ep i le) (s.bound i hi le)
          | inr e ↦ rw (e, pe) lt
        ];
        order = λ i j hi ij jt e. elim (le-suc-cases j t jt) [
          | inl le ↦
              rw (ep i (omega arith), ep j le)
                (s.order i j hi ij le (sym (ec i (omega arith)) ∙ e ∙ ec j le))
          | inr ej ↦ elim (le-suc-cases i t (omega arith)) [
            | inl le ↦ absurd (fresh i hi le (sym (ec i le) ∙ e ∙ ap chunk' ej ∙ ce))
            | inr ei ↦ omega (arith, ap pos' ei, ap pos' ej)
          ]
        ];
        linked = λ i hi it. elim (le-suc-cases (suc i) t (omega arith)) [
          | inl le ↦
              rw (ec i (omega arith), ec (suc i) le, ep i (omega arith), ep (suc i) le)
                (relink i hi (omega arith) (s.linked i hi (omega arith)))
          | inr e ↦
              let e' : i ≡ t = omega arith in
              rw (e', ec t (omega arith), ep t (omega arith), ce, pe)
                (across full refl (update-eq (chunk t) c next) (update-eq c (chunk t) prev))
        ];
        alive = λ i hi it. elim (le-suc-cases i t it) [
          | inl le ↦ rw (ec i le) (keep (chunk i) (s.alive i hi le))
          | inr e ↦ rw (e, ce) lc
        ];
        real = λ i hi it. elim (le-suc-cases i t it) [
          | inl le ↦ rw (ec i le) (s.real i hi le)
          | inr e ↦ rw (e, ce) cz
        ];
        apart = λ i hi it. elim (le-suc-cases i t it) [
          | inl le ↦ rw (ec i le) (out i hi le)
          | inr e ↦ rw (e, ce) cs
        ];
        kept = kept;
      }
    where
      relink :
          (i : ℕ)
          → h ≤ i
          → i < t
          → Next n next prev (chunk i) (pos i) (chunk (suc i)) (pos (suc i))
          → Next n
              (update (chunk t) c next)
              (update c (chunk t) prev)
              (chunk i)
              (pos i)
              (chunk (suc i))
              (pos (suc i))
      relink i hi it (within a b d) = within a b d
      relink i hi it (across a b d e) =
          across a b
            (update-ne (chunk t) c next (chunk i)
                (λ q. left_chunk s i t hi it (omega arith) a (sym q))
              ∙ d)
            (update-ne c (chunk t) prev (chunk (suc i)) (fresh (suc i) (omega arith) (omega arith))
              ∙ e)
