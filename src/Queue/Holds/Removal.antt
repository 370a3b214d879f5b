-- ===== src/Queue/Holds/Removal.antt =====
-- Pop and Unpush of a BatchQueue (src/spsc_queue.hpp) and the order of its items.
use flash_forwarder.Prelude.{
  ℕ, suc, ◌-◌, ◌<◌, ◌≤◌, ◌≡◌, ◌≢◌, inl, inr, refl, sym, ap, ◌∙◌, false, ◌==◌, Bool-cases, ==→eq,
  eq→==, arith,
}
use flash_forwarder.Queue.Batch.{BatchQueue, unpush_back, unpush_end, unpush, pop}
use flash_forwarder.Queue.Chain.{Next, within, across}
use flash_forwarder.Queue.Chain.Release.{drop_first, release_first, drop_last, release_last}
use flash_forwarder.Queue.Holds.{Holds, BackAt}

-- From the last position of a chunk the next slot is in the chunk that is linked with it.
step_across :
    {n : ℕ} {next prev : ℕ → ℕ} {c p c' p' : ℕ}
    → Next n next prev c p c' p'
    → suc p ≡ n
    → (next c ≡ c') × (p' ≡ 0)
step_across (within a b d) e = omega (arith, a, e)
step_across (across a b d f) e = (d, b)

step_within :
    {n : ℕ} {next prev : ℕ → ℕ} {c p c' p' : ℕ}
    → Next n next prev c p c' p'
    → suc p ≢ n
    → (c' ≡ c) × (p' ≡ suc p)
step_within (within a b d) e = (b, d)
step_within (across a b d f) e = absurd (e a)

-- Back from the first position of a chunk.
back_across :
    {n : ℕ} {next prev : ℕ → ℕ} {c p c' p' : ℕ}
    → Next n next prev c p c' p'
    → p' ≡ 0
    → (prev c' ≡ c) × (n - 1 ≡ p)
back_across (within a b d) e = omega (arith, d, e)
back_across (across a b d f) e = (f, omega (arith, a))

back_within :
    {n : ℕ} {next prev : ℕ → ℕ} {c p c' p' : ℕ}
    → Next n next prev c p c' p'
    → p' ≢ 0
    → (c' ≡ c) × (p' - 1 ≡ p)
back_within (within a b d) e = (b, omega (arith, d))
back_within (across a b d f) e = absurd (e b)

freed-Next :
    {n : ℕ} {next prev : ℕ → ℕ} {c p c' p' : ℕ} → Next n next prev c p c' p' → p' ≡ 0 → next c ≡ c'
freed-Next (within a b d) e = omega (arith, d, e)
freed-Next (across a b d f) e = d

pub ==_false→ne : (a b : ℕ) → (a == b) ≡ false → a ≢ b
==_false→ne a b e x = cc (eq→== a b x)

module _ {ℓ} {A : Type ℓ} {n : ℕ} {chunk pos : ℕ → ℕ} {h t : ℕ} {q : BatchQueue A} where
  pub pop-Holds : Holds n chunk pos h t q → h < t → Holds n chunk pos (suc h) t (pop n q)
  unfolding pop
  pop-Holds s ht =
      let link = s.chain.linked h (omega arith) ht in
      elim (Bool-cases (suc q.begin_pos == n)) [
        | inl e ↦
            let full : suc (pos h) ≡ n = ap suc (sym s.begin_pos) ∙ ==→eq (suc q.begin_pos) n e in
            let to : q.next (chunk h) ≡ chunk (suc h) = (step_across link full).0 in
            rw e (record {
              chain = rw (s.begin_chunk, to) (release_first s.chain ht full);
              begin_chunk = rw (s.begin_chunk, to) refl;
              begin_pos = sym (step_across link full).1;
              end_chunk = s.end_chunk;
              end_pos = s.end_pos;
            })
        | inr e ↦
            let rest : suc (pos h) ≢ n =
              λ x. ==_false→ne (suc q.begin_pos) n e (ap suc s.begin_pos ∙ x) in
            rw e (record {
              chain = drop_first s.chain;
              begin_chunk = s.begin_chunk ∙ sym (step_within link rest).0;
              begin_pos = ap suc s.begin_pos ∙ sym (step_within link rest).1;
              end_chunk = s.end_chunk;
              end_pos = s.end_pos;
            })
      ]

pub pop-BackAt {ℓ} :
    {A : Type ℓ} (n : ℕ) {chunk pos : ℕ → ℕ} {b : ℕ} (q : BatchQueue A)
    → BackAt chunk pos b q
    → BackAt chunk pos b (pop n q)
unfolding pop
pop-BackAt n q s = elim (Bool-cases (suc q.begin_pos == n)) [
  | inl e ↦ rw e (record { back_chunk = s.back_chunk; back_pos = s.back_pos })
  | inr e ↦ rw e (record { back_chunk = s.back_chunk; back_pos = s.back_pos })
]

pub values-pop {ℓ} : {A : Type ℓ} (n : ℕ) (q : BatchQueue A) → (pop n q).values ≡ q.values
unfolding pop
values-pop n q = elim (Bool-cases (suc q.begin_pos == n)) [ inl e ↦ rw e refl | inr e ↦ rw e refl ]

module _ {ℓ} {A : Type ℓ} {n : ℕ} {chunk pos : ℕ → ℕ} {h t b : ℕ} {q : BatchQueue A} where
  unpush_back_at :
      Holds n chunk pos h t q
      → h ≤ b
      → b < t
      → BackAt chunk pos (suc b) q
      → BackAt chunk pos b (unpush_back n q) × Holds n chunk pos h t (unpush_back n q)
  unfolding unpush_back
  unpush_back_at s hb bt k =
      let link = s.chain.linked b hb bt in
      elim (Bool-cases (q.back_pos == 0)) [
        | inl e ↦
            let z = back_across link (sym k.back_pos ∙ ==→eq q.back_pos 0 e) in
            rw e (
              record { back_chunk = ap q.prev k.back_chunk ∙ z.0; back_pos = z.1 },
              record {
                chain = s.chain;
                begin_chunk = s.begin_chunk;
                begin_pos = s.begin_pos;
                end_chunk = s.end_chunk;
                end_pos = s.end_pos;
              },
            )
        | inr e ↦
            let z = back_within link (λ x. ==_false→ne q.back_pos 0 e (k.back_pos ∙ x)) in
            rw e (
              record {
                back_chunk = k.back_chunk ∙ z.0;
                back_pos = ap (λ x. x - 1) k.back_pos ∙ z.1;
              },
              record {
                chain = s.chain;
                begin_chunk = s.begin_chunk;
                begin_pos = s.begin_pos;
                end_chunk = s.end_chunk;
                end_pos = s.end_pos;
              },
            )
      ]

  unpush_end-Holds :
      Holds n chunk pos h (suc t) q
      → h ≤ t
      → BackAt chunk pos b q
      → BackAt chunk pos b (unpush_end n q) × Holds n chunk pos h t (unpush_end n q)
  unfolding unpush_end
  unpush_end-Holds s ht k =
      let link = s.chain.linked t ht (omega arith) in
      elim (Bool-cases (q.end_pos == 0)) [
        | inl e ↦
            let p : pos (suc t) ≡ 0 = sym s.end_pos ∙ ==→eq q.end_pos 0 e in
            let z = back_across link p in
            rw e (
              record { back_chunk = k.back_chunk; back_pos = k.back_pos },
              record {
                chain = rw (s.end_chunk, z.0, freed-Next link p) (release_last s.chain ht p);
                begin_chunk = s.begin_chunk;
                begin_pos = s.begin_pos;
                end_chunk = ap q.prev s.end_chunk ∙ z.0;
                end_pos = z.1;
              },
            )
        | inr e ↦
            let z = back_within link (λ x. ==_false→ne q.end_pos 0 e (s.end_pos ∙ x)) in
            rw e (
              record { back_chunk = k.back_chunk; back_pos = k.back_pos },
              record {
                chain = drop_last s.chain;
                begin_chunk = s.begin_chunk;
                begin_pos = s.begin_pos;
                end_chunk = s.end_chunk ∙ z.0;
                end_pos = ap (λ x. x - 1) s.end_pos ∙ z.1;
              },
            )
      ]

pub values-unpush {ℓ} : {A : Type ℓ} (n : ℕ) (q : BatchQueue A) → (unpush n q).values ≡ q.values
unfolding unpush unpush_back unpush_end
values-unpush n q = elim (Bool-cases (q.back_pos == 0)) [
  | inl e ↦ rw e (elim (Bool-cases (q.end_pos == 0)) [ inl z ↦ rw z refl | inr z ↦ rw z refl ])
  | inr e ↦ rw e (elim (Bool-cases (q.end_pos == 0)) [ inl z ↦ rw z refl | inr z ↦ rw z refl ])
]

-- Unpush takes the last item away, and the back position is at the one before.
pub unpush-Holds {ℓ} :
    {A : Type ℓ} {n : ℕ} {chunk pos : ℕ → ℕ} {h b : ℕ} {q : BatchQueue A}
    → Holds n chunk pos h (suc (suc b)) q
    → h ≤ b
    → BackAt chunk pos (suc b) q
    → BackAt chunk pos b (unpush n q) × Holds n chunk pos h (suc b) (unpush n q)
unfolding unpush
unpush-Holds s hb k =
    let (k', s') = unpush_back_at s hb (omega arith) k in unpush_end-Holds s' (omega arith) k'
