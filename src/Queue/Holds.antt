-- ===== src/Queue/Holds.antt =====
-- Push, Pop and Unpush of a BatchQueue (src/spsc_queue.hpp) and the order of its items.
pub mod Removal
use flash_forwarder.Prelude.{
  ℕ, suc, ◌+◌, ◌-◌, ◌<◌, ◌≤◌, ◌≡◌, ◌≢◌, ◌⊎◌, inl, inr, refl, sym, ap, ◌∙◌, Bool, true, false, ◌==◌,
  Bool-cases, ==→eq, ne→==_false, eq→==, arith,
}
use flash_forwarder.Queue.Batch.{
  update, freed, BatchQueue, link_chunk, next_chunk, push, unpush_back, unpush_end, unpush, pop,
}
use flash_forwarder.Queue.Chain.{update-eq, update-ne, Next, within, across, Chain}
use flash_forwarder.Queue.Chain.Extend.{extend_within, extend_across}
use flash_forwarder.Queue.Chain.Release.{drop_first, release_first, drop_last, release_last}

-- The items from `h` to `t` stand in the slots of a chain, from the begin position to the end position.
pub record Holds {ℓ} {A : Type ℓ} (n : ℕ) (chunk pos : ℕ → ℕ) (h t : ℕ) (q : BatchQueue A)
    : Type 0 where
  pub chain : Chain n chunk pos q.next q.prev q.live q.spare h t
  pub begin_chunk : q.begin_chunk ≡ chunk h
  pub begin_pos : q.begin_pos ≡ pos h
  pub end_chunk : q.end_chunk ≡ chunk t
  pub end_pos : q.end_pos ≡ pos t

-- The back position is the slot of item `b`.
pub record BackAt {ℓ} {A : Type ℓ} (chunk pos : ℕ → ℕ) (b : ℕ) (q : BatchQueue A) : Type 0 where
  pub back_chunk : q.back_chunk ≡ chunk b
  pub back_pos : q.back_pos ≡ pos b

abbrev pub Agree : ℕ → (ℕ → ℕ) → (ℕ → ℕ) → Type 0
Agree t f g = (i : ℕ) → i ≤ t → f i ≡ g i

-- What malloc may return: no null pointer, and no chunk that is in use.
pub record Fresh {ℓ} {A : Type ℓ} (address : ℕ) (q : BatchQueue A) : Type 0 where
  pub real : address ≢ 0
  pub free : q.live address ≡ false

pub record Pushed {ℓ} {A : Type ℓ} (n : ℕ) (chunk pos : ℕ → ℕ) (h t : ℕ) (q q' : BatchQueue A)
    : Type ℓ where
  pub chunk' : ℕ → ℕ
  pub pos' : ℕ → ℕ
  pub same_chunk : Agree t chunk' chunk
  pub same_pos : Agree t pos' pos
  pub holds : Holds n chunk' pos' h (suc t) q'
  pub back : BackAt chunk pos t q'
  pub values : q'.values ≡ q.values

update-Agree : (t v : ℕ) (f : ℕ → ℕ) → Agree t (update (suc t) v f) f
update-Agree t v f i h = update-ne (suc t) v f i (λ e. omega (arith, e))

update-true : (k x : ℕ) (f : ℕ → Bool) → f x ≡ true → update k true f x ≡ true
update-true k x f e = elim (Bool-cases (x == k)) [ inl z ↦ rw z refl | inr z ↦ rw z e ]

not-true : false ≢ true
not-true e = cc

module _ {ℓ} {A : Type ℓ} {n : ℕ} {chunk pos : ℕ → ℕ} {h t : ℕ} {q : BatchQueue A} where
  push_within :
      (address : ℕ)
      → h ≤ t
      → Holds n chunk pos h t q
      → (suc q.end_pos == n) ≡ false
      → suc (pos t) < n
      → Pushed n chunk pos h t q (push n address q).0
  unfolding push
  push_within address ht s e lt = rw e (record {
    chunk' = update (suc t) (chunk t) chunk;
    pos' = update (suc t) (suc (pos t)) pos;
    same_chunk = update-Agree t (chunk t) chunk;
    same_pos = update-Agree t (suc (pos t)) pos;
    holds = record {
      chain =
          extend_within s.chain ht (update-Agree t (chunk t) chunk)
            (update-Agree t (suc (pos t)) pos) (update-eq (suc t) (chunk t) chunk)
            (update-eq (suc t) (suc (pos t)) pos) lt;
      begin_chunk = s.begin_chunk ∙ sym (update-Agree t (chunk t) chunk h ht);
      begin_pos = s.begin_pos ∙ sym (update-Agree t (suc (pos t)) pos h ht);
      end_chunk = s.end_chunk ∙ sym (update-eq (suc t) (chunk t) chunk);
      end_pos = ap suc s.end_pos ∙ sym (update-eq (suc t) (suc (pos t)) pos);
    };
    back = record { back_chunk = s.end_chunk; back_pos = s.end_pos };
    values = refl;
  })

  -- The chunk `c` that is linked is fresh for the chain and no longer the spare one.
  push_across :
      (address c spare' : ℕ) (live' : ℕ → Bool)
      → h ≤ t
      → 0 < n
      → Holds n chunk pos h t q
      → suc (pos t) ≡ n
      → (push n address q).0
        ≡ link_chunk c (record q {
          back_chunk = q.end_chunk;
          back_pos = q.end_pos;
          spare = spare';
          live = live';
        })
      → c ≢ 0
      → ((i : ℕ) → h ≤ i → i ≤ t → chunk i ≢ c)
      → live' c ≡ true
      → ((x : ℕ) → q.live x ≡ true → live' x ≡ true)
      → c ≢ spare'
      → ((i : ℕ) → h ≤ i → i ≤ t → chunk i ≢ spare')
      → (spare' ≢ 0 → live' spare' ≡ true)
      → Pushed n chunk pos h t q (push n address q).0
  unfolding link_chunk
  push_across address c spare' live' ht lt s full e cz fresh lc keep cs out kept = rw e (record {
    chunk' = update (suc t) c chunk;
    pos' = update (suc t) 0 pos;
    same_chunk = update-Agree t c chunk;
    same_pos = update-Agree t 0 pos;
    holds = record {
      chain = rw s.end_chunk (
          extend_across s.chain ht (update-Agree t c chunk) (update-Agree t 0 pos)
            (update-eq (suc t) c chunk) (update-eq (suc t) 0 pos) full lt cz fresh lc keep cs out
            kept);
      begin_chunk = s.begin_chunk ∙ sym (update-Agree t c chunk h ht);
      begin_pos = s.begin_pos ∙ sym (update-Agree t 0 pos h ht);
      end_chunk = sym (update-eq (suc t) c chunk);
      end_pos = sym (update-eq (suc t) 0 pos);
    };
    back = record { back_chunk = s.end_chunk; back_pos = s.end_pos };
    values = refl;
  })

  pub push-Holds :
      (address : ℕ)
      → h ≤ t
      → 0 < n
      → Fresh address q
      → Holds n chunk pos h t q
      → Pushed n chunk pos h t q (push n address q).0
  unfolding push next_chunk
  push-Holds address ht lt f s = elim (Bool-cases (suc q.end_pos == n)) [
    | inr e ↦ push_within address ht s e (
        omega (
          arith,
          s.end_pos,
          s.chain.bound t ht (omega arith),
          λ (x : suc q.end_pos ≡ n). not-true (sym e ∙ eq→== (suc q.end_pos) n x),
        ))
    | inl e ↦
        let full : suc (pos t) ≡ n = ap suc (sym s.end_pos) ∙ ==→eq (suc q.end_pos) n e in
        elim (Bool-cases (q.spare == 0)) [
          | inl z ↦
              push_across address address q.spare (update address true q.live) ht lt s full
                (rw (e, z, ne→==_false address 0 f.real) refl) f.real
                (λ i hi it c. not-true (sym f.free ∙ ap q.live (sym c) ∙ s.chain.alive i hi it))
                (update-eq address true q.live) (λ x l. update-true address x q.live l)
                (λ c. f.real (c ∙ ==→eq q.spare 0 z)) s.chain.apart
                (λ k. absurd (k (==→eq q.spare 0 z)))
          | inr z ↦
              let k : q.spare ≢ 0 = λ x. not-true (sym z ∙ eq→== q.spare 0 x) in
              push_across address q.spare 0 q.live ht lt s full (rw (e, z) refl) k s.chain.apart
                (s.chain.kept k) (λ x l. l) k s.chain.real (λ k'. absurd (k' refl))
        ]
  ]
