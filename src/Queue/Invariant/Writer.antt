-- ===== src/Queue/Invariant/Writer.antt =====
-- The writer's half of a SpscQueue (src/spsc_queue.hpp) keeps the invariant.
use flash_forwarder.Prelude.{
  ℕ, suc, ◌<◌, ◌≤◌, ◌≡◌, ◌≢◌, inl, inr, refl, sym, ap, ap₂, ◌∙◌, List, [], ◌∷◌, ◌++◌, Option, some,
  Bool, true, false, if◌then◌else◌, length, get_elem?, Bool-cases, length-append, take_append_le,
  ◌==◌, ==→eq, arith,
}
use flash_forwarder.Queue.Batch.{BatchQueue, back_item, set_back, update, push}
use flash_forwarder.Queue.Spsc.{SpscQueue, write}
use flash_forwarder.Queue.Chain.{update-eq, update-ne, slot_inj}
use flash_forwarder.Queue.Holds.{Agree, Fresh, Pushed, push-Holds}
use flash_forwarder.Queue.Holds.Removal.{==_false→ne}
use flash_forwarder.Queue.Invariant.{
  slot, awake, sleeping, woken, Prefetch, nothing, upto, Inv, get_append_left, get_append_end,
}

set_back_same {ℓ} :
    {A : Type ℓ} (v : A) (q : BatchQueue A) → (set_back v q).values q.back_chunk q.back_pos ≡ v
set_back_same v q =
    ap (λ g. g q.back_pos)
      (update-eq q.back_chunk (update q.back_pos v (q.values q.back_chunk)) q.values)
    ∙ update-eq q.back_pos v (q.values q.back_chunk)

set_back_other {ℓ} :
    {A : Type ℓ} (v : A) (q : BatchQueue A) (c p : ℕ)
    → (c ≡ q.back_chunk → p ≢ q.back_pos)
    → (set_back v q).values c p ≡ q.values c p
set_back_other v q c p h = elim (Bool-cases (c == q.back_chunk)) [
  | inl e ↦
      let e' = ==→eq c q.back_chunk e in
      rw (e, update-ne q.back_pos v (q.values q.back_chunk) p (h e'))
        (ap (λ x. q.values x p) (sym e'))
  | inr e ↦ rw e refl
]

Agree-slot :
    {t : ℕ} {f f' g g' : ℕ → ℕ}
    → Agree t f' f
    → Agree t g' g
    → (i : ℕ) → i ≤ t
    → slot f g i ≡ slot f' g' i
Agree-slot a b i h = ap₂ (λ x y. some (x, y)) (sym (a i h)) (sym (b i h))

move_prefetch :
    {t h w : ℕ} {f f' g g' : ℕ → ℕ} {r : Option (ℕ × ℕ)}
    → Agree t f' f
    → Agree t g' g
    → w ≤ t
    → Prefetch f g r h w
    → Prefetch f' g' r h w
move_prefetch a b le (nothing z) = nothing z
move_prefetch a b le (upto p hp pw z) = upto p hp pw (z ∙ Agree-slot a b p (omega arith))

module _ {ℓ} {A : Type ℓ} {n : ℕ} {q : SpscQueue A} {ws rs : List A} where
  -- The value that `Write` puts on the back joins the items.
  written_values :
      (s : Inv n q false ws rs) (v : A) (i : ℕ)
      → length rs ≤ i
      → i < suc (length ws)
      → get_elem? (ws ++ v ∷ []) i ≡ some ((set_back v q.queue).values (s.chunk i) (s.pos i))
  written_values s v i hi it = elim (Bool-cases (i == length ws)) [
    | inl e ↦
        let e' = ==→eq i (length ws) e in
        rw (e', sym s.back.back_chunk, sym s.back.back_pos)
          (get_append_end ws v ∙ ap some (sym (set_back_same v q.queue)))
    | inr e ↦
        let ne : i ≢ length ws = λ x. ==_false→ne i (length ws) e x in
        get_append_left ws (v ∷ []) i (omega arith)
        ∙ s.values i hi (omega arith)
        ∙ ap some (
            sym (
              set_back_other v q.queue (s.chunk i) (s.pos i) (λ c p. ne (
                slot_inj s.holds.chain i (length ws) hi (omega arith)
                  (omega (arith, s.read_le, s.flushed_le, s.complete_le)) (omega arith)
                  (c ∙ s.back.back_chunk) (p ∙ s.back.back_pos)))))
  ]

  pub write-Inv :
      (address : ℕ) (v : A) (incomplete : Bool)
      → Inv n q false ws rs
      → Fresh address q.queue
      → Inv n (write n address v incomplete q) false (ws ++ v ∷ []) rs
  unfolding write
  write-Inv address v incomplete s fresh =
      let len : length (ws ++ v ∷ []) ≡ suc (length ws) =
        omega (arith, length-append ws (v ∷ [])) in
      let le : length rs ≤ length ws = omega (arith, s.read_le, s.flushed_le, s.complete_le) in
      let P = pushed s in
      let (f', wf, ft, item) = complete s P incomplete in
      let to = Agree-slot P.same_chunk P.same_pos in
      record {
        chunk = P.chunk';
        pos = P.pos';
        w = s.w;
        f = f';
        read_le = s.read_le;
        flushed_le = wf;
        complete_le = rw len ft;
        holds = rw len P.holds;
        back = rw len (record {
          back_chunk = P.back.back_chunk ∙ sym (P.same_chunk (suc (length ws)) (omega arith));
          back_pos = P.back.back_pos ∙ sym (P.same_pos (suc (length ws)) (omega arith));
        });
        values = λ i hi it.
            rw (P.values, P.same_chunk i (omega (arith, len)), P.same_pos i (omega (arith, len)))
              (written_values s v i hi (omega (arith, len)));
        f_item = item;
        contact = elim s.contact [
          | awake a b c ↦
              awake a (b ∙ to s.w (omega (arith, s.flushed_le, s.complete_le)))
                (c ∙ to s.w (omega (arith, s.flushed_le, s.complete_le)))
          | sleeping a b c d ↦
              sleeping a (b ∙ to s.w (omega (arith, s.flushed_le, s.complete_le))) c d
          | woken a c d ↦ woken a c d
        ];
        prefetch =
            move_prefetch P.same_chunk P.same_pos (omega (arith, s.flushed_le, s.complete_le))
              s.prefetch;
        order = s.order ∙ sym (take_append_le (length rs) ws (v ∷ []) le);
      }
    where
      pushed :
          (s : Inv n q false ws rs)
          → Pushed n s.chunk s.pos
              (length rs)
              (suc (length ws))
              (set_back v q.queue)
              (push n address (set_back v q.queue)).0
      pushed s =
          push-Holds address (omega (arith, s.read_le, s.flushed_le, s.complete_le))
            (omega (
              arith,
              s.holds.chain.bound (suc (length ws))
                  (omega (arith, s.read_le, s.flushed_le, s.complete_le)) (omega arith),
            ))
            (record { real = fresh.real; free = fresh.free })
            (record {
              chain = s.holds.chain;
              begin_chunk = s.holds.begin_chunk;
              begin_pos = s.holds.begin_pos;
              end_chunk = s.holds.end_chunk;
              end_pos = s.holds.end_pos;
            })

      complete :
          (s : Inv n q false ws rs)
          (P : Pushed n s.chunk s.pos
            (length rs)
            (suc (length ws))
            (set_back v q.queue)
            (push n address (set_back v q.queue)).0)
          (b : Bool)
          → (f : ℕ) × (s.w ≤ f)
            × (f ≤ suc (length ws))
            × ((if b then q.f_item else some (back_item (push n address (set_back v q.queue)).0))
                ≡ slot P.chunk' P.pos' f)
      complete s P true = (
        s.f,
        s.flushed_le,
        omega (arith, s.complete_le),
        s.f_item ∙ Agree-slot P.same_chunk P.same_pos s.f (omega (arith, s.complete_le)),
      )
      complete s P false = (
        suc (length ws),
        omega (arith, s.flushed_le, s.complete_le),
        omega arith,
        ap₂ (λ x y. some (x, y)) P.back.back_chunk P.back.back_pos
            ∙ Agree-slot P.same_chunk P.same_pos (suc (length ws)) (omega arith),
      )
