-- ===== src/Pipe/Writer.antt =====
-- The calls of the writing end of a pipe (src/pipe.cpp) are steps of the two threads of its queue.
use flash_forwarder.Prelude.{
  ℕ, zero, suc, ◌-◌, length, take, ◌≡◌, ◌≢◌, ◌⊎◌, inl, inr, refl, sym, subst, List, [], ◌∷◌, ◌++◌,
  some, Bool, false, if◌then◌else◌, Bool-cases, All,
}
use flash_forwarder.Queue.Spsc.{SpscQueue, write, flushed, asleep, Flushing, flush_swap, flush}
use flash_forwarder.Queue.Holds.{Fresh}
use flash_forwarder.Pipe.Sealed.{write-Sealed, flush-Sealed, unwrite-Sealed}
use flash_forwarder.Queue.Run.{Run, wrote, took_back, swapped, unswapped, stored}
use flash_forwarder.Pipe.{
  granularity, Pipe, flushed_message, write_message, write_and_wake, unwrite_message, terminate,
}
use flash_forwarder.Pipe.Calls.{items, Steps}

Flushing-cases {ℓ} :
    {A : Type ℓ} (x : Flushing A)
    → ((q : SpscQueue A) × (x ≡ flushed q)) ⊎ ((q : SpscQueue A) × (x ≡ asleep q))
Flushing-cases (flushed q) = inl (q, refl)
Flushing-cases (asleep q) = inr (q, refl)

-- A whole `Flush` is a step or two.
flush-Run {ℓ} :
    {A : Type ℓ} {n : ℕ} {q : SpscQueue A} {ws rs : List A}
    → Run n q false ws rs
    → Run n (flush q).1 false ws rs
unfolding flush
flush-Run {q} r = elim (Flushing-cases (flush_swap q)) [
  | inl (q', e) ↦ rw (e, flush) (swapped q' r e)
  | inr (q', e) ↦ rw (e, flush) (stored (unswapped q' r e))
]

pub All-append_end {ℓ} :
    (P : ℕ → Type ℓ) (xs : List ℕ) (x : ℕ) → All P xs → P x → All P (xs ++ x ∷ [])
All-append_end P [] x a p = (p, tt)
All-append_end P (y ∷ xs) x a p = (a.0, All-append_end P xs x a.1 p)

All-take : (k : ℕ) (xs : List ℕ) → All (λ m. m ≢ 0) xs → All (λ m. m ≢ 0) (take k xs)
All-take zero [] a = tt
All-take zero (x ∷ xs) a = tt
All-take (suc k) [] a = tt
All-take (suc k) (x ∷ xs) a = (a.0, All-take k xs a.1)

module _ {w r : Pipe} {q : SpscQueue ℕ} {sent got : List ℕ} where
  -- A queue to which a message was written.
  written :
      (address msg : ℕ) (incomplete : Bool)
      → Steps w r q sent got
      → w.terminated ≡ false
      → Fresh address q.queue
      → Run granularity
          (write granularity address msg incomplete q)
          false
          (sent ++ msg ∷ [])
          (items r.peer_terminated got)
  written address msg incomplete s e fresh =
      wrote address msg incomplete
        (subst (λ b. Run granularity q false (items b sent) (items r.peer_terminated got)) e s.run)
        fresh

  longer :
      {q' : SpscQueue ℕ} (msg : ℕ)
      → Steps w r q sent got
      → w.terminated ≡ false
      → msg ≢ 0
      → Run granularity q' false (sent ++ msg ∷ []) (items r.peer_terminated got)
      → Steps w r q' (sent ++ msg ∷ []) got
  longer {q'} msg s e real run = record {
    run =
        subst
          (λ b. Run granularity q' false (items b (sent ++ msg ∷ [])) (items r.peer_terminated got))
          (sym e) run;
    sent_real = All-append_end (λ m. m ≢ 0) sent msg s.sent_real real;
    got_real = s.got_real;
    sealed = λ t. absurd cc;
  }

  pub write_message-Steps :
      (address msg : ℕ) (incomplete : Bool)
      → Steps w r q sent got
      → msg ≢ 0
      → Fresh address q.queue
      → Steps
          (write_message address msg incomplete w q).pipe
          r
          (write_message address msg incomplete w q).queue
          (if (write_message address msg incomplete w q).ok then sent ++ msg ∷ [] else sent)
          got
  unfolding write_message flushed_message
  write_message-Steps address msg incomplete s real fresh = elim (Bool-cases w.terminated) [
    | inl e ↦ simp (e, write_message) s
    | inr e ↦ elim (Bool-cases incomplete) [
      | inl i ↦
          simp (e, i, write_message)
            (longer msg s e real (
              subst
                (λ b.
                  Run granularity (write granularity address msg b q) false (sent ++ msg ∷ [])
                    (items r.peer_terminated got))
                i (written address msg incomplete s e fresh)))
      | inr i ↦
          simp (e, i, write_message, flushed_message)
            (longer msg s e real (
              flush-Run (
                subst
                  (λ b.
                    Run granularity (write granularity address msg b q) false (sent ++ msg ∷ [])
                      (items r.peer_terminated got))
                  i (written address msg incomplete s e fresh))))
    ]
  ]

  pub write_and_wake-Steps :
      (address msg : ℕ)
      → Steps w r q sent got
      → msg ≢ 0
      → Fresh address q.queue
      → Steps
          (write_and_wake address msg w q).pipe
          r
          (write_and_wake address msg w q).queue
          (if (write_and_wake address msg w q).ok then sent ++ msg ∷ [] else sent)
          got
  unfolding write_and_wake flushed_message
  write_and_wake-Steps address msg s real fresh = elim (Bool-cases w.terminated) [
    | inl e ↦ simp (e, write_and_wake) s
    | inr e ↦
        simp (e, write_and_wake, flushed_message)
          (longer msg s e real (flush-Run (written address msg false s e fresh)))
  ]

  pub terminate-Steps :
      (address : ℕ)
      → Steps w r q sent got
      → Fresh address q.queue
      → Steps (terminate address w q).pipe r (terminate address w q).queue sent got
  unfolding terminate flushed_message
  terminate-Steps address s fresh = elim (Bool-cases w.terminated) [
    | inl e ↦ simp (e, terminate) s
    | inr e ↦
        simp (e, terminate, flushed_message)
          (record {
            run = flush-Run (written address 0 false s e fresh);
            sent_real = s.sent_real;
            got_real = s.got_real;
            sealed = λ _. flush-Sealed _ (write-Sealed granularity address 0 q);
          })
  ]

  -- A terminated end has nothing to take back.
  pub unwrite_message-Steps :
      (msg : ℕ) (q' : SpscQueue ℕ)
      → Steps w r q sent got
      → unwrite_message q ≡ some (msg, q')
      → Steps w r q' (take (length sent - 1) sent) got
  unfolding unwrite_message
  unwrite_message-Steps msg q' s z = elim (Bool-cases w.terminated) [
    | inl e ↦ let empty = unwrite-Sealed granularity q (s.sealed e) in absurd cc
    | inr e ↦ record {
      run =
          subst
            (λ b.
              Run granularity q' false (items b (take (length sent - 1) sent))
                (items r.peer_terminated got))
            (sym e)
            (took_back msg q'
              (subst (λ b. Run granularity q false (items b sent) (items r.peer_terminated got)) e
                s.run)
              z);
      sent_real = All-take (length sent - 1) sent s.sent_real;
      got_real = s.got_real;
      sealed = λ t. absurd cc;
    }
  ]
