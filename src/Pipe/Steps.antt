-- ===== src/Pipe/Steps.antt =====
-- The calls of the reading end of a pipe (src/pipe.cpp), and so the calls of both, are steps of the two
-- threads of its queue.
use flash_forwarder.Prelude.{
  ℕ, ◌≡◌, ◌≢◌, inl, inr, refl, sym, subst, List, [], ◌∷◌, ◌++◌, Option, none, some, false, ◌==◌,
  if◌then◌else◌, Bool-cases, ==→eq, arith,
}
use flash_forwarder.Queue.Spsc.{SpscQueue, read_item}
use flash_forwarder.Pipe.Sealed.{check_read-Sealed, still_Sealed}
use flash_forwarder.Queue.Run.{Run, started, checked, missed, took}
use flash_forwarder.Queue.Holds.Removal.{==_false→ne}
use flash_forwarder.Pipe.{granularity, Pipe, new_queue, taken, do_read, check_read_message}
use flash_forwarder.Pipe.Calls.{
  more_got, Calls, opened, wrote_message, wrote_and_woke, took_back_message, terminated, looked,
  tried, items, Steps,
}
use flash_forwarder.Pipe.Writer.{
  All-append_end, write_message-Steps, write_and_wake-Steps, terminate-Steps, unwrite_message-Steps,
}

module _ {w r : Pipe} {q : SpscQueue ℕ} {sent got : List ℕ} where
  check_read_message-Steps : Steps w r q sent got → Steps w r (check_read_message r q).1 sent got
  unfolding check_read_message
  check_read_message-Steps s = elim (Bool-cases r.peer_terminated) [
    | inl e ↦ simp (e, check_read_message) s
    | inr e ↦
        simp (e, check_read_message)
          (record {
            run = checked s.run;
            sent_real = s.sent_real;
            got_real = s.got_real;
            sealed = λ t. check_read-Sealed q (s.sealed t);
          })
  ]

  taken-Steps :
      (item : Option ℕ) (q' : SpscQueue ℕ)
      → Steps w r q sent got
      → r.peer_terminated ≡ false
      → Run granularity q false (items w.terminated sent) got
      → read_item granularity q ≡ (item, q')
      → Steps w
          (taken r item q').pipe
          (taken r item q').queue
          sent
          (more_got (taken r item q').result got)
  unfolding taken
  taken-Steps none q' s e run z = record {
    run =
        subst (λ b. Run granularity q' false (items w.terminated sent) (items b got)) (sym e)
          (missed q' run z);
    sent_real = s.sent_real;
    got_real = s.got_real;
    sealed = λ t. still_Sealed granularity q q' z (s.sealed t);
  }
  taken-Steps (some msg) q' s e run z = elim (Bool-cases (msg == 0)) [
    | inl null ↦
        simp (null, taken)
          (record {
            run =
                subst (λ m. Run granularity q' false (items w.terminated sent) (got ++ m ∷ []))
                  (==→eq msg 0 null) (took msg q' run z);
            sent_real = s.sent_real;
            got_real = s.got_real;
            sealed = λ t. still_Sealed granularity q q' z (s.sealed t);
          })
    | inr real ↦
        simp (real, taken)
          (record {
            run =
                subst
                  (λ b.
                    Run granularity q' false (items w.terminated sent) (items b (got ++ msg ∷ [])))
                  (sym e) (took msg q' run z);
            sent_real = s.sent_real;
            got_real = All-append_end (λ m. m ≢ 0) got msg s.got_real (==_false→ne msg 0 real);
            sealed = λ t. still_Sealed granularity q q' z (s.sealed t);
          })
  ]

  do_read-Steps :
      Steps w r q sent got
      → Steps w (do_read r q).pipe (do_read r q).queue sent (more_got (do_read r q).result got)
  unfolding do_read
  do_read-Steps s = elim (Bool-cases r.peer_terminated) [
    | inl e ↦ simp (e, do_read) s
    | inr e ↦
        let run : Run granularity q false (items w.terminated sent) got =
          subst (λ b. Run granularity q false (items w.terminated sent) (items b got)) e s.run in
        simp (e, do_read)
          (taken-Steps (read_item granularity q).0 (read_item granularity q).1 s e run refl)
  ]

pub Calls-Steps :
    {w r : Pipe} {q : SpscQueue ℕ} {sent got : List ℕ} → Calls w r q sent got → Steps w r q sent got
unfolding new_queue
Calls-Steps (opened a a' q z f f') = record {
  run = started a a' q (omega arith) z f f';
  sent_real = tt;
  got_real = tt;
  sealed = λ t. absurd cc;
}
Calls-Steps (wrote_message {w} {r} {q} {sent} {got} a m i s c real f e) =
    subst (λ x. Steps x.pipe r x.queue (if x.ok then sent ++ m ∷ [] else sent) got) e
      (write_message-Steps a m i (Calls-Steps c) real f)
Calls-Steps (wrote_and_woke {w} {r} {q} {sent} {got} a m s c real f e) =
    subst (λ x. Steps x.pipe r x.queue (if x.ok then sent ++ m ∷ [] else sent) got) e
      (write_and_wake-Steps a m (Calls-Steps c) real f)
Calls-Steps (took_back_message m q' c e) = unwrite_message-Steps m q' (Calls-Steps c) e
Calls-Steps (terminated a c f) = terminate-Steps a (Calls-Steps c) f
Calls-Steps (looked c) = check_read_message-Steps (Calls-Steps c)
Calls-Steps (tried {w} {r} {q} {sent} {got} t c e) =
    subst (λ x. Steps w x.pipe x.queue sent (more_got x.result got)) e
      (do_read-Steps (Calls-Steps c))
