-- ===== src/Pgm/Push/Whole.antt =====
-- What PushMessage and EndPush of PGMSender (src/pgm_sender.cc) write to the pipe.
use flash_forwarder.Prelude.{
  ℕ, ◌+◌, ◌≡◌, inl, inr, refl, sym, ap, subst, ◌∙◌, List, [], ◌∷◌, ◌++◌, Option, none, some, Bool,
  true, false, leb, length, append_assoc, append-nil, Bool-cases, leb→le,
}
use mathlib.Core.List.{flatten}
use flash_forwarder.Pgm.Filling.Ends.{Option-cases}
use flash_forwarder.Pgm.Push.{
  PushedMessage, Pusher, PushOutcome, PushAction, PushResult, new_pusher, write_out, start_cache,
  after_flush, push_message, begin_push, end_push,
}
use flash_forwarder.Pgm.Push.Batches.{
  contents_written, Batched, contents_written-write_out, contents_written-append, written_cache,
  KeepsBatches, start_cache-Batched, appended,
}

-- Calls that returned 0, with the contents that were pushed and those of the messages that the pipe took.
pub data Pushes (size : ℕ) : Pusher → List (List ℕ) → List (List ℕ) → Type 0 where
  fresh : Pushes size (new_pusher size) [] []
  began :
      {p : Pusher} {contents msgs : List (List ℕ)} (timestamp : ℕ)
      → Pushes size p contents msgs
      → Pushes size (begin_push timestamp p) contents msgs
  gave :
      {p : Pusher} {contents msgs : List (List ℕ)} (o : PushOutcome) (content : List ℕ)
      → Pushes size p contents msgs
      → (push_message o content p).ok ≡ true
      → Pushes size
          (push_message o content p).pusher
          (contents ++ content ∷ [])
          (msgs ++ contents_written (push_message o content p).actions)
  done_with :
      {p : Pusher} {contents msgs : List (List ℕ)} (o : PushOutcome)
      → Pushes size p contents msgs
      → (end_push o p).ok ≡ true
      → Pushes size (end_push o p).pusher contents (msgs ++ contents_written (end_push o p).actions)

module _ (size : ℕ) (p : Pusher) (contents msgs : List (List ℕ))
    (b : Batched size p contents msgs) where
  -- The cache is written, and a new one started.
  after_flush-Batched :
      (o : PushOutcome) (content : List ℕ) (msg : PushedMessage) (w : Option Bool)
      → p.cache_msg ≡ some msg
      → (q : Bool × List PushAction) → (q.0 ≡ true → contents_written q.1 ≡ msg.content ∷ [])
      → let r = after_flush o content (record p { cache_msg = none }) q in
        r.ok ≡ true
        → Batched size r.pusher (contents ++ content ∷ []) (msgs ++ contents_written r.actions)
  unfolding after_flush
  after_flush-Batched o content msg w e (false, actions) written_one ok = absurd cc
  after_flush-Batched o content msg w e (true, actions) written_one ok =
      let empty : Pusher = record p { cache_msg = none } in
      let rest = start_cache o content empty in
      let flushed = written_cache size p contents msgs msg e b in
      let done =
        start_cache-Batched size empty contents (msgs ++ msg.content ∷ []) content flushed o refl
          ok in
      subst (Batched size rest.pusher (contents ++ content ∷ []))
        (append_assoc msgs (msg.content ∷ []) (contents_written rest.actions)
          ∙ ap (λ t. msgs ++ t)
              (ap (λ t. t ++ contents_written rest.actions) (sym (written_one refl))
                ∙ sym (contents_written-append actions rest.actions)))
        done

  push_message_empty :
      (o : PushOutcome) (content : List ℕ)
      → p.cache_msg ≡ none
      → push_message o content p ≡ start_cache o content p
  unfolding push_message
  push_message_empty o content e = simp (e, push_message) refl

  push_message_fits :
      (o : PushOutcome) (content : List ℕ) (msg : PushedMessage)
      → p.cache_msg ≡ some msg
      → leb (length content + length msg.content) p.cache_size ≡ true
      → push_message o content p ≡ record {
        ok = true;
        pusher = record p { cache_msg = some (record msg { content = msg.content ++ content }) };
        actions = [];
      }
  unfolding push_message
  push_message_fits o content msg e f = simp (e, f, push_message) refl

  push_message_full :
      (o : PushOutcome) (content : List ℕ) (msg : PushedMessage)
      → p.cache_msg ≡ some msg
      → leb (length content + length msg.content) p.cache_size ≡ false
      → push_message o content p
        ≡ after_flush o content (record p { cache_msg = none }) (write_out msg o.cache_written)
  unfolding push_message
  push_message_full o content msg e f = simp (e, f, push_message) refl

  push_message-Batched :
      (o : PushOutcome) (content : List ℕ)
      → KeepsBatches size p contents msgs content b (push_message o content p)
  push_message-Batched o content =
      let P = KeepsBatches size p contents msgs content b in
      elim (Option-cases p.cache_msg) [
        | inr e ↦
            subst P (sym (push_message_empty o content e))
              (start_cache-Batched size p contents msgs content b o e)
        | inl (msg, e) ↦
            elim (Bool-cases (leb (length content + length msg.content) p.cache_size)) [
              | inl fits ↦ subst P (sym (push_message_fits o content msg e fits)) (λ ok.
                  subst (Batched size _ (contents ++ content ∷ [])) (sym (append-nil msgs)) (
                    appended size p contents msgs content b msg e
                      (leb→le (length content + length msg.content) p.cache_size fits)))
              | inr big ↦ subst P (sym (push_message_full o content msg e big)) (
                  after_flush-Batched o content msg o.cache_written e
                    (write_out msg o.cache_written)
                    (contents_written-write_out msg o.cache_written))
            ]
      ]

  end_push_empty :
      (o : PushOutcome)
      → p.cache_msg ≡ none
      → end_push o p ≡ record { ok = true; pusher = p; actions = [] }
  unfolding end_push
  end_push_empty o e = simp (e, end_push) refl

  end_push_cached :
      (o : PushOutcome) (msg : PushedMessage)
      → p.cache_msg ≡ some msg
      → end_push o p ≡ record {
        ok = (write_out msg o.cache_written).0;
        pusher = record p { cache_msg = none };
        actions = (write_out msg o.cache_written).1;
      }
  unfolding end_push
  end_push_cached o msg e = simp (e, end_push) refl

  end_push-Batched :
      (o : PushOutcome)
      → (end_push o p).ok ≡ true
      → Batched size
          (end_push o p).pusher
          contents
          (msgs ++ contents_written (end_push o p).actions)
  end_push-Batched o =
      let P = λ (r : PushResult).
        (r.ok ≡ true → Batched size r.pusher contents (msgs ++ contents_written r.actions)) in
      elim (Option-cases p.cache_msg) [
        | inr e ↦
            subst P (sym (end_push_empty o e))
              (λ ok. subst (Batched size p contents) (sym (append-nil msgs)) b)
        | inl (msg, e) ↦ subst P (sym (end_push_cached o msg e)) (λ ok.
            subst (λ t. Batched size (record p { cache_msg = none }) contents (msgs ++ t))
              (sym (contents_written-write_out msg o.cache_written ok))
              (written_cache size p contents msgs msg e b))
      ]

-- Any calls of BeginPush, PushMessage and EndPush that all return 0, on a new sender with this cache size:
-- the contents that were pushed are, in order, those of some batches and of a last one, which stands in
-- the cache. The messages that the pipe took are the batches, in order, each with its contents put
-- together; a batch is not larger than the cache, or is a single content.
pub push_message-end_push :
    {size : ℕ} {p : Pusher} {contents msgs : List (List ℕ)}
    → Pushes size p contents msgs
    → Batched size p contents msgs
unfolding begin_push flatten
push_message-end_push fresh = record {
  batches = [];
  last = [];
  all = refl;
  messages = refl;
  fit = tt;
  cached = refl;
  same_size = refl;
}
push_message-end_push (began timestamp c) =
    let b = push_message-end_push c in
    record {
      batches = b.batches;
      last = b.last;
      all = b.all;
      messages = b.messages;
      fit = b.fit;
      cached = b.cached;
      same_size = b.same_size;
    }
push_message-end_push (gave {p = p} {contents = contents} {msgs = msgs} o content c ok) =
    push_message-Batched _ p contents msgs (push_message-end_push c) o content ok
push_message-end_push (done_with {p = p} {contents = contents} {msgs = msgs} o c ok) =
    end_push-Batched _ p contents msgs (push_message-end_push c) o ok
