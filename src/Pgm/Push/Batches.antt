-- ===== src/Pgm/Push/Batches.antt =====
-- The batches of contents that PGMSender (src/pgm_sender.cc) gathers in its cache.
use flash_forwarder.Prelude.{
  ℕ, ◌+◌, ◌≤◌, ◌≡◌, ◌⊎◌, inl, inr, refl, sym, ap, ap₂, subst, ◌∙◌, List, [], ◌∷◌, ◌++◌, Option,
  none, some, Bool, true, false, leb, length, All, append_assoc, append-nil, length-append, if_both,
  Bool-cases, leb_false→lt, arith,
}
use mathlib.Core.List.{flatten}
use flash_forwarder.Pgm.Sender.Pieces.{flatten-append, All-more}
use flash_forwarder.Pgm.Push.{
  PushedMessage, Pusher, PushOutcome, PushAction, written, released, wake_peer, PushResult,
  write_out, do_write_message, start_cache,
}

abbrev pub contents_written : List PushAction → List (List ℕ)
contents_written [] = []
contents_written (written msg ∷ actions) = msg.content ∷ contents_written actions
contents_written (released msg ∷ actions) = contents_written actions
contents_written (wake_peer ∷ actions) = contents_written actions

-- A batch fits in the cache, or is a single content.
abbrev pub Fits : ℕ → List (List ℕ) → Type 0
Fits size batch = (length (flatten batch) ≤ size) ⊎ ((c : List ℕ) × (batch ≡ c ∷ []))

abbrev pub joined_up : List (List (List ℕ)) → List (List ℕ)
joined_up [] = []
joined_up (batch ∷ batches) = flatten batch ∷ joined_up batches

-- The batch in the cache.
abbrev pub IsCached : ℕ → Option PushedMessage → List (List ℕ) → Type 0
IsCached size none batch = batch ≡ []
IsCached size (some msg) batch = (flatten batch ≡ msg.content) × (length msg.content ≤ size)

-- What was pushed, in batches: those that were written, and the one in the cache.
pub record Batched (size : ℕ) (p : Pusher) (contents msgs : List (List ℕ)) : Type 0 where
  pub batches : List (List (List ℕ))
  pub last : List (List ℕ)
  pub all : contents ≡ flatten batches ++ last
  pub messages : msgs ≡ joined_up batches
  pub fit : All (Fits size) batches
  pub cached : IsCached size p.cache_msg last
  pub same_size : p.cache_size ≡ size

joined_up-append :
    (xs ys : List (List (List ℕ))) → joined_up (xs ++ ys) ≡ joined_up xs ++ joined_up ys
joined_up-append [] ys = refl
joined_up-append (x ∷ xs) ys = ap (λ t. flatten x ∷ t) (joined_up-append xs ys)

flatten_one : (batch : List (List ℕ)) → flatten (batch ∷ []) ≡ batch
unfolding flatten
flatten_one batch = append-nil batch

flatten_bytes : (content : List ℕ) → flatten (content ∷ []) ≡ content
unfolding flatten
flatten_bytes content = append-nil content

pub contents_written-write_out :
    (msg : PushedMessage) (w : Option Bool)
    → (write_out msg w).0 ≡ true
    → contents_written (write_out msg w).1 ≡ msg.content ∷ []
unfolding write_out
contents_written-write_out msg none ok = absurd cc
contents_written-write_out msg (some true) ok = refl
contents_written-write_out msg (some false) ok = refl

pub contents_written-append :
    (xs ys : List PushAction)
    → contents_written (xs ++ ys) ≡ contents_written xs ++ contents_written ys
contents_written-append [] ys = refl
contents_written-append (written msg ∷ xs) ys =
    ap (λ t. msg.content ∷ t) (contents_written-append xs ys)
contents_written-append (released msg ∷ xs) ys = contents_written-append xs ys
contents_written-append (wake_peer ∷ xs) ys = contents_written-append xs ys

-- The cache is written.
pub written_cache :
    (size : ℕ) (p : Pusher) (contents msgs : List (List ℕ)) (msg : PushedMessage)
    → p.cache_msg ≡ some msg
    → Batched size p contents msgs
    → Batched size (record p { cache_msg = none }) contents (msgs ++ msg.content ∷ [])
written_cache size p contents msgs msg e b =
    let held = subst (λ m. IsCached size m b.last) e b.cached in
    record {
      batches = b.batches ++ b.last ∷ [];
      last = [];
      all =
          b.all
          ∙ ap (λ t. flatten b.batches ++ t) (sym (flatten_one b.last))
          ∙ sym (flatten-append b.batches (b.last ∷ []))
          ∙ sym (append-nil (flatten (b.batches ++ b.last ∷ [])));
      messages =
          ap₂ (λ x y. x ++ y ∷ []) b.messages (sym held.0)
          ∙ sym (joined_up-append b.batches (b.last ∷ []));
      fit =
          All-more (Fits size) b.batches (b.last ∷ []) b.fit
            (inl (omega (arith, held.1, ap (λ (t : List ℕ). length t) held.0)), tt);
      cached = refl;
      same_size = b.same_size;
    }

module _ (size : ℕ) (p : Pusher) (contents msgs : List (List ℕ)) (content : List ℕ)
    (b : Batched size p contents msgs) where
  -- What a call that pushes a content promises.
  abbrev pub KeepsBatches : PushResult → Type 0
  KeepsBatches r =
      r.ok ≡ true
      → Batched size r.pusher (contents ++ content ∷ []) (msgs ++ contents_written r.actions)

  no_last : p.cache_msg ≡ none → b.last ≡ []
  no_last e = subst (λ m. IsCached size m b.last) e b.cached

  -- A content as a message of its own.
  written_alone :
      (actions : List PushAction)
      → p.cache_msg ≡ none
      → contents_written actions ≡ content ∷ []
      → Batched size p (contents ++ content ∷ []) (msgs ++ contents_written actions)
  written_alone actions e w =
      let before : contents ≡ flatten b.batches =
        b.all ∙ ap (λ t. flatten b.batches ++ t) (no_last e) ∙ append-nil (flatten b.batches) in
      record {
        batches = b.batches ++ (content ∷ []) ∷ [];
        last = [];
        all =
            ap₂ (λ x y. x ++ y) before (sym (flatten_one (content ∷ [])))
            ∙ sym (flatten-append b.batches ((content ∷ []) ∷ []))
            ∙ sym (append-nil (flatten (b.batches ++ (content ∷ []) ∷ [])));
        messages =
            ap₂ (λ x y. x ++ y) b.messages (w ∙ ap (λ t. t ∷ []) (sym (flatten_bytes content)))
            ∙ sym (joined_up-append b.batches ((content ∷ []) ∷ []));
        fit = All-more (Fits size) b.batches ((content ∷ []) ∷ []) b.fit (inr (content, refl), tt);
        cached = subst (λ m. IsCached size m []) (sym e) refl;
        same_size = b.same_size;
      }

  do_write_message-Batched :
      (o : PushOutcome) → p.cache_msg ≡ none → KeepsBatches (do_write_message o content p)
  unfolding do_write_message
  do_write_message-Batched o e =
      let msg : PushedMessage = record { content = content; timestamp = p.timestamp } in
      if_both KeepsBatches o.allocated _ _
        (λ ok.
          written_alone (write_out msg o.message_written).1 e
            (contents_written-write_out msg o.message_written ok))
        (λ ok. absurd cc)

  pub start_cache-Batched :
      (o : PushOutcome) → p.cache_msg ≡ none → KeepsBatches (start_cache o content p)
  unfolding start_cache
  start_cache-Batched o e = elim (Bool-cases (leb p.cache_size (length content))) [
    | inl big ↦ simp big (do_write_message-Batched o e)
    | inr small ↦ simp small (
        if_both KeepsBatches o.allocated _ _
          (λ ok. record {
            batches = b.batches;
            last = content ∷ [];
            all =
                ap (λ t. t ++ content ∷ [])
                  (b.all
                    ∙ ap (λ t. flatten b.batches ++ t) (no_last e)
                    ∙ append-nil (flatten b.batches));
            messages = append-nil msgs ∙ b.messages;
            fit = b.fit;
            cached = (
              flatten_bytes content,
              omega (arith, b.same_size, leb_false→lt p.cache_size (length content) small),
            );
            same_size = b.same_size;
          })
          (λ ok. absurd cc))
  ]

  -- The cache takes one more content.
  pub appended :
      (msg : PushedMessage)
      → p.cache_msg ≡ some msg
      → length content + length msg.content ≤ p.cache_size
      → Batched size
          (record p { cache_msg = some (record msg { content = msg.content ++ content }) })
          (contents ++ content ∷ [])
          msgs
  appended msg e fits =
      let held = subst (λ m. IsCached size m b.last) e b.cached in
      record {
        batches = b.batches;
        last = b.last ++ content ∷ [];
        all =
            ap (λ t. t ++ content ∷ []) b.all
            ∙ append_assoc (flatten b.batches) b.last (content ∷ []);
        messages = b.messages;
        fit = b.fit;
        cached = (
          flatten-append b.last (content ∷ []) ∙ ap₂ (λ x y. x ++ y) held.0 (flatten_bytes content),
          omega (arith, b.same_size, length-append msg.content content),
        );
        same_size = b.same_size;
      }
