-- ===== src/Pgm/Receiver/Pushed.antt =====
-- What the sinks of PGMReceiver (src/pgm_receiver.cc) are given of the messages of a parser.
use flash_forwarder.Prelude.{
  ℕ, suc, ◌≡◌, refl, ap, ◌∙◌, List, [], ◌∷◌, ◌++◌, Option, none, some, length, lt→ltb, arith,
}
use flash_forwarder.Pgm.Peer.{Parsing}
use flash_forwarder.Pgm.Delivery.{
  ReceiveStatus, Action, push_message, begin_push, end_push, stop_sinks, close_handles, add_timer,
  cancel_timer, handle_raw, handle_message, handle_messages,
}

-- What the sinks are given.
abbrev pub pushed : List Action → List (List ℕ)
pushed [] = []
pushed (push_message msg ∷ actions) = msg ∷ pushed actions
pushed (_ ∷ actions) = pushed actions

-- What becomes of some messages: each as it is, or what the increment makes of it, if that is anything.
abbrev pub kept : List ℕ → List (List ℕ) → List (List ℕ)
kept [] rest = rest
kept (b ∷ bs) rest = (b ∷ bs) ∷ rest

abbrev pub applied {ℓ} : {P A : Type ℓ} → Parsing P A → Option A → List (List ℕ) → List (List ℕ)
applied parsing none msgs = msgs
applied parsing (some a) [] = []
applied parsing (some a) (msg ∷ msgs) =
    let (raw, a') = parsing.apply msg a in kept raw (applied parsing (some a') msgs)

abbrev pub increment_after {ℓ} : {P A : Type ℓ} → Parsing P A → Option A → List (List ℕ) → Option A
increment_after parsing none msgs = none
increment_after parsing (some a) [] = some a
increment_after parsing (some a) (msg ∷ msgs) =
    increment_after parsing (some (parsing.apply msg a).1) msgs

handle_raw-kept {ℓ} :
    {A : Type ℓ} (content raw : List ℕ) (a : A) (status : ReceiveStatus) (rest : List (List ℕ))
    → let r = handle_raw content (raw, a) status in
      (r.0 ≡ some a)
      × (pushed r.2 ++ rest ≡ kept raw rest)
      × (r.1.total_missed_packets ≡ status.total_missed_packets)
unfolding handle_raw
handle_raw-kept content [] a status rest = (refl, refl, refl)
handle_raw-kept content (b ∷ bs) a status rest =
    rw (lt→ltb 0 (suc (length bs)) (omega arith)) (refl, refl, refl)

pub pushed-append : (xs ys : List Action) → pushed (xs ++ ys) ≡ pushed xs ++ pushed ys
pushed-append [] ys = refl
pushed-append (push_message msg ∷ xs) ys = ap (λ t. msg ∷ t) (pushed-append xs ys)
pushed-append (begin_push time ∷ xs) ys = pushed-append xs ys
pushed-append (end_push ∷ xs) ys = pushed-append xs ys
pushed-append (stop_sinks ∷ xs) ys = pushed-append xs ys
pushed-append (close_handles ∷ xs) ys = pushed-append xs ys
pushed-append (add_timer n id ∷ xs) ys = pushed-append xs ys
pushed-append (cancel_timer id ∷ xs) ys = pushed-append xs ys

module _ {ℓ} {P A : Type ℓ} (parsing : Parsing P A) where
  -- HandleMessage on messages, in order.
  pub handle_messages-applied :
      (msgs : List (List ℕ)) (a : Option A) (status : ReceiveStatus)
      → let r = handle_messages parsing msgs a status in
        (r.0 ≡ increment_after parsing a msgs)
        × (pushed r.2 ≡ applied parsing a msgs)
        × (r.1.total_missed_packets ≡ status.total_missed_packets)
  unfolding handle_messages handle_message
  handle_messages-applied [] none status = (refl, refl, refl)
  handle_messages-applied [] (some a) status = (refl, refl, refl)
  handle_messages-applied (msg ∷ msgs) none status =
      let r = handle_message parsing msg none status in
      let (x, y, z) = handle_messages-applied msgs r.0 r.1 in (x, ap (λ t. msg ∷ t) y, z)
  handle_messages-applied (msg ∷ msgs) (some a) status =
      let (raw, a') = parsing.apply msg a in
      let r = handle_raw msg (raw, a') status in
      let (now, given, missed) =
        handle_raw-kept msg raw a' status (applied parsing (some a') msgs) in
      let (x, y, z) = handle_messages-applied msgs r.0 r.1 in
      (
        x ∙ ap (λ o. increment_after parsing o msgs) now,
        pushed-append r.2 (handle_messages parsing msgs r.0 r.1).2
            ∙ ap (λ t. pushed r.2 ++ t) (y ∙ ap (λ o. applied parsing o msgs) now)
            ∙ given,
        z ∙ missed,
      )
