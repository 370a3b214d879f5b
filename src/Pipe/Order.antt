-- ===== src/Pipe/Order.antt =====
-- The messages of a pipe (src/pipe.cpp) in order, and its end.
use flash_forwarder.Prelude.{
  ℕ, ◌≡◌, ◌≢◌, refl, sym, ap₂, ◌∙◌, List, [], ◌∷◌, ◌++◌, Bool, true, false, All, append_assoc,
  append-nil,
}
use flash_forwarder.Queue.Spsc.{SpscQueue}
use flash_forwarder.Queue.Order.{queue_order}
use flash_forwarder.Pipe.{Pipe}
use flash_forwarder.Pipe.Calls.{Calls, items}
use flash_forwarder.Pipe.Steps.{Calls-Steps}

-- Two lists without null pointers that agree up to a null pointer are the same.
up_to_null :
    (xs ys us vs : List ℕ)
    → All (λ m. m ≢ 0) xs
    → All (λ m. m ≢ 0) ys
    → xs ++ 0 ∷ us ≡ ys ++ 0 ∷ vs
    → xs ≡ ys
up_to_null [] [] us vs a b e = refl
up_to_null [] (y ∷ ys) us vs a b e = absurd (b.0 cc)
up_to_null (x ∷ xs) [] us vs a b e = absurd (a.0 cc)
up_to_null (x ∷ xs) (y ∷ ys) us vs a b e =
    let heads : x ≡ y = cc in
    let tails : xs ++ 0 ∷ us ≡ ys ++ 0 ∷ vs = cc in
    ap₂ (λ z zs. z ∷ zs) heads (up_to_null xs ys us vs a.1 b.1 tails)

-- A list without null pointers that goes on to a null pointer at most is shorter than the rest.
before_null :
    (xs ys us : List ℕ)
    → All (λ m. m ≢ 0) xs
    → ys ++ 0 ∷ [] ≡ xs ++ us
    → (rest : List ℕ) × (ys ≡ xs ++ rest)
before_null [] ys us a e = (ys, refl)
before_null (x ∷ xs) [] us a e = absurd (a.0 cc)
before_null (x ∷ xs) (y ∷ ys) us a e =
    let heads : y ≡ x = cc in
    let tails : ys ++ 0 ∷ [] ≡ xs ++ us = cc in
    let (rest, z) = before_null xs ys us a.1 tails in (rest, ap₂ (λ h t. h ∷ t) heads z)

no_null : (xs ys us : List ℕ) → All (λ m. m ≢ 0) xs → xs ≢ ys ++ 0 ∷ us
no_null [] [] us a e = cc
no_null [] (y ∷ ys) us a e = cc
no_null (x ∷ xs) [] us a e = a.0 cc
no_null (x ∷ xs) (y ∷ ys) us a e = let tails : xs ≡ ys ++ 0 ∷ us = cc in no_null xs ys us a.1 tails

-- What was read is a start of what was written, and so for the messages in front of the null pointers.
in_order :
    (sent got : List ℕ) (w_ended r_ended : Bool) (rest : List ℕ)
    → All (λ m. m ≢ 0) sent
    → All (λ m. m ≢ 0) got
    → items w_ended sent ≡ items r_ended got ++ rest
    → ((rest' : List ℕ) × (sent ≡ got ++ rest')) × (r_ended ≡ true → got ≡ sent)
in_order sent got false false rest hs hg e = ((rest, e), λ h. absurd cc)
in_order sent got true false rest hs hg e = (before_null got sent rest hg e, λ h. absurd cc)
in_order sent got false true rest hs hg e =
    absurd (no_null sent got rest hs (e ∙ append_assoc got (0 ∷ []) rest))
in_order sent got true true rest hs hg e =
    let same = sym (up_to_null sent got [] rest hs hg (e ∙ append_assoc got (0 ∷ []) rest)) in
    (([], sym same ∙ sym (append-nil got)), λ h. same)

-- After any calls of the two ends, each whole, on messages that are no null pointers: DoRead gave the
-- first of the messages that Write took and Unwrite did not take back, each once and in order; and once
-- it has found the end of the pipe, it gave them all.
pub do_read-write_message :
    {w r : Pipe} {q : SpscQueue ℕ} {sent got : List ℕ}
    → Calls w r q sent got
    → ((rest : List ℕ) × (sent ≡ got ++ rest)) × (r.peer_terminated ≡ true → got ≡ sent)
do_read-write_message {w} {r} {q} {sent} {got} c =
    let s = Calls-Steps c in
    let (rest, e) = queue_order s.run in
    in_order sent got w.terminated r.peer_terminated rest s.sent_real s.got_real e
