-- ===== src/SzBinary/Decoder/Checks.antt =====
-- The checksum test of src/szBinary_decoder.hpp: what it lets through and what it throws away.
use flash_forwarder.Prelude.{
  ℕ, zero, suc, ◌+◌, ◌-◌, ◌*◌, ◌^◌, ◌<◌, ◌≡◌, ◌≢◌, refl, sym, ap, ◌∙◌, List, [], ◌∷◌, ◌++◌, true,
  false, Option, none, some, Bool-cases, if_both, inl, inr, ◌==◌, ==→eq, ne→==_false, length, take,
  drop, All, arith, take-append, length-take, length-drop, take-append-drop, length-append,
  drop_append_le, take_append_le, take-add, drop-add,
}
use mathlib.Core.List.{reverse}
use flash_forwarder.Wire.{get_uint32}
use flash_forwarder.Wire.RoundTrip.{get_uint32-append}
use flash_forwarder.SzBinary.Decoder.{
  State, head, body, tail, Decoder, fresh, Result, returned, fault, stuck, after_calls, decode_loop,
  decode, Consumed, next, reject, bad_read, consume, consume_in, consume_head, consume_body,
  consume_tail, check_tail, start_body, head_size, tail_size, push_bytes, rounds, reached, keep_all,
  move_by, forward, move, lack, generate_checksum,
}
use flash_forwarder.SzBinary.Decoder.Frames.{head_runs, body_runs}
use flash_forwarder.SzBinary.Decoder.Steps.{consume_at_head, consume_at_body, consume_at_tail}
use flash_forwarder.SzBinary.Decoder.Stream.{loop_step}

-- The last word of a buffer is the checksum of what stands before it.
abbrev pub Checked : List ℕ → Type 0
Checked b = get_uint32 (drop (length b - 4) b) ≡ some (generate_checksum (take (length b - 4) b))

abbrev Sound : Consumed → Type 0
Sound (next m d out) = All Checked out
Sound (reject d) = d ≡ fresh
Sound bad_read = Unit {0}

check_tail-Sound :
    (l : ℕ) (b : List ℕ) (w : Option ℕ)
    → get_uint32 (drop (length b - 4) b) ≡ w
    → Sound (check_tail l b w)
check_tail-Sound l b none e = tt
check_tail-Sound l b (some w) e =
    elim (Bool-cases (w == generate_checksum (take (length b - 4) b))) [
      | inl h ↦ rw h (e ∙ ap some (==→eq _ _ h), tt)
      | inr h ↦ rw h refl
    ]

start_body-Sound : (l : ℕ) (b : List ℕ) (w : Option ℕ) → Sound (start_body l b w)
start_body-Sound l b none = tt
start_body-Sound l b (some w) = tt

head-Sound : (d : Decoder) (c : List ℕ) → Sound (consume_head d c)
unfolding consume_head
head-Sound d c =
    let l = lack head_size (length d.decode_buffer) in
    let b = push_bytes d (rounds l) c in
    if_both Sound (reached l (length c)) (start_body l b (get_uint32 (drop 4 b))) (keep_all d c)
      (start_body-Sound l b (get_uint32 (drop 4 b))) tt

body-Sound : (d : Decoder) (c : List ℕ) → Sound (consume_body d c)
unfolding consume_body
body-Sound d c =
    let l = lack (d.body_size + head_size) (length d.decode_buffer) in
    if_both Sound (reached l (length c))
      (next (move_by l) (record d { state = tail; decode_buffer = push_bytes d (rounds l) c }) [])
      (keep_all d c) tt tt

tail-Sound : (d : Decoder) (c : List ℕ) → Sound (consume_tail d c)
unfolding consume_tail
tail-Sound d c =
    let l = lack (d.body_size + head_size + tail_size) (length d.decode_buffer) in
    let b = push_bytes d (rounds l) c in
    if_both Sound (reached l (length c)) (check_tail l b (get_uint32 (drop (length b - 4) b)))
      (keep_all d c) (check_tail-Sound l b (get_uint32 (drop (length b - 4) b)) refl) tt

consume_in-Sound : (s : State) (d : Decoder) (c : List ℕ) → Sound (consume_in s d c)
unfolding consume_in
consume_in-Sound head d c = head-Sound d c
consume_in-Sound body d c = body-Sound d c
consume_in-Sound tail d c = tail-Sound d c

-- What `decode` handed over, and the decoder that it left if it returned -1.
abbrev pub Passed : Result → Type 0
Passed (returned true d out) = All Checked out
Passed (returned false d out) = All Checked out × (d ≡ fresh)
Passed (fault out) = All Checked out
Passed (stuck out) = All Checked out

All-append : (xs ys : List (List ℕ)) → All Checked xs → All Checked ys → All Checked (xs ++ ys)
All-append [] ys p q = q
All-append (x ∷ xs) ys p q = (p.0, All-append xs ys p.1 q)

after_calls-Passed :
    (out : List (List ℕ)) (r : Result) → All Checked out → Passed r → Passed (after_calls out r)
after_calls-Passed out (returned true d o) p q = All-append out o p q
after_calls-Passed out (returned false d o) p q = (All-append out o p q.0, q.1)
after_calls-Passed out (fault o) p q = All-append out o p q
after_calls-Passed out (stuck o) p q = All-append out o p q

-- One round, where the rounds that follow are right.
module _ (fuel : ℕ)
    (ih : (d : Decoder) (before c : List ℕ) → Passed (decode_loop fuel d before c)) where
  turn-Passed :
      (d : Decoder) (out : List (List ℕ)) (at : Option (List ℕ × List ℕ))
      → All Checked out
      → Passed
          (elim at [ none ↦ fault out | some (b, a) ↦ after_calls out (decode_loop fuel d b a) ])
  turn-Passed d out none h = h
  turn-Passed d out (some (b, a)) h = after_calls-Passed out (decode_loop fuel d b a) h (ih d b a)

  round-Passed :
      (before c : List ℕ) (r : Consumed)
      → Sound r
      → Passed (elim r [
        | next m d' out ↦ elim (move m before c) [
          | none ↦ fault out
          | some (b, a) ↦ after_calls out (decode_loop fuel d' b a)
        ]
        | reject d' ↦ returned false d' []
        | bad_read ↦ fault []
      ])
  round-Passed before c (next m d' out) h = turn-Passed d' out (move m before c) h
  round-Passed before c (reject d') h = (tt, h)
  round-Passed before c bad_read h = tt

decode_loop-Passed :
    (fuel : ℕ) (d : Decoder) (before c : List ℕ) → Passed (decode_loop fuel d before c)
unfolding decode_loop
decode_loop-Passed fuel d before [] = tt
decode_loop-Passed zero d before (x ∷ xs) = tt
decode_loop-Passed (suc fuel) d before (x ∷ xs) =
    round-Passed fuel (decode_loop-Passed fuel) before (x ∷ xs) (consume d (x ∷ xs))
      (unfold consume in consume_in-Sound d.state d (x ∷ xs))

-- From any state and on any bytes, in any number of rounds of its loop, `decode` hands over only buffers
-- whose last word is the checksum of the bytes before it, whether it then returned, stopped at an access
-- outside the chunk or the buffer, or goes on; and a return of -1 leaves the decoder as new.
pub decode-Passed :
    (d : Decoder) (c : List ℕ) (turns : ℕ) → Passed (decode d c) × Passed (decode_loop turns d [] c)
unfolding decode
decode-Passed d c turns =
    (decode_loop-Passed (3 * length c + 3) d [] c, decode_loop-Passed turns d [] c)

tail_rejects :
    (d : Decoder) (f junk : List ℕ) (n w : ℕ)
    → d.body_size ≡ n
    → n + 12 < 2 ^ 31
    → length f ≡ n + 12
    → length d.decode_buffer ≡ n + 8
    → d.decode_buffer ++ drop (n + 8) f ≡ f
    → get_uint32 (drop (length f - 4) f) ≡ some w
    → w ≢ generate_checksum (take (length f - 4) f)
    → consume_tail d (drop (n + 8) f ++ junk) ≡ reject fresh
unfolding consume_tail
tail_rejects d f junk n w b s l lb cut e ne =
    let last : length (drop (n + 8) f) ≡ 4 = omega (arith, length-drop (n + 8) f) in
    let lk : lack (d.body_size + 8 + 4) (length d.decode_buffer) ≡ 4 = omega arith in
    let t : take 4 (drop (n + 8) f ++ junk) ≡ drop (n + 8) f =
      ap (λ (k : ℕ). take k (drop (n + 8) f ++ junk)) (sym last)
      ∙ take-append (drop (n + 8) f) junk in
    ground (arith, lk, t, cut, e, last, length-append (drop (n + 8) f) junk, ne→==_false w _ ne)

some_step :
    (fuel : ℕ) (d d' : Decoder) (before c : List ℕ) (k : ℕ)
    → 0 < length c
    → consume d c ≡ next (forward k) d' []
    → decode_loop (suc fuel) d before c
      ≡ after_calls [] (decode_loop fuel d' (reverse (take k c) ++ before) (drop k c))
some_step fuel d d' before [] k h e = absurd (omega arith)
some_step fuel d d' before (x ∷ xs) k h e = loop_step fuel d d' before x xs k [] e

reject_step :
    (fuel : ℕ) (d : Decoder) (before c : List ℕ)
    → 0 < length c
    → consume d c ≡ reject fresh
    → decode_loop (suc fuel) d before c ≡ returned false fresh []
unfolding decode_loop
reject_step fuel d before [] h e = absurd (omega arith)
reject_step fuel d before (x ∷ xs) h e = rw (e, decode_loop)

size_word :
    (n : ℕ) (f : List ℕ)
    → length f ≡ n + 12
    → get_uint32 (drop 4 f) ≡ some n
    → get_uint32 (drop 4 (take 8 f)) ≡ some n
size_word n f l g =
    let t8 : length (take 8 f) ≡ 8 = length-take 8 f (omega arith) in
    sym (get_uint32-append (drop 4 (take 8 f)) (drop 8 f) (omega (arith, length-drop 4 (take 8 f))))
    ∙ ap get_uint32 (sym (drop_append_le 4 (take 8 f) (drop 8 f) (omega arith)))
    ∙ ap (λ t. get_uint32 (drop 4 t)) (take-append-drop 8 f)
    ∙ g

-- A frame of the right size with a wrong last word, read whole by a decoder as new: `decode` returns
-- -1, hands nothing over, drops whatever stands behind the frame in the chunk, and is as new again.
pub decode-bad_checksum :
    (n w : ℕ) (f junk : List ℕ)
    → length f ≡ n + 12
    → n + 12 < 2 ^ 31
    → get_uint32 (drop 4 f) ≡ some n
    → get_uint32 (drop (length f - 4) f) ≡ some w
    → w ≢ generate_checksum (take (length f - 4) f)
    → decode fresh (f ++ junk) ≡ returned false fresh []
unfolding decode
decode-bad_checksum n w f junk l s g e ne =
    let c = f ++ junk in
    let lc : length c ≡ n + 12 + length junk = omega (arith, length-append f junk) in
    let d1 : Decoder = record { state = body; decode_buffer = take 8 c; body_size = n } in
    let b2 = take 8 c ++ take n (drop 8 c) in
    let d2 : Decoder = record { state = tail; decode_buffer = b2; body_size = n } in
    let l8 : length (take 8 c) ≡ 8 = length-take 8 c (omega arith) in
    let b2f : b2 ≡ take (n + 8) f = take-add 8 n c ∙ take_append_le (n + 8) f junk (omega arith) in
    let last : drop n (drop 8 c) ≡ drop (n + 8) f ++ junk =
      drop-add 8 n c ∙ drop_append_le (n + 8) f junk (omega arith) in
    let size : get_uint32 (drop 4 (take 8 c)) ≡ some n =
      ap (λ t. get_uint32 (drop 4 t)) (take_append_le 8 f junk (omega arith)) ∙ size_word n f l g in
    let first = consume_at_head fresh c refl ∙ head_runs fresh c n 8 refl (omega arith) size in
    let second =
      consume_at_body d1 (drop 8 c) refl
      ∙ body_runs d1 (drop 8 c) n n refl s (omega arith) (omega (arith, length-drop 8 c)) in
    let third =
      consume_at_tail d2 (drop n (drop 8 c)) refl
      ∙ (ap (consume_tail d2) last
          ∙ tail_rejects d2 f junk n w refl s l
              (ap length b2f ∙ length-take (n + 8) f (omega arith))
              (ap (λ t. t ++ drop (n + 8) f) b2f ∙ take-append-drop (n + 8) f) e ne) in
    ap (λ t. decode_loop t fresh [] c) {x = 3 * length c + 3} {y = suc (suc (suc (3 * length c)))}
      (omega arith)
    ∙ some_step (suc (suc (3 * length c))) fresh d1 [] c 8 (omega arith) first
    ∙ ap (after_calls []) (
        some_step (suc (3 * length c)) d1 d2 _ (drop 8 c) n (omega (arith, length-drop 8 c)) second
        ∙ ap (after_calls []) (
            reject_step (3 * length c) d2 _ (drop n (drop 8 c))
              (omega (arith, length-drop n (drop 8 c), length-drop 8 c)) third))
