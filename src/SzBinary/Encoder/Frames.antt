-- ===== src/SzBinary/Encoder/Frames.antt =====
-- What `encode` and `flush` make of a message when nothing waits: one whole frame.
use flash_forwarder.Prelude.{
  ℕ, zero, suc, ◌+◌, ◌-◌, ◌*◌, ◌/◌, ◌^◌, ◌≤◌, ◌<◌, ◌≡◌, refl, sym, ap, subst, ◌∙◌, List, [], ◌∷◌,
  ◌++◌, some, true, length, take, drop, All, append-nil, arith, length-append, take-append,
  drop-append, length-drop, take_of_length_le, take-append-drop, le→leb, ◌≢◌, drop-add,
}
use mathlib.Core.List.{flatten}
use flash_forwarder.Prelude.Bits.{and-ff}
use flash_forwarder.Wire.{IsByte, put_uint32, get_uint32}
use flash_forwarder.Wire.RoundTrip.{get_uint32-put_uint32}
use flash_forwarder.SzBinary.Decoder
use flash_forwarder.SzBinary.Decoder.{generate_checksum, decode_all, returned}
use flash_forwarder.SzBinary.Decoder.Frames.{IsFrame}
use flash_forwarder.SzBinary.Decoder.Stream.{Framed, decode_all-flatten}
use flash_forwarder.SzBinary.Encoder.{
  MsgType, logon, logout, heartbeat, others, Encoder, wait_buffer, set_wait, load, swap_two,
  swap_three, sum_bytes, add_tail, finish, encode, flush, host_uint32, ◌>>=◌,
}

length-put_uint32 : (v : ℕ) → length (put_uint32 v) ≡ 4
unfolding put_uint32
length-put_uint32 v = refl

checksum-lt : (b : List ℕ) → generate_checksum b < 2 ^ 32
unfolding generate_checksum
checksum-lt b = omega arith

sum_bytes-checksum : (b : List ℕ) → sum_bytes b ≡ generate_checksum b
unfolding generate_checksum
sum_bytes-checksum b = refl

-- A head with the length of the body, the body, and the checksum of both.
framed :
    (t n : ℕ) (rest : List ℕ)
    → length rest ≡ n
    → n + 12 < 2 ^ 31
    → let p = put_uint32 t ++ put_uint32 n ++ rest in
      IsFrame n (p ++ put_uint32 (generate_checksum p))
unfolding put_uint32
framed t n rest l s =
    let p = put_uint32 t ++ put_uint32 n ++ rest in
    let w = put_uint32 (generate_checksum p) in
    let lf : length (p ++ w) - 4 ≡ length p = omega (arith, length-append p w) in
    record {
      size = omega (arith, length-append p w);
      small = s;
      body_length = get_uint32-put_uint32 n (rest ++ w) (omega arith);
      checksum =
          ap (λ k. get_uint32 (drop k (p ++ w))) lf
          ∙ ap get_uint32 (drop-append p w ∙ sym (append-nil w))
          ∙ get_uint32-put_uint32 (generate_checksum p) [] (checksum-lt p)
          ∙ ap (λ t. some (generate_checksum t)) (sym (take-append p w))
          ∙ ap (λ k. some (generate_checksum (take k (p ++ w)))) (sym lf);
    }

-- A word of a struct, stored in network order, is its bytes in reverse.
pub put-host :
    (b0 b1 b2 b3 : ℕ)
    → (b0 < 256) × (b1 < 256) × (b2 < 256) × (b3 < 256)
    → put_uint32 (b0 + b1 * 2 ^ 8 + b2 * 2 ^ 16 + b3 * 2 ^ 24) ≡ b3 ∷ b2 ∷ b1 ∷ b0 ∷ []
unfolding put_uint32
put-host b0 b1 b2 b3 h =
    let v = b0 + b1 * 2 ^ 8 + b2 * 2 ^ 16 + b3 * 2 ^ 24 in
    ground (arith, and-ff (v / 2 ^ 24), and-ff (v / 2 ^ 16), and-ff (v / 2 ^ 8), and-ff (v / 2 ^ 0))

-- The bytes from `k` on with the first four in reverse.
abbrev pub reverse_word : List ℕ → List ℕ
reverse_word (b0 ∷ b1 ∷ b2 ∷ b3 ∷ xs) = b3 ∷ b2 ∷ b1 ∷ b0 ∷ xs
reverse_word xs = xs

abbrev pub reverse_word_at : ℕ → List ℕ → List ℕ
reverse_word_at k xs = take k xs ++ reverse_word (drop k xs)

All-drop : (k : ℕ) (xs : List ℕ) → All IsByte xs → All IsByte (drop k xs)
All-drop zero xs h = h
All-drop (suc k) [] h = tt
All-drop (suc k) (x ∷ xs) h = All-drop k xs h.1

-- The word that `load` reads, and what `store` makes of it.
record Word (xs : List ℕ) : Type 0 where
  v : ℕ
  read : host_uint32 xs ≡ some v
  stored : put_uint32 v ++ drop 4 xs ≡ reverse_word xs

word : (xs : List ℕ) → 4 ≤ length xs → All IsByte xs → Word xs
word [] h b = absurd (omega arith)
word (b0 ∷ []) h b = absurd (omega arith)
word (b0 ∷ b1 ∷ []) h b = absurd (omega arith)
word (b0 ∷ b1 ∷ b2 ∷ []) h b = absurd (omega arith)
word (b0 ∷ b1 ∷ b2 ∷ b3 ∷ xs) h (h0, (h1, (h2, (h3, _)))) = record {
  v = b0 + b1 * 2 ^ 8 + b2 * 2 ^ 16 + b3 * 2 ^ 24;
  read = refl;
  stored = ap (λ t. t ++ xs) (put-host b0 b1 b2 b3 (h0, h1, h2, h3));
}

-- The body in network order: the one word of it that is a number, if there is one.
abbrev pub network_body : MsgType → List ℕ → List ℕ
network_body logon rest = reverse_word_at 40 rest
network_body logout rest = reverse_word rest
network_body heartbeat rest = rest
network_body others rest = rest

-- The bytes that a body must have for its struct.
abbrev pub least_body : MsgType → ℕ
least_body logon = 44
least_body logout = 4
least_body heartbeat = 0
least_body others = 0

module _ (t0 t1 t2 t3 l0 l1 l2 l3 : ℕ) (rest : List ℕ)
    (bt : (t0 < 256) × (t1 < 256) × (t2 < 256) × (t3 < 256))
    (bl : (l0 < 256) × (l1 < 256) × (l2 < 256) × (l3 < 256)) (br : All IsByte rest) where
  -- The struct in memory, and its head in network order.
  abbrev pub in_memory : List ℕ
  in_memory = t0 ∷ t1 ∷ t2 ∷ t3 ∷ l0 ∷ l1 ∷ l2 ∷ l3 ∷ rest

  abbrev pub on_wire : List ℕ → List ℕ
  on_wire body = t3 ∷ t2 ∷ t1 ∷ t0 ∷ l3 ∷ l2 ∷ l1 ∷ l0 ∷ body

  swap_two_lem : swap_two in_memory ≡ some (on_wire rest)
  swap_two_lem = rw (put-host t0 t1 t2 t3 bt) (rw (put-host l0 l1 l2 l3 bl) refl)

  swap_three_lem :
      (k : ℕ)
      → k + 4 ≤ length rest
      → swap_three (suc (suc (suc (suc (suc (suc (suc (suc k)))))))) in_memory
        ≡ some (on_wire (reverse_word_at k rest))
  swap_three_lem k h =
      let w = word (drop k rest) (omega (arith, length-drop k rest)) (All-drop k rest br) in
      let n : suc (suc (suc (suc (suc (suc (suc (suc k))))))) + 4
          ≡ suc (suc (suc (suc (suc (suc (suc (suc (4 + k)))))))) =
        omega arith in
      rw (w.read, ◌>>=◌)
        (rw (put-host t0 t1 t2 t3 bt) (
          rw (put-host l0 l1 l2 l3 bl) (
            ap (λ t. some (on_wire (take k rest ++ t)))
              (ap (λ m. put_uint32 w.v ++ drop m (on_wire rest)) n
                ∙ ap (λ t. put_uint32 w.v ++ t) (sym (drop-add k 4 rest))
                ∙ w.stored))))

  -- The whole message on the wire: head, body and the checksum of both.
  abbrev pub message : MsgType → List ℕ
  message type = let p = on_wire (network_body type rest) in p ++ put_uint32 (generate_checksum p)

  length-reverse_word : (xs : List ℕ) → length (reverse_word xs) ≡ length xs
  length-reverse_word [] = refl
  length-reverse_word (_ ∷ []) = refl
  length-reverse_word (_ ∷ _ ∷ []) = refl
  length-reverse_word (_ ∷ _ ∷ _ ∷ []) = refl
  length-reverse_word (_ ∷ _ ∷ _ ∷ _ ∷ xs) = refl

  length-network_body : (type : MsgType) → length (network_body type rest) ≡ length rest
  length-network_body logon =
      length-append (take 40 rest) (reverse_word (drop 40 rest))
      ∙ omega (
        arith,
        length-reverse_word (drop 40 rest),
        length-append (take 40 rest) (drop 40 rest),
        ap length (take-append-drop 40 rest),
      )
  length-network_body logout = length-reverse_word rest
  length-network_body heartbeat = refl
  length-network_body others = refl

  tail_lem :
      (body : List ℕ)
      → length body ≡ length rest
      → add_tail (length in_memory) (on_wire body)
        ≡ some (on_wire body ++ put_uint32 (generate_checksum (on_wire body)))
  unfolding add_tail generate_checksum
  tail_lem body e =
      let l : length in_memory ≡ length (on_wire body) = omega arith in
      rw (le→leb (length in_memory) (length (on_wire body)) (omega arith)) (
        ap (λ t. some (on_wire body ++ put_uint32 (sum_bytes t)))
          (take_of_length_le (length in_memory) (on_wire body) (omega arith)))

  finish_lem :
      (type : MsgType)
      → type ≢ others
      → least_body type ≤ length rest
      → finish type (length in_memory) in_memory ≡ some (message type)
  unfolding finish
  finish_lem logon ne h =
      ap (λ o. o >>= add_tail (length in_memory)) (swap_three_lem 40 (omega arith))
      ∙ (tail_lem (network_body logon rest) (length-network_body logon))
  finish_lem logout ne h =
      ap (λ o. o >>= add_tail (length in_memory)) (swap_three_lem 0 (omega arith))
      ∙ (tail_lem (network_body logout rest) (length-network_body logout))
  finish_lem heartbeat ne h =
      ap (λ o. o >>= add_tail (length in_memory)) swap_two_lem ∙ tail_lem rest refl
  finish_lem others ne h = absurd (ne refl)

  body_length : ℕ
  body_length = l0 + l1 * 2 ^ 8 + l2 * 2 ^ 16 + l3 * 2 ^ 24

  message-IsFrame :
      (type : MsgType)
      → body_length ≡ length rest
      → length rest + 12 < 2 ^ 31
      → IsFrame (length rest) (message type)
  unfolding body_length
  message-IsFrame type e h =
      let t = t0 + t1 * 2 ^ 8 + t2 * 2 ^ 16 + t3 * 2 ^ 24 in
      let body = network_body type rest in
      let p : put_uint32 t ++ put_uint32 (length rest) ++ body ≡ on_wire body =
        rw (← e) (rw (put-host t0 t1 t2 t3 bt) (rw (put-host l0 l1 l2 l3 bl) refl)) in
      subst (λ q. IsFrame (length rest) (q ++ put_uint32 (generate_checksum q))) p
        (framed t (length rest) body (length-network_body type) h)

-- The message on the wire: head and body in network order, and the checksum of both.
abbrev pub network_message : MsgType → List ℕ → List ℕ
network_message type (t0 ∷ t1 ∷ t2 ∷ t3 ∷ l0 ∷ l1 ∷ l2 ∷ l3 ∷ rest) =
    let p = t3 ∷ t2 ∷ t1 ∷ t0 ∷ l3 ∷ l2 ∷ l1 ∷ l0 ∷ network_body type rest in
    p ++ put_uint32 (generate_checksum p)
network_message type xs = []

-- A message struct in memory, with the length of its body in its head.
pub record IsMessage (type : MsgType) (content : List ℕ) : Type 0 where
  pub bytes : All IsByte content
  pub has_type : type ≢ others
  pub whole : 8 + least_body type ≤ length content
  pub body_len : load 4 content ≡ some (length content - 8)
  pub small : length content + 4 < 2 ^ 31

pub wait-set_wait : (e : Encoder) (b : List ℕ) → (flush (set_wait e b)).0 ≡ b
unfolding flush
wait-set_wait e b = ground arith

record Sent (type : MsgType) (content : List ℕ) : Type 0 where
  finished : finish type (length content) content ≡ some (network_message type content)
  frame : Framed (network_message type content)

sent : (type : MsgType) (content : List ℕ) → IsMessage type content → Sent type content
sent type [] m = absurd (omega (arith, m.whole))
sent type (_ ∷ []) m = absurd (omega (arith, m.whole))
sent type (_ ∷ _ ∷ []) m = absurd (omega (arith, m.whole))
sent type (_ ∷ _ ∷ _ ∷ []) m = absurd (omega (arith, m.whole))
sent type (_ ∷ _ ∷ _ ∷ _ ∷ []) m = absurd (omega (arith, m.whole))
sent type (_ ∷ _ ∷ _ ∷ _ ∷ _ ∷ []) m = absurd (omega (arith, m.whole))
sent type (_ ∷ _ ∷ _ ∷ _ ∷ _ ∷ _ ∷ []) m = absurd (omega (arith, m.whole))
sent type (_ ∷ _ ∷ _ ∷ _ ∷ _ ∷ _ ∷ _ ∷ []) m = absurd (omega (arith, m.whole))
sent type (t0 ∷ t1 ∷ t2 ∷ t3 ∷ l0 ∷ l1 ∷ l2 ∷ l3 ∷ rest) m =
    let (b0, (b1, (b2, (b3, (c0, (c1, (c2, (c3, br)))))))) = m.bytes in
    let bt : (t0 < 256) × (t1 < 256) × (t2 < 256) × (t3 < 256) = (b0, b1, b2, b3) in
    let bl : (l0 < 256) × (l1 < 256) × (l2 < 256) × (l3 < 256) = (c0, c1, c2, c3) in
    record {
      finished =
          finish_lem t0 t1 t2 t3 l0 l1 l2 l3 rest bt bl br type m.has_type (omega (arith, m.whole));
      frame = (
        length rest,
        message-IsFrame t0 t1 t2 t3 l0 l1 l2 l3 rest bt bl br type
            (unfold body_length in ground (arith, m.body_len)) (omega (arith, m.small)),
      );
    }

-- A logon, logout or heartbeat, encoded while nothing waits, is flushed as its network form; and a
-- decoder as new hands over just that, however its bytes are cut into chunks.
pub encode-flush-decode :
    (e : Encoder) (type : MsgType) (content : List ℕ) (chunks : List (List ℕ))
    → IsMessage type content
    → wait_buffer e ≡ []
    → flatten chunks ≡ network_message type content
    → (e' : Encoder) × (encode e content type ≡ some e')
      × ((flush e').0 ≡ network_message type content)
      × (decode_all Decoder.fresh chunks
          ≡ returned true Decoder.fresh (network_message type content ∷ []))
unfolding encode
encode-flush-decode e type content chunks m w c =
    let s = sent type content m in
    (
      set_wait e (network_message type content),
      rw w (rw s.finished refl),
      wait-set_wait e (network_message type content),
      decode_all-flatten chunks (network_message type content ∷ []) (s.frame, tt)
          (c ∙ unfold flatten in sym (append-nil (network_message type content))),
    )
