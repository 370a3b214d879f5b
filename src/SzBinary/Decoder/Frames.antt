-- ===== src/SzBinary/Decoder/Frames.antt =====
-- Where a decoder of src/szBinary_decoder.hpp stands in a stream of frames, and one call of `consume`.
use flash_forwarder.Prelude.{
  ℕ, ◌+◌, ◌-◌, ◌*◌, ◌^◌, ◌≤◌, ◌<◌, ◌≡◌, ap, ◌∙◌, List, [], ◌∷◌, ◌++◌, some, length, take, drop,
  append_assoc, arith, length-append, take_common, drop_common, length-drop, take-append-drop,
  take_of_length_le,
}
use flash_forwarder.Wire.{get_uint32}
use flash_forwarder.SzBinary.Decoder.{
  State, head, body, tail, Decoder, fresh, lack, forward, next, generate_checksum, consume_head,
  consume_body, consume_tail, consume, keep_all,
}

-- A whole frame with a body of `n` bytes: the length in its head, the checksum in its last word.
pub record IsFrame (n : ℕ) (f : List ℕ) : Type 0 where
  pub size : length f ≡ n + 12
  pub small : n + 12 < 2 ^ 31
  pub body_length : get_uint32 (drop 4 f) ≡ some n
  pub checksum :
      get_uint32 (drop (length f - 4) f) ≡ some (generate_checksum (take (length f - 4) f))

-- What a decoder in each state holds of a frame with a body of `n` bytes.
abbrev pub Holds : State → ℕ → Decoder → Type 0
Holds head n d = length d.decode_buffer < 8
Holds body n d = (8 ≤ length d.decode_buffer) × (length d.decode_buffer ≤ n + 8) × (d.body_size ≡ n)
Holds tail n d =
    (n + 8 ≤ length d.decode_buffer) × (length d.decode_buffer < n + 12) × (d.body_size ≡ n)

-- `d` is inside the frame `f`, of which `rest` is still to come.
pub record IsInside (d : Decoder) (n : ℕ) (f rest : List ℕ) : Type 0 where
  pub frame : IsFrame n f
  pub holds : Holds d.state n d
  pub cut : d.decode_buffer ++ rest ≡ f

-- The calls of `consume` that are still to come for the bytes at hand, counted by twice their number.
abbrev pub rank : State → ℕ
rank head = 0
rank body = 1
rank tail = 0

module _ {d : Decoder} {n : ℕ} {f rest : List ℕ} (i : IsInside d n f rest) where
  pub length-inside : length d.decode_buffer + length rest ≡ n + 12
  length-inside = omega (arith, length-append d.decode_buffer rest, ap length i.cut, i.frame.size)

  module _ (k : ℕ) (c later others : List ℕ) (e : c ++ later ≡ rest ++ others) where
    -- `k` bytes move from the chunk to the buffer.
    pub cut_push : k ≤ length c → k ≤ length rest → (d.decode_buffer ++ take k c) ++ drop k rest ≡ f
    cut_push p q = rw (take_common k c later rest others e p q) (
        append_assoc d.decode_buffer (take k rest) (drop k rest)
        ∙ ap (λ t. d.decode_buffer ++ t) (take-append-drop k rest)
        ∙ i.cut)

    pub cut_drop : k ≤ length c → k ≤ length rest → drop k c ++ later ≡ drop k rest ++ others
    cut_drop p q = drop_common k c later rest others e p q

-- One call of `consume` on the chunk `c`, behind which `later` arrives, inside the frame `f`, behind
-- which `others` stands: it stays in the frame, or it hands the frame over.
pub record Stay (d : Decoder) (n : ℕ) (f rest c later others : List ℕ) : Type 0 where
  pub k : ℕ
  pub d' : Decoder
  pub runs : consume d c ≡ next (forward k) d' []
  pub inside : IsInside d' n f (drop k rest)
  pub stream : drop k c ++ later ≡ drop k rest ++ others
  pub falls : 2 * length (drop k c) + rank d'.state < 2 * length c + rank d.state

pub record Finish (d : Decoder) (f c later others : List ℕ) : Type 0 where
  pub k : ℕ
  pub runs : consume d c ≡ next (forward k) fresh (f ∷ [])
  pub stream : drop k c ++ later ≡ others
  pub falls : 2 * length (drop k c) < 2 * length c + rank d.state

-- What the buffer holds at the end of each state.
abbrev pub target : State → ℕ → ℕ
target head n = 8
target body n = n + 8
target tail n = n + 12

lack_lem : (total size : ℕ) → size ≤ total → total < 2 ^ 31 → lack total size ≡ total - size
lack_lem total size h s = omega arith

rank_le : (s : State) → rank s ≤ 1
rank_le head = omega arith
rank_le body = omega arith
rank_le tail = omega arith

Holds-target : (s : State) (n : ℕ) (d : Decoder) → Holds s n d → length d.decode_buffer ≤ target s n
Holds-target head n d h = omega arith
Holds-target body n d h = h.1
Holds-target tail n d h = omega arith

target-le : (s : State) (n : ℕ) → target s n ≤ n + 12
target-le head n = omega arith
target-le body n = omega arith
target-le tail n = omega arith

Holds-kept :
    (s : State) (n : ℕ) (d : Decoder) (c : List ℕ)
    → Holds s n d
    → length d.decode_buffer + length c < target s n
    → Holds s n (record d { decode_buffer = d.decode_buffer ++ c })
Holds-kept head n d c h p = omega (arith, length-append d.decode_buffer c)
Holds-kept body n d c h p = omega (arith, length-append d.decode_buffer c)
Holds-kept tail n d c h p = omega (arith, length-append d.decode_buffer c)

module _ {d : Decoder} {n : ℕ} {f rest : List ℕ} (i : IsInside d n f rest) (c later others : List ℕ)
    (e : c ++ later ≡ rest ++ others) (some_bytes : 0 < length c) where
  -- The chunk ends before the state does.
  pub kept :
      consume d c ≡ keep_all d c
      → length d.decode_buffer + length c < target d.state n
      → Stay d n f rest c later others
  kept runs short =
      let le : length c ≤ length rest =
        omega (arith, length-inside i, target-le d.state n, short) in
      record {
        k = length c;
        d' = record d { decode_buffer = d.decode_buffer ++ c };
        runs = runs;
        inside = record {
          frame = i.frame;
          holds = Holds-kept d.state n d c i.holds short;
          cut =
              rw (take_of_length_le (length c) c (omega arith)) at
                (cut_push i (length c) c later others e (omega arith) le);
        };
        stream = cut_drop i (length c) c later others e (omega arith) le;
        falls = omega (arith, length-drop (length c) c);
      }

-- Each state's branch, run: the chunk ends first, or the state does after `k` bytes.
pub head_short :
    (d : Decoder) (c : List ℕ)
    → length d.decode_buffer + length c < 8
    → consume_head d c ≡ keep_all d c
unfolding consume_head
head_short d c h = ground (arith, lack_lem 8 (length d.decode_buffer) (omega arith) (omega arith))

pub body_short :
    (d : Decoder) (c : List ℕ) (n : ℕ)
    → d.body_size ≡ n
    → n + 12 < 2 ^ 31
    → length d.decode_buffer + length c < n + 8
    → consume_body d c ≡ keep_all d c
unfolding consume_body
body_short d c n e s h =
    ground (arith, lack_lem (d.body_size + 8) (length d.decode_buffer) (omega arith) (omega arith))

pub tail_short :
    (d : Decoder) (c : List ℕ) (n : ℕ)
    → d.body_size ≡ n
    → n + 12 < 2 ^ 31
    → length d.decode_buffer + length c < n + 12
    → consume_tail d c ≡ keep_all d c
unfolding consume_tail
tail_short d c n e s h =
    ground
      (arith, lack_lem (d.body_size + 8 + 4) (length d.decode_buffer) (omega arith) (omega arith))

pub head_runs :
    (d : Decoder) (c : List ℕ) (n k : ℕ)
    → length d.decode_buffer + k ≡ 8
    → k ≤ length c
    → get_uint32 (drop 4 (d.decode_buffer ++ take k c)) ≡ some n
    → consume_head d c
      ≡ next
          (forward k)
          (record { state = body; decode_buffer = d.decode_buffer ++ take k c; body_size = n })
          []
unfolding consume_head
head_runs d c n k e le g =
    let l : lack 8 (length d.decode_buffer) ≡ k = omega arith in ground (arith, l, g)

pub body_runs :
    (d : Decoder) (c : List ℕ) (n k : ℕ)
    → d.body_size ≡ n
    → n + 12 < 2 ^ 31
    → length d.decode_buffer + k ≡ n + 8
    → k ≤ length c
    → consume_body d c
      ≡ next (forward k) (record d { state = tail; decode_buffer = d.decode_buffer ++ take k c }) []
unfolding consume_body
body_runs d c n k b s e le =
    let l : lack (d.body_size + 8) (length d.decode_buffer) ≡ k = omega arith in ground (arith, l)

pub tail_runs :
    (d : Decoder) (f c : List ℕ) (n k : ℕ)
    → d.body_size ≡ n
    → IsFrame n f
    → length d.decode_buffer + k ≡ n + 12
    → k ≤ length c
    → d.decode_buffer ++ take k c ≡ f
    → consume_tail d c ≡ next (forward k) fresh (f ∷ [])
unfolding consume_tail
tail_runs d f c n k b v e le cut =
    let l : lack (d.body_size + 8 + 4) (length d.decode_buffer) ≡ k = omega arith in
    ground (arith, l, cut, v.checksum)
