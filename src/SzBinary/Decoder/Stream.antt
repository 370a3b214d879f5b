-- ===== src/SzBinary/Decoder/Stream.antt =====
-- A stream of whole frames, cut into chunks in any way, comes out as these frames.
use flash_forwarder.Prelude.{
  ℕ, zero, suc, ◌+◌, ◌*◌, ◌≤◌, ◌<◌, ◌≡◌, inl, inr, refl, sym, ap, ◌∙◌, List, [], ◌∷◌, ◌++◌, true,
  length, take, drop, All, append-nil, append_assoc, arith,
}
use mathlib.Core.List.{flatten, reverse}
use flash_forwarder.SzBinary.Decoder.{
  State, head, body, tail, Decoder, fresh, Result, returned, after_calls, decode_loop, decode,
  decode_all, consume, forward, next,
}
use flash_forwarder.SzBinary.Decoder.Frames.{
  IsFrame, Holds, IsInside, rank, Stay, Finish, length-inside,
}
use flash_forwarder.SzBinary.Decoder.Steps.{step}

abbrev pub Framed : List ℕ → Type 0
Framed f = (n : ℕ) × IsFrame n f

-- `At d stream frames`: `d` is to deliver `frames` from the bytes `stream`, and then to be fresh.
data At (d : Decoder) (stream : List ℕ) (frames : List (List ℕ)) : Type 0 where
  idle : d ≡ fresh → stream ≡ [] → frames ≡ [] → At d stream frames
  inside :
      (n : ℕ) (f rest : List ℕ) (fs : List (List ℕ))
      → IsInside d n f rest
      → All Framed fs
      → stream ≡ rest ++ flatten fs
      → frames ≡ f ∷ fs
      → At d stream frames

At-fresh : (fs : List (List ℕ)) → All Framed fs → At fresh (flatten fs) fs
unfolding flatten
At-fresh [] h = idle refl refl refl
At-fresh (f ∷ fs) ((n, v), vs) =
    inside n f f fs (record { frame = v; holds = omega arith; cut = refl }) vs refl refl

-- What is left after a chunk.
record Decoded (r : Result) (later : List ℕ) (frames : List (List ℕ)) : Type 0 where
  d' : Decoder
  out : List (List ℕ)
  frames' : List (List ℕ)
  runs : r ≡ returned true d' out
  split : frames ≡ out ++ frames'
  at : At d' later frames'

pub loop_step :
    (fuel : ℕ) (d d' : Decoder) (before : List ℕ) (x : ℕ) (xs : List ℕ) (k : ℕ)
    (out : List (List ℕ))
    → consume d (x ∷ xs) ≡ next (forward k) d' out
    → decode_loop (suc fuel) d before (x ∷ xs)
      ≡ after_calls out
          (decode_loop fuel d' (reverse (take k (x ∷ xs)) ++ before) (drop k (x ∷ xs)))
unfolding decode_loop
loop_step fuel d d' before x xs k out e = rw (e, decode_loop)

Decoded-calls :
    (r r' : Result) (later : List ℕ) (frames out : List (List ℕ))
    → r ≡ after_calls out r'
    → Decoded r' later frames
    → Decoded r later (out ++ frames)
Decoded-calls r r' later frames out e h = record {
  d' = h.d';
  out = out ++ h.out;
  frames' = h.frames';
  runs = e ∙ ap (after_calls out) h.runs;
  split = ap (λ t. out ++ t) h.split ∙ sym (append_assoc out h.out h.frames');
  at = h.at;
}

cons_ne_nil : {x : ℕ} {xs : List ℕ} → x ∷ xs ≡ [] → ⊥
cons_ne_nil e = cc

-- One round, where the rounds that follow are right.
module _ (fuel : ℕ) (later : List ℕ)
    (ih : (d : Decoder) (before c : List ℕ) (frames : List (List ℕ))
      → At d (c ++ later) frames
      → 2 * length c + rank d.state < fuel
      → Decoded (decode_loop fuel d before c) later frames)
    (d : Decoder) (before : List ℕ) (x : ℕ) (xs : List ℕ) (frames : List (List ℕ))
    (h : 2 * length (x ∷ xs) + rank d.state < suc fuel) where
  round-Stay :
      (n : ℕ) (f rest : List ℕ) (fs : List (List ℕ))
      → All Framed fs
      → frames ≡ f ∷ fs
      → Stay d n f rest (x ∷ xs) later (flatten fs)
      → Decoded (decode_loop (suc fuel) d before (x ∷ xs)) later frames
  round-Stay n f rest fs vs e s =
      Decoded-calls _ _ later frames [] (loop_step fuel d s.d' before x xs s.k [] s.runs) (
        ih s.d' _ (drop s.k (x ∷ xs)) frames (inside n f (drop s.k rest) fs s.inside vs s.stream e)
          (omega (arith, s.falls)))

  round-Finish :
      (f : List ℕ) (fs : List (List ℕ))
      → All Framed fs
      → frames ≡ f ∷ fs
      → Finish d f (x ∷ xs) later (flatten fs)
      → Decoded (decode_loop (suc fuel) d before (x ∷ xs)) later frames
  round-Finish f fs vs e s = rw e (
      Decoded-calls _ _ later fs (f ∷ []) (loop_step fuel d fresh before x xs s.k (f ∷ []) s.runs)
        (ih fresh _ (drop s.k (x ∷ xs)) fs (rw s.stream (At-fresh fs vs)) (omega (arith, s.falls))))

  round :
      At d (x ∷ xs ++ later) frames
      → Decoded (decode_loop (suc fuel) d before (x ∷ xs)) later frames
  round (idle e z e') = absurd (cons_ne_nil z)
  round (inside n f rest fs i vs z e) = elim (step i (x ∷ xs) later (flatten fs) z (omega arith)) [
    | inl s ↦ round-Stay n f rest fs vs e s
    | inr s ↦ round-Finish f fs vs e s
  ]

loop_frames :
    (fuel : ℕ) (later : List ℕ) (d : Decoder) (before c : List ℕ) (frames : List (List ℕ))
    → At d (c ++ later) frames
    → 2 * length c + rank d.state < fuel
    → Decoded (decode_loop fuel d before c) later frames
loop_frames fuel later d before [] frames a h = record {
  d' = d;
  out = [];
  frames' = frames;
  runs = unfold decode_loop in refl;
  split = refl;
  at = a;
}
loop_frames zero later d before (x ∷ xs) frames a h = absurd (omega arith)
loop_frames (suc fuel) later d before (x ∷ xs) frames a h =
    round fuel later (loop_frames fuel later) d before x xs frames h a

rank_le : (s : State) → rank s ≤ 1
rank_le head = omega arith
rank_le body = omega arith
rank_le tail = omega arith

decode_frames :
    (d : Decoder) (c later : List ℕ) (frames : List (List ℕ))
    → At d (c ++ later) frames
    → Decoded (decode d c) later frames
unfolding decode
decode_frames d c later frames a =
    loop_frames (3 * length c + 3) later d [] c frames a (omega (arith, rank_le d.state))

decode_all_step :
    (d d' : Decoder) (c : List ℕ) (chunks : List (List ℕ)) (out : List (List ℕ))
    → decode d c ≡ returned true d' out
    → decode_all d (c ∷ chunks) ≡ after_calls out (decode_all d' chunks)
unfolding decode_all
decode_all_step d d' c chunks out e = rw (e, decode_all)

all_frames :
    (d : Decoder) (chunks frames : List (List ℕ))
    → At d (flatten chunks) frames
    → Decoded (decode_all d chunks) [] frames
unfolding flatten
all_frames d [] frames a = record {
  d' = d;
  out = [];
  frames' = frames;
  runs = unfold decode_all in refl;
  split = refl;
  at = a;
}
all_frames d (c ∷ chunks) frames a =
    let r = decode_frames d c (flatten chunks) frames a in
    rw r.split (
      Decoded-calls _ _ [] r.frames' r.out (decode_all_step d r.d' c chunks r.out r.runs)
        (all_frames r.d' chunks r.frames' r.at))

Holds-lt : (s : State) (n : ℕ) (d : Decoder) → Holds s n d → length d.decode_buffer < n + 12
Holds-lt head n d h = omega arith
Holds-lt body n d h = omega arith
Holds-lt tail n d h = omega arith

rest-ne-nil : {d : Decoder} {n : ℕ} {f : List ℕ} (others : List ℕ) → IsInside d n f [] → ⊥
rest-ne-nil {d} {n} others i = omega (arith, length-inside i, Holds-lt d.state n d i.holds)

At-end : {d : Decoder} {frames : List (List ℕ)} → At d [] frames → (d ≡ fresh) × (frames ≡ [])
At-end (idle e z e') = (e, e')
At-end (inside n f [] fs i vs z e) = absurd (rest-ne-nil [] i)
At-end (inside n f (x ∷ rest) fs i vs z e) = absurd (cons_ne_nil (sym z))

-- However a stream of whole frames is cut into chunks, `decode` on the chunks in order hands over
-- exactly these frames in order, and leaves the decoder as new.
pub decode_all-flatten :
    (chunks frames : List (List ℕ))
    → All Framed frames
    → flatten chunks ≡ flatten frames
    → decode_all fresh chunks ≡ returned true fresh frames
decode_all-flatten chunks frames vs e =
    let r = all_frames fresh chunks frames (rw e (At-fresh frames vs)) in
    let (p, q) = At-end r.at in r.runs ∙ ground (arith, r.split, p, q, append-nil r.out)
