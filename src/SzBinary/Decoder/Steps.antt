-- ===== src/SzBinary/Decoder/Steps.antt =====
-- One call of `consume` inside a frame, in each state.
use flash_forwarder.Prelude.{
  ℕ, ◌+◌, ◌-◌, ◌≤◌, ◌<◌, ◌≡◌, ◌⊎◌, inl, inr, refl, sym, ap, ◌∙◌, List, [], ◌++◌, some, length, take,
  drop, append-nil, arith, length-append, length-take, drop_append_le, length-drop,
  drop_of_length_le,
}
use native.Mathlib.Decide.{dec_lt}
use flash_forwarder.Wire.{get_uint32}
use flash_forwarder.Wire.RoundTrip.{get_uint32-append}
use flash_forwarder.SzBinary.Decoder.{
  State, head, body, tail, Decoder, consume_in, consume_head, consume_body, consume_tail, consume,
}
use flash_forwarder.SzBinary.Decoder.Frames.{
  IsFrame, Holds, IsInside, rank, Stay, Finish, length-inside, cut_push, cut_drop, kept, head_short,
  body_short, tail_short, head_runs, body_runs, tail_runs,
}

consume_at : (d : Decoder) (s : State) (c : List ℕ) → d.state ≡ s → consume d c ≡ consume_in s d c
unfolding consume
consume_at d s c e = ap (λ t. consume_in t d c) e

pub consume_at_head : (d : Decoder) (c : List ℕ) → d.state ≡ head → consume d c ≡ consume_head d c
unfolding consume_in
consume_at_head d c s = consume_at d head c s

pub consume_at_body : (d : Decoder) (c : List ℕ) → d.state ≡ body → consume d c ≡ consume_body d c
unfolding consume_in
consume_at_body d c s = consume_at d body c s

pub consume_at_tail : (d : Decoder) (c : List ℕ) → d.state ≡ tail → consume d c ≡ consume_tail d c
unfolding consume_in
consume_at_tail d c s = consume_at d tail c s

-- The length word lies in the first eight bytes.
frame_head :
    (n : ℕ) (f b r : List ℕ)
    → IsFrame n f
    → b ++ r ≡ f
    → length b ≡ 8
    → get_uint32 (drop 4 b) ≡ some n
frame_head n f b r v e l =
    sym (get_uint32-append (drop 4 b) r (omega (arith, length-drop 4 b)))
    ∙ ap get_uint32 (sym (drop_append_le 4 b r (omega arith)))
    ∙ ap (λ t. get_uint32 (drop 4 t)) e
    ∙ v.body_length

module _ {d : Decoder} {n : ℕ} {f rest : List ℕ} (i : IsInside d n f rest) (c later others : List ℕ)
    (e : c ++ later ≡ rest ++ others) (some_bytes : 0 < length c) where
  in_head : d.state ≡ head → Holds head n d → Stay d n f rest c later others
  in_head s h = elim (dec_lt (length d.decode_buffer + length c) 8) [
    | yes p ↦ kept i c later others e some_bytes (consume_at_head d c s ∙ head_short d c p) (rw s p)
    | no p ↦
        let k = 8 - length d.decode_buffer in
        let kc : k ≤ length c = omega arith in
        let kr : k ≤ length rest = omega (arith, length-inside i) in
        let cut = cut_push i k c later others e kc kr in
        let buffer = d.decode_buffer ++ take k c in
        let l : length buffer ≡ 8 =
          omega (arith, length-append d.decode_buffer (take k c), length-take k c kc) in
        record {
          k = k;
          d' = record { state = body; decode_buffer = buffer; body_size = n };
          runs =
              consume_at_head d c s
              ∙ head_runs d c n k (omega arith) kc
                  (frame_head n f buffer (drop k rest) i.frame cut l);
          inside = record { frame = i.frame; holds = (omega arith, omega arith, refl); cut = cut };
          stream = cut_drop i k c later others e kc kr;
          falls = omega (arith, length-drop k c);
        }
  ]

  in_body : d.state ≡ body → Holds body n d → Stay d n f rest c later others
  in_body s h = elim (dec_lt (length d.decode_buffer + length c) (n + 8)) [
    | yes p ↦
        kept i c later others e some_bytes
          (consume_at_body d c s ∙ body_short d c n h.2 i.frame.small p) (rw s p)
    | no p ↦
        let k = n + 8 - length d.decode_buffer in
        let kc : k ≤ length c = omega arith in
        let kr : k ≤ length rest = omega (arith, length-inside i) in
        let buffer = d.decode_buffer ++ take k c in
        let l : length buffer ≡ n + 8 =
          omega (arith, length-append d.decode_buffer (take k c), length-take k c kc) in
        record {
          k = k;
          d' = record d { state = tail; decode_buffer = buffer };
          runs = consume_at_body d c s ∙ body_runs d c n k h.2 i.frame.small (omega arith) kc;
          inside = record {
            frame = i.frame;
            holds = (omega arith, omega arith, h.2);
            cut = cut_push i k c later others e kc kr;
          };
          stream = cut_drop i k c later others e kc kr;
          falls = omega (arith, length-drop k c, ap rank s);
        }
  ]

  in_tail :
      d.state ≡ tail → Holds tail n d → Stay d n f rest c later others ⊎ Finish d f c later others
  in_tail s h = elim (dec_lt (length d.decode_buffer + length c) (n + 12)) [
    | yes p ↦ inl (
        kept i c later others e some_bytes
          (consume_at_tail d c s ∙ tail_short d c n h.2 i.frame.small p) (rw s p))
    | no p ↦
        let k = n + 12 - length d.decode_buffer in
        let kc : k ≤ length c = omega arith in
        let kr : k ≤ length rest = omega (arith, length-inside i) in
        let none_left : drop k rest ≡ [] =
          drop_of_length_le k rest (omega (arith, length-inside i)) in
        let whole : d.decode_buffer ++ take k c ≡ f =
          sym (append-nil _)
          ∙ ap (λ t. (d.decode_buffer ++ take k c) ++ t) (sym none_left)
          ∙ cut_push i k c later others e kc kr in
        inr (record {
          k = k;
          runs = consume_at_tail d c s ∙ tail_runs d f c n k h.2 i.frame (omega arith) kc whole;
          stream = cut_drop i k c later others e kc kr ∙ ap (λ t. t ++ others) none_left;
          falls = omega (arith, length-drop k c);
        })
  ]

  pub step_in :
      (s : State)
      → d.state ≡ s
      → Holds s n d
      → Stay d n f rest c later others ⊎ Finish d f c later others
  step_in head p h = inl (in_head p h)
  step_in body p h = inl (in_body p h)
  step_in tail p h = in_tail p h

  -- Inside a frame, `consume` stays inside it or hands it over.
  pub step : Stay d n f rest c later others ⊎ Finish d f c later others
  step = step_in d.state refl i.holds
