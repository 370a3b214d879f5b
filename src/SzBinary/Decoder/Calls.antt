-- ===== src/SzBinary/Decoder/Calls.antt =====
-- The chunks that a decoder of src/szBinary_decoder.hpp gets, one by one.
use flash_forwarder.Prelude.{ℕ, ◌≡◌, ◌⊎◌, inl, inr, refl, sym, ◌∙◌, List, [], ◌∷◌, ◌++◌, Bool}
use flash_forwarder.SzBinary.Decoder.{
  Decoder, Result, returned, fault, stuck, after_calls, decode, decode_all,
}

pub Result-cases :
    (r : Result)
    → ((b : Bool) × (d : Decoder) × (out : List (List ℕ)) × (r ≡ returned b d out))
      ⊎ ((out : List (List ℕ)) × (r ≡ fault out))
      ⊎ ((out : List (List ℕ)) × (r ≡ stuck out))
Result-cases (returned b d out) = inl (b, d, out, refl)
Result-cases (fault out) = inr (inl (out, refl))
Result-cases (stuck out) = inr (inr (out, refl))

after_calls-cases :
    (out1 out : List (List ℕ)) (b : Bool) (d : Decoder) (r : Result)
    → after_calls out1 r ≡ returned b d out
    → (out2 : List (List ℕ)) × (r ≡ returned b d out2) × (out ≡ out1 ++ out2)
after_calls-cases out1 out b d (returned b' d' o) e =
    let eb : b' ≡ b = cc in
    let ed : d' ≡ d = cc in let eo : out ≡ out1 ++ o = cc in (o, rw (eb, ed) refl, eo)
after_calls-cases out1 out b d (fault o) e = absurd cc
after_calls-cases out1 out b d (stuck o) e = absurd cc

pub decode_all-end :
    (d d' : Decoder) (b : Bool) (out : List (List ℕ))
    → decode_all d [] ≡ returned b d' out
    → (d ≡ d') × (out ≡ [])
unfolding decode_all
decode_all-end d d' b out e = let ed : d ≡ d' = cc in let eo : out ≡ [] = cc in (ed, eo)

-- `decode_all` that returned is `decode` of the first chunk and then of the others.
pub decode_all-cases :
    (d d' : Decoder) (c : List ℕ) (chunks out : List (List ℕ)) (b : Bool)
    → decode_all d (c ∷ chunks) ≡ returned b d' out
    → (r : Bool) × (d1 : Decoder) × (out1 : List (List ℕ)) × (out2 : List (List ℕ)) × (decode d c
        ≡ returned r d1 out1)
      × (decode_all d1 chunks ≡ returned b d' out2)
      × (out ≡ out1 ++ out2)
unfolding decode_all
decode_all-cases d d' c chunks out b e = elim (Result-cases (decode d c)) [
  | inl (r, d1, out1, z) ↦
      let (out2, run, split) =
        after_calls-cases out1 out b d' (decode_all d1 chunks)
          (sym (rw (z, decode_all) refl) ∙ e) in
      (r, d1, out1, out2, z, run, split)
  | inr (inl (o, z)) ↦
      let e' : fault o ≡ returned b d' out = sym (rw (z, decode_all) refl) ∙ e in absurd cc
  | inr (inr (o, z)) ↦
      let e' : stuck o ≡ returned b d' out = sym (rw (z, decode_all) refl) ∙ e in absurd cc
]
