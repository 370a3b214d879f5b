-- ===== src/Compressor/Loops.antt =====
-- The loops of a template over its instructions, on both sides.
use flash_forwarder.Prelude.{
  ℕ, suc, ◌+◌, ◌-◌, ◌^◌, ◌≤◌, ◌≡◌, ap, ◌∙◌, List, [], ◌∷◌, ◌++◌, some, false, ltb, length, bit_and,
  arith, length-append, append_assoc, drop-append,
}
use flash_forwarder.WireFormat.Defs.{done}
use flash_forwarder.Compressor.Fields.{Message, Field, put_field}
use flash_forwarder.Compressor.Template.{
  FieldInstruction, Junk, decode_instruction, encode_all, accepted, decode_all,
}
use flash_forwarder.Compressor.Step.{bytes_of, stored, received, encode_instruction_lem}
use flash_forwarder.Compressor.StepBack.{decode_instruction_lem}
use flash_forwarder.Compressor.Rows.{
  all_bytes, next_pmap, all_pmap, all_stored, all_received, AllServe, nil, row, Marks, Splits,
  Splits-get, Splits-put, Splits-skip, with_fields, with_fields-put, with_fields_self,
}

-- `encode` of the instructions from place `i` on.
pub encode_all_lem :
    {i : ℕ} {is : List FieldInstruction} {fs cs os : List Field}
    → AllServe i is fs cs os
    → (junk : Junk) (m cache : Message) (mb cb : List Field) (pm : ℕ) → Splits i m mb fs
    → Splits i cache cb cs
    → encode_all is junk m cache pm
      ≡ some (record {
        bytes = all_bytes is fs cs;
        cache = with_fields cache (cb ++ all_stored is fs cs);
        pmap = all_pmap i is fs cs pm;
      })
unfolding encode_all
encode_all_lem nil junk m cache mb cb pm sm sc =
    ap (λ (k : Message). some (record { bytes = []; cache = k; pmap = pm })) (with_fields_self sc)
encode_all_lem (row {i} {ins} {is} {f} {c} {fs = fs} {cs = cs} a as') junk m cache mb cb pm sm sc =
    let g = stored ins f c in
    let ih =
      encode_all_lem as' junk m (put_field i g cache) (mb ++ f ∷ []) (cb ++ g ∷ [])
        (next_pmap i ins f c pm) (Splits-skip sm) (Splits-put sc g) in
    rw
      (
        encode_instruction_lem i ins junk m cache f c pm a (Splits-get sm) (Splits-get sc),
        encode_all,
      )
      (rw ih (
        ap
          (λ (k : Message). some (record {
            bytes = bytes_of ins f c ++ all_bytes is fs cs;
            cache = k;
            pmap = all_pmap (suc i) is fs cs (next_pmap i ins f c pm);
          }))
          (with_fields-put i g cache cb (all_stored is fs cs))))

not_less : (n k : ℕ) → n ≤ k → ltb k n ≡ false
not_less n k h = ground arith

decode_next :
    (ins : FieldInstruction) (is : List FieldInstruction) (junk : Junk) (b x : List ℕ) (n : ℕ)
    (out cache o' c' : Message) (pmap : ℕ)
    → decode_instruction ins junk (b ++ x) (length (b ++ x)) out cache pmap
      ≡ done (record { consume = length b; out = o'; cache = c' })
    → decode_all (ins ∷ is) junk (b ++ x) (length (b ++ x)) n out cache pmap
      ≡ decode_all is junk x (length x) (n + length b) o' c' pmap
unfolding decode_all
decode_next ins is junk b x n out cache o' c' pmap e =
    let l : length (b ++ x) - length b ≡ length x = omega (arith, length-append b x) in
    rw (e, decode_all)
      (rw (not_less (length b) (length (b ++ x)) (omega (arith, length-append b x)))
        (rw (drop-append b x) (ap (λ k. decode_all is junk x k (n + length b) o' c' pmap) l)))

-- `decode` of what they appended.
pub decode_all_lem :
    {i : ℕ} {is : List FieldInstruction} {fs cs os : List Field}
    → AllServe i is fs cs os
    → (junk : Junk) (out cache : Message) (ob cb : List Field) (pmap n : ℕ) (rest : List ℕ)
    → Splits i out ob os
    → Splits i cache cb cs
    → bit_and pmap (2 ^ 31) ≡ 0
    → Marks pmap i is fs cs
    → (let b = all_bytes is fs cs in
        decode_all is junk (b ++ rest) (length (b ++ rest)) n out cache pmap
        ≡ accepted
            (n + length b)
            (with_fields out (ob ++ all_received is fs cs os))
            (with_fields cache (cb ++ all_stored is fs cs)))
unfolding decode_all
decode_all_lem nil junk out cache ob cb pmap n rest so sc partial marks =
    ap (λ (o : Message). accepted n o cache) (with_fields_self so)
    ∙ ap (λ (c : Message). accepted n (with_fields out (ob ++ [])) c) (with_fields_self sc)
    ∙ ap (λ k. accepted k (with_fields out (ob ++ [])) (with_fields cache (cb ++ []))) (omega arith)
decode_all_lem (row {i} {ins} {is} {f} {c} {o} {fs} {cs} {os} a as') junk out cache ob cb pmap n
      rest so sc partial (mark, marks) =
    let g = stored ins f c in
    let r = received ins f c o in
    let b = bytes_of ins f c in
    let bs = all_bytes is fs cs in
    let o' = put_field i r out in
    let c' = put_field i g cache in
    let ih =
      decode_all_lem as' junk o' c' (ob ++ r ∷ []) (cb ++ g ∷ []) pmap (n + length b) rest
        (Splits-put so r) (Splits-put sc g) partial marks in
    let l : n + length b + length bs ≡ n + length (b ++ bs) = omega (arith, length-append b bs) in
    ap (λ t. decode_all (ins ∷ is) junk t (length t) n out cache pmap) (append_assoc b bs rest)
    ∙ decode_next ins is junk b (bs ++ rest) n out cache o' c' pmap (
        decode_instruction_lem i ins junk f o c out cache pmap (bs ++ rest) a (Splits-get so)
          (Splits-get sc) partial mark)
    ∙ ih
    ∙ ap
        (λ (k : Message).
          accepted (n + length b + length bs) k
            (with_fields c' ((cb ++ g ∷ []) ++ all_stored is fs cs)))
        (with_fields-put i r out ob (all_received is fs cs os))
    ∙ ap
        (λ (k : Message).
          accepted (n + length b + length bs) (with_fields out (ob ++ r ∷ all_received is fs cs os))
            k)
        (with_fields-put i g cache cb (all_stored is fs cs))
    ∙ ap
        (λ k.
          accepted k (with_fields out (ob ++ r ∷ all_received is fs cs os))
            (with_fields cache (cb ++ g ∷ all_stored is fs cs)))
        l
