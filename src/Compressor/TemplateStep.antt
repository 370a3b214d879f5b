-- ===== src/Compressor/TemplateStep.antt =====
-- A template on both sides: a whole message.
use flash_forwarder.Prelude.{
  ℕ, ◌+◌, ◌-◌, ◌^◌, ◌<◌, ◌≤◌, ◌≡◌, refl, ap, ◌∙◌, List, [], ◌++◌, some, false, ltb, ◌==◌,
  if◌then◌else◌, length, bit_and, arith, length-append,
}
use flash_forwarder.Prelude.Bits.{zero-and}
use flash_forwarder.WireFormat.Defs.{Outcome}
use flash_forwarder.Compressor.Fields.{Message}
use flash_forwarder.Compressor.Integer.{store_host, load_host}
use flash_forwarder.Compressor.Template.{
  Junk, Template, put_parts, encode_template, accepted, refused, decode_all, decode_fields_from,
  decode_template,
}
use flash_forwarder.Compressor.Full.{load_host-store_host, length-store_host}
use flash_forwarder.Compressor.Rows.{
  all_bytes, all_pmap, all_stored, all_received, AllServe, Marks, with_fields,
}
use flash_forwarder.Compressor.PresenceMap.{all_pmap-above, all_pmap-Marks, all_pmap-lt}
use flash_forwarder.Compressor.Loops.{encode_all_lem, decode_all_lem}

-- The four bytes of the pmap before the fields.
decode_after_pmap :
    (t : Template) (junk : Junk) (pmap : ℕ) (b : List ℕ) (cache : Message)
    → pmap < 2 ^ 32
    → decode_template t junk (store_host 4 pmap ++ b) (length (store_host 4 pmap ++ b)) cache
      ≡ decode_all t.instructions junk b (length b) 4 t.message cache pmap
unfolding decode_template decode_fields_from
decode_after_pmap t junk pmap b cache h =
    let w = store_host 4 pmap in
    let size : length (w ++ b) ≡ 4 + length b =
      omega (arith, length-append w b, length-store_host 4 pmap) in
    let l : length (w ++ b) - 4 ≡ length b = omega arith in
    ap
      (λ k.
        if k == 0
        then refused cache
        else decode_fields_from t junk (w ++ b) k cache (load_host 4 (w ++ b)))
      size
    ∙ ap
        (λ (o : Outcome ℕ).
          if 4 + length b == 0
          then refused cache
          else decode_fields_from t junk (w ++ b) (4 + length b) cache o)
        (load_host-store_host 4 pmap b h)
    ∙ rw (eq_zero (length b)) (
        rw (four_fits (length b)) (
          ap (λ k. decode_all t.instructions junk b k 4 t.message cache pmap)
            (sub_four (length b))))
  where
    eq_zero : (n : ℕ) → (4 + n == 0) ≡ false
    eq_zero n = ground arith

    four_fits : (n : ℕ) → ltb (4 + n) 4 ≡ false
    four_fits n = ground arith

    sub_four : (n : ℕ) → 4 + n - 4 ≡ n
    sub_four n = omega arith

-- A message of a template, with field operation: `encode` appends the id, the index, the pmap and the
-- bytes of the fields, and `decode` of the pmap and these bytes takes just them. Both caches, whose
-- fields were the same, have the same fields again, and the out message has the fields received.
pub template-in_step :
    (t : Template) (junk junk' : Junk) (m cache cache' : Message) (rest : List ℕ)
    → AllServe 0 t.instructions m.fields cache.fields t.message.fields
    → length t.instructions ≤ 31
    → cache'.fields ≡ cache.fields
    → m.field_count ≡ length m.fields
    → cache.field_count ≡ length cache.fields
    → cache'.field_count ≡ length cache'.fields
    → t.message.field_count ≡ length t.message.fields
    → (pmap : ℕ) × (b : List ℕ) × (encode_template t junk m cache
        ≡ some (
          put_parts t.id cache.index pmap b,
          with_fields cache (all_stored t.instructions m.fields cache.fields),
        ))
      × (let body = store_host 4 pmap ++ (b ++ rest) in
          decode_template t junk' body (length body) cache'
          ≡ accepted
              (4 + length b)
              (with_fields t.message
                (all_received t.instructions m.fields cache.fields t.message.fields))
              (with_fields cache' (all_stored t.instructions m.fields cache.fields)))
unfolding encode_template
template-in_step t junk junk' m cache cache' rest a few same cm cn cn' ct =
    let pmap = all_pmap 0 t.instructions m.fields cache.fields 0 in
    let b = all_bytes t.instructions m.fields cache.fields in
    let enc =
      encode_all_lem a junk m cache [] [] 0 (record { fields = refl; counted = cm; place = refl })
        (record { fields = refl; counted = cn; place = refl }) in
    (
      pmap,
      b,
      rw (enc, encode_template) refl,
      decode_after_pmap t junk' pmap (b ++ rest) cache' (all_pmap-lt a 0 (omega arith))
          ∙ decode_all_lem a junk' t.message cache' [] [] pmap 4 rest
              (record { fields = refl; counted = ct; place = refl })
              (record { fields = same; counted = cn'; place = refl })
              (all_pmap-above a 31 0 (omega arith) (omega arith) ∙ zero-and (2 ^ 31))
              (all_pmap-Marks a 0 (omega arith) (λ k _. zero-and (2 ^ k))),
    )

-- The pmap that a template writes with a message, with field operation, where the instructions, 31 at
-- most, are right for the fields of the message and of the cache: bit `i` is set just when field `i`
-- is one of DELTA, or has not the value of the cache message; no bit from the number of the fields on
-- is set, so not bit 31 of a full message; and the bytes behind it are those of the fields whose bits
-- are set, in order.
pub encode_template-Marks :
    (t : Template) (junk : Junk) (m cache : Message)
    → AllServe 0 t.instructions m.fields cache.fields t.message.fields
    → length t.instructions ≤ 31
    → m.field_count ≡ length m.fields
    → cache.field_count ≡ length cache.fields
    → (pmap : ℕ) × (cache' : Message) × (encode_template t junk m cache
        ≡ some (
          put_parts t.id cache.index pmap (all_bytes t.instructions m.fields cache.fields),
          cache',
        ))
      × (pmap < 2 ^ 32)
      × Marks pmap 0 t.instructions m.fields cache.fields
      × ((k : ℕ) → length t.instructions ≤ k → bit_and pmap (2 ^ k) ≡ 0)
unfolding encode_template
encode_template-Marks t junk m cache a few cm cn =
    let enc =
      encode_all_lem a junk m cache [] [] 0 (record { fields = refl; counted = cm; place = refl })
        (record { fields = refl; counted = cn; place = refl }) in
    (
      all_pmap 0 t.instructions m.fields cache.fields 0,
      with_fields cache (all_stored t.instructions m.fields cache.fields),
      rw (enc, encode_template) refl,
      all_pmap-lt a 0 (omega arith),
      all_pmap-Marks a 0 (omega arith) (λ k _. zero-and (2 ^ k)),
      λ k le. all_pmap-above a k 0 (omega arith) (omega arith) ∙ zero-and (2 ^ k),
    )
