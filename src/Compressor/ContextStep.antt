-- ===== src/Compressor/ContextStep.antt =====
-- A message from the context that encodes to the context that decodes.
use flash_forwarder.Prelude.{
  ℕ, zero, suc, ◌+◌, ◌^◌, ◌<◌, ◌≤◌, ◌≡◌, refl, sym, ap, ◌∙◌, List, [], ◌∷◌, ◌++◌, Option, some,
  length, get_elem?, set, arith, length-append, drop-append, append-nil, drop_of_length_le,
  lt→leb_false,
}
use flash_forwarder.WireFormat.Defs.{write_varint32, write_varint64}
use flash_forwarder.WireFormat.Decode.{read_varint32-write_varint32, read_varint64-write_varint64}
use flash_forwarder.Compressor.Fields.{Message, Field}
use flash_forwarder.Compressor.Integer.{store_host}
use flash_forwarder.Compressor.Template.{Junk, Template, encode_template, accepted, decode_template}
use flash_forwarder.Compressor.Rows.{all_stored, all_received, AllServe, with_fields}
use flash_forwarder.Compressor.TemplateStep.{template-in_step}
use flash_forwarder.Compressor.Context.{
  get_template, Context, find_token, written, encode_known, encode_with, encode_context, read,
  cache_at, go, decode_cached, decode_found, decode_index, decode_round, decode_messages,
  decode_context,
}

lt-of_elem {ℓ} :
    {A : Type ℓ} (xs : List A) (i : ℕ) (x : A) → get_elem? xs i ≡ some x → i < length xs
lt-of_elem [] i x e = absurd (ground (arith, e))
lt-of_elem (y ∷ ys) zero x e = omega arith
lt-of_elem (y ∷ ys) (suc i) x e = omega (arith, lt-of_elem ys i x e)

cache_at_known :
    (t : Template) (i : ℕ) (array : List (Option Message)) (cache : Message)
    → get_elem? array i ≡ some (some cache)
    → cache_at t i array ≡ some (cache, array)
unfolding cache_at
cache_at_known t i array cache e =
    rw (lt→leb_false (length array) i (lt-of_elem array i (some cache) e)) (rw e refl)

-- The places of the two contexts that one template uses.
pub record Holds (c : Context) (t : Template) (array : List (Option Message)) (i : ℕ)
    (cache : Message) : Type 0 where
  pub known : get_template t.id c.templates ≡ some t
  pub arrays : get_elem? c.arrays t.index ≡ some array
  pub cached : get_elem? array i ≡ some (some cache)

-- The context with the cache message replaced.
abbrev pub with_cache : Context → Template → List (Option Message) → ℕ → Message → Context
with_cache c t array i cache = record c { arrays = set c.arrays t.index (set array i (some cache)) }

encode_context_lem :
    (c : Context) (junk : Junk) (m : Message) (t : Template) (token : List ℕ)
    (cache_map : List (List ℕ × ℕ)) (array : List (Option Message)) (i : ℕ) (cache cache2 : Message)
    (bytes : List ℕ)
    → Holds c t array i cache
    → get_elem? c.maps t.index ≡ some cache_map
    → find_token token cache_map ≡ some i
    → encode_template t junk m cache ≡ some (bytes, cache2)
    → encode_context c junk m t.id token ≡ written bytes (with_cache c t array i cache2)
unfolding encode_context encode_with encode_known
encode_context_lem c junk m t token cache_map array i cache cache2 bytes h maps found e =
    rw (h.known, encode_context)
      (rw maps (rw h.arrays (rw (found, encode_with) (rw (h.cached, encode_known) (rw e refl)))))

decode_found_lem :
    (c : Context) (junk : Junk) (t : Template) (array : List (Option Message)) (i n : ℕ)
    (cache out cache2 : Message) (buffer : List ℕ) (messages : List Message)
    → Holds c t array i cache
    → decode_template t junk buffer (length buffer) cache ≡ accepted n out cache2
    → decode_found c junk i buffer messages (get_template t.id c.templates)
      ≡ go n (messages ++ out ∷ []) (with_cache c t array i cache2)
unfolding decode_found decode_cached
decode_found_lem c junk t array i n cache out cache2 buffer messages h e = rw h.known (
    rw (h.arrays, decode_found)
      (rw (cache_at_known t i array cache h.cached) (rw (e, decode_cached) refl)))

decode_index_lem :
    (c c2 : Context) (junk : Junk) (id i n : ℕ) (buffer : List ℕ)
    (messages messages2 : List Message)
    → i < 2 ^ 64
    → decode_found c junk i buffer messages (get_template id c.templates) ≡ go n messages2 c2
    → decode_index c junk id (write_varint64 i ++ buffer) messages
      ≡ go (length (write_varint64 i) + n) messages2 c2
unfolding decode_index
decode_index_lem c c2 junk id i n buffer messages messages2 h e =
    rw (read_varint64-write_varint64 i buffer h, decode_index)
      (rw (drop-append (write_varint64 i) buffer) (rw e refl))

decode_round_lem :
    (c c2 : Context) (junk : Junk) (id n : ℕ) (buffer : List ℕ) (messages messages2 : List Message)
    → id < 2 ^ 32
    → decode_index c junk id buffer messages ≡ go n messages2 c2
    → decode_round c junk (write_varint32 id ++ buffer) messages
      ≡ go (length (write_varint32 id) + n) messages2 c2
unfolding decode_round
decode_round_lem c c2 junk id n buffer messages messages2 h e =
    rw (read_varint32-write_varint32 id buffer h, decode_round)
      (rw (drop-append (write_varint32 id) buffer) (rw e refl))

decode_messages_end :
    (fuel : ℕ) (c : Context) (junk : Junk) (messages : List Message)
    → decode_messages fuel c junk [] messages ≡ read messages c
unfolding decode_messages
decode_messages_end zero c junk messages = refl
decode_messages_end (suc fuel) c junk messages = refl

-- A round that takes the whole buffer is the last.
last_round :
    (c c2 : Context) (junk : Junk) (n : ℕ) (buffer : List ℕ) (messages messages2 : List Message)
    → 0 < length buffer
    → length buffer ≤ n
    → decode_round c junk buffer messages ≡ go n messages2 c2
    → decode_context c junk buffer messages ≡ read messages2 c2
unfolding decode_context decode_messages
last_round c c2 junk n [] messages messages2 h le e = absurd (omega arith)
last_round c c2 junk n (x ∷ xs) messages messages2 h le e =
    rw (e, decode_messages)
      (rw (drop_of_length_le n (x ∷ xs) le) (decode_messages_end (length xs) c2 junk messages2))

-- A message and the cache messages of both sides that fit a template.
pub record Fitting (t : Template) (m cache cache' : Message) : Type 0 where
  pub serve : AllServe 0 t.instructions m.fields cache.fields t.message.fields
  pub few : length t.instructions ≤ 31
  pub same : cache'.fields ≡ cache.fields
  pub counted : m.field_count ≡ length m.fields
  pub counted_cache : cache.field_count ≡ length cache.fields
  pub counted_cache' : cache'.field_count ≡ length cache'.fields
  pub counted_out : t.message.field_count ≡ length t.message.fields
  pub id_bound : t.id < 2 ^ 32
  pub index_bound : cache.index < 2 ^ 64

-- The fields that both caches have afterwards, and the message that is handed over.
abbrev pub stored_fields : Template → Message → Message → List Field
stored_fields t m cache = all_stored t.instructions m.fields cache.fields

abbrev pub handed_over : Template → Message → Message → Message
handed_over t m cache =
    with_fields t.message (all_received t.instructions m.fields cache.fields t.message.fields)

-- A message with a known token, encoded by one context and decoded by another: just that message is
-- handed over, behind those handed over before, with the fields received. The cache messages of both
-- sides, which the encoder finds at the token and the decoder at the index that the encoder's cache
-- message has, had the same fields and have the same fields again; all else in both contexts stays.
pub context-in_step :
    (c d : Context) (junk junk' : Junk) (t : Template) (m cache cache' : Message) (token : List ℕ)
    (cache_map : List (List ℕ × ℕ)) (array array' : List (Option Message)) (i : ℕ)
    (messages : List Message)
    → Fitting t m cache cache'
    → get_elem? c.maps t.index ≡ some cache_map
    → find_token token cache_map ≡ some i
    → Holds c t array i cache
    → Holds d t array' cache.index cache'
    → (bytes : List ℕ) × (encode_context c junk m t.id token
        ≡ written bytes (with_cache c t array i (with_fields cache (stored_fields t m cache))))
      × (decode_context d junk' bytes messages
          ≡ read
              (messages ++ handed_over t m cache ∷ [])
              (with_cache d t array' cache.index (with_fields cache' (stored_fields t m cache))))
context-in_step c d junk junk' t m cache cache' token cache_map array array' i messages f maps found
      hc hd =
    let (pmap, b, enc, dec) =
      template-in_step t junk junk' m cache cache' [] f.serve f.few f.same f.counted f.counted_cache
        f.counted_cache' f.counted_out in
    let body = store_host 4 pmap ++ b in
    let w64 = write_varint64 cache.index in
    let w32 = write_varint32 t.id in
    let cache2 = with_fields cache (stored_fields t m cache) in
    let cache2' = with_fields cache' (stored_fields t m cache) in
    let out = handed_over t m cache in
    let dec' : decode_template t junk' body (length body) cache'
        ≡ accepted (4 + length b) out cache2' =
      ap
        (λ x.
          decode_template t junk' (store_host 4 pmap ++ x) (length (store_host 4 pmap ++ x)) cache')
        (sym (append-nil b))
      ∙ dec in
    let l : length body ≡ 4 + length b = length-append (store_host 4 pmap) b in
    (
      w32 ++ (w64 ++ body),
      encode_context_lem c junk m t token cache_map array i cache cache2 (w32 ++ (w64 ++ body)) hc
          maps found enc,
      last_round d (with_cache d t array' cache.index cache2') junk'
          (length w32 + (length w64 + (4 + length b))) (w32 ++ (w64 ++ body)) messages
          (messages ++ out ∷ [])
          (omega (arith, length-append w32 (w64 ++ body), length-append w64 body, l))
          (omega (arith, length-append w32 (w64 ++ body), length-append w64 body, l))
          (decode_round_lem d _ junk' t.id _ (w64 ++ body) messages _ f.id_bound (
            decode_index_lem d _ junk' t.id cache.index _ body messages _ f.index_bound (
              decode_found_lem d junk' t array' cache.index (4 + length b) cache' out cache2' body
                messages hd dec'))),
    )
