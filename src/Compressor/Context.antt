-- ===== src/Compressor/Context.antt =====
-- src/Templates.hpp and src/Context.hpp.
use flash_forwarder.Prelude.{
  ℕ, zero, suc, ◌+◌, ◌-◌, ◌%◌, ◌^◌, List, [], ◌∷◌, ◌++◌, Option, none, some, leb, ◌==◌,
  if◌then◌else◌, length, drop, get_elem?, set,
}
use flash_forwarder.WireFormat.Defs.{done, fail, fault, read_varint32, read_varint64}
use flash_forwarder.Compressor.Fields.{Message, set_index, reset_message}
use flash_forwarder.Compressor.Strings.{equal_bytes}
use flash_forwarder.Compressor.Template.{
  Junk, Template, encode_template, encode_template_full, accepted, refused, crash, decode_template,
}

-- `templatesMap_` as an association list, and the next index.
pub record Templates : Type 0 where
  pub map : List (ℕ × Template)
  pub index : ℕ

abbrev pub new_templates : Templates
new_templates = record { map = []; index = 0 }

abbrev pub find_template : ℕ → List (ℕ × Template) → Option Template
find_template id [] = none
find_template id ((k, t) ∷ rest) = if k == id then some t else find_template id rest

abbrev pub insert_template : ℕ → Template → List (ℕ × Template) → List (ℕ × Template)
insert_template id t [] = (id, t) ∷ []
insert_template id t ((k, s) ∷ rest) =
    if k == id then (id, t) ∷ rest else (k, s) ∷ insert_template id t rest

unfoldable pub get_template : ℕ → Templates → Option Template
get_template id ts = find_template id ts.map

-- `addTemplate`: the template shared by the map has its index set too.
unfoldable pub add_template : Template → Templates → Templates
add_template t ts = record {
  map = insert_template t.id (record t { index = ts.index }) ts.map;
  index = (ts.index + 1) % 2 ^ 8;
}

-- A token's cache message is the one that was pushed on the array when the token was new: its place
-- there stands for the shared pointer. `none` in an array is a null pointer.
pub record Context : Type 0 where
  pub templates : Templates
  pub maps : List (List (List ℕ × ℕ))
  pub arrays : List (List (Option Message))

abbrev pub repeat {ℓ} : {A : Type ℓ} → ℕ → A → List A
repeat zero x = []
repeat (suc n) x = x ∷ repeat n x

-- `Context(temps)`
unfoldable pub new_context : Templates → Context
new_context ts = record { templates = ts; maps = repeat ts.index []; arrays = repeat ts.index [] }

abbrev pub find_token : List ℕ → List (List ℕ × ℕ) → Option ℕ
find_token token [] = none
find_token token ((k, i) ∷ rest) = if equal_bytes k token then some i else find_token token rest

-- What `encode` appends, and the context afterwards; `broken` is an access to a null pointer or outside
-- an array.
pub data Written : Type 0 where
  written : List ℕ → Context → Written
  broken : Written

-- The branch of a token that has a cache message, at place `i` of the array.
unfoldable pub encode_known :
    Context → Junk → Message → Template → ℕ → List (Option Message) → Written
encode_known c junk message t i array = elim (get_elem? array i) [
  | none ↦ broken
  | some none ↦ broken
  | some (some cache) ↦ elim (encode_template t junk message cache) [
    | none ↦ broken
    | some (bytes, cache') ↦
        written bytes (record c { arrays = set c.arrays t.index (set array i (some cache')) })
  ]
]

-- The branch of a new token. The message that is sent has the index, which is an uint64_t.
unfoldable pub encode_new :
    Context
    → Junk
    → Message
    → Template
    → List ℕ
    → List (List ℕ × ℕ)
    → List (Option Message)
    → Written
encode_new c junk message t token cache_map array =
    let i = length array in
    let cache = set_index i message in
    elim (encode_template_full t junk cache) [
      | none ↦ broken
      | some bytes ↦ written bytes (record c {
        maps = set c.maps t.index ((token, i) ∷ cache_map);
        arrays = set c.arrays t.index (array ++ some cache ∷ []);
      })
    ]

unfoldable pub encode_with :
    Context
    → Junk
    → Message
    → Template
    → List ℕ
    → Option (List (List ℕ × ℕ))
    → Option (List (Option Message))
    → Written
encode_with c junk message t token (some cache_map) (some array) =
    elim (find_token token cache_map) [
      | some i ↦ encode_known c junk message t i array
      | none ↦ encode_new c junk message t token cache_map array
    ]
encode_with c junk message t token _ _ = broken

-- `encode(message, templateID, token, buffer)`
unfoldable pub encode_context : Context → Junk → Message → ℕ → List ℕ → Written
encode_context c junk message id token = elim (get_template id c.templates) [
  | none ↦ written [] c
  | some t ↦
      encode_with c junk message t token (get_elem? c.maps t.index) (get_elem? c.arrays t.index)
]

-- What `decode` leaves in `messages`, and the context; `crashed` is an access to a null pointer or
-- outside an array or the memory; `endless` is no outcome of the code: the loop ran out of fuel.
pub data Read : Type 0 where
  read : List Message → Context → Read
  crashed : Read
  endless : Read

-- `resize(cacheIndex + 1)` and the new cache message at the end, where the sum does not wrap around.
abbrev pub grow : ℕ → Message → List (Option Message) → List (Option Message)
grow i cache array = array ++ (repeat (i - length array) none ++ some cache ∷ [])

-- The cache message at `i`, which is made of the template's when the array has no place `i` yet, and
-- the array with it. At 2^64 - 1 the array is left with no place, and the access is outside.
unfoldable pub cache_at :
    Template → ℕ → List (Option Message) → Option (Message × List (Option Message))
cache_at t i array =
    if leb (length array) i
    then (let cache = reset_message (set_index i t.message) in
        if (i + 1) % 2 ^ 64 == 0 then none else some (cache, grow i cache array))
    else elim (get_elem? array i) [ some (some cache) ↦ some (cache, array) | _ ↦ none ]

-- What the decoder goes on with after one message: `go n messages c`, or it returns.
pub data Round : Type 0 where
  go : ℕ → List Message → Context → Round
  leave : Read → Round

-- The message that `decode` pushed joins the list; a refusal clears the list.
unfoldable pub decode_cached :
    Context
    → Junk
    → Template
    → ℕ
    → List ℕ
    → List Message
    → Option (Message × List (Option Message))
    → Round
decode_cached c junk t i buffer messages none = leave crashed
decode_cached c junk t i buffer messages (some (cache, array)) =
    elim (decode_template t junk buffer (length buffer) cache) [
      | accepted n out cache' ↦
          go n (messages ++ out ∷ [])
            (record c { arrays = set c.arrays t.index (set array i (some cache')) })
      | refused cache' ↦
          leave (read [] (record c { arrays = set c.arrays t.index (set array i (some cache')) }))
      | crash ↦ leave crashed
    ]

unfoldable pub decode_found : Context → Junk → ℕ → List ℕ → List Message → Option Template → Round
decode_found c junk i buffer messages none = leave (read messages c)
decode_found c junk i buffer messages (some t) = elim (get_elem? c.arrays t.index) [
  | none ↦ leave crashed
  | some array ↦ decode_cached c junk t i buffer messages (cache_at t i array)
]

unfoldable pub decode_index : Context → Junk → ℕ → List ℕ → List Message → Round
decode_index c junk id buffer messages = elim (read_varint64 buffer) [
  | done (i, n) ↦
      elim (decode_found c junk i (drop n buffer) messages (get_template id c.templates)) [
        | go m messages' c' ↦ go (n + m) messages' c'
        | leave r ↦ leave r
      ]
  | fail ↦ leave (read messages c)
  | fault ↦ leave crashed
]

-- The body of the loop, and the bytes that it took.
unfoldable pub decode_round : Context → Junk → List ℕ → List Message → Round
decode_round c junk buffer messages = elim (read_varint32 buffer) [
  | done (id, n) ↦ elim (decode_index c junk id (drop n buffer) messages) [
    | go m messages' c' ↦ go (n + m) messages' c'
    | leave r ↦ leave r
  ]
  | fail ↦ leave (read messages c)
  | fault ↦ leave crashed
]

unfoldable pub decode_messages : ℕ → Context → Junk → List ℕ → List Message → Read
decode_messages fuel c junk [] messages = read messages c
decode_messages zero c junk (b ∷ buffer) messages = endless
decode_messages (suc fuel) c junk (b ∷ buffer) messages =
    elim (decode_round c junk (b ∷ buffer) messages) [
      | go n messages' c' ↦ decode_messages fuel c' junk (drop n (b ∷ buffer)) messages'
      | leave r ↦ r
    ]

-- `decode(buffer, size, messages)` on a buffer of `size` bytes; each round takes at least two.
unfoldable pub decode_context : Context → Junk → List ℕ → List Message → Read
decode_context c junk buffer messages = decode_messages (length buffer) c junk buffer messages
