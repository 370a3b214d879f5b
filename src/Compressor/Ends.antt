-- ===== src/Compressor/Ends.antt =====
-- The loop of `Context::decode` ends on every input.
use flash_forwarder.Prelude.{
  ℕ, zero, suc, ◌+◌, ◌-◌, ◌^◌, ◌<◌, ◌≤◌, ◌≡◌, ◌≢◌, ◌⊎◌, inl, inr, refl, List, [], ◌∷◌, Option, none,
  some, Bool, true, false, ◌==◌, if◌then◌else◌, length, drop, get_elem?, bit_and, arith,
  length-drop,
}
use flash_forwarder.WireFormat.Defs.{
  u32, shl32, Outcome, done, fail, fault, Groups, last, more, past, read_groups, read_varint32,
  read_varint64,
}
use flash_forwarder.Compressor.Fields.{Message}
use flash_forwarder.Compressor.Template.{
  Junk, Template, Decoding, accepted, refused, crash, decode_template,
}
use flash_forwarder.Compressor.Context.{
  Context, Read, read, crashed, endless, get_template, cache_at, Round, go, leave, decode_cached,
  decode_found, decode_index, decode_round, decode_messages, decode_context,
}

-- A row that meets its last byte took one byte at least.
abbrev Took : ℕ → Groups → Type 0
Took n (last v k) = n < k
Took n (more v k rest) = Unit {0}
Took n past = Unit {0}

if_Took :
    (b : Bool) (n v : ℕ) (g : Groups) → Took (n + 1) g → Took n (if b then last v (n + 1) else g)
if_Took true n v g k = omega arith
if_Took false n v (last w m) k = omega arith
if_Took false n v (more w m rest) k = tt
if_Took false n v past k = tt

read_groups-Took :
    (lines shift part n : ℕ) (buffer : List ℕ) → Took n (read_groups lines shift part n buffer)
unfolding read_groups
read_groups-Took zero shift part n buffer = tt
read_groups-Took (suc lines) shift part n [] = tt
read_groups-Took (suc lines) shift part n (b ∷ buffer) =
    let sum = u32 (part + shl32 b shift) in
    let part' = u32 (sum + 2 ^ 32 - shl32 0x80 shift) in
    if_Took (bit_and b 0x80 == 0) n sum (read_groups lines (shift + 7) part' (n + 1) buffer)
      (read_groups-Took lines (shift + 7) part' (n + 1) buffer)

abbrev Positive : Outcome (ℕ × ℕ) → Type 0
Positive (done (v, k)) = 0 < k
Positive fail = Unit {0}
Positive fault = Unit {0}

groups-Positive :
    (g : Groups)
    → Took 0 g
    → Positive (elim g [ last v n ↦ done (v, n) | more _ _ _ ↦ fail | past ↦ fault ])
groups-Positive (last v n) t = t
groups-Positive (more v n rest) t = tt
groups-Positive past t = tt

read_varint32-Positive : (b : List ℕ) → Positive (read_varint32 b)
unfolding read_varint32
read_varint32-Positive b = groups-Positive (read_groups 5 0 0 0 b) (read_groups-Took 5 0 0 0 b)

-- A round that returns does so with an outcome of the code.
abbrev Ended : Read → Type 0
Ended (read m c) = Unit {0}
Ended crashed = Unit {0}
Ended endless = ⊥

abbrev Proper : Round → Type 0
Proper (go n m c) = Unit {0}
Proper (leave r) = Ended r

Decoding-cases :
    (d : Decoding)
    → ((n : ℕ) × (out : Message) × (cache : Message) × (d ≡ accepted n out cache))
      ⊎ ((cache : Message) × (d ≡ refused cache))
      ⊎ (d ≡ crash)
Decoding-cases (accepted n out cache) = inl (n, out, cache, refl)
Decoding-cases (refused cache) = inr (inl (cache, refl))
Decoding-cases crash = inr (inr refl)

Outcome-cases {ℓ} :
    {A : Type ℓ} (o : Outcome A) → ((a : A) × (o ≡ done a)) ⊎ (o ≡ fail) ⊎ (o ≡ fault)
Outcome-cases (done a) = inl (a, refl)
Outcome-cases fail = inr (inl refl)
Outcome-cases fault = inr (inr refl)

Option-cases {ℓ} : {A : Type ℓ} (o : Option A) → (o ≡ none) ⊎ ((a : A) × (o ≡ some a))
Option-cases none = inl refl
Option-cases (some a) = inr (a, refl)

cached-Proper :
    (c : Context) (junk : Junk) (t : Template) (i : ℕ) (b : List ℕ) (m : List Message)
    (o : Option (Message × List (Option Message)))
    → Proper (decode_cached c junk t i b m o)
unfolding decode_cached
cached-Proper c junk t i b m none = tt
cached-Proper c junk t i b m (some (cache, array)) =
    elim (Decoding-cases (decode_template t junk b (length b) cache)) [
      | inl (n, out, cache', e) ↦ rw (e, decode_cached) tt
      | inr (inl (cache', e)) ↦ rw (e, decode_cached) tt
      | inr (inr e) ↦ rw (e, decode_cached) tt
    ]

found-Proper :
    (c : Context) (junk : Junk) (i : ℕ) (b : List ℕ) (m : List Message) (o : Option Template)
    → Proper (decode_found c junk i b m o)
unfolding decode_found
found-Proper c junk i b m none = tt
found-Proper c junk i b m (some t) = elim (Option-cases (get_elem? c.arrays t.index)) [
  | inl e ↦ rw (e, decode_found) tt
  | inr (array, e) ↦ rw (e, decode_found) (cached-Proper c junk t i b m (cache_at t i array))
]

add-Proper :
    (n : ℕ) (r : Round)
    → Proper r
    → Proper (elim r [ go m messages c ↦ go (n + m) messages c | leave r ↦ leave r ])
add-Proper n (go m messages c) p = tt
add-Proper n (leave r) p = p

index-Proper :
    (c : Context) (junk : Junk) (id : ℕ) (b : List ℕ) (m : List Message)
    → Proper (decode_index c junk id b m)
unfolding decode_index
index-Proper c junk id b m = elim (Outcome-cases (read_varint64 b)) [
  | inl ((i, n), e) ↦
      rw (e, decode_index)
        (add-Proper n _ (found-Proper c junk i (drop n b) m (get_template id c.templates)))
  | inr (inl e) ↦ rw (e, decode_index) tt
  | inr (inr e) ↦ rw (e, decode_index) tt
]

-- A round that goes on has taken something.
abbrev Moves : Round → Type 0
Moves (go n m c) = 0 < n
Moves (leave r) = Ended r

add-Moves :
    (n : ℕ) (r : Round)
    → 0 < n
    → Proper r
    → Moves (elim r [ go m messages c ↦ go (n + m) messages c | leave r ↦ leave r ])
add-Moves n (go m messages c) h p = omega arith
add-Moves n (leave r) h p = p

round-Moves :
    (c : Context) (junk : Junk) (b : List ℕ) (m : List Message) → Moves (decode_round c junk b m)
unfolding decode_round
round-Moves c junk b m = elim (Outcome-cases (read_varint32 b)) [
  | inl ((id, n), e) ↦
      rw (e, decode_round)
        (add-Moves n _ (rw e at (read_varint32-Positive b)) (index-Proper c junk id (drop n b) m))
  | inr (inl e) ↦ rw (e, decode_round) tt
  | inr (inr e) ↦ rw (e, decode_round) tt
]

Round-cases :
    (r : Round)
    → ((n : ℕ) × (m : List Message) × (c : Context) × (r ≡ go n m c)) ⊎ ((x : Read) × (r ≡ leave x))
Round-cases (go n m c) = inl (n, m, c, refl)
Round-cases (leave x) = inr (x, refl)

messages-Ended :
    (fuel : ℕ) (c : Context) (junk : Junk) (b : List ℕ) (m : List Message)
    → length b ≤ fuel
    → Ended (decode_messages fuel c junk b m)
unfolding decode_messages
messages-Ended zero c junk [] m h = tt
messages-Ended (suc fuel) c junk [] m h = tt
messages-Ended zero c junk (x ∷ b) m h = absurd (omega arith)
messages-Ended (suc fuel) c junk (x ∷ b) m h = elim (Round-cases (decode_round c junk (x ∷ b) m)) [
  | inl (n, m', c', e) ↦
      let pos : 0 < n = rw e at (round-Moves c junk (x ∷ b) m) in
      rw (e, decode_messages)
        (messages-Ended fuel c' junk (drop n (x ∷ b)) m' (omega (arith, length-drop n (x ∷ b))))
  | inr (r, e) ↦ rw (e, decode_messages) (rw e at (round-Moves c junk (x ∷ b) m))
]

-- On any bytes, in any context, `decode` returns or touches what it may not: its loop ends, within as
-- many rounds as there are bytes.
pub decode_context-ne-endless :
    (c : Context) (junk : Junk) (b : List ℕ) (m : List Message)
    → decode_context c junk b m ≢ endless
unfolding decode_context
decode_context-ne-endless c junk b m e =
    rw e at (messages-Ended (length b) c junk b m (omega arith))
