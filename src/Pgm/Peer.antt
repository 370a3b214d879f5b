-- ===== src/Pgm/Peer.antt =====
-- A sender as PGMReceiver (src/pgm_receiver.cc) knows it: the header of its packets, the gaps in their
-- numbers, and joining its stream. The parser and the increment are parameters.
use flash_forwarder.Prelude.{
  ℕ, ◌+◌, ◌-◌, ◌*◌, ◌/◌, ◌%◌, ◌^◌, bit_and, List, ◌∷◌, Option, none, some, Bool, true, false, not,
  ◌&&◌, ltb, leb, ◌==◌, if◌then◌else◌, length, drop,
}
use flash_forwarder.Pgm.{offset_bit_count, non_exist_offset}

-- `parser_factory_`, whose Create gets the compress level, and the parsers that it makes: a parser is
-- given bytes, hands messages over, and says whether Parse returned 0.
-- `inc_apply_factory_`, which may be null, and Apply.
pub record Parsing {ℓ} (P A : Type ℓ) : Type ℓ where
  pub create_parser : ℕ → P
  pub parse : List ℕ → P → List (List ℕ) × Bool × P
  pub create_apply : Option A
  pub apply : List ℕ → A → List ℕ × A

-- `peer_info_t`
pub record Peer {ℓ} (P A : Type ℓ) : Type ℓ where
  pub joined : Bool
  pub begin_index : ℕ
  pub last_index : ℕ
  pub received_cnt : ℕ
  pub missed_cnt : ℕ
  pub parser : Option P
  pub inc_apply : Option A

abbrev pub new_peer {ℓ} : {P A : Type ℓ} → Peer P A
new_peer = record {
  joined = false;
  begin_index = 0;
  last_index = 0;
  received_cnt = 0;
  missed_cnt = 0;
  parser = none;
  inc_apply = none;
}

-- What stands in front of the data of a packet.
pub record Header : Type 0 where
  pub offset : ℕ
  pub compress_level : ℕ
  pub inc_update : Bool
  pub index : ℕ
  pub content : List ℕ

unfoldable pub header_of : ℕ → ℕ → List ℕ → Header
header_of tvalue index content =
    let options = tvalue / 2 ^ offset_bit_count in
    record {
      offset = bit_and tvalue non_exist_offset;
      compress_level = options - bit_and options (2 ^ 2);
      inc_update = not (bit_and options (2 ^ 2) == 0);
      index = index;
      content = content;
    }

unfoldable pub read_header : List ℕ → Option Header
read_header (t0 ∷ t1 ∷ i0 ∷ i1 ∷ i2 ∷ i3 ∷ content) =
    some (header_of (t0 + t1 * 2 ^ 8) (i0 + i1 * 2 ^ 8 + i2 * 2 ^ 16 + i3 * 2 ^ 24) content)
read_header _ = none

-- The value of an int as a uint64_t.
unfoldable pub widened : ℕ → ℕ
widened n = if ltb n (2 ^ 31) then n else n + (2 ^ 64 - 2 ^ 32)

-- The computation of `missed`, an int given by its 32 bits.
unfoldable pub missed_between : ℕ → ℕ → ℕ
missed_between last index =
    if ltb last index then index - last - 1 else (2 ^ 32 - 1 - last + index + (2 ^ 32 - 1)) % 2 ^ 32

-- A peer that is lost: it must join again.
unfoldable pub unjoin {ℓ} : {P A : Type ℓ} → Peer P A → Peer P A
unjoin peer = record peer { joined = false; last_index = 0; parser = none; inc_apply = none }

unfoldable pub has_gap {ℓ} : {P A : Type ℓ} → ℕ → Peer P A → Bool
has_gap index peer = not (peer.last_index == 0) && not ((peer.last_index + 1) % 2 ^ 32 == index)

-- A packet of a known peer: the peer, and what is added to the missed packets if anything is.
unfoldable pub note_index {ℓ} : {P A : Type ℓ} → ℕ → Peer P A → Peer P A × Option ℕ
note_index index peer =
    if has_gap index peer
    then (let missed = missed_between (unjoin peer).last_index index in
        (
          record (unjoin peer) {
            missed_cnt = (peer.missed_cnt + missed) % 2 ^ 32;
            last_index = index;
          },
          some (widened missed),
        ))
    else (record peer { last_index = index }, none)

-- `if (inc_update && inc_apply_factory_)`
unfoldable pub apply_of {ℓ} : {P A : Type ℓ} → Parsing P A → Bool → Option A → Option A
apply_of parsing inc_update old =
    if inc_update then elim parsing.create_apply [ some a ↦ some a | none ↦ old ] else old

-- What becomes of a packet: it is ignored, an assertion fails, or its bytes go to a parser.
pub data Joining {ℓ} (P A : Type ℓ) : Type ℓ where
  ignored failed : Joining P A
  goes_to : Peer P A → P → List ℕ → Joining P A

unfoldable pub join_at {ℓ} : {P A : Type ℓ} → Parsing P A → Header → Peer P A → Joining P A
join_at parsing header peer =
    if header.offset == non_exist_offset
    then ignored
    else if leb header.offset (length header.content)
    then goes_to
        (record peer {
          joined = true;
          parser = some (parsing.create_parser header.compress_level);
          inc_apply = apply_of parsing header.inc_update peer.inc_apply;
        })
        (parsing.create_parser header.compress_level) (drop header.offset header.content)
    else failed

unfoldable pub join {ℓ} : {P A : Type ℓ} → Parsing P A → Header → Peer P A → Joining P A
join parsing header peer =
    if peer.joined
    then elim peer.parser [ some parser ↦ goes_to peer parser header.content | none ↦ failed ]
    else join_at parsing header peer
