-- ===== src/Pgm/Sender/Sends.antt =====
-- A packet that OutEvent (src/pgm_sender.cc) makes continues the stream of the packets before it.
use flash_forwarder.Prelude.{
  ℕ, ◌+◌, ◌/◌, ◌%◌, ◌^◌, ◌≤◌, ◌<◌, ◌≡◌, ◌≢◌, ◌⊎◌, inl, inr, refl, sym, ap, ap₂, subst, ◌∙◌, bit_or,
  List, [], ◌∷◌, ◌++◌, none, ◌==◌, if◌then◌else◌, length, take, All, append_assoc, append-nil,
  length-append, eq→==, ne→==_false, take_of_length_le, arith,
}
use mathlib.Core.List.{flatten}
use flash_forwarder.Prelude.Bits.{or_add_low}
use flash_forwarder.Pgm.{non_exist_offset, packet}
use flash_forwarder.Pgm.Filling.{Coder, Reads, Filling, fill, max_message_per_time}
use flash_forwarder.Pgm.Filling.Ends.{fill-Fills, is_set_le}
use flash_forwarder.Pgm.Filling.Blocks.{messages_of, blocks_of, rest_from, rest_of}
use flash_forwarder.Pgm.Filling.Packed.{Packed, Fills-Packed}
use flash_forwarder.Pgm.Sender.{
  Sender, Action, sent, room_of, fill_buffer, take_filling, put_packet,
}
use flash_forwarder.Pgm.Sender.Pieces.{
  Piece, IsPiece, start_of, Chain, packets_of, filled, blocks_in, Chain-more, packets_of-more,
  filled-append, filled_none, blocks_in-more, blocks_of-append, state-append, flatten-append,
  All-more,
}

abbrev pub sent_by : List Action → List (List ℕ)
sent_by [] = []
sent_by (sent bytes ∷ actions) = bytes ∷ sent_by actions
sent_by (_ ∷ actions) = sent_by actions

-- The packet that waits for the socket.
abbrev pub waiting {ℓ} : {Z : Type ℓ} → Sender Z → List (List ℕ)
waiting s = if s.write_size == 0 then [] else take s.write_size s.out_buffer ∷ []

-- A sender that began with `z`, to encode the messages of `reads`, and sent some packets.
pub record Sends {ℓ} {Z : Type ℓ} (coder : Coder Z) (z : Z) (reads : Reads) (mask room : ℕ)
    (s : Sender Z) (packets : List (List ℕ)) : Type ℓ where
  pub groups : List (List (List ℕ))
  pub pieces : List Piece
  pub group_sizes : All (λ msgs. (0 < length msgs) × (length msgs ≤ max_message_per_time)) groups
  pub messages : messages_of reads ≡ flatten groups ++ messages_of s.io_pipe
  pub serializer : s.serializer ≡ (blocks_of coder z groups).1
  pub blocks : filled (blocks_in pieces) ≡ filled (blocks_of coder z groups).0
  pub all_pieces : All (IsPiece room) pieces
  pub chain : Chain [] pieces (rest_from s.current s.current_offset)
  pub on_wire : packets ++ waiting s ≡ packets_of mask 0 pieces
  pub index : s.next_index ≡ length pieces % 2 ^ 32
  pub in_place : s.current ≡ none → s.current_offset ≡ 0
  pub same_mask : s.offset_mask ≡ mask
  pub same_room : room_of s.out_buffer_size ≡ room

-- What a piece leads with is in its data when it leaves nothing, or is full.
lead_le :
    (room : ℕ) (lead blocks content rest : List ℕ)
    → lead ++ blocks ≡ content ++ rest
    → (length content ≡ room) ⊎ (rest ≡ [])
    → length lead < room
    → length lead ≤ length content
lead_le room lead blocks content rest e (inl full) less = omega arith
lead_le room lead blocks content rest e (inr none_left) less = omega (
  arith,
  ap (λ (t : List ℕ). length t) e,
  length-append lead blocks,
  length-append content rest,
  ap (λ (t : List ℕ). length t) none_left,
)

length_zero : (xs : List ℕ) → length xs ≡ 0 → xs ≡ []
length_zero [] e = refl
length_zero (x ∷ xs) e = absurd (omega arith)

pub append_none : (xs ys : List ℕ) → xs ++ ys ≡ [] → (xs ≡ []) × (ys ≡ [])
append_none [] ys e = (refl, e)
append_none (x ∷ xs) ys e = absurd cc

module _ {ℓ} {Z : Type ℓ} where
  pub waiting_none : (s : Sender Z) → s.write_size ≡ 0 → waiting s ≡ []
  waiting_none s e = rw (eq→== s.write_size 0 e) refl

  pub waiting_some :
      (s : Sender Z) → s.write_size ≢ 0 → waiting s ≡ take s.write_size s.out_buffer ∷ []
  waiting_some s h = rw (ne→==_false s.write_size 0 h) refl

  -- The loop, from a sender on.
  abbrev pub start_filling : Sender Z → Filling Z
  start_filling s = record {
    content = [];
    offset = bit_or non_exist_offset s.offset_mask;
    current = s.current;
    current_offset = s.current_offset;
    serializer = s.serializer;
    reads = s.io_pipe;
  }

module _ {ℓ} {Z : Type ℓ} (coder : Coder Z) (z : Z) (reads : Reads) (mask room : ℕ)
    (aligned : mask % 0x2000 ≡ 0) (small : room < 0x2000) (some_room : 0 < room) where
  pub fill_buffer-Packed :
      (s : Sender Z) (packets : List (List ℕ))
      → Sends coder z reads mask room s packets
      → (groups : List (List (List ℕ))) × Packed coder mask room
          (start_filling s)
          (fill_buffer coder s)
          groups
  unfolding fill_buffer
  fill_buffer-Packed s packets h =
      let f = start_filling s in
      let m = s.offset_mask in
      let r = room_of s.out_buffer_size in
      let fuel = length s.io_pipe + r + 2 in
      let fills = fill-Fills coder m r fuel f (omega (arith, is_set_le s.current)) in
      let p =
        Fills-Packed coder m r (ap (λ (n : ℕ). n % 0x2000) h.same_mask ∙ aligned)
          (omega (arith, h.same_room)) f (fill coder m r fuel f) fills (omega arith) h.in_place in
      let q =
        subst
          (λ m. (groups : List (List (List ℕ))) × Packed coder m r f (fill_buffer coder s) groups)
          h.same_mask p in
      subst
        (λ r. (groups : List (List (List ℕ))) × Packed coder mask r f (fill_buffer coder s) groups)
        h.same_room q

  -- What was encoded since the start, with some more groups.
  more_messages :
      (s : Sender Z) (packets : List (List ℕ)) (f : Filling Z) (groups : List (List (List ℕ)))
      → (h : Sends coder z reads mask room s packets)
      → Packed coder mask room (start_filling s) f groups
      → (messages_of reads ≡ flatten (h.groups ++ groups) ++ messages_of f.reads)
        × (f.serializer ≡ (blocks_of coder z (h.groups ++ groups)).1)
        × (filled (blocks_of coder z (h.groups ++ groups)).0
            ≡ filled (blocks_in h.pieces) ++ filled (blocks_of coder s.serializer groups).0)
  more_messages s packets f groups h p = (
    h.messages
        ∙ ap (λ t. flatten h.groups ++ t) p.messages
        ∙ sym (append_assoc (flatten h.groups) (flatten groups) (messages_of f.reads))
        ∙ ap (λ t. t ++ messages_of f.reads) (sym (flatten-append h.groups groups)),
    p.serializer
        ∙ ap (λ z. (blocks_of coder z groups).1) h.serializer
        ∙ sym (state-append coder z h.groups groups),
    ap filled (blocks_of-append coder z h.groups groups)
        ∙ filled-append (blocks_of coder z h.groups).0 _
        ∙ ap₂ (λ xs z. xs ++ filled (blocks_of coder z groups).0) (sym h.blocks) (sym h.serializer),
  )

  -- Messages may be read that make no packet yet.
  pub took_nothing :
      (s : Sender Z) (packets : List (List ℕ)) (f : Filling Z) (groups : List (List (List ℕ)))
      → s.write_size ≡ 0
      → Sends coder z reads mask room s packets
      → Packed coder mask room (start_filling s) f groups
      → length f.content ≡ 0
      → Sends coder z reads mask room (take_filling f s) packets
  unfolding take_filling
  took_nothing s packets f groups w h p empty =
      let B = (blocks_of coder s.serializer groups).0 in
      let (messages, serializer, blocks) = more_messages s packets f groups h p in
      let no_rest : rest_of f ≡ [] = elim p.stopped [
        | inl full ↦ absurd (omega arith)
        | inr none_left ↦ none_left
      ] in
      let nothing : rest_of (start_filling s) ++ flatten B ≡ [] =
        p.bytes ∙ ap₂ (λ s t. s ++ t) (length_zero f.content empty) no_rest in
      let (none_before, no_blocks) = append_none (rest_of (start_filling s)) (flatten B) nothing in
      record {
        groups = h.groups ++ groups;
        pieces = h.pieces;
        group_sizes = All-more _ h.groups groups h.group_sizes p.group_sizes;
        messages = messages;
        serializer = serializer;
        blocks =
            sym (append-nil (filled (blocks_in h.pieces)))
            ∙ ap (λ t. filled (blocks_in h.pieces) ++ t) (sym (filled_none B no_blocks))
            ∙ sym blocks;
        all_pieces = h.all_pieces;
        chain = subst (Chain [] h.pieces) (none_before ∙ sym no_rest) h.chain;
        on_wire = h.on_wire;
        index = h.index;
        in_place = p.in_place;
        same_mask = h.same_mask;
        same_room = h.same_room;
      }

  abbrev piece_of : Sender Z → Filling Z → List (List (List ℕ)) → Piece
  piece_of s f groups = record {
    lead = rest_from s.current s.current_offset;
    blocks = (blocks_of coder s.serializer groups).0;
    content = f.content;
    left = rest_of f;
  }

  start_free :
      (s : Sender Z) → s.offset_mask ≡ mask → (start_filling s).offset ≡ non_exist_offset + mask
  start_free s e =
      or_add_low 13 (mask / 0x2000) 0x1fff s.offset_mask (omega (arith, e)) (omega arith)
      ∙ ap (λ (n : ℕ). non_exist_offset + n) e

  piece_of-IsPiece :
      (s : Sender Z) (f : Filling Z) (groups : List (List (List ℕ)))
      → s.offset_mask ≡ mask
      → Packed coder mask room (start_filling s) f groups
      → length f.content ≢ 0
      → IsPiece room (piece_of s f groups) × (f.offset ≡ start_of (piece_of s f groups) + mask)
  piece_of-IsPiece s f [] same p some_content = (
    record {
      bytes = p.bytes;
      some_content = omega arith;
      fits = p.fits;
      lead_fits = λ ne. absurd (ne refl);
      lead_short = λ ne. absurd (ne refl);
    },
    elim (p.free_offset (ap (λ (n : ℕ). n % 0x2000) (start_free s same) ∙ omega arith)) [
      | inl (_, at) ↦ at ∙ start_free s same
      | inr (ne, _, _) ↦ absurd (ne refl)
    ],
  )
  piece_of-IsPiece s f (msgs ∷ groups) same p some_content =
      let start = start_free s same in
      elim (p.free_offset (ap (λ (n : ℕ). n % 0x2000) start ∙ omega arith)) [
        | inl (e, _) ↦ absurd cc
        | inr (ne, less, at) ↦ (
          record {
            bytes = p.bytes;
            some_content = omega arith;
            fits = p.fits;
            lead_fits =
                λ ne. lead_le room _ _ f.content (rest_of f) p.bytes p.stopped (omega arith);
            lead_short = λ ne. omega arith;
          },
          at ∙ omega arith,
        )
      ]

  pub took_packet :
      (s : Sender Z) (packets : List (List ℕ)) (f : Filling Z) (groups : List (List (List ℕ)))
      → s.write_size ≡ 0
      → Sends coder z reads mask room s packets
      → Packed coder mask room (start_filling s) f groups
      → length f.content ≢ 0
      → Sends coder z reads mask room (put_packet f s) packets
  unfolding put_packet take_filling packet
  took_packet s packets f groups w h p some_content =
      let B = (blocks_of coder s.serializer groups).0 in
      let piece = piece_of s f groups in
      let (messages, serializer, blocks) = more_messages s packets f groups h p in
      let (good, at_start) = piece_of-IsPiece s f groups h.same_mask p some_content in
      let wire = packet f.offset s.next_index f.content in
      let waits : take (6 + length f.content) wire ≡ wire =
        take_of_length_le (6 + length f.content) wire (omega arith) in
      let before : packets ≡ packets_of mask 0 h.pieces =
        sym (append-nil packets) ∙ ap (λ t. packets ++ t) (sym (waiting_none s w)) ∙ h.on_wire in
      let number : s.next_index ≡ (length h.pieces + 0) % 2 ^ 32 = omega (arith, h.index) in
      record {
        groups = h.groups ++ groups;
        pieces = h.pieces ++ piece ∷ [];
        group_sizes = All-more _ h.groups groups h.group_sizes p.group_sizes;
        messages = messages;
        serializer = serializer;
        blocks =
            ap filled (blocks_in-more h.pieces piece)
            ∙ filled-append (blocks_in h.pieces) B
            ∙ sym blocks;
        all_pieces = All-more (IsPiece room) h.pieces (piece ∷ []) h.all_pieces (good, tt);
        chain = Chain-more [] h.pieces piece h.chain;
        on_wire =
            ap (λ t. packets ++ t) (waiting_some (put_packet f s) (λ e. omega arith))
            ∙ ap (λ t. packets ++ t ∷ [])
                (waits ∙ ap₂ (λ o i. packet o i f.content) at_start number)
            ∙ ap
                (λ t.
                  t
                  ++ packet (start_of piece + mask) ((length h.pieces + 0) % 2 ^ 32) f.content ∷ [])
                before
            ∙ sym (packets_of-more mask 0 h.pieces piece);
        index = omega (arith, h.index, length-append h.pieces (piece ∷ []));
        in_place = p.in_place;
        same_mask = h.same_mask;
        same_room = h.same_room;
      }
