-- ===== src/Pgm/Receiver/Whole.antt =====
-- The packets of a PGMSender (src/pgm_sender.cc) at a PGMReceiver (src/pgm_receiver.cc): it joins the
-- stream where a block starts, and the parser is given whole blocks.
use flash_forwarder.Prelude.{
  ℕ, suc, ◌+◌, ◌%◌, ◌^◌, ◌<◌, ◌≡◌, ◌≢◌, ◌⊎◌, inl, inr, refl, sym, ap, ◌∙◌, List, [], ◌∷◌, ◌++◌,
  none, some, Bool, length, drop, append_assoc, All, drop_append_le, drop-append, arith,
}
use mathlib.Core.List.{flatten}
use flash_forwarder.Pgm.{packet}
use flash_forwarder.Pgm.Sender.{mask_of}
use flash_forwarder.Pgm.Sender.Pieces.{
  Piece, IsPiece, start_of, first_start, Chain, packets_of, contents_of, blocks_in,
  contents_of-blocks, flatten-append,
}
use flash_forwarder.Pgm.Peer.{Parsing, apply_of}
use flash_forwarder.Pgm.Delivery.{Action, begin_push, end_push, handle_messages}
use flash_forwarder.Pgm.Receiver.{Receiver, receive_all, more_actions}
use flash_forwarder.Pgm.Receiver.Headers.{the_header}
use flash_forwarder.Pgm.Receiver.Pushed.{pushed, applied}
use flash_forwarder.Pgm.Receiver.Joined.{Parses, no_chunk, a_chunk}
use flash_forwarder.Pgm.Receiver.Apart.{Apart, ignored_packet, joining_packet}
use flash_forwarder.Pgm.Receiver.Stream.{
  arrivals, data_of, chunks_of, chunks_from, applied_nil, delivered, counted, counted-Apart,
  receive_first, header_ok, receive_all-joined,
}

blocks-cases :
    (blocks : List (List ℕ))
    → (blocks ≡ []) ⊎ ((b : List ℕ) × (bs : List (List ℕ)) × (blocks ≡ b ∷ bs))
blocks-cases [] = inl refl
blocks-cases (b ∷ bs) = inr (b, bs, refl)

flatten-data_of : (ps : List Piece) → flatten (data_of ps) ≡ contents_of ps
unfolding flatten
flatten-data_of [] = refl
flatten-data_of (p ∷ ps) = ap (λ t. p.content ++ t) (flatten-data_of ps)

-- The chunks are all the blocks that start in the pieces.
pub flatten-chunks_of :
    (room : ℕ) (left end : List ℕ) (ps : List Piece)
    → Chain left ps end
    → All (IsPiece room) ps
    → ((chunks_of ps ≡ []) × (blocks_in ps ≡ []))
      ⊎ (flatten (chunks_of ps) ++ end ≡ flatten (blocks_in ps))
unfolding flatten
flatten-chunks_of room left end [] c a = inl (refl, refl)
flatten-chunks_of room left end (p ∷ ps) c a = elim (blocks-cases p.blocks) [
  | inl b ↦ elim (flatten-chunks_of room p.left end ps c.1 a.1) [
    | inl (x, y) ↦
        inl (ap (λ b. chunks_from b p ps (chunks_of ps)) b ∙ x, ap (λ b. b ++ blocks_in ps) b ∙ y)
    | inr e ↦ inr (
        ap (λ b. flatten (chunks_from b p ps (chunks_of ps)) ++ end) b
        ∙ e
        ∙ ap (λ b. flatten (b ++ blocks_in ps)) (sym b))
  ]
  | inr (block, blocks, b) ↦ inr (
      let fits = a.0.lead_fits (λ z. absurd cc) in
      let cut = drop (length p.lead) p.content in
      let new : cut ++ p.left ≡ flatten p.blocks =
        sym (drop_append_le (length p.lead) p.content p.left fits)
        ∙ ap (drop (length p.lead)) (sym a.0.bytes)
        ∙ drop-append p.lead (flatten p.blocks) in
      ap (λ b. flatten (chunks_from b p ps (chunks_of ps)) ++ end) b
      ∙ append_assoc cut (flatten (data_of ps)) end
      ∙ ap (λ t. cut ++ (t ++ end)) (flatten-data_of ps)
      ∙ ap (λ t. cut ++ t) (sym (contents_of-blocks room p.left end ps c.1 a.1))
      ∙ sym (append_assoc cut p.left (flatten (blocks_in ps)))
      ∙ ap (λ t. t ++ flatten (blocks_in ps)) new
      ∙ sym (flatten-append p.blocks (blocks_in ps)))
]

module _ {ℓ} {P A : Type ℓ} (parsing : Parsing P A) (tsi : ℕ) (clock : ℕ → ℕ) (level : ℕ)
    (increment : Bool) (low : level < 4) (room : ℕ) (small : room < 0x2000) where
  -- A packet in which a block starts, and those behind it.
  receive_all-joins :
      (p : Piece) (ps : List Piece) (n index : ℕ) (r : Receiver P A) (chunks msgs : List (List ℕ))
      → All (IsPiece room) (p ∷ ps)
      → Apart r tsi (index % 2 ^ 32)
      → p.blocks ≢ []
      → start_of p ≡ length p.lead
      → Parses parsing (parsing.create_parser level) chunks msgs
      → chunks ≡ drop (length p.lead) p.content ∷ data_of ps
      → (r' : Receiver P A) × (actions : List Action) × (receive_all parsing
            (arrivals tsi clock n (packets_of (mask_of level increment) index (p ∷ ps)))
            r
          ≡ some (r', actions))
        × (pushed actions ≡ applied parsing (apply_of parsing increment none) msgs)
  receive_all-joins p ps n index r chunks msgs pieces a ne start no_chunk e = absurd cc
  receive_all-joins p ps n index r chunks msgs pieces a ne start
        (a_chunk {parser' = parser'} {chunk = chunk} {chunks = chunks'} {msgs = now} {more = later}
          q more)
        e =
      let bytes = packet (start_of p + mask_of level increment) (index % 2 ^ 32) p.content in
      let header = the_header (start_of p) level increment (index % 2 ^ 32) p.content in
      let first = parsing.create_parser level in
      let inc = apply_of parsing increment none in
      let same : chunk ≡ drop (start_of p) p.content = cc in
      let rest : chunks' ≡ data_of ps = cc in
      let less = pieces.0.lead_short ne in
      let fits = pieces.0.lead_fits ne in
      let (joined, peer, last, status, received, next) =
        joining_packet parsing (counted parsing bytes r) tsi (clock n) header now parser'
          (counted-Apart parsing bytes r tsi (index % 2 ^ 32) a) (λ z. omega arith) (omega arith)
          (ap (λ c. parsing.parse c first) (sym same) ∙ q) in
      let s = handle_messages parsing now inc status in
      let given = begin_push (clock n) ∷ (s.2 ++ end_push ∷ []) in
      let (r', actions, all, pushes) =
        receive_all-joined parsing tsi clock level increment low room small ps (suc n) (suc index)
          (record joined { status = s.1 }) peer parser' s.0 last chunks' later pieces.1
          (next (suc index % 2 ^ 32) (omega arith)) more rest in
      (
        r',
        given ++ actions,
        receive_first parsing r _ tsi (clock n) bytes header given
              (arrivals tsi clock (suc n) (packets_of (mask_of level increment) (suc index) ps))
              (header_ok parsing tsi clock level increment low room small p index pieces.0) received
            ∙ ap (more_actions given) all,
        delivered parsing now later inc status (clock n) actions pushes,
      )

  -- The packets of a stream that the receiver joins.
  receive_all-Apart :
      (ps : List Piece) (n index : ℕ) (r : Receiver P A) (chunks msgs : List (List ℕ))
      → All (IsPiece room) ps
      → Apart r tsi (index % 2 ^ 32)
      → Parses parsing (parsing.create_parser level) chunks msgs
      → chunks ≡ chunks_of ps
      → (r' : Receiver P A) × (actions : List Action) × (receive_all parsing
            (arrivals tsi clock n (packets_of (mask_of level increment) index ps))
            r
          ≡ some (r', actions))
        × (pushed actions ≡ applied parsing (apply_of parsing increment none) msgs)
  unfolding receive_all
  receive_all-Apart [] n index r [] msgs pieces a no_chunk e =
      (r, [], refl, sym (applied_nil parsing (apply_of parsing increment none)))
  receive_all-Apart [] n index r chunks msgs pieces a (a_chunk q more) e = absurd cc
  receive_all-Apart (p ∷ ps) n index r chunks msgs pieces a parses e =
      elim (blocks-cases p.blocks) [
        | inl none_start ↦
            let bytes = packet (start_of p + mask_of level increment) (index % 2 ^ 32) p.content in
            let header = the_header (start_of p) level increment (index % 2 ^ 32) p.content in
            let (r', received, next) =
              ignored_packet parsing (counted parsing bytes r) tsi (clock n) header
                (counted-Apart parsing bytes r tsi (index % 2 ^ 32) a)
                (ap (first_start p.lead) none_start) in
            let (r'', actions, all, pushes) =
              receive_all-Apart ps (suc n) (suc index) r' chunks msgs pieces.1
                (next (suc index % 2 ^ 32) (omega arith)) parses
                (e ∙ ap (λ b. chunks_from b p ps (chunks_of ps)) none_start) in
            (
              r'',
              actions,
              receive_first parsing r r' tsi (clock n) bytes header []
                    (arrivals tsi clock (suc n)
                      (packets_of (mask_of level increment) (suc index) ps))
                    (header_ok parsing tsi clock level increment low room small p index pieces.0)
                    received
                  ∙ ap (more_actions []) all,
              pushes,
            )
        | inr (block, blocks, b) ↦
            receive_all-joins p ps n index r chunks msgs pieces a (λ z. absurd cc)
              (ap (first_start p.lead) b) parses (e ∙ ap (λ b. chunks_from b p ps (chunks_of ps)) b)
      ]

-- Packets in a row of a stream, the first of which finds the receiver apart from the sender: it does
-- not know it, or is not joined to it, or it has kept the number of the packet before, which is not 0,
-- and this one does not follow it. Of a joined peer with 0 there, as after its first packet, nothing
-- is said. The sinks get what comes of the messages that a new parser hands over of the chunks, if it
-- takes each of them; no assertion fails. The chunks start where a block first starts in the packets,
-- and are all that the blocks from there on hold, up to what the last packet left; or no block starts
-- in the packets.
pub receive_all-Chain {ℓ} :
    {P A : Type ℓ} (parsing : Parsing P A) (tsi : ℕ) (clock : ℕ → ℕ) (level : ℕ) (increment : Bool)
    (room n index : ℕ) (left end : List ℕ) (ps : List Piece) (r : Receiver P A)
    (msgs : List (List ℕ))
    → level < 4
    → room < 0x2000
    → Chain left ps end
    → All (IsPiece room) ps
    → Apart r tsi (index % 2 ^ 32)
    → Parses parsing (parsing.create_parser level) (chunks_of ps) msgs
    → ((r' : Receiver P A) × (actions : List Action) × (receive_all parsing
            (arrivals tsi clock n (packets_of (mask_of level increment) index ps))
            r
          ≡ some (r', actions))
        × (pushed actions ≡ applied parsing (apply_of parsing increment none) msgs))
      × (((chunks_of ps ≡ []) × (blocks_in ps ≡ []))
          ⊎ (flatten (chunks_of ps) ++ end ≡ flatten (blocks_in ps)))
receive_all-Chain parsing tsi clock level increment room n index left end ps r msgs l s c a apart
      parses =
    (
      receive_all-Apart parsing tsi clock level increment l room s ps n index r (chunks_of ps) msgs
          a apart parses refl,
      flatten-chunks_of room left end ps c a,
    )
