-- ===== src/Pgm/Exchange.antt =====
-- A PGMSender (src/pgm_sender.cc) and a PGMReceiver (src/pgm_receiver.cc) without a loss between them.
use flash_forwarder.Prelude.{
  ℕ, ◌-◌, ◌<◌, ◌≡◌, inl, inr, refl, sym, ap, ◌∙◌, List, [], ◌++◌, none, some, Bool, All, append-nil,
  arith,
}
use mathlib.Core.List.{flatten}
use flash_forwarder.Pgm.Filling.{Coder, Reads}
use flash_forwarder.Pgm.Filling.Blocks.{messages_of, blocks_of, rest_from}
use flash_forwarder.Pgm.Sender.{Event, new_sender, mask_of}
use flash_forwarder.Pgm.Sender.Pieces.{
  Piece, IsPiece, Chain, packets_of, contents_of, blocks_in, contents_of-blocks, flatten-filled,
}
use flash_forwarder.Pgm.Sender.Sends.{sent_by, append_none, waiting_none}
use flash_forwarder.Pgm.Sender.Run.{handle_all, handle_all-Sends}
use flash_forwarder.Pgm.Peer.{Parsing, apply_of}
use flash_forwarder.Pgm.Delivery.{Action}
use flash_forwarder.Pgm.Receiver.{Receiver, new_receiver, find_peer, receive_all}
use flash_forwarder.Pgm.Receiver.Pushed.{pushed, applied}
use flash_forwarder.Pgm.Receiver.Joined.{Parses}
use flash_forwarder.Pgm.Receiver.Apart.{Apart, unknown}
use flash_forwarder.Pgm.Receiver.Stream.{arrivals, chunks_of}
use flash_forwarder.Pgm.Receiver.Whole.{receive_all-Chain, flatten-chunks_of}

-- From the start of the stream, the chunks are all of it.
chunks_of_whole :
    (room : ℕ) (end : List ℕ) (ps : List Piece)
    → Chain [] ps end
    → All (IsPiece room) ps
    → flatten (chunks_of ps) ++ end ≡ flatten (blocks_in ps)
unfolding flatten
chunks_of_whole room end ps c a = elim (flatten-chunks_of room [] end ps c a) [
  | inr e ↦ e
  | inl (x, y) ↦
      let (no_contents, no_end) =
        append_none (contents_of ps) end
          (sym (contents_of-blocks room [] end ps c a) ∙ ap (λ t. flatten t) y) in
      ap (λ t. flatten t ++ end) x ∙ no_end ∙ ap (λ t. flatten t) (sym y)
]

new_receiver-Apart {ℓ} :
    {P A : Type ℓ} (tsi index : ℕ) → Apart (new_receiver {P = P} {A = A}) tsi index
unfolding find_peer
new_receiver-Apart tsi index = unknown refl

-- A parser that understands a serializer: however the blocks that were flushed after some groups of
-- messages are cut into chunks, it takes them, and what comes of the messages that it hands over is the
-- messages of the groups.
pub record Understands {ℓ κ} {Z : Type ℓ} {P A : Type κ} (coder : Coder Z) (z : Z)
    (parsing : Parsing P A) (level : ℕ) (increment : Bool) : Type κ where
  pub decoded :
      (groups : List (List (List ℕ))) (chunks : List (List ℕ))
      → flatten chunks ≡ flatten (blocks_of coder z groups).0
      → (msgs : List (List ℕ)) × Parses parsing (parsing.create_parser level) chunks msgs
        × (applied parsing (apply_of parsing increment none) msgs ≡ flatten groups)

-- A new sender with a compress level below 4, on units of 7 to 8197 bytes, after any events at whose end
-- no packet waits and no block is at hand; a new receiver whose parser understands the serializer is given
-- the packets that were sent, in order. No assertion fails, and its sinks get the messages that the
-- sender read, all and in order: with those that are still in the pipe they are the messages of the pipe.
pub receive_all-handle_all {ℓ κ} :
    {Z : Type ℓ} {P A : Type κ} (coder : Coder Z) (z : Z) (reads : Reads) (size level : ℕ)
    (increment : Bool) (events : List Event) (parsing : Parsing P A) (tsi : ℕ) (clock : ℕ → ℕ)
    → level < 4
    → 6 < size
    → size < 0x2006
    → Understands coder z parsing level increment
    → let r = handle_all coder events (new_sender size level increment z reads) in
      r.0.write_size ≡ 0
      → rest_from r.0.current r.0.current_offset ≡ []
      → (r' : Receiver P A) × (actions : List Action) × (receive_all parsing
            (arrivals tsi clock 0 (sent_by r.1))
            new_receiver
          ≡ some (r', actions))
        × (messages_of reads ≡ pushed actions ++ messages_of r.0.io_pipe)
receive_all-handle_all coder z reads size level increment events parsing tsi clock l h k understands
      none_waits no_rest =
    let r = handle_all coder events (new_sender size level increment z reads) in
    let (sends, _) = handle_all-Sends coder z reads size level increment events l h k in
    let end = rest_from r.0.current r.0.current_offset in
    let chunks = chunks_of sends.pieces in
    let sent_all : sent_by r.1 ≡ packets_of (mask_of level increment) 0 sends.pieces =
      sym (append-nil (sent_by r.1))
      ∙ ap (λ t. sent_by r.1 ++ t) (sym (waiting_none r.0 none_waits))
      ∙ sends.on_wire in
    let whole : flatten chunks ≡ flatten (blocks_of coder z sends.groups).0 =
      sym (append-nil (flatten chunks))
      ∙ ap (λ t. flatten chunks ++ t) (sym no_rest)
      ∙ chunks_of_whole (size - 6) end sends.pieces sends.chain sends.all_pieces
      ∙ sym (flatten-filled (blocks_in sends.pieces))
      ∙ ap (λ t. flatten t) sends.blocks
      ∙ flatten-filled (blocks_of coder z sends.groups).0 in
    let (msgs, parses, same) = understands.decoded sends.groups chunks whole in
    let ((r', actions, received, given), _) =
      receive_all-Chain parsing tsi clock level increment (size - 6) 0 0 [] end sends.pieces
        new_receiver msgs l (omega arith) sends.chain sends.all_pieces (new_receiver-Apart tsi 0)
        parses in
    (
      r',
      actions,
      ap (λ ps. receive_all parsing (arrivals tsi clock 0 ps) new_receiver) sent_all ∙ received,
      sends.messages ∙ ap (λ t. t ++ messages_of r.0.io_pipe) (sym (given ∙ same)),
    )
