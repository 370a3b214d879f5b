-- ===== src/Pgm/Sender/Run.antt =====
-- What a PGMSender (src/pgm_sender.cc) sends over all its events.
use flash_forwarder.Prelude.{
  ℕ, ◌*◌, ◌-◌, ◌%◌, ◌^◌, ◌<◌, ◌≡◌, refl, sym, ap, subst, ◌∙◌, List, [], ◌∷◌, ◌++◌, Bool, true,
  false, append_assoc, append-nil, arith,
}
use mathlib.Core.List.{flatten}
use flash_forwarder.Prelude.Bits.{or_add_low}
use flash_forwarder.Pgm.Filling.{Coder, Reads}
use flash_forwarder.Pgm.Filling.Blocks.{blocks_of, rest_from}
use flash_forwarder.Pgm.Sender.{
  Sender, Action, set_pollout, reset_pollout, close_handles, terminate_pipe, add_timer,
  cancel_timer, sent, refused, Event, room_of, new_sender, mask_of, handle,
}
use flash_forwarder.Pgm.Sender.Stream.{handle-Sends}
use flash_forwarder.Pgm.Sender.Pieces.{contents_of, contents_of-blocks, flatten-filled, blocks_in}
use flash_forwarder.Pgm.Sender.Sends.{sent_by, Sends}

-- The events of a sender, one after another, with all that it does.
abbrev pub handle_all {ℓ} : {Z : Type ℓ} → Coder Z → List Event → Sender Z → Sender Z × List Action
handle_all coder [] s = (s, [])
handle_all coder (event ∷ events) s =
    let (s', actions) = handle coder event s in
    let (s'', more) = handle_all coder events s' in (s'', actions ++ more)

sent_by-append : (xs ys : List Action) → sent_by (xs ++ ys) ≡ sent_by xs ++ sent_by ys
sent_by-append [] ys = refl
sent_by-append (sent bytes ∷ xs) ys = ap (λ t. bytes ∷ t) (sent_by-append xs ys)
sent_by-append (set_pollout ∷ xs) ys = sent_by-append xs ys
sent_by-append (reset_pollout ∷ xs) ys = sent_by-append xs ys
sent_by-append (close_handles ∷ xs) ys = sent_by-append xs ys
sent_by-append (terminate_pipe ∷ xs) ys = sent_by-append xs ys
sent_by-append (add_timer n id ∷ xs) ys = sent_by-append xs ys
sent_by-append (cancel_timer id ∷ xs) ys = sent_by-append xs ys
sent_by-append (refused bytes ∷ xs) ys = sent_by-append xs ys

all_Sends {ℓ} :
    {Z : Type ℓ} (coder : Coder Z) (z : Z) (reads : Reads) (mask room : ℕ)
    → mask % 0x2000 ≡ 0
    → room < 0x2000
    → 0 < room
    → (events : List Event) (s : Sender Z) (packets : List (List ℕ))
    → Sends coder z reads mask room s packets
    → let r = handle_all coder events s in
      Sends coder z reads mask room r.0 (packets ++ sent_by r.1)
all_Sends coder z reads mask room a b c [] s packets h =
    subst (Sends coder z reads mask room s) (sym (append-nil packets)) h
all_Sends coder z reads mask room a b c (event ∷ events) s packets h =
    let r = handle coder event s in
    let after =
      all_Sends coder z reads mask room a b c events r.0 (packets ++ sent_by r.1)
        (handle-Sends coder z reads mask room a b c event s packets h) in
    subst (Sends coder z reads mask room (handle_all coder events r.0).0)
      (append_assoc packets (sent_by r.1) (sent_by (handle_all coder events r.0).1)
        ∙ ap (λ t. packets ++ t) (sym (sent_by-append r.1 (handle_all coder events r.0).1)))
      after

room_of_lem : (size : ℕ) → 6 < size → size < 0x2006 → room_of size ≡ size - 6
unfolding room_of
room_of_lem size h k = omega arith

mask_of-aligned : (level : ℕ) (increment : Bool) → level < 4 → mask_of level increment % 0x2000 ≡ 0
unfolding mask_of
mask_of-aligned level true h =
    omega (arith, or_add_low 15 1 (level * 2 ^ 13 % 2 ^ 16) (2 ^ 15) refl (omega arith))
mask_of-aligned level false h = omega arith

new_sender-Sends {ℓ} :
    {Z : Type ℓ} (coder : Coder Z) (z : Z) (reads : Reads) (size level : ℕ) (increment : Bool)
    → 6 < size
    → size < 0x2006
    → Sends coder z reads
        (mask_of level increment)
        (size - 6)
        (new_sender size level increment z reads)
        []
unfolding new_sender flatten
new_sender-Sends coder z reads size level increment h k = record {
  groups = [];
  pieces = [];
  group_sizes = tt;
  messages = refl;
  serializer = refl;
  blocks = refl;
  all_pieces = tt;
  chain = refl;
  on_wire = refl;
  index = refl;
  in_place = λ e. refl;
  same_mask = refl;
  same_room = room_of_lem size h k;
}

-- A new sender with a compress level below 4 on units of 7 to 8197 bytes, after any events: there are
-- groups of 1 to 50 messages, the first that it read and all of them, such that its packets, with the one
-- that waits, are pieces of the stream of the blocks that the serializer flushes after each group. They
-- are numbered from 0 on, fit in a unit, are not empty, and carry as offset where the first block starts
-- that starts in them, or the mark for none. The data of the packets and what is left of the block at
-- hand is all of the stream.
pub handle_all-Sends {ℓ} :
    {Z : Type ℓ} (coder : Coder Z) (z : Z) (reads : Reads) (size level : ℕ) (increment : Bool)
    (events : List Event)
    → level < 4
    → 6 < size
    → size < 0x2006
    → let r = handle_all coder events (new_sender size level increment z reads) in
      (h : Sends coder z reads (mask_of level increment) (size - 6) r.0 (sent_by r.1)) × (flatten
          (blocks_of coder z h.groups).0
        ≡ contents_of h.pieces ++ rest_from r.0.current r.0.current_offset)
handle_all-Sends coder z reads size level increment events l h k =
    let mask = mask_of level increment in
    let start = new_sender-Sends coder z reads size level increment h k in
    let all =
      all_Sends coder z reads mask (size - 6) (mask_of-aligned level increment l) (omega arith)
        (omega arith) events (new_sender size level increment z reads) [] start in
    (
      all,
      sym (flatten-filled (blocks_of coder z all.groups).0)
          ∙ ap (λ t. flatten t) (sym all.blocks)
          ∙ flatten-filled (blocks_in all.pieces)
          ∙ contents_of-blocks (size - 6) [] _ all.pieces all.chain all.all_pieces,
    )
