-- ===== src/Pgm/Examples.antt =====
-- A sender and a receiver at work with a small serializer and its parser, and the theorems at concrete
-- inputs. A message stands in a block with each byte one higher, and a 0 at its end.
use flash_forwarder.Prelude.{
  ℕ, zero, suc, ◌+◌, ◌%◌, ◌^◌, ◌≡◌, ◌⊎◌, refl, sym, ap, ap₂, subst, ◌∙◌, List, [], ◌∷◌, ◌++◌, none,
  some, true, false, All, append-nil, append_assoc, arith,
}
use mathlib.Core.List.{flatten}
use flash_forwarder.Pgm.Filling.{
  Coder, Reads, fill, fill_round, read_messages, after_reading, flush_current, copy_current,
  copy_flushed, encode_one, started_at,
}
use flash_forwarder.Pgm.Filling.Blocks.{messages_of, encode_each, blocks_of, rest_from}
use flash_forwarder.Pgm.{packet}
use flash_forwarder.Pgm.Sender.{
  Sender, Event, out_events, tx_expires, status_expires, SendResult, ok, no_memory, new_sender,
  mask_of, handle, out_event, timer_event, fill_buffer, room_of, send_packet, send_result,
  after_refusal, put_packet, take_filling,
}
use flash_forwarder.Pgm.Sender.Pieces.{contents_of, blocks_in, Piece, IsPiece, packets_of}
use flash_forwarder.Pgm.Sender.Sends.{Sends, sent_by}
use flash_forwarder.Pgm.Sender.Run.{handle_all, handle_all-Sends}
use flash_forwarder.Pgm.Peer.{Parsing, new_peer, apply_of}
use flash_forwarder.Pgm.Receiver.Pushed.{pushed, applied}
use flash_forwarder.Pgm.Receiver.Joined.{joined_receiver, Parses, no_chunk, a_chunk}
use flash_forwarder.Pgm.Delivery.{Action}
use flash_forwarder.Pgm.Receiver.{Receiver, new_receiver, receive_all}
use flash_forwarder.Pgm.Receiver.Stream.{arrivals, chunks_of}
use flash_forwarder.Pgm.Receiver.Whole.{receive_all-Chain}
use flash_forwarder.Pgm.Receiver.Apart.{Apart, gap}
use flash_forwarder.Pgm.Exchange.{Understands, receive_all-handle_all}

abbrev shifted : List ℕ → List ℕ → List ℕ
shifted [] rest = 0 ∷ rest
shifted (b ∷ bs) rest = suc b ∷ shifted bs rest

abbrev small_coder : Coder (List ℕ)
small_coder = record {
  serialize = λ msg z. z ++ shifted msg [];
  flush = λ z. (z, []);
  on_increment = none;
}

abbrev parse_from : List ℕ → List ℕ → List (List ℕ) × List ℕ
parse_from msg [] = ([], msg)
parse_from msg (zero ∷ bs) = let (msgs, rest) = parse_from [] bs in (msg ∷ msgs, rest)
parse_from msg (suc b ∷ bs) = parse_from (msg ++ b ∷ []) bs

abbrev small_parsing : Parsing (List ℕ) (List ℕ)
small_parsing = record {
  create_parser = λ level. [];
  parse = λ bytes msg. ((parse_from msg bytes).0, true, (parse_from msg bytes).1);
  create_apply = none;
  apply = λ content a. (content, a);
}

parse_from-append :
    (msg xs ys : List ℕ)
    → (parse_from msg (xs ++ ys)).0
      ≡ (parse_from msg xs).0 ++ (parse_from (parse_from msg xs).1 ys).0
parse_from-append msg [] ys = refl
parse_from-append msg (zero ∷ xs) ys = ap (λ t. msg ∷ t) (parse_from-append [] xs ys)
parse_from-append msg (suc b ∷ xs) ys = parse_from-append (msg ++ b ∷ []) xs ys

takes :
    (msg : List ℕ) (chunks : List (List ℕ))
    → Parses small_parsing msg chunks (parse_from msg (flatten chunks)).0
unfolding flatten
takes msg [] = no_chunk
takes msg (chunk ∷ chunks) =
    subst (Parses small_parsing msg (chunk ∷ chunks))
      (sym (parse_from-append msg chunk (flatten chunks)))
      (a_chunk refl (takes (parse_from msg chunk).1 chunks))

abbrev stream_of : List (List ℕ) → List ℕ
stream_of [] = []
stream_of (msg ∷ msgs) = shifted msg (stream_of msgs)

parse_from-shifted :
    (msg rest start : List ℕ)
    → (parse_from start (shifted msg rest)).0 ≡ (start ++ msg) ∷ (parse_from [] rest).0
parse_from-shifted [] rest start = ap (λ t. t ∷ (parse_from [] rest).0) (sym (append-nil start))
parse_from-shifted (b ∷ bs) rest start =
    parse_from-shifted bs rest (start ++ b ∷ [])
    ∙ ap (λ t. t ∷ (parse_from [] rest).0) (append_assoc start (b ∷ []) bs)

parse_from-stream_of : (msgs : List (List ℕ)) → (parse_from [] (stream_of msgs)).0 ≡ msgs
parse_from-stream_of [] = refl
parse_from-stream_of (msg ∷ msgs) =
    parse_from-shifted msg (stream_of msgs) [] ∙ ap (λ t. msg ∷ t) (parse_from-stream_of msgs)

shifted-append : (msg rest : List ℕ) → shifted msg [] ++ rest ≡ shifted msg rest
shifted-append [] rest = refl
shifted-append (b ∷ bs) rest = ap (λ t. suc b ∷ t) (shifted-append bs rest)

encode_each_lem :
    (msgs : List (List ℕ)) (z : List ℕ) → encode_each small_coder msgs z ≡ z ++ stream_of msgs
unfolding encode_one
encode_each_lem [] z = sym (append-nil z)
encode_each_lem (msg ∷ msgs) z =
    encode_each_lem msgs (z ++ shifted msg [])
    ∙ append_assoc z (shifted msg []) (stream_of msgs)
    ∙ ap (λ t. z ++ t) (shifted-append msg (stream_of msgs))

stream_of-append : (xs ys : List (List ℕ)) → stream_of (xs ++ ys) ≡ stream_of xs ++ stream_of ys
stream_of-append [] ys = refl
stream_of-append (x ∷ xs) ys =
    ap (shifted x) (stream_of-append xs ys)
    ∙ sym (shifted-append x (stream_of xs ++ stream_of ys))
    ∙ sym (append_assoc (shifted x []) (stream_of xs) (stream_of ys))
    ∙ ap (λ t. t ++ stream_of ys) (shifted-append x (stream_of xs))

flatten-blocks_of :
    (groups : List (List (List ℕ)))
    → flatten (blocks_of small_coder [] groups).0 ≡ stream_of (flatten groups)
unfolding flatten
flatten-blocks_of [] = refl
flatten-blocks_of (msgs ∷ groups) =
    ap₂ (λ x y. x ++ y) (encode_each_lem msgs []) (flatten-blocks_of groups)
    ∙ sym (stream_of-append msgs (flatten groups))

understands : (level : ℕ) → Understands small_coder [] small_parsing level false
unfolding apply_of
understands level = record {
  decoded = λ groups chunks e. (
    (parse_from [] (flatten chunks)).0,
    takes [] chunks,
    ap (λ t. (parse_from [] t).0) (e ∙ flatten-blocks_of groups)
        ∙ parse_from-stream_of (flatten groups),
  );
}

-- Units of 9 bytes, and three messages, one of which comes late.
abbrev some_reads : Reads
some_reads = some (7 ∷ 7 ∷ []) ∷ some (5 ∷ []) ∷ none ∷ some (4 ∷ []) ∷ []

abbrev all_sent : SendResult
all_sent = record { status = ok; nbytes = 9; tx_timeout = 0 }

abbrev last_sent : SendResult
last_sent = record { status = ok; nbytes = 7; tx_timeout = 0 }

abbrev none_sent : SendResult
none_sent = record { status = no_memory; nbytes = 0; tx_timeout = 20 }

abbrev some_events : List Event
some_events =
    out_events none_sent
    ∷ tx_expires all_sent
    ∷ out_events all_sent
    ∷ status_expires
    ∷ out_events last_sent
    ∷ []

abbrev some_sender : Sender (List ℕ)
some_sender = new_sender 9 1 false [] some_reads

handle_all-Sends_example :
    (h : Sends small_coder [] some_reads
      (mask_of 1 false)
      3
      (handle_all small_coder some_events some_sender).0
      (sent_by (handle_all small_coder some_events some_sender).1))
    × (flatten (blocks_of small_coder [] h.groups).0
        ≡ contents_of h.pieces
          ++ rest_from
              (handle_all small_coder some_events some_sender).0.current
              (handle_all small_coder some_events some_sender).0.current_offset)
handle_all-Sends_example =
    handle_all-Sends small_coder [] some_reads 9 1 false some_events (omega arith) (omega arith)
      (omega arith)

-- Nothing waits at the end.
all_away :
    ((handle_all small_coder some_events some_sender).0.write_size ≡ 0)
    × (rest_from
          (handle_all small_coder some_events some_sender).0.current
          (handle_all small_coder some_events some_sender).0.current_offset
        ≡ [])
unfolding handle out_event timer_event new_sender fill_buffer fill room_of fill_round after_reading
    read_messages copy_flushed flush_current copy_current encode_one send_packet put_packet
    take_filling send_result after_refusal started_at mask_of packet
all_away = (refl, refl)

receive_all-handle_all_example :
    (r' : Receiver (List ℕ) (List ℕ)) × (actions : List Action) × (receive_all small_parsing
        (arrivals 77 (λ n. 1000 + n) 0 (sent_by (handle_all small_coder some_events some_sender).1))
        new_receiver
      ≡ some (r', actions))
    × (messages_of some_reads
        ≡ pushed actions ++ messages_of (handle_all small_coder some_events some_sender).0.io_pipe)
receive_all-handle_all_example =
    receive_all-handle_all small_coder [] some_reads 9 1 false some_events small_parsing 77
      (λ n. 1000 + n) (omega arith) (omega arith) (omega arith) (understands 1) all_away.0
      all_away.1

-- A peer that is joined, and has sent packet 3.
abbrev known_receiver : Receiver (List ℕ) (List ℕ)
known_receiver = joined_receiver new_receiver 77 new_peer (6 ∷ []) none 3

-- Packets 5 and 6: the end of a block, and a whole one.
abbrev late_pieces : List Piece
late_pieces =
    record { lead = 6 ∷ 0 ∷ []; blocks = []; content = 6 ∷ 0 ∷ []; left = [] }
    ∷ record { lead = []; blocks = (5 ∷ 0 ∷ []) ∷ []; content = 5 ∷ 0 ∷ []; left = [] }
    ∷ []

late_ok : All (IsPiece 3) late_pieces
unfolding flatten
late_ok = (
  record {
    bytes = refl;
    some_content = omega arith;
    fits = omega arith;
    lead_fits = λ ne. absurd (ne refl);
    lead_short = λ ne. absurd (ne refl);
  },
  (
    record {
      bytes = refl;
      some_content = omega arith;
      fits = omega arith;
      lead_fits = λ ne. omega arith;
      lead_short = λ ne. omega arith;
    },
    tt,
  ),
)

lost_packet : Apart known_receiver 77 (5 % 2 ^ 32)
lost_packet = gap _ refl (omega arith) (omega arith)

receive_all-Chain_example :
    ((r' : Receiver (List ℕ) (List ℕ)) × (actions : List Action) × (receive_all small_parsing
          (arrivals 77 (λ n. 1000 + n) 0 (packets_of (mask_of 1 false) 5 late_pieces))
          known_receiver
        ≡ some (r', actions))
      × (pushed actions
          ≡ applied small_parsing
              (apply_of small_parsing false none)
              (parse_from [] (flatten (chunks_of late_pieces))).0))
    × (((chunks_of late_pieces ≡ []) × (blocks_in late_pieces ≡ []))
        ⊎ (flatten (chunks_of late_pieces) ++ [] ≡ flatten (blocks_in late_pieces)))
receive_all-Chain_example =
    receive_all-Chain small_parsing 77 (λ n. 1000 + n) 1 false 3 0 5 (6 ∷ 0 ∷ []) [] late_pieces
      known_receiver (parse_from [] (flatten (chunks_of late_pieces))).0 (omega arith) (omega arith)
      (refl, (refl, refl)) late_ok lost_packet (takes [] (chunks_of late_pieces))
