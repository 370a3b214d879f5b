-- ===== src/Pgm/Receiver/Stream.antt =====
-- What the sinks of a PGMReceiver (src/pgm_receiver.cc) get of packets that a PGMSender numbered in a row.
use flash_forwarder.Prelude.{
  ℕ, suc, ◌+◌, ◌%◌, ◌^◌, ◌≤◌, ◌<◌, ◌≡◌, ◌≢◌, inr, refl, sym, ap, ap₂, ◌∙◌, List, [], ◌∷◌, ◌++◌,
  Option, none, some, Bool, length, drop, append-nil, All, arith,
}
use flash_forwarder.Pgm.{packet, non_exist_offset}
use flash_forwarder.Pgm.Sender.{mask_of}
use flash_forwarder.Pgm.Sender.Pieces.{Piece, IsPiece, start_of, first_start, packets_of}
use flash_forwarder.Pgm.Peer.{Parsing, Peer, Header, read_header}
use flash_forwarder.Pgm.Delivery.{ReceiveStatus, Action, begin_push, end_push, handle_messages}
use flash_forwarder.Pgm.Receiver.{
  Receiver, receive_header, receive_packet, Received, got, receive_all, more_actions,
}
use flash_forwarder.Pgm.Receiver.Headers.{the_header, read_header-start}
use flash_forwarder.Pgm.Receiver.Pushed.{
  pushed, kept, applied, increment_after, pushed-append, handle_messages-applied,
}
use flash_forwarder.Pgm.Receiver.Joined.{
  Parses, no_chunk, a_chunk, joined_receiver, Follows, joined-packet,
}
use flash_forwarder.Pgm.Receiver.Apart.{Apart, unknown, loose, gap}

-- Packets as they arrive, at the times of a clock.
abbrev pub arrivals : ℕ → (ℕ → ℕ) → ℕ → List (List ℕ) → List Received
arrivals tsi clock n [] = []
arrivals tsi clock n (p ∷ ps) = got tsi (clock n) p ∷ arrivals tsi clock (suc n) ps

abbrev pub data_of : List Piece → List (List ℕ)
data_of [] = []
data_of (p ∷ ps) = p.content ∷ data_of ps

-- The data from the first block on that starts in the pieces.
abbrev pub chunks_from : List (List ℕ) → Piece → List Piece → List (List ℕ) → List (List ℕ)
chunks_from [] p ps rest = rest
chunks_from (block ∷ blocks) p ps rest = drop (length p.lead) p.content ∷ data_of ps

abbrev pub chunks_of : List Piece → List (List ℕ)
chunks_of [] = []
chunks_of (p ∷ ps) = chunks_from p.blocks p ps (chunks_of ps)

kept-append : (raw : List ℕ) (xs ys : List (List ℕ)) → kept raw xs ++ ys ≡ kept raw (xs ++ ys)
kept-append [] xs ys = refl
kept-append (b ∷ bs) xs ys = refl

module _ {ℓ} {P A : Type ℓ} (parsing : Parsing P A) where
  applied-append :
      (a : Option A) (xs ys : List (List ℕ))
      → applied parsing a (xs ++ ys)
        ≡ applied parsing a xs ++ applied parsing (increment_after parsing a xs) ys
  applied-append none xs ys = refl
  applied-append (some a) [] ys = refl
  applied-append (some a) (x ∷ xs) ys =
      let (raw, a') = parsing.apply x a in
      ap (kept raw) (applied-append (some a') xs ys) ∙ sym (kept-append raw _ _)

  pub applied_nil : (a : Option A) → applied parsing a [] ≡ []
  applied_nil none = refl
  applied_nil (some a) = refl

  -- What the sinks get of a packet, and of those behind it.
  pub delivered :
      (msgs more : List (List ℕ)) (a : Option A) (status : ReceiveStatus) (time : ℕ)
      (actions : List Action)
      → let s = handle_messages parsing msgs a status in
        pushed actions ≡ applied parsing s.0 more
        → pushed ((begin_push time ∷ (s.2 ++ end_push ∷ [])) ++ actions)
          ≡ applied parsing a (msgs ++ more)
  delivered msgs more a status time actions e =
      let s = handle_messages parsing msgs a status in
      let (after, now, missed) = handle_messages-applied parsing msgs a status in
      pushed-append (s.2 ++ end_push ∷ []) actions
      ∙ ap₂ (λ x y. x ++ y) (pushed-append s.2 (end_push ∷ []) ∙ append-nil (pushed s.2) ∙ now)
          (e ∙ ap (λ o. applied parsing o more) after)
      ∙ sym (applied-append a msgs more)

  -- What a packet adds to the bytes received.
  abbrev pub counted : List ℕ → Receiver P A → Receiver P A
  counted bytes r = record r {
    status = record r.status {
      total_received_bytes = (r.status.total_received_bytes + length bytes) % 2 ^ 64;
    };
  }

  pub counted-Apart :
      (bytes : List ℕ) (r : Receiver P A) (tsi index : ℕ)
      → Apart r tsi index
      → Apart (counted bytes r) tsi index
  counted-Apart bytes r tsi index (unknown e) = unknown e
  counted-Apart bytes r tsi index (loose peer e l f) = loose peer e l f
  counted-Apart bytes r tsi index (gap peer e k o) = gap peer e k o

  receive_read :
      (r : Receiver P A) (tsi time : ℕ) (bytes : List ℕ) (header : Header)
      → read_header bytes ≡ some header
      → receive_packet parsing tsi time bytes r
        ≡ receive_header parsing tsi time header (counted bytes r)
  unfolding receive_packet
  receive_read r tsi time bytes header e = rw (e, receive_packet) refl

  pub receive_first :
      (r r' : Receiver P A) (tsi time : ℕ) (bytes : List ℕ) (header : Header)
      (actions : List Action) (results : List Received)
      → read_header bytes ≡ some header
      → receive_header parsing tsi time header (counted bytes r) ≡ some (r', actions)
      → receive_all parsing (got tsi time bytes ∷ results) r
        ≡ more_actions actions (receive_all parsing results r')
  unfolding receive_all
  receive_first r r' tsi time bytes header actions results e f =
      rw (receive_read r tsi time bytes header e ∙ f, receive_all) refl

module _ {ℓ} {P A : Type ℓ} (parsing : Parsing P A) (tsi : ℕ) (clock : ℕ → ℕ) (level : ℕ)
    (increment : Bool) (low : level < 4) (room : ℕ) (small : room < 0x2000) where
  start_le :
      (lead : List ℕ) (blocks : List (List ℕ))
      → (blocks ≢ [] → length lead < room)
      → first_start lead blocks ≤ non_exist_offset
  start_le lead [] h = omega arith
  start_le lead (block ∷ blocks) h = let less = h (λ e. absurd cc) in omega arith

  pub header_ok :
      (p : Piece) (index : ℕ)
      → IsPiece room p
      → read_header (packet (start_of p + mask_of level increment) (index % 2 ^ 32) p.content)
        ≡ some (the_header (start_of p) level increment (index % 2 ^ 32) p.content)
  header_ok p index h =
      read_header-start (start_of p) level increment (index % 2 ^ 32) p.content
        (start_le p.lead p.blocks h.lead_short) low (omega arith)

  -- Packets of a stream that was joined.
  pub receive_all-joined :
      (ps : List Piece) (n index : ℕ) (r : Receiver P A) (peer : Peer P A) (parser : P)
      (a : Option A) (last : ℕ) (chunks msgs : List (List ℕ))
      → All (IsPiece room) ps
      → Follows last (index % 2 ^ 32)
      → Parses parsing parser chunks msgs
      → chunks ≡ data_of ps
      → (r' : Receiver P A) × (actions : List Action) × (receive_all parsing
            (arrivals tsi clock n (packets_of (mask_of level increment) index ps))
            (joined_receiver r tsi peer parser a last)
          ≡ some (r', actions))
        × (pushed actions ≡ applied parsing a msgs)
  unfolding receive_all
  receive_all-joined [] n index r peer parser a last [] msgs pieces f no_chunk e =
      (joined_receiver r tsi peer parser a last, [], refl, sym (applied_nil parsing a))
  receive_all-joined [] n index r peer parser a last chunks msgs pieces f (a_chunk q more) e =
      absurd cc
  receive_all-joined (p ∷ ps) n index r peer parser a last chunks msgs pieces f no_chunk e =
      absurd cc
  receive_all-joined (p ∷ ps) n index r peer parser a last chunks msgs pieces f
        (a_chunk {parser' = parser'} {chunk = chunk} {chunks = chunks'} {msgs = now} {more = later}
          q more)
        e =
      let bytes = packet (start_of p + mask_of level increment) (index % 2 ^ 32) p.content in
      let header = the_header (start_of p) level increment (index % 2 ^ 32) p.content in
      let same : chunk ≡ p.content = cc in
      let rest : chunks' ≡ data_of ps = cc in
      let status : ReceiveStatus = record (counted parsing bytes r).status {
        last_msg_timestamp = clock n;
      } in
      let s = handle_messages parsing now a status in
      let (r', actions, all, pushes) =
        receive_all-joined ps (suc n) (suc index) (record r { status = s.1 })
          (record peer { received_cnt = (peer.received_cnt + 1) % 2 ^ 32 }) parser' s.0
          (index % 2 ^ 32) chunks' later pieces.1 (inr (omega arith)) more rest in
      (
        r',
        (begin_push (clock n) ∷ (s.2 ++ end_push ∷ [])) ++ actions,
        receive_first parsing (joined_receiver r tsi peer parser a last) _ tsi (clock n) bytes
              header (begin_push (clock n) ∷ (s.2 ++ end_push ∷ []))
              (arrivals tsi clock (suc n) (packets_of (mask_of level increment) (suc index) ps))
              (header_ok p index pieces.0)
              (joined-packet parsing (counted parsing bytes r) tsi peer parser a last (clock n)
                header now parser' f (ap (λ c. parsing.parse c parser) (sym same) ∙ q))
            ∙ ap (more_actions (begin_push (clock n) ∷ (s.2 ++ end_push ∷ []))) all,
        delivered parsing now later a status (clock n) actions pushes,
      )
