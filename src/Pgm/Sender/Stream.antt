-- ===== src/Pgm/Sender/Stream.antt =====
-- Each handler of a PGMSender (src/pgm_sender.cc) keeps the stream of its packets.
use flash_forwarder.Prelude.{
  ℕ, ◌%◌, ◌<◌, ◌≡◌, ◌≢◌, inl, inr, sym, ap, subst, ◌∙◌, List, [], ◌∷◌, ◌++◌, Bool, true, false,
  ◌==◌, length, take, append-nil, Bool-cases, ==→eq, arith,
}
use flash_forwarder.Pgm.Filling.{Coder, Reads}
use flash_forwarder.Pgm.Sender.{
  Sender, Event, in_events, out_events, output_restarts, tx_expires, rx_expires, status_expires,
  Status, ok, no_memory, busy, after_refusal, SendResult, fill_buffer, take_filling, put_packet,
  send_result, send_packet, out_event, restart_output, in_event, in_upstream, timer_event, handle,
}
use flash_forwarder.Pgm.Sender.Sends.{
  sent_by, Sends, waiting_some, fill_buffer-Packed, took_nothing, took_packet,
}

module _ {ℓ} {Z : Type ℓ} (coder : Coder Z) (z : Z) (reads : Reads) (mask room : ℕ)
    (aligned : mask % 0x2000 ≡ 0) (small : room < 0x2000) (some_room : 0 < room) where
  -- What the timers and the counters are makes no difference.
  recount :
      (s : Sender Z) (packets : List (List ℕ)) (tx rx : Bool) (total reported : ℕ)
      → Sends coder z reads mask room s packets
      → Sends coder z reads mask room
          (record s {
            has_tx_timer = tx;
            has_rx_timer = rx;
            total_sent = total;
            total_bytes_sent = reported;
          })
          packets
  recount s packets tx rx total reported h = record {
    groups = h.groups;
    pieces = h.pieces;
    group_sizes = h.group_sizes;
    messages = h.messages;
    serializer = h.serializer;
    blocks = h.blocks;
    all_pieces = h.all_pieces;
    chain = h.chain;
    on_wire = h.on_wire;
    index = h.index;
    in_place = h.in_place;
    same_mask = h.same_mask;
    same_room = h.same_room;
  }

  -- A packet that the socket took.
  sent_all :
      (s : Sender Z) (packets : List (List ℕ))
      → s.write_size ≢ 0
      → Sends coder z reads mask room s packets
      → Sends coder z reads mask room
          (record s { write_size = 0 })
          (packets ++ take s.write_size s.out_buffer ∷ [])
  sent_all s packets w h = record {
    groups = h.groups;
    pieces = h.pieces;
    group_sizes = h.group_sizes;
    messages = h.messages;
    serializer = h.serializer;
    blocks = h.blocks;
    all_pieces = h.all_pieces;
    chain = h.chain;
    on_wire =
        append-nil (packets ++ take s.write_size s.out_buffer ∷ [])
        ∙ ap (λ t. packets ++ t) (sym (waiting_some s w))
        ∙ h.on_wire;
    index = h.index;
    in_place = h.in_place;
    same_mask = h.same_mask;
    same_room = h.same_room;
  }

  refused_Sends :
      (status : Status) (timeout : ℕ) (bytes : List ℕ) (s : Sender Z) (packets : List (List ℕ))
      → Sends coder z reads mask room s packets
      → let r = after_refusal status timeout bytes s in
        Sends coder z reads mask room r.0 (packets ++ sent_by r.1)
  unfolding after_refusal
  refused_Sends no_memory timeout bytes s packets h =
      subst (Sends coder z reads mask room (record s { has_tx_timer = true }))
        (sym (append-nil packets))
        (recount s packets true s.has_rx_timer s.total_sent s.total_bytes_sent h)
  refused_Sends ok timeout bytes s packets h =
      subst (Sends coder z reads mask room s) (sym (append-nil packets)) h
  refused_Sends busy timeout bytes s packets h =
      subst (Sends coder z reads mask room s) (sym (append-nil packets)) h

  send_result-Sends :
      (result : SendResult) (s : Sender Z) (packets : List (List ℕ))
      → s.write_size ≢ 0
      → Sends coder z reads mask room s packets
      → let r = send_result result s in Sends coder z reads mask room r.0 (packets ++ sent_by r.1)
  unfolding send_result
  send_result-Sends result s packets w h = elim (Bool-cases (result.nbytes == s.write_size)) [
    | inl e ↦
        simp e
          (recount _ _ s.has_tx_timer s.has_rx_timer _ s.total_bytes_sent (sent_all s packets w h))
    | inr e ↦
        simp e (
          refused_Sends result.status result.tx_timeout (take s.write_size s.out_buffer) s packets
            h)
  ]

  send_packet-Sends :
      (result : SendResult) (s : Sender Z) (packets : List (List ℕ))
      → s.write_size ≢ 0
      → Sends coder z reads mask room s packets
      → let r = send_packet result s in Sends coder z reads mask room r.0 (packets ++ sent_by r.1)
  unfolding send_packet
  send_packet-Sends result s packets w h = elim (Bool-cases s.has_tx_timer) [
    | inl e ↦ simp e (
        send_result-Sends result (record s { has_tx_timer = false }) packets w
          (recount s packets false s.has_rx_timer s.total_sent s.total_bytes_sent h))
    | inr e ↦ simp e (send_result-Sends result s packets w h)
  ]

  out_event-Sends :
      (result : SendResult) (s : Sender Z) (packets : List (List ℕ))
      → Sends coder z reads mask room s packets
      → let r = out_event coder result s in
        Sends coder z reads mask room r.0 (packets ++ sent_by r.1)
  unfolding out_event put_packet
  out_event-Sends result s packets h =
      let (groups, p) =
        fill_buffer-Packed coder z reads mask room aligned small some_room s packets h in
      let f = fill_buffer coder s in
      elim (Bool-cases (s.write_size == 0)) [
        | inr e ↦ simp e (send_packet-Sends result s packets (λ z. ground arith) h)
        | inl e ↦ elim (Bool-cases (length f.content == 0)) [
          | inl empty ↦
              simp (e, empty)
                (subst (Sends coder z reads mask room (take_filling f s)) (sym (append-nil packets))
                  (took_nothing coder z reads mask room aligned small some_room s packets f groups
                    (==→eq s.write_size 0 e) h p (==→eq (length f.content) 0 empty)))
          | inr some_content ↦
              simp (e, some_content)
                (send_packet-Sends result (put_packet f s) packets (λ z. omega arith)
                  (took_packet coder z reads mask room aligned small some_room s packets f groups
                    (==→eq s.write_size 0 e) h p (λ z. ground arith)))
        ]
      ]

  upstream_Sends :
      (status : Status) (timeout : ℕ) (s : Sender Z) (packets : List (List ℕ))
      → Sends coder z reads mask room s packets
      → let r = in_upstream status timeout s in
        Sends coder z reads mask room r.0 (packets ++ sent_by r.1)
  unfolding in_upstream
  upstream_Sends ok timeout s packets h =
      subst (Sends coder z reads mask room s) (sym (append-nil packets)) h
  upstream_Sends no_memory timeout s packets h =
      subst (Sends coder z reads mask room (record s { has_rx_timer = true }))
        (sym (append-nil packets))
        (recount s packets s.has_tx_timer true s.total_sent s.total_bytes_sent h)
  upstream_Sends busy timeout s packets h =
      subst (Sends coder z reads mask room (record s { has_rx_timer = true }))
        (sym (append-nil packets))
        (recount s packets s.has_tx_timer true s.total_sent s.total_bytes_sent h)

  in_event-Sends :
      (status : Status) (timeout : ℕ) (s : Sender Z) (packets : List (List ℕ))
      → Sends coder z reads mask room s packets
      → let r = in_event status timeout s in
        Sends coder z reads mask room r.0 (packets ++ sent_by r.1)
  unfolding in_event
  in_event-Sends status timeout s packets h = elim (Bool-cases s.has_rx_timer) [
    | inl e ↦ simp e (
        upstream_Sends status timeout (record s { has_rx_timer = false }) packets
          (recount s packets s.has_tx_timer false s.total_sent s.total_bytes_sent h))
    | inr e ↦ simp e (upstream_Sends status timeout s packets h)
  ]

  pub handle-Sends :
      (event : Event) (s : Sender Z) (packets : List (List ℕ))
      → Sends coder z reads mask room s packets
      → let r = handle coder event s in Sends coder z reads mask room r.0 (packets ++ sent_by r.1)
  unfolding handle timer_event restart_output
  handle-Sends (in_events status timeout) s packets h = in_event-Sends status timeout s packets h
  handle-Sends (out_events result) s packets h = out_event-Sends result s packets h
  handle-Sends (output_restarts result) s packets h = out_event-Sends result s packets h
  handle-Sends (tx_expires result) s packets h =
      out_event-Sends result (record s { has_tx_timer = false }) packets
        (recount s packets false s.has_rx_timer s.total_sent s.total_bytes_sent h)
  handle-Sends (rx_expires status timeout) s packets h =
      in_event-Sends status timeout (record s { has_rx_timer = false }) packets
        (recount s packets s.has_tx_timer false s.total_sent s.total_bytes_sent h)
  handle-Sends status_expires s packets h =
      subst (Sends coder z reads mask room (record s { total_bytes_sent = s.total_sent }))
        (sym (append-nil packets))
        (recount s packets s.has_tx_timer s.has_rx_timer s.total_sent s.total_sent h)
