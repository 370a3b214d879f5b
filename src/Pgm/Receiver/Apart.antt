-- ===== src/Pgm/Receiver/Apart.antt =====
-- A PGMReceiver (src/pgm_receiver.cc) that has not joined a stream, or lost it, at the next packet.
use flash_forwarder.Prelude.{
  ℕ, ◌+◌, ◌%◌, ◌^◌, ◌≤◌, ◌≡◌, ◌≢◌, ◌⊎◌, inl, inr, refl, sym, ap, subst, ◌∙◌, List, [], ◌∷◌, ◌++◌,
  Option, none, some, true, false, length, drop, eq→==, ne→==_false, le→leb,
}
use flash_forwarder.Pgm.{non_exist_offset}
use flash_forwarder.Pgm.Peer.{
  Parsing, Peer, Header, has_gap, note_index, goes_to, join, join_at, unjoin, apply_of,
}
use flash_forwarder.Pgm.Delivery.{ReceiveStatus, begin_push, end_push, handle_messages}
use flash_forwarder.Pgm.Receiver.{
  Receiver, find_peer, put_peer, add_missed, peer_of, after_join, receive_header, do_clear_peers,
}
use flash_forwarder.Pgm.Receiver.Joined.{
  Follows, joined_receiver, peer_of-Follows, find_peer_one, put_peer_one, after_join_taken,
}

-- A peer that is not joined.
pub record Loose {ℓ} {P A : Type ℓ} (peer : Peer P A) : Type ℓ where
  pub not_joined : peer.joined ≡ false
  pub no_increment : peer.inc_apply ≡ none

-- At a packet with this number, the receiver does not know the sender, or is not joined to it, or it
-- has kept the number of the last packet, which was not 0, and this one is not the next.
pub data Apart {ℓ} {P A : Type ℓ} (r : Receiver P A) (tsi index : ℕ) : Type ℓ where
  unknown : find_peer tsi r.peers ≡ none → Apart r tsi index
  loose :
      (peer : Peer P A)
      → r.peers ≡ (tsi, peer) ∷ []
      → Loose peer
      → Follows peer.last_index index
      → Apart r tsi index
  gap :
      (peer : Peer P A)
      → r.peers ≡ (tsi, peer) ∷ []
      → peer.last_index ≢ 0
      → (peer.last_index + 1) % 2 ^ 32 ≢ index
      → Apart r tsi index

-- What the receiver makes of the peer then.
pub record Met {ℓ} {P A : Type ℓ} (tsi index : ℕ) (q : Peer P A × Receiver P A) : Type ℓ where
  pub is_loose : Loose q.0
  pub last : (q.0.last_index ≡ 0) ⊎ (q.0.last_index ≡ index)
  pub one : (peer : Peer P A) → put_peer tsi peer q.1.peers ≡ (tsi, peer) ∷ []

module _ {ℓ} {P A : Type ℓ} (parsing : Parsing P A) where
  add_missed-peers : (n : Option ℕ) (r : Receiver P A) → (add_missed n r).peers ≡ r.peers
  unfolding add_missed
  add_missed-peers none r = refl
  add_missed-peers (some missed) r = refl

  note_index_gap :
      (index : ℕ) (peer : Peer P A)
      → peer.last_index ≢ 0
      → (peer.last_index + 1) % 2 ^ 32 ≢ index
      → Loose (note_index index peer).0 × ((note_index index peer).0.last_index ≡ index)
  unfolding note_index unjoin has_gap
  note_index_gap index peer known other =
      let e : has_gap index peer ≡ true =
        rw (ne→==_false peer.last_index 0 known)
          (rw (ne→==_false ((peer.last_index + 1) % 2 ^ 32) index other) refl) in
      rw (e, note_index) (record { not_joined = refl; no_increment = refl }, refl)

  known :
      (r : Receiver P A) (tsi : ℕ) (peer : Peer P A)
      → r.peers ≡ (tsi, peer) ∷ []
      → find_peer tsi r.peers ≡ some peer
  known r tsi peer e = ap (find_peer tsi) e ∙ find_peer_one parsing tsi peer

  peer_of-Met :
      (r : Receiver P A) (tsi index : ℕ)
      → Apart r tsi index
      → Met tsi index (peer_of index (find_peer tsi r.peers) r)
  unfolding peer_of do_clear_peers put_peer
  peer_of-Met r tsi index (unknown e) =
      subst (λ o. Met tsi index (peer_of index o r)) (sym e)
        (record {
          is_loose = record { not_joined = refl; no_increment = refl };
          last = inl refl;
          one = λ peer. refl;
        })
  peer_of-Met r tsi index (loose peer e l f) =
      subst (Met tsi index)
        (sym (
          ap (λ o. peer_of index o r) (known r tsi peer e)
          ∙ peer_of-Follows parsing index peer r f))
        (record {
          is_loose = record { not_joined = l.not_joined; no_increment = l.no_increment };
          last = inr refl;
          one = λ new. ap (put_peer tsi new) e ∙ put_peer_one parsing tsi new peer;
        })
  peer_of-Met r tsi index (gap peer e known_last other) =
      let (is_loose, last) = note_index_gap index peer known_last other in
      subst (λ o. Met tsi index (peer_of index o r)) (sym (known r tsi peer e))
        (record {
          is_loose = is_loose;
          last = inr last;
          one = λ new.
              ap (put_peer tsi new) (add_missed-peers (note_index index peer).1 r ∙ e)
              ∙ put_peer_one parsing tsi new peer;
        })

  -- A packet in which no block starts is ignored.
  pub ignored_packet :
      (r : Receiver P A) (tsi time : ℕ) (header : Header)
      → Apart r tsi header.index
      → header.offset ≡ non_exist_offset
      → (r' : Receiver P A) × (receive_header parsing tsi time header r ≡ some (r', []))
        × ((index : ℕ) → (header.index + 1) % 2 ^ 32 ≡ index → Apart r' tsi index)
  unfolding receive_header join join_at after_join
  ignored_packet r tsi time header a e =
      let q = peer_of header.index (find_peer tsi r.peers) r in
      let met = peer_of-Met r tsi header.index a in
      let counted : Peer P A = record q.0 { received_cnt = (q.0.received_cnt + 1) % 2 ^ 32 } in
      (
        record q.1 { peers = put_peer tsi counted q.1.peers },
        simp (met.is_loose.not_joined, eq→== header.offset non_exist_offset e) refl,
        λ index next.
            loose counted (met.one counted)
              (record {
                not_joined = met.is_loose.not_joined;
                no_increment = met.is_loose.no_increment;
              })
              (elim met.last [
                | inl z ↦ inl z
                | inr z ↦ inr (ap (λ (n : ℕ). (n + 1) % 2 ^ 32) z ∙ next)
              ]),
      )

  join_first :
      (header : Header) (peer : Peer P A)
      → peer.joined ≡ false
      → peer.inc_apply ≡ none
      → header.offset ≢ non_exist_offset
      → header.offset ≤ length header.content
      → join parsing header peer
        ≡ goes_to
            (record peer {
              joined = true;
              parser = some (parsing.create_parser header.compress_level);
              inc_apply = apply_of parsing header.inc_update none;
            })
            (parsing.create_parser header.compress_level)
            (drop header.offset header.content)
  unfolding join join_at
  join_first header peer off no_increment ne le =
      simp
        (
          off,
          no_increment,
          ne→==_false header.offset non_exist_offset ne,
          le→leb header.offset (length header.content) le,
        )
        refl

  -- A packet in which a block starts: a new parser is given the data from there on.
  pub joining_packet :
      (r : Receiver P A) (tsi time : ℕ) (header : Header) (msgs : List (List ℕ)) (parser : P)
      → Apart r tsi header.index
      → header.offset ≢ non_exist_offset
      → header.offset ≤ length header.content
      → parsing.parse
          (drop header.offset header.content)
          (parsing.create_parser header.compress_level)
        ≡ (msgs, true, parser)
      → let a = apply_of parsing header.inc_update none in
        (r' : Receiver P A) × (peer : Peer P A) × (last : ℕ) × (status : ReceiveStatus)
        × (receive_header parsing tsi time header r
            ≡ some (
              joined_receiver
                  (record r' { status = (handle_messages parsing msgs a status).1 })
                  tsi
                  peer
                  parser
                  (handle_messages parsing msgs a status).0
                  last,
              begin_push time ∷ ((handle_messages parsing msgs a status).2 ++ end_push ∷ []),
            ))
        × ((index : ℕ) → (header.index + 1) % 2 ^ 32 ≡ index → Follows last index)
  unfolding receive_header
  joining_packet r tsi time header msgs parser a ne le parse =
      let q = peer_of header.index (find_peer tsi r.peers) r in
      let met = peer_of-Met r tsi header.index a in
      let counted : Peer P A = record q.0 { received_cnt = (q.0.received_cnt + 1) % 2 ^ 32 } in
      let first = parsing.create_parser header.compress_level in
      let joined : Peer P A = record counted {
        joined = true;
        parser = some first;
        inc_apply = apply_of parsing header.inc_update none;
      } in
      (
        q.1,
        counted,
        q.0.last_index,
        record q.1.status { last_msg_timestamp = time },
        ap (λ j. after_join parsing tsi time j counted q.1)
              (join_first header counted met.is_loose.not_joined met.is_loose.no_increment ne le)
            ∙ after_join_taken parsing tsi time joined counted first
                (drop header.offset header.content) q.1 msgs parser met.one parse,
        λ index next. elim met.last [
          | inl z ↦ inl z
          | inr z ↦ inr (ap (λ (n : ℕ). (n + 1) % 2 ^ 32) z ∙ next)
        ],
      )
