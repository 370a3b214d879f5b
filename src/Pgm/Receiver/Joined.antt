-- ===== src/Pgm/Receiver/Joined.antt =====
-- A PGMReceiver (src/pgm_receiver.cc) that joined a stream, at the packets that follow.
use flash_forwarder.Prelude.{
  ℕ, ◌+◌, ◌%◌, ◌^◌, ◌≡◌, ◌⊎◌, inl, inr, refl, ap, ◌∙◌, List, [], ◌∷◌, ◌++◌, Option, none, some,
  Bool, true, false, not, ◌==◌, eq→==, ◌&&◌,
}
use flash_forwarder.Pgm.Peer.{Parsing, Peer, Header, has_gap, note_index, goes_to, join}
use flash_forwarder.Pgm.Delivery.{ReceiveStatus, begin_push, end_push, handle_messages, deliver}
use flash_forwarder.Pgm.Receiver.{
  Receiver, find_peer, put_peer, add_missed, peer_of, after_join, receive_header,
}

-- A run of a parser on chunks, each of which it takes.
pub data Parses {ℓ} {P A : Type ℓ} (parsing : Parsing P A)
    : P → List (List ℕ) → List (List ℕ) → Type ℓ where
  no_chunk : {parser : P} → Parses parsing parser [] []
  a_chunk :
      {parser parser' : P} {chunk : List ℕ} {chunks msgs more : List (List ℕ)}
      → parsing.parse chunk parser ≡ (msgs, true, parser')
      → Parses parsing parser' chunks more
      → Parses parsing parser (chunk ∷ chunks) (msgs ++ more)

-- A receiver whose one peer is joined.
abbrev pub joined_receiver {ℓ} :
    {P A : Type ℓ} → Receiver P A → ℕ → Peer P A → P → Option A → ℕ → Receiver P A
joined_receiver r tsi peer parser a last = record r {
  peers =
      (tsi, record peer { joined = true; parser = some parser; inc_apply = a; last_index = last })
      ∷ [];
}

-- The number that a packet in order has.
abbrev pub Follows : ℕ → ℕ → Type 0
Follows last index = (last ≡ 0) ⊎ ((last + 1) % 2 ^ 32 ≡ index)

and_false : (b : Bool) → (b && false) ≡ false
and_false true = refl
and_false false = refl

module _ {ℓ} {P A : Type ℓ} (parsing : Parsing P A) where
  pub has_gap-Follows :
      (index : ℕ) (peer : Peer P A) → Follows peer.last_index index → has_gap index peer ≡ false
  unfolding has_gap
  has_gap-Follows index peer (inl e) = rw (eq→== peer.last_index 0 e) refl
  has_gap-Follows index peer (inr e) =
      rw (eq→== ((peer.last_index + 1) % 2 ^ 32) index e) (and_false (not (peer.last_index == 0)))

  pub note_index-Follows :
      (index : ℕ) (peer : Peer P A)
      → Follows peer.last_index index
      → note_index index peer ≡ (record peer { last_index = index }, none)
  unfolding note_index
  note_index-Follows index peer f = rw (has_gap-Follows index peer f) refl

  pub find_peer_one : (tsi : ℕ) (peer : Peer P A) → find_peer tsi ((tsi, peer) ∷ []) ≡ some peer
  unfolding find_peer
  find_peer_one tsi peer = rw (eq→== tsi tsi refl) refl

  pub put_peer_one :
      (tsi : ℕ) (new peer : Peer P A) → put_peer tsi new ((tsi, peer) ∷ []) ≡ (tsi, new) ∷ []
  unfolding put_peer
  put_peer_one tsi new peer = rw (eq→== tsi tsi refl) refl

  pub peer_of-Follows :
      (index : ℕ) (peer : Peer P A) (r : Receiver P A)
      → Follows peer.last_index index
      → peer_of index (some peer) r ≡ (record peer { last_index = index }, r)
  unfolding peer_of add_missed
  peer_of-Follows index peer r f =
      ap (λ n. (n.0, add_missed n.1 r)) (note_index-Follows index peer f)

  pub deliver_taken :
      (time : ℕ) (peer : Peer P A) (parser : P) (bytes : List ℕ) (status : ReceiveStatus)
      (msgs : List (List ℕ)) (parser' : P)
      → parsing.parse bytes parser ≡ (msgs, true, parser')
      → let s =
          handle_messages parsing msgs peer.inc_apply
            (record status { last_msg_timestamp = time }) in
        deliver parsing time peer parser bytes status ≡ (
          record peer { parser = some parser'; inc_apply = s.0 },
          s.1,
          begin_push time ∷ (s.2 ++ end_push ∷ []),
        )
  unfolding deliver
  deliver_taken time peer parser bytes status msgs parser' e = rw e refl

  -- Bytes that go to the parser of the one peer.
  pub after_join_taken :
      (tsi time : ℕ) (joined peer : Peer P A) (parser : P) (bytes : List ℕ) (r : Receiver P A)
      (msgs : List (List ℕ)) (parser' : P)
      → ((peer : Peer P A) → put_peer tsi peer r.peers ≡ (tsi, peer) ∷ [])
      → parsing.parse bytes parser ≡ (msgs, true, parser')
      → let s =
          handle_messages parsing msgs joined.inc_apply
            (record r.status { last_msg_timestamp = time }) in
        after_join parsing tsi time (goes_to joined parser bytes) peer r
        ≡ some (
          record r {
            peers = (tsi, record joined { parser = some parser'; inc_apply = s.0 }) ∷ [];
            status = s.1;
          },
          begin_push time ∷ (s.2 ++ end_push ∷ []),
        )
  unfolding after_join
  after_join_taken tsi time joined peer parser bytes r msgs parser' one e =
      let d = deliver_taken time joined parser bytes r.status msgs parser' e in
      let s =
        handle_messages parsing msgs joined.inc_apply
          (record r.status { last_msg_timestamp = time }) in
      let new : Peer P A = record joined { parser = some parser'; inc_apply = s.0 } in
      let actions = begin_push time ∷ (s.2 ++ end_push ∷ []) in
      ap (λ d. some (record r { peers = put_peer tsi d.0 r.peers; status = d.1 }, d.2)) d
      ∙ ap (λ ps. some (record r { peers = ps; status = s.1 }, actions)) (one new)

  -- A packet in order that the parser takes.
  pub joined-packet :
      (r : Receiver P A) (tsi : ℕ) (peer : Peer P A) (parser : P) (a : Option A) (last time : ℕ)
      (header : Header) (msgs : List (List ℕ)) (parser' : P)
      → Follows last header.index
      → parsing.parse header.content parser ≡ (msgs, true, parser')
      → let s = (handle_messages parsing msgs a (record r.status { last_msg_timestamp = time })) in
        receive_header parsing tsi time header (joined_receiver r tsi peer parser a last)
        ≡ some (
          joined_receiver
              (record r { status = s.1 })
              tsi
              (record peer { received_cnt = (peer.received_cnt + 1) % 2 ^ 32 })
              parser'
              s.0
              header.index,
          begin_push time ∷ (s.2 ++ end_push ∷ []),
        )
  unfolding receive_header join
  joined-packet r tsi peer parser a last time header msgs parser' f e =
      let known : Peer P A = record peer {
        joined = true;
        parser = some parser;
        inc_apply = a;
        last_index = last;
      } in
      let counted : Peer P A = record known {
        last_index = header.index;
        received_cnt = (peer.received_cnt + 1) % 2 ^ 32;
      } in
      let from = joined_receiver r tsi peer parser a last in
      let more = λ (q : Peer P A × Receiver P A).
        (let bumped = record q.0 { received_cnt = (q.0.received_cnt + 1) % 2 ^ 32 } in
          after_join parsing tsi time (join parsing header bumped) bumped q.1) in
      ap (λ o. more (peer_of header.index o from)) (find_peer_one tsi known)
      ∙ ap more (peer_of-Follows header.index known from f)
      ∙ after_join_taken tsi time counted counted parser header.content from msgs parser'
          (λ new. put_peer_one tsi new known) e
