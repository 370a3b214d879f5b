-- ===== src/Pgm/Delivery.antt =====
-- What PGMReceiver (src/pgm_receiver.cc) does with the data of a packet of a peer that it joined, and the
-- calls of the sinks that it makes.
use flash_forwarder.Prelude.{
  ℕ, ◌+◌, ◌%◌, ◌^◌, List, [], ◌∷◌, ◌++◌, Option, none, some, ltb, if◌then◌else◌, length,
}
use flash_forwarder.Pgm.Peer.{Parsing, Peer, unjoin}

pub record ReceiveStatus : Type 0 where
  pub total_received_bytes : ℕ
  pub total_received_msgs : ℕ
  pub total_decoded_bytes : ℕ
  pub last_msg_timestamp : ℕ
  pub total_missed_packets : ℕ

abbrev pub new_status : ReceiveStatus
new_status = record {
  total_received_bytes = 0;
  total_received_msgs = 0;
  total_decoded_bytes = 0;
  last_msg_timestamp = 0;
  total_missed_packets = 0;
}

pub data TimerId : Type 0 where
  rx_timer status_timer : TimerId

-- A call of a sink is made of each sink in order.
pub data Action : Type 0 where
  begin_push : ℕ → Action
  push_message : List ℕ → Action
  end_push stop_sinks close_handles : Action
  add_timer : ℕ → TimerId → Action
  cancel_timer : TimerId → Action

-- `HandleMessage`, which Parse calls: the increment afterwards, the status, and the calls of the sinks.
unfoldable pub handle_raw {ℓ} :
    {A : Type ℓ} → List ℕ → List ℕ × A → ReceiveStatus → Option A × ReceiveStatus × List Action
handle_raw content (raw, a) status =
    if ltb 0 (length raw)
    then (
      some a,
      record status {
        total_decoded_bytes = (status.total_decoded_bytes + length raw) % 2 ^ 64;
        total_received_msgs = (status.total_received_msgs + 1) % 2 ^ 64;
      },
      push_message raw ∷ [],
    )
    else (
      some a,
      record status {
        total_decoded_bytes = (status.total_decoded_bytes + length content) % 2 ^ 64;
        total_received_msgs = (status.total_received_msgs + 1) % 2 ^ 64;
      },
      [],
    )

unfoldable pub handle_message {ℓ} :
    {P A : Type ℓ}
    → Parsing P A
    → List ℕ
    → Option A
    → ReceiveStatus
    → Option A × ReceiveStatus × List Action
handle_message parsing content (some a) status = handle_raw content (parsing.apply content a) status
handle_message parsing content none status = (
  none,
  record status {
    total_decoded_bytes = (status.total_decoded_bytes + length content) % 2 ^ 64;
    total_received_msgs = (status.total_received_msgs + 1) % 2 ^ 64;
  },
  push_message content ∷ [],
)

-- The calls of HandleMessage that one Parse makes.
unfoldable pub handle_messages {ℓ} :
    {P A : Type ℓ}
    → Parsing P A
    → List (List ℕ)
    → Option A
    → ReceiveStatus
    → Option A × ReceiveStatus × List Action
handle_messages parsing [] a status = (a, status, [])
handle_messages parsing (msg ∷ msgs) a status =
    let (a', status', actions) = handle_message parsing msg a status in
    let (a'', status'', more) = handle_messages parsing msgs a' status' in
    (a'', status'', actions ++ more)

-- The bytes of a packet go to the parser, between BeginPush and EndPush.
unfoldable pub deliver {ℓ} :
    {P A : Type ℓ}
    → Parsing P A
    → ℕ
    → Peer P A
    → P
    → List ℕ
    → ReceiveStatus
    → Peer P A × ReceiveStatus × List Action
deliver parsing timestamp peer parser bytes status =
    let (msgs, ok, parser') = parsing.parse bytes parser in
    let (a, status', actions) =
      handle_messages parsing msgs peer.inc_apply
        (record status { last_msg_timestamp = timestamp }) in
    let parsed = record peer { parser = some parser'; inc_apply = a } in
    (
      (if ok then parsed else unjoin parsed),
      status',
      begin_push timestamp ∷ (actions ++ end_push ∷ []),
    )
