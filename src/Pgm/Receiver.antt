-- ===== src/Pgm/Receiver.antt =====
-- PGMReceiver (src/pgm_receiver.cc): its state and its handlers, with the calls of the select object and
-- of the sinks that they make. The parser, the increment and the socket are parameters. `none` is an
-- assertion that fails, or a null pointer that is used.
pub mod Headers
pub mod Pushed
pub mod Joined
pub mod Apart
pub mod Stream
pub mod Whole
use flash_forwarder.Prelude.{
  ℕ, ◌+◌, ◌*◌, ◌%◌, ◌^◌, List, [], ◌∷◌, ◌++◌, Option, none, some, Bool, true, false, ◌==◌,
  if◌then◌else◌, length,
}
use flash_forwarder.Pgm.{status_report_interval}
use flash_forwarder.Pgm.Peer.{
  Parsing, Peer, new_peer, Header, read_header, note_index, Joining, ignored, failed, goes_to, join,
}
use flash_forwarder.Pgm.Delivery.{
  ReceiveStatus, new_status, TimerId, rx_timer, status_timer, Action, stop_sinks, close_handles,
  add_timer, cancel_timer, deliver,
}

-- The peers by the eight bytes of their identifier.
pub record Receiver {ℓ} (P A : Type ℓ) : Type ℓ where
  pub has_rx_timer : Bool
  pub peers : List (ℕ × Peer P A)
  pub status : ReceiveStatus
  pub atomic_status : ReceiveStatus

abbrev pub new_receiver {ℓ} : {P A : Type ℓ} → Receiver P A
new_receiver = record {
  has_rx_timer = false;
  peers = [];
  status = new_status;
  atomic_status = new_status;
}

unfoldable pub find_peer {ℓ} : {B : Type ℓ} → ℕ → List (ℕ × B) → Option B
find_peer tsi [] = none
find_peer tsi ((key, peer) ∷ peers) = if tsi == key then some peer else find_peer tsi peers

unfoldable pub put_peer {ℓ} : {B : Type ℓ} → ℕ → B → List (ℕ × B) → List (ℕ × B)
put_peer tsi new [] = (tsi, new) ∷ []
put_peer tsi new ((key, peer) ∷ peers) =
    let rest = put_peer tsi new peers in
    if tsi == key then (key, new) ∷ peers else (key, peer) ∷ rest

unfoldable pub do_clear_peers {ℓ} : {P A : Type ℓ} → Receiver P A → Receiver P A
do_clear_peers r = record r { peers = [] }

unfoldable pub add_missed {ℓ} : {P A : Type ℓ} → Option ℕ → Receiver P A → Receiver P A
add_missed none r = r
add_missed (some missed) r = record r {
  status = record r.status {
    total_missed_packets = (r.status.total_missed_packets + missed) % 2 ^ 64;
  };
}

-- The new peer, or the known one.
unfoldable pub peer_of {ℓ} :
    {P A : Type ℓ} → ℕ → Option (Peer P A) → Receiver P A → Peer P A × Receiver P A
peer_of index none r = (record new_peer { begin_index = index }, do_clear_peers r)
peer_of index (some peer) r =
    let (noted, missed) = note_index index peer in (noted, add_missed missed r)

unfoldable pub after_join {ℓ} :
    {P A : Type ℓ}
    → Parsing P A
    → ℕ
    → ℕ
    → Joining P A
    → Peer P A
    → Receiver P A
    → Option (Receiver P A × List Action)
after_join parsing tsi timestamp ignored peer r =
    some (record r { peers = put_peer tsi peer r.peers }, [])
after_join parsing tsi timestamp failed peer r = none
after_join parsing tsi timestamp (goes_to joined parser bytes) peer r =
    let (delivered, status, actions) = deliver parsing timestamp joined parser bytes r.status in
    some (record r { peers = put_peer tsi delivered r.peers; status = status }, actions)

-- The body of the loop for a packet whose header was read, at a time.
unfoldable pub receive_header {ℓ} :
    {P A : Type ℓ}
    → Parsing P A
    → ℕ
    → ℕ
    → Header
    → Receiver P A
    → Option (Receiver P A × List Action)
receive_header parsing tsi timestamp header r =
    let (noted, r') = peer_of header.index (find_peer tsi r.peers) r in
    let peer = record noted { received_cnt = (noted.received_cnt + 1) % 2 ^ 32 } in
    after_join parsing tsi timestamp (join parsing header peer) peer r'

unfoldable pub receive_packet {ℓ} :
    {P A : Type ℓ}
    → Parsing P A
    → ℕ
    → ℕ
    → List ℕ
    → Receiver P A
    → Option (Receiver P A × List Action)
receive_packet parsing tsi timestamp bytes r =
    let counted = record r {
      status = record r.status {
        total_received_bytes = (r.status.total_received_bytes + length bytes) % 2 ^ 64;
      };
    } in
    elim (read_header bytes) [
      | some header ↦ receive_header parsing tsi timestamp header counted
      | none ↦ none
    ]

-- What `pgm_socket_.Receive` gives: no data, with its status and what GetRxTimeout would give; -1; or a
-- packet, with its sender and the time at which it is handled.
pub data Received : Type 0 where
  no_data : Bool → ℕ → Received
  lost : Received
  got : ℕ → ℕ → List ℕ → Received

abbrev pub more_actions {ℓ} :
    {P A : Type ℓ}
    → List Action
    → Option (Receiver P A × List Action)
    → Option (Receiver P A × List Action)
more_actions actions none = none
more_actions actions (some (r, more)) = some (r, actions ++ more)

-- The loop of `InEvent` over what the calls of Receive give; `no_data true` is VSS_NOMEM or VSS_BUSY.
unfoldable pub receive_all {ℓ} :
    {P A : Type ℓ}
    → Parsing P A
    → List Received
    → Receiver P A
    → Option (Receiver P A × List Action)
receive_all parsing [] r = some (r, [])
receive_all parsing (lost ∷ _) r = some (r, [])
receive_all parsing (no_data true timeout ∷ _) r =
    some (record r { has_rx_timer = true }, add_timer timeout rx_timer ∷ [])
receive_all parsing (no_data false timeout ∷ _) r = some (r, [])
receive_all parsing (got tsi timestamp bytes ∷ results) r =
    elim (receive_packet parsing tsi timestamp bytes r) [
      | some (r', actions) ↦ more_actions actions (receive_all parsing results r')
      | none ↦ none
    ]

unfoldable pub in_event {ℓ} :
    {P A : Type ℓ}
    → Parsing P A
    → List Received
    → Receiver P A
    → Option (Receiver P A × List Action)
in_event parsing results r =
    if r.has_rx_timer
    then more_actions (cancel_timer rx_timer ∷ [])
        (receive_all parsing results (record r { has_rx_timer = false }))
    else receive_all parsing results r

unfoldable pub timer_event {ℓ} :
    {P A : Type ℓ}
    → Parsing P A
    → TimerId
    → List Received
    → Receiver P A
    → Option (Receiver P A × List Action)
timer_event parsing rx_timer results r =
    in_event parsing results (record r { has_rx_timer = false })
timer_event parsing status_timer results r = some (
  record r { atomic_status = r.status },
  add_timer (status_report_interval * 1000) status_timer ∷ [],
)

unfoldable pub report_status {ℓ} : {P A : Type ℓ} → Receiver P A → ReceiveStatus
report_status r = r.atomic_status

unfoldable pub terminate {ℓ} : {P A : Type ℓ} → Receiver P A → Receiver P A × List Action
terminate r = (
  record (do_clear_peers r) { has_rx_timer = false },
  (if r.has_rx_timer then cancel_timer rx_timer ∷ [] else [])
      ++ (cancel_timer status_timer ∷ close_handles ∷ stop_sinks ∷ []),
)
