-- ===== src/Pgm/Sender.antt =====
-- The i/o side of PGMSender (src/pgm_sender.cc): its state and its handlers, with the calls of the
-- select object and of the socket that they make. The figures for the delay, which only a debugging run
-- keeps, stand aside, as do assertions.
pub mod Pieces
pub mod Sends
pub mod Stream
pub mod Run
use flash_forwarder.Prelude.{
  ℕ, ◌+◌, ◌-◌, ◌*◌, ◌%◌, ◌^◌, bit_or, List, [], ◌∷◌, ◌++◌, Option, none, Bool, true, false, ◌==◌,
  if◌then◌else◌, length, take,
}
use flash_forwarder.Pgm.Filling.{Coder, Reads, Filling, fill}
use flash_forwarder.Pgm.{offset_bit_count, non_exist_offset, status_report_interval, packet}

pub data TimerId : Type 0 where
  tx_timer rx_timer status_timer : TimerId

-- `sent` is a call of Send that took the packet, and `refused` one that took nothing.
pub data Action : Type 0 where
  set_pollout reset_pollout close_handles terminate_pipe : Action
  add_timer : ℕ → TimerId → Action
  cancel_timer : TimerId → Action
  sent refused : List ℕ → Action

-- `out_buffer` is the packet as far as it was written; `current` is `none` for a null pointer, and else
-- the `cur_size_` bytes at it.
pub record Sender {ℓ} (Z : Type ℓ) : Type ℓ where
  pub has_tx_timer : Bool
  pub has_rx_timer : Bool
  pub next_index : ℕ
  pub out_buffer : List ℕ
  pub out_buffer_size : ℕ
  pub write_size : ℕ
  pub current : Option (List ℕ)
  pub current_offset : ℕ
  pub offset_mask : ℕ
  pub serializer : Z
  pub io_pipe : Reads
  pub total_sent : ℕ
  pub total_bytes_sent : ℕ

-- `compress_level` is not negative.
unfoldable pub mask_of : ℕ → Bool → ℕ
mask_of compress_level increment =
    let level = compress_level * 2 ^ offset_bit_count % 2 ^ 16 in
    if increment then bit_or level (2 ^ 15) else level

-- The constructor and `Init`; `size` is what the socket says the size of its units is.
unfoldable pub new_sender {ℓ} : {Z : Type ℓ} → ℕ → ℕ → Bool → Z → Reads → Sender Z
new_sender size compress_level increment z reads = record {
  has_tx_timer = false;
  has_rx_timer = false;
  next_index = 0;
  out_buffer = [];
  out_buffer_size = size;
  write_size = 0;
  current = none;
  current_offset = 0;
  offset_mask = mask_of compress_level increment;
  serializer = z;
  io_pipe = reads;
  total_sent = 0;
  total_bytes_sent = 0;
}

-- `out_buffer_size_ - sizeof(uint16_t) - sizeof(uint32_t)`, of type size_t.
unfoldable pub room_of : ℕ → ℕ
room_of size = (size + (2 ^ 64 - 6)) % 2 ^ 64

-- The loop from where it starts, on fuel that is enough.
unfoldable pub fill_buffer {ℓ} : {Z : Type ℓ} → Coder Z → Sender Z → Filling Z
fill_buffer coder s =
    let room = room_of s.out_buffer_size in
    fill coder s.offset_mask room (length s.io_pipe + room + 2) (record {
      content = [];
      offset = bit_or non_exist_offset s.offset_mask;
      current = s.current;
      current_offset = s.current_offset;
      serializer = s.serializer;
      reads = s.io_pipe;
    })

-- What `pgm_socket_.Send` returns, with what GetTxTimeout would give.
pub data Status : Type 0 where
  ok no_memory busy : Status

pub record SendResult : Type 0 where
  pub status : Status
  pub nbytes : ℕ
  pub tx_timeout : ℕ

unfoldable pub take_filling {ℓ} : {Z : Type ℓ} → Filling Z → Sender Z → Sender Z
take_filling f s = record s {
  current = f.current;
  current_offset = f.current_offset;
  serializer = f.serializer;
  io_pipe = f.reads;
}

-- The packet in the buffer.
unfoldable pub put_packet {ℓ} : {Z : Type ℓ} → Filling Z → Sender Z → Sender Z
put_packet f s = record (take_filling f s) {
  out_buffer = packet f.offset s.next_index f.content;
  write_size = 6 + length f.content;
  next_index = (s.next_index + 1) % 2 ^ 32;
}

unfoldable pub after_refusal {ℓ} :
    {Z : Type ℓ} → Status → ℕ → List ℕ → Sender Z → Sender Z × List Action
after_refusal no_memory tx_timeout bytes s = (
  record s { has_tx_timer = true },
  refused bytes ∷ add_timer tx_timeout tx_timer ∷ reset_pollout ∷ [],
)
after_refusal _ tx_timeout bytes s = (s, refused bytes ∷ [])

-- `OutEvent` where a packet stands in the buffer.
unfoldable pub send_result {ℓ} : {Z : Type ℓ} → SendResult → Sender Z → Sender Z × List Action
send_result result s =
    let bytes = take s.write_size s.out_buffer in
    if result.nbytes == s.write_size
    then (
      record s { total_sent = (s.total_sent + s.write_size) % 2 ^ 64; write_size = 0 },
      sent bytes ∷ [],
    )
    else after_refusal result.status result.tx_timeout bytes s

unfoldable pub send_packet {ℓ} : {Z : Type ℓ} → SendResult → Sender Z → Sender Z × List Action
send_packet result s =
    if s.has_tx_timer
    then (let (s', actions) = send_result result (record s { has_tx_timer = false }) in
        (s', cancel_timer tx_timer ∷ set_pollout ∷ actions))
    else send_result result s

-- `result` is what Send returns if it is called.
unfoldable pub out_event {ℓ} :
    {Z : Type ℓ} → Coder Z → SendResult → Sender Z → Sender Z × List Action
out_event coder result s =
    if s.write_size == 0
    then (let f = fill_buffer coder s in
        if length f.content == 0
        then (take_filling f s, reset_pollout ∷ [])
        else send_packet result (put_packet f s))
    else send_packet result s

unfoldable pub restart_output {ℓ} :
    {Z : Type ℓ} → Coder Z → SendResult → Sender Z → Sender Z × List Action
restart_output coder result s =
    let (s', actions) = out_event coder result s in (s', set_pollout ∷ actions)

-- What `pgm_socket_.ProcessUpstream` returns, with what GetRxTimeout would give.
unfoldable pub in_upstream {ℓ} : {Z : Type ℓ} → Status → ℕ → Sender Z → Sender Z × List Action
in_upstream ok rx_timeout s = (s, [])
in_upstream _ rx_timeout s = (record s { has_rx_timer = true }, add_timer rx_timeout rx_timer ∷ [])

unfoldable pub in_event {ℓ} : {Z : Type ℓ} → Status → ℕ → Sender Z → Sender Z × List Action
in_event status rx_timeout s =
    if s.has_rx_timer
    then (let (s', actions) = in_upstream status rx_timeout (record s { has_rx_timer = false }) in
        (s', cancel_timer rx_timer ∷ actions))
    else in_upstream status rx_timeout s

-- What happens to the sender on its thread, with what the socket will return.
pub data Event : Type 0 where
  in_events : Status → ℕ → Event
  out_events output_restarts tx_expires : SendResult → Event
  rx_expires : Status → ℕ → Event
  status_expires : Event

unfoldable pub timer_event {ℓ} :
    {Z : Type ℓ} → Coder Z → TimerId → SendResult → Status → ℕ → Sender Z → Sender Z × List Action
timer_event coder rx_timer result status rx_timeout s =
    in_event status rx_timeout (record s { has_rx_timer = false })
timer_event coder tx_timer result status rx_timeout s =
    (let (s', actions) = out_event coder result (record s { has_tx_timer = false }) in
      (s', set_pollout ∷ actions))
timer_event coder status_timer result status rx_timeout s = (
  record s { total_bytes_sent = s.total_sent },
  add_timer (status_report_interval * 1000) status_timer ∷ [],
)

abbrev no_send : SendResult
no_send = record { status = ok; nbytes = 0; tx_timeout = 0 }

unfoldable pub handle {ℓ} : {Z : Type ℓ} → Coder Z → Event → Sender Z → Sender Z × List Action
handle coder (in_events status rx_timeout) s = in_event status rx_timeout s
handle coder (out_events result) s = out_event coder result s
handle coder (output_restarts result) s = restart_output coder result s
handle coder (tx_expires result) s = timer_event coder tx_timer result ok 0 s
handle coder (rx_expires status rx_timeout) s =
    timer_event coder rx_timer no_send status rx_timeout s
handle coder status_expires s = timer_event coder status_timer no_send ok 0 s

unfoldable pub report_status {ℓ} : {Z : Type ℓ} → Sender Z → ℕ
report_status s = s.total_bytes_sent

unfoldable pub terminate {ℓ} : {Z : Type ℓ} → Sender Z → Sender Z × List Action
terminate s =
    let rx = (if s.has_rx_timer then cancel_timer rx_timer ∷ [] else []) in
    let tx = (if s.has_tx_timer then cancel_timer tx_timer ∷ [] else []) in
    (
      record s { has_tx_timer = false; has_rx_timer = false },
      rx ++ (tx ++ (cancel_timer status_timer ∷ close_handles ∷ terminate_pipe ∷ [])),
    )
