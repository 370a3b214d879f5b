-- ===== src/SzBinary/Session.antt =====
-- The class sz_binary_input_service_t of src/szBinary_input_service.cpp: its handlers, and the calls of
-- its socket that they make, which are boost's. `none` is an access outside a buffer in the decoder or
-- the encoder. What is logged stands aside.
pub mod Sends
pub mod Whole
pub mod Answers
pub mod Reads
mod Examples
use flash_forwarder.Prelude.{
  ℕ, zero, suc, ◌+◌, ◌-◌, ◌/◌, ◌%◌, ◌^◌, List, [], ◌∷◌, ◌++◌, Option, none, some, Bool, true, false,
  ltb, ◌==◌, if◌then◌else◌, length,
}
use flash_forwarder.Wire.{get_uint32}
use flash_forwarder.SzBinary.Decoder
use flash_forwarder.SzBinary.Decoder.{Decoder, returned, decode}
use flash_forwarder.SzBinary.Encoder
use flash_forwarder.SzBinary.Encoder.{Encoder, MsgType, logon, heartbeat, encode, flush}

pub data TimerId : Type 0 where
  reconnect_timer heartbeat_timer : TimerId

-- The calls of the socket: `async_write` with the bytes that `flush` handed out, the timers with their
-- milliseconds.
pub data Action : Type 0 where
  connect : Action
  async_read : Action
  async_write : List ℕ → Action
  set_timer : TimerId → ℕ → Action
  cancel_timer : TimerId → Action

-- `ticks` is how often the clock ticks in a millisecond; `last_receive_time` counts ticks.
pub record Service : Type 0 where
  pub encoder : Encoder
  pub decoder : Decoder
  pub logon_msg : List ℕ
  pub heart_beat : List ℕ
  pub receive_msg_count : ℕ
  pub receive_byte_count : ℕ
  pub last_receive_time : ℕ
  pub ticks : ℕ

-- `n` bytes of a field that starts with the given ones, in memory that was 0.
abbrev pub padded : ℕ → List ℕ → List ℕ
padded zero xs = []
padded (suc n) [] = 0 ∷ padded n []
padded (suc n) (x ∷ xs) = x ∷ padded n xs

-- "zhengfan", "zorkMdgw", "hehe" and "1.00"
abbrev pub run_logon : List ℕ
run_logon =
    (1 ∷ 0 ∷ 0 ∷ 0 ∷ 92 ∷ 0 ∷ 0 ∷ 0 ∷ [])
    ++ (padded 20 (122 ∷ 104 ∷ 101 ∷ 110 ∷ 103 ∷ 102 ∷ 97 ∷ 110 ∷ [])
        ++ (padded 20 (122 ∷ 111 ∷ 114 ∷ 107 ∷ 77 ∷ 100 ∷ 103 ∷ 119 ∷ [])
            ++ ((3 ∷ 0 ∷ 0 ∷ 0 ∷ [])
                ++ (padded 16 (104 ∷ 101 ∷ 104 ∷ 101 ∷ []) ++ padded 32 (49 ∷ 46 ∷ 48 ∷ 48 ∷ [])))))

abbrev pub run_heart_beat : List ℕ
run_heart_beat = 3 ∷ 0 ∷ 0 ∷ 0 ∷ 0 ∷ 0 ∷ 0 ∷ 0 ∷ []

-- The service after `init` and `run`, which calls `connect`.
unfoldable pub run_service : ℕ → ℕ → Service
run_service ticks time = record {
  encoder = Encoder.fresh;
  decoder = Decoder.fresh;
  logon_msg = run_logon;
  heart_beat = run_heart_beat;
  receive_msg_count = 0;
  receive_byte_count = 0;
  last_receive_time = time;
  ticks = ticks;
}

-- `encode` and `doWrite`
unfoldable pub send : MsgType → List ℕ → Service → Option (Service × List Action)
send type content s = elim (encode s.encoder content type) [
  | none ↦ none
  | some e ↦ some (record s { encoder = (flush e).1 }, async_write (flush e).0 ∷ [])
]

unfoldable pub handle_connect : Bool → Service → Option (Service × List Action)
handle_connect error s =
    if error
    then some (s, set_timer reconnect_timer 3000 ∷ [])
    else elim (send logon s.logon_msg s) [
      | none ↦ none
      | some (s', actions) ↦ some (s', actions ++ async_read ∷ [])
    ]

-- What `handlemessage_t` calls, by the type of the message.
abbrev pub answer : ℕ → List Action
answer msg_type =
    if msg_type == 1
    then set_timer heartbeat_timer 3000 ∷ []
    else (if msg_type == 2
        then cancel_timer heartbeat_timer ∷ set_timer reconnect_timer 3000 ∷ []
        else [])

unfoldable pub handle_message : List ℕ → Service → Option (Service × List Action)
handle_message content s = elim (get_uint32 content) [
  | none ↦ none
  | some msg_type ↦
      some (record s { receive_msg_count = (s.receive_msg_count + 1) % 2 ^ 32 }, answer msg_type)
]

-- The calls that `decode` makes, in order.
unfoldable pub handle_messages : List (List ℕ) → Service → Option (Service × List Action)
handle_messages [] s = some (s, [])
handle_messages (content ∷ contents) s = elim (handle_message content s) [
  | none ↦ none
  | some (s', actions) ↦ elim (handle_messages contents s') [
    | none ↦ none
    | some (s'', actions') ↦ some (s'', actions ++ actions')
  ]
]

-- `handleRead` of the bytes that were transferred, at the time `now`.
unfoldable pub handle_read : Bool → ℕ → List ℕ → Service → Option (Service × List Action)
handle_read error now bytes s =
    if error
    then some (s, cancel_timer heartbeat_timer ∷ set_timer reconnect_timer 3000 ∷ [])
    else elim (decode s.decoder bytes) [
      | returned r d out ↦
          elim (handle_messages out (record s {
            last_receive_time = now;
            receive_byte_count = (s.receive_byte_count + length bytes) % 2 ^ 32;
            decoder = d;
          })) [ none ↦ none | some (s', actions) ↦ some (s', actions ++ async_read ∷ []) ]
      | _ ↦ none
    ]

unfoldable pub handle_write : Bool → Service → Option (Service × List Action)
handle_write error s =
    some
      (s, if error then cancel_timer heartbeat_timer ∷ set_timer reconnect_timer 3000 ∷ [] else [])

-- The milliseconds since the last receive are rounded down.
unfoldable pub handle_timer : TimerId → ℕ → Service → Option (Service × List Action)
handle_timer reconnect_timer now s = some (
  record s { encoder = Encoder.fresh; decoder = Decoder.fresh },
  cancel_timer reconnect_timer ∷ connect ∷ [],
)
handle_timer heartbeat_timer now s =
    if ltb 3000 ((now - s.last_receive_time) / s.ticks)
    then elim (send heartbeat s.heart_beat s) [
      | none ↦ none
      | some (s', actions) ↦ some (s', set_timer heartbeat_timer 3000 ∷ actions)
    ]
    else some (s, set_timer heartbeat_timer 3000 ∷ [])

-- What the socket calls back.
pub data Event : Type 0 where
  connected : Bool → Event
  was_read : Bool → ℕ → List ℕ → Event
  was_written : Bool → Event
  expired : TimerId → ℕ → Event

unfoldable pub handle : Event → Service → Option (Service × List Action)
handle (connected error) s = handle_connect error s
handle (was_read error now bytes) s = handle_read error now bytes s
handle (was_written error) s = handle_write error s
handle (expired id now) s = handle_timer id now s
