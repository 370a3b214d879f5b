-- ===== src/SzBinary/Session/Examples.antt =====
-- A session at work, and its theorems at concrete inputs.
use flash_forwarder.Prelude.{
  ℕ, ◌+◌, ◌%◌, ◌^◌, ◌≡◌, refl, List, [], ◌∷◌, ◌++◌, some, true, false, length, All, arith,
}
use mathlib.Core.List.{flatten}
use flash_forwarder.Wire.{get_uint32}
use flash_forwarder.SzBinary.Decoder
use flash_forwarder.SzBinary.Decoder.{generate_checksum}
use flash_forwarder.SzBinary.Decoder.Stream.{Framed}
use flash_forwarder.SzBinary.Encoder.{logon, wait_buffer}
use flash_forwarder.SzBinary.Encoder.Frames.{network_message}
use flash_forwarder.SzBinary.Session.{
  reconnect_timer, heartbeat_timer, Action, connect, async_read, async_write, set_timer,
  cancel_timer, Service, run_logon, run_service, connected, was_written, expired, handle,
  handle_write,
}
use flash_forwarder.SzBinary.Session.Sends.{IsWhole}
use flash_forwarder.SzBinary.Session.Whole.{
  Session, ran, handled, Session-IsWhole, handle-reconnect,
}
use flash_forwarder.SzBinary.Session.Answers.{read_all, timers, reads, answers}
use flash_forwarder.SzBinary.Session.Reads.{handle_read-answers}

-- The answer to a logon, with a body of two bytes, and a heartbeat.
abbrev accepted : List ℕ
accepted = 0 ∷ 0 ∷ 0 ∷ 1 ∷ 0 ∷ 0 ∷ 0 ∷ 2 ∷ 7 ∷ 250 ∷ 0 ∷ 0 ∷ 0 ∷ 4 ∷ []

abbrev beat : List ℕ
beat = 0 ∷ 0 ∷ 0 ∷ 3 ∷ 0 ∷ 0 ∷ 0 ∷ 0 ∷ 0 ∷ 0 ∷ 0 ∷ 3 ∷ []

abbrev pieces : List (List ℕ)
pieces =
    (0 ∷ 0 ∷ 0 ∷ 1 ∷ 0 ∷ [])
    ∷ (0 ∷ 0 ∷ 2 ∷ 7 ∷ 250 ∷ 0 ∷ 0 ∷ 0 ∷ 4 ∷ 0 ∷ 0 ∷ 0 ∷ 3 ∷ 0 ∷ 0 ∷ 0 ∷ 0 ∷ 0 ∷ 0 ∷ 0 ∷ 3 ∷ [])
    ∷ []

abbrev start : Service
start = run_service 10000 5

-- The write of something failed.
lost :
    Session start
      ((connect ∷ []) ++ cancel_timer heartbeat_timer ∷ set_timer reconnect_timer 3000 ∷ [])
unfolding handle handle_write
lost = handled (was_written true) (ran 10000 5) refl

Session-IsWhole_example :
    (wait_buffer start.encoder ≡ [])
    × All IsWhole
        ((connect ∷ []) ++ cancel_timer heartbeat_timer ∷ set_timer reconnect_timer 3000 ∷ [])
Session-IsWhole_example = Session-IsWhole lost

handle-reconnect_example :
    (s' s'' : Service) × (handle (expired reconnect_timer 9) start
      ≡ some (s', cancel_timer reconnect_timer ∷ connect ∷ []))
    × (handle (connected false) s'
        ≡ some (s'', async_write (network_message logon run_logon) ∷ async_read ∷ []))
    × (s''.decoder ≡ Decoder.fresh)
handle-reconnect_example = handle-reconnect 9 lost

frames_Framed : All Framed (accepted ∷ beat ∷ [])
unfolding get_uint32 generate_checksum
frames_Framed = (
  (2, record { size = refl; small = omega arith; body_length = refl; checksum = refl }),
  ((0, record { size = refl; small = omega arith; body_length = refl; checksum = refl }), tt),
)

handle_read-answers_example :
    (s' : Service) × (actions : List Action) × (read_all 70000 pieces start ≡ some (s', actions))
    × (s'.decoder ≡ Decoder.fresh)
    × (s'.receive_msg_count ≡ (start.receive_msg_count + 2) % 2 ^ 32)
    × (s'.receive_byte_count
        ≡ (start.receive_byte_count + length (flatten (accepted ∷ beat ∷ []))) % 2 ^ 32)
    × (timers actions ≡ answers (accepted ∷ beat ∷ []))
    × (reads actions ≡ 2)
unfolding flatten run_service
handle_read-answers_example =
    handle_read-answers 70000 pieces (accepted ∷ beat ∷ []) start frames_Framed refl refl
      (omega arith) (omega arith)
