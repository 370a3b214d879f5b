-- ===== src/SzBinary/Session/Sends.antt =====
-- The messages that the session of src/szBinary_input_service.cpp sends.
use flash_forwarder.Prelude.{
  ℕ, ◌<◌, ◌≡◌, ◌≢◌, ◌⊎◌, refl, ap, ◌∙◌, List, [], ◌∷◌, some, Bool, true, false, ltb, ◌&&◌, All,
  ltb→lt, append-nil, arith,
}
use mathlib.Core.List.{flatten}
use flash_forwarder.SzBinary.Encoder.{
  Encoder, MsgType, logon, heartbeat, others, wait_buffer, encode, flush,
}
use flash_forwarder.SzBinary.Encoder.Frames.{IsMessage, network_message, encode-flush-decode}
use flash_forwarder.SzBinary.Session.{
  Action, connect, async_read, async_write, set_timer, cancel_timer, Service, run_logon,
  run_heart_beat, send,
}

-- A write is a whole logon or heartbeat in network order, with its checksum.
abbrev pub IsWhole : Action → Type 0
IsWhole (async_write bytes) =
    (bytes ≡ network_message logon run_logon) ⊎ (bytes ≡ network_message heartbeat run_heart_beat)
IsWhole connect = Unit {0}
IsWhole async_read = Unit {0}
IsWhole (set_timer id milli) = Unit {0}
IsWhole (cancel_timer id) = Unit {0}

-- Nothing waits in the encoder between two events, and the messages are those of `run`.
pub record Quiet (s : Service) : Type 0 where
  pub quiet : wait_buffer s.encoder ≡ []
  pub logon_msg : s.logon_msg ≡ run_logon
  pub heart_beat : s.heart_beat ≡ run_heart_beat

all_bytes : List ℕ → Bool
all_bytes [] = true
all_bytes (x ∷ xs) = ltb x 256 && all_bytes xs

both : (a b : Bool) → (a && b) ≡ true → (a ≡ true) × (b ≡ true)
both true b e = (refl, e)
both false b e = cc

all_bytes-All : (xs : List ℕ) → all_bytes xs ≡ true → All (λ x. x < 256) xs
unfolding all_bytes
all_bytes-All [] e = tt
all_bytes-All (x ∷ xs) e =
    let (a, b) = both (ltb x 256) (all_bytes xs) e in (ltb→lt x 256 a, all_bytes-All xs b)

is_others : MsgType → Bool
is_others others = true
is_others _ = false

false-true : false ≢ true
false-true e = cc

pub logon-IsMessage : IsMessage logon run_logon
unfolding all_bytes is_others
logon-IsMessage = record {
  bytes = all_bytes-All run_logon refl;
  has_type = λ e. false-true (ap is_others e);
  whole = omega arith;
  body_len = refl;
  small = omega arith;
}

pub heartbeat-IsMessage : IsMessage heartbeat run_heart_beat
unfolding all_bytes is_others
heartbeat-IsMessage = record {
  bytes = all_bytes-All run_heart_beat refl;
  has_type = λ e. false-true (ap is_others e);
  whole = omega arith;
  body_len = refl;
  small = omega arith;
}

wait-flush : (e : Encoder) → wait_buffer (flush e).1 ≡ []
unfolding flush
wait-flush e = ground arith

send_encoded :
    (type : MsgType) (content : List ℕ) (s : Service) (e : Encoder)
    → encode s.encoder content type ≡ some e
    → send type content s ≡ some (record s { encoder = (flush e).1 }, async_write (flush e).0 ∷ [])
unfolding send
send_encoded type content s e encoded = simp (encoded, send) refl

-- A message that is sent while nothing waits goes out whole, and nothing waits afterwards.
pub send_lem :
    (type : MsgType) (content : List ℕ) (s : Service)
    → IsMessage type content
    → wait_buffer s.encoder ≡ []
    → (e : Encoder) × (wait_buffer e ≡ [])
      × (send type content s
          ≡ some (record s { encoder = e }, async_write (network_message type content) ∷ []))
unfolding flatten
send_lem type content s m q =
    let (e', encoded, flushed, _) =
      encode-flush-decode s.encoder type content (network_message type content ∷ []) m q
        (append-nil (network_message type content)) in
    ((flush e').1, wait-flush e', sent e' encoded flushed)
  where
    sent :
        (e' : Encoder)
        → encode s.encoder content type ≡ some e'
        → (flush e').0 ≡ network_message type content
        → send type content s
          ≡ some
              (record s { encoder = (flush e').1 }, async_write (network_message type content) ∷ [])
    sent e' encoded flushed =
        send_encoded type content s e' encoded
        ∙ ap (λ b. some (record s { encoder = (flush e').1 }, async_write b ∷ [])) flushed
