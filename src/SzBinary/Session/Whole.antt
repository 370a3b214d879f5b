-- ===== src/SzBinary/Session/Whole.antt =====
-- What the session of src/szBinary_input_service.cpp writes, over all orders of its events.
use flash_forwarder.Prelude.{
  ℕ, ◌+◌, ◌-◌, ◌/◌, ◌%◌, ◌^◌, ◌≡◌, ◌⊎◌, inl, inr, refl, sym, ap, subst, ◌∙◌, List, [], ◌∷◌, ◌++◌,
  Option, none, some, Bool, true, false, ltb, ◌==◌, length, All, Bool-cases,
}
use flash_forwarder.Wire.{get_uint32}
use flash_forwarder.SzBinary.Decoder
use flash_forwarder.SzBinary.Decoder.{Decoder, Result, returned, fault, stuck, decode}
use flash_forwarder.SzBinary.Decoder.Calls.{Result-cases}
use flash_forwarder.SzBinary.Encoder
use flash_forwarder.SzBinary.Encoder.{
  Encoder, MsgType, logon, heartbeat, others, wait_buffer, encode, flush,
}
use flash_forwarder.SzBinary.Encoder.Frames.{network_message}
use flash_forwarder.SzBinary.Session.{
  TimerId, reconnect_timer, heartbeat_timer, Action, connect, async_read, async_write, cancel_timer,
  Service, run_logon, run_heart_beat, run_service, send, handle_connect, answer, handle_message,
  handle_messages, handle_read, handle_write, handle_timer, Event, connected, was_read, was_written,
  expired, handle,
}
use flash_forwarder.SzBinary.Session.Sends.{
  IsWhole, Quiet, send_lem, logon-IsMessage, heartbeat-IsMessage,
}

-- The service after some events, and the calls of the socket up to then.
pub data Session : Service → List Action → Type 0 where
  ran : (ticks time : ℕ) → Session (run_service ticks time) (connect ∷ [])
  handled :
      {s s' : Service} {log actions : List Action} (event : Event)
      → Session s log
      → handle event s ≡ some (s', actions)
      → Session s' (log ++ actions)

-- A handler that leaves no memory keeps the session quiet and writes whole messages.
abbrev IsFine : Option (Service × List Action) → Type 0
IsFine none = Unit {0}
IsFine (some (s, actions)) = Quiet s × All IsWhole actions

connect_sent :
    (s s' : Service) (actions : List Action)
    → send logon s.logon_msg s ≡ some (s', actions)
    → handle (connected false) s ≡ some (s', actions ++ async_read ∷ [])
unfolding handle handle_connect
connect_sent s s' actions e = simp (e, handle, handle_connect) refl

-- A new connection: the logon goes out, and the reading begins.
connect_lem :
    (s : Service)
    → Quiet s
    → (s' : Service) × (Quiet s')
      × (handle (connected false) s
          ≡ some (s', async_write (network_message logon run_logon) ∷ async_read ∷ []))
      × (s'.decoder ≡ s.decoder)
connect_lem s q =
    let (e, quiet, sent) = send_lem logon run_logon s logon-IsMessage q.quiet in
    (
      record s { encoder = e },
      record { quiet = quiet; logon_msg = q.logon_msg; heart_beat = q.heart_beat },
      connect_sent s _ _ (ap (λ c. send logon c s) q.logon_msg ∙ sent),
      refl,
    )

All-append : (xs ys : List Action) → All IsWhole xs → All IsWhole ys → All IsWhole (xs ++ ys)
All-append [] ys a b = b
All-append (x ∷ xs) ys a b = (a.0, All-append xs ys a.1 b)

IsFine-before :
    (o : Option (Service × List Action)) (actions : List Action)
    → All IsWhole actions
    → IsFine o
    → IsFine (elim o [ none ↦ none | some (s, actions') ↦ some (s, actions ++ actions') ])
IsFine-before none actions a f = tt
IsFine-before (some (s, actions')) actions a f = (f.0, All-append actions actions' a f.1)

IsFine-behind :
    (o : Option (Service × List Action)) (actions : List Action)
    → All IsWhole actions
    → IsFine o
    → IsFine (elim o [ none ↦ none | some (s, actions') ↦ some (s, actions' ++ actions) ])
IsFine-behind none actions a f = tt
IsFine-behind (some (s, actions')) actions a f = (f.0, All-append actions' actions f.1 a)

answer-IsWhole : (msg_type : ℕ) → All IsWhole (answer msg_type)
answer-IsWhole t = elim (Bool-cases (t == 1)) [
  | inl e ↦ rw e (tt, tt)
  | inr e ↦ elim (Bool-cases (t == 2)) [
    | inl e' ↦ rw (e, e') (tt, (tt, tt))
    | inr e' ↦ rw (e, e') tt
  ]
]

Option-cases {ℓ} : {A : Type ℓ} (o : Option A) → (o ≡ none) ⊎ ((a : A) × (o ≡ some a))
Option-cases none = inl refl
Option-cases (some a) = inr (a, refl)

messages-IsFine : (ms : List (List ℕ)) (s : Service) → Quiet s → IsFine (handle_messages ms s)
unfolding handle_messages handle_message
messages-IsFine [] s q = (q, tt)
messages-IsFine (m ∷ ms) s q = elim (Option-cases (get_uint32 m)) [
  | inl e ↦ simp (e, handle_messages, handle_message) tt
  | inr (t, e) ↦
      simp (e, handle_messages, handle_message)
        (IsFine-before _ (answer t) (answer-IsWhole t) (
          messages-IsFine ms (record s { receive_msg_count = (s.receive_msg_count + 1) % 2 ^ 32 })
            (record { quiet = q.quiet; logon_msg = q.logon_msg; heart_beat = q.heart_beat })))
]

read-IsFine :
    (error : Bool) (now : ℕ) (bytes : List ℕ) (s : Service)
    → Quiet s
    → IsFine (handle_read error now bytes s)
unfolding handle_read
read-IsFine true now bytes s q = (q, (tt, (tt, tt)))
read-IsFine false now bytes s q = elim (Result-cases (decode s.decoder bytes)) [
  | inl (b, d, out, e) ↦ simp e (
      IsFine-behind _ (async_read ∷ []) (tt, tt)
        (messages-IsFine out
          (record s {
            last_receive_time = now;
            receive_byte_count = (s.receive_byte_count + length bytes) % 2 ^ 32;
            decoder = d;
          })
          (record { quiet = q.quiet; logon_msg = q.logon_msg; heart_beat = q.heart_beat })))
  | inr (inl (out, e)) ↦ simp e tt
  | inr (inr (out, e)) ↦ simp e tt
]

send_heart_beat :
    (s : Service)
    → Quiet s
    → (e : Encoder) × (wait_buffer e ≡ [])
      × (send heartbeat s.heart_beat s
          ≡ some (
            record s { encoder = e },
            async_write (network_message heartbeat run_heart_beat) ∷ [],
          ))
send_heart_beat s q =
    let (e, quiet, sent) = send_lem heartbeat run_heart_beat s heartbeat-IsMessage q.quiet in
    (e, quiet, ap (λ c. send heartbeat c s) q.heart_beat ∙ sent)

timer-IsFine : (id : TimerId) (now : ℕ) (s : Service) → Quiet s → IsFine (handle_timer id now s)
unfolding handle_timer
timer-IsFine reconnect_timer now s q =
    (record { quiet = refl; logon_msg = q.logon_msg; heart_beat = q.heart_beat }, (tt, (tt, tt)))
timer-IsFine heartbeat_timer now s q =
    let (e, quiet, sent) = send_heart_beat s q in
    elim (Bool-cases (ltb 3000 ((now - s.last_receive_time) / s.ticks))) [
      | inl late ↦
          simp (late, sent)
            (
              record { quiet = quiet; logon_msg = q.logon_msg; heart_beat = q.heart_beat },
              (tt, (inr refl, tt)),
            )
      | inr early ↦ simp early (q, (tt, tt))
    ]

handle-IsFine : (event : Event) (s : Service) → Quiet s → IsFine (handle event s)
unfolding handle handle_connect handle_write
handle-IsFine (connected true) s q = (q, (tt, tt))
handle-IsFine (connected false) s q =
    let (s', q', e, _) = connect_lem s q in subst IsFine (sym e) (q', (inl refl, (tt, tt)))
handle-IsFine (was_read error now bytes) s q = read-IsFine error now bytes s q
handle-IsFine (was_written true) s q = (q, (tt, (tt, tt)))
handle-IsFine (was_written false) s q = (q, tt)
handle-IsFine (expired id now) s q = timer-IsFine id now s q

Session-Quiet : {s : Service} {log : List Action} → Session s log → Quiet s × All IsWhole log
unfolding run_service
Session-Quiet (ran ticks time) =
    (record { quiet = refl; logon_msg = refl; heart_beat = refl }, (tt, tt))
Session-Quiet (handled {s} {s'} {log} {actions} event r e) =
    let (q, whole) = Session-Quiet r in
    let (q', whole') = subst IsFine e (handle-IsFine event s q) in
    (q', All-append log actions whole whole')

-- After any events, in any order, nothing waits in the encoder; and each write of the session was a
-- whole logon or a whole heartbeat in network order, with its checksum.
pub Session-IsWhole :
    {s : Service} {log : List Action}
    → Session s log
    → (wait_buffer s.encoder ≡ []) × All IsWhole log
Session-IsWhole r = ((Session-Quiet r).0.quiet, (Session-Quiet r).1)

-- After any events, in any order, the expiry of the reconnect timer connects anew, and once that
-- succeeds the session writes a whole logon in network order and reads on, with a decoder as new.
pub handle-reconnect :
    {s : Service} {log : List Action} (now : ℕ)
    → Session s log
    → (s' s'' : Service) × (handle (expired reconnect_timer now) s
        ≡ some (s', cancel_timer reconnect_timer ∷ connect ∷ []))
      × (handle (connected false) s'
          ≡ some (s'', async_write (network_message logon run_logon) ∷ async_read ∷ []))
      × (s''.decoder ≡ Decoder.fresh)
unfolding handle handle_timer
handle-reconnect {s} now r =
    let (q, _) = Session-Quiet r in
    let s' : Service = record s { encoder = Encoder.fresh; decoder = Decoder.fresh } in
    let (s'', _, e, d) =
      connect_lem s'
        (record { quiet = refl; logon_msg = q.logon_msg; heart_beat = q.heart_beat }) in
    (s', s'', refl, e, d)
