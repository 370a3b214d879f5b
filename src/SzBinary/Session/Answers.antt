-- ===== src/SzBinary/Session/Answers.antt =====
-- The calls that the session of src/szBinary_input_service.cpp makes for the messages that it reads.
use flash_forwarder.Prelude.{
  ℕ, ◌+◌, ◌%◌, ◌^◌, ◌<◌, ◌≤◌, ◌≡◌, inl, inr, refl, sym, ap, ◌∙◌, List, [], ◌∷◌, ◌++◌, Option, none,
  some, Bool, false, ◌==◌, length, All, Bool-cases, append_assoc, arith,
}
use flash_forwarder.Wire.{get_uint32}
use flash_forwarder.SzBinary.Decoder.{Decoder, returned, decode}
use flash_forwarder.SzBinary.Decoder.Stream.{Framed}
use flash_forwarder.SzBinary.Session.{
  Action, connect, async_read, async_write, set_timer, cancel_timer, Service, answer,
  handle_message, handle_messages, handle_read,
}

-- The type of a message, which stands first.
abbrev pub type_of : List ℕ → ℕ
type_of content = elim (get_uint32 content) [ none ↦ 0 | some t ↦ t ]

-- The calls for the messages, in order.
abbrev pub answers : List (List ℕ) → List Action
answers [] = []
answers (f ∷ fs) = answer (type_of f) ++ answers fs

-- `handleRead` for one chunk after another, at the time `now` and without an error.
abbrev pub read_all : ℕ → List (List ℕ) → Service → Option (Service × List Action)
read_all now [] s = some (s, [])
read_all now (chunk ∷ chunks) s = elim (handle_read false now chunk s) [
  | none ↦ none
  | some (s', actions) ↦ elim (read_all now chunks s') [
    | none ↦ none
    | some (s'', actions') ↦ some (s'', actions ++ actions')
  ]
]

-- The calls other than reads, and the number of reads.
abbrev pub timers : List Action → List Action
timers [] = []
timers (async_read ∷ actions) = timers actions
timers (connect ∷ actions) = connect ∷ timers actions
timers (async_write bytes ∷ actions) = async_write bytes ∷ timers actions
timers (set_timer id milli ∷ actions) = set_timer id milli ∷ timers actions
timers (cancel_timer id ∷ actions) = cancel_timer id ∷ timers actions

abbrev pub reads : List Action → ℕ
reads [] = 0
reads (async_read ∷ actions) = 1 + reads actions
reads (connect ∷ actions) = reads actions
reads (async_write bytes ∷ actions) = reads actions
reads (set_timer id milli ∷ actions) = reads actions
reads (cancel_timer id ∷ actions) = reads actions

answer-timers :
    (t : ℕ) (actions : List Action)
    → (timers (answer t ++ actions) ≡ answer t ++ timers actions)
      × (reads (answer t ++ actions) ≡ reads actions)
answer-timers t actions = elim (Bool-cases (t == 1)) [
  | inl e ↦ rw e (refl, refl)
  | inr e ↦ elim (Bool-cases (t == 2)) [
    | inl e' ↦ rw (e, e') (refl, refl)
    | inr e' ↦ rw (e, e') (refl, refl)
  ]
]

pub answers-timers :
    (fs : List (List ℕ)) (actions : List Action)
    → (timers (answers fs ++ actions) ≡ answers fs ++ timers actions)
      × (reads (answers fs ++ actions) ≡ reads actions)
answers-timers [] actions = (refl, refl)
answers-timers (f ∷ fs) actions =
    let (a, b) = answers-timers fs actions in
    let (c, d) = answer-timers (type_of f) (answers fs ++ actions) in
    let split = append_assoc (answer (type_of f)) (answers fs) actions in
    (
      ap timers split
          ∙ c
          ∙ ap (λ x. answer (type_of f) ++ x) a
          ∙ sym (append_assoc (answer (type_of f)) (answers fs) (timers actions)),
      ap reads split ∙ d ∙ b,
    )

pub answers-append : (fs gs : List (List ℕ)) → answers (fs ++ gs) ≡ answers fs ++ answers gs
answers-append [] gs = refl
answers-append (f ∷ fs) gs =
    ap (λ x. answer (type_of f) ++ x) (answers-append fs gs)
    ∙ sym (append_assoc (answer (type_of f)) (answers fs) (answers gs))

-- A message that has a type.
abbrev pub HasType : List ℕ → Type 0
HasType f = (t : ℕ) × (get_uint32 f ≡ some t)

get_uint32-long : (f : List ℕ) → 4 ≤ length f → HasType f
unfolding get_uint32
get_uint32-long [] h = absurd (omega arith)
get_uint32-long (_ ∷ []) h = absurd (omega arith)
get_uint32-long (_ ∷ _ ∷ []) h = absurd (omega arith)
get_uint32-long (_ ∷ _ ∷ _ ∷ []) h = absurd (omega arith)
get_uint32-long (a ∷ b ∷ c ∷ d ∷ f) h = (_, refl)

pub frames-HasType : (fs : List (List ℕ)) → All Framed fs → All HasType fs
frames-HasType [] a = tt
frames-HasType (f ∷ fs) a = (get_uint32-long f (omega (arith, a.0.1.size)), frames-HasType fs a.1)

messages_cons :
    (f : List ℕ) (fs : List (List ℕ)) (s s' : Service) (t : ℕ) (actions : List Action)
    → get_uint32 f ≡ some t
    → handle_messages fs (record s { receive_msg_count = (s.receive_msg_count + 1) % 2 ^ 32 })
      ≡ some (s', actions)
    → handle_messages (f ∷ fs) s ≡ some (s', answer t ++ actions)
unfolding handle_messages handle_message
messages_cons f fs s s' t actions e run = simp (e, run, handle_messages, handle_message) refl

type_lem : (f : List ℕ) (t : ℕ) → get_uint32 f ≡ some t → type_of f ≡ t
type_lem f t e = rw (e, type_of) refl

-- The calls for messages that have types.
pub messages_lem :
    (fs : List (List ℕ)) (s : Service)
    → All HasType fs
    → s.receive_msg_count < 2 ^ 32
    → (s' : Service) × (handle_messages fs s ≡ some (s', answers fs))
      × (s'.decoder ≡ s.decoder)
      × (s'.receive_msg_count ≡ (s.receive_msg_count + length fs) % 2 ^ 32)
      × (s'.receive_byte_count ≡ s.receive_byte_count)
unfolding handle_messages
messages_lem [] s a lt = (s, refl, refl, omega (arith, lt), refl)
messages_lem (f ∷ fs) s a lt =
    let (t, e) = a.0 in
    let s1 : Service = record s { receive_msg_count = (s.receive_msg_count + 1) % 2 ^ 32 } in
    let (s', run, d, n, b) = messages_lem fs s1 a.1 (omega arith) in
    (
      s',
      messages_cons f fs s s' t (answers fs) e run
          ∙ ap (λ x. some (s', answer x ++ answers fs)) (sym (type_lem f t e)),
      d,
      n ∙ omega arith,
      b,
    )

pub read_cons :
    (now : ℕ) (c : List ℕ) (s s' : Service) (b : Bool) (d : Decoder) (out : List (List ℕ))
    (actions : List Action)
    → decode s.decoder c ≡ returned b d out
    → handle_messages out (record s {
      last_receive_time = now;
      receive_byte_count = (s.receive_byte_count + length c) % 2 ^ 32;
      decoder = d;
    })
      ≡ some (s', actions)
    → handle_read false now c s ≡ some (s', actions ++ async_read ∷ [])
unfolding handle_read
read_cons now c s s' b d out actions e run = simp (e, run, handle_read) refl

pub read_all_cons :
    (now : ℕ) (c : List ℕ) (chunks : List (List ℕ)) (s s' s'' : Service) (x y : List Action)
    → handle_read false now c s ≡ some (s', x)
    → read_all now chunks s' ≡ some (s'', y)
    → read_all now (c ∷ chunks) s ≡ some (s'', x ++ y)
read_all_cons now c chunks s s' s'' x y e run = simp (e, run, read_all) refl

pub All-parts {ℓ} :
    (P : List ℕ → Type ℓ) (xs ys : List (List ℕ)) → All P (xs ++ ys) → All P xs × All P ys
All-parts P [] ys a = (tt, a)
All-parts P (x ∷ xs) ys a = let (b, c) = All-parts P xs ys a.1 in ((a.0, b), c)
