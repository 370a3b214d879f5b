-- ===== src/SzBinary/Session/Reads.antt =====
-- What the session of src/szBinary_input_service.cpp makes of the frames that it reads.
use flash_forwarder.Prelude.{
  ℕ, ◌+◌, ◌%◌, ◌^◌, ◌<◌, ◌≡◌, refl, sym, ap, subst, ◌∙◌, List, [], ◌∷◌, ◌++◌, some, Bool, true,
  length, All, append_assoc, length-append, arith,
}
use mathlib.Core.List.{flatten}
use flash_forwarder.SzBinary.Decoder
use flash_forwarder.SzBinary.Decoder.{Decoder, Result, returned, fault, stuck, decode, decode_all}
use flash_forwarder.SzBinary.Decoder.Calls.{decode_all-end, decode_all-cases}
use flash_forwarder.SzBinary.Decoder.Stream.{Framed, decode_all-flatten}
use flash_forwarder.SzBinary.Session.{Action, async_read, Service}
use flash_forwarder.SzBinary.Session.Answers.{
  answers, read_all, timers, reads, answers-timers, answers-append, HasType, frames-HasType,
  messages_lem, read_cons, read_all_cons, All-parts,
}

-- What reading the chunks one by one comes to.
record Reading (now : ℕ) (chunks frames : List (List ℕ)) (s : Service) (d : Decoder) : Type 0 where
  s' : Service
  actions : List Action
  runs : read_all now chunks s ≡ some (s', actions)
  decoder : s'.decoder ≡ d
  count : s'.receive_msg_count ≡ (s.receive_msg_count + length frames) % 2 ^ 32
  bytes : s'.receive_byte_count ≡ (s.receive_byte_count + length (flatten chunks)) % 2 ^ 32
  calls : timers actions ≡ answers frames
  reading : reads actions ≡ length chunks

read_chunks :
    (now : ℕ) (chunks frames : List (List ℕ)) (s : Service) (b : Bool) (d : Decoder)
    → decode_all s.decoder chunks ≡ returned b d frames
    → All HasType frames
    → s.receive_msg_count < 2 ^ 32
    → s.receive_byte_count < 2 ^ 32
    → Reading now chunks frames s d
unfolding flatten
read_chunks now [] frames s b d e a lt lt' =
    let (ed, ef) = decode_all-end s.decoder d b frames e in
    record {
      s' = s;
      actions = [];
      runs = refl;
      decoder = ed;
      count = omega (arith, ap length ef, lt);
      bytes = omega (arith, lt');
      calls = sym (ap answers ef);
      reading = refl;
    }
read_chunks now (c ∷ chunks) frames s b d e a lt lt' =
    let (r, d1, out1, out2, z, later, split) = decode_all-cases s.decoder d c chunks frames b e in
    let (a1, a2) = All-parts HasType out1 out2 (subst (All HasType) split a) in
    let s1 : Service = record s {
      last_receive_time = now;
      receive_byte_count = (s.receive_byte_count + length c) % 2 ^ 32;
      decoder = d1;
    } in
    let (s2, run, same, n, k) = messages_lem out1 s1 a1 lt in
    let R =
      read_chunks now chunks out2 s2 b d (ap (λ x. decode_all x chunks) same ∙ later) a2
        (omega (arith, n)) (omega (arith, k)) in
    record {
      s' = R.s';
      actions = (answers out1 ++ async_read ∷ []) ++ R.actions;
      runs =
          read_all_cons now c chunks s s2 R.s' (answers out1 ++ async_read ∷ []) R.actions
            (read_cons now c s s2 r d1 out1 (answers out1) z run) R.runs;
      decoder = R.decoder;
      count = omega (arith, n, R.count, ap length split, length-append out1 out2);
      bytes = omega (arith, k, R.bytes, length-append c (flatten chunks));
      calls =
          ap timers (append_assoc (answers out1) (async_read ∷ []) R.actions)
          ∙ (answers-timers out1 (async_read ∷ R.actions)).0
          ∙ ap (λ x. answers out1 ++ x) R.calls
          ∙ sym (answers-append out1 out2)
          ∙ ap answers (sym split);
      reading =
          ap reads (append_assoc (answers out1) (async_read ∷ []) R.actions)
          ∙ (answers-timers out1 (async_read ∷ R.actions)).1
          ∙ ap (λ x. 1 + x) R.reading
          ∙ omega arith;
    }

-- When whole frames arrive in chunks, however they are cut, and the decoder is as new: handleRead of
-- one chunk after another counts the frames and the bytes modulo 2^32 and leaves the decoder as new;
-- but for one read for each chunk, it makes the calls that the types of the frames ask for, in order.
pub handle_read-answers :
    (now : ℕ) (chunks frames : List (List ℕ)) (s : Service)
    → All Framed frames
    → flatten chunks ≡ flatten frames
    → s.decoder ≡ Decoder.fresh
    → s.receive_msg_count < 2 ^ 32
    → s.receive_byte_count < 2 ^ 32
    → (s' : Service) × (actions : List Action) × (read_all now chunks s ≡ some (s', actions))
      × (s'.decoder ≡ Decoder.fresh)
      × (s'.receive_msg_count ≡ (s.receive_msg_count + length frames) % 2 ^ 32)
      × (s'.receive_byte_count ≡ (s.receive_byte_count + length (flatten frames)) % 2 ^ 32)
      × (timers actions ≡ answers frames)
      × (reads actions ≡ length chunks)
handle_read-answers now chunks frames s framed whole new lt lt' =
    let run = ap (λ d. decode_all d chunks) new ∙ decode_all-flatten chunks frames framed whole in
    let R =
      read_chunks now chunks frames s true Decoder.fresh run (frames-HasType frames framed) lt
        lt' in
    (
      R.s',
      R.actions,
      R.runs,
      R.decoder,
      R.count,
      R.bytes ∙ ap (λ x. (s.receive_byte_count + length x) % 2 ^ 32) whole,
      R.calls,
      R.reading,
    )
