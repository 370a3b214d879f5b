-- ===== src/Pgm/Filling/Packed.antt =====
-- The whole loop of OutEvent (src/pgm_sender.cc): the data of a packet is a piece of the stream of blocks,
-- and its offset is where the first new block starts.
use flash_forwarder.Prelude.{
  ℕ, ◌+◌, ◌%◌, ◌≤◌, ◌<◌, ◌≡◌, ◌≢◌, ◌⊎◌, inl, inr, refl, sym, ap, ap₂, subst, ◌∙◌, List, [], ◌∷◌,
  ◌++◌, none, some, Bool, true, false, length, drop, All, length-append, append_assoc, append-nil,
  arith,
}
use mathlib.Core.List.{flatten}
use flash_forwarder.Pgm.Filling.{max_message_per_time, Coder, Filling, flush_current, copy_current}
use flash_forwarder.Pgm.Filling.Ends.{
  Fills, ended, went_on, messages_read, no_room, copied, found_none, found, fill_round-case,
}
use flash_forwarder.Pgm.Filling.Blocks.{
  messages_of, encode_each, blocks_of, rest_from, rest_of, IsFree, Copied, copy_current-Copied,
}
use flash_forwarder.Pgm.Filling.Reading.{
  offset_after, offset_after-taken, offset_after-free, ReadAll, read_messages-ReadAll,
}

-- What was read in full groups, encoded, and put into the data of a packet, from `f` to `g`.
pub record Packed {ℓ} {Z : Type ℓ} (coder : Coder Z) (mask room : ℕ) (f g : Filling Z)
    (groups : List (List (List ℕ))) : Type ℓ where
  pub group_sizes : All (λ msgs. (0 < length msgs) × (length msgs ≤ max_message_per_time)) groups
  pub messages : messages_of f.reads ≡ flatten groups ++ messages_of g.reads
  pub serializer : g.serializer ≡ (blocks_of coder f.serializer groups).1
  pub bytes :
      f.content ++ (rest_of f ++ flatten (blocks_of coder f.serializer groups).0)
      ≡ g.content ++ rest_of g
  pub fits : length g.content ≤ room
  pub in_place : g.current ≡ none → g.current_offset ≡ 0
  pub free_offset :
      IsFree f.offset
      → ((groups ≡ []) × (g.offset ≡ f.offset))
        ⊎ ((groups ≢ [])
            × (length f.content + length (rest_of f) < room)
            × (g.offset ≡ length f.content + length (rest_of f) + mask))
  pub taken_offset : f.offset % 0x2000 ≢ 0x1fff → g.offset ≡ f.offset
  pub stopped : (length g.content ≡ room) ⊎ (rest_of g ≡ [])

true_ne_false : true ≢ false
true_ne_false e = absurd cc

module _ {ℓ} {Z : Type ℓ} (coder : Coder Z) (mask room : ℕ) (aligned : mask % 0x2000 ≡ 0)
    (small : room < 0x2000) where
  copy_current-Packed :
      (f h g : Filling Z) (block : List ℕ) (groups : List (List (List ℕ)))
      → f.current ≡ some block
      → Copied room block f h
      → Packed coder mask room h g groups
      → Packed coder mask room f g groups
  copy_current-Packed f h g block groups c d p =
      let rest : rest_of f ≡ drop f.current_offset block =
        ap (λ o. rest_from o f.current_offset) c in
      let one : f.content ++ rest_of f ≡ h.content ++ rest_of h =
        ap (λ t. f.content ++ t) rest ∙ sym d.bytes in
      let sizes : length f.content + length (rest_of f) ≡ length h.content + length (rest_of h) =
        sym (length-append f.content (rest_of f))
        ∙ ap (λ (t : List ℕ). length t) one
        ∙ length-append h.content (rest_of h) in
      record {
        group_sizes = p.group_sizes;
        messages = ap messages_of (sym d.same_reads) ∙ p.messages;
        serializer = p.serializer ∙ ap (λ z. (blocks_of coder z groups).1) d.same_serializer;
        bytes =
            sym (append_assoc f.content (rest_of f) _)
            ∙ ap₂ (λ s z. s ++ flatten (blocks_of coder z groups).0) one (sym d.same_serializer)
            ∙ append_assoc h.content (rest_of h) _
            ∙ p.bytes;
        fits = p.fits;
        in_place = p.in_place;
        free_offset = λ free.
            elim (p.free_offset (ap (λ (n : ℕ). n % 0x2000) d.same_offset ∙ free)) [
              | inl (e, same) ↦ inl (e, same ∙ d.same_offset)
              | inr (ne, less, start) ↦
                  inr (ne, omega arith, start ∙ ap (λ (n : ℕ). n + mask) (sym sizes))
            ];
        taken_offset = λ taken.
            p.taken_offset (λ e. taken (ap (λ (n : ℕ). n % 0x2000) (sym d.same_offset) ∙ e))
            ∙ d.same_offset;
        stopped = p.stopped;
      }

  found-Packed :
      (f h g : Filling Z) (msgs : List (List ℕ)) (r : Bool × Filling Z)
      (groups : List (List (List ℕ)))
      → f.current ≡ none
      → f.current_offset ≡ 0
      → length f.content < room
      → ReadAll coder mask max_message_per_time f.reads false f msgs r
      → r.0 ≡ true
      → Copied room (coder.flush r.1.serializer).0 (flush_current coder r.1) h
      → Packed coder mask room h g groups
      → Packed coder mask room f g (msgs ∷ groups)
  unfolding flush_current flatten
  found-Packed f h g msgs r groups c o room_left a t d p =
      let z = encode_each coder msgs f.serializer in
      let block = (coder.flush r.1.serializer).0 in
      let tail = flatten (blocks_of coder (coder.flush z).1 groups).0 in
      let none_left : rest_of f ≡ [] = ap (λ o. rest_from o f.current_offset) c in
      let whole : h.content ++ rest_of h ≡ f.content ++ (coder.flush z).0 =
        d.bytes
        ∙ ap₂ (λ s n. s ++ drop n block) a.content (a.current_offset ∙ o)
        ∙ ap (λ z. f.content ++ (coder.flush z).0) a.serializer in
      let next : h.serializer ≡ (coder.flush z).1 =
        d.same_serializer ∙ ap (λ z. (coder.flush z).1) a.serializer in
      let some_msg : 0 < length msgs = elim a.flag [
        | inl (e, false_flag) ↦ absurd (true_ne_false (sym t ∙ false_flag))
        | inr (pos, e) ↦ pos
      ] in
      let at_offset : h.offset ≡ offset_after mask msgs (length f.content) f.offset =
        d.same_offset ∙ a.offset in
      let starts : IsFree f.offset → h.offset ≡ length f.content + 0 + mask = λ free.
        at_offset
        ∙ offset_after-free mask msgs (length f.content) f.offset aligned (omega arith) free
            some_msg
        ∙ omega arith in
      let below : (length f.content + 0 + mask) % 0x2000 ≢ 0x1fff = λ e. omega arith in
      record {
        group_sizes = ((some_msg, a.few), p.group_sizes);
        messages =
            a.given
            ∙ ap (λ reads. msgs ++ messages_of reads) (sym d.same_reads)
            ∙ ap (λ t. msgs ++ t) p.messages
            ∙ sym (append_assoc msgs (flatten groups) (messages_of g.reads));
        serializer = p.serializer ∙ ap (λ z. (blocks_of coder z groups).1) next;
        bytes =
            ap (λ t. f.content ++ (t ++ ((coder.flush z).0 ++ tail))) none_left
            ∙ sym (append_assoc f.content (coder.flush z).0 tail)
            ∙ ap₂ (λ s z. s ++ flatten (blocks_of coder z groups).0) (sym whole) (sym next)
            ∙ append_assoc h.content (rest_of h) (flatten (blocks_of coder h.serializer groups).0)
            ∙ p.bytes;
        fits = p.fits;
        in_place = p.in_place;
        free_offset = λ free. inr (
          (λ e. absurd cc),
          omega (arith, ap (λ (t : List ℕ). length t) none_left),
          p.taken_offset (λ e. below (ap (λ (n : ℕ). n % 0x2000) (sym (starts free)) ∙ e))
              ∙ starts free
              ∙ ap (λ (t : List ℕ). length f.content + length t + mask) (sym none_left),
        );
        taken_offset = λ taken.
            let same = at_offset ∙ offset_after-taken mask msgs (length f.content) f.offset taken in
            p.taken_offset (λ e. taken (ap (λ (n : ℕ). n % 0x2000) (sym same) ∙ e)) ∙ same;
        stopped = p.stopped;
      }

  stopped-Packed :
      (f g : Filling Z)
      → g.content ≡ f.content
      → g.current ≡ f.current
      → g.current_offset ≡ f.current_offset
      → g.serializer ≡ f.serializer
      → g.offset ≡ f.offset
      → messages_of f.reads ≡ messages_of g.reads
      → length f.content ≤ room
      → (f.current ≡ none → f.current_offset ≡ 0)
      → (length g.content ≡ room) ⊎ (rest_of g ≡ [])
      → Packed coder mask room f g []
  unfolding flatten
  stopped-Packed f g content current current_offset serializer offset messages fits in_place stop =
      record {
        group_sizes = tt;
        messages = messages;
        serializer = serializer;
        bytes =
            ap (λ t. f.content ++ t) (append-nil (rest_of f))
            ∙ ap₂ (λ s t. s ++ t) (sym content) (ap₂ rest_from (sym current) (sym current_offset));
        fits = omega (arith, ap (λ (t : List ℕ). length t) content);
        in_place = λ e. current_offset ∙ in_place (sym current ∙ e);
        free_offset = λ free. inl (refl, offset);
        taken_offset = λ taken. offset;
        stopped = stop;
      }

  not_found-Packed :
      (f : Filling Z) (msgs : List (List ℕ)) (r : Bool × Filling Z)
      → f.current ≡ none
      → length f.content ≤ room
      → (f.current ≡ none → f.current_offset ≡ 0)
      → ReadAll coder mask max_message_per_time f.reads false f msgs r
      → r.0 ≡ false
      → Packed coder mask room f r.1 []
  not_found-Packed f [] r c fits in_place a no_flag =
      stopped-Packed f r.1 a.content a.current a.current_offset a.serializer a.offset a.given fits
        in_place (inr (ap (λ o. rest_from o r.1.current_offset) (a.current ∙ c)))
  not_found-Packed f (msg ∷ msgs) r c fits in_place a no_flag = elim a.flag [
    | inl (e, g) ↦ absurd cc
    | inr (pos, g) ↦ absurd (true_ne_false (sym g ∙ no_flag))
  ]

  pub Fills-Packed :
      (f g : Filling Z)
      → Fills coder mask room f g
      → length f.content ≤ room
      → (f.current ≡ none → f.current_offset ≡ 0)
      → (groups : List (List (List ℕ))) × Packed coder mask room f g groups
  unfolding flush_current
  Fills-Packed f g (ended e) fits in_place = elim (fill_round-case coder mask room f) [
    | no_room full r ↦
        let same : f ≡ g = cc in
        (
          [],
          subst (λ g. Packed coder mask room f g []) same
              (stopped-Packed f f refl refl refl refl refl refl fits in_place (inl (omega arith))),
        )
    | copied block h c r ↦ absurd cc
    | found_none h c a r ↦
        let (msgs, a') = read_messages-ReadAll coder mask max_message_per_time f.reads false f in
        let same : (messages_read coder mask room f).1 ≡ g = cc in
        (
          [],
          subst (λ g. Packed coder mask room f g []) same
              (not_found-Packed f msgs (messages_read coder mask room f) c fits in_place a' a),
        )
    | found h c a r ↦ absurd cc
  ]
  Fills-Packed f g (went_on {g = h} e more) fits in_place =
      elim (fill_round-case coder mask room f) [
        | no_room full r ↦ absurd cc
        | copied block room_left c r ↦
            let same : copy_current room block f ≡ h = cc in
            let d =
              subst (Copied room block f) same (copy_current-Copied room block f room_left c) in
            let (groups, p) = Fills-Packed h g more d.fits d.in_place in
            (groups, copy_current-Packed f h g block groups c d p)
        | found_none room_left c a r ↦ absurd cc
        | found room_left c a r ↦
            let r' = messages_read coder mask room f in
            let (msgs, a') =
              read_messages-ReadAll coder mask max_message_per_time f.reads false f in
            let block = (coder.flush r'.1.serializer).0 in
            let flushed = flush_current coder r'.1 in
            let same : copy_current room block flushed ≡ h = cc in
            let room_left' : length flushed.content < room =
              omega (arith, ap (λ (t : List ℕ). length t) a'.content) in
            let d =
              subst (Copied room block flushed) same
                (copy_current-Copied room block flushed room_left' refl) in
            let (groups, p) = Fills-Packed h g more d.fits d.in_place in
            (msgs ∷ groups, found-Packed f h g msgs r' groups c (in_place c) room_left a' a d p)
      ]
