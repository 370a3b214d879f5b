-- ===== src/Compressor/Rows.antt =====
-- What the instructions of a template make of a message, when they stand in the order of the fields.
use flash_forwarder.Prelude.{
  ℕ, zero, suc, ◌^◌, ◌≡◌, refl, sym, ap, ◌∙◌, List, [], ◌∷◌, ◌++◌, some, not, ◌==◌, if◌then◌else◌,
  length, set, get_elem?, bit_and, arith, length-append, append_assoc, lt→leb_false,
}
use flash_forwarder.Compressor.Fields.{Message, Field, get_field, put_field}
use flash_forwarder.Compressor.Integer.{set_pmap}
use flash_forwarder.Compressor.Template.{FieldInstruction}
use flash_forwarder.Compressor.Step.{sent, bytes_of, stored, received, Serves}

-- The bytes of the fields, the pmap, and the fields of the cache and of the out message afterwards.
abbrev pub all_bytes : List FieldInstruction → List Field → List Field → List ℕ
all_bytes (ins ∷ is) (f ∷ fs) (c ∷ cs) = bytes_of ins f c ++ all_bytes is fs cs
all_bytes _ _ _ = []

abbrev pub next_pmap : ℕ → FieldInstruction → Field → Field → ℕ → ℕ
next_pmap i ins f c pm = if sent ins f c then set_pmap i pm else pm

abbrev pub all_pmap : ℕ → List FieldInstruction → List Field → List Field → ℕ → ℕ
all_pmap i (ins ∷ is) (f ∷ fs) (c ∷ cs) pm = all_pmap (suc i) is fs cs (next_pmap i ins f c pm)
all_pmap i _ _ _ pm = pm

abbrev pub all_stored : List FieldInstruction → List Field → List Field → List Field
all_stored (ins ∷ is) (f ∷ fs) (c ∷ cs) = stored ins f c ∷ all_stored is fs cs
all_stored _ _ _ = []

abbrev pub all_received : List FieldInstruction → List Field → List Field → List Field → List Field
all_received (ins ∷ is) (f ∷ fs) (c ∷ cs) (o ∷ os) = received ins f c o ∷ all_received is fs cs os
all_received _ _ _ _ = []

-- One field of each message for each instruction, from place `i` on, and the instructions right for
-- them.
pub data AllServe : ℕ → List FieldInstruction → List Field → List Field → List Field → Type 0 where
  nil : {i : ℕ} → AllServe i [] [] [] []
  row :
      {i : ℕ} {ins : FieldInstruction} {is : List FieldInstruction} {f c o : Field}
      {fs cs os : List Field}
      → Serves i ins f c
      → AllServe (suc i) is fs cs os
      → AllServe i (ins ∷ is) (f ∷ fs) (c ∷ cs) (o ∷ os)

-- The bits of the pmap say which fields are in the message.
abbrev pub Marks : ℕ → ℕ → List FieldInstruction → List Field → List Field → Type 0
Marks pmap i (ins ∷ is) (f ∷ fs) (c ∷ cs) =
    ((bit_and pmap (2 ^ i) == 0) ≡ not (sent ins f c)) × Marks pmap (suc i) is fs cs
Marks pmap i _ _ _ = Unit {0}

-- A message whose fields are `before` and `after`, of which `after` starts at place `i`.
pub record Splits (i : ℕ) (m : Message) (before after : List Field) : Type 0 where
  pub fields : m.fields ≡ before ++ after
  pub counted : m.field_count ≡ length m.fields
  pub place : length before ≡ i

elem-append :
    (before after : List Field) (f : Field)
    → get_elem? (before ++ f ∷ after) (length before) ≡ some f
elem-append [] after f = refl
elem-append (x ∷ before) after f = elem-append before after f

set-append :
    (before after : List Field) (f g : Field)
    → set (before ++ f ∷ after) (length before) g ≡ before ++ g ∷ after
set-append [] after f g = refl
set-append (x ∷ before) after f g = ap (λ t. x ∷ t) (set-append before after f g)

length-set : (xs : List Field) (i : ℕ) (g : Field) → length (set xs i g) ≡ length xs
length-set [] i g = refl
length-set (x ∷ xs) zero g = refl
length-set (x ∷ xs) (suc i) g = ap suc (length-set xs i g)

length-snoc : (xs : List Field) (x : Field) → length (xs ++ x ∷ []) ≡ suc (length xs)
length-snoc xs x = omega (arith, length-append xs (x ∷ []))

module _ {i : ℕ} {m : Message} {before after : List Field} {f : Field}
    (s : Splits i m before (f ∷ after)) where
  pub Splits-get : get_field i m ≡ some f
  unfolding get_field
  Splits-get = rw (← s.place) (
      rw
        (lt→leb_false m.field_count (length before)
          (omega (arith, s.counted, ap length s.fields, length-append before (f ∷ after))))
        (ap (λ t. get_elem? t (length before)) s.fields ∙ elem-append before after f))

  put_fields : (g : Field) → (put_field i g m).fields ≡ before ++ g ∷ after
  unfolding put_field
  put_fields g =
      ap (λ t. set t i g) s.fields
      ∙ ap (λ k. set (before ++ f ∷ after) k g) (sym s.place)
      ∙ set-append before after f g

  regroup : (g : Field) → before ++ g ∷ after ≡ (before ++ g ∷ []) ++ after
  regroup g = sym (append_assoc before (g ∷ []) after)

  pub Splits-put : (g : Field) → Splits (suc i) (put_field i g m) (before ++ g ∷ []) after
  unfolding put_field
  Splits-put g = record {
    fields = put_fields g ∙ regroup g;
    counted = s.counted ∙ sym (length-set m.fields i g);
    place = length-snoc before g ∙ ap suc s.place;
  }

  pub Splits-skip : Splits (suc i) m (before ++ f ∷ []) after
  Splits-skip = record {
    fields = s.fields ∙ regroup f;
    counted = s.counted;
    place = length-snoc before f ∙ ap suc s.place;
  }

abbrev pub with_fields : Message → List Field → Message
with_fields m fs = record m { fields = fs }

-- What a put leaves alone, and the field put joined to those before.
pub with_fields-put :
    (i : ℕ) (g : Field) (m : Message) (before rest : List Field)
    → with_fields (put_field i g m) ((before ++ g ∷ []) ++ rest)
      ≡ with_fields m (before ++ g ∷ rest)
unfolding put_field
with_fields-put i g m before rest = ap (with_fields m) (append_assoc before (g ∷ []) rest)

pub with_fields_self :
    {i : ℕ} {m : Message} {before : List Field}
    → Splits i m before []
    → m ≡ with_fields m (before ++ [])
with_fields_self {m} s = ap (with_fields m) s.fields
