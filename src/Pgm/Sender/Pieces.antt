-- ===== src/Pgm/Sender/Pieces.antt =====
-- The packets of a PGMSender (src/pgm_sender.cc) as pieces of one stream of blocks.
use flash_forwarder.Prelude.{
  ℕ, suc, ◌+◌, ◌%◌, ◌^◌, ◌≤◌, ◌<◌, ◌≡◌, ◌≢◌, refl, sym, ap, ap₂, ◌∙◌, List, [], ◌∷◌, ◌++◌, length,
  All, append_assoc, append-nil, arith,
}
use mathlib.Core.List.{flatten}
use flash_forwarder.Pgm.{non_exist_offset, packet}
use flash_forwarder.Pgm.Filling.{Coder}
use flash_forwarder.Pgm.Filling.Blocks.{encode_each, blocks_of}

-- The data of a packet: it starts with `lead`, what was left of the stream before it, goes on with new
-- blocks, and leaves `left`.
pub record Piece : Type 0 where
  pub lead : List ℕ
  pub blocks : List (List ℕ)
  pub content : List ℕ
  pub left : List ℕ

abbrev pub first_start : List ℕ → List (List ℕ) → ℕ
first_start lead [] = non_exist_offset
first_start lead (block ∷ blocks) = length lead

-- Where its first new block starts; the mark for no offset if none does.
abbrev pub start_of : Piece → ℕ
start_of p = first_start p.lead p.blocks

pub record IsPiece (room : ℕ) (p : Piece) : Type 0 where
  pub bytes : p.lead ++ flatten p.blocks ≡ p.content ++ p.left
  pub some_content : 0 < length p.content
  pub fits : length p.content ≤ room
  pub lead_fits : p.blocks ≢ [] → length p.lead ≤ length p.content
  pub lead_short : p.blocks ≢ [] → length p.lead < room

-- Each piece starts with what the one before it left.
abbrev pub Chain : List ℕ → List Piece → List ℕ → Type 0
Chain left [] end = left ≡ end
Chain left (p ∷ ps) end = (p.lead ≡ left) × Chain p.left ps end

-- The packets, numbered from `index` on.
abbrev pub packets_of : ℕ → ℕ → List Piece → List (List ℕ)
packets_of mask index [] = []
packets_of mask index (p ∷ ps) =
    packet (start_of p + mask) (index % 2 ^ 32) p.content ∷ packets_of mask (suc index) ps

abbrev pub contents_of : List Piece → List ℕ
contents_of [] = []
contents_of (p ∷ ps) = p.content ++ contents_of ps

abbrev pub filled_with : List ℕ → List (List ℕ) → List (List ℕ)
filled_with [] blocks = blocks
filled_with (b ∷ bs) blocks = (b ∷ bs) ∷ blocks

-- The blocks that are not empty.
abbrev pub filled : List (List ℕ) → List (List ℕ)
filled [] = []
filled (block ∷ blocks) = filled_with block (filled blocks)

abbrev pub blocks_in : List Piece → List (List ℕ)
blocks_in [] = []
blocks_in (p ∷ ps) = p.blocks ++ blocks_in ps

pub Chain-more :
    (left : List ℕ) (ps : List Piece) (p : Piece)
    → Chain left ps p.lead
    → Chain left (ps ++ p ∷ []) p.left
Chain-more left [] p c = (sym c, refl)
Chain-more left (q ∷ ps) p c = (c.0, Chain-more q.left ps p c.1)

pub packets_of-more :
    (mask index : ℕ) (ps : List Piece) (p : Piece)
    → packets_of mask index (ps ++ p ∷ [])
      ≡ packets_of mask index ps
        ++ packet (start_of p + mask) ((length ps + index) % 2 ^ 32) p.content ∷ []
packets_of-more mask index [] p =
    ap (λ (n : ℕ). packet (start_of p + mask) (n % 2 ^ 32) p.content ∷ []) {x = index}
      {y = 0 + index} (omega arith)
packets_of-more mask index (q ∷ ps) p =
    ap (λ t. packet (start_of q + mask) (index % 2 ^ 32) q.content ∷ t)
      (packets_of-more mask (suc index) ps p
        ∙ ap
            (λ (n : ℕ).
              packets_of mask (suc index) ps
              ++ packet (start_of p + mask) (n % 2 ^ 32) p.content ∷ [])
            {x = length ps + suc index} {y = suc (length ps) + index} (omega arith))

pub filled-append : (xs ys : List (List ℕ)) → filled (xs ++ ys) ≡ filled xs ++ filled ys
filled-append [] ys = refl
filled-append ([] ∷ xs) ys = filled-append xs ys
filled-append ((b ∷ bs) ∷ xs) ys = ap (λ t. (b ∷ bs) ∷ t) (filled-append xs ys)

pub filled_none : (xs : List (List ℕ)) → flatten xs ≡ [] → filled xs ≡ []
unfolding flatten
filled_none [] e = refl
filled_none ([] ∷ xs) e = filled_none xs e
filled_none ((b ∷ bs) ∷ xs) e = absurd cc

pub flatten-filled : (xs : List (List ℕ)) → flatten (filled xs) ≡ flatten xs
unfolding flatten
flatten-filled [] = refl
flatten-filled ([] ∷ xs) = flatten-filled xs
flatten-filled ((b ∷ bs) ∷ xs) = ap (λ t. (b ∷ bs) ++ t) (flatten-filled xs)

pub flatten-append {ℓ} :
    {A : Type ℓ} (xs ys : List (List A)) → flatten (xs ++ ys) ≡ flatten xs ++ flatten ys
unfolding flatten
flatten-append [] ys = refl
flatten-append (x ∷ xs) ys =
    ap (λ t. x ++ t) (flatten-append xs ys) ∙ sym (append_assoc x (flatten xs) (flatten ys))

pub blocks_in-more :
    (ps : List Piece) (p : Piece) → blocks_in (ps ++ p ∷ []) ≡ blocks_in ps ++ p.blocks
blocks_in-more [] p = append-nil p.blocks
blocks_in-more (q ∷ ps) p =
    ap (λ t. q.blocks ++ t) (blocks_in-more ps p)
    ∙ sym (append_assoc q.blocks (blocks_in ps) p.blocks)

pub All-more {ℓ κ} :
    {A : Type ℓ} (P : A → Type κ) (xs ys : List A) → All P xs → All P ys → All P (xs ++ ys)
All-more P [] ys a b = b
All-more P (x ∷ xs) ys a b = (a.0, All-more P xs ys a.1 b)

-- The data of the packets in order is the stream, up to what the last piece left.
pub contents_of-blocks :
    (room : ℕ) (left end : List ℕ) (ps : List Piece)
    → Chain left ps end
    → All (IsPiece room) ps
    → left ++ flatten (blocks_in ps) ≡ contents_of ps ++ end
unfolding flatten
contents_of-blocks room left end [] c a = append-nil left ∙ c
contents_of-blocks room left end (p ∷ ps) c a =
    ap₂ (λ l t. l ++ t) (sym c.0) (flatten-append p.blocks (blocks_in ps))
    ∙ sym (append_assoc p.lead (flatten p.blocks) (flatten (blocks_in ps)))
    ∙ ap (λ t. t ++ flatten (blocks_in ps)) a.0.bytes
    ∙ append_assoc p.content p.left (flatten (blocks_in ps))
    ∙ ap (λ t. p.content ++ t) (contents_of-blocks room p.left end ps c.1 a.1)
    ∙ sym (append_assoc p.content (contents_of ps) end)

module _ {ℓ} {Z : Type ℓ} (coder : Coder Z) where
  pub blocks_of-append :
      (z : Z) (xs ys : List (List (List ℕ)))
      → (blocks_of coder z (xs ++ ys)).0
        ≡ (blocks_of coder z xs).0 ++ (blocks_of coder (blocks_of coder z xs).1 ys).0
  blocks_of-append z [] ys = refl
  blocks_of-append z (x ∷ xs) ys =
      let r = coder.flush (encode_each coder x z) in ap (λ t. r.0 ∷ t) (blocks_of-append r.1 xs ys)

  pub state-append :
      (z : Z) (xs ys : List (List (List ℕ)))
      → (blocks_of coder z (xs ++ ys)).1 ≡ (blocks_of coder (blocks_of coder z xs).1 ys).1
  state-append z [] ys = refl
  state-append z (x ∷ xs) ys = state-append (coder.flush (encode_each coder x z)).1 xs ys
