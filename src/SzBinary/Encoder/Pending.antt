-- ===== src/SzBinary/Encoder/Pending.antt =====
-- What `encode` makes of a heartbeat when a message waits already.
use flash_forwarder.Prelude.{
  ℕ, ◌<◌, ◌≡◌, refl, List, ◌∷◌, ◌++◌, some, length, take, arith, length-append, le→leb,
}
use flash_forwarder.Wire.{put_uint32}
use flash_forwarder.SzBinary.Decoder.{generate_checksum}
use flash_forwarder.SzBinary.Encoder.{
  heartbeat, Encoder, wait_buffer, set_wait, add_tail, finish, encode, flush,
}
use flash_forwarder.SzBinary.Encoder.Frames.{put-host, wait-set_wait}

module _ (t0 t1 t2 t3 l0 l1 l2 l3 : ℕ) (rest content : List ℕ)
    (bt : (t0 < 256) × (t1 < 256) × (t2 < 256) × (t3 < 256))
    (bl : (l0 < 256) × (l1 < 256) × (l2 < 256) × (l3 < 256)) where
  abbrev swapped : List ℕ
  swapped = t3 ∷ t2 ∷ t1 ∷ t0 ∷ l3 ∷ l2 ∷ l1 ∷ l0 ∷ (rest ++ content)

  abbrev result : List ℕ
  result = swapped ++ put_uint32 (generate_checksum (take (length content) swapped))

  tail_lem : add_tail (length content) swapped ≡ some result
  unfolding add_tail generate_checksum
  tail_lem =
      rw (le→leb (length content) (length swapped) (omega (arith, length-append rest content))) refl

  finish_lem :
      finish heartbeat (length content) (t0 ∷ t1 ∷ t2 ∷ t3 ∷ l0 ∷ l1 ∷ l2 ∷ l3 ∷ (rest ++ content))
      ≡ some result
  unfolding finish
  finish_lem = rw (put-host t0 t1 t2 t3 bt) (rw (put-host l0 l1 l2 l3 bl) tail_lem)

  -- When a message of at least a head waits, a heartbeat that is encoded reverses the two words of
  -- the head that waits, joins the buffer as it is in memory, and is followed by the checksum of
  -- as many bytes as it has from the front of the buffer.
  pub encode-pending :
      (e : Encoder)
      → wait_buffer e ≡ t0 ∷ t1 ∷ t2 ∷ t3 ∷ l0 ∷ l1 ∷ l2 ∷ l3 ∷ rest
      → (e' : Encoder) × (encode e content heartbeat ≡ some e')
        × ((flush e').0 ≡ (
            let front = t3 ∷ t2 ∷ t1 ∷ t0 ∷ l3 ∷ l2 ∷ l1 ∷ l0 ∷ (rest ++ content) in
            front ++ put_uint32 (generate_checksum (take (length content) front))))
  unfolding encode
  encode-pending e w = (set_wait e result, rw w (rw finish_lem refl), wait-set_wait e result)
