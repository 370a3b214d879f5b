-- ===== src/SzBinary/Encoder/Examples.antt =====
-- Runs of the encoder, and its theorems at concrete inputs.
use flash_forwarder.Prelude.{
  ℕ, ◌≡◌, ◌≢◌, refl, ap, List, [], ◌∷◌, ◌++◌, some, true, Bool, length, take, arith,
}
use mathlib.Core.List.{flatten}
use flash_forwarder.Wire.{put_uint32}
use flash_forwarder.SzBinary.Decoder
use flash_forwarder.SzBinary.Decoder.{decode_all, returned, generate_checksum}
use flash_forwarder.SzBinary.Encoder.{
  MsgType, heartbeat, logout, others, Encoder, fresh, encode, flush,
}
use flash_forwarder.SzBinary.Encoder.Frames.{IsMessage, network_message, encode-flush-decode}
use flash_forwarder.SzBinary.Encoder.Pending.{encode-pending}

-- An SZB_Heartbeat in memory.
abbrev beat : List ℕ
beat = 3 ∷ 0 ∷ 0 ∷ 0 ∷ 0 ∷ 0 ∷ 0 ∷ 0 ∷ []

-- A logout with a text of one byte after its status.
abbrev bye : List ℕ
bye = 2 ∷ 0 ∷ 0 ∷ 0 ∷ 5 ∷ 0 ∷ 0 ∷ 0 ∷ 7 ∷ 0 ∷ 0 ∷ 0 ∷ 32 ∷ []

is_logout : MsgType → Bool
is_logout logout = true
is_logout _ = Bool.false

logout-others : logout ≢ others
unfolding is_logout
logout-others e = absurd (ground (arith, ap is_logout e))

bye-IsMessage : IsMessage logout bye
bye-IsMessage = record {
  bytes = (
    omega arith,
    (
      omega arith,
      (
        omega arith,
        (
          omega arith,
          (
            omega arith,
            (
              omega arith,
              (
                omega arith,
                (
                  omega arith,
                  (omega arith, (omega arith, (omega arith, (omega arith, (omega arith, tt))))),
                ),
              ),
            ),
          ),
        ),
      ),
    ),
  );
  has_type = logout-others;
  whole = omega arith;
  body_len = refl;
  small = omega arith;
}

encode-flush-decode_example :
    (e' : Encoder) × (encode fresh bye logout ≡ some e')
    × ((flush e').0 ≡ network_message logout bye)
    × (decode_all Decoder.fresh (network_message logout bye ∷ [])
        ≡ returned true Decoder.fresh (network_message logout bye ∷ []))
unfolding flatten put_uint32
encode-flush-decode_example =
    encode-flush-decode fresh logout bye (network_message logout bye ∷ []) bye-IsMessage refl refl

encode-pending_example :
    (e' : Encoder) × (encode (record { buffer0 = beat; buffer1 = []; waits0 = true }) beat heartbeat
      ≡ some e')
    × ((flush e').0 ≡ (
        let front = 0 ∷ 0 ∷ 0 ∷ 3 ∷ 0 ∷ 0 ∷ 0 ∷ 0 ∷ beat in
        front ++ put_uint32 (generate_checksum (take (length beat) front))))
encode-pending_example =
    encode-pending 3 0 0 0 0 0 0 0 [] beat (omega arith, omega arith, omega arith, omega arith)
      (omega arith, omega arith, omega arith, omega arith)
      (record { buffer0 = beat; buffer1 = []; waits0 = true }) refl
