-- ===== src/SzBinary/Decoder/Examples.antt =====
-- Runs of the decoder, and its theorems at concrete inputs.
use flash_forwarder.Prelude.{ℕ, ◌≡◌, ◌≢◌, refl, List, [], ◌∷◌, ◌++◌, true, false, arith}
use mathlib.Core.List.{flatten}
use flash_forwarder.Wire.{get_uint32}
use flash_forwarder.SzBinary.Decoder.{
  fresh, returned, decode, decode_all, decode_loop, consume, generate_checksum,
}
use flash_forwarder.SzBinary.Decoder.Stream.{Framed, decode_all-flatten}
use flash_forwarder.SzBinary.Decoder.Checks.{Passed, decode-Passed, decode-bad_checksum}

-- A heartbeat, and a frame of type 1 with the body 7, 250.
abbrev heartbeat : List ℕ
heartbeat = 0 ∷ 0 ∷ 0 ∷ 3 ∷ 0 ∷ 0 ∷ 0 ∷ 0 ∷ 0 ∷ 0 ∷ 0 ∷ 3 ∷ []

abbrev two_bytes : List ℕ
two_bytes = 0 ∷ 0 ∷ 0 ∷ 1 ∷ 0 ∷ 0 ∷ 0 ∷ 2 ∷ 7 ∷ 250 ∷ 0 ∷ 0 ∷ 0 ∷ 4 ∷ []

-- The heartbeat with a wrong last byte.
abbrev damaged : List ℕ
damaged = 0 ∷ 0 ∷ 0 ∷ 3 ∷ 0 ∷ 0 ∷ 0 ∷ 0 ∷ 0 ∷ 0 ∷ 0 ∷ 4 ∷ []

-- Both frames, cut inside the first head and inside the second body.
abbrev pieces : List (List ℕ)
pieces =
    (0 ∷ 0 ∷ 0 ∷ 3 ∷ 0 ∷ [])
    ∷ []
    ∷ (0 ∷ 0 ∷ 0 ∷ 0 ∷ 0 ∷ 0 ∷ 3 ∷ 0 ∷ 0 ∷ 0 ∷ 1 ∷ 0 ∷ 0 ∷ 0 ∷ 2 ∷ 7 ∷ [])
    ∷ (250 ∷ 0 ∷ 0 ∷ 0 ∷ 4 ∷ [])
    ∷ []

heartbeat-Framed : Framed heartbeat
unfolding get_uint32 generate_checksum
heartbeat-Framed =
    (0, record { size = refl; small = omega arith; body_length = refl; checksum = refl })

two_bytes-Framed : Framed two_bytes
unfolding get_uint32 generate_checksum
two_bytes-Framed =
    (2, record { size = refl; small = omega arith; body_length = refl; checksum = refl })

decode_run : decode fresh heartbeat ≡ returned true fresh (heartbeat ∷ [])
unfolding decode decode_loop consume get_uint32 generate_checksum
decode_run = refl

decode_all-flatten_example :
    decode_all fresh pieces ≡ returned true fresh (heartbeat ∷ two_bytes ∷ [])
unfolding flatten
decode_all-flatten_example =
    decode_all-flatten pieces (heartbeat ∷ two_bytes ∷ [])
      (heartbeat-Framed, (two_bytes-Framed, tt)) refl

decode-Passed_example : Passed (decode fresh damaged) × Passed (decode_loop 2 fresh [] damaged)
decode-Passed_example = decode-Passed fresh damaged 2

differ_4 : 4 ≢ generate_checksum (0 ∷ 0 ∷ 0 ∷ 3 ∷ 0 ∷ 0 ∷ 0 ∷ 0 ∷ [])
unfolding generate_checksum
differ_4 = omega arith

decode-bad_checksum_example : decode fresh (damaged ++ heartbeat) ≡ returned false fresh []
unfolding get_uint32
decode-bad_checksum_example =
    decode-bad_checksum 0 4 damaged heartbeat refl (omega arith) refl refl differ_4
