-- ===== src/Wire/Examples.antt =====
-- Runs of the byte order helpers, and their round trip at a concrete input.
use flash_forwarder.Prelude.{◌%◌, ◌^◌, ◌≡◌, refl, [], ◌∷◌, ◌++◌, none, some, arith}
use flash_forwarder.Wire.{
  put_uint16, get_uint16, put_uint32, get_uint32, put_uint64, get_uint64, put_uint8, get_uint8,
}
use flash_forwarder.Wire.RoundTrip.{get-put}

put_run : put_uint32 0x01020304 ≡ 1 ∷ 2 ∷ 3 ∷ 4 ∷ []
unfolding put_uint32
put_run = refl

get_cut : get_uint32 (1 ∷ 2 ∷ 3 ∷ []) ≡ none
unfolding get_uint32
get_cut = refl

byte_run : get_uint8 (put_uint8 7) ≡ some 7
unfolding get_uint8 put_uint8
byte_run = refl

get-put_example :
    (get_uint16 (put_uint16 (70000 % 2 ^ 16) ++ 5 ∷ []) ≡ some (70000 % 2 ^ 16))
    × (get_uint32 (put_uint32 (70000 % 2 ^ 32) ++ 5 ∷ []) ≡ some (70000 % 2 ^ 32))
    × (get_uint64 (put_uint64 70000 ++ 5 ∷ []) ≡ some 70000)
get-put_example = get-put 70000 (5 ∷ []) (omega arith)
