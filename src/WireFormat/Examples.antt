-- ===== src/WireFormat/Examples.antt =====
-- Runs of the varint code, and its theorems at concrete inputs.
use flash_forwarder.Prelude.{◌-◌, ◌^◌, ◌%◌, ◌<◌, ◌≡◌, refl, some, [], ◌∷◌, ◌++◌, length, arith}
use flash_forwarder.WireFormat.Defs.{
  write_varint32, write_varint64, varint64_bytes, varint_size64, read_varint32, read_varint64,
  read_groups, zigzag_encode64, zigzag_decode64, write_signed_varint64, read_signed_varint64,
  write_signed_varint32, read_signed_varint32, done, fail, fault,
}
use flash_forwarder.WireFormat.Encode.{
  base128, write_varint32-write_varint64, write_varint64-base128, length-write_varint64,
}
use flash_forwarder.WireFormat.Decode.{read_varint32-write_varint32, read_varint64-write_varint64}
use flash_forwarder.WireFormat.Safe.{
  read_groups_safe, read_varint32_safe, read_varint64_safe, read_safe-read,
}
use flash_forwarder.WireFormat.ZigZag.{
  zigzag_decode64-zigzag_encode64, read_signed_varint64-write_signed_varint64,
  read_signed_varint32-write_signed_varint32,
}
use flash_forwarder.WireFormat.Fixed.{
  little, big, read_little_endian16, read_little_endian32, read_little_endian64,
  write_little_endian16, write_little_endian32, write_little_endian64, read_big_endian16,
  read_big_endian32, read_big_endian64, write_big_endian16, write_big_endian32, write_big_endian64,
}
use flash_forwarder.WireFormat.Fixed.RoundTrip.{read_endian-write_endian}

read_safe-read_example :
    (read_varint32_safe 2 (0x80 ∷ 0x80 ∷ []) ≡ fail)
    × (read_varint64_safe 2 (0x80 ∷ 0x80 ∷ []) ≡ fail)
unfolding read_varint32 read_varint64 read_groups
read_safe-read_example = read_safe-read (0x80 ∷ 0x80 ∷ []) (omega arith)

-- A size that is less than the number needs.
safe_short : read_varint32_safe 1 (0xac ∷ 0x02 ∷ []) ≡ fail
unfolding read_varint32_safe read_groups_safe
safe_short = refl

write_300 : write_varint32 300 ≡ 0xac ∷ 0x02 ∷ []
unfolding write_varint32
write_300 = refl

write_wide :
    write_varint64 (2 ^ 56) ≡ 0x80 ∷ 0x80 ∷ 0x80 ∷ 0x80 ∷ 0x80 ∷ 0x80 ∷ 0x80 ∷ 0x80 ∷ 1 ∷ []
unfolding write_varint64 varint64_bytes
write_wide = refl

-- Five flagged bytes are refused; a number that the memory cuts short is read past its end.
read_overrun : read_varint32 (0x80 ∷ 0x80 ∷ 0x80 ∷ 0x80 ∷ 0x80 ∷ 0 ∷ []) ≡ fail
unfolding read_varint32 read_groups
read_overrun = refl

read_cut : read_varint64 (0x80 ∷ 0x80 ∷ []) ≡ fault
unfolding read_varint64 read_groups
read_cut = refl

zigzag_minus_two : zigzag_encode64 (2 ^ 64 - 2) ≡ 3
unfolding zigzag_encode64
zigzag_minus_two = refl

write_varint64-base128_example : write_varint64 300 ≡ base128 9 300
write_varint64-base128_example = write_varint64-base128 300 (omega arith)

write_varint32-write_varint64_example : write_varint32 70000 ≡ write_varint64 70000
write_varint32-write_varint64_example = write_varint32-write_varint64 70000 (omega arith)

length-write_varint64_example : length (write_varint64 (2 ^ 40)) ≡ varint_size64 (2 ^ 40)
length-write_varint64_example = length-write_varint64 (2 ^ 40) (omega arith)

read_varint32-write_varint32_example :
    read_varint32 (write_varint32 300 ++ 9 ∷ []) ≡ done (300, length (write_varint32 300))
read_varint32-write_varint32_example = read_varint32-write_varint32 300 (9 ∷ []) (omega arith)

read_varint64-write_varint64_example :
    read_varint64 (write_varint64 (2 ^ 60) ++ 9 ∷ [])
    ≡ done (2 ^ 60, length (write_varint64 (2 ^ 60)))
read_varint64-write_varint64_example = read_varint64-write_varint64 (2 ^ 60) (9 ∷ []) (omega arith)

zigzag_decode64-zigzag_encode64_example :
    (zigzag_decode64 (zigzag_encode64 (2 ^ 64 - 5)) ≡ 2 ^ 64 - 5)
    × (zigzag_encode64 (2 ^ 64 - 5) < 2 ^ 64)
zigzag_decode64-zigzag_encode64_example = zigzag_decode64-zigzag_encode64 (2 ^ 64 - 5) (omega arith)

read_signed_varint64-write_signed_varint64_example :
    read_signed_varint64 (write_signed_varint64 (2 ^ 64 - 5) ++ [])
    ≡ done (2 ^ 64 - 5, length (write_signed_varint64 (2 ^ 64 - 5)))
read_signed_varint64-write_signed_varint64_example =
    read_signed_varint64-write_signed_varint64 (2 ^ 64 - 5) [] (omega arith)

read_signed_varint32-write_signed_varint32_example :
    read_signed_varint32 (write_signed_varint32 7 ++ [])
    ≡ done (7, length (write_signed_varint32 7))
read_signed_varint32-write_signed_varint32_example =
    read_signed_varint32-write_signed_varint32 7 [] (omega arith)

read_endian-write_endian_example :
    (read_little_endian16 little (write_little_endian16 big (0x1234 % 2 ^ 16) ++ 7 ∷ [])
      ≡ some (0x1234 % 2 ^ 16))
    × (read_little_endian32 little (write_little_endian32 big (0x1234 % 2 ^ 32) ++ 7 ∷ [])
        ≡ some (0x1234 % 2 ^ 32))
    × (read_little_endian64 little (write_little_endian64 big 0x1234 ++ 7 ∷ []) ≡ some 0x1234)
    × (read_big_endian16 little (write_big_endian16 big (0x1234 % 2 ^ 16) ++ 7 ∷ [])
        ≡ some (0x1234 % 2 ^ 16))
    × (read_big_endian32 little (write_big_endian32 big (0x1234 % 2 ^ 32) ++ 7 ∷ [])
        ≡ some (0x1234 % 2 ^ 32))
    × (read_big_endian64 little (write_big_endian64 big 0x1234 ++ 7 ∷ []) ≡ some 0x1234)
read_endian-write_endian_example = read_endian-write_endian little big 0x1234 (7 ∷ []) (omega arith)
