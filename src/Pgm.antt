-- ===== src/Pgm.antt =====
-- What src/pgm_sender.cc and src/pgm_receiver.cc share: the constants, and a packet: two bytes for the
-- offset of the first message under the options, four for the index, and the data. The host is
-- little-endian.
pub mod Push
pub mod Filling
pub mod Sender
pub mod Peer
pub mod Delivery
pub mod Receiver
pub mod Exchange
mod Examples
use flash_forwarder.Prelude.{
  ℕ, zero, suc, ◌+◌, ◌*◌, ◌/◌, ◌%◌, ◌^◌, List, [], ◌∷◌, ◌++◌, Option, none, some, Bool,
}

abbrev pub offset_bit_count : ℕ
offset_bit_count = 13

abbrev pub non_exist_offset : ℕ
non_exist_offset = 0x1fff

-- In seconds.
abbrev pub status_report_interval : ℕ
status_report_interval = 1

-- The two stores in front of the data, `offset` a uint16_t and `index` a uint32_t.
unfoldable pub packet : ℕ → ℕ → List ℕ → List ℕ
packet offset index content =
    offset % 256
    ∷ offset / 2 ^ 8 % 256
    ∷ index % 256
    ∷ index / 2 ^ 8 % 256
    ∷ index / 2 ^ 16 % 256
    ∷ index / 2 ^ 24 % 256
    ∷ content
