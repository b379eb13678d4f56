-- ===== src/Utp/Header.antt =====
-- The header of a packet, src/utp/utpprotocol.h and src/utp/utpprotocol.cpp.
pub mod RoundTrip
use libktorrent_stream.Base.{ℕ, ◌+◌, ◌*◌, ◌/◌, ◌^◌, bit_and, bit_or, List, [], ◌∷◌, set}
use libktorrent_stream.Util.Words.{byte_at, read_uint16, read_uint32, write_uint16, write_uint32}

pub record Header : Type 0 where
  pub version : ℕ
  pub type : ℕ
  pub extension : ℕ
  pub connection_id : ℕ
  pub timestamp_microseconds : ℕ
  pub timestamp_difference_microseconds : ℕ
  pub wnd_size : ℕ
  pub seq_nr : ℕ
  pub ack_nr : ℕ

pub read : List ℕ → Header
read packet = record {
  version = bit_and (byte_at packet 0) 0x0F;
  type = bit_and (byte_at packet 0) 0xF0 / 2 ^ 4;
  extension = byte_at packet 1;
  connection_id = read_uint16 packet 2;
  timestamp_microseconds = read_uint32 packet 4;
  timestamp_difference_microseconds = read_uint32 packet 8;
  wnd_size = read_uint32 packet 12;
  seq_nr = read_uint16 packet 16;
  ack_nr = read_uint16 packet 18;
}

pub write : Header → List ℕ → List ℕ
write h packet0 =
    let packet1 : List ℕ =
      set packet0 0 (bit_or (bit_and (h.type * 2 ^ 4) 0xF0) (bit_and h.version 0x0F)) in
    let packet2 : List ℕ = set packet1 1 h.extension in
    let packet3 : List ℕ = write_uint16 packet2 2 h.connection_id in
    let packet4 : List ℕ = write_uint32 packet3 4 h.timestamp_microseconds in
    let packet5 : List ℕ = write_uint32 packet4 8 h.timestamp_difference_microseconds in
    let packet6 : List ℕ = write_uint32 packet5 12 h.wnd_size in
    let packet7 : List ℕ = write_uint16 packet6 16 h.seq_nr in write_uint16 packet7 18 h.ack_nr

-- `Header::size`
abbrev pub size : ℕ
size = 20
