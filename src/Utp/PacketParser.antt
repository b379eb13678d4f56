-- ===== src/Utp/PacketParser.antt =====
-- `PacketParser` of src/utp/utpprotocol.h and src/utp/utpprotocol.cpp. A read past the end of the
-- packet gives 0 here. A packet that does not parse is dropped, so it has no result.
pub mod Chain
pub mod Fuel
use libktorrent_stream.Base.{
  ℕ, zero, suc, ◌+◌, ◌-◌, ◌%◌, ◌^◌, Bool, true, false, not, ◌&&◌, Option, none, some, List, ltb,
  ◌==◌, if◌then◌else◌, length, take, drop,
}
use libktorrent_stream.Util.Words.{add32, byte_at}
use libktorrent_stream.Utp.Header.{Header, read, size}
use libktorrent_stream.Utp.SelectiveAck.{SelectiveAck}

-- What the parser knows of a packet after `parse`. `selectiveAck` is `none` for the null pointer.
pub record Parsed : Type 0 where
  pub header : Header
  pub selective_ack : Option SelectiveAck
  pub data_off : ℕ
  pub data_size : ℕ

-- A selective acknowledgement at an offset; the mask is a pointer into the packet.
abbrev pub sack_at : List ℕ → ℕ → SelectiveAck
sack_at packet off = record {
  extension = byte_at packet off;
  length = byte_at packet (off + 1);
  bitmask = take (byte_at packet (off + 1)) (drop (off + 2) packet);
}

-- The loop over the extensions: each round moves the offset by two at least.
pub parse_extensions : ℕ → List ℕ → ℕ → ℕ → Option SelectiveAck → Option (ℕ × Option SelectiveAck)
parse_extensions zero packet ext_id data_off sack = some (data_off, sack)
parse_extensions (suc fuel) packet ext_id data_off sack =
    elim (ltb data_off (length packet) && not (ext_id == 0)) [
      | false ↦ some (data_off, sack)
      | true ↦
          elim (ext_id == 1
            && ltb (length packet) (add32 (add32 data_off 2) (byte_at packet (data_off + 1)))) [
              | true ↦ none
              | false ↦
                  parse_extensions fuel packet (byte_at packet data_off)
                    (add32 data_off (2 + byte_at packet (data_off + 1)))
                    (if ext_id == 1 then some (sack_at packet data_off) else sack)
            ]
    ]

-- `data_size = size - data_off`, in 32 bits
pub finish : List ℕ → Option (ℕ × Option SelectiveAck) → Option Parsed
finish packet none = none
finish packet (some (data_off, sack)) = some (record {
  header = read packet;
  selective_ack = sack;
  data_off = data_off;
  data_size = (length packet + 2 ^ 32 - data_off) % 2 ^ 32;
})

pub parse : List ℕ → Option Parsed
unfolding parse_extensions finish
parse packet =
    if ltb (length packet) size
    then none
    else finish packet (parse_extensions (length packet) packet (read packet).extension size none)
