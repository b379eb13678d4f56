-- ===== src/Utp/SelectiveAck.antt =====
-- The bit mask of a selective acknowledgement, src/utp/utpprotocol.h. The mask is a list of bytes, the
-- first bit of a byte its lowest.
pub mod Mask
use libktorrent_stream.Base.{
  ℕ, ◌+◌, ◌-◌, ◌*◌, ◌/◌, ◌%◌, ◌^◌, bit_and, bit_or, Bool, true, false, not, ◌||◌, List, ltb, ◌==◌,
  if◌then◌else◌, get_or, set,
}

pub record SelectiveAck : Type 0 where
  pub extension : ℕ
  pub length : ℕ
  pub bitmask : List ℕ

-- `Acked`
unfoldable pub acked : SelectiveAck → ℕ → Bool
acked sack bit =
    if ltb bit 2 || ltb (8 * sack.length + 1) bit
    then false
    else if bit_and (get_or sack.bitmask ((bit - 2) / 8) 0) (2 ^ ((bit - 2) % 8)) == 0
    then false
    else true

-- `Ack`
unfoldable pub ack : SelectiveAck → ℕ → SelectiveAck
ack sack bit = if ltb bit 2 || ltb (8 * sack.length + 1) bit then sack else record sack {
  bitmask =
      set sack.bitmask ((bit - 2) / 8)
        (bit_or (get_or sack.bitmask ((bit - 2) / 8) 0) (2 ^ ((bit - 2) % 8)));
}
