-- ===== src/Utp/SelectiveAck/Mask.antt =====
-- What `Ack` turns on in a mask, and what `Acked` sees of it.
mod Tests
use libktorrent_stream.Base.{
  ℕ, ◌+◌, ◌-◌, ◌*◌, ◌/◌, ◌%◌, ◌^◌, ◌≤◌, ◌≡◌, bit_and, bit_or, Bool, true, false, not, ◌&&◌, ◌||◌,
  arith, ltb, ◌==◌, if◌then◌else◌, get_or, get_or-set, length, length-set, and-mask_ne, test_bit,
  test_bit-or, test_bit-pow,
}
use libktorrent_stream.Utp.SelectiveAck.{SelectiveAck, acked, ack}

-- The numbers that a mask has a bit for: from two after the acknowledged one on
abbrev pub in_mask : SelectiveAck → ℕ → Bool
in_mask sack bit = not (ltb bit 2) && not (ltb (8 * sack.length + 1) bit)

-- The mask has the bytes that its length says.
abbrev pub IsValid : SelectiveAck → Type 0
IsValid sack = sack.length ≤ length sack.bitmask

acked-test_bit :
    (sack : SelectiveAck) (bit : ℕ)
    → acked sack bit
      ≡ (in_mask sack bit && test_bit (get_or sack.bitmask ((bit - 2) / 8) 0) ((bit - 2) % 8))
unfolding acked
acked-test_bit sack bit =
    ground (arith, and-mask_ne ((bit - 2) % 8) (get_or sack.bitmask ((bit - 2) / 8) 0))

-- `Ack` turns on the bit that it is given, if the mask has it, and changes no other; the mask keeps its
-- length.
pub acked-ack :
    (sack : SelectiveAck) (i j : ℕ)
    → IsValid sack
    → (acked (ack sack i) j ≡ (acked sack j || (j == i && in_mask sack i)))
      × ((ack sack i).length ≡ sack.length)
      × IsValid (ack sack i)
unfolding ack
acked-ack sack i j v = ground (
  arith,
  acked-test_bit (ack sack i) j,
  acked-test_bit sack j,
  get_or-set sack.bitmask ((i - 2) / 8) ((j - 2) / 8) on 0,
  length-set sack.bitmask ((i - 2) / 8) on,
  test_bit-or ((j - 2) % 8) (get_or sack.bitmask ((i - 2) / 8) 0) (2 ^ ((i - 2) % 8)),
  test_bit-pow ((i - 2) % 8) ((j - 2) % 8),
)
  where
    on : ℕ
    on = bit_or (get_or sack.bitmask ((i - 2) / 8) 0) (2 ^ ((i - 2) % 8))
