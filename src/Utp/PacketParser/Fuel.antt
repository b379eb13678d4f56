-- ===== src/Utp/PacketParser/Fuel.antt =====
-- The loop over the extensions ends before its fuel does: more fuel than there are bytes left changes
-- nothing.
use libktorrent_stream.Base.{
  ℕ, zero, suc, ◌+◌, ◌^◌, ◌≤◌, ◌<◌, ◌≡◌, refl, Option, List, ltb, ◌==◌, if◌then◌else◌, length,
  arith, Bool-cases, inl, inr, All, All-get_or, ltb→lt, some,
}
use libktorrent_stream.Util.Words.{add32, byte_at}
use libktorrent_stream.Utp.SelectiveAck.{SelectiveAck}
use libktorrent_stream.Utp.PacketParser.{parse_extensions, sack_at}

-- Two amounts of fuel that cover the bytes left give the same.
enough_lem :
    (fuel fuel' : ℕ) (packet : List ℕ) (ext_id off : ℕ) (sack : Option SelectiveAck)
    → All (λ b. b < 256) packet
    → length packet < 2 ^ 31
    → length packet ≤ off + fuel
    → length packet ≤ off + fuel'
    → parse_extensions fuel packet ext_id off sack ≡ parse_extensions fuel' packet ext_id off sack
unfolding parse_extensions
enough_lem zero zero packet ext_id off sack a small h h' = refl
enough_lem zero (suc fuel') packet ext_id off sack a small h h' = ground arith
enough_lem (suc fuel) zero packet ext_id off sack a small h h' = ground arith
enough_lem (suc fuel) (suc fuel') packet ext_id off sack a small h h' =
    elim (Bool-cases (ltb off (length packet))) [
      | inl more ↦ ground (
        arith,
        enough_lem fuel fuel' packet (byte_at packet off) (add32 off (2 + byte_at packet (off + 1)))
            (if ext_id == 1 then some (sack_at packet off) else sack) a small
            (further fuel (ltb→lt off (length packet) more) h)
            (further fuel' (ltb→lt off (length packet) more) h'),
      )
      | inr ended ↦ ground arith
    ]
  where
    len : byte_at packet (off + 1) < 256
    len = All-get_or (λ b. b < 256) packet (off + 1) 0 (omega arith) a

    further :
        (f : ℕ)
        → off < length packet
        → length packet ≤ off + suc f
        → length packet ≤ add32 off (2 + byte_at packet (off + 1)) + f
    further f lt room = omega (arith, len)
