-- ===== src/Utp/SelectiveAck/Mask/Tests.antt =====
-- The theorem on masks at a mask of two bytes.
use libktorrent_stream.Base.{◌≡◌, refl, true, [], ◌∷◌, arith}
use libktorrent_stream.Utp.SelectiveAck.{SelectiveAck, acked, ack}
use libktorrent_stream.Utp.SelectiveAck.Mask.{acked-ack}

abbrev two_bytes : SelectiveAck
two_bytes = record { extension = 0; length = 2; bitmask = 8 ∷ 1 ∷ [] }

acked_runs : acked two_bytes 5 ≡ true
unfolding acked
acked_runs = refl

acked-ack_example : acked (ack two_bytes 16) 16 ≡ true
unfolding acked
acked-ack_example = (acked-ack two_bytes 16 16 (omega arith)).0
