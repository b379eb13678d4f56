-- ===== src/Util/CircularBuffer/Tests.antt =====
-- Runs of the circular buffer, and its theorems at a buffer whose content goes round the end.
use libktorrent_stream.Base.{◌≡◌, refl, [], ◌∷◌, arith}
use libktorrent_stream.Util.CircularBuffer.{
  CircularBuffer, create, read, read_bytes, write, write_bytes, first_range, second_range,
}
use libktorrent_stream.Util.CircularBuffer.Content.{IsValid, contents}
use libktorrent_stream.Util.CircularBuffer.Read.{read_refines}
use libktorrent_stream.Util.CircularBuffer.Write.{write_refines}

-- It holds 7, 8 and 9.
abbrev wrapped : CircularBuffer
wrapped = record { bytes = 9 ∷ 1 ∷ 7 ∷ 8 ∷ []; buf_capacity = 4; start = 2; buf_size = 3 }

wrapped-IsValid : IsValid wrapped
wrapped-IsValid = omega arith

contents-wrapped : contents wrapped ≡ 7 ∷ 8 ∷ 9 ∷ []
unfolding contents
contents-wrapped = refl

read_wrapped : (read wrapped 10).0 ≡ 7 ∷ 8 ∷ 9 ∷ []
unfolding read read_bytes first_range second_range
read_wrapped = refl

write_full : (write wrapped (4 ∷ 5 ∷ []) 2).0 ≡ 1
unfolding write
write_full = refl

write_round : (write (create (0 ∷ 0 ∷ 0 ∷ []) 3) (4 ∷ 5 ∷ 6 ∷ 7 ∷ []) 4).1.bytes ≡ 4 ∷ 5 ∷ 6 ∷ []
unfolding write write_bytes create
write_round = refl

read_refines_example : (read wrapped 2).0 ≡ 7 ∷ 8 ∷ []
unfolding contents
read_refines_example = (read_refines wrapped 2 wrapped-IsValid).0

write_refines_example : contents (write wrapped (4 ∷ 5 ∷ []) 2).1 ≡ 7 ∷ 8 ∷ 9 ∷ 4 ∷ []
unfolding contents write
write_refines_example = (write_refines wrapped (4 ∷ 5 ∷ []) wrapped-IsValid).1
