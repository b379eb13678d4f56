-- ===== src/Util/Words/Tests.antt =====
-- Runs of the word accesses, and their round trip at a buffer.
use libktorrent_stream.Base.{ℕ, ◌≡◌, refl, List, [], ◌∷◌}
use libktorrent_stream.Util.Words.{read_uint16, write_uint32}

abbrev buffer : List ℕ
buffer = 1 ∷ 2 ∷ 3 ∷ 4 ∷ 5 ∷ 6 ∷ []

write_uint32_runs : write_uint32 buffer 1 0xA1B2C3D4 ≡ 1 ∷ 0xA1 ∷ 0xB2 ∷ 0xC3 ∷ 0xD4 ∷ 6 ∷ []
unfolding write_uint32
write_uint32_runs = refl

read_uint16_runs : read_uint16 buffer 2 ≡ 0x0304
unfolding read_uint16
read_uint16_runs = refl
