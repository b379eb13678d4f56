-- ===== src/Util/Words.antt =====
-- Machine words: the wrapping sum of `Uint32`, and the big-endian reads and writes of src/util/functions.h. An access past the end of the buffer reads
-- 0 and writes nothing; the laws say where that cannot happen.
mod Tests
pub mod Laws
pub mod Prefix
use libktorrent_stream.Base.{ℕ, ◌+◌, ◌*◌, ◌/◌, ◌%◌, ◌^◌, bit_and, bit_or, List, get_or, set}

-- `Uint32` addition
abbrev pub add32 : ℕ → ℕ → ℕ
add32 a b = (a + b) % 2 ^ 32

-- `buf[off]`
abbrev pub byte_at : List ℕ → ℕ → ℕ
byte_at buf off = get_or buf off 0

unfoldable pub write_uint32 : List ℕ → ℕ → ℕ → List ℕ
write_uint32 buf off val =
    let buf0 : List ℕ = set buf (off + 0) (bit_and val 0xFF000000 / 2 ^ 24) in
    let buf1 : List ℕ = set buf0 (off + 1) (bit_and val 0x00FF0000 / 2 ^ 16) in
    let buf2 : List ℕ = set buf1 (off + 2) (bit_and val 0x0000FF00 / 2 ^ 8) in
    set buf2 (off + 3) (bit_and val 0x000000FF)

unfoldable pub read_uint32 : List ℕ → ℕ → ℕ
read_uint32 buf off =
    bit_or
      (bit_or (bit_or (byte_at buf off * 2 ^ 24) (byte_at buf (off + 1) * 2 ^ 16))
        (byte_at buf (off + 2) * 2 ^ 8))
      (byte_at buf (off + 3))

unfoldable pub write_uint16 : List ℕ → ℕ → ℕ → List ℕ
write_uint16 buf off val =
    let buf0 : List ℕ = set buf (off + 0) (bit_and val 0xFF00 / 2 ^ 8) in
    set buf0 (off + 1) (bit_and val 0x000FF)

unfoldable pub read_uint16 : List ℕ → ℕ → ℕ
read_uint16 buf off = bit_or (byte_at buf off * 2 ^ 8) (byte_at buf (off + 1))
