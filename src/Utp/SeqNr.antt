-- ===== src/Utp/SeqNr.antt =====
-- The comparisons of sequence numbers in src/utp/utpprotocol.h. A sequence number is a `Uint16`, and
-- `b - a` an `int`.
pub mod Order
use libktorrent_stream.Base.{ℕ, ◌+◌, ◌-◌, ◌%◌, ◌^◌, Bool, ltb, leb, if◌then◌else◌}

-- `qAbs(b - a)`
abbrev pub abs_difference : ℕ → ℕ → ℕ
abs_difference a b = if ltb a b then b - a else a - b

-- `SeqNrCmpSE`
unfoldable pub cmp_smaller_or_equal : ℕ → ℕ → Bool
cmp_smaller_or_equal a b = if ltb (abs_difference a b) 32768 then leb a b else ltb b a

-- `SeqNrCmpS`
unfoldable pub cmp_smaller : ℕ → ℕ → Bool
cmp_smaller a b = if ltb (abs_difference a b) 32768 then ltb a b else ltb b a

-- `SeqNrDiff`, which returns a `Uint16`
unfoldable pub diff : ℕ → ℕ → ℕ
diff a b =
    if ltb (abs_difference a b) 32768
    then (b + 2 ^ 16 - a) % 2 ^ 16
    else if ltb a b
    then (a + (65536 - b)) % 2 ^ 16
    else (b + (65536 - a)) % 2 ^ 16
