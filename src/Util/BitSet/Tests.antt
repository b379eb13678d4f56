-- ===== src/Util/BitSet/Tests.antt =====
-- Runs of the bit set, and its theorems at concrete sets.
use libktorrent_stream.Base.{
  ℕ, ◌+◌, ◌<◌, ◌≡◌, refl, true, false, ◌&&◌, ◌||◌, [], ◌∷◌, arith, for_up, all_below, ◌↔◌,
}
use libktorrent_stream.Util.BitSet.{
  BitSet, create, get, set, from_data, set_all, clear, invert, subtract, includes, all_on,
  or_bit_set, and_bit_set, equals, bit_count,
}
use libktorrent_stream.Util.BitSet.Counted.{IsValid, get-set, set-IsValid}
use libktorrent_stream.Util.BitSet.Loops.{invert_lem, includes_iff}
use libktorrent_stream.Util.BitSet.Clean.{IsClean}
use libktorrent_stream.Util.BitSet.Merge.{
  IsClean-check, or_bit_set_lem, and_bit_set_lem, or_bit_set_miscounts,
}

-- 10 bits: 1, 3 and 9 are on.
abbrev some_on : BitSet
some_on = record { num_bits = 10; num_bytes = 2; bytes = 0x50 ∷ 0x40 ∷ []; num_on = 3 }

abbrev low_on : BitSet
low_on = record { num_bits = 9; num_bytes = 2; bytes = 0xC0 ∷ 0 ∷ []; num_on = 2 }

some_on-IsValid : IsValid some_on
unfolding get
some_on-IsValid = omega arith

low_on-IsValid : IsValid low_on
unfolding get
low_on-IsValid = omega arith

from_data_runs : from_data (0x50 ∷ 0x40 ∷ []) 10 ≡ some_on
unfolding from_data get for_up
from_data_runs = refl

set_runs : set (set (set (create 10) 1 true) 3 true) 9 true ≡ some_on
unfolding set create get
set_runs = refl

clear_runs : (clear some_on).num_on ≡ 0
unfolding clear set_all
clear_runs = refl

equals_runs : equals some_on low_on ≡ false
unfolding equals
equals_runs = refl

subtract_runs : (subtract some_on low_on).bytes ≡ 0x10 ∷ 0x40 ∷ []
unfolding subtract get set for_up
subtract_runs = refl

or_bit_set_runs :
    or_bit_set some_on low_on ≡ record some_on { bytes = 0xD0 ∷ 0x40 ∷ []; num_on = 4 }
unfolding or_bit_set for_up bit_count
or_bit_set_runs = refl

-- A full set of nine bits counts sixteen after it is merged with an empty one.
full_miscounted : (or_bit_set (set_all (create 9) true) (create 9)).num_on ≡ 16
unfolding or_bit_set for_up bit_count set_all create
full_miscounted = refl

get-set_example : get (set some_on 2 true) 2 ≡ true
get-set_example = get-set some_on 2 2 true some_on-IsValid

set-IsValid_example : IsValid (set some_on 3 false)
set-IsValid_example = set-IsValid some_on 3 false some_on-IsValid

invert_lem_example : (invert some_on).num_on + 3 ≡ 10
invert_lem_example = (invert_lem some_on some_on-IsValid).2

some_on-IsClean : IsClean some_on
unfolding all_below
some_on-IsClean = IsClean-check some_on refl

low_on-IsClean : IsClean low_on
unfolding all_below
low_on-IsClean = IsClean-check low_on refl

includes_iff_example :
    (includes some_on low_on ≡ true)
    ↔ ((j : ℕ) → j < 10 → get low_on j ≡ true → get some_on j ≡ true)
includes_iff_example = includes_iff some_on low_on

or_bit_set_lem_example :
    IsValid (or_bit_set some_on low_on)
    × IsClean (or_bit_set some_on low_on)
    × ((i : ℕ) → get (or_bit_set some_on low_on) i ≡ (get some_on i || get low_on i))
or_bit_set_lem_example =
    or_bit_set_lem some_on low_on some_on-IsValid low_on-IsValid some_on-IsClean low_on-IsClean
      (omega arith)

or_bit_set_miscounts_example : all_on (or_bit_set (set_all some_on true) low_on) ≡ false
or_bit_set_miscounts_example =
    (or_bit_set_miscounts some_on low_on some_on-IsValid low_on-IsValid (omega arith)).0

and_bit_set_lem_example :
    IsValid (and_bit_set some_on low_on)
    × IsClean (and_bit_set some_on low_on)
    × ((i : ℕ) → get (and_bit_set some_on low_on) i ≡ (get some_on i && get low_on i))
and_bit_set_lem_example =
    and_bit_set_lem some_on low_on some_on-IsValid low_on-IsValid some_on-IsClean low_on-IsClean
