-- ===== src/Util/BitSet/Bits.antt =====
-- One bit of a set: what `get` reads, and what `set` changes.
use libktorrent_stream.Base.{
  ℕ, ◌-◌, ◌/◌, ◌%◌, ◌^◌, ◌<◌, ◌≡◌, refl, Bool, true, false, not, ◌&&◌, List, arith, ltb, ◌==◌,
  if◌then◌else◌, get_or, set as set_elem, length, get_or-set, test_bit, test_bit-or, test_bit-and,
  test_bit-pow, and-mask_ne, all_below, all_below_sound, bit_and, bit_or,
}
use libktorrent_stream.Util.BitSet.{BitSet, get}

-- Bit `i` of the storage, those past `num_bits` in the last byte included.
abbrev pub raw_bit : List ℕ → ℕ → Bool
raw_bit bytes i = test_bit (get_or bytes (i / 8) 0) (7 - i % 8)

pub get-raw_bit : (s : BitSet) (i : ℕ) → get s i ≡ (ltb i s.num_bits && raw_bit s.bytes i)
unfolding get
get-raw_bit s i = ground (arith, and-mask_ne (7 - i % 8) (get_or s.bytes (i / 8) 0))

clear_table :
    all_below 8
      (λ k. all_below 8 (λ j. if test_bit (255 - 2 ^ k) j then not (j == k) else (j == k)))
    ≡ true
unfolding all_below
clear_table = refl

-- The mask `~(1 << k)` of a byte has every bit but `k`.
clear_mask : (k j : ℕ) → k < 8 → j < 8 → test_bit (255 - 2 ^ k) j ≡ not (j == k)
clear_mask k j hk hj =
    ground (arith, all_below_sound 8 _ j (all_below_sound 8 _ k clear_table hk) hj)

raw_bit-set_elem :
    (bytes : List ℕ) (i j v : ℕ)
    → i / 8 < length bytes
    → raw_bit (set_elem bytes (i / 8) v) j
      ≡ (if j / 8 == i / 8 then test_bit v (7 - j % 8) else raw_bit bytes j)
raw_bit-set_elem bytes i j v h = rw (get_or-set bytes (i / 8) (j / 8) v 0 h) (ground arith)

same_place : (i j : ℕ) → (j == i) ≡ (if j / 8 == i / 8 then (7 - j % 8) == (7 - i % 8) else false)
same_place i j = ground arith

-- Storing a byte with bit `i` put on changes that bit alone.
pub raw_bit_on :
    (bytes : List ℕ) (i j : ℕ)
    → i / 8 < length bytes
    → raw_bit (set_elem bytes (i / 8) (bit_or (get_or bytes (i / 8) 0) (2 ^ (7 - i % 8)))) j
      ≡ (if j == i then true else raw_bit bytes j)
raw_bit_on bytes i j h = ground (
  arith,
  raw_bit-set_elem bytes i j (bit_or (get_or bytes (i / 8) 0) (2 ^ (7 - i % 8))),
  test_bit-or (7 - j % 8) (get_or bytes (i / 8) 0) (2 ^ (7 - i % 8)),
  test_bit-pow (7 - i % 8) (7 - j % 8),
  same_place i j,
)

pub raw_bit_off :
    (bytes : List ℕ) (i j : ℕ)
    → i / 8 < length bytes
    → raw_bit (set_elem bytes (i / 8) (bit_and (get_or bytes (i / 8) 0) (255 - 2 ^ (7 - i % 8)))) j
      ≡ (if j == i then false else raw_bit bytes j)
raw_bit_off bytes i j h = ground (
  arith,
  raw_bit-set_elem bytes i j (bit_and (get_or bytes (i / 8) 0) (255 - 2 ^ (7 - i % 8))),
  test_bit-and (7 - j % 8) (get_or bytes (i / 8) 0) (255 - 2 ^ (7 - i % 8)),
  clear_mask (7 - i % 8) (7 - j % 8),
  same_place i j,
)
