-- ===== src/Util/BitSet.antt =====
-- src/util/bitset.h and src/util/bitset.cpp. The storage is a list of bytes, the first bit of a byte
-- its highest. A method that changes the set returns the new one; `Uint32` sums wrap.
mod Tests
pub mod Bits
pub mod Counted
pub mod Progress
pub mod Loops
pub mod Bytewise
pub mod Clean
pub mod Merge
use libktorrent_stream.Base.{
  ℕ, zero, suc, ◌+◌, ◌-◌, ◌/◌, ◌%◌, ◌^◌, bit_and, bit_or, Bool, true, false, not, ◌&&◌, List, [],
  ◌∷◌, ltb, leb, ◌==◌, if◌then◌else◌, get_or, set as set_elem, take, replicate, for_up,
}

pub record BitSet : Type 0 where
  pub num_bits : ℕ
  pub num_bytes : ℕ
  pub bytes : List ℕ
  pub num_on : ℕ

-- The bytes that so many bits take.
abbrev pub bytes_for : ℕ → ℕ
bytes_for n = n / 8 + (if ltb 0 (n % 8) then 1 else 0)

-- `BitSet(num_bits)`
pub create : ℕ → BitSet
create n = record {
  num_bits = n;
  num_bytes = bytes_for n;
  bytes = replicate (bytes_for n) 0;
  num_on = 0;
}

unfoldable pub get : BitSet → ℕ → Bool
get s i =
    if leb s.num_bits i
    then false
    else if bit_and (get_or s.bytes (i / 8) 0) (2 ^ (7 - i % 8)) == 0
    then false
    else true

-- `num_on++` and `num_on--`
abbrev pub increased : ℕ → ℕ
increased n = (n + 1) % 2 ^ 32

abbrev pub decreased : ℕ → ℕ
decreased n = (n + 2 ^ 32 - 1) % 2 ^ 32

unfoldable pub set : BitSet → ℕ → Bool → BitSet
set s i on =
    if leb s.num_bits i
    then s
    else if on && not (get s i)
    then record s {
      num_on = increased s.num_on;
      bytes = set_elem s.bytes (i / 8) (bit_or (get_or s.bytes (i / 8) 0) (2 ^ (7 - i % 8)));
    }
    else if not on && get s i
    then record s {
      num_on = decreased s.num_on;
      bytes = set_elem s.bytes (i / 8) (bit_and (get_or s.bytes (i / 8) 0) (255 - 2 ^ (7 - i % 8)));
    }
    else s

-- `BitSet(d, num_bits)`: the bytes are copied, then the bits that are on are counted.
pub from_data : List ℕ → ℕ → BitSet
from_data d n =
    for_up n 0 (λ i s. if get s i then record s { num_on = increased s.num_on } else s)
      (record { num_bits = n; num_bytes = bytes_for n; bytes = take (bytes_for n) d; num_on = 0 })

pub set_all : BitSet → Bool → BitSet
set_all s on = record s {
  bytes = replicate s.num_bytes (if on then 255 else 0);
  num_on = if on then s.num_bits else 0;
}

pub clear : BitSet → BitSet
clear s = set_all s false

pub invert : BitSet → BitSet
invert s = for_up s.num_bits 0 (λ i t. set t i (not (get t i))) s

-- `operator -=`
pub subtract : BitSet → BitSet → BitSet
subtract s bs = for_up s.num_bits 0 (λ i t. if get t i && get bs i then set t i false else t) s

includes_from : BitSet → BitSet → ℕ → ℕ → Bool
includes_from s other zero i = true
includes_from s other (suc n) i =
    let rest = includes_from s other n (i + 1) in
    if get other i && not (get s i) then false else rest

pub includes : BitSet → BitSet → Bool
unfolding includes_from
includes s other = includes_from s other s.num_bits 0

pub all_on : BitSet → Bool
all_on s = s.num_on == s.num_bits

bit_count_table : List ℕ
bit_count_table =
    0 ∷ 1 ∷ 1 ∷ 2 ∷ 1 ∷ 2 ∷ 2 ∷ 3 ∷ 1 ∷ 2 ∷ 2 ∷ 3 ∷ 2 ∷ 3 ∷ 3 ∷ 4 ∷ 1 ∷ 2 ∷ 2 ∷ 3 ∷ 2 ∷ 3 ∷ 3 ∷ 4
    ∷ 2 ∷ 3 ∷ 3 ∷ 4 ∷ 3 ∷ 4 ∷ 4 ∷ 5 ∷ 1 ∷ 2 ∷ 2 ∷ 3 ∷ 2 ∷ 3 ∷ 3 ∷ 4 ∷ 2 ∷ 3 ∷ 3 ∷ 4 ∷ 3 ∷ 4 ∷ 4 ∷ 5
    ∷ 2 ∷ 3 ∷ 3 ∷ 4 ∷ 3 ∷ 4 ∷ 4 ∷ 5 ∷ 3 ∷ 4 ∷ 4 ∷ 5 ∷ 4 ∷ 5 ∷ 5 ∷ 6 ∷ 1 ∷ 2 ∷ 2 ∷ 3 ∷ 2 ∷ 3 ∷ 3 ∷ 4
    ∷ 2 ∷ 3 ∷ 3 ∷ 4 ∷ 3 ∷ 4 ∷ 4 ∷ 5 ∷ 2 ∷ 3 ∷ 3 ∷ 4 ∷ 3 ∷ 4 ∷ 4 ∷ 5 ∷ 3 ∷ 4 ∷ 4 ∷ 5 ∷ 4 ∷ 5 ∷ 5 ∷ 6
    ∷ 2 ∷ 3 ∷ 3 ∷ 4 ∷ 3 ∷ 4 ∷ 4 ∷ 5 ∷ 3 ∷ 4 ∷ 4 ∷ 5 ∷ 4 ∷ 5 ∷ 5 ∷ 6 ∷ 3 ∷ 4 ∷ 4 ∷ 5 ∷ 4 ∷ 5 ∷ 5 ∷ 6
    ∷ 4 ∷ 5 ∷ 5 ∷ 6 ∷ 5 ∷ 6 ∷ 6 ∷ 7 ∷ 1 ∷ 2 ∷ 2 ∷ 3 ∷ 2 ∷ 3 ∷ 3 ∷ 4 ∷ 2 ∷ 3 ∷ 3 ∷ 4 ∷ 3 ∷ 4 ∷ 4 ∷ 5
    ∷ 2 ∷ 3 ∷ 3 ∷ 4 ∷ 3 ∷ 4 ∷ 4 ∷ 5 ∷ 3 ∷ 4 ∷ 4 ∷ 5 ∷ 4 ∷ 5 ∷ 5 ∷ 6 ∷ 2 ∷ 3 ∷ 3 ∷ 4 ∷ 3 ∷ 4 ∷ 4 ∷ 5
    ∷ 3 ∷ 4 ∷ 4 ∷ 5 ∷ 4 ∷ 5 ∷ 5 ∷ 6 ∷ 3 ∷ 4 ∷ 4 ∷ 5 ∷ 4 ∷ 5 ∷ 5 ∷ 6 ∷ 4 ∷ 5 ∷ 5 ∷ 6 ∷ 5 ∷ 6 ∷ 6 ∷ 7
    ∷ 2 ∷ 3 ∷ 3 ∷ 4 ∷ 3 ∷ 4 ∷ 4 ∷ 5 ∷ 3 ∷ 4 ∷ 4 ∷ 5 ∷ 4 ∷ 5 ∷ 5 ∷ 6 ∷ 3 ∷ 4 ∷ 4 ∷ 5 ∷ 4 ∷ 5 ∷ 5 ∷ 6
    ∷ 4 ∷ 5 ∷ 5 ∷ 6 ∷ 5 ∷ 6 ∷ 6 ∷ 7 ∷ 3 ∷ 4 ∷ 4 ∷ 5 ∷ 4 ∷ 5 ∷ 5 ∷ 6 ∷ 4 ∷ 5 ∷ 5 ∷ 6 ∷ 5 ∷ 6 ∷ 6 ∷ 7
    ∷ 4 ∷ 5 ∷ 5 ∷ 6 ∷ 5 ∷ 6 ∷ 6 ∷ 7 ∷ 5 ∷ 6 ∷ 6 ∷ 7 ∷ 6 ∷ 7 ∷ 7 ∷ 8 ∷ []

-- `BitCount[b]`
pub bit_count : ℕ → ℕ
unfolding bit_count_table
bit_count b = get_or bit_count_table b 0

-- The byte of another set at an index, 0 past its end.
abbrev pub other_byte : BitSet → ℕ → ℕ
other_byte other i = if ltb i other.num_bytes then get_or other.bytes i 0 else 0

-- One round of a loop over the bytes: byte `i` becomes `v`, and its bits are counted.
abbrev pub store_byte : BitSet → ℕ → ℕ → BitSet
store_byte s i v = record s {
  bytes = set_elem s.bytes i v;
  num_on = (s.num_on + bit_count v) % 2 ^ 32;
}

pub or_bit_set : BitSet → BitSet → BitSet
or_bit_set s other =
    for_up s.num_bytes 0 (λ i t. store_byte t i (bit_or (get_or t.bytes i 0) (other_byte other i)))
      (record s { num_on = 0 })

pub and_bit_set : BitSet → BitSet → BitSet
and_bit_set s other =
    for_up s.num_bytes 0 (λ i t. store_byte t i (bit_and (get_or t.bytes i 0) (other_byte other i)))
      (record s { num_on = 0 })

pub update_num_on_bits : BitSet → BitSet
update_num_on_bits s =
    for_up s.num_bytes 0
      (λ i t. record t { num_on = (t.num_on + bit_count (get_or t.bytes i 0)) % 2 ^ 32 })
      (record s { num_on = 0 })

-- `memcmp` of so many bytes
same_bytes : ℕ → List ℕ → List ℕ → Bool
same_bytes zero xs ys = true
same_bytes (suc n) [] ys = true
same_bytes (suc n) (x ∷ xs) [] = true
same_bytes (suc n) (x ∷ xs) (y ∷ ys) = x == y && same_bytes n xs ys

-- `operator ==`
pub equals : BitSet → BitSet → Bool
unfolding same_bytes
equals s bs =
    if not (s.num_bits == bs.num_bits) then false else same_bytes s.num_bytes s.bytes bs.bytes
