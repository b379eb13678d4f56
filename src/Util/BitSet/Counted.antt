-- ===== src/Util/BitSet/Counted.antt =====
-- The representation invariant of a bit set, kept by every operation: `num_on` is the exact number of
-- bits that are on.
use libktorrent_stream.Base.{
  true, ℕ, ◌-◌, ◌/◌, ◌%◌, ◌^◌, ◌≤◌, ◌<◌, ◌≡◌, refl, sym, ◌∙◌, ap, Bool, not, ◌&&◌, inl, inr, arith,
  ltb, ltb→lt, all_below, all_below_sound, ◌==◌, if◌then◌else◌, get_or, length, All, Bool-cases,
  bit_and, bit_or, count, count-le, count_change, length-set, All-set, All-get_or, or-lt, and-le,
}
use libktorrent_stream.Util.BitSet.{BitSet, bytes_for, get, set, increased, decreased}
use libktorrent_stream.Util.BitSet.Bits.{get-raw_bit, raw_bit_on, raw_bit_off}

pub record IsValid (s : BitSet) : Type 0 where
  pub small : s.num_bits < 2 ^ 32
  pub sized : s.num_bytes ≡ bytes_for s.num_bits
  pub stored : length s.bytes ≡ s.num_bytes
  pub are_bytes : All (λ b. b < 256) s.bytes
  pub counted : s.num_on ≡ count (get s) s.num_bits

-- A bit that exists stands in the storage.
pub in_storage : (s : BitSet) (i : ℕ) → IsValid s → i < s.num_bits → i / 8 < length s.bytes
in_storage s i v h = ground arith

-- `set` changes the bit that it is given, if it exists, and no other.
pub get-set :
    (s : BitSet) (i j : ℕ) (on : Bool)
    → IsValid s
    → get (set s i on) j ≡ (if j == i && ltb i s.num_bits then on else get s j)
unfolding set
get-set s i j on v = ground (
  arith,
  in_storage s i v,
  get-raw_bit s i,
  get-raw_bit s j,
  get-raw_bit (set s i on) j,
  raw_bit_on s.bytes i j,
  raw_bit_off s.bytes i j,
)

-- The fields of the invariant that `set` leaves alone.
pub set-shape :
    (s : BitSet) (i : ℕ) (on : Bool)
    → ((set s i on).num_bits ≡ s.num_bits)
      × ((set s i on).num_bytes ≡ s.num_bytes)
      × (length (set s i on).bytes ≡ length s.bytes)
unfolding set
set-shape s i on = ground (
  arith,
  length-set s.bytes (i / 8) (bit_or (get_or s.bytes (i / 8) 0) (2 ^ (7 - i % 8))),
  length-set s.bytes (i / 8) (bit_and (get_or s.bytes (i / 8) 0) (255 - 2 ^ (7 - i % 8))),
)

mask-lt : (k : ℕ) → k < 8 → 2 ^ k < 256
unfolding all_below
mask-lt k h = (ltb→lt _ _ (all_below_sound 8 (λ j. ltb (2 ^ j) 256) k refl h))

set-are_bytes :
    (s : BitSet) (i : ℕ) (on : Bool)
    → All (λ b. b < 256) s.bytes
    → All (λ b. b < 256) (set s i on).bytes
unfolding set
set-are_bytes s i on a = ground (
  arith,
  All-get_or (λ b. b < 256) s.bytes (i / 8) 0,
  All-set (λ b. b < 256) s.bytes (i / 8) (bit_or (get_or s.bytes (i / 8) 0) (2 ^ (7 - i % 8))),
  All-set (λ b. b < 256) s.bytes (i / 8)
      (bit_and (get_or s.bytes (i / 8) 0) (255 - 2 ^ (7 - i % 8))),
  or-lt 8 (get_or s.bytes (i / 8) 0) (2 ^ (7 - i % 8)),
  mask-lt (7 - i % 8),
  and-le (get_or s.bytes (i / 8) 0) (255 - 2 ^ (7 - i % 8)),
)

set_outside : (s : BitSet) (i : ℕ) (on : Bool) → s.num_bits ≤ i → set s i on ≡ s
unfolding set
set_outside s i on h = ground arith

set-num_on :
    (s : BitSet) (i : ℕ) (on : Bool)
    → i < s.num_bits
    → (set s i on).num_on ≡ (
        if on && not (get s i)
        then increased s.num_on
        else if not on && get s i
        then decreased s.num_on
        else s.num_on)
unfolding set
set-num_on s i on h = ground arith

set-counted :
    (s : BitSet) (i : ℕ) (on : Bool)
    → IsValid s
    → (set s i on).num_on ≡ count (get (set s i on)) s.num_bits
set-counted s i on v = elim (Bool-cases (ltb i s.num_bits)) [
  | inl inside ↦ ground (
    arith,
    set-num_on s i on,
    get-set s i i on v,
    count-le (get s) s.num_bits,
    count-le (get (set s i on)) s.num_bits,
    count_change (get s) (get (set s i on)) i s.num_bits (ltb→lt _ _ inside)
        (λ k other. ground (arith, get-set s i k on v)),
  )
  | inr outside ↦ rw (set_outside s i on (ground arith)) v.counted
]

-- `set` keeps the invariant: whatever the bit was, the count stays exact, and it does not wrap.
pub set-IsValid : (s : BitSet) (i : ℕ) (on : Bool) → IsValid s → IsValid (set s i on)
set-IsValid s i on v = record {
  small = ground (arith, set-shape s i on);
  sized = ground (arith, set-shape s i on);
  stored = ground (arith, set-shape s i on);
  are_bytes = set-are_bytes s i on v.are_bytes;
  counted = set-counted s i on v ∙ ap (count (get (set s i on))) (sym (set-shape s i on).0);
}

-- Setting a bit that is on changes nothing.
pub set_same : (s : BitSet) (i : ℕ) → get s i ≡ true → set s i true ≡ s
unfolding set
set_same s i on = ground arith
