-- ===== src/Util/BitSet/Loops.antt =====
-- The operations of bitset.cpp that go over the bits one by one: `invert`, `-=`, `includesBitSet`,
-- `allOn` and the constructors.
use libktorrent_stream.Base.{
  ℕ, zero, suc, ◌+◌, ◌-◌, ◌/◌, ◌%◌, ◌^◌, ◌≤◌, ◌<◌, ◌≡◌, ◌↔◌, refl, sym, ◌∙◌, ap, Bool, true, false,
  not, ◌&&◌, List, inl, inr, arith, ltb, ◌==◌, if◌then◌else◌, length, All, Bool-cases, take,
  length-take, count, count-le, count-eq, count_complement, test_bit, test_bit-zero, all_below,
  all_below_sound, All-take, get_or-take, count_all, count_full, count_none, for_up_inv,
  length-replicate, All-replicate, get_or-replicate,
}
use libktorrent_stream.Util.BitSet.{
  BitSet, bytes_for, get, set, invert, subtract, includes, includes_from, all_on, from_data,
  set_all,
}
use libktorrent_stream.Util.BitSet.Bits.{raw_bit, get-raw_bit}
use libktorrent_stream.Util.BitSet.Counted.{IsValid}
use libktorrent_stream.Util.BitSet.Progress.{Progress, get_beyond, run_loop, put_round, keep_round}

invert-Progress : (s : BitSet) → IsValid s → Progress s (λ j. not (get s j)) s.num_bits (invert s)
unfolding invert
invert-Progress s v =
    run_loop s (λ j. not (get s j)) _
      (λ k t lt p. put_round s _ k t (not (get t k)) lt (ground (arith, p.bits k)) p) v

-- `invert` turns every bit that exists, and keeps the count of the bits that are on exact.
pub invert_lem :
    (s : BitSet)
    → IsValid s
    → IsValid (invert s)
      × ((j : ℕ) → get (invert s) j ≡ (ltb j s.num_bits && not (get s j)))
      × ((invert s).num_on + s.num_on ≡ s.num_bits)
invert_lem s v =
    (p.valid, λ j. ground (arith, p.bits j, get_beyond (invert s) j, ap (ltb j) p.same_size), exact)
  where
    p : Progress s (λ j. not (get s j)) s.num_bits (invert s)
    p = invert-Progress s v

    turned : (j : ℕ) → j < s.num_bits → get (invert s) j ≡ not (get s j)
    turned j lt = ground (arith, p.bits j)

    exact : (invert s).num_on + s.num_on ≡ s.num_bits
    exact = omega (
      arith,
      p.valid.counted,
      ap (count (get (invert s))) p.same_size,
      v.counted,
      count_complement (get s) (get (invert s)) s.num_bits turned,
    )

-- `s -= bs` keeps the bits of `s` that are not in `bs`.
pub subtract_lem :
    (s bs : BitSet)
    → IsValid s
    → IsValid (subtract s bs) × ((j : ℕ) → get (subtract s bs) j ≡ (get s j && not (get bs j)))
unfolding subtract
subtract_lem s bs v = (p.valid, λ j. ground (arith, p.bits j, get_beyond s j))
  where
    left : ℕ → Bool
    left j = get s j && not (get bs j)

    round :
        (k : ℕ) (t : BitSet)
        → k < s.num_bits
        → Progress s left k t
        → Progress s left (k + 1) (if get t k && get bs k then set t k false else t)
    round k t lt q = elim (Bool-cases (get t k && get bs k)) [
      | inl both ↦ rw both (put_round s left k t false lt (ground (arith, q.bits k)) q)
      | inr not_both ↦ rw not_both (keep_round s left k t (ground (arith, q.bits k)) q)
    ]

    p : Progress s left s.num_bits (subtract s bs)
    p = run_loop s left _ round v

includes_from_sound :
    (s other : BitSet) (n i : ℕ)
    → includes_from s other n i ≡ true
    → (j : ℕ) → i ≤ j
    → j < i + n
    → get other j ≡ true
    → get s j ≡ true
unfolding includes_from
includes_from_sound s other zero i h j le lt on = absurd (omega arith)
includes_from_sound s other (suc n) i h j le lt on = elim (Bool-cases (j == i)) [
  | inl here ↦ ground (arith, ap (get s) {x = j} {y = i}, ap (get other) {x = j} {y = i})
  | inr later ↦
      includes_from_sound s other n (i + 1) (ground arith) j (ground arith) (omega arith) on
]

includes_from_complete :
    (s other : BitSet) (n i : ℕ)
    → ((j : ℕ) → i ≤ j → j < i + n → get other j ≡ true → get s j ≡ true)
    → includes_from s other n i ≡ true
unfolding includes_from
includes_from_complete s other zero i h = refl
includes_from_complete s other (suc n) i h = ground (
  arith,
  h i (omega arith) (omega arith),
  includes_from_complete s other n (i + 1) (λ j le lt. h j (omega arith) (omega arith)),
)

-- `includesBitSet` decides whether every bit of the other set that has a place in this one is on here.
pub includes_iff :
    (s other : BitSet)
    → (includes s other ≡ true) ↔ ((j : ℕ) → j < s.num_bits → get other j ≡ true → get s j ≡ true)
unfolding includes
includes_iff s other = (
  λ h j lt. includes_from_sound s other s.num_bits 0 h j (omega arith) (omega arith),
  λ h. includes_from_complete s other s.num_bits 0 (λ j le lt. h j (omega arith)),
)

-- `allOn` holds exactly when every bit is on.
pub all_on_iff :
    (s : BitSet) → IsValid s → (all_on s ≡ true) ↔ ((j : ℕ) → j < s.num_bits → get s j ≡ true)
unfolding all_on
all_on_iff s v = (
  λ h j. count_all (get s) s.num_bits j (ground (arith, v.counted)),
  λ h. ground (arith, v.counted, count_full (get s) s.num_bits h),
)

pub fill_bit : (on : Bool) (k : ℕ) → k < 8 → test_bit (if on then 255 else 0) k ≡ on
unfolding all_below
fill_bit true k h = all_below_sound 8 (test_bit 255) k refl h
fill_bit false k h = test_bit-zero k

-- `setAll` and `clear` put every bit that exists at one value, with an exact count.
pub set_all_lem :
    (s : BitSet) (on : Bool)
    → IsValid s
    → IsValid (set_all s on) × ((j : ℕ) → get (set_all s on) j ≡ (ltb j s.num_bits && on))
unfolding set_all
set_all_lem s on v = (
  record {
    small = v.small;
    sized = v.sized;
    stored = length-replicate s.num_bytes _;
    are_bytes = All-replicate (λ b. b < 256) s.num_bytes _ (ground arith);
    counted = counted on bits;
  },
  λ j. ground (arith, bits j, get_beyond (set_all s on) j),
)
  where
    bits : (j : ℕ) → j < s.num_bits → get (set_all s on) j ≡ on
    bits j lt = ground (
      arith,
      get-raw_bit (set_all s on) j,
      get_or-replicate {A = ℕ} s.num_bytes (j / 8) (if on then 255 else 0) 0,
      v.sized,
      fill_bit on (7 - j % 8),
    )

    counted :
        (b : Bool)
        → ((j : ℕ) → j < s.num_bits → get (set_all s on) j ≡ b)
        → (if b then s.num_bits else 0) ≡ count (get (set_all s on)) s.num_bits
    counted true h = sym (count_full _ s.num_bits h)
    counted false h = sym (count_none _ s.num_bits h)

-- `get` reads the size and the bytes alone.
get_same : (s t : BitSet) (j : ℕ) → s.num_bits ≡ t.num_bits → s.bytes ≡ t.bytes → get s j ≡ get t j
get_same s t j e b =
    ground (arith, get-raw_bit s j, get-raw_bit t j, ap (λ (xs : List ℕ). raw_bit xs j) b)

-- The constructor from data counts the bits that are on in the bytes that it copies.
pub from_data_lem :
    (d : List ℕ) (n : ℕ)
    → n < 2 ^ 32
    → bytes_for n ≤ length d
    → All (λ b. b < 256) d
    → IsValid (from_data d n) × ((j : ℕ) → get (from_data d n) j ≡ (ltb j n && raw_bit d j))
unfolding from_data
from_data_lem d n small fits are = (
  record {
    small = rw (p.0) small;
    sized = rw (p.0, p.1) refl;
    stored = rw (p.1, p.2) (omega (arith, length-take (bytes_for n) d));
    are_bytes = rw (p.2) (All-take (λ b. b < 256) (bytes_for n) d are);
    counted = p.3 ∙ count-eq _ _ n (λ k lt. same k) ∙ ap (count (get (from_data d n))) (sym p.0);
  },
  λ j. ground (arith, same j, get-raw_bit copied j, get_or-take (bytes_for n) d (j / 8) 0),
)
  where
    copied : BitSet
    copied = record {
      num_bits = n;
      num_bytes = bytes_for n;
      bytes = take (bytes_for n) d;
      num_on = 0;
    }

    Counting : ℕ → BitSet → Type 0
    Counting k t =
        (t.num_bits ≡ n)
        × (t.num_bytes ≡ bytes_for n)
        × (t.bytes ≡ take (bytes_for n) d)
        × (t.num_on ≡ count (get copied) k)

    p : Counting n (from_data d n)
    p =
        for_up_inv Counting _ n 0 n copied (omega arith)
          (λ k t _ lt q. ground (arith, get_same t copied k, count-le (get copied) k))
          (refl, refl, refl, refl)

    same : (j : ℕ) → get copied j ≡ get (from_data d n) j
    same j = sym (get_same (from_data d n) copied j p.0 p.2)
