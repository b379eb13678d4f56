-- ===== src/Util/BitSet/Bytewise.antt =====
-- The operations of bitset.cpp that go over the bytes: `orBitSet`, `andBitSet`, `updateNumOnBits` and
-- `operator ==`. They see the bits past `num_bits` in the last byte too.
use libktorrent_stream.Base.{
  ℕ, ◌+◌, ◌-◌, ◌*◌, ◌/◌, ◌%◌, ◌^◌, ◌<◌, ◌≡◌, refl, ◌∙◌, ap, Bool, arith, ltb, ◌==◌, ==_iff,
  if◌then◌else◌, length, get_or, test_bit, all_below, all_below_sound, count, count_append,
  length-set, get_or-set, count-eq, for_up, for_up_inv,
}
use libktorrent_stream.Util.BitSet.{BitSet, store_byte, bit_count}

-- The table entry of a byte is the number of its bits that are on.
bit_count-count : (b : ℕ) → b < 256 → bit_count b ≡ count (λ k. test_bit b (7 - k)) 8
unfolding bit_count all_below
bit_count-count b h =
    (==_iff _ _).0
      (all_below_sound 256 (λ b. bit_count b == count (λ k. test_bit b (7 - k)) 8) b refl h)

-- Bit `i` of a sequence of bytes given by a function.
abbrev pub bit_of : (ℕ → ℕ) → ℕ → Bool
bit_of val i = test_bit (val (i / 8)) (7 - i % 8)

-- One byte adds its table entry to the count of the bits before it.
pub count_byte :
    (val : ℕ → ℕ) (k : ℕ)
    → val k < 256
    → count (bit_of val) (8 * (k + 1)) ≡ count (bit_of val) (8 * k) + bit_count (val k)
count_byte val k h =
    rw (e, bit_count-count (val k) h, count_append (bit_of val) (8 * k) 8)
      (ap (λ (n : ℕ). count (bit_of val) (8 * k) + n) (count-eq _ _ 8 same))
  where
    e : 8 * (k + 1) ≡ 8 * k + 8
    e = omega arith

    same : (j : ℕ) → j < 8 → bit_of val (8 * k + j) ≡ test_bit (val k) (7 - j)
    same j lt =
        let byte : (8 * k + j) / 8 ≡ k = omega arith in
        let bit : (8 * k + j) % 8 ≡ j = omega arith in rw (byte, bit) refl

-- The state of a loop over the bytes of `s` before round `k`.
pub record Bytes (s : BitSet) (val : ℕ → ℕ) (k : ℕ) (t : BitSet) : Type 0 where
  pub same_bits : t.num_bits ≡ s.num_bits
  pub same_bytes : t.num_bytes ≡ s.num_bytes
  pub same_length : length t.bytes ≡ length s.bytes
  pub stored : (j : ℕ) → get_or t.bytes j 0 ≡ (if ltb j k then val j else get_or s.bytes j 0)
  pub counted : t.num_on ≡ count (bit_of val) (8 * k) % 2 ^ 32

-- A loop that stores `f i b` over byte `b` at index `i` in round `i`.
module _ (s : BitSet) (f : ℕ → ℕ → ℕ) (fits : length s.bytes ≡ s.num_bytes)
    (small : (j : ℕ) → f j (get_or s.bytes j 0) < 256) where
  abbrev pub stored_byte : ℕ → ℕ
  stored_byte j = f j (get_or s.bytes j 0)

  store_round :
      (k : ℕ) (t : BitSet)
      → k < s.num_bytes
      → Bytes s stored_byte k t
      → Bytes s stored_byte (k + 1) (store_byte t k (f k (get_or t.bytes k 0)))
  store_round k t lt b = record {
    same_bits = b.same_bits;
    same_bytes = b.same_bytes;
    same_length = length-set t.bytes k _ ∙ b.same_length;
    stored = λ j. ground (
      arith,
      get_or-set t.bytes k j (f k (get_or t.bytes k 0)) 0,
      b.stored j,
      b.stored k,
      b.same_length,
      fits,
    );
    counted = ground (arith, b.stored k, count_byte stored_byte k (small k));
  }

  pub store_all : Bytes s stored_byte s.num_bytes (
      for_up s.num_bytes 0
        (λ i t. store_byte t i (f i (get_or t.bytes i 0)))
        (record s { num_on = 0 }))
  store_all =
      for_up_inv (Bytes s stored_byte) _ s.num_bytes 0 s.num_bytes _ (omega arith)
        (λ k t _ lt b. store_round k t lt b)
        (record {
          same_bits = refl;
          same_bytes = refl;
          same_length = refl;
          stored = λ j. ground arith;
          counted = refl;
        })
