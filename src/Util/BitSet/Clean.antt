-- ===== src/Util/BitSet/Clean.antt =====
-- Sets whose spare bits, those of the last byte past the size, are off.
use libktorrent_stream.Base.{
  ℕ, ◌+◌, ◌-◌, ◌*◌, ◌/◌, ◌%◌, ◌≤◌, ◌<◌, ◌≡◌, sym, ◌∙◌, ap, false, List, inl, inr, arith, ltb,
  length, All-get_or, All-index, Bool-cases, ltb→lt, get_or, test_bit, count, count-le, count-eq,
  count_append, count_none, get_or_beyond, test_bit-zero,
}
use libktorrent_stream.Util.BitSet.{BitSet, bytes_for, get, other_byte}
use libktorrent_stream.Util.BitSet.Bits.{raw_bit, get-raw_bit}
use libktorrent_stream.Util.BitSet.Counted.{IsValid}
use libktorrent_stream.Util.BitSet.Bytewise.{Bytes, bit_of}

-- The spare bits of the last byte are off.
abbrev pub IsClean : BitSet → Type 0
IsClean s = (i : ℕ) → s.num_bits ≤ i → raw_bit s.bytes i ≡ false

pub raw_bit_beyond : (bytes : List ℕ) (i : ℕ) → length bytes ≤ i / 8 → raw_bit bytes i ≡ false
raw_bit_beyond bytes i h = ground (arith, get_or_beyond bytes (i / 8) 0, test_bit-zero (7 - i % 8))

-- What a loop over the bytes leaves is valid and clean, if it turns the spare bits off.
module _ (s t : BitSet) (val : ℕ → ℕ) (v : IsValid s) (b : Bytes s val s.num_bytes t)
    (off : (i : ℕ) → s.num_bits ≤ i → i < 8 * s.num_bytes → bit_of val i ≡ false)
    (small : (j : ℕ) → val j < 256) where
  pub raw : (i : ℕ) → i < 8 * s.num_bytes → raw_bit t.bytes i ≡ bit_of val i
  raw i lt = ground (arith, b.stored (i / 8))

  pub merged-IsClean : IsClean t
  merged-IsClean i h = elim (Bool-cases (ltb i (8 * s.num_bytes))) [
    | inl spare ↦ raw i (ltb→lt _ _ spare) ∙ off i (ground (arith, b.same_bits)) (ltb→lt _ _ spare)
    | inr past ↦ raw_bit_beyond t.bytes i (ground (arith, b.same_length, v.stored))
  ]

  pub get-merged : (i : ℕ) → i < s.num_bits → get t i ≡ bit_of val i
  get-merged i lt = ground (arith, get-raw_bit t i, b.same_bits, raw i, v.sized)

  pub all_counted : count (bit_of val) (8 * s.num_bytes) ≡ count (bit_of val) s.num_bits
  all_counted =
      let e : 8 * s.num_bytes ≡ s.num_bits + (8 * s.num_bytes - s.num_bits) =
        ground (arith, v.sized) in
      ap (count (bit_of val)) e
      ∙ count_append (bit_of val) s.num_bits _
      ∙ omega (
        arith,
        count_none (λ k. bit_of val (s.num_bits + k)) (8 * s.num_bytes - s.num_bits)
            (λ k lt. off (s.num_bits + k) (omega arith) (omega arith)),
      )

  pub merged-IsValid : IsValid t
  merged-IsValid = record {
    small = ground (arith, v.small, b.same_bits);
    sized = b.same_bytes ∙ v.sized ∙ ap (λ n. bytes_for n) (sym b.same_bits);
    stored = b.same_length ∙ v.stored ∙ sym b.same_bytes;
    are_bytes =
        All-index _ t.bytes 0
          (λ j lt. ground (arith, b.stored j, small j, b.same_length, v.stored));
    counted = omega (
      arith,
      b.counted,
      all_counted,
      count-le (bit_of val) s.num_bits,
      v.small,
      count-eq (get t) (bit_of val) s.num_bits get-merged,
      ap (count (get t)) b.same_bits,
    );
  }

pub byte-lt : (s : BitSet) (j : ℕ) → IsValid s → get_or s.bytes j 0 < 256
byte-lt s j v = All-get_or (λ b. b < 256) s.bytes j 0 (omega arith) v.are_bytes

-- With the spare bits off the stored bits are those that `get` reads.
pub raw_bit-get : (s : BitSet) (i : ℕ) → IsClean s → raw_bit s.bytes i ≡ get s i
raw_bit-get s i c = ground (arith, get-raw_bit s i, c i)

pub other_bit-get :
    (s : BitSet) (i : ℕ)
    → IsValid s
    → IsClean s
    → test_bit (other_byte s (i / 8)) (7 - i % 8) ≡ get s i
other_bit-get s i v c = ground (arith, raw_bit-get s i c, get_or_beyond s.bytes (i / 8) 0, v.stored)
