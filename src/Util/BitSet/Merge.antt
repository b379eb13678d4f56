-- ===== src/Util/BitSet/Merge.antt =====
-- What `orBitSet`, `andBitSet` and `updateNumOnBits` give for sets whose spare bits are off, and what
-- `setAll` leaves in the spare bits.
use libktorrent_stream.Base.{
  not, all_below, all_below_sound, ℕ, ◌+◌, ◌-◌, ◌*◌, ◌/◌, ◌%◌, ◌^◌, ◌≤◌, ◌<◌, ◌≡◌, ◌≢◌, refl, ◌∙◌,
  ap, true, false, ◌&&◌, ◌||◌, inl, inr, arith, ltb, length, length-replicate, Bool-cases, bit_and,
  bit_or, get_or, test_bit-or, test_bit-and, or-lt, and-le, count, count-le, count-eq, count_append,
  count_none, count_full, get_or-replicate, for_up_inv,
}
use libktorrent_stream.Util.BitSet.{
  BitSet, get, or_bit_set, and_bit_set, other_byte, all_on, set_all, update_num_on_bits, bit_count,
}
use libktorrent_stream.Util.BitSet.Bits.{raw_bit, get-raw_bit}
use libktorrent_stream.Util.BitSet.Counted.{IsValid}
use libktorrent_stream.Util.BitSet.Progress.{get_beyond, get_everywhere}
use libktorrent_stream.Util.BitSet.Loops.{set_all_lem, fill_bit}
use libktorrent_stream.Util.BitSet.Bytewise.{Bytes, count_byte, bit_of, store_all}
use libktorrent_stream.Util.BitSet.Clean.{
  IsClean, raw_bit_beyond, merged-IsClean, get-merged, merged-IsValid, byte-lt, raw_bit-get,
  other_bit-get,
}

-- `orBitSet` with a set that is not longer: the bits of both are on, the count is exact, and the spare
-- bits stay off.
pub or_bit_set_lem :
    (s other : BitSet)
    → IsValid s
    → IsValid other
    → IsClean s
    → IsClean other
    → other.num_bits ≤ s.num_bits
    → IsValid (or_bit_set s other)
      × IsClean (or_bit_set s other)
      × ((i : ℕ) → get (or_bit_set s other) i ≡ (get s i || get other i))
unfolding or_bit_set
or_bit_set_lem s other v w c d le = (
  merged-IsValid s _ val v all off small,
  merged-IsClean s _ val v all off small,
  get_everywhere (or_bit_set s other) s.num_bits _ all.same_bits
      (λ i lt. get-merged s _ val v all off small i lt ∙ merged i)
      (λ i h. ground (arith, get_beyond s i, get_beyond other i)),
)
  where
    val : ℕ → ℕ
    val j = bit_or (get_or s.bytes j 0) (other_byte other j)

    small : (j : ℕ) → val j < 256
    small j = or-lt 8 _ _ (byte-lt s j v) (ground (arith, byte-lt other j w))

    all : Bytes s val s.num_bytes (or_bit_set s other)
    all = store_all s (λ i b. bit_or b (other_byte other i)) v.stored small

    merged : (i : ℕ) → bit_of val i ≡ (get s i || get other i)
    merged i = ground (
      arith,
      test_bit-or (7 - i % 8) (get_or s.bytes (i / 8) 0) (other_byte other (i / 8)),
      raw_bit-get s i c,
      other_bit-get other i w d,
    )

    off : (i : ℕ) → s.num_bits ≤ i → i < 8 * s.num_bytes → bit_of val i ≡ false
    off i h _ = ground (arith, merged i, get-raw_bit s i, get-raw_bit other i)

-- `andBitSet`: the common bits stay on, the count is exact, and the spare bits stay off.
pub and_bit_set_lem :
    (s other : BitSet)
    → IsValid s
    → IsValid other
    → IsClean s
    → IsClean other
    → IsValid (and_bit_set s other)
      × IsClean (and_bit_set s other)
      × ((i : ℕ) → get (and_bit_set s other) i ≡ (get s i && get other i))
unfolding and_bit_set
and_bit_set_lem s other v w c d = (
  merged-IsValid s _ val v all off small,
  merged-IsClean s _ val v all off small,
  get_everywhere (and_bit_set s other) s.num_bits _ all.same_bits
      (λ i lt. get-merged s _ val v all off small i lt ∙ merged i)
      (λ i h. ground (arith, get_beyond s i, get_beyond other i)),
)
  where
    val : ℕ → ℕ
    val j = bit_and (get_or s.bytes j 0) (other_byte other j)

    small : (j : ℕ) → val j < 256
    small j = omega (arith, and-le (get_or s.bytes j 0) (other_byte other j), byte-lt s j v)

    all : Bytes s val s.num_bytes (and_bit_set s other)
    all = store_all s (λ i b. bit_and b (other_byte other i)) v.stored small

    merged : (i : ℕ) → bit_of val i ≡ (get s i && get other i)
    merged i = ground (
      arith,
      test_bit-and (7 - i % 8) (get_or s.bytes (i / 8) 0) (other_byte other (i / 8)),
      raw_bit-get s i c,
      other_bit-get other i w d,
    )

    off : (i : ℕ) → s.num_bits ≤ i → i < 8 * s.num_bytes → bit_of val i ≡ false
    off i h _ = ground (arith, merged i, get-raw_bit s i)

-- `setAll(true)` turns the spare bits on too, and `orBitSet` counts them: where the size is no multiple
-- of eight, a full set has every bit on after it is merged with any other, and yet is not `allOn`.
pub or_bit_set_miscounts :
    (s other : BitSet)
    → IsValid s
    → IsValid other
    → s.num_bits % 8 ≢ 0
    → (all_on (or_bit_set (set_all s true) other) ≡ false)
      × ((i : ℕ) → get (or_bit_set (set_all s true) other) i ≡ ltb i s.num_bits)
unfolding or_bit_set all_on set_all
or_bit_set_miscounts s other v w h = (
  ground (
    arith,
    all.counted,
    all.same_bits,
    v.sized,
    v.small,
    count_full (bit_of val) (8 * s.num_bytes) on,
  ),
  get_everywhere (or_bit_set full other) s.num_bits (λ i. ltb i s.num_bits) all.same_bits
      (λ i lt. ground (
        arith,
        get-raw_bit (or_bit_set full other) i,
        all.same_bits,
        all.stored (i / 8),
        on i,
        v.sized,
      ))
      (λ i h. ground arith),
)
  where
    full : BitSet
    full = set_all s true

    val : ℕ → ℕ
    val j = bit_or (get_or full.bytes j 0) (other_byte other j)

    small : (j : ℕ) → val j < 256
    small j =
        or-lt 8 _ _ (byte-lt full j (set_all_lem s true v).0) (ground (arith, byte-lt other j w))

    all : Bytes full val s.num_bytes (or_bit_set full other)
    all =
        store_all full (λ i b. bit_or b (other_byte other i)) (length-replicate s.num_bytes _) small

    on : (i : ℕ) → i < 8 * s.num_bytes → bit_of val i ≡ true
    on i lt = ground (
      arith,
      test_bit-or (7 - i % 8) (get_or full.bytes (i / 8) 0) (other_byte other (i / 8)),
      get_or-replicate {A = ℕ} s.num_bytes (i / 8) 255 0,
      fill_bit true (7 - i % 8),
    )

-- `updateNumOnBits` counts the bits of the bytes again: a set that is valid and clean is unchanged, and
-- so whatever its count says, it is put right.
pub update_num_on_bits_lem :
    (s : BitSet) (n : ℕ) → IsValid s → IsClean s → update_num_on_bits (record s { num_on = n }) ≡ s
unfolding update_num_on_bits
update_num_on_bits_lem s n v c =
    for_up_inv (λ k t. t ≡ recounted k) _ s.num_bytes 0 s.num_bytes (record s { num_on = 0 })
      (omega arith)
      (λ k t _ _ e.
        ap (add_byte k) e
        ∙ ap (λ (m : ℕ). let t : BitSet = record s { num_on = m } in t)
            (omega (arith, count_byte val k (byte-lt s k v))))
      refl
    ∙ ap (λ (m : ℕ). let t : BitSet = record s { num_on = m } in t) exact
  where
    val : ℕ → ℕ
    val j = get_or s.bytes j 0

    add_byte : ℕ → BitSet → BitSet
    add_byte k t = record t { num_on = (t.num_on + bit_count (get_or t.bytes k 0)) % 2 ^ 32 }

    exact : count (bit_of val) (8 * s.num_bytes) % 2 ^ 32 ≡ s.num_on
    exact =
        let e : 8 * s.num_bytes ≡ s.num_bits + (8 * s.num_bytes - s.num_bits) =
          ground (arith, v.sized) in
        omega (
          arith,
          ap (count (bit_of val)) e,
          count_append (bit_of val) s.num_bits (8 * s.num_bytes - s.num_bits),
          count_none (λ k. bit_of val (s.num_bits + k)) (8 * s.num_bytes - s.num_bits)
              (λ k _. c (s.num_bits + k) (omega arith)),
          count-eq (bit_of val) (get s) s.num_bits (λ k _. raw_bit-get s k c),
          count-le (get s) s.num_bits,
          v.counted,
          v.small,
        )

    recounted : ℕ → BitSet
    recounted k = record s { num_on = count (bit_of val) (8 * k) % 2 ^ 32 }

-- Whether a set is clean can be seen from its bytes.
pub IsClean-check :
    (s : BitSet)
    → all_below (8 * length s.bytes) (λ i. ltb i s.num_bits || not (raw_bit s.bytes i)) ≡ true
    → IsClean s
IsClean-check s h i le = elim (Bool-cases (ltb i (8 * length s.bytes))) [
  | inl inside ↦ ground (
    arith,
    all_below_sound (8 * length s.bytes) (λ i. ltb i s.num_bits || not (raw_bit s.bytes i)) i h,
  )
  | inr past ↦ raw_bit_beyond s.bytes i (ground arith)
]
