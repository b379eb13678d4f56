-- ===== src/Util/BitSet/Progress.antt =====
-- The state of a loop over the bits of a set, for the loops of bitset.cpp.
use libktorrent_stream.Base.{
  ℕ, ◌+◌, ◌≤◌, ◌<◌, ◌≡◌, refl, sym, ◌∙◌, ap, Bool, false, inl, inr, arith, ltb, ltb→lt,
  if◌then◌else◌, Bool-cases, for_up, for_up_inv,
}
use libktorrent_stream.Util.BitSet.{BitSet, get, set}
use libktorrent_stream.Util.BitSet.Bits.{get-raw_bit}
use libktorrent_stream.Util.BitSet.Counted.{IsValid, get-set, set-IsValid, set-shape}

-- The state of a loop over the bits of `s` before round `k`: the bits below `k` are done.
pub record Progress (s : BitSet) (done : ℕ → Bool) (k : ℕ) (t : BitSet) : Type 0 where
  pub valid : IsValid t
  pub same_size : t.num_bits ≡ s.num_bits
  pub bits : (j : ℕ) → get t j ≡ (if ltb j k then done j else get s j)

pub get_beyond : (s : BitSet) (j : ℕ) → s.num_bits ≤ j → get s j ≡ false
get_beyond s j h = ground (arith, get-raw_bit s j)

-- What holds of the bits below a size that is the set's own holds of all, if it is false past them.
pub get_everywhere :
    (t : BitSet) (n : ℕ) (f : ℕ → Bool)
    → t.num_bits ≡ n
    → ((j : ℕ) → j < n → get t j ≡ f j)
    → ((j : ℕ) → n ≤ j → f j ≡ false)
    → (j : ℕ) → get t j ≡ f j
get_everywhere t n f e below beyond j = elim (Bool-cases (ltb j n)) [
  | inl lt ↦ below j (ltb→lt j n lt)
  | inr ge ↦ get_beyond t j (ground arith) ∙ sym (beyond j (ground arith))
]

-- A loop that puts `done i` in place of bit `i` in round `i` ends with all the bits done.
module _ (s : BitSet) (done : ℕ → Bool) (body : ℕ → BitSet → BitSet)
    (round : (k : ℕ) (t : BitSet)
      → k < s.num_bits
      → Progress s done k t
      → Progress s done (k + 1) (body k t)) where
  pub run_loop : IsValid s → Progress s done s.num_bits (for_up s.num_bits 0 body s)
  run_loop v =
      for_up_inv (Progress s done) body s.num_bits 0 s.num_bits s (omega arith)
        (λ k t _ lt p. round k t lt p)
        (record { valid = v; same_size = refl; bits = λ j. ground arith })

-- Putting `done k` in place of bit `k` is such a round.
pub put_round :
    (s : BitSet) (done : ℕ → Bool) (k : ℕ) (t : BitSet) (on : Bool)
    → k < s.num_bits
    → on ≡ done k
    → Progress s done k t
    → Progress s done (k + 1) (set t k on)
put_round s done k t on lt e p = record {
  valid = set-IsValid t k on p.valid;
  same_size = (set-shape t k on).0 ∙ p.same_size;
  bits =
      λ j. ground (arith, get-set t k j on p.valid, p.same_size, p.bits j, ap done {x = j} {y = k});
}

-- Leaving bit `k` alone is such a round, if it is as it should be.
pub keep_round :
    (s : BitSet) (done : ℕ → Bool) (k : ℕ) (t : BitSet)
    → get s k ≡ done k
    → Progress s done k t
    → Progress s done (k + 1) t
keep_round s done k t e p = record {
  valid = p.valid;
  same_size = p.same_size;
  bits = λ j. ground (arith, p.bits j);
}
