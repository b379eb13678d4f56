-- ===== src/Dht/Key/Midpoint.antt =====
-- The quotient of a key by a small number, and the midpoint of two keys.
use native.Mathlib.Nat.{
  pow-suc, div-eq_of_lt-le, div-lt_iff_lt-mul, mod-lt, div-add-mod', mul-le-mul_right,
}
use libktorrent_stream.Base.{
  ℕ, ◌+◌, ◌*◌, ◌/◌, ◌%◌, ◌^◌, ◌≤◌, ◌<◌, ◌≡◌, refl, sym, ap, ◌∙◌, [], ◌∷◌, arith, length, Bool-cases,
  inl, inr,
}
use libktorrent_stream.Dht.Key.{Key, add, subtract, divide, divide_bytes, mid, less_or_equal}
use libktorrent_stream.Dht.Key.Value.{number, AreBytes, IsKey, comparison_lem}
use libktorrent_stream.Dht.Key.Arithmetic.{
  number-lt_key, add-IsKey, subtract-IsKey, number-add, number-subtract,
}

-- A long division from a remainder on: the digits of the quotient, and what is left
record Quotient (value remainder : ℕ) (xs zs : Key) : Type 0 where
  same_length : length zs ≡ length xs
  bytes : AreBytes zs
  left : ℕ
  left_lt : left < value
  total : number zs * value + left ≡ remainder * 256 ^ length xs + number xs

-- One digit of a division
digit_lem :
    (value remainder x : ℕ)
    → 0 < value
    → value ≤ 256
    → remainder < value
    → x < 256
    → let d = x + remainder * 2 ^ 8 in
      (d / value < 256) × (d % value < value) × (d / value * value + d % value ≡ d)
digit_lem value remainder x p q r h = (
  (div-lt_iff_lt-mul p).1 (omega (arith, mul-le-mul_right 256 r)),
  mod-lt _ p,
  div-add-mod' _ value,
)

divide_bytes-Quotient :
    (value remainder : ℕ) (xs : Key)
    → 0 < value
    → value ≤ 256
    → remainder < value
    → AreBytes xs
    → Quotient value remainder xs (divide_bytes value remainder xs)
unfolding divide_bytes number
divide_bytes-Quotient value remainder [] p q r a = record {
  same_length = refl;
  bytes = tt;
  left = remainder;
  left_lt = r;
  total = omega arith;
}
divide_bytes-Quotient value remainder (x ∷ xs) p q r a =
    let d = x + remainder * 2 ^ 8 in
    let (q_lt, r_lt, split) = digit_lem value remainder x p q r a.0 in
    let small : d / value % 2 ^ 8 ≡ d / value = omega arith in
    let small' : d % value % 2 ^ 8 ≡ d % value = omega arith in
    let rest = divide_bytes-Quotient value (d % value) xs p q r_lt a.1 in
    rw (small, small')
      (record {
        same_length = omega (arith, rest.same_length);
        bytes = (q_lt, rest.bytes);
        left = rest.left;
        left_lt = rest.left_lt;
        total = rw rest.same_length (
            omega (
              arith,
              rest.total,
              ap (λ (t : ℕ). remainder * t) (pow-suc 256 (length xs)),
              ap (λ (t : ℕ). t * 256 ^ length xs) split,
            ));
      })

-- `operator /` by a number that fits divides the number.
pub divide_lem :
    (k : Key) (value : ℕ)
    → IsKey k
    → 0 < value
    → value ≤ 256
    → IsKey (divide k value) × (number (divide k value) ≡ number k / value)
unfolding divide
divide_lem k value p pos small =
    let d = divide_bytes-Quotient value 0 k pos small pos p.bytes in
    (
      record { sized = d.same_length ∙ p.sized; bytes = d.bytes },
      sym (div-eq_of_lt-le value (omega (arith, d.total)) (omega (arith, d.total, d.left_lt))),
    )

halfway :
    (a b : Key)
    → IsKey a
    → IsKey b
    → number a ≤ number b
    → let m = add a (divide (subtract b a) 2) in IsKey m × (number m ≡ (number a + number b) / 2)
halfway a b p q h =
    let diff = subtract-IsKey b a q p in
    let (half, e) = divide_lem (subtract b a) 2 diff (omega arith) (omega arith) in
    (
      add-IsKey a _ p half,
      omega (
        arith,
        number-add a (divide (subtract b a) 2) p half,
        e,
        number-subtract b a q p,
        number-lt_key a p,
        number-lt_key b q,
        h,
      ),
    )

-- The midpoint of two keys is that of the numbers, and no carry is lost.
pub number-mid :
    (a b : Key)
    → IsKey a
    → IsKey b
    → IsKey (mid a b) × (number (mid a b) ≡ (number a + number b) / 2)
unfolding mid
number-mid a b p q = elim (Bool-cases (less_or_equal a b)) [
  | inl up ↦ rw up (halfway a b p q (ground (arith, comparison_lem a b p q)))
  | inr down ↦ rw down (
      let (key, e) = halfway b a q p (ground (arith, comparison_lem a b p q)) in
      (key, omega (arith, e)))
]
