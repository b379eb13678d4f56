-- ===== src/Dht/Key/Arithmetic.antt =====
-- The sum, difference, quotient and midpoint of keys as those of numbers of 160 bits.
use native.Mathlib.Nat.{pow-suc}
use libktorrent_stream.Base.{
  ℕ, ◌+◌, ◌-◌, ◌*◌, ◌%◌, ◌^◌, ◌<◌, ◌≡◌, refl, Bool, [], ◌∷◌, arith, if◌then◌else◌, length, subst,
  and-byte, sym, ap, ◌∙◌,
}
use libktorrent_stream.Dht.Key.{
  Key, add, add_bytes, add_byte, subtract, subtract_bytes, subtract_byte,
}
use libktorrent_stream.Dht.Key.Value.{number, AreBytes, IsKey, number-lt}

-- A carry as a number
abbrev bit : Bool → ℕ
bit carry = if carry then 1 else 0

-- Digits that are a sum, with a carry
record Sum (xs ys zs : Key) (carry : Bool) : Type 0 where
  first_length : length xs ≡ length zs
  second_length : length ys ≡ length zs
  total : number zs + bit carry * 256 ^ length zs ≡ number xs + number ys

Sum-cons :
    (x y z : ℕ) (xs ys zs : Key) (carry carry' : Bool)
    → Sum xs ys zs carry
    → z + 256 * bit carry' ≡ x + y + bit carry
    → Sum (x ∷ xs) (y ∷ ys) (z ∷ zs) carry'
unfolding number
Sum-cons x y z xs ys zs carry carry' s digit = record {
  first_length = omega (arith, s.first_length);
  second_length = omega (arith, s.second_length);
  total =
      rw (s.first_length, s.second_length)
        (omega (
          arith,
          s.total,
          ap (λ (t : ℕ). bit carry' * t) (pow-suc 256 (length zs)),
          ap (λ (t : ℕ). t * 256 ^ length zs) digit,
        ));
}

add_byte_lem :
    (x y : ℕ) (carry : Bool)
    → x < 256
    → y < 256
    → let (z, carry') = add_byte x y carry in (z < 256) × (z + 256 * bit carry' ≡ x + y + bit carry)
unfolding add_byte
add_byte_lem x y carry p q = ground (arith, and-byte (x + y + bit carry))

subtract_byte_lem :
    (x y : ℕ) (carry : Bool)
    → x < 256
    → y < 256
    → let (z, carry') = subtract_byte x y carry in
      (z < 256) × (x + 256 * bit carry' ≡ z + y + bit carry)
unfolding subtract_byte
subtract_byte_lem x y carry p q = ground arith

add_bytes_lem :
    (xs ys : Key)
    → length xs ≡ length ys
    → AreBytes xs
    → AreBytes ys
    → let (zs, carry) = add_bytes xs ys in AreBytes zs × Sum xs ys zs carry
unfolding add_bytes number
add_bytes_lem [] [] e p q = (tt, record { first_length = refl; second_length = refl; total = refl })
add_bytes_lem [] (y ∷ ys) e p q = absurd (omega arith)
add_bytes_lem (x ∷ xs) [] e p q = absurd (omega arith)
add_bytes_lem (x ∷ xs) (y ∷ ys) e p q =
    let (bytes, s) = add_bytes_lem xs ys (omega arith) p.1 q.1 in
    let (lt, digit) = add_byte_lem x y (add_bytes xs ys).1 p.0 q.0 in
    ((lt, bytes), Sum-cons x y _ xs ys _ _ _ s digit)

subtract_bytes_lem :
    (xs ys : Key)
    → length xs ≡ length ys
    → AreBytes xs
    → AreBytes ys
    → let (zs, carry) = subtract_bytes xs ys in AreBytes zs × Sum zs ys xs carry
unfolding subtract_bytes number
subtract_bytes_lem [] [] e p q =
    (tt, record { first_length = refl; second_length = refl; total = refl })
subtract_bytes_lem [] (y ∷ ys) e p q = absurd (omega arith)
subtract_bytes_lem (x ∷ xs) [] e p q = absurd (omega arith)
subtract_bytes_lem (x ∷ xs) (y ∷ ys) e p q =
    let (bytes, s) = subtract_bytes_lem xs ys (omega arith) p.1 q.1 in
    let (lt, digit) = subtract_byte_lem x y (subtract_bytes xs ys).1 p.0 q.0 in
    ((lt, bytes), Sum-cons _ y x _ ys xs _ _ s digit)

pub number-lt_key : (a : Key) → IsKey a → number a < 2 ^ 160
number-lt_key a p = subst (λ n. number a < 256 ^ n) p.sized (number-lt a p.bytes)

pub add-IsKey : (a b : Key) → IsKey a → IsKey b → IsKey (add a b)
unfolding add
add-IsKey a b p q =
    let (bytes, s) = add_bytes_lem a b (omega arith) p.bytes q.bytes in
    record { sized = sym s.first_length ∙ p.sized; bytes = bytes }

pub subtract-IsKey : (a b : Key) → IsKey a → IsKey b → IsKey (subtract a b)
unfolding subtract
subtract-IsKey a b p q =
    let (bytes, s) = subtract_bytes_lem a b (omega arith) p.bytes q.bytes in
    record { sized = s.first_length ∙ p.sized; bytes = bytes }

-- The sum of keys is that of the numbers, modulo 2 ^ 160.
pub number-add :
    (a b : Key) → IsKey a → IsKey b → number (add a b) ≡ (number a + number b) % 2 ^ 160
unfolding add
number-add a b p q =
    let (_, s) = add_bytes_lem a b (omega arith) p.bytes q.bytes in
    ground (
      arith,
      s.total,
      ap (λ n. 256 ^ n) (sym s.first_length ∙ p.sized),
      number-lt_key a p,
      number-lt_key b q,
      number-lt_key (add a b) (add-IsKey a b p q),
    )

-- The difference of keys is that of the numbers, modulo 2 ^ 160.
pub number-subtract :
    (a b : Key)
    → IsKey a
    → IsKey b
    → number (subtract a b) ≡ (number a + 2 ^ 160 - number b) % 2 ^ 160
unfolding subtract
number-subtract a b p q =
    let (_, s) = subtract_bytes_lem a b (omega arith) p.bytes q.bytes in
    ground (
      arith,
      s.total,
      ap (λ n. 256 ^ n) p.sized,
      number-lt_key a p,
      number-lt_key b q,
      number-lt_key (subtract a b) (subtract-IsKey a b p q),
    )
