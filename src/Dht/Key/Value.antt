-- ===== src/Dht/Key/Value.antt =====
-- The number that a key is, and the comparisons of key.cpp as comparisons of numbers.
use native.Mathlib.Nat.{pow-suc, mul-le-mul_right}
use libktorrent_stream.Base.{
  ℕ, ◌+◌, ◌*◌, ◌^◌, ◌≤◌, ◌<◌, ◌≡◌, refl, true, false, [], ◌∷◌, arith, ltb, leb, ◌==◌, if◌then◌else◌,
  length, All, subst, sym,
}
use libktorrent_stream.Dht.Key.{Key, equals, less, less_or_equal, greater, greater_or_equal}

-- The bytes as the digits of a number
unfoldable pub number : Key → ℕ
number [] = 0
number (x ∷ xs) = x * 256 ^ length xs + number xs

abbrev pub AreBytes : Key → Type 0
AreBytes xs = All (λ b. b < 256) xs

pub record IsKey (k : Key) : Type 0 where
  pub sized : length k ≡ 20
  pub bytes : AreBytes k

-- A digit and what it leaves room for
pub digit-le : (x b : ℕ) (n : ℕ) → x < b → x * 256 ^ n + 256 ^ n ≤ b * 256 ^ n
digit-le x b n h = omega (arith, mul-le-mul_right (256 ^ n) h)

pub number-lt : (xs : Key) → AreBytes xs → number xs < 256 ^ length xs
unfolding number
number-lt [] a = omega arith
number-lt (x ∷ xs) (lt, a) =
    omega (arith, number-lt xs a, digit-le x 256 (length xs) lt, pow-suc 256 (length xs))

-- Numbers of two digits, the first of any size, compare by the first digits that differ.
ltb_digits :
    (x y r s w : ℕ)
    → r < w
    → s < w
    → ltb (x * w + r) (y * w + s) ≡ (if ltb x y then true else if ltb y x then false else ltb r s)
ltb_digits x y r s w p q =
    ground (arith, λ (h : x < y). mul-le-mul_right w h, λ (h : y < x). mul-le-mul_right w h)

same_digits :
    (x y r s w : ℕ) → r < w → s < w → (if x == y then r == s else false) ≡ (x * w + r == y * w + s)
same_digits x y r s w p q =
    ground (arith, λ (h : x < y). mul-le-mul_right w h, λ (h : y < x). mul-le-mul_right w h)

number-ltb :
    (x y : ℕ) (xs ys : Key)
    → length xs ≡ length ys
    → AreBytes xs
    → AreBytes ys
    → ltb (number (x ∷ xs)) (number (y ∷ ys))
      ≡ (if ltb x y then true else if ltb y x then false else ltb (number xs) (number ys))
unfolding number
number-ltb x y xs ys e p q = rw e (
    ltb_digits x y (number xs) (number ys) (256 ^ length ys)
      (subst (λ n. number xs < 256 ^ n) e (number-lt xs p)) (number-lt ys q))

-- `operator <` compares the numbers.
pub less_lem :
    (a b : Key)
    → length a ≡ length b
    → AreBytes a
    → AreBytes b
    → less a b ≡ ltb (number a) (number b)
unfolding less number
less_lem [] [] e p q = refl
less_lem [] (y ∷ ys) e p q = absurd (omega arith)
less_lem (x ∷ xs) [] e p q = absurd (omega arith)
less_lem (x ∷ xs) (y ∷ ys) e p q =
    rw (number-ltb x y xs ys (omega arith) p.1 q.1, less_lem xs ys (omega arith) p.1 q.1) refl

-- `operator >` is `operator <` the other way round.
pub greater_lem : (a b : Key) → length a ≡ length b → greater a b ≡ less b a
unfolding less greater
greater_lem [] [] e = refl
greater_lem [] (y ∷ ys) e = absurd (omega arith)
greater_lem (x ∷ xs) [] e = absurd (omega arith)
greater_lem (x ∷ xs) (y ∷ ys) e = ground (arith, greater_lem xs ys (omega arith))

number-== :
    (x y : ℕ) (xs ys : Key)
    → length xs ≡ length ys
    → AreBytes xs
    → AreBytes ys
    → (number (x ∷ xs) == number (y ∷ ys)) ≡ (if x == y then number xs == number ys else false)
unfolding number
number-== x y xs ys e p q = rw e (
    sym (
      same_digits x y (number xs) (number ys) (256 ^ length ys)
        (subst (λ n. number xs < 256 ^ n) e (number-lt xs p)) (number-lt ys q)))

-- `operator ==` compares the numbers.
pub equals_lem :
    (a b : Key)
    → length a ≡ length b
    → AreBytes a
    → AreBytes b
    → equals a b ≡ (number a == number b)
unfolding number equals
equals_lem [] [] e p q = refl
equals_lem [] (y ∷ ys) e p q = absurd (omega arith)
equals_lem (x ∷ xs) [] e p q = absurd (omega arith)
equals_lem (x ∷ xs) (y ∷ ys) e p q =
    rw (number-== x y xs ys (omega arith) p.1 q.1, equals_lem xs ys (omega arith) p.1 q.1) refl

-- The comparisons of keys are those of the numbers.
pub comparison_lem :
    (a b : Key)
    → IsKey a
    → IsKey b
    → (less a b ≡ ltb (number a) (number b))
      × (less_or_equal a b ≡ leb (number a) (number b))
      × (greater a b ≡ ltb (number b) (number a))
      × (greater_or_equal a b ≡ leb (number b) (number a))
      × (equals a b ≡ (number a == number b))
unfolding less_or_equal greater_or_equal
comparison_lem a b p q = ground (
  arith,
  less_lem a b (omega arith) p.bytes q.bytes,
  less_lem b a (omega arith) q.bytes p.bytes,
  greater_lem a b (omega arith),
  equals_lem a b (omega arith) p.bytes q.bytes,
)
