-- ===== src/Bcodec/Numbers/Decimal.antt =====
-- Conversions of numbers that are as Qt documents them: decimal digits, with a sign for a negative number.
use libktorrent_stream.Base.{
  ℕ, zero, suc, ◌+◌, ◌-◌, ◌*◌, ◌/◌, ◌%◌, ◌^◌, ◌≤◌, ◌<◌, ◌≡◌, refl, sym, ◌∙◌, ap, subst, inl, inr,
  Bool, Bool-cases, true, false, ◌&&◌, Option, none, some, List, [], ◌∷◌, ◌++◌, length,
  length-append, ltb, leb, ◌==◌, if◌then◌else◌, All, ℤ, pos, negsuc, arith,
}
use libktorrent_stream.Bcodec.Numbers.{QtNumbers, IsDecimal, IsDigit}

unfoldable pub digits : ℕ → ℕ → List ℕ
digits zero n = []
digits (suc fuel) n =
    let rest = digits fuel (n / 10) in
    if ltb n 10 then (48 + n) ∷ [] else rest ++ ((48 + n % 10) ∷ [])

unfoldable pub digits_only : List ℕ → Bool
digits_only [] = true
digits_only (c ∷ text) = leb 48 c && leb c 57 && digits_only text

-- The number of some digits, behind those that gave `acc`
unfoldable pub read_digits : ℕ → List ℕ → ℕ
read_digits acc [] = acc
read_digits acc (c ∷ text) = read_digits (acc * 10 + (c - 48)) text

unfoldable pub negative : ℕ → ℤ
negative zero = pos 0
negative (suc n) = negsuc n

unfoldable pub opposite : Option ℕ → Option ℤ
unfolding negative
opposite none = none
opposite (some n) = some (negative n)

unfoldable pub positive : Option ℕ → Option ℤ
positive none = none
positive (some n) = some (pos n)

unfoldable pub read_unsigned : List ℕ → Option ℕ
unfolding digits_only read_digits
read_unsigned [] = none
read_unsigned (c ∷ text) = if digits_only (c ∷ text) then some (read_digits 0 (c ∷ text)) else none

unfoldable pub read_signed : List ℕ → Option ℤ
unfolding read_unsigned opposite positive
read_signed [] = none
read_signed (c ∷ text) =
    if c == b'-' then opposite (read_unsigned text) else positive (read_unsigned (c ∷ text))

-- A number from -bound up to bound - 1
unfoldable pub within : ℕ → Option ℤ → Option ℤ
within bound none = none
within bound (some (pos n)) = if ltb n bound then some (pos n) else none
within bound (some (negsuc n)) = if ltb n bound then some (negsuc n) else none

unfoldable pub decimal : QtNumbers
unfolding digits read_signed within
decimal = record {
  number = λ n. digits (suc n) n;
  to_int = λ text. within (2 ^ 31) (read_signed text);
  to_long_long = λ text. within (2 ^ 63) (read_signed text);
}

All-append : (xs ys : List ℕ) → All IsDigit xs → All IsDigit ys → All IsDigit (xs ++ ys)
All-append [] ys a b = b
All-append (x ∷ xs) ys a b = (a.0, All-append xs ys a.1 b)

digits_short : (fuel n : ℕ) → ltb n 10 ≡ true → digits (suc fuel) n ≡ (48 + n) ∷ []
unfolding digits
digits_short fuel n h = ground (arith, h)

digits_long :
    (fuel n : ℕ)
    → ltb n 10 ≡ false
    → digits (suc fuel) n ≡ digits fuel (n / 10) ++ ((48 + n % 10) ∷ [])
unfolding digits
digits_long fuel n h = ground (arith, h)

below_ten : (n : ℕ) → n < 10 → IsDigit (48 + n)
below_ten n h = (omega arith, omega arith)

digits-IsDigit : (fuel n : ℕ) → All IsDigit (digits fuel n)
unfolding digits
digits-IsDigit zero n = tt
digits-IsDigit (suc fuel) n = elim (Bool-cases (ltb n 10)) [
  | inl short ↦
      subst (All IsDigit) (sym (digits_short fuel n short)) (below_ten n (ground arith), tt)
  | inr long ↦ subst (All IsDigit) (sym (digits_long fuel n long)) (
      All-append (digits fuel (n / 10)) _ (digits-IsDigit fuel (n / 10))
        (below_ten (n % 10) (omega arith), tt))
]

length-digits : (fuel n : ℕ) → 1 ≤ length (digits (suc fuel) n)
unfolding digits
length-digits fuel n = ground (arith, length-append (digits fuel (n / 10)) ((48 + n % 10) ∷ []))

digits_only-All : (xs : List ℕ) → All IsDigit xs → digits_only xs ≡ true
unfolding digits_only
digits_only-All [] a = refl
digits_only-All (c ∷ xs) a = ground (arith, a.0.0, a.0.1, digits_only-All xs a.1)

read_digits-append :
    (xs ys : List ℕ) (acc : ℕ) → read_digits acc (xs ++ ys) ≡ read_digits (read_digits acc xs) ys
unfolding read_digits
read_digits-append [] ys acc = refl
read_digits-append (x ∷ xs) ys acc = read_digits-append xs ys (acc * 10 + (x - 48))

read_digits-digits : (fuel n : ℕ) → n < fuel → read_digits 0 (digits fuel n) ≡ n
unfolding read_digits digits
read_digits-digits zero n h = absurd (omega arith)
read_digits-digits (suc fuel) n h = elim (Bool-cases (ltb n 10)) [
  | inl short ↦ ap (read_digits 0) (digits_short fuel n short) ∙ omega arith
  | inr long ↦
      ap (read_digits 0) (digits_long fuel n long)
      ∙ read_digits-append (digits fuel (n / 10)) _ 0
      ∙ ap (λ acc. read_digits acc ((48 + n % 10) ∷ []))
          (read_digits-digits fuel (n / 10) (ground arith))
      ∙ omega arith
]

read_signed-digits :
    (text : List ℕ)
    → 1 ≤ length text
    → All IsDigit text
    → read_signed text ≡ some (pos (read_digits 0 text))
unfolding read_signed read_unsigned positive
read_signed-digits [] h a = absurd (omega arith)
read_signed-digits (c ∷ text) h a = ground (arith, a.0.0, digits_only-All (c ∷ text) a)

within-decimal :
    (bound n : ℕ) → n < bound → within bound (read_signed (decimal.number n)) ≡ some (pos n)
unfolding within decimal digits
within-decimal bound n h =
    ap (within bound) (
      read_signed-digits (digits (suc n) n) (length-digits n n) (digits-IsDigit (suc n) n)
      ∙ ap (λ k. some (pos k)) (read_digits-digits (suc n) n (omega arith)))
    ∙ ground arith

beyond-decimal : (bound n : ℕ) → bound ≤ n → within bound (read_signed (decimal.number n)) ≡ none
unfolding within decimal digits
beyond-decimal bound n h =
    ap (within bound) (
      read_signed-digits (digits (suc n) n) (length-digits n n) (digits-IsDigit (suc n) n)
      ∙ ap (λ k. some (pos k)) (read_digits-digits (suc n) n (omega arith)))
    ∙ ground arith

pub decimal-IsDecimal : IsDecimal decimal
unfolding decimal digits
decimal-IsDecimal = record {
  prints_digits = λ n. digits-IsDigit (suc n) n;
  prints_some = λ n. length-digits n n;
  int_read = λ n. within-decimal (2 ^ 31) n;
  int_refused = λ n. beyond-decimal (2 ^ 31) n;
  long_long_read = λ n. within-decimal (2 ^ 63) n;
}
