-- ===== src/Bcodec/Numbers.antt =====
-- The conversions between numbers and decimal text, which Qt provides: `QString::number` and `arg`,
-- `QString::toInt` and `QString::toLongLong`. A text is a list of characters.
pub mod Decimal
use libktorrent_stream.Base.{
  ℕ, ◌+◌, ◌^◌, ◌≤◌, ◌<◌, ◌≡◌, Option, none, some, List, [], ◌∷◌, length, All, ℤ, pos,
}

pub record QtNumbers : Type 0 where
  pub number : ℕ → List ℕ
  pub to_int : List ℕ → Option ℤ
  pub to_long_long : List ℕ → Option ℤ

abbrev pub IsDigit : ℕ → Type 0
IsDigit c = (48 ≤ c) × (c ≤ 57)

-- What Qt documents: a number is printed by decimal digits, at least one; `toInt` takes a text that is
-- an `int` and refuses one that is too large, and `toLongLong` takes one that is a `qint64`.
pub record IsDecimal (q : QtNumbers) : Type 0 where
  pub prints_digits : (n : ℕ) → All IsDigit (q.number n)
  pub prints_some : (n : ℕ) → 1 ≤ length (q.number n)
  pub int_read : (n : ℕ) → n < 2 ^ 31 → q.to_int (q.number n) ≡ some (pos n)
  pub int_refused : (n : ℕ) → 2 ^ 31 ≤ n → q.to_int (q.number n) ≡ none
  pub long_long_read : (n : ℕ) → n < 2 ^ 63 → q.to_long_long (q.number n) ≡ some (pos n)
