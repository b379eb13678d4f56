-- ===== src/Base/Loops.antt =====
-- Counted loops, and counting the indices at which a test holds.
use Prim.Native.Nat.{ℕ, zero, suc, ◌+◌, ◌≤◌, ◌<◌}
use mathlib.Core.Path.{◌≡◌, refl}
use mathlib.Core.Bool.{Bool, true, false, not}
use native.Mathlib.Omega.{arith}
use mathlib.Core.Logic.{inl, inr}
use libktorrent_stream.Base.Tests.{◌==◌, Bool-cases, if◌then◌else◌}

-- `while (i < i + n) { s = body i s; i++; }` by the count of rounds left.
unfoldable pub for_up {ℓ} : {S : Type ℓ} → ℕ → ℕ → (ℕ → S → S) → S → S
for_up zero i body s = s
for_up (suc n) i body s = for_up n (i + 1) body (body i s)

-- What each round carries on holds at the end.
pub for_up_inv {ℓ κ} :
    {S : Type ℓ} (P : ℕ → S → Type κ) (body : ℕ → S → S) (n i j : ℕ) (s : S)
    → i + n ≡ j
    → ((k : ℕ) (t : S) → i ≤ k → k < j → P k t → P (k + 1) (body k t))
    → P i s
    → P j (for_up n i body s)
unfolding for_up
for_up_inv P body zero i j s e keep h = let same : i ≡ j = omega arith in rw (← same) h
for_up_inv P body (suc n) i j s e keep h =
    for_up_inv P body n (i + 1) j (body i s) (omega arith)
      (λ k t le lt p. keep k t (omega arith) lt p) (keep i s (omega arith) (omega arith) h)

-- The number of indices below the bound at which the test holds.
abbrev pub count : (ℕ → Bool) → ℕ → ℕ
count f zero = 0
count f (suc n) = count f n + (if f n then 1 else 0)

pub count-le : (f : ℕ → Bool) (n : ℕ) → count f n ≤ n
count-le f zero = omega arith
count-le f (suc n) = ground (arith, count-le f n)

pub count-eq : (f g : ℕ → Bool) (n : ℕ) → ((k : ℕ) → k < n → f k ≡ g k) → count f n ≡ count g n
count-eq f g zero h = refl
count-eq f g (suc n) h =
    ground (arith, h n (omega arith), count-eq f g n (λ k lt. h k (omega arith)))

-- A test that changes at one index changes the count by that index alone.
pub count_change :
    (f g : ℕ → Bool) (i n : ℕ)
    → i < n
    → ((k : ℕ) → (k == i) ≡ false → f k ≡ g k)
    → count g n + (if f i then 1 else 0) ≡ count f n + (if g i then 1 else 0)
count_change f g i zero lt h = absurd (omega arith)
count_change f g i (suc n) lt h = elim (Bool-cases (n == i)) [
  | inl last ↦ ground (arith, count-eq f g n (λ k below. h k (ground arith)))
  | inr other ↦ ground (arith, h n other, count_change f g i n (ground arith) h)
]

pub count_all : (f : ℕ → Bool) (n k : ℕ) → count f n ≡ n → k < n → f k ≡ true
count_all f zero k e lt = absurd (omega arith)
count_all f (suc n) k e lt = ground (arith, count-le f n, count_all f n k)

pub count_full : (f : ℕ → Bool) (n : ℕ) → ((k : ℕ) → k < n → f k ≡ true) → count f n ≡ n
count_full f zero h = refl
count_full f (suc n) h =
    ground (arith, h n (omega arith), count_full f n (λ k lt. h k (omega arith)))

pub count_none : (f : ℕ → Bool) (n : ℕ) → ((k : ℕ) → k < n → f k ≡ false) → count f n ≡ 0
count_none f zero h = refl
count_none f (suc n) h =
    ground (arith, h n (omega arith), count_none f n (λ k lt. h k (omega arith)))

pub count_complement :
    (f g : ℕ → Bool) (n : ℕ) → ((k : ℕ) → k < n → g k ≡ not (f k)) → count g n + count f n ≡ n
count_complement f g zero h = omega arith
count_complement f g (suc n) h =
    ground (arith, h n (omega arith), count_complement f g n (λ k lt. h k (omega arith)))

-- A count over a longer range, in two parts.
pub count_append : (f : ℕ → Bool) (n m : ℕ) → count f (n + m) ≡ count f n + count (λ k. f (n + k)) m
count_append f n zero = let e : n + 0 ≡ n = omega arith in rw e (omega arith)
count_append f n (suc m) =
    let e : n + suc m ≡ suc (n + m) = omega arith in rw e (omega (arith, count_append f n m))
