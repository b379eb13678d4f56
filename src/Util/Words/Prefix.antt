-- ===== src/Util/Words/Prefix.antt =====
-- A write changes nothing below its offset, and a read needs nothing but its own bytes.
use libktorrent_stream.Base.{ℕ, ◌+◌, ◌≤◌, ◌<◌, ◌≡◌, refl, List, arith, length, set, get_or-set, ◌∙◌}
use libktorrent_stream.Util.Words.{byte_at, write_uint32, read_uint32, write_uint16, read_uint16}
use libktorrent_stream.Util.Words.Laws.{byte_at-write_uint32, byte_at-write_uint16}

-- The same bytes at every index below `n`
pub record SameBelow (n : ℕ) (xs ys : List ℕ) : Type 0 where
  pub same : (i : ℕ) → i < n → byte_at xs i ≡ byte_at ys i

pub SameBelow-trans :
    (m n : ℕ) (xs ys zs : List ℕ)
    → n ≤ m
    → SameBelow m xs ys
    → SameBelow n ys zs
    → SameBelow n xs zs
SameBelow-trans m n xs ys zs h p q = record { same = λ i lt. p.same i (omega arith) ∙ q.same i lt }

pub SameBelow-write_uint32 :
    (buf : List ℕ) (off val : ℕ)
    → off + 4 ≤ length buf
    → SameBelow off (write_uint32 buf off val) buf
SameBelow-write_uint32 buf off val h = record {
  same = λ i lt. ground (arith, byte_at-write_uint32 buf off val i h);
}

pub SameBelow-write_uint16 :
    (buf : List ℕ) (off val : ℕ)
    → off + 2 ≤ length buf
    → SameBelow off (write_uint16 buf off val) buf
SameBelow-write_uint16 buf off val h = record {
  same = λ i lt. ground (arith, byte_at-write_uint16 buf off val i h);
}

pub SameBelow-set :
    (buf : List ℕ) (off val : ℕ) → off < length buf → SameBelow off (set buf off val) buf
SameBelow-set buf off val h = record { same = λ i lt. ground (arith, get_or-set buf off i val 0 h) }

pub read_uint32_same :
    (n off : ℕ) (xs ys : List ℕ)
    → off + 4 ≤ n
    → SameBelow n xs ys
    → read_uint32 xs off ≡ read_uint32 ys off
unfolding read_uint32
read_uint32_same n off xs ys h s =
    rw
      (
        s.same off (omega arith),
        s.same (off + 1) (omega arith),
        s.same (off + 2) (omega arith),
        s.same (off + 3) (omega arith),
      )
      refl

pub read_uint16_same :
    (n off : ℕ) (xs ys : List ℕ)
    → off + 2 ≤ n
    → SameBelow n xs ys
    → read_uint16 xs off ≡ read_uint16 ys off
unfolding read_uint16
read_uint16_same n off xs ys h s =
    rw (s.same off (omega arith), s.same (off + 1) (omega arith)) refl
