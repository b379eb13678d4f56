-- ===== src/Utp/SeqNr/Order.antt =====
-- Comparison of sequence numbers that lie less than half of the circle apart.
mod Tests
use libktorrent_stream.Base.{
  ℕ, ◌+◌, ◌-◌, ◌%◌, ◌^◌, ◌≤◌, ◌<◌, ◌≡◌, Bool, true, false, ◌&&◌, arith, ltb, leb, ◌==◌,
  if◌then◌else◌, mod_once,
}
use libktorrent_stream.Utp.SeqNr.{cmp_smaller, cmp_smaller_or_equal, diff}

-- The number that lies `d` after `a`
abbrev pub after : ℕ → ℕ → ℕ
after a d = (a + d) % 2 ^ 16

-- A number that lies `d` after another, less than half of the circle, is larger than it, and the
-- difference to it is `d`, wherever the numbers wrap.
pub forward_lem :
    (a d : ℕ)
    → a < 2 ^ 16
    → d < 2 ^ 15
    → (cmp_smaller a (after a d) ≡ ltb 0 d)
      × (cmp_smaller_or_equal a (after a d) ≡ true)
      × (cmp_smaller (after a d) a ≡ false)
      × (cmp_smaller_or_equal (after a d) a ≡ (d == 0))
      × (diff a (after a d) ≡ d)
unfolding cmp_smaller cmp_smaller_or_equal diff
forward_lem a d p q = ground (arith, mod_once (a + d) (2 ^ 16))

-- `SeqNrDiff` to a number that lies `d` before gives `2 ^ 16 - d`, the way round the circle, but `d`
-- itself where the numbers wrap in between.
pub backward_lem :
    (a d : ℕ)
    → a < 2 ^ 16
    → 0 < d
    → d < 2 ^ 15
    → diff (after a d) a ≡ (if ltb (a + d) (2 ^ 16) then 2 ^ 16 - d else d)
unfolding diff
backward_lem a d p q r = ground (arith, mod_once (a + d) (2 ^ 16))
