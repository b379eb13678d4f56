-- ===== src/Util/CircularBuffer/Read.antt =====
-- `read` of the circular buffer takes from the front of a queue of bytes.
use libktorrent_stream.Base.{
  ℕ, ◌+◌, ◌-◌, ◌%◌, ◌≤◌, ◌≡◌, refl, ◌∙◌, min, ◌++◌, arith, ltb, leb, mod_once, if◌then◌else◌, take,
  drop, length, get_elem?-take, get_elem?-drop, get_elem?-append, ext, take_all, drop_all, inl, inr,
  Bool-cases,
}
use libktorrent_stream.Util.CircularBuffer.{
  CircularBuffer, slice, empty, first_range, second_range, read_bytes, read,
}
use libktorrent_stream.Util.Words.{add32}
use libktorrent_stream.Util.CircularBuffer.Content.{
  IsValid, contents, get_elem?-contents, length-contents, get_elem?-slice, length-slice,
}

-- The two copies of `read`, by whether the bytes go round the end of the storage.
pub read_bytes_parts :
    (c : CircularBuffer) (n : ℕ)
    → IsValid c
    → n ≤ c.buf_size
    → read_bytes c n ≡ (
        if leb n (c.buf_capacity - c.start)
        then slice c.bytes c.start n
        else slice c.bytes c.start (c.buf_capacity - c.start)
          ++ slice c.bytes 0 (n - (c.buf_capacity - c.start)))
unfolding read_bytes first_range second_range
read_bytes_parts c n v h = ground arith

pub read_bytes_lem :
    (c : CircularBuffer) (n : ℕ) → IsValid c → n ≤ c.buf_size → read_bytes c n ≡ take n (contents c)
read_bytes_lem c n v h =
    read_bytes_parts c n v h
    ∙ ext _ _ λ i. ground (
      arith,
      get_elem?-slice c.bytes c.start n i,
      get_elem?-append (slice c.bytes c.start (c.buf_capacity - c.start))
          (slice c.bytes 0 (n - (c.buf_capacity - c.start))) i,
      length-slice c.bytes c.start (c.buf_capacity - c.start),
      get_elem?-slice c.bytes c.start (c.buf_capacity - c.start) i,
      get_elem?-slice c.bytes 0 (n - (c.buf_capacity - c.start)) (i - (c.buf_capacity - c.start)),
      get_elem?-take n (contents c) i,
      get_elem?-contents c i v,
    )

-- The state after `n` bytes are taken.
pub advance : CircularBuffer → ℕ → CircularBuffer
advance c n = record c { start = add32 c.start n % c.buf_capacity; buf_size = c.buf_size - n }

pub advance-IsValid :
    (c : CircularBuffer) (n : ℕ) → IsValid c → n ≤ c.buf_size → IsValid (advance c n)
unfolding advance
advance-IsValid c n v h = ground (arith, mod_once (c.start + n) c.buf_capacity)

pub contents-advance :
    (c : CircularBuffer) (n : ℕ)
    → IsValid c
    → n ≤ c.buf_size
    → contents (advance c n) ≡ drop n (contents c)
unfolding advance
contents-advance c n v h = ext _ _ λ i. ground (
  arith,
  mod_once (c.start + n) c.buf_capacity,
  get_elem?-contents (advance c n) i (advance-IsValid c n v h),
  get_elem?-drop n (contents c) i,
  get_elem?-contents c (n + i) v,
)

-- How much `read` hands out.
abbrev pub to_read : CircularBuffer → ℕ → ℕ
to_read c max_len = if ltb c.buf_size max_len then c.buf_size else max_len

pub advance_none : (c : CircularBuffer) → IsValid c → advance c 0 ≡ c
unfolding advance
advance_none c v = ground (arith, mod_once c.start c.buf_capacity)

-- The early return for an empty buffer changes nothing in what `read` gives.
pub read_lem :
    (c : CircularBuffer) (max_len : ℕ)
    → IsValid c
    → read c max_len
      ≡ (take (to_read c max_len) (contents c), to_read c max_len, advance c (to_read c max_len))
unfolding read
read_lem c max_len v = elim (Bool-cases (empty c)) [
  | inl none_held ↦ ground (arith, advance_none c v)
  | inr some_held ↦
      rw some_held
        (rw (read_bytes_lem c (to_read c max_len) v (ground arith)) (unfold advance in refl))
]

-- `read` hands out the oldest bytes, as many as asked for or as there are, and keeps the rest.
pub read_refines :
    (c : CircularBuffer) (max_len : ℕ)
    → IsValid c
    → let (out, n, c') = read c max_len in
      (out ≡ take max_len (contents c))
      × (n ≡ min max_len (length (contents c)))
      × (contents c' ≡ drop max_len (contents c))
      × IsValid c'
read_refines c max_len v = rw (read_lem c max_len v) (
  ground (arith, same_take),
  ground (arith, length-contents c v),
  contents-advance c _ v (ground arith) ∙ ground (arith, same_drop),
  advance-IsValid c _ v (ground arith),
)
  where
    same_take : take (to_read c max_len) (contents c) ≡ take max_len (contents c)
    same_take = ground (
      arith,
      length-contents c v,
      take_all c.buf_size (contents c),
      take_all max_len (contents c),
    )

    same_drop : drop (to_read c max_len) (contents c) ≡ drop max_len (contents c)
    same_drop = ground (
      arith,
      length-contents c v,
      drop_all c.buf_size (contents c),
      drop_all max_len (contents c),
    )
