-- ===== src/Util/CircularBuffer/Content.antt =====
-- The content of the circular buffer, and what a copy into its storage changes.
use libktorrent_stream.Base.{
  ℕ, ◌+◌, ◌-◌, ◌^◌, ◌≤◌, ◌<◌, ◌≡◌, List, ◌++◌, none, arith, ltb, leb, ◌&&◌, if◌then◌else◌, take,
  drop, length, get_elem?, get_elem?-take, get_elem?-drop, get_elem?-append, length-take,
  length-drop, length-append,
}
use libktorrent_stream.Util.CircularBuffer.{CircularBuffer, copy_into, slice}

-- The capacity is at most half of what a `Uint32` holds, so that no sum wraps.
pub record IsValid (c : CircularBuffer) : Type 0 where
  pub stored : length c.bytes ≡ c.buf_capacity
  pub some_room : 0 < c.buf_capacity
  pub no_wrap : c.buf_capacity ≤ 2 ^ 31
  pub start_in : c.start < c.buf_capacity
  pub size_in : c.buf_size ≤ c.buf_capacity

-- The bytes held, oldest first: the storage from `start` on, going round at its end.
unfoldable pub contents : CircularBuffer → List ℕ
contents c = take c.buf_size (drop c.start c.bytes ++ take c.start c.bytes)

-- The place of the byte at index `i`.
abbrev pub place : CircularBuffer → ℕ → ℕ
place c i = if ltb (c.start + i) c.buf_capacity then c.start + i else c.start + i - c.buf_capacity

pub get_elem?-contents :
    (c : CircularBuffer) (i : ℕ)
    → IsValid c
    → get_elem? (contents c) i ≡ (if ltb i c.buf_size then get_elem? c.bytes (place c i) else none)
unfolding contents
get_elem?-contents c i v = ground (
  arith,
  get_elem?-take c.buf_size (drop c.start c.bytes ++ take c.start c.bytes) i,
  get_elem?-append (drop c.start c.bytes) (take c.start c.bytes) i,
  get_elem?-drop c.start c.bytes i,
  get_elem?-take c.start c.bytes (i - length (drop c.start c.bytes)),
  length-drop c.start c.bytes,
)

pub length-contents : (c : CircularBuffer) → IsValid c → length (contents c) ≡ c.buf_size
unfolding contents
length-contents c v = ground (
  arith,
  length-take c.buf_size (drop c.start c.bytes ++ take c.start c.bytes),
  length-append (drop c.start c.bytes) (take c.start c.bytes),
  length-drop c.start c.bytes,
  length-take c.start c.bytes,
)

pub get_elem?-slice :
    (xs : List ℕ) (off n i : ℕ)
    → get_elem? (slice xs off n) i ≡ (if ltb i n then get_elem? xs (off + i) else none)
get_elem?-slice xs off n i =
    ground (arith, get_elem?-take n (drop off xs) i, get_elem?-drop off xs i)

pub length-slice : (xs : List ℕ) (off n : ℕ) → off + n ≤ length xs → length (slice xs off n) ≡ n
length-slice xs off n h = omega (arith, length-take n (drop off xs), length-drop off xs)

pub get_elem?-copy_into :
    (dst src : List ℕ) (off i : ℕ)
    → off + length src ≤ length dst
    → get_elem? (copy_into dst off src) i
      ≡ (if leb off i && ltb i (off + length src) then get_elem? src (i - off) else get_elem? dst i)
get_elem?-copy_into dst src off i h = ground (
  arith,
  get_elem?-append (take off dst) (src ++ drop (off + length src) dst) i,
  get_elem?-take off dst i,
  get_elem?-append src (drop (off + length src) dst) (i - length (take off dst)),
  get_elem?-drop (off + length src) dst (i - length (take off dst) - length src),
  length-take off dst,
)

pub length-copy_into :
    (dst src : List ℕ) (off : ℕ)
    → off + length src ≤ length dst
    → length (copy_into dst off src) ≡ length dst
length-copy_into dst src off h = ground (
  arith,
  length-append (take off dst) (src ++ drop (off + length src) dst),
  length-append src (drop (off + length src) dst),
  length-take off dst,
  length-drop (off + length src) dst,
)
