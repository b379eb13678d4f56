-- ===== src/Util/CircularBuffer.antt =====
-- src/util/circularbuffer.h and src/util/circularbuffer.cpp. A pointer into the storage is its offset,
-- and a `memcpy` into the storage is `copy_into`. `Uint32` sums wrap.
mod Tests
pub mod Content
pub mod Read
pub mod Write
use libktorrent_stream.Base.{
  ℕ, ◌+◌, ◌-◌, ◌%◌, ◌^◌, Bool, List, [], ◌++◌, ltb, leb, ◌==◌, if◌then◌else◌, take, drop, replicate,
  length,
}
use libktorrent_stream.Util.Words.{add32}

pub record CircularBuffer : Type 0 where
  pub bytes : List ℕ
  pub buf_capacity : ℕ
  pub start : ℕ
  pub buf_size : ℕ

-- `memcpy(dst + off, src, …)` of all of `src`
abbrev pub copy_into : List ℕ → ℕ → List ℕ → List ℕ
copy_into dst off src = take off dst ++ (src ++ drop (off + length src) dst)

-- What `memcpy(…, src + off, n)` reads.
abbrev pub slice : List ℕ → ℕ → ℕ → List ℕ
slice src off n = take n (drop off src)

-- The storage that the constructor allocates is not initialised: its bytes are an argument.
pub create : List ℕ → ℕ → CircularBuffer
create storage cap = record { bytes = storage; buf_capacity = cap; start = 0; buf_size = 0 }

abbrev pub empty : CircularBuffer → Bool
empty c = c.buf_size == 0

abbrev pub full : CircularBuffer → Bool
full c = c.buf_size == c.buf_capacity

abbrev pub available : CircularBuffer → ℕ
available c = c.buf_capacity - c.buf_size

-- A range is an offset and a length; the null range has length 0.
pub first_range : CircularBuffer → ℕ × ℕ
first_range c =
    if ltb c.buf_capacity (add32 c.start c.buf_size)
    then (c.start, c.buf_capacity - c.start)
    else (c.start, c.buf_size)

pub second_range : CircularBuffer → ℕ × ℕ
second_range c =
    if ltb c.buf_capacity (add32 c.start c.buf_size)
    then (0, c.buf_size - (c.buf_capacity - c.start))
    else (0, 0)

-- The bytes that `read` stores through `ptr`: `to_read` of them.
pub read_bytes : CircularBuffer → ℕ → List ℕ
read_bytes c to_read =
    let (first, s) = first_range c in
    let (second, s') = second_range c in
    if leb to_read s
    then slice c.bytes first to_read
    else slice c.bytes first s ++ slice c.bytes second (to_read - s)

-- `read(ptr, max_len)`: the bytes stored through `ptr`, the amount read, and the new buffer.
pub read : CircularBuffer → ℕ → List ℕ × ℕ × CircularBuffer
read c max_len =
    if empty c
    then ([], 0, c)
    else let to_read = if ltb c.buf_size max_len then c.buf_size else max_len in
      (
        read_bytes c to_read,
        to_read,
        record c {
          start = add32 c.start to_read % c.buf_capacity;
          buf_size = c.buf_size - to_read;
        },
      )

-- The storage after `to_write` bytes of `ptr` are copied to the place behind the content.
pub write_bytes : CircularBuffer → List ℕ → ℕ → List ℕ
write_bytes c ptr to_write =
    let write_pos = add32 c.start c.buf_size % c.buf_capacity in
    let w = c.buf_capacity - write_pos in
    if ltb c.buf_capacity (add32 write_pos to_write)
    then copy_into (copy_into c.bytes write_pos (slice ptr 0 w)) 0 (slice ptr w (to_write - w))
    else copy_into c.bytes write_pos (slice ptr 0 to_write)

-- `write(ptr, len)`: the amount written and the new buffer.
pub write : CircularBuffer → List ℕ → ℕ → ℕ × CircularBuffer
write c ptr len =
    if full c
    then (0, c)
    else let free_space = c.buf_capacity - c.buf_size in
      let to_write = if ltb free_space len then free_space else len in
      (
        to_write,
        record c { bytes = write_bytes c ptr to_write; buf_size = add32 c.buf_size to_write },
      )
