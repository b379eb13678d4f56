-- ===== src/Util/CircularBuffer/Write.antt =====
-- `write` of the circular buffer appends to a bounded queue of bytes.
use libktorrent_stream.Base.{
  ℕ, ◌+◌, ◌-◌, ◌≤◌, ◌<◌, ◌≡◌, sym, ◌∙◌, min, List, ◌++◌, arith, ltb, ltb→lt, leb, mod_once, ◌&&◌,
  if◌then◌else◌, take, length, get_elem?, get_elem?-take, get_elem?-append, ext, append-nil, inl,
  inr, Bool-cases,
}
use libktorrent_stream.Util.CircularBuffer.{
  CircularBuffer, copy_into, slice, full, write_bytes, write,
}
use libktorrent_stream.Util.Words.{add32}
use libktorrent_stream.Util.CircularBuffer.Content.{
  IsValid, contents, place, get_elem?-contents, length-contents, get_elem?-slice, length-slice,
  get_elem?-copy_into, length-copy_into,
}

-- The place behind the content.
abbrev write_pos : CircularBuffer → ℕ
write_pos c = place c c.buf_size

-- The two copies of `write`, by whether the bytes go round the end of the storage.
write_bytes_parts :
    (c : CircularBuffer) (ptr : List ℕ) (n : ℕ)
    → IsValid c
    → c.buf_size < c.buf_capacity
    → n ≤ c.buf_capacity - c.buf_size
    → write_bytes c ptr n ≡ (
        if ltb c.buf_capacity (write_pos c + n)
        then copy_into
            (copy_into c.bytes (write_pos c) (slice ptr 0 (c.buf_capacity - write_pos c)))
            0
            (slice ptr (c.buf_capacity - write_pos c) (n - (c.buf_capacity - write_pos c)))
        else copy_into c.bytes (write_pos c) (slice ptr 0 n))
unfolding write_bytes
write_bytes_parts c ptr n v r h = ground (arith, mod_once (c.start + c.buf_size) c.buf_capacity)

module _ (c : CircularBuffer) (ptr : List ℕ) (n : ℕ) (v : IsValid c)
    (room : c.buf_size < c.buf_capacity) (h : n ≤ c.buf_capacity - c.buf_size)
    (k : n ≤ length ptr) where
  w : ℕ
  w = c.buf_capacity - write_pos c

  once : List ℕ
  once = copy_into c.bytes (write_pos c) (slice ptr 0 w)

  length-once : c.buf_capacity < write_pos c + n → length once ≡ length c.bytes
  unfolding once w
  length-once wraps = ground (
    arith,
    length-copy_into c.bytes (slice ptr 0 w) (write_pos c),
    length-slice ptr 0 w,
    v.stored,
  )

  length-write_bytes : length (write_bytes c ptr n) ≡ length c.bytes
  unfolding once w
  length-write_bytes = rw (write_bytes_parts c ptr n v room h) (
      ground (
        arith,
        length-once,
        length-copy_into once (slice ptr w (n - w)) 0,
        length-slice ptr w (n - w),
        length-copy_into c.bytes (slice ptr 0 n) (write_pos c),
        length-slice ptr 0 n,
        v.stored,
      ))

  get_elem?-straight :
      (p : ℕ)
      → write_pos c + n ≤ c.buf_capacity
      → get_elem? (copy_into c.bytes (write_pos c) (slice ptr 0 n)) p ≡ (
          if leb (write_pos c) p && ltb p (write_pos c + n)
          then get_elem? ptr (p - write_pos c)
          else get_elem? c.bytes p)
  get_elem?-straight p fits = ground (
    arith,
    length-slice ptr 0 n,
    get_elem?-copy_into c.bytes (slice ptr 0 n) (write_pos c) p,
    get_elem?-slice ptr 0 n (p - write_pos c),
    v.stored,
  )

  get_elem?-once :
      (p : ℕ)
      → c.buf_capacity < write_pos c + n
      → get_elem? once p ≡ (
          if leb (write_pos c) p && ltb p c.buf_capacity
          then get_elem? ptr (p - write_pos c)
          else get_elem? c.bytes p)
  unfolding once w
  get_elem?-once p wraps = ground (
    arith,
    length-slice ptr 0 w,
    get_elem?-copy_into c.bytes (slice ptr 0 w) (write_pos c) p,
    get_elem?-slice ptr 0 w (p - write_pos c),
    v.stored,
  )

  get_elem?-wrapped :
      (p : ℕ)
      → c.buf_capacity < write_pos c + n
      → get_elem? (copy_into once 0 (slice ptr w (n - w))) p
        ≡ (if ltb p (n - w) then get_elem? ptr (w + p) else get_elem? once p)
  unfolding w
  get_elem?-wrapped p wraps = ground (
    arith,
    length-once,
    length-slice ptr w (n - w),
    get_elem?-copy_into once (slice ptr w (n - w)) 0 p,
    get_elem?-slice ptr w (n - w) (p - 0),
    v.stored,
  )

  get_elem?-around :
      (i : ℕ)
      → i < c.buf_size + n
      → c.buf_capacity < write_pos c + n
      → get_elem? (copy_into once 0 (slice ptr w (n - w))) (place c i) ≡ (
          if ltb i c.buf_size
          then get_elem? c.bytes (place c i)
          else get_elem? ptr (i - c.buf_size))
  unfolding w
  get_elem?-around i lt wraps =
      get_elem?-wrapped (place c i) wraps ∙ ground (arith, get_elem?-once (place c i) wraps)

  -- A write leaves the content alone and puts the bytes behind it.
  get_elem?-write_bytes :
      (i : ℕ)
      → i < c.buf_size + n
      → get_elem? (write_bytes c ptr n) (place c i) ≡ (
          if ltb i c.buf_size
          then get_elem? c.bytes (place c i)
          else get_elem? ptr (i - c.buf_size))
  get_elem?-write_bytes i lt =
      rw (write_bytes_parts c ptr n v room h)
        (elim (Bool-cases (ltb c.buf_capacity (write_pos c + n))) [
          | inl wraps ↦ rw wraps (unfold once w in get_elem?-around i lt (ltb→lt _ _ wraps))
          | inr fits ↦ rw fits (get_elem?-straight (place c i) (ground arith) ∙ ground arith)
        ])

  -- The state after `n` bytes are stored.
  stored_state : CircularBuffer
  stored_state = record c { bytes = write_bytes c ptr n; buf_size = add32 c.buf_size n }

  stored_state-IsValid : IsValid stored_state
  unfolding stored_state
  stored_state-IsValid = ground (arith, length-write_bytes)

  contents-stored_state : contents stored_state ≡ contents c ++ take n ptr
  unfolding stored_state
  contents-stored_state = ext _ _ λ i. ground (
    arith,
    get_elem?-contents stored_state i stored_state-IsValid,
    get_elem?-append (contents c) (take n ptr) i,
    get_elem?-contents c i v,
    length-contents c v,
    get_elem?-take n ptr (i - c.buf_size),
    get_elem?-write_bytes i,
  )

-- `write` appends to the content as much of the bytes as there is room for.
pub write_refines :
    (c : CircularBuffer) (ptr : List ℕ)
    → IsValid c
    → let (n, c') = write c ptr (length ptr) in
      (n ≡ min (length ptr) (c.buf_capacity - length (contents c)))
      × (contents c' ≡ contents c ++ take n ptr)
      × IsValid c'
unfolding write
write_refines c ptr v = elim (Bool-cases (full c)) [
  | inl no_room ↦ rw no_room (ground (arith, length-contents c v), sym (append-nil (contents c)), v)
  | inr room ↦ rw room (
    ground (arith, length-contents c v),
    unfold stored_state in
        contents-stored_state c ptr _ v (ground arith) (ground arith) (ground arith),
    unfold stored_state in
        stored_state-IsValid c ptr _ v (ground arith) (ground arith) (ground arith),
  )
]
