-- ===== src/Util/Words/Laws.antt =====
-- The reads and writes of words by arithmetic, and their round trips.
use native.Mathlib.Nat.{mul-div_cancel, one-le-pow}
use libktorrent_stream.Base.{
  ℕ, ◌+◌, ◌*◌, ◌/◌, ◌%◌, ◌^◌, ◌≤◌, ◌<◌, ◌≡◌, ◌∙◌, bit_and, bit_or, List, arith, length, set,
  get_or-set, length-set, All, All-get_or, or-shifted, and-shifted, and-byte, ◌==◌, if◌then◌else◌,
}
use libktorrent_stream.Util.Words.{byte_at, write_uint32, read_uint32, write_uint16, read_uint16}

abbrev pub IsByte : ℕ → Type 0
IsByte b = b < 256

byte_at-IsByte : (buf : List ℕ) (i : ℕ) → All IsByte buf → byte_at buf i < 256
byte_at-IsByte buf i a = All-get_or IsByte buf i 0 (omega arith) a

-- Four bytes in big-endian order.
abbrev pub word32 : ℕ → ℕ → ℕ → ℕ → ℕ
word32 a b c d = a * 2 ^ 24 + b * 2 ^ 16 + c * 2 ^ 8 + d

join32 :
    (a b c d : ℕ)
    → b < 256
    → c < 256
    → d < 256
    → bit_or (bit_or (bit_or (a * 2 ^ 24) (b * 2 ^ 16)) (c * 2 ^ 8)) d ≡ word32 a b c d
join32 a b c d hb hc hd =
    let ab : bit_or (a * 2 ^ 24) (b * 2 ^ 16) ≡ (a * 2 ^ 8 + b) * 2 ^ 16 =
      or-shifted 24 a (b * 2 ^ 16) (omega arith) ∙ omega arith in
    let abc : bit_or ((a * 2 ^ 8 + b) * 2 ^ 16) (c * 2 ^ 8) ≡ (a * 2 ^ 16 + b * 2 ^ 8 + c) * 2 ^ 8 =
      or-shifted 16 (a * 2 ^ 8 + b) (c * 2 ^ 8) (omega arith) ∙ omega arith in
    rw (ab, abc) (or-shifted 8 (a * 2 ^ 16 + b * 2 ^ 8 + c) d hd ∙ omega arith)

pub read_uint32-word32 :
    (buf : List ℕ) (off : ℕ)
    → All IsByte buf
    → read_uint32 buf off
      ≡ word32
          (byte_at buf off)
          (byte_at buf (off + 1))
          (byte_at buf (off + 2))
          (byte_at buf (off + 3))
unfolding read_uint32
read_uint32-word32 buf off a =
    join32 (byte_at buf off) (byte_at buf (off + 1)) (byte_at buf (off + 2)) (byte_at buf (off + 3))
      (byte_at-IsByte buf (off + 1) a) (byte_at-IsByte buf (off + 2) a)
      (byte_at-IsByte buf (off + 3) a)

field32 : (val : ℕ) (k : ℕ) → bit_and val (255 * 2 ^ k) / 2 ^ k ≡ val / 2 ^ k % 256
field32 val k =
    rw (and-shifted k val 255, and-byte)
      (mul-div_cancel (val / 2 ^ k % 256) (one-le-pow k 2 (omega arith)))

-- What `WriteUint32` stores: the four bytes of the value, and nothing else.
pub byte_at-write_uint32 :
    (buf : List ℕ) (off val i : ℕ)
    → off + 4 ≤ length buf
    → byte_at (write_uint32 buf off val) i ≡ (
        if i == off
        then val / 2 ^ 24 % 256
        else if i == off + 1
        then val / 2 ^ 16 % 256
        else if i == off + 2
        then val / 2 ^ 8 % 256
        else if i == off + 3
        then val % 256
        else byte_at buf i)
unfolding write_uint32
byte_at-write_uint32 buf off val i h = ground (
  arith,
  field32 val 24,
  field32 val 16,
  field32 val 8,
  and-byte val,
  get_or-set buf (off + 0) i (bit_and val 0xFF000000 / 2 ^ 24) 0,
  get_or-set buf0 (off + 1) i (bit_and val 0x00FF0000 / 2 ^ 16) 0,
  get_or-set buf1 (off + 2) i (bit_and val 0x0000FF00 / 2 ^ 8) 0,
  get_or-set buf2 (off + 3) i (bit_and val 0x000000FF) 0,
  length-set buf (off + 0) (bit_and val 0xFF000000 / 2 ^ 24),
  length-set buf0 (off + 1) (bit_and val 0x00FF0000 / 2 ^ 16),
  length-set buf1 (off + 2) (bit_and val 0x0000FF00 / 2 ^ 8),
)
  where
    buf0 : List ℕ
    buf0 = set buf (off + 0) (bit_and val 0xFF000000 / 2 ^ 24)

    buf1 : List ℕ
    buf1 = set buf0 (off + 1) (bit_and val 0x00FF0000 / 2 ^ 16)

    buf2 : List ℕ
    buf2 = set buf1 (off + 2) (bit_and val 0x0000FF00 / 2 ^ 8)

-- What `WriteUint32` writes `ReadUint32` reads back.
pub read_uint32-write_uint32 :
    (buf : List ℕ) (off val : ℕ)
    → off + 4 ≤ length buf
    → val < 2 ^ 32
    → read_uint32 (write_uint32 buf off val) off ≡ val
unfolding read_uint32
read_uint32-write_uint32 buf off val h small =
    let b0 : byte_at (write_uint32 buf off val) off ≡ val / 2 ^ 24 % 256 =
      byte_at-write_uint32 buf off val off h ∙ ground arith in
    let b1 : byte_at (write_uint32 buf off val) (off + 1) ≡ val / 2 ^ 16 % 256 =
      byte_at-write_uint32 buf off val (off + 1) h ∙ ground arith in
    let b2 : byte_at (write_uint32 buf off val) (off + 2) ≡ val / 2 ^ 8 % 256 =
      byte_at-write_uint32 buf off val (off + 2) h ∙ ground arith in
    let b3 : byte_at (write_uint32 buf off val) (off + 3) ≡ val % 256 =
      byte_at-write_uint32 buf off val (off + 3) h ∙ ground arith in
    rw (b0, b1, b2, b3)
      (join32 (val / 2 ^ 24 % 256) (val / 2 ^ 16 % 256) (val / 2 ^ 8 % 256) (val % 256)
          (omega arith) (omega arith) (omega arith)
        ∙ omega arith)

pub byte_at-write_uint16 :
    (buf : List ℕ) (off val i : ℕ)
    → off + 2 ≤ length buf
    → byte_at (write_uint16 buf off val) i
      ≡ (if i == off then val / 2 ^ 8 % 256 else if i == off + 1 then val % 256 else byte_at buf i)
unfolding write_uint16
byte_at-write_uint16 buf off val i h = ground (
  arith,
  field32 val 8,
  and-byte val,
  get_or-set buf (off + 0) i (bit_and val 0xFF00 / 2 ^ 8) 0,
  get_or-set (set buf (off + 0) (bit_and val 0xFF00 / 2 ^ 8)) (off + 1) i (bit_and val 0x000FF) 0,
  length-set buf (off + 0) (bit_and val 0xFF00 / 2 ^ 8),
)

-- What `WriteUint16` writes `ReadUint16` reads back.
pub read_uint16-write_uint16 :
    (buf : List ℕ) (off val : ℕ)
    → off + 2 ≤ length buf
    → val < 2 ^ 16
    → read_uint16 (write_uint16 buf off val) off ≡ val
unfolding read_uint16
read_uint16-write_uint16 buf off val h small =
    let b0 : byte_at (write_uint16 buf off val) off ≡ val / 2 ^ 8 % 256 =
      byte_at-write_uint16 buf off val off h ∙ ground arith in
    let b1 : byte_at (write_uint16 buf off val) (off + 1) ≡ val % 256 =
      byte_at-write_uint16 buf off val (off + 1) h ∙ ground arith in
    rw (b0, b1) (or-shifted 8 (val / 2 ^ 8 % 256) (val % 256) (omega arith) ∙ omega arith)

pub length-write_uint32 :
    (buf : List ℕ) (off val : ℕ) → length (write_uint32 buf off val) ≡ length buf
unfolding write_uint32
length-write_uint32 buf off val =
    length-set _ _ _ ∙ length-set _ _ _ ∙ length-set _ _ _ ∙ length-set _ _ _

pub length-write_uint16 :
    (buf : List ℕ) (off val : ℕ) → length (write_uint16 buf off val) ≡ length buf
unfolding write_uint16
length-write_uint16 buf off val = length-set _ _ _ ∙ length-set _ _ _
