-- ===== src/Utp/Header/RoundTrip.antt =====
-- What `Header::write` stores `Header::read` reads back.
mod Tests
use libktorrent_stream.Base.{
  ℕ, ◌+◌, ◌*◌, ◌/◌, ◌%◌, ◌^◌, ◌≤◌, ◌<◌, ◌≡◌, ◌∙◌, sym, bit_and, bit_or, List, arith, length, set,
  length-set, get_or-set, all_below, all_below_sound, Bool, ◌&&◌, ◌==◌, refl,
}
use libktorrent_stream.Util.Words.{byte_at, write_uint16, write_uint32}
use libktorrent_stream.Util.Words.Laws.{
  read_uint32-write_uint32, read_uint16-write_uint16, length-write_uint32, length-write_uint16,
}
use libktorrent_stream.Util.Words.Prefix.{
  SameBelow, SameBelow-trans, SameBelow-write_uint32, SameBelow-write_uint16, SameBelow-set,
  read_uint32_same, read_uint16_same,
}
use libktorrent_stream.Utp.Header.{Header, read, write}

-- The fields fit their widths.
pub record IsValid (h : Header) : Type 0 where
  pub version_fits : h.version < 2 ^ 4
  pub type_fits : h.type < 2 ^ 4
  pub extension_fits : h.extension < 2 ^ 8
  pub connection_id_fits : h.connection_id < 2 ^ 16
  pub timestamp_fits : h.timestamp_microseconds < 2 ^ 32
  pub difference_fits : h.timestamp_difference_microseconds < 2 ^ 32
  pub wnd_size_fits : h.wnd_size < 2 ^ 32
  pub seq_nr_fits : h.seq_nr < 2 ^ 16
  pub ack_nr_fits : h.ack_nr < 2 ^ 16

abbrev first_byte : ℕ → ℕ → ℕ
first_byte type version = bit_or (bit_and (type * 2 ^ 4) 0xF0) (bit_and version 0x0F)

-- The halves of the first byte
halves_lem :
    (type version : ℕ)
    → type < 2 ^ 4
    → version < 2 ^ 4
    → (bit_and (first_byte type version) 0x0F ≡ version)
      × (bit_and (first_byte type version) 0xF0 / 2 ^ 4 ≡ type)
unfolding all_below
halves_lem type version p q =
    ground
      (arith, all_below_sound 16 (halves type) version (all_below_sound 16 every type refl p) q)
  where
    halves : ℕ → ℕ → Bool
    halves t v =
        (bit_and (first_byte t v) 0x0F == v) && (bit_and (first_byte t v) 0xF0 / 2 ^ 4 == t)

    every : ℕ → Bool
    every t = all_below 16 (halves t)

-- The storage after each of the writes, and what each leaves alone
module _ (h : Header) (buf : List ℕ) (fits : 20 ≤ length buf) where
  abbrev typed : List ℕ
  typed = set buf 0 (first_byte h.type h.version)

  abbrev extended : List ℕ
  extended = set typed 1 h.extension

  abbrev identified : List ℕ
  identified = write_uint16 extended 2 h.connection_id

  abbrev stamped : List ℕ
  stamped = write_uint32 identified 4 h.timestamp_microseconds

  abbrev compared : List ℕ
  compared = write_uint32 stamped 8 h.timestamp_difference_microseconds

  abbrev sized : List ℕ
  sized = write_uint32 compared 12 h.wnd_size

  abbrev numbered : List ℕ
  numbered = write_uint16 sized 16 h.seq_nr

  abbrev acked : List ℕ
  acked = write_uint16 numbered 18 h.ack_nr

  length-typed : length typed ≡ length buf
  length-typed = length-set _ _ _

  length-extended : length extended ≡ length buf
  length-extended = length-set _ _ _ ∙ length-typed

  length-identified : length identified ≡ length buf
  length-identified = length-write_uint16 _ _ _ ∙ length-extended

  length-stamped : length stamped ≡ length buf
  length-stamped = length-write_uint32 _ _ _ ∙ length-identified

  length-compared : length compared ≡ length buf
  length-compared = length-write_uint32 _ _ _ ∙ length-stamped

  length-sized : length sized ≡ length buf
  length-sized = length-write_uint32 _ _ _ ∙ length-compared

  length-numbered : length numbered ≡ length buf
  length-numbered = length-write_uint16 _ _ _ ∙ length-sized

  keeps-numbered : SameBelow 18 acked numbered
  keeps-numbered = SameBelow-write_uint16 numbered 18 h.ack_nr (omega (arith, length-numbered))

  keeps-sized : SameBelow 16 acked sized
  keeps-sized =
      SameBelow-trans 18 16 acked numbered sized (omega arith) keeps-numbered
        (SameBelow-write_uint16 sized 16 h.seq_nr (omega (arith, length-sized)))

  keeps-compared : SameBelow 12 acked compared
  keeps-compared =
      SameBelow-trans 16 12 acked sized compared (omega arith) keeps-sized
        (SameBelow-write_uint32 compared 12 h.wnd_size (omega (arith, length-compared)))

  keeps-stamped : SameBelow 8 acked stamped
  keeps-stamped = SameBelow-trans 12 8 acked compared stamped (omega arith) keeps-compared (
      SameBelow-write_uint32 stamped 8 h.timestamp_difference_microseconds
        (omega (arith, length-stamped)))

  keeps-identified : SameBelow 4 acked identified
  keeps-identified = SameBelow-trans 8 4 acked stamped identified (omega arith) keeps-stamped (
      SameBelow-write_uint32 identified 4 h.timestamp_microseconds
        (omega (arith, length-identified)))

  keeps-extended : SameBelow 2 acked extended
  keeps-extended =
      SameBelow-trans 4 2 acked identified extended (omega arith) keeps-identified
        (SameBelow-write_uint16 extended 2 h.connection_id (omega (arith, length-extended)))

  first_stays : byte_at acked 0 ≡ first_byte h.type h.version
  first_stays = ground (
    arith,
    keeps-extended.same 0,
    get_or-set typed 1 0 h.extension 0,
    get_or-set buf 0 0 (first_byte h.type h.version) 0,
    length-typed,
  )

  second_stays : byte_at acked 1 ≡ h.extension
  second_stays =
      ground (arith, keeps-extended.same 1, get_or-set typed 1 1 h.extension 0, length-typed)

-- `Header::read` gives back the fields that `Header::write` stored, if they fit their widths and the
-- storage has the twenty bytes.
pub read-write : (h : Header) (buf : List ℕ) → IsValid h → 20 ≤ length buf → read (write h buf) ≡ h
unfolding read write
read-write h buf v fits =
    let halves = halves_lem h.type h.version v.type_fits v.version_fits in
    rw
      (
        first_stays h buf fits,
        halves.0,
        halves.1,
        second_stays h buf fits,
        read_uint16_same 4 2 _ _ (omega arith) (keeps-identified h buf fits),
        read_uint16-write_uint16 (extended h buf fits) 2 h.connection_id
            (omega (arith, length-extended h buf fits)) v.connection_id_fits,
        read_uint32_same 8 4 _ _ (omega arith) (keeps-stamped h buf fits),
        read_uint32-write_uint32 (identified h buf fits) 4 h.timestamp_microseconds
            (omega (arith, length-identified h buf fits)) v.timestamp_fits,
        read_uint32_same 12 8 _ _ (omega arith) (keeps-compared h buf fits),
        read_uint32-write_uint32 (stamped h buf fits) 8 h.timestamp_difference_microseconds
            (omega (arith, length-stamped h buf fits)) v.difference_fits,
        read_uint32_same 16 12 _ _ (omega arith) (keeps-sized h buf fits),
        read_uint32-write_uint32 (compared h buf fits) 12 h.wnd_size
            (omega (arith, length-compared h buf fits)) v.wnd_size_fits,
        read_uint16_same 18 16 _ _ (omega arith) (keeps-numbered h buf fits),
        read_uint16-write_uint16 (sized h buf fits) 16 h.seq_nr
            (omega (arith, length-sized h buf fits)) v.seq_nr_fits,
        read_uint16-write_uint16 (numbered h buf fits) 18 h.ack_nr
            (omega (arith, length-numbered h buf fits)) v.ack_nr_fits,
      )
      refl

pub extension-read : (packet : List ℕ) → (read packet).extension ≡ byte_at packet 1
unfolding read
extension-read packet = refl
