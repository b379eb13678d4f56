-- ===== src/Utp/LocalWindow.antt =====
-- The packets that come in, src/utp/localwindow.h and src/utp/localwindow.cpp: they are kept by number, with
-- gaps for those that are missing, and read in order. The loops that go on from an index of the vector run
-- on the packets from there on. Of the header of a packet the window uses the sequence number. An
-- index past the end of the vector, which does not come up where the numbers follow each other, reads the
-- first packet.
pub mod Invariant
pub mod Loop
pub mod Take
pub mod Read
pub mod Fill
pub mod Store
pub mod Advance
pub mod Numbers
pub mod Received
pub mod Receive
pub mod Stream
pub mod Arrived
pub mod Delivery
mod Tests
use libktorrent_stream.Base.{
  ℕ, zero, suc, ◌+◌, ◌-◌, ◌%◌, ◌^◌, min, Bool, true, false, ◌&&◌, Option, none, some, List, [], ◌∷◌,
  ◌++◌, ltb, leb, ◌==◌, if◌then◌else◌, length, take, drop, set, get_or, replicate,
}
use libktorrent_stream.Util.Words.{add32}
use libktorrent_stream.Utp.SeqNr.{cmp_smaller, cmp_smaller_or_equal, diff}
use libktorrent_stream.Utp.SelectiveAck.{SelectiveAck, ack}
use libktorrent_stream.Utp.RemoteWindow.{sub32}

pub record WindowPacket : Type 0 where
  pub seq_nr : ℕ
  pub packet : Option (List ℕ)
  pub bytes_read : ℕ

pub record LocalWindow : Type 0 where
  pub last_seq_nr : ℕ
  pub first_seq_nr : ℕ
  pub capacity : ℕ
  pub incoming_packets : List WindowPacket
  pub window_space : ℕ
  pub bytes_available : ℕ

unfoldable pub create : ℕ → LocalWindow
create cap = record {
  last_seq_nr = 0;
  first_seq_nr = 0;
  capacity = cap;
  incoming_packets = [];
  window_space = cap;
  bytes_available = 0;
}

unfoldable pub set_last_seq_nr : LocalWindow → ℕ → LocalWindow
set_last_seq_nr w lsn = record w { last_seq_nr = lsn; first_seq_nr = lsn }

-- `Uint16` addition of one
abbrev pub next16 : ℕ → ℕ
next16 n = (n + 1) % 2 ^ 16

-- `WindowPacket(seq_nr)`
abbrev pub missing : ℕ → WindowPacket
missing seq_nr = record { seq_nr = seq_nr; packet = none; bytes_read = 0 }

abbrev pub is_present : Option (List ℕ) → Bool
is_present none = false
is_present (some bytes) = true

-- `WindowPacket::read`: the bytes, and the packet after it
unfoldable pub read_packet : WindowPacket → List ℕ → ℕ → List ℕ × WindowPacket
read_packet p bytes max_len =
    let to_read = min (sub32 (length bytes) p.bytes_read) max_len in
    if to_read == 0 then ([], p) else (
      take to_read (drop p.bytes_read bytes),
      record p { bytes_read = add32 p.bytes_read to_read },
    )

-- What the loop of `read` gives: the bytes, the packets that it went over as they are now, and how many were fully read
pub record Taken : Type 0 where
  pub bytes : List ℕ
  pub packets : List WindowPacket
  pub full : ℕ

-- The body of the loop: a packet that is fully read is cleared, and the loop goes on.
unfoldable pub take_packet :
    WindowPacket → List ℕ × WindowPacket → ℕ → List WindowPacket → Taken → Taken
take_packet p r size ps rest =
    if r.1.bytes_read == size
    then record {
      bytes = r.0 ++ rest.bytes;
      packets = record r.1 { packet = none } ∷ rest.packets;
      full = suc rest.full;
    }
    else record { bytes = r.0; packets = r.1 ∷ ps; full = 0 }

-- The loop of `read`, with the number of bytes that are still wanted
unfoldable pub read_packets : ℕ → ℕ → List WindowPacket → Taken
read_packets last_seq_nr left [] = record { bytes = []; packets = []; full = 0 }
read_packets last_seq_nr left (p ∷ ps) = elim p.packet [
  | none ↦ record { bytes = []; packets = p ∷ ps; full = 0 }
  | some bytes ↦
      let r = read_packet p bytes left in
      let rest = read_packets last_seq_nr (left - length r.0) ps in
      if cmp_smaller_or_equal p.seq_nr last_seq_nr && ltb 0 left
      then take_packet p r (length bytes) ps rest
      else record { bytes = []; packets = p ∷ ps; full = 0 }
]

-- `incoming_packets.erase` of what was read, if it is more than 20 packets
unfoldable pub erase : ℕ → List WindowPacket → List WindowPacket
erase off ps = if ltb 20 off then drop off ps else ps

-- `read`. The first packet of an empty window, which `front` asks for, is undefined.
unfoldable pub read : LocalWindow → ℕ → Option (List ℕ × LocalWindow)
read w max_len = elim w.incoming_packets [
  | [] ↦ none
  | front ∷ ps ↦
      let off = diff front.seq_nr w.first_seq_nr in
      let r = read_packets w.last_seq_nr max_len (drop off (front ∷ ps)) in
      let first = (w.first_seq_nr + r.full) % 2 ^ 16 in
      some (
        r.bytes,
        record w {
          first_seq_nr = first;
          incoming_packets = erase (diff front.seq_nr first) (take off (front ∷ ps) ++ r.packets);
          window_space = add32 w.window_space (length r.bytes);
          bytes_available = sub32 w.bytes_available (length r.bytes);
        },
      )
]

-- The loops that push a gap for each number from `i` up to `seq_nr`
unfoldable pub gaps : ℕ → ℕ → ℕ → List WindowPacket
gaps zero i seq_nr = []
gaps (suc fuel) i seq_nr =
    let rest = gaps fuel (next16 i) seq_nr in if cmp_smaller i seq_nr then missing i ∷ rest else []

-- The gaps behind the number `last`, and then the packet
unfoldable pub push_back : List WindowPacket → ℕ → WindowPacket → List WindowPacket
push_back ps last p =
    ps ++ (gaps ((p.seq_nr + 2 ^ 16 - last) % 2 ^ 16) (next16 last) p.seq_nr ++ (p ∷ []))

unfoldable pub back : WindowPacket → List WindowPacket → WindowPacket
back p [] = p
back p (q ∷ ps) = back q ps

-- `WindowPacket::set`
abbrev pub fill_slot : WindowPacket → WindowPacket → WindowPacket
fill_slot slot p = record slot { packet = p.packet; bytes_read = p.bytes_read }

-- The place of a packet: none if it is there already
unfoldable pub store : LocalWindow → WindowPacket → Option LocalWindow
store w p = elim w.incoming_packets [
  | [] ↦ some (record w {
    first_seq_nr = next16 w.last_seq_nr;
    incoming_packets = push_back [] w.last_seq_nr p;
  })
  | front ∷ ps ↦
      if cmp_smaller (back front ps).seq_nr p.seq_nr
      then some (record w { incoming_packets = push_back (front ∷ ps) (back front ps).seq_nr p })
      else let off = diff front.seq_nr p.seq_nr in
        if is_present (get_or (front ∷ ps) off front).packet
        then none
        else some (record w {
          incoming_packets = set (front ∷ ps) off (fill_slot (get_or (front ∷ ps) off front) p);
        })
]

-- The loop that moves `last_seq_nr` on while the next packet is there
unfoldable pub advance : List WindowPacket → LocalWindow → LocalWindow
advance [] w = w
advance (p ∷ ps) w = elim p.packet [
  | none ↦ w
  | some bytes ↦ advance ps (record w {
    bytes_available = add32 w.bytes_available (sub32 (length bytes) p.bytes_read);
    last_seq_nr = next16 w.last_seq_nr;
  })
]

-- `bytes_available` and `last_seq_nr` after a packet was stored
unfoldable pub acknowledge_next : LocalWindow → ℕ → ℕ → LocalWindow
acknowledge_next w seq_nr data_size =
    if seq_nr == next16 w.last_seq_nr
    then advance
        (drop (diff (get_or w.incoming_packets 0 (missing 0)).seq_nr (next16 seq_nr))
          w.incoming_packets)
        (record w { bytes_available = add32 w.bytes_available data_size; last_seq_nr = seq_nr })
    else w

unfoldable pub stored : LocalWindow → Option LocalWindow → ℕ → ℕ → Bool × LocalWindow
stored w none seq_nr data_size = (true, w)
stored w (some w1) seq_nr data_size =
    let w2 = acknowledge_next w1 seq_nr data_size in
    (true, record w2 { window_space = sub32 w2.window_space data_size })

unfoldable pub packet_received : LocalWindow → ℕ → List ℕ → ℕ → Bool × LocalWindow
packet_received w seq_nr bytes data_off =
    let data_size = sub32 (length bytes) data_off in
    if cmp_smaller_or_equal seq_nr w.last_seq_nr
    then (true, w)
    else if ltb w.window_space data_size
    then (false, w)
    else stored w (store w (record { seq_nr = seq_nr; packet = some bytes; bytes_read = data_off }))
        seq_nr data_size

-- `selectiveAckBits`
unfoldable pub selective_ack_bits : LocalWindow → ℕ
selective_ack_bits w = elim w.incoming_packets [
  | [] ↦ 0
  | front ∷ ps ↦
      if cmp_smaller w.last_seq_nr (back front ps).seq_nr
      then sub32 (diff w.last_seq_nr (back front ps).seq_nr) 1
      else 0
]

-- `std::upper_bound`, on packets that are in order: those whose number is larger
unfoldable pub upper_bound : ℕ → List WindowPacket → List WindowPacket
upper_bound seq_nr [] = []
upper_bound seq_nr (p ∷ ps) =
    let rest = upper_bound seq_nr ps in if cmp_smaller seq_nr p.seq_nr then p ∷ ps else rest

-- The loop of `fillSelectiveAck`
unfoldable pub ack_packets : ℕ → List WindowPacket → SelectiveAck → SelectiveAck
ack_packets last_seq_nr [] sack = sack
ack_packets last_seq_nr (p ∷ ps) sack =
    ack_packets last_seq_nr ps
      (if is_present p.packet then ack sack (diff last_seq_nr p.seq_nr) else sack)

unfoldable pub fill_selective_ack : LocalWindow → SelectiveAck → SelectiveAck
fill_selective_ack w sack =
    ack_packets w.last_seq_nr (upper_bound (next16 w.last_seq_nr) w.incoming_packets)
      (record sack { bitmask = replicate sack.length 0 ++ drop sack.length sack.bitmask })
