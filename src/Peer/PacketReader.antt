-- ===== src/Peer/PacketReader.antt =====
-- src/peer/packetreader.h and src/peer/packetreader.cpp: the byte stream of a socket is cut into
-- packets. The queue of packets is kept newest first. Of the storage of a packet the model holds the
-- bytes that have been written; a pointer and a size are one list. The mutex makes
-- `onDataReady` and each `dequeuePacket` one step; `update` is several of these, between which data may come.
mod Tests
pub mod Stream
pub mod Took
pub mod Announce
pub mod Partial
pub mod NewPacket
pub mod Blocks
pub mod Wire
pub mod Handed
pub mod Delivery
use libktorrent_stream.Base.{
  ℕ, zero, suc, ◌+◌, ◌-◌, ◌^◌, Bool, true, false, ◌||◌, Option, none, some, List, [], ◌∷◌, ◌++◌,
  ltb, leb, ◌==◌, if◌then◌else◌, length, take, drop,
}
use libktorrent_stream.Util.Words.{add32, read_uint32}

-- `IncomingPacket`
pub record IncomingPacket : Type 0 where
  pub bytes : List ℕ
  pub size : ℕ
  pub read : ℕ

-- The `int` that counts the bytes of the length that are there; it starts at -1.
pub data Count : Type 0 where
  minus_one : Count
  at : ℕ → Count

pub record PacketReader : Type 0 where
  pub error : Bool
  pub packet_queue : List IncomingPacket
  pub len : List ℕ
  pub len_received : Count
  pub max_packet_size : ℕ

-- `len` is not initialised: its bytes are an argument.
pub create : List ℕ → ℕ → PacketReader
create len max_packet_size = record {
  error = false;
  packet_queue = [];
  len = len;
  len_received = minus_one;
  max_packet_size = max_packet_size;
}

-- `memcpy(len + off, buf, n)`
abbrev pub copy_len : List ℕ → ℕ → List ℕ → ℕ → List ℕ
copy_len len off buf n = take off len ++ (take n buf ++ drop (off + n) len)

-- The read of the length at the head of `newPacket`: either it takes all of the input, or it gives
-- the length and how many bytes it took.
pub data LengthRead : Type 0 where
  partial : PacketReader → ℕ → LengthRead
  whole : PacketReader → ℕ → ℕ → LengthRead

-- `if (len_received > 0)`, with that number. `(int) size` is negative from 2 ^ 31 on.
continue_length : PacketReader → ℕ → List ℕ → LengthRead
continue_length r k buf =
    if leb (2 ^ 31) (length buf) || ltb (length buf) (4 - k)
    then partial
        (record r { len = copy_len r.len k buf (length buf); len_received = at (k + length buf) })
        (length buf)
    else let len' = copy_len r.len k buf (4 - k) in
      whole (record r { len = len'; len_received = at 0 }) (read_uint32 len' 0) (4 - k)

-- The other branches
start_length : PacketReader → List ℕ → LengthRead
start_length r buf =
    if ltb (length buf) 4
    then partial
        (record r { len = copy_len r.len 0 buf (length buf); len_received = at (length buf) })
        (length buf)
    else whole r (read_uint32 buf 0) 4

read_length_at : PacketReader → Count → List ℕ → LengthRead
unfolding continue_length start_length
read_length_at r minus_one buf = start_length r buf
read_length_at r (at zero) buf = start_length r buf
read_length_at r (at (suc k)) buf = continue_length r (suc k) buf

-- `readPacket` on the packet at the back of the queue: the packet, and how much it took.
pub fill : IncomingPacket → List ℕ → IncomingPacket × ℕ
fill p buf =
    let tr = if leb p.size (add32 p.read (length buf)) then p.size - p.read else length buf in
    (record p { bytes = take p.read p.bytes ++ take tr buf; read = add32 p.read tr }, tr)

fill_newest : List IncomingPacket → List ℕ → List IncomingPacket × ℕ
unfolding fill
fill_newest [] buf = ([], 0)
fill_newest (p ∷ q) buf = let (p', n) = fill p buf in (p' ∷ q, n)

pub read_packet : PacketReader → List ℕ → PacketReader × ℕ
unfolding fill_newest
read_packet r buf =
    if length buf == 0
    then (r, 0)
    else let (q, n) = fill_newest r.packet_queue buf in (record r { packet_queue = q }, n)

-- `newPacket` once the length is there
pub begin_packet : PacketReader → ℕ → ℕ → List ℕ → PacketReader × ℕ
unfolding read_packet
begin_packet r packet_length am_of_len_read buf =
    if packet_length == 0
    then (r, am_of_len_read)
    else if ltb r.max_packet_size packet_length
    then (record r { error = true }, length buf)
    else let (r', n) =
        read_packet
          (record r {
            packet_queue = record { bytes = []; size = packet_length; read = 0 } ∷ r.packet_queue;
          })
          (drop am_of_len_read buf) in
      (r', add32 am_of_len_read n)

-- `newPacket(buf, size)`: the new state and how many bytes were taken.
pub new_packet : PacketReader → List ℕ → PacketReader × ℕ
unfolding read_length_at begin_packet
new_packet r buf = elim (read_length_at r r.len_received buf) [
  | partial r' n ↦ (r', n)
  | whole r' packet_length am_of_len_read ↦ begin_packet r' packet_length am_of_len_read buf
]

-- `while (ret < size && !error)`: each round takes a byte at least, so the fuel is the bytes left.
pub read_all : ℕ → PacketReader → List ℕ → PacketReader
unfolding new_packet
read_all zero r buf = r
read_all (suc fuel) r [] = r
read_all (suc fuel) r (b ∷ buf) = elim r.error [
  | true ↦ r
  | false ↦ let (r', n) = new_packet r (b ∷ buf) in read_all fuel r' (drop n (b ∷ buf))
]

-- The first call for a queue that is not empty
first_read : PacketReader → List IncomingPacket → List ℕ → PacketReader × ℕ
unfolding new_packet read_packet
first_read r [] buf = (r, 0)
first_read r (p ∷ q) buf = if p.read == p.size then new_packet r buf else read_packet r buf

pub on_data_ready : PacketReader → List ℕ → PacketReader
unfolding first_read read_all
on_data_ready r buf =
    if r.error
    then r
    else let (r', ret) = first_read r r.packet_queue buf in read_all (length buf) r' (drop ret buf)

-- `dequeuePacket`: the oldest packet, if it is complete.
pub dequeue : List IncomingPacket → Option (IncomingPacket × List IncomingPacket)
dequeue [] = none
dequeue (p ∷ []) = if p.read == p.size then some (p, []) else none
dequeue (p ∷ q ∷ qs) = elim (dequeue (q ∷ qs)) [
  | none ↦ none
  | some (oldest, rest) ↦ some (oldest, p ∷ rest)
]

-- The loop of `update`, where no data comes meanwhile: the packets handed to the peer, oldest first. Each round
-- takes one out of the queue.
hand_over : ℕ → List IncomingPacket → List (List ℕ) × List IncomingPacket
unfolding dequeue
hand_over zero q = ([], q)
hand_over (suc fuel) q = elim (dequeue q) [
  | none ↦ ([], q)
  | some (p, rest) ↦ let (handled, left) = hand_over fuel rest in (p.bytes ∷ handled, left)
]

pub update : PacketReader → List (List ℕ) × PacketReader
unfolding hand_over
update r =
    if r.error
    then ([], r)
    else let (handled, left) = hand_over (length r.packet_queue) r.packet_queue in
      (handled, record r { packet_queue = left })
