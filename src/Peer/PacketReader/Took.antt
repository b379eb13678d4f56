-- ===== src/Peer/PacketReader/Took.antt =====
-- The states of a packet reader, its view as a stream, and what one call takes of a block: `readPacket`.
use libktorrent_stream.Base.{
  ℕ, ◌+◌, ◌-◌, ◌^◌, ◌≤◌, ◌<◌, ◌≡◌, refl, sym, subst, false, ◌⊎◌, inl, inr, List, [], ◌∷◌, arith,
  length, take, All, min, length-append, length-take, take_all, append-nil,
}
use libktorrent_stream.Peer.PacketReader.{
  IncomingPacket, Count, minus_one, at, PacketReader, create, fill, read_packet,
}
use libktorrent_stream.Peer.PacketReader.Stream.{View, IsIdle, grown, receive, receive_body}

-- How many bytes of the length are there.
abbrev pub received : Count → ℕ
received minus_one = 0
received (at k) = k

unfoldable pub view : PacketReader → View
view r = record {
  failed = r.error;
  packets = r.packet_queue;
  pending = take (received r.len_received) r.len;
}

pub record IsPacket (max : ℕ) (p : IncomingPacket) : Type 0 where
  pub written : length p.bytes ≡ p.read
  pub within : p.read ≤ p.size
  pub not_empty : 0 < p.size
  pub limited : p.size ≤ max

pub record IsValid (r : PacketReader) : Type 0 where
  pub four : length r.len ≡ 4
  pub few : received r.len_received < 4
  pub small : r.max_packet_size < 2 ^ 31
  pub packets : All (IsPacket r.max_packet_size) r.packet_queue
  pub settled : IsIdle r.packet_queue ⊎ (received r.len_received ≡ 0)

pub create-IsValid :
    (len : List ℕ) (max : ℕ) → length len ≡ 4 → max < 2 ^ 31 → IsValid (create len max)
unfolding create
create-IsValid len max h small = record {
  four = h;
  few = omega arith;
  small = small;
  packets = tt;
  settled = inl tt;
}

-- What `fill` takes goes behind the bytes that are there.
pub fill_lem :
    (max : ℕ) (p : IncomingPacket) (buf : List ℕ)
    → max < 2 ^ 31
    → IsPacket max p
    → length buf < 2 ^ 31
    → fill p buf ≡ (
      grown p (take (min (p.size - p.read) (length buf)) buf),
      min (p.size - p.read) (length buf),
    )
unfolding fill
fill_lem max p buf small v h = ground (
  arith,
  take_all p.read p.bytes,
  take_all (length buf) buf,
  length-take (min (p.size - p.read) (length buf)) buf,
)

-- What one call takes of its input, and what it leaves.
pub record Took (r : PacketReader) (buf : List ℕ) (before : View) (r' : PacketReader) (n : ℕ)
    : Type 0 where
  pub valid : IsValid r'
  pub same_limit : r'.max_packet_size ≡ r.max_packet_size
  pub bounded : n ≤ length buf
  pub effect : view r' ≡ receive r.max_packet_size before (take n buf)
  pub finished : (n ≡ length buf) ⊎ IsIdle r'.packet_queue

pub grown-IsPacket :
    (max : ℕ) (p : IncomingPacket) (bs : List ℕ)
    → IsPacket max p
    → p.read + length bs ≤ p.size
    → IsPacket max (grown p bs)
grown-IsPacket max p bs v h = ground (arith, length-append p.bytes bs)

-- How much of its input the newest packet takes
abbrev pub room : IncomingPacket → List ℕ → ℕ
room p buf = min (p.size - p.read) (length buf)

pub read_packet_lem :
    (r : PacketReader) (p : IncomingPacket) (q : List IncomingPacket) (buf : List ℕ)
    → IsValid r
    → r.packet_queue ≡ p ∷ q
    → IsPacket r.max_packet_size p
    → length buf < 2 ^ 31
    → read_packet r buf
      ≡ (record r { packet_queue = grown p (take (room p buf) buf) ∷ q }, room p buf)
unfolding read_packet
read_packet_lem r p q [] v e packet small = ground (arith, append-nil p.bytes)
read_packet_lem r p q (b ∷ buf) v e packet small =
    ground (arith, fill_lem r.max_packet_size p (b ∷ buf) v.small packet small)

pub newest-IsPacket :
    (r : PacketReader) (p : IncomingPacket) (q : List IncomingPacket)
    → IsValid r
    → r.packet_queue ≡ p ∷ q
    → IsPacket r.max_packet_size p × All (IsPacket r.max_packet_size) q
newest-IsPacket r p q v e = subst (All (IsPacket r.max_packet_size)) e v.packets

-- `readPacket` for a newest packet that may wait for bytes
module _ (r : PacketReader) (p : IncomingPacket) (q : List IncomingPacket) (buf : List ℕ)
    (v : IsValid r) (f : r.error ≡ false) (e : r.packet_queue ≡ p ∷ q)
    (none : received r.len_received ≡ 0) (small : length buf < 2 ^ 31) where
  n : ℕ
  n = room p buf

  packet : IsPacket r.max_packet_size p
  packet = (newest-IsPacket r p q v e).0

  after : PacketReader
  after = record r { packet_queue = grown p (take n buf) ∷ q }

  length-taken : length (take n buf) ≡ n
  unfolding n
  length-taken = omega (arith, length-take n buf)

  after-IsValid : IsValid after
  unfolding after n
  after-IsValid = record {
    four = v.four;
    few = v.few;
    small = v.small;
    packets = (
      grown-IsPacket r.max_packet_size p _ packet (omega (arith, length-taken, packet.within)),
      (newest-IsPacket r p q v e).1,
    );
    settled = inr none;
  }

  after-view : view after ≡ receive r.max_packet_size (view r) (take n buf)
  unfolding after view n
  after-view = sym (
      receive_body r.max_packet_size (view r) p q (take n buf) f e
        (omega (arith, length-taken, packet.within)))

  pub read_packet-Took : Took r buf (view r) (read_packet r buf).0 (read_packet r buf).1
  unfolding n after
  read_packet-Took = rw (read_packet_lem r p q buf v e packet small) (record {
    valid = after-IsValid;
    same_limit = refl;
    bounded = omega arith;
    effect = after-view;
    finished = ground (arith, length-taken, packet.within);
  })
