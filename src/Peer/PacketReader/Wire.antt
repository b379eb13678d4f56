-- ===== src/Peer/PacketReader/Wire.antt =====
-- What a peer sends, and the blocks that the socket hands over.
use libktorrent_stream.Base.{
  ℕ, ◌^◌, ◌<◌, ◌≡◌, refl, sym, ◌∙◌, ap, false, List, [], ◌∷◌, ◌++◌, arith, length, All,
}
use libktorrent_stream.Util.Words.{write_uint32, read_uint32}
use libktorrent_stream.Util.Words.Laws.{read_uint32-write_uint32, length-write_uint32}
use libktorrent_stream.Peer.PacketReader.{IncomingPacket, PacketReader, on_data_ready}
use libktorrent_stream.Peer.PacketReader.Stream.{
  View, IsIdle, announce, receive, receive-append, receive-length,
}
use libktorrent_stream.Peer.PacketReader.Took.{view, IsValid}
use libktorrent_stream.Peer.PacketReader.Blocks.{Refines, on_data_ready-Refines}

-- The length in front of a packet
abbrev pub length_bytes : ℕ → List ℕ
length_bytes n = write_uint32 (0 ∷ 0 ∷ 0 ∷ 0 ∷ []) 0 n

-- The packets of a peer, on the wire
abbrev pub wire : List (List ℕ) → List ℕ
wire [] = []
wire (p ∷ ps) = length_bytes (length p) ++ (p ++ wire ps)

abbrev pub joined : List (List ℕ) → List ℕ
joined [] = []
joined (b ∷ bs) = b ++ joined bs

-- The blocks that the socket hands over, in order
abbrev pub feed : PacketReader → List (List ℕ) → PacketReader
feed r [] = r
feed r (b ∷ bs) = feed (on_data_ready r b) bs

pub then_feed :
    (r : PacketReader) (b : List ℕ) (bs : List (List ℕ))
    → Refines r (view r) b (on_data_ready r b)
    → Refines
        (on_data_ready r b)
        (view (on_data_ready r b))
        (joined bs)
        (feed (on_data_ready r b) bs)
    → Refines r (view r) (b ++ joined bs) (feed (on_data_ready r b) bs)
then_feed r b bs one rest = record {
  valid = rest.valid;
  same_limit = rest.same_limit ∙ one.same_limit;
  effect =
      rest.effect
      ∙ ap (λ m. receive m (view (on_data_ready r b)) (joined bs)) one.same_limit
      ∙ ap (λ w. receive r.max_packet_size w (joined bs)) one.effect
      ∙ sym (receive-append r.max_packet_size (view r) b (joined bs));
}

pub feed-Refines :
    (r : PacketReader) (blocks : List (List ℕ))
    → IsValid r
    → All (λ b. length b < 2 ^ 31) blocks
    → Refines r (view r) (joined blocks) (feed r blocks)
unfolding receive
feed-Refines r [] v small = record { valid = v; same_limit = refl; effect = refl }
feed-Refines r (b ∷ bs) v small =
    let one : Refines r (view r) b (on_data_ready r b) = on_data_ready-Refines r b v small.0 in
    then_feed r b bs one (feed-Refines (on_data_ready r b) bs one.valid small.1)

abbrev pub complete : List ℕ → IncomingPacket
complete p = record { bytes = p; size = length p; read = length p }

-- The queue with the packets in front, newest first
abbrev pub queued : List (List ℕ) → List IncomingPacket → List IncomingPacket
queued [] q = q
queued (p ∷ ps) q = queued ps (complete p ∷ q)

pub receive_header :
    (max n : ℕ) (v : View)
    → v.failed ≡ false
    → IsIdle v.packets
    → v.pending ≡ []
    → n < 2 ^ 32
    → receive max v (length_bytes n) ≡ announce max v n
receive_header max n v f idle e small =
    receive-length max v (length_bytes n) f idle (omega (arith, ap (length {A = ℕ}) e))
      (omega (arith, ap (length {A = ℕ}) e, length-write_uint32 (0 ∷ 0 ∷ 0 ∷ 0 ∷ []) 0 n))
    ∙ ap (announce max v) (
        ap (λ (xs : List ℕ). read_uint32 (xs ++ length_bytes n) 0) e
        ∙ read_uint32-write_uint32 (0 ∷ 0 ∷ 0 ∷ 0 ∷ []) 0 n (omega arith) small)
