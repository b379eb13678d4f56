-- ===== src/Peer/Availability.antt =====
-- Which chunks the peers of a torrent have: the bookkeeping of PeerManager in src/peer/peermanager.cpp,
-- and the `HAVE` message of src/peer/peer.cpp. The super seeder is off. A method that may tell the peer
-- that the client is interested returns whether it does.
pub mod Union
pub mod Have
mod Tests
use libktorrent_stream.Base.{
  ℕ, ◌+◌, Bool, true, false, not, ◌&&◌, ◌||◌, List, ltb, ◌==◌, if◌then◌else◌, for_up,
}
use libktorrent_stream.Util.BitSet as BitSet
use libktorrent_stream.Util.BitSet.{BitSet}
use libktorrent_stream.Util.Words.{read_uint32}
use libktorrent_stream.Peer.ChunkCounter as ChunkCounter
use libktorrent_stream.Peer.ChunkCounter.{ChunkCounter}

-- The members of the manager that the bookkeeping uses
pub record PeerManager : Type 0 where
  pub available_chunks : BitSet
  pub wanted_chunks : BitSet
  pub cnt : ChunkCounter
  pub paused : Bool

pub record Peer : Type 0 where
  pub chunks_availability : BitSet
  pub received_have_message : Bool
  pub killed : Bool

-- `PeerManager::Private::have`
pub have : PeerManager → ℕ → PeerManager × Bool
have m index = (
  record m {
    available_chunks = BitSet.set m.available_chunks index true;
    cnt = ChunkCounter.inc m.cnt index;
  },
  BitSet.get m.wanted_chunks index && not m.paused,
)

-- The body of the loop of `bitSetReceived`, for a chunk that the peer has
abbrev pub note_chunk : ℕ → PeerManager × Bool → PeerManager × Bool
note_chunk i (m, interested) = (
  record m {
    available_chunks = BitSet.set m.available_chunks i true;
    cnt = ChunkCounter.inc m.cnt i;
  },
  (if BitSet.get m.wanted_chunks i then true else interested),
)

-- `PeerManager::bitSetReceived`
pub bit_set_received : PeerManager → BitSet → PeerManager × Bool
bit_set_received m bs =
    let (m', interested) =
      for_up bs.num_bits 0 (λ i t. if BitSet.get bs i then note_chunk i t else t) (m, false) in
    (m', interested && not m.paused)

-- `PeerManager::Private::updateAvailableChunks`
pub update_available_chunks : PeerManager → PeerManager
update_available_chunks m =
    for_up m.available_chunks.num_bits 0
      (λ i t. record t {
        available_chunks = BitSet.set t.available_chunks i (ltb 0 (ChunkCounter.get t.cnt i));
      })
      m

-- What `update` does with the chunks of a peer that is killed.
pub remove_killed : PeerManager → Peer → PeerManager
remove_killed m p =
    update_available_chunks
      (record m { cnt = ChunkCounter.dec_bit_set m.cnt p.chunks_availability })

-- `Peer::handleHave`, for a packet of `len` bytes; beside the states, whether the peer is told that we are interested
pub handle_have : PeerManager → Bool → Peer → List ℕ → ℕ → PeerManager × Peer × Bool
unfolding have
handle_have m is_loaded p packet len =
    if not (len == 5)
    then (m, record p { killed = true }, false)
    else let ch = read_uint32 packet 1 in
      if ltb ch p.chunks_availability.num_bits
      then (
        (have m ch).0,
        record p {
          received_have_message = true;
          chunks_availability = BitSet.set p.chunks_availability ch true;
        },
        (have m ch).1,
      )
      else (m, record p { received_have_message = true; killed = p.killed || is_loaded }, false)
