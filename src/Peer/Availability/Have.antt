-- ===== src/Peer/Availability/Have.antt =====
-- The `HAVE` message: of a chunk that the peer did not have, and of one that it had announced before.
use libktorrent_stream.Base.{
  ℕ, ◌+◌, ◌^◌, ◌<◌, ◌≡◌, refl, ap, ◌∙◌, Bool, true, false, not, ◌&&◌, List, ◌∷◌, ltb, length, arith,
}
use libktorrent_stream.Util.Words.{read_uint32}
use libktorrent_stream.Util.BitSet as BitSet
use libktorrent_stream.Util.BitSet.{BitSet, increased}
use libktorrent_stream.Util.BitSet.Counted.{IsValid, get-set, set-IsValid, set-shape, set_same}
use libktorrent_stream.Peer.ChunkCounter as ChunkCounter
use libktorrent_stream.Peer.ChunkCounter.{ChunkCounter}
use libktorrent_stream.Peer.ChunkCounter.Peers.{
  holders, holders-le, Counts, inc-Counts, get_or-dec_bit_set, get_or-inc, get-get_or,
}
use libktorrent_stream.Peer.Availability.{
  PeerManager, Peer, have, handle_have, remove_killed, update_available_chunks,
}
use libktorrent_stream.Peer.Availability.Union.{available-counted}

handle_have-runs :
    (m : PeerManager) (is_loaded : Bool) (p : Peer) (packet : List ℕ)
    → read_uint32 packet 1 < p.chunks_availability.num_bits
    → handle_have m is_loaded p packet 5 ≡ (
      record m {
        available_chunks = BitSet.set m.available_chunks (read_uint32 packet 1) true;
        cnt = ChunkCounter.inc m.cnt (read_uint32 packet 1);
      },
      record p {
        received_have_message = true;
        chunks_availability = BitSet.set p.chunks_availability (read_uint32 packet 1) true;
      },
      BitSet.get m.wanted_chunks (read_uint32 packet 1) && not m.paused,
    )
unfolding handle_have have
handle_have-runs m is_loaded p packet lt =
    let inside : ltb (read_uint32 packet 1) p.chunks_availability.num_bits ≡ true = ground arith in
    rw inside refl

-- A peer announces a chunk that it did not have: the peer and the manager have it, the counter is
-- exact again, and the peer is told that we are interested exactly if the chunk is wanted and we are not paused.
pub handle_have_new :
    (n : ℕ) (sets : List BitSet) (m : PeerManager) (is_loaded : Bool) (p : Peer) (packet : List ℕ)
    → IsValid p.chunks_availability
    → IsValid m.available_chunks
    → p.chunks_availability.num_bits ≡ n
    → m.available_chunks.num_bits ≡ n
    → read_uint32 packet 1 < n
    → BitSet.get p.chunks_availability (read_uint32 packet 1) ≡ false
    → Counts n (p.chunks_availability ∷ sets) m.cnt
    → let (m', p', interested) = handle_have m is_loaded p packet 5 in
      Counts n (p'.chunks_availability ∷ sets) m'.cnt
      × (BitSet.get p'.chunks_availability (read_uint32 packet 1) ≡ true)
      × (BitSet.get m'.available_chunks (read_uint32 packet 1) ≡ true)
      × (p'.killed ≡ p.killed)
      × (interested ≡ (BitSet.get m.wanted_chunks (read_uint32 packet 1) && not m.paused))
handle_have_new n sets m is_loaded p packet v w size size' lt off h =
    rw (handle_have-runs m is_loaded p packet (omega arith)) (
      inc-Counts n sets m.cnt p.chunks_availability (read_uint32 packet 1) v size lt off h,
      ground (
        arith,
        get-set p.chunks_availability (read_uint32 packet 1) (read_uint32 packet 1) true v,
      ),
      ground
          (arith, get-set m.available_chunks (read_uint32 packet 1) (read_uint32 packet 1) true w),
      refl,
      refl,
    )

-- A chunk that a peer announces again is counted again, but taken off once when the peer leaves: the
-- count stays one above the number of the peers that have it, and the chunk stays available.
pub have_twice :
    (n : ℕ) (sets : List BitSet) (m : PeerManager) (is_loaded : Bool) (p : Peer) (packet : List ℕ)
    → IsValid p.chunks_availability
    → IsValid m.available_chunks
    → p.chunks_availability.num_bits ≡ n
    → m.available_chunks.num_bits ≡ n
    → read_uint32 packet 1 < n
    → BitSet.get p.chunks_availability (read_uint32 packet 1) ≡ true
    → Counts n (p.chunks_availability ∷ sets) m.cnt
    → length sets + 2 < 2 ^ 32
    → let (m', p', _) = handle_have m is_loaded p packet 5 in
      let left = remove_killed m' p' in
      (ChunkCounter.get left.cnt (read_uint32 packet 1) ≡ holders sets (read_uint32 packet 1) + 1)
      × (BitSet.get left.available_chunks (read_uint32 packet 1) ≡ true)
unfolding remove_killed holders
have_twice n sets m is_loaded p packet v w size size' lt on h few =
    rw (handle_have-runs m is_loaded p packet (omega arith))
      (rw (set_same p.chunks_availability (read_uint32 packet 1) on) counted)
  where
    i : ℕ
    i = read_uint32 packet 1

    c : ChunkCounter
    c = ChunkCounter.inc m.cnt i

    left : PeerManager
    left = record m {
      available_chunks = BitSet.set m.available_chunks i true;
      cnt = ChunkCounter.dec_bit_set c p.chunks_availability;
    }

    one_more : ChunkCounter.get left.cnt i ≡ holders sets i + 1
    one_more =
        let (stored, same) = get_or-inc m.cnt i (omega (arith, h.sized)) in
        let (sized, taken) = get_or-dec_bit_set n c p.chunks_availability (same ∙ h.sized) in
        get-get_or (ChunkCounter.dec_bit_set c p.chunks_availability) i (omega (arith, sized))
        ∙ ground (arith, taken i lt, stored, h.exact i lt, on, holders-le sets i, few)

    counted :
        (ChunkCounter.get (update_available_chunks left).cnt i ≡ holders sets i + 1)
        × (BitSet.get (update_available_chunks left).available_chunks i ≡ true)
    counted =
        let (same, bits) = available-counted left (set-IsValid m.available_chunks i true w) in
        (
          ap (λ (d : ChunkCounter). ChunkCounter.get d i) same ∙ one_more,
          bits i ∙ ground (arith, set-shape m.available_chunks i true, size', lt, one_more),
        )
