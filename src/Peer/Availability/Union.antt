-- ===== src/Peer/Availability/Union.antt =====
-- After a peer is removed the manager has the chunks that some other peer has.
use libktorrent_stream.Base.{
  ℕ, ◌+◌, ◌≤◌, ◌<◌, ◌≡◌, refl, ap, ◌∙◌, ◌&&◌, List, ◌∷◌, ltb, if◌then◌else◌, for_up_inv, arith,
}
use libktorrent_stream.Util.BitSet as BitSet
use libktorrent_stream.Util.BitSet.{BitSet}
use libktorrent_stream.Util.BitSet.Counted.{IsValid, get-set, set-IsValid, set-shape}
use libktorrent_stream.Util.BitSet.Progress.{get_beyond}
use libktorrent_stream.Peer.ChunkCounter as ChunkCounter
use libktorrent_stream.Peer.ChunkCounter.Peers.{holders, Counts, dec_bit_set-Counts, get-Counts}
use libktorrent_stream.Peer.Availability.{PeerManager, Peer, update_available_chunks, remove_killed}

-- The loop has put the bits below `k` right, and changed nothing else.
record Updated (m : PeerManager) (k : ℕ) (t : PeerManager) : Type 0 where
  valid : IsValid t.available_chunks
  same_size : t.available_chunks.num_bits ≡ m.available_chunks.num_bits
  same_cnt : t.cnt ≡ m.cnt
  bits :
      (i : ℕ)
      → BitSet.get t.available_chunks i ≡ (
          if ltb i k && ltb i m.available_chunks.num_bits
          then ltb 0 (ChunkCounter.get m.cnt i)
          else BitSet.get m.available_chunks i)

update_available_chunks-Updated :
    (m : PeerManager)
    → IsValid m.available_chunks
    → Updated m m.available_chunks.num_bits (update_available_chunks m)
unfolding update_available_chunks
update_available_chunks-Updated m v =
    for_up_inv (Updated m) _ m.available_chunks.num_bits 0 m.available_chunks.num_bits m
      (omega arith) round
      (record { valid = v; same_size = refl; same_cnt = refl; bits = λ i. ground arith })
  where
    round :
        (k : ℕ) (t : PeerManager)
        → 0 ≤ k
        → k < m.available_chunks.num_bits
        → Updated m k t
        → Updated m (k + 1) (record t {
          available_chunks = BitSet.set t.available_chunks k (ltb 0 (ChunkCounter.get t.cnt k));
        })
    round k t _ lt u = record {
      valid = set-IsValid t.available_chunks k _ u.valid;
      same_size = (set-shape t.available_chunks k _).0 ∙ u.same_size;
      same_cnt = u.same_cnt;
      bits = λ i. ground (
        arith,
        get-set t.available_chunks k i (ltb 0 (ChunkCounter.get t.cnt k)) u.valid,
        u.bits i,
        u.same_size,
        ap (λ c. ChunkCounter.get c k) u.same_cnt,
        ap (ChunkCounter.get m.cnt) {x = i} {y = k},
      );
    }

-- The manager's chunks are those that are counted for some peer.
pub available-counted :
    (m : PeerManager)
    → IsValid m.available_chunks
    → ((update_available_chunks m).cnt ≡ m.cnt)
      × ((i : ℕ)
          → BitSet.get (update_available_chunks m).available_chunks i
            ≡ (ltb i m.available_chunks.num_bits && ltb 0 (ChunkCounter.get m.cnt i)))
available-counted m v =
    let u = update_available_chunks-Updated m v in
    (
      u.same_cnt,
      λ i.
          ground (
            arith,
            u.bits i,
            u.same_size,
            get_beyond (update_available_chunks m).available_chunks i,
          ),
    )

-- A peer that is removed takes its chunks with it: where the counter was exact, it is exact for the
-- peers that stay, and a chunk is available exactly if one of them has it.
pub remove_killed_lem :
    (n : ℕ) (sets : List BitSet) (m : PeerManager) (p : Peer)
    → IsValid m.available_chunks
    → m.available_chunks.num_bits ≡ n
    → Counts n (p.chunks_availability ∷ sets) m.cnt
    → Counts n sets (remove_killed m p).cnt
      × ((i : ℕ)
          → BitSet.get (remove_killed m p).available_chunks i ≡ (ltb i n && ltb 0 (holders sets i)))
unfolding remove_killed
remove_killed_lem n sets m p v size h =
    let counts = dec_bit_set-Counts n sets m.cnt p.chunks_availability h in
    let (same, bits) =
      available-counted (record m { cnt = ChunkCounter.dec_bit_set m.cnt p.chunks_availability })
        v in
    (
      rw same counts,
      λ i.
          bits i
          ∙ ground (
            arith,
            size,
            get-Counts n sets (ChunkCounter.dec_bit_set m.cnt p.chunks_availability) i counts,
          ),
    )
