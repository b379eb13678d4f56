-- ===== src/Peer/Availability/Tests.antt =====
-- The theorems on availability for one peer of a torrent with ten chunks.
use libktorrent_stream.Base.{ℕ, ◌≡◌, refl, true, false, List, [], ◌∷◌, arith}
use libktorrent_stream.Util.Words.{read_uint32}
use libktorrent_stream.Util.BitSet as BitSet
use libktorrent_stream.Util.BitSet.{BitSet}
use libktorrent_stream.Util.BitSet.Counted as Counted
use libktorrent_stream.Peer.ChunkCounter as ChunkCounter
use libktorrent_stream.Peer.ChunkCounter.{ChunkCounter}
use libktorrent_stream.Peer.ChunkCounter.Peers.{holders, Counts, create-Counts, inc_bit_set-Counts}
use libktorrent_stream.Peer.Availability.{PeerManager, Peer, handle_have, remove_killed}
use libktorrent_stream.Peer.Availability.Union.{remove_killed_lem}
use libktorrent_stream.Peer.Availability.Have.{handle_have_new, have_twice}

-- Chunks 1 and 9
abbrev two_chunks : BitSet
two_chunks = record { num_bits = 10; num_bytes = 2; bytes = 0x40 ∷ 0x40 ∷ []; num_on = 2 }

two_chunks-IsValid : Counted.IsValid two_chunks
unfolding BitSet.get
two_chunks-IsValid = omega arith

abbrev peer : Peer
peer = record { chunks_availability = two_chunks; received_have_message = false; killed = false }

abbrev manager : PeerManager
manager = record {
  available_chunks = two_chunks;
  wanted_chunks = two_chunks;
  cnt = ChunkCounter.inc_bit_set (ChunkCounter.create 10) two_chunks;
  paused = false;
}

manager-Counts : Counts 10 (two_chunks ∷ []) manager.cnt
manager-Counts =
    inc_bit_set-Counts 10 [] (ChunkCounter.create 10) two_chunks (create-Counts 10) (omega arith)

-- `HAVE` of chunk 3, and of chunk 9
abbrev have_3 : List ℕ
have_3 = 4 ∷ 0 ∷ 0 ∷ 0 ∷ 3 ∷ []

abbrev have_9 : List ℕ
have_9 = 4 ∷ 0 ∷ 0 ∷ 0 ∷ 9 ∷ []

remove_killed_lem_example : BitSet.get (remove_killed manager peer).available_chunks 9 ≡ false
unfolding holders
remove_killed_lem_example =
    (remove_killed_lem 10 [] manager peer two_chunks-IsValid refl manager-Counts).1 9

handle_have_new_example :
    BitSet.get (handle_have manager true peer have_3 5).1.chunks_availability 3 ≡ true
unfolding read_uint32 BitSet.get
handle_have_new_example =
    (handle_have_new 10 [] manager true peer have_3 two_chunks-IsValid two_chunks-IsValid refl refl
      (omega arith) refl manager-Counts).1

have_twice_example :
    ChunkCounter.get
      (remove_killed
        (handle_have manager true peer have_9 5).0
        (handle_have manager true peer have_9 5).1).cnt
      9
    ≡ 1
unfolding read_uint32 BitSet.get holders
have_twice_example =
    (have_twice 10 [] manager true peer have_9 two_chunks-IsValid two_chunks-IsValid refl refl
      (omega arith) refl manager-Counts (omega arith)).0
