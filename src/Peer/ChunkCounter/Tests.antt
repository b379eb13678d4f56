-- ===== src/Peer/ChunkCounter/Tests.antt =====
-- Runs of the counter, and its theorem for a peer that comes and gets a chunk.
use libktorrent_stream.Base.{◌≡◌, refl, [], ◌∷◌, arith, for_up}
use libktorrent_stream.Util.BitSet as BitSet
use libktorrent_stream.Util.BitSet.{BitSet}
use libktorrent_stream.Util.BitSet.Counted as Counted
use libktorrent_stream.Peer.ChunkCounter.{create, get, inc, dec, inc_bit_set, dec_bit_set}
use libktorrent_stream.Peer.ChunkCounter.Peers.{holders}
use libktorrent_stream.Peer.ChunkCounter.History.{start, joins, obtains, get-History}

-- 10 chunks: the peer has 1 and 9.
abbrev two_chunks : BitSet
two_chunks = record { num_bits = 10; num_bytes = 2; bytes = 0x40 ∷ 0x40 ∷ []; num_on = 2 }

two_chunks-IsValid : Counted.IsValid two_chunks
unfolding BitSet.get
two_chunks-IsValid = omega arith

inc_bit_set_runs :
    (inc_bit_set (create 10) two_chunks).cnt ≡ 0 ∷ 1 ∷ 0 ∷ 0 ∷ 0 ∷ 0 ∷ 0 ∷ 0 ∷ 0 ∷ 1 ∷ []
unfolding inc_bit_set create for_up BitSet.get
inc_bit_set_runs = refl

dec_bit_set_runs : dec_bit_set (inc_bit_set (create 10) two_chunks) two_chunks ≡ create 10
unfolding inc_bit_set dec_bit_set dec create for_up BitSet.get
dec_bit_set_runs = refl

get-History_example : get (inc (inc_bit_set (create 10) two_chunks) 3) 3 ≡ 1
unfolding holders BitSet.get BitSet.set
get-History_example =
    get-History 3
      (obtains [] [] two_chunks 3 (joins two_chunks start (omega arith)) two_chunks-IsValid refl
        (omega arith) refl)
      (omega arith)
