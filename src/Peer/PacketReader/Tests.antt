-- ===== src/Peer/PacketReader/Tests.antt =====
-- Runs of the packet reader, and its theorems at a stream of two packets.
use libktorrent_stream.Base.{ℕ, ◌≡◌, refl, true, List, [], ◌∷◌, ◌++◌, arith}
use libktorrent_stream.Util.Words.{read_uint32, write_uint32}
use libktorrent_stream.Peer.PacketReader.{create, on_data_ready, dequeue, update}
use libktorrent_stream.Peer.PacketReader.Handed.{Event, block, taken, run}
use libktorrent_stream.Peer.PacketReader.Took.{view, create-IsValid}
use libktorrent_stream.Peer.PacketReader.Blocks.{on_data_ready_fragmentation}
use libktorrent_stream.Peer.PacketReader.Wire.{feed}
use libktorrent_stream.Peer.PacketReader.Delivery.{update_delivers, too_large_fails}

abbrev storage : List ℕ
storage = 0 ∷ 0 ∷ 0 ∷ 0 ∷ []

-- A packet of two bytes, a keep-alive and a packet of one byte
abbrev wire_bytes : List ℕ
wire_bytes = 0 ∷ 0 ∷ 0 ∷ 2 ∷ 7 ∷ 8 ∷ 0 ∷ 0 ∷ 0 ∷ 0 ∷ 0 ∷ 0 ∷ 0 ∷ 1 ∷ 9 ∷ []

keep_alive_skipped :
    (update (on_data_ready (create storage 16) wire_bytes)).0 ≡ (7 ∷ 8 ∷ []) ∷ (9 ∷ []) ∷ []
unfolding update on_data_ready create read_uint32
keep_alive_skipped = refl

-- `update` looks for packets after the first, the second and the third block.
abbrev events : List Event
events =
    block (0 ∷ 0 ∷ [])
    ∷ taken
    ∷ block (0 ∷ 2 ∷ 7 ∷ [])
    ∷ taken
    ∷ block (8 ∷ 0 ∷ 0 ∷ 0 ∷ 0 ∷ 0 ∷ [])
    ∷ taken
    ∷ taken
    ∷ block (0 ∷ 0 ∷ 1 ∷ 9 ∷ [])
    ∷ []

first_in_between : (run (create storage 16) events).0 ≡ (7 ∷ 8 ∷ []) ∷ []
unfolding on_data_ready create read_uint32 dequeue
first_in_between = refl

update_delivers_example :
    (run (create storage 16) events).0 ++ (update (run (create storage 16) events).1).0
    ≡ (7 ∷ 8 ∷ []) ∷ (9 ∷ []) ∷ []
unfolding write_uint32
update_delivers_example =
    (update_delivers storage 16 refl (omega arith) ((7 ∷ 8 ∷ []) ∷ [] ∷ (9 ∷ []) ∷ []) events
      (omega arith) refl (omega arith)).0

on_data_ready_fragmentation_example :
    view (on_data_ready (on_data_ready (create storage 16) (0 ∷ 0 ∷ [])) (0 ∷ 1 ∷ 5 ∷ []))
    ≡ view (on_data_ready (create storage 16) (0 ∷ 0 ∷ 0 ∷ 1 ∷ 5 ∷ []))
on_data_ready_fragmentation_example =
    on_data_ready_fragmentation (create storage 16) (0 ∷ 0 ∷ []) (0 ∷ 1 ∷ 5 ∷ [])
      (create-IsValid storage 16 refl (omega arith)) (omega arith)

too_large_fails_example :
    (update (
      feed (create storage 16) ((0 ∷ 0 ∷ 0 ∷ 1 ∷ 5 ∷ 0 ∷ []) ∷ (0 ∷ 0 ∷ 17 ∷ 4 ∷ []) ∷ []))).1.error
    ≡ true
unfolding write_uint32
too_large_fails_example =
    (too_large_fails storage 16 refl (omega arith) ((5 ∷ []) ∷ [])
      ((0 ∷ 0 ∷ 0 ∷ 1 ∷ 5 ∷ 0 ∷ []) ∷ (0 ∷ 0 ∷ 17 ∷ 4 ∷ []) ∷ []) 17 (4 ∷ []) (omega arith)
      (omega arith) (omega arith) refl (omega arith)).0
