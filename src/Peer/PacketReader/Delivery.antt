-- ===== src/Peer/PacketReader/Delivery.antt =====
-- End to end: what a peer sends as length-prefixed packets, in whatever blocks the socket hands it
-- over, is what `update` gives to the packet handler.
use libktorrent_stream.Base.{
  ℕ, ◌^◌, ◌≤◌, ◌<◌, ◌≡◌, refl, sym, ◌∙◌, ap, true, false, List, [], ◌∷◌, ◌++◌, arith, length, All,
  append_assoc,
}
use libktorrent_stream.Peer.PacketReader.{IncomingPacket, PacketReader, create, update}
use libktorrent_stream.Peer.PacketReader.Stream.{
  View, IsIdle, announce, receive, receive-append, receive_failed, receive_body,
}
use libktorrent_stream.Peer.PacketReader.Took.{view, create-IsValid}
use libktorrent_stream.Peer.PacketReader.Handed.{
  Event, run, bytes_of, AreBlocks, run-Stands, update-Stands,
}
use libktorrent_stream.Peer.PacketReader.Wire.{
  length_bytes, wire, joined, feed, feed-Refines, complete, queued, receive_header,
}

-- A packet within the limit is received whole.
receive_packet :
    (max : ℕ) (v : View) (p : List ℕ)
    → v.failed ≡ false
    → IsIdle v.packets
    → v.pending ≡ []
    → max < 2 ^ 31
    → 0 < length p
    → length p ≤ max
    → receive max v (length_bytes (length p) ++ p) ≡ record v { packets = complete p ∷ v.packets }
unfolding announce
receive_packet max v p f idle e small pos le =
    receive-append max v (length_bytes (length p)) p
    ∙ ap (λ w. receive max w p) (receive_header max (length p) v f idle e (omega arith) ∙ announced)
    ∙ receive_body max opened (record { bytes = []; size = length p; read = 0 }) v.packets p f refl
        (omega arith)
    ∙ ground arith
  where
    opened : View
    opened = record v { packets = record { bytes = []; size = length p; read = 0 } ∷ v.packets }

    announced : announce max v (length p) ≡ opened
    announced = ground arith

-- A packet of no bytes only keeps the connection alive: it is not handed over.
abbrev pub non_empty : List (List ℕ) → List (List ℕ)
non_empty [] = []
non_empty ([] ∷ ps) = non_empty ps
non_empty ((b ∷ p) ∷ ps) = (b ∷ p) ∷ non_empty ps

receive_keep_alive :
    (max : ℕ) (v : View)
    → v.failed ≡ false
    → IsIdle v.packets
    → v.pending ≡ []
    → receive max v (length_bytes 0) ≡ v
unfolding announce
receive_keep_alive max v f idle e =
    receive_header max 0 v f idle e (omega arith)
    ∙ ap (λ (t : List ℕ). let w : View = record v { pending = t } in w) (sym e)

receive-wire :
    (max : ℕ) (v : View) (ps : List (List ℕ))
    → v.failed ≡ false
    → IsIdle v.packets
    → v.pending ≡ []
    → max < 2 ^ 31
    → All (λ p. length p ≤ max) ps
    → receive max v (wire ps) ≡ record v { packets = queued (non_empty ps) v.packets }
unfolding receive
receive-wire max v [] f idle e small a = refl
receive-wire max v ([] ∷ ps) f idle e small a =
    receive-append max v (length_bytes 0) (wire ps)
    ∙ ap (λ w. receive max w (wire ps)) (receive_keep_alive max v f idle e)
    ∙ receive-wire max v ps f idle e small a.1
receive-wire max v ((b ∷ p) ∷ ps) f idle e small a =
    ap (receive max v) (sym (append_assoc (length_bytes (length (b ∷ p))) (b ∷ p) (wire ps)))
    ∙ receive-append max v (length_bytes (length (b ∷ p)) ++ (b ∷ p)) (wire ps)
    ∙ ap (λ w. receive max w (wire ps))
        (receive_packet max v (b ∷ p) f idle e small (omega arith) a.0)
    ∙ receive-wire max (record v { packets = complete (b ∷ p) ∷ v.packets }) ps f refl e small a.1

queued-IsIdle : (ps : List (List ℕ)) (q : List IncomingPacket) → IsIdle q → IsIdle (queued ps q)
queued-IsIdle [] q h = h
queued-IsIdle (p ∷ ps) q h = queued-IsIdle ps (complete p ∷ q) refl

module _ (len : List ℕ) (max : ℕ) (four : length len ≡ 4) (small : max < 2 ^ 31) where
  fresh : PacketReader
  fresh = create len max

  -- The queue and the error flag after the blocks of a stream that fits
  fed :
      (ps blocks : List (List ℕ)) (rest : List ℕ)
      → All (λ p. length p ≤ max) ps
      → joined blocks ≡ wire ps ++ rest
      → All (λ b. length b < 2 ^ 31) blocks
      → view (feed fresh blocks)
        ≡ receive max
            (record { failed = false; packets = queued (non_empty ps) []; pending = [] })
            rest
  unfolding fresh view create
  fed ps blocks rest a e fits =
      (feed-Refines fresh blocks (create-IsValid len max four small) fits).effect
      ∙ ap (receive max start) e
      ∙ receive-append max start (wire ps) rest
      ∙ ap (λ w. receive max w rest) (receive-wire max start ps refl tt refl small a)
    where
      start : View
      start = record { failed = false; packets = []; pending = [] }

  -- Packets up to the size limit that a peer sends are handed over whole, in order and once each, but for
  -- the empty ones, however the stream is cut into blocks, each of fewer than 2 ^ 31 bytes, and whenever `update`
  -- looks for packets in between; after a last `update` nothing is left in the queue, and the reader is not in error.
  -- The size limit is below 2 ^ 31.
  pub update_delivers :
      (ps : List (List ℕ)) (es : List Event)
      → All (λ p. length p ≤ max) ps
      → bytes_of es ≡ wire ps
      → AreBlocks es
      → let (before, r) = run (create len max) es in
        let (rest, r') = update r in
        (before ++ rest ≡ non_empty ps) × (r'.packet_queue ≡ []) × (r'.error ≡ false)
  unfolding view create
  update_delivers ps es a e fits =
      update-Stands max (receive max start (bytes_of es)) (run (create len max) es).1
        (run (create len max) es).0 (non_empty ps)
        (run-Stands max es start (create len max) [] fits (record {
          old = [];
          valid = create-IsValid len max four small;
          limit = refl;
          same = refl;
          all_complete = tt;
          out_is = refl;
        }))
        (ap (λ (v : View). v.failed) whole) (ap (λ (v : View). v.packets) whole)
    where
      start : View
      start = record { failed = false; packets = []; pending = [] }

      whole : receive max start (bytes_of es) ≡ record start { packets = queued (non_empty ps) [] }
      whole = ap (receive max start) e ∙ receive-wire max start ps refl tt refl small a

  -- A length above the limit, which is below 2 ^ 31, fails the stream for good: whatever follows it, in blocks of
  -- fewer than 2 ^ 31 bytes, the reader is in error, and no packet is handed over any more.
  pub too_large_fails :
      (ps blocks : List (List ℕ)) (n : ℕ) (rest : List ℕ)
      → All (λ p. length p ≤ max) ps
      → max < n
      → n < 2 ^ 32
      → joined blocks ≡ wire ps ++ (length_bytes n ++ rest)
      → All (λ b. length b < 2 ^ 31) blocks
      → let (handled, r) = update (feed (create len max) blocks) in
        (r.error ≡ true) × (handled ≡ [])
  unfolding update view fresh announce
  too_large_fails ps blocks n rest a over word e fits = ground (arith, in_error)
    where
      start : View
      start = record { failed = false; packets = queued (non_empty ps) []; pending = [] }

      stopped : receive max start (length_bytes n ++ rest) ≡ record start { failed = true }
      stopped =
          receive-append max start (length_bytes n) rest
          ∙ ap (λ w. receive max w rest)
              (receive_header max n start refl (queued-IsIdle (non_empty ps) [] tt) refl word
                ∙ announced)
          ∙ receive_failed max (record start { failed = true }) rest refl
        where
          announced : announce max start n ≡ record start { failed = true }
          announced = ground arith

      in_error : (feed (create len max) blocks).error ≡ true
      in_error =
          ap (λ (w : View). w.failed) (fed ps blocks (length_bytes n ++ rest) a e fits ∙ stopped)
