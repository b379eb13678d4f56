-- ===== src/Peer/PacketReader/Stream.antt =====
-- What a packet reader promises, one byte at a time: an independent description of the stream of
-- length-prefixed packets, and its laws.
use libktorrent_stream.Base.{
  ℕ, ◌+◌, ◌≤◌, ◌<◌, ◌≡◌, refl, sym, ◌∙◌, ap, Bool, true, false, List, [], ◌∷◌, ◌++◌, arith, ltb,
  ◌==◌, if◌then◌else◌, length, take, drop, length-append, append-nil, append_assoc,
  take-append-drop,
}
use libktorrent_stream.Util.Words.{read_uint32}
use libktorrent_stream.Peer.PacketReader.{IncomingPacket}

-- The packets, newest first, and the bytes of a length that is not complete yet.
pub record View : Type 0 where
  pub failed : Bool
  pub packets : List IncomingPacket
  pub pending : List ℕ

-- No packet waits for bytes.
abbrev pub IsIdle : List IncomingPacket → Type 0
IsIdle [] = Unit {0}
IsIdle (p ∷ q) = p.read ≡ p.size

abbrev pub grown : IncomingPacket → List ℕ → IncomingPacket
grown p bs = record p { bytes = p.bytes ++ bs; read = p.read + length bs }

module _ (max : ℕ) where
  -- A complete length: 0 announces nothing, and one above the limit fails the stream.
  unfoldable pub announce : View → ℕ → View
  announce v n =
      if n == 0
      then record v { pending = [] }
      else if ltb max n
      then record v { failed = true; pending = [] }
      else record v {
        packets = record { bytes = []; size = n; read = 0 } ∷ v.packets;
        pending = [];
      }

  unfoldable pub header_byte : View → ℕ → View
  unfolding announce
  header_byte v b =
      if ltb (length (v.pending ++ (b ∷ []))) 4
      then record v { pending = v.pending ++ (b ∷ []) }
      else announce v (read_uint32 (v.pending ++ (b ∷ [])) 0)

  unfoldable pub place_byte : View → List IncomingPacket → ℕ → View
  unfolding header_byte
  place_byte v [] b = header_byte v b
  place_byte v (p ∷ q) b =
      if p.read == p.size then header_byte v b else record v { packets = grown p (b ∷ []) ∷ q }

  unfoldable pub receive_byte : View → ℕ → View
  unfolding place_byte
  receive_byte v b = if v.failed then v else place_byte v v.packets b

  -- The effect of a sequence of bytes
  unfoldable pub receive : View → List ℕ → View
  unfolding receive_byte
  receive v [] = v
  receive v (b ∷ bs) = receive (receive_byte v b) bs

  pub receive-append :
      (v : View) (cs bs : List ℕ) → receive v (cs ++ bs) ≡ receive (receive v cs) bs
  unfolding receive
  receive-append v [] bs = refl
  receive-append v (c ∷ cs) bs = receive-append (receive_byte v c) cs bs

  pub receive-take-drop :
      (v : View) (n : ℕ) (bs : List ℕ) → receive v bs ≡ receive (receive v (take n bs)) (drop n bs)
  receive-take-drop v n bs =
      ap (receive v) (sym (take-append-drop n bs)) ∙ receive-append v (take n bs) (drop n bs)

  failed_byte : (v : View) (b : ℕ) → v.failed ≡ true → receive_byte v b ≡ v
  unfolding receive_byte
  failed_byte v b e = ground arith

  pub receive_failed : (v : View) (bs : List ℕ) → v.failed ≡ true → receive v bs ≡ v
  unfolding receive
  receive_failed v [] e = refl
  receive_failed v (b ∷ bs) e = rw (failed_byte v b e) (receive_failed v bs e)

  place_idle :
      (v : View) (q : List IncomingPacket) (b : ℕ) → IsIdle q → place_byte v q b ≡ header_byte v b
  unfolding place_byte
  place_idle v [] b e = refl
  place_idle v (p ∷ q) b e = ground arith

  pending_byte :
      (v : View) (b : ℕ)
      → v.failed ≡ false
      → IsIdle v.packets
      → length v.pending + 1 < 4
      → receive_byte v b ≡ record v { pending = v.pending ++ (b ∷ []) }
  unfolding receive_byte header_byte
  pending_byte v b f e h =
      ground (arith, place_idle v v.packets b e, length-append v.pending (b ∷ []))

  last_byte :
      (v : View) (b : ℕ)
      → v.failed ≡ false
      → IsIdle v.packets
      → length v.pending ≡ 3
      → receive_byte v b ≡ announce v (read_uint32 (v.pending ++ (b ∷ [])) 0)
  unfolding receive_byte header_byte
  last_byte v b f e h = ground (arith, place_idle v v.packets b e, length-append v.pending (b ∷ []))

  body_byte :
      (v : View) (p : IncomingPacket) (q : List IncomingPacket) (b : ℕ)
      → v.failed ≡ false
      → v.packets ≡ p ∷ q
      → p.read < p.size
      → receive_byte v b ≡ record v { packets = grown p (b ∷ []) ∷ q }
  unfolding receive_byte place_byte
  body_byte v p q b f e h = ground arith

  -- An announcement does not look at the pending bytes.
  pub announce_same :
      (v : View) (pending : List ℕ) (n : ℕ)
      → announce (record v { pending = pending }) n ≡ announce v n
  unfolding announce
  announce_same v pending n = ground arith

  -- Bytes that fit the newest packet go into it.
  pub receive_body :
      (v : View) (p : IncomingPacket) (q : List IncomingPacket) (bs : List ℕ)
      → v.failed ≡ false
      → v.packets ≡ p ∷ q
      → p.read + length bs ≤ p.size
      → receive v bs ≡ record v { packets = grown p bs ∷ q }
  unfolding receive
  receive_body v p q [] f e h = ground (arith, append-nil p.bytes)
  receive_body v p q (b ∷ bs) f e h = rw (body_byte v p q b f e (omega arith)) (
      receive_body (record v { packets = grown p (b ∷ []) ∷ q }) (grown p (b ∷ [])) q bs f refl
        (omega arith)
      ∙ ground (arith, append_assoc p.bytes (b ∷ []) bs))

  -- Bytes of a length that stays incomplete are kept.
  pub receive_pending :
      (v : View) (bs : List ℕ)
      → v.failed ≡ false
      → IsIdle v.packets
      → length v.pending + length bs < 4
      → receive v bs ≡ record v { pending = v.pending ++ bs }
  unfolding receive
  receive_pending v [] f e h = rw (append-nil v.pending) refl
  receive_pending v (b ∷ bs) f e h = rw (pending_byte v b f e (omega arith)) (
      receive_pending (record v { pending = v.pending ++ (b ∷ []) }) bs f e
        (omega (arith, length-append v.pending (b ∷ [])))
      ∙ rw (append_assoc v.pending (b ∷ []) bs) refl)

  -- Bytes that complete the length announce a packet.
  pub receive-length :
      (v : View) (bs : List ℕ)
      → v.failed ≡ false
      → IsIdle v.packets
      → length v.pending < 4
      → length v.pending + length bs ≡ 4
      → receive v bs ≡ announce v (read_uint32 (v.pending ++ bs) 0)
  unfolding receive
  receive-length v [] f e h k = absurd (omega arith)
  receive-length v (b ∷ []) f e h k = last_byte v b f e (omega arith)
  receive-length v (b ∷ c ∷ bs) f e h k = rw (pending_byte v b f e (omega arith)) (
      receive-length (record v { pending = v.pending ++ (b ∷ []) }) (c ∷ bs) f e
        (omega (arith, length-append v.pending (b ∷ [])))
        (omega (arith, length-append v.pending (b ∷ [])))
      ∙ rw (append_assoc v.pending (b ∷ []) (c ∷ bs))
          (announce_same v (v.pending ++ (b ∷ [])) (read_uint32 (v.pending ++ (b ∷ c ∷ bs)) 0)))
