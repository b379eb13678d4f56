-- ===== src/Peer/PacketReader/Handed.antt =====
-- Blocks of data that come while packets are taken out, src/peer/packetreader.cpp: each `dequeuePacket` of the loop
-- of `update` is one step, and so is each block.
use libktorrent_stream.Base.{
  ℕ, zero, suc, ◌^◌, ◌<◌, ◌≡◌, refl, sym, ◌∙◌, ap, subst, inl, inr, false, Bool-cases, Option,
  Option-cases, none, some, List, [], ◌∷◌, ◌++◌, arith, ◌==◌, length, All, append-nil, append_assoc,
}
use mathlib.Core.Option.{some-injective}
use libktorrent_stream.Util.Words.{read_uint32}
use libktorrent_stream.Peer.PacketReader.{
  IncomingPacket, PacketReader, dequeue, hand_over, update, on_data_ready,
}
use libktorrent_stream.Peer.PacketReader.Stream.{
  View, IsIdle, announce, header_byte, place_byte, receive_byte, receive, receive-append,
}
use libktorrent_stream.Peer.PacketReader.Took.{view, IsPacket, IsValid}
use libktorrent_stream.Peer.PacketReader.Blocks.{on_data_ready-Refines}
use libktorrent_stream.Peer.PacketReader.Wire.{complete, queued}

-- What happens to a reader: a block of data comes, or `update` calls `dequeuePacket`.
pub data Event : Type 0 where
  block : List ℕ → Event
  taken : Event

-- A packet that was dequeued is handed over.
abbrev pub hand_packet :
    PacketReader → Option (IncomingPacket × List IncomingPacket) → List (List ℕ) × PacketReader
hand_packet r none = ([], r)
hand_packet r (some (p, rest)) = (p.bytes ∷ [], record r { packet_queue = rest })

abbrev pub step : PacketReader → Event → List (List ℕ) × PacketReader
step r (block b) = ([], on_data_ready r b)
step r taken = hand_packet r (dequeue r.packet_queue)

-- The packets that are handed over meanwhile, and the reader afterwards
abbrev pub run : PacketReader → List Event → List (List ℕ) × PacketReader
run r [] = ([], r)
run r (e ∷ es) = let s = step r e in let rest = run s.1 es in (s.0 ++ rest.0, rest.1)

-- The stream that comes
abbrev pub bytes_of : List Event → List ℕ
bytes_of [] = []
bytes_of (block b ∷ es) = b ++ bytes_of es
bytes_of (taken ∷ es) = bytes_of es

-- Each block has a size that an `int` holds.
abbrev pub AreBlocks : List Event → Type 0
AreBlocks [] = Unit {0}
AreBlocks (block b ∷ es) = (length b < 2 ^ 31) × AreBlocks es
AreBlocks (taken ∷ es) = AreBlocks es

abbrev pub IsComplete : IncomingPacket → Type 0
IsComplete p = p.read ≡ p.size

-- The bytes of packets that are kept newest first, oldest first
abbrev pub handed : List IncomingPacket → List (List ℕ)
handed [] = []
handed (p ∷ q) = handed q ++ (p.bytes ∷ [])

pub handed-append : (q old : List IncomingPacket) → handed (q ++ old) ≡ handed old ++ handed q
handed-append [] old = sym (append-nil (handed old))
handed-append (p ∷ q) old =
    ap (λ xs. xs ++ (p.bytes ∷ [])) (handed-append q old)
    ∙ append_assoc (handed old) (handed q) (p.bytes ∷ [])

pub handed-queued :
    (ps : List (List ℕ)) (q : List IncomingPacket) → handed (queued ps q) ≡ handed q ++ ps
handed-queued [] q = sym (append-nil (handed q))
handed-queued (p ∷ ps) q = handed-queued ps (complete p ∷ q) ∙ append_assoc (handed q) (p ∷ []) ps

pub queued-IsComplete :
    (ps : List (List ℕ)) (q : List IncomingPacket) → All IsComplete q → All IsComplete (queued ps q)
queued-IsComplete [] q a = a
queued-IsComplete (p ∷ ps) q a = queued-IsComplete ps (complete p ∷ q) (refl, a)

pub All-first : (q old : List IncomingPacket) → All IsComplete (q ++ old) → All IsComplete q
All-first [] old a = tt
All-first (p ∷ q) old a = (a.0, All-first q old a.1)

-- Packets that were taken out, behind those that are there
abbrev pub behind : View → List IncomingPacket → View
behind v old = record v { packets = v.packets ++ old }

module _ (max : ℕ) (old : List IncomingPacket) (idle : IsIdle old) where
  behind-announce :
      (v : View) (n : ℕ) → announce max (behind v old) n ≡ behind (announce max v n) old
  unfolding announce
  behind-announce v n = ground arith

  behind-header_byte :
      (v : View) (b : ℕ) → header_byte max (behind v old) b ≡ behind (header_byte max v b) old
  unfolding header_byte
  behind-header_byte v b = ground (arith, behind-announce v (read_uint32 (v.pending ++ (b ∷ [])) 0))

  place_idle :
      (v : View) (q : List IncomingPacket) (b : ℕ)
      → IsIdle q
      → place_byte max v q b ≡ header_byte max v b
  unfolding place_byte
  place_idle v [] b e = refl
  place_idle v (p ∷ q) b e = ground arith

  behind-place_byte :
      (v : View) (q : List IncomingPacket) (b : ℕ)
      → place_byte max (behind v old) (q ++ old) b ≡ behind (place_byte max v q b) old
  unfolding place_byte
  behind-place_byte v [] b = place_idle (behind v old) old b idle ∙ behind-header_byte v b
  behind-place_byte v (p ∷ q) b = ground (arith, behind-header_byte v b)

  behind-receive_byte :
      (v : View) (b : ℕ) → receive_byte max (behind v old) b ≡ behind (receive_byte max v b) old
  unfolding receive_byte
  behind-receive_byte v b = ground (arith, behind-place_byte v v.packets b)

  -- Complete packets that were taken out make no difference to the bytes that follow.
  pub behind-receive :
      (v : View) (bs : List ℕ) → receive max (behind v old) bs ≡ behind (receive max v bs) old
  unfolding receive
  behind-receive v [] = refl
  behind-receive v (b ∷ bs) =
      ap (λ w. receive max w bs) (behind-receive_byte v b)
      ∙ behind-receive (receive_byte max v b) bs

abbrev WasLast : List IncomingPacket → IncomingPacket × List IncomingPacket → Type 0
WasLast q r = (q ≡ r.1 ++ (r.0 ∷ [])) × IsComplete r.0

-- What is dequeued stood at the end of the queue, and is complete.
dequeue-some :
    (q : List IncomingPacket) (r : IncomingPacket × List IncomingPacket)
    → dequeue q ≡ some r
    → WasLast q r
unfolding dequeue
dequeue-some [] r e = absurd (cc e)
dequeue-some (a ∷ []) r e = elim (Bool-cases (a.read == a.size)) [
  | inl full ↦
      let one : dequeue (a ∷ []) ≡ some (a, []) = rw full refl in
      subst (WasLast (a ∷ [])) (some-injective _ _ (sym one ∙ e)) (refl, ground (arith, full))
  | inr part ↦ absurd (ground (arith, e, part))
]
dequeue-some (a ∷ b ∷ q) r e = elim (Option-cases (dequeue (b ∷ q))) [
  | inl never ↦ absurd (ground (arith, e, never))
  | inr (s, found) ↦
      let later : dequeue (a ∷ b ∷ q) ≡ some (s.0, a ∷ s.1) = rw (found, dequeue) refl in
      let was = dequeue-some (b ∷ q) s found in
      subst (WasLast (a ∷ b ∷ q)) (some-injective _ _ (sym later ∙ e)) (ap (◌∷◌ a) was.0, was.1)
]

-- The oldest packet stands at the end of the queue.
dequeue-append :
    (q : List IncomingPacket) (p : IncomingPacket)
    → p.read ≡ p.size
    → dequeue (q ++ (p ∷ [])) ≡ some (p, q)
unfolding dequeue
dequeue-append [] p e = ground arith
dequeue-append (a ∷ []) p e = ground arith
dequeue-append (a ∷ b ∷ q) p e = rw (dequeue-append (b ∷ q) p e) refl

last_of :
    (a : IncomingPacket) (q : List IncomingPacket)
    → (p : IncomingPacket) × (rest : List IncomingPacket) × (a ∷ q ≡ rest ++ (p ∷ []))
      × (length rest ≡ length q)
last_of a [] = (a, [], refl, refl)
last_of a (b ∷ q) = let (p, rest, e, n) = last_of b q in (p, a ∷ rest, ap (◌∷◌ a) e, ap suc n)

All-last :
    (q : List IncomingPacket) (p : IncomingPacket) → All IsComplete (q ++ (p ∷ [])) → IsComplete p
All-last [] p a = a.0
All-last (x ∷ q) p a = All-last q p a.1

-- Complete packets are all handed over.
hand_over_complete :
    (fuel : ℕ) (q : List IncomingPacket)
    → length q ≡ fuel
    → All IsComplete q
    → hand_over fuel q ≡ (handed q, [])
unfolding hand_over
hand_over_complete zero [] e a = refl
hand_over_complete zero (x ∷ q) e a = absurd (omega arith)
hand_over_complete (suc fuel) [] e a = absurd (omega arith)
hand_over_complete (suc fuel) (x ∷ q) e a =
    let (p, rest, same, n) = last_of x q in
    let full = subst (All IsComplete) same a in
    ap (hand_over (suc fuel)) same
    ∙ rw (dequeue-append rest p (All-last rest p full), hand_over)
        (rw (hand_over_complete fuel rest (omega (arith, n)) (All-first rest (p ∷ []) full))
          (ap (λ xs. (xs, [])) (sym (handed-append rest (p ∷ [])))))
    ∙ ap (λ q'. (handed q', [])) (sym same)

-- Where a reader stands: with the packets that were taken out behind those that are there, it is what the stream makes
-- of a reader from which nothing is taken out.
pub record Stands (max : ℕ) (whole : View) (r : PacketReader) (out : List (List ℕ)) : Type 0 where
  pub old : List IncomingPacket
  pub valid : IsValid r
  pub limit : r.max_packet_size ≡ max
  pub same : behind (view r) old ≡ whole
  pub all_complete : All IsComplete old
  pub out_is : out ≡ handed old

All-IsIdle : (old : List IncomingPacket) → All IsComplete old → IsIdle old
All-IsIdle [] a = tt
All-IsIdle (p ∷ q) a = a.0

IsIdle-first :
    (rest : List IncomingPacket) (p : IncomingPacket) → IsIdle (rest ++ (p ∷ [])) → IsIdle rest
IsIdle-first [] p i = tt
IsIdle-first (x ∷ rest) p i = i

All-packets :
    (max : ℕ) (rest : List IncomingPacket) (p : IncomingPacket)
    → All (IsPacket max) (rest ++ (p ∷ []))
    → All (IsPacket max) rest
All-packets max [] p a = tt
All-packets max (x ∷ rest) p a = (a.0, All-packets max rest p a.1)

module _ (max : ℕ) where
  block-Stands :
      (whole : View) (r : PacketReader) (out : List (List ℕ)) (b : List ℕ)
      → length b < 2 ^ 31
      → Stands max whole r out
      → Stands max (receive max whole b) (on_data_ready r b) out
  block-Stands whole r out b small s =
      let one = on_data_ready-Refines r b s.valid small in
      record {
        old = s.old;
        valid = one.valid;
        limit = one.same_limit ∙ s.limit;
        same =
            ap (λ v. behind v s.old) (one.effect ∙ ap (λ m. receive m (view r) b) s.limit)
            ∙ sym (behind-receive max s.old (All-IsIdle s.old s.all_complete) (view r) b)
            ∙ ap (λ v. receive max v b) s.same;
        all_complete = s.all_complete;
        out_is = s.out_is;
      }

  taken-Stands :
      (whole : View) (r : PacketReader) (out : List (List ℕ)) (p : IncomingPacket)
      (rest : List IncomingPacket)
      → dequeue r.packet_queue ≡ some (p, rest)
      → Stands max whole r out
      → Stands max whole (record r { packet_queue = rest }) (out ++ (p.bytes ∷ []))
  unfolding view
  taken-Stands whole r out p rest e s =
      let was = dequeue-some r.packet_queue (p, rest) e in
      let v = s.valid in
      record {
        old = p ∷ s.old;
        valid = record {
          four = v.four;
          few = v.few;
          small = v.small;
          packets =
              All-packets r.max_packet_size rest p
                (subst (All (IsPacket r.max_packet_size)) was.0 v.packets);
          settled = elim v.settled [
            | inl idle ↦ inl (IsIdle-first rest p (subst IsIdle was.0 idle))
            | inr none_pending ↦ inr none_pending
          ];
        };
        limit = s.limit;
        same =
            ap (λ q. let w : View = record whole_of { packets = q } in w)
              (sym (append_assoc rest (p ∷ []) s.old) ∙ ap (λ q. q ++ s.old) (sym was.0))
            ∙ s.same;
        all_complete = (was.1, s.all_complete);
        out_is = ap (λ xs. xs ++ (p.bytes ∷ [])) s.out_is;
      }
    where
      whole_of : View
      whole_of = view r

  pub run-Stands :
      (es : List Event) (whole : View) (r : PacketReader) (out : List (List ℕ))
      → AreBlocks es
      → Stands max whole r out
      → Stands max (receive max whole (bytes_of es)) (run r es).1 (out ++ (run r es).0)
  unfolding receive
  run-Stands [] whole r out a s = subst (Stands max whole r) (sym (append-nil out)) s
  run-Stands (block b ∷ es) whole r out a s =
      subst
        (λ v. Stands max v (run (on_data_ready r b) es).1 (out ++ (run (on_data_ready r b) es).0))
        (sym (receive-append max whole b (bytes_of es)))
        (run-Stands es (receive max whole b) (on_data_ready r b) out a.1
          (block-Stands whole r out b a.0 s))
  run-Stands (taken ∷ es) whole r out a s = elim (Option-cases (dequeue r.packet_queue)) [
    | inl nothing ↦ rw nothing (run-Stands es whole r out a s)
    | inr (x, found) ↦ rw found (
        let r' : PacketReader = record r { packet_queue = x.1 } in
        subst (Stands max (receive max whole (bytes_of es)) (run r' es).1)
          (append_assoc out (x.0.bytes ∷ []) (run r' es).0)
          (run-Stands es whole r' (out ++ (x.0.bytes ∷ [])) a
            (taken-Stands whole r out x.0 x.1 found s)))
  ]

-- Once all packets of the stream are complete, `update` hands over those that are left.
pub update-Stands :
    (max : ℕ) (whole : View) (r : PacketReader) (out ps : List (List ℕ))
    → Stands max whole r out
    → whole.failed ≡ false
    → whole.packets ≡ queued ps []
    → let (rest, r') = update r in (out ++ rest ≡ ps) × (r'.packet_queue ≡ []) × (r'.error ≡ false)
unfolding update view
update-Stands max whole r out ps s f e =
    let no_error : r.error ≡ false = ap (λ (v : View). v.failed) s.same ∙ f in
    let all_packets : r.packet_queue ++ s.old ≡ queued ps [] =
      ap (λ (v : View). v.packets) s.same ∙ e in
    let full : All IsComplete r.packet_queue =
      All-first r.packet_queue s.old
        (subst (All IsComplete) (sym all_packets) (queued-IsComplete ps [] tt)) in
    let over = hand_over_complete (length r.packet_queue) r.packet_queue refl full in
    let order : out ++ handed r.packet_queue ≡ ps =
      ap (λ xs. xs ++ handed r.packet_queue) s.out_is
      ∙ sym (handed-append r.packet_queue s.old)
      ∙ ap handed all_packets
      ∙ handed-queued ps [] in
    rw (no_error, over) (order, refl, refl)
