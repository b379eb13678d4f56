-- ===== src/Utp/RemoteWindow/InFlight.antt =====
-- The size of the window is the sum of the payloads in flight, and an acknowledgement takes out the
-- packets that it names.
use libktorrent_stream.Base.{
  ℕ, ◌+◌, ◌-◌, ◌%◌, ◌^◌, ◌<◌, ◌≡◌, refl, ap, ◌∙◌, Bool, true, false, ◌||◌, some, List, [], ◌∷◌,
  ◌++◌, if◌then◌else◌, arith, Bool-cases, inl, inr,
}
use libktorrent_stream.Utp.SeqNr.{cmp_smaller_or_equal}
use libktorrent_stream.Utp.SelectiveAck.{SelectiveAck, acked}
use libktorrent_stream.Utp.RemoteWindow.{
  UnackedPacket, RemoteWindow, add_packet, acknowledge, sub32,
}

unfoldable pub in_flight : List UnackedPacket → ℕ
in_flight [] = 0
in_flight (p ∷ ps) = p.payload_size + in_flight ps

-- Whether an acknowledgement with a mask names a packet
abbrev pub is_named : ℕ → SelectiveAck → UnackedPacket → Bool
is_named ack_nr sack p =
    cmp_smaller_or_equal p.seq_nr ack_nr || acked sack ((p.seq_nr + 2 ^ 16 - ack_nr) % 2 ^ 16)

-- The packets that are not named
unfoldable pub unnamed : ℕ → SelectiveAck → List UnackedPacket → List UnackedPacket
unnamed ack_nr sack [] = []
unnamed ack_nr sack (p ∷ ps) =
    let rest : List UnackedPacket = unnamed ack_nr sack ps in
    if is_named ack_nr sack p then rest else p ∷ rest

named_step :
    (ack_nr : ℕ) (sack : SelectiveAck) (p : UnackedPacket) (ps : List UnackedPacket) (cur : ℕ)
    → is_named ack_nr sack p ≡ true
    → acknowledge ack_nr (some sack) (p ∷ ps) cur
      ≡ acknowledge ack_nr (some sack) ps (sub32 cur p.payload_size)
unfolding acknowledge
named_step ack_nr sack p ps cur e = ground arith

kept_step :
    (ack_nr : ℕ) (sack : SelectiveAck) (p : UnackedPacket) (ps : List UnackedPacket) (cur : ℕ)
    → is_named ack_nr sack p ≡ false
    → acknowledge ack_nr (some sack) (p ∷ ps) cur
      ≡ (p ∷ (acknowledge ack_nr (some sack) ps cur).0, (acknowledge ack_nr (some sack) ps cur).1)
unfolding acknowledge
kept_step ack_nr sack p ps cur e = ground arith

-- An acknowledgement with a mask takes out the packets that it names, in whatever order they stand, and
-- the bytes in flight go down by their payloads: they stay the sum of the payloads that are left, and
-- of what else was counted.
pub acknowledge_lem :
    (ack_nr : ℕ) (sack : SelectiveAck) (ps : List UnackedPacket) (others : ℕ)
    → others + in_flight ps < 2 ^ 32
    → acknowledge ack_nr (some sack) ps (others + in_flight ps)
      ≡ (unnamed ack_nr sack ps, others + in_flight (unnamed ack_nr sack ps))
unfolding in_flight unnamed acknowledge
acknowledge_lem ack_nr sack [] others h = refl
acknowledge_lem ack_nr sack (p ∷ ps) others h = elim (Bool-cases (is_named ack_nr sack p)) [
  | inl named ↦ rw named (
      named_step ack_nr sack p ps _ named
      ∙ ap (acknowledge ack_nr (some sack) ps) (omega arith)
      ∙ acknowledge_lem ack_nr sack ps others (omega arith))
  | inr kept ↦ rw kept (
      kept_step ack_nr sack p ps _ kept
      ∙ ap (λ (r : List UnackedPacket × ℕ). (p ∷ r.0, r.1))
          (ap (acknowledge ack_nr (some sack) ps) (omega arith)
            ∙ acknowledge_lem ack_nr sack ps (others + p.payload_size) (omega arith))
      ∙ ap (λ n. (p ∷ unnamed ack_nr sack ps, n)) (omega arith))
]

in_flight-append : (ps qs : List UnackedPacket) → in_flight (ps ++ qs) ≡ in_flight ps + in_flight qs
unfolding in_flight
in_flight-append [] qs = omega arith
in_flight-append (p ∷ ps) qs = omega (arith, in_flight-append ps qs)

-- A packet that is sent adds its payload to the bytes in flight.
cur_window-add_packet :
    (w : RemoteWindow) (payload_size seq_nr send_time : ℕ)
    → w.cur_window ≡ in_flight w.unacked_packets
    → w.cur_window + payload_size < 2 ^ 32
    → let w' = add_packet w payload_size seq_nr send_time in
      w'.cur_window ≡ in_flight w'.unacked_packets
unfolding add_packet in_flight
cur_window-add_packet w payload_size seq_nr send_time e h =
    omega (arith, e, in_flight-append w.unacked_packets _)
