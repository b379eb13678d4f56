-- ===== src/Utp/RemoteWindow/Loss/Count.antt =====
-- Which packet `lost` of src/utp/remotewindow.cpp gives, and what the handling of losses leaves as it is.
use libktorrent_stream.Base.{
  ℕ, zero, suc, ◌+◌, ◌-◌, ◌*◌, ◌%◌, ◌^◌, ◌<◌, ◌≡◌, refl, sym, ◌∙◌, ap, ◌⊎◌, inl, inr, true, false,
  ◌&&◌, Bool-cases, Option, none, some, List, [], ◌∷◌, ltb, leb, ◌==◌, if◌then◌else◌, arith,
}
use libktorrent_stream.Utp.SeqNr.{cmp_smaller_or_equal}
use libktorrent_stream.Utp.SelectiveAck.{SelectiveAck, acked}
use libktorrent_stream.Utp.RemoteWindow.{UnackedPacket, RemoteWindow, acknowledge, sub32}
use libktorrent_stream.Utp.RemoteWindow.InFlight.{in_flight, acknowledge_lem}
use libktorrent_stream.Utp.RemoteWindow.Loss.{
  Retransmitter, Received, lost_from, lost, resend_lost, resend_masked, resend_packets,
  check_lost_packets, check_if_any, count_ack, packet_received, is_due, resent, try_send,
}

-- How many of the first bits are on
unfoldable pub acked_below : SelectiveAck → ℕ → ℕ
acked_below sack zero = 0
acked_below sack (suc i) = let rest = acked_below sack i in if acked sack i then rest + 1 else rest

-- What the loop gives: 0 where there are too few, or the bit from which on there are three
abbrev Loses : SelectiveAck → ℕ → ℕ → ℕ → Type 0
Loses sack i count at =
    ((at ≡ 0) × (acked_below sack i + count < 3))
    ⊎ ((at < i) × (acked sack at ≡ true) × (acked_below sack at + 3 ≡ acked_below sack i + count))

lost_from-Loses :
    (sack : SelectiveAck) (i count : ℕ) → count < 3 → Loses sack i count (lost_from sack i count)
unfolding lost_from acked_below
lost_from-Loses sack zero count h = inl (refl, omega arith)
lost_from-Loses sack (suc i) count h = elim (Bool-cases (acked sack i)) [
  | inl on ↦ elim (Bool-cases (count + 1 == 3)) [
    | inl third ↦ rw (on, third) (inr (omega arith, on, ground (arith, third)))
    | inr not_third ↦
        rw (on, not_third)
          (elim (lost_from-Loses sack i (count + 1) (ground (arith, not_third, h))) [
            | inl few ↦ inl (few.0, omega (arith, few.1))
            | inr three ↦ inr (omega (arith, three.0), three.1, omega (arith, three.2))
          ])
  ]
  | inr off ↦ rw off (elim (lost_from-Loses sack i count h) [
    | inl few ↦ inl (few.0, few.1)
    | inr three ↦ inr (omega (arith, three.0), three.1, three.2)
  ])
]

-- `lost` gives the third of the bits that are on, counted from the highest of the first eight times `length` bits of
-- the mask down, which is the highest one at or above which three of these bits are on; or 0 where fewer than three
-- are on. The mask stands for two bits more, from 8 times `length` on, which do not count.
pub lost_lem :
    (sack : SelectiveAck)
    → ((lost sack ≡ 0) × (acked_below sack (sack.length * 8) < 3))
      ⊎ ((lost sack < sack.length * 8)
          × (acked sack (lost sack) ≡ true)
          × (acked_below sack (lost sack) + 3 ≡ acked_below sack (sack.length * 8)))
unfolding lost
lost_lem sack = elim (lost_from-Loses sack (sack.length * 8) 0 (omega arith)) [
  | inl few ↦ inl (few.0, omega (arith, few.1))
  | inr three ↦ inr (three.0, three.1, omega (arith, three.2))
]

acknowledge-named :
    (ack_nr : ℕ) (p : UnackedPacket) (ps : List UnackedPacket) (cur : ℕ)
    → cmp_smaller_or_equal p.seq_nr ack_nr ≡ true
    → acknowledge ack_nr none (p ∷ ps) cur ≡ acknowledge ack_nr none ps (sub32 cur p.payload_size)
unfolding acknowledge
acknowledge-named ack_nr p ps cur e = ground (arith, e)

acknowledge-kept :
    (ack_nr : ℕ) (p : UnackedPacket) (ps : List UnackedPacket) (cur : ℕ)
    → cmp_smaller_or_equal p.seq_nr ack_nr ≡ false
    → acknowledge ack_nr none (p ∷ ps) cur ≡ (p ∷ ps, cur)
unfolding acknowledge
acknowledge-kept ack_nr p ps cur e = ground (arith, e)

-- An acknowledgement keeps the bytes in flight the sum of the payloads, and of what else was counted.
acknowledge-in_flight :
    (ack_nr : ℕ) (sack : Option SelectiveAck) (ps : List UnackedPacket) (others cur : ℕ)
    → cur ≡ others + in_flight ps
    → cur < 2 ^ 32
    → (acknowledge ack_nr sack ps cur).1 ≡ others + in_flight (acknowledge ack_nr sack ps cur).0
unfolding acknowledge in_flight
acknowledge-in_flight ack_nr sack [] others cur e h = e
acknowledge-in_flight ack_nr none (p ∷ ps) others cur e h =
    elim (Bool-cases (cmp_smaller_or_equal p.seq_nr ack_nr)) [
      | inl named ↦
          ap (λ r. r.1) (acknowledge-named ack_nr p ps cur named)
          ∙ acknowledge-in_flight ack_nr none ps others (sub32 cur p.payload_size)
              (omega (arith, e, h)) (omega (arith, e, h))
          ∙ ap (λ (r : List UnackedPacket × ℕ). others + in_flight r.0)
              (sym (acknowledge-named ack_nr p ps cur named))
      | inr kept ↦
          ap (λ r. r.1) (acknowledge-kept ack_nr p ps cur kept)
          ∙ e
          ∙ ap (λ (r : List UnackedPacket × ℕ). others + in_flight r.0)
              (sym (acknowledge-kept ack_nr p ps cur kept))
    ]
acknowledge-in_flight ack_nr (some sack) (p ∷ ps) others cur e h =
    let whole : others + in_flight (p ∷ ps) < 2 ^ 32 = omega (arith, e, h) in
    ap (λ c. (acknowledge ack_nr (some sack) (p ∷ ps) c).1) e
    ∙ ap (λ r. r.1) (acknowledge_lem ack_nr sack (p ∷ ps) others whole)
    ∙ ap (λ (r : List UnackedPacket × ℕ). others + in_flight r.0)
        (sym (acknowledge_lem ack_nr sack (p ∷ ps) others whole))
    ∙ ap (λ c. others + in_flight (acknowledge ack_nr (some sack) (p ∷ ps) c).0) (sym e)

module _ (conn : Retransmitter) where
  try_send-payload : (p : UnackedPacket) → (try_send conn p).payload_size ≡ p.payload_size
  try_send-payload p = ground arith

  resend_lost-in_flight :
      (ack_nr lost_index : ℕ) (ps : List UnackedPacket)
      → in_flight (resend_lost conn ack_nr lost_index ps).0 ≡ in_flight ps
  unfolding resend_lost in_flight
  resend_lost-in_flight ack_nr lost_index [] = refl
  resend_lost-in_flight ack_nr lost_index (p ∷ ps) =
      elim (Bool-cases (ltb ((p.seq_nr + 2 ^ 16 - ack_nr) % 2 ^ 16) lost_index && is_due conn p)) [
        | inl resent ↦
            rw resent
              (omega (arith, try_send-payload p, resend_lost-in_flight ack_nr lost_index ps))
        | inr kept ↦ rw kept (omega (arith, resend_lost-in_flight ack_nr lost_index ps))
      ]

  resend_masked-in_flight :
      (ack_nr : ℕ) (sack : Option SelectiveAck) (ps : List UnackedPacket)
      → in_flight (resend_masked conn ack_nr sack ps).0 ≡ in_flight ps
  unfolding resend_masked
  resend_masked-in_flight ack_nr none ps = refl
  resend_masked-in_flight ack_nr (some sack) ps = elim (Bool-cases (ltb 0 (lost sack))) [
    | inl some_lost ↦ rw some_lost (resend_lost-in_flight ack_nr (lost sack) ps)
    | inr none_lost ↦ rw none_lost refl
  ]

  resend_packets-in_flight :
      (ack_nr : ℕ) (sack : Option SelectiveAck) (count : ℕ) (ps : List UnackedPacket)
      → in_flight (resend_packets conn ack_nr sack count ps).0 ≡ in_flight ps
  unfolding resend_packets in_flight
  resend_packets-in_flight ack_nr sack count [] = refl
  resend_packets-in_flight ack_nr sack count (p ∷ ps) =
      elim (Bool-cases (leb 3 count && (p.seq_nr == ack_nr + 1))) [
        | inl first ↦ rw first (
            let same : (if is_due conn p then try_send conn p else p).payload_size
                ≡ p.payload_size =
              ground arith in
            omega (arith, same, resend_masked-in_flight ack_nr sack ps))
        | inr not_first ↦ rw not_first (resend_masked-in_flight ack_nr sack (p ∷ ps))
      ]

  check_if_any-in_flight :
      (ps : List UnackedPacket) (w : RemoteWindow) (ack_nr : ℕ) (sack : Option SelectiveAck)
      → ((check_if_any conn ps w ack_nr sack).cur_window ≡ w.cur_window)
        × (in_flight (check_if_any conn ps w ack_nr sack).unacked_packets
            ≡ in_flight w.unacked_packets)
  unfolding check_if_any check_lost_packets
  check_if_any-in_flight [] w ack_nr sack = (refl, refl)
  check_if_any-in_flight (p ∷ ps) w ack_nr sack =
      (refl, resend_packets-in_flight ack_nr sack w.last_ack_receive_count w.unacked_packets)

-- A packet that is received, with a mask or without: the bytes in flight stay the sum of the payloads of
-- the packets that are left, and of what else was counted, also where packets are sent again.
pub packet_received-in_flight :
    (conn : Retransmitter) (w : RemoteWindow) (hdr : Received) (sack : Option SelectiveAck)
    (others : ℕ)
    → w.cur_window ≡ others + in_flight w.unacked_packets
    → w.cur_window < 2 ^ 32
    → (packet_received conn w hdr sack).cur_window
      ≡ others + in_flight (packet_received conn w hdr sack).unacked_packets
unfolding packet_received
packet_received-in_flight conn w hdr sack others e h =
    let r = acknowledge hdr.ack_nr sack w.unacked_packets w.cur_window in
    let w2 : RemoteWindow = record (count_ack w hdr) {
      wnd_size = hdr.wnd_size;
      unacked_packets = r.0;
      cur_window = r.1;
    } in
    let c = check_if_any-in_flight conn r.0 w2 hdr.ack_nr sack in
    c.0
    ∙ acknowledge-in_flight hdr.ack_nr sack w.unacked_packets others w.cur_window e h
    ∙ ap (λ n. others + n) (sym c.1)
