-- ===== src/Utp/RemoteWindow/Loss.antt =====
-- Lost packets, src/utp/remotewindow.cpp. The connection that sends a packet again, the clock and the
-- rounding of 0.78 times the window are parameters.
pub mod Count
use libktorrent_stream.Base.{
  ℕ, zero, suc, ◌+◌, ◌-◌, ◌*◌, ◌%◌, ◌^◌, Bool, true, false, not, ◌&&◌, ◌||◌, Option, none, some,
  List, [], ◌∷◌, ltb, leb, ◌==◌, if◌then◌else◌,
}
use libktorrent_stream.Utp.SelectiveAck.{SelectiveAck, acked}
use libktorrent_stream.Utp.RemoteWindow.{UnackedPacket, RemoteWindow, acknowledge}

-- What a call relies on: the time, the current timeout, whether a packet can be sent, and the smaller window
pub record Retransmitter : Type 0 where
  pub now : ℕ
  pub current_timeout : ℕ
  pub can_send : UnackedPacket → Bool
  pub reduce : ℕ → ℕ

-- Of the header of a packet the window uses the number that is acknowledged, the window, and the type.
pub record Received : Type 0 where
  pub ack_nr : ℕ
  pub wnd_size : ℕ
  pub is_state : Bool

-- `MIN_PACKET_SIZE`
abbrev pub min_packet_size : ℕ
min_packet_size = 150

-- The loop of `lost` from the bit below `i`, where `count` acknowledged ones were seen
unfoldable pub lost_from : SelectiveAck → ℕ → ℕ → ℕ
lost_from sack zero count = 0
lost_from sack (suc i) count =
    let next = lost_from sack i (count + 1) in
    let same = lost_from sack i count in
    if acked sack i then (if count + 1 == 3 then i else next) else same

unfoldable pub lost : SelectiveAck → ℕ
lost sack = lost_from sack (sack.length * 8) 0

-- How often the number was acknowledged
unfoldable pub count_ack : RemoteWindow → Received → RemoteWindow
count_ack w hdr =
    if hdr.ack_nr == w.last_ack_nr
    then record w {
      last_ack_receive_count =
          if hdr.is_state
          then (w.last_ack_receive_count + 1) % 2 ^ 32
          else w.last_ack_receive_count;
    }
    else record w { last_ack_nr = hdr.ack_nr; last_ack_receive_count = 1 }

module _ (conn : Retransmitter) where
  -- A packet that was not sent again yet, or longer than the timeout ago
  abbrev pub is_due : UnackedPacket → Bool
  is_due p =
      not p.retransmitted || ltb conn.current_timeout ((conn.now + 2 ^ 64 - p.send_time) % 2 ^ 64)

  -- What a packet is after it was sent again
  abbrev pub resent : UnackedPacket → UnackedPacket
  resent p = record p { send_time = conn.now; retransmitted = true }

  -- `retransmit` in a `try`: a packet that cannot be sent stays as it is.
  abbrev pub try_send : UnackedPacket → UnackedPacket
  try_send p = if conn.can_send p then resent p else p

  -- The loop over the packets up to the lost one: the packets, and whether one was due
  unfoldable pub resend_lost : ℕ → ℕ → List UnackedPacket → List UnackedPacket × Bool
  resend_lost ack_nr lost_index [] = ([], false)
  resend_lost ack_nr lost_index (p ∷ ps) =
      let rest = resend_lost ack_nr lost_index ps in
      if ltb ((p.seq_nr + 2 ^ 16 - ack_nr) % 2 ^ 16) lost_index && is_due p
      then (try_send p ∷ rest.0, true)
      else (p ∷ rest.0, rest.1)

  unfoldable pub resend_masked :
      ℕ → Option SelectiveAck → List UnackedPacket → List UnackedPacket × Bool
  resend_masked ack_nr none ps = (ps, false)
  resend_masked ack_nr (some sack) ps =
      if ltb 0 (lost sack) then resend_lost ack_nr (lost sack) ps else (ps, false)

  -- The packets of `checkLostPackets`, and `lost_packets`. The test of the first number is on `int`.
  unfoldable pub resend_packets :
      ℕ → Option SelectiveAck → ℕ → List UnackedPacket → List UnackedPacket × Bool
  resend_packets ack_nr sack count [] = ([], false)
  resend_packets ack_nr sack count (p ∷ ps) =
      let rest = resend_masked ack_nr sack ps in
      if leb 3 count && (p.seq_nr == ack_nr + 1)
      then ((if is_due p then try_send p else p) ∷ rest.0, is_due p || rest.1)
      else resend_masked ack_nr sack (p ∷ ps)

  unfoldable pub check_lost_packets : RemoteWindow → ℕ → Option SelectiveAck → RemoteWindow
  check_lost_packets w ack_nr sack =
      let r = resend_packets ack_nr sack w.last_ack_receive_count w.unacked_packets in
      record w {
        unacked_packets = r.0;
        max_window = if r.1 then conn.reduce w.max_window else w.max_window;
      }

  -- `if (!unacked_packets.isEmpty())`, on the packets of the window
  unfoldable pub check_if_any :
      List UnackedPacket → RemoteWindow → ℕ → Option SelectiveAck → RemoteWindow
  check_if_any [] w ack_nr sack = w
  check_if_any (p ∷ ps) w ack_nr sack = check_lost_packets w ack_nr sack

  -- `packetReceived`
  unfoldable pub packet_received : RemoteWindow → Received → Option SelectiveAck → RemoteWindow
  packet_received w hdr sack =
      let w1 = count_ack w hdr in
      let r = acknowledge hdr.ack_nr sack w.unacked_packets w.cur_window in
      let w2 = record w1 { wnd_size = hdr.wnd_size; unacked_packets = r.0; cur_window = r.1 } in
      check_if_any r.0 w2 hdr.ack_nr sack

  -- The loop of `timeout`, which the first packet that cannot be sent ends
  unfoldable pub resend_due : List UnackedPacket → List UnackedPacket
  resend_due [] = []
  resend_due (p ∷ ps) =
      let rest = resend_due ps in
      if is_due p then (if conn.can_send p then resent p ∷ rest else p ∷ ps) else p ∷ rest

  unfoldable pub timeout : RemoteWindow → RemoteWindow
  timeout w = record w {
    max_window = min_packet_size;
    unacked_packets = resend_due w.unacked_packets;
  }

unfoldable pub clear : RemoteWindow → RemoteWindow
clear w = record w { unacked_packets = [] }

abbrev pub smaller : ℕ → ℕ → ℕ
smaller a b = if ltb b a then b else a

unfoldable pub allowed_to_send : RemoteWindow → ℕ → Bool
allowed_to_send w packet_size =
    leb ((w.cur_window + packet_size) % 2 ^ 32) (smaller w.wnd_size w.max_window)

unfoldable pub available_space : RemoteWindow → ℕ
available_space w =
    let m = smaller w.wnd_size w.max_window in if ltb m w.cur_window then 0 else m - w.cur_window
