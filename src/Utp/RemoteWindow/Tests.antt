-- ===== src/Utp/RemoteWindow/Tests.antt =====
-- A window of three packets, of which two are acknowledged.
use libktorrent_stream.Base.{
  ℕ, ◌+◌, ◌*◌, ◌/◌, ◌<◌, ◌≡◌, refl, ◌⊎◌, true, false, none, some, List, [], ◌∷◌, arith,
}
use libktorrent_stream.Utp.SeqNr.{cmp_smaller_or_equal}
use libktorrent_stream.Utp.SelectiveAck.{SelectiveAck, acked}
use libktorrent_stream.Utp.RemoteWindow.Loss.{
  Retransmitter, Received, lost, lost_from, packet_received, count_ack, check_if_any,
  check_lost_packets, resend_packets, resend_masked,
}
use libktorrent_stream.Utp.RemoteWindow.Loss.Count.{
  acked_below, lost_lem, packet_received-in_flight,
}
use libktorrent_stream.Utp.RemoteWindow.{
  UnackedPacket, RemoteWindow, acknowledge, add_packet, create,
}
use libktorrent_stream.Utp.RemoteWindow.InFlight.{in_flight, unnamed, acknowledge_lem}

abbrev sent : ℕ → ℕ → UnackedPacket
sent size seq_nr = record {
  payload_size = size;
  seq_nr = seq_nr;
  send_time = 0;
  retransmitted = false;
}

-- The numbers wrap; the mask names the third packet, three after the acknowledged one.
abbrev three_packets : List UnackedPacket
three_packets = sent 100 65534 ∷ sent 50 0 ∷ sent 70 1 ∷ []

abbrev mask : SelectiveAck
mask = record { extension = 0; length = 1; bitmask = 2 ∷ [] }

add_packet_runs : (add_packet create 100 65534 0).unacked_packets ≡ sent 100 65534 ∷ []
unfolding add_packet create
add_packet_runs = refl

acknowledge_lem_example : acknowledge 65534 (some mask) three_packets 220 ≡ (sent 50 0 ∷ [], 50)
unfolding in_flight unnamed acked cmp_smaller_or_equal
acknowledge_lem_example = acknowledge_lem 65534 mask three_packets 0 (omega arith)

-- Every packet can be sent, and the window shrinks to three quarters.
abbrev connection : Retransmitter
connection = record {
  now = 900;
  current_timeout = 500;
  can_send = λ p. true;
  reduce = λ n. n * 3 / 4;
}

-- Three packets after the first one were acknowledged.
abbrev four_bits : SelectiveAck
four_bits = record { extension = 0; length = 1; bitmask = 30 ∷ [] }

lost-run : lost four_bits ≡ 4
unfolding lost lost_from acked
lost-run = refl

-- The two highest bits of the mask are on, and do not count.
lost_high-run : lost (record { extension = 0; length = 1; bitmask = 224 ∷ [] }) ≡ 0
unfolding lost lost_from acked
lost_high-run = refl

lost_lem_example :
    ((lost four_bits ≡ 0) × (acked_below four_bits (1 * 8) < 3))
    ⊎ ((lost four_bits < 1 * 8)
        × (acked four_bits (lost four_bits) ≡ true)
        × (acked_below four_bits (lost four_bits) + 3 ≡ acked_below four_bits (1 * 8)))
lost_lem_example = lost_lem four_bits

abbrev window : RemoteWindow
window = record create {
  cur_window = 220;
  last_ack_nr = 65533;
  last_ack_receive_count = 2;
  unacked_packets = three_packets;
}

abbrev state_packet : Received
state_packet = record { ack_nr = 65533; wnd_size = 1000; is_state = true }

-- The first packet is sent again.
resend-run : (packet_received connection window state_packet none).max_window ≡ 49152
unfolding packet_received count_ack check_if_any check_lost_packets resend_packets resend_masked
    acknowledge cmp_smaller_or_equal create
resend-run = refl

packet_received-in_flight_example :
    (packet_received connection window state_packet (some mask)).cur_window
    ≡ 0 + in_flight (packet_received connection window state_packet (some mask)).unacked_packets
unfolding in_flight
packet_received-in_flight_example =
    packet_received-in_flight connection window state_packet (some mask) 0 refl (omega arith)
