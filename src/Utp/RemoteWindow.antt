-- ===== src/Utp/RemoteWindow.antt =====
-- The packets in flight, src/utp/remotewindow.h and src/utp/remotewindow.cpp: a packet is added when it
-- is sent and taken out when it is acknowledged. Of a packet the window uses the size of its payload.
-- The round trip times that the loop reports to the connection are left out. `Uint32` sums and
-- differences wrap.
pub mod InFlight
pub mod Loss
mod Tests
use libktorrent_stream.Base.{
  ℕ, ◌+◌, ◌-◌, ◌%◌, ◌^◌, Bool, true, false, Option, none, some, List, [], ◌∷◌, ◌++◌,
}
use libktorrent_stream.Util.Words.{add32}
use libktorrent_stream.Utp.SeqNr.{cmp_smaller_or_equal}
use libktorrent_stream.Utp.SelectiveAck.{SelectiveAck, acked}

pub record UnackedPacket : Type 0 where
  pub payload_size : ℕ
  pub seq_nr : ℕ
  pub send_time : ℕ
  pub retransmitted : Bool

pub record RemoteWindow : Type 0 where
  pub cur_window : ℕ
  pub max_window : ℕ
  pub wnd_size : ℕ
  pub last_ack_nr : ℕ
  pub last_ack_receive_count : ℕ
  pub unacked_packets : List UnackedPacket

unfoldable pub create : RemoteWindow
create = record {
  cur_window = 0;
  max_window = 65536;
  wnd_size = 0;
  last_ack_nr = 0;
  last_ack_receive_count = 0;
  unacked_packets = [];
}

-- `Uint32` subtraction
abbrev pub sub32 : ℕ → ℕ → ℕ
sub32 a b = (a + 2 ^ 32 - b) % 2 ^ 32

pub add_packet : RemoteWindow → ℕ → ℕ → ℕ → RemoteWindow
add_packet w payload_size seq_nr send_time = record w {
  cur_window = add32 w.cur_window payload_size;
  wnd_size = sub32 w.wnd_size payload_size;
  unacked_packets =
      w.unacked_packets
      ++ (record {
        payload_size = payload_size;
        seq_nr = seq_nr;
        send_time = send_time;
        retransmitted = false;
      }
          ∷ []);
}

-- The loop of `packetReceived` over the packets in flight: those that stay, and the bytes in flight.
unfoldable pub acknowledge :
    ℕ → Option SelectiveAck → List UnackedPacket → ℕ → List UnackedPacket × ℕ
acknowledge ack_nr sack [] cur_window = ([], cur_window)
acknowledge ack_nr none (p ∷ ps) cur_window = elim (cmp_smaller_or_equal p.seq_nr ack_nr) [
  | true ↦ acknowledge ack_nr none ps (sub32 cur_window p.payload_size)
  | false ↦ (p ∷ ps, cur_window)
]
acknowledge ack_nr (some sack) (p ∷ ps) cur_window = elim (cmp_smaller_or_equal p.seq_nr ack_nr) [
  | true ↦ acknowledge ack_nr (some sack) ps (sub32 cur_window p.payload_size)
  | false ↦ elim (acked sack ((p.seq_nr + 2 ^ 16 - ack_nr) % 2 ^ 16)) [
    | true ↦ acknowledge ack_nr (some sack) ps (sub32 cur_window p.payload_size)
    | false ↦ let (rest, cur) = acknowledge ack_nr (some sack) ps cur_window in (p ∷ rest, cur)
  ]
]
