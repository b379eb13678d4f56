-- ===== src/Utp/LocalWindow/Tests.antt =====
-- A window that gets the second packet of a stream before the first, where the numbers wrap in between.
use libktorrent_stream.Base.{
  ℕ, ◌+◌, ◌%◌, ◌^◌, ◌≡◌, ◌≤◌, refl, inr, ◌⊎◌, ◌||◌, ltb, leb, true, none, some, List, [], ◌∷◌, ◌++◌,
  length, arith,
}
use libktorrent_stream.Utp.SeqNr.{cmp_smaller, cmp_smaller_or_equal, diff}
use libktorrent_stream.Utp.SelectiveAck.{ack}
use libktorrent_stream.Utp.LocalWindow.{
  WindowPacket, LocalWindow, create, set_last_seq_nr, read, read_packet, take_packet, read_packets,
  erase, gaps, push_back, back, store, advance, acknowledge_next, stored, packet_received,
  selective_ack_bits, upper_bound, ack_packets, fill_selective_ack,
}
use libktorrent_stream.Utp.LocalWindow.Invariant.{Holds}
use libktorrent_stream.Utp.LocalWindow.Fill.{fill, lead, follow}
use libktorrent_stream.Utp.LocalWindow.Read.{Reads, read_lem}
use libktorrent_stream.Utp.LocalWindow.Receive.{receive_lem}
use libktorrent_stream.Utp.LocalWindow.Stream.{
  Sent, stream, number, Run, started, accepted, was_read, InReach, receive, mark, in_order,
  bytes_arrived,
}
use libktorrent_stream.Utp.LocalWindow.Delivery.{Run-delivers}

abbrev sent : Sent
sent = record { bytes = λ i. 0 ∷ i ∷ (i + 1) ∷ []; data_off = λ i. 1 }

abbrev fresh : LocalWindow
fresh = set_last_seq_nr (create 100) 65534

-- The second packet, whose number is 0, came.
abbrev second : LocalWindow
second = (packet_received fresh (number 65534 1) (sent.bytes 1) (sent.data_off 1)).1

abbrev both : LocalWindow
both = (packet_received second (number 65534 0) (sent.bytes 0) (sent.data_off 0)).1

second-run :
    second.last_seq_nr ∷ second.bytes_available ∷ second.window_space ∷ [] ≡ 65534 ∷ 0 ∷ 98 ∷ []
unfolding packet_received stored store push_back gaps acknowledge_next cmp_smaller
    cmp_smaller_or_equal create set_last_seq_nr
second-run = refl

both-run :
    both.last_seq_nr ∷ both.first_seq_nr ∷ both.bytes_available ∷ both.window_space ∷ []
    ≡ 0 ∷ 65535 ∷ 4 ∷ 96 ∷ []
unfolding packet_received stored store push_back gaps back acknowledge_next advance diff cmp_smaller
    cmp_smaller_or_equal create set_last_seq_nr
both-run = refl

abbrev three_read : LocalWindow
three_read = elim (read both 3) [ none ↦ both | some r ↦ r.1 ]

-- Three of the four bytes are read; the first packet stays until there are more than twenty.
read-run : read both 3 ≡ some (0 ∷ 1 ∷ 1 ∷ [], three_read)
unfolding read read_packet take_packet read_packets erase packet_received stored store push_back
    gaps back acknowledge_next advance diff cmp_smaller cmp_smaller_or_equal create set_last_seq_nr
read-run = refl

run : Run sent 65534 100 three_read ([] ++ (0 ∷ 1 ∷ 1 ∷ [])) (mark 0 (mark 1 []))
unfolding read read_packet take_packet read_packets erase packet_received stored store push_back
    gaps back acknowledge_next advance diff cmp_smaller cmp_smaller_or_equal create set_last_seq_nr
    mark in_order
run =
    was_read both three_read [] (0 ∷ 1 ∷ 1 ∷ []) (mark 0 (mark 1 [])) 3
      (accepted second both [] (mark 1 []) 0
        (accepted fresh second [] [] 1 started (inr (omega arith, omega arith)) refl)
        (inr (omega arith, omega arith)) refl)
      read-run

two_in_order : in_order (mark 0 (mark 1 [])) ≡ 2
unfolding in_order mark
two_in_order = refl

next-InReach : InReach three_read (in_order (mark 0 (mark 1 []))) 2
unfolding in_order mark read read_packet take_packet read_packets erase packet_received stored store
    push_back gaps back acknowledge_next advance diff cmp_smaller cmp_smaller_or_equal create
    set_last_seq_nr
next-InReach = inr (omega arith, omega arith)

Run-delivers_example :
    (rest : List ℕ) × ((0 ∷ 1 ∷ 1 ∷ []) ++ rest ≡ stream sent 0 (in_order (mark 0 (mark 1 []))))
    × (three_read.bytes_available ≡ length rest)
    × (three_read.last_seq_nr ≡ (65534 + in_order (mark 0 (mark 1 []))) % 2 ^ 16)
    × (three_read.window_space + bytes_arrived sent 0 (mark 0 (mark 1 [])) ≡ 100 + 3)
    × ((receive sent 65534 three_read 2).0
        ≡ (ltb 2 (in_order (mark 0 (mark 1 []))) || leb 2 three_read.window_space))
Run-delivers_example =
    Run-delivers sent 65534 100 three_read (0 ∷ 1 ∷ 1 ∷ []) (mark 0 (mark 1 [])) 2
      (λ i. (omega arith, omega arith)) (omega arith) (omega arith) run next-InReach

-- A window with a packet that was read in part, and one that waits for a missing one
abbrev waiting_window : LocalWindow
waiting_window = record {
  last_seq_nr = 0;
  first_seq_nr = 0;
  capacity = 100;
  incoming_packets =
      record { seq_nr = 65535; packet = none; bytes_read = 3 }
      ∷ record { seq_nr = 0; packet = some (7 ∷ 8 ∷ 9 ∷ []); bytes_read = 1 }
      ∷ record { seq_nr = 1; packet = none; bytes_read = 0 }
      ∷ record { seq_nr = 2; packet = some (5 ∷ []); bytes_read = 0 }
      ∷ [];
  window_space = 97;
  bytes_available = 2;
}

abbrev gone_part : List WindowPacket
gone_part = record { seq_nr = 65535; packet = none; bytes_read = 3 } ∷ []

abbrev ready_part : List WindowPacket
ready_part = record { seq_nr = 0; packet = some (7 ∷ 8 ∷ 9 ∷ []); bytes_read = 1 } ∷ []

abbrev waiting_part : List WindowPacket
waiting_part =
    record { seq_nr = 1; packet = none; bytes_read = 0 }
    ∷ record { seq_nr = 2; packet = some (5 ∷ []); bytes_read = 0 }
    ∷ []

waiting_window-Holds : Holds waiting_window 65535 gone_part ready_part waiting_part
waiting_window-Holds = record {
  parts = refl;
  start = omega arith;
  numbered = (refl, (refl, (refl, (refl, tt))));
  few = omega arith;
  ready_sound = ((omega arith, omega arith), tt);
  ready_present = ((7 ∷ 8 ∷ 9 ∷ [], refl), tt);
  waiting_sound = (tt, ((omega arith, omega arith), tt));
  waits = refl;
  first = λ h. refl;
  last = refl;
  available = refl;
  space = refl;
  bounded = omega arith;
}

read_lem_example :
    ((1 ≤ 4) × (w' : LocalWindow) × Reads waiting_window w' 10 ready_part waiting_part)
    ⊎ ((waiting_window.incoming_packets ≡ []) × (read waiting_window 10 ≡ none))
read_lem_example =
    read_lem waiting_window 65535 10 gone_part ready_part waiting_part waiting_window-Holds

receive_lem_example :
    let now =
      fill 65537 waiting_part 0
        (record { seq_nr = 1; packet = some (0 ∷ 4 ∷ []); bytes_read = 1 }) in
    (w' : LocalWindow) × (packet_received waiting_window 1 (0 ∷ 4 ∷ []) 1 ≡ (true, w'))
    × Holds w' 65535 gone_part (ready_part ++ lead now) (follow now)
receive_lem_example =
    receive_lem waiting_window 65535 0 gone_part ready_part waiting_part 1 (0 ∷ 4 ∷ []) 1
      waiting_window-Holds refl (omega arith) refl (omega arith) (omega arith) (omega arith)

sack_bits-run : selective_ack_bits waiting_window ≡ 1
unfolding selective_ack_bits diff cmp_smaller back
sack_bits-run = refl

sack-run :
    (fill_selective_ack waiting_window
      (record { extension = 0; length = 4; bitmask = 9 ∷ 9 ∷ 9 ∷ 9 ∷ [] })).bitmask
    ≡ 1 ∷ 0 ∷ 0 ∷ 0 ∷ []
unfolding fill_selective_ack upper_bound ack_packets ack diff cmp_smaller
sack-run = refl
