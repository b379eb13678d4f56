-- ===== src/Utp/LocalWindow/Receive.antt =====
-- `packetReceived` of src/utp/localwindow.cpp.
use libktorrent_stream.Base.{
  ℕ, ◌+◌, ◌-◌, ◌%◌, ◌^◌, ◌≤◌, ◌<◌, ◌≡◌, refl, sym, ◌∙◌, ap, subst, true, false, some, List, ◌++◌,
  append_assoc, length, length-append, get_or, ltb, arith,
}
use libktorrent_stream.Utp.SeqNr.{cmp_smaller_or_equal}
use libktorrent_stream.Utp.SeqNr.Order.{forward_lem}
use libktorrent_stream.Utp.RemoteWindow.{sub32}
use libktorrent_stream.Utp.LocalWindow.{
  WindowPacket, LocalWindow, missing, is_present, stored, packet_received,
}
use libktorrent_stream.Utp.LocalWindow.Invariant.{Numbered, Holds}
use libktorrent_stream.Utp.LocalWindow.Fill.{fill, lead, follow, Free, get_or_past}
use libktorrent_stream.Utp.LocalWindow.Store.{store-taken}
use libktorrent_stream.Utp.LocalWindow.Numbers.{is_new}
use libktorrent_stream.Utp.LocalWindow.Received.{received, packet_received-received, Holds-now}

-- A packet of the window's reach that is new, for which there is room and whose place is free, is put into
-- its place among those that wait; what is there in order now can be read; and the invariant holds.
pub receive_lem :
    (w : LocalWindow) (n k : ℕ) (gone ready waiting : List WindowPacket) (seq_nr : ℕ)
    (bytes : List ℕ) (data_off : ℕ)
    → Holds w n gone ready waiting
    → seq_nr ≡ (n + length gone + length ready + k) % 2 ^ 16
    → length gone + length ready + k + 1 < 2 ^ 15
    → Free waiting k
    → length bytes < 2 ^ 32
    → data_off ≤ length bytes
    → length bytes - data_off ≤ w.window_space
    → let now =
        fill
          (n + length (gone ++ ready))
          waiting
          k
          (record { seq_nr = seq_nr; packet = some bytes; bytes_read = data_off }) in
      (w' : LocalWindow) × (packet_received w seq_nr bytes data_off ≡ (true, w'))
      × Holds w' n gone (ready ++ lead now) (follow now)
receive_lem w n k gone ready waiting seq_nr bytes data_off h place near free small within room = (
  received w n k gone ready waiting seq_nr bytes data_off h place near free small within room,
  packet_received-received w n k gone ready waiting seq_nr bytes data_off h place near free small
      within room,
  Holds-now w n k gone ready waiting seq_nr bytes data_off h place near free small within room,
)

-- An old packet: its number does not lie behind the last one in order.
pub packet_received-old :
    (w : LocalWindow) (d : ℕ) (seq_nr : ℕ) (bytes : List ℕ) (data_off : ℕ)
    → w.last_seq_nr ≡ (seq_nr + d) % 2 ^ 16
    → seq_nr < 2 ^ 16
    → d < 2 ^ 15
    → packet_received w seq_nr bytes data_off ≡ (true, w)
unfolding packet_received
packet_received-old w d seq_nr bytes data_off e h small =
    let old : cmp_smaller_or_equal seq_nr w.last_seq_nr ≡ true =
      ap (cmp_smaller_or_equal seq_nr) e ∙ (forward_lem seq_nr d h small).1 in
    rw old refl

-- A packet for which there is no room
pub packet_received-full :
    (w : LocalWindow) (k : ℕ) (seq_nr : ℕ) (bytes : List ℕ) (data_off : ℕ)
    → seq_nr ≡ (w.last_seq_nr + 1 + k) % 2 ^ 16
    → w.last_seq_nr < 2 ^ 16
    → k + 1 < 2 ^ 15
    → ltb w.window_space (sub32 (length bytes) data_off) ≡ true
    → packet_received w seq_nr bytes data_off ≡ (false, w)
unfolding packet_received
packet_received-full w k seq_nr bytes data_off e h small full =
    let new = is_new w.last_seq_nr seq_nr k e h small in rw (new, full) refl

-- A packet that is there already
pub packet_received-taken :
    (w : LocalWindow) (n k : ℕ) (gone ready waiting : List WindowPacket) (seq_nr : ℕ)
    (bytes : List ℕ) (data_off : ℕ)
    → Holds w n gone ready waiting
    → seq_nr ≡ (n + length gone + length ready + k) % 2 ^ 16
    → k < length waiting
    → is_present (get_or waiting k (missing 0)).packet ≡ true
    → ltb w.window_space (sub32 (length bytes) data_off) ≡ false
    → packet_received w seq_nr bytes data_off ≡ (true, w)
unfolding packet_received stored
packet_received-taken w n k gone ready waiting seq_nr bytes data_off h place inside taken room =
    let new =
      is_new w.last_seq_nr seq_nr k (place ∙ omega (arith, h.last)) (omega (arith, h.last))
        (omega (arith, h.few, inside)) in
    let before = length-append gone ready in
    let there =
      store-taken w n (length (gone ++ ready) + k)
        (record { seq_nr = seq_nr; packet = some bytes; bytes_read = data_off })
        ((gone ++ ready) ++ waiting) (h.parts ∙ sym (append_assoc gone ready waiting))
        (subst (Numbered n) (sym (append_assoc gone ready waiting)) h.numbered)
        (omega (arith, h.few, before, length-append (gone ++ ready) waiting))
        (omega (arith, inside, length-append (gone ++ ready) waiting))
        (place ∙ omega (arith, before))
        (ap (λ q. is_present q.packet) (get_or_past (gone ++ ready) waiting k (missing 0))
          ∙ taken) in
    rw (new, room, there) refl
