-- ===== src/Utp/LocalWindow/Numbers.antt =====
-- The sequence numbers that `packetReceived` of src/utp/localwindow.cpp compares.
use libktorrent_stream.Base.{
  ℕ, ◌+◌, ◌%◌, ◌^◌, ◌≤◌, ◌<◌, ◌≡◌, refl, ◌∙◌, ap, true, false, List, [], ◌∷◌, length, drop, get_or,
  ◌==◌, arith,
}
use libktorrent_stream.Util.Words.{add32}
use libktorrent_stream.Utp.SeqNr.{cmp_smaller_or_equal, diff}
use libktorrent_stream.Utp.SeqNr.Order.{after, forward_lem}
use libktorrent_stream.Utp.LocalWindow.{
  WindowPacket, LocalWindow, missing, next16, advance, acknowledge_next,
}
use libktorrent_stream.Utp.LocalWindow.Store.{first_stored}

pub acknowledge_next-is :
    (w : LocalWindow) (seq_nr size : ℕ)
    → (seq_nr == next16 w.last_seq_nr) ≡ true
    → acknowledge_next w seq_nr size
      ≡ advance
          (drop
            (diff (get_or w.incoming_packets 0 (missing 0)).seq_nr (next16 seq_nr))
            w.incoming_packets)
          (record w { bytes_available = add32 w.bytes_available size; last_seq_nr = seq_nr })
unfolding acknowledge_next
acknowledge_next-is w seq_nr size e = rw e refl

-- A number that lies behind the last one in order
pub is_new :
    (last seq_nr k : ℕ)
    → seq_nr ≡ (last + 1 + k) % 2 ^ 16
    → last < 2 ^ 16
    → k + 1 < 2 ^ 15
    → cmp_smaller_or_equal seq_nr last ≡ false
is_new last seq_nr k e h small =
    ap (λ s. cmp_smaller_or_equal s last) {y = after last (k + 1)} (e ∙ omega arith)
    ∙ (forward_lem last (k + 1) h small).3
    ∙ ground arith

pub first_stored_lem :
    (w : LocalWindow) (f : ℕ) (xs : List WindowPacket)
    → (length xs ≡ 0 → next16 w.last_seq_nr ≡ f)
    → (1 ≤ length xs → w.first_seq_nr ≡ f)
    → first_stored xs w ≡ f
first_stored_lem w f [] h h' = h refl
first_stored_lem w f (x ∷ xs) h h' = h' (omega arith)
