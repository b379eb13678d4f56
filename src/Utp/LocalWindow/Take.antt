-- ===== src/Utp/LocalWindow/Take.antt =====
-- The loop of `read` in src/utp/localwindow.cpp.
use libktorrent_stream.Base.{
  ℕ, zero, suc, ◌+◌, ◌-◌, ◌%◌, ◌^◌, ◌≤◌, ◌<◌, min, ◌≡◌, refl, sym, ◌∙◌, ap, subst, inl, inr, true,
  Bool-cases, none, some, List, [], ◌∷◌, ◌++◌, append-nil, length, length-drop, length-take, take,
  drop, take_all, drop_all, drop-drop, All, ◌==◌, arith,
}
use libktorrent_stream.Utp.SeqNr.{cmp_smaller_or_equal}
use libktorrent_stream.Utp.SeqNr.Order.{after, forward_lem}
use libktorrent_stream.Utp.LocalWindow.{WindowPacket, Taken, take_packet, read_packets}
use libktorrent_stream.Utp.LocalWindow.Invariant.{unread, Numbered, Sound, Present, Waits}
use libktorrent_stream.Utp.LocalWindow.Loop.{
  take-append, drop-append, Takes, Passed, read_packet_lem, take_packet-full, take_packet-part,
  read_packets-present, read_packets-zero, read_packets-missing,
}

module _ (last n left : ℕ) (seq_nr : ℕ) (bytes : List ℕ) (br : ℕ)
    (ps waiting : List WindowPacket) where
  abbrev p : WindowPacket
  p = record { seq_nr = seq_nr; packet = some bytes; bytes_read = br }

  -- The packet as the loop leaves it
  abbrev p_read : WindowPacket
  p_read = record p { bytes_read = br + min (length bytes - br) left }

  Takes-partly :
      length bytes < 2 ^ 32
      → br ≤ length bytes
      → left ≤ length bytes - br
      → Numbered n (p ∷ (ps ++ waiting))
      → All Sound ps
      → All Present ps
      → Takes n left (p ∷ ps) waiting (record {
        bytes = take left (drop br bytes);
        packets = p_read ∷ (ps ++ waiting);
        full = 0;
      })
  Takes-partly small sound part num sounds presents = record {
    gone = [];
    still = p_read ∷ ps;
    parts = refl;
    full = refl;
    count = omega arith;
    numbered = num;
    still_sound = ((small, omega arith), sounds);
    still_present = ((bytes, refl), presents);
    bytes =
        sym (append-nil (take left (drop br bytes)))
        ∙ ap (λ k. take left (drop br bytes) ++ take k (unread ps)) {x = 0}
            (omega (arith, length-drop br bytes))
        ∙ sym (take-append left (drop br bytes) (unread ps));
    unread_still =
        ap (λ k. drop k bytes ++ unread ps) (omega arith)
        ∙ ap (λ xs. xs ++ unread ps) (sym (drop-drop br left bytes))
        ∙ ap (λ k. drop left (drop br bytes) ++ drop k (unread ps)) {x = 0}
            (omega (arith, length-drop br bytes))
        ∙ sym (drop-append left (drop br bytes) (unread ps));
  }

  Takes-fully :
      (rest : Taken)
      → br ≤ length bytes
      → length bytes - br ≤ left
      → Numbered n (p ∷ (ps ++ waiting))
      → Takes (n + 1) (left - (length bytes - br)) ps waiting rest
      → Takes n left (p ∷ ps) waiting (record {
        bytes = take left (drop br bytes) ++ rest.bytes;
        packets = record p_read { packet = none } ∷ rest.packets;
        full = suc rest.full;
      })
  Takes-fully rest sound whole num t = record {
    gone = record p_read { packet = none } ∷ t.gone;
    still = t.still;
    parts = ap (◌∷◌ (record p_read { packet = none })) t.parts;
    full = ap suc t.full;
    count = omega (arith, t.count);
    numbered = (num.0, t.numbered);
    still_sound = t.still_sound;
    still_present = t.still_present;
    bytes =
        ap (λ xs. take left (drop br bytes) ++ xs)
          (t.bytes ∙ ap (λ k. take k (unread ps)) (omega (arith, length-drop br bytes)))
        ∙ sym (take-append left (drop br bytes) (unread ps));
    unread_still =
        t.unread_still
        ∙ ap (λ k. drop k (unread ps)) (omega (arith, length-drop br bytes))
        ∙ ap (λ xs. xs ++ drop (left - length (drop br bytes)) (unread ps))
            (sym (drop_all left (drop br bytes) (omega (arith, length-drop br bytes))))
        ∙ sym (drop-append left (drop br bytes) (unread ps));
  }

-- What is wanted after a packet was fully read
after_whole :
    (left br : ℕ) (bytes : List ℕ)
    → br ≤ length bytes
    → length bytes - br ≤ left
    → left - (length bytes - br) ≡ left - length (take left (drop br bytes))
after_whole left br bytes sound whole =
    omega (arith, length-take left (drop br bytes), length-drop br bytes)

-- The loop at a packet that is there, where it holds for the packets behind it
Takes-cons :
    (last n left seq_nr : ℕ) (bytes : List ℕ) (br : ℕ) (ps waiting : List WindowPacket)
    → Passed last (p last n left seq_nr bytes br ps waiting)
    → length bytes < 2 ^ 32
    → br ≤ length bytes
    → Numbered n (p last n left seq_nr bytes br ps waiting ∷ (ps ++ waiting))
    → All Sound ps
    → All Present ps
    → ((k : ℕ) → Takes (n + 1) k ps waiting (read_packets last k (ps ++ waiting)))
    → Takes n left
        (p last n left seq_nr bytes br ps waiting ∷ ps)
        waiting
        (read_packets last left (p last n left seq_nr bytes br ps waiting ∷ (ps ++ waiting)))
Takes-cons last n zero seq_nr bytes br ps waiting passed small sound num sounds presents rest =
    subst (Takes n zero (p last n 0 seq_nr bytes br ps waiting ∷ ps) waiting)
      (sym (read_packets-zero last (p last n 0 seq_nr bytes br ps waiting) (ps ++ waiting)))
      (record {
        gone = [];
        still = p last n 0 seq_nr bytes br ps waiting ∷ ps;
        parts = refl;
        full = refl;
        count = omega arith;
        numbered = num;
        still_sound = ((small, sound), sounds);
        still_present = ((bytes, refl), presents);
        bytes = refl;
        unread_still = refl;
      })
Takes-cons last n (suc left) seq_nr bytes br ps waiting passed small sound num sounds presents
      rest =
    let q : WindowPacket = p last n (suc left) seq_nr bytes br ps waiting in
    let there = read_packets-present last left q (ps ++ waiting) bytes refl passed in
    let got = read_packet_lem q bytes (suc left) small sound in
    subst (Takes n (suc left) (q ∷ ps) waiting)
      (sym (
        there
        ∙ ap
            (λ r.
              take_packet q r (length bytes) (ps ++ waiting)
                (read_packets last (suc left - length r.0) (ps ++ waiting)))
            got))
      (elim (Bool-cases (br + min (length bytes - br) (suc left) == length bytes)) [
        | inl whole ↦
            subst (Takes n (suc left) (q ∷ ps) waiting)
              (sym (take_packet-full q _ (length bytes) (ps ++ waiting) _ whole))
              (Takes-fully last n (suc left) seq_nr bytes br ps waiting _ sound (ground arith) num (
                subst
                  (λ k.
                    Takes (n + 1) (suc left - (length bytes - br)) ps waiting
                      (read_packets last k (ps ++ waiting)))
                  (after_whole (suc left) br bytes sound (ground arith))
                  (rest (suc left - (length bytes - br)))))
        | inr part ↦
            subst (Takes n (suc left) (q ∷ ps) waiting)
              (sym (take_packet-part q _ (length bytes) (ps ++ waiting) _ part))
              (Takes-partly last n (suc left) seq_nr bytes br ps waiting small sound (ground arith)
                num sounds presents)
      ])

-- The last number in order, seen from the packets that can be read
passed_lem :
    (last n k : ℕ)
    → last ≡ (n + suc k + 65535) % 2 ^ 16
    → suc k < 2 ^ 15
    → cmp_smaller_or_equal (n % 2 ^ 16) last ≡ true
passed_lem last n k e h =
    ap (cmp_smaller_or_equal (n % 2 ^ 16)) {y = after (n % 2 ^ 16) k} (omega arith)
    ∙ (forward_lem (n % 2 ^ 16) k (omega arith) (omega arith)).1

Takes-nothing :
    (last n left : ℕ) (waiting : List WindowPacket)
    → Numbered n waiting
    → Waits waiting
    → Takes n left [] waiting (read_packets last left waiting)
unfolding read_packets
Takes-nothing last n left [] num waits = record {
  gone = [];
  still = [];
  parts = refl;
  full = refl;
  count = refl;
  numbered = num;
  still_sound = tt;
  still_present = tt;
  bytes = sym (take_all left [] (omega arith));
  unread_still = sym (drop_all left [] (omega arith));
}
Takes-nothing last n left (p ∷ ps) num waits =
    subst (Takes n left [] (p ∷ ps)) (sym (read_packets-missing last left p ps waits)) (record {
      gone = [];
      still = [];
      parts = refl;
      full = refl;
      count = refl;
      numbered = num;
      still_sound = tt;
      still_present = tt;
      bytes = sym (take_all left [] (omega arith));
      unread_still = sym (drop_all left [] (omega arith));
    })

-- The loop takes the bytes that can be read, as many as are wanted, and stops at a packet that is missing.
pub takes :
    (last n left : ℕ) (ready waiting : List WindowPacket)
    → last ≡ (n + length ready + 65535) % 2 ^ 16
    → length ready < 2 ^ 15
    → Numbered n (ready ++ waiting)
    → All Sound ready
    → All Present ready
    → Waits waiting
    → Takes n left ready waiting (read_packets last left (ready ++ waiting))
takes last n left [] waiting e few num sounds presents waits =
    Takes-nothing last n left waiting num waits
takes last n left (p ∷ ps) waiting e few num sounds presents waits =
    let (bytes, there) = presents.0 in
    subst
      (λ q.
        Passed last q
        → Numbered n (q ∷ (ps ++ waiting))
        → Sound q
        → Takes n left (q ∷ ps) waiting (read_packets last left (q ∷ (ps ++ waiting))))
      (ap (λ o. record p { packet = o }) (sym there))
      (λ passed num' sound.
        Takes-cons last n left p.seq_nr bytes p.bytes_read ps waiting passed sound.0 sound.1 num'
          sounds.1 presents.1
          (λ k.
            takes last (n + 1) k ps waiting (e ∙ omega arith) (omega arith) num.1 sounds.1
              presents.1 waits))
      (ap (λ k. cmp_smaller_or_equal k last) num.0
        ∙ passed_lem last n (length ps) (e ∙ omega arith) few)
      num sounds.0
