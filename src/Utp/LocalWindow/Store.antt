-- ===== src/Utp/LocalWindow/Store.antt =====
-- `store`, the part of `packetReceived` in src/utp/localwindow.cpp that finds the place of a packet.
use libktorrent_stream.Base.{
  ℕ, zero, suc, ◌+◌, ◌-◌, ◌%◌, ◌^◌, ◌≤◌, ◌<◌, ◌≡◌, refl, sym, ◌∙◌, ap, inl, inr, true, false,
  Bool-cases, none, some, List, [], ◌∷◌, ◌++◌, length, set, get_or, ltb, if◌then◌else◌, arith,
}
use libktorrent_stream.Utp.SeqNr.{cmp_smaller, diff}
use libktorrent_stream.Utp.SeqNr.Order.{after, forward_lem}
use libktorrent_stream.Utp.LocalWindow.{
  WindowPacket, LocalWindow, missing, is_present, gaps, next16, back, push_back, fill_slot, store,
}
use libktorrent_stream.Utp.LocalWindow.Invariant.{Numbered}
use libktorrent_stream.Utp.LocalWindow.Fill.{
  fill, fill-set, fill-append, gaps-fill, smaller_ahead, Free,
}

module _ (w : LocalWindow) (p : WindowPacket) where
  store-nil :
      w.incoming_packets ≡ []
      → store w p
        ≡ some (record w {
          first_seq_nr = next16 w.last_seq_nr;
          incoming_packets = push_back [] w.last_seq_nr p;
        })
  unfolding store
  store-nil e = rw e refl

  store-beyond :
      (x : WindowPacket) (xs : List WindowPacket)
      → w.incoming_packets ≡ x ∷ xs
      → cmp_smaller (back x xs).seq_nr p.seq_nr ≡ true
      → store w p ≡ some (record w { incoming_packets = push_back (x ∷ xs) (back x xs).seq_nr p })
  unfolding store
  store-beyond x xs e c = rw (e, c) refl

  store-within :
      (x : WindowPacket) (xs : List WindowPacket) (off : ℕ)
      → w.incoming_packets ≡ x ∷ xs
      → cmp_smaller (back x xs).seq_nr p.seq_nr ≡ false
      → diff x.seq_nr p.seq_nr ≡ off
      → store w p ≡ (
          if is_present (get_or (x ∷ xs) off x).packet
          then none
          else some (record w {
            incoming_packets = set (x ∷ xs) off (fill_slot (get_or (x ∷ xs) off x) p);
          }))
  unfolding store
  store-within x xs off e c d = rw (e, c, d) refl

pub number_at :
    (n : ℕ) (xs : List WindowPacket) (i : ℕ) (d : WindowPacket)
    → Numbered n xs
    → i < length xs
    → (get_or xs i d).seq_nr ≡ (n + i) % 2 ^ 16
number_at n [] i d num h = absurd (omega arith)
number_at n (x ∷ xs) zero d num h = num.0 ∙ omega arith
number_at n (x ∷ xs) (suc i) d num h = number_at (n + 1) xs i d num.1 (omega arith) ∙ omega arith

back_number :
    (n : ℕ) (x : WindowPacket) (xs : List WindowPacket)
    → Numbered n (x ∷ xs)
    → (back x xs).seq_nr ≡ (n + length xs) % 2 ^ 16
unfolding back
back_number n x [] num = num.0 ∙ omega arith
back_number n x (y ∷ xs) num = back_number (n + 1) y xs num.1 ∙ omega arith

get_or_default :
    (xs : List WindowPacket) (i : ℕ) (d d' : WindowPacket)
    → i < length xs
    → get_or xs i d ≡ get_or xs i d'
get_or_default [] i d d' h = absurd (omega arith)
get_or_default (x ∷ xs) zero d d' h = refl
get_or_default (x ∷ xs) (suc i) d d' h = get_or_default xs i d d' (omega arith)

-- Whether a packet is beyond the last of some, where it has the number of the `i`-th place
module _ (n i : ℕ) (x : WindowPacket) (xs : List WindowPacket) (p : WindowPacket)
    (num : Numbered n (x ∷ xs)) (place : p.seq_nr ≡ (n + i) % 2 ^ 16) (small : i < 2 ^ 15)
    (few : length xs < 2 ^ 15) where
  is_beyond : length xs < i → cmp_smaller (back x xs).seq_nr p.seq_nr ≡ true
  is_beyond h =
      ap (λ b. cmp_smaller b p.seq_nr) (back_number n x xs num)
      ∙ smaller_ahead (n + length xs) (i - length xs) p.seq_nr (omega arith) (place ∙ omega arith)
      ∙ ground arith

  is_within : i ≤ length xs → cmp_smaller (back x xs).seq_nr p.seq_nr ≡ false
  is_within h =
      ap (cmp_smaller (back x xs).seq_nr) place
      ∙ ap (λ b. cmp_smaller b ((n + i) % 2 ^ 16)) {y = after ((n + i) % 2 ^ 16) (length xs - i)}
          (back_number n x xs num ∙ omega arith)
      ∙ (forward_lem ((n + i) % 2 ^ 16) (length xs - i) (omega arith) (omega arith)).2

  off_lem : diff x.seq_nr p.seq_nr ≡ i
  off_lem =
      ap (λ a. diff a p.seq_nr) num.0
      ∙ ap (diff (n % 2 ^ 16)) {y = after (n % 2 ^ 16) i} (place ∙ omega arith)
      ∙ (forward_lem (n % 2 ^ 16) i (omega arith) small).4

-- Gaps and the packet behind some others
push_back-fill :
    (n i last : ℕ) (xs : List WindowPacket) (p : WindowPacket)
    → last ≡ (n + length xs + 65535) % 2 ^ 16
    → length xs ≤ i
    → i < 2 ^ 15
    → p.seq_nr ≡ (n + i) % 2 ^ 16
    → push_back xs last p ≡ fill n xs i p
unfolding push_back
push_back-fill n i last xs p e h small place =
    ap (λ s. xs ++ (gaps ((p.seq_nr + 2 ^ 16 - last) % 2 ^ 16) s p.seq_nr ++ (p ∷ [])))
      {y = (n + length xs) % 2 ^ 16} (omega arith)
    ∙ ap (◌++◌ xs) (
        gaps-fill ((p.seq_nr + 2 ^ 16 - last) % 2 ^ 16) (n + length xs) (i - length xs) p
          (omega arith) (omega arith) (place ∙ omega arith))
    ∙ sym (fill-append n xs (i - length xs) p)
    ∙ ap (λ j. fill n xs j p) (omega arith)

-- The first number that is not read, once there are packets
abbrev pub first_stored : List WindowPacket → LocalWindow → ℕ
first_stored [] w = next16 w.last_seq_nr
first_stored (x ∷ xs) w = w.first_seq_nr

-- A packet that has the number of the `i`-th place goes there.
pub store-fill :
    (w : LocalWindow) (n i : ℕ) (p : WindowPacket) (xs : List WindowPacket)
    → w.incoming_packets ≡ xs
    → Numbered n xs
    → length xs < 2 ^ 15
    → i < 2 ^ 15
    → p.seq_nr ≡ (n + i) % 2 ^ 16
    → Free xs i
    → (length xs ≡ 0 → w.last_seq_nr ≡ (n + 65535) % 2 ^ 16)
    → store w p
      ≡ some (record w { first_seq_nr = first_stored xs w; incoming_packets = fill n xs i p })
store-fill w n i p [] e num few small place free l =
    store-nil w p e
    ∙ ap (λ ps. some (record w { first_seq_nr = next16 w.last_seq_nr; incoming_packets = ps }))
        (push_back-fill n i w.last_seq_nr [] p (l refl ∙ omega arith) (omega arith) small place)
store-fill w n i p (x ∷ xs) e num few small place free l = elim (Bool-cases (ltb (length xs) i)) [
  | inl beyond ↦
      store-beyond w p x xs e (is_beyond n i x xs p num place small (omega arith) (ground arith))
      ∙ ap (λ ps. some (record w { incoming_packets = ps }))
          (push_back-fill n i (back x xs).seq_nr (x ∷ xs) p (back_number n x xs num ∙ omega arith)
            (ground arith) small place)
  | inr within ↦
      store-within w p x xs i e (is_within n i x xs p num place small (omega arith) (ground arith))
        (off_lem n i x xs p num place small (omega arith))
      ∙ ap
          (λ o.
            if is_present o
            then none
            else some (record w {
              incoming_packets = set (x ∷ xs) i (fill_slot (get_or (x ∷ xs) i x) p);
            }))
          (ap (λ q. q.packet) (get_or_default (x ∷ xs) i x (missing 0) (ground arith)) ∙ free)
      ∙ ap (λ s. some (record w { incoming_packets = set (x ∷ xs) i (record p { seq_nr = s }) }))
          (number_at n (x ∷ xs) i x num (ground arith) ∙ sym place)
      ∙ ap (λ ps. some (record w { incoming_packets = ps }))
          (sym (fill-set n (x ∷ xs) i p (ground arith)))
]

-- A packet whose place is taken is not stored again.
pub store-taken :
    (w : LocalWindow) (n i : ℕ) (p : WindowPacket) (xs : List WindowPacket)
    → w.incoming_packets ≡ xs
    → Numbered n xs
    → length xs < 2 ^ 15
    → i < length xs
    → p.seq_nr ≡ (n + i) % 2 ^ 16
    → is_present (get_or xs i (missing 0)).packet ≡ true
    → store w p ≡ none
store-taken w n i p [] e num few small place taken = absurd (omega arith)
store-taken w n i p (x ∷ xs) e num few small place taken =
    store-within w p x xs i e
      (is_within n i x xs p num place (omega arith) (omega arith) (omega arith))
      (off_lem n i x xs p num place (omega arith) (omega arith))
    ∙ ap
        (λ o.
          if is_present o
          then none
          else some
              (record w { incoming_packets = set (x ∷ xs) i (fill_slot (get_or (x ∷ xs) i x) p) }))
        (ap (λ q. q.packet) (get_or_default (x ∷ xs) i x (missing 0) small))
    ∙ rw taken refl
