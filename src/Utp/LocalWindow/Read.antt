-- ===== src/Utp/LocalWindow/Read.antt =====
-- `read` of src/utp/localwindow.cpp.
use libktorrent_stream.Base.{
  ℕ, ◌+◌, ◌%◌, ◌^◌, ◌≤◌, ◌<◌, ◌≡◌, refl, sym, ◌∙◌, ap, subst, inl, inr, true, false, Bool-cases,
  ◌⊎◌, ◌==◌, none, some, List, [], ◌∷◌, ◌++◌, append_assoc, length, length-append, length-take,
  length-drop, take, drop, take-append_exact, drop-append_exact, get_or, ltb, arith,
}
use libktorrent_stream.Util.Words.{add32}
use libktorrent_stream.Utp.SeqNr.{diff}
use libktorrent_stream.Utp.SeqNr.Order.{after, forward_lem}
use libktorrent_stream.Utp.RemoteWindow.{sub32}
use libktorrent_stream.Utp.LocalWindow.{
  WindowPacket, LocalWindow, Taken, missing, read_packets, erase, read,
}
use libktorrent_stream.Utp.LocalWindow.Invariant.{
  unread, Numbered, Holds, Numbered-drop, Numbered_wrap, Numbered-replace,
}
use libktorrent_stream.Utp.LocalWindow.Loop.{Takes}
use libktorrent_stream.Utp.LocalWindow.Take.{takes}

-- The window after `read` has gone over the packets from `off` on
abbrev after_read : LocalWindow → ℕ → List WindowPacket → Taken → LocalWindow
after_read w start passed r = record w {
  first_seq_nr = (w.first_seq_nr + r.full) % 2 ^ 16;
  incoming_packets = erase (diff start ((w.first_seq_nr + r.full) % 2 ^ 16)) (passed ++ r.packets);
  window_space = add32 w.window_space (length r.bytes);
  bytes_available = sub32 w.bytes_available (length r.bytes);
}

-- `read` of a window that has packets
abbrev read_at : LocalWindow → ℕ → ℕ → List WindowPacket → List ℕ × LocalWindow
read_at w max_len start xs =
    let off = diff start w.first_seq_nr in
    let r = read_packets w.last_seq_nr max_len (drop off xs) in
    (r.bytes, after_read w start (take off xs) r)

read-cons :
    (w : LocalWindow) (max_len : ℕ) (xs : List WindowPacket)
    → w.incoming_packets ≡ xs
    → 1 ≤ length xs
    → read w max_len ≡ some (read_at w max_len (get_or xs 0 (missing 0)).seq_nr xs)
unfolding read
read-cons w max_len [] e h = absurd (omega arith)
read-cons w max_len (x ∷ xs) e h = rw e refl

-- The first number
first_number :
    (n : ℕ) (xs : List WindowPacket)
    → n < 2 ^ 16
    → Numbered n xs
    → 1 ≤ length xs
    → (get_or xs 0 (missing 0)).seq_nr ≡ n
first_number n [] h num there = absurd (omega arith)
first_number n (x ∷ xs) h num there = num.0 ∙ omega arith

-- The distance to a number that lies ahead
pub diff_ahead : (n d m : ℕ) → n < 2 ^ 16 → d < 2 ^ 15 → m ≡ (n + d) % 2 ^ 16 → diff n m ≡ d
diff_ahead n d m h h' e = ap (diff n) {y = after n d} e ∙ (forward_lem n d h h').4

read_at-parts :
    (w : LocalWindow) (max_len n : ℕ) (gone rest : List WindowPacket)
    → n < 2 ^ 16
    → length gone < 2 ^ 15
    → w.first_seq_nr ≡ (n + length gone) % 2 ^ 16
    → read_at w max_len n (gone ++ rest) ≡ (
      (read_packets w.last_seq_nr max_len rest).bytes,
      after_read w n gone (read_packets w.last_seq_nr max_len rest),
    )
read_at-parts w max_len n gone rest h h' e =
    rw
      (
        diff_ahead n (length gone) w.first_seq_nr h h' e,
        drop-append_exact gone rest,
        take-append_exact gone rest (length gone) refl,
      )
      refl

erase-lt : (off : ℕ) (xs : List WindowPacket) → ltb 20 off ≡ true → erase off xs ≡ drop off xs
unfolding erase
erase-lt off xs e = rw e refl

erase-ge : (off : ℕ) (xs : List WindowPacket) → ltb 20 off ≡ false → erase off xs ≡ xs
unfolding erase
erase-ge off xs e = rw e refl

module _ (w : LocalWindow) (n left : ℕ) (gone ready waiting : List WindowPacket) (r : Taken)
    (h : Holds w n gone ready waiting) (t : Takes (n + length gone) left ready waiting r)
    (there : 1 ≤ length gone + length ready + length waiting) where
  abbrev gone_now : List WindowPacket
  gone_now = gone ++ t.gone

  length-gone_now : length gone_now ≡ length gone + length t.gone
  length-gone_now = length-append gone t.gone

  numbered_now : Numbered n (gone_now ++ (t.still ++ waiting))
  numbered_now =
      subst (Numbered n) (sym (append_assoc gone t.gone (t.still ++ waiting)))
        (Numbered-replace n gone (ready ++ waiting) _ h.numbered t.numbered)

  first_now : (w.first_seq_nr + r.full) % 2 ^ 16 ≡ (n + length gone_now) % 2 ^ 16
  first_now = omega (arith, h.first there, t.full, length-gone_now)

  off_now : diff n ((w.first_seq_nr + r.full) % 2 ^ 16) ≡ length gone_now
  off_now =
      diff_ahead n (length gone_now) _ h.start (omega (arith, h.few, t.count, length-gone_now))
        first_now

  last_now : w.last_seq_nr ≡ (n + length gone_now + length t.still + 65535) % 2 ^ 16
  last_now = omega (arith, h.last, t.count, length-gone_now)

  length-bytes : length r.bytes + length (unread t.still) ≡ length (unread ready)
  length-bytes = omega (
    arith,
    ap length t.bytes,
    ap length t.unread_still,
    length-take left (unread ready),
    length-drop left (unread ready),
  )

  available_now : sub32 w.bytes_available (length r.bytes) ≡ length (unread t.still)
  available_now = omega (arith, h.available, length-bytes, h.space, h.bounded)

  space_now :
      add32 w.window_space (length r.bytes) + length (unread t.still) + length (unread waiting)
      ≡ w.capacity
  space_now = omega (arith, length-bytes, h.space, h.bounded)

  packets_now : gone ++ r.packets ≡ gone_now ++ (t.still ++ waiting)
  packets_now = ap (◌++◌ gone) t.parts ∙ sym (append_assoc gone t.gone (t.still ++ waiting))

  kept : ltb 20 (length gone_now) ≡ false → Holds (after_read w n gone r) n gone_now t.still waiting
  kept few = record {
    parts =
        ap (λ k. erase k (gone ++ r.packets)) off_now
        ∙ erase-ge (length gone_now) (gone ++ r.packets) few
        ∙ packets_now;
    start = h.start;
    numbered = numbered_now;
    few = omega (arith, h.few, t.count, length-gone_now);
    ready_sound = t.still_sound;
    ready_present = t.still_present;
    waiting_sound = h.waiting_sound;
    waits = h.waits;
    first = λ _. first_now;
    last = last_now;
    available = available_now;
    space = space_now;
    bounded = h.bounded;
  }

  erased :
      ltb 20 (length gone_now) ≡ true
      → Holds (after_read w n gone r) ((n + length gone_now) % 2 ^ 16) [] t.still waiting
  erased many = record {
    parts =
        ap (λ k. erase k (gone ++ r.packets)) off_now
        ∙ erase-lt (length gone_now) (gone ++ r.packets) many
        ∙ ap (drop (length gone_now)) packets_now
        ∙ drop-append_exact gone_now (t.still ++ waiting);
    start = omega arith;
    numbered =
        Numbered_wrap (n + length gone_now) ((n + length gone_now) % 2 ^ 16) (t.still ++ waiting)
          (omega arith) (Numbered-drop n gone_now (t.still ++ waiting) numbered_now);
    few = omega (arith, h.few, t.count);
    ready_sound = t.still_sound;
    ready_present = t.still_present;
    waiting_sound = h.waiting_sound;
    waits = h.waits;
    first = λ _. first_now ∙ omega arith;
    last = last_now ∙ omega arith;
    available = available_now;
    space = space_now;
    bounded = h.bounded;
  }

-- What `read` does, in terms of the bytes that can be read
pub record Reads (w w' : LocalWindow) (max_len : ℕ) (ready waiting : List WindowPacket)
    : Type 0 where
  pub n : ℕ
  pub gone : List WindowPacket
  pub still : List WindowPacket
  pub result : read w max_len ≡ some (take max_len (unread ready), w')
  pub holds : Holds w' n gone still waiting
  pub same_last : w'.last_seq_nr ≡ w.last_seq_nr
  pub same_capacity : w'.capacity ≡ w.capacity
  pub rest : unread still ≡ drop max_len (unread ready)

read-Reads :
    (w : LocalWindow) (n max_len : ℕ) (gone ready waiting : List WindowPacket)
    → Holds w n gone ready waiting
    → 1 ≤ length w.incoming_packets
    → (w' : LocalWindow) × Reads w w' max_len ready waiting
read-Reads w n max_len gone ready waiting h there =
    let r : Taken = read_packets w.last_seq_nr max_len (ready ++ waiting) in
    let some_there : 1 ≤ length gone + length ready + length waiting = omega (
      arith,
      there,
      ap length h.parts,
      length-append gone (ready ++ waiting),
      length-append ready waiting,
    ) in
    let t : Takes (n + length gone) max_len ready waiting r =
      takes w.last_seq_nr (n + length gone) max_len ready waiting h.last (omega (arith, h.few))
        (Numbered-drop n gone (ready ++ waiting) h.numbered) h.ready_sound h.ready_present
        h.waits in
    let result : read w max_len ≡ some (take max_len (unread ready), after_read w n gone r) =
      read-cons w max_len (gone ++ (ready ++ waiting)) h.parts
        (omega (arith, there, ap length h.parts))
      ∙ ap (λ s. some (read_at w max_len s (gone ++ (ready ++ waiting))))
          (first_number n (gone ++ (ready ++ waiting)) h.start h.numbered
            (omega (arith, there, ap length h.parts)))
      ∙ ap some (
          read_at-parts w max_len n gone (ready ++ waiting) h.start (omega (arith, h.few))
            (h.first some_there))
      ∙ ap (λ bs. some (bs, after_read w n gone r)) t.bytes in
    (
      after_read w n gone r,
      elim (Bool-cases (ltb 20 (length (gone ++ t.gone)))) [
        | inl many ↦ record {
          n = (n + length (gone ++ t.gone)) % 2 ^ 16;
          gone = [];
          still = t.still;
          result = result;
          holds = erased w n max_len gone ready waiting r h t some_there many;
          same_last = refl;
          same_capacity = refl;
          rest = t.unread_still;
        }
        | inr few ↦ record {
          n = n;
          gone = gone ++ t.gone;
          still = t.still;
          result = result;
          holds = kept w n max_len gone ready waiting r h t some_there few;
          same_last = refl;
          same_capacity = refl;
          rest = t.unread_still;
        }
      ],
    )

read_nothing :
    (w : LocalWindow) (max_len : ℕ) (xs : List WindowPacket)
    → w.incoming_packets ≡ xs
    → length xs ≡ 0
    → read w max_len ≡ none
unfolding read
read_nothing w max_len [] e h = rw e refl
read_nothing w max_len (x ∷ xs) e h = absurd (omega (arith, h))

no_elements : (xs : List WindowPacket) → length xs ≡ 0 → xs ≡ []
no_elements [] e = refl
no_elements (x ∷ xs) e = absurd (omega (arith, e))

-- `read` of a window that has packets hands out the bytes that can be read in order, as many as are wanted,
-- and leaves the others; the packets that wait for a missing one stay, and the invariant holds again. A window without
-- packets has no first one, which the source asks for: there the model has no result.
pub read_lem :
    (w : LocalWindow) (n max_len : ℕ) (gone ready waiting : List WindowPacket)
    → Holds w n gone ready waiting
    → ((1 ≤ length w.incoming_packets) × (w' : LocalWindow) × Reads w w' max_len ready waiting)
      ⊎ ((w.incoming_packets ≡ []) × (read w max_len ≡ none))
read_lem w n max_len gone ready waiting h = elim (Bool-cases (length w.incoming_packets == 0)) [
  | inl no_packets ↦ inr (
    no_elements w.incoming_packets (ground (arith, no_packets)),
    read_nothing w max_len w.incoming_packets refl (ground (arith, no_packets)),
  )
  | inr packets ↦
      let r = read-Reads w n max_len gone ready waiting h (ground (arith, packets)) in
      inl (ground (arith, packets), r.0, r.1)
]
