-- ===== src/Utp/LocalWindow/Received.antt =====
-- A new packet in `packetReceived` of src/utp/localwindow.cpp: its place, and what moves on behind it.
use libktorrent_stream.Base.{
  ℕ, suc, ◌+◌, ◌-◌, ◌%◌, ◌^◌, ◌≤◌, ◌<◌, ◌≡◌, refl, sym, ◌∙◌, ap, subst, inl, inr, true, false,
  Bool-cases, some, List, [], ◌∷◌, ◌++◌, append_assoc, length, length-append, length-drop, drop,
  get_or, All, All-drop, All-append, ltb, ◌==◌, arith,
}
use libktorrent_stream.Util.Words.{add32}
use libktorrent_stream.Utp.SeqNr.{cmp_smaller_or_equal, diff}
use libktorrent_stream.Utp.RemoteWindow.{sub32}
use libktorrent_stream.Utp.LocalWindow.{
  WindowPacket, LocalWindow, missing, next16, store, advance, acknowledge_next, stored,
  packet_received,
}
use libktorrent_stream.Utp.LocalWindow.Invariant.{unread, Numbered, Sound, Present, Holds}
use libktorrent_stream.Utp.LocalWindow.Fill.{
  fill, lead, follow, lead-follow, lead-Present, follow-Waits, All-parts, unread-append,
  Numbered-fill, Sound-fill, length-fill, unread-fill, Free, fill-past, get_or_past, drop_past,
  fill_next, lead-fill, lead-present,
}
use libktorrent_stream.Utp.LocalWindow.Read.{diff_ahead}
use libktorrent_stream.Utp.LocalWindow.Advance.{moved, unmoved, advance-lead}
use libktorrent_stream.Utp.LocalWindow.Store.{number_at, store-fill, first_stored}
use libktorrent_stream.Utp.LocalWindow.Numbers.{acknowledge_next-is, is_new, first_stored_lem}

module _ (w : LocalWindow) (n k : ℕ) (gone ready waiting : List WindowPacket) (seq_nr : ℕ)
    (bytes : List ℕ) (data_off : ℕ) (h : Holds w n gone ready waiting)
    (place : seq_nr ≡ (n + length gone + length ready + k) % 2 ^ 16)
    (near : length gone + length ready + k + 1 < 2 ^ 15) (free : Free waiting k)
    (small : length bytes < 2 ^ 32) (within : data_off ≤ length bytes)
    (room : length bytes - data_off ≤ w.window_space) where
  abbrev pub p : WindowPacket
  p = record { seq_nr = seq_nr; packet = some bytes; bytes_read = data_off }

  abbrev pub before : List WindowPacket
  before = gone ++ ready

  pub length-before : length before ≡ length gone + length ready
  length-before = length-append gone ready

  abbrev pub filled : List WindowPacket
  filled = fill (n + length before) waiting k p

  abbrev pub all_now : List WindowPacket
  all_now = before ++ filled

  pub parts_before : w.incoming_packets ≡ before ++ waiting
  parts_before = h.parts ∙ sym (append_assoc gone ready waiting)

  pub length-all : length (before ++ waiting) ≡ length gone + length ready + length waiting
  length-all = omega (arith, length-append before waiting, length-before)

  pub numbered_before : Numbered n (before ++ waiting)
  numbered_before = subst (Numbered n) (sym (append_assoc gone ready waiting)) h.numbered

  pub first_now : first_stored (before ++ waiting) w ≡ (n + length gone) % 2 ^ 16
  first_now =
      first_stored_lem w ((n + length gone) % 2 ^ 16) (before ++ waiting)
        (λ none_there. omega (arith, h.last, none_there, length-all))
        (λ there. h.first (omega (arith, there, length-all)))

  -- The window with the packet in its place
  abbrev pub placed : LocalWindow
  placed = record w {
    first_seq_nr = first_stored (before ++ waiting) w;
    incoming_packets = all_now;
  }

  pub store-placed : store w p ≡ some placed
  store-placed =
      store-fill w n (length before + k) p (before ++ waiting) parts_before numbered_before
        (omega (arith, h.few, length-all)) (omega (arith, near, length-before))
        (place ∙ omega (arith, length-before))
        (ap (λ q. q.packet) (get_or_past before waiting k (missing 0)) ∙ free)
        (λ none_there. h.last ∙ omega (arith, none_there, length-all))
      ∙ ap
          (λ xs.
            some (record w {
              first_seq_nr = first_stored (before ++ waiting) w;
              incoming_packets = xs;
            }))
          (fill-past n before waiting k p)

  pub numbered_now : Numbered n all_now
  numbered_now = subst (Numbered n) (fill-past n before waiting k p) (
      Numbered-fill n (before ++ waiting) (length before + k) p numbered_before
        (place ∙ omega (arith, length-before)))

  pub Sound-now : All Sound filled
  Sound-now = Sound-fill (n + length before) waiting k p h.waiting_sound (small, within)

  pub size_lem : sub32 (length bytes) data_off ≡ length bytes - data_off
  size_lem = omega arith

  pub unread_now : length (unread filled) ≡ length (unread waiting) + (length bytes - data_off)
  unread_now =
      omega (arith, unread-fill (n + length before) waiting k p free, length-drop data_off bytes)

  pub last_small : w.last_seq_nr < 2 ^ 16
  last_small = omega (arith, h.last)

  -- The window when `bytes_available` and `last_seq_nr` have been brought up to date
  abbrev pub moved_on : LocalWindow
  moved_on = record placed {
    bytes_available = w.bytes_available + length (unread (lead filled));
    last_seq_nr = (w.last_seq_nr + length (lead filled)) % 2 ^ 16;
  }

  pub bytes_fit : w.bytes_available + length (unread filled) < 2 ^ 32
  bytes_fit = omega (arith, h.available, unread_now, h.space, h.bounded, room)

  pub first_number_now : (get_or all_now 0 (missing 0)).seq_nr ≡ n
  first_number_now =
      number_at n all_now 0 (missing 0) numbered_now
        (ground (arith, length-append before filled, length-fill (n + length before) waiting k p))
      ∙ omega (arith, h.start)

  pub later : 1 ≤ k → acknowledge_next placed seq_nr (length bytes - data_off) ≡ moved_on
  unfolding acknowledge_next
  later k_there =
      let other : (seq_nr == next16 w.last_seq_nr) ≡ false =
        ground (arith, place, h.last, near, k_there) in
      let nothing : lead filled ≡ [] =
        ap (λ i. lead (fill (n + length before) waiting i p)) {y = suc (k - 1)} (omega arith)
        ∙ lead-fill (n + length before) waiting (k - 1) p h.waits in
      rw other (
        unmoved placed last_small
        ∙ ap
            (λ xs. record placed {
              bytes_available = w.bytes_available + length (unread xs);
              last_seq_nr = (w.last_seq_nr + length xs) % 2 ^ 16;
            })
            (sym nothing))

  pub next : k ≡ 0 → acknowledge_next placed seq_nr (length bytes - data_off) ≡ moved_on
  next no_k =
      let filled_lem : filled ≡ p ∷ drop 1 waiting =
        ap (λ i. fill (n + length before) waiting i p) no_k
        ∙ fill_next (n + length before) waiting p in
      let unread_lem : length (unread filled)
          ≡ (length bytes - data_off) + length (unread (drop 1 waiting)) =
        ap (λ xs. length (unread xs)) filled_lem
        ∙ omega (
          arith,
          length-append (drop data_off bytes) (unread (drop 1 waiting)),
          length-drop data_off bytes,
        ) in
      let lead_lem : lead filled ≡ p ∷ lead (drop 1 waiting) =
        ap lead filled_lem ∙ lead-present p (drop 1 waiting) refl in
      let off_lem : diff (get_or all_now 0 (missing 0)).seq_nr (next16 seq_nr) ≡ length before + 1 =
        ap (λ s. diff s (next16 seq_nr)) first_number_now
        ∙ diff_ahead n (length before + 1) (next16 seq_nr) h.start
            (omega (arith, near, length-before)) (omega (arith, place, length-before, no_k)) in
      let behind : drop (diff (get_or all_now 0 (missing 0)).seq_nr (next16 seq_nr)) all_now
          ≡ drop 1 waiting =
        ap (λ i. drop i all_now) off_lem ∙ drop_past before filled 1 ∙ ap (drop 1) filled_lem in
      let sum : add32 w.bytes_available (length bytes - data_off)
          ≡ w.bytes_available + (length bytes - data_off) =
        omega (arith, bytes_fit, unread_lem) in
      acknowledge_next-is placed seq_nr (length bytes - data_off)
        (ground (arith, place, h.last, no_k))
      ∙ ap
          (λ xs. advance xs (record placed {
            bytes_available = add32 w.bytes_available (length bytes - data_off);
            last_seq_nr = seq_nr;
          }))
          behind
      ∙ ap
          (λ a.
            advance (drop 1 waiting) (record placed { bytes_available = a; last_seq_nr = seq_nr }))
          sum
      ∙ advance-lead (drop 1 waiting)
          (record placed {
            bytes_available = w.bytes_available + (length bytes - data_off);
            last_seq_nr = seq_nr;
          })
          (All-drop Sound 1 waiting h.waiting_sound) (omega (arith, place))
          (omega (arith, bytes_fit, unread_lem))
      ∙ moved placed _ _ _ _
          (omega (
            arith,
            ap (λ xs. length (unread xs)) lead_lem,
            length-append (drop data_off bytes) (unread (lead (drop 1 waiting))),
            length-drop data_off bytes,
          ))
          (omega (arith, ap length lead_lem, place, h.last, no_k))

  pub acknowledge_next-moved_on :
      acknowledge_next placed seq_nr (length bytes - data_off) ≡ moved_on
  acknowledge_next-moved_on = elim (Bool-cases (k == 0)) [
    | inl z ↦ next (ground (arith, z))
    | inr nz ↦ later (ground (arith, nz))
  ]

  abbrev pub received : LocalWindow
  received = record moved_on { window_space = w.window_space - (length bytes - data_off) }

  pub new : cmp_smaller_or_equal seq_nr w.last_seq_nr ≡ false
  new =
      is_new w.last_seq_nr seq_nr k (place ∙ omega (arith, h.last)) last_small (omega (arith, near))

  pub packet_received-received : packet_received w seq_nr bytes data_off ≡ (true, received)
  unfolding packet_received stored
  packet_received-received =
      let fits : ltb w.window_space (length bytes - data_off) ≡ false = ground (arith, room) in
      let rest : sub32 w.window_space (length bytes - data_off)
          ≡ w.window_space - (length bytes - data_off) =
        omega (arith, room, h.space, h.bounded) in
      rw (new, size_lem, fits, store-placed, acknowledge_next-moved_on)
        (ap (λ k. (true, record moved_on { window_space = k })) rest)

  pub parts_now : all_now ≡ gone ++ ((ready ++ lead filled) ++ follow filled)
  parts_now =
      append_assoc gone ready filled
      ∙ ap (◌++◌ gone) (
          ap (◌++◌ ready) (sym (lead-follow filled))
          ∙ sym (append_assoc ready (lead filled) (follow filled)))

  pub Sound-parts : All Sound (lead filled) × All Sound (follow filled)
  Sound-parts =
      All-parts Sound (lead filled) (follow filled)
        (subst (All Sound) (sym (lead-follow filled)) Sound-now)

  pub unread_parts :
      length (unread (ready ++ lead filled)) + length (unread (follow filled))
      ≡ length (unread ready) + length (unread filled)
  unread_parts = omega (
    arith,
    ap length (unread-append ready (lead filled)),
    length-append (unread ready) (unread (lead filled)),
    ap (λ xs. length (unread xs)) (lead-follow filled),
    ap length (unread-append (lead filled) (follow filled)),
    length-append (unread (lead filled)) (unread (follow filled)),
  )

  pub few_now : length gone + length (ready ++ lead filled) + length (follow filled) < 2 ^ 15
  few_now = ground (
    arith,
    ap length parts_now,
    length-append before filled,
    length-before,
    length-fill (n + length before) waiting k p,
    length-append gone ((ready ++ lead filled) ++ follow filled),
    length-append (ready ++ lead filled) (follow filled),
    near,
    h.few,
  )

  pub Holds-now : Holds received n gone (ready ++ lead filled) (follow filled)
  Holds-now = record {
    parts = parts_now;
    start = h.start;
    numbered = subst (Numbered n) parts_now numbered_now;
    few = few_now;
    ready_sound = All-append Sound ready (lead filled) h.ready_sound Sound-parts.0;
    ready_present = All-append Present ready (lead filled) h.ready_present (lead-Present filled);
    waiting_sound = Sound-parts.1;
    waits = follow-Waits filled;
    first = λ _. first_now;
    last = omega (arith, h.last, length-append ready (lead filled));
    available = omega (
      arith,
      h.available,
      ap length (unread-append ready (lead filled)),
      length-append (unread ready) (unread (lead filled)),
    );
    space = omega (arith, unread_parts, unread_now, h.space, room);
    bounded = h.bounded;
  }
