-- ===== src/Utp/LocalWindow/Delivery.antt =====
-- What a window hands out of a stream of packets, src/utp/localwindow.cpp: the packets come in any order,
-- some of them more than once or never, and are read in between.
use libktorrent_stream.Base.{
  ℕ, ◌+◌, ◌-◌, ◌%◌, ◌^◌, ◌≤◌, ◌<◌, ◌≡◌, refl, sym, ◌∙◌, ap, subst, inl, inr, ◌⊎◌, Bool, true, false,
  ◌||◌, leb, Bool-cases, some, List, [], ◌++◌, append_assoc, length, length-append, length-drop,
  take, take-append-drop, drop, get_or, ltb, arith,
}
use mathlib.Core.Option.{some-injective}
use libktorrent_stream.Utp.RemoteWindow.{sub32}
use libktorrent_stream.Utp.LocalWindow.{
  WindowPacket, LocalWindow, missing, is_present, create, set_last_seq_nr, read,
}
use libktorrent_stream.Utp.LocalWindow.Invariant.{unread, Holds}
use libktorrent_stream.Utp.LocalWindow.Fill.{fill, lead, follow, absent_iff, unread-append, Free}
use libktorrent_stream.Utp.LocalWindow.Read.{read_lem}
use libktorrent_stream.Utp.LocalWindow.Received.{received, packet_received-received, Holds-now}
use libktorrent_stream.Utp.LocalWindow.Receive.{
  packet_received-old, packet_received-full, packet_received-taken,
}
use libktorrent_stream.Utp.LocalWindow.Stream.{
  Run, started, accepted, refused, was_read, Sent, SoundSent, payload, stream, number, InReach,
  receive, mark, in_order, bytes_arrived, stream-add, Matches, Matches-fill, unread-lead,
  Matches-follow, taken-lt,
}
use libktorrent_stream.Utp.LocalWindow.Arrived.{
  trues, presents, trues-add, mark-trues, mark_old, mark_present, presents-fill, presents-follow,
  in_order-trues, bytes_arrived_lem,
}

-- The window holds what came in order behind what was handed out, and the rest at its place.
record Delivers (sent : Sent) (lsn cap : ℕ) (w : LocalWindow) (out : List ℕ) (next : ℕ)
    (arrived : List Bool) : Type 0 where
  n : ℕ
  gone : List WindowPacket
  ready : List WindowPacket
  waiting : List WindowPacket
  holds : Holds w n gone ready waiting
  cap_is : w.capacity ≡ cap
  counted : w.last_seq_nr ≡ (lsn + next) % 2 ^ 16
  order : out ++ unread ready ≡ stream sent 0 next
  matches : Matches sent next waiting
  flags : arrived ≡ trues next ++ presents waiting

module _ (sent : Sent) (lsn cap : ℕ) (sound : SoundSent sent) (lsn_small : lsn < 2 ^ 16)
    (cap_small : cap < 2 ^ 32) where
  -- In terms of the packets that arrived alone
  Ordered : LocalWindow → List ℕ → List Bool → Type 0
  Ordered w out arrived = Delivers sent lsn cap w out (in_order arrived) arrived

  settle :
      (w : LocalWindow) (out : List ℕ) (next : ℕ) (arrived : List Bool)
      → Delivers sent lsn cap w out next arrived
      → Ordered w out arrived
  unfolding Ordered
  settle w out next arrived d =
      let e : in_order arrived ≡ next =
        ap in_order d.flags ∙ in_order-trues next d.waiting d.holds.waits in
      subst (λ m. Delivers sent lsn cap w out m arrived) (sym e) d

  at_start : Ordered (set_last_seq_nr (create cap) lsn) [] []
  unfolding create set_last_seq_nr stream in_order Ordered
  at_start = record {
    n = (lsn + 1) % 2 ^ 16;
    gone = [];
    ready = [];
    waiting = [];
    holds = record {
      parts = refl;
      start = omega arith;
      numbered = tt;
      few = omega arith;
      ready_sound = tt;
      ready_present = tt;
      waiting_sound = tt;
      waits = tt;
      first = λ h. absurd (omega (arith, h));
      last = omega (arith, lsn_small);
      available = refl;
      space = omega arith;
      bounded = cap_small;
    };
    cap_is = refl;
    counted = omega (arith, lsn_small);
    order = refl;
    matches = tt;
    flags = refl;
  }

  -- What comes of a packet: it is refused where there is no room for it, and else the window holds it.
  Outcome : LocalWindow → List ℕ → List Bool → ℕ → Type 0
  Outcome w out arrived i =
      ((in_order arrived ≤ i)
        × (w.window_space < length (payload sent i))
        × (receive sent lsn w i ≡ (false, w)))
      ⊎ (((i < in_order arrived) ⊎ (length (payload sent i) ≤ w.window_space))
          × (w' : LocalWindow) × (receive sent lsn w i ≡ (true, w'))
          × Ordered w' out (mark i arrived))

  -- A packet that is put into its place
  is_stored :
      (w : LocalWindow) (out : List ℕ) (next k : ℕ) (arrived : List Bool)
      → (d : Delivers sent lsn cap w out next arrived)
      → length d.gone + length d.ready + k + 1 < 2 ^ 15
      → Free d.waiting k
      → length (payload sent (next + k)) ≤ w.window_space
      → (w' : LocalWindow) × (receive sent lsn w (next + k) ≡ (true, w'))
        × Ordered w' out (mark (next + k) arrived)
  is_stored w out next k arrived d near free room =
      let h = d.holds in
      let i : ℕ = next + k in
      let place : number lsn i ≡ (d.n + length d.gone + length d.ready + k) % 2 ^ 16 =
        omega (arith, d.counted, h.last) in
      let fits : length (sent.bytes i) - sent.data_off i ≤ w.window_space =
        omega (arith, room, length-drop (sent.data_off i) (sent.bytes i)) in
      let p : WindowPacket = record {
        seq_nr = number lsn i;
        packet = some (sent.bytes i);
        bytes_read = sent.data_off i;
      } in
      let now : List WindowPacket = fill (d.n + length (d.gone ++ d.ready)) d.waiting k p in
      let h' =
        Holds-now w d.n k d.gone d.ready d.waiting (number lsn i) (sent.bytes i) (sent.data_off i) h
          place near free (sound i).0 (sound i).1 fits in
      let m : Matches sent next now =
        Matches-fill sent (d.n + length (d.gone ++ d.ready)) next d.waiting k p d.matches refl in
      let w' =
        received w d.n k d.gone d.ready d.waiting (number lsn i) (sent.bytes i) (sent.data_off i) h
          place near free (sound i).0 (sound i).1 fits in
      (
        w',
        packet_received-received w d.n k d.gone d.ready d.waiting (number lsn i) (sent.bytes i)
            (sent.data_off i) h place near free (sound i).0 (sound i).1 fits,
        settle w' out (next + length (lead now)) (mark i arrived) (record {
          n = d.n;
          gone = d.gone;
          ready = d.ready ++ lead now;
          waiting = follow now;
          holds = h';
          cap_is = d.cap_is;
          counted = omega (arith, h.last, h'.last, d.counted, length-append d.ready (lead now));
          order =
              ap (◌++◌ out) (unread-append d.ready (lead now))
              ∙ sym (append_assoc out (unread d.ready) (unread (lead now)))
              ∙ ap (λ xs. xs ++ unread (lead now)) d.order
              ∙ ap (◌++◌ (stream sent 0 next)) (unread-lead sent next now m)
              ∙ ap (λ j. stream sent 0 next ++ stream sent j (length (lead now))) (omega arith)
              ∙ sym (stream-add sent 0 next (length (lead now)));
          matches = Matches-follow sent next now m;
          flags =
              ap (mark i) d.flags
              ∙ mark-trues next k (presents d.waiting)
              ∙ ap (◌++◌ (trues next)) (
                  sym (presents-fill (d.n + length (d.gone ++ d.ready)) d.waiting k p refl)
                  ∙ presents-follow now)
              ∙ trues-add next (length (lead now)) (presents (follow now));
        }),
      )

  -- A packet from the next one in order on
  new_packet :
      (w : LocalWindow) (out : List ℕ) (k : ℕ) (arrived : List Bool)
      → Ordered w out arrived
      → length w.incoming_packets + k + 1 < 2 ^ 15
      → Outcome w out arrived (in_order arrived + k)
  unfolding Outcome Ordered
  new_packet w out k arrived d near =
      let h = d.holds in
      let next : ℕ = in_order arrived in
      let i : ℕ = next + k in
      let many = length-append d.gone (d.ready ++ d.waiting) in
      let size : length w.incoming_packets ≡ length d.gone + length d.ready + length d.waiting =
        omega (arith, ap length h.parts, many, length-append d.ready d.waiting) in
      let place : number lsn i ≡ (d.n + length d.gone + length d.ready + k) % 2 ^ 16 =
        omega (arith, d.counted, h.last) in
      let size_of = length-drop (sent.data_off i) (sent.bytes i) in
      elim (Bool-cases (ltb w.window_space (sub32 (length (sent.bytes i)) (sent.data_off i)))) [
        | inl full ↦ inl (
          omega arith,
          ground (arith, full, (sound i).0, (sound i).1, size_of),
          packet_received-full w k (number lsn i) (sent.bytes i) (sent.data_off i)
              (omega (arith, d.counted)) (omega (arith, d.counted)) (omega (arith, near)) full,
        )
        | inr room ↦
            let fits : length (payload sent i) ≤ w.window_space =
              ground (arith, room, (sound i).0, (sound i).1, size_of) in
            elim (Bool-cases (is_present (get_or d.waiting k (missing 0)).packet)) [
              | inl taken ↦
                  let same : mark i arrived ≡ arrived =
                    ap (mark i) d.flags
                    ∙ mark-trues next k (presents d.waiting)
                    ∙ ap (◌++◌ (trues next)) (mark_present d.waiting k taken)
                    ∙ sym d.flags in
                  inr (
                    inr fits,
                    w,
                    packet_received-taken w d.n k d.gone d.ready d.waiting (number lsn i)
                        (sent.bytes i) (sent.data_off i) h place (taken-lt d.waiting k taken) taken
                        room,
                    subst (Ordered w out) (sym same) d,
                  )
              | inr free ↦
                  let r =
                    is_stored w out next k arrived d (omega (arith, near, size)) (absent_iff _ free)
                      fits in
                  inr (inr fits, r.0, r.1, r.2)
            ]
      ]

  outcome :
      (w : LocalWindow) (out : List ℕ) (arrived : List Bool) (i : ℕ)
      → Ordered w out arrived
      → InReach w (in_order arrived) i
      → Outcome w out arrived i
  unfolding Outcome Ordered
  outcome w out arrived i d (inl (old, near)) =
      let next : ℕ = in_order arrived in
      let same : mark i arrived ≡ arrived =
        ap (mark i) d.flags ∙ mark_old next i (presents d.waiting) old ∙ sym d.flags in
      inr (
        inl old,
        w,
        packet_received-old w (next - 1 - i) (number lsn i) (sent.bytes i) (sent.data_off i)
            (omega (arith, d.counted, old)) (omega arith) (omega (arith, old, near)),
        subst (Ordered w out) (sym same) d,
      )
  outcome w out arrived i d (inr (new, near)) =
      subst (Outcome w out arrived) {y = i} (omega (arith, new))
        (new_packet w out (i - in_order arrived) arrived d near)

  is_read :
      (w w' : LocalWindow) (out bytes : List ℕ) (arrived : List Bool) (max_len : ℕ)
      → Ordered w out arrived
      → read w max_len ≡ some (bytes, w')
      → Ordered w' (out ++ bytes) arrived
  unfolding Ordered
  is_read w w' out bytes arrived max_len d e =
      elim (read_lem w d.n max_len d.gone d.ready d.waiting d.holds) [
        | inr (_, none_read) ↦ absurd (cc (none_read, e))
        | inl (_, v, r) ↦
            let same = some-injective _ _ (sym r.result ∙ e) in
            subst (λ p. Delivers sent lsn cap p.1 (out ++ p.0) (in_order arrived) arrived) same
              (record {
                n = r.n;
                gone = r.gone;
                ready = r.still;
                waiting = d.waiting;
                holds = r.holds;
                cap_is = r.same_capacity ∙ d.cap_is;
                counted = r.same_last ∙ d.counted;
                order =
                    ap (◌++◌ (out ++ take max_len (unread d.ready))) r.rest
                    ∙ append_assoc out (take max_len (unread d.ready))
                        (drop max_len (unread d.ready))
                    ∙ ap (◌++◌ out) (take-append-drop max_len (unread d.ready))
                    ∙ d.order;
                matches = d.matches;
                flags = d.flags;
              })
      ]

  is_accepted :
      (w w' : LocalWindow) (out : List ℕ) (arrived : List Bool) (i : ℕ)
      → Outcome w out arrived i
      → receive sent lsn w i ≡ (true, w')
      → Ordered w' out (mark i arrived)
  unfolding Outcome
  is_accepted w w' out arrived i (inl (_, _, r)) e = absurd (cc (r, e))
  is_accepted w w' out arrived i (inr (_, v, r, o)) e =
      subst (λ u. Ordered u out (mark i arrived)) (ap (λ p. p.1) (sym r ∙ e)) o

  is_refused :
      (w w' : LocalWindow) (out : List ℕ) (arrived : List Bool) (i : ℕ)
      → Ordered w out arrived
      → Outcome w out arrived i
      → receive sent lsn w i ≡ (false, w')
      → Ordered w' out arrived
  unfolding Outcome
  is_refused w w' out arrived i d (inl (_, _, r)) e =
      subst (λ u. Ordered u out arrived) (ap (λ p. p.1) (sym r ∙ e)) d
  is_refused w w' out arrived i d (inr (_, v, r, o)) e = absurd (cc (r, e))

  delivers :
      (w : LocalWindow) (out : List ℕ) (arrived : List Bool)
      → Run sent lsn cap w out arrived
      → Ordered w out arrived
  delivers _ _ _ started = at_start
  delivers _ _ _ (accepted w w' out arrived i run reach e) =
      is_accepted w w' out arrived i (outcome w out arrived i (delivers w out arrived run) reach) e
  delivers _ _ _ (refused w w' out arrived i run reach e) =
      let d = delivers w out arrived run in
      is_refused w w' out arrived i d (outcome w out arrived i d reach) e
  delivers _ _ _ (was_read w w' out bytes arrived max_len run e) =
      is_read w w' out bytes arrived max_len (delivers w out arrived run) e

  answer :
      (w : LocalWindow) (out : List ℕ) (arrived : List Bool) (i : ℕ)
      → Outcome w out arrived i
      → (receive sent lsn w i).0
        ≡ (ltb i (in_order arrived) || leb (length (payload sent i)) w.window_space)
  unfolding Outcome
  answer w out arrived i (inl (a, b, r)) = ap (λ p. p.0) r ∙ ground (arith, a, b)
  answer w out arrived i (inr (a, v, r, _)) = ap (λ p. p.0) r ∙ ground (arith, a)

-- Whatever packets of a stream come in, in whatever order and how often, and however they are read in
-- between, and with `next` the first packet of the stream that did not arrive yet: the bytes that were
-- handed out and those that can still be read, as many as `bytes_available` says, are together the
-- data of the packets before `next`; the number that is acknowledged is that of the last of these; the
-- free space is the capacity without the bytes that arrived and were not handed out; and of the
-- packets that may come next, one from `next` on is refused exactly where its data does not fit the
-- free space, and an older one never. A packet that was not refused has arrived. Each packet that
-- comes is less than half of the circle from those that the window keeps, and has its data inside its
-- bytes, which are fewer than 2 ^ 32; numbers have 16 bits, and the capacity is below 2 ^ 32.
pub Run-delivers :
    (sent : Sent) (lsn cap : ℕ) (w : LocalWindow) (out : List ℕ) (arrived : List Bool) (i : ℕ)
    → SoundSent sent
    → lsn < 2 ^ 16
    → cap < 2 ^ 32
    → Run sent lsn cap w out arrived
    → InReach w (in_order arrived) i
    → (rest : List ℕ) × (out ++ rest ≡ stream sent 0 (in_order arrived))
      × (w.bytes_available ≡ length rest)
      × (w.last_seq_nr ≡ (lsn + in_order arrived) % 2 ^ 16)
      × (w.window_space + bytes_arrived sent 0 arrived ≡ cap + length out)
      × ((receive sent lsn w i).0
          ≡ (ltb i (in_order arrived) || leb (length (payload sent i)) w.window_space))
unfolding Ordered
Run-delivers sent lsn cap w out arrived i sound lsn_small cap_small run reach =
    let d = delivers sent lsn cap sound lsn_small cap_small w out arrived run in
    let next : ℕ = in_order arrived in
    let all_bytes =
      ap (bytes_arrived sent 0) d.flags ∙ bytes_arrived_lem sent next d.waiting d.matches in
    (
      unread d.ready,
      d.order,
      d.holds.available,
      d.counted,
      omega (
        arith,
        all_bytes,
        d.holds.space,
        d.cap_is,
        ap length d.order,
        length-append out (unread d.ready),
      ),
      answer sent lsn cap sound lsn_small cap_small w out arrived i
          (outcome sent lsn cap sound lsn_small cap_small w out arrived i d reach),
    )
