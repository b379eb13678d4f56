-- ===== src/Utp/LocalWindow/Stream.antt =====
-- A stream of packets, and what may happen to a window of src/utp/localwindow.cpp that gets them.
use libktorrent_stream.Base.{
  ℕ, zero, suc, ◌+◌, ◌-◌, ◌%◌, ◌^◌, ◌≤◌, ◌<◌, ◌≡◌, refl, sym, ◌∙◌, ap, subst, ◌⊎◌, inl, inr, Bool,
  true, false, if◌then◌else◌, Bool-cases, some, List, [], ◌∷◌, ◌++◌, append_assoc, length, drop,
  get_or, arith,
}
use libktorrent_stream.Utp.LocalWindow.{
  WindowPacket, LocalWindow, missing, is_present, create, set_last_seq_nr, read, packet_received,
}
use libktorrent_stream.Utp.LocalWindow.Invariant.{rest_of, unread}
use libktorrent_stream.Utp.LocalWindow.Fill.{fill, lead, follow}

-- The packets of a stream: the bytes of each, and where its data begins
pub record Sent : Type 0 where
  pub bytes : ℕ → List ℕ
  pub data_off : ℕ → ℕ

abbrev pub SoundSent : Sent → Type 0
SoundSent sent =
    (i : ℕ) → (length (sent.bytes i) < 2 ^ 32) × (sent.data_off i ≤ length (sent.bytes i))

abbrev pub payload : Sent → ℕ → List ℕ
payload sent i = drop (sent.data_off i) (sent.bytes i)

-- The data of `count` packets from the `i`-th on
unfoldable pub stream : Sent → ℕ → ℕ → List ℕ
stream sent i zero = []
stream sent i (suc count) = payload sent i ++ stream sent (i + 1) count

-- The number of the `i`-th packet
abbrev pub number : ℕ → ℕ → ℕ
number lsn i = (lsn + 1 + i) % 2 ^ 16

-- Which packets arrived, by their place in the stream
unfoldable pub mark : ℕ → List Bool → List Bool
mark zero [] = true ∷ []
mark zero (a ∷ arrived) = true ∷ arrived
mark (suc i) [] = false ∷ mark i []
mark (suc i) (a ∷ arrived) = a ∷ mark i arrived

-- How many packets arrived without a gap before them
unfoldable pub in_order : List Bool → ℕ
in_order [] = 0
in_order (a ∷ arrived) = let rest = in_order arrived in if a then suc rest else 0

-- The bytes of data of the packets that arrived, from the `i`-th on
unfoldable pub bytes_arrived : Sent → ℕ → List Bool → ℕ
bytes_arrived sent i [] = 0
bytes_arrived sent i (a ∷ arrived) =
    (if a then length (payload sent i) else 0) + bytes_arrived sent (i + 1) arrived

-- The `i`-th packet is less than half of the circle from all that the window keeps, where `next` is the first that
-- did not come in order yet.
abbrev pub InReach : LocalWindow → ℕ → ℕ → Type 0
InReach w next i =
    ((i < next) × (next ≤ i + 2 ^ 15))
    ⊎ ((next ≤ i) × (length w.incoming_packets + (i - next) + 1 < 2 ^ 15))

-- `packetReceived` of the `i`-th packet
abbrev pub receive : Sent → ℕ → LocalWindow → ℕ → Bool × LocalWindow
receive sent lsn w i = packet_received w (number lsn i) (sent.bytes i) (sent.data_off i)

-- What has happened to a window, the bytes that were handed out, and the packets that arrived: those that the window
-- did not refuse
pub data Run (sent : Sent) (lsn cap : ℕ) : LocalWindow → List ℕ → List Bool → Type 0 where
  started : Run sent lsn cap (set_last_seq_nr (create cap) lsn) [] []
  accepted :
      (w w' : LocalWindow) (out : List ℕ) (arrived : List Bool) (i : ℕ)
      → Run sent lsn cap w out arrived
      → InReach w (in_order arrived) i
      → receive sent lsn w i ≡ (true, w')
      → Run sent lsn cap w' out (mark i arrived)
  refused :
      (w w' : LocalWindow) (out : List ℕ) (arrived : List Bool) (i : ℕ)
      → Run sent lsn cap w out arrived
      → InReach w (in_order arrived) i
      → receive sent lsn w i ≡ (false, w')
      → Run sent lsn cap w' out arrived
  was_read :
      (w w' : LocalWindow) (out bytes : List ℕ) (arrived : List Bool) (max_len : ℕ)
      → Run sent lsn cap w out arrived
      → read w max_len ≡ some (bytes, w')
      → Run sent lsn cap w' (out ++ bytes) arrived

module _ (sent : Sent) where
  pub stream-add : (i a b : ℕ) → stream sent i (a + b) ≡ stream sent i a ++ stream sent (i + a) b
  unfolding stream
  stream-add i zero b =
      ap (stream sent i) {x = 0 + b} (omega arith) ∙ ap (λ j. stream sent j b) (omega arith)
  stream-add i (suc a) b =
      ap (stream sent i) {x = suc a + b} {y = suc (a + b)} (omega arith)
      ∙ ap (◌++◌ (payload sent i)) (
          stream-add (i + 1) a b ∙ ap (λ j. stream sent (i + 1) a ++ stream sent j b) (omega arith))
      ∙ sym (append_assoc (payload sent i) (stream sent (i + 1) a) (stream sent (i + suc a) b))

  -- The packets that are there have the data of the stream, from the `i`-th on.
  abbrev pub Matches : ℕ → List WindowPacket → Type 0
  Matches i [] = Unit
  Matches i (x ∷ xs) =
      (is_present x.packet ≡ true → rest_of x.packet x.bytes_read ≡ payload sent i)
      × Matches (i + 1) xs

  pub Matches-fill :
      (n i : ℕ) (xs : List WindowPacket) (k : ℕ) (p : WindowPacket)
      → Matches i xs
      → rest_of p.packet p.bytes_read ≡ payload sent (i + k)
      → Matches i (fill n xs k p)
  unfolding fill
  Matches-fill n i [] zero p m e = (λ _. e ∙ ap (payload sent) (omega arith), tt)
  Matches-fill n i [] (suc k) p m e = (
    λ h. absurd (ground (arith, h)),
    Matches-fill (n + 1) (i + 1) [] k p tt (e ∙ ap (payload sent) (omega arith)),
  )
  Matches-fill n i (x ∷ xs) zero p m e = (λ _. e ∙ ap (payload sent) (omega arith), m.1)
  Matches-fill n i (x ∷ xs) (suc k) p m e =
      (m.0, Matches-fill (n + 1) (i + 1) xs k p m.1 (e ∙ ap (payload sent) (omega arith)))

  pub unread-lead :
      (i : ℕ) (xs : List WindowPacket)
      → Matches i xs
      → unread (lead xs) ≡ stream sent i (length (lead xs))
  unfolding lead stream
  unread-lead i [] m = refl
  unread-lead i (x ∷ xs) m = elim (Bool-cases (is_present x.packet)) [
    | inl there ↦ rw there (
        ap (λ d. d ++ unread (lead xs)) (m.0 there)
        ∙ ap (◌++◌ (payload sent i)) (unread-lead (i + 1) xs m.1))
    | inr not_there ↦ rw not_there refl
  ]

  pub Matches-follow :
      (i : ℕ) (xs : List WindowPacket) → Matches i xs → Matches (i + length (lead xs)) (follow xs)
  unfolding lead follow
  Matches-follow i [] m = tt
  Matches-follow i (x ∷ xs) m = elim (Bool-cases (is_present x.packet)) [
    | inl there ↦
        rw there (subst (λ j. Matches j (follow xs)) (omega arith) (Matches-follow (i + 1) xs m.1))
    | inr not_there ↦ rw not_there (subst (λ j. Matches j (x ∷ xs)) (omega arith) m)
  ]

-- A packet that is there is one of those that are.
pub taken-lt :
    (xs : List WindowPacket) (k : ℕ)
    → is_present (get_or xs k (missing 0)).packet ≡ true
    → k < length xs
taken-lt [] k h = absurd (ground (arith, h))
taken-lt (x ∷ xs) zero h = omega arith
taken-lt (x ∷ xs) (suc k) h = omega (arith, taken-lt xs k h)
