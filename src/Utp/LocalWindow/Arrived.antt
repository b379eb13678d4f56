-- ===== src/Utp/LocalWindow/Arrived.antt =====
-- The packets that arrived, and the places of a window of src/utp/localwindow.cpp.
use libktorrent_stream.Base.{
  ℕ, zero, suc, ◌+◌, ◌<◌, ◌≡◌, refl, sym, ◌∙◌, ap, Bool, true, false, Bool-cases, inl, inr, List,
  [], ◌∷◌, ◌++◌, length, length-append, get_or, arith,
}
use libktorrent_stream.Utp.LocalWindow.{WindowPacket, missing, is_present}
use libktorrent_stream.Utp.LocalWindow.Invariant.{rest_of, unread, Waits}
use libktorrent_stream.Utp.LocalWindow.Fill.{fill, lead, follow, absent_iff}
use libktorrent_stream.Utp.LocalWindow.Stream.{
  Sent, payload, stream, mark, in_order, bytes_arrived, Matches,
}

abbrev pub trues : ℕ → List Bool
trues zero = []
trues (suc n) = true ∷ trues n

-- Which places have a packet
abbrev pub presents : List WindowPacket → List Bool
presents [] = []
presents (x ∷ xs) = is_present x.packet ∷ presents xs

pub trues-add : (n m : ℕ) (bs : List Bool) → trues n ++ (trues m ++ bs) ≡ trues (n + m) ++ bs
trues-add zero m bs = ap (λ k. trues k ++ bs) {y = 0 + m} (omega arith)
trues-add (suc n) m bs =
    ap (◌∷◌ true) (trues-add n m bs)
    ∙ ap (λ k. trues k ++ bs) {x = suc (n + m)} {y = suc n + m} (omega arith)

pub mark-trues : (n k : ℕ) (bs : List Bool) → mark (n + k) (trues n ++ bs) ≡ trues n ++ mark k bs
unfolding mark
mark-trues zero k bs = ap (λ i. mark i bs) {x = 0 + k} (omega arith)
mark-trues (suc n) k bs =
    ap (λ i. mark i (true ∷ (trues n ++ bs))) {x = suc n + k} {y = suc (n + k)} (omega arith)
    ∙ ap (◌∷◌ true) (mark-trues n k bs)

-- A packet that came in order before is marked already.
pub mark_old : (n i : ℕ) (bs : List Bool) → i < n → mark i (trues n ++ bs) ≡ trues n ++ bs
unfolding mark
mark_old zero i bs h = absurd (omega arith)
mark_old (suc n) zero bs h = refl
mark_old (suc n) (suc i) bs h = ap (◌∷◌ true) (mark_old n i bs (omega arith))

pub mark_present :
    (xs : List WindowPacket) (k : ℕ)
    → is_present (get_or xs k (missing 0)).packet ≡ true
    → mark k (presents xs) ≡ presents xs
unfolding mark
mark_present [] k e = absurd (ground (arith, e))
mark_present (x ∷ xs) zero e = ap (λ a. a ∷ presents xs) (sym e)
mark_present (x ∷ xs) (suc k) e = ap (◌∷◌ (is_present x.packet)) (mark_present xs k e)

pub presents-fill :
    (n : ℕ) (xs : List WindowPacket) (k : ℕ) (p : WindowPacket)
    → is_present p.packet ≡ true
    → presents (fill n xs k p) ≡ mark k (presents xs)
unfolding fill mark
presents-fill n [] zero p e = ap (λ a. a ∷ []) e
presents-fill n [] (suc k) p e = ap (◌∷◌ false) (presents-fill (n + 1) [] k p e)
presents-fill n (x ∷ xs) zero p e = ap (λ a. a ∷ presents xs) e
presents-fill n (x ∷ xs) (suc k) p e =
    ap (◌∷◌ (is_present x.packet)) (presents-fill (n + 1) xs k p e)

pub presents-follow :
    (xs : List WindowPacket) → presents xs ≡ trues (length (lead xs)) ++ presents (follow xs)
unfolding lead follow
presents-follow [] = refl
presents-follow (x ∷ xs) = elim (Bool-cases (is_present x.packet)) [
  | inl there ↦ rw there (ap (◌∷◌ true) (presents-follow xs))
  | inr not_there ↦ rw not_there (ap (λ a. a ∷ presents xs) (sym not_there))
]

pub in_order-trues :
    (n : ℕ) (ws : List WindowPacket) → Waits ws → in_order (trues n ++ presents ws) ≡ n
unfolding in_order
in_order-trues zero [] w = refl
in_order-trues zero (x ∷ ws) w = rw w refl
in_order-trues (suc n) ws w = ap suc (in_order-trues n ws w)

module _ (sent : Sent) where
  bytes_arrived-trues :
      (i n : ℕ) (bs : List Bool)
      → bytes_arrived sent i (trues n ++ bs)
        ≡ length (stream sent i n) + bytes_arrived sent (i + n) bs
  unfolding bytes_arrived stream
  bytes_arrived-trues i zero bs =
      ap (λ j. bytes_arrived sent j bs) {y = i + 0} (omega arith) ∙ omega arith
  bytes_arrived-trues i (suc n) bs =
      let same : bytes_arrived sent (i + 1 + n) bs ≡ bytes_arrived sent (i + suc n) bs =
        ap (λ j. bytes_arrived sent j bs) (omega arith) in
      omega (
        arith,
        bytes_arrived-trues (i + 1) n bs,
        same,
        length-append (payload sent i) (stream sent (i + 1) n),
      )

  bytes_arrived-presents :
      (i : ℕ) (ws : List WindowPacket)
      → Matches sent i ws
      → bytes_arrived sent i (presents ws) ≡ length (unread ws)
  unfolding bytes_arrived
  bytes_arrived-presents i [] m = refl
  bytes_arrived-presents i (x ∷ ws) m =
      let both = length-append (rest_of x.packet x.bytes_read) (unread ws) in
      let rest = bytes_arrived-presents (i + 1) ws m.1 in
      elim (Bool-cases (is_present x.packet)) [
        | inl there ↦ rw there (omega (arith, both, rest, ap length (m.0 there)))
        | inr not_there ↦
            let nothing : rest_of x.packet x.bytes_read ≡ [] =
              ap (λ o. rest_of o x.bytes_read) (absent_iff x.packet not_there) in
            rw not_there (omega (arith, both, rest, ap length nothing))
      ]

  -- The data that arrived: that in order, and that of the packets that wait
  pub bytes_arrived_lem :
      (n : ℕ) (ws : List WindowPacket)
      → Matches sent n ws
      → bytes_arrived sent 0 (trues n ++ presents ws)
        ≡ length (stream sent 0 n) + length (unread ws)
  bytes_arrived_lem n ws m =
      bytes_arrived-trues 0 n (presents ws)
      ∙ ap (λ j. length (stream sent 0 n) + bytes_arrived sent j (presents ws)) {y = n}
          (omega arith)
      ∙ ap (λ k. length (stream sent 0 n) + k) (bytes_arrived-presents n ws m)
