-- ===== src/Utp/LocalWindow/Fill.antt =====
-- Where a packet goes among those that wait, and what can be read then: a description of what
-- src/utp/localwindow.cpp does by indices.
use libktorrent_stream.Base.{
  ℕ, zero, suc, ◌+◌, ◌%◌, ◌^◌, ◌≤◌, ◌<◌, ◌≡◌, refl, sym, ◌∙◌, ap, inl, inr, true, false, Bool-cases,
  Option, none, some, List, [], ◌∷◌, ◌++◌, append_assoc, length, length-append, drop, set, get_or,
  All, ltb, leb, if◌then◌else◌, arith,
}
use libktorrent_stream.Utp.SeqNr.{cmp_smaller}
use libktorrent_stream.Utp.SeqNr.Order.{after, forward_lem}
use libktorrent_stream.Utp.LocalWindow.{WindowPacket, missing, is_present, gaps, next16}
use libktorrent_stream.Utp.LocalWindow.Invariant.{rest_of, unread, Numbered, Sound, Present, Waits}

-- A packet at the `k`-th place of the packets from the number `n` on, with gaps before it if there are fewer
unfoldable pub fill : ℕ → List WindowPacket → ℕ → WindowPacket → List WindowPacket
fill n [] zero p = p ∷ []
fill n [] (suc k) p = missing (n % 2 ^ 16) ∷ fill (n + 1) [] k p
fill n (x ∷ xs) zero p = p ∷ xs
fill n (x ∷ xs) (suc k) p = x ∷ fill (n + 1) xs k p

-- The packets that are there before the first that is missing, and the others
unfoldable pub lead : List WindowPacket → List WindowPacket
lead [] = []
lead (x ∷ xs) = let rest = lead xs in if is_present x.packet then x ∷ rest else []

unfoldable pub follow : List WindowPacket → List WindowPacket
follow [] = []
follow (x ∷ xs) = let rest = follow xs in if is_present x.packet then rest else x ∷ xs

pub lead-follow : (xs : List WindowPacket) → lead xs ++ follow xs ≡ xs
unfolding lead follow
lead-follow [] = refl
lead-follow (x ∷ xs) = elim (Bool-cases (is_present x.packet)) [
  | inl there ↦ rw there (ap (◌∷◌ x) (lead-follow xs))
  | inr not_there ↦ rw not_there refl
]

present_iff : (o : Option (List ℕ)) → is_present o ≡ true → (bytes : List ℕ) × (o ≡ some bytes)
present_iff none e = absurd (ground (arith, e))
present_iff (some bytes) e = (bytes, refl)

pub absent_iff : (o : Option (List ℕ)) → is_present o ≡ false → o ≡ none
absent_iff none e = refl
absent_iff (some bytes) e = absurd (ground (arith, e))

pub lead-Present : (xs : List WindowPacket) → All Present (lead xs)
unfolding lead
lead-Present [] = tt
lead-Present (x ∷ xs) = elim (Bool-cases (is_present x.packet)) [
  | inl there ↦ rw there (present_iff x.packet there, lead-Present xs)
  | inr not_there ↦ rw not_there tt
]

pub follow-Waits : (xs : List WindowPacket) → Waits (follow xs)
unfolding follow
follow-Waits [] = tt
follow-Waits (x ∷ xs) = elim (Bool-cases (is_present x.packet)) [
  | inl there ↦ rw there (follow-Waits xs)
  | inr not_there ↦ rw not_there (absent_iff x.packet not_there)
]

pub All-parts :
    (P : WindowPacket → Type 0) (xs ys : List WindowPacket) → All P (xs ++ ys) → All P xs × All P ys
All-parts P [] ys a = (tt, a)
All-parts P (x ∷ xs) ys a = let r = All-parts P xs ys a.1 in ((a.0, r.0), r.1)

pub unread-append : (xs ys : List WindowPacket) → unread (xs ++ ys) ≡ unread xs ++ unread ys
unread-append [] ys = refl
unread-append (x ∷ xs) ys =
    ap (◌++◌ (rest_of x.packet x.bytes_read)) (unread-append xs ys)
    ∙ sym (append_assoc (rest_of x.packet x.bytes_read) (unread xs) (unread ys))

-- The packets are numbered as before, if the new one has the number of its place.
pub Numbered-fill :
    (n : ℕ) (xs : List WindowPacket) (k : ℕ) (p : WindowPacket)
    → Numbered n xs
    → p.seq_nr ≡ (n + k) % 2 ^ 16
    → Numbered n (fill n xs k p)
unfolding fill
Numbered-fill n [] zero p num e = (e ∙ omega arith, tt)
Numbered-fill n [] (suc k) p num e = (refl, Numbered-fill (n + 1) [] k p tt (e ∙ omega arith))
Numbered-fill n (x ∷ xs) zero p num e = (e ∙ omega arith, num.1)
Numbered-fill n (x ∷ xs) (suc k) p num e =
    (num.0, Numbered-fill (n + 1) xs k p num.1 (e ∙ omega arith))

pub Sound-fill :
    (n : ℕ) (xs : List WindowPacket) (k : ℕ) (p : WindowPacket)
    → All Sound xs
    → Sound p
    → All Sound (fill n xs k p)
unfolding fill
Sound-fill n [] zero p a s = (s, tt)
Sound-fill n [] (suc k) p a s = (tt, Sound-fill (n + 1) [] k p tt s)
Sound-fill n (x ∷ xs) zero p a s = (s, a.1)
Sound-fill n (x ∷ xs) (suc k) p a s = (a.0, Sound-fill (n + 1) xs k p a.1 s)

-- The place is free.
abbrev pub Free : List WindowPacket → ℕ → Type 0
Free xs k = (get_or xs k (missing 0)).packet ≡ none

pub length-fill :
    (n : ℕ) (xs : List WindowPacket) (k : ℕ) (p : WindowPacket)
    → length (fill n xs k p) ≡ (if leb (length xs) k then k + 1 else length xs)
unfolding fill
length-fill n [] zero p = refl
length-fill n [] (suc k) p = ground (arith, length-fill (n + 1) [] k p)
length-fill n (x ∷ xs) zero p = ground arith
length-fill n (x ∷ xs) (suc k) p = ground (arith, length-fill (n + 1) xs k p)

-- The bytes that wait grow by those of the packet.
pub unread-fill :
    (n : ℕ) (xs : List WindowPacket) (k : ℕ) (p : WindowPacket)
    → Free xs k
    → length (unread (fill n xs k p)) ≡ length (unread xs) + length (rest_of p.packet p.bytes_read)
unfolding fill
unread-fill n [] zero p f = omega (arith, length-append (rest_of p.packet p.bytes_read) [])
unread-fill n [] (suc k) p f = unread-fill (n + 1) [] k p refl
unread-fill n (x ∷ xs) zero p f =
    length-append (rest_of p.packet p.bytes_read) (unread xs)
    ∙ omega arith
    ∙ ap
        (λ o. length (rest_of o x.bytes_read ++ unread xs) + length (rest_of p.packet p.bytes_read))
        (sym f)
unread-fill n (x ∷ xs) (suc k) p f = omega (
  arith,
  length-append (rest_of x.packet x.bytes_read) (unread (fill (n + 1) xs k p)),
  length-append (rest_of x.packet x.bytes_read) (unread xs),
  unread-fill (n + 1) xs k p f,
)

pub fill-set :
    (n : ℕ) (xs : List WindowPacket) (k : ℕ) (p : WindowPacket)
    → k < length xs
    → fill n xs k p ≡ set xs k p
unfolding fill
fill-set n [] k p h = absurd (omega arith)
fill-set n (x ∷ xs) zero p h = refl
fill-set n (x ∷ xs) (suc k) p h = ap (◌∷◌ x) (fill-set (n + 1) xs k p (omega arith))

pub fill-append :
    (n : ℕ) (xs : List WindowPacket) (k : ℕ) (p : WindowPacket)
    → fill n xs (length xs + k) p ≡ xs ++ fill (n + length xs) [] k p
unfolding fill
fill-append n [] k p =
    ap (λ i. fill i [] (0 + k) p) {y = n + 0} (omega arith)
    ∙ ap (λ i. fill (n + 0) [] i p) {x = 0 + k} (omega arith)
fill-append n (x ∷ xs) k p =
    ap (λ i. fill n (x ∷ xs) i p) {x = suc (length xs) + k} {y = suc (length xs + k)} (omega arith)
    ∙ ap (◌∷◌ x) (fill-append (n + 1) xs k p ∙ ap (λ i. xs ++ fill i [] k p) (omega arith))

gaps-one :
    (fuel n seq_nr : ℕ)
    → cmp_smaller n seq_nr ≡ true
    → gaps (suc fuel) n seq_nr ≡ missing n ∷ gaps fuel (next16 n) seq_nr
unfolding gaps
gaps-one fuel n seq_nr e = rw e refl

gaps_end : (fuel n seq_nr : ℕ) → cmp_smaller n seq_nr ≡ false → gaps fuel n seq_nr ≡ []
unfolding gaps
gaps_end zero n seq_nr e = refl
gaps_end (suc fuel) n seq_nr e = rw e refl

-- How a number compares to one ahead
pub smaller_ahead :
    (n d m : ℕ) → d < 2 ^ 15 → m ≡ (n + d) % 2 ^ 16 → cmp_smaller (n % 2 ^ 16) m ≡ ltb 0 d
smaller_ahead n d m h e =
    ap (cmp_smaller (n % 2 ^ 16)) {y = after (n % 2 ^ 16) d} (omega arith)
    ∙ (forward_lem (n % 2 ^ 16) d (omega arith) h).0

-- The loop that pushes gaps pushes those of `fill`.
pub gaps-fill :
    (fuel n k : ℕ) (p : WindowPacket)
    → k < 2 ^ 15
    → k ≤ fuel
    → p.seq_nr ≡ (n + k) % 2 ^ 16
    → gaps fuel (n % 2 ^ 16) p.seq_nr ++ (p ∷ []) ≡ fill n [] k p
unfolding fill
gaps-fill fuel n zero p h h' e =
    ap (λ xs. xs ++ (p ∷ []))
      (gaps_end fuel (n % 2 ^ 16) p.seq_nr (smaller_ahead n 0 p.seq_nr h e ∙ ground arith))
gaps-fill zero n (suc k) p h h' e = absurd (omega arith)
gaps-fill (suc fuel) n (suc k) p h h' e =
    ap (λ xs. xs ++ (p ∷ []))
      (gaps-one fuel (n % 2 ^ 16) p.seq_nr (smaller_ahead n (suc k) p.seq_nr h e ∙ ground arith))
    ∙ ap (λ i. missing (n % 2 ^ 16) ∷ (gaps fuel i p.seq_nr ++ (p ∷ []))) (omega arith)
    ∙ ap (◌∷◌ (missing (n % 2 ^ 16)))
        (gaps-fill fuel (n + 1) k p (omega arith) (omega arith) (e ∙ omega arith))

-- What lies behind some packets
pub fill-past :
    (n : ℕ) (ys xs : List WindowPacket) (k : ℕ) (p : WindowPacket)
    → fill n (ys ++ xs) (length ys + k) p ≡ ys ++ fill (n + length ys) xs k p
unfolding fill
fill-past n [] xs k p =
    ap (λ i. fill n xs i p) {x = 0 + k} (omega arith) ∙ ap (λ i. fill i xs k p) (omega arith)
fill-past n (y ∷ ys) xs k p =
    ap (λ i. fill n (y ∷ (ys ++ xs)) i p) {x = suc (length ys) + k} {y = suc (length ys + k)}
      (omega arith)
    ∙ ap (◌∷◌ y) (fill-past (n + 1) ys xs k p ∙ ap (λ i. ys ++ fill i xs k p) (omega arith))

pub get_or_past :
    (ys xs : List WindowPacket) (k : ℕ) (d : WindowPacket)
    → get_or (ys ++ xs) (length ys + k) d ≡ get_or xs k d
get_or_past [] xs k d = ap (λ i. get_or xs i d) (omega arith)
get_or_past (y ∷ ys) xs k d =
    ap (λ i. get_or (y ∷ (ys ++ xs)) i d) {x = suc (length ys) + k} {y = suc (length ys + k)}
      (omega arith)
    ∙ get_or_past ys xs k d

pub drop_past : (ys xs : List WindowPacket) (k : ℕ) → drop (length ys + k) (ys ++ xs) ≡ drop k xs
drop_past [] xs k = ap (λ i. drop i xs) {x = 0 + k} (omega arith)
drop_past (y ∷ ys) xs k =
    ap (λ i. drop i (y ∷ (ys ++ xs))) {x = suc (length ys) + k} {y = suc (length ys + k)}
      (omega arith)
    ∙ drop_past ys xs k

-- The next packet in order goes in front.
pub fill_next : (n : ℕ) (xs : List WindowPacket) (p : WindowPacket) → fill n xs 0 p ≡ p ∷ drop 1 xs
unfolding fill
fill_next n [] p = refl
fill_next n (x ∷ xs) p = refl

-- Any other packet leaves the first one missing.
pub lead-fill :
    (n : ℕ) (xs : List WindowPacket) (k : ℕ) (p : WindowPacket)
    → Waits xs
    → lead (fill n xs (suc k) p) ≡ []
unfolding fill lead
lead-fill n [] k p waits = refl
lead-fill n (x ∷ xs) k p waits = rw waits refl

pub lead-present :
    (x : WindowPacket) (xs : List WindowPacket)
    → is_present x.packet ≡ true
    → lead (x ∷ xs) ≡ x ∷ lead xs
unfolding lead
lead-present x xs e = rw e refl
