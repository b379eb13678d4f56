-- ===== src/Utp/LocalWindow/Invariant.antt =====
-- What holds of the window of packets that come in, src/utp/localwindow.cpp.
use libktorrent_stream.Base.{
  ℕ, ◌+◌, ◌%◌, ◌^◌, ◌≤◌, ◌<◌, ◌≡◌, ◌∙◌, subst, arith, Option, none, some, List, [], ◌∷◌, ◌++◌,
  length, drop, All,
}
use libktorrent_stream.Utp.LocalWindow.{WindowPacket, LocalWindow}

-- The bytes of a packet that are not read yet
abbrev pub rest_of : Option (List ℕ) → ℕ → List ℕ
rest_of none bytes_read = []
rest_of (some bytes) bytes_read = drop bytes_read bytes

abbrev pub unread : List WindowPacket → List ℕ
unread [] = []
unread (p ∷ ps) = rest_of p.packet p.bytes_read ++ unread ps

-- The numbers follow each other round the circle.
abbrev pub Numbered : ℕ → List WindowPacket → Type 0
Numbered n [] = Unit
Numbered n (p ∷ ps) = (p.seq_nr ≡ n % 2 ^ 16) × Numbered (n + 1) ps

-- A packet that is there has a size that a `Uint32` holds, and no more of it was read than it has.
abbrev pub SoundPacket : Option (List ℕ) → ℕ → Type 0
SoundPacket none bytes_read = Unit
SoundPacket (some bytes) bytes_read = (length bytes < 2 ^ 32) × (bytes_read ≤ length bytes)

abbrev pub Sound : WindowPacket → Type 0
Sound p = SoundPacket p.packet p.bytes_read

abbrev pub Present : WindowPacket → Type 0
Present p = (bytes : List ℕ) × (p.packet ≡ some bytes)

-- The next packet in order is missing.
abbrev pub Waits : List WindowPacket → Type 0
Waits [] = Unit
Waits (p ∷ ps) = p.packet ≡ none

-- The packets of a window that has some: those that were read, those that can be read now, and those that
-- wait for a missing one.
pub record Holds (w : LocalWindow) (n : ℕ) (gone ready waiting : List WindowPacket) : Type 0 where
  pub parts : w.incoming_packets ≡ gone ++ (ready ++ waiting)
  pub start : n < 2 ^ 16
  pub numbered : Numbered n (gone ++ (ready ++ waiting))
  pub few : length gone + length ready + length waiting < 2 ^ 15
  pub ready_sound : All Sound ready
  pub ready_present : All Present ready
  pub waiting_sound : All Sound waiting
  pub waits : Waits waiting
  pub first :
      1 ≤ length gone + length ready + length waiting → w.first_seq_nr ≡ (n + length gone) % 2 ^ 16
  pub last : w.last_seq_nr ≡ (n + length gone + length ready + 65535) % 2 ^ 16
  pub available : w.bytes_available ≡ length (unread ready)
  pub space : w.window_space + length (unread ready) + length (unread waiting) ≡ w.capacity
  pub bounded : w.capacity < 2 ^ 32

-- The packets behind some others have the numbers behind theirs.
pub Numbered-drop :
    (n : ℕ) (xs ys : List WindowPacket) → Numbered n (xs ++ ys) → Numbered (n + length xs) ys
Numbered-drop n [] ys num = subst (λ k. Numbered k ys) (omega arith) num
Numbered-drop n (x ∷ xs) ys num =
    subst (λ k. Numbered k ys) (omega arith) (Numbered-drop (n + 1) xs ys num.1)

-- The numbers wrap, so that the first of them is known up to 2 ^ 16.
pub Numbered_wrap :
    (n m : ℕ) (xs : List WindowPacket) → n % 2 ^ 16 ≡ m % 2 ^ 16 → Numbered n xs → Numbered m xs
Numbered_wrap n m [] e num = tt
Numbered_wrap n m (x ∷ xs) e num =
    (num.0 ∙ e, Numbered_wrap (n + 1) (m + 1) xs (omega (arith, e)) num.1)

-- Other packets may be put behind some, if they have the numbers.
pub Numbered-replace :
    (n : ℕ) (xs ys zs : List WindowPacket)
    → Numbered n (xs ++ ys)
    → Numbered (n + length xs) zs
    → Numbered n (xs ++ zs)
Numbered-replace n [] ys zs num num' = subst (λ k. Numbered k zs) (omega arith) num'
Numbered-replace n (x ∷ xs) ys zs num num' =
    (num.0, Numbered-replace (n + 1) xs ys zs num.1 (subst (λ k. Numbered k zs) (omega arith) num'))
