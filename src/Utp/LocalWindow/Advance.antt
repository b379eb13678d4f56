-- ===== src/Utp/LocalWindow/Advance.antt =====
-- The loop of `packetReceived` in src/utp/localwindow.cpp that goes on to the packets that came before.
use libktorrent_stream.Base.{
  ℕ, ◌+◌, ◌%◌, ◌^◌, ◌<◌, ◌≡◌, ◌∙◌, ap, subst, inl, inr, Option-cases, some, List, [], ◌∷◌, ◌++◌,
  length, length-append, length-drop, drop, All, arith,
}
use libktorrent_stream.Util.Words.{add32}
use libktorrent_stream.Utp.RemoteWindow.{sub32}
use libktorrent_stream.Utp.LocalWindow.{WindowPacket, LocalWindow, next16, advance}
use libktorrent_stream.Utp.LocalWindow.Invariant.{rest_of, unread, SoundPacket, Sound}
use libktorrent_stream.Utp.LocalWindow.Fill.{lead}

-- The two fields that the loop sets
pub moved :
    (w : LocalWindow) (a a' l l' : ℕ)
    → a ≡ a'
    → l ≡ l'
    → ◌≡◌ {A = LocalWindow}
        (record w { bytes_available = a; last_seq_nr = l })
        (record w { bytes_available = a'; last_seq_nr = l' })
moved w a a' l l' e e' =
    ap (λ k. record w { bytes_available = k; last_seq_nr = l }) e
    ∙ ap (λ k. record w { bytes_available = a'; last_seq_nr = k }) e'

pub unmoved :
    (w : LocalWindow)
    → w.last_seq_nr < 2 ^ 16
    → w ≡ record w {
      bytes_available = w.bytes_available + 0;
      last_seq_nr = (w.last_seq_nr + 0) % 2 ^ 16;
    }
unmoved w h =
    moved w w.bytes_available (w.bytes_available + 0) w.last_seq_nr ((w.last_seq_nr + 0) % 2 ^ 16)
      (omega arith) (omega arith)

-- The loop that moves `last_seq_nr` on goes over the packets that are there.
pub advance-lead :
    (xs : List WindowPacket) (w : LocalWindow)
    → All Sound xs
    → w.last_seq_nr < 2 ^ 16
    → w.bytes_available + length (unread xs) < 2 ^ 32
    → advance xs w ≡ record w {
      bytes_available = w.bytes_available + length (unread (lead xs));
      last_seq_nr = (w.last_seq_nr + length (lead xs)) % 2 ^ 16;
    }
unfolding lead advance
advance-lead [] w a h h' = unmoved w h
advance-lead (x ∷ xs) w a h h' = elim (Option-cases x.packet) [
  | inl e ↦ rw e (unmoved w h)
  | inr (bytes, e) ↦
      let sound : SoundPacket (some bytes) x.bytes_read =
        subst (λ o. SoundPacket o x.bytes_read) e a.0 in
      let room : w.bytes_available + length (drop x.bytes_read bytes ++ unread xs) < 2 ^ 32 =
        subst (λ o. w.bytes_available + length (rest_of o x.bytes_read ++ unread xs) < 2 ^ 32) e
          h' in
      let size : sub32 (length bytes) x.bytes_read ≡ length (drop x.bytes_read bytes) =
        omega (arith, sound.0, sound.1, length-drop x.bytes_read bytes) in
      let all = length-append (drop x.bytes_read bytes) (unread xs) in
      let sum : add32 w.bytes_available (sub32 (length bytes) x.bytes_read)
          ≡ w.bytes_available + length (drop x.bytes_read bytes) =
        omega (arith, size, room, all) in
      rw e (
        ap (λ k. advance xs (record w { bytes_available = k; last_seq_nr = next16 w.last_seq_nr }))
          sum
        ∙ advance-lead xs
            (record w {
              bytes_available = w.bytes_available + length (drop x.bytes_read bytes);
              last_seq_nr = next16 w.last_seq_nr;
            })
            a.1 (omega arith) (omega (arith, room, all))
        ∙ moved w _ _ _ _
            (omega (arith, length-append (drop x.bytes_read bytes) (unread (lead xs))))
            (omega arith))
]
