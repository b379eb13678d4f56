-- ===== src/Utp/LocalWindow/Loop.antt =====
-- One round of the loop of `read` in src/utp/localwindow.cpp.
use libktorrent_stream.Base.{
  ℕ, zero, suc, ◌+◌, ◌-◌, ◌^◌, ◌≤◌, ◌<◌, min, ◌≡◌, refl, sym, ◌∙◌, ap, inl, inr, true, false,
  Bool-cases, none, some, List, [], ◌∷◌, ◌++◌, length, length-drop, take, drop, take_all, All, ltb,
  ◌==◌, arith,
}
use libktorrent_stream.Util.Words.{add32}
use libktorrent_stream.Utp.SeqNr.{cmp_smaller_or_equal}
use libktorrent_stream.Utp.RemoteWindow.{sub32}
use libktorrent_stream.Utp.LocalWindow.{WindowPacket, Taken, read_packet, take_packet, read_packets}
use libktorrent_stream.Utp.LocalWindow.Invariant.{unread, Numbered, Sound, Present}

-- A part of a sequence that goes on into the second of two
pub take-append :
    (n : ℕ) (xs ys : List ℕ) → take n (xs ++ ys) ≡ take n xs ++ take (n - length xs) ys
take-append zero xs ys = ap (λ k. take k ys) {x = 0} {y = 0 - length xs} (omega arith)
take-append (suc n) [] ys = ap (λ k. take k ys) {x = suc n} (omega arith)
take-append (suc n) (x ∷ xs) ys =
    ap (◌∷◌ x) (take-append n xs ys ∙ ap (λ k. take n xs ++ take k ys) (omega arith))

pub drop-append :
    (n : ℕ) (xs ys : List ℕ) → drop n (xs ++ ys) ≡ drop n xs ++ drop (n - length xs) ys
drop-append zero xs ys = ap (λ k. xs ++ drop k ys) {x = 0} {y = 0 - length xs} (omega arith)
drop-append (suc n) [] ys = ap (λ k. drop k ys) {x = suc n} (omega arith)
drop-append (suc n) (x ∷ xs) ys =
    drop-append n xs ys ∙ ap (λ k. drop n xs ++ drop k ys) (omega arith)

-- What is left of the packets that could be read, after `left` bytes
pub record Takes (n left : ℕ) (ready waiting : List WindowPacket) (r : Taken) : Type 0 where
  pub gone : List WindowPacket
  pub still : List WindowPacket
  pub parts : r.packets ≡ gone ++ (still ++ waiting)
  pub full : r.full ≡ length gone
  pub count : length gone + length still ≡ length ready
  pub numbered : Numbered n (gone ++ (still ++ waiting))
  pub still_sound : All Sound still
  pub still_present : All Present still
  pub bytes : r.bytes ≡ take left (unread ready)
  pub unread_still : unread still ≡ drop left (unread ready)

-- The numbers of the packets up to the last one in order are not larger than its number.
abbrev pub Passed : ℕ → WindowPacket → Type 0
Passed last p = cmp_smaller_or_equal p.seq_nr last ≡ true

pub take-min : (n : ℕ) (xs : List ℕ) (k : ℕ) → length xs ≡ k → take (min k n) xs ≡ take n xs
take-min n xs k e = elim (Bool-cases (ltb k n)) [
  | inl lt ↦ take_all (min k n) xs (ground arith) ∙ sym (take_all n xs (ground arith))
  | inr ge ↦ ap (λ i. take i xs) (ground arith)
]

pub read_packet_lem :
    (p : WindowPacket) (bytes : List ℕ) (left : ℕ)
    → length bytes < 2 ^ 32
    → p.bytes_read ≤ length bytes
    → read_packet p bytes left ≡ (
      take left (drop p.bytes_read bytes),
      record p { bytes_read = p.bytes_read + min (length bytes - p.bytes_read) left },
    )
unfolding read_packet
read_packet_lem p bytes left small sound =
    let size : sub32 (length bytes) p.bytes_read ≡ length bytes - p.bytes_read = omega arith in
    let same : take (min (length bytes - p.bytes_read) left) (drop p.bytes_read bytes)
        ≡ take left (drop p.bytes_read bytes) =
      take-min left (drop p.bytes_read bytes) (length bytes - p.bytes_read)
        (length-drop p.bytes_read bytes) in
    rw size (elim (Bool-cases (min (length bytes - p.bytes_read) left == 0)) [
      | inl z ↦ rw z (
          ap (λ k. (k, record p { bytes_read = p.bytes_read }))
            (sym (
                ap (λ k. take k (drop p.bytes_read bytes))
                  {x = min (length bytes - p.bytes_read) left} {y = 0} (ground arith))
              ∙ same)
          ∙ ap (λ k. (take left (drop p.bytes_read bytes), record p { bytes_read = k }))
              (ground arith))
      | inr nz ↦ rw nz (
          ap
            (λ k. (
              k,
              record p { bytes_read = add32 p.bytes_read (min (length bytes - p.bytes_read) left) },
            ))
            same
          ∙ ap (λ k. (take left (drop p.bytes_read bytes), record p { bytes_read = k }))
              (omega arith))
    ])

pub take_packet-full :
    (p : WindowPacket) (r : List ℕ × WindowPacket) (size : ℕ) (ps : List WindowPacket)
    (rest : Taken)
    → (r.1.bytes_read == size) ≡ true
    → take_packet p r size ps rest ≡ record {
      bytes = r.0 ++ rest.bytes;
      packets = record r.1 { packet = none } ∷ rest.packets;
      full = suc rest.full;
    }
unfolding take_packet
take_packet-full p r size ps rest e = rw e refl

pub take_packet-part :
    (p : WindowPacket) (r : List ℕ × WindowPacket) (size : ℕ) (ps : List WindowPacket)
    (rest : Taken)
    → (r.1.bytes_read == size) ≡ false
    → take_packet p r size ps rest ≡ record { bytes = r.0; packets = r.1 ∷ ps; full = 0 }
unfolding take_packet
take_packet-part p r size ps rest e = rw e refl

-- The loop at a packet that is there
pub read_packets-present :
    (last left : ℕ) (p : WindowPacket) (ps : List WindowPacket) (bytes : List ℕ)
    → p.packet ≡ some bytes
    → Passed last p
    → read_packets last (suc left) (p ∷ ps)
      ≡ take_packet p
          (read_packet p bytes (suc left))
          (length bytes)
          ps
          (read_packets last (suc left - length (read_packet p bytes (suc left)).0) ps)
unfolding read_packets
read_packets-present last left p ps bytes e passed = ground (arith, e, passed)

pub read_packets-zero :
    (last : ℕ) (p : WindowPacket) (ps : List WindowPacket)
    → read_packets last 0 (p ∷ ps) ≡ record { bytes = []; packets = p ∷ ps; full = 0 }
unfolding read_packets
read_packets-zero last p ps = ground arith

pub read_packets-missing :
    (last left : ℕ) (p : WindowPacket) (ps : List WindowPacket)
    → p.packet ≡ none
    → read_packets last left (p ∷ ps) ≡ record { bytes = []; packets = p ∷ ps; full = 0 }
unfolding read_packets
read_packets-missing last left p ps e = ground (arith, e)
