-- ===== src/Peer/PacketReader/Blocks.antt =====
-- `onDataReady` refines the stream: what a block of data does is what its bytes do one by one, so it does
-- not matter where the blocks are cut.
use libktorrent_stream.Base.{
  ℕ, zero, suc, ◌+◌, ◌^◌, ◌≤◌, ◌<◌, ◌≡◌, refl, sym, subst, ◌∙◌, ap, true, false, ◌⊎◌, inl, inr,
  List, [], ◌∷◌, ◌++◌, arith, ◌==◌, length, drop, length-append, length-drop, Bool-cases,
}
use libktorrent_stream.Peer.PacketReader.{
  IncomingPacket, PacketReader, new_packet, read_all, first_read, on_data_ready,
}
use libktorrent_stream.Peer.PacketReader.Stream.{
  View, IsIdle, receive, receive-append, receive-take-drop, receive_failed,
}
use libktorrent_stream.Peer.PacketReader.Took.{received, view, IsValid, Took, read_packet-Took}
use libktorrent_stream.Peer.PacketReader.NewPacket.{Takes, new_packet-Takes}

-- What has been done with a whole block
pub record Refines (r : PacketReader) (before : View) (buf : List ℕ) (r' : PacketReader)
    : Type 0 where
  pub valid : IsValid r'
  pub same_limit : r'.max_packet_size ≡ r.max_packet_size
  pub effect : view r' ≡ receive r.max_packet_size before buf

read_all_next :
    (fuel : ℕ) (r : PacketReader) (b : ℕ) (buf : List ℕ)
    → r.error ≡ false
    → read_all (suc fuel) r (b ∷ buf)
      ≡ read_all fuel (new_packet r (b ∷ buf)).0 (drop (new_packet r (b ∷ buf)).1 (b ∷ buf))
unfolding read_all
read_all_next fuel r b buf e = ground arith

read_all_stop :
    (fuel : ℕ) (r : PacketReader) (b : ℕ) (buf : List ℕ)
    → r.error ≡ true
    → read_all (suc fuel) r (b ∷ buf) ≡ r
unfolding read_all
read_all_stop fuel r b buf e = ground arith

-- The rest of a block after a call that took `n` bytes of it
then-Refines :
    (r r1 r' : PacketReader) (buf : List ℕ) (n : ℕ)
    → Took r buf (view r) r1 n
    → Refines r1 (view r1) (drop n buf) r'
    → Refines r (view r) buf r'
then-Refines r r1 r' buf n t w = record {
  valid = w.valid;
  same_limit = w.same_limit ∙ t.same_limit;
  effect =
      w.effect
      ∙ ap (λ m. receive m (view r1) (drop n buf)) t.same_limit
      ∙ ap (λ w. receive r.max_packet_size w (drop n buf)) t.effect
      ∙ sym (receive-take-drop r.max_packet_size (view r) n buf);
}

-- A call that took everything leaves nothing.
left_over :
    (buf : List ℕ) (n : ℕ) (q : List IncomingPacket)
    → (n ≡ length buf) ⊎ IsIdle q
    → (length (drop n buf) ≡ 0) ⊎ IsIdle q
left_over buf n q (inl all) = inl (omega (arith, length-drop n buf))
left_over buf n q (inr idle) = inr idle

-- The loop ends with all the bytes used, unless the stream has failed: the fuel is enough.
read_all-Refines :
    (fuel : ℕ) (r : PacketReader) (buf : List ℕ)
    → IsValid r
    → length buf ≤ fuel
    → length buf < 2 ^ 31
    → (length buf ≡ 0) ⊎ IsIdle r.packet_queue
    → Refines r (view r) buf (read_all fuel r buf)
unfolding read_all receive view
read_all-Refines zero r [] v h small i = record { valid = v; same_limit = refl; effect = refl }
read_all-Refines zero r (b ∷ buf) v h small i = absurd (omega arith)
read_all-Refines (suc fuel) r [] v h small i = record {
  valid = v;
  same_limit = refl;
  effect = refl;
}
read_all-Refines (suc fuel) r (b ∷ buf) v h small i = elim (Bool-cases r.error) [
  | inl e ↦ subst (Refines r (view r) (b ∷ buf)) (sym (read_all_stop fuel r b buf e)) (record {
    valid = v;
    same_limit = refl;
    effect = sym (receive_failed r.max_packet_size (view r) (b ∷ buf) e);
  })
  | inr e ↦ subst (Refines r (view r) (b ∷ buf)) (sym (read_all_next fuel r b buf e)) (
      let t : Takes r (b ∷ buf) (new_packet r (b ∷ buf)) =
        new_packet-Takes r r.len_received (b ∷ buf) v e (waits i) refl small in
      then-Refines r (new_packet r (b ∷ buf)).0 _ (b ∷ buf) (new_packet r (b ∷ buf)).1 t.0 (
        read_all-Refines fuel (new_packet r (b ∷ buf)).0 (drop (new_packet r (b ∷ buf)).1 (b ∷ buf))
          t.0.valid
          (omega (arith, length-drop (new_packet r (b ∷ buf)).1 (b ∷ buf), t.1 (omega arith)))
          (omega (arith, length-drop (new_packet r (b ∷ buf)).1 (b ∷ buf)))
          (left_over (b ∷ buf) _ _ t.0.finished)))
]
  where
    waits : (length (b ∷ buf) ≡ 0) ⊎ IsIdle r.packet_queue → IsIdle r.packet_queue
    waits (inl none) = absurd (omega arith)
    waits (inr idle) = idle

-- The first call of `onDataReady`, by the newest packet
first_read-Took :
    (r : PacketReader) (q : List IncomingPacket) (buf : List ℕ)
    → IsValid r
    → r.error ≡ false
    → r.packet_queue ≡ q
    → length buf < 2 ^ 31
    → Took r buf (view r) (first_read r q buf).0 (first_read r q buf).1
unfolding first_read receive
first_read-Took r [] buf v f e small = record {
  valid = v;
  same_limit = refl;
  bounded = omega arith;
  effect = refl;
  finished = inr (subst IsIdle (sym e) tt);
}
first_read-Took r (p ∷ q) buf v f e small = elim (Bool-cases (p.read == p.size)) [
  | inl complete ↦
      rw complete
        (new_packet-Takes r r.len_received buf v f (subst IsIdle (sym e) (ground arith)) refl
          small).0
  | inr waits ↦ rw waits (read_packet-Took r p q buf v f e (none_received v.settled waits) small)
]
  where
    none_received :
        IsIdle r.packet_queue ⊎ (received r.len_received ≡ 0)
        → (p.read == p.size) ≡ false
        → received r.len_received ≡ 0
    none_received (inl idle) waits =
        let complete : p.read ≡ p.size = subst IsIdle e idle in absurd (ground arith)
    none_received (inr none) waits = none

-- A block of data does what its bytes do, one by one.
pub on_data_ready-Refines :
    (r : PacketReader) (buf : List ℕ)
    → IsValid r
    → length buf < 2 ^ 31
    → Refines r (view r) buf (on_data_ready r buf)
unfolding on_data_ready view
on_data_ready-Refines r buf v small = elim (Bool-cases r.error) [
  | inl e ↦ subst (Refines r (view r) buf) (sym (stopped e)) (record {
    valid = v;
    same_limit = refl;
    effect = sym (receive_failed r.max_packet_size (view r) buf e);
  })
  | inr e ↦
      let t : Took r buf (view r) first.0 first.1 =
        first_read-Took r r.packet_queue buf v e refl small in
      subst (Refines r (view r) buf) (sym (goes_on e)) (
        then-Refines r first.0 _ buf first.1 t (
          read_all-Refines (length buf) first.0 (drop first.1 buf) t.valid
            (omega (arith, length-drop first.1 buf)) (omega (arith, length-drop first.1 buf))
            (left_over buf _ _ t.finished)))
]
  where
    first : PacketReader × ℕ
    first = first_read r r.packet_queue buf

    stopped : r.error ≡ true → on_data_ready r buf ≡ r
    stopped e = ground arith

    goes_on :
        r.error ≡ false → on_data_ready r buf ≡ read_all (length buf) first.0 (drop first.1 buf)
    goes_on e = ground arith

-- Where the blocks of the stream are cut makes no difference to the packets, to the length that is
-- pending, or to whether the stream has failed.
pub on_data_ready_fragmentation :
    (r : PacketReader) (xs ys : List ℕ)
    → IsValid r
    → length xs + length ys < 2 ^ 31
    → view (on_data_ready (on_data_ready r xs) ys) ≡ view (on_data_ready r (xs ++ ys))
on_data_ready_fragmentation r xs ys v small =
    two.effect
    ∙ ap (λ m. receive m (view (on_data_ready r xs)) ys) one.same_limit
    ∙ ap (λ w. receive r.max_packet_size w ys) one.effect
    ∙ sym (receive-append r.max_packet_size (view r) xs ys)
    ∙ sym whole_block.effect
  where
    one : Refines r (view r) xs (on_data_ready r xs)
    one = on_data_ready-Refines r xs v (omega arith)

    two :
        Refines
          (on_data_ready r xs)
          (view (on_data_ready r xs))
          ys
          (on_data_ready (on_data_ready r xs) ys)
    two = on_data_ready-Refines (on_data_ready r xs) ys one.valid (omega arith)

    whole_block : Refines r (view r) (xs ++ ys) (on_data_ready r (xs ++ ys))
    whole_block = on_data_ready-Refines r (xs ++ ys) v (omega (arith, length-append xs ys))
