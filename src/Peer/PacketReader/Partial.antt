-- ===== src/Peer/PacketReader/Partial.antt =====
-- Two calls in a row, and a block that ends inside the length of a packet.
use libktorrent_stream.Base.{
  ℕ, ◌+◌, ◌≤◌, ◌<◌, ◌≡◌, refl, sym, ◌∙◌, ap, false, inl, List, ◌++◌, arith, length, take, drop,
  length-append, length-take, length-drop, append_assoc, take-add, take-append_exact,
}
use libktorrent_stream.Peer.PacketReader.{at, PacketReader, copy_len}
use libktorrent_stream.Peer.PacketReader.Stream.{
  View, IsIdle, receive, receive-append, receive_pending,
}
use libktorrent_stream.Peer.PacketReader.Took.{received, view, IsValid, Took}

-- A call that goes on where another one stopped
pub join-Took :
    (r r1 r' : PacketReader) (buf : List ℕ) (v v1 : View) (am k : ℕ)
    → am ≤ length buf
    → r1.max_packet_size ≡ r.max_packet_size
    → receive r.max_packet_size v (take am buf) ≡ v1
    → Took r1 (drop am buf) v1 r' k
    → Took r buf v r' (am + k)
join-Took r r1 r' buf v v1 am k le same e t = record {
  valid = t.valid;
  same_limit = t.same_limit ∙ same;
  bounded = omega (arith, t.bounded, length-drop am buf);
  effect =
      t.effect
      ∙ ap (λ m. receive m v1 (take k (drop am buf))) same
      ∙ ap (λ w. receive r.max_packet_size w (take k (drop am buf))) (sym e)
      ∙ sym (receive-append r.max_packet_size v (take am buf) (take k (drop am buf)))
      ∙ ap (receive r.max_packet_size v) (sym (take-add am k buf));
  finished = ground (arith, t.finished, length-drop am buf);
}

pub take-copy_len :
    (len : List ℕ) (k : ℕ) (buf : List ℕ) (n : ℕ)
    → k ≤ length len
    → n ≤ length buf
    → take (k + n) (copy_len len k buf n) ≡ take k len ++ take n buf
take-copy_len len k buf n h h' =
    ap (take (k + n)) (sym (append_assoc (take k len) (take n buf) (drop (k + n) len)))
    ∙ take-append_exact (take k len ++ take n buf) (drop (k + n) len) (k + n) (
        omega
          (arith, length-append (take k len) (take n buf), length-take k len, length-take n buf))

pub length-copy_len :
    (len : List ℕ) (k : ℕ) (buf : List ℕ) (n : ℕ)
    → k + n ≤ length len
    → n ≤ length buf
    → length (copy_len len k buf n) ≡ length len
length-copy_len len k buf n h h' = omega (
  arith,
  length-append (take k len) (take n buf ++ drop (k + n) len),
  length-append (take n buf) (drop (k + n) len),
  length-take k len,
  length-take n buf,
  length-drop (k + n) len,
)

-- The length is not complete yet.
pub partial-Took :
    (r : PacketReader) (k m : ℕ) (buf : List ℕ)
    → IsValid r
    → r.error ≡ false
    → IsIdle r.packet_queue
    → received r.len_received ≡ k
    → m < 4
    → m ≡ k + length buf
    → Took r buf
        (view r)
        (record r { len = copy_len r.len k buf (length buf); len_received = at m })
        (length buf)
unfolding view
partial-Took r k m buf v f idle e h sum = record {
  valid = record {
    four = length-copy_len r.len k buf (length buf) (omega (arith, v.four)) (omega arith) ∙ v.four;
    few = h;
    small = v.small;
    packets = v.packets;
    settled = inl idle;
  };
  same_limit = refl;
  bounded = omega arith;
  effect =
      ap
        (λ (t : List ℕ).
          let w : View = record { failed = r.error; packets = r.packet_queue; pending = t } in w)
        (ap (λ j. take j (copy_len r.len k buf (length buf))) sum
          ∙ take-copy_len r.len k buf (length buf) (omega (arith, v.four)) (omega arith))
      ∙ rw (← e) (
          sym (
            receive_pending r.max_packet_size (view r) (take (length buf) buf) f idle (
              omega (
                arith,
                length-take (received r.len_received) r.len,
                length-take (length buf) buf,
                v.four,
              ))));
  finished = inl refl;
}
