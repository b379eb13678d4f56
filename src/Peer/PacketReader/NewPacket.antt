-- ===== src/Peer/PacketReader/NewPacket.antt =====
-- `newPacket` refines the stream: it takes a byte at least, and does what the bytes that it takes do.
use libktorrent_stream.Base.{
  ℕ, zero, suc, ◌+◌, ◌-◌, ◌^◌, ◌≤◌, ◌<◌, ◌≡◌, refl, sym, subst, ◌∙◌, ap, false, inl, inr, List,
  ◌++◌, arith, ltb, if◌then◌else◌, length, take, length-take, drop_all, append-nil, get_or-take,
  Bool-cases,
}
use libktorrent_stream.Util.Words.{read_uint32}
use libktorrent_stream.Peer.PacketReader.{
  Count, minus_one, at, PacketReader, copy_len, read_length_at, continue_length, start_length,
  begin_packet, new_packet,
}
use libktorrent_stream.Peer.PacketReader.Stream.{
  IsIdle, announce, announce_same, receive, receive-length,
}
use libktorrent_stream.Peer.PacketReader.Took.{received, view, IsValid, Took}
use libktorrent_stream.Peer.PacketReader.Announce.{begin_packet-Took}
use libktorrent_stream.Peer.PacketReader.Partial.{join-Took, length-copy_len, partial-Took}

-- `newPacket` by its branches, where no byte of the length is there
pub new_packet_start :
    (r : PacketReader) (buf : List ℕ)
    → received r.len_received ≡ 0
    → new_packet r buf ≡ (
        if ltb (length buf) 4
        then (
          record r { len = copy_len r.len 0 buf (length buf); len_received = at (length buf) },
          length buf,
        )
        else begin_packet r (read_uint32 buf 0) 4 buf)
unfolding new_packet read_length_at start_length
new_packet_start r buf e = ground arith

-- and where some are.
pub new_packet_continue :
    (r : PacketReader) (k : ℕ) (buf : List ℕ)
    → r.len_received ≡ at (suc k)
    → length buf < 2 ^ 31
    → new_packet r buf ≡ (
        if ltb (length buf) (4 - suc k)
        then (
          record r {
            len = copy_len r.len (suc k) buf (length buf);
            len_received = at (suc k + length buf);
          },
          length buf,
        )
        else begin_packet
            (record r { len = copy_len r.len (suc k) buf (4 - suc k); len_received = at 0 })
            (read_uint32 (copy_len r.len (suc k) buf (4 - suc k)) 0)
            (4 - suc k)
            buf)
unfolding new_packet read_length_at continue_length
new_packet_continue r k buf e small = ground arith

-- `newPacket` takes a byte at least, if there is one, and does what the bytes that it takes do.
abbrev pub Takes : PacketReader → List ℕ → PacketReader × ℕ → Type 0
Takes r buf res = Took r buf (view r) res.0 res.1 × (0 < length buf → 1 ≤ res.1)

-- A complete length, of which `am` bytes stand in this block, and then what `newPacket` does with it.
pub length-Takes :
    (r r1 : PacketReader) (n am : ℕ) (buf : List ℕ)
    → IsValid r1
    → r1.error ≡ false
    → IsIdle r1.packet_queue
    → received r1.len_received ≡ 0
    → 1 ≤ am
    → am ≤ length buf
    → length buf < 2 ^ 31
    → r1.max_packet_size ≡ r.max_packet_size
    → receive r.max_packet_size (view r) (take am buf) ≡ announce r1.max_packet_size (view r1) n
    → Takes r buf (begin_packet r1 n am buf)
length-Takes r r1 n am buf v f idle none pos le small same e =
    let (k, taken, t) = begin_packet-Took r1 n am buf v f idle none le small in
    (
      subst (Took r buf (view r) (begin_packet r1 n am buf).0) (sym taken)
          (join-Took r r1 _ buf (view r) _ am k le same e t),
      λ _. omega (arith, taken),
    )

pub read_uint32-take : (buf : List ℕ) → read_uint32 (take 4 buf) 0 ≡ read_uint32 buf 0
unfolding read_uint32
read_uint32-take buf =
    rw
      (
        get_or-take 4 buf 0 0 (omega arith),
        get_or-take 4 buf 1 0 (omega arith),
        get_or-take 4 buf 2 0 (omega arith),
        get_or-take 4 buf 3 0 (omega arith),
      )
      refl

pub start_length_lem :
    (r : PacketReader) (buf : List ℕ)
    → IsValid r
    → r.error ≡ false
    → IsIdle r.packet_queue
    → received r.len_received ≡ 0
    → 4 ≤ length buf
    → receive r.max_packet_size (view r) (take 4 buf)
      ≡ announce r.max_packet_size (view r) (read_uint32 buf 0)
unfolding view
start_length_lem r buf v f idle none long =
    receive-length r.max_packet_size (view r) (take 4 buf) f idle
      (omega (arith, length-take (received r.len_received) r.len))
      (omega (arith, length-take (received r.len_received) r.len, length-take 4 buf))
    ∙ ap (announce r.max_packet_size (view r))
        (ap (λ (j : ℕ). read_uint32 (take j r.len ++ take 4 buf) 0) none ∙ read_uint32-take buf)

-- The state once the rest of a length is there
pub continued : PacketReader → ℕ → List ℕ → PacketReader
continued r k buf = record r { len = copy_len r.len (suc k) buf (4 - suc k); len_received = at 0 }

pub few_there : (r : PacketReader) (k : ℕ) → IsValid r → r.len_received ≡ at (suc k) → suc k < 4
few_there r k v e = omega (arith, v.few, ap received e)

pub continued-IsValid :
    (r : PacketReader) (k : ℕ) (buf : List ℕ)
    → IsValid r
    → IsIdle r.packet_queue
    → r.len_received ≡ at (suc k)
    → 4 - suc k ≤ length buf
    → IsValid (continued r k buf)
unfolding continued
continued-IsValid r k buf v idle e h = record {
  four =
      length-copy_len r.len (suc k) buf (4 - suc k) (omega (arith, v.four, few_there r k v e)) h
      ∙ v.four;
  few = omega arith;
  small = v.small;
  packets = v.packets;
  settled = inl idle;
}

pub continued-length :
    (r : PacketReader) (k : ℕ) (buf : List ℕ)
    → IsValid r
    → r.error ≡ false
    → IsIdle r.packet_queue
    → r.len_received ≡ at (suc k)
    → 4 - suc k ≤ length buf
    → receive r.max_packet_size (view r) (take (4 - suc k) buf)
      ≡ announce r.max_packet_size
          (view (continued r k buf))
          (read_uint32 (continued r k buf).len 0)
unfolding view continued
continued-length r k buf v f idle e h =
    receive-length r.max_packet_size (view r) (take (4 - suc k) buf) f idle
      (omega (arith, there, few_there r k v e))
      (omega (arith, there, length-take (4 - suc k) buf, few_there r k v e))
    ∙ ap (announce r.max_packet_size (view r)) (ap (λ (xs : List ℕ). read_uint32 xs 0) same)
    ∙ announce_same r.max_packet_size (view (continued r k buf)) (view r).pending _
  where
    there : length (take (received r.len_received) r.len) ≡ suc k
    there = omega (arith, length-take (received r.len_received) r.len, v.four, v.few, ap received e)

    same :
        take (received r.len_received) r.len ++ take (4 - suc k) buf
        ≡ copy_len r.len (suc k) buf (4 - suc k)
    same =
        ap (λ c. take (received c) r.len ++ take (4 - suc k) buf) e
        ∙ ap (λ (xs : List ℕ). take (suc k) r.len ++ xs)
            (sym (append-nil (take (4 - suc k) buf))
              ∙ ap (◌++◌ (take (4 - suc k) buf)) (
                  sym (
                    drop_all (suc k + (4 - suc k)) r.len
                      (omega (arith, v.four, few_there r k v e)))))

pub start-Takes :
    (r : PacketReader) (buf : List ℕ)
    → IsValid r
    → r.error ≡ false
    → IsIdle r.packet_queue
    → received r.len_received ≡ 0
    → length buf < 2 ^ 31
    → Takes r buf (new_packet r buf)
start-Takes r buf v f idle none small =
    rw (new_packet_start r buf none) (elim (Bool-cases (ltb (length buf) 4)) [
      | inl short ↦
          rw short
            (partial-Took r 0 (length buf) buf v f idle none (ground arith) (omega arith), λ h. h)
      | inr long ↦ rw long (
          length-Takes r r (read_uint32 buf 0) 4 buf v f idle none (omega arith) (ground arith)
            small refl (start_length_lem r buf v f idle none (ground arith)))
    ])

pub continue-Takes :
    (r : PacketReader) (k : ℕ) (buf : List ℕ)
    → IsValid r
    → r.error ≡ false
    → IsIdle r.packet_queue
    → r.len_received ≡ at (suc k)
    → length buf < 2 ^ 31
    → Takes r buf (new_packet r buf)
continue-Takes r k buf v f idle e small =
    rw (new_packet_continue r k buf e small) (elim (Bool-cases (ltb (length buf) (4 - suc k))) [
      | inl short ↦ rw short (
        partial-Took r (suc k) (suc k + length buf) buf v f idle (ap received e) (ground arith)
            refl,
        λ h. h,
      )
      | inr long ↦ rw long (
          unfold continued in
          length-Takes r (continued r k buf) (read_uint32 (continued r k buf).len 0) (4 - suc k) buf
            (continued-IsValid r k buf v idle e (ground arith)) f idle refl
            (ground (arith, v.few, ap received e)) (ground arith) small refl
            (continued-length r k buf v f idle e (ground arith)))
    ])

pub new_packet-Takes :
    (r : PacketReader) (c : Count) (buf : List ℕ)
    → IsValid r
    → r.error ≡ false
    → IsIdle r.packet_queue
    → r.len_received ≡ c
    → length buf < 2 ^ 31
    → Takes r buf (new_packet r buf)
new_packet-Takes r minus_one buf v f idle e small = start-Takes r buf v f idle (ap received e) small
new_packet-Takes r (at zero) buf v f idle e small = start-Takes r buf v f idle (ap received e) small
new_packet-Takes r (at (suc k)) buf v f idle e small = continue-Takes r k buf v f idle e small
