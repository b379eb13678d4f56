-- ===== src/Peer/PacketReader/Announce.antt =====
-- `newPacket` behind a complete length: the packet that it announces takes what it can of the block.
use libktorrent_stream.Base.{
  ℕ, ◌+◌, ◌^◌, ◌≤◌, ◌<◌, ◌≡◌, refl, sym, ◌∙◌, ap, Bool, true, false, inl, inr, List, [], ◌∷◌, arith,
  ltb, ◌==◌, length, take, drop, length-drop, Bool-cases,
}
use libktorrent_stream.Peer.PacketReader.{IncomingPacket, PacketReader, read_packet, begin_packet}
use libktorrent_stream.Peer.PacketReader.Stream.{View, IsIdle, announce, receive, receive_failed}
use libktorrent_stream.Peer.PacketReader.Took.{Took, received, view, IsValid, read_packet-Took}

announced : PacketReader → ℕ → PacketReader
announced r n = record r {
  packet_queue = record { bytes = []; size = n; read = 0 } ∷ r.packet_queue;
}

announced-IsValid :
    (r : PacketReader) (n : ℕ)
    → IsValid r
    → received r.len_received ≡ 0
    → 0 < n
    → n ≤ r.max_packet_size
    → IsValid (announced r n)
unfolding announced
announced-IsValid r n v none pos le = record {
  four = v.four;
  few = v.few;
  small = v.small;
  packets =
      (record { written = refl; within = omega arith; not_empty = pos; limited = le }, v.packets);
  settled = inr none;
}

-- `newPacket` behind a complete length
module _ (r : PacketReader) (n am : ℕ) (buf : List ℕ) (v : IsValid r) (f : r.error ≡ false)
    (idle : IsIdle r.packet_queue) (none : received r.len_received ≡ 0)
    (some_taken : am ≤ length buf) (small : length buf < 2 ^ 31) where
  no_pending : take (received r.len_received) r.len ≡ []
  no_pending = rw none refl

  empty_pending :
      (b : Bool) (q : List IncomingPacket)
      → view (record r { error = b; packet_queue = q })
        ≡ record { failed = b; packets = q; pending = [] }
  unfolding view
  empty_pending b q =
      ap (λ (t : List ℕ). let w : View = record { failed = b; packets = q; pending = t } in w)
        no_pending

  -- The packet that a length within the limit announces takes what it can of the rest.
  fresh : IncomingPacket
  fresh = record { bytes = []; size = n; read = 0 }

  rest : PacketReader × ℕ
  rest = read_packet (announced r n) (drop am buf)

  announced-Took :
      0 < n
      → n ≤ r.max_packet_size
      → Took r
          (drop am buf)
          (record { failed = r.error; packets = fresh ∷ r.packet_queue; pending = [] })
          rest.0
          rest.1
  unfolding announced fresh rest
  announced-Took pos le = record {
    valid = t.valid;
    same_limit = t.same_limit;
    bounded = t.bounded;
    effect =
        t.effect
        ∙ ap (λ w. receive r.max_packet_size w (take rest.1 (drop am buf)))
            (empty_pending r.error _);
    finished = t.finished;
  }
    where
      t : Took (announced r n) (drop am buf) (view (announced r n)) rest.0 rest.1
      t =
          read_packet-Took (announced r n) fresh r.packet_queue (drop am buf)
            (announced-IsValid r n v none pos le) f refl none (omega (arith, length-drop am buf))

  too_large_view : View
  too_large_view = record { failed = true; packets = r.packet_queue; pending = [] }

  pub begin_packet-Took :
      (k : ℕ) × ((begin_packet r n am buf).1 ≡ am + k)
      × Took r (drop am buf) (announce r.max_packet_size (view r) n) (begin_packet r n am buf).0 k
  unfolding begin_packet announce announced receive fresh rest view too_large_view
  begin_packet-Took = elim (Bool-cases (n == 0)) [
    | inl empty ↦ rw empty (
      0,
      omega arith,
      record {
        valid = v;
        same_limit = refl;
        bounded = omega arith;
        effect = empty_pending r.error r.packet_queue;
        finished = inr idle;
      },
    )
    | inr more ↦ rw more (elim (Bool-cases (ltb r.max_packet_size n)) [
      | inl too_large ↦ rw too_large (
        length (drop am buf),
        omega (arith, length-drop am buf),
        record {
          valid = record {
            four = v.four;
            few = v.few;
            small = v.small;
            packets = v.packets;
            settled = v.settled;
          };
          same_limit = refl;
          bounded = omega arith;
          effect =
              empty_pending true r.packet_queue
              ∙ sym (
                  receive_failed r.max_packet_size too_large_view
                    (take (length (drop am buf)) (drop am buf)) refl);
          finished = inr idle;
        },
      )
      | inr fits ↦ rw fits (
        rest.1,
        omega (arith, (announced-Took (ground arith) (ground arith)).bounded, length-drop am buf),
        announced-Took (ground arith) (ground arith),
      )
    ])
  ]
