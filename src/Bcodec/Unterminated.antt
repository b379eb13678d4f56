-- ===== src/Bcodec/Unterminated.antt =====
-- The loops of src/bcodec/bdecoder.cpp end at the end of the data too, and do not ask which end it was.
use libktorrent_stream.Base.{
  ℕ, zero, suc, ◌+◌, ◌-◌, ◌*◌, ◌^◌, ◌≤◌, ◌<◌, ◌≡◌, refl, sym, ◌∙◌, ap, subst, some, List, [], ◌∷◌,
  append-nil, length, false, arith,
}
use libktorrent_stream.Bcodec.Numbers.{QtNumbers, IsDecimal}
use libktorrent_stream.Bcodec.Node.{list}
use libktorrent_stream.Bcodec.Encoder.{begin_list}
use libktorrent_stream.Bcodec.Tree.{Trees, list_of, Fits, write_trees, emit_all, located_all}
use libktorrent_stream.Bcodec.Decoder.{ok, bind, more, decode}
use libktorrent_stream.Bcodec.Decoder.Steps.{decode-list}
use libktorrent_stream.Bcodec.Decoder.RoundTrip.{parse_nodes-emit}
use libktorrent_stream.Bcodec.Written.{write_trees-emit}

more_past : (bytes : List ℕ) (off : ℕ) → length bytes ≤ off → more bytes off ≡ false
more_past bytes off h = ground arith

unterminated_bytes :
    (q : QtNumbers)
    → IsDecimal q
    → (ts : Trees) (fuel : ℕ) → Fits (list_of ts)
    → length (b'l' ∷ emit_all q ts) < 2 ^ 31
    → 2 * length (b'l' ∷ emit_all q ts) ≤ fuel
    → decode q fuel (b'l' ∷ emit_all q ts) 0
      ≡ ok (
        some (list (located_all q ts 1) 0 (length (b'l' ∷ emit_all q ts) + 1)),
        length (b'l' ∷ emit_all q ts) + 1,
      )
unfolding Fits
unterminated_bytes q laws ts zero f small h = absurd (omega arith)
unterminated_bytes q laws ts (suc fuel) f small h =
    decode-list q fuel (b'l' ∷ emit_all q ts) 0 (omega arith) refl
    ∙ ap (λ r. bind r (λ p. ok (some (list p.0 0 (p.1 - 0)), p.1)))
        (parse_nodes-emit q laws ts fuel (b'l' ∷ emit_all q ts) [] 1 f
          (sym (append-nil (emit_all q ts)))
          (more_past (b'l' ∷ emit_all q ts) (1 + length (emit_all q ts)) (omega arith)) small
          (omega arith))
    ∙ ap (λ n. ok (some (list (located_all q ts 1) 0 n), 1 + length (emit_all q ts) + 1))
        (omega arith)
    ∙ ap (λ n. ok (some (list (located_all q ts 1) 0 (length (b'l' ∷ emit_all q ts) + 1)), n))
        (omega arith)

-- A list whose closing `e` is missing at the end of the data is not refused: it decodes to the node of
-- the complete list, with a length and a position that are one more than the data has bytes. The numbers
-- are below 2 ^ 63, the data is shorter than 2 ^ 31 bytes, and the conversions of numbers are as Qt
-- documents them.
pub unterminated_list :
    (q : QtNumbers)
    → IsDecimal q
    → (ts : Trees) (fuel : ℕ) → Fits (list_of ts)
    → length (write_trees q (begin_list []) ts) < 2 ^ 31
    → 2 * length (write_trees q (begin_list []) ts) ≤ fuel
    → decode q fuel (write_trees q (begin_list []) ts) 0
      ≡ ok (
        some (list (located_all q ts 1) 0 (length (write_trees q (begin_list []) ts) + 1)),
        length (write_trees q (begin_list []) ts) + 1,
      )
unfolding begin_list
unterminated_list q laws ts fuel f small h =
    subst
      (λ xs.
        length xs < 2 ^ 31
        → 2 * length xs ≤ fuel
        → decode q fuel xs 0
          ≡ ok (some (list (located_all q ts 1) 0 (length xs + 1)), length xs + 1))
      (sym (write_trees-emit q (begin_list []) ts))
      (λ small' h'. unterminated_bytes q laws ts fuel f small' h') small h
