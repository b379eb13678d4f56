-- ===== src/Bcodec/Decoder/RoundTrip.antt =====
-- The decoder gives back every tree that was encoded, with the place of each node in the data.
use libktorrent_stream.Base.{
  ℕ, zero, suc, ◌+◌, ◌-◌, ◌*◌, ◌^◌, ◌≤◌, ◌<◌, ◌≡◌, refl, sym, ◌∙◌, ap, true, false, Option, some,
  List, [], ◌∷◌, ◌++◌, append_assoc, length, length-append, drop, get_or, get_or-drop, ◌==◌, All,
  arith,
}
use libktorrent_stream.Bcodec.Numbers.{QtNumbers, IsDecimal, IsDigit}
use libktorrent_stream.Bcodec.Node.{
  value, string, dict, list, node, entry, no_nodes, no_entries, BNode,
}
use libktorrent_stream.Bcodec.Tree.{
  Tree, Trees, Members, number, text, list_of, dict_of, no_trees, tree, no_members, member, Fits,
  FitsAll, FitsMembers, emit, emit_all, emit_members, emit_text, located, located_all,
  located_members,
}
use libktorrent_stream.Bcodec.Decoder.{
  Result, ok, bind, token_of, more, key_of, value_of, append_node, decode, parse_entries,
  parse_nodes,
}
use libktorrent_stream.Bcodec.Decoder.Steps.{
  decode-dict, decode-list, decode-int, decode-string, parse_entries_end, parse_entries-more,
  parse_nodes_end, parse_nodes-more,
}
use libktorrent_stream.Bcodec.Decoder.Leaves.{
  drop_past, byte_there, length_there, token_of-digit, parse_int-emit, parse_string-emit,
}

module _ (q : QtNumbers) (laws : IsDecimal q) where
  -- The first byte of a text is a digit.
  IsDigit-first : (s rest : List ℕ) → IsDigit (get_or (emit_text q s ++ rest) 0 0)
  IsDigit-first s rest =
      go (q.number (length s)) (laws.prints_some (length s)) (laws.prints_digits (length s))
    where
      go :
          (n : List ℕ)
          → 1 ≤ length n
          → All IsDigit n
          → IsDigit (get_or ((n ++ (b':' ∷ s)) ++ rest) 0 0)
      go [] h a = absurd (omega arith)
      go (c ∷ n) h a = a.0

  length-emit_text : (s : List ℕ) → 2 ≤ length (emit_text q s)
  length-emit_text s =
      omega (arith, laws.prints_some (length s), length-append (q.number (length s)) (b':' ∷ s))

  length-emit : (t : Tree) → 2 ≤ length (emit q t)
  unfolding emit
  length-emit (number n) = omega (arith, laws.prints_some n, length-append (q.number n) (b'e' ∷ []))
  length-emit (text s) = length-emit_text s
  length-emit (list_of ts) = omega (arith, length-append (emit_all q ts) (b'e' ∷ []))
  length-emit (dict_of ms) = omega (arith, length-append (emit_members q ms) (b'e' ∷ []))

  -- An encoded value never looks like the end of a list.
  first-emit : (t : Tree) (rest : List ℕ) → (get_or (emit q t ++ rest) 0 0 == b'e') ≡ false
  unfolding emit
  first-emit (number n) rest = refl
  first-emit (text s) rest = ground (arith, IsDigit-first s rest)
  first-emit (list_of ts) rest = refl
  first-emit (dict_of ms) rest = refl

  first_there :
      (bytes xs : List ℕ) (off : ℕ) → drop off bytes ≡ xs → get_or bytes off 0 ≡ get_or xs 0 0
  first_there bytes xs off e =
      ap (λ i. get_or bytes i 0) (omega arith)
      ∙ sym (get_or-drop off 0 bytes 0)
      ∙ ap (λ ys. get_or ys 0 0) e

  more-emit :
      (t : Tree) (bytes rest : List ℕ) (off : ℕ)
      → drop off bytes ≡ emit q t ++ rest
      → more bytes off ≡ true
  more-emit t bytes rest off e = ground (
    arith,
    first_there bytes _ off e,
    first-emit t rest,
    length_there bytes _ off e (omega (arith, length-emit t, length-append (emit q t) rest)),
    length-emit t,
    length-append (emit q t) rest,
  )

  inside : (bytes xs : List ℕ) (off : ℕ) → drop off bytes ≡ xs → 1 ≤ length xs → off < length bytes
  inside bytes xs off e h = omega (arith, length_there bytes xs off e h)

  decode-text :
      (s : List ℕ) (fuel : ℕ) (bytes rest : List ℕ) (off : ℕ)
      → drop off bytes ≡ emit_text q s ++ rest
      → length bytes < 2 ^ 31
      → 1 ≤ fuel
      → decode q fuel bytes off
        ≡ ok (some (value (string s) off (length (emit_text q s))), off + length (emit_text q s))
  decode-text s zero bytes rest off e small h = absurd (omega arith)
  decode-text s (suc fuel) bytes rest off e small h =
      decode-string q fuel bytes off
        (inside bytes _ off e
          (omega (arith, length-emit_text s, length-append (emit_text q s) rest)))
        (ap token_of (first_there bytes _ off e) ∙ token_of-digit _ (IsDigit-first s rest))
      ∙ ap (λ r. bind r (λ p. ok (some p.0, p.1)))
          (parse_string-emit q laws s bytes rest off small e)

  -- The length of a list or dictionary that ends at `end`
  span_lem :
      (make : ℕ → BNode) (off end len : ℕ)
      → end ≡ off + len
      → ◌≡◌ {A = Result (Option BNode × ℕ)}
          (ok (some (make (end - off)), end))
          (ok (some (make len), off + len))
  span_lem make off end len e =
      ap (λ k. ok (some (make (k - off)), k)) e
      ∙ ap (λ k. ok (some (make k), off + len)) (omega arith)

  -- What stands behind the letter of a list or dictionary
  body_there :
      (bytes xs rest : List ℕ) (off letter : ℕ)
      → drop off bytes ≡ (letter ∷ (xs ++ (b'e' ∷ []))) ++ rest
      → drop (off + 1) bytes ≡ xs ++ (b'e' ∷ rest)
  body_there bytes xs rest off letter e =
      drop_past bytes (letter ∷ []) (xs ++ (b'e' ∷ rest)) off 1
        (e ∙ ap (◌∷◌ letter) (append_assoc xs (b'e' ∷ []) rest)) refl

  -- A loop stops at an `e`.
  stops_at :
      (bytes xs rest : List ℕ) (off : ℕ)
      → drop off bytes ≡ xs ++ (b'e' ∷ rest)
      → more bytes (off + length xs) ≡ false
  stops_at bytes xs rest off e =
      let here =
        byte_there bytes rest (off + length xs) b'e'
          (drop_past bytes xs _ off (length xs) e refl) in
      ground (arith, here)

  mutual
    unfolding emit located Fits append_node key_of value_of

    pub decode-emit :
        (t : Tree) (fuel : ℕ) (bytes rest : List ℕ) (off : ℕ)
        → Fits t
        → drop off bytes ≡ emit q t ++ rest
        → length bytes < 2 ^ 31
        → 2 * length (emit q t) ≤ fuel
        → decode q fuel bytes off ≡ ok (some (located q t off), off + length (emit q t))
    decode-emit t zero bytes rest off f e small h = absurd (omega (arith, length-emit t))
    decode-emit (number n) (suc fuel) bytes rest off f e small h =
        decode-int q fuel bytes off (inside bytes _ off e (omega arith))
          (ap token_of (first_there bytes _ off e))
        ∙ ap (λ r. bind r (λ p. ok (some p.0, p.1))) (parse_int-emit q laws n bytes rest off f e)
    decode-emit (text s) (suc fuel) bytes rest off f e small h =
        decode-text s (suc fuel) bytes rest off e small (omega arith)
    decode-emit (list_of ts) (suc fuel) bytes rest off f e small h =
        decode-list q fuel bytes off (inside bytes _ off e (omega arith))
          (ap token_of (first_there bytes _ off e))
        ∙ ap (λ r. bind r (λ p. ok (some (list p.0 off (p.1 - off)), p.1)))
            (parse_nodes-emit ts fuel bytes (b'e' ∷ rest) (off + 1) f
              (body_there bytes (emit_all q ts) rest off b'l' e)
              (stops_at bytes (emit_all q ts) rest (off + 1)
                (body_there bytes (emit_all q ts) rest off b'l' e))
              small (omega (arith, length-append (emit_all q ts) (b'e' ∷ []))))
        ∙ span_lem (λ n. list (located_all q ts (off + 1)) off n) off _
            (length (emit q (list_of ts)))
            (omega (arith, length-append (emit_all q ts) (b'e' ∷ [])))
    decode-emit (dict_of ms) (suc fuel) bytes rest off f e small h =
        decode-dict q fuel bytes off (inside bytes _ off e (omega arith))
          (ap token_of (first_there bytes _ off e))
        ∙ ap (λ r. bind r (λ p. ok (some (dict p.0 off (p.1 - off)), p.1)))
            (parse_entries-emit ms fuel bytes rest (off + 1) f
              (body_there bytes (emit_members q ms) rest off b'd' e) small
              (omega (arith, length-append (emit_members q ms) (b'e' ∷ []))))
        ∙ span_lem (λ n. dict (located_members q ms (off + 1)) off n) off _
            (length (emit q (dict_of ms)))
            (omega (arith, length-append (emit_members q ms) (b'e' ∷ [])))

    -- What stands behind the elements is free, as long as the loop stops there.
    pub parse_nodes-emit :
        (ts : Trees) (fuel : ℕ) (bytes rest : List ℕ) (off : ℕ)
        → FitsAll ts
        → drop off bytes ≡ emit_all q ts ++ rest
        → more bytes (off + length (emit_all q ts)) ≡ false
        → length bytes < 2 ^ 31
        → 2 * length (emit_all q ts) + 1 ≤ fuel
        → parse_nodes q fuel bytes off ≡ ok (located_all q ts off, off + length (emit_all q ts) + 1)
    parse_nodes-emit ts zero bytes rest off f e stop small h = absurd (omega arith)
    parse_nodes-emit no_trees (suc fuel) bytes rest off f e stop small h =
        parse_nodes_end q fuel bytes off (ap (more bytes) (omega arith) ∙ stop)
        ∙ ap (λ n. ok (no_nodes, n)) (omega arith)
    parse_nodes-emit (tree t ts) (suc fuel) bytes rest off f e stop small h =
        let here : drop off bytes ≡ emit q t ++ (emit_all q ts ++ rest) =
          e ∙ append_assoc (emit q t) (emit_all q ts) rest in
        let sum : length (emit q t ++ emit_all q ts) ≡ length (emit q t) + length (emit_all q ts) =
          length-append (emit q t) (emit_all q ts) in
        parse_nodes-more q fuel bytes off (more-emit t bytes _ off here)
        ∙ ap
            (λ r.
              bind r
                (λ n. bind (parse_nodes q fuel bytes n.1) (λ p. ok (append_node n.0 p.0, p.1))))
            (decode-emit t fuel bytes _ off f.0 here small (omega (arith, sum)))
        ∙ ap (λ r. bind r (λ p. ok (node (located q t off) p.0, p.1)))
            (parse_nodes-emit ts fuel bytes rest (off + length (emit q t)) f.1
              (drop_past bytes (emit q t) _ off (length (emit q t)) here refl)
              (ap (more bytes) (omega (arith, sum)) ∙ stop) small
              (omega (arith, sum, length-emit t)))
        ∙ ap (λ n. ok (node (located q t off) (located_all q ts (off + length (emit q t))), n))
            (omega (arith, sum))

    parse_entries-emit :
        (ms : Members) (fuel : ℕ) (bytes rest : List ℕ) (off : ℕ)
        → FitsMembers ms
        → drop off bytes ≡ emit_members q ms ++ (b'e' ∷ rest)
        → length bytes < 2 ^ 31
        → 2 * length (emit_members q ms) + 1 ≤ fuel
        → parse_entries q fuel bytes off
          ≡ ok (located_members q ms off, off + length (emit_members q ms) + 1)
    parse_entries-emit ms zero bytes rest off f e small h = absurd (omega arith)
    parse_entries-emit no_members (suc fuel) bytes rest off f e small h =
        parse_entries_end q fuel bytes off (ground (arith, byte_there bytes rest off b'e' e))
        ∙ ap (λ n. ok (no_entries, n)) (omega arith)
    parse_entries-emit (member key t ms) (suc fuel) bytes rest off f e small h =
        let named = emit_text q key in
        let key_there : drop off bytes
            ≡ named ++ (emit q t ++ (emit_members q ms ++ (b'e' ∷ rest))) =
          e
          ∙ append_assoc named (emit q t ++ emit_members q ms) (b'e' ∷ rest)
          ∙ ap (◌++◌ named) (append_assoc (emit q t) (emit_members q ms) (b'e' ∷ rest)) in
        let value_there : drop (off + length named) bytes
            ≡ emit q t ++ (emit_members q ms ++ (b'e' ∷ rest)) =
          drop_past bytes named _ off (length named) key_there refl in
        let sum : length (named ++ (emit q t ++ emit_members q ms))
            ≡ length named + (length (emit q t) + length (emit_members q ms)) =
          omega (
            arith,
            length-append named (emit q t ++ emit_members q ms),
            length-append (emit q t) (emit_members q ms),
          ) in
        parse_entries-more q fuel bytes off (more-emit (text key) bytes _ off key_there)
        ∙ ap
            (λ r. bind r (λ kn. bind (key_of kn.0) (λ k. bind (decode q fuel bytes kn.1) (λ vn.
              bind (value_of vn.0)
                (λ v. bind (parse_entries q fuel bytes vn.1) (λ p. ok (entry k v p.0, p.1)))))))
            (decode-text key fuel bytes _ off key_there small
              (omega (arith, sum, length-emit_text key, h)))
        ∙ ap
            (λ r. bind r (λ vn.
              bind (value_of vn.0)
                (λ v. bind (parse_entries q fuel bytes vn.1) (λ p. ok (entry key v p.0, p.1)))))
            (decode-emit t fuel bytes _ (off + length named) f.0 value_there small
              (omega (arith, sum)))
        ∙ ap (λ r. bind r (λ p. ok (entry key (located q t (off + length named)) p.0, p.1)))
            (parse_entries-emit ms fuel bytes rest (off + length named + length (emit q t)) f.1
              (drop_past bytes (emit q t) _ (off + length named) (length (emit q t)) value_there
                refl)
              small (omega (arith, sum, length-emit t)))
        ∙ ap
            (λ n. ok (
              entry key (located q t (off + length named))
                  (located_members q ms (off + length named + length (emit q t))),
              n,
            ))
            (omega (arith, sum))
