-- ===== src/Bcodec/Written.antt =====
-- What the encoder of src/bcodec/bencoder.cpp has written is what the decoder of
-- src/bcodec/bdecoder.cpp reads.
use libktorrent_stream.Base.{
  ℕ, ◌*◌, ◌^◌, ◌≤◌, ◌<◌, ◌≡◌, refl, sym, ◌∙◌, ap, subst, some, List, [], ◌∷◌, ◌++◌, append_assoc,
  append-nil, length, arith,
}
use libktorrent_stream.Bcodec.Numbers.{QtNumbers, IsDecimal}
use libktorrent_stream.Bcodec.Encoder.{
  begin_dict, begin_list, end_object, write_number, write_byte_array,
}
use libktorrent_stream.Bcodec.Tree.{
  Tree, Trees, Members, number, text, list_of, dict_of, no_trees, tree, no_members, member, Fits,
  write_tree, write_trees, write_members, emit, emit_all, emit_members, emit_text, located,
}
use libktorrent_stream.Bcodec.Decoder.{ok, decode}
use libktorrent_stream.Bcodec.Decoder.RoundTrip.{decode-emit}

module _ (q : QtNumbers) where
  write_byte_array-emit : (out s : List ℕ) → write_byte_array q out s ≡ out ++ emit_text q s
  unfolding write_byte_array
  write_byte_array-emit out s =
      ap (λ xs. xs ++ s) (append_assoc out (q.number (length s)) (b':' ∷ []))
      ∙ append_assoc out (q.number (length s) ++ (b':' ∷ [])) s
      ∙ ap (◌++◌ out) (append_assoc (q.number (length s)) (b':' ∷ []) s)

  -- A letter, what stands in a list or dictionary, and the `e`
  enclose :
      (out xs : List ℕ) (letter : ℕ)
      → ((out ++ (letter ∷ [])) ++ xs) ++ (b'e' ∷ []) ≡ out ++ (letter ∷ (xs ++ (b'e' ∷ [])))
  enclose out xs letter =
      append_assoc (out ++ (letter ∷ [])) xs (b'e' ∷ [])
      ∙ append_assoc out (letter ∷ []) (xs ++ (b'e' ∷ []))

  -- The calls of the encoder give the wire format.
  mutual
    unfolding write_tree emit begin_list begin_dict end_object write_number

    write_tree-emit : (out : List ℕ) (t : Tree) → write_tree q out t ≡ out ++ emit q t
    write_tree-emit out (number n) = refl
    write_tree-emit out (text s) = write_byte_array-emit out s
    write_tree-emit out (list_of ts) =
        ap (λ xs. xs ++ (b'e' ∷ [])) (write_trees-emit (out ++ (b'l' ∷ [])) ts)
        ∙ enclose out (emit_all q ts) b'l'
    write_tree-emit out (dict_of ms) =
        ap (λ xs. xs ++ (b'e' ∷ [])) (write_members-emit (out ++ (b'd' ∷ [])) ms)
        ∙ enclose out (emit_members q ms) b'd'

    pub write_trees-emit : (out : List ℕ) (ts : Trees) → write_trees q out ts ≡ out ++ emit_all q ts
    write_trees-emit out no_trees = sym (append-nil out)
    write_trees-emit out (tree t ts) =
        write_trees-emit (write_tree q out t) ts
        ∙ ap (λ xs. xs ++ emit_all q ts) (write_tree-emit out t)
        ∙ append_assoc out (emit q t) (emit_all q ts)

    write_members-emit :
        (out : List ℕ) (ms : Members) → write_members q out ms ≡ out ++ emit_members q ms
    write_members-emit out no_members = sym (append-nil out)
    write_members-emit out (member key t ms) =
        write_members-emit (write_tree q (write_byte_array q out key) t) ms
        ∙ ap (λ xs. xs ++ emit_members q ms)
            (write_tree-emit (write_byte_array q out key) t
              ∙ ap (λ xs. xs ++ emit q t) (write_byte_array-emit out key)
              ∙ append_assoc out (emit_text q key) (emit q t))
        ∙ append_assoc out (emit_text q key ++ emit q t) (emit_members q ms)
        ∙ ap (◌++◌ out) (append_assoc (emit_text q key) (emit q t) (emit_members q ms))

-- Where the conversions of numbers are as Qt documents them: what the encoder writes for a tree of byte
-- arrays, numbers below 2 ^ 63, lists and dictionaries is decoded, whatever stands behind it in the
-- data, to the node of that tree, in which every node has its place in the data, and the position is
-- behind it. The data is shorter than 2 ^ 31 bytes. Fuel of twice the length of what is written is enough.
pub decode-write_tree :
    (q : QtNumbers)
    → IsDecimal q
    → (t : Tree) (rest : List ℕ) (fuel : ℕ) → Fits t
    → length (write_tree q [] t ++ rest) < 2 ^ 31
    → 2 * length (write_tree q [] t) ≤ fuel
    → decode q fuel (write_tree q [] t ++ rest) 0
      ≡ ok (some (located q t 0), length (write_tree q [] t))
decode-write_tree q laws t rest fuel f small h =
    subst
      (λ xs.
        length (xs ++ rest) < 2 ^ 31
        → 2 * length xs ≤ fuel
        → decode q fuel (xs ++ rest) 0 ≡ ok (some (located q t 0), length xs))
      (sym (write_tree-emit q [] t))
      (λ small' h'.
        decode-emit q laws t fuel (emit q t ++ rest) rest 0 f refl small' h'
        ∙ ap (λ n. ok (some (located q t 0), n)) (omega arith))
      small h
