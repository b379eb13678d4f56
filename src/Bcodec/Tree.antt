-- ===== src/Bcodec/Tree.antt =====
-- A tree of values to be encoded, its wire format, and the node that a decoder should build from it.
use libktorrent_stream.Base.{ℕ, ◌+◌, ◌^◌, ◌<◌, List, [], ◌∷◌, ◌++◌, length, ltb, if◌then◌else◌, pos}
use libktorrent_stream.Bcodec.Numbers.{QtNumbers}
use libktorrent_stream.Bcodec.Node.{
  Value, int, int64, string, BNode, value, dict, list, Nodes, no_nodes, node, Entries, no_entries,
  entry,
}
use libktorrent_stream.Bcodec.Encoder.{
  begin_dict, begin_list, end_object, write_number, write_byte_array,
}

mutual
  pub data Tree : Type 0 where
    number : ℕ → Tree
    text : List ℕ → Tree
    list_of : Trees → Tree
    dict_of : Members → Tree

  pub data Trees : Type 0 where
    no_trees : Trees
    tree : Tree → Trees → Trees

  pub data Members : Type 0 where
    no_members : Members
    member : List ℕ → Tree → Members → Members

-- The numbers fit in 63 bits.
unfoldable mutual
  pub Fits : Tree → Type 0
  Fits (number n) = n < 2 ^ 63
  Fits (text s) = Unit
  Fits (list_of ts) = FitsAll ts
  Fits (dict_of ms) = FitsMembers ms

  pub FitsAll : Trees → Type 0
  FitsAll no_trees = Unit
  FitsAll (tree t ts) = Fits t × FitsAll ts

  pub FitsMembers : Members → Type 0
  FitsMembers no_members = Unit
  FitsMembers (member key t ms) = Fits t × FitsMembers ms

abbrev pub number_value : ℕ → Value
number_value n = if ltb n (2 ^ 31) then int (pos n) else int64 (pos n)

module _ (q : QtNumbers) where
  -- The calls of the encoder for a tree
  unfoldable mutual
    pub write_tree : List ℕ → Tree → List ℕ
    write_tree out (number n) = write_number q out n
    write_tree out (text s) = write_byte_array q out s
    write_tree out (list_of ts) = end_object (write_trees (begin_list out) ts)
    write_tree out (dict_of ms) = end_object (write_members (begin_dict out) ms)

    pub write_trees : List ℕ → Trees → List ℕ
    write_trees out no_trees = out
    write_trees out (tree t ts) = write_trees (write_tree out t) ts

    pub write_members : List ℕ → Members → List ℕ
    write_members out no_members = out
    write_members out (member key t ms) =
        write_members (write_tree (write_byte_array q out key) t) ms

  abbrev pub emit_text : List ℕ → List ℕ
  emit_text s = q.number (length s) ++ (b':' ∷ s)

  -- The wire format
  unfoldable mutual
    pub emit : Tree → List ℕ
    emit (number n) = b'i' ∷ (q.number n ++ (b'e' ∷ []))
    emit (text s) = emit_text s
    emit (list_of ts) = b'l' ∷ (emit_all ts ++ (b'e' ∷ []))
    emit (dict_of ms) = b'd' ∷ (emit_members ms ++ (b'e' ∷ []))

    pub emit_all : Trees → List ℕ
    emit_all no_trees = []
    emit_all (tree t ts) = emit t ++ emit_all ts

    pub emit_members : Members → List ℕ
    emit_members no_members = []
    emit_members (member key t ms) = emit_text key ++ (emit t ++ emit_members ms)

  -- The node of a tree that starts at an offset
  unfoldable mutual
    unfolding emit

    pub located : Tree → ℕ → BNode
    located (number n) off = value (number_value n) off (length (emit (number n)))
    located (text s) off = value (string s) off (length (emit (text s)))
    located (list_of ts) off = list (located_all ts (off + 1)) off (length (emit (list_of ts)))
    located (dict_of ms) off = dict (located_members ms (off + 1)) off (length (emit (dict_of ms)))

    pub located_all : Trees → ℕ → Nodes
    located_all no_trees off = no_nodes
    located_all (tree t ts) off = node (located t off) (located_all ts (off + length (emit t)))

    pub located_members : Members → ℕ → Entries
    located_members no_members off = no_entries
    located_members (member key t ms) off =
        let value_off = off + length (emit_text key) in
        entry key (located t value_off) (located_members ms (value_off + length (emit t)))
