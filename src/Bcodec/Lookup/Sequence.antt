-- ===== src/Bcodec/Lookup/Sequence.antt =====
-- src/bcodec/bnode.cpp, `BListNode`.
use libktorrent_stream.Base.{ℕ, zero, suc, Option, some, List, ℤ}
use libktorrent_stream.Bcodec.Node.{Value, BNode, Nodes, no_nodes, node}
use libktorrent_stream.Bcodec.Lookup.{
  Outcome, found, undefined, and_then, as_dict, as_list, as_value, int_of, int64_of, byte_array_of,
}

unfoldable pub append : BNode → Nodes → Nodes
append n no_nodes = node n no_nodes
append n (node m ns) = node m (append n ns)

-- `children.at(idx)`
unfoldable pub get_child : ℕ → Nodes → Outcome BNode
get_child idx no_nodes = undefined
get_child zero (node n ns) = found n
get_child (suc idx) (node n ns) = get_child idx ns

unfoldable pub get_list : ℕ → Nodes → Outcome (Option BNode)
unfolding get_child as_list
get_list idx ns = and_then (get_child idx ns) (λ n. found (as_list (some n)))

unfoldable pub get_dict : ℕ → Nodes → Outcome (Option BNode)
unfolding get_child as_dict
get_dict idx ns = and_then (get_child idx ns) (λ n. found (as_dict (some n)))

unfoldable pub get_value : ℕ → Nodes → Outcome (Option Value)
unfolding get_child as_value
get_value idx ns = and_then (get_child idx ns) (λ n. found (as_value (some n)))

unfoldable pub get_int : ℕ → Nodes → Outcome ℤ
unfolding get_value int_of
get_int idx ns = and_then (get_value idx ns) int_of

unfoldable pub get_int64 : ℕ → Nodes → Outcome ℤ
unfolding get_value int64_of
get_int64 idx ns = and_then (get_value idx ns) int64_of

unfoldable pub get_byte_array : ℕ → Nodes → Outcome (List ℕ)
unfolding get_value byte_array_of
get_byte_array idx ns = and_then (get_value idx ns) byte_array_of
