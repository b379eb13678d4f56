-- ===== src/Bcodec/Lookup/Dict.antt =====
-- src/bcodec/bnode.cpp, `BDictNode`.
use libktorrent_stream.Base.{ℕ, Option, none, some, List, [], ◌∷◌, if◌then◌else◌, ℤ}
use libktorrent_stream.Bcodec.Node.{Value, BNode, Entries, no_entries, entry}
use libktorrent_stream.Bcodec.Lookup.{
  Outcome, same, as_dict, as_list, as_value, int_of, int64_of, byte_array_of,
}

unfoldable pub insert : List ℕ → BNode → Entries → Entries
insert key n no_entries = entry key n no_entries
insert key n (entry k m es) = entry k m (insert key n es)

-- `getDict` with a key of bytes
unfoldable pub get_dict_at_bytes : List ℕ → Entries → Option BNode
unfolding same as_dict
get_dict_at_bytes key no_entries = none
get_dict_at_bytes key (entry k n es) =
    let rest = get_dict_at_bytes key es in if same k key then as_dict (some n) else rest

module _ (to_string : List ℕ → List ℕ) where
  unfoldable pub keys : Entries → List (List ℕ)
  keys no_entries = []
  keys (entry key n es) = to_string key ∷ keys es

  unfoldable pub get_data : List ℕ → Entries → Option BNode
  unfolding same
  get_data key no_entries = none
  get_data key (entry k n es) =
      let rest = get_data key es in if same (to_string k) key then some n else rest

  unfoldable pub get_list : List ℕ → Entries → Option BNode
  unfolding as_list get_data
  get_list key es = as_list (get_data key es)

  unfoldable pub get_dict : List ℕ → Entries → Option BNode
  unfolding as_dict get_data
  get_dict key es = as_dict (get_data key es)

  unfoldable pub get_value : List ℕ → Entries → Option Value
  unfolding as_value get_data
  get_value key es = as_value (get_data key es)

  unfoldable pub get_int : List ℕ → Entries → Outcome ℤ
  unfolding int_of get_value
  get_int key es = int_of (get_value key es)

  unfoldable pub get_int64 : List ℕ → Entries → Outcome ℤ
  unfolding int64_of get_value
  get_int64 key es = int64_of (get_value key es)

  unfoldable pub get_byte_array : List ℕ → Entries → Outcome (List ℕ)
  unfolding byte_array_of get_value
  get_byte_array key es = byte_array_of (get_value key es)
