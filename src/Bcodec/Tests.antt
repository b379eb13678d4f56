-- ===== src/Bcodec/Tests.antt =====
-- Runs of bencoding on small data.
use libktorrent_stream.Base.{
  ℕ, ◌<◌, ◌≤◌, ◌⊎◌, none, ◌≡◌, refl, true, some, List, [], ◌∷◌, ◌++◌, length, pos, negsuc, arith,
}
use libktorrent_stream.Bcodec.Numbers.Decimal.{
  decimal, decimal-IsDecimal, digits, read_signed, read_unsigned, digits_only, read_digits, within,
  positive, opposite, negative,
}
use libktorrent_stream.Bcodec.Node.{int, string, value, list, dict, Nodes, Entries, no_nodes, node}
use libktorrent_stream.Bcodec.Encoder.{
  write_bool, end_object, write_byte_array, write_number, begin_list, begin_dict,
}
use libktorrent_stream.Bcodec.Tree.{
  Trees, Members, number, text, list_of, dict_of, no_trees, tree, no_members, member, Fits,
  write_tree, located, emit, write_trees,
}
use libktorrent_stream.Bcodec.Decoder.{
  ok, thrown, decode, parse_int, parse_string, read_until, int_value, convert, string_length,
  string_node, not_negative, int_node, illegal_token, cannot_convert, incomplete, decode_dict,
  decode_list,
}
use libktorrent_stream.Bcodec.Decoder.Total.{Ends, decode-Ends}
use libktorrent_stream.Bcodec.Written.{decode-write_tree}
use libktorrent_stream.Bcodec.Unterminated.{unterminated_list}
use libktorrent_stream.Bcodec.Lookup.Dict
use libktorrent_stream.Bcodec.Lookup.Sequence
use libktorrent_stream.Bcodec.Lookup.Written.{
  dict_written, list_written, int_in, int64_in, bytes_in, find, at,
}
use libktorrent_stream.Bcodec.Lookup.{and_then}

-- A dictionary with an interval, the name of a peer, and a list
abbrev sample_members : Members
sample_members = member (b'a' ∷ []) (number 1800) (
    member (b'b' ∷ []) (text (b'x' ∷ b'y' ∷ []))
      (member (b'c' ∷ []) (list_of (tree (number 4294967296) no_trees)) no_members))

abbrev sample_trees : Trees
sample_trees = tree (number 7) (tree (text (b'x' ∷ [])) no_trees)

write_tree-run :
    write_tree decimal [] (list_of sample_trees)
    ≡ b'l' ∷ b'i' ∷ b'7' ∷ b'e' ∷ b'1' ∷ b':' ∷ b'x' ∷ b'e' ∷ []
unfolding write_tree decimal end_object write_byte_array write_number begin_list digits
write_tree-run = refl

write_bool-run : write_bool decimal [] true ≡ b'i' ∷ b'1' ∷ b'e' ∷ []
unfolding write_bool decimal digits
write_bool-run = refl

-- A negative number, a letter that begins no value, a number that is no number, a text that is cut off
decode-negative :
    decode decimal 20 (b'i' ∷ b'-' ∷ b'3' ∷ b'e' ∷ []) 0 ≡ ok (some (value (int (negsuc 2)) 0 4), 4)
unfolding decode parse_int parse_string read_until int_value convert string_length string_node
    not_negative int_node decimal read_signed read_unsigned digits_only read_digits within positive
    opposite negative
decode-negative = refl

decode-illegal : decode decimal 20 (b'x' ∷ []) 0 ≡ thrown (illegal_token b'x')
unfolding decode
decode-illegal = refl

decode-no_number :
    decode decimal 20 (b'i' ∷ b'x' ∷ b'e' ∷ []) 0 ≡ thrown (cannot_convert (b'x' ∷ []))
unfolding decode parse_int parse_string read_until int_value convert string_length string_node
    not_negative int_node decimal read_signed read_unsigned digits_only read_digits within positive
    opposite negative
decode-no_number = refl

decode-cut : decode decimal 20 (b'5' ∷ b':' ∷ b'x' ∷ []) 0 ≡ thrown incomplete
unfolding decode parse_int parse_string read_until int_value convert string_length string_node
    not_negative int_node decimal read_signed read_unsigned digits_only read_digits within positive
    opposite negative
decode-cut = refl

abbrev cut_list : List ℕ
cut_list = b'l' ∷ b'i' ∷ b'1' ∷ b'e' ∷ []

decode-Ends_example :
    ((0 < 4) × Ends 0 (decode decimal 9 cut_list 0))
    ⊎ ((4 ≤ 0) × (decode decimal 9 cut_list 0 ≡ ok (none, 0)))
decode-Ends_example = decode-Ends decimal 9 cut_list 0 (omega arith)

decode-write_tree_example :
    decode decimal 16 (write_tree decimal [] (list_of sample_trees) ++ (b'z' ∷ [])) 0
    ≡ ok (
      some (located decimal (list_of sample_trees) 0),
      length (write_tree decimal [] (list_of sample_trees)),
    )
unfolding write_tree decimal Fits end_object write_byte_array write_number begin_list begin_dict
decode-write_tree_example =
    decode-write_tree decimal decimal-IsDecimal (list_of sample_trees) (b'z' ∷ []) 16
      (omega arith, (tt, tt)) (omega arith) (omega arith)

unterminated_list_example :
    decode decimal 14 (write_trees decimal (begin_list []) sample_trees) 0
    ≡ ok (
      some (
          list
            (node (value (int (pos 7)) 1 3) (node (value (string (b'x' ∷ [])) 4 3) no_nodes))
            0
            8),
      8,
    )
unfolding write_tree decimal Fits located begin_list write_byte_array write_number
unterminated_list_example =
    unterminated_list decimal decimal-IsDecimal sample_trees 14 (omega arith, (tt, tt))
      (omega arith) (omega arith)

dict_written_example :
    (es : Entries) × (decode_dict decimal 80
        (write_tree decimal [] (dict_of sample_members) ++ [])
        0
      ≡ ok (
        some (dict es 0 (length (emit decimal (dict_of sample_members)))),
        length (write_tree decimal [] (dict_of sample_members)),
      ))
    × ((key : List ℕ)
        → (Dict.get_int (λ s. s) key es ≡ int_in (find (λ s. s) key sample_members))
          × (Dict.get_int64 (λ s. s) key es ≡ int64_in (find (λ s. s) key sample_members))
          × (Dict.get_byte_array (λ s. s) key es ≡ bytes_in (find (λ s. s) key sample_members)))
unfolding write_tree decimal Fits end_object write_byte_array write_number begin_list begin_dict
dict_written_example =
    dict_written decimal decimal-IsDecimal (λ s. s) sample_members [] 80
      (omega arith, (tt, ((omega arith, tt), tt))) (omega arith) (omega arith)

list_written_example :
    (ns : Nodes) × (decode_list decimal 16 (write_tree decimal [] (list_of sample_trees) ++ []) 0
      ≡ ok (
        some (list ns 0 (length (emit decimal (list_of sample_trees)))),
        length (write_tree decimal [] (list_of sample_trees)),
      ))
    × ((idx : ℕ)
        → (Sequence.get_int idx ns ≡ and_then (at idx sample_trees) (λ t. int_in (some t)))
          × (Sequence.get_int64 idx ns ≡ and_then (at idx sample_trees) (λ t. int64_in (some t)))
          × (Sequence.get_byte_array idx ns
              ≡ and_then (at idx sample_trees) (λ t. bytes_in (some t))))
unfolding write_tree decimal Fits end_object write_byte_array write_number begin_list begin_dict
list_written_example =
    list_written decimal decimal-IsDecimal sample_trees [] 16 (omega arith, (tt, tt)) (omega arith)
      (omega arith)
