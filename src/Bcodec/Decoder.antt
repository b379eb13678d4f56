-- ===== src/Bcodec/Decoder.antt =====
-- src/bcodec/bdecoder.cpp. An exception is a result; the nodes that are deleted on the way have no
-- counterpart. The recursion of the methods, and the loops over children, run on fuel.
pub mod Steps
pub mod Total
pub mod Leaves
pub mod RoundTrip
use libktorrent_stream.Base.{
  ℕ, zero, suc, ◌+◌, ◌-◌, ◌%◌, ◌^◌, Bool, true, false, not, ◌&&◌, ◌||◌, Option, none, some, List,
  [], ◌∷◌, ltb, leb, ◌==◌, if◌then◌else◌, length, take, drop, get_or, ℤ, pos, negsuc,
}
use libktorrent_stream.Bcodec.Numbers.{QtNumbers}
use libktorrent_stream.Bcodec.Node.{
  Value, int, int64, string, BNode, value, dict, list, Nodes, no_nodes, node, Entries, no_entries,
  entry,
}

-- The messages of the exceptions
pub data Error : Type 0 where
  illegal_token : ℕ → Error
  decode_error : Error
  unexpected_end : Error
  cannot_convert : List ℕ → Error
  incomplete : Error

-- The outcome of a method. `out_of_fuel` has no counterpart in the source.
pub data Result (A : Type 0) : Type 0 where
  ok : A → Result A
  thrown : Error → Result A
  out_of_fuel : Result A

abbrev pub bind : {A B : Type 0} → Result A → (A → Result B) → Result B
bind (ok a) f = f a
bind (thrown e) f = thrown e
bind out_of_fuel f = out_of_fuel

-- What `decode` looks at a byte for
pub data Token : Type 0 where
  dict_token list_token int_token string_token : Token
  other_token : Token

abbrev pub token_of : ℕ → Token
token_of b =
    if b == b'd'
    then dict_token
    else if b == b'l'
    then list_token
    else if b == b'i'
    then int_token
    else if leb b'0' b && leb b b'9'
    then string_token
    else other_token

-- `while (pos < size && data[pos] != stop) { n += data[pos]; pos++; }`, on the bytes from `pos` on
unfoldable pub read_until : ℕ → List ℕ → List ℕ
read_until stop [] = []
read_until stop (b ∷ bytes) = let rest = read_until stop bytes in if b == stop then [] else b ∷ rest

-- `pos < data.size() && data[pos] != 'e'`
abbrev pub more : List ℕ → ℕ → Bool
more bytes off = ltb off (length bytes) && not (get_or bytes off 0 == b'e')

-- The key of a dictionary must be a string.
unfoldable pub key_of : Option BNode → Result (List ℕ)
key_of (some (value (string key) off len)) = ok key
key_of (some (value (int n) off len)) = thrown decode_error
key_of (some (value (int64 n) off len)) = thrown decode_error
key_of (some (dict children off len)) = thrown decode_error
key_of (some (list children off len)) = thrown decode_error
key_of none = thrown decode_error

-- An `int`, or else a `qint64`
unfoldable pub convert : Option ℤ → Option ℤ → List ℕ → Result Value
convert (some val) bi n = ok (int val)
convert none (some bi) n = ok (int64 bi)
convert none none n = thrown (cannot_convert n)

-- A negative length is refused.
unfoldable pub not_negative : Option ℤ → List ℕ → Result ℕ
not_negative (some (pos len)) n = ok len
not_negative (some (negsuc k)) n = thrown (cannot_convert n)
not_negative none n = thrown (cannot_convert n)

-- A value must be there.
unfoldable pub value_of : Option BNode → Result BNode
value_of (some n) = ok n
value_of none = thrown decode_error

-- `if (n) curr->append(n)`, before the children that follow
unfoldable pub append_node : Option BNode → Nodes → Nodes
append_node (some n) rest = node n rest
append_node none rest = rest

-- The node of an integer whose `e` stands at `end`, and the position behind it
unfoldable pub int_node : ℕ → ℕ → Value → Result (BNode × ℕ)
int_node off end v = ok (value v off (end + 1 - off), end + 1)

-- The node of a string of `len` bytes that begins at `start`, and the position behind it
unfoldable pub string_node : List ℕ → ℕ → ℕ → ℕ → Result (BNode × ℕ)
string_node bytes off start len =
    if ltb (length bytes) ((start + len) % 2 ^ 32)
    then thrown incomplete
    else ok (value (string (take len (drop start bytes))) off (start + len - off), start + len)

-- The tests of `decodeDict` and `decodeList`: no node where another one, or none, was decoded
unfoldable pub only_dict : Option BNode → Option BNode
only_dict none = none
only_dict (some (value v off len)) = none
only_dict (some (dict children off len)) = some (dict children off len)
only_dict (some (list children off len)) = none

unfoldable pub only_list : Option BNode → Option BNode
only_list none = none
only_list (some (value v off len)) = none
only_list (some (dict children off len)) = none
only_list (some (list children off len)) = some (list children off len)

module _ (q : QtNumbers) where
  -- The value of a text between `i` and `e`
  unfoldable pub int_value : List ℕ → Result Value
  unfolding convert
  int_value n = convert (q.to_int n) (q.to_long_long n) n

  unfoldable pub parse_int : List ℕ → ℕ → Result (BNode × ℕ)
  unfolding int_value int_node
  parse_int bytes off =
      let n = read_until b'e' (drop (off + 1) bytes) in
      let end = off + 1 + length n in
      if leb (length bytes) end
      then thrown unexpected_end
      else bind (int_value n) (int_node off end)

  -- The length of a string
  unfoldable pub string_length : List ℕ → Result ℕ
  unfolding not_negative
  string_length n = not_negative (q.to_int n) n

  unfoldable pub parse_string : List ℕ → ℕ → Result (BNode × ℕ)
  unfolding string_length string_node
  parse_string bytes off =
      let n = read_until b':' (drop off bytes) in
      let colon = off + length n in
      if leb (length bytes) colon
      then thrown unexpected_end
      else bind (string_length n) (string_node bytes off (colon + 1))

  unfoldable mutual
    pub decode : ℕ → List ℕ → ℕ → Result (Option BNode × ℕ)
    decode zero bytes off = out_of_fuel
    decode (suc fuel) bytes off = elim (leb (length bytes) off) [
      | true ↦ ok (none, off)
      | false ↦ elim (token_of (get_or bytes off 0)) [
        | dict_token ↦
            bind (parse_entries fuel bytes (off + 1))
              (λ r. ok (some (dict r.0 off (r.1 - off)), r.1))
        | list_token ↦
            bind (parse_nodes fuel bytes (off + 1)) (λ r. ok (some (list r.0 off (r.1 - off)), r.1))
        | int_token ↦ bind (parse_int bytes off) (λ r. ok (some r.0, r.1))
        | string_token ↦ bind (parse_string bytes off) (λ r. ok (some r.0, r.1))
        | other_token ↦ thrown (illegal_token (get_or bytes off 0))
      ]
    ]

    -- The loop of `parseDict`, and the `pos++` behind it
    pub parse_entries : ℕ → List ℕ → ℕ → Result (Entries × ℕ)
    parse_entries zero bytes off = out_of_fuel
    parse_entries (suc fuel) bytes off = elim (more bytes off) [
      | false ↦ ok (no_entries, off + 1)
      | true ↦ bind (decode fuel bytes off) (λ kn. bind (key_of kn.0) (λ key.
          bind (decode fuel bytes kn.1) (λ vn.
            bind (value_of vn.0)
              (λ v. bind (parse_entries fuel bytes vn.1) (λ r. ok (entry key v r.0, r.1))))))
    ]

    -- The loop of `parseList`, and the `pos++` behind it
    pub parse_nodes : ℕ → List ℕ → ℕ → Result (Nodes × ℕ)
    parse_nodes zero bytes off = out_of_fuel
    parse_nodes (suc fuel) bytes off = elim (more bytes off) [
      | false ↦ ok (no_nodes, off + 1)
      | true ↦
          bind (decode fuel bytes off)
            (λ n. bind (parse_nodes fuel bytes n.1) (λ r. ok (append_node n.0 r.0, r.1)))
    ]

  unfoldable pub decode_dict : ℕ → List ℕ → ℕ → Result (Option BNode × ℕ)
  unfolding only_dict
  decode_dict fuel bytes off = bind (decode fuel bytes off) (λ r. ok (only_dict r.0, r.1))

  unfoldable pub decode_list : ℕ → List ℕ → ℕ → Result (Option BNode × ℕ)
  unfolding only_list
  decode_list fuel bytes off = bind (decode fuel bytes off) (λ r. ok (only_list r.0, r.1))
