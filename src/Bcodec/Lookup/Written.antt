-- ===== src/Bcodec/Lookup/Written.antt =====
-- What a program takes out of a tree, src/bcodec/bnode.cpp, where the tree was encoded by
-- src/bcodec/bencoder.cpp and decoded by src/bcodec/bdecoder.cpp.
use libktorrent_stream.Base.{
  ℕ, zero, suc, ◌+◌, ◌*◌, ◌^◌, ◌≤◌, ◌<◌, ◌≡◌, refl, ◌∙◌, ap, Bool-cases, inl, inr, Option, none,
  some, List, [], ◌++◌, length, ltb, if◌then◌else◌, ℤ, pos, arith,
}
use libktorrent_stream.Bcodec.Numbers.{QtNumbers, IsDecimal}
use libktorrent_stream.Bcodec.Node.{Value, string, Entries, Nodes, dict, list}
use libktorrent_stream.Bcodec.Tree.{
  Tree, Trees, Members, number, text, list_of, dict_of, no_trees, tree, no_members, member, Fits,
  write_tree, emit, emit_text, located, located_all, located_members, number_value,
}
use libktorrent_stream.Bcodec.Decoder.{ok, bind, decode_dict, decode_list, only_dict, only_list}
use libktorrent_stream.Bcodec.Written.{decode-write_tree}
use libktorrent_stream.Bcodec.Lookup.{
  Outcome, found, failed, undefined, and_then, key_not_found, incompatible_type, same, as_value,
  int_of, int64_of, byte_array_of,
}
use libktorrent_stream.Bcodec.Lookup.Dict
use libktorrent_stream.Bcodec.Lookup.Sequence

-- The tree that a key or an index stands for
abbrev pub find : (List ℕ → List ℕ) → List ℕ → Members → Option Tree
find to_string key no_members = none
find to_string key (member k t ms) =
    let rest = find to_string key ms in if same (to_string k) key then some t else rest

abbrev pub at : ℕ → Trees → Outcome Tree
at idx no_trees = undefined
at zero (tree t ts) = found t
at (suc idx) (tree t ts) = at idx ts

-- What each kind of access gives for a tree
abbrev pub int_in : Option Tree → Outcome ℤ
int_in none = failed key_not_found
int_in (some (number n)) = if ltb n (2 ^ 31) then found (pos n) else failed incompatible_type
int_in (some (text s)) = failed incompatible_type
int_in (some (list_of ts)) = failed key_not_found
int_in (some (dict_of ms)) = failed key_not_found

abbrev pub int64_in : Option Tree → Outcome ℤ
int64_in none = failed key_not_found
int64_in (some (number n)) = found (pos n)
int64_in (some (text s)) = failed incompatible_type
int64_in (some (list_of ts)) = failed key_not_found
int64_in (some (dict_of ms)) = failed key_not_found

abbrev pub bytes_in : Option Tree → Outcome (List ℕ)
bytes_in none = failed key_not_found
bytes_in (some (number n)) = failed incompatible_type
bytes_in (some (text s)) = found s
bytes_in (some (list_of ts)) = failed key_not_found
bytes_in (some (dict_of ms)) = failed key_not_found

-- The value of a tree, whatever its place
value_in : Option Tree → Option Value
value_in none = none
value_in (some (number n)) = some (number_value n)
value_in (some (text s)) = some (string s)
value_in (some (list_of ts)) = none
value_in (some (dict_of ms)) = none

int_of-value_in : (t : Option Tree) → int_of (value_in t) ≡ int_in t
unfolding int_of value_in
int_of-value_in none = refl
int_of-value_in (some (number n)) = ground arith
int_of-value_in (some (text s)) = refl
int_of-value_in (some (list_of ts)) = refl
int_of-value_in (some (dict_of ms)) = refl

int64_of-value_in : (t : Option Tree) → int64_of (value_in t) ≡ int64_in t
unfolding int64_of value_in
int64_of-value_in none = refl
int64_of-value_in (some (number n)) = ground arith
int64_of-value_in (some (text s)) = refl
int64_of-value_in (some (list_of ts)) = refl
int64_of-value_in (some (dict_of ms)) = refl

byte_array_of-value_in : (t : Option Tree) → byte_array_of (value_in t) ≡ bytes_in t
unfolding byte_array_of value_in
byte_array_of-value_in none = refl
byte_array_of-value_in (some (number n)) = ground arith
byte_array_of-value_in (some (text s)) = refl
byte_array_of-value_in (some (list_of ts)) = refl
byte_array_of-value_in (some (dict_of ms)) = refl

module _ (q : QtNumbers) where
  as_value-located : (t : Tree) (off : ℕ) → as_value (some (located q t off)) ≡ value_in (some t)
  unfolding as_value located value_in
  as_value-located (number n) off = refl
  as_value-located (text s) off = refl
  as_value-located (list_of ts) off = refl
  as_value-located (dict_of ms) off = refl

  get_value-located :
      (to_string : List ℕ → List ℕ) (key : List ℕ) (ms : Members) (off : ℕ)
      → Dict.get_value to_string key (located_members q ms off) ≡ value_in (find to_string key ms)
  unfolding Dict.get_value as_value located value_in
  get_value-located to_string key no_members off = refl
  get_value-located to_string key (member k t ms) off = elim (Bool-cases (same (to_string k) key)) [
    | inl here ↦ ground (arith, here, as_value-located t (off + length (emit_text q k)))
    | inr not_here ↦ ground (
      arith,
      not_here,
      get_value-located to_string key ms (off + length (emit_text q k) + length (emit q t)),
    )
  ]

  and_then_lem :
      {A B C : Type 0} (o : Outcome A) (f : A → Outcome B) (g : B → Outcome C)
      → and_then (and_then o f) g ≡ and_then o (λ a. and_then (f a) g)
  and_then_lem (found a) f g = refl
  and_then_lem (failed e) f g = refl
  and_then_lem undefined f g = refl

  and_then_cong :
      {A B : Type 0} (o : Outcome A) (f g : A → Outcome B)
      → ((a : A) → f a ≡ g a)
      → and_then o f ≡ and_then o g
  and_then_cong (found a) f g h = h a
  and_then_cong (failed e) f g h = refl
  and_then_cong undefined f g h = refl

  get_value-at :
      (idx : ℕ) (ts : Trees) (off : ℕ)
      → Sequence.get_value idx (located_all q ts off)
        ≡ and_then (at idx ts) (λ t. found (value_in (some t)))
  unfolding Sequence.get_value Sequence.get_child as_value located value_in
  get_value-at idx no_trees off = refl
  get_value-at zero (tree t ts) off = ap found (as_value-located t off)
  get_value-at (suc idx) (tree t ts) off = get_value-at idx ts (off + length (emit q t))

  -- An access by an index, for what it takes of a value
  at_lem :
      {A : Type 0} (idx : ℕ) (ts : Trees) (of : Option Value → Outcome A)
      (expected : Option Tree → Outcome A)
      → ((t : Option Tree) → of (value_in t) ≡ expected t)
      → and_then (Sequence.get_value idx (located_all q ts 1)) of
        ≡ and_then (at idx ts) (λ t. expected (some t))
  at_lem idx ts of expected h =
      ap (λ o. and_then o of) (get_value-at idx ts 1)
      ∙ and_then_lem (at idx ts) _ of
      ∙ and_then_cong (at idx ts) _ _ (λ t. h (some t))

-- A dictionary that the encoder has written is read by `decodeDict`, and each access by a key finds the
-- first member with that key: `getInt` gives a number below 2 ^ 31 and `getInt64` any number,
-- `getByteArray` gives a byte array; a missing key, or a list or dictionary at it, is "Key not found in
-- dict", and any other value is "Incompatible type". The numbers are below 2 ^ 63, the data is shorter
-- than 2 ^ 31 bytes, and the conversions of numbers are as Qt documents them.
pub dict_written :
    (q : QtNumbers)
    → IsDecimal q
    → (to_string : List ℕ → List ℕ) (ms : Members) (rest : List ℕ) (fuel : ℕ) → Fits (dict_of ms)
    → length (write_tree q [] (dict_of ms) ++ rest) < 2 ^ 31
    → 2 * length (write_tree q [] (dict_of ms)) ≤ fuel
    → (es : Entries) × (decode_dict q fuel (write_tree q [] (dict_of ms) ++ rest) 0
        ≡ ok (
          some (dict es 0 (length (emit q (dict_of ms)))),
          length (write_tree q [] (dict_of ms)),
        ))
      × ((key : List ℕ)
          → (Dict.get_int to_string key es ≡ int_in (find to_string key ms))
            × (Dict.get_int64 to_string key es ≡ int64_in (find to_string key ms))
            × (Dict.get_byte_array to_string key es ≡ bytes_in (find to_string key ms)))
unfolding decode_dict only_dict located emit Dict.get_int Dict.get_int64 Dict.get_byte_array
    Dict.get_value
dict_written q laws to_string ms rest fuel f small h = (
  located_members q ms 1,
  ap (λ r. bind r (λ p. ok (only_dict p.0, p.1)))
      (decode-write_tree q laws (dict_of ms) rest fuel f small h),
  λ key.
      let here = get_value-located q to_string key ms 1 in
      (
        ap int_of here ∙ int_of-value_in (find to_string key ms),
        ap int64_of here ∙ int64_of-value_in (find to_string key ms),
        ap byte_array_of here ∙ byte_array_of-value_in (find to_string key ms),
      ),
)

-- A list that the encoder has written is read by `decodeList`, and each access by an index gives what
-- the element has, with the same errors as for a dictionary. An index that the list does not have is
-- not caught: it reaches `QList::at`, whose result is then undefined. The numbers are below 2 ^ 63, the data is
-- shorter than 2 ^ 31 bytes, and the conversions of numbers are as Qt documents them.
pub list_written :
    (q : QtNumbers)
    → IsDecimal q
    → (ts : Trees) (rest : List ℕ) (fuel : ℕ) → Fits (list_of ts)
    → length (write_tree q [] (list_of ts) ++ rest) < 2 ^ 31
    → 2 * length (write_tree q [] (list_of ts)) ≤ fuel
    → (ns : Nodes) × (decode_list q fuel (write_tree q [] (list_of ts) ++ rest) 0
        ≡ ok (
          some (list ns 0 (length (emit q (list_of ts)))),
          length (write_tree q [] (list_of ts)),
        ))
      × ((idx : ℕ)
          → (Sequence.get_int idx ns ≡ and_then (at idx ts) (λ t. int_in (some t)))
            × (Sequence.get_int64 idx ns ≡ and_then (at idx ts) (λ t. int64_in (some t)))
            × (Sequence.get_byte_array idx ns ≡ and_then (at idx ts) (λ t. bytes_in (some t))))
unfolding decode_list only_list located emit Sequence.get_int Sequence.get_int64
    Sequence.get_byte_array
list_written q laws ts rest fuel f small h = (
  located_all q ts 1,
  ap (λ r. bind r (λ p. ok (only_list p.0, p.1)))
      (decode-write_tree q laws (list_of ts) rest fuel f small h),
  λ idx. (
    at_lem q idx ts int_of int_in int_of-value_in,
    at_lem q idx ts int64_of int64_in int64_of-value_in,
    at_lem q idx ts byte_array_of bytes_in byte_array_of-value_in,
  ),
)
