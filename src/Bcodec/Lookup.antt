-- ===== src/Bcodec/Lookup.antt =====
-- src/bcodec/bnode.cpp: what a program takes out of the tree that was decoded. The conversion from bytes
-- to QString is a parameter.
pub mod Dict
pub mod Sequence
pub mod Written
use libktorrent_stream.Base.{
  ℕ, zero, suc, Bool, true, false, ◌&&◌, Option, none, some, List, [], ◌∷◌, ◌==◌, if◌then◌else◌, ℤ,
}
use libktorrent_stream.Bcodec.Node.{
  Value, int, int64, string, BNode, value, dict, list, Nodes, no_nodes, node, Entries, no_entries,
  entry,
}

-- The messages of the exceptions
pub data LookupError : Type 0 where
  key_not_found : LookupError
  incompatible_type : LookupError

-- `undefined` is the access to an element that the list does not have.
pub data Outcome (A : Type 0) : Type 0 where
  found : A → Outcome A
  failed : LookupError → Outcome A
  undefined : Outcome A

abbrev pub and_then : {A B : Type 0} → Outcome A → (A → Outcome B) → Outcome B
and_then (found a) f = f a
and_then (failed e) f = failed e
and_then undefined f = undefined

-- Equality of two byte arrays or of two strings
unfoldable pub same : List ℕ → List ℕ → Bool
same [] [] = true
same [] (y ∷ ys) = false
same (x ∷ xs) [] = false
same (x ∷ xs) (y ∷ ys) = (x == y) && same xs ys

-- The dynamic casts, which give a null pointer for a node of another type and for a null pointer
unfoldable pub as_dict : Option BNode → Option BNode
as_dict none = none
as_dict (some (value v off len)) = none
as_dict (some (dict children off len)) = some (dict children off len)
as_dict (some (list children off len)) = none

unfoldable pub as_list : Option BNode → Option BNode
as_list none = none
as_list (some (value v off len)) = none
as_list (some (dict children off len)) = none
as_list (some (list children off len)) = some (list children off len)

unfoldable pub as_value : Option BNode → Option Value
as_value none = none
as_value (some (value v off len)) = some v
as_value (some (dict children off len)) = none
as_value (some (list children off len)) = none

-- The guards of `getInt`, `getInt64` and `getByteArray`, and the value behind them
unfoldable pub int_of : Option Value → Outcome ℤ
int_of none = failed key_not_found
int_of (some (int n)) = found n
int_of (some (int64 n)) = failed incompatible_type
int_of (some (string text)) = failed incompatible_type

unfoldable pub int64_of : Option Value → Outcome ℤ
int64_of none = failed key_not_found
int64_of (some (int n)) = found n
int64_of (some (int64 n)) = found n
int64_of (some (string text)) = failed incompatible_type

unfoldable pub byte_array_of : Option Value → Outcome (List ℕ)
byte_array_of none = failed key_not_found
byte_array_of (some (int n)) = failed incompatible_type
byte_array_of (some (int64 n)) = failed incompatible_type
byte_array_of (some (string text)) = found text
