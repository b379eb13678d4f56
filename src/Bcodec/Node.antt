-- ===== src/Bcodec/Node.antt =====
-- src/bcodec/value.h and src/bcodec/bnode.h: the tree that the decoder builds. A node has the offset at
-- which it starts in the data and the length that it takes there.
use libktorrent_stream.Base.{ℕ, List, ℤ}

-- `Value` with its type
pub data Value : Type 0 where
  int : ℤ → Value
  int64 : ℤ → Value
  string : List ℕ → Value

mutual
  pub data BNode : Type 0 where
    value : Value → ℕ → ℕ → BNode
    dict : Entries → ℕ → ℕ → BNode
    list : Nodes → ℕ → ℕ → BNode

  -- The children of a list
  pub data Nodes : Type 0 where
    no_nodes : Nodes
    node : BNode → Nodes → Nodes

  -- The children of a dictionary, with their keys
  pub data Entries : Type 0 where
    no_entries : Entries
    entry : List ℕ → BNode → Entries → Entries
