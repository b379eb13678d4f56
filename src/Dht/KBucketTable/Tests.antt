-- ===== src/Dht/KBucketTable/Tests.antt =====
-- The table of a node whose id is key 0, into which twenty-one nodes are put.
use libktorrent_stream.Base.{
  ℕ, zero, suc, ◌+◌, ◌*◌, ◌≤◌, ◌≡◌, refl, inl, some, List, [], ◌∷◌, ◌++◌, replicate, put, map,
  length, arith,
}
use libktorrent_stream.Dht.Key.{
  add, add_byte, add_bytes, add_value, divide, divide_bytes, equals, greater, greater_or_equal, mid,
  subtract, subtract_byte, subtract_bytes, less, less_or_equal, max, min,
}
use libktorrent_stream.Dht.Key.Value.{number, IsKey}
use libktorrent_stream.Dht.KBucket.{
  KBucketEntry, Node, KBucket, is_questionable, distribute, ping_first, ping_questionable, split,
  split_allowed, key_in_range, create, create_range, take_out, insert_new, same_entry,
  replace_bad_entry, is_bad,
}
use libktorrent_stream.Dht.KBucket
use libktorrent_stream.Dht.KBucketTable.{
  KBucketTable, Position, find_bucket, insert, insert_bucket, insert_halves, with_initial,
}
use libktorrent_stream.Dht.KBucketTable.Tiles.{Tiles}
use libktorrent_stream.Dht.KBucketTable.Reachable.{
  Reach, made, inserted, IsTable, Reach-IsTable, insert-finds,
}

abbrev node : Node
node = record { now = 1001; do_call = λ addr. some addr }

abbrev empty_table : KBucketTable
empty_table = record { our_id = replicate 20 0; buckets = [] }

abbrev contact : ℕ → KBucketEntry
contact n = record {
  addr = n;
  node_id = n ∷ replicate 19 7;
  last_responded = 900;
  failed_queries = 0;
  questionable_pings = 0;
}

fill : ℕ → KBucketTable → KBucketTable
fill zero t = t
fill (suc n) t = fill n (insert node t (contact (n * 12)))

shape : KBucketTable → List ℕ
shape t = map (λ b. length b.entries) t.buckets

-- The twenty-first node splits the bucket.
filled : shape (fill 21 empty_table) ≡ 11 ∷ 10 ∷ []
unfolding fill shape insert find_bucket with_initial insert_bucket insert_halves KBucket.insert put
    is_questionable distribute ping_first ping_questionable split split_allowed key_in_range create
    create_range take_out insert_new same_entry replace_bad_entry is_bad add add_byte add_bytes
    add_value divide divide_bytes equals greater greater_or_equal mid subtract subtract_byte
    subtract_bytes less less_or_equal max min
filled = refl

contact-IsKey : IsKey (contact 3).node_id
contact-IsKey = record { sized = refl; bytes = omega arith }

insert-Reach : Reach (replicate 20 0) (insert node empty_table (contact 3))
insert-Reach = inserted empty_table node (contact 3) (made empty_table refl refl) contact-IsKey

Reach-IsTable_example : IsTable (replicate 20 0) (insert node empty_table (contact 3))
Reach-IsTable_example =
    Reach-IsTable (replicate 20 0) (insert node empty_table (contact 3)) insert-Reach

empty-IsTable : IsTable (replicate 20 0) empty_table
empty-IsTable = record { own = refl; covers = inl refl }

insert-finds_example :
    (p : Position) × (find_bucket (contact 3).node_id (with_initial node empty_table) ≡ some p)
    × (with_initial node empty_table ≡ p.0 ++ (p.1 ∷ p.2))
    × (insert node empty_table (contact 3)
        ≡ record empty_table { buckets = p.0 ++ (insert_bucket node (contact 3) p.1 ++ p.2) })
    × (number p.1.min_key ≤ number (contact 3).node_id)
    × (number (contact 3).node_id ≤ number p.1.max_key)
    × Tiles
        (replicate 20 0)
        (number p.1.min_key)
        (insert_bucket node (contact 3) p.1)
        (number p.1.max_key + 1)
insert-finds_example =
    insert-finds (replicate 20 0) node empty_table (contact 3) empty-IsTable contact-IsKey
