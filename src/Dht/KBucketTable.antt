-- ===== src/Dht/KBucketTable.antt =====
-- src/dht/kbuckettable.cpp: the buckets in the order of their keys. An iterator is the bucket that it
-- points to between those before and those after; the lookup that refreshes a bucket is a parameter.
-- A file is the list of the dictionaries that it decodes to.
pub mod Tiles
pub mod Saved
pub mod Reachable
mod Tests
use libktorrent_stream.Base.{
  ℕ, ◌+◌, Bool, true, false, Option, none, some, List, [], ◌∷◌, ◌++◌, if◌then◌else◌, length,
}
use libktorrent_stream.Dht.Key.{Key, mid}
use libktorrent_stream.Dht.KBucket.{
  KBucketEntry, Node, KBucket, create, key_in_range, needs_to_be_refreshed, set_refresh_task,
  update_refresh_timer, split, SavedBucket, save, load,
}
use libktorrent_stream.Dht.KBucket

pub record KBucketTable : Type 0 where
  pub our_id : Key
  pub buckets : List KBucket

-- The buckets before an iterator, the bucket that it points to, and those after it
abbrev pub Position : Type 0
Position = List KBucket × KBucket × List KBucket

-- `findBucket`: none is the end.
unfoldable pub find_bucket : Key → List KBucket → Option Position
find_bucket id [] = none
find_bucket id (b ∷ bs) =
    let rest : Option Position = elim (find_bucket id bs) [
      | none ↦ none
      | some p ↦ some (b ∷ p.0, p.1, p.2)
    ] in
    if key_in_range b id then some ([], b, bs) else rest

-- The two halves that take the place of a bucket, with an entry that goes into one of them
unfoldable pub insert_halves : Node → KBucketEntry → KBucket × KBucket → List KBucket
insert_halves node entry halves =
    if key_in_range halves.0 entry.node_id
    then (KBucket.insert node halves.0 entry).1 ∷ halves.1 ∷ []
    else halves.0 ∷ (KBucket.insert node halves.1 entry).1 ∷ []

-- What takes the place of the bucket; where it cannot be split, the exception ends the insertion.
unfoldable pub insert_bucket : Node → KBucketEntry → KBucket → List KBucket
insert_bucket node entry b =
    let r = KBucket.insert node b entry in
    if r.0
    then elim (split node r.1) [ none ↦ r.1 ∷ [] | some halves ↦ insert_halves node entry halves ]
    else r.1 ∷ []

-- The first bucket, where there is none
unfoldable pub with_initial : Node → KBucketTable → List KBucket
with_initial node t = elim t.buckets [ [] ↦ create node t.our_id ∷ [] | b ∷ bs ↦ b ∷ bs ]

unfoldable pub insert : Node → KBucketTable → KBucketEntry → KBucketTable
insert node t entry =
    let buckets = with_initial node t in
    elim (find_bucket entry.node_id buckets) [
      | none ↦ record t { buckets = buckets }
      | some p ↦ record t { buckets = p.0 ++ (insert_bucket node entry p.1 ++ p.2) }
    ]

unfoldable pub num_entries : List KBucket → ℕ
num_entries [] = 0
num_entries (b ∷ bs) = length b.entries + num_entries bs

-- The loop of `refreshBuckets`, with what `DHT::refreshBucket` does to the bucket where it starts a lookup; `start` says whether a lookup of a key is started.
unfoldable pub refresh_buckets : Node → (Key → Bool) → List KBucket → List KBucket
refresh_buckets node start [] = []
refresh_buckets node start (b ∷ bs) =
    let r = needs_to_be_refreshed node b in
    let b' =
      if r.0
      then if start (mid r.1.min_key r.1.max_key)
        then set_refresh_task (update_refresh_timer node r.1) true
        else r.1
      else r.1 in
    b' ∷ refresh_buckets node start bs

-- The loop of `onTimeout`
unfoldable pub on_timeout : ℕ → List KBucket → List KBucket
on_timeout addr [] = []
on_timeout addr (b ∷ bs) =
    let r = KBucket.on_timeout b addr in
    let rest = on_timeout addr bs in if r.0 then r.1 ∷ bs else r.1 ∷ rest

-- The loop of `saveTable`
unfoldable pub save_buckets : List KBucket → List SavedBucket
save_buckets [] = []
save_buckets (b ∷ bs) = save b ∷ save_buckets bs

-- The loop of `loadTable`, with the dictionaries of the file
unfoldable pub load_buckets : Node → Key → List SavedBucket → List KBucket
load_buckets node our_id [] = []
load_buckets node our_id (saved ∷ rest) =
    load node (create node our_id) saved ∷ load_buckets node our_id rest

unfoldable pub load_table : Node → KBucketTable → List SavedBucket → KBucketTable
load_table node t file = record t { buckets = t.buckets ++ load_buckets node t.our_id file }
