-- ===== src/Dht/KBucketTable/Saved.antt =====
-- A table that is saved and loaded again, src/dht/kbuckettable.cpp.
use libktorrent_stream.Base.{
  ℕ, suc, ◌+◌, ◌≤◌, ◌≡◌, refl, sym, ap, subst, List, [], ◌∷◌, length, arith,
}
use libktorrent_stream.Dht.Key.{Key}
use libktorrent_stream.Dht.Key.Value.{number}
use libktorrent_stream.Dht.KBucket.{
  KBucketEntry, Node, KBucket, create, create_range, save, save_entries, load, load_entries,
}
use libktorrent_stream.Dht.KBucket.Bounds.{AllInRange, IsBucket}
use libktorrent_stream.Dht.KBucketTable.{save_buckets, load_buckets}
use libktorrent_stream.Dht.KBucketTable.Tiles.{Tiles}

load_entries-save_entries :
    (node : Node) (lo hi : ℕ) (es : List KBucketEntry)
    → AllInRange lo hi es
    → AllInRange lo hi (load_entries node (save_entries es))
      × (length (load_entries node (save_entries es)) ≡ length es)
unfolding load_entries save_entries
load_entries-save_entries node lo hi [] a = (tt, refl)
load_entries-save_entries node lo hi (e ∷ es) a =
    let (b, n) = load_entries-save_entries node lo hi es a.1 in ((a.0, b), ap suc n)

module _ (node : Node) (our_id id : Key) (own : id ≡ our_id) where
  load-save :
      (lo hi : ℕ) (b : KBucket)
      → IsBucket lo hi our_id b
      → IsBucket lo hi our_id (load node (create node id) (save b))
  unfolding load save create create_range
  load-save lo hi b v =
      let (a, n) = load_entries-save_entries node lo hi b.entries v.inside in
      record {
        low_key = v.low_key;
        high_key = v.high_key;
        own = own;
        sized = omega (arith, n, v.sized);
        inside = a;
        waiting = tt;
        pinged = tt;
      }

  same_max : (b : KBucket) → (load node (create node id) (save b)).max_key ≡ b.max_key
  unfolding load save
  same_max b = refl

  pub load_buckets-save_buckets :
      (lo end : ℕ) (bs : List KBucket)
      → Tiles our_id lo bs end
      → Tiles our_id lo (load_buckets node id (save_buckets bs)) end
  unfolding load_buckets save_buckets
  load_buckets-save_buckets lo end [] t = t
  load_buckets-save_buckets lo end (b ∷ bs) t =
      let rest = load_buckets-save_buckets (number b.max_key + 1) end bs t.2 in
      let e : number b.max_key ≡ number (load node (create node id) (save b)).max_key =
        ap number (sym (same_max b)) in
      subst
        (λ m.
          IsBucket lo m our_id (load node (create node id) (save b))
          × (lo ≤ m)
          × Tiles our_id (m + 1) (load_buckets node id (save_buckets bs)) end)
        e (load-save lo (number b.max_key) b t.0, t.1, rest)
