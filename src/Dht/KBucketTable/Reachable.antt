-- ===== src/Dht/KBucketTable/Reachable.antt =====
-- What holds of a table after any calls, src/dht/kbuckettable.cpp.
use libktorrent_stream.Base.{
  ℕ, ◌+◌, ◌^◌, ◌≤◌, ◌≡◌, refl, sym, ◌∙◌, ap, subst, Bool, false, inl, inr, ◌⊎◌, some, List, [], ◌∷◌,
  ◌++◌, arith,
}
use libktorrent_stream.Dht.Key.{Key}
use libktorrent_stream.Dht.Key.Value.{number, IsKey}
use libktorrent_stream.Dht.Key.Arithmetic.{number-lt_key}
use libktorrent_stream.Dht.KBucket.{
  KBucketEntry, Node, KBucket, create, on_response, on_call_timeout, set_refresh_task,
  update_refresh_timer,
}
use libktorrent_stream.Dht.KBucket.Bounds.{IsBucket, on_response-IsBucket, on_call_timeout-IsBucket}
use libktorrent_stream.Dht.KBucketTable.{
  KBucketTable, Position, find_bucket, with_initial, insert_bucket, insert, refresh_buckets,
  on_timeout, save_buckets, load_buckets, load_table,
}
use libktorrent_stream.Dht.KBucketTable.Saved.{load_buckets-save_buckets}
use libktorrent_stream.Dht.KBucketTable.Tiles.{
  Tiles, find_bucket-Found, insert_bucket-Tiles, Tiles-insert, on_timeout-Tiles,
  refresh_buckets-Tiles, Tiles-update, create-Tiles, set_refresh_task-IsBucket,
  update_refresh_timer-IsBucket,
}

module _ (our_id : Key) where
  -- The table after any calls. It is loaded at the start, before it has a bucket, from what a table of the same node
  -- has saved.
  pub data Reach : KBucketTable → Type 0 where
    made : (t : KBucketTable) → t.our_id ≡ our_id → t.buckets ≡ [] → Reach t
    inserted :
        (t : KBucketTable) (node : Node) (e : KBucketEntry)
        → Reach t
        → IsKey e.node_id
        → Reach (insert node t e)
    timed_out :
        (t : KBucketTable) (addr : ℕ)
        → Reach t
        → Reach (record t { buckets = on_timeout addr t.buckets })
    refreshed :
        (t : KBucketTable) (node : Node) (start : Key → Bool)
        → Reach t
        → Reach (record t { buckets = refresh_buckets node start t.buckets })
    answered :
        (t : KBucketTable) (before after : List KBucket) (b : KBucket) (node : Node) (call : ℕ)
        → Reach t
        → t.buckets ≡ before ++ (b ∷ after)
        → Reach (record t { buckets = before ++ (on_response node b call ∷ after) })
    call_timed_out :
        (t : KBucketTable) (before after : List KBucket) (b : KBucket) (node : Node)
        (call origin : ℕ)
        → Reach t
        → t.buckets ≡ before ++ (b ∷ after)
        → Reach (record t { buckets = before ++ (on_call_timeout node b call origin ∷ after) })
    loaded :
        (t u : KBucketTable) (node : Node)
        → Reach t
        → t.buckets ≡ []
        → Reach u
        → Reach (load_table node t (save_buckets u.buckets))
    timer_updated :
        (t : KBucketTable) (before after : List KBucket) (b : KBucket) (node : Node)
        → Reach t
        → t.buckets ≡ before ++ (b ∷ after)
        → Reach (record t { buckets = before ++ (update_refresh_timer node b ∷ after) })
    refresh_ended :
        (t : KBucketTable) (before after : List KBucket) (b : KBucket)
        → Reach t
        → t.buckets ≡ before ++ (b ∷ after)
        → Reach (record t { buckets = before ++ (set_refresh_task b false ∷ after) })

  -- A table of a node: it has no bucket, or the buckets cover all keys.
  pub record IsTable (t : KBucketTable) : Type 0 where
    pub own : t.our_id ≡ our_id
    pub covers : (t.buckets ≡ []) ⊎ Tiles our_id 0 t.buckets (2 ^ 160)

  empty_or :
      (bs : List KBucket) → (bs ≡ []) ⊎ ((b : KBucket) × (rest : List KBucket) × (bs ≡ b ∷ rest))
  empty_or [] = inl refl
  empty_or (b ∷ rest) = inr (b, rest, refl)

  with_initial-Tiles :
      (node : Node) (t : KBucketTable) → IsTable t → Tiles our_id 0 (with_initial node t) (2 ^ 160)
  unfolding with_initial
  with_initial-Tiles node t k = elim (empty_or t.buckets) [
    | inl empty ↦ rw empty (
        subst (λ id. Tiles our_id 0 (create node id ∷ []) (2 ^ 160)) (sym k.own)
          (create-Tiles our_id node))
    | inr (b, rest, e) ↦ rw e (elim k.covers [
      | inl empty ↦ absurd (cc (e, empty))
      | inr t ↦ subst (λ bs. Tiles our_id 0 bs (2 ^ 160)) e t
    ])
  ]

  -- In such a table every id has exactly the bucket that its range says: the search of `insert` finds it, and what
  -- takes the place of that bucket, whether it is split or not, covers the same range, the other buckets as they were.
  -- The log line "Unable to find bucket !" is never reached.
  pub insert-finds :
      (node : Node) (t : KBucketTable) (e : KBucketEntry)
      → IsTable t
      → IsKey e.node_id
      → (p : Position) × (find_bucket e.node_id (with_initial node t) ≡ some p)
        × (with_initial node t ≡ p.0 ++ (p.1 ∷ p.2))
        × (insert node t e ≡ record t { buckets = p.0 ++ (insert_bucket node e p.1 ++ p.2) })
        × (number p.1.min_key ≤ number e.node_id)
        × (number e.node_id ≤ number p.1.max_key)
        × Tiles our_id (number p.1.min_key) (insert_bucket node e p.1) (number p.1.max_key + 1)
  unfolding insert
  insert-finds node t e k p =
      let (q, f, w, s) =
        find_bucket-Found our_id 0 (2 ^ 160) e.node_id (with_initial node t) p
          (with_initial-Tiles node t k) (omega arith) (number-lt_key e.node_id p) in
      let low : number q.1.min_key ≡ w.start = w.here.low_key.1 in
      (
        q,
        f,
        s,
        rw (f, insert) refl,
        omega (arith, w.above),
        w.below,
        subst (λ n. Tiles our_id n (insert_bucket node e q.1) (number q.1.max_key + 1)) (sym low)
            (insert_bucket-Tiles our_id w.start (number q.1.max_key) node e q.1 w.here
              (omega (arith, w.above, w.below)) (p, w.above, w.below)),
      )

  insert-Tiles :
      (node : Node) (t : KBucketTable) (e : KBucketEntry)
      → IsTable t
      → IsKey e.node_id
      → Tiles our_id 0 (insert node t e).buckets (2 ^ 160)
  unfolding insert
  insert-Tiles node t e k p =
      let (q, f, w, _) =
        find_bucket-Found our_id 0 (2 ^ 160) e.node_id (with_initial node t) p
          (with_initial-Tiles node t k) (omega arith) (number-lt_key e.node_id p) in
      rw (f, insert) (Tiles-insert our_id (2 ^ 160) node e q p w)

  insert-own :
      (node : Node) (t : KBucketTable) (e : KBucketEntry) → (insert node t e).our_id ≡ t.our_id
  unfolding insert
  insert-own node t e = ground arith

  update-IsTable :
      (t : KBucketTable) (before after : List KBucket) (b b' : KBucket)
      → IsTable t
      → t.buckets ≡ before ++ (b ∷ after)
      → ((l h : ℕ) → IsBucket l h our_id b → IsBucket l h our_id b')
      → IsTable (record t { buckets = before ++ (b' ∷ after) })
  update-IsTable t before after b b' k e keep = record {
    own = k.own;
    covers = inr (elim k.covers [
      | inl empty ↦ absurd (not_empty before b after (sym e ∙ empty))
      | inr tiles ↦
          Tiles-update our_id 0 (2 ^ 160) before b b' after keep
            (subst (λ bs. Tiles our_id 0 bs (2 ^ 160)) e tiles)
    ]);
  }
    where
      not_empty : (xs : List KBucket) (x : KBucket) (ys : List KBucket) → xs ++ (x ∷ ys) ≡ [] → ⊥
      not_empty [] x ys e = cc e
      not_empty (z ∷ xs) x ys e = cc e

  load_table-IsTable :
      (t u : KBucketTable) (node : Node)
      → IsTable t
      → t.buckets ≡ []
      → IsTable u
      → IsTable (load_table node t (save_buckets u.buckets))
  unfolding load_table load_buckets save_buckets
  load_table-IsTable t u node k e k' =
      let only : t.buckets ++ load_buckets node t.our_id (save_buckets u.buckets)
          ≡ load_buckets node t.our_id (save_buckets u.buckets) =
        ap (λ bs. bs ++ load_buckets node t.our_id (save_buckets u.buckets)) e in
      record {
        own = k.own;
        covers = elim k'.covers [
          | inl empty ↦ inl (only ∙ ap (λ bs. load_buckets node t.our_id (save_buckets bs)) empty)
          | inr tiles ↦ inr (
              subst (λ bs. Tiles our_id 0 bs (2 ^ 160)) (sym only)
                (load_buckets-save_buckets node our_id t.our_id k.own 0 (2 ^ 160) u.buckets tiles))
        ];
      }

  -- After any calls of the table and of its buckets, where a file that is loaded, at the start, is one that such a table
  -- has saved: the table has no bucket, or the ranges of its buckets follow one another from key 0 to the last key,
  -- without a gap and without an overlap; each has at most twenty entries; and the nodes that a bucket knows, those
  -- that wait and those that are to take the place of a pinged one too, have an id in its range. The ids that are
  -- inserted have 20 bytes.
  pub Reach-IsTable : (t : KBucketTable) → Reach t → IsTable t
  unfolding on_timeout refresh_buckets load_buckets load_table
  Reach-IsTable _ (made t own e) = record { own = own; covers = inl e }
  Reach-IsTable _ (inserted t node e r p) =
      let k = Reach-IsTable t r in
      record { own = insert-own node t e ∙ k.own; covers = inr (insert-Tiles node t e k p) }
  Reach-IsTable _ (timed_out t addr r) =
      let k = Reach-IsTable t r in
      record {
        own = k.own;
        covers = elim k.covers [
          | inl empty ↦ inl (ap (on_timeout addr) empty)
          | inr tiles ↦ inr (on_timeout-Tiles our_id 0 (2 ^ 160) addr t.buckets tiles)
        ];
      }
  Reach-IsTable _ (refreshed t node start r) =
      let k = Reach-IsTable t r in
      record {
        own = k.own;
        covers = elim k.covers [
          | inl empty ↦ inl (ap (refresh_buckets node start) empty)
          | inr tiles ↦ inr (refresh_buckets-Tiles our_id 0 (2 ^ 160) node start t.buckets tiles)
        ];
      }
  Reach-IsTable _ (answered t before after b node call r e) =
      update-IsTable t before after b (on_response node b call) (Reach-IsTable t r) e
        (λ l h v. on_response-IsBucket l h our_id node b call v)
  Reach-IsTable _ (call_timed_out t before after b node call origin r e) =
      update-IsTable t before after b (on_call_timeout node b call origin) (Reach-IsTable t r) e
        (λ l h v. on_call_timeout-IsBucket l h our_id node b call origin v)
  Reach-IsTable _ (loaded t u node r e r') =
      load_table-IsTable t u node (Reach-IsTable t r) e (Reach-IsTable u r')
  Reach-IsTable _ (timer_updated t before after b node r e) =
      update-IsTable t before after b (update_refresh_timer node b) (Reach-IsTable t r) e
        (λ l h v. update_refresh_timer-IsBucket our_id l h b node v)
  Reach-IsTable _ (refresh_ended t before after b r e) =
      update-IsTable t before after b (set_refresh_task b false) (Reach-IsTable t r) e
        (λ l h v. set_refresh_task-IsBucket our_id l h b false v)
