-- ===== src/Dht/KBucketTable/Tiles.antt =====
-- The buckets of a table cover the keys in order, without a gap and without an overlap, src/dht/kbuckettable.cpp.
use libktorrent_stream.Base.{
  ℕ, ◌+◌, ◌-◌, ◌^◌, ◌≤◌, ◌<◌, ◌≡◌, refl, sym, ap, subst, Bool, true, Bool-cases, inl, inr,
  Option-cases, some, List, [], ◌∷◌, ◌++◌, All-replicate, arith,
}
use libktorrent_stream.Dht.Key.{Key, min, max, mid}
use libktorrent_stream.Dht.Key.Value.{number, IsKey}
use libktorrent_stream.Dht.KBucket.{
  KBucketEntry, Node, KBucket, key_in_range, create, split, on_response, on_call_timeout,
  needs_to_be_refreshed, update_refresh_timer, set_refresh_task,
}
use libktorrent_stream.Dht.KBucket
use libktorrent_stream.Dht.KBucket.Bounds.{
  InRange, IsBucket, needs_to_be_refreshed-IsBucket, insert-IsBucket, on_timeout-IsBucket,
}
use libktorrent_stream.Dht.KBucket.Split.{
  key_in_range_lem, create_range-IsBucket, Splits, split-Splits,
}
use libktorrent_stream.Dht.KBucketTable.{
  Position, find_bucket, insert_halves, insert_bucket, refresh_buckets, on_timeout,
}

min-IsKey : IsKey min
unfolding min
min-IsKey = record { sized = refl; bytes = All-replicate (λ b. b < 256) 20 0 (omega arith) }

max-IsKey : IsKey max
unfolding max
max-IsKey = record { sized = refl; bytes = All-replicate (λ b. b < 256) 20 0xFF (omega arith) }

number-min : number min ≡ 0
unfolding number min
number-min = refl

number-max : number max ≡ 2 ^ 160 - 1
unfolding number max
number-max = refl

module _ (our_id : Key) where
  -- Buckets that cover the keys from one number up to another, which they leave out
  abbrev pub Tiles : ℕ → List KBucket → ℕ → Type 0
  Tiles lo [] end = lo ≡ end
  Tiles lo (b ∷ bs) end =
      IsBucket lo (number b.max_key) our_id b
      × (lo ≤ number b.max_key)
      × Tiles (number b.max_key + 1) bs end

  pub Tiles-append :
      (lo mid end : ℕ) (xs ys : List KBucket)
      → Tiles lo xs mid
      → Tiles mid ys end
      → Tiles lo (xs ++ ys) end
  Tiles-append lo mid end [] ys p q = subst (λ n. Tiles n ys end) (sym p) q
  Tiles-append lo mid end (x ∷ xs) ys p q =
      (p.0, p.1, Tiles-append (number x.max_key + 1) mid end xs ys p.2 q)

  Tiles_one :
      (lo hi : ℕ) (b : KBucket) → IsBucket lo hi our_id b → lo ≤ hi → Tiles lo (b ∷ []) (hi + 1)
  Tiles_one lo hi b v le =
      let e : number b.max_key ≡ hi = v.high_key.1 in
      (subst (λ n. IsBucket lo n our_id b) (sym e) v, omega arith, omega arith)

  Tiles_two :
      (lo m hi : ℕ) (b c : KBucket)
      → IsBucket lo m our_id b
      → IsBucket (m + 1) hi our_id c
      → lo ≤ m
      → m + 1 ≤ hi
      → Tiles lo (b ∷ c ∷ []) (hi + 1)
  Tiles_two lo m hi b c v w p q =
      Tiles-append lo (m + 1) (hi + 1) (b ∷ []) (c ∷ []) (Tiles_one lo m b v p)
        (Tiles_one (m + 1) hi c w q)

  -- Where a bucket was found
  pub record Found (lo end : ℕ) (id : Key) (p : Position) : Type 0 where
    pub start : ℕ
    pub before : Tiles lo p.0 start
    pub here : IsBucket start (number p.1.max_key) our_id p.1
    pub above : start ≤ number id
    pub below : number id ≤ number p.1.max_key
    pub after : Tiles (number p.1.max_key + 1) p.2 end

  -- A key in the range of the buckets has a bucket.
  pub find_bucket-Found :
      (lo end : ℕ) (id : Key) (bs : List KBucket)
      → IsKey id
      → Tiles lo bs end
      → lo ≤ number id
      → number id < end
      → (p : Position) × (find_bucket id bs ≡ some p)
        × Found lo end id p
        × (bs ≡ p.0 ++ (p.1 ∷ p.2))
  unfolding find_bucket
  find_bucket-Found lo end id [] k t le lt = absurd (omega arith)
  find_bucket-Found lo end id (b ∷ bs) k t le lt =
      let test = key_in_range_lem lo (number b.max_key) our_id b id t.0 k in
      elim (Bool-cases (key_in_range b id)) [
        | inl here ↦ (
          ([], b, bs),
          rw here refl,
          record {
            start = lo;
            before = refl;
            here = t.0;
            above = le;
            below = ground (arith, test, here);
            after = t.2;
          },
          refl,
        )
        | inr there ↦
            let (p, e, f, s) =
              find_bucket-Found (number b.max_key + 1) end id bs k t.2 (ground (arith, test, there))
                lt in
            (
              (b ∷ p.0, p.1, p.2),
              rw (there, e) refl,
              record {
                start = f.start;
                before = (t.0, t.1, f.before);
                here = f.here;
                above = f.above;
                below = f.below;
                after = f.after;
              },
              ap (λ r. b ∷ r) s,
            )
      ]

  insert_halves-Tiles :
      (lo hi : ℕ) (node : Node) (e : KBucketEntry) (halves : KBucket × KBucket)
      → Splits lo hi our_id halves
      → InRange lo hi e
      → Tiles lo (insert_halves node e halves) (hi + 1)
  unfolding insert_halves
  insert_halves-Tiles lo hi node e halves s r =
      let test = key_in_range_lem lo s.point our_id halves.0 e.node_id s.are_halves.0 r.0 in
      elim (Bool-cases (key_in_range halves.0 e.node_id)) [
        | inl here ↦ rw here (
            Tiles_two lo s.point hi _ _
              (insert-IsBucket lo s.point our_id node halves.0 e s.are_halves.0
                (r.0, r.1, ground (arith, test, here)))
              s.are_halves.1 s.above s.below)
        | inr there ↦ rw there (
            Tiles_two lo s.point hi _ _ s.are_halves.0
              (insert-IsBucket (s.point + 1) hi our_id node halves.1 e s.are_halves.1
                (r.0, ground (arith, test, there, r.1), r.2))
              s.above s.below)
      ]

  pub insert_bucket-Tiles :
      (lo hi : ℕ) (node : Node) (e : KBucketEntry) (b : KBucket)
      → IsBucket lo hi our_id b
      → lo ≤ hi
      → InRange lo hi e
      → Tiles lo (insert_bucket node e b) (hi + 1)
  unfolding insert_bucket
  insert_bucket-Tiles lo hi node e b v le r =
      let r1 = KBucket.insert node b e in
      let v1 = insert-IsBucket lo hi our_id node b e v r in
      elim (Bool-cases r1.0) [
        | inl full ↦ elim (Option-cases (split node r1.1)) [
          | inl unable ↦ rw (full, unable) (Tiles_one lo hi r1.1 v1 le)
          | inr (halves, splits) ↦
              rw (full, splits)
                (insert_halves-Tiles lo hi node e halves
                  (split-Splits lo hi our_id node r1.1 halves v1 le splits) r)
        ]
        | inr kept ↦ rw kept (Tiles_one lo hi r1.1 v1 le)
      ]

  Tiles-cons :
      (lo hi end : ℕ) (b : KBucket) (bs : List KBucket)
      → IsBucket lo hi our_id b
      → lo ≤ hi
      → Tiles (hi + 1) bs end
      → Tiles lo (b ∷ bs) end
  Tiles-cons lo hi end b bs v le t =
      Tiles-append lo (hi + 1) end (b ∷ []) bs (Tiles_one lo hi b v le) t

  pub Tiles-insert :
      (end : ℕ) (node : Node) (e : KBucketEntry) (p : Position)
      → IsKey e.node_id
      → Found 0 end e.node_id p
      → Tiles 0 (p.0 ++ (insert_bucket node e p.1 ++ p.2)) end
  Tiles-insert end node e p k f =
      Tiles-append 0 f.start end p.0 (insert_bucket node e p.1 ++ p.2) f.before (
        Tiles-append f.start (number p.1.max_key + 1) end (insert_bucket node e p.1) p.2
          (insert_bucket-Tiles f.start (number p.1.max_key) node e p.1 f.here
            (omega (arith, f.above, f.below)) (k, f.above, f.below))
          f.after)

  pub on_timeout-Tiles :
      (lo end addr : ℕ) (bs : List KBucket) → Tiles lo bs end → Tiles lo (on_timeout addr bs) end
  unfolding on_timeout
  on_timeout-Tiles lo end addr [] t = t
  on_timeout-Tiles lo end addr (b ∷ bs) t =
      let v = on_timeout-IsBucket lo (number b.max_key) our_id b addr t.0 in
      elim (Bool-cases (KBucket.on_timeout b addr).0) [
        | inl there ↦ rw there (Tiles-cons lo (number b.max_key) end _ bs v t.1 t.2)
        | inr later ↦ rw later (
            Tiles-cons lo (number b.max_key) end _ (on_timeout addr bs) v t.1
              (on_timeout-Tiles (number b.max_key + 1) end addr bs t.2))
      ]

  pub set_refresh_task-IsBucket :
      (lo hi : ℕ) (b : KBucket) (task : Bool)
      → IsBucket lo hi our_id b
      → IsBucket lo hi our_id (set_refresh_task b task)
  set_refresh_task-IsBucket lo hi b task v = record {
    low_key = v.low_key;
    high_key = v.high_key;
    own = v.own;
    sized = v.sized;
    inside = v.inside;
    waiting = v.waiting;
    pinged = v.pinged;
  }

  pub update_refresh_timer-IsBucket :
      (lo hi : ℕ) (b : KBucket) (node : Node)
      → IsBucket lo hi our_id b
      → IsBucket lo hi our_id (update_refresh_timer node b)
  update_refresh_timer-IsBucket lo hi b node v = record {
    low_key = v.low_key;
    high_key = v.high_key;
    own = v.own;
    sized = v.sized;
    inside = v.inside;
    waiting = v.waiting;
    pinged = v.pinged;
  }

  pub refresh_buckets-Tiles :
      (lo end : ℕ) (node : Node) (start : Key → Bool) (bs : List KBucket)
      → Tiles lo bs end
      → Tiles lo (refresh_buckets node start bs) end
  unfolding refresh_buckets
  refresh_buckets-Tiles lo end node start [] t = t
  refresh_buckets-Tiles lo end node start (b ∷ bs) t =
      let hi = number b.max_key in
      let r = needs_to_be_refreshed node b in
      let v = needs_to_be_refreshed-IsBucket lo hi our_id node b t.0 in
      let rest = refresh_buckets-Tiles (hi + 1) end node start bs t.2 in
      let as_it_is = Tiles-cons lo hi end r.1 (refresh_buckets node start bs) v t.1 rest in
      elim (Bool-cases r.0) [
        | inl due ↦ elim (Bool-cases (start (mid r.1.min_key r.1.max_key))) [
          | inl started ↦
              rw (due, started)
                (Tiles-cons lo hi end _ (refresh_buckets node start bs)
                  (set_refresh_task-IsBucket lo hi (update_refresh_timer node r.1) true
                    (update_refresh_timer-IsBucket lo hi r.1 node v))
                  t.1 rest)
          | inr not_started ↦ rw (due, not_started) as_it_is
        ]
        | inr recent ↦ rw recent as_it_is
      ]

  -- One bucket changes.
  pub Tiles-update :
      (lo end : ℕ) (before : List KBucket) (b b' : KBucket) (after : List KBucket)
      → ((l h : ℕ) → IsBucket l h our_id b → IsBucket l h our_id b')
      → Tiles lo (before ++ (b ∷ after)) end
      → Tiles lo (before ++ (b' ∷ after)) end
  Tiles-update lo end [] b b' after keep t =
      Tiles-cons lo (number b.max_key) end b' after (keep lo (number b.max_key) t.0) t.1 t.2
  Tiles-update lo end (x ∷ before) b b' after keep t =
      (t.0, t.1, Tiles-update (number x.max_key + 1) end before b b' after keep t.2)

  pub create-Tiles : (node : Node) → Tiles 0 (create node our_id ∷ []) (2 ^ 160)
  unfolding create
  create-Tiles node =
      let v =
        create_range-IsBucket node 0 (2 ^ 160 - 1) our_id min max our_id (min-IsKey, number-min)
          (max-IsKey, number-max) refl in
      subst (λ n. Tiles 0 (create node our_id ∷ []) n) (omega arith)
        (Tiles_one 0 (2 ^ 160 - 1) (create node our_id) v (omega arith))
