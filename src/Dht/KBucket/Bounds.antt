-- ===== src/Dht/KBucket/Bounds.antt =====
-- What every operation of src/dht/kbucket.cpp keeps: a bucket has at most twenty entries, and all that it knows of
-- are in its range.
use libktorrent_stream.Base.{
  ℕ, suc, ◌+◌, ◌≤◌, ◌<◌, ◌≡◌, refl, ap, subst, Bool, ◌&&◌, Bool-cases, inl, inr, Option-cases, none,
  some, List, [], ◌∷◌, ltb, leb, ◌==◌, length, length-append, All, All-append, find, put, erase,
  arith,
}
use libktorrent_stream.Dht.Key.{Key}
use libktorrent_stream.Dht.Key.Value.{number, IsKey}
use libktorrent_stream.Dht.KBucket.{
  KBucketEntry, Node, KBucket, is_bad, is_questionable, same_entry, on_ping_questionable,
  bucket_size, take_out, replaced, replace_bad_entry, ping_first, ping_questionable,
  replace_or_ping, insert_new, insert, on_response, next_pending, replace_at, on_call_timeout,
  time_out, on_timeout, split_allowed, needs_to_be_refreshed,
}

-- The id of a node is a key between two numbers.
abbrev pub InRange : ℕ → ℕ → KBucketEntry → Type 0
InRange lo hi e = IsKey e.node_id × (lo ≤ number e.node_id) × (number e.node_id ≤ hi)

abbrev pub AllInRange : ℕ → ℕ → List KBucketEntry → Type 0
AllInRange lo hi es = All (InRange lo hi) es

abbrev pub PingsInRange : ℕ → ℕ → List (ℕ × KBucketEntry) → Type 0
PingsInRange lo hi pings = All (λ x. InRange lo hi x.1) pings

-- The bucket of a node with an id, from a number to a number
pub record IsBucket (lo hi : ℕ) (our_id : Key) (b : KBucket) : Type 0 where
  pub low_key : IsKey b.min_key × (number b.min_key ≡ lo)
  pub high_key : IsKey b.max_key × (number b.max_key ≡ hi)
  pub own : b.our_id ≡ our_id
  pub sized : length b.entries ≤ bucket_size
  pub inside : AllInRange lo hi b.entries
  pub waiting : AllInRange lo hi b.pending_entries
  pub pinged : PingsInRange lo hi b.busy_pinging

module _ (lo hi : ℕ) where
  -- What is left where an entry was taken out
  pub take_out-AllInRange :
      (test : KBucketEntry → Bool) (es rest : List KBucketEntry)
      → take_out test es ≡ some rest
      → AllInRange lo hi es
      → AllInRange lo hi rest × (length rest + 1 ≡ length es)
  unfolding take_out
  take_out-AllInRange test [] rest e a = absurd (cc e)
  take_out-AllInRange test (x ∷ es) rest e a = elim (Bool-cases (test x)) [
    | inl this ↦
        let same : es ≡ rest = ground (arith, e, this) in
        subst (λ r. AllInRange lo hi r × (length r + 1 ≡ suc (length es))) same (a.1, omega arith)
    | inr later ↦ elim (Option-cases (take_out test es)) [
      | inl never ↦ absurd (ground (arith, e, later, never))
      | inr (more, found) ↦
          let same : x ∷ more ≡ rest = ground (arith, e, later, found) in
          let (b, n) = take_out-AllInRange test es more found a.1 in
          subst (λ r. AllInRange lo hi r × (length r + 1 ≡ suc (length es))) same
            ((a.0, b), omega (arith, n))
    ]
  ]

  put-PingsInRange :
      (call : ℕ) (e : KBucketEntry) (pings : List (ℕ × KBucketEntry))
      → InRange lo hi e
      → PingsInRange lo hi pings
      → PingsInRange lo hi (put call e pings)
  unfolding put
  put-PingsInRange call e [] r a = (r, tt)
  put-PingsInRange call e (x ∷ pings) r a = ground (arith, put-PingsInRange call e pings r a.1)

  erase-PingsInRange :
      (call : ℕ) (pings : List (ℕ × KBucketEntry))
      → PingsInRange lo hi pings
      → PingsInRange lo hi (erase call pings)
  unfolding erase
  erase-PingsInRange call [] a = tt
  erase-PingsInRange call (x ∷ pings) a = ground (arith, erase-PingsInRange call pings a.1)

  find-InRange :
      (call : ℕ) (e : KBucketEntry) (pings : List (ℕ × KBucketEntry))
      → PingsInRange lo hi pings
      → find call pings ≡ some e
      → InRange lo hi e
  unfolding find
  find-InRange call e [] a f = absurd (cc f)
  find-InRange call e (x ∷ pings) a f = elim (Bool-cases (x.0 == call)) [
    | inl here ↦ let eq : x.1 ≡ e = ground (arith, f, here) in subst (InRange lo hi) eq a.0
    | inr there ↦ find-InRange call e pings a.1 (ground (arith, f, there))
  ]

  ping_first-AllInRange :
      (node : Node) (es : List KBucketEntry) (r : ℕ × List KBucketEntry)
      → ping_first node es ≡ some r
      → AllInRange lo hi es
      → AllInRange lo hi r.1 × (length r.1 ≡ length es)
  unfolding ping_first
  ping_first-AllInRange node [] r f a = absurd (cc f)
  ping_first-AllInRange node (x ∷ es) r f a =
      let later : elim (ping_first node es) [ none ↦ none | some q ↦ some (q.0, x ∷ q.1) ] ≡ some r
          → AllInRange lo hi r.1 × (length r.1 ≡ suc (length es)) =
        λ g. elim (Option-cases (ping_first node es)) [
          | inl never ↦ absurd (ground (arith, g, never))
          | inr (q, found) ↦
              let same : x ∷ q.1 ≡ r.1 = ground (arith, g, found) in
              let (b, n) = ping_first-AllInRange node es q found a.1 in
              subst (λ es'. AllInRange lo hi es' × (length es' ≡ suc (length es))) same
                ((a.0, b), ap suc n)
        ] in
      elim (Bool-cases (is_questionable node x)) [
        | inl questionable ↦ elim (Option-cases (node.do_call x.addr)) [
          | inl silent ↦ later (ground (arith, f, questionable, silent))
          | inr (call, made) ↦
              let same : on_ping_questionable x ∷ es ≡ r.1 =
                ground (arith, f, questionable, made) in
              subst (λ es'. AllInRange lo hi es' × (length es' ≡ suc (length es))) same (a, refl)
        ]
        | inr good ↦ later (ground (arith, f, good))
      ]

  time_out-AllInRange :
      (addr : ℕ) (es : List KBucketEntry)
      → AllInRange lo hi es
      → AllInRange lo hi (time_out addr es).1 × (length (time_out addr es).1 ≡ length es)
  unfolding time_out
  time_out-AllInRange addr [] a = (tt, refl)
  time_out-AllInRange addr (x ∷ es) a = elim (Bool-cases (x.addr == addr)) [
    | inl same ↦ rw same (a, refl)
    | inr other ↦ let (b, e) = time_out-AllInRange addr es a.1 in rw other ((a.0, b), ap suc e)
  ]

module _ (lo hi : ℕ) (our_id : Key) where
  replaced-IsBucket :
      (node : Node) (b : KBucket) (e : KBucketEntry) (rest : List KBucketEntry)
      → IsBucket lo hi our_id b
      → InRange lo hi e
      → AllInRange lo hi rest
      → length rest < bucket_size
      → IsBucket lo hi our_id (replaced node b e rest)
  replaced-IsBucket node b e rest k r a n = record {
    low_key = k.low_key;
    high_key = k.high_key;
    own = k.own;
    sized = omega (arith, length-append rest (e ∷ []));
    inside = All-append (InRange lo hi) rest (e ∷ []) a (r, tt);
    waiting = k.waiting;
    pinged = k.pinged;
  }

  replaced_one-IsBucket :
      (test : KBucketEntry → Bool) (node : Node) (b : KBucket) (e : KBucketEntry)
      (rest : List KBucketEntry)
      → take_out test b.entries ≡ some rest
      → IsBucket lo hi our_id b
      → InRange lo hi e
      → IsBucket lo hi our_id (replaced node b e rest)
  replaced_one-IsBucket test node b e rest found k r =
      let (a, n) = take_out-AllInRange lo hi test b.entries rest found k.inside in
      replaced-IsBucket node b e rest k r a (omega (arith, n, k.sized))

  ping_questionable-IsBucket :
      (node : Node) (b : KBucket) (e : KBucketEntry)
      → IsBucket lo hi our_id b
      → InRange lo hi e
      → IsBucket lo hi our_id (ping_questionable node b e)
  unfolding ping_questionable
  ping_questionable-IsBucket node b e k r = elim (Bool-cases (leb 2 (length b.busy_pinging))) [
    | inl busy ↦ rw busy (record {
      low_key = k.low_key;
      high_key = k.high_key;
      own = k.own;
      sized = k.sized;
      inside = k.inside;
      waiting = All-append (InRange lo hi) b.pending_entries (e ∷ []) k.waiting (r, tt);
      pinged = k.pinged;
    })
    | inr idle ↦ rw idle (elim (Option-cases (ping_first node b.entries)) [
      | inl nobody ↦ rw nobody k
      | inr (q, found) ↦
          let (a, n) = ping_first-AllInRange lo hi node b.entries q found k.inside in
          rw found (record {
            low_key = k.low_key;
            high_key = k.high_key;
            own = k.own;
            sized = omega (arith, n, k.sized);
            inside = a;
            waiting = k.waiting;
            pinged = put-PingsInRange lo hi q.0 e b.busy_pinging r k.pinged;
          })
    ])
  ]

  replace_or_ping-IsBucket :
      (node : Node) (b : KBucket) (e : KBucketEntry)
      → IsBucket lo hi our_id b
      → InRange lo hi e
      → IsBucket lo hi our_id (replace_or_ping node b e)
  unfolding replace_or_ping replace_bad_entry
  replace_or_ping-IsBucket node b e k r = elim (Option-cases (take_out (is_bad node) b.entries)) [
    | inl good ↦ rw (good, replace_or_ping) (ping_questionable-IsBucket node b e k r)
    | inr (rest, bad) ↦
        rw (bad, replace_or_ping) (replaced_one-IsBucket (is_bad node) node b e rest bad k r)
  ]

  insert_new-IsBucket :
      (node : Node) (b : KBucket) (e : KBucketEntry)
      → IsBucket lo hi our_id b
      → InRange lo hi e
      → IsBucket lo hi our_id (insert_new node b e).1
  unfolding insert_new replace_bad_entry
  insert_new-IsBucket node b e k r = elim (Bool-cases (ltb (length b.entries) bucket_size)) [
    | inl room ↦ rw room (replaced-IsBucket node b e b.entries k r k.inside (ground arith))
    | inr full ↦ rw full (elim (Option-cases (take_out (is_bad node) b.entries)) [
      | inl good ↦
          rw good (elim (Bool-cases ((length b.entries == bucket_size) && split_allowed b)) [
            | inl splits ↦ rw splits k
            | inr stays ↦ rw stays (ping_questionable-IsBucket node b e k r)
          ])
      | inr (rest, bad) ↦ rw bad (replaced_one-IsBucket (is_bad node) node b e rest bad k r)
    ])
  ]

  pub insert-IsBucket :
      (node : Node) (b : KBucket) (e : KBucketEntry)
      → IsBucket lo hi our_id b
      → InRange lo hi e
      → IsBucket lo hi our_id (insert node b e).1
  unfolding insert
  insert-IsBucket node b e k r = elim (Option-cases (take_out (same_entry e) b.entries)) [
    | inl new ↦ rw (new, insert) (insert_new-IsBucket node b e k r)
    | inr (rest, old) ↦
        rw (old, insert) (replaced_one-IsBucket (same_entry e) node b e rest old k r)
  ]

  pub on_response-IsBucket :
      (node : Node) (b : KBucket) (call : ℕ)
      → IsBucket lo hi our_id b
      → IsBucket lo hi our_id (on_response node b call)
  unfolding on_response
  on_response-IsBucket node b call k = elim (Option-cases (find call b.busy_pinging)) [
    | inl unknown ↦
        rw (unknown, on_response)
          (record {
            low_key = k.low_key;
            high_key = k.high_key;
            own = k.own;
            sized = k.sized;
            inside = k.inside;
            waiting = k.waiting;
            pinged = k.pinged;
          })
    | inr (e, found) ↦
        rw (found, on_response)
          (replace_or_ping-IsBucket node _ e
            (record {
              low_key = k.low_key;
              high_key = k.high_key;
              own = k.own;
              sized = k.sized;
              inside = k.inside;
              waiting = k.waiting;
              pinged = erase-PingsInRange lo hi call b.busy_pinging k.pinged;
            })
            (find-InRange lo hi call e b.busy_pinging k.pinged found))
  ]

  next_pending-IsBucket :
      (node : Node) (b : KBucket) (pending : List KBucketEntry)
      → IsBucket lo hi our_id b
      → AllInRange lo hi pending
      → IsBucket lo hi our_id (next_pending node b pending)
  unfolding next_pending
  next_pending-IsBucket node b [] k a = k
  next_pending-IsBucket node b (pe ∷ pending) k a =
      elim (Bool-cases (ltb (length b.busy_pinging) 2)) [
        | inl idle ↦ rw idle (
            replace_or_ping-IsBucket node _ pe
              (record {
                low_key = k.low_key;
                high_key = k.high_key;
                own = k.own;
                sized = k.sized;
                inside = k.inside;
                waiting = a.1;
                pinged = k.pinged;
              })
              a.0)
        | inr busy ↦ rw busy k
      ]

  replace_at-IsBucket :
      (node : Node) (b : KBucket) (origin : ℕ) (e : KBucketEntry)
      → IsBucket lo hi our_id b
      → InRange lo hi e
      → IsBucket lo hi our_id (replace_at node b origin e)
  unfolding replace_at
  replace_at-IsBucket node b origin e k r =
      elim (Option-cases (take_out (λ x. x.addr == origin) b.entries)) [
        | inl nobody ↦ rw (nobody, replace_at) k
        | inr (rest, found) ↦
            rw (found, replace_at)
              (replaced_one-IsBucket (λ x. x.addr == origin) node b e rest found k r)
      ]

  pub on_call_timeout-IsBucket :
      (node : Node) (b : KBucket) (call origin : ℕ)
      → IsBucket lo hi our_id b
      → IsBucket lo hi our_id (on_call_timeout node b call origin)
  unfolding on_call_timeout
  on_call_timeout-IsBucket node b call origin k = elim (Option-cases (find call b.busy_pinging)) [
    | inl unknown ↦ rw (unknown, on_call_timeout) k
    | inr (e, found) ↦
        let k1 =
          replace_at-IsBucket node b origin e k
            (find-InRange lo hi call e b.busy_pinging k.pinged found) in
        rw (found, on_call_timeout)
          (next_pending-IsBucket node _ _
            (record {
              low_key = k1.low_key;
              high_key = k1.high_key;
              own = k1.own;
              sized = k1.sized;
              inside = k1.inside;
              waiting = k1.waiting;
              pinged = erase-PingsInRange lo hi call _ k1.pinged;
            })
            k1.waiting)
  ]

  pub on_timeout-IsBucket :
      (b : KBucket) (addr : ℕ)
      → IsBucket lo hi our_id b
      → IsBucket lo hi our_id (on_timeout b addr).1
  unfolding on_timeout
  on_timeout-IsBucket b addr k =
      let (a, n) = time_out-AllInRange lo hi addr b.entries k.inside in
      record {
        low_key = k.low_key;
        high_key = k.high_key;
        own = k.own;
        sized = omega (arith, n, k.sized);
        inside = a;
        waiting = k.waiting;
        pinged = k.pinged;
      }

  pub needs_to_be_refreshed-IsBucket :
      (node : Node) (b : KBucket)
      → IsBucket lo hi our_id b
      → IsBucket lo hi our_id (needs_to_be_refreshed node b).1
  unfolding needs_to_be_refreshed
  needs_to_be_refreshed-IsBucket node b k = elim (Bool-cases (ltb node.now b.last_modified)) [
    | inl early ↦ rw early (record {
      low_key = k.low_key;
      high_key = k.high_key;
      own = k.own;
      sized = k.sized;
      inside = k.inside;
      waiting = k.waiting;
      pinged = k.pinged;
    })
    | inr late ↦ rw late k
  ]
