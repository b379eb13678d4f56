-- ===== src/Dht/KBucket.antt =====
-- src/dht/kbucketentry.cpp and src/dht/kbucket.cpp. An address is a number; the clock, and the server that
-- pings a node, are parameters. A call is the number that the server gives it. Of the refresh task the
-- bucket remembers whether it has one. A saved bucket is the content of its dictionary.
pub mod Bounds
pub mod Split
use libktorrent_stream.Base.{
  ℕ, zero, suc, ◌+◌, ◌-◌, ◌*◌, ◌%◌, ◌^◌, Bool, true, false, not, ◌&&◌, ◌||◌, Option, none, some,
  List, [], ◌∷◌, ◌++◌, ltb, leb, ◌==◌, if◌then◌else◌, length, find, put, erase,
}
use libktorrent_stream.Dht.Key.{
  Key, equals, less_or_equal, greater_or_equal, mid, min, max, add_value,
}

pub record KBucketEntry : Type 0 where
  pub addr : ℕ
  pub node_id : Key
  pub last_responded : ℕ
  pub failed_queries : ℕ
  pub questionable_pings : ℕ

-- What a call relies on: the time, and the call that the server makes for a ping to an address, if it does
pub record Node : Type 0 where
  pub now : ℕ
  pub do_call : ℕ → Option ℕ

-- `operator ==`
unfoldable pub same_entry : KBucketEntry → KBucketEntry → Bool
same_entry a b = (a.addr == b.addr) && equals a.node_id b.node_id

-- `isQuestionable`, which is the opposite of `isGood`
unfoldable pub is_questionable : Node → KBucketEntry → Bool
is_questionable node e = ltb (15 * 60 * 1000) ((node.now + 2 ^ 64 - e.last_responded) % 2 ^ 64)

unfoldable pub is_bad : Node → KBucketEntry → Bool
is_bad node e = is_questionable node e && (ltb 2 e.failed_queries || ltb 2 e.questionable_pings)

abbrev pub on_ping_questionable : KBucketEntry → KBucketEntry
on_ping_questionable e = record e { questionable_pings = (e.questionable_pings + 1) % 2 ^ 32 }

abbrev pub request_timeout : KBucketEntry → KBucketEntry
request_timeout e = record e { failed_queries = (e.failed_queries + 1) % 2 ^ 32 }

pub record KBucket : Type 0 where
  pub min_key : Key
  pub max_key : Key
  pub our_id : Key
  pub entries : List KBucketEntry
  pub pending_entries : List KBucketEntry
  pub busy_pinging : List (ℕ × KBucketEntry)
  pub last_modified : ℕ
  pub has_refresh_task : Bool

-- `dht::K`
abbrev pub bucket_size : ℕ
bucket_size = 20

-- The constructor with a range
unfoldable pub create_range : Node → Key → Key → Key → KBucket
create_range node min_key max_key our_id = record {
  min_key = min_key;
  max_key = max_key;
  our_id = our_id;
  entries = [];
  pending_entries = [];
  busy_pinging = [];
  last_modified = node.now;
  has_refresh_task = false;
}

-- The constructor without one
unfoldable pub create : Node → Key → KBucket
create node our_id = create_range node min max our_id

unfoldable pub key_in_range : KBucket → Key → Bool
key_in_range b k = less_or_equal b.min_key k && less_or_equal k b.max_key

unfoldable pub split_allowed : KBucket → Bool
split_allowed b =
    if not (key_in_range b b.our_id)
    then false
    else if greater_or_equal (add_value b.min_key bucket_size) b.max_key
    then false
    else true

-- The first entry with a property is taken out, where there is one.
unfoldable pub take_out : (KBucketEntry → Bool) → List KBucketEntry → Option (List KBucketEntry)
take_out test [] = none
take_out test (e ∷ es) =
    let rest : Option (List KBucketEntry) = elim (take_out test es) [
      | none ↦ none
      | some more ↦ some (e ∷ more)
    ] in
    if test e then some es else rest

-- An entry that is taken out, and another one at the end
abbrev pub replaced : Node → KBucket → KBucketEntry → List KBucketEntry → KBucket
replaced node b entry rest = record b { last_modified = node.now; entries = rest ++ (entry ∷ []) }

unfoldable pub replace_bad_entry : Node → KBucket → KBucketEntry → Option KBucket
replace_bad_entry node b entry = elim (take_out (is_bad node) b.entries) [
  | none ↦ none
  | some rest ↦ some (replaced node b entry rest)
]

-- The loop of `pingQuestionable`: the call that was made, and the entries with the node that was pinged
unfoldable pub ping_first : Node → List KBucketEntry → Option (ℕ × List KBucketEntry)
ping_first node [] = none
ping_first node (e ∷ es) =
    let rest : Option (ℕ × List KBucketEntry) = elim (ping_first node es) [
      | none ↦ none
      | some r ↦ some (r.0, e ∷ r.1)
    ] in
    if is_questionable node e
    then elim (node.do_call e.addr) [
      | none ↦ rest
      | some call ↦ some (call, on_ping_questionable e ∷ es)
    ]
    else rest

unfoldable pub ping_questionable : Node → KBucket → KBucketEntry → KBucket
ping_questionable node b replacement =
    if leb 2 (length b.busy_pinging)
    then record b { pending_entries = b.pending_entries ++ (replacement ∷ []) }
    else elim (ping_first node b.entries) [
      | none ↦ b
      | some r ↦ record b { entries = r.1; busy_pinging = put r.0 replacement b.busy_pinging }
    ]

-- `if (!replaceBadEntry(entry)) pingQuestionable(entry)`
unfoldable pub replace_or_ping : Node → KBucket → KBucketEntry → KBucket
replace_or_ping node b entry = elim (replace_bad_entry node b entry) [
  | none ↦ ping_questionable node b entry
  | some b' ↦ b'
]

-- `insert` of an entry that is not in the bucket
unfoldable pub insert_new : Node → KBucket → KBucketEntry → Bool × KBucket
insert_new node b entry =
    if ltb (length b.entries) bucket_size
    then (false, replaced node b entry b.entries)
    else elim (replace_bad_entry node b entry) [
      | some b' ↦ (false, b')
      | none ↦
          if (length b.entries == bucket_size) && split_allowed b
          then (true, b)
          else (false, ping_questionable node b entry)
    ]

-- `insert`: whether the bucket has to be split, and the bucket
unfoldable pub insert : Node → KBucket → KBucketEntry → Bool × KBucket
insert node b entry = elim (take_out (same_entry entry) b.entries) [
  | some rest ↦ (false, replaced node b entry rest)
  | none ↦ insert_new node b entry
]

-- `onResponse`
unfoldable pub on_response : Node → KBucket → ℕ → KBucket
on_response node b call =
    let b1 = record b { last_modified = node.now } in
    elim (find call b.busy_pinging) [
      | none ↦ b1
      | some entry ↦
          replace_or_ping node (record b1 { busy_pinging = erase call b.busy_pinging }) entry
    ]

-- The next pending entry, where fewer than two pings are under way
unfoldable pub next_pending : Node → KBucket → List KBucketEntry → KBucket
next_pending node b [] = b
next_pending node b (pe ∷ pending) =
    if ltb (length b.busy_pinging) 2
    then replace_or_ping node (record b { pending_entries = pending }) pe
    else b

-- The entry at an address is replaced.
unfoldable pub replace_at : Node → KBucket → ℕ → KBucketEntry → KBucket
replace_at node b origin entry = elim (take_out (λ e. e.addr == origin) b.entries) [
  | none ↦ b
  | some rest ↦ replaced node b entry rest
]

-- `onTimeout` of a call that was sent to an address
unfoldable pub on_call_timeout : Node → KBucket → ℕ → ℕ → KBucket
on_call_timeout node b call origin = elim (find call b.busy_pinging) [
  | none ↦ b
  | some entry ↦
      let b1 = replace_at node b origin entry in
      let b2 = record b1 { busy_pinging = erase call b1.busy_pinging } in
      next_pending node b2 b2.pending_entries
]

unfoldable pub contains : KBucket → KBucketEntry → Bool
contains b entry = elim (take_out (same_entry entry) b.entries) [ none ↦ false | some rest ↦ true ]

-- The loop of `onTimeout` of an address
unfoldable pub time_out : ℕ → List KBucketEntry → Bool × List KBucketEntry
time_out addr [] = (false, [])
time_out addr (e ∷ es) =
    let r = time_out addr es in
    if e.addr == addr then (true, request_timeout e ∷ es) else (r.0, e ∷ r.1)

unfoldable pub on_timeout : KBucket → ℕ → Bool × KBucket
on_timeout b addr = let r = time_out addr b.entries in (r.0, record b { entries = r.1 })

unfoldable pub needs_to_be_refreshed : Node → KBucket → Bool × KBucket
needs_to_be_refreshed node b =
    if ltb node.now b.last_modified then (false, record b { last_modified = node.now }) else (
      not b.has_refresh_task
          && ltb 0 (length b.entries)
          && ltb (15 * 60 * 1000) (node.now - b.last_modified),
      b,
    )

abbrev pub update_refresh_timer : Node → KBucket → KBucket
update_refresh_timer node b = record b { last_modified = node.now }

-- `setRefreshTask`, and `onFinished` of that task
abbrev pub set_refresh_task : KBucket → Bool → KBucket
set_refresh_task b task = record b { has_refresh_task = task }

-- What the dictionary of a saved bucket has: the members min and max, and the address and id of each entry
pub record SavedBucket : Type 0 where
  pub min_key : Key
  pub max_key : Key
  pub contacts : List (ℕ × Key)

unfoldable pub save_entries : List KBucketEntry → List (ℕ × Key)
save_entries [] = []
save_entries (e ∷ es) = (e.addr, e.node_id) ∷ save_entries es

unfoldable pub save : KBucket → SavedBucket
save b = record { min_key = b.min_key; max_key = b.max_key; contacts = save_entries b.entries }

-- The constructor of an entry
abbrev pub new_entry : Node → ℕ → Key → KBucketEntry
new_entry node addr id = record {
  addr = addr;
  node_id = id;
  last_responded = node.now;
  failed_queries = 0;
  questionable_pings = 0;
}

-- The loop of `load`
unfoldable pub load_entries : Node → List (ℕ × Key) → List KBucketEntry
load_entries node [] = []
load_entries node (c ∷ cs) = new_entry node c.0 c.1 ∷ load_entries node cs

unfoldable pub load : Node → KBucket → SavedBucket → KBucket
load node b saved = record b {
  min_key = saved.min_key;
  max_key = saved.max_key;
  entries = b.entries ++ load_entries node saved.contacts;
}

-- The loop of `split` that hands the entries to the two halves
unfoldable pub distribute : Node → List KBucketEntry → KBucket → KBucket → KBucket × KBucket
distribute node [] left right = (left, right)
distribute node (e ∷ es) left right =
    let to_left = distribute node es (insert node left e).1 right in
    let to_right = distribute node es left (insert node right e).1 in
    if key_in_range left e.node_id then to_left else to_right

-- `split`: none where it throws `UnableToSplit`
unfoldable pub split : Node → KBucket → Option (KBucket × KBucket)
split node b =
    let m = mid b.min_key b.max_key in
    if equals m b.min_key || equals (add_value m 1) b.max_key
    then none
    else some (
        distribute node b.entries (create_range node b.min_key m b.our_id)
          (create_range node (add_value m 1) b.max_key b.our_id))
