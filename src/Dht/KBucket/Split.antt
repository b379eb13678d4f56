-- ===== src/Dht/KBucket/Split.antt =====
-- The two halves of a bucket, src/dht/kbucket.cpp.
use libktorrent_stream.Base.{
  ℕ, ◌+◌, ◌^◌, ◌≤◌, ◌<◌, ◌≡◌, refl, ◌∙◌, subst, ◌&&◌, ◌||◌, Bool-cases, inl, inr, some, List, [],
  ◌∷◌, ◌++◌, leb, All-replicate, replicate, arith, All-append,
}
use libktorrent_stream.Dht.Key.{Key, equals, mid, add_value}
use libktorrent_stream.Dht.Key.Value.{number, IsKey, comparison_lem}
use libktorrent_stream.Dht.Key.Arithmetic.{number-add, add-IsKey, number-lt_key}
use libktorrent_stream.Dht.Key.Midpoint.{number-mid}
use libktorrent_stream.Dht.KBucket.{
  KBucketEntry, Node, KBucket, create_range, key_in_range, distribute, split,
}
use libktorrent_stream.Dht.KBucket.Bounds.{AllInRange, IsBucket, insert-IsBucket}

one_key : Key
one_key = replicate 19 0 ++ (1 ∷ [])

one_key-IsKey : IsKey one_key
unfolding one_key
one_key-IsKey = record {
  sized = refl;
  bytes =
      All-append (λ b. b < 256) (replicate 19 0) (1 ∷ [])
        (All-replicate (λ b. b < 256) 19 0 (omega arith)) (omega arith, tt);
}

number-one_key : number one_key ≡ 1
unfolding one_key number
number-one_key = refl

pub add_value-IsKey : (k : Key) → IsKey k → IsKey (add_value k 1)
unfolding add_value one_key
add_value-IsKey k p = add-IsKey k one_key p one_key-IsKey

-- The key after another one
pub number-add_value :
    (k : Key) (hi : ℕ)
    → IsKey k
    → number k < hi
    → hi < 2 ^ 160
    → number (add_value k 1) ≡ number k + 1
unfolding add_value one_key
number-add_value k hi p below small =
    number-add k one_key p one_key-IsKey ∙ omega (arith, number-one_key)

pub key_in_range_lem :
    (lo hi : ℕ) (our_id : Key) (b : KBucket) (k : Key)
    → IsBucket lo hi our_id b
    → IsKey k
    → key_in_range b k ≡ (leb lo (number k) && leb (number k) hi)
unfolding key_in_range
key_in_range_lem lo hi our_id b k v p = ground (
  arith,
  v.low_key.1,
  v.high_key.1,
  (comparison_lem b.min_key k v.low_key.0 p).1,
  (comparison_lem k b.max_key p v.high_key.0).1,
)

pub create_range-IsBucket :
    (node : Node) (lo hi : ℕ) (our_id a b id : Key)
    → IsKey a × (number a ≡ lo)
    → IsKey b × (number b ≡ hi)
    → id ≡ our_id
    → IsBucket lo hi our_id (create_range node a b id)
unfolding create_range
create_range-IsBucket node lo hi our_id a b id p q e = record {
  low_key = p;
  high_key = q;
  own = e;
  sized = omega arith;
  inside = tt;
  waiting = tt;
  pinged = tt;
}

module _ (lo m hi : ℕ) (our_id : Key) where
  abbrev pub AreHalves : KBucket × KBucket → Type 0
  AreHalves halves = IsBucket lo m our_id halves.0 × IsBucket (m + 1) hi our_id halves.1

  pub distribute-AreHalves :
      (node : Node) (es : List KBucketEntry) (left right : KBucket)
      → AllInRange lo hi es
      → IsBucket lo m our_id left
      → IsBucket (m + 1) hi our_id right
      → AreHalves (distribute node es left right)
  unfolding distribute
  distribute-AreHalves node [] left right a p q = (p, q)
  distribute-AreHalves node (e ∷ es) left right a p q =
      let test = key_in_range_lem lo m our_id left e.node_id p a.0.0 in
      elim (Bool-cases (key_in_range left e.node_id)) [
        | inl here ↦ rw here (
            distribute-AreHalves node es _ right a.1
              (insert-IsBucket lo m our_id node left e p (a.0.0, a.0.1, ground (arith, test, here)))
              q)
        | inr there ↦ rw there (
            distribute-AreHalves node es left _ a.1 p (
              insert-IsBucket (m + 1) hi our_id node right e q
                (a.0.0, ground (arith, test, there, a.0.1), a.0.2)))
      ]

-- Where a bucket is split, at a key in its range
pub record Splits (lo hi : ℕ) (our_id : Key) (halves : KBucket × KBucket) : Type 0 where
  pub point : ℕ
  pub above : lo ≤ point
  pub below : point + 1 ≤ hi
  pub are_halves : AreHalves lo point hi our_id halves

pub split-Splits :
    (lo hi : ℕ) (our_id : Key) (node : Node) (b : KBucket) (halves : KBucket × KBucket)
    → IsBucket lo hi our_id b
    → lo ≤ hi
    → split node b ≡ some halves
    → Splits lo hi our_id halves
unfolding split
split-Splits lo hi our_id node b halves v le e =
    let m = mid b.min_key b.max_key in
    let middle = number-mid b.min_key b.max_key v.low_key.0 v.high_key.0 in
    let low = (comparison_lem m b.min_key middle.0 v.low_key.0).4 in
    elim (Bool-cases (equals m b.min_key || equals (add_value m 1) b.max_key)) [
      | inl never ↦ absurd (ground (arith, e, never))
      | inr splits ↦
          let small : hi < 2 ^ 160 =
            omega (arith, number-lt_key b.max_key v.high_key.0, v.high_key.1) in
          let inner : (lo ≤ number m) × (number m < hi) =
            ground (arith, low, splits, middle.1, v.low_key.1, v.high_key.1) in
          let next = number-add_value m hi middle.0 inner.1 small in
          let same =
            distribute node b.entries (create_range node b.min_key m b.our_id)
              (create_range node (add_value m 1) b.max_key b.our_id) in
          let eq : same ≡ halves = ground (arith, e, splits) in
          subst (Splits lo hi our_id) eq (record {
            point = number m;
            above = inner.0;
            below = omega (arith, inner.1);
            are_halves =
                distribute-AreHalves lo (number m) hi our_id node b.entries _ _ v.inside
                  (create_range-IsBucket node lo (number m) our_id b.min_key m b.our_id v.low_key
                    (middle.0, refl) v.own)
                  (create_range-IsBucket node (number m + 1) hi our_id (add_value m 1) b.max_key
                    b.our_id (add_value-IsKey m middle.0, next) v.high_key v.own);
          })
    ]
