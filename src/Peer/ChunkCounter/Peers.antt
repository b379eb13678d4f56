-- ===== src/Peer/ChunkCounter/Peers.antt =====
-- The counter as the number of peers that have each chunk.
use libktorrent_stream.Base.{
  ℕ, suc, ◌+◌, ◌-◌, ◌^◌, ◌≤◌, ◌<◌, ◌≡◌, ap, ◌∙◌, true, false, ◌&&◌, List, [], ◌∷◌, length, ltb,
  if◌then◌else◌, get_or, set as set_elem, get_or-set, length-set, length-replicate,
  get_or-replicate, for_up_inv, arith, Bool-cases, inl, inr,
}
use libktorrent_stream.Util.BitSet as BitSet
use libktorrent_stream.Util.BitSet.{BitSet, increased}
use libktorrent_stream.Util.BitSet.Counted as Counted
use libktorrent_stream.Util.BitSet.Counted.{get-set}
use libktorrent_stream.Peer.ChunkCounter.{
  ChunkCounter, create, get, count_one, inc, dec, inc_bit_set, dec_bit_set,
}

-- How many of the sets have the chunk
unfoldable pub holders : List BitSet → ℕ → ℕ
holders [] i = 0
holders (bs ∷ sets) i = (if BitSet.get bs i then 1 else 0) + holders sets i

pub holders-le : (sets : List BitSet) (i : ℕ) → holders sets i ≤ length sets
unfolding holders
holders-le [] i = omega arith
holders-le (bs ∷ sets) i = ground (arith, holders-le sets i)

-- The counter agrees with the chunks that the peers have.
pub record Counts (n : ℕ) (sets : List BitSet) (c : ChunkCounter) : Type 0 where
  pub sized : length c.cnt ≡ n
  pub exact : (i : ℕ) → i < n → get_or c.cnt i 0 ≡ holders sets i
  pub few : length sets < 2 ^ 32

-- A loop that has reached `k`: below it the counts are those of `after`, from it on of `before`.
record Reached (n : ℕ) (before after : ℕ → ℕ) (k : ℕ) (c : ChunkCounter) : Type 0 where
  sized : length c.cnt ≡ n
  exact : (i : ℕ) → i < n → get_or c.cnt i 0 ≡ (if ltb i k then after i else before i)

-- A round that stores `v` at its index, and one that leaves the counter alone
store_round :
    (n : ℕ) (before after : ℕ → ℕ) (k v : ℕ) (t : ChunkCounter)
    → k < n
    → v ≡ after k
    → Reached n before after k t
    → Reached n before after (k + 1) (record { cnt = set_elem t.cnt k v })
store_round n before after k v t lt e r = record {
  sized = length-set t.cnt k v ∙ r.sized;
  exact = λ i below.
      ground
        (arith, get_or-set t.cnt k i v 0, r.sized, r.exact i below, e, ap after {x = i} {y = k});
}

keep_round :
    (n : ℕ) (before after : ℕ → ℕ) (k : ℕ) (t : ChunkCounter)
    → before k ≡ after k
    → Reached n before after k t
    → Reached n before after (k + 1) t
keep_round n before after k t e r = record {
  sized = r.sized;
  exact = λ i below.
      ground (arith, r.exact i below, e, ap before {x = i} {y = k}, ap after {x = i} {y = k});
}

-- The counter starts at no peers.
pub create-Counts : (n : ℕ) → Counts n [] (create n)
unfolding create holders
create-Counts n = record {
  sized = length-replicate n 0;
  exact = λ i lt. ground (arith, get_or-replicate {A = ℕ} n i 0 0);
  few = omega arith;
}

-- A peer that comes with a bit set is counted for each of its chunks.
pub inc_bit_set-Counts :
    (n : ℕ) (sets : List BitSet) (c : ChunkCounter) (bs : BitSet)
    → Counts n sets c
    → suc (length sets) < 2 ^ 32
    → Counts n (bs ∷ sets) (inc_bit_set c bs)
unfolding inc_bit_set holders
inc_bit_set-Counts n sets c bs h few =
    let r =
      for_up_inv (Reached n (holders sets) (holders (bs ∷ sets)))
        (λ i t. if BitSet.get bs i then count_one t i else t) (length c.cnt) 0 n c
        (omega (arith, h.sized)) round
        (record { sized = h.sized; exact = λ i lt. ground (arith, h.exact i lt) }) in
    record { sized = r.sized; exact = λ i lt. ground (arith, r.exact i lt); few = few }
  where
    round :
        (k : ℕ) (t : ChunkCounter)
        → 0 ≤ k
        → k < n
        → Reached n (holders sets) (holders (bs ∷ sets)) k t
        → Reached n
            (holders sets)
            (holders (bs ∷ sets))
            (k + 1)
            (if BitSet.get bs k then count_one t k else t)
    round k t _ lt r = elim (Bool-cases (BitSet.get bs k)) [
      | inl on ↦
          rw on (store_round n _ _ k _ t lt (ground (arith, r.exact k lt, holders-le sets k)) r)
      | inr off ↦ rw off (keep_round n _ _ k t (ground arith) r)
    ]

-- What `decBitSet` takes off: one for each chunk of the set, where there is one.
pub get_or-dec_bit_set :
    (n : ℕ) (c : ChunkCounter) (bs : BitSet)
    → length c.cnt ≡ n
    → (length (dec_bit_set c bs).cnt ≡ n)
      × ((i : ℕ)
          → i < n
          → get_or (dec_bit_set c bs).cnt i 0
            ≡ get_or c.cnt i 0 - (if BitSet.get bs i then 1 else 0))
unfolding dec_bit_set dec
get_or-dec_bit_set n c bs sized =
    let r =
      for_up_inv (Reached n (λ i. get_or c.cnt i 0) left)
        (λ i t. if BitSet.get bs i then dec t i else t) (length c.cnt) 0 n c (omega (arith, sized))
        round (record { sized = sized; exact = λ i lt. ground arith }) in
    (r.sized, λ i lt. ground (arith, r.exact i lt))
  where
    left : ℕ → ℕ
    left i = get_or c.cnt i 0 - (if BitSet.get bs i then 1 else 0)

    round :
        (k : ℕ) (t : ChunkCounter)
        → 0 ≤ k
        → k < n
        → Reached n (λ i. get_or c.cnt i 0) left k t
        → Reached n (λ i. get_or c.cnt i 0) left (k + 1) (if BitSet.get bs k then dec t k else t)
    round k t _ lt r = elim (Bool-cases (BitSet.get bs k)) [
      | inl on ↦ elim (Bool-cases (ltb k (length t.cnt) && ltb 0 (get_or t.cnt k 0))) [
        | inl more ↦ rw (on, more) (store_round n _ left k _ t lt (ground (arith, r.exact k lt)) r)
        | inr none_left ↦
            rw (on, none_left) (keep_round n _ left k t (ground (arith, r.sized, r.exact k lt)) r)
      ]
      | inr off ↦ rw off (keep_round n _ left k t (ground arith) r)
    ]

-- A peer that leaves is no longer counted for any of its chunks.
pub dec_bit_set-Counts :
    (n : ℕ) (sets : List BitSet) (c : ChunkCounter) (bs : BitSet)
    → Counts n (bs ∷ sets) c
    → Counts n sets (dec_bit_set c bs)
unfolding holders
dec_bit_set-Counts n sets c bs h =
    let (sized, taken) = get_or-dec_bit_set n c bs h.sized in
    record {
      sized = sized;
      exact = λ i lt. ground (arith, taken i lt, h.exact i lt);
      few = omega (arith, h.few);
    }

-- A peer that gets one more chunk is counted for it.
pub inc-Counts :
    (n : ℕ) (sets : List BitSet) (c : ChunkCounter) (bs : BitSet) (i : ℕ)
    → Counted.IsValid bs
    → bs.num_bits ≡ n
    → i < n
    → BitSet.get bs i ≡ false
    → Counts n (bs ∷ sets) c
    → Counts n (BitSet.set bs i true ∷ sets) (inc c i)
unfolding inc holders
inc-Counts n sets c bs i v same lt off h =
    let inside : ltb i (length c.cnt) ≡ true = ground (arith, h.sized) in
    rw inside (record {
      sized = length-set c.cnt i _ ∙ h.sized;
      exact = λ j below. ground (
        arith,
        get_or-set c.cnt i j (increased (get_or c.cnt i 0)) 0,
        h.sized,
        h.exact j below,
        get-set bs i j true v,
        holders-le sets j,
        h.few,
      );
      few = h.few;
    })

pub get-Counts :
    (n : ℕ) (sets : List BitSet) (c : ChunkCounter) (i : ℕ)
    → Counts n sets c
    → get c i ≡ (if ltb i n then holders sets i else 0)
unfolding get
get-Counts n sets c i h = ground (arith, h.sized, h.exact i)

pub get_or-inc :
    (c : ChunkCounter) (i : ℕ)
    → i < length c.cnt
    → (get_or (inc c i).cnt i 0 ≡ increased (get_or c.cnt i 0))
      × (length (inc c i).cnt ≡ length c.cnt)
unfolding inc
get_or-inc c i lt = ground (
  arith,
  get_or-set c.cnt i i (increased (get_or c.cnt i 0)) 0,
  length-set c.cnt i (increased (get_or c.cnt i 0)),
)

pub get-get_or : (c : ChunkCounter) (i : ℕ) → i < length c.cnt → get c i ≡ get_or c.cnt i 0
unfolding get
get-get_or c i lt = ground arith
