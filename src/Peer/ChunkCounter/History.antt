-- ===== src/Peer/ChunkCounter/History.antt =====
-- Peers that come, get chunks and leave, in any order, and the count of a chunk that a peer announces
-- twice.
use libktorrent_stream.Base.{
  ℕ, suc, ◌^◌, ◌<◌, ◌≡◌, refl, sym, ◌∙◌, true, false, List, [], ◌∷◌, ◌++◌, length, length-append,
  arith,
}
use libktorrent_stream.Util.BitSet as BitSet
use libktorrent_stream.Util.BitSet.{BitSet}
use libktorrent_stream.Util.BitSet.Counted as Counted
use libktorrent_stream.Peer.ChunkCounter.{ChunkCounter, create, get, inc, inc_bit_set, dec_bit_set}
use libktorrent_stream.Peer.ChunkCounter.Peers.{
  holders, Counts, create-Counts, inc_bit_set-Counts, dec_bit_set-Counts, inc-Counts, get-Counts,
}

-- The bit sets of the peers and the counter after some events. A peer gets a chunk that it did not have.
pub data History (n : ℕ) : List BitSet → ChunkCounter → Type 0 where
  start : History n [] (create n)
  joins :
      {sets : List BitSet} {c : ChunkCounter} (bs : BitSet)
      → History n sets c
      → suc (length sets) < 2 ^ 32
      → History n (bs ∷ sets) (inc_bit_set c bs)
  leaves :
      {c : ChunkCounter} (xs ys : List BitSet) (bs : BitSet)
      → History n (xs ++ (bs ∷ ys)) c
      → History n (xs ++ ys) (dec_bit_set c bs)
  obtains :
      {c : ChunkCounter} (xs ys : List BitSet) (bs : BitSet) (i : ℕ)
      → History n (xs ++ (bs ∷ ys)) c
      → Counted.IsValid bs
      → bs.num_bits ≡ n
      → i < n
      → BitSet.get bs i ≡ false
      → History n (xs ++ (BitSet.set bs i true ∷ ys)) (inc c i)

holders-middle :
    (xs ys : List BitSet) (bs : BitSet) (i : ℕ)
    → holders (xs ++ (bs ∷ ys)) i ≡ holders (bs ∷ (xs ++ ys)) i
unfolding holders
holders-middle [] ys bs i = refl
holders-middle (x ∷ xs) ys bs i = ground (arith, holders-middle xs ys bs i)

-- The order of the peers does not matter to the counts.
Counts-front :
    (n : ℕ) (xs ys : List BitSet) (bs : BitSet) (c : ChunkCounter)
    → Counts n (xs ++ (bs ∷ ys)) c
    → Counts n (bs ∷ (xs ++ ys)) c
Counts-front n xs ys bs c h = record {
  sized = h.sized;
  exact = λ i lt. h.exact i lt ∙ holders-middle xs ys bs i;
  few = omega (arith, h.few, length-append xs (bs ∷ ys), length-append xs ys);
}

Counts-back :
    (n : ℕ) (xs ys : List BitSet) (bs : BitSet) (c : ChunkCounter)
    → Counts n (bs ∷ (xs ++ ys)) c
    → Counts n (xs ++ (bs ∷ ys)) c
Counts-back n xs ys bs c h = record {
  sized = h.sized;
  exact = λ i lt. h.exact i lt ∙ sym (holders-middle xs ys bs i);
  few = omega (arith, h.few, length-append xs (bs ∷ ys), length-append xs ys);
}

pub History-Counts :
    {n : ℕ} {sets : List BitSet} {c : ChunkCounter} → History n sets c → Counts n sets c
History-Counts {n} start = create-Counts n
History-Counts {n} (joins {sets} {c} bs h few) =
    inc_bit_set-Counts n sets c bs (History-Counts h) few
History-Counts {n} (leaves {c} xs ys bs h) =
    dec_bit_set-Counts n (xs ++ ys) c bs (Counts-front n xs ys bs c (History-Counts h))
History-Counts {n} (obtains {c} xs ys bs i h v same lt off) =
    Counts-back n xs ys (BitSet.set bs i true) (inc c i)
      (inc-Counts n (xs ++ ys) c bs i v same lt off (Counts-front n xs ys bs c (History-Counts h)))

-- After any history of peers that come, get chunks that they did not have, and leave in any order, the
-- counter gives for each chunk the number of peers that have it.
pub get-History :
    {n : ℕ} {sets : List BitSet} {c : ChunkCounter} (i : ℕ)
    → History n sets c
    → i < n
    → get c i ≡ holders sets i
get-History {n} {sets} {c} i h lt = ground (arith, get-Counts n sets c i (History-Counts h))
