-- ===== src/Peer/ChunkCounter.antt =====
-- src/peer/chunkcounter.h and src/peer/chunkcounter.cpp: how many peers have each chunk. `Uint32`
-- counts wrap.
pub mod Peers
pub mod History
mod Tests
use libktorrent_stream.Base.{
  ℕ, zero, suc, ◌+◌, ◌-◌, Bool, true, false, ◌&&◌, List, length, ltb, if◌then◌else◌, get_or,
  set as set_elem, replicate, for_up,
}
use libktorrent_stream.Util.BitSet as BitSet
use libktorrent_stream.Util.BitSet.{BitSet, increased}

pub record ChunkCounter : Type 0 where
  pub cnt : List ℕ

pub create : ℕ → ChunkCounter
create num_chunks = record { cnt = replicate num_chunks 0 }

pub reset : ChunkCounter → ChunkCounter
reset c = record { cnt = replicate (length c.cnt) 0 }

pub get_num_chunks : ChunkCounter → ℕ
get_num_chunks c = length c.cnt

pub get : ChunkCounter → ℕ → ℕ
get c idx = if ltb idx (length c.cnt) then get_or c.cnt idx 0 else 0

-- `cnt[i]++`
abbrev pub count_one : ChunkCounter → ℕ → ChunkCounter
count_one c i = record { cnt = set_elem c.cnt i (increased (get_or c.cnt i 0)) }

pub inc : ChunkCounter → ℕ → ChunkCounter
inc c idx = if ltb idx (length c.cnt) then count_one c idx else c

pub dec : ChunkCounter → ℕ → ChunkCounter
dec c idx =
    if ltb idx (length c.cnt) && ltb 0 (get_or c.cnt idx 0)
    then record { cnt = set_elem c.cnt idx (get_or c.cnt idx 0 - 1) }
    else c

pub inc_bit_set : ChunkCounter → BitSet → ChunkCounter
inc_bit_set c bs = for_up (length c.cnt) 0 (λ i t. if BitSet.get bs i then count_one t i else t) c

pub dec_bit_set : ChunkCounter → BitSet → ChunkCounter
unfolding dec
dec_bit_set c bs = for_up (length c.cnt) 0 (λ i t. if BitSet.get bs i then dec t i else t) c
