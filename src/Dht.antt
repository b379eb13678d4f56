-- ===== src/Dht.antt =====
-- The distributed hash table, src/dht.
pub mod Key
pub mod KBucket
pub mod KBucketTable
