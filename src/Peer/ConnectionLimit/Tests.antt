-- ===== src/Peer/ConnectionLimit/Tests.antt =====
-- Two torrents under a limit of two connections.
use libktorrent_stream.Base.{
  ℕ, ◌≤◌, ◌≡◌, refl, ◌⊎◌, ◌&&◌, ◌||◌, false, [], ◌∷◌, ltb, ◌==◌, if◌then◌else◌, find, put, arith,
}
use libktorrent_stream.Peer.ConnectionLimit.{
  ConnectionLimit, create, set_limits, grant, acquire, acquire_from, release,
}
use libktorrent_stream.Peer.ConnectionLimit.Safety.{
  Run, started, granted, released, held_by, without, Run-safe,
}

abbrev fresh : ConnectionLimit
fresh = set_limits 100 (create 100) 2 0

abbrev one : ConnectionLimit
one = (acquire fresh 7).1

abbrev two : ConnectionLimit
two = (acquire one 8).1

refused-run : (acquire two 7).0 ≡ false
unfolding acquire acquire_from grant set_limits create find put
refused-run = refl

abbrev after : ConnectionLimit
after = release two 7

run : Run 100 2 0 after (8 ∷ [])
unfolding acquire acquire_from grant set_limits create held_by without find put
run =
    released two (8 ∷ 7 ∷ []) 7
      (granted one two (7 ∷ []) 8 (granted fresh one [] 7 started refl) refl) (omega arith)

Run-safe_example :
    (1 ≤ 2)
    × (1 ≤ 100)
    × ((hash : ℕ) → (◌≡◌ {A = ℕ} 0 0) ⊎ (held_by hash (8 ∷ []) ≤ 0))
    × (after.global_total ≡ 1)
    × ((hash : ℕ)
        → (acquire after hash).0
          ≡ (ltb 1 (if ltb 100 2 then 100 else 2) && (0 == 0 || ltb (held_by hash (8 ∷ [])) 0)))
Run-safe_example = Run-safe 100 2 0 after (8 ∷ []) (omega arith) (omega arith) (omega arith) run
