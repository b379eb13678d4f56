-- ===== src/Peer/ConnectionLimit/Safety.antt =====
-- The tokens that are out are counted exactly and never more than the limits, src/peer/connectionlimit.cpp.
use libktorrent_stream.Base.{
  ℕ, zero, suc, ◌+◌, ◌-◌, ◌%◌, ◌^◌, ◌≤◌, ◌<◌, ◌≡◌, refl, sym, ◌∙◌, ap, subst, true, false, not,
  ◌&&◌, ◌||◌, Bool-cases, inl, inr, ◌⊎◌, Option, none, some, List, [], ◌∷◌, ltb, leb, ◌==◌,
  if◌then◌else◌, length, find, put, erase, find-put, find-erase, arith,
}
use libktorrent_stream.Peer.ConnectionLimit.{
  ConnectionLimit, create, set_limits, grant, acquire_from, acquire, release_from, release,
}

-- How many of the tokens that are out are a torrent's
unfoldable pub held_by : ℕ → List ℕ → ℕ
held_by hash [] = 0
held_by hash (h ∷ held) = (if h == hash then 1 else 0) + held_by hash held

-- A token of a torrent is destroyed.
unfoldable pub without : ℕ → List ℕ → List ℕ
without hash [] = []
without hash (h ∷ held) = let rest = without hash held in if h == hash then held else h ∷ rest

-- The tokens that are out after any calls
pub data Run (system_limit global_limit torrent_limit : ℕ) : ConnectionLimit → List ℕ → Type 0 where
  started :
      Run system_limit global_limit torrent_limit
        (set_limits system_limit (create system_limit) global_limit torrent_limit)
        []
  granted :
      (c c' : ConnectionLimit) (held : List ℕ) (hash : ℕ)
      → Run system_limit global_limit torrent_limit c held
      → acquire c hash ≡ (true, c')
      → Run system_limit global_limit torrent_limit c' (hash ∷ held)
  refused :
      (c c' : ConnectionLimit) (held : List ℕ) (hash : ℕ)
      → Run system_limit global_limit torrent_limit c held
      → acquire c hash ≡ (false, c')
      → Run system_limit global_limit torrent_limit c' held
  released :
      (c : ConnectionLimit) (held : List ℕ) (hash : ℕ)
      → Run system_limit global_limit torrent_limit c held
      → 1 ≤ held_by hash held
      → Run system_limit global_limit torrent_limit (release c hash) (without hash held)

held_by-without :
    (j hash : ℕ) (held : List ℕ)
    → 1 ≤ held_by hash held
    → held_by j (without hash held) + (if hash == j then 1 else 0) ≡ held_by j held
unfolding held_by without
held_by-without j hash [] h = absurd (omega arith)
held_by-without j hash (k ∷ held) h = ground (arith, held_by-without j hash held)

length-without :
    (hash : ℕ) (held : List ℕ)
    → 1 ≤ held_by hash held
    → length (without hash held) + 1 ≡ length held
unfolding held_by without
length-without hash [] h = absurd (omega arith)
length-without hash (k ∷ held) h = ground (arith, length-without hash held)

held_by-le : (hash : ℕ) (held : List ℕ) → held_by hash held ≤ length held
unfolding held_by
held_by-le hash [] = omega arith
held_by-le hash (h ∷ held) = ground (arith, held_by-le hash held)

-- The entry of a torrent with so many tokens
abbrev entry : ℕ → Option ℕ
entry n = if n == 0 then none else some n

-- The counts are exact, and within the limits.
record Counts (limit torrent_limit : ℕ) (c : ConnectionLimit) (held : List ℕ) : Type 0 where
  limits : (c.global_limit ≡ limit) × (c.torrent_limit ≡ torrent_limit)
  total : c.global_total ≡ length held
  each : (hash : ℕ) → find hash c.torrent_totals ≡ entry (held_by hash held)
  global : length held ≤ limit
  local : (hash : ℕ) → (torrent_limit ≡ 0) ⊎ (held_by hash held ≤ torrent_limit)

put_entry :
    (held : List ℕ) (hash j : ℕ) (o : Option ℕ)
    → o ≡ entry (held_by j held)
    → held_by hash held + 1 < 2 ^ 32
    → (if hash == j then some ((held_by hash held + 1) % 2 ^ 32) else o)
      ≡ entry (held_by j (hash ∷ held))
unfolding held_by
put_entry held hash j o e small = elim (Bool-cases (hash == j)) [
  | inl same ↦
      let eq : held_by hash held ≡ held_by j held =
        ap (λ h. held_by h held) (ground (arith, same)) in
      ground (arith, same, eq, small)
  | inr other ↦ rw other (e ∙ ground arith)
]

less_entry :
    (held : List ℕ) (hash j : ℕ) (m : List (ℕ × ℕ))
    → find j m ≡ entry (held_by j held)
    → 1 ≤ held_by hash held
    → find j
        (if held_by hash held - 1 == 0 then erase hash m else put hash (held_by hash held - 1) m)
      ≡ entry (held_by j (without hash held))
less_entry held hash j m e some_held =
    let cong : hash ≡ j → held_by hash held ≡ held_by j held = λ eq. ap (λ h. held_by h held) eq in
    ground (
      arith,
      e,
      some_held,
      cong,
      held_by-without j hash held some_held,
      find-erase j hash m,
      find-put j hash (held_by hash held - 1) m,
    )

put_local :
    (held : List ℕ) (hash j torrent_limit : ℕ)
    → ((torrent_limit ≡ 0) ⊎ (held_by hash held + 1 ≤ torrent_limit))
    → ((torrent_limit ≡ 0) ⊎ (held_by j held ≤ torrent_limit))
    → (torrent_limit ≡ 0) ⊎ (held_by j (hash ∷ held) ≤ torrent_limit)
unfolding held_by
put_local held hash j torrent_limit within before = elim (Bool-cases (hash == j)) [
  | inl same ↦
      let eq : held_by hash held ≡ held_by j held =
        ap (λ h. held_by h held) (ground (arith, same)) in
      ground (arith, within, same, eq)
  | inr other ↦ ground (arith, before, other)
]

module _ (limit torrent_limit : ℕ) (some_limit : 0 < limit) (small : limit < 2 ^ 32) where
  -- What `acquire` does: nothing at a limit, and else it grants one token more.
  Grants : ConnectionLimit → List ℕ → ℕ → Type 0
  Grants c held hash =
      (length held < limit)
      × ((torrent_limit ≡ 0) ⊎ (held_by hash held + 1 ≤ torrent_limit))
      × (acquire c hash ≡ grant c hash (held_by hash held + 1))

  acquire_from_lem :
      (c : ConnectionLimit) (hash n : ℕ)
      → c.torrent_limit ≡ torrent_limit
      → (acquire_from c hash (entry n) ≡ (false, c))
        ⊎ (((torrent_limit ≡ 0) ⊎ (n + 1 ≤ torrent_limit))
            × (acquire_from c hash (entry n) ≡ grant c hash (n + 1)))
  unfolding acquire_from
  acquire_from_lem c hash zero e = elim (Bool-cases (torrent_limit == 0)) [
    | inl unlimited ↦ inr (inl (ground (arith, unlimited)), ap (grant c hash) (omega arith))
    | inr limited ↦ inr (inr (ground (arith, limited)), ap (grant c hash) (omega arith))
  ]
  acquire_from_lem c hash (suc n) e = elim (Bool-cases (torrent_limit == 0)) [
    | inl unlimited ↦ inr (inl (ground (arith, unlimited)), ground (arith, e, unlimited))
    | inr limited ↦ elim (Bool-cases (ltb (suc n) torrent_limit)) [
      | inl room ↦ inr (inr (ground (arith, room)), ground (arith, e, room))
      | inr none_left ↦ inl (ground (arith, e, limited, none_left))
    ]
  ]

  acquire_cases :
      (c : ConnectionLimit) (held : List ℕ) (hash : ℕ)
      → Counts limit torrent_limit c held
      → (acquire c hash ≡ (false, c)) ⊎ Grants c held hash
  unfolding acquire Grants
  acquire_cases c held hash k = elim (Bool-cases (leb limit (length held))) [
    | inl full ↦ inl (
        let test : (not (c.global_limit == 0) && leb c.global_limit c.global_total) ≡ true =
          ground (arith, k.limits.0, k.total, full, some_limit) in
        rw test refl)
    | inr room ↦
        let test : (not (c.global_limit == 0) && leb c.global_limit c.global_total) ≡ false =
          ground (arith, k.limits.0, k.total, room) in
        rw (test, k.each hash)
          (elim (acquire_from_lem c hash (held_by hash held) k.limits.1) [
            | inl refuses ↦ inl refuses
            | inr grants ↦ inr (ground (arith, room), grants.0, grants.1)
          ])
  ]

  grant-Counts :
      (c : ConnectionLimit) (held : List ℕ) (hash : ℕ)
      → Counts limit torrent_limit c held
      → length held < limit
      → ((torrent_limit ≡ 0) ⊎ (held_by hash held + 1 ≤ torrent_limit))
      → Counts limit torrent_limit (grant c hash (held_by hash held + 1)).1 (hash ∷ held)
  unfolding grant held_by
  grant-Counts c held hash k room within = record {
    limits = k.limits;
    total = omega (arith, k.total, room, small);
    each = λ j.
        find-put j hash _ c.torrent_totals
        ∙ put_entry held hash j (find j c.torrent_totals) (k.each j)
            (omega (arith, held_by-le hash held, room, small));
    global = omega arith;
    local = λ j. put_local held hash j torrent_limit within (k.local j);
  }

  release-Counts :
      (c : ConnectionLimit) (held : List ℕ) (hash : ℕ)
      → Counts limit torrent_limit c held
      → 1 ≤ held_by hash held
      → Counts limit torrent_limit (release c hash) (without hash held)
  unfolding release release_from
  release-Counts c held hash k some_held =
      let there : find hash c.torrent_totals ≡ some (held_by hash held) =
        ground (arith, k.each hash, some_held) in
      rw there (record {
        limits = k.limits;
        total = omega (arith, k.total, length-without hash held some_held);
        each = λ j. less_entry held hash j c.torrent_totals (k.each j) some_held;
        global = omega (arith, k.global, length-without hash held some_held);
        local = λ j. ground (arith, k.local j, held_by-without j hash held some_held);
      })

  at_start :
      (s g : ℕ)
      → limit ≡ (if ltb s g then s else g)
      → Counts limit torrent_limit (set_limits s (create s) g torrent_limit) []
  unfolding set_limits create find held_by
  at_start s g e = record {
    limits = (sym e, refl);
    total = refl;
    each = λ hash. refl;
    global = omega arith;
    local = λ hash. inr (omega arith);
  }

  is_granted :
      (c c' : ConnectionLimit) (held : List ℕ) (hash : ℕ)
      → Counts limit torrent_limit c held
      → acquire c hash ≡ (true, c')
      → Counts limit torrent_limit c' (hash ∷ held)
  unfolding Grants
  is_granted c c' held hash k r = elim (acquire_cases c held hash k) [
    | inl refuses ↦ absurd (cc (r, refuses))
    | inr grants ↦
        subst (λ d. Counts limit torrent_limit d (hash ∷ held)) (ap (λ p. p.1) (sym grants.2 ∙ r))
          (grant-Counts c held hash k grants.0 grants.1)
  ]

  is_refused :
      (c c' : ConnectionLimit) (held : List ℕ) (hash : ℕ)
      → Counts limit torrent_limit c held
      → acquire c hash ≡ (false, c')
      → Counts limit torrent_limit c' held
  unfolding Grants grant
  is_refused c c' held hash k r = elim (acquire_cases c held hash k) [
    | inl refuses ↦
        subst (λ d. Counts limit torrent_limit d held) (ap (λ p. p.1) (sym refuses ∙ r)) k
    | inr grants ↦ absurd (cc (r, grants.2))
  ]

  -- There is a token exactly where both limits leave room.
  acquire_lem :
      (c : ConnectionLimit) (held : List ℕ) (hash : ℕ)
      → Counts limit torrent_limit c held
      → (acquire c hash).0
        ≡ (ltb (length held) limit && (torrent_limit == 0 || ltb (held_by hash held) torrent_limit))
  unfolding acquire acquire_from grant
  acquire_lem c held hash k =
      ground (arith, k.limits.0, k.limits.1, k.total, k.each hash, some_limit)

  Run-Counts :
      (system_limit global_limit : ℕ) (c : ConnectionLimit) (held : List ℕ)
      → limit ≡ (if ltb system_limit global_limit then system_limit else global_limit)
      → Run system_limit global_limit torrent_limit c held
      → Counts limit torrent_limit c held
  Run-Counts s g _ _ e started = at_start s g e
  Run-Counts s g _ _ e (granted c c' held hash run r) =
      is_granted c c' held hash (Run-Counts s g c held e run) r
  Run-Counts s g _ _ e (refused c c' held hash run r) =
      is_refused c c' held hash (Run-Counts s g c held e run) r
  Run-Counts s g _ _ e (released c held hash run some_held) =
      release-Counts c held hash (Run-Counts s g c held e run) some_held

-- After any calls: the tokens that are out are no more than the global limit and than that of the system,
-- and those of a torrent no more than the limit of a torrent, if there is one; the total is exact; and the next
-- token is granted exactly where both limits leave room. The limits are set once, at the start, and
-- neither the global limit, which fits 32 bits, nor that of the system is 0.
pub Run-safe :
    (system_limit global_limit torrent_limit : ℕ) (c : ConnectionLimit) (held : List ℕ)
    → 0 < system_limit
    → 0 < global_limit
    → global_limit < 2 ^ 32
    → Run system_limit global_limit torrent_limit c held
    → (length held ≤ global_limit)
      × (length held ≤ system_limit)
      × ((hash : ℕ) → (torrent_limit ≡ 0) ⊎ (held_by hash held ≤ torrent_limit))
      × (c.global_total ≡ length held)
      × ((hash : ℕ)
          → (acquire c hash).0 ≡ (
              ltb
                (length held)
                (if ltb system_limit global_limit then system_limit else global_limit)
              && (torrent_limit == 0 || ltb (held_by hash held) torrent_limit)))
Run-safe s g t c held some_system some_global small run =
    let limit : ℕ = if ltb s g then s else g in
    let positive : 0 < limit = ground (arith, some_system, some_global) in
    let bounded : limit < 2 ^ 32 = ground (arith, small) in
    let k = Run-Counts limit t positive bounded s g c held refl run in
    (
      ground (arith, k.global),
      ground (arith, k.global),
      k.local,
      k.total,
      λ hash. acquire_lem limit t positive bounded c held hash k,
    )
