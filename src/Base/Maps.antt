-- ===== src/Base/Maps.antt =====
-- Maps from numbers, as lists of pairs in the order of the keys: what the code uses of QMap and std::map.
use Prim.Native.Nat.{ℕ}
use mathlib.Core.Path.{◌≡◌, refl}
use mathlib.Core.Option.{Option, none, some}
use mathlib.Core.List.{List, [], ◌∷◌}
use native.Mathlib.Omega.{arith}
use libktorrent_stream.Base.Tests.{ltb, ◌==◌, if◌then◌else◌}

module _ {ℓ} {A : Type ℓ} where
  unfoldable pub find : ℕ → List (ℕ × A) → Option A
  find k [] = none
  find k (x ∷ m) = let rest = find k m in if x.0 == k then some x.1 else rest

  -- `map[k] = v`
  unfoldable pub put : ℕ → A → List (ℕ × A) → List (ℕ × A)
  put k v [] = (k, v) ∷ []
  put k v (x ∷ m) =
      let rest = put k v m in
      if x.0 == k then (k, v) ∷ m else if ltb k x.0 then (k, v) ∷ x ∷ m else x ∷ rest

  unfoldable pub erase : ℕ → List (ℕ × A) → List (ℕ × A)
  erase k [] = []
  erase k (x ∷ m) = let rest = erase k m in if x.0 == k then rest else x ∷ rest

  pub find-put :
      (j k : ℕ) (v : A) (m : List (ℕ × A))
      → find j (put k v m) ≡ (if k == j then some v else find j m)
  unfolding find put
  find-put j k v [] = refl
  find-put j k v (x ∷ m) = ground (arith, find-put j k v m)

  pub find-erase :
      (j k : ℕ) (m : List (ℕ × A)) → find j (erase k m) ≡ (if k == j then none else find j m)
  unfolding find erase
  find-erase j k [] = ground arith
  find-erase j k (x ∷ m) = ground (arith, find-erase j k m)
