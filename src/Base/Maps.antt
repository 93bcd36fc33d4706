-- ===== src/Base/Maps.antt =====
-- Maps with numeric keys as association lists, with the operations of `std::unordered_map`.
use Prim.Native.Nat.{ℕ}
use mathlib.Core.Path.{◌≡◌, refl}
use mathlib.Core.Bool.{false}
use mathlib.Core.Option.{Option, none, some}
use mathlib.Core.List.{List, [], ◌∷◌}
use native.Mathlib.Omega.{arith}
use infinit_io.Base.Tests.{◌==◌, ==_iff, if◌then◌else◌}

module _ {ℓ} {V : Type ℓ} where
  -- `find`, `at`.
  unfoldable pub lookup : ℕ → List (ℕ × V) → Option V
  lookup k [] = none
  lookup k ((j, v) ∷ m) = if j == k then some v else lookup k m

  -- A write through a reference to the mapped value: nothing happens for a missing key.
  unfoldable pub update : ℕ → V → List (ℕ × V) → List (ℕ × V)
  update k v [] = []
  update k v ((j, w) ∷ m) = if j == k then (j, v) ∷ m else (j, w) ∷ update k v m

  -- `insert`: a key that is there keeps its value.
  unfoldable pub insert : ℕ → V → List (ℕ × V) → List (ℕ × V)
  insert k v [] = (k, v) ∷ []
  insert k v ((j, w) ∷ m) = if j == k then (j, w) ∷ m else (j, w) ∷ insert k v m

  pub lookup-update_self :
      (k : ℕ) (v w : V) (m : List (ℕ × V)) → lookup k m ≡ some w → lookup k (update k v m) ≡ some v
  unfolding lookup update
  lookup-update_self k v w [] h = ground arith
  lookup-update_self k v w ((j, x) ∷ m) h = ground (arith, lookup-update_self k v w m)

  pub lookup-update_ne :
      (k j : ℕ) (v : V) (m : List (ℕ × V)) → (k == j) ≡ false → lookup j (update k v m) ≡ lookup j m
  unfolding lookup update
  lookup-update_ne k j v [] h = refl
  lookup-update_ne k j v ((i, x) ∷ m) h = ground (arith, lookup-update_ne k j v m h)

  pub lookup-insert_ne :
      (k j : ℕ) (v : V) (m : List (ℕ × V)) → (k == j) ≡ false → lookup j (insert k v m) ≡ lookup j m
  unfolding lookup insert
  lookup-insert_ne k j v [] h = rw h refl
  lookup-insert_ne k j v ((i, x) ∷ m) h = ground (arith, lookup-insert_ne k j v m h)

  pub lookup-insert_self :
      (k : ℕ) (v : V) (m : List (ℕ × V)) → lookup k m ≡ none → lookup k (insert k v m) ≡ some v
  unfolding lookup insert
  lookup-insert_self k v [] h = rw ((==_iff k k).1 refl) refl
  lookup-insert_self k v ((i, x) ∷ m) h = ground (arith, lookup-insert_self k v m)
