-- ===== src/Base/Keyed.antt =====
-- Maps with any keys as association lists, with the operations of `std::unordered_map`. The test
-- that compares two keys comes first.
use Prim.Native.Nat.{ℕ, ◌+◌, ◌≤◌}
use mathlib.Core.Path.{◌≡◌, refl, sym, ap, ◌∙◌}
use mathlib.Core.Logic.{inl, inr}
use mathlib.Core.Bool.{Bool, true, false}
use mathlib.Core.Option.{Option, none, some}
use mathlib.Core.List.{List, [], ◌∷◌}
use native.Mathlib.Omega.{arith}
use infinit_io.Base.Tests.{Bool-cases, if◌then◌else◌}

module _ {ℓ ℓ'} {K : Type ℓ} {V : Type ℓ'} (same : K → K → Bool) where
  unfoldable pub find : K → List (K × V) → Option V
  find k [] = none
  find k ((j, v) ∷ m) = if same j k then some v else find k m

  unfoldable pub erase : K → List (K × V) → List (K × V)
  erase k [] = []
  erase k ((j, v) ∷ m) = let rest = erase k m in if same j k then rest else (j, v) ∷ rest

  -- `operator []` with an assignment.
  unfoldable pub assign : K → V → List (K × V) → List (K × V)
  assign k v [] = (k, v) ∷ []
  assign k v ((j, w) ∷ m) = if same j k then (j, v) ∷ m else (j, w) ∷ assign k v m

  pub find-erase_self : (k : K) (m : List (K × V)) → find k (erase k m) ≡ none
  unfolding find erase
  find-erase_self k [] = refl
  find-erase_self k ((j, v) ∷ m) = ground (arith, find-erase_self k m)

module _ {ℓ ℓ'} {K : Type ℓ} {V : Type ℓ'} (weight : V → ℕ) where
  -- The weights of the values, added up.
  unfoldable pub total : List (K × V) → ℕ
  total [] = 0
  total ((j, v) ∷ m) = weight v + total m

module _ {ℓ ℓ'} {K : Type ℓ} {V : Type ℓ'} (same : K → K → Bool) (weight : V → ℕ) where
  pub total-erase : (k : K) (m : List (K × V)) → total weight (erase same k m) ≤ total weight m
  unfolding erase total
  total-erase k [] = omega arith
  total-erase k ((j, v) ∷ m) = ground (arith, total-erase k m)

  pub total-erase_found :
      (k : K) (v : V) (m : List (K × V))
      → find same k m ≡ some v
      → total weight (erase same k m) + weight v ≤ total weight m
  unfolding find erase total
  total-erase_found k v [] h = ground arith
  total-erase_found k v ((j, w) ∷ m) h = ground (arith, total-erase k m, total-erase_found k v m)

  pub total-assign :
      (k : K) (v : V) (m : List (K × V))
      → total weight (assign same k v m) ≤ total weight m + weight v
  unfolding assign total
  total-assign k v [] = omega arith
  total-assign k v ((j, w) ∷ m) = ground (arith, total-assign k v m)

-- Where the test is that of equality.
module _ {ℓ ℓ'} {K : Type ℓ} {V : Type ℓ'} (same : K → K → Bool)
    (same_eq : (j k : K) → same j k ≡ true → j ≡ k) where
  pub find-assign :
      (k u : K) (v : V) (m : List (K × V))
      → find same u (assign same k v m) ≡ (if same k u then some v else find same u m)
  unfolding find assign
  find-assign k u v [] = refl
  find-assign k u v ((j, w) ∷ m) = elim (Bool-cases (same j k)) [
    | inl e ↦ rw (e, ap (λ x. same x u) (same_eq j k e)) (ground arith)
    | inr e ↦
        rw (e, find-assign k u v m)
          (elim (Bool-cases (same k u)) [
            | inl f ↦
                let g : same j u ≡ false = sym (ap (λ x. same j x) (same_eq k u f)) ∙ e in
                rw (g, f) refl
            | inr f ↦ rw f refl
          ])
  ]

  pub find-erase :
      (k u : K) (m : List (K × V))
      → find same u (erase same k m) ≡ (if same k u then none else find same u m)
  unfolding find erase
  find-erase k u [] = ground arith
  find-erase k u ((j, w) ∷ m) = elim (Bool-cases (same j k)) [
    | inl e ↦ rw (e, ap (λ x. same x u) (same_eq j k e), find-erase k u m) (ground arith)
    | inr e ↦ rw e (elim (Bool-cases (same k u)) [
      | inl f ↦
          let g : same j u ≡ false = sym (ap (λ x. same j x) (same_eq k u f)) ∙ e in
          rw (g, f, find-erase k u m, f) refl
      | inr f ↦ rw (find-erase k u m, f) refl
    ])
  ]
