-- ===== src/Base/Counts.antt =====
-- Lists as sets: how often a test holds, and the removal of what passes it.
use Prim.Native.Nat.{ℕ, suc, ◌≤◌}
use mathlib.Core.Path.{◌≡◌, refl}
use mathlib.Core.Bool.{Bool, true, false}
use mathlib.Core.List.{List, [], ◌∷◌}
use native.Mathlib.Omega.{arith}
use infinit_io.Base.Tests.{if◌then◌else◌}

module _ {ℓ} {A : Type ℓ} where
  unfoldable pub has : (A → Bool) → List A → Bool
  has p [] = false
  has p (x ∷ xs) = if p x then true else has p xs

  unfoldable pub count : (A → Bool) → List A → ℕ
  count p [] = 0
  count p (x ∷ xs) = let rest = count p xs in if p x then suc rest else rest

  unfoldable pub remove : (A → Bool) → List A → List A
  remove p [] = []
  remove p (x ∷ xs) = let rest = remove p xs in if p x then rest else x ∷ rest

  pub count-has : (p : A → Bool) (xs : List A) → has p xs ≡ true → 1 ≤ count p xs
  unfolding has count
  count-has p [] h = ground arith
  count-has p (x ∷ xs) h = ground (arith, count-has p xs)

  pub count-has_not : (p : A → Bool) (xs : List A) → has p xs ≡ false → count p xs ≡ 0
  unfolding has count
  count-has_not p [] h = refl
  count-has_not p (x ∷ xs) h = ground (arith, count-has_not p xs)

  pub count-remove : (p q : A → Bool) (xs : List A) → count p (remove q xs) ≤ count p xs
  unfolding count remove
  count-remove p q [] = omega arith
  count-remove p q (x ∷ xs) = ground (arith, count-remove p q xs)

  pub count-remove_self : (p : A → Bool) (xs : List A) → count p (remove p xs) ≡ 0
  unfolding count remove
  count-remove_self p [] = refl
  count-remove_self p (x ∷ xs) = ground (arith, count-remove_self p xs)

  pub has-count_zero : (p : A → Bool) (xs : List A) → count p xs ≡ 0 → has p xs ≡ false
  unfolding has count
  has-count_zero p [] h = refl
  has-count_zero p (x ∷ xs) h = ground (arith, has-count_zero p xs)
