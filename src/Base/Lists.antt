-- ===== src/Base/Lists.antt =====
-- Lists measured and indexed by native numbers, under the library's names.
use Prim.Native.Nat.{ℕ, zero, suc, ◌+◌, ◌-◌, ◌≤◌, min}
use mathlib.Core.Path.{◌≡◌, refl, ◌∙◌, ap, sym, subst}
use mathlib.Core.Bool.{Bool, true, ◌&&◌}
use mathlib.Core.List.{List, [], ◌∷◌, ◌++◌, Memᴰ}
use mathlib.Core.Option.{Option, none, some}
use native.Mathlib.Omega.{arith}

module _ {ℓ} {A : Type ℓ} where
  abbrev pub length : List A → ℕ
  length [] = 0
  length (x ∷ xs) = suc (length xs)

  abbrev pub take : ℕ → List A → List A
  take zero xs = []
  take (suc n) [] = []
  take (suc n) (x ∷ xs) = x ∷ take n xs

  abbrev pub drop : ℕ → List A → List A
  drop zero xs = xs
  drop (suc n) [] = []
  drop (suc n) (x ∷ xs) = drop n xs

  pub length-append : (xs ys : List A) → length (xs ++ ys) ≡ length xs + length ys
  length-append [] ys = omega arith
  length-append (x ∷ xs) ys = omega (arith, length-append xs ys)

  pub length-drop : (n : ℕ) (xs : List A) → length (drop n xs) ≡ length xs - n
  length-drop zero xs = omega arith
  length-drop (suc n) [] = omega arith
  length-drop (suc n) (x ∷ xs) = omega (arith, length-drop n xs)

  pub take_all : (n : ℕ) (xs : List A) → length xs ≤ n → take n xs ≡ xs
  take_all zero [] h = refl
  take_all zero (x ∷ xs) h = elim h [ ]
  take_all (suc n) [] h = refl
  take_all (suc n) (x ∷ xs) h = ap (◌∷◌ x) (take_all n xs (omega arith))

  -- A table that passes a test, entry by entry.
  abbrev pub all : (A → Bool) → List A → Bool
  all p [] = true
  all p (x ∷ xs) = p x && all p xs

  pub all-mem : (p : A → Bool) (a : A) (xs : List A) → all p xs ≡ true → Memᴰ a xs → p a ≡ true
  all-mem p a [] h m = elim m [ ]
  all-mem p a (x ∷ xs) h (Memᴰ.head e) = subst (λ b. p b ≡ true) (sym e) (ground arith)
  all-mem p a (x ∷ xs) h (Memᴰ.tail m) = all-mem p a xs (ground arith) m

  abbrev pub get_elem? : List A → ℕ → Option A
  get_elem? [] i = none
  get_elem? (x ∷ xs) zero = some x
  get_elem? (x ∷ xs) (suc i) = get_elem? xs i

  pub get_elem?-mem : (xs : List A) (i : ℕ) (a : A) → get_elem? xs i ≡ some a → Memᴰ a xs
  get_elem?-mem [] i a h = ground arith
  get_elem?-mem (x ∷ xs) zero a h = Memᴰ.head (ground arith)
  get_elem?-mem (x ∷ xs) (suc i) a h = Memᴰ.tail (get_elem?-mem xs i a h)

  pub length-take : (n : ℕ) (xs : List A) → length (take n xs) ≡ min n (length xs)
  length-take zero xs = omega arith
  length-take (suc n) [] = omega arith
  length-take (suc n) (x ∷ xs) = omega (arith, length-take n xs)

  take-length : (n : ℕ) (xs : List A) → take (length (take n xs)) xs ≡ take n xs
  take-length zero xs = refl
  take-length (suc n) [] = refl
  take-length (suc n) (x ∷ xs) = ap (◌∷◌ x) (take-length n xs)

  -- A prefix and the next piece are a longer prefix.
  pub take-append-drop :
      (p n : ℕ) (xs : List A)
      → p ≤ length xs
      → take p xs ++ take n (drop p xs) ≡ take (p + length (take n (drop p xs))) xs
  take-append-drop zero n xs h =
      let first : ℕ = length (take n xs) in
      sym (take-length n xs) ∙ ap (λ k. take k xs) {x = first} {y = zero + first} (omega arith)
  take-append-drop (suc p) n [] h = absurd (omega arith)
  take-append-drop (suc p) n (x ∷ xs) h =
      let rest : ℕ = length (take n (drop p xs)) in
      ap (◌∷◌ x) (take-append-drop p n xs (omega arith))
      ∙ ap (λ k. take k (x ∷ xs)) {x = suc (p + rest)} {y = suc p + rest} (omega arith)

  pub take-append : (n : ℕ) (xs ys : List A) → n ≤ length xs → take n (xs ++ ys) ≡ take n xs
  take-append zero xs ys h = refl
  take-append (suc n) [] ys h = absurd (omega arith)
  take-append (suc n) (x ∷ xs) ys h = ap (◌∷◌ x) (take-append n xs ys (omega arith))

  pub drop-append : (n : ℕ) (xs ys : List A) → n ≤ length xs → drop n (xs ++ ys) ≡ drop n xs ++ ys
  drop-append zero xs ys h = refl
  drop-append (suc n) [] ys h = absurd (omega arith)
  drop-append (suc n) (x ∷ xs) ys h = drop-append n xs ys (omega arith)

  pub drop_all : (xs : List A) → drop (length xs) xs ≡ []
  drop_all [] = refl
  drop_all (x ∷ xs) = drop_all xs

  pub take-drop : (n : ℕ) (xs : List A) → take n xs ++ drop n xs ≡ xs
  take-drop zero xs = refl
  take-drop (suc n) [] = refl
  take-drop (suc n) (x ∷ xs) = ap (◌∷◌ x) (take-drop n xs)

  pub get_elem?-none : (xs : List A) (i : ℕ) → get_elem? xs i ≡ none → length xs ≤ i
  get_elem?-none [] i h = omega arith
  get_elem?-none (x ∷ xs) zero h = absurd (ground (arith, h))
  get_elem?-none (x ∷ xs) (suc i) h = omega (arith, get_elem?-none xs i h)

  pub get_elem?-some : (xs : List A) (i : ℕ) (a : A) → get_elem? xs i ≡ some a → suc i ≤ length xs
  get_elem?-some [] i a h = absurd (ground (arith, h))
  get_elem?-some (x ∷ xs) zero a h = omega arith
  get_elem?-some (x ∷ xs) (suc i) a h = omega (arith, get_elem?-some xs i a h)
