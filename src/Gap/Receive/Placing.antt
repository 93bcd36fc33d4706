-- ===== src/Gap/Receive/Placing.antt =====
-- ReceiveMachine.cc, `eligible_name`: received files do not go where something else is, and the
-- files of a directory stay together.
use infinit_io.Base.{
  ℕ, zero, suc, ◌+◌, ◌≡◌, refl, ap, ◌∙◌, subst, inl, inr, ◌⊎◌, Bool, true, false, AllSome, if_cases,
  Option, none, some, List, [], ◌∷◌, map, find, find-assign, if◌then◌else◌,
}
use infinit_io.Gap.Receive.Naming.{
  Names, RootMapping, split, replacement, free_name, remember, replaced, mapped, eligible_name,
  eligible_path,
}

module _ {N : Type 0} (names : Names N) where
  free_name-free :
      (exists : List N → Bool) (p : N × N) (rounds i : ℕ)
      → AllSome (λ root. exists (root ∷ []) ≡ false) (free_name names exists p rounds i)
  unfolding free_name
  free_name-free exists p zero i = tt
  free_name-free exists p (suc rounds) i =
      if_cases (AllSome (λ root. exists (root ∷ []) ≡ false)) (exists (replacement names p i ∷ []))
        _ _ (λ e. free_name-free exists p rounds (i + 1)) (λ e. e)

  -- The first component is one that is not there, which the mapping then has for a file in a
  -- directory, or the one that the mapping has already.
  unfoldable pub Placed :
      (List N → Bool) → N → List N → RootMapping N → List N × RootMapping N → Type 0
  Placed exists first rest m (path, m') =
      (root : N) × (path ≡ root ∷ rest)
      × (((exists (root ∷ []) ≡ false) × (m' ≡ remember names first root rest m))
          ⊎ ((find names.same first m ≡ some root) × (m' ≡ m)))

  replaced-AllSome :
      (exists : List N → Bool) (first : N) (rest : List N) (m : RootMapping N) (o : Option N)
      → AllSome (λ root. exists (root ∷ []) ≡ false) o
      → AllSome (Placed exists first rest m) (replaced names first rest m o)
  unfolding replaced Placed
  replaced-AllSome exists first rest m none h = tt
  replaced-AllSome exists first rest m (some root) h = (root, refl, inl (h, refl))

  mapped-AllSome :
      (exists : List N → Bool) (depth rounds : ℕ) (first : N) (rest : List N) (m : RootMapping N)
      (o : Option N)
      → find names.same first m ≡ o
      → AllSome (Placed exists first rest m) (mapped names exists depth rounds first rest m o)
  unfolding mapped Placed
  mapped-AllSome exists depth rounds first rest m (some root) e = (root, refl, inr (e, refl))
  mapped-AllSome exists depth rounds first rest m none e =
      let p = split names depth first names.nothing in
      replaced-AllSome exists first rest m (free_name names exists p rounds 2)
        (free_name-free exists p rounds 2)

  eligible_name-AllSome :
      (exists : List N → Bool) (depth rounds : ℕ) (first : N) (rest : List N) (m : RootMapping N)
      → AllSome (Placed exists first rest m) (eligible_name names exists depth rounds first rest m)
  unfolding eligible_name Placed
  eligible_name-AllSome exists depth rounds first rest m =
      if_cases (AllSome (Placed exists first rest m)) (exists (first ∷ [])) _ _
        (λ e. mapped-AllSome exists depth rounds first rest m (find names.same first m) refl)
        (λ e. (first, refl, inl (e, refl)))

  pub eligible_name-Placed :
      (exists : List N → Bool) (depth rounds : ℕ) (first : N) (rest path : List N)
      (m m' : RootMapping N)
      → eligible_name names exists depth rounds first rest m ≡ some (path, m')
      → Placed exists first rest m (path, m')
  eligible_name-Placed exists depth rounds first rest path m m' h =
      subst (AllSome (Placed exists first rest m)) h
        (eligible_name-AllSome exists depth rounds first rest m)

  -- A received file keeps its path below its first component, but for the reserved characters, which are
  -- turned to hyphens, and its first component, so converted, becomes one under which nothing is there yet, or
  -- the one that the mapping has for it, which then stays as it is. So no file that is there is written
  -- over unless the mapping leads to it.
  pub eligible_path-Placed :
      (hyphenate : N → N) (exists : List N → Bool) (depth rounds : ℕ) (first : N)
      (rest path : List N) (m m' : RootMapping N)
      → eligible_path names hyphenate exists depth rounds first rest m ≡ some (path, m')
      → Placed exists (hyphenate first) (map hyphenate rest) m (path, m')
  unfolding eligible_path
  eligible_path-Placed hyphenate exists depth rounds first rest path m m' h =
      eligible_name-Placed exists depth rounds (hyphenate first) (map hyphenate rest) path m m' h

  module _ (same_self : (a : N) → names.same a a ≡ true)
      (same_eq : (a b : N) → names.same a b ≡ true → a ≡ b) where
    find-Placed :
        (exists : List N → Bool) (first x : N) (xs path : List N) (m m' : RootMapping N)
        → Placed exists first (x ∷ xs) m (path, m')
        → (root : N) × (path ≡ root ∷ x ∷ xs) × (find names.same first m' ≡ some root)
    unfolding Placed remember
    find-Placed exists first x xs path m m' (root, e, inr (f, g)) =
        (root, e, ap (find names.same first) g ∙ f)
    find-Placed exists first x xs path m m' (root, e, inl (f, g)) = (
      root,
      e,
      ap (find names.same first) g
          ∙ find-assign names.same same_eq first first root m
          ∙ ap (λ b. if b then some root else find names.same first m) (same_self first),
    )

    eligible_name-known :
        (exists : List N → Bool) (depth rounds : ℕ) (first root : N) (rest : List N)
        (m : RootMapping N)
        → exists (first ∷ []) ≡ true
        → find names.same first m ≡ some root
        → eligible_name names exists depth rounds first rest m ≡ some (root ∷ rest, m)
    unfolding eligible_name mapped
    eligible_name-known exists depth rounds first root rest m e f = rw (e, f, eligible_name) refl

    -- The files of a directory stay together: once a file in a directory has been placed, another
    -- file of that directory is placed under the same first component and leaves the mapping as it
    -- is, whatever has happened on disk, where the directory's own name is there by then. Names are
    -- compared by equality.
    pub eligible_name-together :
        (exists exists' : List N → Bool) (depth rounds : ℕ) (first x y : N) (xs ys path : List N)
        (m m' : RootMapping N)
        → eligible_name names exists depth rounds first (x ∷ xs) m ≡ some (path, m')
        → exists' (first ∷ []) ≡ true
        → (root : N) × (path ≡ root ∷ x ∷ xs)
          × (eligible_name names exists' depth rounds first (y ∷ ys) m' ≡ some (root ∷ y ∷ ys, m'))
    eligible_name-together exists exists' depth rounds first x y xs ys path m m' h e =
        let placed = eligible_name-Placed exists depth rounds first (x ∷ xs) path m m' h in
        let (root, p, f) = find-Placed exists first x xs path m m' placed in
        (root, p, eligible_name-known exists' depth rounds first root (y ∷ ys) m' e f)
