-- ===== src/Gap/Receive/Naming.antt =====
-- ReceiveMachine.cc, `eligible_name`: where a received file is put. Paths are lists of components
-- below the directory of the transfer; what boost::filesystem does with one component, and the
-- policy's name for a number, are parameters.
use infinit_io.Base.{
  ℕ, zero, suc, ◌+◌, Bool, Option, none, some, List, [], ◌∷◌, find, assign, map, if◌then◌else◌,
}

pub record Names (N : Type 0) : Type 0 where
  pub same : N → N → Bool
  -- `none` for a name without extension
  pub extension : N → Option N
  pub stem : N → N
  -- characters behind one another
  pub concat : N → N → N
  pub nothing : N
  -- `sprintf(name_policy, i)`
  pub numbered : ℕ → N

abbrev pub RootMapping : Type 0 → Type 0
RootMapping N = List (N × N)

module _ {N : Type 0} (names : Names N) where
  -- The pattern without its extensions, and these, with a bound on their number.
  unfoldable pub split : ℕ → N → N → N × N
  split zero pattern extensions = (pattern, extensions)
  split (suc rounds) pattern extensions = elim (names.extension pattern) [
    | none ↦ (pattern, extensions)
    | some e ↦ split rounds (names.stem pattern) (names.concat e extensions)
  ]

  unfoldable pub replacement : N × N → ℕ → N
  replacement (pattern, extensions) i =
      names.concat (names.concat pattern (names.numbered i)) extensions

  -- The search for a number from `i` on whose name is free, with a bound on the rounds.
  unfoldable pub free_name : (List N → Bool) → N × N → ℕ → ℕ → Option N
  unfolding replacement
  free_name exists p zero i = none
  free_name exists p (suc rounds) i =
      let rest = free_name exists p rounds (i + 1) in
      if exists (replacement p i ∷ []) then rest else some (replacement p i)

  -- A file at the top is not added to the mapping.
  unfoldable pub remember : N → N → List N → RootMapping N → RootMapping N
  remember first root [] m = m
  remember first root (x ∷ xs) m = assign names.same first root m

  unfoldable pub replaced : N → List N → RootMapping N → Option N → Option (List N × RootMapping N)
  unfolding remember
  replaced first rest m none = none
  replaced first rest m (some root) = some (root ∷ rest, remember first root rest m)

  unfoldable pub mapped :
      (List N → Bool)
      → ℕ
      → ℕ
      → N
      → List N
      → RootMapping N
      → Option N
      → Option (List N × RootMapping N)
  unfolding split free_name replaced
  mapped exists depth rounds first rest m (some root) = some (root ∷ rest, m)
  mapped exists depth rounds first rest m none =
      replaced first rest m (free_name exists (split depth first names.nothing) rounds 2)

  -- The path of a file whose reserved characters are converted, `first` its first component; `none` where no
  -- name is found.
  unfoldable pub eligible_name :
      (List N → Bool) → ℕ → ℕ → N → List N → RootMapping N → Option (List N × RootMapping N)
  unfolding remember mapped
  eligible_name exists depth rounds first rest m =
      if exists (first ∷ [])
      then mapped exists depth rounds first rest m (find names.same first m)
      else some (first ∷ rest, remember first first rest m)

  -- The whole of `eligible_name`: `hyphenate` turns the reserved characters of a component to hyphens, and
  -- is the identity where no character is reserved, as on all systems but Windows.
  unfoldable pub eligible_path :
      (N → N)
      → (List N → Bool)
      → ℕ
      → ℕ
      → N
      → List N
      → RootMapping N
      → Option (List N × RootMapping N)
  unfolding eligible_name
  eligible_path hyphenate exists depth rounds first rest m =
      eligible_name exists depth rounds (hyphenate first) (map hyphenate rest) m
