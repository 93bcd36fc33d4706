-- ===== src/Examples/Placing.antt =====
-- ReceiveMachine.cc, `eligible_name`: the theorems at a directory whose name is taken.
use infinit_io.Base.{
  if◌then◌else◌, ℕ, ◌+◌, ◌≡◌, refl, ==_iff, Bool, true, none, some, List, [], ◌∷◌, ◌==◌, find,
  assign,
}
use infinit_io.Gap.Receive.Naming.{
  Names, RootMapping, split, replacement, free_name, remember, replaced, mapped, eligible_name,
  eligible_path,
}
use infinit_io.Gap.Receive.Placing.{Placed, eligible_path-Placed, eligible_name-together}

-- Names are numbers, which are concatenated by addition.
abbrev names : Names ℕ
names = record {
  same = ◌==◌;
  extension = λ n. none;
  stem = λ n. n;
  concat = λ a b. a + b;
  nothing = 0;
  numbered = λ i. i;
}

-- Only 5 is taken.
abbrev taken : List ℕ → Bool
taken [] = true
taken (n ∷ ns) = n == 5

abbrev known : RootMapping ℕ
known = (5, 7) ∷ []

placed : eligible_name names taken 3 9 5 (8 ∷ []) [] ≡ some (7 ∷ 8 ∷ [], known)
unfolding eligible_name mapped replaced remember free_name replacement split find assign
placed = refl

-- The name 6 is reserved, and 5 in its place.
abbrev hyphenate : ℕ → ℕ
hyphenate n = if n == 6 then 5 else n

eligible_path-Placed_example : Placed names taken 5 (8 ∷ []) [] (7 ∷ 8 ∷ [], known)
eligible_path-Placed_example =
    eligible_path-Placed names hyphenate taken 3 9 6 (8 ∷ []) (7 ∷ 8 ∷ []) [] known
      (unfold eligible_path in placed)

eligible_name-together_example :
    (root : ℕ) × (7 ∷ 8 ∷ [] ≡ root ∷ 8 ∷ [])
    × (eligible_name names taken 3 9 5 (9 ∷ []) known ≡ some (root ∷ 9 ∷ [], known))
eligible_name-together_example =
    eligible_name-together names (λ a. (==_iff a a).1 refl) (λ a b. (==_iff a b).0) taken taken 3 9
      5 8 9 [] [] (7 ∷ 8 ∷ []) [] known placed refl
