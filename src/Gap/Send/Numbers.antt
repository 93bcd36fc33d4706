-- ===== src/Gap/Send/Numbers.antt =====
-- SendMachine.cc, `_plain_upload`: which numbers a thread takes, by the parts at hand.
use infinit_io.Base.{
  ℕ, zero, suc, ◌+◌, ◌-◌, ◌<◌, ◌≤◌, ◌≡◌, refl, sym, ◌∙◌, subst, true, false, Option, none, some,
  List, [], ◌∷◌, ◌++◌, arith, length, drop, ◌==◌, if◌then◌else◌, if_cases, has, Bool-cases, inl,
  inr,
}
use infinit_io.Gap.Send.Multipart.{Chunk, contiguous, back, scan, has_it, fetch}
use infinit_io.Gap.Send.Parts.{is_part, IsSortedFrom}

scan-has : (max id : ℕ) (xs : List Chunk) → scan max id xs ≡ true → has (is_part id) xs ≡ true
unfolding scan has
scan-has max id [] h = absurd (ground arith)
scan-has max id (c ∷ r) h = ground (arith, scan-has max id r)

has-drop :
    (n id : ℕ) (xs : List Chunk) → has (is_part id) (drop n xs) ≡ true → has (is_part id) xs ≡ true
unfolding has
has-drop zero id xs h = h
has-drop (suc n) id [] h = h
has-drop (suc n) id (c ∷ r) h = ground (arith, has-drop n id r)

pub has-append :
    (id : ℕ) (xs ys : List Chunk)
    → has (is_part id) (xs ++ ys) ≡ (if has (is_part id) xs then true else has (is_part id) ys)
unfolding has
has-append id [] ys = refl
has-append id (c ∷ r) ys = ground (arith, has-append id r ys)

back-ge : (lo : ℕ) (c : Chunk) (r : List Chunk) → IsSortedFrom lo (c ∷ r) → c.0 ≤ back (c ∷ r)
unfolding back
back-ge lo c [] s = omega arith
back-ge lo c (d ∷ r) (l, s) = omega (arith, back-ge (suc c.0) d r s, s.0)

-- A part that is among the sorted ones is found, if the limit is not below their last number.
scan-append :
    (max id lo : ℕ) (xs ys : List Chunk)
    → IsSortedFrom lo xs
    → back xs ≤ max
    → has (is_part id) xs ≡ true
    → scan max id (xs ++ ys) ≡ true
unfolding scan has back
scan-append max id lo [] ys s b h = absurd (ground arith)
scan-append max id lo (c ∷ []) ys s b h = ground arith
scan-append max id lo (c ∷ d ∷ r) ys (l, s) b h =
    ground (arith, scan-append max id (suc c.0) (d ∷ r) ys s b, back-ge (suc c.0) d r s)

back-tail : (c : Chunk) (r : List Chunk) → back r ≤ back (c ∷ r)
unfolding back
back-tail c [] = omega arith
back-tail c (d ∷ r) = omega arith

contiguous-ge : (i : ℕ) (xs : List Chunk) → i ≤ contiguous i xs
unfolding contiguous
contiguous-ge i [] = omega arith
contiguous-ge i (c ∷ r) = ground (arith, contiguous-ge (i + 1) r)

-- The numbers without a gap are there.
pub contiguous-has :
    (i id : ℕ) (xs : List Chunk) → i ≤ id → id < contiguous i xs → has (is_part id) xs ≡ true
unfolding contiguous has
contiguous-has i id [] a b = absurd (omega arith)
contiguous-has i id (c ∷ r) a b = ground (arith, contiguous-has (i + 1) id r)

pub contiguous-length : (i : ℕ) (xs : List Chunk) → contiguous i xs ≤ i + length xs
unfolding contiguous
contiguous-length i [] = omega arith
contiguous-length i (c ∷ r) = ground (arith, contiguous-length (i + 1) r)

-- The search starts behind them and misses no other part.
scan-drop :
    (max id i : ℕ) (xs ys : List Chunk)
    → IsSortedFrom i xs
    → back xs ≤ max
    → has (is_part id) xs ≡ true
    → contiguous i xs ≤ id
    → scan max id (drop (contiguous i xs - i) (xs ++ ys)) ≡ true
unfolding contiguous has
scan-drop max id i [] ys s b h k = absurd (ground arith)
scan-drop max id i (c ∷ r) ys s b h k = elim (Bool-cases (c.0 == i)) [
  | inl e ↦
      let here : contiguous i (c ∷ r) ≡ contiguous (i + 1) r = rw e refl in
      let on : contiguous i (c ∷ r) - i ≡ suc (contiguous (i + 1) r - (i + 1)) =
        omega (arith, contiguous-ge (i + 1) r) in
      let later : IsSortedFrom (i + 1) r =
        subst (λ n. IsSortedFrom n r) {x = suc c.0} {y = i + 1} (ground arith) s.1 in
      let more = contiguous-ge (i + 1) r in
      subst (λ n. scan max id (drop n (c ∷ (r ++ ys))) ≡ true) (sym on)
        (scan-drop max id (i + 1) r ys later (omega (arith, back-tail c r)) (ground arith)
          (omega arith))
  | inr e ↦
      let here : contiguous i (c ∷ r) - i ≡ 0 = rw e (omega arith) in
      subst (λ n. scan max id (drop n (c ∷ (r ++ ys))) ≡ true) (sym here)
        (scan-append max id i (c ∷ r) ys s b h)
]

has-back :
    (lo id : ℕ) (xs : List Chunk) → IsSortedFrom lo xs → has (is_part id) xs ≡ true → id ≤ back xs
unfolding has back
has-back lo id [] s h = absurd (ground arith)
has-back lo id (c ∷ []) s h = ground arith
has-back lo id (c ∷ d ∷ r) (l, s) h =
    ground (arith, has-back (suc c.0) id (d ∷ r) s, back-ge (suc c.0) d r s)

-- What a thread takes: the next number, and the first one whose part is not there.
abbrev pub Taken : List Chunk → ℕ → ℕ → ℕ × Option ℕ → Type 0
Taken chunks next rounds (after, none) =
    (after ≡ next + rounds) × ((n : ℕ) → next ≤ n → n < after → has (is_part n) chunks ≡ true)
Taken chunks next rounds (after, some id) =
    (after ≡ suc id)
    × (next ≤ id)
    × (id < next + rounds)
    × (has (is_part id) chunks ≡ false)
    × ((n : ℕ) → next ≤ n → n < id → has (is_part n) chunks ≡ true)

from :
    (next : ℕ) (chunks : List Chunk) (limit : ℕ)
    → has (is_part next) chunks ≡ true
    → ((n : ℕ) → next + 1 ≤ n → n < limit → has (is_part n) chunks ≡ true)
    → (n : ℕ) → next ≤ n
    → n < limit
    → has (is_part n) chunks ≡ true
from next chunks limit h b n x y = elim (Bool-cases (next == n)) [
  | inl e ↦ subst (λ k. has (is_part k) chunks ≡ true) {x = next} {y = n} (ground arith) h
  | inr e ↦ b n (ground arith) y
]

Taken_later :
    (chunks : List Chunk) (next rounds : ℕ) (r : ℕ × Option ℕ)
    → has (is_part next) chunks ≡ true
    → Taken chunks (next + 1) rounds r
    → Taken chunks next (suc rounds) r
Taken_later chunks next rounds (after, none) h (a, b) = (omega arith, from next chunks after h b)
Taken_later chunks next rounds (after, some id) h (a, b, c, d, e) =
    (a, omega arith, omega arith, d, from next chunks id h e)

-- The parts at hand: those of the earlier upload in order, and those put since, with lower numbers.
module _ (xs ys : List Chunk) (sorted : IsSortedFrom 0 xs) where
  -- For a number not given out yet, the search tells whether the part is there.
  pub has_it_iff :
      (id : ℕ)
      → contiguous 0 xs ≤ id
      → has (is_part id) ys ≡ false
      → has_it (back xs) (contiguous 0 xs) id (xs ++ ys) ≡ has (is_part id) (xs ++ ys)
  unfolding has_it
  has_it_iff id a b = elim (Bool-cases (has (is_part id) (xs ++ ys))) [
    | inl e ↦
        let old : has (is_part id) xs ≡ true = ground (arith, has-append id xs ys) in
        let inside = has-back 0 id xs sorted old in
        let found = scan-drop (back xs) id 0 xs ys sorted (omega arith) old a in
        let at : scan (back xs) id (drop (contiguous 0 xs) (xs ++ ys)) ≡ true =
          subst (λ n. scan (back xs) id (drop n (xs ++ ys)) ≡ true) {x = contiguous 0 xs - 0}
            {y = contiguous 0 xs} (omega arith) found in
        ground arith
    | inr e ↦ elim (Bool-cases (scan (back xs) id (drop (contiguous 0 xs) (xs ++ ys)))) [
      | inl g ↦ absurd (
          let no =
            has-drop (contiguous 0 xs) id (xs ++ ys)
              (scan-has (back xs) id (drop (contiguous 0 xs) (xs ++ ys)) g) in
          ground arith)
      | inr g ↦ ground arith
    ]
  ]

  -- The number taken is the first one whose part is not there.
  pub fetch-Taken :
      (rounds next : ℕ)
      → contiguous 0 xs ≤ next
      → ((n : ℕ) → next ≤ n → has (is_part n) ys ≡ false)
      → Taken (xs ++ ys) next rounds (fetch (back xs) (contiguous 0 xs) (xs ++ ys) rounds next)
  unfolding fetch
  fetch-Taken zero next a h = (omega arith, λ n x y. absurd (omega arith))
  fetch-Taken (suc rounds) next a h =
      let same = has_it_iff next a (h next (omega arith)) in
      if_cases (Taken (xs ++ ys) next (suc rounds)) _ _ _
        (λ e.
          Taken_later (xs ++ ys) next rounds _ (sym same ∙ e)
            (fetch-Taken rounds (next + 1) (omega arith) (λ n k. h n (omega arith))))
        (λ e. (omega arith, omega arith, omega arith, sym same ∙ e, λ n x y. absurd (omega arith)))
