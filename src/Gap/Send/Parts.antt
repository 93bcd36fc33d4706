-- ===== src/Gap/Send/Parts.antt =====
-- SendMachine.cc, `_plain_upload`: lists of parts, sorted and put together.
use infinit_io.Base.{
  ℕ, zero, suc, ◌+◌, ◌*◌, ◌<◌, ◌≤◌, ◌≡◌, refl, sym, ap, ◌∙◌, Bool, true, false, List, [], ◌∷◌, ◌++◌,
  arith, length, drop, take-drop, ltb, ◌==◌, if◌then◌else◌, if_cases, has, Bool-cases, inl, inr,
}
use infinit_io.Gap.Send.Multipart.{Chunk, enter, sort, slice, join}

abbrev pub is_part : ℕ → Chunk → Bool
is_part id c = c.0 == id

module _ (file : List ℕ) (chunk_size count : ℕ) where
  -- Every part has a number of the file and the bytes of that number.
  abbrev pub AllParts : List Chunk → Type 0
  AllParts [] = Unit {0}
  AllParts (c ∷ r) = (c.0 < count) × (c.1 ≡ slice file chunk_size c.0) × AllParts r

  pub AllParts-append : (xs ys : List Chunk) → AllParts xs → AllParts ys → AllParts (xs ++ ys)
  AllParts-append [] ys h g = g
  AllParts-append (c ∷ r) ys (a, b, h) g = (a, b, AllParts-append r ys h g)

  AllParts-enter :
      (c : Chunk) (xs : List Chunk)
      → c.0 < count
      → c.1 ≡ slice file chunk_size c.0
      → AllParts xs
      → AllParts (enter c xs)
  unfolding enter
  AllParts-enter c [] a b h = (a, b, tt)
  AllParts-enter c (d ∷ r) a b (x, y, h) =
      if_cases AllParts (ltb d.0 c.0) _ _ (λ _. (x, y, AllParts-enter c r a b h))
        (λ _. (a, b, (x, y, h)))

  pub AllParts-sort : (xs : List Chunk) → AllParts xs → AllParts (sort xs)
  unfolding sort
  AllParts-sort [] h = tt
  AllParts-sort (c ∷ r) (a, b, h) = AllParts-enter c (sort r) a b (AllParts-sort r h)

-- In ascending order without repetition, from a number on.
abbrev pub IsSortedFrom : ℕ → List Chunk → Type 0
IsSortedFrom lo [] = Unit {0}
IsSortedFrom lo (c ∷ r) = (lo ≤ c.0) × IsSortedFrom (suc c.0) r

has-enter :
    (id : ℕ) (c : Chunk) (xs : List Chunk)
    → has (is_part id) (enter c xs) ≡ (if is_part id c then true else has (is_part id) xs)
unfolding enter has
has-enter id c [] = refl
has-enter id c (d ∷ r) = ground (arith, has-enter id c r)

pub has-sort : (id : ℕ) (xs : List Chunk) → has (is_part id) (sort xs) ≡ has (is_part id) xs
unfolding sort has
has-sort id [] = refl
has-sort id (c ∷ r) = ground (arith, has-enter id c (sort r), has-sort id r)

enter-IsSortedFrom :
    (lo : ℕ) (c : Chunk) (xs : List Chunk)
    → lo ≤ c.0
    → has (is_part c.0) xs ≡ false
    → IsSortedFrom lo xs
    → IsSortedFrom lo (enter c xs)
unfolding enter has
enter-IsSortedFrom lo c [] l h s = (l, tt)
enter-IsSortedFrom lo c (d ∷ r) l h (a, s) =
    if_cases (IsSortedFrom lo) (ltb d.0 c.0) _ _
      (λ e. (a, enter-IsSortedFrom (suc d.0) c r (ground arith) (ground arith) s))
      (λ e. (l, (ground arith, s)))

-- No number stands twice.
abbrev pub IsDistinct : List Chunk → Type 0
IsDistinct [] = Unit {0}
IsDistinct (c ∷ r) = (has (is_part c.0) r ≡ false) × IsDistinct r

pub sort-IsSortedFrom : (xs : List Chunk) → IsDistinct xs → IsSortedFrom 0 (sort xs)
unfolding sort
sort-IsSortedFrom [] h = tt
sort-IsSortedFrom (c ∷ r) (a, h) =
    enter-IsSortedFrom 0 c (sort r) (omega arith) (has-sort c.0 r ∙ a) (sort-IsSortedFrom r h)

pub IsSortedFrom-has :
    (lo id : ℕ) (xs : List Chunk) → IsSortedFrom lo xs → id < lo → has (is_part id) xs ≡ false
unfolding has
IsSortedFrom-has lo id [] s h = refl
IsSortedFrom-has lo id (c ∷ r) (a, s) h = ground (arith, IsSortedFrom-has (suc c.0) id r s)

drop_over : (n : ℕ) (xs : List ℕ) → length xs ≤ n → drop n xs ≡ []
drop_over zero [] h = refl
drop_over zero (x ∷ xs) h = absurd (omega arith)
drop_over (suc n) [] h = refl
drop_over (suc n) (x ∷ xs) h = drop_over n xs (omega arith)

drop-drop : (m n : ℕ) (xs : List ℕ) → drop n (drop m xs) ≡ drop (m + n) xs
drop-drop zero n xs = ap (λ k. drop k xs) {x = n} {y = zero + n} (omega arith)
drop-drop (suc m) n [] = drop_over n [] (omega arith) ∙ sym (drop_over (suc m + n) [] (omega arith))
drop-drop (suc m) n (x ∷ xs) =
    drop-drop m n xs ∙ ap (λ k. drop k (x ∷ xs)) {x = suc (m + n)} {y = suc m + n} (omega arith)

module _ (file : List ℕ) (chunk_size : ℕ) where
  -- The parts from a number on, put together in their order, are the file from there on.
  pub join-drop :
      (count lo : ℕ) (xs : List Chunk)
      → AllParts file chunk_size count xs
      → IsSortedFrom lo xs
      → ((id : ℕ) → lo ≤ id → id < count → has (is_part id) xs ≡ true)
      → length file ≤ count * chunk_size
      → join xs ≡ drop (lo * chunk_size) file
  unfolding join has slice
  join-drop count lo [] p s h e = sym (
      drop_over (lo * chunk_size) file (elim (Bool-cases (ltb lo count)) [
        | inl g ↦ absurd (let no = h lo (omega arith) (ground arith) in ground arith)
        | inr g ↦ let least : count ≤ lo = ground arith in grind arith
      ]))
  join-drop count lo (c ∷ r) (a, b, p) (l, s) h e =
      let first : c.0 ≡ lo = elim (Bool-cases (ltb lo c.0)) [
        | inl g ↦ absurd (
            let no = h lo (omega arith) (omega arith) in
            let none = IsSortedFrom-has (suc c.0) lo r s (ground arith) in ground arith)
        | inr g ↦ ground arith
      ] in
      let rest =
        join-drop count (suc c.0) r p s (λ id x y. let found = h id (omega arith) y in ground arith)
          e in
      let offset = c.0 * chunk_size in
      ap (λ k. k ++ join r) b
      ∙ ap (λ k. slice file chunk_size c.0 ++ k)
          (rest
            ∙ ap (λ k. drop k file) {x = suc c.0 * chunk_size} {y = offset + chunk_size}
                (grind arith)
            ∙ sym (drop-drop offset chunk_size file))
      ∙ take-drop chunk_size (drop offset file)
      ∙ ap (λ k. drop (k * chunk_size) file) first
