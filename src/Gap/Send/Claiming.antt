-- ===== src/Gap/Send/Claiming.antt =====
-- PeerSendMachine.cc, `_cloud_operation`: what the claim of one block does to the shared cursor.
use infinit_io.Base.{
  ℕ, zero, suc, ◌+◌, ◌<◌, ◌≤◌, ◌≡◌, refl, Bool, true, false, List, [], ◌∷◌, arith, length, drop,
  u32, ltb, leb, ◌==◌, inl, inr, Bool-cases, subst, if_cases,
}
use infinit_io.Gap.Send.Cloud.{Cursor, no_file, before, claim}
use infinit_io.Gap.Send.Cursor.{size_of, start_of, Sought, seek-Sought}

pub size_of_out : (files : List (ℕ × ℕ)) (f : ℕ) → length files ≤ f → size_of files f ≡ 0
unfolding size_of
size_of_out [] f h = refl
size_of_out (x ∷ r) zero h = absurd (omega arith)
size_of_out (x ∷ r) (suc f) h = size_of_out r f (omega arith)

-- A byte that the cursor has passed: `u32 (c.file + 1)` files have been begun.
abbrev pub behind : ℕ → ℕ → Cursor → Bool
behind f p c = before (suc f, p) (u32 (c.file + 1), c.position)

-- The cursor before the first claim, in a file, or behind the last file, after the return of
-- fewer than `returns` threads.
pub data Place (files : List (ℕ × ℕ)) (returns : ℕ) (c : Cursor) : Type 0 where
  fresh : c.file ≡ no_file → c.position ≡ 0 → c.size ≡ 0 → Place files returns c
  within : c.file < length files → c.size ≡ size_of files c.file → Place files returns c
  after :
      length files ≤ c.file
      → c.size ≤ c.position
      → c.file < length files + returns
      → Place files returns c

-- What a claim does: it passes only bytes that need no upload.
pub record Handed (files : List (ℕ × ℕ)) (returns : ℕ) (c : Cursor) (r : Cursor × Bool)
    : Type 0 where
  pub grows : u32 (c.file + 1) ≤ u32 (r.0.file + 1)
  pub keeps : (f p : ℕ) → behind f p c ≡ true → behind f p r.0 ≡ true
  pub skips :
      (f p : ℕ)
      → start_of files f ≤ p
      → p < size_of files f
      → behind f p r.0 ≡ true
      → behind f p c ≡ true
  pub inside : r.1 ≡ true → (r.0.file < length files) × (r.0.position < size_of files r.0.file)
  pub placed : r.1 ≡ true → r.0.size ≡ size_of files r.0.file
  pub ended :
      r.1 ≡ false
      → (length files ≤ r.0.file)
        × (r.0.size ≤ r.0.position)
        × (r.0.file < length files + suc returns)

module _ (files : List (ℕ × ℕ)) (returns : ℕ) (few : length files + returns < 4294967294) where
  next_file : (c : Cursor) → Place files returns c → u32 (c.file + 1) ≤ length files + returns
  next_file c (Place.fresh a b d) = omega arith
  next_file c (Place.within a b) = omega arith
  next_file c (Place.after a b d) = omega arith

  -- A byte of a file before the next one, when the current file has been gone through.
  spent-behind :
      (c : Cursor)
      → Place files returns c
      → c.size ≤ c.position
      → (f p : ℕ) → p < size_of files f
      → f < u32 (c.file + 1)
      → behind f p c ≡ true
  spent-behind c (Place.fresh a b d) s f p h k = absurd (omega arith)
  spent-behind c (Place.within a b) s f p h k = elim (Bool-cases (c.file == f)) [
    | inl e ↦
        let same : f ≡ c.file = ground arith in
        let short : p < size_of files c.file = subst (λ k. p < size_of files k) same h in
        ground arith
    | inr e ↦ ground arith
  ]
  spent-behind c (Place.after a b d) s f p h k = elim (Bool-cases (leb (length files) f)) [
    | inl e ↦ absurd (omega (arith, size_of_out files f (ground arith)))
    | inr e ↦ ground arith
  ]

  -- A search passes no byte that wants an upload.
  passes_no_byte :
      (d : Cursor) (r : Cursor × Bool)
      → Sought files d r
      → d.file ≤ length files + returns
      → (f p : ℕ) → start_of files f ≤ p
      → p < size_of files f
      → d.file ≤ f
      → behind f p r.0 ≡ true
      → ⊥
  passes_no_byte d r s small f p h k a b = elim (Bool-cases (ltb f r.0.file)) [
    | inl e ↦ omega (arith, s.passed f a (ground arith))
    | inr e ↦
        let same : r.0.file ≡ f = ground (arith, s.bounded) in
        let at : p < r.0.position = ground (arith, s.bounded) in
        elim (Bool-cases r.1) [
          | inl g ↦
              let starts = subst (λ j. r.0.position ≡ start_of files j) same (s.found g).1 in
              omega arith
          | inr g ↦ omega (arith, s.over g, size_of_out files f)
        ]
  ]

  search-Handed :
      (c d : Cursor) (r : Cursor × Bool)
      → Place files returns c
      → c.size ≤ c.position
      → d.file ≡ u32 (c.file + 1)
      → Sought files d r
      → Handed files returns c r
  search-Handed c d r w spent e s =
      let near = next_file c w in
      record {
        grows = ground (arith, s.onwards, s.bounded);
        keeps = λ f p h. ground (arith, s.onwards, s.bounded);
        skips = λ f p a b h. elim (Bool-cases (ltb f d.file)) [
          | inl g ↦ spent-behind c w spent f p b (ground arith)
          | inr g ↦ absurd (passes_no_byte d r s (omega arith) f p a b (ground arith) h)
        ];
        inside = λ h. ground (arith, s.found h);
        placed = λ h. (s.found h).2;
        ended = λ h. (s.over h, s.spent h, ground (arith, s.bounded));
      }

  -- The current file has bytes left.
  stays-Handed :
      (c : Cursor) → Place files returns c → c.position < c.size → Handed files returns c (c, true)
  stays-Handed c (Place.fresh a b d) h = absurd (omega arith)
  stays-Handed c (Place.after a b d) h = absurd (omega arith)
  stays-Handed c (Place.within a b) h = record {
    grows = omega arith;
    keeps = λ f p e. e;
    skips = λ f p x y e. e;
    inside = λ e. omega arith;
    placed = λ e. b;
    ended = λ e. absurd (ground arith);
  }

  pub claim-Handed : (c : Cursor) → Place files returns c → Handed files returns c (claim files c)
  unfolding claim
  claim-Handed c w =
      if_cases (Handed files returns c) (leb c.size c.position) _ _
        (λ e.
          let d : Cursor = record c { file = u32 (c.file + 1) } in
          search-Handed c d _ w (ground arith) refl
            (seek-Sought files (omega arith) (drop d.file files) d refl (ground arith)))
        (λ e. stays-Handed c w (ground arith))
