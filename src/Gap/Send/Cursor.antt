-- ===== src/Gap/Send/Cursor.antt =====
-- PeerSendMachine.cc, `_cloud_operation`: where the shared cursor goes over the files.
use infinit_io.Base.{
  ℕ, zero, suc, ◌+◌, ◌<◌, ◌≤◌, ◌≡◌, ◌⊎◌, refl, Bool, true, false, List, [], ◌∷◌, arith, length,
  drop, u32, leb, if_cases, ap, ◌∙◌, sym, subst, inl, inr, Bool-cases,
}
use infinit_io.Gap.Send.Cloud.{Cursor, seek}

-- The size of a file, and where its upload begins; a file that is not there has no bytes.
unfoldable pub size_of : List (ℕ × ℕ) → ℕ → ℕ
size_of [] f = 0
size_of ((size, progress) ∷ r) zero = size
size_of ((size, progress) ∷ r) (suc f) = size_of r f

unfoldable pub start_of : List (ℕ × ℕ) → ℕ → ℕ
start_of [] f = 0
start_of ((size, progress) ∷ r) zero = progress
start_of ((size, progress) ∷ r) (suc f) = start_of r f

-- What a search from a file on has passed, and where it stops.
pub record Sought (files : List (ℕ × ℕ)) (from : Cursor) (r : Cursor × Bool) : Type 0 where
  pub onwards : from.file ≤ r.0.file
  pub bounded : (r.0.file ≡ from.file) ⊎ (r.0.file ≤ length files)
  pub passed : (f : ℕ) → from.file ≤ f → f < r.0.file → size_of files f ≤ start_of files f
  pub found :
      r.1 ≡ true
      → (r.0.file < length files)
        × (r.0.position ≡ start_of files r.0.file)
        × (r.0.size ≡ size_of files r.0.file)
        × (r.0.position < r.0.size)
  pub over : r.1 ≡ false → length files ≤ r.0.file
  pub spent : r.1 ≡ false → r.0.size ≤ r.0.position

drop-cons :
    (n : ℕ) (files : List (ℕ × ℕ)) (x : ℕ × ℕ) (r : List (ℕ × ℕ))
    → drop n files ≡ x ∷ r
    → (n < length files)
      × (drop (suc n) files ≡ r)
      × (size_of files n ≡ x.0)
      × (start_of files n ≡ x.1)
unfolding size_of start_of
drop-cons zero [] x r h = absurd (ground (arith, h))
drop-cons zero (y ∷ ys) x r h = ground (arith, h)
drop-cons (suc n) [] x r h = absurd (ground (arith, h))
drop-cons (suc n) (y ∷ ys) x r h = ground (arith, drop-cons n ys x r h)

drop-nil : (n : ℕ) (files : List (ℕ × ℕ)) → drop n files ≡ [] → length files ≤ n
drop-nil zero [] h = omega arith
drop-nil zero (y ∷ ys) h = absurd (ground (arith, h))
drop-nil (suc n) [] h = omega arith
drop-nil (suc n) (y ∷ ys) h = omega (arith, drop-nil n ys h)

-- A file without bytes left is passed.
pass-Sought :
    (files : List (ℕ × ℕ)) (c d : Cursor) (r : Cursor × Bool)
    → d.file ≡ suc c.file
    → c.file < length files
    → size_of files c.file ≤ start_of files c.file
    → Sought files d r
    → Sought files c r
pass-Sought files c d r e inside none_left s = record {
  onwards = omega (arith, s.onwards);
  bounded = ground (arith, s.bounded, s.onwards);
  passed = λ f a b. elim (Bool-cases (leb d.file f)) [
    | inl h ↦ s.passed f (ground arith) b
    | inr h ↦
        let same : c.file ≡ f = ground arith in
        subst (λ k. size_of files k ≤ start_of files k) same none_left
  ];
  found = s.found;
  over = s.over;
  spent = s.spent;
}

module _ (files : List (ℕ × ℕ)) (few : length files < 4294967295) where
  pub seek-Sought :
      (r : List (ℕ × ℕ)) (c : Cursor)
      → drop c.file files ≡ r
      → c.size ≤ c.position
      → Sought files c (seek r c)
  unfolding seek
  seek-Sought [] c h p = record {
    onwards = omega arith;
    bounded = inl refl;
    passed = λ f a b. absurd (omega arith);
    found = λ e. absurd (ground arith);
    over = λ e. drop-nil c.file files h;
    spent = λ e. p;
  }
  seek-Sought ((size, progress) ∷ r) c h p =
      let (inside, rest, sized, starts) = drop-cons c.file files (size, progress) r h in
      if_cases (Sought files c) (leb size progress) _ _
        (λ e.
          let next : u32 (c.file + 1) ≡ suc c.file = omega arith in
          pass-Sought files c _ _ next inside (ground arith) (
            seek-Sought r (record { file = u32 (c.file + 1); position = progress; size = size })
              (ap (λ k. drop k files) next ∙ rest) (ground arith)))
        (λ e. record {
          onwards = omega arith;
          bounded = inl refl;
          passed = λ f a b. absurd (omega arith);
          found = λ _. (inside, sym starts, sym sized, ground arith);
          over = λ x. absurd (ground arith);
          spent = λ x. absurd (ground arith);
        })
