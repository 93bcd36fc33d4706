-- ===== src/Frete/Filling.antt =====
-- TransferSnapshot.cc, `progress_increment`: the loop gives the bytes to the files in the order of their ids,
-- each of them full before the next.
use infinit_io.Base.{
  ℕ, zero, suc, ◌+◌, ◌-◌, ◌≤◌, ◌<◌, ◌≡◌, refl, ◌∙◌, sym, ap, subst, inl, inr, Option, none, some,
  List, lookup, update, lookup-update_self, lookup-update_ne, min, u32, add64, sub64, leb, ◌==◌,
  ==_iff, arith, Bool-cases, Option-cases,
}
use infinit_io.Frete.Files.{File, AllBounded, lookup-IsBounded, update-AllBounded}
use infinit_io.Frete.Snapshot.{fill}
use infinit_io.Frete.Moved.{advance, fill-Fills}

-- The id at which the loop has stopped.
abbrev pub stop : ℕ → Option ℕ → ℕ
stop end none = end
stop end (some id) = id

module _ {P : Type 0} where
  -- All files below an id are there and full.
  abbrev pub IsFull : ℕ → List (ℕ × File P) → Type 0
  IsFull n m = (k : ℕ) → k < n → (f : File P) × (lookup k m ≡ some f) × (f.progress ≡ f.size)

  -- Behind a file that is not full no file has got any bytes.
  abbrev pub IsInOrder : List (ℕ × File P) → List (ℕ × File P) → Type 0
  IsInOrder m m' =
      (j k : ℕ) (f : File P)
      → j < k
      → lookup j m' ≡ some f
      → f.progress < f.size
      → lookup k m' ≡ lookup k m

  -- What the loop from `i` on has done before it stopped: where bytes are left over, all files are full, and behind a file that is not
  -- full no file has got any.
  pub record Filled (i end : ℕ) (m : List (ℕ × File P)) (out : List (ℕ × File P) × ℕ × Option ℕ)
      : Type 0 where
    pub before : (k : ℕ) → k < i → lookup k out.0 ≡ lookup k m
    pub full :
        (k : ℕ)
        → 0 < out.1
        → i ≤ k
        → k < stop end out.2
        → (f : File P) × (lookup k out.0 ≡ some f) × (f.progress ≡ f.size)
    pub order :
        (j k : ℕ) (f : File P)
        → i ≤ j
        → j < k
        → lookup j out.0 ≡ some f
        → f.progress < f.size
        → lookup k out.0 ≡ lookup k m

  fill-nothing : (rounds i : ℕ) (m : List (ℕ × File P)) → fill rounds i 0 m ≡ (m, 0, none)
  unfolding fill
  fill-nothing zero i m = refl
  fill-nothing (suc rounds) i m = refl

  same-Filled :
      (i end left : ℕ) (e : Option ℕ) (m : List (ℕ × File P))
      → (0 < left → stop end e ≤ i)
      → Filled i end m (m, left, e)
  same-Filled i end left e m h = record {
    before = λ k l. refl;
    full = λ k p a b. absurd (omega (arith, a, b, h p));
    order = λ j k f a b x y. refl;
  }

  -- A file takes its part, and the rest of the loop goes on behind it.
  took-Filled :
      (i end remain take : ℕ) (f g : File P) (m : List (ℕ × File P))
      (out : List (ℕ × File P) × ℕ × Option ℕ)
      → lookup i m ≡ some f
      → (take < remain → g.progress ≡ g.size)
      → (remain ≤ take → out ≡ (update i g m, 0, none))
      → out.1 ≤ remain - take
      → Filled (suc i) end (update i g m) out
      → Filled i end m out
  took-Filled i end remain take f g m out h whole over less r = record {
    before = λ k l. r.before k (omega arith) ∙ lookup-update_ne i k g m (ground (arith, l));
    full = λ k p a b. elim (Bool-cases (i == k)) [
      | inl e ↦
          let same = (==_iff i k).0 e in
          (g, ap (λ n. lookup n out.0) (sym same) ∙ here, whole (omega (arith, p, less)))
      | inr e ↦ r.full k p (ground (arith, a, e)) b
    ];
    order = λ j k x a b y z.
        let apart = lookup-update_ne i k g m (ground (arith, a, b)) in
        elim (Bool-cases (i == j)) [
          | inr e ↦ r.order j k x (ground (arith, a, e)) b y z ∙ apart
          | inl e ↦
              let same : some x ≡ some g =
                sym y ∙ ap (λ n. lookup n out.0) (sym ((==_iff i j).0 e)) ∙ here in
              let all : remain ≤ take = elim (Bool-cases (leb remain take)) [
                | inl c ↦ ground arith
                | inr c ↦ absurd (ground (arith, same, z, whole (ground arith)))
              ] in
              ap (λ (o : List (ℕ × File P) × ℕ × Option ℕ). lookup k o.0) (over all) ∙ apart
        ];
  }
    where
      here : lookup i out.0 ≡ some g
      here = r.before i (omega arith) ∙ lookup-update_self i g f m h

  pub fill-Filled :
      (rounds i remain : ℕ) (m : List (ℕ × File P))
      → AllBounded m
      → i + rounds ≤ 4294967296
      → Filled i (i + rounds) m (fill rounds i remain m)
  unfolding fill
  fill-Filled zero i remain m b l = same-Filled i (i + zero) remain none m (λ p. omega arith)
  fill-Filled (suc rounds) i remain m b l =
      let u : u32 i ≡ i = omega (arith, l) in
      elim (Bool-cases (remain == 0)) [
        | inl done ↦
            rw (done, fill)
              (same-Filled i (i + suc rounds) remain none m (λ p. absurd (ground (arith, done, p))))
        | inr more ↦ elim (Option-cases (lookup (u32 i) m)) [
          | inl missing ↦
              rw (more, fill)
                (rw (missing, fill)
                  (same-Filled i (i + suc rounds) remain (some (u32 i)) m (λ p. omega (arith, u))))
          | inr (f, h) ↦
              let c = lookup-IsBounded (u32 i) f m b h in
              let take = min remain (sub64 f.size f.progress) in
              let g : File P = record f { progress = add64 f.progress take } in
              let next = update-AllBounded (u32 i) g m b (advance f remain c) in
              let out = fill rounds (i + 1) (remain - take) (update (u32 i) g m) in
              let rest : Filled (suc i) (i + suc rounds) (update i g m) out =
                subst (λ k. Filled (suc i) (i + suc rounds) (update k g m) out) u
                  (subst (λ k. Filled k (i + suc rounds) (update (u32 i) g m) out) {x = i + 1}
                    {y = suc i} (omega arith)
                    (subst (λ k. Filled (i + 1) k (update (u32 i) g m) out) {x = i + 1 + rounds}
                      {y = i + suc rounds} (omega arith)
                      (fill-Filled rounds (i + 1) (remain - take) (update (u32 i) g m) next
                        (omega (arith, l))))) in
              rw (more, fill)
                (rw (h, fill)
                  (took-Filled i (i + suc rounds) remain take f g m out
                    (subst (λ k. lookup k m ≡ some f) u h)
                    (λ t. omega (arith, t, c.within, c.sized))
                    (λ t.
                      ap (λ n. fill rounds (i + 1) n (update (u32 i) g m)) {x = remain - take}
                        {y = 0} (omega arith)
                      ∙ fill-nothing rounds (i + 1) (update (u32 i) g m)
                      ∙ ap {B = List (ℕ × File P) × ℕ × Option ℕ} (λ k. (update k g m, 0, none)) u)
                    (fill-Fills rounds (i + 1) (remain - take) (update (u32 i) g m) next).2 rest))
        ]
      ]
