-- ===== src/Frete/Cache.antt =====
-- frete/src/frete/Frete.cc, `_fetch_cache`: how many files the sender keeps open.
use infinit_io.Base.{
  ℕ, zero, suc, ◌+◌, ◌≤◌, ◌<◌, ◌≡◌, refl, false, none, List, [], ◌∷◌, inl, inr, length, lookup, ltb,
  ◌==◌, if◌then◌else◌, arith, Bool-cases, Option-cases, ==_iff, subst,
}
use infinit_io.Frete.Files.{Filesystem}
use infinit_io.Frete.Server.{
  Disk, Crypto, Handle, Frete, age, fetch_cache, local_path, max_count_for_full_cache,
}

module _ {P : Type 0} where
  -- How many entries were unused for fewer than `n` fetches.
  abbrev pub younger : ℕ → List (ℕ × Handle P) → ℕ
  younger n [] = 0
  younger n ((j, h) ∷ m) = if ltb h.misses n then suc (younger n m) else younger n m

  -- The keys are distinct: `id` is not among the rest.
  abbrev pub Absent : ℕ → List (ℕ × Handle P) → Type 0
  Absent id [] = Unit {0}
  Absent id ((j, h) ∷ m) = ((j == id) ≡ false) × Absent id m

  abbrev pub Distinct : List (ℕ × Handle P) → Type 0
  Distinct [] = Unit {0}
  Distinct ((j, h) ∷ m) = Absent j m × Distinct m

  age-Absent : (id j : ℕ) (m : List (ℕ × Handle P)) → Absent j m → Absent j (age id m)
  unfolding age
  age-Absent id j [] h = tt
  age-Absent id j ((i, x) ∷ m) h = ground (arith, age-Absent id j m h.1)

  age-Distinct : (id : ℕ) (m : List (ℕ × Handle P)) → Distinct m → Distinct (age id m)
  unfolding age
  age-Distinct id [] d = tt
  age-Distinct id ((i, x) ∷ m) d = ground (arith, age-Absent id i m d.0, age-Distinct id m d.1)

  younger-age-Absent :
      (id n : ℕ) (m : List (ℕ × Handle P)) → Absent id m → younger (suc n) (age id m) ≤ younger n m
  unfolding age
  younger-age-Absent id n [] h = omega arith
  younger-age-Absent id n ((j, x) ∷ m) h = ground (arith, younger-age-Absent id n m h.1)

  younger-age :
      (id n : ℕ) (m : List (ℕ × Handle P))
      → Distinct m
      → younger (suc n) (age id m) ≤ suc (younger n m)
  unfolding age
  younger-age id n [] d = omega arith
  younger-age id n ((j, x) ∷ m) d = elim (Bool-cases (j == id)) [
    | inl hit ↦
        ground
          (arith, younger-age-Absent id n m (subst (λ k. Absent k m) ((==_iff j id).0 hit) d.0))
    | inr miss ↦ ground (arith, younger-age id n m d.1)
  ]

  -- No entry is unused for more than ten fetches.
  length-age : (id : ℕ) (m : List (ℕ × Handle P)) → length (age id m) ≡ younger 11 (age id m)
  unfolding age
  length-age id [] = refl
  length-age id ((j, x) ∷ m) = ground (arith, length-age id m)

  lookup-Absent : (id : ℕ) (m : List (ℕ × Handle P)) → lookup id m ≡ none → Absent id m
  unfolding lookup
  lookup-Absent id [] h = tt
  lookup-Absent id ((j, x) ∷ m) h = ground (arith, lookup-Absent id m)

  younger-zero : (m : List (ℕ × Handle P)) → younger 0 m ≡ 0
  younger-zero [] = refl
  younger-zero ((j, x) ∷ m) = ground (arith, younger-zero m)

  -- Fewer than `n` fetches ago there were at most `n` fetches; `slack` counts the files opened
  -- before the cache was kept small.
  pub record IsAged (slack : ℕ) (m : List (ℕ × Handle P)) : Type 0 where
    pub distinct : Distinct m
    pub spread : (n : ℕ) → younger n m ≤ n + slack

  spread_suc :
      (slack : ℕ) (m : List (ℕ × Handle P))
      → ((n : ℕ) → younger (suc n) m ≤ suc (n + slack))
      → (n : ℕ) → younger n m ≤ n + slack
  spread_suc slack m h zero = rw (younger-zero m) (omega arith)
  spread_suc slack m h (suc n) = omega (arith, h n)

  age-IsAged : (slack id : ℕ) (m : List (ℕ × Handle P)) → IsAged slack m → IsAged slack (age id m)
  age-IsAged slack id m v = record {
    distinct = age-Distinct id m v.distinct;
    spread =
        spread_suc slack (age id m) (λ n. omega (arith, younger-age id n m v.distinct, v.spread n));
  }

  open-IsAged :
      (slack id : ℕ) (x : Handle P) (m : List (ℕ × Handle P))
      → Absent id m
      → IsAged slack m
      → IsAged slack (age id ((id, x) ∷ m))
  open-IsAged slack id x m a v = record {
    distinct = age-Distinct id ((id, x) ∷ m) (a, v.distinct);
    spread = spread_suc slack (age id ((id, x) ∷ m)) (λ n. ground (arith, opened n, v.spread n));
  }
    where
      opened : (n : ℕ) → younger (suc n) (age id ((id, x) ∷ m)) ≤ suc (younger n m)
      opened n = unfold age in ground (arith, younger-age-Absent id n m a)

module _ {P : Type 0} {K : Type 0} {c : Crypto K} (fs : Filesystem P) (disk : Disk P) where
  -- A transfer of many files: the cache is never grown without being aged.
  pub record IsSmall (slack : ℕ) (s : Frete P K c) : Type 0 where
    pub many : max_count_for_full_cache < s.snapshot.count
    pub aged : IsAged slack s.cache
    pub small : length s.cache ≤ 11 + slack

  pub fetch_cache-IsSmall :
      (slack id : ℕ) (s : Frete P K c)
      → IsSmall slack s
      → IsSmall slack (fetch_cache fs disk id s).0
  unfolding fetch_cache
  fetch_cache-IsSmall slack id s v = elim (Option-cases (lookup id s.cache)) [
    | inr (h, e) ↦
        rw (e, fetch_cache)
          (rw (aging s.cache) (small (age-IsAged slack id s.cache v.aged) (length-age id s.cache)))
    | inl e ↦
        rw (e, fetch_cache)
          (elim (Option-cases (local_path fs disk id s)) [
            | inl missing ↦ rw (missing, fetch_cache) v
            | inr (p, found) ↦
                rw (found, fetch_cache)
                  (elim (Bool-cases (disk.opens p)) [
                    | inl opened ↦
                        let m : List (ℕ × Handle P) =
                          (id, record { path = p; misses = 0 }) ∷ s.cache in
                        rw (opened, fetch_cache)
                          (rw (aging m) (
                            small
                              (open-IsAged slack id _ s.cache (lookup-Absent id s.cache e) v.aged)
                              (length-age id m)))
                    | inr failed ↦ rw (failed, fetch_cache) v
                  ])
          ])
  ]
    where
      aging :
          (m : List (ℕ × Handle P))
          → (if ltb max_count_for_full_cache s.snapshot.count then age id m else m) ≡ age id m
      aging m = ground (arith, v.many)

      small :
          {m : List (ℕ × Handle P)}
          → IsAged slack m
          → length m ≡ younger 11 m
          → IsSmall slack (record s { cache = m })
      small {m} a e = record { many = v.many; aged = a; small = omega (arith, a.spread 11) }

  -- The files read one after the other, whether or not each can be opened.
  pub fetch_all : List ℕ → Frete P K c → Frete P K c
  unfolding fetch_cache
  fetch_all [] s = s
  fetch_all (id ∷ ids) s = fetch_all ids (fetch_cache fs disk id s).0

  fetch_all-IsSmall :
      (slack : ℕ) (ids : List ℕ) (s : Frete P K c)
      → IsSmall slack s
      → IsSmall slack (fetch_all ids s)
  unfolding fetch_all
  fetch_all-IsSmall slack [] s v = v
  fetch_all-IsSmall slack (id ∷ ids) s v =
      fetch_all-IsSmall slack ids (fetch_cache fs disk id s).0 (fetch_cache-IsSmall slack id s v)

  -- A sender of more than twenty files that starts with no file open has at most eleven of them
  -- open after any sequence of fetches.
  pub fetch_all-bounded :
      (ids : List ℕ) (s : Frete P K c)
      → s.cache ≡ []
      → max_count_for_full_cache < s.snapshot.count
      → length (fetch_all ids s).cache ≤ 11
  fetch_all-bounded ids s e many = omega (arith, (fetch_all-IsSmall 0 ids s start).small)
    where
      start : IsSmall 0 s
      start = record {
        many = many;
        aged = rw e (record { distinct = tt; spread = λ n. omega arith });
        small = rw e (omega arith);
      }
