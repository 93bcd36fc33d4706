-- ===== src/Frete/Moved.antt =====
-- TransferSnapshot.cc, `progress_increment`: the loop loses no byte.
use infinit_io.Base.{
  ℕ, zero, suc, ◌+◌, ◌-◌, ◌≤◌, ◌≡◌, refl, inl, inr, min, Option, List, ◌==◌, lookup, update, u32,
  add64, sub64, arith, Bool-cases, Option-cases,
}
use infinit_io.Frete.Files.{
  File, total, IsBounded, AllBounded, total-update, lookup-IsBounded, update-AllBounded,
}
use infinit_io.Frete.Snapshot.{fill}

module _ {P : Type 0} where
  -- A file takes what it has room for.
  pub advance :
      (f : File P) (remain : ℕ)
      → IsBounded f
      → IsBounded (record f { progress = add64 f.progress (min remain (sub64 f.size f.progress)) })
  advance f remain b = record { within = omega (arith, b.within, b.sized); sized = b.sized }

  -- The loop moves bytes from the increment to the files, and loses none.
  abbrev pub Fills : ℕ → List (ℕ × File P) → List (ℕ × File P) × ℕ × Option ℕ → Type 0
  Fills remain m (m', left, e) =
      AllBounded m' × (total m' + left ≡ total m + remain) × (left ≤ remain)

  pub fill-Fills :
      (rounds i remain : ℕ) (m : List (ℕ × File P))
      → AllBounded m
      → Fills remain m (fill rounds i remain m)
  unfolding fill
  fill-Fills zero i remain m b = (b, refl, omega arith)
  fill-Fills (suc rounds) i remain m b = elim (Bool-cases (remain == 0)) [
    | inl done ↦ rw (done, fill) (b, refl, omega arith)
    | inr more ↦ elim (Option-cases (lookup (u32 i) m)) [
      | inl missing ↦ rw (more, fill) (rw (missing, fill) (b, refl, omega arith))
      | inr (f, h) ↦
          let b' = lookup-IsBounded (u32 i) f m b h in
          let take = min remain (sub64 f.size f.progress) in
          let g : File P = record f { progress = add64 f.progress take } in
          let rest =
            fill-Fills rounds (i + 1) (remain - take) (update (u32 i) g m)
              (update-AllBounded (u32 i) g m b (advance f remain b')) in
          rw (more, fill)
            (rw (h, fill)
              (
                rest.0,
                omega (arith, rest.1, total-update (u32 i) f g m h, b'.within, b'.sized),
                omega (arith, rest.2),
              ))
    ]
  ]
