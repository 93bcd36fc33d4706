-- ===== src/Frete/Progress.antt =====
-- frete/src/frete/TransferSnapshot.cc: the progress of the files and the overall progress agree.
use infinit_io.Base.{
  ℕ, ◌+◌, ◌≤◌, ◌<◌, ◌≡◌, refl, ◌⊎◌, inl, inr, min, Option, none, some, List, [], ◌∷◌, ◌==◌, lookup,
  update, u64, add64, sub64, u64_mod, arith, lookup-update_self, ==_iff, Bool-cases,
}
use infinit_io.Frete.Files.{
  File, total, IsBounded, AllBounded, total-update, lookup-IsBounded, update-AllBounded,
}
use infinit_io.Frete.Snapshot.{
  Snapshot, Error, out_of_range, excess, fill, filled, file_progress_increment, file_progress_set,
  progress_increment, recompute_progress, sum_progress,
}
use infinit_io.Frete.Moved.{Fills, fill-Fills}
use infinit_io.Frete.Filling.{IsFull, IsInOrder, Filled, fill-Filled}

-- The difference wraps around when a file is rewound, and the two additions undo that.
rewind : (p x n : ℕ) → p ≤ n → n < u64_mod → add64 p (sub64 (min x n) p) ≡ min x n
rewind p x n h k = omega arith

module _ {P : Type 0} where
  pub sum_progress_lem :
      (m : List (ℕ × File P)) (acc : ℕ) → acc < u64_mod → sum_progress m acc ≡ u64 (acc + total m)
  unfolding sum_progress
  sum_progress_lem [] acc h = omega arith
  sum_progress_lem ((k, f) ∷ m) acc h =
      omega (arith, sum_progress_lem m (add64 acc f.progress) (omega arith))

module _ {P : Type 0} {K : Type 0} where
  -- No file is past its end, and the overall progress is the sum over the files.
  pub record IsSynced (s : Snapshot P K) : Type 0 where
    pub bounded : AllBounded s.files
    pub summed : s.progress ≡ u64 (total s.files)

  file_progress_set_lem :
      (id size : ℕ) (s : Snapshot P K) (f : File P)
      → lookup id s.files ≡ some f
      → IsBounded f
      → file_progress_set id size s ≡ (
        record s {
          files = update id (record f { progress = min size f.size }) s.files;
          progress = add64 s.progress (sub64 (min size f.size) f.progress);
        },
        none,
      )
  unfolding file_progress_set
  file_progress_set_lem id size s f h b =
      rw (h, file_progress_set)
        (rw (h, file_progress_increment)
          (ground (arith, rewind f.progress size f.size b.within b.sized)))

  -- In a snapshot whose progress is in step, whatever position a peer asks for, forwards, backwards or past
  -- the end of a file that is known, the file stands at that position, cut to its size, and the
  -- overall progress is again the sum over the files.
  pub file_progress_set-IsSynced :
      (id size : ℕ) (s : Snapshot P K) (f : File P)
      → IsSynced s
      → lookup id s.files ≡ some f
      → let (t, e) = file_progress_set id size s in
        (e ≡ none)
        × (lookup id t.files ≡ some (record f { progress = min size f.size }))
        × IsSynced t
  file_progress_set-IsSynced id size s f v h =
      let b : IsBounded f = lookup-IsBounded id f s.files v.bounded h in
      let g : File P = record f { progress = min size f.size } in
      rw (file_progress_set_lem id size s f h b) (
        refl,
        lookup-update_self id g f s.files h,
        record {
          bounded =
              update-AllBounded id g s.files v.bounded
                (record { within = omega arith; sized = b.sized });
          summed = omega (arith, v.summed, total-update id f g s.files h, b.within, b.sized);
        },
      )

  -- The three ways in which `progress_increment` ends, the files taking bytes in the order of their ids. It returns once every byte of the
  -- increment is in a file. It throws when the files that are announced are full, having moved
  -- what they could take. It throws at a file that is not there.
  abbrev pub Increments : ℕ → Snapshot P K → Snapshot P K × Option Error → Type 0
  Increments increment s (t, e) =
      IsInOrder s.files t.files
      × (((e ≡ none) × IsSynced t × (total t.files ≡ total s.files + increment))
          ⊎ ((r : ℕ) × (e ≡ some (excess r))
              × (0 < r)
              × IsFull s.count t.files
              × IsSynced t
              × (total t.files + r ≡ total s.files + increment))
          ⊎ ((k left : ℕ) × (e ≡ some (out_of_range k))
              × (0 < left → IsFull k t.files)
              × (t.progress ≡ s.progress)
              × AllBounded t.files
              × (total t.files + left ≡ total s.files + increment)))

  -- Where progress is in step and there are at most 2^32 files, `progress_increment` gives the bytes to the
  -- files in the order of their ids, each full before the next gets any. It returns with every byte of
  -- the increment in a file and progress in step; or it throws with all files full, progress in step and
  -- the bytes named that found no room; or it throws at a file that is not there, those before it full where bytes are left, and
  -- then the bytes already given to files are missing from the overall progress.
  pub progress_increment-Increments :
      (increment : ℕ) (s : Snapshot P K)
      → IsSynced s
      → s.count ≤ 4294967296
      → Increments increment s (progress_increment increment s)
  unfolding progress_increment
  progress_increment-Increments increment s v l =
      split (fill s.count 0 increment s.files) (fill-Fills s.count 0 increment s.files v.bounded)
        (fill-Filled s.count 0 increment s.files v.bounded (omega arith))
    where
      split :
          (out : List (ℕ × File P) × ℕ × Option ℕ)
          → Fills increment s.files out
          → Filled 0 (0 + s.count) s.files out
          → Increments increment s (filled increment s out)
      split (fs, left, some id) (b, m, l) r = (
        λ j k f. r.order j k f (omega arith),
        inr (inr (id, left, refl, λ p k a. r.full k p (omega arith) a, refl, b, m)),
      )
      split (fs, left, none) (b, m, l) r = elim (Bool-cases (left == 0)) [
        | inl done ↦
            let none_left = (==_iff left 0).0 done in
            rw (done, filled)
              (
                λ j k f. r.order j k f (omega arith),
                inl (refl, record { bounded = b; summed = omega (arith, v.summed) }, omega arith),
              )
        | inr more ↦
            rw (more, filled)
              (
                λ j k f. r.order j k f (omega arith),
                inr (
                    inl (
                      left,
                      refl,
                      ground arith,
                      λ k a. r.full k (ground arith) (omega arith) (omega (arith, a)),
                      record { bounded = b; summed = omega (arith, v.summed) },
                      m,
                    )),
              )
      ]

  -- Whatever overall progress was stored, that of a snapshot of bounded files is the sum over them
  -- once it is computed again.
  pub recompute_progress-IsSynced :
      (s : Snapshot P K) → AllBounded s.files → IsSynced (recompute_progress s)
  unfolding recompute_progress
  recompute_progress-IsSynced s b = record {
    bounded = b;
    summed = omega (arith, sum_progress_lem s.files 0);
  }
