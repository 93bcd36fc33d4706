-- ===== src/Gap/Send/Finalized.antt =====
-- SendMachine.cc, `_plain_upload`: what S3 is left with, and in how many parts.
use infinit_io.Base.{
  ℕ, ◌+◌, ◌*◌, ◌/◌, ◌%◌, ◌<◌, ◌≤◌, ◌≡◌, refl, ap, ◌∙◌, true, false, Option, none, some, List, [],
  ◌∷◌, arith, length, drop, ◌==◌, if_cases, has, count, Bool-cases, inl, inr,
}
use native.Mathlib.Nat.{div-lt_iff_lt-mul}
use infinit_io.Gap.Send.Workers.{put_ne}
use infinit_io.Gap.Send.Multipart.{
  Chunk, Upload, Work, idle, uploading, returned, chunk_count_of, chunk_size_of, sort, fetched,
  turn, run, resume, finalize, uploaded,
}
use infinit_io.Gap.Send.Parts.{
  is_part, AllParts, AllParts-sort, IsDistinct, sort-IsSortedFrom, has-sort, join-drop,
}
use infinit_io.Gap.Send.Assembled.{run-Sound}
use infinit_io.Gap.Send.Whole.{chunk_count-covers, resume-Sound, run-Ends, resume-Ends}

module _ (file : List ℕ) (chunk_size : ℕ) where
  fetched-doing :
      (i j : ℕ) (r : ℕ × Option ℕ) (u : Upload)
      → (j == i) ≡ false
      → (fetched j r u).doing i ≡ u.doing i
  unfolding fetched
  fetched-doing i j (after, none) u g = put_ne j i returned u.doing g
  fetched-doing i j (after, some id) u g = put_ne j i (uploading id) u.doing g

  turn-doing :
      (i j : ℕ) (d : Work) (u : Upload)
      → (j == i) ≡ false
      → (turn file chunk_size j d u).doing i ≡ u.doing i
  unfolding turn uploaded
  turn-doing i j idle u g = fetched-doing i j _ u g
  turn-doing i j (uploading id) u g = put_ne j i idle u.doing g
  turn-doing i j returned u g = refl

  -- A thread without a turn does what it did.
  run-doing :
      (i : ℕ) (turns : List ℕ) (u : Upload)
      → has (λ j. j == i) turns ≡ false
      → (run file chunk_size turns u).doing i ≡ u.doing i
  unfolding run has
  run-doing i [] u h = refl
  run-doing i (j ∷ r) u h =
      run-doing i r _ (ground arith) ∙ turn-doing i j (u.doing j) u (ground arith)

  -- An upload of a file to S3, resumed from parts of distinct numbers of this file with the bytes of
  -- these numbers, ends where every thread that takes turns has more than two for each chunk of the
  -- file, and the parts put together are then the file, whatever the order of the turns.
  pub finalize-run :
      (listed : List Chunk) (i : ℕ) (turns : List ℕ)
      → 0 < chunk_size
      → AllParts file chunk_size (chunk_count_of (length file) chunk_size) listed
      → IsDistinct listed
      → ((j : ℕ)
          → has (λ k. k == j) (i ∷ turns) ≡ true
          → 2 * chunk_count_of (length file) chunk_size < count (λ k. k == j) (i ∷ turns))
      → let end = run file chunk_size (i ∷ turns) (resume listed) in
        ((j : ℕ) → has (λ k. k == j) (i ∷ turns) ≡ true → end.doing j ≡ returned)
        × (finalize end ≡ file)
  unfolding finalize resume has
  finalize-run listed i turns pos parts distinct many =
      let total = chunk_count_of (length file) chunk_size in
      let xs = sort listed in
      let sorted = sort-IsSortedFrom listed distinct in
      let u = resume listed in
      let w = resume-Sound file chunk_size listed parts distinct in
      let v = run-Sound file chunk_size xs sorted (i ∷ turns) u w in
      let end : Upload = run file chunk_size (i ∷ turns) u in
      let ends : (j : ℕ) → has (λ k. k == j) (i ∷ turns) ≡ true → end.doing j ≡ returned =
        λ (j : ℕ) h.
          run-Ends file chunk_size xs sorted j (i ∷ turns) u w
            (resume-Ends file chunk_size listed j _ (many j h)) in
      let over = v.ended i (ends i (ground arith)) in
      let all_there : (id : ℕ) → 0 ≤ id → id < total → has (is_part id) (sort end.chunks) ≡ true =
        λ (id : ℕ) a b. has-sort id end.chunks ∙ elim (v.done id (omega arith)) [
          | inl z ↦ z
          | inr (j, z) ↦ absurd (elim (Bool-cases (has (λ k. k == j) (i ∷ turns))) [
            | inl g ↦ let e = ends j g in ground arith
            | inr g ↦ let e = run-doing j (i ∷ turns) u g in ground arith
          ])
        ] in
      (
        ends,
        join-drop file chunk_size total 0 (sort end.chunks)
              (AllParts-sort file chunk_size total end.chunks v.whole)
              (sort-IsSortedFrom end.chunks v.distinct) all_there
              (chunk_count-covers (length file) chunk_size pos)
            ∙ ap (λ n. drop n file) {x = 0 * chunk_size} {y = 0} (omega arith),
      )

chunk_size-ge :
    (configured n : ℕ)
    → (5242880 ≤ chunk_size_of configured n) × (n / 9500 ≤ chunk_size_of configured n)
unfolding chunk_size_of
chunk_size-ge configured n = ground arith

chunk_count-ge_size :
    (n chunk_size : ℕ)
    → 5242880 ≤ chunk_size
    → n / 9500 ≤ chunk_size
    → chunk_count_of n chunk_size ≤ 10000
unfolding chunk_count_of
chunk_count-ge_size n chunk_size a b =
    let few =
      (div-lt_iff_lt-mul {k = chunk_size} {x = n} {y = 9501} (omega arith)).1 (omega arith) in
    if_cases (λ k. n / chunk_size + k ≤ 10000) (n % chunk_size == 0) 0 1 (λ _. omega arith)
      (λ _. omega arith)

-- The size of the parts of an upload to S3 is at least 5 MiB, whatever the configured size and that of the
-- file, and there are at most 10,000 parts; the last one may be smaller.
pub chunk_count-le :
    (configured n : ℕ)
    → (5242880 ≤ chunk_size_of configured n)
      × (chunk_count_of n (chunk_size_of configured n) ≤ 10000)
chunk_count-le configured n =
    let (a, b) = chunk_size-ge configured n in (a, chunk_count-ge_size n _ a b)
