-- ===== src/Gap/Receive/Blocks.antt =====
-- PeerReceiveMachine.cc, `_disk_thread`: what is on disk is a prefix of what the sender serves.
use infinit_io.Base.{
  ℕ, zero, suc, ◌+◌, ◌<◌, ◌≡◌, refl, ◌∙◌, sym, ap, inl, inr, ◌⊎◌, Bool, true, false, Option, none,
  some, List, length, take, lookup, u32, ◌==◌, ==_iff, arith, Bool-cases, Option-cases,
}
use infinit_io.Frete.Files.{File, AllBounded}
use infinit_io.Gap.Receive.Writer.{Fault, Writer, advance}

module _ {P : Type 0} {K : Type 0} where
  -- The writer stands at the progress of the file that it expects.
  pub record IsCurrent (w : Writer P K) : Type 0 where
    pub current : File P
    pub found : lookup w.expected_file w.snapshot.files ≡ some current
    pub at : current.progress ≡ w.expected_position
    pub full : current.size ≡ w.full_size
    pub among : w.expected_file < w.snapshot.count
    pub writing : w.finished ≡ false

module _ {P : Type 0} {K : Type 0} (content : ℕ → List ℕ) where
  -- Each file is on disk up to its progress, those before the expected one wholly.
  pub record IsFaithful (w : Writer P K) : Type 0 where
    pub bounded : AllBounded w.snapshot.files
    pub sized :
        (id : ℕ) (f : File P) → lookup id w.snapshot.files ≡ some f → f.size ≡ length (content id)
    pub stored :
        (id : ℕ) (f : File P)
        → lookup id w.snapshot.files ≡ some f
        → w.disk id ≡ take f.progress (content id)
    pub behind :
        (id : ℕ) (f : File P)
        → id < w.expected_file
        → lookup id w.snapshot.files ≡ some f
        → f.progress ≡ f.size
    pub counted : w.snapshot.count < 4294967296
    pub ended : w.finished ≡ true → w.expected_file ≡ w.snapshot.count

  -- The loop over files that are complete: each is then behind.
  abbrev pub Advances : Writer P K × Option Fault → Type 0
  Advances (w, e) = IsFaithful w × (e ≡ none → (w.finished ≡ true) ⊎ IsCurrent w)

  behind_suc :
      (w : Writer P K)
      → IsFaithful w
      → (c : IsCurrent w) → w.expected_position ≡ w.full_size
      → (id : ℕ) (f : File P) → id < suc w.expected_file
      → lookup id w.snapshot.files ≡ some f
      → f.progress ≡ f.size
  behind_suc w v c e id f l h = elim (Bool-cases (id == w.expected_file)) [
    | inl same ↦
        let here : some f ≡ some c.current =
          sym h
          ∙ ap (λ n. lookup n w.snapshot.files) ((==_iff id w.expected_file).0 same)
          ∙ c.found in
        ground (arith, here, c.at, c.full, e)
    | inr other ↦ v.behind id f (ground (arith, ==_iff id w.expected_file)) h
  ]

  passed :
      (w : Writer P K)
      → IsFaithful w
      → IsCurrent w
      → w.expected_position ≡ w.full_size
      → (file p n : ℕ) (done : Bool) → file ≡ suc w.expected_file
      → (done ≡ true → file ≡ w.snapshot.count)
      → IsFaithful
          (record w { expected_file = file; expected_position = p; full_size = n; finished = done })
  passed w v c e file p n done next last = record {
    bounded = v.bounded;
    sized = v.sized;
    stored = v.stored;
    behind = λ id f l h. behind_suc w v c e id f (omega (arith, l, next)) h;
    counted = v.counted;
    ended = last;
  }

  on :
      (w : Writer P K)
      → IsFaithful w
      → IsCurrent w
      → w.expected_position ≡ w.full_size
      → (file p n : ℕ) → file ≡ suc w.expected_file
      → IsFaithful (record w { expected_file = file; expected_position = p; full_size = n })
  on w v c e file p n next =
      passed w v c e file p n w.finished next (λ d. ground (arith, d, c.writing))

  pub advance-Advances :
      (rounds : ℕ) (w : Writer P K) → IsFaithful w → IsCurrent w → Advances (advance rounds w)
  unfolding advance
  advance-Advances zero w v c = (v, λ e. inr c)
  advance-Advances (suc rounds) w v c = elim (Bool-cases (w.expected_position == w.full_size)) [
    | inr short ↦ rw (short, advance) (v, λ e. inr c)
    | inl done ↦
        let file : ℕ = u32 (w.expected_file + 1) in
        let next : file ≡ suc w.expected_file = omega (arith, v.counted, c.among) in
        let whole = (==_iff w.expected_position w.full_size).0 done in
        rw (done, advance)
          (elim (Bool-cases (file == w.snapshot.count)) [
            | inl last ↦
                rw (last, advance)
                  (
                    passed w v c whole file w.expected_position w.full_size true next
                        (λ e. (==_iff file w.snapshot.count).0 last),
                    λ e. inl refl,
                  )
            | inr more ↦
                rw (more, advance)
                  (elim (Option-cases (lookup file w.snapshot.files)) [
                    | inl missing ↦
                        rw (missing, advance)
                          (
                            on w v c whole file w.expected_position w.full_size next,
                            λ e. ground arith,
                          )
                    | inr (f, h) ↦
                        rw (h, advance)
                          (elim (Bool-cases (w.opens file)) [
                            | inr shut ↦
                                rw (shut, advance)
                                  (on w v c whole file f.progress f.size next, λ e. ground arith)
                            | inl ready ↦
                                rw (ready, advance)
                                  (advance-Advances rounds _
                                    (on w v c whole file f.progress f.size next)
                                    (record {
                                      current = f;
                                      found = h;
                                      at = refl;
                                      full = refl;
                                      among = ground (
                                        arith,
                                        next,
                                        more,
                                        c.among,
                                        ==_iff file w.snapshot.count,
                                      );
                                      writing = c.writing;
                                    }))
                          ])
                  ])
          ])
  ]
