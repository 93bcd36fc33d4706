-- ===== src/Gap/Receive/Cut.antt =====
-- PeerReceiveMachine.cc, `_disk_thread`: what is on disk when a write fails before its end.
use infinit_io.Base.{
  ℕ, zero, suc, ◌+◌, ◌≤◌, ◌≡◌, refl, ◌∙◌, sym, ap, subst, inl, inr, true, false, Option, some, List,
  [], ◌∷◌, ◌++◌, length, take, drop, lookup, ◌==◌, ◌&&◌, ==_iff, arith, Bool-cases, length-take,
  length-append, take-append-drop,
}
use infinit_io.Frete.Files.{File, lookup-IsBounded}
use infinit_io.Gap.Receive.Writer.{cuts, Block, Fault, io_error, Writer, append_to, write_block}
use infinit_io.Gap.Receive.Blocks.{IsFaithful, IsCurrent}
use infinit_io.Gap.Receive.Written.{Served}

-- A file on disk is a beginning of the sender's, and has at least the bytes that are recorded.
abbrev pub IsCovered : List ℕ → List ℕ → ℕ → Type 0
IsCovered content bytes progress = (bytes ≡ take (length bytes) content) × (progress ≤ length bytes)

whole-IsCovered :
    (content bytes : List ℕ) (p : ℕ)
    → bytes ≡ take p content
    → p ≤ length content
    → IsCovered content bytes p
whole-IsCovered content bytes p e h =
    let n : length bytes ≡ p = ap length e ∙ (omega (arith, length-take p content, h)) in
    (e ∙ ap (λ k. take k content) (sym n), omega (arith, n))

take-take : (n c : ℕ) (xs : List ℕ) → (k : ℕ) × (take n (take c xs) ≡ take k xs)
take-take zero c xs = (0, refl)
take-take (suc n) zero xs = (0, refl)
take-take (suc n) (suc c) [] = (0, refl)
take-take (suc n) (suc c) (x ∷ xs) = let (k, e) = take-take n c xs in (suc k, ap (◌∷◌ x) e)

extended-IsCovered :
    (content bytes : List ℕ) (p c n : ℕ)
    → bytes ≡ take p content
    → p ≤ length content
    → IsCovered content (bytes ++ take n (take c (drop p content))) p
extended-IsCovered content bytes p c n e h =
    let (k, t) = take-take n c (drop p content) in
    let more = take n (take c (drop p content)) in
    let whole : bytes ++ more ≡ take (p + length more) content =
      ap (λ u. u ++ more) e
      ∙ ap (λ u. take p content ++ u) t
      ∙ take-append-drop p k content h
      ∙ ap (λ u. take (p + length u) content) (sym t) in
    let size = length-append bytes more in
    let own : length bytes ≡ p = ap length e ∙ (omega (arith, length-take p content, h)) in
    (
      whole
          ∙ ap (λ m. take m content) {x = p + length more} {y = length (bytes ++ more)}
              (omega (arith, size, own)),
      omega (arith, size, own),
    )

module _ {P : Type 0} {K : Type 0} (content : ℕ → List ℕ) where
  -- A write has failed, and every file is covered.
  abbrev pub Cut : Writer P K × Option Fault → Type 0
  Cut (t, e) =
      (e ≡ some io_error)
      × (t.finished ≡ false)
      × ((id : ℕ) (f : File P)
          → lookup id t.snapshot.files ≡ some f
          → IsCovered (content id) (t.disk id) f.progress)

  pub faithful-IsCovered :
      (w : Writer P K) (id : ℕ) (f : File P)
      → IsFaithful content w
      → lookup id w.snapshot.files ≡ some f
      → IsCovered (content id) (w.disk id) f.progress
  faithful-IsCovered w id f v h =
      whole-IsCovered (content id) (w.disk id) f.progress (v.stored id f h)
        (omega (arith, v.sized id f h, (lookup-IsBounded id f w.snapshot.files v.bounded h).within))

  module _ (chunk_size : ℕ) (b : Block) (w : Writer P K) (n : ℕ)
      (served : Served content chunk_size b) (v : IsFaithful content w) (c : IsCurrent w)
      (file : w.expected_file ≡ b.file_index)
      (position : w.expected_position ≡ b.start_position) where
    expected_file-IsCovered :
        (f : File P)
        → lookup w.expected_file w.snapshot.files ≡ some f
        → IsCovered (content w.expected_file) (w.disk w.expected_file ++ take n b.buffer) f.progress
    expected_file-IsCovered f h =
        let same : f.progress ≡ w.expected_position = ground (arith, sym h ∙ c.found, c.at) in
        let piece : b.buffer ≡ take chunk_size (drop f.progress (content w.expected_file)) =
          rw (file, same, position) served in
        subst
          (λ u. IsCovered (content w.expected_file) (w.disk w.expected_file ++ take n u) f.progress)
          (sym piece)
          (extended-IsCovered (content w.expected_file) (w.disk w.expected_file) f.progress
            chunk_size n (v.stored w.expected_file f h)
            (omega (
              arith,
              v.sized w.expected_file f h,
              (lookup-IsBounded w.expected_file f w.snapshot.files v.bounded h).within,
            )))

    ids-IsCovered :
        (id : ℕ) (f : File P)
        → lookup id w.snapshot.files ≡ some f
        → IsCovered (content id) (append_to w.disk w.expected_file (take n b.buffer) id) f.progress
    ids-IsCovered id f h = elim (Bool-cases (w.expected_file == id)) [
      | inl same ↦
          let equal = (==_iff w.expected_file id).0 same in
          subst
            (λ k.
              IsCovered (content k) (append_to w.disk w.expected_file (take n b.buffer) k)
                f.progress)
            equal
            (rw ((==_iff w.expected_file w.expected_file).1 refl) (
              expected_file-IsCovered f
                (subst (λ k. lookup k w.snapshot.files ≡ some f) (sym equal) h)))
      | inr other ↦ rw other (faithful-IsCovered w id f v h)
    ]

    hit : ((w.expected_file == b.file_index) && (w.expected_position == b.start_position)) ≡ true
    hit = ground (
      arith,
      ==_iff w.expected_file b.file_index,
      ==_iff w.expected_position b.start_position,
      file,
      position,
    )

    pub write_block-Cut : b.io ≡ cuts n → Cut (write_block chunk_size b w)
    unfolding write_block
    write_block-Cut io = rw (hit, write_block, io) (refl, c.writing, ids-IsCovered)
