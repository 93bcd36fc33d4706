-- ===== src/Gap/Receive/Received.antt =====
-- PeerReceiveMachine.cc, `_disk_thread`: the files that are received are the files that were sent.
use infinit_io.Base.{
  ℕ, ◌≤◌, ◌<◌, ◌≡◌, refl, ◌∙◌, sym, subst, inl, inr, ◌⊎◌, Bool, true, Option, some, ◌&&◌, none,
  some, List, [], ◌∷◌, length, take, lookup, ◌==◌, ==_iff, arith, Bool-cases, Option-cases,
  take_all,
}
use infinit_io.Frete.Files.{File}
use infinit_io.Gap.Receive.Writer.{
  works, cuts, unsaved, Io, Block, Fault, Writer, write_block, write_all,
}
use infinit_io.Gap.Receive.Cut.{Cut, faithful-IsCovered, write_block-Cut}
use infinit_io.Gap.Receive.Blocks.{IsFaithful, IsCurrent, Advances, advance-Advances}
use infinit_io.Gap.Receive.Written.{
  Served, moved, moved-IsFaithful, moved-IsCurrent, write_block-moved, write_block-unsaved,
}

abbrev pub AllServed : (ℕ → List ℕ) → ℕ → List Block → Type 0
AllServed content chunk_size [] = Unit {0}
AllServed content chunk_size (b ∷ bs) =
    Served content chunk_size b × AllServed content chunk_size bs

module _ {P : Type 0} {K : Type 0} (content : ℕ → List ℕ) (chunk_size : ℕ) where
  -- Either the writer goes on, or a write has failed.
  abbrev Keeps : Writer P K × Option Fault → Type 0
  Keeps r = Advances content r ⊎ Cut content r

  -- A block that is expected, of a file system that refuses nothing.
  pub write_block-Advances :
      (b : Block) (w : Writer P K)
      → Served content chunk_size b
      → IsFaithful content w
      → IsCurrent w
      → b.io ≡ works
      → w.expected_file ≡ b.file_index
      → w.expected_position ≡ b.start_position
      → Advances content (write_block chunk_size b w)
  write_block-Advances b w s v c io file position =
      subst (Advances content)
        (sym (write_block-moved content w v c chunk_size b s file position io))
        (advance-Advances content w.snapshot.count (moved w c.current b.buffer)
          (moved-IsFaithful content w v c chunk_size b s file position)
          (moved-IsCurrent content w v c chunk_size b s file position))

  -- The snapshot is not saved, and the position that is expected not updated.
  write_block-Unsaved :
      (b : Block) (w : Writer P K)
      → Served content chunk_size b
      → IsFaithful content w
      → IsCurrent w
      → b.io ≡ unsaved
      → w.expected_file ≡ b.file_index
      → w.expected_position ≡ b.start_position
      → Advances content (write_block chunk_size b w)
  write_block-Unsaved b w s v c io file position =
      let m = moved-IsFaithful content w v c chunk_size b s file position in
      subst (Advances content)
        (sym (write_block-unsaved content w v c chunk_size b s file position io))
        (
          record {
            bounded = m.bounded;
            sized = m.sized;
            stored = m.stored;
            behind = m.behind;
            counted = m.counted;
            ended = m.ended;
          },
          λ e. ground arith,
        )

  write_block-Keeps :
      (b : Block) (w : Writer P K)
      → Served content chunk_size b
      → IsFaithful content w
      → IsCurrent w
      → Keeps (write_block chunk_size b w)
  write_block-Keeps b w s v c = elim (Bool-cases (expected b w)) [
    | inl hit ↦
        with_io b.io refl ((==_iff w.expected_file b.file_index).0 (ground arith))
          ((==_iff w.expected_position b.start_position).0 (ground arith))
    | inr miss ↦ inl (unfold write_block in rw (miss, write_block) (v, λ e. ground arith))
  ]
    where
      expected : Block → Writer P K → Bool
      expected b w = (w.expected_file == b.file_index) && (w.expected_position == b.start_position)

      with_io :
          (io : Io)
          → b.io ≡ io
          → w.expected_file ≡ b.file_index
          → w.expected_position ≡ b.start_position
          → Keeps (write_block chunk_size b w)
      with_io works e file position = inl (write_block-Advances b w s v c e file position)
      with_io unsaved e file position = inl (write_block-Unsaved b w s v c e file position)
      with_io (cuts n) e file position =
          inr (write_block-Cut content chunk_size b w n s v c file position e)

  write_all_finished :
      (bs : List Block) (w : Writer P K) → w.finished ≡ true → write_all chunk_size bs w ≡ (w, none)
  unfolding write_all
  write_all_finished [] w h = refl
  write_all_finished (b ∷ bs) w h = ground (arith, h)

  write_all-Keeps :
      (bs : List Block) (w : Writer P K)
      → AllServed content chunk_size bs
      → IsFaithful content w
      → IsCurrent w
      → Keeps (write_all chunk_size bs w)
  unfolding write_all
  write_all-Keeps [] w s v c = inl (v, λ e. inr c)
  write_all-Keeps (b ∷ bs) w s v c =
      let w' : Writer P K = (write_block chunk_size b w).0 in
      let kept = write_block-Keeps b w s.0 v c in
      rw (c.writing, write_all)
        (elim (Option-cases (write_block chunk_size b w).1) [
          | inr (x, e) ↦
              rw (e, write_all)
                (elim kept [
                  | inl (v', c') ↦ inl (v', λ n. ground arith)
                  | inr (y, going, covered) ↦ inr (sym e ∙ y, going, covered)
                ])
          | inl e ↦
              rw (e, write_all)
                (elim kept [
                  | inr (y, going, covered) ↦ absurd (ground (arith, sym e ∙ y))
                  | inl (v', c') ↦ elim (c' e) [
                    | inl done ↦ rw (write_all_finished bs w' done) (inl (v', λ n. inl done))
                    | inr current ↦ write_all-Keeps bs w' s.1 v' current
                  ]
                ])
        ])

  -- What is received is what was sent. The writer starts where its snapshot says, with each file on
  -- disk up to its progress, and is given any blocks in any order, each with the bytes that the
  -- sender's file has at its position. Then, however it ends, also by a write that fails half way, a
  -- snapshot that is not saved or a file that cannot be opened, each file on disk is a prefix of the
  -- sender's file, and has at least the bytes that its recorded progress says.
  pub write_all-prefix :
      (bs : List Block) (w : Writer P K) (id : ℕ) (f : File P)
      → AllServed content chunk_size bs
      → IsFaithful content w
      → IsCurrent w
      → let t = (write_all chunk_size bs w).0 in
        lookup id t.snapshot.files ≡ some f
        → (t.disk id ≡ take (length (t.disk id)) (content id)) × (f.progress ≤ length (t.disk id))
  write_all-prefix bs w id f s v c h = elim (write_all-Keeps bs w s v c) [
    | inl (after, on) ↦ faithful-IsCovered content (write_all chunk_size bs w).0 id f after h
    | inr (x, going, covered) ↦ covered id f h
  ]

  -- A writer that starts where its snapshot says, with each file on disk up to its progress, is
  -- given any blocks in any order, each with the bytes that the sender's file has at its position,
  -- and returns after the last file, has every file of the transfer whole on disk.
  pub write_all-whole :
      (bs : List Block) (w : Writer P K) (id : ℕ) (f : File P)
      → AllServed content chunk_size bs
      → IsFaithful content w
      → IsCurrent w
      → let t = (write_all chunk_size bs w).0 in
        t.finished ≡ true
        → id < t.snapshot.count
        → lookup id t.snapshot.files ≡ some f
        → t.disk id ≡ content id
  write_all-whole bs w id f s v c done l h = elim (write_all-Keeps bs w s v c) [
    | inr (x, going, covered) ↦ absurd (ground (arith, going, done))
    | inl (after, on) ↦
        let whole = after.behind id f (omega (arith, l, after.ended done)) h in
        after.stored id f h
        ∙ take_all f.progress (content id) (omega (arith, whole, after.sized id f h))
  ]
