-- ===== src/Gap/Receive/Accepted.antt =====
-- PeerReceiveMachine.cc, `_disk_thread`: the writer accepts the block that it expects.
use infinit_io.Base.{
  ℕ, zero, suc, ◌+◌, ◌≤◌, ◌<◌, ◌≡◌, refl, ◌∙◌, sym, ap, inl, inr, ◌⊎◌, true, false, Option, none,
  some, List, length, lookup, update, u32, ◌==◌, ==_iff, arith, Bool-cases, Option-cases,
  lookup-update_self, lookup-update_ne,
}
use infinit_io.Frete.Files.{File, lookup-IsBounded}
use infinit_io.Frete.Snapshot.{Snapshot}
use infinit_io.Gap.Receive.Writer.{works, Block, Fault, Writer, append_to, advance, write_block}
use infinit_io.Gap.Receive.Blocks.{IsFaithful, IsCurrent, advance-Advances}
use infinit_io.Gap.Receive.Written.{
  Served, moved, moved-IsFaithful, moved-IsCurrent, write_block-moved,
}

module _ {P : Type 0} {K : Type 0} where
  -- Every file of the transfer is in the snapshot.
  abbrev pub AllListed : Snapshot P K → Type 0
  AllListed s = (id : ℕ) → id < s.count → (f : File P) × (lookup id s.files ≡ some f)

  -- Done, or at a file that still wants bytes.
  abbrev GoesOn : Writer P K × Option Fault → Type 0
  GoesOn (w, e) =
      (e ≡ none) × ((w.finished ≡ true) ⊎ ((w.expected_position == w.full_size) ≡ false))

  advance-GoesOn :
      (rounds : ℕ) (w : Writer P K)
      → IsCurrent w
      → AllListed w.snapshot
      → ((id : ℕ) → w.opens id ≡ true)
      → w.snapshot.count < 4294967296
      → w.snapshot.count ≤ w.expected_file + rounds
      → GoesOn (advance rounds w)
  unfolding advance
  advance-GoesOn zero w c a o b l = absurd (omega (arith, c.among, l))
  advance-GoesOn (suc rounds) w c a o b l = elim (Bool-cases (w.expected_position == w.full_size)) [
    | inr short ↦ rw (short, advance) (refl, inr short)
    | inl done ↦
        let file : ℕ = u32 (w.expected_file + 1) in
        let next : file ≡ suc w.expected_file = omega (arith, b, c.among) in
        rw (done, advance)
          (elim (Bool-cases (file == w.snapshot.count)) [
            | inl last ↦ rw (last, advance) (refl, inl refl)
            | inr more ↦
                let among : file < w.snapshot.count =
                  ground (arith, next, more, c.among, ==_iff file w.snapshot.count) in
                let (f, h) = a file among in
                rw (more, advance)
                  (rw (h, advance)
                    (rw (o file, advance)
                      (advance-GoesOn rounds _
                        (record {
                          current = f;
                          found = h;
                          at = refl;
                          full = refl;
                          among = among;
                          writing = c.writing;
                        })
                        a o b (omega (arith, l, next)))))
          ])
  ]

  advance-disk : (rounds : ℕ) (w : Writer P K) → (advance rounds w).0.disk ≡ w.disk
  unfolding advance
  advance-disk zero w = refl
  advance-disk (suc rounds) w = elim (Bool-cases (w.expected_position == w.full_size)) [
    | inr short ↦ rw (short, advance) refl
    | inl done ↦
        let file : ℕ = u32 (w.expected_file + 1) in
        rw (done, advance)
          (elim (Bool-cases (file == w.snapshot.count)) [
            | inl last ↦ rw (last, advance) refl
            | inr more ↦
                rw (more, advance)
                  (elim (Option-cases (lookup file w.snapshot.files)) [
                    | inl missing ↦ rw (missing, advance) refl
                    | inr (f, h) ↦
                        rw (h, advance)
                          (elim (Bool-cases (w.opens file)) [
                            | inr shut ↦ rw (shut, advance) refl
                            | inl ready ↦ rw (ready, advance) (advance-disk rounds _)
                          ])
                  ])
          ])
  ]

  pub moved-AllListed :
      (w : Writer P K) (f : File P) (bytes : List ℕ)
      → lookup w.expected_file w.snapshot.files ≡ some f
      → AllListed w.snapshot
      → AllListed (moved w f bytes).snapshot
  moved-AllListed w f bytes h a id l = elim (Bool-cases (w.expected_file == id)) [
    | inl same ↦
        let g : File P = record f { progress = f.progress + length bytes } in
        (
          g,
          ap (λ n. lookup n (update w.expected_file g w.snapshot.files))
                (sym ((==_iff w.expected_file id).0 same))
              ∙ lookup-update_self w.expected_file g f w.snapshot.files h,
        )
    | inr other ↦
        let (x, e) = a id l in (x, lookup-update_ne w.expected_file id _ w.snapshot.files other ∙ e)
  ]

  -- The block that a writer expects who stands where its snapshot says, with the bytes of the
  -- sender's file, is accepted where the snapshot has every file of the transfer and the file system
  -- refuses nothing: nothing is thrown, its bytes are appended to its file,
  -- and the writer is done or expects a block of a file that is not complete. So no block
  -- is waited for that does not exist, and the loop over the files has enough rounds.
  pub write_block-accepts :
      (content : ℕ → List ℕ) (chunk_size : ℕ) (b : Block) (w : Writer P K)
      → Served content chunk_size b
      → IsFaithful content w
      → IsCurrent w
      → AllListed w.snapshot
      → ((id : ℕ) → w.opens id ≡ true)
      → b.io ≡ works
      → w.expected_file ≡ b.file_index
      → w.expected_position ≡ b.start_position
      → let (t, e) = write_block chunk_size b w in
        (e ≡ none)
        × (t.disk ≡ append_to w.disk w.expected_file b.buffer)
        × ((t.finished ≡ true) ⊎ (t.expected_position < t.full_size))
  write_block-accepts content chunk_size b w s v c a o fine_io file position =
      let m : Writer P K = moved w c.current b.buffer in
      let d = moved-IsCurrent content w v c chunk_size b s file position in
      let (fine, on) =
        advance-GoesOn w.snapshot.count m d (moved-AllListed w c.current b.buffer c.found a) o
          v.counted (omega arith) in
      let (after, at) =
        advance-Advances content w.snapshot.count m
          (moved-IsFaithful content w v c chunk_size b s file position) d in
      rw (write_block-moved content w v c chunk_size b s file position fine_io) (
        fine,
        advance-disk w.snapshot.count m,
        elim on [
          | inl done ↦ inl done
          | inr more ↦ elim (at fine) [ inl done ↦ inl done | inr e ↦ inr (short _ after e more) ]
        ],
      )
    where
      short :
          (t : Writer P K)
          → IsFaithful content t
          → IsCurrent t
          → (t.expected_position == t.full_size) ≡ false
          → t.expected_position < t.full_size
      short t y e n = ground (
        arith,
        n,
        e.at,
        e.full,
        (lookup-IsBounded t.expected_file e.current t.snapshot.files y.bounded e.found).within,
      )
