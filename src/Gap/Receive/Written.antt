-- ===== src/Gap/Receive/Written.antt =====
-- PeerReceiveMachine.cc, `_disk_thread`: what one block does that comes when it is expected.
use infinit_io.Base.{
  ℕ, ◌+◌, ◌-◌, ◌≤◌, ◌<◌, ◌≡◌, refl, ◌∙◌, sym, ap, inl, inr, ◌⊎◌, true, false, not, ◌&&◌, ◌||◌, none,
  some, List, ◌++◌, length, take, drop, lookup, update, add64, u64_mod, ltb, leb, ◌==◌, ==_iff,
  arith, Bool-cases, lookup-update_self, lookup-update_ne, length-take, length-drop,
  take-append-drop, min,
}
use infinit_io.Frete.Files.{File, IsBounded, lookup-IsBounded, update-AllBounded}
use infinit_io.Frete.Snapshot.{Snapshot, file_progress_increment}
use infinit_io.Gap.Receive.Writer.{
  works, unsaved, io_error, Block, Writer, append_to, advance, written, write_block,
}
use infinit_io.Gap.Receive.Blocks.{IsFaithful, IsCurrent}

-- A block as the sender reads it: the bytes from its position on, `chunk_size` of them or up to
-- the end of the file.
abbrev pub Served : (ℕ → List ℕ) → ℕ → Block → Type 0
Served content chunk_size b =
    b.buffer ≡ take chunk_size (drop b.start_position (content b.file_index))

module _ {P : Type 0} where
  -- An entry after an update is the new one, or an old one under another key.
  lookup-update :
      (k id : ℕ) (g f f' : File P) (m : List (ℕ × File P))
      → lookup k m ≡ some f
      → lookup id (update k g m) ≡ some f'
      → ((k ≡ id) × (f' ≡ g)) ⊎ (((k == id) ≡ false) × (lookup id m ≡ some f'))
  lookup-update k id g f f' m h e = elim (Bool-cases (k == id)) [
    | inr other ↦ inr (other, sym (lookup-update_ne k id g m other) ∙ e)
    | inl same ↦
        let equal = (==_iff k id).0 same in
        let new : some f' ≡ some g =
          sym e ∙ ap (λ n. lookup n (update k g m)) (sym equal) ∙ lookup-update_self k g f m h in
        inl (equal, ground (arith, new))
  ]

module _ {P : Type 0} {K : Type 0} where
  -- The snapshot and the disk after a block of `n` bytes for the file expected.
  abbrev pub moved : Writer P K → File P → List ℕ → Writer P K
  moved w f bytes = record w {
    snapshot = record w.snapshot {
      files =
          update w.expected_file (record f { progress = f.progress + length bytes })
            w.snapshot.files;
      progress = add64 w.snapshot.progress (length bytes);
    };
    disk = append_to w.disk w.expected_file bytes;
    expected_position = w.expected_position + length bytes;
  }

  file_progress_increment_lem :
      (id n : ℕ) (s : Snapshot P K) (f : File P)
      → lookup id s.files ≡ some f
      → f.progress + n ≤ f.size
      → f.size < u64_mod
      → file_progress_increment id n s ≡ (
        record s {
          files = update id (record f { progress = f.progress + n }) s.files;
          progress = add64 s.progress n;
        },
        none,
      )
  unfolding file_progress_increment
  file_progress_increment_lem id n s f h b k =
      rw (h, file_progress_increment) (rw plain (rw (within, file_progress_increment) refl))
    where
      plain : add64 f.progress n ≡ f.progress + n
      plain = omega (arith, b, k)

      within : leb (f.progress + n) f.size ≡ true
      within = ground (arith, b)

  module _ (content : ℕ → List ℕ) (w : Writer P K) (v : IsFaithful content w) (c : IsCurrent w)
      (chunk_size : ℕ) (b : Block) (served : Served content chunk_size b)
      (file : w.expected_file ≡ b.file_index)
      (position : w.expected_position ≡ b.start_position) where
    piece : b.buffer ≡ take chunk_size (drop c.current.progress (content w.expected_file))
    piece = rw (file, c.at, position) served

    size : c.current.size ≡ length (content w.expected_file)
    size = v.sized w.expected_file c.current c.found

    limits : IsBounded c.current
    limits = lookup-IsBounded w.expected_file c.current w.snapshot.files v.bounded c.found

    count : length b.buffer ≡ min chunk_size (c.current.size - c.current.progress)
    count =
        ap length piece
        ∙ length-take chunk_size (drop c.current.progress (content w.expected_file))
        ∙ ap (min chunk_size) (
            length-drop c.current.progress (content w.expected_file)
            ∙ ap (λ n. n - c.current.progress) (sym size))

    fits : c.current.progress + length b.buffer ≤ c.current.size
    fits = omega (arith, count, limits.within)

    abbrev new : File P
    new = record c.current { progress = c.current.progress + length b.buffer }

    grown : w.disk w.expected_file ++ b.buffer ≡ take new.progress (content w.expected_file)
    grown =
        ap (λ u. u ++ b.buffer) (v.stored w.expected_file c.current c.found)
        ∙ ap (λ u. take c.current.progress (content w.expected_file) ++ u) piece
        ∙ take-append-drop c.current.progress chunk_size (content w.expected_file)
            (omega (arith, limits.within, size))
        ∙ ap (λ u. take (c.current.progress + length u) (content w.expected_file)) (sym piece)

    stored_after :
        (id : ℕ) (f : File P)
        → lookup id (update w.expected_file new w.snapshot.files) ≡ some f
        → append_to w.disk w.expected_file b.buffer id ≡ take f.progress (content id)
    stored_after id f h =
        elim (lookup-update w.expected_file id new c.current f w.snapshot.files c.found h) [
          | inl (same, e) ↦ rw (sym same, e, (==_iff w.expected_file w.expected_file).1 refl) grown
          | inr (other, old) ↦ rw other (v.stored id f old)
        ]

    pub moved-IsFaithful : IsFaithful content (moved w c.current b.buffer)
    moved-IsFaithful = record {
      bounded =
          update-AllBounded w.expected_file new w.snapshot.files v.bounded
            (record { within = fits; sized = limits.sized });
      sized = λ id f h.
          elim (lookup-update w.expected_file id new c.current f w.snapshot.files c.found h) [
            | inl (same, e) ↦
                ap (λ (x : File P). x.size) e ∙ size ∙ ap (λ n. length (content n)) same
            | inr (other, old) ↦ v.sized id f old
          ];
      stored = stored_after;
      behind = λ id f l h.
          elim (lookup-update w.expected_file id new c.current f w.snapshot.files c.found h) [
            | inl (same, e) ↦ absurd (omega (arith, same, l))
            | inr (other, old) ↦ v.behind id f l old
          ];
      counted = v.counted;
      ended = v.ended;
    }

    pub moved-IsCurrent : IsCurrent (moved w c.current b.buffer)
    moved-IsCurrent = record {
      current = new;
      found = lookup-update_self w.expected_file new c.current w.snapshot.files c.found;
      at = ap (λ n. n + length b.buffer) c.at;
      full = c.full;
      among = c.among;
      writing = c.writing;
    }

    found_new : lookup w.expected_file (update w.expected_file new w.snapshot.files) ≡ some new
    found_new = lookup-update_self w.expected_file new c.current w.snapshot.files c.found

    sum : add64 w.expected_position (length b.buffer) ≡ w.expected_position + length b.buffer
    sum = omega (arith, c.at, fits, limits.sized)

    in_place : (w.expected_position + length b.buffer == new.progress) ≡ true
    in_place = (==_iff (w.expected_position + length b.buffer) new.progress).1 (omega (arith, c.at))

    sound :
        ((ltb (length b.buffer) chunk_size
            || leb w.full_size (w.expected_position + length b.buffer))
          && not (w.expected_position + length b.buffer == w.full_size))
        ≡ false
    sound = ground (arith, c.at, c.full, fits, count, limits.within)

    written-moved :
        written chunk_size b
          (record (moved w c.current b.buffer) { expected_position = w.expected_position })
        ≡ advance w.snapshot.count (moved w c.current b.buffer)
    unfolding written
    written-moved = rw (found_new, written) (rw (sum) (rw (in_place) (rw (sound) refl)))

    here : ((w.expected_file == b.file_index) && (w.expected_position == b.start_position)) ≡ true
    here = ground (
      arith,
      ==_iff w.expected_file b.file_index,
      ==_iff w.expected_position b.start_position,
      file,
      position,
    )

    pub write_block-moved :
        b.io ≡ works
        → write_block chunk_size b w ≡ advance w.snapshot.count (moved w c.current b.buffer)
    unfolding write_block
    write_block-moved io =
        rw (here, write_block, io)
          (rw
            (
              file_progress_increment_lem w.expected_file (length b.buffer) w.snapshot c.current
                  c.found fits limits.sized,
              write_block,
            )
            written-moved)

    pub write_block-unsaved :
        b.io ≡ unsaved
        → write_block chunk_size b w ≡ (
          record (moved w c.current b.buffer) { expected_position = w.expected_position },
          some io_error,
        )
    unfolding write_block
    write_block-unsaved io =
        rw (here, write_block, io)
          (rw
            (
              file_progress_increment_lem w.expected_file (length b.buffer) w.snapshot c.current
                  c.found fits limits.sized,
              write_block,
            )
            refl)
