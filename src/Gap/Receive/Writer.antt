-- ===== src/Gap/Receive/Writer.antt =====
-- PeerReceiveMachine.cc, `_disk_thread`: the thread that writes the blocks of a transfer. The
-- contents of the file of each id are the bytes on disk; every id has a file of its own, which the
-- current handle appends to. Whether a write, the saving of the snapshot or the opening of a file fails is
-- given. The barrier is left out.
use infinit_io.Base.{
  ℕ, zero, suc, ◌+◌, Bool, true, false, not, ◌&&◌, ◌||◌, Option, none, some, List, [], ◌∷◌, ◌++◌,
  length, take, lookup, u32, add64, ltb, leb, ◌==◌, if◌then◌else◌,
}
use infinit_io.Frete.Snapshot.{Snapshot, Error, out_of_range, file_progress_increment}

-- What the file system does with a block: all goes well, the write throws after so many bytes, or the saving
-- of the snapshot throws.
pub data Io : Type 0 where
  works : Io
  cuts : ℕ → Io
  unsaved : Io

-- `IndexedBuffer`, and what the file system does with it.
pub record Block : Type 0 where
  pub buffer : List ℕ
  pub start_position : ℕ
  pub file_index : ℕ
  pub io : Io

pub data Fault : Type 0 where
  out_of_order : Fault
  snapshot_fault : Error → Fault
  wrong_position : Fault
  incorrect_size : Fault
  io_error : Fault

pub record Writer (P : Type 0) (K : Type 0) : Type 0 where
  pub snapshot : Snapshot P K
  pub expected_file : ℕ  -- _store_expected_file
  pub expected_position : ℕ  -- _store_expected_position
  pub full_size : ℕ  -- current_file_full_size
  pub disk : ℕ → List ℕ
  pub opens : ℕ → Bool  -- whether the file of an id can be opened
  pub finished : Bool

abbrev pub append_to : (ℕ → List ℕ) → ℕ → List ℕ → ℕ → List ℕ
append_to d id bytes i = if id == i then d i ++ bytes else d i

module _ {P : Type 0} {K : Type 0} where
  -- "Update our expected file if needed", with a bound on the rounds of the loop.
  unfoldable pub advance : ℕ → Writer P K → Writer P K × Option Fault
  advance zero w = (w, none)
  advance (suc rounds) w = elim (w.expected_position == w.full_size) [
    | false ↦ (w, none)
    | true ↦
        let file : ℕ = u32 (w.expected_file + 1) in
        elim (file == w.snapshot.count) [
          | true ↦ (record w { expected_file = file; finished = true }, none)
          | false ↦ elim (lookup file w.snapshot.files) [
            | none ↦ (record w { expected_file = file }, some (snapshot_fault (out_of_range file)))
            | some f ↦ elim (w.opens file) [
              | false ↦ (
                record w {
                  expected_file = file;
                  expected_position = f.progress;
                  full_size = f.size;
                },
                some io_error,
              )
              | true ↦ advance rounds (record w {
                expected_file = file;
                expected_position = f.progress;
                full_size = f.size;
              })
            ]
          ]
        ]
  ]

  -- What follows the update of the snapshot.
  unfoldable pub written : ℕ → Block → Writer P K → Writer P K × Option Fault
  unfolding advance
  written chunk_size data' w =
      let position : ℕ = add64 w.expected_position (length data'.buffer) in
      let w' : Writer P K = record w { expected_position = position } in
      elim (lookup w.expected_file w.snapshot.files) [
        | none ↦ (w', some (snapshot_fault (out_of_range w.expected_file)))
        | some f ↦
            if not (position == f.progress)
            then (w', some wrong_position)
            else if (ltb (length data'.buffer) chunk_size || leb w.full_size position)
                && not (position == w.full_size)
            then (w', some incorrect_size)
            else advance w.snapshot.count w'
      ]

  -- What follows the call of `file_progress_increment`, which may throw.
  recorded : ℕ → Block → Writer P K → Snapshot P K × Option Error → Writer P K × Option Fault
  unfolding written
  recorded chunk_size data' w (t, some x) = (record w { snapshot = t }, some (snapshot_fault x))
  recorded chunk_size data' w (t, none) = elim data'.io [
    | unsaved ↦ (record w { snapshot = t }, some io_error)
    | _ ↦ written chunk_size data' (record w { snapshot = t })
  ]

  -- The write of a block that is expected.
  write_out : ℕ → Block → Writer P K → Writer P K × Option Fault
  unfolding recorded
  write_out chunk_size data' w =
      let whole : Writer P K × Option Fault =
        recorded chunk_size data'
          (record w { disk = append_to w.disk w.expected_file data'.buffer })
          (file_progress_increment w.expected_file (length data'.buffer) w.snapshot) in
      elim data'.io [
        | works ↦ whole
        | unsaved ↦ whole
        | cuts n ↦ (
          record w { disk = append_to w.disk w.expected_file (take n data'.buffer) },
          some io_error,
        )
      ]

  -- One round of the inner loop, for a block that is not the request to stop.
  unfoldable pub write_block : ℕ → Block → Writer P K → Writer P K × Option Fault
  unfolding write_out
  write_block chunk_size data' w =
      if (w.expected_file == data'.file_index) && (w.expected_position == data'.start_position)
      then write_out chunk_size data' w
      else (w, some out_of_order)

  -- The thread: it returns after the last file, and an exception ends it.
  unfoldable pub write_all : ℕ → List Block → Writer P K → Writer P K × Option Fault
  unfolding write_block
  write_all chunk_size [] w = (w, none)
  write_all chunk_size (b ∷ bs) w = elim w.finished [
    | true ↦ (w, none)
    | false ↦
        let (w', e) = write_block chunk_size b w in
        elim e [ some x ↦ (w', some x) | none ↦ write_all chunk_size bs w' ]
  ]
