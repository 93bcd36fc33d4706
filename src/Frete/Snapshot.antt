-- ===== src/Frete/Snapshot.antt =====
-- frete/src/frete/TransferSnapshot.{hh,cc}: the snapshot of a transfer and its operations.
-- A method that may throw returns the state at the throw beside the error. `P` is
-- boost::filesystem::path and `K` is infinit::cryptography::Code.
use infinit_io.Base.{
  ℕ, zero, suc, ◌+◌, ◌-◌, min, String, Bool, true, false, Option, none, some, List, [], ◌∷◌, leb,
  ◌==◌, if◌then◌else◌, length, lookup, update, insert, u32, add64, sub64,
}
use infinit_io.Frete.Files.{Filesystem, File, new_file}

pub record Snapshot (P : Type 0) (K : Type 0) : Type 0 where
  pub count : ℕ
  pub total_size : ℕ
  pub progress : ℕ
  pub archived : Bool
  pub mirrored : Bool
  pub relative_folder : String
  pub files : List (ℕ × File P)
  pub key_code : Option K

pub data Error : Type 0 where
  no_such_path : Error
  unreadable : Error
  out_of_range : ℕ → Error
  assertion : Error
  excess : ℕ → Error
  key_already_set : Error

module _ {P : Type 0} where
  -- The loop of `progress_increment`: files from `i` on, with `rounds` left before `count()`.
  -- The result is the files, what remains of the increment, and the id of a missing file.
  unfoldable pub fill : ℕ → ℕ → ℕ → List (ℕ × File P) → List (ℕ × File P) × ℕ × Option ℕ
  fill zero i remain fs = (fs, remain, none)
  fill (suc rounds) i remain fs = elim (remain == 0) [
    | true ↦ (fs, remain, none)
    | false ↦ elim (lookup (u32 i) fs) [
      | none ↦ (fs, remain, some (u32 i))
      | some f ↦
          let take = min remain (sub64 f.size f.progress) in
          fill rounds (i + 1) (remain - take)
            (update (u32 i) (record f { progress = add64 f.progress take }) fs)
    ]
  ]

  -- The loop of `_recompute_progress`.
  unfoldable pub sum_progress : List (ℕ × File P) → ℕ → ℕ
  sum_progress [] acc = acc
  sum_progress ((k, f) ∷ m) acc = sum_progress m (add64 acc f.progress)

module _ {P : Type 0} {K : Type 0} where
  -- The constructor of the recipient's snapshot.
  unfoldable pub recipient : ℕ → ℕ → String → Snapshot P K
  recipient count total_size folder = record {
    count = count;
    total_size = total_size;
    progress = 0;
    archived = false;
    mirrored = false;
    relative_folder = folder;
    files = [];
    key_code = none;
  }

  -- The constructor of the sender's snapshot.
  unfoldable pub sender : Bool → Snapshot P K
  sender mirrored = record {
    count = 0;
    total_size = 0;
    progress = 0;
    archived = false;
    mirrored = mirrored;
    relative_folder = "";
    files = [];
    key_code = none;
  }

  -- The addition to the file comes before the assertion, that to the total after it.
  unfoldable pub file_progress_increment : ℕ → ℕ → Snapshot P K → Snapshot P K × Option Error
  file_progress_increment id increment s = elim (lookup id s.files) [
    | none ↦ (s, some (out_of_range id))
    | some f ↦
        let moved = record f { progress = add64 f.progress increment } in
        let t = record s { files = update id moved s.files } in
        if leb moved.progress moved.size
        then (record t { progress = add64 t.progress increment }, none)
        else (t, some assertion)
  ]

  unfoldable pub file_progress_set : ℕ → ℕ → Snapshot P K → Snapshot P K × Option Error
  unfolding file_progress_increment
  file_progress_set id size s = elim (lookup id s.files) [
    | none ↦ (s, some (out_of_range id))
    | some f ↦ file_progress_increment id (sub64 (min size f.size) f.progress) s
  ]

  unfoldable pub file_progress_end : ℕ → Snapshot P K → Snapshot P K × Option Error
  unfolding file_progress_set
  file_progress_end id s = elim (lookup id s.files) [
    | none ↦ (s, some (out_of_range id))
    | some f ↦ file_progress_set id f.size s
  ]

  unfoldable pub has : ℕ → Snapshot P K → Bool
  has id s = elim (lookup id s.files) [ none ↦ false | some f ↦ true ]

  unfoldable pub file_count : Snapshot P K → ℕ
  file_count s = length s.files

  unfoldable pub set_progress : ℕ → Snapshot P K → Snapshot P K
  set_progress progress s = record s { progress = progress }

  -- What follows the loop.
  unfoldable pub filled :
      ℕ → Snapshot P K → List (ℕ × File P) × ℕ × Option ℕ → Snapshot P K × Option Error
  filled increment s (fs, remain, some id) = (record s { files = fs }, some (out_of_range id))
  filled increment s (fs, remain, none) =
      let t = record s { files = fs; progress = add64 s.progress (increment - remain) } in
      if remain == 0 then (t, none) else (t, some (excess remain))

  unfoldable pub progress_increment : ℕ → Snapshot P K → Snapshot P K × Option Error
  unfolding filled
  progress_increment increment s = filled increment s (fill s.count 0 increment s.files)

  unfoldable pub set_key_code : K → Snapshot P K → Snapshot P K × Option Error
  set_key_code code s = elim s.key_code [
    | some c ↦ (s, some key_already_set)
    | none ↦ (record s { key_code = some code }, none)
  ]

  unfoldable pub recompute_progress : Snapshot P K → Snapshot P K
  unfolding sum_progress
  recompute_progress s = record s { progress = sum_progress s.files 0 }

module _ {P : Type 0} {K : Type 0} (fs : Filesystem P) where
  -- `add` of a path that is read from the file system.
  unfoldable pub add : P → P → Snapshot P K → Snapshot P K × Option Error
  unfolding new_file
  add root path s =
      let file = fs.join root path in
      let index = u32 (length s.files) in
      if fs.exists file
      then elim (fs.file_size file) [
        | none ↦ (s, some unreadable)
        | some size ↦
            let files = insert index (new_file fs index root path size) s.files in
            (
              record s {
                files = files;
                total_size = add64 s.total_size size;
                count = length files;
              },
              none,
            )
      ]
      else (s, some no_such_path)

  -- `add` of a file that the sender has announced.
  unfoldable pub add_announced : ℕ → P → P → ℕ → Snapshot P K → Snapshot P K
  unfolding new_file
  add_announced id root path size s = record s {
    files = insert id (new_file fs id root path size) s.files;
  }
