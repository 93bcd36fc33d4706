-- ===== src/Gap/Receive/Fetcher.antt =====
-- PeerReceiveMachine.cc, `_initialize_one`, `_fetch_next_file` and `_fetcher_thread` up to its call of
-- the sender: how the recipient chooses the block to ask for. The disk holds the bytes of the file
-- of each id, where that file exists. The name that `eligible_name` finds, and whether the
-- directories can be created, are parameters; touching a file keeps its bytes. Whether a file can be
-- truncated, and whether it can be touched and the snapshot saved, is given.
use infinit_io.Base.{
  ℕ, zero, suc, ◌+◌, Bool, true, false, Option, none, some, List, [], length, take, get_elem?,
  lookup, u32, add64, ltb, leb, ◌==◌, if◌then◌else◌,
}
use infinit_io.Frete.Files.{Filesystem, File, complete}
use infinit_io.Frete.Snapshot.{Snapshot, add_announced}

pub record Fetcher (P : Type 0) (K : Type 0) : Type 0 where
  pub snapshot : Snapshot P K
  pub disk : ℕ → Option (List ℕ)
  pub truncates : ℕ → Bool  -- whether `truncate` leaves the size it is asked for
  pub saves : ℕ → Bool  -- whether the file is touched and the snapshot saved after it
  pub current_file_index : ℕ
  pub current_position : ℕ
  pub current_file_full_size : ℕ

-- `FileID(-1)`: nothing more to fetch.
abbrev pub no_file : ℕ
no_file = 4294967295

pub data Fault : Type 0 where
  invalid_transfer_data : Fault
  no_directory : Fault
  file_too_short : Fault
  truncate_failed : Fault
  io_error : Fault
  out_of_range : ℕ → Fault

-- What `_initialize_one` gives: the size -1, a position, or an exception.
pub data Start : Type 0 where
  nothing_to_do : Start
  from : ℕ → Start
  failed : Fault → Start

unfoldable pub put_file : ℕ → List ℕ → (ℕ → Option (List ℕ)) → ℕ → Option (List ℕ)
put_file id bytes d i = if id == i then some bytes else d i

unfoldable pub touch : ℕ → (ℕ → Option (List ℕ)) → ℕ → Option (List ℕ)
unfolding put_file
touch id d = elim (d id) [ none ↦ put_file id [] d | some bytes ↦ d ]

-- A file that is complete is touched where it is not there.
unfoldable pub settled :
    ℕ → Bool → Option (List ℕ) → (ℕ → Option (List ℕ)) → (ℕ → Option (List ℕ)) × Start
unfolding touch
settled id true o d = (touch id d, nothing_to_do)
settled id false (some bytes) d = (d, nothing_to_do)
settled id false none d = (d, failed io_error)

-- What follows the look at the size, with the bytes then on disk; what a failure leaves there is not
-- looked at any more.
unfoldable pub touched :
    ℕ → ℕ → Bool → List ℕ → (ℕ → Option (List ℕ)) → (ℕ → Option (List ℕ)) × Start
unfolding put_file
touched id progress saves bytes d =
    if saves then (put_file id bytes d, from progress) else (d, failed io_error)

-- What is read next of a file, once its bytes on disk are looked at.
unfoldable pub resume :
    ℕ → ℕ → Bool → Bool → Option (List ℕ) → (ℕ → Option (List ℕ)) → (ℕ → Option (List ℕ)) × Start
unfolding touched
resume id progress truncates saves none d = touched id progress saves [] d
resume id progress truncates saves (some bytes) d =
    let kept = touched id progress saves bytes d in
    let cut = touched id progress saves (take progress bytes) d in
    if ltb (length bytes) progress
    then (d, failed file_too_short)
    else if ltb progress (length bytes)
    then (if truncates then cut else (d, failed truncate_failed))
    else kept

module _ {P : Type 0} {K : Type 0} where
  -- What follows the loop of `_fetch_next_file`; the result says whether there is a file.
  unfoldable pub found : ℕ → Fetcher P K → Fetcher P K × Option Fault × Bool
  found pos t =
      if leb t.snapshot.count t.current_file_index
      then (record t { current_file_index = no_file }, none, false)
      else elim (lookup t.current_file_index t.snapshot.files) [
        | none ↦
            (record t { current_position = pos }, some (out_of_range t.current_file_index), false)
        | some f ↦
            (record t { current_position = pos; current_file_full_size = f.size }, none, true)
      ]

  -- One round of the loop, with the rounds after it.
  unfoldable pub next_of :
      Start → Fetcher P K → Fetcher P K × Option Fault × Bool → Fetcher P K × Option Fault × Bool
  unfolding found
  next_of nothing_to_do u rest = rest
  next_of (from p) u rest = found p u
  next_of (failed e) u rest = (u, some e, false)

  -- A block to ask the sender for.
  unfoldable pub claimed :
      ℕ → Fetcher P K × Option Fault × Bool → Fetcher P K × Option Fault × Option (ℕ × ℕ)
  claimed chunk_size (t, some e, b) = (t, some e, none)
  claimed chunk_size (t, none, false) = (record t { current_file_index = no_file }, none, none)
  claimed chunk_size (t, none, true) = (
    record t { current_position = add64 t.current_position chunk_size },
    none,
    some (t.current_file_index, t.current_position),
  )

module _ {P : Type 0} {K : Type 0} (fs : Filesystem P) (root : P) (name : ℕ → P)
    (makes : ℕ → Bool) where
  -- The second part of `_initialize_one`, for a file of the snapshot.
  unfoldable pub prepare : ℕ → File P → Fetcher P K → Fetcher P K × Start
  unfolding complete settled resume
  prepare id f t =
      if makes id
      then (if complete f
          then (
            record t { disk = (settled id (t.saves id) (t.disk id) t.disk).0 },
            (settled id (t.saves id) (t.disk id) t.disk).1,
          )
          else (
            record t {
              disk = (resume id f.progress (t.truncates id) (t.saves id) (t.disk id) t.disk).0;
            },
            (resume id f.progress (t.truncates id) (t.saves id) (t.disk id) t.disk).1,
          ))
      else (t, failed no_directory)

  unfoldable pub enlisted : ℕ → Fetcher P K → Option (File P) → Fetcher P K × Start
  unfolding prepare
  enlisted id t none = (t, failed (out_of_range id))
  enlisted id t (some f) = prepare id f t

  -- A file that the snapshot has must have the announced size; another is added.
  unfoldable pub initialize_one : ℕ → ℕ → Fetcher P K → Fetcher P K × Start
  unfolding enlisted prepare add_announced
  initialize_one id size t = elim (lookup id t.snapshot.files) [
    | some f ↦ if size == f.size then prepare id f t else (t, failed invalid_transfer_data)
    | none ↦
        let s = add_announced fs id root (name id) size t.snapshot in
        enlisted id (record t { snapshot = s }) (lookup id s.files)
  ]

  -- The loop, over the sizes of the announced files, with a bound on its rounds.
  unfoldable pub fetch_next_file : List ℕ → ℕ → ℕ → Fetcher P K → Fetcher P K × Option Fault × Bool
  unfolding initialize_one found next_of
  fetch_next_file infos zero pos t = found pos t
  fetch_next_file infos (suc rounds) pos t = elim (get_elem? infos t.current_file_index) [
    | none ↦ found pos t
    | some size ↦
        let u = (initialize_one t.current_file_index size t).0 in
        let s = (initialize_one t.current_file_index size t).1 in
        next_of s u (
          fetch_next_file infos rounds 18446744073709551615
            (record u { current_file_index = u32 (u.current_file_index + 1) }))
  ]

  -- A turn of `_fetcher_thread` up to its call of the sender, which blocks; `none` where it exits.
  unfoldable pub claim : List ℕ → ℕ → Fetcher P K → Fetcher P K × Option Fault × Option (ℕ × ℕ)
  unfolding fetch_next_file claimed
  claim infos chunk_size t =
      if t.current_file_index == no_file
      then (t, none, none)
      else if leb t.current_file_full_size t.current_position
      then claimed chunk_size (
          fetch_next_file infos (length infos) 0
            (record t { current_file_index = u32 (t.current_file_index + 1) }))
      else claimed chunk_size (t, none, true)
