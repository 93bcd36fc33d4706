-- ===== src/Examples/Transfers.antt =====
-- frete: the theorems at a transfer of two small files, and at one of none.
use infinit_io.Base.{
  ℕ, ◌+◌, ◌≤◌, ◌≡◌, refl, true, false, none, some, [], ◌∷◌, length, lookup, arith, ◌==◌,
}
use infinit_io.Frete.Files.{Filesystem, File}
use infinit_io.Frete.Snapshot.{Snapshot, add, file_progress_set, progress_increment}
use infinit_io.Frete.Progress.{
  IsSynced, Increments, file_progress_set-IsSynced, progress_increment-Increments,
}
use infinit_io.Frete.Listing.{IsListed, add-IsListed}
use infinit_io.Frete.Server.{Disk, Crypto, Frete, finish, cleartext_read, local_path, ok}
use infinit_io.Frete.Cache.{fetch_all, fetch_all-bounded}
use infinit_io.Frete.Stored.{save, load, load-save}
use infinit_io.Frete.Reads.{finish_complete, cleartext_read-exact}

-- Paths are numbers; every file has ten bytes.
abbrev files : Filesystem ℕ
files = record {
  join = λ a b. b;
  generic_string = λ p. "";
  of_string = λ s. 0;
  exists = λ p. true;
  file_size = λ p. some 10;
  eq = λ a b. a == b;
}

abbrev file : ℕ → ℕ → File ℕ
file id done = record {
  file_id = id;
  root = "";
  path = "";
  full_path = id;
  size = 10;
  progress = done;
}

-- Two files, of which the first is at `a` and the second at `b`.
abbrev two : ℕ → ℕ → Snapshot ℕ ℕ
two a b = record {
  count = 2;
  total_size = 20;
  progress = a + b;
  archived = false;
  mirrored = false;
  relative_folder = "";
  files = (0, file 0 a) ∷ (1, file 1 b) ∷ [];
  key_code = none;
}

two-IsSynced : IsSynced (two 4 0)
two-IsSynced = record {
  bounded = (
    record { within = omega arith; sized = omega arith },
    (record { within = omega arith; sized = omega arith }, tt),
  );
  summed = refl;
}

two-IsListed : IsListed (two 4 0)
two-IsListed = record { ids = (refl, refl, (refl, refl, tt)); counted = refl; sized = refl }

-- The second file is moved to its sixth byte.
file_progress_set-IsSynced_example :
    let (t, e) = file_progress_set 1 6 (two 4 0) in
    (e ≡ none) × (lookup 1 t.files ≡ some (file 1 6)) × IsSynced t
file_progress_set-IsSynced_example =
    file_progress_set-IsSynced 1 6 (two 4 0) (file 1 0) two-IsSynced lookup_1
  where
    lookup_1 : lookup 1 (two 4 0).files ≡ some (file 1 0)
    lookup_1 = unfold lookup in refl

-- Of seventeen bytes, sixteen have room.
progress_increment-Increments_example : Increments 17 (two 4 0) (progress_increment 17 (two 4 0))
progress_increment-Increments_example =
    progress_increment-Increments 17 (two 4 0) two-IsSynced (omega arith)

add-IsListed_example :
    let (t, e) = add files 0 2 (two 4 0) in (e ≡ none) × IsListed t × IsSynced t × (t.count ≡ 3)
add-IsListed_example =
    add-IsListed files 0 2 10 (two 4 0) two-IsListed two-IsSynced (omega arith) (omega arith) refl
      refl

-- Every file opens, and holds ten times the byte 7.
abbrev disk : Disk ℕ
disk = record { opens = λ p. true; read = λ p offset size. some (7 ∷ 7 ∷ []) }

abbrev crypto : Crypto ℕ
crypto = record {
  Key = ℕ;
  Public = ℕ;
  encrypt_buffer = λ k b. k + length b;
  encrypt_key = λ p k. p + k;
}

abbrev server : Snapshot ℕ ℕ → Frete ℕ ℕ crypto
server s = record {
  snapshot = s;
  mirror_root = 0;
  cache = [];
  finished = false;
  old_key = 1;
  key = 2;
  peer_key = none;
}

abbrev many : Snapshot ℕ ℕ
many = record (two 4 0) { count = 21 }

fetch_all-bounded_example : length (fetch_all files disk (0 ∷ 1 ∷ 0 ∷ []) (server many)).cache ≤ 11
fetch_all-bounded_example =
    fetch_all-bounded files disk (0 ∷ 1 ∷ 0 ∷ []) (server many) refl (omega arith)

finish_complete_example :
    let (t, e) = finish (server (two 4 0)) in
    (e ≡ none)
    × (t.finished ≡ true)
    × (t.cache ≡ [])
    × IsSynced t.snapshot
    × ((f : File ℕ) × (lookup 1 t.snapshot.files ≡ some f) × (f.progress ≡ f.size))
finish_complete_example =
    finish_complete (server (two 4 0)) two-IsListed two-IsSynced (omega arith) (omega arith)

abbrev nothing : Snapshot ℕ ℕ
nothing = record (two 0 0) { count = 0; total_size = 0; files = [] }

cleartext_read-exact_example :
    (f : File ℕ) × (p : ℕ) × (lookup 1 (two 4 0).files ≡ some f)
    × (local_path files disk 1 (server (two 4 0)) ≡ some p)
    × (disk.read p 3 2 ≡ some (7 ∷ 7 ∷ []))
    × (5 ≤ f.size)
    × ((cleartext_read files disk 1 3 2 false (server (two 4 0))).0.snapshot ≡ two 4 0)
cleartext_read-exact_example =
    cleartext_read-exact files disk 1 3 2 (7 ∷ 7 ∷ []) (server (two 4 0)) tt reads (omega arith)
  where
    reads : (cleartext_read files disk 1 3 2 false (server (two 4 0))).1 ≡ ok (7 ∷ 7 ∷ [])
    reads = unfold cleartext_read local_path lookup in refl

-- A file that is transferred in part.
abbrev part : Snapshot ℕ ℕ
part = record (two 4 0) { count = 1; total_size = 10; files = (0, file 0 4) ∷ [] }

part-IsSynced : IsSynced part
part-IsSynced = record {
  bounded = (record { within = omega arith; sized = omega arith }, tt);
  summed = refl;
}

load-save_example : load files (save part) ≡ part
load-save_example = load-save files part part-IsSynced (refl, tt)
