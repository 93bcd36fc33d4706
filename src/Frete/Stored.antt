-- ===== src/Frete/Stored.antt =====
-- frete/src/frete/TransferSnapshot.cc, `serialize`: a snapshot stored and read back. The archive of
-- elle::serialization gives the values back that were put under each name.
use infinit_io.Base.{ℕ, ◌≡◌, refl, ◌∙◌, sym, ap, String, Bool, Option, List, [], ◌∷◌, insert, arith}
use infinit_io.Frete.Files.{Filesystem, File, new_file}
use infinit_io.Frete.Snapshot.{Snapshot, recompute_progress, sum_progress, add_announced}
use infinit_io.Frete.Progress.{IsSynced, sum_progress_lem}

-- The names under which a file is stored; the full path is not among them.
pub record StoredFile : Type 0 where
  pub file_id : ℕ
  pub root : String
  pub path : String
  pub file_size : ℕ
  pub progress : ℕ

pub record StoredSnapshot (K : Type 0) : Type 0 where
  pub relative_folder : String
  pub mirrored : Bool
  pub transfers : List (ℕ × StoredFile)
  pub count : ℕ
  pub total_size : ℕ
  pub progress : ℕ
  pub key_code : Option K
  pub archived : Bool

module _ {P : Type 0} where
  unfoldable pub save_file : File P → StoredFile
  save_file f = record {
    file_id = f.file_id;
    root = f.root;
    path = f.path;
    file_size = f.size;
    progress = f.progress;
  }

  unfoldable pub save_files : List (ℕ × File P) → List (ℕ × StoredFile)
  unfolding save_file
  save_files [] = []
  save_files ((k, f) ∷ m) = (k, save_file f) ∷ save_files m

module _ {P : Type 0} (fs : Filesystem P) where
  unfoldable pub load_file : StoredFile → File P
  load_file a = record {
    file_id = a.file_id;
    root = a.root;
    path = a.path;
    full_path = fs.join (fs.of_string a.root) (fs.of_string a.path);
    size = a.file_size;
    progress = a.progress;
  }

  unfoldable pub load_files : List (ℕ × StoredFile) → List (ℕ × File P)
  unfolding load_file
  load_files [] = []
  load_files ((k, a) ∷ m) = (k, load_file a) ∷ load_files m

module _ {P : Type 0} {K : Type 0} where
  unfoldable pub save : Snapshot P K → StoredSnapshot K
  unfolding save_files
  save s = record {
    relative_folder = s.relative_folder;
    mirrored = s.mirrored;
    transfers = save_files s.files;
    count = s.count;
    total_size = s.total_size;
    progress = s.progress;
    key_code = s.key_code;
    archived = s.archived;
  }

  -- "Progress is redundant data, don't trust it".
  unfoldable pub load : Filesystem P → StoredSnapshot K → Snapshot P K
  unfolding load_files recompute_progress
  load fs a = recompute_progress (record {
    count = a.count;
    total_size = a.total_size;
    progress = a.progress;
    archived = a.archived;
    mirrored = a.mirrored;
    relative_folder = a.relative_folder;
    files = load_files fs a.transfers;
    key_code = a.key_code;
  })

module _ {P : Type 0} (fs : Filesystem P) where
  -- The full path of each file is that of its root and its path.
  abbrev pub AllRooted : List (ℕ × File P) → Type 0
  AllRooted [] = Unit {0}
  AllRooted ((k, f) ∷ m) =
      (f.full_path ≡ fs.join (fs.of_string f.root) (fs.of_string f.path)) × AllRooted m

  load_files-save_files : (m : List (ℕ × File P)) → AllRooted m → load_files fs (save_files m) ≡ m
  unfolding load_files save_files
  load_files-save_files [] h = refl
  load_files-save_files ((k, f) ∷ m) h =
      ap (λ (x : List (ℕ × File P)). (k, load_file fs (save_file f)) ∷ x)
        (load_files-save_files m h.1)
      ∙ ap (λ p. (k, record f { full_path = p }) ∷ m) (sym h.0)

  module _ {K : Type 0} where
    -- A snapshot whose progress is in step, and whose files have the full paths of their roots and
    -- paths, is read back as it was stored: the full paths are made again, and the progress that
    -- is computed again is the one that was stored.
    pub load-save : (s : Snapshot P K) → IsSynced s → AllRooted s.files → load fs (save s) ≡ s
    unfolding load save
    load-save s v h =
        ap (λ (m : List (ℕ × File P)). record s { files = m; progress = sum_progress m 0 })
          (load_files-save_files s.files h)
        ∙ ap (λ n. record s { progress = n })
            (omega (arith, sum_progress_lem s.files 0 (omega arith), v.summed))

  insert-AllRooted :
      (id : ℕ) (root path : P) (size : ℕ) (m : List (ℕ × File P))
      → ((p : P) → fs.of_string (fs.generic_string p) ≡ p)
      → AllRooted m
      → AllRooted (insert id (new_file fs id root path size) m)
  unfolding insert new_file
  insert-AllRooted id root path size [] law h =
      (ap (λ p. fs.join p path) (sym (law root)) ∙ ap (fs.join _) (sym (law path)), tt)
  insert-AllRooted id root path size ((j, x) ∷ m) law h =
      ground (arith, insert-AllRooted id root path size m law h.1)

  -- An announced file that is added keeps the full paths what they are made from, where a path is
  -- the same after it was made a string and read again.
  pub add_announced-AllRooted :
      {K : Type 0} (id : ℕ) (root path : P) (size : ℕ) (s : Snapshot P K)
      → ((p : P) → fs.of_string (fs.generic_string p) ≡ p)
      → AllRooted s.files
      → AllRooted (add_announced fs id root path size s).files
  unfolding add_announced
  add_announced-AllRooted id root path size s law h =
      insert-AllRooted id root path size s.files law h
