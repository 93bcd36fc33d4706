-- ===== src/Frete/Files.antt =====
-- frete/src/frete/TransferSnapshot.{hh,cc}: one file of a transfer (`TransferSnapshot::File`) and
-- the table of files. The file system (boost::filesystem) is a parameter.
use infinit_io.Base.{
  ℕ, ◌+◌, ◌≤◌, ◌<◌, ◌≡◌, String, Bool, ◌&&◌, Option, some, List, [], ◌∷◌, arith, ◌==◌, lookup,
  update, insert, u64_mod,
}

-- What the snapshot asks of boost::filesystem; `none` where the call throws.
pub record Filesystem (P : Type 0) : Type 0 where
  pub join : P → P → P
  pub generic_string : P → String
  pub of_string : String → P
  pub exists : P → Bool
  pub file_size : P → Option ℕ
  pub eq : P → P → Bool

pub record File (P : Type 0) : Type 0 where
  pub file_id : ℕ  -- uint32_t
  pub root : String
  pub path : String
  pub full_path : P
  pub size : ℕ  -- uint64_t
  pub progress : ℕ  -- uint64_t

module _ {P : Type 0} (fs : Filesystem P) where
  -- The private constructor.
  unfoldable pub new_file : ℕ → P → P → ℕ → File P
  new_file file_id root path size = record {
    file_id = file_id;
    root = fs.generic_string root;
    path = fs.generic_string path;
    full_path = fs.join root path;
    size = size;
    progress = 0;
  }

  unfoldable pub file_exists : File P → Bool
  file_exists f = fs.exists f.full_path

  unfoldable pub file_eq : File P → File P → Bool
  file_eq f g = (f.file_id == g.file_id) && fs.eq f.full_path g.full_path && (f.size == g.size)

unfoldable pub complete : {P : Type 0} → File P → Bool
complete f = f.size == f.progress

module _ {P : Type 0} where
  -- The bytes transferred, over all files.
  abbrev pub total : List (ℕ × File P) → ℕ
  total [] = 0
  total ((k, f) ∷ m) = f.progress + total m

  -- The bytes announced, over all files.
  abbrev pub total_size : List (ℕ × File P) → ℕ
  total_size [] = 0
  total_size ((k, f) ∷ m) = f.size + total_size m

  -- No file is past its end, and sizes are 64-bit words.
  pub record IsBounded (f : File P) : Type 0 where
    pub within : f.progress ≤ f.size
    pub sized : f.size < u64_mod

  abbrev pub AllBounded : List (ℕ × File P) → Type 0
  AllBounded [] = Unit {0}
  AllBounded ((k, f) ∷ m) = IsBounded f × AllBounded m

  pub total-update :
      (k : ℕ) (f g : File P) (m : List (ℕ × File P))
      → lookup k m ≡ some f
      → total (update k g m) + f.progress ≡ total m + g.progress
  unfolding lookup update
  total-update k f g [] h = ground arith
  total-update k f g ((j, x) ∷ m) h = ground (arith, total-update k f g m)

  pub lookup-IsBounded :
      (k : ℕ) (f : File P) (m : List (ℕ × File P))
      → AllBounded m
      → lookup k m ≡ some f
      → IsBounded f
  unfolding lookup
  lookup-IsBounded k f [] b h = ground arith
  lookup-IsBounded k f ((j, x) ∷ m) b h = ground (arith, lookup-IsBounded k f m b.1)

  pub update-AllBounded :
      (k : ℕ) (g : File P) (m : List (ℕ × File P))
      → AllBounded m
      → IsBounded g
      → AllBounded (update k g m)
  unfolding update
  update-AllBounded k g [] b h = tt
  update-AllBounded k g ((j, x) ∷ m) b h = ground (arith, update-AllBounded k g m b.1 h)

  pub insert-AllBounded :
      (k : ℕ) (g : File P) (m : List (ℕ × File P))
      → AllBounded m
      → IsBounded g
      → AllBounded (insert k g m)
  unfolding insert
  insert-AllBounded k g [] b h = (h, tt)
  insert-AllBounded k g ((j, x) ∷ m) b h = ground (arith, insert-AllBounded k g m b.1 h)

  pub total-insert_fresh :
      (k : ℕ) (g : File P) (m : List (ℕ × File P)) → g.progress ≡ 0 → total (insert k g m) ≡ total m
  unfolding insert
  total-insert_fresh k g [] h = omega arith
  total-insert_fresh k g ((j, x) ∷ m) h = ground (arith, total-insert_fresh k g m h)
