-- ===== src/Frete/Listing.antt =====
-- frete/src/frete/TransferSnapshot.cc: what `add` keeps true of a sender's snapshot.
use infinit_io.Base.{
  ℕ, zero, suc, ◌+◌, ◌<◌, ◌≡◌, refl, ◌∙◌, Bool, true, none, some, List, [], ◌∷◌, length, lookup,
  insert, u64, u32, u64_mod, arith,
}
use infinit_io.Frete.Files.{
  Filesystem, File, new_file, total_size, insert-AllBounded, total-insert_fresh,
}
use infinit_io.Frete.Snapshot.{Snapshot, add, sender}
use infinit_io.Frete.Progress.{IsSynced}

module _ {P : Type 0} where
  -- The files have the ids from `k` on, in order.
  abbrev pub Ids : ℕ → List (ℕ × File P) → Type 0
  Ids k [] = Unit {0}
  Ids k ((j, f) ∷ m) = (j ≡ k) × (f.file_id ≡ k) × Ids (suc k) m

  -- A new id goes to the end of the table.
  abbrev Appended : ℕ → File P → List (ℕ × File P) → List (ℕ × File P) → Type 0
  Appended k f m m' =
      Ids k m' × (length m' ≡ suc (length m)) × (total_size m' ≡ total_size m + f.size)

  insert-Appended :
      (k j : ℕ) (f : File P) (m : List (ℕ × File P))
      → Ids k m
      → f.file_id ≡ j
      → j ≡ k + length m
      → Appended k f m (insert j f m)
  unfolding insert
  insert-Appended k j f [] h e l = ((omega arith, omega arith, tt), refl, omega arith)
  insert-Appended k j f ((i, g) ∷ m) h e l =
      let rest = insert-Appended (suc k) j f m h.2 e (omega arith) in ground (arith, rest)

  pub lookup-Ids :
      (k i : ℕ) (m : List (ℕ × File P))
      → Ids k m
      → i < length m
      → (f : File P) × (lookup (k + i) m ≡ some f) × (f.file_id ≡ k + i)
  unfolding lookup
  lookup-Ids k i [] h l = absurd (omega arith)
  lookup-Ids k zero ((j, f) ∷ m) h l = (f, ground arith, omega arith)
  lookup-Ids k (suc i) ((j, f) ∷ m) h l =
      let (g, found, id) = lookup-Ids (suc k) i m h.2 (omega arith) in
      let e : suc k + i ≡ k + suc i = omega arith in (g, ground (arith, rw e at found), id ∙ e)

module _ {P : Type 0} {K : Type 0} where
  -- A snapshot that `add` alone has filled.
  pub record IsListed (s : Snapshot P K) : Type 0 where
    pub ids : Ids 0 s.files
    pub counted : s.count ≡ length s.files
    pub sized : s.total_size ≡ u64 (total_size s.files)

  pub sender-IsListed : (mirrored : Bool) → IsListed (sender {P = P} {K = K} mirrored)
  unfolding sender
  sender-IsListed mirrored = record { ids = tt; counted = refl; sized = refl }

  -- Adding a file that exists and can be read gives it the next id, and keeps the ids consecutive,
  -- the count and the total size right, and the progress in step, if they were so before,
  -- there are fewer than 2 ^ 32 files and the size is below 2 ^ 64.
  pub add-IsListed :
      (fs : Filesystem P) (root path : P) (size : ℕ) (s : Snapshot P K)
      → IsListed s
      → IsSynced s
      → length s.files < 4294967296
      → size < u64_mod
      → fs.exists (fs.join root path) ≡ true
      → fs.file_size (fs.join root path) ≡ some size
      → let (t, e) = add fs root path s in
        (e ≡ none) × IsListed t × IsSynced t × (t.count ≡ suc s.count)
  unfolding add
  add-IsListed fs root path size s v y l b h k =
      let n : ℕ = u32 (length s.files) in
      let f : File P = new_file fs n root path size in
      let put = insert-Appended 0 n f s.files v.ids refl (omega arith) in
      rw (h, add)
        (rw (k, add)
          (
            refl,
            record { ids = put.0; counted = refl; sized = omega (arith, v.sized, put.2) },
            record {
              bounded =
                  insert-AllBounded n f s.files y.bounded
                    (record { within = omega arith; sized = b });
              summed = omega (arith, y.summed, total-insert_fresh n f s.files refl);
            },
            omega (arith, put.1, v.counted),
          ))
