-- ===== src/Frete/Reads.antt =====
-- frete/src/frete/Frete.cc: what the peer reads, what it acknowledges, and the end of a transfer.
use Prim.Native.Nat.add
use infinit_io.Base.{
  ℕ, ◌+◌, ◌-◌, ◌≤◌, ◌<◌, ◌≡◌, refl, true, false, none, some, List, [], ◌∷◌, inl, inr, length,
  lookup, ltb, ◌==◌, ==_iff, ◌∙◌, ap, subst, add64, arith, Bool-cases, Option-cases, u32, u64_mod,
  sub64,
}
use infinit_io.Frete.Files.{Filesystem, File}
use infinit_io.Frete.Snapshot.{Snapshot, file_progress_end, out_of_range}
use infinit_io.Frete.Progress.{IsSynced, file_progress_set-IsSynced}
use infinit_io.Frete.Listing.{IsListed, lookup-Ids}
use infinit_io.Frete.Server.{
  Disk, Crypto, Handle, Frete, Result, ok, err, fetch_cache, local_path, finish, cleartext_read,
  read_handle, acknowledge,
}

module _ {P : Type 0} {K : Type 0} where
  file_progress_end_lem :
      (id : ℕ) (s : Snapshot P K) (f : File P)
      → IsSynced s
      → lookup id s.files ≡ some f
      → let (t, e) = file_progress_end id s in
        (e ≡ none) × (lookup id t.files ≡ some (record f { progress = f.size })) × IsSynced t
  unfolding file_progress_end
  file_progress_end_lem id s f v h =
      let (fine, at, synced) = file_progress_set-IsSynced id f.size s f v h in
      rw (h, file_progress_end)
        (fine, at ∙ ap (λ n. some (record f { progress = n })) (omega arith), synced)

module _ {P : Type 0} {K : Type 0} {c : Crypto K} where
  -- The end of a transfer of a sender that has listed at least one file, and fewer than 2 ^ 32,
  -- and whose progress is in step: the barrier opens, no file stays open, the last file is complete and the progress is in step.
  pub finish_complete :
      (s : Frete P K c)
      → IsListed s.snapshot
      → IsSynced s.snapshot
      → 0 < s.snapshot.count
      → s.snapshot.count < 4294967296
      → let (t, e) = finish s in
        (e ≡ none)
        × (t.finished ≡ true)
        × (t.cache ≡ [])
        × IsSynced t.snapshot
        × ((f : File P) × (lookup (s.snapshot.count - 1) t.snapshot.files ≡ some f)
            × (f.progress ≡ f.size))
  unfolding finish
  finish_complete s l v p b =
      let (f, found, id) =
        lookup-Ids 0 (s.snapshot.count - 1) s.snapshot.files l.ids (omega (arith, l.counted)) in
      let last : u32 (sub64 s.snapshot.count 1) ≡ s.snapshot.count - 1 = omega arith in
      let there : lookup (s.snapshot.count - 1) s.snapshot.files ≡ some f = rw add.zero at found in
      let j : ℕ = u32 (sub64 s.snapshot.count 1) in
      let (fine, at, synced) = file_progress_end_lem j s.snapshot f v (rw last there) in
      rw (fine, finish)
        (
          refl,
          refl,
          refl,
          synced,
          (
            record f { progress = f.size },
            subst
                (λ n.
                  lookup n (file_progress_end j s.snapshot).0.files
                  ≡ some (record f { progress = f.size }))
                last at,
            refl,
          ),
        )

  -- A transfer of no file cannot be finished: the call throws and nothing changes.
  pub finish-empty :
      (s : Frete P K c)
      → s.snapshot.count ≡ 0
      → s.snapshot.files ≡ []
      → finish s ≡ (s, some (out_of_range 4294967295))
  unfolding finish file_progress_end lookup
  finish-empty s e f = rw e (rw f refl)

module _ {P : Type 0} {K : Type 0} {c : Crypto K} (fs : Filesystem P) (disk : Disk P) where
  -- Each open handle is that of the file under whose id it is kept.
  abbrev pub Serves : Frete P K c → List (ℕ × Handle P) → Type 0
  Serves s [] = Unit {0}
  Serves s ((j, h) ∷ m) = (local_path fs disk j s ≡ some h.path) × Serves s m

  lookup-Serves :
      (id : ℕ) (h : Handle P) (s : Frete P K c) (m : List (ℕ × Handle P))
      → Serves s m
      → lookup id m ≡ some h
      → local_path fs disk id s ≡ some h.path
  unfolding lookup
  lookup-Serves id h s [] v e = ground arith
  lookup-Serves id h s ((j, x) ∷ m) v e = elim (Bool-cases (j == id)) [
    | inl hit ↦
        ground (arith, ==_iff j id, v.0, ap (λ n. local_path fs disk n s) ((==_iff j id).0 hit))
    | inr miss ↦ lookup-Serves id h s m v.1 (ground arith)
  ]

  -- A fetch that succeeds gives the file of that id, and leaves the snapshot alone.
  fetch_cache-ok :
      (id : ℕ) (p : P) (s : Frete P K c)
      → Serves s s.cache
      → (fetch_cache fs disk id s).1 ≡ ok p
      → (local_path fs disk id s ≡ some p) × ((fetch_cache fs disk id s).0.snapshot ≡ s.snapshot)
  unfolding fetch_cache
  fetch_cache-ok id p s v r = elim (Option-cases (lookup id s.cache)) [
    | inr (h, e) ↦ ground (arith, lookup-Serves id h s s.cache v e)
    | inl e ↦ ground (arith, e)
  ]

  abbrev Read : ℕ → ℕ → ℕ → List ℕ → Frete P K c × Result P → Frete P K c → Type 0
  Read id offset size bytes (s, r) t =
      (f : File P) × (p : P) × (r ≡ ok p)
      × (lookup id s.snapshot.files ≡ some f)
      × (disk.read p offset size ≡ some bytes)
      × (ltb f.size (add64 offset (length bytes)) ≡ false)
      × (t ≡ s)

  read_handle-ok :
      (id offset size : ℕ) (bytes : List ℕ) (x : Frete P K c × Result P)
      → (read_handle fs disk id offset size x).1 ≡ ok bytes
      → Read id offset size bytes x (read_handle fs disk id offset size x).0
  unfolding read_handle
  read_handle-ok id offset size bytes (s, err e) h = ground arith
  read_handle-ok id offset size bytes (s, ok p) h = elim (Option-cases (disk.read p offset size)) [
    | inl failed ↦ ground arith
    | inr (b, done) ↦ elim (Option-cases (lookup id s.snapshot.files)) [
      | inl missing ↦ ground arith
      | inr (f, found) ↦ (f, p, refl, found, ground arith, ground arith, ground arith)
    ]
  ]

  -- Where each open handle is that of the file of its id, a plain read (one that moves no
  -- progress) that succeeds and ends below 2 ^ 64 gives the bytes that the disk holds at that
  -- position of the file listed under this id, within its listed size, and leaves the snapshot
  -- alone.
  pub cleartext_read-exact :
      (id offset size : ℕ) (bytes : List ℕ) (s : Frete P K c)
      → Serves s s.cache
      → (cleartext_read fs disk id offset size false s).1 ≡ ok bytes
      → offset + length bytes < u64_mod
      → (f : File P) × (p : P) × (lookup id s.snapshot.files ≡ some f)
        × (local_path fs disk id s ≡ some p)
        × (disk.read p offset size ≡ some bytes)
        × (offset + length bytes ≤ f.size)
        × ((cleartext_read fs disk id offset size false s).0.snapshot ≡ s.snapshot)
  unfolding cleartext_read acknowledge
  cleartext_read-exact id offset size bytes s v r b =
      let (f, p, opened, found, read, fits, same) =
        read_handle-ok id offset size bytes (fetch_cache fs disk id s) r in
      let (local, kept) = fetch_cache-ok id p s v opened in
      (
        f,
        p,
        subst (λ (t : Snapshot P K). lookup id t.files ≡ some f) kept found,
        local,
        read,
        ground (arith, fits),
        ap (λ (t : Frete P K c). t.snapshot) same ∙ kept,
      )
