-- ===== src/Gap/Receive/Resuming.antt =====
-- PeerReceiveMachine.cc, `_initialize_one` and `_fetch_next_file`: where nothing is thrown.
use infinit_io.Base.{
  ℕ, zero, suc, ◌+◌, ◌≤◌, ◌<◌, ◌≡◌, refl, ◌∙◌, sym, ap, subst, inl, inr, Bool, true, false, Option,
  none, some, List, length, get_elem?, get_elem?-none, get_elem?-some, lookup, lookup-insert_self,
  u32, ltb, leb, ◌==◌, ==_iff, if_cases, Bool-cases, Option-cases, arith,
}
use infinit_io.Frete.Files.{Filesystem, File, complete, new_file}
use infinit_io.Frete.Snapshot.{add_announced}
use infinit_io.Gap.Receive.Fetcher.{
  Fetcher, Fault, Start, nothing_to_do, from, failed, touched, settled, resume, prepare, enlisted,
  initialize_one, found, next_of, fetch_next_file,
}
use infinit_io.Gap.Receive.Preparing.{
  Settled, Pending, AfterStart, Initialized, initialize_one-Initialized,
}
use infinit_io.Gap.Receive.Fetching.{Chosen, fetch_next_file_lem}

-- Nothing is thrown.
IsFine : Start → Type 0
IsFine nothing_to_do = Unit
IsFine (from p) = Unit
IsFine (failed e) = ⊥

resume-IsFine :
    (id p : ℕ) (o : Option (List ℕ)) (d : ℕ → Option (List ℕ))
    → ((bytes : List ℕ) → o ≡ some bytes → p ≤ length bytes)
    → IsFine (resume id p true true o d).1
unfolding resume touched IsFine
resume-IsFine id p none d h = tt
resume-IsFine id p (some bytes) d h =
    let l : ltb (length bytes) p ≡ false = ground (arith, h bytes refl) in
    rw (l, resume)
      (if_cases (λ (r : (ℕ → Option (List ℕ)) × Start). IsFine r.1) (ltb p (length bytes)) _ _
        (λ m. tt) (λ m. tt))

module _ {P : Type 0} {K : Type 0} (fs : Filesystem P) (root : P) (name : ℕ → P)
    (makes : ℕ → Bool) where
  prepare-IsFine :
      (id : ℕ) (f : File P) (t : Fetcher P K)
      → makes id ≡ true
      → t.truncates id ≡ true
      → t.saves id ≡ true
      → ((bytes : List ℕ) → t.disk id ≡ some bytes → f.progress ≤ length bytes)
      → IsFine (prepare fs root name makes id f t).1
  unfolding prepare settled IsFine
  prepare-IsFine id f t m u v h =
      rw (m, prepare, u, v)
        (if_cases (λ (r : Fetcher P K × Start). IsFine r.1) (complete f) _ _ (λ c. tt)
          (λ c. resume-IsFine id f.progress (t.disk id) t.disk h))

  initialize_one-IsFine :
      (id size : ℕ) (t : Fetcher P K)
      → makes id ≡ true
      → t.truncates id ≡ true
      → t.saves id ≡ true
      → ((f : File P) → lookup id t.snapshot.files ≡ some f → size ≡ f.size)
      → ((f : File P) (bytes : List ℕ)
          → lookup id t.snapshot.files ≡ some f
          → t.disk id ≡ some bytes
          → f.progress ≤ length bytes)
      → IsFine (initialize_one fs root name makes id size t).1
  unfolding initialize_one enlisted add_announced new_file
  initialize_one-IsFine id size t m u v a l = elim (Option-cases (lookup id t.snapshot.files)) [
    | inr (f, e) ↦
        rw (e, initialize_one, (==_iff size f.size).1 (a f e))
          (prepare-IsFine id f t m u v (λ bytes. l f bytes e))
    | inl e ↦
        let f = new_file fs id root (name id) size in
        rw (e, initialize_one, lookup-insert_self id f t.snapshot.files e, enlisted)
          (prepare-IsFine id f
            (record t { snapshot = add_announced fs id root (name id) size t.snapshot }) m u v
            (λ bytes g. omega arith))
  ]

module _ {P : Type 0} {K : Type 0} where
  -- From the current file on, the snapshot has the announced sizes, and a file on disk is at least
  -- as long as its progress, and can be truncated, touched and saved.
  pub record IsSane (infos : List ℕ) (t : Fetcher P K) : Type 0 where
    pub truncating : (k : ℕ) → t.truncates k ≡ true
    pub saving : (k : ℕ) → t.saves k ≡ true
    pub agrees :
        (k size : ℕ) (f : File P)
        → t.current_file_index ≤ k
        → get_elem? infos k ≡ some size
        → lookup k t.snapshot.files ≡ some f
        → size ≡ f.size
    pub long :
        (k : ℕ) (f : File P) (bytes : List ℕ)
        → t.current_file_index ≤ k
        → lookup k t.snapshot.files ≡ some f
        → t.disk k ≡ some bytes
        → f.progress ≤ length bytes

  found-end :
      (pos : ℕ) (t : Fetcher P K) → t.snapshot.count ≤ t.current_file_index → (found pos t).1 ≡ none
  unfolding found
  found-end pos t h =
      let e : leb t.snapshot.count t.current_file_index ≡ true = ground (arith, h) in
      rw (e, found) refl

  found-listed :
      (pos : ℕ) (f : File P) (t : Fetcher P K)
      → lookup t.current_file_index t.snapshot.files ≡ some f
      → (found pos t).1 ≡ none
  unfolding found
  found-listed pos f t e = elim (Bool-cases (leb t.snapshot.count t.current_file_index)) [
    | inl h ↦ rw (h, found) refl
    | inr h ↦ rw (h, e, found) refl
  ]

  next_of-none :
      (s : Start) (u : Fetcher P K) (rest : Fetcher P K × Option Fault × Bool)
      → AfterStart u.current_file_index u s
      → IsFine s
      → rest.1 ≡ none
      → (next_of s u rest).1 ≡ none
  unfolding next_of AfterStart IsFine Pending
  next_of-none nothing_to_do u rest a h g = g
  next_of-none (from p) u rest (f, bytes, e, c, q, there) h g = found-listed p f u e
  next_of-none (failed x) u rest a h g = absurd h

  -- The next round is sane, as the file of this one is behind.
  kept-IsSane :
      (infos : List ℕ) (i : ℕ) (t : Fetcher P K) (r : Fetcher P K × Start)
      → i ≡ t.current_file_index
      → suc i < 4294967296
      → Initialized i t r
      → IsSane infos t
      → IsSane infos (record r.0 { current_file_index = u32 (r.0.current_file_index + 1) })
  kept-IsSane infos i t r same c init sane = record {
    truncating = λ k. ap (λ u. u k) init.truncating ∙ sane.truncating k;
    saving = λ k. ap (λ u. u k) init.saving ∙ sane.saving k;
    agrees = λ k size f l e g.
        let ne : (i == k) ≡ false = ground (arith, l, same, c, init.stays) in
        sane.agrees k size f (omega (arith, l, same, c, init.stays)) e
          (sym (init.untouched k ne).0 ∙ g);
    long = λ k f bytes l g d.
        let ne : (i == k) ≡ false = ground (arith, l, same, c, init.stays) in
        sane.long k f bytes (omega (arith, l, same, c, init.stays))
          (sym (init.untouched k ne).0 ∙ g) (sym (init.untouched k ne).1 ∙ d);
  }

  module _ (fs : Filesystem P) (root : P) (name : ℕ → P) (makes : ℕ → Bool)
      (all_made : (k : ℕ) → makes k ≡ true) where
    fetch_next_file-none :
        (infos : List ℕ) (rounds pos : ℕ) (t : Fetcher P K)
        → length infos ≡ t.snapshot.count
        → t.snapshot.count < 4294967295
        → t.snapshot.count ≤ t.current_file_index + rounds
        → IsSane infos t
        → (fetch_next_file fs root name makes infos rounds pos t).1 ≡ none
    unfolding fetch_next_file
    fetch_next_file-none infos zero pos t n c h v = found-end pos t (omega (arith, h))
    fetch_next_file-none infos (suc rounds) pos t n c h v =
        elim (Option-cases (get_elem? infos t.current_file_index)) [
          | inl e ↦
              rw (e, fetch_next_file)
                (found-end pos t (omega (arith, n, get_elem?-none infos t.current_file_index e)))
          | inr (size, e) ↦
              let i = t.current_file_index in
              let u = (initialize_one fs root name makes i size t).0 in
              let s = (initialize_one fs root name makes i size t).1 in
              let init = initialize_one-Initialized fs root name makes i size t in
              let within : i < t.snapshot.count = omega (arith, n, get_elem?-some infos i size e) in
              let low : i ≤ i = omega arith in
              rw (e, fetch_next_file)
                (next_of-none s u _ (subst (λ k. AfterStart k u s) (sym init.stays) init.start)
                  (initialize_one-IsFine fs root name makes i size t (all_made i) (v.truncating i)
                    (v.saving i) (λ f. v.agrees i size f low e) (λ f bytes. v.long i f bytes low))
                  (fetch_next_file-none infos rounds _ _ (n ∙ sym init.counted)
                    (omega (arith, c, init.counted))
                    (omega (arith, h, c, within, init.stays, init.counted))
                    (kept-IsSane infos i t (u, s) refl (omega (arith, within, c)) init v)))
        ]

    -- Where the sender announces as many files as the transfer has, fewer than 2^32 - 1, the
    -- directories can be made, files truncated and touched and the snapshot saved, the snapshot has the announced sizes, no file on disk is shorter
    -- than its progress, and all files before the current one are complete and on disk, the
    -- search for the next file throws nothing in as many rounds as there are files, and ends in
    -- one of two ways: it stands at the first file that is not complete, which is in the snapshot
    -- and on disk, with the position of its progress; or all files of the transfer are complete
    -- and on disk and there is no next file.
    pub fetch_next_file-Chosen :
        (infos : List ℕ) (pos : ℕ) (t : Fetcher P K)
        → length infos ≡ t.snapshot.count
        → t.snapshot.count < 4294967295
        → IsSane infos t
        → ((k : ℕ) → k < t.current_file_index → Settled k t)
        → let r = fetch_next_file fs root name makes infos (length infos) pos t in
          (r.1 ≡ none) × Chosen r
    fetch_next_file-Chosen infos pos t n c v b = (
      fetch_next_file-none infos (length infos) pos t n c (omega (arith, n)) v,
      fetch_next_file_lem fs root name makes infos (length infos) pos t n (omega (arith, c))
          (omega (arith, n)) b,
    )
