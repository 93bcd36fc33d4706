-- ===== src/Gap/Receive/Fetching.antt =====
-- PeerReceiveMachine.cc, `_fetch_next_file`: the file that is fetched next.
use infinit_io.Base.{
  ℕ, zero, suc, ◌+◌, ◌≤◌, ◌<◌, ◌≡◌, refl, ◌∙◌, sym, subst, inl, inr, Bool, true, false, Option,
  none, some, List, length, get_elem?, get_elem?-none, get_elem?-some, lookup, leb, ◌==◌, ==_iff,
  Bool-cases, Option-cases, arith,
}
use infinit_io.Frete.Files.{Filesystem, File, complete}
use infinit_io.Gap.Receive.Fetcher.{
  Fetcher, no_file, Fault, Start, nothing_to_do, from, failed, initialize_one, found,
  fetch_next_file, next_of,
}
use infinit_io.Gap.Receive.Preparing.{
  Settled, Pending, AfterStart, initialize_one-Initialized, Settled-kept,
}

module _ {P : Type 0} {K : Type 0} where
  -- The state of the fetchers at a file that is to be fetched: those before it are complete.
  pub record Wanted (t : Fetcher P K) : Type 0 where
    pub before : (k : ℕ) → k < t.current_file_index → Settled k t
    pub file : File P
    pub listed : lookup t.current_file_index t.snapshot.files ≡ some file
    pub unfinished : complete file ≡ false
    pub here : t.current_position ≡ file.progress
    pub full : t.current_file_full_size ≡ file.size
    pub among : t.current_file_index < t.snapshot.count
    pub bytes : List ℕ
    pub there : t.disk t.current_file_index ≡ some bytes

  -- The outcome of the search, where nothing is thrown.
  unfoldable pub Chosen : Fetcher P K × Option Fault × Bool → Type 0
  unfolding Settled
  Chosen (t, some e, b) = Unit
  Chosen (t, none, true) = Wanted t
  Chosen (t, none, false) =
      (t.current_file_index ≡ no_file) × ((k : ℕ) → k < t.snapshot.count → Settled k t)

  found_end :
      (pos : ℕ) (t : Fetcher P K)
      → t.snapshot.count ≤ t.current_file_index
      → ((k : ℕ) → k < t.current_file_index → Settled k t)
      → Chosen (found pos t)
  unfolding found Chosen Settled
  found_end pos t h b =
      let e : leb t.snapshot.count t.current_file_index ≡ true = ground (arith, h) in
      rw (e, found) (refl, λ k l. b k (omega (arith, l, h)))

  found_file :
      (p : ℕ) (t : Fetcher P K)
      → t.current_file_index < t.snapshot.count
      → Pending t.current_file_index p t
      → ((k : ℕ) → k < t.current_file_index → Settled k t)
      → Chosen (found p t)
  unfolding found Chosen Pending Settled
  found_file p t l (f, bytes, e, c, q, g) b =
      let n : leb t.snapshot.count t.current_file_index ≡ false = ground (arith, l) in
      rw (n, e, found)
        (record {
          before = b;
          file = f;
          listed = e;
          unfinished = c;
          here = q;
          full = refl;
          among = l;
          bytes = bytes;
          there = g;
        })

  next_of-Chosen :
      (s : Start) (u : Fetcher P K) (rest : Fetcher P K × Option Fault × Bool)
      → u.current_file_index < u.snapshot.count
      → AfterStart u.current_file_index u s
      → ((k : ℕ) → k < u.current_file_index → Settled k u)
      → (Settled u.current_file_index u → Chosen rest)
      → Chosen (next_of s u rest)
  unfolding next_of AfterStart
  next_of-Chosen nothing_to_do u rest l a b g = g a
  next_of-Chosen (from p) u rest l a b g = found_file p u l a b
  next_of-Chosen (failed e) u rest l a b g = unfold Chosen in tt

  module _ (fs : Filesystem P) (root : P) (name : ℕ → P) (makes : ℕ → Bool) where
    pub fetch_next_file_lem :
        (infos : List ℕ) (rounds pos : ℕ) (t : Fetcher P K)
        → length infos ≡ t.snapshot.count
        → t.snapshot.count < 4294967296
        → t.snapshot.count ≤ t.current_file_index + rounds
        → ((k : ℕ) → k < t.current_file_index → Settled k t)
        → Chosen (fetch_next_file fs root name makes infos rounds pos t)
    unfolding fetch_next_file Settled
    fetch_next_file_lem infos zero pos t n c h b = found_end pos t (omega (arith, h)) b
    fetch_next_file_lem infos (suc rounds) pos t n c h b =
        elim (Option-cases (get_elem? infos t.current_file_index)) [
          | inl e ↦
              rw (e, fetch_next_file)
                (found_end pos t (omega (arith, n, get_elem?-none infos t.current_file_index e)) b)
          | inr (size, e) ↦
              let i = t.current_file_index in
              let u = (initialize_one fs root name makes i size t).0 in
              let s = (initialize_one fs root name makes i size t).1 in
              let init = initialize_one-Initialized fs root name makes i size t in
              let within : i < t.snapshot.count = omega (arith, n, get_elem?-some infos i size e) in
              let after : (k : ℕ) → k < u.current_file_index → Settled k u = λ k l.
                Settled-kept i k t (u, s) init (ground (arith, l, init.stays))
                  (b k (omega (arith, l, init.stays))) in
              rw (e, fetch_next_file)
                (next_of-Chosen s u _ (omega (arith, within, init.stays, init.counted))
                  (subst (λ k. AfterStart k u s) (sym init.stays) init.start) after
                  (λ here.
                    fetch_next_file_lem infos rounds _ _ (n ∙ sym init.counted)
                      (omega (arith, c, init.counted))
                      (omega (arith, h, c, within, init.stays, init.counted))
                      (λ k l. elim (Bool-cases (k == u.current_file_index)) [
                        | inl same ↦
                            subst (λ j. Settled j u) (sym ((==_iff k u.current_file_index).0 same))
                              here
                        | inr other ↦ after k (
                            ground (
                              arith,
                              l,
                              other,
                              c,
                              within,
                              init.stays,
                              ==_iff k u.current_file_index,
                            ))
                      ])))
        ]
