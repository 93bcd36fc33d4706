-- ===== src/Gap/Receive/Preparing.antt =====
-- PeerReceiveMachine.cc, `_initialize_one`: what it leaves of a file, and of the others.
use infinit_io.Base.{
  ℕ, ◌≡◌, refl, ◌∙◌, inl, inr, Bool, true, false, Option, none, some, List, [], length, take,
  lookup, lookup-insert_ne, ltb, ◌==◌, ==_iff, if_cases, Option-cases,
}
use infinit_io.Frete.Files.{Filesystem, File, complete}
use infinit_io.Frete.Snapshot.{add_announced}
use infinit_io.Gap.Receive.Fetcher.{
  Fetcher, Fault, invalid_transfer_data, no_directory, out_of_range, Start, nothing_to_do, from,
  failed, io_error, put_file, touch, touched, settled, resume, prepare, enlisted, initialize_one,
}

module _ {P : Type 0} {K : Type 0} where
  -- A file that is complete and is there.
  unfoldable pub Settled : ℕ → Fetcher P K → Type 0
  unfolding complete
  Settled id t =
      (f : File P) × (bytes : List ℕ) × (lookup id t.snapshot.files ≡ some f)
      × (complete f ≡ true)
      × (t.disk id ≡ some bytes)

  -- A file that wants bytes from this position on, and is there.
  unfoldable pub Pending : ℕ → ℕ → Fetcher P K → Type 0
  unfolding complete
  Pending id p t =
      (f : File P) × (bytes : List ℕ) × (lookup id t.snapshot.files ≡ some f)
      × (complete f ≡ false)
      × (p ≡ f.progress)
      × (t.disk id ≡ some bytes)

  unfoldable pub AfterStart : ℕ → Fetcher P K → Start → Type 0
  unfolding Settled Pending
  AfterStart id u nothing_to_do = Settled id u
  AfterStart id u (from p) = Pending id p u
  AfterStart id u (failed e) = Unit

  pub record Initialized (id : ℕ) (t : Fetcher P K) (r : Fetcher P K × Start) : Type 0 where
    pub counted : r.0.snapshot.count ≡ t.snapshot.count
    pub truncating : r.0.truncates ≡ t.truncates
    pub saving : r.0.saves ≡ t.saves
    pub stays : r.0.current_file_index ≡ t.current_file_index
    pub untouched :
        (k : ℕ)
        → (id == k) ≡ false
        → (lookup k r.0.snapshot.files ≡ lookup k t.snapshot.files) × (r.0.disk k ≡ t.disk k)
    pub start : AfterStart id r.0 r.1

put_self : (id : ℕ) (bytes : List ℕ) (d : ℕ → Option (List ℕ)) → put_file id bytes d id ≡ some bytes
unfolding put_file
put_self id bytes d = rw ((==_iff id id).1 refl) refl

put_ne :
    (id k : ℕ) (bytes : List ℕ) (d : ℕ → Option (List ℕ))
    → (id == k) ≡ false
    → put_file id bytes d k ≡ d k
unfolding put_file
put_ne id k bytes d h = rw h refl

touch_self : (id : ℕ) (d : ℕ → Option (List ℕ)) → (bytes : List ℕ) × (touch id d id ≡ some bytes)
unfolding touch
touch_self id d = elim (Option-cases (d id)) [
  | inl e ↦ ([], rw (e, touch) (put_self id [] d))
  | inr (bytes, e) ↦ (bytes, rw (e, touch) e)
]

touch_ne : (id k : ℕ) (d : ℕ → Option (List ℕ)) → (id == k) ≡ false → touch id d k ≡ d k
unfolding touch
touch_ne id k d h = elim (Option-cases (d id)) [
  | inl e ↦ rw (e, touch) (put_ne id k [] d h)
  | inr (bytes, e) ↦ rw (e, touch) refl
]

touched_ne :
    (id k p : ℕ) (saves : Bool) (bytes : List ℕ) (d : ℕ → Option (List ℕ))
    → (id == k) ≡ false
    → (touched id p saves bytes d).0 k ≡ d k
unfolding touched
touched_ne id k p true bytes d h = put_ne id k bytes d h
touched_ne id k p false bytes d h = refl

resume_ne :
    (id k p : ℕ) (truncates saves : Bool) (o : Option (List ℕ)) (d : ℕ → Option (List ℕ))
    → (id == k) ≡ false
    → (resume id p truncates saves o d).0 k ≡ d k
unfolding resume
resume_ne id k p truncates saves none d h = touched_ne id k p saves [] d h
resume_ne id k p truncates saves (some bytes) d h =
    if_cases (λ (r : (ℕ → Option (List ℕ)) × Start). r.0 k ≡ d k) (ltb (length bytes) p) _ _
      (λ e. refl)
      (λ e.
        if_cases (λ (r : (ℕ → Option (List ℕ)) × Start). r.0 k ≡ d k) (ltb p (length bytes)) _ _
          (λ l.
            if_cases (λ (r : (ℕ → Option (List ℕ)) × Start). r.0 k ≡ d k) truncates _ _
              (λ m. touched_ne id k p saves (take p bytes) d h) (λ m. refl))
          (λ l. touched_ne id k p saves bytes d h))

-- The bytes on disk of a file that is resumed: where it was there, as many as its progress.
unfoldable pub Resumed : ℕ → ℕ → Option (List ℕ) → (ℕ → Option (List ℕ)) × Start → Type 0
Resumed id p o (d, nothing_to_do) = ⊥
Resumed id p o (d, from q) = (bytes : List ℕ) × (q ≡ p) × (d id ≡ some bytes)
Resumed id p o (d, failed e) = Unit

touched-Resumed :
    (id p : ℕ) (saves : Bool) (o : Option (List ℕ)) (bytes : List ℕ) (d : ℕ → Option (List ℕ))
    → Resumed id p o (touched id p saves bytes d)
unfolding touched Resumed
touched-Resumed id p true o bytes d = (bytes, refl, put_self id bytes d)
touched-Resumed id p false o bytes d = tt

resume-Resumed :
    (id p : ℕ) (truncates saves : Bool) (o : Option (List ℕ)) (d : ℕ → Option (List ℕ))
    → Resumed id p o (resume id p truncates saves o d)
unfolding resume Resumed
resume-Resumed id p truncates saves none d = touched-Resumed id p saves none [] d
resume-Resumed id p truncates saves (some bytes) d =
    if_cases (Resumed id p (some bytes)) (ltb (length bytes) p) _ _ (λ e. tt)
      (λ e.
        if_cases (Resumed id p (some bytes)) (ltb p (length bytes)) _ _
          (λ l.
            if_cases (Resumed id p (some bytes)) truncates _ _
              (λ m. touched-Resumed id p saves (some bytes) (take p bytes) d) (λ m. tt))
          (λ l. touched-Resumed id p saves (some bytes) bytes d))

module _ {P : Type 0} {K : Type 0} where
  pub Settled-kept :
      (id k : ℕ) (t : Fetcher P K) (r : Fetcher P K × Start)
      → Initialized id t r
      → (id == k) ≡ false
      → Settled k t
      → Settled k r.0
  unfolding Settled
  Settled-kept id k t r i ne (f, bytes, e, c, g) =
      (f, bytes, (i.untouched k ne).0 ∙ e, c, (i.untouched k ne).1 ∙ g)

  disk-Initialized :
      (id : ℕ) (f : File P) (t : Fetcher P K) (r : (ℕ → Option (List ℕ)) × Start)
      → lookup id t.snapshot.files ≡ some f
      → complete f ≡ false
      → ((k : ℕ) → (id == k) ≡ false → r.0 k ≡ t.disk k)
      → Resumed id f.progress (t.disk id) r
      → Initialized id t (record t { disk = r.0 }, r.1)
  unfolding Resumed AfterStart Pending
  disk-Initialized id f t (d, nothing_to_do) e c h g = absurd g
  disk-Initialized id f t (d, from q) e c h (bytes, same, there) = record {
    counted = refl;
    truncating = refl;
    saving = refl;
    stays = refl;
    untouched = λ k ne. (refl, h k ne);
    start = (f, bytes, e, c, same, there);
  }
  disk-Initialized id f t (d, failed x) e c h g = record {
    counted = refl;
    truncating = refl;
    saving = refl;
    stays = refl;
    untouched = λ k ne. (refl, h k ne);
    start = tt;
  }

  failed-Initialized : (id : ℕ) (t : Fetcher P K) (e : Fault) → Initialized id t (t, failed e)
  unfolding AfterStart
  failed-Initialized id t e = record {
    counted = refl;
    truncating = refl;
    saving = refl;
    stays = refl;
    untouched = λ k ne. (refl, refl);
    start = tt;
  }

  settled-Initialized :
      (id : ℕ) (f : File P) (t : Fetcher P K) (saves : Bool) (o : Option (List ℕ))
      → t.disk id ≡ o
      → lookup id t.snapshot.files ≡ some f
      → complete f ≡ true
      → Initialized id t
          (record t { disk = (settled id saves o t.disk).0 }, (settled id saves o t.disk).1)
  unfolding AfterStart Settled settled
  settled-Initialized id f t true o g e c =
      let (bytes, there) = touch_self id t.disk in
      record {
        counted = refl;
        truncating = refl;
        saving = refl;
        stays = refl;
        untouched = λ k ne. (refl, touch_ne id k t.disk ne);
        start = (f, bytes, e, c, there);
      }
  settled-Initialized id f t false none g e c = failed-Initialized id t io_error
  settled-Initialized id f t false (some bytes) g e c = record {
    counted = refl;
    truncating = refl;
    saving = refl;
    stays = refl;
    untouched = λ k ne. (refl, refl);
    start = (f, bytes, e, c, g);
  }

  module _ (fs : Filesystem P) (root : P) (name : ℕ → P) (makes : ℕ → Bool) where
    prepare-Initialized :
        (id : ℕ) (f : File P) (t : Fetcher P K)
        → lookup id t.snapshot.files ≡ some f
        → Initialized id t (prepare fs root name makes id f t)
    unfolding prepare
    prepare-Initialized id f t e =
        if_cases (Initialized id t) (makes id) _ _
          (λ m.
            if_cases (Initialized id t) (complete f) _ _
              (settled-Initialized id f t (t.saves id) (t.disk id) refl e)
              (λ c.
                disk-Initialized id f t
                  (resume id f.progress (t.truncates id) (t.saves id) (t.disk id) t.disk) e c
                  (λ k. resume_ne id k f.progress (t.truncates id) (t.saves id) (t.disk id) t.disk)
                  (resume-Resumed id f.progress (t.truncates id) (t.saves id) (t.disk id) t.disk)))
          (λ m. failed-Initialized id t no_directory)

    enlisted-Initialized :
        (id : ℕ) (o : Option (File P)) (t : Fetcher P K)
        → lookup id t.snapshot.files ≡ o
        → Initialized id t (enlisted fs root name makes id t o)
    unfolding enlisted
    enlisted-Initialized id none t e = failed-Initialized id t (out_of_range id)
    enlisted-Initialized id (some f) t e = prepare-Initialized id f t e

    added-Initialized :
        (id size : ℕ) (t : Fetcher P K) (r : Fetcher P K × Start)
        → Initialized id
            (record t { snapshot = add_announced fs id root (name id) size t.snapshot })
            r
        → Initialized id t r
    unfolding add_announced
    added-Initialized id size t r i = record {
      counted = i.counted;
      truncating = i.truncating;
      saving = i.saving;
      stays = i.stays;
      untouched = λ k ne. (
        (i.untouched k ne).0 ∙ lookup-insert_ne id k _ t.snapshot.files ne,
        (i.untouched k ne).1,
      );
      start = i.start;
    }

    pub initialize_one-Initialized :
        (id size : ℕ) (t : Fetcher P K)
        → Initialized id t (initialize_one fs root name makes id size t)
    unfolding initialize_one
    initialize_one-Initialized id size t = elim (Option-cases (lookup id t.snapshot.files)) [
      | inr (f, e) ↦
          rw (e, initialize_one)
            (if_cases (Initialized id t) (size == f.size) _ _ (λ m. prepare-Initialized id f t e)
              (λ m. failed-Initialized id t invalid_transfer_data))
      | inl e ↦
          let s = add_announced fs id root (name id) size t.snapshot in
          let u = record t { snapshot = s } in
          rw (e, initialize_one)
            (added-Initialized id size t (enlisted fs root name makes id u (lookup id s.files))
              (enlisted-Initialized id (lookup id s.files) u refl))
    ]
