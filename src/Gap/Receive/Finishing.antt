-- ===== src/Gap/Receive/Finishing.antt =====
-- PeerReceiveMachine.cc, `_disk_thread`: a writer that gets the blocks it waits for comes to an end.
use infinit_io.Base.{
  ℕ, zero, suc, ◌+◌, ◌-◌, ◌≤◌, ◌<◌, ◌≡◌, refl, ◌∙◌, sym, ap, subst, inl, inr, ◌⊎◌, true, false,
  Option, none, some, List, [], ◌∷◌, length, take, drop, lookup, update, u32, ◌==◌, arith,
  Bool-cases, Option-cases, length-take, length-drop, take_all, if◌then◌else◌,
}
use infinit_io.Frete.Files.{File}
use infinit_io.Gap.Receive.Writer.{works, Block, Fault, Writer, advance, write_block}
use infinit_io.Gap.Receive.Blocks.{IsFaithful, IsCurrent}
use infinit_io.Gap.Receive.Written.{moved, write_block-moved}
use infinit_io.Gap.Receive.Received.{write_block-Advances}
use infinit_io.Gap.Receive.Accepted.{AllListed, moved-AllListed, write_block-accepts}

module _ {P : Type 0} where
  -- The bytes that the files of a transfer still want.
  unfoldable pub remaining : List (ℕ × File P) → ℕ
  remaining [] = 0
  remaining ((k, f) ∷ m) = (f.size - f.progress) + remaining m

  remaining-update :
      (k n : ℕ) (f : File P) (m : List (ℕ × File P))
      → lookup k m ≡ some f
      → f.progress + n ≤ f.size
      → remaining (update k (record f { progress = f.progress + n }) m) + n ≡ remaining m
  unfolding remaining lookup update
  remaining-update k n f [] h b = ground arith
  remaining-update k n f ((j, x) ∷ m) h b = ground (arith, remaining-update k n f m)

module _ {P : Type 0} {K : Type 0} (content : ℕ → List ℕ) where
  -- A writer at a file that wants bytes, of a transfer whose files are all listed.
  pub record IsReady (w : Writer P K) : Type 0 where
    pub stored : IsFaithful content w
    pub at : IsCurrent w
    pub listed : AllListed w.snapshot
    pub short : w.expected_position < w.full_size
    pub opens : (id : ℕ) → w.opens id ≡ true

  -- All files of a transfer of `count` files are whole.
  unfoldable pub Arrived : ℕ → Writer P K × Option Fault → Type 0
  Arrived count (t, e) =
      (e ≡ none) × (t.finished ≡ true) × ((id : ℕ) → id < count → t.disk id ≡ content id)

  finished-Arrived :
      (w : Writer P K)
      → IsFaithful content w
      → AllListed w.snapshot
      → w.finished ≡ true
      → Arrived w.snapshot.count (w, none)
  unfolding Arrived
  finished-Arrived w v a done = (
    refl,
    done,
    λ id l.
        let (f, h) = a id l in
        let whole = v.behind id f (omega (arith, l, v.ended done)) h in
        v.stored id f h ∙ take_all f.progress (content id) (omega (arith, whole, v.sized id f h)),
  )

module _ {P : Type 0} {K : Type 0} (content : ℕ → List ℕ) (chunk_size : ℕ) where
  -- The block that the writer waits for, as the sender serves it.
  unfoldable pub awaited : Writer P K → Block
  awaited w = record {
    buffer = take chunk_size (drop w.expected_position (content w.expected_file));
    start_position = w.expected_position;
    file_index = w.expected_file;
    io = works;
  }

  unfoldable pub unless_fault :
      Option Fault → Writer P K → Writer P K × Option Fault → Writer P K × Option Fault
  unless_fault none t rest = rest
  unless_fault (some x) t rest = (t, some x)

  -- At most so many blocks, each the one that the writer waits for.
  unfoldable pub deliver : ℕ → Writer P K → Writer P K × Option Fault
  unfolding awaited unless_fault
  deliver zero w = (w, none)
  deliver (suc n) w =
      let t = (write_block chunk_size (awaited w) w).0 in
      let rest = deliver n t in
      if w.finished then (w, none) else unless_fault (write_block chunk_size (awaited w) w).1 t rest

  deliver_step :
      (n : ℕ) (w : Writer P K)
      → w.finished ≡ false
      → (write_block chunk_size (awaited w) w).1 ≡ none
      → deliver (suc n) w ≡ deliver n (write_block chunk_size (awaited w) w).0
  unfolding deliver unless_fault
  deliver_step n w going fine =
      let t = (write_block chunk_size (awaited w) w).0 in
      let e = (write_block chunk_size (awaited w) w).1 in
      ap (λ b. if b then (w, none) else unless_fault e t (deliver n t)) going
      ∙ ap (λ x. unless_fault x t (deliver n t)) fine

  advance-snapshot : (rounds : ℕ) (w : Writer P K) → (advance rounds w).0.snapshot ≡ w.snapshot
  unfolding advance
  advance-snapshot zero w = refl
  advance-snapshot (suc rounds) w = elim (Bool-cases (w.expected_position == w.full_size)) [
    | inr short ↦ rw (short, advance) refl
    | inl done ↦
        let file : ℕ = u32 (w.expected_file + 1) in
        rw (done, advance)
          (elim (Bool-cases (file == w.snapshot.count)) [
            | inl last ↦ rw (last, advance) refl
            | inr more ↦
                rw (more, advance)
                  (elim (Option-cases (lookup file w.snapshot.files)) [
                    | inl missing ↦ rw (missing, advance) refl
                    | inr (f, h) ↦
                        rw (h, advance)
                          (elim (Bool-cases (w.opens file)) [
                            | inr shut ↦ rw (shut, advance) refl
                            | inl ready ↦ rw (ready, advance) (advance-snapshot rounds _)
                          ])
                  ])
          ])
  ]

  advance-opens : (rounds : ℕ) (w : Writer P K) → (advance rounds w).0.opens ≡ w.opens
  unfolding advance
  advance-opens zero w = refl
  advance-opens (suc rounds) w = elim (Bool-cases (w.expected_position == w.full_size)) [
    | inr short ↦ rw (short, advance) refl
    | inl done ↦
        let file : ℕ = u32 (w.expected_file + 1) in
        rw (done, advance)
          (elim (Bool-cases (file == w.snapshot.count)) [
            | inl last ↦ rw (last, advance) refl
            | inr more ↦
                rw (more, advance)
                  (elim (Option-cases (lookup file w.snapshot.files)) [
                    | inl missing ↦ rw (missing, advance) refl
                    | inr (f, h) ↦
                        rw (h, advance)
                          (elim (Bool-cases (w.opens file)) [
                            | inr shut ↦ rw (shut, advance) refl
                            | inl ready ↦ rw (ready, advance) (advance-opens rounds _)
                          ])
                  ])
          ])
  ]

  module _ (w : Writer P K) (r : IsReady content w) (positive : 0 < chunk_size) where
    -- The length of the block, which is not 0 and stays in the file.
    length-awaited :
        (1 ≤ length (awaited w).buffer)
        × (r.at.current.progress + length (awaited w).buffer ≤ r.at.current.size)
    unfolding awaited
    length-awaited =
        let bytes = content w.expected_file in
        let sized = r.stored.sized w.expected_file r.at.current r.at.found in
        let taken = length-take chunk_size (drop w.expected_position bytes) in
        let dropped = length-drop w.expected_position bytes in
        (
          omega (arith, sized, taken, dropped, r.short, r.at.at, r.at.full, positive),
          omega (arith, sized, taken, dropped, r.short, r.at.at, r.at.full),
        )

    snapshot_after :
        (write_block chunk_size (awaited w) w).0.snapshot
        ≡ (moved w r.at.current (awaited w).buffer).snapshot
    unfolding awaited
    snapshot_after =
        rw (write_block-moved content w r.stored r.at chunk_size (awaited w) refl refl refl refl)
          (advance-snapshot w.snapshot.count (moved w r.at.current (awaited w).buffer))

    opens_after : (write_block chunk_size (awaited w) w).0.opens ≡ w.opens
    unfolding awaited
    opens_after =
        rw (write_block-moved content w r.stored r.at chunk_size (awaited w) refl refl refl refl)
          (advance-opens w.snapshot.count (moved w r.at.current (awaited w).buffer))

    -- What one block does: nothing is thrown, fewer bytes are wanted, and the writer is done or
    -- ready for the next.
    round :
        let (t, e) = write_block chunk_size (awaited w) w in
        (e ≡ none)
        × IsFaithful content t
        × AllListed t.snapshot
        × (t.snapshot.count ≡ w.snapshot.count)
        × (suc (remaining t.snapshot.files) ≤ remaining w.snapshot.files)
        × ((t.finished ≡ true) ⊎ IsReady content t)
    unfolding awaited
    round =
        let b = awaited w in
        let t = (write_block chunk_size b w).0 in
        let (fine, stays, on) =
          write_block-accepts content chunk_size b w refl r.stored r.at r.listed r.opens refl refl
            refl in
        let (stored, current) =
          write_block-Advances content chunk_size b w refl r.stored r.at refl refl refl in
        let opened : (id : ℕ) → t.opens id ≡ true = λ id. ap (λ o. o id) opens_after ∙ r.opens id in
        let listed : AllListed t.snapshot =
          subst AllListed (sym snapshot_after)
            (moved-AllListed w r.at.current b.buffer r.at.found r.listed) in
        let less =
          remaining-update w.expected_file (length b.buffer) r.at.current w.snapshot.files
            r.at.found length-awaited.1 in
        (
          fine,
          stored,
          listed,
          ap (λ x. x.count) snapshot_after,
          omega (arith, less, length-awaited.0, ap (λ x. remaining x.files) snapshot_after),
          elim on [
            | inl done ↦ inl done
            | inr short ↦ elim (current fine) [
              | inl done ↦ inl done
              | inr at ↦ inr (record {
                stored = stored;
                at = at;
                listed = listed;
                short = short;
                opens = opened;
              })
            ]
          ],
        )

  deliver-finished : (n : ℕ) (w : Writer P K) → w.finished ≡ true → deliver n w ≡ (w, none)
  unfolding deliver
  deliver-finished zero w h = refl
  deliver-finished (suc n) w h = rw (h, deliver) refl

  -- Enough rounds are as many as bytes are wanted.
  deliver_lem :
      (n : ℕ) (w : Writer P K)
      → IsReady content w
      → 0 < chunk_size
      → remaining w.snapshot.files ≤ n
      → Arrived content w.snapshot.count (deliver n w)
  deliver_lem zero w r p h =
      let (e, x, y, z, less, o) = round w r p in absurd (omega (arith, less, h))
  deliver_lem (suc n) w r p h =
      let t = (write_block chunk_size (awaited w) w).0 in
      let (fine, stored, listed, same, less, on) = round w r p in
      let rest : Arrived content t.snapshot.count (deliver n t) = elim on [
        | inl done ↦
            subst (Arrived content t.snapshot.count) (sym (deliver-finished n t done))
              (finished-Arrived content t stored listed done)
        | inr ready ↦ deliver_lem n t ready p (omega (arith, less, h))
      ] in
      subst (λ k. Arrived content k (deliver (suc n) w)) same
        (subst (Arrived content t.snapshot.count) (sym (deliver_step n w r.at.writing fine)) rest)

  -- A writer that starts where its snapshot says, at a file that wants bytes, of a transfer whose
  -- files are all in the snapshot, with each file on disk up to its progress, and that gets at each
  -- turn the block it waits for, as the sender serves it in chunks of at least one byte, returns
  -- after the last file within as many blocks as there are bytes wanted, where every file can be opened and
  -- no write and no saving of the snapshot fails; it throws nothing, and every file of the transfer is whole
  -- on disk.
  pub deliver-remaining :
      (w : Writer P K)
      → IsReady content w
      → 0 < chunk_size
      → Arrived content w.snapshot.count (deliver (remaining w.snapshot.files) w)
  deliver-remaining w r p = deliver_lem (remaining w.snapshot.files) w r p (omega arith)
