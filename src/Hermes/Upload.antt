-- ===== src/Hermes/Upload.antt =====
-- oracles/hermes, Clerk.cc and Chunk.cc: what is kept of an upload, and what a fetch gives back.
use infinit_io.Base.{
  ℕ, ◌+◌, ◌-◌, ◌≤◌, ◌<◌, ◌≡◌, refl, sym, ap, ◌∙◌, true, some, List, [], ◌∷◌, ◌++◌, length,
  length-append, take, drop, arith, u64_mod, add64, sub64, length-drop,
}
use mathlib.Core.List.{append-nil, append_assoc}
use infinit_io.Hermes.Chunk.{Bytes, Disk, write, Io, ok, follows, belongs_to, append, save, extract}
use infinit_io.Hermes.Clerk.{Clerk, store, fetch, find_if}

-- An identified transaction of no piece, and of one.
abbrev pub empty : Disk → Clerk
empty d = record { identified = true; chunks = []; disk = d }

abbrev pub piece : ℕ → ℕ → ℕ → Disk → Clerk
piece id off n d = record {
  identified = true;
  chunks = record { id = id; off = off; size = n } ∷ [];
  disk = d;
}

abbrev pub concat : List Bytes → Bytes
concat [] = []
concat (w ∷ ws) = w ++ concat ws

module _ (io : Io) (id : ℕ) where
  -- Buffers stored one behind the other.
  pub upload : ℕ → List Bytes → Clerk → Clerk
  upload off [] k = k
  upload off (w ∷ ws) k = upload (off + length w) ws (store io id off w k).0

  store-empty :
      (off : ℕ) (v : Bytes) (d : Disk)
      → io.opens id off ≡ true
      → (store io id off v (empty d)).0 ≡ piece id off (length v) (write d id off v)
  unfolding store find_if save
  store-empty off v d o = rw o refl

  store-piece :
      (off : ℕ) (v w : Bytes) (d : Disk)
      → io.opens id off ≡ true
      → d id off ≡ some v
      → off + length v + length w < u64_mod
      → (store io id (off + length v) w (piece id off (length v) d)).0
        ≡ piece id off (length (v ++ w)) (write d id off (v ++ w))
  unfolding store find_if append
  store-piece off v w d o h b =
      rw (next, find_if) (rw o (rw h (ap (λ n. piece id off n (write d id off (v ++ w))) sum)))
    where
      next :
          follows
            (record { id = id; off = off + length v; size = length w })
            (record { id = id; off = off; size = length v })
          ≡ true
      next = unfold follows in ground arith

      sum : add64 (length v) (length w) ≡ length (v ++ w)
      sum = omega (arith, length-append v w)

  write_self : (off : ℕ) (v : Bytes) (d : Disk) → write d id off v id off ≡ some v
  write_self off v d = ground arith

  upload-piece :
      (off : ℕ) (v : Bytes) (ws : List Bytes) (d : Disk)
      → io.opens id off ≡ true
      → d id off ≡ some v
      → off + length v + length (concat ws) < u64_mod
      → (e : Disk) × (upload (off + length v) ws (piece id off (length v) d)
          ≡ piece id off (length (v ++ concat ws)) e)
        × (e id off ≡ some (v ++ concat ws))
  unfolding upload
  upload-piece off v [] d o h b = (
    d,
    ap (λ (u : Bytes). piece id off (length u) d) (sym (append-nil v)),
    h ∙ ap some (sym (append-nil v)),
  )
  upload-piece off v (w ∷ ws) d o h b =
      let d' : Disk = write d id off (v ++ w) in
      let size : length (v ++ w) ≡ length v + length w = length-append v w in
      let whole : (v ++ w) ++ concat ws ≡ v ++ (w ++ concat ws) = append_assoc v w (concat ws) in
      let (e, all, kept) =
        upload-piece off (v ++ w) ws d' o (write_self off (v ++ w) d)
          (omega (arith, size, length-append w (concat ws))) in
      let at : off + length v + length w ≡ off + length (v ++ w) = omega (arith, size) in
      (
        e,
        rw (store-piece off v w d o h (omega (arith, length-append w (concat ws))), at)
            (all ∙ ap (λ (u : Bytes). piece id off (length u) e) whole),
        kept ∙ ap some whole,
      )

  fetch-piece :
      (off i size : ℕ) (u : Bytes) (d : Disk)
      → d id off ≡ some u
      → off + length u < u64_mod
      → i ≤ length u
      → fetch io id (off + i) size (piece id off (length u) d) ≡ (
          let rest = drop i u in
          ok (take size rest ++ io.garbage (length rest - length (take size rest))))
  unfolding fetch find_if extract
  fetch-piece off i size u d h b l = rw (inside, find_if) (rw (h, shift, room) refl)
    where
      inside :
          belongs_to
            (record { id = id; off = off + i; size = size })
            (record { id = id; off = off; size = length u })
          ≡ true
      inside = unfold belongs_to in ground arith

      shift : sub64 (off + i) off ≡ i
      shift = omega arith

      room : sub64 (add64 off (length u)) (off + i) ≡ length (drop i u)
      room = omega (arith, length-drop i u)

  -- Buffers that are uploaded one behind the other, from any offset on and ending below 2 ^ 64, into
  -- a transaction that holds nothing, make one piece where its file can be opened. A fetch inside it, up to its end, gives the bytes from there
  -- on; the part of the result's buffer behind them is as it was allocated.
  pub fetch-upload :
      (off i size : ℕ) (w : Bytes) (ws : List Bytes) (d : Disk)
      → io.opens id off ≡ true
      → off + length (w ++ concat ws) < u64_mod
      → i ≤ length (w ++ concat ws)
      → fetch io id (off + i) size (upload off (w ∷ ws) (empty d)) ≡ (
          let rest = drop i (w ++ concat ws) in
          ok (take size rest ++ io.garbage (length rest - length (take size rest))))
  unfolding upload
  fetch-upload off i size w ws d o b l =
      let (e, all, kept) =
        upload-piece off w ws (write d id off w) o (write_self off w d)
          (omega (arith, length-append w (concat ws))) in
      rw (store-empty off w d o) (rw all (fetch-piece off i size (w ++ concat ws) e kept b l))
