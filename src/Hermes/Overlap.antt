-- ===== src/Hermes/Overlap.antt =====
-- oracles/hermes, Clerk.cc and Chunk.cc: pieces that are stored before or over another piece.
use infinit_io.Base.{
  ℕ, ◌+◌, ◌-◌, ◌≤◌, ◌<◌, ◌≡◌, refl, ap, true, false, some, ◌++◌, length, length-append, length-drop,
  take_all, drop, arith, u64_mod, add64, sub64, ltb,
}
use infinit_io.Hermes.Chunk.{
  Bytes, Disk, write, remove_file, Io, Chunk, ok, err, not_found, follows, overlaps, leads,
  belongs_to, merge, prepend, write_from,
}
use infinit_io.Hermes.Clerk.{store, fetch, find_if}
use infinit_io.Hermes.Upload.{piece}

module _ (io : Io) (id off : ℕ) (v w : Bytes) (d : Disk) where
  abbrev at : ℕ → ℕ → Chunk
  at o n = record { id = id; off = o; size = n }

  prepend_lem :
      io.opens id off ≡ true
      → d id (off + length w) ≡ some v
      → length w + length v < u64_mod
      → prepend io (at (off + length w) (length v)) (at off (length w)) w d
        ≡ (write d id off (w ++ v), ok (at off (length (w ++ v))))
  unfolding prepend
  prepend_lem o h b = rw o (
      rw (h, prepend)
        (ap (λ n. (write d id off (w ++ v), ok (at off n))) (omega (arith, length-append w v))))

  module _ (o : io.opens id off ≡ true) (h : d id (off + length w) ≡ some v)
      (b : off + length w + length v < u64_mod) (some_bytes : 0 < length w) where
    no_follow : follows (at off (length w)) (at (off + length w) (length v)) ≡ false
    unfolding follows
    no_follow = ground arith

    no_overlap : overlaps (at off (length w)) (at (off + length w) (length v)) ≡ false
    unfolding overlaps
    no_overlap = ground arith

    lead : leads (at off (length w)) (at (off + length w) (length v)) ≡ true
    unfolding leads
    lead = ground arith

    -- A piece of at least one byte that ends where the one that is held begins, with the file of
    -- each at hand and all of it below 2 ^ 64, is put before it: one piece is left, at
    -- the new offset, with the bytes of both in order, and the old file is gone.
    pub store-before :
        (store io id off w (piece id (off + length w) (length v) d)).0
        ≡ piece id off (length (w ++ v)) (remove_file (write d id off (w ++ v)) id (off + length w))
    unfolding store find_if
    store-before =
        rw (no_follow, find_if)
          (rw (no_overlap, find_if) (rw (lead, find_if) (rw (prepend_lem o h (omega arith)) refl)))

  merge_lem :
      (i : ℕ)
      → io.opens id off ≡ true
      → d id off ≡ some v
      → 0 < i
      → merge io (at off (length v)) (at (off + i) (length w)) w d ≡ (
        write d id off (
            v
            ++ write_from io w
                (sub64 (add64 off (length v)) (off + i))
                (sub64 (add64 (off + i) (length w)) (add64 off (length v)))),
        ok (at off (add64 (length v) (sub64 (add64 (off + i) (length w)) (add64 off (length v))))),
      )
  unfolding merge
  merge_lem i o h p = rw (earlier, merge) (rw o (rw (h, merge) refl))
    where
      earlier : ltb off (off + i) ≡ true
      earlier = ground arith

  module _ (i : ℕ) (o : io.opens id off ≡ true) (h : d id off ≡ some v) (p : 0 < i)
      (inside : i < length v) (b : off + i + length w < u64_mod)
      (k : off + length v < u64_mod) where
    over : overlaps (at (off + i) (length w)) (at off (length v)) ≡ true
    unfolding overlaps
    over = ground arith

    behind : follows (at (off + i) (length w)) (at off (length v)) ≡ false
    unfolding follows
    behind = ground arith

    store-over :
        (store io id (off + i) w (piece id off (length v) d)).0
        ≡ piece id off
            (i + length w)
            (write d id off (v ++ write_from io w (length v - i) (sub64 (i + length w) (length v))))
    unfolding store find_if
    store-over =
        rw (behind, find_if)
          (rw (over, find_if) (rw (merge_lem i o h p) (rw (room, count, size) refl)))
      where
        room : sub64 (add64 off (length v)) (off + i) ≡ length v - i
        room = omega arith

        count :
            sub64 (add64 (off + i) (length w)) (add64 off (length v))
            ≡ sub64 (i + length w) (length v)
        count = omega arith

        size : add64 (length v) (sub64 (i + length w) (length v)) ≡ i + length w
        size = omega arith

    -- A piece that begins inside the one that is held, behind its first byte, and reaches at least
    -- as far, extends it by the bytes that lie behind its end, where the file is at hand, the ends
    -- are below 2 ^ 64 and the piece is shorter than 2 ^ 63. Those that are held already are not written again.
    pub store-extends :
        length v ≤ i + length w
        → length w < 9223372036854775808
        → (store io id (off + i) w (piece id off (length v) d)).0
          ≡ piece id off (i + length w) (write d id off (v ++ drop (length v - i) w))
    store-extends long small =
        rw store-over (ap (λ u. piece id off (i + length w) (write d id off (v ++ u))) tail)
      where
        tail :
            write_from io w (length v - i) (sub64 (i + length w) (length v)) ≡ drop (length v - i) w
        tail =
            unfold write_from in
            ground (
              arith,
              length-drop (length v - i) w,
              take_all (sub64 (i + length w) (length v)) (drop (length v - i) w),
            )

    -- A piece that begins inside the one that is held, behind its first byte, and ends before its
    -- end, as when it is sent again, moves
    -- the recorded end back to its own: of the bytes behind it none can be fetched any more.
    pub store-inside_loses :
        (j size : ℕ)
        → i + length w < j
        → j ≤ length v
        → fetch io id (off + j) size (store io id (off + i) w (piece id off (length v) d)).0
          ≡ err not_found
    unfolding fetch find_if
    store-inside_loses j size past held = rw store-over (rw (outside, find_if) refl)
      where
        outside :
            belongs_to (record { id = id; off = off + j; size = size }) (at off (i + length w))
            ≡ false
        outside = unfold belongs_to in ground arith
