-- ===== src/Gap/Send/Assembled.antt =====
-- SendMachine.cc, `_plain_upload`: a run of all threads, and the parts that are put together.
use infinit_io.Base.{
  ℕ, suc, ◌-◌, ◌≡◌, refl, sym, ap, ◌∙◌, subst, true, false, Option, none, some, List, [], ◌∷◌, ◌++◌,
  arith, length, ◌==◌, if◌then◌else◌, has, Bool-cases, inl, inr,
}
use mathlib.Core.List.{append_assoc}
use infinit_io.Gap.Send.Workers.{put_inv, put_ne}
use infinit_io.Gap.Send.Multipart.{
  Chunk, Upload, Work, idle, uploading, returned, chunk_count_of, fetch, slice, fetched, uploaded,
  turn, run,
}
use infinit_io.Gap.Send.Parts.{is_part, AllParts-append, IsSortedFrom, IsSortedFrom-has, IsDistinct}
use infinit_io.Gap.Send.Numbers.{has-append, Taken, fetch-Taken}
use infinit_io.Gap.Send.Turns.{IsSound, returns-Sound, takes-Sound}

append-IsDistinct :
    (c : Chunk) (xs : List Chunk)
    → has (is_part c.0) xs ≡ false
    → IsDistinct xs
    → IsDistinct (xs ++ c ∷ [])
unfolding has
append-IsDistinct c [] h d = (refl, tt)
append-IsDistinct c (x ∷ r) h (a, d) =
    (ground (arith, has-append x.0 r (c ∷ [])), append-IsDistinct c r (ground arith) d)

pub sorted-IsDistinct : (lo : ℕ) (xs : List Chunk) → IsSortedFrom lo xs → IsDistinct xs
sorted-IsDistinct lo [] s = tt
sorted-IsDistinct lo (c ∷ r) (a, s) =
    (IsSortedFrom-has (suc c.0) c.0 r s (omega arith), sorted-IsDistinct (suc c.0) r s)

module _ (file : List ℕ) (chunk_size : ℕ) (xs : List Chunk) (sorted : IsSortedFrom 0 xs) where
  abbrev total : ℕ
  total = chunk_count_of (length file) chunk_size

  abbrev Sound : Upload → Type 0
  Sound = IsSound file chunk_size total xs

  uploaded-Sound :
      (i id : ℕ) (u : Upload)
      → u.doing i ≡ uploading id
      → Sound u
      → Sound (uploaded file chunk_size i id u)
  unfolding uploaded has
  uploaded-Sound i id u h w =
      let c : Chunk = (id, slice file chunk_size id) in
      let (below, numbered, absent) = w.real i id h in
      let after : (n : ℕ)
          → has (is_part n) (u.chunks ++ c ∷ [])
            ≡ (if has (is_part n) u.chunks then true else (if id == n then true else false)) =
        λ (n : ℕ). has-append n u.chunks (c ∷ []) in
      let other : (j n : ℕ) → (i == j) ≡ false → u.doing j ≡ uploading n → (id == n) ≡ false =
        λ (j n : ℕ) e k. elim (Bool-cases (id == n)) [
          | inl g ↦
              let same : id ≡ n = ground arith in
              absurd (let one = w.apart i j n (h ∙ ap uploading same) k in ground arith)
          | inr g ↦ g
        ] in
      record {
        new = w.new ++ c ∷ [];
        split = ap (λ l. l ++ c ∷ []) w.split ∙ append_assoc xs w.new (c ∷ []);
        limit = w.limit;
        index = w.index;
        begun = w.begun;
        lower = λ n k. ground (arith, has-append n w.new (c ∷ []), w.lower n k);
        whole =
            AllParts-append file chunk_size total u.chunks (c ∷ []) w.whole (numbered, refl, tt);
        distinct = append-IsDistinct c u.chunks absent w.distinct;
        done = λ n k. elim (w.done n k) [
          | inl z ↦ inl (after n ∙ rw z refl)
          | inr (j, z) ↦ elim (Bool-cases (i == j)) [
            | inl g ↦
                let same : i ≡ j = ground arith in
                let one : id ≡ n =
                  let e = subst (λ k. u.doing k ≡ uploading n) (sym same) z in cc in
                inl (ground (arith, after n))
            | inr g ↦ inr (j, put_ne i j idle u.doing g ∙ z)
          ]
        ];
        real = λ j n k. elim (put_inv i j idle (uploading n) u.doing k) [
          | inl e ↦ absurd (ground (arith, e.1))
          | inr e ↦
              let (x, y, z) = w.real j n e.1 in (x, y, after n ∙ rw (z, other j n e.0 e.1) refl)
        ];
        apart = λ j k n x y. elim (put_inv i j idle (uploading n) u.doing x) [
          | inl e ↦ absurd (ground (arith, e.1))
          | inr e ↦ elim (put_inv i k idle (uploading n) u.doing y) [
            | inl g ↦ absurd (ground (arith, g.1))
            | inr g ↦ w.apart j k n e.1 g.1
          ]
        ];
        ended = λ j k. elim (put_inv i j idle returned u.doing k) [
          | inl e ↦ absurd (ground (arith, e.1))
          | inr e ↦ w.ended j e.1
        ];
      }

  fetched-Sound :
      (i : ℕ) (r : ℕ × Option ℕ) (u : Upload)
      → u.doing i ≡ idle
      → Sound u
      → Taken u.chunks u.next_chunk (total - u.next_chunk) r
      → Sound (fetched i r u)
  fetched-Sound i (after, none) u = returns-Sound file chunk_size total xs sorted i after u
  fetched-Sound i (after, some id) u = takes-Sound file chunk_size total xs sorted i after id u

  -- What a thread takes, from the parts at hand.
  pub taken :
      (u : Upload)
      → Sound u
      → Taken u.chunks u.next_chunk
          (total - u.next_chunk)
          (fetch u.max_check_id u.start_check_index u.chunks (total - u.next_chunk) u.next_chunk)
  taken u w =
      rw (w.split, w.limit, w.index)
        (fetch-Taken xs w.new sorted (total - u.next_chunk) u.next_chunk w.begun w.lower)

  pub turn-Sound :
      (i : ℕ) (d : Work) (u : Upload) → u.doing i ≡ d → Sound u → Sound (turn file chunk_size i d u)
  unfolding turn
  turn-Sound i idle u h w = fetched-Sound i _ u h w (taken u w)
  turn-Sound i (uploading id) u h w = uploaded-Sound i id u h w
  turn-Sound i returned u h w = w

  pub run-Sound : (turns : List ℕ) (u : Upload) → Sound u → Sound (run file chunk_size turns u)
  unfolding run
  run-Sound [] u w = w
  run-Sound (i ∷ r) u w = run-Sound r _ (turn-Sound i (u.doing i) u refl w)
