-- ===== src/Gap/Send/Whole.antt =====
-- SendMachine.cc, `_plain_upload`: the threads come to an end, and S3 then has the file.
use infinit_io.Base.{
  ℕ, suc, ◌+◌, ◌-◌, ◌*◌, ◌%◌, ◌<◌, ◌≤◌, ◌≡◌, ◌⊎◌, refl, sym, ap, ◌∙◌, subst, false, Option, none,
  some, List, [], ◌∷◌, arith, length, ◌==◌, has, count, Bool-cases, inl, inr,
}
use mathlib.Core.List.{append-nil}
use native.Mathlib.Nat.{div-add-mod', mod-lt}
use infinit_io.Gap.Send.Workers.{put_self, put_ne}
use infinit_io.Gap.Send.Multipart.{
  Chunk, Upload, Work, idle, uploading, returned, chunk_count_of, sort, fetched, turn, run, resume,
  uploaded,
}
use infinit_io.Gap.Send.Parts.{AllParts, AllParts-sort, IsSortedFrom, IsDistinct, sort-IsSortedFrom}
use infinit_io.Gap.Send.Numbers.{contiguous-has, Taken}
use infinit_io.Gap.Send.Turns.{IsSound}
use infinit_io.Gap.Send.Assembled.{sorted-IsDistinct, taken, turn-Sound}

-- The chunks cover the file.
pub chunk_count-covers :
    (n chunk_size : ℕ) → 0 < chunk_size → n ≤ chunk_count_of n chunk_size * chunk_size
unfolding chunk_count_of
chunk_count-covers n chunk_size h =
    let whole = div-add-mod' n chunk_size in
    elim (Bool-cases (n % chunk_size == 0)) [
      | inl e ↦ rw e (grind arith)
      | inr e ↦ rw e (grind (arith, mod-lt n h))
    ]

pub is_busy : Work → ℕ
is_busy idle = 0
is_busy (uploading id) = 1
is_busy returned = 0

module _ (file : List ℕ) (chunk_size : ℕ) where
  abbrev total : ℕ
  total = chunk_count_of (length file) chunk_size

  pub resume-Sound :
      (listed : List Chunk)
      → AllParts file chunk_size total listed
      → IsDistinct listed
      → IsSound file chunk_size total (sort listed) (resume listed)
  unfolding resume has
  resume-Sound listed p d = record {
    new = [];
    split = sym (append-nil (sort listed));
    limit = refl;
    index = refl;
    begun = omega arith;
    lower = λ n k. refl;
    whole = AllParts-sort file chunk_size total listed p;
    distinct = sorted-IsDistinct 0 (sort listed) (sort-IsSortedFrom listed d);
    done = λ n k. inl (contiguous-has 0 n (sort listed) (omega arith) k);
    real = λ i n k. absurd (ground arith);
    apart = λ i j n x y. absurd (ground arith);
    ended = λ i k. absurd (ground arith);
  }

  -- The turns that a thread has left at most, but the one in which it returns.
  pub left : ℕ → Upload → ℕ
  unfolding is_busy
  left i u = 2 * (total - u.next_chunk) + is_busy (u.doing i)

  abbrev pub Ends : ℕ → ℕ → Upload → Type 0
  Ends i n u = (u.doing i ≡ returned) ⊎ (left i u < n)

  pub resume-Ends : (listed : List Chunk) (i n : ℕ) → 2 * total < n → Ends i n (resume listed)
  unfolding resume left is_busy
  resume-Ends listed i n h = inr (omega arith)

  fetched-left :
      (i n : ℕ) (r : ℕ × Option ℕ) (u : Upload)
      → Taken u.chunks u.next_chunk (total - u.next_chunk) r
      → 2 * (total - u.next_chunk) < suc n
      → Ends i n (fetched i r u)
  unfolding fetched left is_busy
  fetched-left i n (after, none) u t h = inl (put_self i returned u.doing)
  fetched-left i n (after, some id) u (a, b, c, d, e) h =
      inr (rw (put_self i (uploading id) u.doing) (omega arith))

  -- A thread's own turn takes one of them.
  turn-own :
      (xs : List Chunk) (sorted : IsSortedFrom 0 xs) (i n : ℕ) (d : Work) (u : Upload)
      → IsSound file chunk_size total xs u
      → u.doing i ≡ d
      → Ends i (suc n) u
      → Ends i n (turn file chunk_size i d u)
  unfolding turn left uploaded is_busy
  turn-own xs sorted i n idle u w h (inl e) = absurd (ground (arith, h, e))
  turn-own xs sorted i n idle u w h (inr e) =
      fetched-left i n _ u (taken file chunk_size xs sorted u w) (omega arith)
  turn-own xs sorted i n (uploading id) u w h (inl e) = absurd (ground (arith, h, e))
  turn-own xs sorted i n (uploading id) u w h (inr e) =
      let busy : is_busy (u.doing i) ≡ 1 = ap is_busy h in
      inr (rw (put_self i idle u.doing) (omega arith))
  turn-own xs sorted i n returned u w h e = inl h

  fetched-other :
      (i j n : ℕ) (r : ℕ × Option ℕ) (u : Upload)
      → (j == i) ≡ false
      → Taken u.chunks u.next_chunk (total - u.next_chunk) r
      → Ends i n u
      → Ends i n (fetched j r u)
  unfolding fetched left
  fetched-other i j n (after, none) u g (a, b) (inl e) = inl (put_ne j i returned u.doing g ∙ e)
  fetched-other i j n (after, none) u g (a, b) (inr e) =
      inr (rw (put_ne j i returned u.doing g) (omega arith))
  fetched-other i j n (after, some id) u g (a, b, c, d, f) (inl e) =
      inl (put_ne j i (uploading id) u.doing g ∙ e)
  fetched-other i j n (after, some id) u g (a, b, c, d, f) (inr e) =
      inr (rw (put_ne j i (uploading id) u.doing g) (omega arith))

  -- The turns of the others take none back.
  turn-other :
      (xs : List Chunk) (sorted : IsSortedFrom 0 xs) (i j n : ℕ) (d : Work) (u : Upload)
      → IsSound file chunk_size total xs u
      → (j == i) ≡ false
      → Ends i n u
      → Ends i n (turn file chunk_size j d u)
  unfolding turn left uploaded is_busy
  turn-other xs sorted i j n idle u w g e =
      fetched-other i j n _ u g (taken file chunk_size xs sorted u w) e
  turn-other xs sorted i j n (uploading id) u w g (inl e) = inl (put_ne j i idle u.doing g ∙ e)
  turn-other xs sorted i j n (uploading id) u w g (inr e) = inr (rw (put_ne j i idle u.doing g) e)
  turn-other xs sorted i j n returned u w g e = e

  pub run-Ends :
      (xs : List Chunk) (sorted : IsSortedFrom 0 xs) (i : ℕ) (turns : List ℕ) (u : Upload)
      → IsSound file chunk_size total xs u
      → Ends i (count (λ j. j == i) turns) u
      → (run file chunk_size turns u).doing i ≡ returned
  unfolding run count
  run-Ends xs sorted i [] u w (inl e) = e
  run-Ends xs sorted i [] u w (inr e) = absurd (omega arith)
  run-Ends xs sorted i (j ∷ r) u w e =
      let v = turn-Sound file chunk_size xs sorted j (u.doing j) u refl w in
      let next = turn file chunk_size j (u.doing j) u in
      elim (Bool-cases (j == i)) [
        | inl g ↦
            let same : j ≡ i = ground arith in
            run-Ends xs sorted i r next v (
              subst (λ k. Ends i (count (λ m. m == i) r) (turn file chunk_size k (u.doing k) u))
                (sym same)
                (turn-own xs sorted i (count (λ m. m == i) r) (u.doing i) u w refl (
                  subst (λ n. Ends i n u) {x = count (λ m. m == i) (j ∷ r)}
                    {y = suc (count (λ m. m == i) r)} (rw g refl) e)))
        | inr g ↦ run-Ends xs sorted i r next v (
            turn-other xs sorted i j (count (λ m. m == i) r) (u.doing j) u w g (
              subst (λ n. Ends i n u) {x = count (λ m. m == i) (j ∷ r)} {y = count (λ m. m == i) r}
                (rw g refl) e))
      ]
