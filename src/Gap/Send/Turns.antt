-- ===== src/Gap/Send/Turns.antt =====
-- SendMachine.cc, `_plain_upload`: the parts of the file, however the threads take turns.
use infinit_io.Base.{
  ℕ, ◌-◌, ◌<◌, ◌≤◌, ◌≡◌, ◌⊎◌, sym, ap, ◌∙◌, subst, true, false, none, some, List, ◌++◌, arith, ltb,
  ◌==◌, has, Bool-cases, inl, inr,
}
use infinit_io.Gap.Send.Cloud.{put}
use infinit_io.Gap.Send.Workers.{put_inv, put_self, put_ne}
use infinit_io.Gap.Send.Multipart.{
  Chunk, Upload, Work, idle, uploading, returned, back, contiguous, fetched,
}
use infinit_io.Gap.Send.Parts.{is_part, AllParts, IsSortedFrom, IsDistinct}
use infinit_io.Gap.Send.Numbers.{Taken}

abbrev pub InFlight : ℕ → (ℕ → Work) → Type 0
InFlight n d = (i : ℕ) × (d i ≡ uploading n)

pub record IsSound (file : List ℕ) (chunk_size count : ℕ) (xs : List Chunk) (u : Upload)
    : Type 0 where
  pub new : List Chunk
  pub split : u.chunks ≡ xs ++ new
  pub limit : u.max_check_id ≡ back xs
  pub index : u.start_check_index ≡ contiguous 0 xs
  pub begun : contiguous 0 xs ≤ u.next_chunk
  pub lower : (n : ℕ) → u.next_chunk ≤ n → has (is_part n) new ≡ false
  pub whole : AllParts file chunk_size count u.chunks
  pub distinct : IsDistinct u.chunks
  pub done : (n : ℕ) → n < u.next_chunk → (has (is_part n) u.chunks ≡ true) ⊎ InFlight n u.doing
  pub real :
      (i n : ℕ)
      → u.doing i ≡ uploading n
      → (n < u.next_chunk) × (n < count) × (has (is_part n) u.chunks ≡ false)
  pub apart : (i j n : ℕ) → u.doing i ≡ uploading n → u.doing j ≡ uploading n → i ≡ j
  pub ended : (i : ℕ) → u.doing i ≡ returned → count ≤ u.next_chunk

module _ (file : List ℕ) (chunk_size count : ℕ) (xs : List Chunk) (sorted : IsSortedFrom 0 xs) where
  abbrev Sound : Upload → Type 0
  Sound = IsSound file chunk_size count xs

  -- Who uploads a number goes on doing so when another thread takes a turn.
  InFlight-put :
      (i n : ℕ) (w : Work) (d : ℕ → Work) → d i ≡ idle → InFlight n d → InFlight n (put i w d)
  InFlight-put i n w d h (j, e) = elim (Bool-cases (i == j)) [
    | inl g ↦
        let same : i ≡ j = ground arith in
        absurd (let no = subst (λ k. d k ≡ idle) same h in ground arith)
    | inr g ↦ (j, put_ne i j w d g ∙ e)
  ]

  pub returns-Sound :
      (i after : ℕ) (u : Upload)
      → u.doing i ≡ idle
      → Sound u
      → Taken u.chunks u.next_chunk (count - u.next_chunk) (after, none)
      → Sound (fetched i (after, none) u)
  unfolding fetched
  returns-Sound i after u h w (a, b) = record {
    new = w.new;
    split = w.split;
    limit = w.limit;
    index = w.index;
    begun = omega (arith, w.begun);
    lower = λ n k. w.lower n (omega arith);
    whole = w.whole;
    distinct = w.distinct;
    done = λ n k. elim (Bool-cases (ltb n u.next_chunk)) [
      | inl e ↦ elim (w.done n (ground arith)) [
        | inl z ↦ inl z
        | inr z ↦ inr (InFlight-put i n returned u.doing h z)
      ]
      | inr e ↦ inl (b n (ground arith) k)
    ];
    real = λ j n k. elim (put_inv i j returned (uploading n) u.doing k) [
      | inl e ↦ absurd (ground (arith, e.1))
      | inr e ↦ let (x, y, z) = w.real j n e.1 in (omega arith, y, z)
    ];
    apart = λ j k n x y. elim (put_inv i j returned (uploading n) u.doing x) [
      | inl e ↦ absurd (ground (arith, e.1))
      | inr e ↦ elim (put_inv i k returned (uploading n) u.doing y) [
        | inl g ↦ absurd (ground (arith, g.1))
        | inr g ↦ w.apart j k n e.1 g.1
      ]
    ];
    ended = λ j k. omega arith;
  }

  pub takes-Sound :
      (i after id : ℕ) (u : Upload)
      → u.doing i ≡ idle
      → Sound u
      → Taken u.chunks u.next_chunk (count - u.next_chunk) (after, some id)
      → Sound (fetched i (after, some id) u)
  unfolding fetched
  takes-Sound i after id u h w (a, b, c, d, e) = record {
    new = w.new;
    split = w.split;
    limit = w.limit;
    index = w.index;
    begun = omega (arith, w.begun);
    lower = λ n k. w.lower n (omega arith);
    whole = w.whole;
    distinct = w.distinct;
    done = λ n k. elim (Bool-cases (ltb n u.next_chunk)) [
      | inl x ↦ elim (w.done n (ground arith)) [
        | inl z ↦ inl z
        | inr z ↦ inr (InFlight-put i n (uploading id) u.doing h z)
      ]
      | inr x ↦ elim (Bool-cases (id == n)) [
        | inl y ↦
            let same : id ≡ n = ground arith in
            inr (i, put_self i (uploading id) u.doing ∙ ap uploading same)
        | inr y ↦ inl (e n (ground arith) (ground arith))
      ]
    ];
    real = λ j n k. elim (put_inv i j (uploading id) (uploading n) u.doing k) [
      | inl x ↦
          let same : id ≡ n = cc in
          subst (λ m. (m < after) × (m < count) × (has (is_part m) u.chunks ≡ false)) same
            (omega arith, omega arith, d)
      | inr x ↦ let (f, y, z) = w.real j n x.1 in (omega arith, y, z)
    ];
    apart = λ j k n x y. elim (put_inv i j (uploading id) (uploading n) u.doing x) [
      | inl f ↦ elim (put_inv i k (uploading id) (uploading n) u.doing y) [
        | inl g ↦ sym f.0 ∙ g.0
        | inr g ↦ absurd (let (m, _, _) = w.real k n g.1 in let same : id ≡ n = cc in omega arith)
      ]
      | inr f ↦ elim (put_inv i k (uploading id) (uploading n) u.doing y) [
        | inl g ↦ absurd (let (m, _, _) = w.real j n f.1 in let same : id ≡ n = cc in omega arith)
        | inr g ↦ w.apart j k n f.1 g.1
      ]
    ];
    ended = λ j k. elim (put_inv i j (uploading id) returned u.doing k) [
      | inl f ↦ absurd (ground (arith, f.1))
      | inr f ↦ omega (arith, w.ended j f.1)
    ];
  }
