-- ===== src/Gap/Send/Acknowledged.antt =====
-- PeerSendMachine.cc, `_cloud_operation`: what a thread that has put its block acknowledges, and what
-- the threads have done once they have returned.
use infinit_io.Base.{
  ℕ, suc, ◌+◌, ◌<◌, ◌≤◌, ◌≡◌, ◌⊎◌, refl, true, false, none, List, ◌∷◌, arith, length, leb, add64,
  ◌==◌, inl, inr, Bool-cases, subst, sym, has, if_cases, AllSome,
}
use infinit_io.Gap.Send.Cloud.{
  Position, Work, idle, putting, returned, Pipeline, put, before, min_element, progress_from, claim,
  acknowledge, Event, turn, stores, step_of, thread, step, Reach, begins, goes,
}
use infinit_io.Gap.Send.Cursor.{size_of, start_of}
use infinit_io.Gap.Send.Claiming.{Place, behind, claim-Handed, size_of_out}
use infinit_io.Gap.Send.Workers.{
  covers, holds, is_returned, returns, returns_le, returns-put, put_inv, holds-put, min_element-le,
  min_element-mem, bytes_before, bytes_before-le, progress_from-le,
}
use infinit_io.Gap.Send.Uploaded.{Stored, IsSound, start-IsSound, claimed-IsSound}

module _ (files : List (ℕ × ℕ)) (threads : ℕ) (few : length files + threads < 4294967293)
    (small : (f : ℕ) → size_of files f < 18446744073709289472) where
  -- The state once a block is put, before the position to acknowledge is looked at.
  abbrev put_block : ℕ → Position → Pipeline → Pipeline
  put_block i b s = record s {
    doing = put i idle s.doing;
    last = put i b s.last;
    stored = b ∷ s.stored;
  }

  put_block-IsSound :
      (i : ℕ) (b : Position) (s : Pipeline)
      → s.doing i ≡ putting b
      → IsSound files threads s
      → IsSound files threads (put_block i b s)
  unfolding put has
  put_block-IsSound i b s h w =
      let running : is_returned (s.doing i) ≡ false =
        subst (λ x. is_returned x ≡ false) (sym h) refl in
      let same = returns-put s.doing i running idle (suc threads) refl in
      let (in_file, claimed_b) = w.real i b h in
      record {
        place = subst (λ n. Place files n s.cursor) (sym same) w.place;
        kept = λ f p x y k. elim (Bool-cases (covers f p b)) [
          | inl e ↦ inl (ground arith)
          | inr e ↦ elim (w.kept f p x y k) [
            | inl z ↦ inl (ground arith)
            | inr (j, lt, o) ↦ inr (
              j,
              lt,
              holds-put f p i j idle s.doing (subst (λ x. holds f p x ≡ false) (sym h) e) o,
            )
          ]
        ];
        ordered = λ j d k. elim (put_inv i j idle (putting d) s.doing k) [
          | inl e ↦ absurd (ground (arith, e.1))
          | inr e ↦
              if_cases (λ l. before d l ≡ false) (i == j) b (s.last j)
                (λ g. absurd (ground (arith, e.0))) (λ g. w.ordered j d e.1)
        ];
        real = λ j d k. elim (put_inv i j idle (putting d) s.doing k) [
          | inl e ↦ absurd (ground (arith, e.1))
          | inr e ↦ w.real j d e.1
        ];
        lasts = λ j.
            if_cases (λ l. l.1 ≤ size_of files l.0) (i == j) b (s.last j) (λ g. omega arith)
              (λ g. w.lasts j);
        passed = λ j.
            if_cases (λ l. (l ≡ (0, 0)) ⊎ (behind l.0 l.1 s.cursor ≡ true)) (i == j) b (s.last j)
              (λ g. inr claimed_b) (λ g. w.passed j);
        acked = λ f p x y k. let old = w.acked f p x y k in ground arith;
        ended = λ j k. elim (put_inv i j idle returned s.doing k) [
          | inl e ↦ absurd (ground (arith, e.1))
          | inr e ↦ w.ended j e.1
        ];
      }

  -- A thread does not hold a byte before what it has put.
  not_held :
      (s : Pipeline) (w : IsSound files threads s) (f p i : ℕ) (least : Position) (d : Work)
      → s.doing i ≡ d
      → holds f p d ≡ true
      → before (s.last i) least ≡ false
      → before (f, p) least ≡ true
      → ⊥
  not_held s w f p i least idle e o a b = absurd (ground arith)
  not_held s w f p i least returned e o a b = absurd (ground arith)
  not_held s w f p i least (putting d) e o a b = let later = w.ordered i d e in ground arith

  -- What lies before the least position put by any thread is in the cloud.
  least-Stored :
      (s : Pipeline)
      → IsSound files threads s
      → (f p : ℕ) → start_of files f ≤ p
      → p < size_of files f
      → bytes_before files f p
        < bytes_before files (min_element s.last threads).0 (min_element s.last threads).1
      → Stored f p s
  least-Stored s w f p x y k =
      let least = min_element s.last threads in
      let (j, lt, e) = min_element-mem s.last threads in
      let fits : least.1 ≤ size_of files least.0 =
        subst (λ l. l.1 ≤ size_of files l.0) (sym e) (w.lasts j) in
      let reached : (least ≡ (0, 0)) ⊎ (behind least.0 least.1 s.cursor ≡ true) =
        subst (λ l. (l ≡ (0, 0)) ⊎ (behind l.0 l.1 s.cursor ≡ true)) (sym e) (w.passed j) in
      elim (Bool-cases (before (f, p) least)) [
        | inr g ↦ absurd (omega (arith, bytes_before-le files f p least.0 least.1 fits g))
        | inl g ↦
            elim (w.kept f p x y (elim reached [
              | inl z ↦ absurd (let no = subst (λ l. before (f, p) l ≡ true) z g in ground arith)
              | inr z ↦ ground arith
            ])) [
              | inl z ↦ z
              | inr (i, le, o) ↦ absurd (
                  not_held s w f p i least (s.doing i) refl o (min_element-le s.last threads i le)
                    g)
            ]
      ]

  acknowledge-IsSound :
      (i n : ℕ) (b : Position) (s : Pipeline)
      → s.doing i ≡ putting b
      → IsSound files threads s
      → IsSound files threads (acknowledge files threads i b n s)
  unfolding acknowledge
  acknowledge-IsSound i n b s h w =
      let t = put_block i b s in
      let v = put_block-IsSound i b s h w in
      let least = min_element t.last threads in
      record {
        place = v.place;
        kept = v.kept;
        ordered = v.ordered;
        real = v.real;
        lasts = v.lasts;
        passed = v.passed;
        acked = λ f p x y.
            if_cases (λ a. bytes_before files f p < a → Stored f p t)
              (leb 1000000 (add64 s.transfer_since_snapshot n))
              (progress_from files least.0 least.1) s.acknowledge_position
              (λ _ k.
                least-Stored t v f p x y (omega (arith, k, progress_from-le files least.0 least.1)))
              (λ _ k. v.acked f p x y k);
        ended = v.ended;
      }

  step_of-IsSound :
      (e : Event) (d : Work) (s : Pipeline)
      → thread e ≤ threads
      → s.doing (thread e) ≡ d
      → IsSound files threads s
      → AllSome (IsSound files threads) (step_of files threads e d s)
  unfolding step_of thread
  step_of-IsSound (turn i) idle s le h w =
      claimed-IsSound files threads few small i (claim files s.cursor).0 (claim files s.cursor).1 s
        le h w
        (claim-Handed files (returns s.doing (suc threads))
          (omega (arith, returns_le s.doing (suc threads))) s.cursor w.place)
  step_of-IsSound (turn i) (putting b) s le h w = tt
  step_of-IsSound (turn i) returned s le h w = tt
  step_of-IsSound (stores i n) idle s le h w = tt
  step_of-IsSound (stores i n) (putting b) s le h w = acknowledge-IsSound i n b s h w
  step_of-IsSound (stores i n) returned s le h w = tt

  step-IsSound :
      (e : Event) (s : Pipeline)
      → IsSound files threads s
      → AllSome (IsSound files threads) (step files threads e s)
  unfolding step
  step-IsSound e s w =
      if_cases (AllSome (IsSound files threads)) (leb (thread e) threads) _ none
        (λ le. step_of-IsSound e (s.doing (thread e)) s (ground arith) refl w) (λ _. tt)

  pub Reach-IsSound : {s : Pipeline} → Reach files threads s → IsSound files threads s
  Reach-IsSound begins = start-IsSound files threads
  Reach-IsSound (goes e r h) =
      subst (AllSome (IsSound files threads)) h (step-IsSound e _ (Reach-IsSound r))

  -- Whatever turns the threads take, once all of them have returned, every byte of every file
  -- from where its upload begins is in the cloud.
  pub Reach-uploaded :
      (s : Pipeline)
      → Reach files threads s
      → ((i : ℕ) → i ≤ threads → s.doing i ≡ returned)
      → (f p : ℕ) → start_of files f ≤ p
      → p < size_of files f
      → Stored f p s
  Reach-uploaded s r over f p x y =
      let w = Reach-IsSound r in
      let gone = w.ended 0 (over 0 (omega arith)) in
      let inside : f < length files = elim (Bool-cases (leb (length files) f)) [
        | inl g ↦ absurd (omega (arith, size_of_out files f (ground arith)))
        | inr g ↦ ground arith
      ] in
      elim (w.kept f p x y (ground arith)) [
        | inl z ↦ z
        | inr (i, le, o) ↦
            absurd (let no = subst (λ d. holds f p d ≡ true) (over i le) o in ground arith)
      ]
