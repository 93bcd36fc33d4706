-- ===== src/Gap/Ghost/Complete.antt =====
-- GhostReceiveMachine.cc, `_transfer`: a server that serves something at each attempt completes a download.
use infinit_io.Base.{
  ap, ◌∙◌, ℕ, zero, suc, ◌+◌, ◌≤◌, ◌<◌, ◌≡◌, ◌⊎◌, refl, sym, subst, true, Option, some, List, [],
  ◌∷◌, ◌++◌, length, length-append, drop, arith, if_cases, inl, inr,
}
use infinit_io.Gap.Ghost.Download.{
  Attempt, drops, Outcome, completed, again, canceled, fatal, is_good, outcome, read_all, existing,
  after_attempt, download,
}
use infinit_io.Gap.Ghost.Whole.{IsPrefix, prefix_left, append_assoc}

-- An attempt that serves what is left of the content, its statuses good: the pieces follow one another, the
-- one that comes to the end of the content is followed by a read of no bytes, and before that the
-- connection may drop.
abbrev pub Serves : List ℕ → List (ℕ × List ℕ) → Type 0
Serves left [] = 0 < length left
Serves left ((status, []) ∷ r) = (is_good status ≡ true) × (left ≡ [])
Serves left ((status, b ∷ bytes) ∷ r) =
    (is_good status ≡ true) × (after : List ℕ) × (b ∷ bytes ++ after ≡ left) × Serves after r

-- A server that serves what is left of the content at every position before its end, at each attempt at
-- least one piece. What it answers at the end of the content, or behind it, is left open.
pub record IsServer (content : List ℕ) (server : ℕ → ℕ → Attempt) : Type 0 where
  pub serves : (k p : ℕ) → p < length content → Serves (drop p content) (server k p).reads
  pub moves : (k p : ℕ) → p < length content → 0 < length (server k p).reads
  pub dropped : (k p : ℕ) → p < length content → (server k p).end ≡ drops

-- The attempt completed the download, or the next one finds a longer beginning of the content, which is
-- not all of it.
abbrev Ahead : List ℕ → ℕ → List ℕ × Outcome → Type 0
Ahead content n x =
    (x.1 ≡ completed)
    ⊎ ((x.1 ≡ again) × (n ≤ length x.0) × (length x.0 < length content) × IsPrefix content x.0)

weaken-Ahead :
    (content : List ℕ) (m n : ℕ) (x : List ℕ × Outcome)
    → m ≤ n
    → Ahead content n x
    → Ahead content m x
weaken-Ahead content m n x h (inl e) = inl e
weaken-Ahead content m n x h (inr (e, l, s, p)) = inr (e, omega arith, s, p)

read_all-Ahead :
    (content : List ℕ) (reads : List (ℕ × List ℕ)) (file left : List ℕ)
    → Serves left reads
    → file ++ left ≡ content
    → Ahead content (length file) (read_all reads drops file)
unfolding read_all outcome
read_all-Ahead content [] file left h q =
    inr (refl, omega arith, omega (arith, h, ap length q, length-append file left), (left, q))
read_all-Ahead content ((status, []) ∷ r) file left (g, h) q =
    if_cases (Ahead content (length file)) (is_good status) (file, completed) (file, fatal)
      (λ _. inl refl) (λ b. absurd (grind arith))
read_all-Ahead content ((status, b ∷ bytes) ∷ r) file left (g, after, w, h) q =
    if_cases (Ahead content (length file)) (is_good status) (read_all r drops (file ++ b ∷ bytes))
      (file, fatal)
      (λ _.
        weaken-Ahead content (length file) (length (file ++ b ∷ bytes)) _
          (omega (arith, length-append file (b ∷ bytes)))
          (read_all-Ahead content r (file ++ b ∷ bytes) after h
            (append_assoc file (b ∷ bytes) after ∙ ap (file ++◌) w ∙ q)))
      (λ b. absurd (grind arith))

read_all-moves :
    (content : List ℕ) (reads : List (ℕ × List ℕ)) (file left : List ℕ)
    → Serves left reads
    → file ++ left ≡ content
    → 0 < length reads
    → Ahead content (suc (length file)) (read_all reads drops file)
unfolding read_all
read_all-moves content [] file left s q h = absurd (omega arith)
read_all-moves content ((status, []) ∷ r) file left (g, s) q h =
    if_cases (Ahead content (suc (length file))) (is_good status) (file, completed) (file, fatal)
      (λ _. inl refl) (λ b. absurd (grind arith))
read_all-moves content ((status, b ∷ bytes) ∷ r) file left (g, after, w, s) q h =
    if_cases (Ahead content (suc (length file))) (is_good status)
      (read_all r drops (file ++ b ∷ bytes)) (file, fatal)
      (λ _.
        weaken-Ahead content (suc (length file)) (length (file ++ b ∷ bytes)) _
          (omega (arith, length-append file (b ∷ bytes)))
          (read_all-Ahead content r (file ++ b ∷ bytes) after s
            (append_assoc file (b ∷ bytes) after ∙ ap (file ++◌) w ∙ q)))
      (λ b. absurd (grind arith))

after_attempt-completed :
    (content file : List ℕ) (m : ℕ) (o : Outcome) (next : Option (List ℕ) × Outcome)
    → Ahead content m (file, o)
    → (m ≤ length file → length file < length content → IsPrefix content file → next.1 ≡ completed)
    → (after_attempt file o next).1 ≡ completed
unfolding after_attempt
after_attempt-completed content file m completed next a f = refl
after_attempt-completed content file m again next (inl e) f = absurd (grind arith)
after_attempt-completed content file m again next (inr (e, n, s, p)) f = f n s p
after_attempt-completed content file m canceled next (inl e) f = absurd (grind arith)
after_attempt-completed content file m canceled next (inr (e, n, s, p)) f = absurd (grind arith)
after_attempt-completed content file m fatal next (inl e) f = absurd (grind arith)
after_attempt-completed content file m fatal next (inr (e, n, s, p)) f = absurd (grind arith)

-- A download that has a beginning of the content on disk, but not all of it, or nothing, completes within as
-- many attempts as bytes are missing, from a server that answers every attempt from a position before the
-- end with what is left of the content, with good statuses and at least one piece, and then at most drops
-- the connection, but not between the last byte and the end of the answer.
pub download-completes :
    (content : List ℕ) (server : ℕ → ℕ → Attempt) (rounds attempt : ℕ) (disk : Option (List ℕ))
    → IsServer content server
    → IsPrefix content (existing disk)
    → length (existing disk) < length content
    → length content ≤ rounds + length (existing disk)
    → (download server rounds attempt disk).1 ≡ completed
unfolding download existing
download-completes content server zero attempt disk s h short fuel = absurd (omega arith)
download-completes content server (suc rounds) attempt disk s h short fuel =
    let file = existing disk in
    let p = length file in
    let reads = (server attempt p).reads in
    subst
      (λ e.
        (after_attempt (read_all reads e file).0 (read_all reads e file).1
          (download server rounds (suc attempt) (some (read_all reads e file).0))).1
        ≡ completed)
      (sym (s.dropped attempt p short))
      (let read = read_all reads drops file in
        after_attempt-completed content read.0 (suc p) read.1 _
          (read_all-moves content reads file (drop p content) (s.serves attempt p short)
            (prefix_left content file h) (s.moves attempt p short))
          (λ more less prefix.
            download-completes content server rounds (suc attempt) (some read.0) s prefix less
              (omega (arith, more, fuel))))
