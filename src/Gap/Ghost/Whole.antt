-- ===== src/Gap/Ghost/Whole.antt =====
-- GhostReceiveMachine.cc, `_transfer`: what is on disk after any attempts.
use infinit_io.Base.{
  ℕ, zero, suc, ◌≡◌, ◌∙◌, refl, sym, ap, true, Option, some, List, [], ◌∷◌, ◌++◌, length, drop,
  if_cases,
}
use infinit_io.Gap.Ghost.Download.{
  Attempt, End, drops, breaks, Outcome, completed, again, canceled, fatal, is_good, outcome,
  read_all, existing, after_attempt, download,
}

-- A server that sends what is left of the content: the pieces read with a good status follow one another,
-- and a read of no bytes with a good status comes at the end of the content.
abbrev pub Honest : List ℕ → List (ℕ × List ℕ) → Type 0
Honest left [] = Unit {0}
Honest left ((status, []) ∷ r) = is_good status ≡ true → left ≡ []
Honest left ((status, b ∷ bytes) ∷ r) =
    is_good status ≡ true → (after : List ℕ) × (b ∷ bytes ++ after ≡ left) × Honest after r

-- The file is a beginning of the content.
abbrev pub IsPrefix : List ℕ → List ℕ → Type 0
IsPrefix content file = (left : List ℕ) × (file ++ left ≡ content)

-- What a download leaves on disk.
abbrev pub Leaves : List ℕ → List ℕ → Outcome → Type 0
Leaves content file completed = file ≡ content
Leaves content file again = IsPrefix content file
Leaves content file canceled = IsPrefix content file
Leaves content file fatal = IsPrefix content file

pub append_assoc : (xs ys zs : List ℕ) → (xs ++ ys) ++ zs ≡ xs ++ (ys ++ zs)
append_assoc [] ys zs = refl
append_assoc (x ∷ xs) ys zs = ap (◌∷◌ x) (append_assoc xs ys zs)

append_nil : (xs : List ℕ) → xs ++ [] ≡ xs
append_nil [] = refl
append_nil (x ∷ xs) = ap (◌∷◌ x) (append_nil xs)

drop-append : (xs ys : List ℕ) → drop (length xs) (xs ++ ys) ≡ ys
drop-append [] ys = refl
drop-append (x ∷ xs) ys = drop-append xs ys

outcome-Leaves :
    (content file : List ℕ) (e : End) → IsPrefix content file → Leaves content file (outcome e)
unfolding outcome
outcome-Leaves content file drops h = h
outcome-Leaves content file breaks h = h

pub read_all-Leaves :
    (content : List ℕ) (reads : List (ℕ × List ℕ)) (e : End) (file left : List ℕ)
    → Honest left reads
    → file ++ left ≡ content
    → Leaves content (read_all reads e file).0 (read_all reads e file).1
unfolding read_all
read_all-Leaves content [] e file left h q = outcome-Leaves content file e (left, q)
read_all-Leaves content ((status, []) ∷ r) e file left h q =
    if_cases (λ (x : List ℕ × Outcome). Leaves content x.0 x.1) (is_good status) (file, completed)
      (file, fatal) (λ g. sym (append_nil file) ∙ ap (file ++◌) (sym (h g)) ∙ q) (λ _. (left, q))
read_all-Leaves content ((status, b ∷ bytes) ∷ r) e file left h q =
    if_cases (λ (x : List ℕ × Outcome). Leaves content x.0 x.1) (is_good status) _ (file, fatal)
      (λ g.
        let (after, w, more) = h g in
        read_all-Leaves content r e (file ++ b ∷ bytes) after more
          (append_assoc file (b ∷ bytes) after ∙ ap (file ++◌) w ∙ q))
      (λ _. (left, q))

-- What a download leaves, with the file there or not.
abbrev pub Ends : List ℕ → Option (List ℕ) × Outcome → Type 0
Ends content r = Leaves content (existing r.0) r.1

after_attempt-Ends :
    (content file : List ℕ) (o : Outcome) (next : Option (List ℕ) × Outcome)
    → Leaves content file o
    → (IsPrefix content file → Ends content next)
    → Ends content (after_attempt file o next)
unfolding after_attempt existing
after_attempt-Ends content file completed next h f = h
after_attempt-Ends content file again next h f = f h
after_attempt-Ends content file canceled next h f = h
after_attempt-Ends content file fatal next h f = h

pub prefix_left :
    (content file : List ℕ) → IsPrefix content file → file ++ drop (length file) content ≡ content
prefix_left content file (left, e) =
    ap (file ++◌) (ap (drop (length file)) (sym e) ∙ drop-append file left) ∙ e

-- However often a download is interrupted, and whatever statuses its requests have, what is on disk stays
-- a beginning of the content, and is the whole content when the download completes, where the server
-- sends at each attempt what is left of the content at the position asked for.
pub download-Ends :
    (content : List ℕ) (server : ℕ → ℕ → Attempt) (rounds attempt : ℕ) (disk : Option (List ℕ))
    → ((k p : ℕ) → Honest (drop p content) (server k p).reads)
    → IsPrefix content (existing disk)
    → Ends content (download server rounds attempt disk)
unfolding download existing
download-Ends content server zero attempt disk honest h = h
download-Ends content server (suc rounds) attempt disk honest h =
    let file = existing disk in
    let answer = server attempt (length file) in
    let read = read_all answer.reads answer.end file in
    after_attempt-Ends content read.0 read.1 _
      (read_all-Leaves content answer.reads answer.end file (drop (length file) content)
        (honest attempt (length file)) (prefix_left content file h))
      (λ p. download-Ends content server rounds (suc attempt) (some read.0) honest p)
