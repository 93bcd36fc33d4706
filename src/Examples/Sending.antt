-- ===== src/Examples/Sending.antt =====
-- fist/src/surface/gap: the theorems on a sender at courses of its uploads.
use infinit_io.Base.{
  ℕ, zero, suc, ◌*◌, ◌<◌, ◌≤◌, ◌≡◌, refl, subst, Bool-cases, inl, inr, true, none, List, [], ◌∷◌,
  arith, ◌==◌, has, count,
}
use infinit_io.Gap.Send.Cloud.{
  Pipeline, turn, stores, Reach, begins, goes, start, step, idle, putting, returned, put,
}
use infinit_io.Gap.Send.Cursor.{size_of, start_of}
use infinit_io.Gap.Send.Uploaded.{Stored}
use infinit_io.Gap.Send.Acknowledged.{Reach-uploaded}
use infinit_io.Gap.Send.Multipart as Multipart
use infinit_io.Gap.Send.Multipart.{
  Chunk, chunk_size_of, chunk_count_of, slice, run, resume, finalize,
}
use infinit_io.Gap.Send.Google.{Upload, upload, asks, responds, waiting, refused, chunk_factor}
use infinit_io.Gap.Send.Finalized.{finalize-run, chunk_count-le}

-- One file of two blocks, and one thread.
abbrev one_file : List (ℕ × ℕ)
one_file = (300000, 0) ∷ []

one_file_small : (f : ℕ) → size_of one_file f < 18446744073709289472
unfolding size_of
one_file_small zero = omega arith
one_file_small (suc f) = omega arith

-- Both blocks are put, and the first one counts as acknowledged.
abbrev both : Pipeline
both = record start {
  cursor = record { file = 0; position = 524288; size = 300000 };
  doing =
      put 0 idle (put 0 (putting (0, 262144)) (put 0 idle (put 0 (putting (0, 0)) start.doing)));
  last = put 0 (0, 262144) (put 0 (0, 0) start.last);
  stored = (0, 262144) ∷ (0, 0) ∷ [];
  transfer_since_snapshot = 2000000;
  acknowledge_position = 262144;
  save_snapshot = true;
}

both_reached : Reach one_file 0 both
unfolding step start
both_reached =
    goes (stores 0 1000000)
      (goes (turn 0) (goes (stores 0 1000000) (goes (turn 0) begins refl) refl) refl) refl

abbrev all_returned : Pipeline
all_returned = record both {
  cursor = record { file = 1; position = 524288; size = 300000 };
  doing = put 0 returned both.doing;
}

Reach-uploaded_example : Stored 0 299999 all_returned
Reach-uploaded_example =
    Reach-uploaded one_file 0 (omega arith) one_file_small all_returned reached gone 0 299999 low
      inside
  where
    reached : Reach one_file 0 all_returned
    reached = unfold step start in goes (turn 0) both_reached refl

    gone : (i : ℕ) → i ≤ 0 → all_returned.doing i ≡ returned
    gone i h = unfold put in ground arith

    low : start_of one_file 0 ≤ 299999
    low = unfold start_of in omega arith

    inside : 299999 < size_of one_file 0
    inside = unfold size_of in omega arith

-- A file of five bytes in chunks of two, of which the second one is there already, and two
-- threads that take seven turns each.
abbrev five : List ℕ
five = 10 ∷ 20 ∷ 30 ∷ 40 ∷ 50 ∷ []

abbrev second : List Chunk
second = (1, 30 ∷ 40 ∷ []) ∷ []

abbrev turns : List ℕ
turns = 1 ∷ 0 ∷ 1 ∷ 0 ∷ 1 ∷ 0 ∷ 1 ∷ 0 ∷ 1 ∷ 0 ∷ 1 ∷ 0 ∷ 1 ∷ []

turns_enough :
    (j : ℕ)
    → has (λ k. k == j) (0 ∷ turns) ≡ true
    → 2 * chunk_count_of 5 2 < count (λ k. k == j) (0 ∷ turns)
unfolding has count chunk_count_of
turns_enough j h = elim (Bool-cases (0 == j)) [
  | inl e ↦
      subst (λ m. 6 < count (λ k. k == m) (0 ∷ turns)) {x = 0} {y = j} (ground arith) (omega arith)
  | inr e ↦ elim (Bool-cases (1 == j)) [
    | inl f ↦
        subst (λ m. 6 < count (λ k. k == m) (0 ∷ turns)) {x = 1} {y = j} (ground arith)
          (omega arith)
    | inr f ↦ absurd (ground arith)
  ]
]

finalize-run_example :
    let end = run five 2 (0 ∷ turns) (resume second) in
    ((j : ℕ) → has (λ k. k == j) (0 ∷ turns) ≡ true → end.doing j ≡ Multipart.returned)
    × (finalize end ≡ five)
finalize-run_example =
    finalize-run five 2 second 0 turns (omega arith) parts (unfold has in (refl, tt)) turns_enough
  where
    parts : (1 < chunk_count_of 5 2) × (30 ∷ 40 ∷ [] ≡ slice five 2 1) × Unit {0}
    parts = unfold chunk_count_of slice in (omega arith, refl, tt)

-- A configured size below the least one of S3, and a file of 100 GB.
chunk_count-le_example :
    (5242880 ≤ chunk_size_of 1000 100000000000)
    × (chunk_count_of 100000000000 (chunk_size_of 1000 100000000000) ≤ 10000)
chunk_count-le_example = chunk_count-le 1000 100000000000

abbrev begun : Upload
begun = record { end = waiting; told = 0; accepted = []; restarts = 0 }

-- The first block is accepted, and the second one meets a transient error.
abbrev interrupted : Upload
interrupted =
    upload 20000000 asks (responds 308 none ∷ responds 308 none ∷ responds 503 none ∷ []) begun

interrupted_ends :
    interrupted
    ≡ record { end = refused; told = 0; accepted = (0, chunk_factor) ∷ []; restarts = 0 }
unfolding upload
interrupted_ends = refl
