-- ===== src/Examples/Writing.antt =====
-- PeerReceiveMachine.cc, `_disk_thread`: the theorems at a transfer of two files.
use infinit_io.Base.{
  ℕ, zero, suc, false, ◌≤◌, ◌<◌, ◌≡◌, refl, true, none, some, List, [], ◌∷◌, length, take, lookup,
  update, ◌==◌, if◌then◌else◌, arith,
}
use infinit_io.Frete.Files.{File}
use infinit_io.Frete.Snapshot.{Snapshot, file_progress_increment}
use infinit_io.Gap.Receive.Writer.{works, cuts, Block, Writer, write_all}
use infinit_io.Gap.Receive.Blocks.{IsFaithful, IsCurrent}
use infinit_io.Gap.Receive.Received.{AllServed, write_all-prefix, write_all-whole}
use infinit_io.Gap.Receive.Accepted.{AllListed}
use infinit_io.Gap.Receive.Finishing.{IsReady, Arrived, remaining, deliver, deliver-remaining}

abbrev content : ℕ → List ℕ
content id = if id == 0 then 1 ∷ 2 ∷ 3 ∷ [] else 4 ∷ []

abbrev file : ℕ → ℕ → ℕ → File ℕ
file id size done = record {
  file_id = id;
  root = "";
  path = "";
  full_path = id;
  size = size;
  progress = done;
}

abbrev snapshot : Snapshot ℕ ℕ
snapshot = record {
  count = 2;
  total_size = 4;
  progress = 0;
  archived = false;
  mirrored = false;
  relative_folder = "";
  files = (0, file 0 3 0) ∷ (1, file 1 1 0) ∷ [];
  key_code = none;
}

abbrev writer : Writer ℕ ℕ
writer = record {
  snapshot = snapshot;
  expected_file = 0;
  expected_position = 0;
  full_size = 3;
  disk = λ id. [];
  opens = λ id. true;
  finished = false;
}

abbrev blocks : List Block
blocks =
    record { buffer = 1 ∷ 2 ∷ []; start_position = 0; file_index = 0; io = works }
    ∷ record { buffer = 3 ∷ []; start_position = 2; file_index = 0; io = works }
    ∷ record { buffer = 4 ∷ []; start_position = 0; file_index = 1; io = works }
    ∷ []

served : AllServed content 2 blocks
served = (refl, (refl, (refl, tt)))

writer-IsFaithful : IsFaithful content writer
unfolding lookup
writer-IsFaithful = record {
  bounded = (
    record { within = omega arith; sized = omega arith },
    (record { within = omega arith; sized = omega arith }, tt),
  );
  sized = λ id f h. ground arith;
  stored = λ id f h. ground arith;
  behind = λ id f l h. absurd (omega (arith, l));
  counted = omega arith;
  ended = λ e. ground arith;
}

writer-IsCurrent : IsCurrent writer
unfolding lookup
writer-IsCurrent = record {
  current = file 0 3 0;
  found = refl;
  at = refl;
  full = refl;
  among = omega arith;
  writing = refl;
}

-- The write of the second block fails after its only byte, before the progress is recorded.
abbrev cut_blocks : List Block
cut_blocks =
    record { buffer = 1 ∷ 2 ∷ []; start_position = 0; file_index = 0; io = works }
    ∷ record { buffer = 3 ∷ []; start_position = 2; file_index = 0; io = cuts 1 }
    ∷ []

write_all-prefix_example :
    let t = (write_all 2 cut_blocks writer).0 in
    (t.disk 0 ≡ take (length (t.disk 0)) (content 0)) × (2 ≤ length (t.disk 0))
write_all-prefix_example =
    write_all-prefix content 2 cut_blocks writer 0 (file 0 3 2) (refl, (refl, tt)) writer-IsFaithful
      writer-IsCurrent there
  where
    there : lookup 0 (write_all 2 cut_blocks writer).0.snapshot.files ≡ some (file 0 3 2)
    there = unfold write_all lookup update file_progress_increment in refl

write_all-whole_example : (write_all 2 blocks writer).0.disk 1 ≡ content 1
write_all-whole_example =
    write_all-whole content 2 blocks writer 1 (file 1 1 1) served writer-IsFaithful writer-IsCurrent
      done two there
  where
    done : (write_all 2 blocks writer).0.finished ≡ true
    done = unfold write_all lookup update file_progress_increment in refl

    two : 1 < (write_all 2 blocks writer).0.snapshot.count
    two = unfold write_all lookup update file_progress_increment in omega arith

    there : lookup 1 (write_all 2 blocks writer).0.snapshot.files ≡ some (file 1 1 1)
    there = unfold write_all lookup update file_progress_increment in refl

listed : AllListed snapshot
unfolding lookup
listed zero l = (file 0 3 0, refl)
listed (suc zero) l = (file 1 1 0, refl)
listed (suc (suc n)) l = absurd (omega (arith, l))

deliver-remaining_example : Arrived content 2 (deliver content 2 (remaining snapshot.files) writer)
deliver-remaining_example = deliver-remaining content 2 writer ready (omega arith)
  where
    ready : IsReady content writer
    ready = record {
      stored = writer-IsFaithful;
      at = writer-IsCurrent;
      listed = listed;
      short = omega arith;
      opens = λ id. refl;
    }
