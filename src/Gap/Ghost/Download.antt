-- ===== src/Gap/Ghost/Download.antt =====
-- GhostReceiveMachine.cc, `_transfer` from the first attempt on: the download of the file over HTTP, which
-- goes on at the end of what is on disk. What the server sends at each attempt is given, for the position
-- that it is asked for; the waits between the attempts and the reports are left out.
use infinit_io.Base.{
  ℕ, zero, suc, Bool, ◌||◌, Option, none, some, List, [], ◌∷◌, ◌++◌, length, ◌==◌, if◌then◌else◌,
}

-- How an attempt ends when no read of no bytes ends it: with an exception of the network or of the
-- request, or with one of the file system.
pub data End : Type 0 where
  drops breaks : End

-- What is read, with the status that the request has then, 0 where it has none yet.
pub record Attempt : Type 0 where
  pub reads : List (ℕ × List ℕ)
  pub end : End

unfoldable pub is_good : ℕ → Bool
is_good status = status == 0 || (status == 200 || status == 206)

-- How an attempt or a download ends: the file is there, the next attempt comes, the transaction is
-- canceled, or an exception leaves the function.
pub data Outcome : Type 0 where
  completed again canceled fatal : Outcome

unfoldable pub outcome : End → Outcome
outcome drops = again
outcome breaks = canceled

-- The loop of reads, with what is on disk: the status is looked at first, then a read of no bytes ends it.
unfoldable pub read_all : List (ℕ × List ℕ) → End → List ℕ → List ℕ × Outcome
unfolding is_good outcome
read_all [] e file = (file, outcome e)
read_all ((status, []) ∷ r) e file = if is_good status then (file, completed) else (file, fatal)
read_all ((status, b ∷ bytes) ∷ r) e file =
    let rest = read_all r e (file ++ b ∷ bytes) in if is_good status then rest else (file, fatal)

-- Opening the file to append to it makes it where there is none.
unfoldable pub existing : Option (List ℕ) → List ℕ
existing none = []
existing (some bytes) = bytes

-- What follows an attempt: the next one, unless it ends the download.
unfoldable pub after_attempt :
    List ℕ → Outcome → Option (List ℕ) × Outcome → Option (List ℕ) × Outcome
after_attempt file completed next = (some file, completed)
after_attempt file again next = next
after_attempt file canceled next = (some file, canceled)
after_attempt file fatal next = (some file, fatal)

-- The attempts, `server` giving the answer to each of them for the position asked for; `again` at the end
-- means that the attempts considered are over.
unfoldable pub download : (ℕ → ℕ → Attempt) → ℕ → ℕ → Option (List ℕ) → Option (List ℕ) × Outcome
unfolding read_all existing after_attempt
download server zero attempt disk = (disk, again)
download server (suc rounds) attempt disk =
    let file = existing disk in
    let answer = server attempt (length file) in
    let read = read_all answer.reads answer.end file in
    after_attempt read.0 read.1 (download server rounds (suc attempt) (some read.0))
