-- ===== src/Gap/Send/Cloud.antt =====
-- PeerSendMachine.cc, `_cloud_operation` and `progress_from`: the threads that upload the blocks of
-- a transaction's files to the cloud. The threads share one cursor over the files; each of them
-- claims a block and reads it at once, then puts it, during which the others run. The files are
-- given by their sizes and by the progress each of them has when the cursor comes to it. The
-- saving of the snapshot and the reports are left out, and so is an exception, which ends all
-- threads.
use infinit_io.Base.{
  ℕ, zero, suc, ◌+◌, ◌≡◌, Bool, true, false, Option, none, some, List, [], ◌∷◌, drop, u32, add64,
  ltb, leb, ◌==◌, if◌then◌else◌,
}

abbrev pub chunk_size : ℕ
chunk_size = 262144

-- `FileID(-1)`.
abbrev pub no_file : ℕ
no_file = 4294967295

-- A file and an offset in it.
abbrev pub Position : Type 0
Position = ℕ × ℕ

-- The order of positions, as the code compares them.
abbrev pub before : Position → Position → Bool
before a b = if a.0 == b.0 then ltb a.1 b.1 else ltb a.0 b.0

-- The sum of 64-bit words wraps around.
unfoldable pub progress_from : List (ℕ × ℕ) → ℕ → ℕ → ℕ
progress_from [] f p = p
progress_from ((size, progress) ∷ r) zero p = p
progress_from ((size, progress) ∷ r) (suc f) p = add64 size (progress_from r f p)

pub record Cursor : Type 0 where
  pub file : ℕ  -- uint32_t
  pub position : ℕ  -- uint64_t
  pub size : ℕ

-- The loop that looks for a file with bytes left, from the cursor's file on; false where the files
-- are over.
unfoldable pub seek : List (ℕ × ℕ) → Cursor → Cursor × Bool
seek [] c = (c, false)
seek ((size, progress) ∷ r) c =
    if leb size progress
    then seek r (record { file = u32 (c.file + 1); position = progress; size = size })
    else (record c { position = progress; size = size }, true)

unfoldable pub claim : List (ℕ × ℕ) → Cursor → Cursor × Bool
unfolding seek
claim files c =
    let file = u32 (c.file + 1) in
    if leb c.size c.position then seek (drop file files) (record c { file = file }) else (c, true)

-- What a thread does.
pub data Work : Type 0 where
  idle : Work
  putting : Position → Work
  returned : Work

pub record Pipeline : Type 0 where
  pub cursor : Cursor
  pub doing : ℕ → Work
  pub last : ℕ → Position  -- last_acknowledge_block
  pub stored : List Position
  pub transfer_since_snapshot : ℕ
  pub acknowledge_position : ℕ
  pub save_snapshot : Bool

unfoldable pub put {ℓ} : {A : Type ℓ} → ℕ → A → (ℕ → A) → ℕ → A
put i a f j = if i == j then a else f j

-- `std::min_element` over the threads below the last one.
unfoldable pub min_element : (ℕ → Position) → ℕ → Position
min_element last zero = last 0
min_element last (suc n) =
    let best = min_element last n in if before (last (suc n)) best then last (suc n) else best

unfoldable pub start : Pipeline
start = record {
  cursor = record { file = no_file; position = 0; size = 0 };
  doing = λ i. idle;
  last = λ i. (0, 0);
  stored = [];
  transfer_since_snapshot = 0;
  acknowledge_position = 0;
  save_snapshot = false;
}

-- A thread claims a block, or returns.
unfoldable pub claimed : ℕ → Cursor × Bool → Pipeline → Pipeline
unfolding put
claimed i (c, false) s = record s { cursor = c; doing = put i returned s.doing }
claimed i (c, true) s = record s {
  cursor = record c { position = add64 c.position chunk_size };
  doing = put i (putting (c.file, c.position)) s.doing;
  save_snapshot = false;
}

-- A block is in the cloud; `n` is the number of bytes put, `threads` that of the other threads.
unfoldable pub acknowledge : List (ℕ × ℕ) → ℕ → ℕ → Position → ℕ → Pipeline → Pipeline
unfolding put min_element progress_from
acknowledge files threads i b n s =
    let last = put i b s.last in
    let since = add64 s.transfer_since_snapshot n in
    let least = min_element last threads in
    let late = leb 1000000 since in
    record s {
      doing = put i idle s.doing;
      last = last;
      stored = b ∷ s.stored;
      transfer_since_snapshot = since;
      acknowledge_position =
          if late then progress_from files least.0 least.1 else s.acknowledge_position;
      save_snapshot = if late then true else s.save_snapshot;
    }

-- A thread goes on: it claims a block, or its block has been put.
pub data Event : Type 0 where
  turn : ℕ → Event
  stores : ℕ → ℕ → Event

unfoldable pub step_of : List (ℕ × ℕ) → ℕ → Event → Work → Pipeline → Option Pipeline
unfolding claim claimed acknowledge
step_of files threads (turn i) idle s = some (claimed i (claim files s.cursor) s)
step_of files threads (stores i n) (putting b) s = some (acknowledge files threads i b n s)
step_of files threads _ _ s = none

unfoldable pub thread : Event → ℕ
thread (turn i) = i
thread (stores i n) = i

-- Of `threads + 1` threads one goes on.
unfoldable pub step : List (ℕ × ℕ) → ℕ → Event → Pipeline → Option Pipeline
unfolding step_of thread
step files threads e s =
    if leb (thread e) threads then step_of files threads e (s.doing (thread e)) s else none

-- What the threads come to, of `threads + 1` of them.
pub data Reach (files : List (ℕ × ℕ)) (threads : ℕ) : Pipeline → Type 0 where
  begins : Reach files threads start
  goes :
      {s t : Pipeline} (e : Event)
      → Reach files threads s
      → step files threads e s ≡ some t
      → Reach files threads t
