-- ===== src/Gap/Send/Multipart.antt =====
-- SendMachine.cc, `_plain_upload` from the choice of the chunk size on: the upload of one file to S3
-- in chunks by several threads, which resumes an earlier upload. The etag of a part stands for the
-- bytes that S3 keeps under it. The listing of the parts of the earlier upload, and which thread
-- goes on when, are given; the progress shown is left out, and so is an exception, which ends
-- all threads.
use infinit_io.Base.{
  ℕ, zero, suc, ◌+◌, ◌-◌, ◌*◌, ◌/◌, ◌%◌, Bool, true, false, Option, none, some, List, [], ◌∷◌, ◌++◌,
  length, take, drop, ltb, leb, ◌==◌, if◌then◌else◌,
}
use infinit_io.Gap.Send.Cloud.{put}

larger : ℕ → ℕ → ℕ
larger a b = if ltb a b then b else a

-- The least size of a part on S3 is 5 MiB; the size grows with that of the file.
unfoldable pub default_chunk_size : ℕ → ℕ
unfolding larger
default_chunk_size configured = larger configured 5242880

unfoldable pub chunk_size_of : ℕ → ℕ → ℕ
unfolding larger default_chunk_size
chunk_size_of configured file_size = larger (default_chunk_size configured) (file_size / 9500)

unfoldable pub chunk_count_of : ℕ → ℕ → ℕ
chunk_count_of file_size chunk_size =
    file_size / chunk_size + (if file_size % chunk_size == 0 then 0 else 1)

-- `MultiPartChunk`: a part's number and its etag.
abbrev pub Chunk : Type 0
Chunk = ℕ × List ℕ

-- `std::sort` by the numbers.
unfoldable pub enter : Chunk → List Chunk → List Chunk
enter c [] = c ∷ []
enter c (d ∷ r) = if ltb d.0 c.0 then d ∷ enter c r else c ∷ d ∷ r

unfoldable pub sort : List Chunk → List Chunk
unfolding enter
sort [] = []
sort (c ∷ r) = enter c (sort r)

-- How many parts there are without a gap, from a number on.
unfoldable pub contiguous : ℕ → List Chunk → ℕ
contiguous i [] = i
contiguous i (c ∷ r) = if c.0 == i then contiguous (i + 1) r else i

-- The number of the last part, 0 where there is none.
unfoldable pub back : List Chunk → ℕ
back [] = 0
back (c ∷ []) = c.0
back (c ∷ d ∷ r) = back (d ∷ r)

-- The search among the parts at hand, up to a part with a number above the limit.
unfoldable pub scan : ℕ → ℕ → List Chunk → Bool
scan max_check_id id [] = false
scan max_check_id id (c ∷ r) =
    if leb c.0 max_check_id then (if c.0 == id then true else scan max_check_id id r) else false

unfoldable pub has_it : ℕ → ℕ → ℕ → List Chunk → Bool
unfolding scan
has_it max_check_id start_check_index id chunks =
    if leb id max_check_id then scan max_check_id id (drop start_check_index chunks) else false

-- The loop that looks for a number to upload, with the rounds left until `chunk_count`; the next
-- number, and the one found.
unfoldable pub fetch : ℕ → ℕ → List Chunk → ℕ → ℕ → ℕ × Option ℕ
unfolding has_it
fetch max_check_id start_check_index chunks zero next = (next, none)
fetch max_check_id start_check_index chunks (suc rounds) next =
    if has_it max_check_id start_check_index next chunks
    then fetch max_check_id start_check_index chunks rounds (next + 1)
    else (next + 1, some next)

pub data Work : Type 0 where
  idle : Work
  uploading : ℕ → Work
  returned : Work

pub record Upload : Type 0 where
  pub next_chunk : ℕ
  pub max_check_id : ℕ
  pub start_check_index : ℕ
  pub chunks : List Chunk
  pub doing : ℕ → Work

-- What is known once the parts of an earlier upload have been listed.
unfoldable pub resume : List Chunk → Upload
unfolding sort contiguous back
resume listed =
    let chunks = sort listed in
    record {
      next_chunk = contiguous 0 chunks;
      max_check_id = back chunks;
      start_check_index = contiguous 0 chunks;
      chunks = chunks;
      doing = λ i. idle;
    }

-- `file.read`.
unfoldable pub slice : List ℕ → ℕ → ℕ → List ℕ
slice file chunk_size id = take chunk_size (drop (id * chunk_size) file)

unfoldable pub fetched : ℕ → ℕ × Option ℕ → Upload → Upload
unfolding put
fetched i (next, none) u = record u { next_chunk = next; doing = put i returned u.doing }
fetched i (next, some id) u = record u { next_chunk = next; doing = put i (uploading id) u.doing }

unfoldable pub uploaded : List ℕ → ℕ → ℕ → ℕ → Upload → Upload
unfolding put slice
uploaded file chunk_size i id u = record u {
  chunks = u.chunks ++ (id, slice file chunk_size id) ∷ [];
  doing = put i idle u.doing;
}

-- A thread goes on: it takes a number, or its part has been uploaded.
unfoldable pub turn : List ℕ → ℕ → ℕ → Work → Upload → Upload
unfolding fetch fetched uploaded
turn file chunk_size i idle u =
    let count = chunk_count_of (length file) chunk_size in
    fetched i
      (fetch u.max_check_id u.start_check_index u.chunks (count - u.next_chunk) u.next_chunk) u
turn file chunk_size i (uploading id) u = uploaded file chunk_size i id u
turn file chunk_size i returned u = u

-- The turns of the threads, by their numbers.
unfoldable pub run : List ℕ → ℕ → List ℕ → Upload → Upload
unfolding turn
run file chunk_size [] u = u
run file chunk_size (i ∷ r) u = run file chunk_size r (turn file chunk_size i (u.doing i) u)

-- `multipart_finalize` puts the parts it is given together.
unfoldable pub join : List Chunk → List ℕ
join [] = []
join (c ∷ r) = c.1 ++ join r

unfoldable pub finalize : Upload → List ℕ
unfolding join sort
finalize u = join (sort u.chunks)
