-- ===== src/Hermes/Chunk.antt =====
-- oracles/hermes/server/src/infinit/oracles/hermes/Chunk.{hh,cc}: a contiguous piece of a file, kept
-- in a file of its own that is named after the piece's id and offset. The base directory is
-- left out of the names.
use infinit_io.Base.{
  ℕ, ◌-◌, Bool, false, ◌&&◌, not, Option, none, some, List, [], ◌++◌, length, take, drop, ltb, leb,
  ◌==◌, if◌then◌else◌, add64, sub64,
}

abbrev pub Bytes : Type 0
Bytes = List ℕ

-- The directory: the contents of the file of each id and offset.
abbrev pub Disk : Type 0
Disk = ℕ → ℕ → Option Bytes

abbrev pub write : Disk → ℕ → ℕ → Bytes → Disk
write d id off v i o = if (i == id) && (o == off) then some v else d i o

abbrev pub remove_file : Disk → ℕ → ℕ → Disk
remove_file d id off i o = if (i == id) && (o == off) then none else d i o

abbrev pub contents : Option Bytes → Bytes
contents none = []
contents (some v) = v

-- What the standard library decides: whether a file can be opened for writing, what `write` puts
-- in a file when it is given a negative count, and the bytes of a buffer not yet filled.
pub record Io : Type 0 where
  pub opens : ℕ → ℕ → Bool
  pub negative_write : Bytes → Bytes
  pub garbage : ℕ → Bytes

pub record Chunk : Type 0 where
  pub id : ℕ  -- uint32_t
  pub off : ℕ  -- uint64_t
  pub size : ℕ  -- uint64_t

pub data Error : Type 0 where
  not_identified bad_directory invalid_file io_error out_of_order not_found : Error

pub data Result (A : Type 0) : Type 0 where
  ok : A → Result A
  err : Error → Result A

-- An entry of the directory: a regular file with its name and contents. The name is that which
-- `lexical_cast` reads from the two parts, if it reads them, converted to the types of the fields.
pub record Entry : Type 0 where
  pub regular : Bool
  pub name : Option (ℕ × ℕ)
  pub bytes : Bytes

-- The constructor from a path.
unfoldable pub from_entry : Entry → Result Chunk
from_entry e = elim e.name [
  | none ↦ err invalid_file
  | some (id, off) ↦ ok (record { id = id; off = off; size = length e.bytes })
]

unfoldable pub follows : Chunk → Chunk → Bool
follows c other = if not (c.id == other.id) then false else c.off == add64 other.off other.size

unfoldable pub overlaps : Chunk → Chunk → Bool
overlaps c other =
    if not (c.id == other.id)
    then false
    else leb other.off c.off && ltb c.off (add64 other.off other.size)

unfoldable pub leads : Chunk → Chunk → Bool
leads c other = if not (c.id == other.id) then false else other.off == add64 c.off c.size

unfoldable pub belongs_to : Chunk → Chunk → Bool
belongs_to c other =
    if not (c.id == other.id)
    then false
    else leb other.off c.off && leb c.off (add64 other.off other.size)

module _ (io : Io) where
  unfoldable pub append : Chunk → Bytes → Disk → Disk × Result Chunk
  append c buff d =
      if io.opens c.id c.off
      then (
        write d c.id c.off (contents (d c.id c.off) ++ buff),
        ok (record c { size = add64 c.size (length buff) }),
      )
      else (d, err io_error)

  unfoldable pub save : Chunk → Bytes → Disk → Disk × Result Chunk
  save c buff d =
      if io.opens c.id c.off
      then (write d c.id c.off buff, ok (record c { size = length buff }))
      else (d, err io_error)

  -- `out.write(p, n)` of the bytes from `offset` on, `n` taken as a signed number.
  unfoldable pub write_from : Bytes → ℕ → ℕ → Bytes
  write_from buff offset n =
      if ltb n 9223372036854775808
      then take n (drop offset buff)
      else io.negative_write (drop offset buff)

  unfoldable pub merge : Chunk → Chunk → Bytes → Disk → Disk × Result Chunk
  unfolding write_from
  merge c other buff d =
      if ltb c.off other.off
      then (if io.opens c.id c.off
          then (let offset : ℕ = sub64 (add64 c.off c.size) other.off in
              let size : ℕ = sub64 (add64 other.off other.size) (add64 c.off c.size) in
              (
                write d c.id c.off (contents (d c.id c.off) ++ write_from buff offset size),
                ok (record c { size = add64 c.size size }),
              ))
          else (d, err io_error))
      else (d, err out_of_order)

  -- The copy loop reads the old file to its end; `file_size` throws where there is none. `other`
  -- is the new chunk.
  unfoldable pub prepend : Chunk → Chunk → Bytes → Disk → Disk × Result Chunk
  prepend c other buff d =
      if io.opens other.id other.off
      then elim (d c.id c.off) [
        | none ↦ (write d other.id other.off buff, err io_error)
        | some v ↦ (
          write d other.id other.off (buff ++ v),
          ok (record other { size = add64 (length buff) (length v) }),
        )
      ]
      else (d, err io_error)

  -- What is not read of the result's buffer stays as it was allocated.
  unfoldable pub extract : Chunk → Chunk → Disk → Bytes
  extract c piece d =
      let room : ℕ = sub64 (add64 c.off c.size) piece.off in
      let read : Bytes = take piece.size (drop (sub64 piece.off c.off) (contents (d c.id c.off))) in
      read ++ io.garbage (room - length read)
