-- ===== src/Hermes/Clerk.antt =====
-- oracles/hermes/server/src/infinit/oracles/hermes/Clerk.{hh,cc}: the chunks of one transaction.
use infinit_io.Base.{
  ℕ, Bool, true, false, Option, none, some, List, [], ◌∷◌, ◌++◌, length, if◌then◌else◌,
}
use infinit_io.Hermes.Chunk.{
  Bytes, Disk, remove_file, Io, Chunk, Entry, Result, ok, err, Error, not_identified, bad_directory,
  invalid_file, not_found, from_entry, follows, overlaps, leads, belongs_to, append, save, merge,
  prepend, extract,
}

pub record Clerk : Type 0 where
  pub identified : Bool
  pub chunks : List Chunk
  pub disk : Disk

unfoldable pub new_clerk : Disk → Clerk
new_clerk d = record { identified = false; chunks = []; disk = d }

-- The constructor of each chunk may throw; those before it are kept.
unfoldable pub explore_entries : List Entry → List Chunk → List Chunk × Option Error
unfolding from_entry
explore_entries [] cs = (cs, none)
explore_entries (e ∷ es) cs = elim e.regular [
  | false ↦ (cs, some invalid_file)
  | true ↦ elim (from_entry e) [ err x ↦ (cs, some x) | ok c ↦ explore_entries es (cs ++ c ∷ []) ]
]

-- The directory of the transaction, after `check_directory`.
pub data Directory : Type 0 where
  missing : Directory
  not_a_directory : Directory
  entries : List Entry → Directory

unfoldable pub ident : Directory → Clerk → Clerk × Option Error
unfolding explore_entries
ident missing k = (record k { identified = true }, none)
ident not_a_directory k = (k, some bad_directory)
ident (entries es) k =
    let (cs, e) = explore_entries es k.chunks in
    elim e [
      | some x ↦ (record k { chunks = cs }, some x)
      | none ↦ (record k { chunks = cs; identified = true }, none)
    ]

-- `std::find_if`: the first chunk that passes, between those before it and those after it.
unfoldable pub find_if : (Chunk → Bool) → List Chunk → Option (List Chunk × Chunk × List Chunk)
find_if p [] = none
find_if p (c ∷ cs) =
    if p c
    then some ([], c, cs)
    else elim (find_if p cs) [ none ↦ none | some (before, x, after) ↦ some (c ∷ before, x, after) ]

-- What `store` does with the outcome of the operation on a chunk.
unfoldable pub put_back :
    List Chunk → List Chunk → Bytes → Disk × Result Chunk → Clerk → Clerk × Result ℕ
put_back before after buff (d, err e) k = (record k { disk = d }, err e)
put_back before after buff (d, ok c) k =
    (record k { chunks = before ++ c ∷ after; disk = d }, ok (length buff))

-- After `prepend`: the old file goes, the old chunk is erased and the new one comes last.
unfoldable pub replace_chunk :
    List Chunk → Chunk → List Chunk → Bytes → Disk × Result Chunk → Clerk → Clerk × Result ℕ
replace_chunk before c after buff (d, err e) k = (record k { disk = d }, err e)
replace_chunk before c after buff (d, ok x) k = (
  record k { chunks = (before ++ after) ++ x ∷ []; disk = remove_file d c.id c.off },
  ok (length buff),
)

module _ (io : Io) where
  unfoldable pub store : ℕ → ℕ → Bytes → Clerk → Clerk × Result ℕ
  unfolding put_back replace_chunk
  store id off buff k =
      let chunk : Chunk = record { id = id; off = off; size = length buff } in
      if k.identified
      then elim (find_if (follows chunk) k.chunks) [
        | some (before, c, after) ↦ put_back before after buff (append io c buff k.disk) k
        | none ↦ elim (find_if (overlaps chunk) k.chunks) [
          | some (before, c, after) ↦ put_back before after buff (merge io c chunk buff k.disk) k
          | none ↦ elim (find_if (leads chunk) k.chunks) [
            | some (before, c, after) ↦
                replace_chunk before c after buff (prepend io c chunk buff k.disk) k
            | none ↦ put_back k.chunks [] buff (save io chunk buff k.disk) k
          ]
        ]
      ]
      else (k, err not_identified)

  unfoldable pub fetch : ℕ → ℕ → ℕ → Clerk → Result Bytes
  fetch id off size k =
      let chunk : Chunk = record { id = id; off = off; size = size } in
      if k.identified
      then elim (find_if (belongs_to chunk) k.chunks) [
        | some (before, c, after) ↦ ok (extract io c chunk k.disk)
        | none ↦ err not_found
      ]
      else err not_identified
