-- ===== src/Gap/Buffer/Listing.antt =====
-- S3TransferBufferer.cc, `list`: the blocks of a transaction in the cloud, asked for page by page. The name
-- of a block is modelled by the file and the offset that it is made of. The listing of a folder from a
-- name on belongs to the aws library and is a parameter.
use infinit_io.Base.{
  ℕ, zero, suc, Bool, true, false, Option, none, some, List, [], ◌∷◌, ◌++◌, map, length, leb,
  if◌then◌else◌,
}

pub record Name : Type 0 where
  pub file : ℕ
  pub offset : ℕ

-- A name with the size of the block.
pub record Item : Type 0 where
  pub name : Name
  pub size : ℕ

abbrev pub Block : Type 0
Block = ℕ × (ℕ × ℕ)

unfoldable pub convert : Item → Block
convert i = (i.name.file, (i.name.offset, i.size))

unfoldable pub convert_list : List Item → List Block
unfolding convert
convert_list l = map convert l

-- The name of the last item; the code takes it of a list that is not empty.
unfoldable pub back : List Item → Option Name
back [] = none
back (i ∷ []) = some i.name
back (i ∷ j ∷ r) = back (j ∷ r)

-- From the second page on, the first item was the last of the page before.
unfoldable pub without_marker : Bool → List Item → List Item
without_marker true l = l
without_marker false [] = []
without_marker false (i ∷ r) = r

unfoldable pub page_size : ℕ
page_size = 1000

-- The loop, on a number of rounds.
unfoldable pub list_from : (Option Name → List Item) → ℕ → Option Name → Bool → List Block
unfolding convert_list back without_marker page_size
list_from list_remote_folder zero marker first = []
list_from list_remote_folder (suc rounds) marker first =
    let page = list_remote_folder marker in
    let kept = without_marker first page in
    let rest = list_from list_remote_folder rounds (back page) false in
    if leb page_size (length kept) then convert_list kept ++ rest else convert_list kept

unfoldable pub list : (Option Name → List Item) → ℕ → List Block
unfolding list_from
list list_remote_folder rounds = list_from list_remote_folder rounds none true
