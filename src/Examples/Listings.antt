-- ===== src/Examples/Listings.antt =====
-- fist/src/surface/gap/S3TransferBufferer.cc: the theorem on `list` at a folder of one block.
use infinit_io.Base.{
  ◌≡◌, refl, sym, ap, Option, List, [], ◌∷◌, ◌++◌, length, length-append, take, arith,
}
use infinit_io.Gap.Buffer.Listing.{Name, Item, convert_list, page_size, list}
use infinit_io.Gap.Buffer.Listed.{IsFolder, list-lists}

abbrev block : Item
block = record { name = record { file = 0; offset = 262144 }; size = 1000 }

abbrev folder : List Item
folder = block ∷ []

abbrev list_remote_folder : Option Name → List Item
list_remote_folder marker = folder

from_marker :
    (before : List Item) (i : Item) (after : List Item)
    → before ++ i ∷ after ≡ folder
    → folder ≡ take page_size (i ∷ after)
unfolding page_size
from_marker [] i after e = sym (ap (take 1000) e)
from_marker (x ∷ r) i after e = absurd (omega (arith, ap length e, length-append r (i ∷ after)))

folder-IsFolder : IsFolder folder list_remote_folder
unfolding page_size
folder-IsFolder = record { first = refl; again = from_marker }

list-lists_example : list list_remote_folder 2 ≡ convert_list (take 1999 folder)
list-lists_example =
    list-lists folder list_remote_folder 2 folder-IsFolder (omega arith) (omega arith)

one_block : list list_remote_folder 2 ≡ (0, (262144, 1000)) ∷ []
unfolding list
one_block = refl
