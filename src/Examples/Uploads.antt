-- ===== src/Examples/Uploads.antt =====
-- oracles/hermes: the theorems at a transaction of a few bytes.
use infinit_io.Base.{ℕ, ◌≡◌, refl, true, none, [], ◌∷◌, arith}
use infinit_io.Hermes.Chunk.{Bytes, Disk, Io, ok}
use infinit_io.Hermes.Clerk.{fetch}
use infinit_io.Hermes.Upload.{empty, upload, fetch-upload}

abbrev io : Io
io = record { opens = λ id off. true; negative_write = λ b. b; garbage = zeros }
  where
    zeros : ℕ → Bytes
    zeros n = []

abbrev disk : Disk
disk id off = none

fetch-upload_example :
    fetch io 3 12 3 (upload io 3 10 ((1 ∷ 2 ∷ []) ∷ (3 ∷ 4 ∷ 5 ∷ []) ∷ []) (empty disk))
    ≡ ok (3 ∷ 4 ∷ 5 ∷ [])
fetch-upload_example =
    fetch-upload io 3 10 2 3 (1 ∷ 2 ∷ []) ((3 ∷ 4 ∷ 5 ∷ []) ∷ []) disk refl (omega arith)
      (omega arith)
