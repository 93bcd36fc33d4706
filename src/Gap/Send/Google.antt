-- ===== src/Gap/Send/Google.antt =====
-- SendMachine.cc, `_gcs_plain_upload`: the upload of one file to Google, in requests whose answers are given
-- in their order. Before it sends blocks the code asks for the position that the server has reached. The
-- waits between two attempts and the progress shown are left out.
use infinit_io.Base.{
  ℕ, ◌+◌, ◌/◌, ◌<◌, ◌≤◌, ◌≡◌, refl, Bool, ◌||◌, Option, none, some, List, [], ◌∷◌, ◌++◌, add64, ltb,
  leb, ◌==◌, if◌then◌else◌, if_cases, arith, sym, subst,
}

-- A request fails in the network, or is answered with a status and the last byte that the server has.
pub data Answer : Type 0 where
  fails : Answer
  responds : ℕ → Option ℕ → Answer

abbrev pub chunk_factor : ℕ
chunk_factor = 13107200

unfoldable pub is_success : ℕ → Bool
is_success status = status == 308 || status / 100 == 2

unfoldable pub is_transient : ℕ → Bool
is_transient status =
    status == 408 || (status == 500 || (status == 502 || (status == 503 || status == 504)))

-- How the upload stands: the server says that the file is there, the last block was accepted, a block
-- was refused, or an answer is awaited.
pub data End : Type 0 where
  finished pushed refused waiting : End

-- The position that the server told last, the blocks that it has accepted since, with their first byte
-- and the one behind their last, and how often the upload was begun anew for a fatal error.
pub record Upload : Type 0 where
  pub end : End
  pub told : ℕ
  pub accepted : List (ℕ × ℕ)
  pub restarts : ℕ

-- What is asked: the position, or to accept the block from a position on.
pub data Request : Type 0 where
  asks : Request
  pushes : ℕ → Request

unfoldable pub reached : Option ℕ → ℕ
reached none = 0
reached (some b) = b + 1

unfoldable pub block_end : ℕ → ℕ → ℕ
block_end size position =
    if leb size (add64 position chunk_factor) then size else add64 position chunk_factor

-- A fatal error asks for new credentials.
unfoldable pub restarted : ℕ → Upload → Upload
unfolding is_transient
restarted status u = if is_transient status then u else record u { restarts = u.restarts + 1 }

unfoldable pub upload : ℕ → Request → List Answer → Upload → Upload
unfolding is_success restarted reached block_end
upload size asks [] u = record u { end = waiting }
upload size asks (fails ∷ r) u = upload size asks r u
upload size asks (responds status range ∷ r) u =
    let position = reached range in
    let on = upload size (pushes position) r (record u { told = position; accepted = [] }) in
    let again = upload size asks r (restarted status u) in
    if status == 200 then record u { end = finished } else if is_success status then on else again
upload size (pushes p) [] u = record u { end = if ltb p size then waiting else pushed }
upload size (pushes p) (fails ∷ r) u =
    let again = upload size asks r u in if ltb p size then again else record u { end = pushed }
upload size (pushes p) (responds status range ∷ r) u =
    let q = block_end size p in
    let on = upload size (pushes q) r (record u { accepted = u.accepted ++ (p, q) ∷ [] }) in
    if ltb p size
    then (if is_success status then on else record (restarted status u) { end = refused })
    else record u { end = pushed }

-- Blocks that follow one another from a position to another, none of them empty or too long.
abbrev pub IsChain : ℕ → List (ℕ × ℕ) → ℕ → Type 0
IsChain p [] q = p ≡ q
IsChain p (b ∷ r) q = (b.0 ≡ p) × (b.0 < b.1) × (b.1 ≤ b.0 + chunk_factor) × IsChain b.1 r q

append-IsChain :
    (p q s : ℕ) (bs : List (ℕ × ℕ))
    → IsChain p bs q
    → q < s
    → s ≤ q + chunk_factor
    → IsChain p (bs ++ (q, s) ∷ []) s
append-IsChain p q s [] e a b = (sym e, a, b, refl)
append-IsChain p q s (c ∷ r) (x, y, z, e) a b = (x, y, z, append-IsChain c.1 q s r e a b)

-- What the end of an upload says of the blocks accepted since the server told its position.
abbrev pub Says : ℕ → End → ℕ → List (ℕ × ℕ) → Type 0
Says size finished told bs = Unit {0}
Says size waiting told bs = Unit {0}
Says size pushed told bs = (q : ℕ) × IsChain told bs q × (size ≤ q)
Says size refused told bs = (q : ℕ) × IsChain told bs q × (q < size)

abbrev pub Speaks : ℕ → Upload → Type 0
Speaks size u = Says size u.end u.told u.accepted

module _ (size : ℕ) (small : size < 18446744073696444416) where
  block_end_bounds :
      (p : ℕ) → p < size → (p < block_end size p) × (block_end size p ≤ p + chunk_factor)
  unfolding block_end
  block_end_bounds p h = ground arith

  restarted_same :
      (status : ℕ) (u : Upload)
      → ((restarted status u).told ≡ u.told) × ((restarted status u).accepted ≡ u.accepted)
  unfolding restarted
  restarted_same status u = ground arith

  mutual
    unfolding upload

    upload-asks : (answers : List Answer) (u : Upload) → Speaks size (upload size asks answers u)
    upload-asks [] u = tt
    upload-asks (fails ∷ r) u = upload-asks r u
    upload-asks (responds status range ∷ r) u =
        if_cases (Speaks size) (status == 200) _ _ (λ _. tt)
          (λ _.
            if_cases (Speaks size) (is_success status) _ _
              (λ _.
                upload-pushes (reached range) r (record u { told = reached range; accepted = [] })
                  refl)
              (λ _. upload-asks r (restarted status u)))

    upload-pushes :
        (p : ℕ) (answers : List Answer) (u : Upload)
        → IsChain u.told u.accepted p
        → Speaks size (upload size (pushes p) answers u)
    upload-pushes p [] u c =
        if_cases (λ e. Says size e u.told u.accepted) (ltb p size) waiting pushed (λ _. tt)
          (λ e. (p, c, ground arith))
    upload-pushes p (fails ∷ r) u c =
        if_cases (Speaks size) (ltb p size) _ _ (λ _. upload-asks r u) (λ e. (p, c, ground arith))
    upload-pushes p (responds status range ∷ r) u c =
        if_cases (Speaks size) (ltb p size) _ _
          (λ e.
            if_cases (Speaks size) (is_success status) _ _
              (λ _.
                let (more, fits) = block_end_bounds p (ground arith) in
                upload-pushes (block_end size p) r
                  (record u { accepted = u.accepted ++ (p, block_end size p) ∷ [] })
                  (append-IsChain u.told p (block_end size p) u.accepted c more fits))
              (λ _.
                let (told, kept) = restarted_same status u in
                (
                  p,
                  subst (λ t. IsChain t (restarted status u).accepted p) (sym told)
                      (subst (λ l. IsChain u.told l p) (sym kept) c),
                  ground arith,
                )))
          (λ e. (p, c, ground arith))
