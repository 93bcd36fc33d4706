-- ===== src/Frete/Server.antt =====
-- frete/src/frete/Frete.{hh,cc}: what the sender serves to its peer. Files are opened and read
-- through `Disk`, and `Crypto` stands for infinit::cryptography; logging is left out, and so is
-- the construction from a stored snapshot.
use infinit_io.Base.{
  ℕ, ◌+◌, ◌-◌, Bool, true, false, Option, none, some, List, [], ◌∷◌, length, lookup, u32, add64,
  sub64, ltb, leb, ◌==◌, not, if◌then◌else◌,
}
use infinit_io.Frete.Files.{Filesystem}
use infinit_io.Frete.Snapshot.{
  Snapshot, Error, out_of_range, file_progress_set, file_progress_end, progress_increment, add,
}

-- elle::system::FileHandle; `none` where it throws.
pub record Disk (P : Type 0) : Type 0 where
  pub opens : P → Bool
  pub read : P → ℕ → ℕ → Option (List ℕ)

-- Keys, and the codes of the buffers and keys that are encrypted by them.
pub record Crypto (K : Type 0) : Type 1 where
  pub Key : Type 0
  pub Public : Type 0
  pub encrypt_buffer : Key → List ℕ → K
  pub encrypt_key : Public → Key → K

-- An entry of the cache: an open handle, and for how many fetches it was not used.
pub record Handle (P : Type 0) : Type 0 where
  pub path : P
  pub misses : ℕ

pub data Fault : Type 0 where
  snapshot_fault : Error → Fault
  open_failed : Fault
  read_failed : Fault
  too_large : Fault
  no_peer_key : Fault
  peer_key_already_set : Fault
  no_such_path : Fault

pub data Result (A : Type 0) : Type 0 where
  ok : A → Result A
  err : Fault → Result A

abbrev pub max_count_for_full_cache : ℕ
max_count_for_full_cache = 20

module _ {P : Type 0} where
  -- The loops of `_fetch_cache`: the entry fetched is used, the others age, and those not used
  -- for more than ten fetches go.
  unfoldable pub age : ℕ → List (ℕ × Handle P) → List (ℕ × Handle P)
  age id [] = []
  age id ((j, h) ∷ m) =
      let rest = age id m in
      if j == id
      then (j, record h { misses = 0 }) ∷ rest
      else if ltb 10 (h.misses + 1)
      then rest
      else (j, record h { misses = h.misses + 1 }) ∷ rest

-- The server holds two keys: one made from the password and one of the session.
pub record Frete (P : Type 0) (K : Type 0) (c : Crypto K) : Type 0 where
  pub snapshot : Snapshot P K
  pub mirror_root : P
  pub cache : List (ℕ × Handle P)
  pub finished : Bool
  pub old_key : c.Key
  pub key : c.Key
  pub peer_key : Option c.Public

module _ {P : Type 0} {K : Type 0} {c : Crypto K} (fs : Filesystem P) (disk : Disk P) where
  unfoldable pub local_path : ℕ → Frete P K c → Option P
  local_path id s = elim (lookup id s.snapshot.files) [
    | none ↦ none
    | some f ↦
        some
          (if s.snapshot.mirrored then fs.join s.mirror_root (fs.of_string f.path) else f.full_path)
  ]

  cached : ℕ → List (ℕ × Handle P) → Frete P K c → Frete P K c
  cached id m s = record s {
    cache = if ltb max_count_for_full_cache s.snapshot.count then age id m else m;
  }

  -- The handle is that of the entry found or made; `age` keeps it.
  unfoldable pub fetch_cache : ℕ → Frete P K c → Frete P K c × Result P
  unfolding cached
  fetch_cache id s = elim (lookup id s.cache) [
    | some h ↦ (cached id s.cache s, ok h.path)
    | none ↦ elim (local_path id s) [
      | none ↦ (s, err (snapshot_fault (out_of_range id)))
      | some p ↦
          if disk.opens p
          then (cached id ((id, record { path = p; misses = 0 }) ∷ s.cache) s, ok p)
          else (s, err open_failed)
    ]
  ]

  -- The progress that a read reports.
  unfoldable pub acknowledge : ℕ → ℕ → Bool → Frete P K c → Snapshot P K × Option Error
  acknowledge id offset update_progress s =
      if update_progress
      then if not (offset == 0)
        then file_progress_set id offset s.snapshot
        else if not (id == 0)
        then file_progress_end (id - 1) s.snapshot
        else (s.snapshot, none)
      else (s.snapshot, none)

  -- The check of the size after the read.
  unfoldable pub checked : ℕ → ℕ → List ℕ → Frete P K c → Frete P K c × Result (List ℕ)
  checked id offset result s = elim (lookup id s.snapshot.files) [
    | none ↦ (s, err (snapshot_fault (out_of_range id)))
    | some f ↦
        if ltb f.size (add64 offset (length result)) then (s, err too_large) else (s, ok result)
  ]

  -- The read from the handle that was fetched.
  unfoldable pub read_handle : ℕ → ℕ → ℕ → Frete P K c × Result P → Frete P K c × Result (List ℕ)
  unfolding checked
  read_handle id offset size (s, err e) = (s, err e)
  read_handle id offset size (s, ok p) = elim (disk.read p offset size) [
    | none ↦ (s, err read_failed)
    | some result ↦ checked id offset result s
  ]

  read_acknowledged :
      ℕ → ℕ → ℕ → Frete P K c → Snapshot P K × Option Error → Frete P K c × Result (List ℕ)
  unfolding read_handle fetch_cache
  read_acknowledged id offset size s (t, some e) =
      (record s { snapshot = t }, err (snapshot_fault e))
  read_acknowledged id offset size s (t, none) =
      read_handle id offset size (fetch_cache id (record s { snapshot = t }))

  unfoldable pub cleartext_read : ℕ → ℕ → ℕ → Bool → Frete P K c → Frete P K c × Result (List ℕ)
  unfolding read_acknowledged acknowledge
  cleartext_read id offset size update_progress s =
      read_acknowledged id offset size s (acknowledge id offset update_progress s)

  abbrev encrypted : c.Key → Frete P K c × Result (List ℕ) → Frete P K c × Result K
  encrypted key (s, err e) = (s, err e)
  encrypted key (s, ok data') = (s, ok (c.encrypt_buffer key data'))

  unfoldable pub read : ℕ → ℕ → ℕ → Frete P K c → Frete P K c × Result K
  unfolding cleartext_read
  read id start size s = encrypted s.old_key (cleartext_read id start size true s)

  unfoldable pub encrypted_read : ℕ → ℕ → ℕ → Frete P K c → Frete P K c × Result K
  unfolding cleartext_read
  encrypted_read id start size s = encrypted s.key (cleartext_read id start size true s)

  abbrev acknowledged : ℕ → Frete P K c × Result K → Frete P K c × Result K
  acknowledged ack (s, err e) = (s, err e)
  acknowledged ack (s, ok code) =
      if ltb s.snapshot.progress ack
      then (let (t, e) = progress_increment (ack - s.snapshot.progress) s.snapshot in
          (record s { snapshot = t }, elim e [ none ↦ ok code | some x ↦ err (snapshot_fault x) ]))
      else (s, ok code)

  unfoldable pub encrypted_read_acknowledge : ℕ → ℕ → ℕ → ℕ → Frete P K c → Frete P K c × Result K
  unfolding cleartext_read
  encrypted_read_acknowledge id start size ack s =
      acknowledged ack (encrypted s.key (cleartext_read id start size false s))

  -- The private `_add` of one file.
  unfoldable pub add_one : P → P → Frete P K c → Frete P K c × Option Fault
  unfolding add fetch_cache
  add_one root path s =
      if fs.exists (fs.join root path)
      then (let (t, e) = add fs root path s.snapshot in
          let s' : Frete P K c = record s { snapshot = t } in
          elim e [
            | some x ↦ (s', some (snapshot_fault x))
            | none ↦
                if leb t.count max_count_for_full_cache
                then (let (u, r) = fetch_cache (u32 (sub64 t.count 1)) s' in
                    (u, elim r [ ok p ↦ none | err f ↦ some f ]))
                else (s', none)
          ])
      else (s, some no_such_path)

module _ {P : Type 0} {K : Type 0} {c : Crypto K} where
  -- The last file is complete, and the barrier opens.
  unfoldable pub finish : Frete P K c → Frete P K c × Option Error
  finish s =
      let (t, e) = file_progress_end (u32 (sub64 s.snapshot.count 1)) s.snapshot in
      elim e [
        | some x ↦ (record s { snapshot = t }, some x)
        | none ↦ (record s { snapshot = t; finished = true; cache = [] }, none)
      ]

  unfoldable pub set_peer_key : c.Public → Frete P K c → Result (Frete P K c)
  set_peer_key k s = elim s.peer_key [
    | some old ↦ err peer_key_already_set
    | none ↦ ok (record s { peer_key = some k })
  ]

  unfoldable pub key_code : Frete P K c → Result K
  key_code s = elim s.peer_key [ none ↦ err no_peer_key | some k ↦ ok (c.encrypt_key k s.key) ]
