-- ===== src/Examples/Fetching.antt =====
-- PeerReceiveMachine.cc, `_fetch_next_file`: the theorem at a transfer of two files.
use infinit_io.Base.{
  ℕ, zero, suc, ◌≤◌, ◌≡◌, refl, true, false, none, some, List, [], ◌∷◌, length, get_elem?, ◌==◌,
  if◌then◌else◌, lookup, arith,
}
use infinit_io.Frete.Files.{Filesystem, File}
use infinit_io.Gap.Receive.Fetcher.{Fetcher, fetch_next_file}
use infinit_io.Gap.Receive.Fetching.{Chosen}
use infinit_io.Gap.Receive.Resuming.{IsSane, fetch_next_file-Chosen}

-- Paths are numbers, and no file is there.
abbrev files : Filesystem ℕ
files = record {
  join = λ a b. b;
  generic_string = λ p. "";
  of_string = λ s. 0;
  exists = λ p. false;
  file_size = λ p. none;
  eq = λ a b. a == b;
}

-- The first file is complete, and the second has not been announced yet.
abbrev fetcher : Fetcher ℕ ℕ
fetcher = record {
  snapshot = record {
    count = 2;
    total_size = 5;
    progress = 2;
    archived = false;
    mirrored = false;
    relative_folder = "";
    files =
        (0, record { file_id = 0; root = ""; path = ""; full_path = 0; size = 2; progress = 2 })
        ∷ [];
    key_code = none;
  };
  disk = λ id. if id == 0 then some (7 ∷ 8 ∷ []) else none;
  truncates = λ id. true;
  saves = λ id. true;
  current_file_index = 0;
  current_position = 0;
  current_file_full_size = 0;
}

abbrev name : ℕ → ℕ
name id = id

fetcher-IsSane : IsSane (2 ∷ 3 ∷ []) fetcher
unfolding lookup
fetcher-IsSane = record { truncating = λ k. refl; saving = λ k. refl; agrees = agrees; long = long }
  where
    agrees :
        (k size : ℕ) (f : File ℕ)
        → 0 ≤ k
        → get_elem? (2 ∷ 3 ∷ []) k ≡ some size
        → lookup k fetcher.snapshot.files ≡ some f
        → size ≡ f.size
    agrees zero size f l e g = ground (arith, e, g)
    agrees (suc k) size f l e g = absurd (ground (arith, g))

    long :
        (k : ℕ) (f : File ℕ) (bytes : List ℕ)
        → 0 ≤ k
        → lookup k fetcher.snapshot.files ≡ some f
        → fetcher.disk k ≡ some bytes
        → f.progress ≤ length bytes
    long zero f bytes l g d = ground (arith, g, d)
    long (suc k) f bytes l g d = absurd (ground (arith, g))

fetch_next_file-Chosen_example :
    let r = fetch_next_file files 9 name (λ id. true) (2 ∷ 3 ∷ []) 2 0 fetcher in
    (r.1 ≡ none) × Chosen r
fetch_next_file-Chosen_example =
    fetch_next_file-Chosen files 9 name (λ id. true) (λ k. refl) (2 ∷ 3 ∷ []) 0 fetcher refl
      (omega arith) fetcher-IsSane (λ k l. absurd (omega (arith, l)))
