-- ===== src/Examples/Ghosts.antt =====
-- fist/src/surface/gap/GhostReceiveMachine.cc: the theorems on a ghost's download at a server that sends
-- one byte at each attempt.
use infinit_io.Base.{
  length-drop, ℕ, false, true, ◌<◌, ◌≡◌, refl, none, some, List, [], ◌∷◌, drop, arith, length,
}
use infinit_io.Gap.Ghost.Download.{Attempt, drops, completed, fatal, is_good, existing, download}
use infinit_io.Gap.Ghost.Whole.{Honest, Ends, download-Ends}
use infinit_io.Gap.Receive.Status.{Status, Shown}
use infinit_io.Gap.Receive.Machine.{World}
use infinit_io.Gap.Ghost.Machine.{
  wait_for_cloud_upload, Config, cancels, updates, handle, happens, Steps, start, next,
}
use infinit_io.Gap.Ghost.Waiting.{Steps-waiting}
use infinit_io.Gap.Ghost.Complete.{IsServer, Serves, download-completes}

abbrev content : List ℕ
content = 7 ∷ 8 ∷ 9 ∷ []

abbrev sends : List ℕ → List (ℕ × List ℕ)
sends [] = (206, []) ∷ []
sends (b ∷ r) = (206, b ∷ []) ∷ []

abbrev server : ℕ → ℕ → Attempt
server k p = record { reads = sends (drop p content); end = drops }

sends-Honest : (left : List ℕ) → Honest left (sends left)
sends-Honest [] = λ _. refl
sends-Honest (b ∷ r) = λ _. (r, refl, tt)

-- The server of the other theorem ends its answer with the last byte.
abbrev serves : List ℕ → List (ℕ × List ℕ)
serves [] = (416, 1 ∷ []) ∷ []
serves (b ∷ []) = (206, b ∷ []) ∷ (206, []) ∷ []
serves (b ∷ c ∷ r) = (206, b ∷ []) ∷ []

abbrev ending_server : ℕ → ℕ → Attempt
ending_server k p = record { reads = serves (drop p content); end = drops }

serves-Serves : (left : List ℕ) → 0 < length left → Serves left (serves left)
unfolding is_good
serves-Serves [] h = absurd (omega (arith, h))
serves-Serves (b ∷ []) h = (refl, [], refl, (refl, refl))
serves-Serves (b ∷ c ∷ r) h = (refl, c ∷ r, refl, omega arith)

length-serves : (left : List ℕ) → 0 < length (serves left)
length-serves [] = omega arith
length-serves (b ∷ []) = omega arith
length-serves (b ∷ c ∷ r) = omega arith

ending_server-IsServer : IsServer content ending_server
ending_server-IsServer = record {
  serves = λ k p h. serves-Serves (drop p content) (omega (arith, h, length-drop p content));
  moves = λ k p h. length-serves (drop p content);
  dropped = λ k p h. refl;
}

download-Ends_example : Ends content (download server 2 0 (some (7 ∷ [])))
unfolding existing
download-Ends_example =
    download-Ends content server 2 0 (some (7 ∷ [])) (λ k p. sends-Honest (drop p content))
      (8 ∷ 9 ∷ [], refl)

download-completes_example : (download ending_server 3 0 none).1 ≡ completed
unfolding existing
download-completes_example =
    download-completes content ending_server 3 0 none ending_server-IsServer (content, refl)
      (omega arith) (omega arith)

three_bytes : download ending_server 3 0 none ≡ (some content, completed)
unfolding download
three_bytes = refl

-- A download that was cut off behind the last byte cannot be completed.
refused_range : (download ending_server 1 0 (some content)).1 ≡ fatal
unfolding download
refused_range = refl

abbrev world : World
world = record {
  finished = false;
  rejected = false;
  canceled = false;
  failed = false;
  accepted = false;
  elsewhere = false;
  reset = false;
  has_id = true;
  this_device = false;
  status = Status.initialized;
  shown = Shown.waiting_data;
  over = false;
  failure_reason = none;
  output_dir = "";
}

abbrev waiting : Config
waiting = record {
  state = wait_for_cloud_upload;
  ghost = record { world = world; cloud_uploaded = false };
}

-- The user cancels, and meta says that the transaction is canceled.
abbrev canceled : Config
canceled = record waiting {
  ghost = handle (updates Status.canceled true) (handle cancels (waiting.ghost));
}

to_canceled : Steps waiting canceled
to_canceled = next (next start (happens cancels refl)) (happens (updates Status.canceled true) refl)

Steps-waiting_example : canceled.state ≡ wait_for_cloud_upload
unfolding handle
Steps-waiting_example = Steps-waiting waiting canceled refl to_canceled refl
