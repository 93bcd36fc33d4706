-- ===== src/Examples/Relaying.antt =====
-- oracles/apertus: the theorems at two clients of one transaction.
use infinit_io.Base.{
  ◌≡◌, ◌≤◌, refl, true, false, some, List, [], ◌∷◌, ◌++◌, find, erase, assign, arith,
}
use infinit_io.Apertus.Greeting.{Tid, c_string, greeting, read_greeting, read_greeting-greeting}
use infinit_io.Apertus.State.{Apertus, same_tid, new_apertus, Event, step, Reach, run, run-Reach}
use infinit_io.Apertus.Ownership.{owners, issued, owners-issued}
use infinit_io.Apertus.Pairing.{request, answer, view, view-step}
use infinit_io.Apertus.Relay.{Turn, relay, new_relay, Relayed, relay_new}

abbrev uid : Tid
uid = 97 ∷ 98 ∷ []

read_greeting-greeting_example : read_greeting (greeting uid ++ 7 ∷ []) ≡ some (true, uid, 7 ∷ [])
read_greeting-greeting_example =
    read_greeting-greeting uid (7 ∷ []) (refl, (refl, tt)) (omega arith)

-- Two clients have connected, and their greetings are being read.
abbrev both_handled : Apertus
both_handled = record {
  meta_enabled = true;
  unregistered = false;
  unregister_calls = 0;
  accepted = 2;
  accepters = [];
  handled =
      (1, record { client = 1; sync_bit = false })
      ∷ (0, record { client = 0; sync_bit = false })
      ∷ [];
  pairs = [];
  clients = [];
  workers = [];
  bandwidth = 0;
  reports = [];
  synced = [];
  met = [];
  closed = [];
}

-- The first one waits for the second.
abbrev one_waits : Apertus
one_waits = record both_handled {
  handled = (1, record { client = 1; sync_bit = false }) ∷ [];
  clients = (uid, record { client = 0; sync_bit = true }) ∷ [];
}

reached : Reach true one_waits
unfolding run new_apertus step read_greeting greeting same_tid c_string find erase assign
reached =
    run-Reach true
      (Event.client_accepted
        ∷ Event.client_accepted
        ∷ Event.handle_started 0
        ∷ Event.handle_started 1
        ∷ Event.greeting_read 0 (greeting uid)
        ∷ [])
      (new_apertus true) one_waits Reach.start refl

owners-issued_example : owners 0 one_waits ≤ issued 0 one_waits
owners-issued_example = owners-issued true one_waits 0 reached

abbrev one_paired : Apertus
one_paired = record one_waits {
  handled = [];
  clients = [];
  pairs =
      (
        1,
        record {
          tid = uid;
          own = record { client = 1; sync_bit = true };
          peer = record { client = 0; sync_bit = true };
        },
      )
      ∷ [];
  met = (uid, 1, 0) ∷ [];
}

view-step_example :
    view one_paired
    ≡ answer (request (Event.greeting_read 1 (greeting uid)) one_waits) (view one_waits)
unfolding step read_greeting greeting same_tid c_string erase
view-step_example = view-step (Event.greeting_read 1 (greeting uid)) one_waits one_paired refl

-- Two bytes of the left client are read, and one of them is written when the right one's write throws.
abbrev turns : List Turn
turns =
    record { from_left = true; amount = 2; throws = false }
    ∷ record { from_left = false; amount = 5; throws = false }
    ∷ record { from_left = true; amount = 1; throws = false }
    ∷ record { from_left = false; amount = 1; throws = true }
    ∷ []

relay_new_example :
    Relayed (1 ∷ 2 ∷ 3 ∷ []) (4 ∷ []) 10 (relay turns (new_relay (1 ∷ 2 ∷ 3 ∷ []) (4 ∷ []) 10))
relay_new_example = relay_new (1 ∷ 2 ∷ 3 ∷ []) (4 ∷ []) 10 turns (omega arith)
