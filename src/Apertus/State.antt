-- ===== src/Apertus/State.antt =====
-- oracles/apertus/server/src/infinit/oracles/apertus/{Apertus,Accepter,Transfer}.cc: the server's
-- maps and what changes them. The n-th accepted socket and its Accepter are both called n. The
-- reactor's threads run one at a time between two blocking calls, and each event is such a run.
use infinit_io.Base.{
  ℕ, suc, ◌+◌, ◌/◌, ◌≡◌, Bool, true, false, ◌&&◌, Option, none, some, List, [], ◌∷◌, ◌++◌, ◌==◌,
  if◌then◌else◌, subst, Option-cases, inl, inr, arith, length, u32, find, erase, assign,
}
use infinit_io.Apertus.Greeting.{Bytes, Tid, read_greeting}

-- The deadline closes the socket of an Accepter, which keeps it.
pub record Accepter : Type 0 where
  pub client : ℕ
  pub sync_bit : Bool

pub record Transfer : Type 0 where
  pub left : ℕ
  pub right : ℕ

-- An Accepter that has found its peer and writes the synchronisation bytes.
pub record Pair : Type 0 where
  pub tid : Tid
  pub own : Accepter
  pub peer : Accepter

pub record Apertus : Type 0 where
  pub meta_enabled : Bool
  pub unregistered : Bool
  -- the number of calls of `unregister_apertus`
  pub unregister_calls : ℕ
  -- the number of sockets accepted so far
  pub accepted : ℕ
  pub accepters : List (ℕ × Accepter)
  -- the Accepters that their own `_handle` holds as `self`, and those that have found their peer
  pub handled : List (ℕ × Accepter)
  pub pairs : List (ℕ × Pair)
  pub clients : List (Tid × Accepter)
  pub workers : List (Tid × Transfer)
  pub bandwidth : ℕ
  -- what is sent to meta on each tick: the bandwidth and the number of workers
  pub reports : List (ℕ × ℕ)
  -- the sockets that got a synchronisation byte, and the traces of the peers found
  pub synced : List ℕ
  pub met : List (Tid × ℕ × ℕ)
  -- the sockets that a deadline has closed; whoever holds one keeps it
  pub closed : List ℕ

unfoldable pub same_tid : Tid → Tid → Bool
same_tid [] [] = true
same_tid [] (b ∷ bs) = false
same_tid (a ∷ ks) [] = false
same_tid (a ∷ ks) (b ∷ bs) = (a == b) && same_tid ks bs

unfoldable pub new_apertus : Bool → Apertus
new_apertus meta_enabled = record {
  meta_enabled = meta_enabled;
  unregistered = false;
  unregister_calls = 0;
  accepted = 0;
  accepters = [];
  handled = [];
  pairs = [];
  clients = [];
  workers = [];
  bandwidth = 0;
  reports = [];
  synced = [];
  met = [];
  closed = [];
}

unfoldable pub unregister : Apertus → Apertus
unregister s = if s.unregistered then s else record s {
  unregistered = true;
  unregister_calls = if s.meta_enabled then suc s.unregister_calls else s.unregister_calls;
}

-- One turn of `_serve`. The synchronisation bit has no value before the greeting is read.
unfoldable pub serve : Apertus → Apertus
serve s = record s {
  accepted = suc s.accepted;
  accepters = assign ◌==◌ s.accepted (record { client = s.accepted; sync_bit = false }) s.accepters;
}

-- `none` where the assertion fails.
unfoldable pub take_from_accepters : ℕ → Apertus → Option Apertus
take_from_accepters a s = elim (find ◌==◌ a s.accepters) [
  | none ↦ none
  | some x ↦ some (record s { accepters = erase ◌==◌ a s.accepters; handled = (a, x) ∷ s.handled })
]

-- The end of `_handle` for the Accepter `a`, whose greeting has been read.
unfoldable pub handle : ℕ → Accepter → Tid → Apertus → Apertus
handle a self tid s =
    let rest = erase ◌==◌ a s.handled in
    elim (find same_tid tid s.clients) [
      | none ↦ record s { handled = rest; clients = assign same_tid tid self s.clients }
      | some peer ↦ record s {
        handled = rest;
        clients = erase same_tid tid s.clients;
        pairs = (a, record { tid = tid; own = self; peer = peer }) ∷ s.pairs;
        met = (tid, self.client, peer.client) ∷ s.met;
      }
    ]

-- The synchronisation bytes, in the order they are written.
unfoldable pub sync_bytes : Pair → List ℕ
sync_bytes p =
    (if p.own.sync_bit then p.own.client ∷ [] else [])
    ++ (if p.peer.sync_bit then p.peer.client ∷ [] else [])

-- An earlier transfer of the same transaction is destroyed with its sockets.
unfoldable pub connect : Tid → ℕ → ℕ → Apertus → Apertus
connect tid client1 client2 s = record s {
  workers =
      assign same_tid tid (record { left = client1; right = client2 })
        (erase same_tid tid s.workers);
}

-- `none` where the assertion fails.
unfoldable pub transfer_remove : Tid → Apertus → Option Apertus
transfer_remove tid s = elim (find same_tid tid s.workers) [
  | none ↦ none
  | some worker ↦ some (record s { workers = erase same_tid tid s.workers })
]

-- The loop of the destructor.
unfoldable pub kick_all : List (Tid × Transfer) → Apertus → Apertus
kick_all [] s = s
kick_all ((tid, t) ∷ ws) s = kick_all ws (record s { workers = erase same_tid tid s.workers })

unfoldable pub destroy : Apertus → Apertus
unfolding kick_all
destroy s = kick_all s.workers s

unfoldable pub is_waiting : ℕ → List (Tid × Accepter) → Bool
is_waiting n [] = false
is_waiting n ((t, x) ∷ m) = if x.client == n then true else is_waiting n m

-- An Accepter's timer runs until it is destroyed, or has found its peer.
unfoldable pub timer_runs : ℕ → Apertus → Bool
unfolding is_waiting
timer_runs n s = elim (find ◌==◌ n s.accepters) [
  | some x ↦ true
  | none ↦ elim (find ◌==◌ n s.handled) [ some x ↦ true | none ↦ is_waiting n s.clients ]
]

unfoldable pub deadline : ℕ → Apertus → Option Apertus
unfolding timer_runs
deadline n s = if timer_runs n s then some (record s { closed = n ∷ s.closed }) else none

unfoldable pub add_to_bandwidth : ℕ → Apertus → Apertus
add_to_bandwidth data_size s = record s { bandwidth = u32 (s.bandwidth + data_size) }

-- One turn of `_run_monitor`, with the whole seconds of the tick's length, which are not 0.
unfoldable pub run_monitor : ℕ → Apertus → Apertus
run_monitor seconds s = record s {
  bandwidth = 0;
  reports =
      if s.meta_enabled then (s.bandwidth / seconds, length s.workers) ∷ s.reports else s.reports;
}

-- `stop`, before it waits for the workers.
unfoldable pub stop : Apertus → Apertus
unfolding unregister
stop s = record (unregister s) { accepters = []; clients = [] }

-- What a thread of the server goes on with.
pub data Event : Type 0 where
  client_accepted : Event
  handle_started : ℕ → Event
  -- the bytes that the client has sent, the greeting first
  greeting_read : ℕ → Bytes → Event
  -- `_handle` ends on an exception, before or after it has found the peer
  handle_failed : ℕ → Event
  pairing_failed : ℕ → Event
  synchronised : ℕ → Event
  transfer_ended : Tid → Event
  forwarded : ℕ → Event
  ticked : ℕ → Event
  serving_ended : Event
  deadline_passed : ℕ → Event
  destroyed : Event
  stopped : Event

unfoldable pub greeted : ℕ → Accepter → Option (Bool × Tid × Bytes) → Apertus → Option Apertus
unfolding handle
greeted a x none s = none
greeted a x (some (sync, tid, rest)) s = some (handle a (record x { sync_bit = sync }) tid s)

-- `none` for an event that cannot be next.
unfoldable pub step : Event → Apertus → Option Apertus
unfolding find serve take_from_accepters greeted connect transfer_remove add_to_bandwidth
    run_monitor unregister stop
step client_accepted s = some (serve s)
step (handle_started a) s = take_from_accepters a s
step (greeting_read a bs) s = elim (find ◌==◌ a s.handled) [
  | none ↦ none
  | some x ↦ greeted a x (read_greeting bs) s
]
step (handle_failed a) s = elim (find ◌==◌ a s.handled) [
  | none ↦ none
  | some x ↦ some (record s { handled = erase ◌==◌ a s.handled })
]
step (pairing_failed a) s = elim (find ◌==◌ a s.pairs) [
  | none ↦ none
  | some p ↦ some (record s { pairs = erase ◌==◌ a s.pairs })
]
step (synchronised a) s = elim (find ◌==◌ a s.pairs) [
  | none ↦ none
  | some p ↦ some (
      connect p.tid p.own.client p.peer.client
        (record s { pairs = erase ◌==◌ a s.pairs; synced = s.synced ++ sync_bytes p }))
]
step (transfer_ended tid) s = transfer_remove tid s
step (forwarded data_size) s = some (add_to_bandwidth data_size s)
step (ticked seconds) s = if seconds == 0 then none else some (run_monitor seconds s)
step serving_ended s = some (unregister s)
step (deadline_passed n) s = deadline n s
step destroyed s = some (destroy s)
step stopped s = some (stop s)

-- The states that the server comes to.
pub data Reach (meta_enabled : Bool) : Apertus → Type 0 where
  start : Reach meta_enabled (new_apertus meta_enabled)
  later :
      {s s' : Apertus} (e : Event)
      → Reach meta_enabled s
      → step e s ≡ some s'
      → Reach meta_enabled s'

unfoldable pub run : List Event → Apertus → Option Apertus
unfolding step
run [] s = some s
run (e ∷ es) s = elim (step e s) [ none ↦ none | some s' ↦ run es s' ]

pub run-Reach :
    (m : Bool) (es : List Event) (s s' : Apertus) → Reach m s → run es s ≡ some s' → Reach m s'
unfolding run
run-Reach m [] s s' r h = subst (Reach m) (ground arith) r
run-Reach m (e ∷ es) s s' r h = elim (Option-cases (step e s)) [
  | inl f ↦ absurd (ground (arith, f))
  | inr (t, f) ↦
      let rest : Option Apertus → Option Apertus =
        λ o. elim o [ none ↦ none | some u ↦ run es u ] in
      run-Reach m es t s' (Reach.later e r f) (subst (λ o. rest o ≡ some s') f h)
]
