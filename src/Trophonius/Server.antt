-- ===== src/Trophonius/Server.antt =====
-- oracles/trophonius/server/src/infinit/oracles/trophonius/server: Trophonius.cc, User.cc, Client.cc
-- and Meta.cc, the connections that the server keeps and what changes them. A connection is an
-- address; the heap holds what is allocated. Threads take turns between two blocking calls.
use infinit_io.Base.{
  ℕ, suc, ◌≡◌, Bool, true, false, ◌&&◌, ◌||◌, Option, none, some, List, [], ◌∷◌, ◌++◌, ◌==◌,
  if◌then◌else◌, find, erase, assign, has, remove, map,
}
use infinit_io.Trophonius.User.{
  Device, Message, User, new_user, Packet, Answer, write, notify, login, accept,
}

-- An element of `users`, with the key that the second index has for it.
pub record Entry : Type 0 where
  pub client : ℕ
  pub device : Device

-- The calls of meta about a device that have gone through.
pub data Call : Type 0 where
  connects : Device → Call
  disconnects : Device → Call

pub record Trophonius : Type 0 where
  pub allocated : ℕ
  pub heap : List (ℕ × User)
  pub users : List Entry
  pub pending : List ℕ
  -- removed clients that are not deleted yet
  pub leaving : List ℕ
  pub calls : List Call

unfoldable pub new_trophonius : Trophonius
new_trophonius = record {
  allocated = 0;
  heap = [];
  users = [];
  pending = [];
  leaving = [];
  calls = [];
}

abbrev pub same_device : Device → Device → Bool
same_device a b = (a.user_id == b.user_id) && (a.device_id == b.device_id)

abbrev pub is_client : ℕ → Entry → Bool
is_client n e = e.client == n

abbrev pub is_device : Device → Entry → Bool
is_device d e = same_device e.device d

-- `find` in the second index.
unfoldable pub find_device : Device → List Entry → Option ℕ
find_device d [] = none
find_device d (e ∷ es) = if is_device d e then some e.client else find_device d es

-- `insert`: both indices are unique.
unfoldable pub insert_user : ℕ → Device → List Entry → List Entry
insert_user n d es =
    if has (is_client n) es || has (is_device d) es
    then es
    else record { client = n; device = d } ∷ es

unfoldable pub serve : Trophonius → Trophonius
serve s = record s {
  allocated = suc s.allocated;
  heap = assign ◌==◌ s.allocated new_user s.heap;
  pending = s.allocated ∷ s.pending;
}

unfoldable pub set_user : ℕ → User → Trophonius → Trophonius
set_user n x s = record s { heap = assign ◌==◌ n x s.heap }

-- Removes nothing for a client that is in neither set any more.
unfoldable pub client_remove : ℕ → Trophonius → Trophonius
client_remove n s =
    if has (is_client n) s.users
    then record s { users = remove (is_client n) s.users; leaving = n ∷ s.leaving }
    else if has (λ m. m == n) s.pending
    then record s { pending = remove (λ m. m == n) s.pending; leaving = n ∷ s.leaving }
    else s

-- `unregister`, and the deletion that `client_remove` asked for.
unfoldable pub unregister : ℕ → User → Trophonius → Trophonius
unregister n x s =
    let rest = record s { leaving = remove (λ m. m == n) s.leaving; heap = erase ◌==◌ n s.heap } in
    if x.registered
    then elim x.device [
      | none ↦ rest
      | some d ↦ record rest { calls = s.calls ++ Call.disconnects d ∷ [] }
    ]
    else rest

-- The previous connection of a device is deleted, and meta is not told. The code waits there for the
-- connection's threads to end; no other login of the device is modelled in between.
unfoldable pub delete_previous : Option ℕ → Trophonius → Trophonius
delete_previous none s = s
delete_previous (some previous) s = record s {
  users = remove (is_client previous) s.users;
  heap = erase ◌==◌ previous s.heap;
}

unfoldable pub remove_previous : Device → Trophonius → Trophonius
unfolding find_device delete_previous
remove_previous d s = delete_previous (find_device d s.users) s

unfoldable pub enter_users : ℕ → User → Device → Trophonius → Trophonius
unfolding insert_user
enter_users n x d t = record t {
  heap = assign ◌==◌ n (login d x) t.heap;
  users = insert_user n d t.users;
  pending = remove (λ m. m == n) t.pending;
}

-- The login of a client that is pending, up to the call of meta.
unfoldable pub connect : ℕ → User → Device → Trophonius → Trophonius
unfolding remove_previous enter_users
connect n x d s = enter_users n x d (remove_previous d s)

-- `none` for a login of a client that is not pending: it finds and deletes itself, or it has changed
-- its key inside the container.
unfoldable pub logged : ℕ → User → Device → Trophonius → Option Trophonius
unfolding connect
logged n x d s = if has (λ m. m == n) s.pending then some (connect n x d s) else none

-- A turn of `_handle`; an exception ends it, and its ward removes the client.
unfoldable pub handle : ℕ → User → Packet → Trophonius → Option Trophonius
unfolding logged
handle n x p s =
    if p.notification_type then some (set_user n (record x { pinged = true }) s) else elim p.ids [
      | some d ↦ logged n x d s
      | none ↦ elim p.poke [
        | some k ↦ some (set_user n (write (Message.echo k) x) s)
        | none ↦ some (client_remove n s)
      ]
    ]

-- The rest of the login, once meta has answered.
unfoldable pub answered : ℕ → User → Device → Answer → Trophonius → Trophonius
answered n x d Answer.accepts s = record (set_user n (accept x) s) {
  calls = s.calls ++ Call.connects d ∷ [];
}
answered n x d Answer.refuses s = client_remove n (set_user n (write Message.refused x) s)
answered n x d Answer.fails s = client_remove n s

-- A turn of `_handle_notifications`.
unfoldable pub deliver : ℕ → User → List ℕ → Trophonius → Option Trophonius
deliver n x [] s = none
deliver n x (k ∷ ks) s =
    some (set_user n (write (Message.notification k) (record x { notifications = ks })) s)

-- A turn of `_pong`.
unfoldable pub pong : ℕ → User → Trophonius → Trophonius
pong n x s = if x.pinged then set_user n (record x { pinged = false }) s else client_remove n s

unfoldable pub free_all : List ℕ → List (ℕ × User) → List (ℕ × User)
free_all [] h = h
free_all (n ∷ ns) h = free_all ns (erase ◌==◌ n h)

unfoldable pub disconnect_all_users : Trophonius → Trophonius
unfolding free_all
disconnect_all_users s = record s {
  users = [];
  pending = [];
  heap = free_all s.pending (free_all (map (λ e. e.client) s.users) s.heap);
}

-- What a thread of the server goes on with.
pub data Event : Type 0 where
  accepted : Event
  received : ℕ → Packet → Event
  meta_answered : ℕ → Answer → Event
  -- an error of the network in one of the client's threads
  broken : ℕ → Event
  expired : ℕ → Event
  pinging : ℕ → Event
  ponged : ℕ → Event
  delivered : ℕ → Event
  left : ℕ → Event
  -- a notification that meta sends for a device
  notified : Device → ℕ → Event
  disconnected : Event

-- A client whose threads run.
unfoldable pub connected : ℕ → Trophonius → Bool
connected n s = has (is_client n) s.users || has (λ m. m == n) s.pending

-- The turn of a thread of the client `n`.
unfoldable pub client_step : Event → ℕ → User → Trophonius → Option Trophonius
unfolding handle answered client_remove deliver pong
client_step (Event.received m p) n x s = if x.connecting then none else handle n x p s
client_step (Event.meta_answered m a) n x s =
    if x.connecting
    then elim x.device [ none ↦ none | some d ↦ some (answered n x d a s) ]
    else none
client_step (Event.broken m) n x s = some (client_remove n s)
client_step (Event.expired m) n x s = if x.timeout then some (client_remove n s) else none
client_step (Event.pinging m) n x s =
    if x.authentified then some (set_user n (write Message.ping x) s) else none
client_step (Event.ponged m) n x s = if x.authentified then some (pong n x s) else none
client_step (Event.delivered m) n x s =
    if x.authentified then deliver n x x.notifications s else none
client_step e n x s = none

unfoldable pub client_turn : Event → ℕ → Trophonius → Option Trophonius
unfolding client_step connected
client_turn e n s = elim (find ◌==◌ n s.heap) [
  | none ↦ none
  | some x ↦ if connected n s then client_step e n x s else none
]

unfoldable pub notify_user : ℕ → Option User → ℕ → Trophonius → Trophonius
notify_user n none k s = s
notify_user n (some x) k s = set_user n (notify k x) s

-- `UnknownClient` is caught.
unfoldable pub notify_found : Option ℕ → ℕ → Trophonius → Trophonius
unfolding notify_user
notify_found none k s = s
notify_found (some n) k s = notify_user n (find ◌==◌ n s.heap) k s

-- What `Meta::_handle` does with a notification for a device.
unfoldable pub notify_device : Device → ℕ → Trophonius → Trophonius
unfolding find_device notify_found
notify_device d k s = notify_found (find_device d s.users) k s

unfoldable pub leave : ℕ → Trophonius → Option Trophonius
unfolding unregister
leave n s =
    if has (λ m. m == n) s.leaving
    then elim (find ◌==◌ n s.heap) [ none ↦ none | some x ↦ some (unregister n x s) ]
    else none

-- `none` for an event that cannot be next.
unfoldable pub step : Event → Trophonius → Option Trophonius
unfolding serve client_turn notify_device leave disconnect_all_users
step Event.accepted s = some (serve s)
step (Event.received n p) s = client_turn (Event.received n p) n s
step (Event.meta_answered n a) s = client_turn (Event.meta_answered n a) n s
step (Event.broken n) s = client_turn (Event.broken n) n s
step (Event.expired n) s = client_turn (Event.expired n) n s
step (Event.pinging n) s = client_turn (Event.pinging n) n s
step (Event.ponged n) s = client_turn (Event.ponged n) n s
step (Event.delivered n) s = client_turn (Event.delivered n) n s
step (Event.left n) s = leave n s
step (Event.notified d k) s = some (notify_device d k s)
step Event.disconnected s = some (disconnect_all_users s)

pub data Reach : Trophonius → Type 0 where
  start : Reach new_trophonius
  later : {s s' : Trophonius} (e : Event) → Reach s → step e s ≡ some s' → Reach s'
