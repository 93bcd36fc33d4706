-- ===== src/Apertus/Joining.antt =====
-- oracles/apertus with the clients of fist/src/surface/gap/Rounds.cc: two clients that send the same
-- identifier.
use infinit_io.Base.{
  ℕ, ◌<◌, ◌≡◌, refl, ap, ◌∙◌, true, false, none, some, [], ◌∷◌, ◌++◌, length, ◌==◌, ==_iff, find,
  erase, assign, find-assign, find-erase, find-erase_self,
}
use infinit_io.Apertus.Greeting.{Bytes, Tid, greeting, NoNull, read_greeting-greeting}
use infinit_io.Apertus.State.{
  Accepter, Transfer, Pair, Apertus, same_tid, handle, connect, Event, greeted, step, run,
  sync_bytes,
}
use infinit_io.Apertus.Pairing.{same_tid_eq, same_tid_self}

-- The Accepter once it has read a new client's greeting.
unfoldable pub synced_accepter : Accepter → Accepter
synced_accepter x = record x { sync_bit = true }

step-greeting :
    (a : ℕ) (x : Accepter) (uid rest : Bytes) (s : Apertus)
    → find ◌==◌ a s.handled ≡ some x
    → NoNull uid
    → length uid < 256
    → step (Event.greeting_read a (greeting uid ++ rest)) s
      ≡ some (handle a (synced_accepter x) uid s)
unfolding step greeted synced_accepter
step-greeting a x uid rest s h nn lt = rw (h, step, read_greeting-greeting uid rest nn lt) refl

-- The states after the first greeting, after the second one and once the pair is joined.
unfoldable pub waiting : ℕ → Accepter → Tid → Apertus → Apertus
unfolding synced_accepter assign
waiting a x uid s = record s {
  handled = erase ◌==◌ a s.handled;
  clients = assign same_tid uid (synced_accepter x) s.clients;
}

handle-waiting :
    (a : ℕ) (x : Accepter) (uid : Tid) (s : Apertus)
    → find same_tid uid s.clients ≡ none
    → handle a (synced_accepter x) uid s ≡ waiting a x uid s
unfolding handle waiting
handle-waiting a x uid s h = rw (h, handle) refl

find-waiting :
    (a : ℕ) (x : Accepter) (uid : Tid) (s : Apertus)
    → find same_tid uid (waiting a x uid s).clients ≡ some (synced_accepter x)
unfolding waiting
find-waiting a x uid s =
    rw (find-assign same_tid same_tid_eq uid uid (synced_accepter x) s.clients, same_tid_self uid)
      refl

find-handled :
    (a b : ℕ) (x y : Accepter) (uid : Tid) (s : Apertus)
    → (a == b) ≡ false
    → find ◌==◌ b s.handled ≡ some y
    → find ◌==◌ b (waiting a x uid s).handled ≡ some y
unfolding waiting
find-handled a b x y uid s ne h = rw (find-erase ◌==◌ (λ j k. (==_iff j k).0) a b s.handled, ne) h

pair_of : Accepter → Accepter → Tid → Pair
pair_of y x uid = record { tid = uid; own = synced_accepter y; peer = synced_accepter x }

unfoldable pub paired : ℕ → Accepter → Accepter → Tid → Apertus → Apertus
unfolding synced_accepter pair_of erase
paired b y x uid s = record s {
  handled = erase ◌==◌ b s.handled;
  clients = erase same_tid uid s.clients;
  pairs = (b, pair_of y x uid) ∷ s.pairs;
  met = (uid, y.client, x.client) ∷ s.met;
}

handle-paired :
    (b : ℕ) (y x : Accepter) (uid : Tid) (s : Apertus)
    → find same_tid uid s.clients ≡ some (synced_accepter x)
    → handle b (synced_accepter y) uid s ≡ paired b y x uid s
unfolding handle paired pair_of synced_accepter
handle-paired b y x uid s h = rw (h, handle) refl

unfoldable pub joined : ℕ → Accepter → Accepter → Tid → Apertus → Apertus
unfolding connect erase
joined b y x uid s =
    connect uid y.client x.client
      (record s { pairs = erase ◌==◌ b s.pairs; synced = s.synced ++ y.client ∷ x.client ∷ [] })

find-paired :
    (b : ℕ) (y x : Accepter) (uid : Tid) (s : Apertus)
    → find ◌==◌ b (paired b y x uid s).pairs ≡ some (pair_of y x uid)
unfolding paired find
find-paired b y x uid s = rw ((==_iff b b).1 refl) refl

step-synchronised :
    (b : ℕ) (y x : Accepter) (uid : Tid) (s : Apertus)
    → find ◌==◌ b s.pairs ≡ some (pair_of y x uid)
    → step (Event.synchronised b) s ≡ some (joined b y x uid s)
unfolding step joined pair_of synced_accepter sync_bytes
step-synchronised b y x uid s h = rw (h, step) refl

step-joined :
    (b : ℕ) (y x : Accepter) (uid : Tid) (s : Apertus)
    → step (Event.synchronised b) (paired b y x uid s)
      ≡ some (joined b y x uid (paired b y x uid s))
step-joined b y x uid s = step-synchronised b y x uid (paired b y x uid s) (find-paired b y x uid s)

find-joined :
    (b : ℕ) (y x : Accepter) (uid : Tid) (s : Apertus)
    → find same_tid uid (joined b y x uid s).workers
      ≡ some (record { left = y.client; right = x.client })
unfolding joined connect
find-joined b y x uid s =
    let t : Transfer = record { left = y.client; right = x.client } in
    rw
      (find-assign same_tid same_tid_eq uid uid t (erase same_tid uid s.workers), same_tid_self uid)
      refl

synced-joined :
    (b a : ℕ) (y x : Accepter) (uid : Tid) (s : Apertus)
    → (joined b y x uid (paired b y x uid (waiting a x uid s))).synced
      ≡ s.synced ++ y.client ∷ x.client ∷ []
unfolding joined paired waiting connect
synced-joined b a y x uid s = refl

clients-joined :
    (b a : ℕ) (y x : Accepter) (uid : Tid) (s : Apertus)
    → find same_tid uid (joined b y x uid (paired b y x uid (waiting a x uid s))).clients ≡ none
unfolding joined paired connect
clients-joined b a y x uid s = find-erase_self same_tid uid (waiting a x uid s).clients

-- Two new clients whose Accepters read the same identifier, which nobody waits under, are joined:
-- once the second one's thread has written the synchronisation bytes, the second one first, the
-- transfer of that identifier has the second one's socket on its left and the first one's on its
-- right, and nobody waits under it any more. The identifier is shorter than 256 bytes and has no
-- null byte; the clients may send anything after it.
pub run-joined :
    (a b : ℕ) (x y : Accepter) (uid rest1 rest2 : Bytes) (s : Apertus)
    → (a == b) ≡ false
    → find ◌==◌ a s.handled ≡ some x
    → find ◌==◌ b s.handled ≡ some y
    → find same_tid uid s.clients ≡ none
    → NoNull uid
    → length uid < 256
    → (s' : Apertus) × (run
          (Event.greeting_read a (greeting uid ++ rest1)
            ∷ Event.greeting_read b (greeting uid ++ rest2)
            ∷ Event.synchronised b
            ∷ [])
          s
        ≡ some s')
      × (find same_tid uid s'.workers ≡ some (record { left = y.client; right = x.client }))
      × (s'.synced ≡ s.synced ++ y.client ∷ x.client ∷ [])
      × (find same_tid uid s'.clients ≡ none)
unfolding run
run-joined a b x y uid rest1 rest2 s ne ha hb hc nn lt =
    let first : step (Event.greeting_read a (greeting uid ++ rest1)) s ≡ some (waiting a x uid s) =
      step-greeting a x uid rest1 s ha nn lt ∙ ap some (handle-waiting a x uid s hc) in
    let second : step (Event.greeting_read b (greeting uid ++ rest2)) (waiting a x uid s)
        ≡ some (handle b (synced_accepter y) uid (waiting a x uid s)) =
      step-greeting b y uid rest2 (waiting a x uid s) (find-handled a b x y uid s ne hb) nn lt in
    let w : Apertus = waiting a x uid s in
    let p : Apertus = paired b y x uid w in
    let third : step (Event.synchronised b) (handle b (synced_accepter y) uid w)
        ≡ some (joined b y x uid p) =
      rw (handle-paired b y x uid w (find-waiting a x uid s)) (step-joined b y x uid w) in
    (
      joined b y x uid p,
      rw (first, run, second, third) refl,
      find-joined b y x uid p,
      synced-joined b a y x uid s,
      clients-joined b a y x uid s,
    )
