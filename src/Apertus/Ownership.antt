-- ===== src/Apertus/Ownership.antt =====
-- oracles/apertus: every socket stands in one place of the server's maps.
use infinit_io.Base.{
  if_cases, List, [], ◌∷◌, ℕ, ◌+◌, ◌≤◌, ◌≡◌, inl, inr, Bool, false, Bool-cases, AllSome, ◌++◌,
  Option, none, some, List, ◌==◌, ltb, if◌then◌else◌, subst, Option-cases, find, erase, total,
  total-erase, total-erase_found, total-assign, arith,
}
use infinit_io.Apertus.Greeting.{Bytes, Tid, read_greeting}
use infinit_io.Apertus.State.{
  kick_all, destroy, deadline, timer_runs, sync_bytes, Accepter, Transfer, Pair, Apertus, same_tid,
  new_apertus, unregister, serve, take_from_accepters, handle, connect, transfer_remove, stop,
  Event, greeted, step, Reach,
}

module _ (n : ℕ) where
  unfoldable pub in_accepter : Accepter → ℕ
  in_accepter x = if x.client == n then 1 else 0

  unfoldable pub in_transfer : Transfer → ℕ
  in_transfer t = (if t.left == n then 1 else 0) + (if t.right == n then 1 else 0)

  unfoldable pub in_pair : Pair → ℕ
  unfolding in_accepter
  in_pair p = in_accepter p.own + in_accepter p.peer

  -- How often the socket `n` is held by the server.
  unfoldable pub owners : Apertus → ℕ
  unfolding in_accepter in_transfer in_pair total
  owners s =
      total in_accepter s.accepters
      + total in_accepter s.handled
      + total in_accepter s.clients
      + total in_pair s.pairs
      + total in_transfer s.workers

-- 1 for the sockets that have been accepted, 0 for those to come.
unfoldable pub issued : ℕ → Apertus → ℕ
issued n s = if ltb n s.accepted then 1 else 0

unfoldable pub Owned : Apertus → Type 0
unfolding owners issued
Owned s = (n : ℕ) → owners n s ≤ issued n s

serve-Owned : (s : Apertus) → Owned s → Owned (serve s)
unfolding Owned serve in_accepter
serve-Owned s o n = ground (
  arith,
  o n,
  total-assign ◌==◌ (in_accepter n) s.accepted (record { client = s.accepted; sync_bit = false })
      s.accepters,
)

unregister-Owned : (s : Apertus) → Owned s → Owned (unregister s)
unfolding Owned unregister
unregister-Owned s o n = elim (Bool-cases s.unregistered) [
  | inl e ↦ rw e (o n)
  | inr e ↦ rw e (o n)
]

take_from_accepters-AllSome :
    (a : ℕ) (s : Apertus) → Owned s → AllSome Owned (take_from_accepters a s)
unfolding Owned take_from_accepters
take_from_accepters-AllSome a s o = elim (Option-cases (find ◌==◌ a s.accepters)) [
  | inl e ↦ rw (e, take_from_accepters) tt
  | inr (x, e) ↦
      rw (e, take_from_accepters)
        (λ n. omega (arith, o n, total-erase_found ◌==◌ (in_accepter n) a x s.accepters e))
]

-- An Accepter that waits or is paired keeps its socket, and so does its peer.
handle-Owned :
    (a : ℕ) (x : Accepter) (sync : Bool) (tid : Tid) (s : Apertus)
    → find ◌==◌ a s.handled ≡ some x
    → Owned s
    → Owned (handle a (record x { sync_bit = sync }) tid s)
unfolding Owned handle total in_pair in_accepter
handle-Owned a x sync tid s h o n = elim (Option-cases (find same_tid tid s.clients)) [
  | inl e ↦
      rw (e, handle)
        (omega (
          arith,
          o n,
          total-erase_found ◌==◌ (in_accepter n) a x s.handled h,
          total-assign same_tid (in_accepter n) tid (record x { sync_bit = sync }) s.clients,
        ))
  | inr (y, e) ↦
      rw (e, handle)
        (omega (
          arith,
          o n,
          total-erase_found ◌==◌ (in_accepter n) a x s.handled h,
          total-erase_found same_tid (in_accepter n) tid y s.clients e,
        ))
]

greeted-AllSome :
    (a : ℕ) (x : Accepter) (g : Option (Bool × Tid × Bytes)) (s : Apertus)
    → find ◌==◌ a s.handled ≡ some x
    → Owned s
    → AllSome Owned (greeted a x g s)
unfolding Owned greeted
greeted-AllSome a x none s h o = tt
greeted-AllSome a x (some (sync, tid, rest)) s h o = handle-Owned a x sync tid s h o

connect-Owned :
    (a : ℕ) (p : Pair) (synced : List ℕ) (s : Apertus)
    → find ◌==◌ a s.pairs ≡ some p
    → Owned s
    → Owned (
        connect p.tid p.own.client p.peer.client
          (record s { pairs = erase ◌==◌ a s.pairs; synced = synced }))
unfolding Owned connect in_pair in_accepter in_transfer
connect-Owned a p synced s h o n =
    let t : Transfer = record { left = p.own.client; right = p.peer.client } in
    omega (
      arith,
      o n,
      total-erase_found ◌==◌ (in_pair n) a p s.pairs h,
      total-erase same_tid (in_transfer n) p.tid s.workers,
      total-assign same_tid (in_transfer n) p.tid t (erase same_tid p.tid s.workers),
    )

transfer_remove-AllSome :
    (tid : Tid) (s : Apertus) → Owned s → AllSome Owned (transfer_remove tid s)
unfolding Owned transfer_remove
transfer_remove-AllSome tid s o = elim (Option-cases (find same_tid tid s.workers)) [
  | inl e ↦ rw (e, transfer_remove) tt
  | inr (t, e) ↦
      rw (e, transfer_remove)
        (λ n. omega (arith, o n, total-erase same_tid (in_transfer n) tid s.workers))
]

stop-Owned : (s : Apertus) → Owned s → Owned (stop s)
unfolding Owned stop total
stop-Owned s o n = omega (arith, unregister-Owned s o n)

kick_all-Owned : (ws : List (Tid × Transfer)) (s : Apertus) → Owned s → Owned (kick_all ws s)
unfolding kick_all Owned
kick_all-Owned [] s o = o
kick_all-Owned ((tid, t) ∷ ws) s o =
    kick_all-Owned ws (record s { workers = erase same_tid tid s.workers })
      (λ n. omega (arith, o n, total-erase same_tid (in_transfer n) tid s.workers))

step-AllSome : (e : Event) (s : Apertus) → Owned s → AllSome Owned (step e s)
unfolding step Owned deadline destroy
step-AllSome Event.client_accepted s o = serve-Owned s o
step-AllSome (Event.handle_started a) s o = take_from_accepters-AllSome a s o
step-AllSome (Event.greeting_read a bs) s o = elim (Option-cases (find ◌==◌ a s.handled)) [
  | inl h ↦ rw (h, step) tt
  | inr (x, h) ↦ rw (h, step) (greeted-AllSome a x (read_greeting bs) s h o)
]
step-AllSome (Event.handle_failed a) s o = elim (Option-cases (find ◌==◌ a s.handled)) [
  | inl h ↦ rw (h, step) tt
  | inr (x, h) ↦
      rw (h, step) (λ n. omega (arith, o n, total-erase ◌==◌ (in_accepter n) a s.handled))
]
step-AllSome (Event.pairing_failed a) s o = elim (Option-cases (find ◌==◌ a s.pairs)) [
  | inl h ↦ rw (h, step) tt
  | inr (x, h) ↦ rw (h, step) (λ n. omega (arith, o n, total-erase ◌==◌ (in_pair n) a s.pairs))
]
step-AllSome (Event.synchronised a) s o = elim (Option-cases (find ◌==◌ a s.pairs)) [
  | inl h ↦ rw (h, step) tt
  | inr (p, h) ↦ rw (h, step) (connect-Owned a p (s.synced ++ sync_bytes p) s h o)
]
step-AllSome (Event.transfer_ended tid) s o = transfer_remove-AllSome tid s o
step-AllSome (Event.forwarded k) s o = o
step-AllSome (Event.ticked k) s o = elim (Bool-cases (k == 0)) [
  | inl h ↦ rw (h, step) tt
  | inr h ↦ rw (h, step) o
]
step-AllSome Event.serving_ended s o = unregister-Owned s o
step-AllSome (Event.deadline_passed n) s o =
    if_cases (AllSome Owned) (timer_runs n s) _ none (λ e. o) (λ e. tt)
step-AllSome Event.destroyed s o = kick_all-Owned s.workers s o
step-AllSome Event.stopped s o = stop-Owned s o

step-Owned : (e : Event) (s s' : Apertus) → step e s ≡ some s' → Owned s → Owned s'
step-Owned e s s' h o = subst (AllSome Owned) h (step-AllSome e s o)

Reach-Owned : (m : Bool) (s : Apertus) → Reach m s → Owned s
unfolding new_apertus Owned total owners
Reach-Owned m s Reach.start = λ n. omega arith
Reach-Owned m s (Reach.later e r h) = step-Owned e _ s h (Reach-Owned m _ r)

-- In every state that the server comes to, a socket that has been accepted is held at most once:
-- by an Accepter that reads its greeting, by one that waits for its peer, by a pair that is being
-- joined or by one side of a transfer; one that has not been accepted is held by none.
pub owners-issued : (m : Bool) (s : Apertus) (n : ℕ) → Reach m s → owners n s ≤ issued n s
unfolding Owned
owners-issued m s n r = Reach-Owned m s r n
