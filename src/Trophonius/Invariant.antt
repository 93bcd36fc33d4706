-- ===== src/Trophonius/Invariant.antt =====
-- oracles/trophonius: how to show that something holds in every state that the server comes to. Each
-- step is made of a few changes of the state, and what these keep is kept.
use infinit_io.Base.{
  ℕ, ◌≡◌, refl, subst, inl, inr, Bool, true, false, Option-cases, AllSome, if_cases, Option, none,
  some, List, [], ◌∷◌, ◌==◌, if◌then◌else◌, find, erase, has, remove,
}
use infinit_io.Trophonius.User.{Device, Message, User, Packet, Answer, write, notify, accept}
use infinit_io.Trophonius.Server.{
  notify_user, notify_found, Call, Trophonius, new_trophonius, is_client, find_device, serve,
  set_user, client_remove, unregister, connect, logged, handle, answered, deliver, pong,
  disconnect_all_users, Event, connected, client_step, client_turn, notify_device, leave, step,
  Reach,
}

-- What a turn of one of its threads, or a notification, makes of a connection.
pub data Turn : User → User → Type 0 where
  pings : {x : User} → Turn x (record x { pinged = true })
  pokes : {x : User} (k : ℕ) → Turn x (write (Message.echo k) x)
  accepts : {x : User} → x.connecting ≡ true → Turn x (accept x)
  refuses : {x : User} → x.connecting ≡ true → Turn x (write Message.refused x)
  delivers :
      {x : User} (k : ℕ) (ks : List ℕ)
      → x.authentified ≡ true
      → x.notifications ≡ k ∷ ks
      → Turn x (write (Message.notification k) (record x { notifications = ks }))
  watches : {x : User} → x.authentified ≡ true → Turn x (write Message.ping x)
  forgets : {x : User} → x.authentified ≡ true → Turn x (record x { pinged = false })
  notified : {x : User} (k : ℕ) → Turn x (notify k x)

-- A property of the server's state that its changes keep.
pub record Inductive (P : Trophonius → Type 0) : Type 0 where
  pub initial : P new_trophonius
  pub told : (cs : List Call) (s : Trophonius) → P s → P (record s { calls = cs })
  pub served : (s : Trophonius) → P s → P (serve s)
  pub changed :
      (n : ℕ) (x y : User) (s : Trophonius)
      → find ◌==◌ n s.heap ≡ some x
      → Turn x y
      → P s
      → P (set_user n y s)
  pub user_removed :
      (n : ℕ) (s : Trophonius)
      → has (is_client n) s.users ≡ true
      → P s
      → P (record s { users = remove (is_client n) s.users; leaving = n ∷ s.leaving })
  pub pending_removed :
      (n : ℕ) (s : Trophonius)
      → has (λ k. k == n) s.pending ≡ true
      → P s
      → P (record s { pending = remove (λ k. k == n) s.pending; leaving = n ∷ s.leaving })
  pub freed :
      (n : ℕ) (s : Trophonius)
      → has (λ k. k == n) s.leaving ≡ true
      → P s
      → P (record s { leaving = remove (λ k. k == n) s.leaving; heap = erase ◌==◌ n s.heap })
  pub entered :
      (n : ℕ) (x : User) (d : Device) (s : Trophonius)
      → find ◌==◌ n s.heap ≡ some x
      → x.connecting ≡ false
      → has (λ k. k == n) s.pending ≡ true
      → P s
      → P (connect n x d s)
  pub emptied : (s : Trophonius) → P s → P (disconnect_all_users s)

module _ (P : Trophonius → Type 0) (ind : Inductive P) where
  client_remove-kept : (n : ℕ) (s : Trophonius) → P s → P (client_remove n s)
  unfolding client_remove
  client_remove-kept n s o =
      if_cases P (has (is_client n) s.users) _ _ (λ e. ind.user_removed n s e o)
        (λ e.
          if_cases P (has (λ k. k == n) s.pending) _ s (λ f. ind.pending_removed n s f o) (λ f. o))

  unregister-kept :
      (n : ℕ) (x : User) (s : Trophonius)
      → has (λ k. k == n) s.leaving ≡ true
      → P s
      → P (unregister n x s)
  unfolding unregister
  unregister-kept n x s h o =
      let rest = ind.freed n s h o in
      if_cases P x.registered _ _
        (λ e. elim (Option-cases x.device) [
          | inl f ↦ rw f rest
          | inr (d, f) ↦ rw f (ind.told _ _ rest)
        ])
        (λ e. rest)

  leave-kept : (n : ℕ) (s : Trophonius) → P s → AllSome P (leave n s)
  unfolding leave
  leave-kept n s o =
      if_cases (AllSome P) (has (λ k. k == n) s.leaving) _ none
        (λ f. elim (Option-cases (find ◌==◌ n s.heap)) [
          | inl e ↦ rw e tt
          | inr (x, e) ↦ rw e (unregister-kept n x s f o)
        ])
        (λ f. tt)

  notify_user-kept :
      (n : ℕ) (x : Option User) (k : ℕ) (s : Trophonius)
      → find ◌==◌ n s.heap ≡ x
      → P s
      → P (notify_user n x k s)
  unfolding notify_user
  notify_user-kept n none k s e o = o
  notify_user-kept n (some x) k s e o = ind.changed n x (notify k x) s e (Turn.notified k) o

  notify_found-kept : (n : Option ℕ) (k : ℕ) (s : Trophonius) → P s → P (notify_found n k s)
  unfolding notify_found
  notify_found-kept none k s o = o
  notify_found-kept (some n) k s o = notify_user-kept n (find ◌==◌ n s.heap) k s refl o

  module _ (n : ℕ) (x : User) (s : Trophonius) (e : find ◌==◌ n s.heap ≡ some x) (o : P s) where
    turned : (y : User) → Turn x y → P (set_user n y s)
    turned y t = ind.changed n x y s e t o

    logged-kept : (d : Device) → x.connecting ≡ false → AllSome P (logged n x d s)
    unfolding logged
    logged-kept d c =
        if_cases (AllSome P) (has (λ k. k == n) s.pending) _ none (λ f. ind.entered n x d s e c f o)
          (λ f. tt)

    handle-kept : (p : Packet) → x.connecting ≡ false → AllSome P (handle n x p s)
    unfolding handle
    handle-kept p c =
        if_cases (AllSome P) p.notification_type _ _ (λ f. turned _ Turn.pings)
          (λ f. elim (Option-cases p.ids) [
            | inr (d, g) ↦ rw g (logged-kept d c)
            | inl g ↦ rw g (elim (Option-cases p.poke) [
              | inr (k, h) ↦ rw h (turned _ (Turn.pokes k))
              | inl h ↦ rw h (client_remove-kept n s o)
            ])
          ])

    answered-kept : (d : Device) (a : Answer) → x.connecting ≡ true → P (answered n x d a s)
    unfolding answered
    answered-kept d Answer.accepts c = ind.told _ _ (turned _ (Turn.accepts c))
    answered-kept d Answer.refuses c = client_remove-kept n _ (turned _ (Turn.refuses c))
    answered-kept d Answer.fails c = client_remove-kept n s o

    deliver-kept :
        (ks : List ℕ) → x.notifications ≡ ks → x.authentified ≡ true → AllSome P (deliver n x ks s)
    unfolding deliver
    deliver-kept [] h a = tt
    deliver-kept (k ∷ ks) h a = turned _ (Turn.delivers k ks a h)

    pong-kept : x.authentified ≡ true → P (pong n x s)
    unfolding pong
    pong-kept a =
        if_cases P x.pinged _ _ (λ f. turned _ (Turn.forgets a)) (λ f. client_remove-kept n s o)

    guarded :
        (b : Bool) (r : Option Trophonius)
        → (b ≡ true → AllSome P r)
        → AllSome P (if b then r else none)
    guarded b r h = if_cases (AllSome P) b r none h (λ f. tt)

    client_step-kept : (ev : Event) → AllSome P (client_step ev n x s)
    unfolding client_step
    client_step-kept Event.accepted = tt
    client_step-kept (Event.received m p) =
        if_cases (AllSome P) x.connecting none _ (λ f. tt) (handle-kept p)
    client_step-kept (Event.meta_answered m a) = guarded x.connecting _ (λ c.
        elim (Option-cases x.device) [ inl f ↦ rw f tt | inr (d, f) ↦ rw f (answered-kept d a c) ])
    client_step-kept (Event.broken m) = client_remove-kept n s o
    client_step-kept (Event.expired m) = guarded x.timeout _ (λ c. client_remove-kept n s o)
    client_step-kept (Event.pinging m) = guarded x.authentified _ (λ a. turned _ (Turn.watches a))
    client_step-kept (Event.ponged m) = guarded x.authentified _ pong-kept
    client_step-kept (Event.delivered m) =
        guarded x.authentified _ (deliver-kept x.notifications refl)
    client_step-kept (Event.left m) = tt
    client_step-kept (Event.notified d k) = tt
    client_step-kept Event.disconnected = tt

  client_turn-kept : (ev : Event) (n : ℕ) (s : Trophonius) → P s → AllSome P (client_turn ev n s)
  unfolding client_turn
  client_turn-kept ev n s o = elim (Option-cases (find ◌==◌ n s.heap)) [
    | inl e ↦ rw (e, client_turn) tt
    | inr (x, e) ↦
        rw (e, client_turn)
          (if_cases (AllSome P) (connected n s) _ none (λ f. client_step-kept n x s e o ev)
            (λ f. tt))
  ]

  step-kept_some : (e : Event) (s : Trophonius) → P s → AllSome P (step e s)
  unfolding step notify_device
  step-kept_some Event.accepted s o = ind.served s o
  step-kept_some (Event.received n p) s o = client_turn-kept (Event.received n p) n s o
  step-kept_some (Event.meta_answered n a) s o = client_turn-kept (Event.meta_answered n a) n s o
  step-kept_some (Event.broken n) s o = client_turn-kept (Event.broken n) n s o
  step-kept_some (Event.expired n) s o = client_turn-kept (Event.expired n) n s o
  step-kept_some (Event.pinging n) s o = client_turn-kept (Event.pinging n) n s o
  step-kept_some (Event.ponged n) s o = client_turn-kept (Event.ponged n) n s o
  step-kept_some (Event.delivered n) s o = client_turn-kept (Event.delivered n) n s o
  step-kept_some (Event.left n) s o = leave-kept n s o
  step-kept_some (Event.notified d k) s o = notify_found-kept (find_device d s.users) k s o
  step-kept_some Event.disconnected s o = ind.emptied s o

  step-kept : (e : Event) (s s' : Trophonius) → step e s ≡ some s' → P s → P s'
  step-kept e s s' h o = subst (AllSome P) h (step-kept_some e s o)

  pub Reach-kept : (s : Trophonius) → Reach s → P s
  Reach-kept s Reach.start = ind.initial
  Reach-kept s (Reach.later e r h) = step-kept e _ s h (Reach-kept _ r)
