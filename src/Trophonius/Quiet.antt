-- ===== src/Trophonius/Quiet.antt =====
-- oracles/trophonius: nothing is pushed to a client whose login has not been granted.
use infinit_io.Base.{
  ℕ, ◌≡◌, refl, sym, subst, ◌∙◌, inl, inr, Bool, true, false, Bool-cases, Option, none, some, List,
  [], ◌∷◌, ◌++◌, map, ◌==◌, if◌then◌else◌, find, erase, assign, find-assign, find-erase, has, arith,
}
use infinit_io.Trophonius.User.{Device, Message, User, new_user, write, notify, login, accept}
use infinit_io.Trophonius.Server.{
  Trophonius, new_trophonius, find_device, serve, set_user, free_all, delete_previous,
  remove_previous, enter_users, connect, disconnect_all_users, Reach,
}
use infinit_io.Trophonius.Invariant.{Turn, Inductive, Reach-kept}
use infinit_io.Trophonius.Places.{key_eq}

abbrev pub is_granted : Message → Bool
is_granted Message.granted = true
is_granted Message.refused = false
is_granted Message.ping = false
is_granted (Message.echo k) = false
is_granted (Message.notification k) = false

-- Pings and notifications come from the server.
abbrev pub is_push : Message → Bool
is_push Message.granted = false
is_push Message.refused = false
is_push Message.ping = true
is_push (Message.echo k) = false
is_push (Message.notification k) = true

-- What is pushed comes after the grant.
unfoldable pub orderly : List Message → Bool
orderly [] = true
orderly (m ∷ ms) =
    let rest = orderly ms in if is_granted m then true else if is_push m then false else rest

orderly-append :
    (ms : List Message) (m : Message)
    → orderly ms ≡ true
    → (is_push m ≡ true → has is_granted ms ≡ true)
    → orderly (ms ++ m ∷ []) ≡ true
unfolding orderly has
orderly-append [] m h g = elim (Bool-cases (is_push m)) [
  | inl e ↦ absurd (ground (arith, g e))
  | inr e ↦ rw e (ground arith)
]
orderly-append (Message.granted ∷ ms) m h g = refl
orderly-append (Message.refused ∷ ms) m h g = orderly-append ms m h g
orderly-append (Message.ping ∷ ms) m h g = absurd (ground (arith, h))
orderly-append (Message.echo k ∷ ms) m h g = orderly-append ms m h g
orderly-append (Message.notification k ∷ ms) m h g = absurd (ground (arith, h))

has-append : (ms ks : List Message) → has is_granted ms ≡ true → has is_granted (ms ++ ks) ≡ true
unfolding has
has-append [] ks h = ground arith
has-append (m ∷ ms) ks h = ground (arith, has-append ms ks)

has-append_new :
    (ms : List Message) (m : Message) → is_granted m ≡ true → has is_granted (ms ++ m ∷ []) ≡ true
unfolding has
has-append_new [] m h = rw h refl
has-append_new (k ∷ ms) m h = ground (arith, has-append_new ms m h)

-- What is written on a connection is in order, and the server pushes only on one that is granted.
unfoldable pub Orderly : User → Type 0
Orderly x = (orderly x.written ≡ true) × (x.authentified ≡ true → has is_granted x.written ≡ true)

write-Orderly :
    (m : Message) (x : User)
    → (is_push m ≡ true → x.authentified ≡ true)
    → Orderly x
    → Orderly (write m x)
unfolding Orderly write
write-Orderly m x g (a, b) =
    (orderly-append x.written m a (λ f. b (g f)), λ f. has-append x.written (m ∷ []) (b f))

Turn-Orderly : (x y : User) → Turn x y → Orderly x → Orderly y
unfolding Orderly write accept notify
Turn-Orderly x y Turn.pings o = o
Turn-Orderly x y (Turn.pokes k) o = write-Orderly (Message.echo k) x (λ e. absurd (ground arith)) o
Turn-Orderly x y (Turn.accepts c) (a, b) = (
  orderly-append x.written Message.granted a (λ e. absurd (ground arith)),
  λ f. has-append_new x.written Message.granted refl,
)
Turn-Orderly x y (Turn.refuses c) o = write-Orderly Message.refused x (λ e. absurd (ground arith)) o
Turn-Orderly x y (Turn.delivers k ks c e) o =
    write-Orderly (Message.notification k) (record x { notifications = ks }) (λ f. c) o
Turn-Orderly x y (Turn.watches c) o = write-Orderly Message.ping x (λ f. c) o
Turn-Orderly x y (Turn.forgets c) o = o
Turn-Orderly x y (Turn.notified k) o = o

unfoldable pub AllOrderly : List (ℕ × User) → Type 0
unfolding Orderly
AllOrderly h = (n : ℕ) (x : User) → find ◌==◌ n h ≡ some x → Orderly x

assign-AllOrderly :
    (n : ℕ) (y : User) (h : List (ℕ × User))
    → Orderly y
    → AllOrderly h
    → AllOrderly (assign ◌==◌ n y h)
unfolding AllOrderly
assign-AllOrderly n y h q o m x e =
    let f = sym (find-assign ◌==◌ key_eq n m y h) ∙ e in
    elim (Bool-cases (n == m)) [
      | inl g ↦ let same : y ≡ x = ground (arith, g, f) in subst Orderly same q
      | inr g ↦ o m x (ground (arith, g, f))
    ]

erase-AllOrderly : (n : ℕ) (h : List (ℕ × User)) → AllOrderly h → AllOrderly (erase ◌==◌ n h)
unfolding AllOrderly
erase-AllOrderly n h o m x e =
    let f = sym (find-erase ◌==◌ key_eq n m h) ∙ e in o m x (ground (arith, f))

free_all-AllOrderly :
    (ns : List ℕ) (h : List (ℕ × User)) → AllOrderly h → AllOrderly (free_all ns h)
unfolding free_all
free_all-AllOrderly [] h o = o
free_all-AllOrderly (n ∷ ns) h o = free_all-AllOrderly ns (erase ◌==◌ n h) (erase-AllOrderly n h o)

delete_previous-AllOrderly :
    (p : Option ℕ) (s : Trophonius) → AllOrderly s.heap → AllOrderly (delete_previous p s).heap
unfolding delete_previous
delete_previous-AllOrderly none s o = o
delete_previous-AllOrderly (some p) s o = erase-AllOrderly p s.heap o

login-Orderly : (d : Device) (x : User) → Orderly x → Orderly (login d x)
unfolding Orderly login
login-Orderly d x o = o

new_user-Orderly : Orderly new_user
unfolding Orderly new_user orderly
new_user-Orderly = (refl, λ e. absurd (ground (arith, e)))

at :
    (n : ℕ) (x : User) (s : Trophonius)
    → find ◌==◌ n s.heap ≡ some x
    → AllOrderly s.heap
    → Orderly x
unfolding AllOrderly
at n x s e o = o n x e

nobody : AllOrderly []
unfolding AllOrderly find
nobody n x e = absurd (ground (arith, e))

AllOrderly-Inductive : Inductive (λ s. AllOrderly s.heap)
unfolding serve set_user disconnect_all_users connect enter_users remove_previous new_trophonius
AllOrderly-Inductive = record {
  initial = nobody;
  told = λ cs s o. o;
  served = λ s o. assign-AllOrderly s.allocated new_user s.heap new_user-Orderly o;
  changed = λ n x y s e t o. assign-AllOrderly n y s.heap (Turn-Orderly x y t (at n x s e o)) o;
  user_removed = λ n s h o. o;
  pending_removed = λ n s h o. o;
  freed = λ n s h o. erase-AllOrderly n s.heap o;
  entered = λ n x d s e c h o.
      assign-AllOrderly n (login d x) (remove_previous d s).heap (login-Orderly d x (at n x s e o))
        (delete_previous-AllOrderly (find_device d s.users) s o);
  emptied = λ s o.
      free_all-AllOrderly s.pending _ (free_all-AllOrderly (map (λ e. e.client) s.users) s.heap o);
}

-- In every state that the server comes to, the server has pushed neither a ping nor a notification
-- to a client before it has written that its login is granted, and a client whose notifications are
-- being sent has been told so.
pub Reach-Orderly :
    (s : Trophonius) (n : ℕ) (x : User) → Reach s → find ◌==◌ n s.heap ≡ some x → Orderly x
unfolding AllOrderly
Reach-Orderly s n x r e = Reach-kept (λ t. AllOrderly t.heap) AllOrderly-Inductive s r n x e
