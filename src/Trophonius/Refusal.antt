-- ===== src/Trophonius/Refusal.antt =====
-- oracles/trophonius: a login that meta refuses.
use infinit_io.Base.{
  ℕ, ◌≤◌, ◌≡◌, refl, ap, ◌∙◌, true, false, none, some, List, [], ◌∷◌, ◌==◌, ==_iff, find,
  find-assign, has, count, remove, arith,
}
use infinit_io.Trophonius.User.{Device, User, Answer, Message, write, login}
use infinit_io.Trophonius.Server.{
  Entry, Trophonius, is_client, is_device, find_device, set_user, client_remove, answered,
  remove_previous, enter_users, connect, Event, connected, client_step, client_turn, step, Reach,
}
use infinit_io.Trophonius.Places.{key_eq, find_device-has}
use infinit_io.Trophonius.Devices.{count-remove_found, Reach-one}
use infinit_io.Trophonius.Login.{
  login_packet, step-login, connect-replaces, connect-deletes, connect-calls, pending_apart,
  previous_apart,
}
use infinit_io.Trophonius.Memory.{Reach-Sound}

find_device-none :
    (d : Device) (es : List Entry) → count (is_device d) es ≡ 0 → find_device d es ≡ none
unfolding find_device count
find_device-none d [] h = refl
find_device-none d (e ∷ es) h = ground (arith, find_device-none d es)

-- What is left of the server's state when the new connection is refused.
refused_state : ℕ → User → Trophonius → Trophonius
refused_state n x s = record (set_user n (write Message.refused x) s) {
  users = remove (is_client n) s.users;
  leaving = n ∷ s.leaving;
}

step-answered :
    (n : ℕ) (x : User) (d : Device) (a : Answer) (s : Trophonius)
    → find ◌==◌ n s.heap ≡ some (login d x)
    → has (is_client n) s.users ≡ true
    → step (Event.meta_answered n a) s ≡ some (answered n (login d x) d a s)
unfolding step client_turn client_step connected login
step-answered n x d a s e h = rw (e, client_turn, h) refl

answered-refused :
    (n : ℕ) (x : User) (d : Device) (s : Trophonius)
    → has (is_client n) s.users ≡ true
    → answered n x d Answer.refuses s ≡ refused_state n x s
unfolding answered client_remove refused_state set_user
answered-refused n x d s h = rw (h, client_remove) refl

connect-heap :
    (n : ℕ) (x : User) (d : Device) (s : Trophonius)
    → find ◌==◌ n (connect n x d s).heap ≡ some (login d x)
unfolding connect enter_users
connect-heap n x d s =
    rw (find-assign ◌==◌ key_eq n n (login d x) (remove_previous d s).heap, (==_iff n n).1 refl)
      refl

refused-gone :
    (n : ℕ) (x : User) (d : Device) (s : Trophonius)
    → find_device d s.users ≡ some n
    → count (is_device d) s.users ≤ 1
    → find_device d (refused_state n x s).users ≡ none
unfolding refused_state
refused-gone n x d s e o =
    find_device-none d (remove (is_client n) s.users)
      (omega (arith, o, count-remove_found d n s.users e))

refused-calls : (n : ℕ) (x : User) (s : Trophonius) → (refused_state n x s).calls ≡ s.calls
unfolding refused_state set_user
refused-calls n x s = refl

-- Where a device has a connection among the users, another client logs in as that device, and meta
-- refuses before anything else happens, the device has no connection any more: the previous one was
-- deleted, the new one is removed, and no call of meta about a device has gone through, neither one that
-- connects nor one that disconnects. The state is one that the server comes to, and the new client
-- had not logged in.
pub refused-disconnects :
    (n p : ℕ) (x : User) (d : Device) (s : Trophonius)
    → Reach s
    → find ◌==◌ n s.heap ≡ some x
    → x.connecting ≡ false
    → has (λ k. k == n) s.pending ≡ true
    → find_device d s.users ≡ some p
    → (s1 : Trophonius) × (s2 : Trophonius) × (step (Event.received n (login_packet d)) s ≡ some s1)
      × (step (Event.meta_answered n Answer.refuses) s1 ≡ some s2)
      × (find_device d s2.users ≡ none)
      × (find ◌==◌ p s1.heap ≡ none)
      × (s2.calls ≡ s.calls)
refused-disconnects n p x d s r e c h f =
    let apart = pending_apart n s (Reach-Sound s n r) h in
    let s1 = connect n x d s in
    let y = login d x in
    let now = connect-replaces n p x d s f apart (Reach-one s d r) in
    let kept = find_device-has d n s1.users now in
    let r1 = Reach.later (Event.received n (login_packet d)) r (step-login n x d s e c h) in
    (
      s1,
      refused_state n y s1,
      step-login n x d s e c h,
      step-answered n x d Answer.refuses s1 (connect-heap n x d s) kept
          ∙ ap some (answered-refused n y d s1 kept),
      refused-gone n y d s1 now (Reach-one s1 d r1),
      connect-deletes n p x d s f (previous_apart n p d s apart f),
      refused-calls n y s1 ∙ connect-calls n x d s,
    )
