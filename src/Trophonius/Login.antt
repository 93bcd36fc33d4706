-- ===== src/Trophonius/Login.antt =====
-- oracles/trophonius: a login of a device that has a connection already.
use infinit_io.Base.{
  ℕ, ◌≤◌, ◌≡◌, refl, sym, subst, inl, inr, true, false, Bool-cases, Option-cases, ◌||◌, none, some,
  List, ◌==◌, ==_iff, find, erase, find-assign, find-erase, has, count, remove, count-has,
  count-remove, has-count_zero, arith,
}
use infinit_io.Trophonius.User.{Device, User, Packet, login}
use infinit_io.Trophonius.Server.{
  Entry, Trophonius, is_client, is_device, find_device, insert_user, delete_previous,
  remove_previous, enter_users, connect, logged, handle, Event, connected, client_step, client_turn,
  step,
}
use infinit_io.Trophonius.Places.{present_le, Sound, places, key_eq, find_device-has}
use infinit_io.Trophonius.Devices.{same_device_self, count-remove_found}

-- A packet that is a login of a device.
abbrev pub login_packet : Device → Packet
login_packet d = record { notification_type = false; ids = some d; poke = none }

pub step-login :
    (n : ℕ) (x : User) (d : Device) (s : Trophonius)
    → find ◌==◌ n s.heap ≡ some x
    → x.connecting ≡ false
    → has (λ k. k == n) s.pending ≡ true
    → step (Event.received n (login_packet d)) s ≡ some (connect n x d s)
unfolding step client_turn client_step handle logged connected
step-login n x d s e c h =
    let live : (has (is_client n) s.users || has (λ k. k == n) s.pending) ≡ true =
      ground (arith, h) in
    rw (e, client_turn, live, c, h) refl

find_device-insert :
    (n : ℕ) (d : Device) (es : List Entry)
    → has (is_client n) es ≡ false
    → has (is_device d) es ≡ false
    → find_device d (insert_user n d es) ≡ some n
unfolding insert_user find_device
find_device-insert n d es h g = rw (h, g, same_device_self d) refl

pub connect-replaces :
    (n p : ℕ) (x : User) (d : Device) (s : Trophonius)
    → find_device d s.users ≡ some p
    → count (is_client n) s.users ≡ 0
    → count (is_device d) s.users ≤ 1
    → find_device d (connect n x d s).users ≡ some n
unfolding connect enter_users remove_previous delete_previous
connect-replaces n p x d s e a b =
    rw (e, connect, enter_users, remove_previous, delete_previous)
      (find_device-insert n d (remove (is_client p) s.users)
        (has-count_zero (is_client n) _
          (omega (arith, a, count-remove (is_client n) (is_client p) s.users)))
        (has-count_zero (is_device d) _ (omega (arith, b, count-remove_found d p s.users e))))

pub connect-deletes :
    (n p : ℕ) (x : User) (d : Device) (s : Trophonius)
    → find_device d s.users ≡ some p
    → (n == p) ≡ false
    → find ◌==◌ p (connect n x d s).heap ≡ none
unfolding connect enter_users remove_previous delete_previous
connect-deletes n p x d s e ne =
    rw
      (
        e,
        connect,
        enter_users,
        remove_previous,
        delete_previous,
        find-assign ◌==◌ key_eq n p (login d x) (erase ◌==◌ p s.heap),
        ne,
        find-erase ◌==◌ key_eq p p s.heap,
        (==_iff p p).1 refl,
      )
      refl

pub connect-calls :
    (n : ℕ) (x : User) (d : Device) (s : Trophonius) → (connect n x d s).calls ≡ s.calls
unfolding connect enter_users remove_previous delete_previous
connect-calls n x d s = elim (Option-cases (find_device d s.users)) [
  | inl e ↦ rw e refl
  | inr (p, e) ↦ rw e refl
]

-- A client that has not logged in is not among the users, and is not the previous one.
pub pending_apart :
    (n : ℕ) (s : Trophonius)
    → Sound n s
    → has (λ k. k == n) s.pending ≡ true
    → count (is_client n) s.users ≡ 0
unfolding Sound places
pending_apart n s (a, b) h =
    omega (arith, a, present_le n s.heap, count-has (λ k. k == n) s.pending h)

pub previous_apart :
    (n p : ℕ) (d : Device) (s : Trophonius)
    → count (is_client n) s.users ≡ 0
    → find_device d s.users ≡ some p
    → (n == p) ≡ false
previous_apart n p d s a e = elim (Bool-cases (n == p)) [
  | inr f ↦ f
  | inl f ↦
      let one = count-has (is_client p) s.users (find_device-has d p s.users e) in
      absurd
        (omega (arith, a, subst (λ k. 1 ≤ count (is_client k) s.users) (sym (key_eq n p f)) one))
]
