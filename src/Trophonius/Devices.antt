-- ===== src/Trophonius/Devices.antt =====
-- oracles/trophonius: a device has at most one connection among the users, the last that logged in.
use infinit_io.Base.{
  ℕ, suc, ◌≤◌, ◌≡◌, refl, inl, inr, true, Bool-cases, if_cases, ◌||◌, Option, none, some, List, [],
  ◌∷◌, ==_iff, has, count, remove, count-has_not, count-remove, arith,
}
use infinit_io.Trophonius.User.{Device, User}
use infinit_io.Trophonius.Server.{
  Entry, Trophonius, new_trophonius, same_device, is_client, is_device, find_device, insert_user,
  serve, set_user, delete_previous, remove_previous, enter_users, connect, disconnect_all_users,
  Reach,
}
use infinit_io.Trophonius.Invariant.{Inductive, Reach-kept}

pub same_device_self : (d : Device) → same_device d d ≡ true
same_device_self d =
    ground (arith, (==_iff d.user_id d.user_id).1 refl, (==_iff d.device_id d.device_id).1 refl)

same_device_congr : (a b c : Device) → same_device a b ≡ true → same_device c a ≡ same_device c b
same_device_congr a b c h = ground arith

count-same :
    (a b : Device) (es : List Entry)
    → same_device a b ≡ true
    → count (is_device a) es ≡ count (is_device b) es
unfolding count
count-same a b [] h = refl
count-same a b (e ∷ es) h = rw (same_device_congr a b e.device h, count-same a b es h) refl

pub count-remove_found :
    (d : Device) (p : ℕ) (es : List Entry)
    → find_device d es ≡ some p
    → suc (count (is_device d) (remove (is_client p) es)) ≤ count (is_device d) es
unfolding find_device count remove
count-remove_found d p [] h = ground arith
count-remove_found d p (e ∷ es) h = ground (
  arith,
  count-remove_found d p es,
  count-remove (is_device d) (is_client p) es,
  (==_iff p p).1 refl,
)

unfoldable pub OnePerDevice : Trophonius → Type 0
OnePerDevice s = (d : Device) → count (is_device d) s.users ≤ 1

count-insert :
    (n : ℕ) (d c : Device) (es : List Entry)
    → count (is_device c) es ≤ 1
    → count (is_device c) (insert_user n d es) ≤ 1
unfolding insert_user count
count-insert n d c es h =
    if_cases (λ l. count (is_device c) l ≤ 1) (has (is_client n) es || has (is_device d) es) es _
      (λ e. h)
      (λ e. elim (Bool-cases (same_device d c)) [
        | inl f ↦
            rw f (omega (arith, count-same d c es f, count-has_not (is_device d) es (ground arith)))
        | inr f ↦ rw f h
      ])

delete_previous-OnePerDevice :
    (p : Option ℕ) (s : Trophonius) → OnePerDevice s → OnePerDevice (delete_previous p s)
unfolding delete_previous OnePerDevice
delete_previous-OnePerDevice none s o = o
delete_previous-OnePerDevice (some p) s o =
    λ c. omega (arith, o c, count-remove (is_device c) (is_client p) s.users)

connect-OnePerDevice :
    (n : ℕ) (x : User) (d : Device) (s : Trophonius)
    → OnePerDevice s
    → OnePerDevice (connect n x d s)
unfolding connect enter_users OnePerDevice remove_previous
connect-OnePerDevice n x d s o c =
    let p = find_device d s.users in
    count-insert n d c (delete_previous p s).users (delete_previous-OnePerDevice p s o c)

OnePerDevice-Inductive : Inductive OnePerDevice
unfolding OnePerDevice new_trophonius count serve set_user disconnect_all_users
OnePerDevice-Inductive = record {
  initial = λ d. omega arith;
  told = λ cs s o. o;
  served = λ s o. o;
  changed = λ n x y s e t o. o;
  user_removed = λ n s h o d. omega (arith, o d, count-remove (is_device d) (is_client n) s.users);
  pending_removed = λ n s h o. o;
  freed = λ n s h o. o;
  entered = λ n x d s e c h o. connect-OnePerDevice n x d s o;
  emptied = λ s o d. omega arith;
}

-- In every state that the server comes to, where no client sends its login twice, a device has at
-- most one connection among the users.
pub Reach-one : (s : Trophonius) (d : Device) → Reach s → count (is_device d) s.users ≤ 1
unfolding OnePerDevice
Reach-one s d r = Reach-kept OnePerDevice OnePerDevice-Inductive s r d
