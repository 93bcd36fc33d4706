-- ===== src/Trophonius/Memory.antt =====
-- oracles/trophonius: every client that the server keeps is allocated, and kept in one place.
use infinit_io.Base.{
  ℕ, ◌≤◌, ◌≡◌, refl, subst, inl, inr, true, Bool-cases, Option, none, some, ◌∷◌, map, ◌==◌, find,
  erase, has, count, remove, count-has, count-has_not, count-remove, arith,
}
use infinit_io.Trophonius.User.{Device, User, new_user, login}
use infinit_io.Trophonius.Server.{
  delete_previous, enter_users, Trophonius, new_trophonius, is_client, find_device, serve, set_user,
  remove_previous, connect, free_all, disconnect_all_users, Reach,
}
use infinit_io.Trophonius.Invariant.{Inductive, Reach-kept}
use infinit_io.Trophonius.Places.{
  present, places, Sound, key_eq, present-assign, present-erase, present-some, present_le,
  users-removed, removed, present-free_all_le, present-free_all, count-clients, find_device-has,
  remove_previous-pending, count-insert_user, one_if,
}

unfoldable pub AllSound : Trophonius → Type 0
unfolding Sound
AllSound s = (m : ℕ) → Sound m s

serve-AllSound : (s : Trophonius) → AllSound s → AllSound (serve s)
unfolding AllSound Sound serve places count
serve-AllSound s o m =
    let (a, b) = o m in
    (
      ground (arith, a, b, present-assign s.allocated m new_user s.heap),
      λ h. ground (arith, b, h, present-assign s.allocated m new_user s.heap),
    )

set_user-AllSound :
    (n : ℕ) (x y : User) (s : Trophonius)
    → find ◌==◌ n s.heap ≡ some x
    → AllSound s
    → AllSound (set_user n y s)
unfolding AllSound Sound set_user places
set_user-AllSound n x y s e o m =
    let (a, b) = o m in
    (
      ground (arith, a, b, present_le m s.heap, present-assign n m y s.heap),
      λ h. ground (arith, b h, present-some n x s.heap e, present-assign n m y s.heap),
    )

users_to_leaving :
    (n : ℕ) (s : Trophonius)
    → has (is_client n) s.users ≡ true
    → AllSound s
    → AllSound (record s { users = remove (is_client n) s.users; leaving = n ∷ s.leaving })
unfolding AllSound Sound places count
users_to_leaving n s h o m =
    let (a, b) = o m in
    (
      elim (Bool-cases (n == m)) [
        | inl e ↦
            let k : n ≡ m = key_eq n m e in
            ground (
              arith,
              a,
              users-removed n m s.users e,
              subst (λ j. 1 ≤ count (is_client j) s.users) k (count-has (is_client n) s.users h),
            )
        | inr e ↦ ground (arith, a, e, count-remove (is_client m) (is_client n) s.users)
      ],
      b,
    )

pending_to_leaving :
    (n : ℕ) (s : Trophonius)
    → has (λ k. k == n) s.pending ≡ true
    → AllSound s
    → AllSound (record s { pending = remove (λ k. k == n) s.pending; leaving = n ∷ s.leaving })
unfolding AllSound Sound places count
pending_to_leaving n s h o m =
    let (a, b) = o m in
    (
      elim (Bool-cases (n == m)) [
        | inl e ↦
            let k : n ≡ m = key_eq n m e in
            ground (
              arith,
              a,
              removed n m s.pending e,
              subst (λ j. 1 ≤ count (λ k. k == j) s.pending) k
                  (count-has (λ k. k == n) s.pending h),
            )
        | inr e ↦ ground (arith, a, e, count-remove (λ k. k == m) (λ k. k == n) s.pending)
      ],
      b,
    )

freed_leaving :
    (n : ℕ) (s : Trophonius)
    → has (λ k. k == n) s.leaving ≡ true
    → AllSound s
    → AllSound (record s { leaving = remove (λ k. k == n) s.leaving; heap = erase ◌==◌ n s.heap })
unfolding AllSound Sound places
freed_leaving n s h o m =
    let (a, b) = o m in
    (
      elim (Bool-cases (n == m)) [
        | inl e ↦
            let k : n ≡ m = key_eq n m e in
            ground (
              arith,
              a,
              present_le m s.heap,
              present-erase n m s.heap,
              removed n m s.leaving e,
              subst (λ j. 1 ≤ count (λ k. k == j) s.leaving) k
                  (count-has (λ k. k == n) s.leaving h),
            )
        | inr e ↦ ground (
          arith,
          a,
          e,
          present-erase n m s.heap,
          count-remove (λ k. k == m) (λ k. k == n) s.leaving,
        )
      ],
      λ f. ground (arith, b f, present-erase n m s.heap),
    )

freed_user :
    (n : ℕ) (s : Trophonius)
    → has (is_client n) s.users ≡ true
    → AllSound s
    → AllSound (record s { users = remove (is_client n) s.users; heap = erase ◌==◌ n s.heap })
unfolding AllSound Sound places
freed_user n s h o m =
    let (a, b) = o m in
    (
      elim (Bool-cases (n == m)) [
        | inl e ↦
            let k : n ≡ m = key_eq n m e in
            ground (
              arith,
              a,
              present_le m s.heap,
              present-erase n m s.heap,
              users-removed n m s.users e,
              subst (λ j. 1 ≤ count (is_client j) s.users) k (count-has (is_client n) s.users h),
            )
        | inr e ↦ ground (
          arith,
          a,
          e,
          present-erase n m s.heap,
          count-remove (is_client m) (is_client n) s.users,
        )
      ],
      λ f. ground (arith, b f, present-erase n m s.heap),
    )

delete_previous-AllSound :
    (d : Device) (o : Option ℕ) (s : Trophonius)
    → find_device d s.users ≡ o
    → AllSound s
    → AllSound (delete_previous o s)
unfolding delete_previous
delete_previous-AllSound d none s e o = o
delete_previous-AllSound d (some n) s e o = freed_user n s (find_device-has d n s.users e) o

remove_previous-AllSound :
    (d : Device) (s : Trophonius) → AllSound s → AllSound (remove_previous d s)
unfolding remove_previous
remove_previous-AllSound d s o = delete_previous-AllSound d (find_device d s.users) s refl o

enter_users-AllSound :
    (n : ℕ) (x : User) (d : Device) (t : Trophonius)
    → has (λ k. k == n) t.pending ≡ true
    → AllSound t
    → AllSound (enter_users n x d t)
unfolding enter_users AllSound Sound places
enter_users-AllSound n x d t h o m =
    let (a, b) = o m in
    let new = present-assign n m (login d x) t.heap in
    let one = λ (k : n ≡ m).
      subst (λ j. 1 ≤ count (λ k. k == j) t.pending) k (count-has (λ k. k == n) t.pending h) in
    (
      elim (Bool-cases (n == m)) [
        | inl e ↦ ground (
          arith,
          a,
          new,
          removed n m t.pending e,
          present_le m t.heap,
          count-insert_user n m d t.users,
          one (key_eq n m e),
        )
        | inr e ↦ ground (
          arith,
          a,
          e,
          new,
          count-remove (λ k. k == m) (λ k. k == n) t.pending,
          count-insert_user n m d t.users,
        )
      ],
      λ f. elim (Bool-cases (n == m)) [
        | inl e ↦ absurd (ground (arith, a, b f, one (key_eq n m e)))
        | inr e ↦ ground (arith, b f, new)
      ],
    )

connect-AllSound :
    (n : ℕ) (x : User) (d : Device) (s : Trophonius)
    → has (λ k. k == n) s.pending ≡ true
    → AllSound s
    → AllSound (connect n x d s)
unfolding connect
connect-AllSound n x d s h o =
    enter_users-AllSound n x d (remove_previous d s) (rw (remove_previous-pending d s) h)
      (remove_previous-AllSound d s o)

disconnect_all_users-AllSound : (s : Trophonius) → AllSound s → AllSound (disconnect_all_users s)
unfolding disconnect_all_users AllSound Sound places count
disconnect_all_users-AllSound s o m =
    let (a, b) = o m in
    let clients = map (λ e. e.client) s.users in
    let first = free_all clients s.heap in
    let less = present-free_all_le m clients s.heap in
    let less2 = present-free_all_le m s.pending first in
    let many = count-clients m s.users in
    (
      elim (Bool-cases (has (λ k. k == m) s.leaving)) [
        | inl e ↦
            let left = count-has (λ k. k == m) s.leaving e in
            let nothing : (count (λ k. k == m) clients ≡ 0) × (count (λ k. k == m) s.pending ≡ 0) =
              (
                omega (arith, a, left, many, present_le m s.heap),
                omega (arith, a, left, present_le m s.heap),
              ) in
            omega (
              arith,
              a,
              present-free_all m s.pending first nothing.1,
              present-free_all m clients s.heap nothing.0,
            )
        | inr e ↦ omega (arith, count-has_not (λ k. k == m) s.leaving e)
      ],
      λ f. omega (arith, b f, less, less2),
    )

initial-AllSound : AllSound new_trophonius
unfolding new_trophonius AllSound Sound places count present find one_if
initial-AllSound m = (omega arith, λ h. refl)

AllSound-Inductive : Inductive AllSound
unfolding AllSound
AllSound-Inductive = record {
  initial = initial-AllSound;
  told = λ cs s o. o;
  served = serve-AllSound;
  changed = λ n x y s e t o. set_user-AllSound n x y s e o;
  user_removed = users_to_leaving;
  pending_removed = pending_to_leaving;
  freed = freed_leaving;
  entered = λ n x d s e c h o. connect-AllSound n x d s h o;
  emptied = disconnect_all_users-AllSound;
}

-- In every state that the server comes to, where no client sends its login twice, a client that the
-- server keeps is allocated and is kept once: among the users, among those that have not logged in
-- or among those that are to be deleted; and the addresses to come are free.
pub Reach-Sound : (s : Trophonius) (m : ℕ) → Reach s → Sound m s
unfolding AllSound
Reach-Sound s m r = Reach-kept AllSound AllSound-Inductive s r m
