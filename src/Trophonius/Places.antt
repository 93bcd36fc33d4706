-- ===== src/Trophonius/Places.antt =====
-- oracles/trophonius: the places in which the server keeps a client, and the addresses of the heap.
use infinit_io.Base.{
  ℕ, ◌+◌, ◌≤◌, ◌≡◌, refl, subst, inl, inr, true, Bool-cases, if_cases, Option-cases, ◌||◌, Option,
  none, some, List, [], ◌∷◌, map, ◌==◌, ==_iff, if◌then◌else◌, find, erase, assign, find-assign,
  find-erase, has, count, remove, count-remove_self, arith,
}
use infinit_io.Trophonius.User.{Device, User}
use infinit_io.Trophonius.Server.{
  delete_previous, Entry, Trophonius, is_client, is_device, find_device, insert_user,
  remove_previous, free_all,
}

unfoldable pub one_if : Option User → ℕ
one_if none = 0
one_if (some x) = 1

-- 1 for an address that is allocated.
unfoldable pub present : ℕ → List (ℕ × User) → ℕ
unfolding one_if
present m h = one_if (find ◌==◌ m h)

-- How often the server keeps the client `m`.
unfoldable pub places : ℕ → Trophonius → ℕ
places m s =
    count (is_client m) s.users + count (λ k. k == m) s.pending + count (λ k. k == m) s.leaving

-- New addresses are free.
unfoldable pub Sound : ℕ → Trophonius → Type 0
unfolding places present
Sound m s = (places m s ≤ present m s.heap) × (s.allocated ≤ m → present m s.heap ≡ 0)

pub key_eq : (j k : ℕ) → (j == k) ≡ true → j ≡ k
key_eq j k = (==_iff j k).0

pub present-assign :
    (n m : ℕ) (x : User) (h : List (ℕ × User))
    → present m (assign ◌==◌ n x h) ≡ (if n == m then 1 else present m h)
unfolding present
present-assign n m x h =
    rw (find-assign ◌==◌ key_eq n m x h)
      (elim (Bool-cases (n == m)) [ inl e ↦ rw e refl | inr e ↦ rw e refl ])

pub present-erase :
    (n m : ℕ) (h : List (ℕ × User))
    → present m (erase ◌==◌ n h) ≡ (if n == m then 0 else present m h)
unfolding present
present-erase n m h =
    rw (find-erase ◌==◌ key_eq n m h)
      (elim (Bool-cases (n == m)) [ inl e ↦ rw e refl | inr e ↦ rw e refl ])

pub present-some :
    (n : ℕ) (x : User) (h : List (ℕ × User)) → find ◌==◌ n h ≡ some x → present n h ≡ 1
unfolding present
present-some n x h e = rw e refl

pub present_le : (n : ℕ) (h : List (ℕ × User)) → present n h ≤ 1
unfolding present
present_le n h = elim (Option-cases (find ◌==◌ n h)) [
  | inl e ↦ rw e (omega arith)
  | inr (x, e) ↦ rw e (omega arith)
]

-- A client removed from a list is not in it.
pub users-removed :
    (n m : ℕ) (es : List Entry)
    → (n == m) ≡ true
    → count (is_client m) (remove (is_client n) es) ≡ 0
users-removed n m es h =
    subst (λ k. count (is_client k) (remove (is_client n) es) ≡ 0) (key_eq n m h)
      (count-remove_self (is_client n) es)

pub removed :
    (n m : ℕ) (ks : List ℕ) → (n == m) ≡ true → count (λ k. k == m) (remove (λ k. k == n) ks) ≡ 0
removed n m ks h =
    subst (λ j. count (λ k. k == j) (remove (λ k. k == n) ks) ≡ 0) (key_eq n m h)
      (count-remove_self (λ k. k == n) ks)

pub present-free_all_le :
    (m : ℕ) (ns : List ℕ) (h : List (ℕ × User)) → present m (free_all ns h) ≤ present m h
unfolding free_all
present-free_all_le m [] h = omega arith
present-free_all_le m (n ∷ ns) h =
    ground (arith, present-free_all_le m ns (erase ◌==◌ n h), present-erase n m h)

pub present-free_all :
    (m : ℕ) (ns : List ℕ) (h : List (ℕ × User))
    → count (λ k. k == m) ns ≡ 0
    → present m (free_all ns h) ≡ present m h
unfolding free_all count
present-free_all m [] h e = refl
present-free_all m (n ∷ ns) h e =
    ground (arith, present-free_all m ns (erase ◌==◌ n h), present-erase n m h)

pub count-clients :
    (m : ℕ) (es : List Entry)
    → count (λ k. k == m) (map (λ e. e.client) es) ≡ count (is_client m) es
unfolding count
count-clients m [] = refl
count-clients m (e ∷ es) = ground (arith, count-clients m es)

pub find_device-has :
    (d : Device) (n : ℕ) (es : List Entry) → find_device d es ≡ some n → has (is_client n) es ≡ true
unfolding find_device has
find_device-has d n [] h = ground arith
find_device-has d n (e ∷ es) h = ground (arith, find_device-has d n es)

pub remove_previous-pending :
    (d : Device) (s : Trophonius) → (remove_previous d s).pending ≡ s.pending
unfolding remove_previous delete_previous
remove_previous-pending d s = elim (Option-cases (find_device d s.users)) [
  | inl e ↦ rw e refl
  | inr (n, e) ↦ rw e refl
]

pub count-insert_user :
    (n m : ℕ) (d : Device) (es : List Entry)
    → count (is_client m) (insert_user n d es) ≤ count (is_client m) es + (if n == m then 1 else 0)
unfolding insert_user count
count-insert_user n m d es =
    if_cases (λ l. count (is_client m) l ≤ count (is_client m) es + (if n == m then 1 else 0))
      (has (is_client n) es || has (is_device d) es) es _ (λ e. omega arith) (λ e. ground arith)
