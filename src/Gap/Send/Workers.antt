-- ===== src/Gap/Send/Workers.antt =====
-- PeerSendMachine.cc, `_cloud_operation`: the threads, what they hold and the least position that
-- they have put.
use infinit_io.Base.{
  ℕ, zero, suc, ◌+◌, ◌<◌, ◌≤◌, ◌≡◌, refl, Bool, true, false, ◌&&◌, List, [], ◌∷◌, arith, ltb, leb,
  ◌==◌, if◌then◌else◌, ◌⊎◌, if_cases, Bool-cases, inl, inr, subst,
}
use infinit_io.Gap.Send.Cloud.{
  Position, Work, idle, putting, returned, put, before, chunk_size, min_element, progress_from,
}
use infinit_io.Gap.Send.Cursor.{size_of}

-- A block of `chunk_size` bytes has a byte.
abbrev pub covers : ℕ → ℕ → Position → Bool
covers f p b = if f == b.0 then leb b.1 p && ltb p (b.1 + chunk_size) else false

abbrev pub holds : ℕ → ℕ → Work → Bool
holds f p idle = false
holds f p returned = false
holds f p (putting b) = covers f p b

abbrev pub is_returned : Work → Bool
is_returned returned = true
is_returned idle = false
is_returned (putting b) = false

module _ {ℓ} {A : Type ℓ} where
  pub put_inv :
      (i j : ℕ) (w x : A) (d : ℕ → A)
      → put i w d j ≡ x
      → ((i ≡ j) × (w ≡ x)) ⊎ (((i == j) ≡ false) × (d j ≡ x))
  unfolding put
  put_inv i j w x d h = ground arith

  pub put_self : (i : ℕ) (w : A) (d : ℕ → A) → put i w d i ≡ w
  unfolding put
  put_self i w d = ground arith

  pub put_ne : (i j : ℕ) (w : A) (d : ℕ → A) → (i == j) ≡ false → put i w d j ≡ d j
  unfolding put
  put_ne i j w d h = rw h refl

-- What a thread that goes on did not hold, another holds.
pub holds-put :
    (f p i j : ℕ) (w : Work) (d : ℕ → Work)
    → holds f p (d i) ≡ false
    → holds f p (d j) ≡ true
    → holds f p (put i w d j) ≡ true
unfolding put
holds-put f p i j w d h g = elim (Bool-cases (i == j)) [
  | inl e ↦
      let same : i ≡ j = ground arith in
      let no : holds f p (d j) ≡ false = subst (λ k. holds f p (d k) ≡ false) same h in ground arith
  | inr e ↦ rw e g
]

-- How many of the first threads have returned.
pub returns : (ℕ → Work) → ℕ → ℕ
returns doing zero = 0
returns doing (suc n) =
    let rest = returns doing n in if is_returned (doing n) then suc rest else rest

pub returns_le : (d : ℕ → Work) (n : ℕ) → returns d n ≤ n
unfolding returns
returns_le d zero = omega arith
returns_le d (suc n) = ground (arith, returns_le d n)

module _ (d : ℕ → Work) (i : ℕ) (running : is_returned (d i) ≡ false) where
  pub returns-put : (w : Work) (n : ℕ) → is_returned w ≡ false → returns (put i w d) n ≡ returns d n
  unfolding returns put
  returns-put w zero h = refl
  returns-put w (suc n) h = ground (arith, returns-put w n h)

  returns-put_above : (w : Work) (n : ℕ) → n ≤ i → returns (put i w d) n ≡ returns d n
  unfolding returns put
  returns-put_above w zero h = refl
  returns-put_above w (suc n) h = ground (arith, returns-put_above w n)

  pub returns-put_returned : (n : ℕ) → i < n → returns (put i returned d) n ≡ suc (returns d n)
  unfolding returns put
  returns-put_returned zero h = absurd (omega arith)
  returns-put_returned (suc n) h =
      ground (arith, returns-put_returned n, returns-put_above returned n)

-- What is not before one position is not before an earlier one.
before_trans : (a b c : Position) → before a b ≡ false → before c b ≡ true → before a c ≡ false
before_trans a b c h g = ground arith

pub min_element-le :
    (last : ℕ → Position) (n i : ℕ) → i ≤ n → before (last i) (min_element last n) ≡ false
unfolding min_element
min_element-le last zero i h =
    let same : 0 ≡ i = omega arith in
    subst (λ j. before (last j) (last 0) ≡ false) same (ground arith)
min_element-le last (suc n) i h = elim (Bool-cases (leb i n)) [
  | inl e ↦
      let best = min_element last n in
      let rest = min_element-le last n i (ground arith) in
      if_cases (λ b. before (last i) b ≡ false) (before (last (suc n)) best) (last (suc n)) best
        (λ g. before_trans (last i) best (last (suc n)) rest g) (λ g. rest)
  | inr e ↦
      let same : suc n ≡ i = ground arith in
      subst (λ j. before (last j) (min_element last (suc n)) ≡ false) same
        (let best = min_element last n in
          if_cases (λ b. before (last (suc n)) b ≡ false) (before (last (suc n)) best)
            (last (suc n)) best (λ g. ground arith) (λ g. g))
]

pub min_element-mem :
    (last : ℕ → Position) (n : ℕ) → (i : ℕ) × (i ≤ n) × (min_element last n ≡ last i)
unfolding min_element
min_element-mem last zero = (0, omega arith, refl)
min_element-mem last (suc n) =
    let best = min_element last n in
    if_cases (λ b. (i : ℕ) × (i ≤ suc n) × (b ≡ last i)) (before (last (suc n)) best) (last (suc n))
      best (λ g. (suc n, omega arith, refl))
      (λ g. let (i, le, e) = min_element-mem last n in (i, omega arith, e))

-- The offset among all bytes respects the order of positions.
-- The bytes of all files before a position, exactly.
unfoldable pub bytes_before : List (ℕ × ℕ) → ℕ → ℕ → ℕ
bytes_before [] f p = p
bytes_before ((size, progress) ∷ r) zero p = p
bytes_before ((size, progress) ∷ r) (suc f) p = size + bytes_before r f p

-- What the code adds up may have wrapped around, but is never more.
pub progress_from-le :
    (files : List (ℕ × ℕ)) (f p : ℕ) → progress_from files f p ≤ bytes_before files f p
unfolding progress_from bytes_before
progress_from-le [] f p = omega arith
progress_from-le ((size, progress) ∷ r) zero p = omega arith
progress_from-le ((size, progress) ∷ r) (suc f) p = omega (arith, progress_from-le r f p)

pub bytes_before-le :
    (files : List (ℕ × ℕ)) (f p g q : ℕ)
    → q ≤ size_of files g
    → before (f, p) (g, q) ≡ false
    → bytes_before files g q ≤ bytes_before files f p
unfolding bytes_before size_of
bytes_before-le [] f p g q h b = ground arith
bytes_before-le ((s, k) ∷ r) zero p zero q h b = ground arith
bytes_before-le ((s, k) ∷ r) zero p (suc g) q h b = absurd (ground arith)
bytes_before-le ((s, k) ∷ r) (suc f) p zero q h b = ground arith
bytes_before-le ((s, k) ∷ r) (suc f) p (suc g) q h b = ground (arith, bytes_before-le r f p g q h)
