-- ===== src/Station/Alone.antt =====
-- Station.cc: a master's negotiations with one peer exclude each other.
use infinit_io.Base.{
  ℕ, ◌≡◌, inl, inr, refl, subst, Bool, Bool-cases, true, false, ◌==◌, ◌&&◌, ltb, if◌then◌else◌,
  if_cases, arith,
}
use infinit_io.Station.Negotiation.{
  Result, connected, already, asserts, Stage, connecting, waits, negotiates, done, Station, set,
  is_master, goes_to, begin, admit, check_already, pop_negotiation, finish, add_host,
}

-- A master that waits for the answer of a peer.
unfoldable pub leads : ℕ → ℕ → Stage → Bool
leads p r (negotiates q v) = (q == r) && ltb p q
leads p r connecting = false
leads p r (waits q v) = false
leads p r (done x) = false

unfoldable pub is_asserts : Stage → Bool
is_asserts (done asserts) = true
is_asserts _ = false

pub record Alone (s : Station) : Type 0 where
  pub marked : (i r : ℕ) → leads s.passport r (s.threads i) ≡ true → s.negotiating r ≡ true
  pub one :
      (i j r : ℕ)
      → leads s.passport r (s.threads i) ≡ true
      → leads s.passport r (s.threads j) ≡ true
      → i ≡ j
  pub apart : (i r : ℕ) → leads s.passport r (s.threads i) ≡ true → s.hosts r ≡ false
  pub sound : (i : ℕ) → is_asserts (s.threads i) ≡ false
  pub led : (r : ℕ) → s.negotiating r ≡ true → (i : ℕ) × (leads s.passport r (s.threads i) ≡ true)

-- A stage in which nobody leads.
abbrev pub IsIdle : ℕ → Stage → Type 0
IsIdle p x = (r : ℕ) → leads p r x ≡ false

pub goes_to-Alone :
    (i : ℕ) (x : Stage) (s : Station)
    → Alone s
    → IsIdle s.passport (s.threads i)
    → IsIdle s.passport x
    → is_asserts x ≡ false
    → Alone (goes_to i x s)
unfolding goes_to set
goes_to-Alone i x s w idle still fine = record {
  marked = λ j r h. ground (arith, w.marked j r, still r);
  one = λ j k r g h. ground (arith, w.one j k r, still r);
  apart = λ j r h. ground (arith, w.apart j r, still r);
  sound = λ j. ground (arith, w.sound j);
  led = λ r h.
      let (j, l) = w.led r h in
      (
        j,
        elim (Bool-cases (i == j)) [
          | inl e ↦ absurd (
              ground (
                arith,
                subst (λ k. leads s.passport r (s.threads k) ≡ false) {x = i} {y = j} (ground arith)
                    (idle r),
              ))
          | inr e ↦ ground arith
        ],
      );
}

begin-Alone :
    (i r : ℕ) (v : Bool) (s : Station)
    → Alone s
    → IsIdle s.passport (s.threads i)
    → s.negotiating r ≡ false
    → s.hosts r ≡ false
    → is_master r s ≡ true
    → Alone (begin i r v s)
unfolding begin goes_to set is_master leads is_asserts
begin-Alone i r v s w idle free away m = record {
  marked = λ j q h. ground (arith, w.marked j q);
  one = λ j k q g h. ground (arith, w.one j k q, w.marked j q, w.marked k q);
  apart = λ j q h. ground (arith, w.apart j q);
  sound = λ j. ground (arith, w.sound j);
  led = λ q h. elim (Bool-cases (r == q)) [
    | inl e ↦ (i, ground arith)
    | inr e ↦
        let (j, l) = w.led q (ground arith) in
        (
          j,
          elim (Bool-cases (i == j)) [
            | inl e ↦ absurd (
                ground (
                  arith,
                  subst (λ k. leads s.passport q (s.threads k) ≡ false) {x = i} {y = j}
                      (ground arith) (idle q),
                ))
            | inr e ↦ ground arith
          ],
        )
  ];
}

popped :
    (r q : ℕ) (s : Station)
    → pop_negotiation r s q ≡ (if (r == q) && is_master r s then false else s.negotiating q)
unfolding pop_negotiation set
popped r q s =
    if_cases
      (λ (f : ℕ → Bool). f q ≡ (if (r == q) && is_master r s then false else s.negotiating q))
      (is_master r s) (set r false s.negotiating) s.negotiating (λ m. ground arith)
      (λ m. ground arith)

-- The end of a negotiation, where the thread leads for no other peer.
pub finish-Alone :
    (i r : ℕ) (x : Result) (s : Station)
    → Alone s
    → ((q : ℕ) → leads s.passport q (s.threads i) ≡ ((r == q) && is_master r s))
    → is_asserts (done x) ≡ false
    → Alone (finish i r x s)
unfolding finish goes_to set leads
finish-Alone i r x s w his fine = record {
  marked = λ j q h. ground (arith, w.marked j q, popped r q s, his q, w.one i j q);
  one = λ j k q g h. ground (arith, w.one j k q);
  apart = λ j q h. ground (arith, w.apart j q);
  sound = λ j. ground (arith, w.sound j);
  led = λ q h.
      let (j, l) = w.led q (ground (arith, popped r q s)) in
      (
        j,
        elim (Bool-cases (i == j)) [
          | inl e ↦ absurd (
              ground (
                arith,
                popped r q s,
                his q,
                subst (λ k. leads s.passport q (s.threads k) ≡ true) {x = j} {y = i} (ground arith)
                    l,
              ))
          | inr e ↦ ground arith
        ],
      );
}

with_host-Alone :
    (r : ℕ) (s : Station)
    → Alone s
    → ((i : ℕ) → leads s.passport r (s.threads i) ≡ false)
    → Alone (record s { hosts = set r true s.hosts })
unfolding set
with_host-Alone r s w nobody = record {
  marked = w.marked;
  one = w.one;
  apart = λ i q h. elim (Bool-cases (r == q)) [
    | inl e ↦ absurd (
        ground (
          arith,
          h,
          subst (λ k. leads s.passport k (s.threads i) ≡ false) {x = r} {y = q} (ground arith)
              (nobody i),
        ))
    | inr e ↦ ground (arith, w.apart i q h)
  ];
  sound = w.sound;
  led = w.led;
}

pub removes-Alone :
    (r : ℕ) (s : Station) → Alone s → Alone (record s { hosts = set r false s.hosts })
unfolding set
removes-Alone r s w = record {
  marked = w.marked;
  one = w.one;
  apart = λ i q h. ground (arith, w.apart i q h);
  sound = w.sound;
  led = w.led;
}

negotiates-IsIdle :
    (r : ℕ) (v : Bool) (s : Station) → is_master r s ≡ false → IsIdle s.passport (negotiates r v)
unfolding is_master leads
negotiates-IsIdle r v s m = λ q. ground arith

admit-Alone :
    (i r : ℕ) (v : Bool) (s : Station)
    → Alone s
    → IsIdle s.passport (s.threads i)
    → s.hosts r ≡ false
    → Alone (admit i r v s)
unfolding admit leads is_asserts
admit-Alone i r v s w idle away =
    if_cases Alone (is_master r s) _ _
      (λ m.
        if_cases Alone (s.negotiating r) (goes_to i (waits r v) s) (begin i r v s)
          (λ _. goes_to-Alone i (waits r v) s w idle (λ q. refl) refl)
          (λ free. begin-Alone i r v s w idle free away m))
      (λ m. goes_to-Alone i (negotiates r v) s w idle (negotiates-IsIdle r v s m) refl)

pub check_already-Alone :
    (i r : ℕ) (v : Bool) (s : Station)
    → Alone s
    → IsIdle s.passport (s.threads i)
    → Alone (check_already i r v s)
unfolding check_already leads is_asserts
check_already-Alone i r v s w idle =
    if_cases Alone (s.hosts r) _ _ (λ _. goes_to-Alone i (done already) s w idle (λ q. refl) refl)
      (λ away. admit-Alone i r v s w idle away)

-- What the thread leads that negotiates with a peer.
abbrev pub Negotiates : ℕ → ℕ → Station → Type 0
Negotiates i r s = (q : ℕ) → leads s.passport q (s.threads i) ≡ ((r == q) && is_master r s)

-- Once this thread is done nobody leads for its peer.
unled :
    (i r j : ℕ) (s : Station)
    → Alone s
    → Negotiates i r s
    → leads s.passport r (set i (done connected) s.threads j) ≡ false
unfolding set leads is_master
unled i r j s w his = elim (Bool-cases (leads s.passport r (s.threads j))) [
  | inl l ↦ elim (Bool-cases (is_master r s)) [
    | inl m ↦ ground (arith, w.one i j r (ground (arith, his r)) l)
    | inr m ↦ absurd (grind arith)
  ]
  | inr n ↦ ground arith
]

pub add_host-Alone : (i r : ℕ) (s : Station) → Alone s → Negotiates i r s → Alone (add_host i r s)
unfolding add_host finish pop_negotiation is_master goes_to is_asserts
add_host-Alone i r s w his =
    with_host-Alone r (finish i r connected s) (finish-Alone i r connected s w his refl)
      (λ j. unled i r j s w his)
