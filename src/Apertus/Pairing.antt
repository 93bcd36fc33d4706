-- ===== src/Apertus/Pairing.antt =====
-- oracles/apertus: the server as a meeting point. Of the server's state, a client sees who waits
-- under which identifier, and who has met whom.
use mathlib.Core.Path.{fun_ext}
use infinit_io.Base.{
  if_cases, ℕ, ◌≡◌, refl, sym, ap, ◌∙◌, inl, inr, Bool, true, Bool-cases, AllSome, Option, none,
  some, List, [], ◌∷◌, ◌==◌, if◌then◌else◌, subst, Option-cases, find, erase, assign, find-assign,
  find-erase, arith,
}
use infinit_io.Apertus.Greeting.{Bytes, Tid, read_greeting}
use infinit_io.Apertus.State.{
  Transfer, kick_all, destroy, deadline, timer_runs, Accepter, Apertus, same_tid, unregister, serve,
  take_from_accepters, handle, connect, transfer_remove, stop, Event, greeted, step,
}

pub same_tid_eq : (j k : Tid) → same_tid j k ≡ true → j ≡ k
unfolding same_tid
same_tid_eq [] [] h = refl
same_tid_eq [] (b ∷ bs) h = ground arith
same_tid_eq (a ∷ ks) [] h = ground arith
same_tid_eq (a ∷ ks) (b ∷ bs) h =
    let e : a ≡ b = ground arith in
    ap (λ x. x ∷ ks) e ∙ ap (◌∷◌ b) (same_tid_eq ks bs (ground arith))

pub same_tid_self : (t : Tid) → same_tid t t ≡ true
unfolding same_tid
same_tid_self [] = refl
same_tid_self (b ∷ bs) = ground (arith, same_tid_self bs)

-- Who waits under an identifier, and the pairs that have met, the last first.
pub record Meeting : Type 0 where
  pub board : Tid → Option ℕ
  pub met : List (Tid × ℕ × ℕ)

unfoldable pub post : Tid → Option ℕ → (Tid → Option ℕ) → Tid → Option ℕ
post t v b u = if same_tid t u then v else b u

-- What the meeting point is asked.
pub data Request : Type 0 where
  nothing : Request
  arrival : Tid → ℕ → Request
  closing : Request

-- The first who comes under an identifier waits, and the second meets it; on a closing, those who
-- wait are sent away.
unfoldable pub answer : Request → Meeting → Meeting
unfolding post
answer Request.nothing p = p
answer (Request.arrival t n) p = elim (p.board t) [
  | none ↦ record { board = post t (some n) p.board; met = p.met }
  | some m ↦ record { board = post t none p.board; met = (t, n, m) ∷ p.met }
]
answer Request.closing p = record { board = λ t. none; met = p.met }

unfoldable pub arrival_of : Option Accepter → Option (Bool × Tid × Bytes) → Request
arrival_of none g = Request.nothing
arrival_of (some x) none = Request.nothing
arrival_of (some x) (some (sync, tid, rest)) = Request.arrival tid x.client

-- What an event asks: a greeting that has been read is an arrival.
unfoldable pub request : Event → Apertus → Request
unfolding arrival_of
request (Event.greeting_read a bs) s = arrival_of (find ◌==◌ a s.handled) (read_greeting bs)
request Event.stopped s = Request.closing
request e s = Request.nothing

unfoldable pub socket_of : Option Accepter → Option ℕ
socket_of none = none
socket_of (some x) = some x.client

unfoldable pub view : Apertus → Meeting
unfolding socket_of
view s = record { board = λ t. socket_of (find same_tid t s.clients); met = s.met }

-- Two states that answer to a request.
unfoldable pub Answers : Request → Apertus → Apertus → Type 0
unfolding view answer
Answers r s s' = view s' ≡ answer r (view s)

board-assign :
    (t : Tid) (x : Accepter) (m : List (Tid × Accepter))
    → post t (some x.client) (λ u. socket_of (find same_tid u m))
      ≡ (λ u. socket_of (find same_tid u (assign same_tid t x m)))
unfolding post socket_of
board-assign t x m = fun_ext (λ u.
    rw (find-assign same_tid same_tid_eq t u x m)
      (elim (Bool-cases (same_tid t u)) [ inl e ↦ rw e refl | inr e ↦ rw e refl ]))

board-erase :
    (t : Tid) (m : List (Tid × Accepter))
    → post t none (λ u. socket_of (find same_tid u m))
      ≡ (λ u. socket_of (find same_tid u (erase same_tid t m)))
unfolding post socket_of
board-erase t m = fun_ext (λ u.
    rw (find-erase same_tid same_tid_eq t u m)
      (elim (Bool-cases (same_tid t u)) [ inl e ↦ rw e refl | inr e ↦ rw e refl ]))

handle-Answers :
    (a : ℕ) (x : Accepter) (t : Tid) (s : Apertus)
    → Answers (Request.arrival t x.client) s (handle a x t s)
unfolding Answers handle view answer socket_of
handle-Answers a x t s = elim (Option-cases (find same_tid t s.clients)) [
  | inl e ↦
      rw (e, handle, answer)
        (ap (λ b. record { board = b; met = s.met }) (sym (board-assign t x s.clients)))
  | inr (y, e) ↦
      rw (e, handle, answer)
        (ap (λ b. record { board = b; met = (t, x.client, y.client) ∷ s.met })
          (sym (board-erase t s.clients)))
]

greeted-AllSome :
    (a : ℕ) (x : Accepter) (g : Option (Bool × Tid × Bytes)) (s : Apertus)
    → AllSome (Answers (arrival_of (some x) g) s) (greeted a x g s)
unfolding greeted arrival_of
greeted-AllSome a x none s = tt
greeted-AllSome a x (some (sync, tid, rest)) s =
    handle-Answers a (record x { sync_bit = sync }) tid s

unregister-Answers : (s : Apertus) → Answers Request.nothing s (unregister s)
unfolding Answers view unregister
unregister-Answers s = elim (Bool-cases s.unregistered) [ inl e ↦ rw e refl | inr e ↦ rw e refl ]

stop-Answers : (s : Apertus) → Answers Request.closing s (stop s)
unfolding Answers stop view unregister socket_of find answer
stop-Answers s = elim (Bool-cases s.unregistered) [ inl e ↦ rw e refl | inr e ↦ rw e refl ]

kick_all-view : (ws : List (Tid × Transfer)) (s : Apertus) → view (kick_all ws s) ≡ view s
unfolding kick_all view
kick_all-view [] s = refl
kick_all-view ((tid, t) ∷ ws) s =
    kick_all-view ws (record s { workers = erase same_tid tid s.workers })

step-AllSome : (e : Event) (s : Apertus) → AllSome (Answers (request e s) s) (step e s)
unfolding step Answers serve view take_from_accepters connect transfer_remove request deadline
    destroy
step-AllSome Event.client_accepted s = refl
step-AllSome (Event.handle_started a) s = elim (Option-cases (find ◌==◌ a s.accepters)) [
  | inl h ↦ rw (h, take_from_accepters) tt
  | inr (x, h) ↦ rw (h, take_from_accepters) refl
]
step-AllSome (Event.greeting_read a bs) s = elim (Option-cases (find ◌==◌ a s.handled)) [
  | inl h ↦ rw (h, step) tt
  | inr (x, h) ↦ rw (h, step) (greeted-AllSome a x (read_greeting bs) s)
]
step-AllSome (Event.handle_failed a) s = elim (Option-cases (find ◌==◌ a s.handled)) [
  | inl h ↦ rw (h, step) tt
  | inr (x, h) ↦ rw (h, step) refl
]
step-AllSome (Event.pairing_failed a) s = elim (Option-cases (find ◌==◌ a s.pairs)) [
  | inl h ↦ rw (h, step) tt
  | inr (p, h) ↦ rw (h, step) refl
]
step-AllSome (Event.synchronised a) s = elim (Option-cases (find ◌==◌ a s.pairs)) [
  | inl h ↦ rw (h, step) tt
  | inr (p, h) ↦ rw (h, step) refl
]
step-AllSome (Event.transfer_ended tid) s = elim (Option-cases (find same_tid tid s.workers)) [
  | inl h ↦ rw (h, transfer_remove) tt
  | inr (t, h) ↦ rw (h, transfer_remove) refl
]
step-AllSome (Event.forwarded k) s = refl
step-AllSome (Event.ticked k) s = elim (Bool-cases (k == 0)) [
  | inl h ↦ rw (h, step) tt
  | inr h ↦ rw (h, step) refl
]
step-AllSome Event.serving_ended s = unregister-Answers s
step-AllSome (Event.deadline_passed n) s =
    if_cases (AllSome (Answers Request.nothing s)) (timer_runs n s) _ none (λ e. refl) (λ e. tt)
step-AllSome Event.destroyed s = kick_all-view s.workers s
step-AllSome Event.stopped s = stop-Answers s

-- The server implements the meeting point: whenever it goes on with an event, what its clients see
-- (who waits under which identifier, and the pairs that have met) becomes the meeting point's answer
-- to that event, where a greeting that has been read is the arrival of its socket under its
-- identifier, a stop is a closing, and any other event asks nothing.
pub view-step :
    (e : Event) (s s' : Apertus) → step e s ≡ some s' → view s' ≡ answer (request e s) (view s)
unfolding Answers
view-step e s s' h = subst (AllSome (Answers (request e s) s)) h (step-AllSome e s)
