-- ===== src/Gap/Receive/Consent.antt =====
-- ReceiveMachine.cc, PeerReceiveMachine.cc: nothing is received before it is accepted.
use infinit_io.Base.{
  ◌≡◌, refl, ◌∙◌, sym, ap, subst, Bool, Bool-cases, inl, inr, true, false, not, ◌&&◌, ◌||◌, arith,
  all, all-mem, ◌==◌, none, some,
}
use infinit_io.Gap.Receive.Table.{
  State, transfer, wait_for_decision, accept, Barrier, Trigger, Action, opened, Transition,
  transitions,
}
use infinit_io.Gap.Receive.Machine.{
  World, Outcome, Parties, holds, enter, leave, act, Event, accepts, handle, Config, fire, Step,
  take, happens, Steps, start, next,
}

-- The states in which the recipient has agreed.
abbrev pub is_agreed : State → Bool
is_agreed transfer = true
is_agreed accept = true
is_agreed _ = false

abbrev pub is_waiting : State → Bool
is_waiting wait_for_decision = true
is_waiting _ = false

abbrev is_acceptance : Trigger → Bool
is_acceptance (opened Barrier.accepted) = true
is_acceptance _ = false

-- No transition leads back to the decision, and only an acceptance leads to agreement.
abbrev into_agreed : Transition → Bool
into_agreed t =
    not (is_waiting t.target)
    && (not (is_agreed t.target) || (is_agreed t.source || is_acceptance t.trigger))

all-into_agreed : all into_agreed transitions ≡ true
unfolding transitions
all-into_agreed = refl

-- The user sent the files to this very device.
abbrev pub is_here : Parties → Bool
is_here p =
    (p.sender_id == p.me)
    && elim p.recipient_device_id [ none ↦ false | some id ↦ id == p.device_uuid ]

abbrev is_accepts : Event → Bool
is_accepts (accepts d) = true
is_accepts _ = false

abbrev by_user : {c c' : Config} → Step c c' → Bool
by_user (happens e q) = is_accepts e
by_user (take t o d m s h e) = false

-- Whether someone agreed: the user accepted in the course of the steps, or the user sent the
-- files to this very device.
abbrev pub consented : {c c' : Config} → Parties → Steps c c' → Bool
consented d start = is_here d
consented d (next r s) = by_user s || consented d r

leave-accepted : (s : State) (o : Outcome) (w : World) → (leave s o w).accepted ≡ w.accepted
unfolding leave
leave-accepted s o w = ground arith

act-accepted : (a : Action) (o : Outcome) (w : World) → (act a o w).accepted ≡ w.accepted
unfolding act
act-accepted a o w = ground arith

enter-accepted :
    (s : State) (d : Parties) (w : World)
    → is_waiting s ≡ false
    → (enter s d w).accepted ≡ w.accepted
unfolding enter
enter-accepted s d w h = ground arith

fire-accepted :
    (t : Transition) (o : Outcome) (d : Parties) (w : World)
    → into_agreed t ≡ true
    → (fire t o d w).world.accepted ≡ w.accepted
unfolding fire
fire-accepted t o d w i =
    enter-accepted t.target d _ (ground arith)
    ∙ act-accepted t.action o _
    ∙ leave-accepted t.source o w

opens :
    (g : Trigger) (o : Outcome) (w : World)
    → is_acceptance g ≡ true
    → holds g o w ≡ true
    → w.accepted ≡ true
unfolding holds
opens (opened Barrier.accepted) o w i h = h
opens g o w i h = ground arith

-- What is known of the machine in a state of agreement, `known` being who agreed so far.
record IsAgreed (known : Bool) (c : Config) : Type 0 where
  open_when_agreed : is_agreed c.state ≡ true → c.world.accepted ≡ true
  known_when_open : c.world.accepted ≡ true → known ≡ true

fire-IsAgreed :
    (known : Bool) (t : Transition) (o : Outcome) (d : Parties) (c : Config)
    → into_agreed t ≡ true
    → c.state ≡ t.source
    → holds t.trigger o c.world ≡ true
    → IsAgreed known c
    → IsAgreed known (fire t o d c.world)
unfolding fire
fire-IsAgreed known t o d c i s h v = record {
  open_when_agreed = λ a. kept ∙ from a;
  known_when_open = λ a. v.known_when_open (sym kept ∙ a);
}
  where
    kept : (fire t o d c.world).world.accepted ≡ c.world.accepted
    kept = fire-accepted t o d c.world i

    from : is_agreed t.target ≡ true → c.world.accepted ≡ true
    from a = elim (Bool-cases (is_acceptance t.trigger)) [
      | inl b ↦ opens t.trigger o c.world b h
      | inr b ↦ v.open_when_agreed (ap is_agreed s ∙ source a b)
    ]
      where
        source :
            is_agreed t.target ≡ true → is_acceptance t.trigger ≡ false → is_agreed t.source ≡ true
        source a b = ground arith

handle-open : (e : Event) (w : World) → w.accepted ≡ true → (handle e w).accepted ≡ true
unfolding handle
handle-open e w h = ground arith

-- Of what happens outside, only the user's acceptance opens the barrier.
happens-known :
    (e : Event) (w : World) (known : Bool)
    → (w.accepted ≡ true → known ≡ true)
    → (handle e w).accepted ≡ true
    → (is_accepts e || known) ≡ true
unfolding handle
happens-known e w known k h = ground arith

Step-IsAgreed :
    {known : Bool} {c c' : Config} (s : Step c c')
    → IsAgreed known c
    → IsAgreed (by_user s || known) c'
Step-IsAgreed {known} {c} (take t o d m s h e) v =
    subst (IsAgreed known) (sym e)
      (fire-IsAgreed known t o d c (all-mem into_agreed t transitions all-into_agreed m) s h v)
Step-IsAgreed {known} {c} (happens e q) v =
    subst (IsAgreed (is_accepts e || known)) (sym q) (record {
      open_when_agreed = λ a. handle-open e c.world (v.open_when_agreed a);
      known_when_open = happens-known e c.world known v.known_when_open;
    })

-- The machine as `_run` starts it on the decision.
abbrev pub begin : Parties → World → Config
begin d w = record { state = wait_for_decision; world = enter wait_for_decision d w }

begin-IsAgreed : (d : Parties) (w : World) → w.accepted ≡ false → IsAgreed (is_here d) (begin d w)
unfolding enter
begin-IsAgreed d w h = ground arith

-- Nothing is received that nobody accepted: on every course of the machine from the decision on,
-- with the barrier `accepted` closed at first, a machine that is in `accept` or in `transfer` has
-- the barrier open, and the user accepted or the user sent the files to this very device.
pub Steps-accepted :
    (d : Parties) (w : World) {c : Config} (r : Steps (begin d w) c)
    → w.accepted ≡ false
    → is_agreed c.state ≡ true
    → (c.world.accepted ≡ true) × (consented d r ≡ true)
Steps-accepted d w r h a =
    let v = Steps-IsAgreed r in (v.open_when_agreed a, v.known_when_open (v.open_when_agreed a))
  where
    Steps-IsAgreed : {c : Config} (r : Steps (begin d w) c) → IsAgreed (consented d r) c
    Steps-IsAgreed start = begin-IsAgreed d w h
    Steps-IsAgreed (next r s) = Step-IsAgreed s (Steps-IsAgreed r)
