-- ===== src/Gap/Send/Payment.antt =====
-- LinkSendMachine.cc: what the user sees when meta refuses a link for want of a quota.
use infinit_io.Base.{
  ◌≡◌, refl, ◌∙◌, ap, Bool, Bool-cases, inl, inr, true, false, not, ◌||◌, arith, all, all-mem,
}
use infinit_io.Gap.Receive.Status.{Shown}
use infinit_io.Gap.Send.Table.{State, end, Action, ask_payment, Transition, transitions, link}
use infinit_io.Gap.Send.Machine.{World, Facts, Outcome, enter, leave, act}
use infinit_io.Gap.Send.Steps.{Event, handle, Config, fire, take, happens, Steps, start, next}

abbrev pub asks_payment : Shown → Bool
asks_payment Shown.payment_required = true
asks_payment _ = false

abbrev is_end : State → Bool
is_end end = true
is_end _ = false

abbrev is_ask : Action → Bool
is_ask ask_payment = true
is_ask _ = false

abbrev asks_at_end : Transition → Bool
asks_at_end t = not (is_ask t.action) || is_end t.target

all-asks_at_end : all asks_at_end (transitions link) ≡ true
unfolding transitions
all-asks_at_end = refl

leave-shown :
    (s : State) (k : Facts) (o : Outcome) (w : World)
    → asks_payment w.shown ≡ false
    → asks_payment (leave link s k o w).shown ≡ false
unfolding leave
leave-shown s k o w h = ground arith

act-shown :
    (a : Action) (o : Outcome) (w : World)
    → is_ask a ≡ false
    → asks_payment w.shown ≡ false
    → asks_payment (act a o w).shown ≡ false
unfolding act
act-shown a o w i h = ground arith

enter-end :
    (s : State) (n : Facts) (w : World)
    → is_end s ≡ true
    → asks_payment (enter link s n w).shown ≡ false
unfolding enter
enter-end s n w h = ground arith

enter-shown :
    (s : State) (n : Facts) (w : World)
    → asks_payment w.shown ≡ false
    → asks_payment (enter link s n w).shown ≡ false
unfolding enter
enter-shown s n w h = ground arith

handle-shown :
    (e : Event) (w : World)
    → asks_payment w.shown ≡ false
    → asks_payment (handle link e w).shown ≡ false
unfolding handle
handle-shown e w h = ground arith

fire-shown :
    (t : Transition) (k : Facts) (o : Outcome) (n : Facts) (w : World)
    → asks_at_end t ≡ true
    → asks_payment w.shown ≡ false
    → asks_payment (fire link t k o n w).world.shown ≡ false
unfolding fire
fire-shown t k o n w a h = elim (Bool-cases (is_ask t.action)) [
  | inl e ↦ enter-end t.target n _ (ground arith)
  | inr e ↦ enter-shown t.target n _ (act-shown t.action o _ e (leave-shown t.source k o w h))
]

kept-no_payment :
    {c d : Config}
    → Steps link c d
    → asks_payment c.world.shown ≡ false
    → asks_payment d.world.shown ≡ false
kept-no_payment start h = h
kept-no_payment (next r (take t k o n m s g e)) h =
    ap (λ x. asks_payment x.world.shown) e
    ∙ fire-shown t k o n _ (all-mem asks_at_end t (transitions link) all-asks_at_end m)
        (kept-no_payment r h)
kept-no_payment (next r (happens e q)) h =
    ap (λ x. asks_payment x.world.shown) q ∙ handle-shown e _ (kept-no_payment r h)

-- Once a link's machine is in its end and the action of the end is done, a payment is not what is shown,
-- whatever meta answered, also that the quota is exceeded, where it was not shown at first. The
-- transition to the end shows it, and the action of the end replaces it.
pub Steps-no_payment :
    {c d : Config}
    → Steps link c d
    → asks_payment c.world.shown ≡ false
    → d.state ≡ end
    → asks_payment d.world.shown ≡ false
Steps-no_payment r h e = kept-no_payment r h
