-- ===== src/Gap/Send/Kept.antt =====
-- PeerSendMachine.cc: what the operations of a sender's machine leave as it is.
use infinit_io.Base.{◌≡◌, ◌⊎◌, ◌∙◌, refl, Bool, true, false, not, ◌&&◌, ◌||◌, arith, all}
use infinit_io.Gap.Send.Table.{
  State, finish, transfer, Barrier, ghost_uploaded, Trigger, Action, opened, Transition,
  transitions, peer,
}
use infinit_io.Gap.Send.Machine.{World, Facts, Outcome, holds, enter, leave, act}
use infinit_io.Gap.Send.Steps.{fire}

abbrev pub is_transfer : State → Bool
is_transfer transfer = true
is_transfer _ = false

abbrev pub is_finish : State → Bool
is_finish finish = true
is_finish _ = false

abbrev pub is_acceptance : Trigger → Bool
is_acceptance (opened Barrier.accepted) = true
is_acceptance _ = false

abbrev pub is_upload : Trigger → Bool
is_upload (opened ghost_uploaded) = true
is_upload _ = false

-- Only an acceptance leads to the transfer, and only the end of an upload to a ghost to the finish.
abbrev pub leads_on : Transition → Bool
leads_on t =
    (not (is_transfer t.target) || (is_transfer t.source || is_acceptance t.trigger))
    && (not (is_finish t.target) || is_upload t.trigger)

pub all-leads_on : all leads_on (transitions peer) ≡ true
unfolding transitions
all-leads_on = refl

enter-kept :
    (s : State) (n : Facts) (w : World)
    → ((enter peer s n w).accepted ≡ w.accepted) × ((enter peer s n w).uploaded ≡ w.uploaded)
unfolding enter
enter-kept s n w = ground arith

act-kept :
    (a : Action) (o : Outcome) (w : World)
    → ((act a o w).accepted ≡ w.accepted) × ((act a o w).uploaded ≡ w.uploaded)
unfolding act
act-kept a o w = ground arith

leave-accepted :
    (s : State) (k : Facts) (o : Outcome) (w : World) → (leave peer s k o w).accepted ≡ w.accepted
unfolding leave
leave-accepted s k o w = ground arith

-- Only where the recipient is a ghost is the barrier `ghost_uploaded` opened.
pub leave-uploaded :
    (s : State) (k : Facts) (o : Outcome) (w : World)
    → (leave peer s k o w).uploaded ≡ true
    → (w.uploaded ≡ true) ⊎ (w.is_ghost ≡ true)
unfolding leave
leave-uploaded s k o w h = ground arith

pub leave-uploaded_open :
    (s : State) (k : Facts) (o : Outcome) (w : World)
    → w.uploaded ≡ true
    → (leave peer s k o w).uploaded ≡ true
unfolding leave
leave-uploaded_open s k o w h = ground arith

pub fire-kept :
    (t : Transition) (k : Facts) (o : Outcome) (n : Facts) (w : World)
    → ((fire peer t k o n w).world.accepted ≡ w.accepted)
      × ((fire peer t k o n w).world.uploaded ≡ (leave peer t.source k o w).uploaded)
unfolding fire
fire-kept t k o n w =
    let left = leave peer t.source k o w in
    let (a, b) = enter-kept t.target n (act t.action o left) in
    let (d, e) = act-kept t.action o left in (a ∙ d ∙ leave-accepted t.source k o w, b ∙ e)

pub opens :
    (g : Trigger) (o : Outcome) (w : World)
    → holds g o w ≡ true
    → (is_acceptance g ≡ true → w.accepted ≡ true) × (is_upload g ≡ true → w.uploaded ≡ true)
unfolding holds
opens (opened Barrier.accepted) o w h = (λ e. h, λ e. absurd (ground arith))
opens (opened ghost_uploaded) o w h = (λ e. absurd (ground arith), λ e. h)
opens g o w h = (λ e. absurd (ground arith), λ e. absurd (ground arith))
