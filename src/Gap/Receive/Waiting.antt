-- ===== src/Gap/Receive/Waiting.antt =====
-- ReceiveMachine.cc: what ends the wait for the decision.
use infinit_io.Base.{◌≡◌, refl, ◌∙◌, ap, Bool, true, false, not, ◌||◌, arith, all, all-mem}
use infinit_io.Gap.Receive.Table.{
  Barrier, accepted_elsewhere, caught, Trigger, opened, Transition, transitions,
}
use infinit_io.Gap.Receive.Machine.{World, Outcome, threw, holds, Config, Step, take, happens}
use infinit_io.Gap.Receive.Consent.{is_waiting}

-- None of the barriers that the decision waits for is open. `failed` is not one of them.
pub record IsQuiet (w : World) : Type 0 where
  pub not_accepted : w.accepted ≡ false
  pub not_elsewhere : w.elsewhere ≡ false
  pub not_rejected : w.rejected ≡ false
  pub not_canceled : w.canceled ≡ false
  pub not_finished : w.finished ≡ false

abbrev is_decision : Trigger → Bool
is_decision (opened Barrier.accepted) = true
is_decision (opened accepted_elsewhere) = true
is_decision (opened Barrier.rejected) = true
is_decision (opened Barrier.canceled) = true
is_decision (opened Barrier.finished) = true
is_decision _ = false

abbrev is_caught : Trigger → Bool
is_caught caught = true
is_caught _ = false

abbrev from_waiting : Transition → Bool
from_waiting t = not (is_waiting t.source) || (is_decision t.trigger || is_caught t.trigger)

all-from_waiting : all from_waiting transitions ≡ true
unfolding transitions
all-from_waiting = refl

decision-closed :
    (g : Trigger) (o : Outcome) (w : World) → is_decision g ≡ true → IsQuiet w → holds g o w ≡ false
unfolding holds
decision-closed g o w i q = ground arith

abbrev is_threw : Outcome → Bool
is_threw (threw e) = true
is_threw _ = false

-- Whether a step ends an action by an exception.
abbrev pub by_exception : {c c' : Config} → Step c c' → Bool
by_exception (take t o d m s h e) = is_threw o
by_exception (happens e q) = false

caught-threw :
    (g : Trigger) (o : Outcome) (w : World)
    → is_caught g ≡ true
    → holds g o w ≡ true
    → is_threw o ≡ true
unfolding holds
caught-threw g o w i h = ground arith

-- Only a decision ends the wait for it: while none of `accepted`, `accepted_elsewhere`,
-- `rejected`, `canceled` and `finished` is open, every step in which no action throws leaves the
-- machine in `wait_for_decision`. It stays there too when the sender's failure has opened
-- `failed`.
pub Step-waiting :
    {c c' : Config} (s : Step c c')
    → is_waiting c.state ≡ true
    → IsQuiet c.world
    → by_exception s ≡ false
    → is_waiting c'.state ≡ true
Step-waiting {c} (take t o d m s h e) v q n = ground (
  arith,
  all-mem from_waiting t transitions all-from_waiting m,
  ap is_waiting s,
  decision-closed t.trigger o c.world,
  caught-threw t.trigger o c.world,
)
Step-waiting (happens e q) v quiet n = ap (λ (d : Config). is_waiting d.state) q ∙ v
