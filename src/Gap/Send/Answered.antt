-- ===== src/Gap/Send/Answered.antt =====
-- PeerSendMachine.cc: what a sender sends, and when it counts as finished.
use infinit_io.Base.{◌≡◌, Bool, true, false, ◌||◌}
use infinit_io.Gap.Receive.Status.{Status}
use infinit_io.Gap.Send.Table.{create_transaction, Transition, peer}
use infinit_io.Gap.Send.Machine.{World, Facts, Outcome, holds}
use infinit_io.Gap.Send.Steps.{
  Event, updates, Config, fire, Step, take, happens, Steps, start, next,
}
use infinit_io.Gap.Send.Kept.{is_transfer, is_finish, leads_on}

abbrev is_accepted : Event → Bool
is_accepted (updates Status.accepted g) = true
is_accepted _ = false

abbrev by_recipient : {c c' : Config} → Step peer c c' → Bool
by_recipient (happens e q) = is_accepted e
by_recipient (take t b o a m s h e) = false

-- Whether meta told in the course of the steps that the recipient accepted.
abbrev pub answered : {c c' : Config} → Steps peer c c' → Bool
answered start = false
answered (next r s) = by_recipient s || answered r

-- Whether the recipient was a ghost at some point of the course.
abbrev pub was_ghost : {c c' : Config} → Steps peer c c' → Bool
was_ghost {c} start = c.world.is_ghost
was_ghost (next {e = e} r s) = e.world.is_ghost || was_ghost r

-- What is known of the machine, `known` being whether the recipient accepted, and `ghost` whether it
-- was a ghost.
record IsAnswered (known ghost : Bool) (c : Config) : Type 0 where
  open_in_transfer : is_transfer c.state ≡ true → c.world.accepted ≡ true
  known_when_open : c.world.accepted ≡ true → known ≡ true
  open_in_finish : is_finish c.state ≡ true → c.world.uploaded ≡ true
  ghost_when_open : c.world.uploaded ≡ true → ghost ≡ true
  ghost_seen : c.world.is_ghost ≡ true → ghost ≡ true

module _ (known ghost : Bool) (t : Transition) (k : Facts) (o : Outcome) (n : Facts) (c : Config)
    (on : leads_on t ≡ true) (at : c.state ≡ t.source) (h : holds t.trigger o c.world ≡ true)
    (v : IsAnswered known ghost c) where
  abbrev after : World
  after = (fire peer t k o n c.world).world

-- The machine of new files for a user, as `_run` starts it.
abbrev pub begin : World → Config
begin w = record { state = create_transaction; world = w }
