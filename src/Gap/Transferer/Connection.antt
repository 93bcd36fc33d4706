-- ===== src/Gap/Transferer/Connection.antt =====
-- TransferMachine.cc: the transfer runs over an open channel, and the barriers agree.
use infinit_io.Base.{
  ◌≡◌, refl, ◌∙◌, sym, Bool, true, false, not, ◌&&◌, ◌||◌, arith, all, all-mem, ◌⊎◌, inl, inr,
  Bool-cases, subst,
}
use infinit_io.Gap.Transferer.Table.{
  State, cloud_synchronize, connection, transfer, Trigger, Action, returned, Transition,
  transitions,
}
use infinit_io.Gap.Transferer.Run.{
  World, Outcome, ended, holds, init, run, enter, leave, act, Event, handle, Config, fire, Step,
  take, happens, Reach, start, next,
}

abbrev pub is_transfer : State → Bool
is_transfer transfer = true
is_transfer _ = false

abbrev is_connection : State → Bool
is_connection connection = true
is_connection _ = false

abbrev is_returned : Trigger → Bool
is_returned returned = true
is_returned _ = false

-- Only a connection that returned leads to the transfer.
abbrev into_transfer : Transition → Bool
into_transfer t = not (is_transfer t.target) || (is_connection t.source && is_returned t.trigger)

all-into_transfer : all into_transfer transitions ≡ true
unfolding transitions
all-into_transfer = refl

-- The channel is there while data is transferred.
abbrev IsConnected : Config → Type 0
IsConnected c = (is_transfer c.state ≡ false) ⊎ (c.world.rpcs ≡ true)

handle-rpcs : (e : Event) (w : World) → (handle e w).rpcs ≡ w.rpcs
unfolding handle
handle-rpcs e w = ground arith

enter-rpcs : (s : State) (w : World) → (enter s w).rpcs ≡ w.rpcs
unfolding enter
enter-rpcs s w = ground arith

act-rpcs : (a : Action) (o : Outcome) (w : World) → (act a o w).rpcs ≡ w.rpcs
unfolding act
act-rpcs a o w = ground arith

-- A transition into the transfer finds the connection returned, which opened the channel.
leave-rpcs :
    (s : State) (g : Trigger) (o : Outcome) (w : World)
    → (is_connection s && is_returned g) ≡ true
    → holds g o w ≡ true
    → (leave s o w).rpcs ≡ true
unfolding leave holds
leave-rpcs connection returned ended w i h = refl
leave-rpcs s g o w i h = ground arith

fire-IsConnected :
    (t : Transition) (o : Outcome) (w : World)
    → into_transfer t ≡ true
    → holds t.trigger o w ≡ true
    → IsConnected (fire t o w)
unfolding fire
fire-IsConnected t o w i h = elim (Bool-cases (is_transfer t.target)) [
  | inr away ↦ inl away
  | inl there ↦ inr (
      enter-rpcs t.target _
      ∙ act-rpcs t.action o _
      ∙ leave-rpcs t.source t.trigger o w (rw there at i) h)
]

Step-IsConnected : {c c' : Config} → Step c c' → IsConnected c → IsConnected c'
Step-IsConnected (take t o m s h e) v =
    subst IsConnected (sym e)
      (fire-IsConnected t o _ (all-mem into_transfer t transitions all-into_transfer m) h)
Step-IsConnected {c} (happens e q) v =
    subst IsConnected (sym q) (ground (arith, handle-rpcs e c.world))

-- `ELLE_ASSERT(this->_rpcs.get())` holds: whatever the peer, the timer and the user do, and in
-- whatever order transitions are tried, the channel to the peer is open when the machine is in
-- the transfer.
pub Reach-connected :
    {w : World} {a b p : Bool} {c : Config}
    → Reach w a b p c
    → is_transfer c.state ≡ true
    → c.world.rpcs ≡ true
Reach-connected {w} {a} {b} {p} r t = ground (arith, Reach-IsConnected r)
  where
    Reach-IsConnected : {d : Config} → Reach w a b p d → IsConnected d
    Reach-IsConnected start = inl refl
    Reach-IsConnected (next r st) = Step-IsConnected st (Reach-IsConnected r)

-- Of each pair of barriers exactly one is open.
pub record IsDecided (w : World) : Type 0 where
  pub online_or_offline : w.online ≡ not w.offline
  pub reachable_or_not : w.reachable ≡ not w.unreachable

handle-IsDecided : (e : Event) (w : World) → IsDecided w → IsDecided (handle e w)
unfolding handle
handle-IsDecided e w v = ground arith

leave-IsDecided : (s : State) (o : Outcome) (w : World) → IsDecided w → IsDecided (leave s o w)
unfolding leave
leave-IsDecided s o w v = ground arith

act-IsDecided : (a : Action) (o : Outcome) (w : World) → IsDecided w → IsDecided (act a o w)
unfolding act
act-IsDecided a o w v = ground arith

enter-IsDecided : (s : State) (w : World) → IsDecided w → IsDecided (enter s w)
unfolding enter
enter-IsDecided s w v = ground arith

run-IsDecided : (a b p : Bool) (w : World) → IsDecided (run a b p (init w))
unfolding run init
run-IsDecided a b p w = ground arith

fire-IsDecided :
    (t : Transition) (o : Outcome) (w : World) → IsDecided w → IsDecided (fire t o w).world
unfolding fire
fire-IsDecided t o w v =
    enter-IsDecided t.target _ (act-IsDecided t.action o _ (leave-IsDecided t.source o w v))

-- From `run` on the machine always knows whether the peer is online and whether it can be
-- reached: of `peer_online` and `peer_offline` exactly one is open, and so of `peer_reachable` and
-- `peer_unreachable`.
pub Reach-IsDecided : {w : World} {a b p : Bool} {c : Config} → Reach w a b p c → IsDecided c.world
Reach-IsDecided {w} {a} {b} {p} start =
    enter-IsDecided cloud_synchronize (run a b p (init w)) (run-IsDecided a b p w)
Reach-IsDecided (next {c} r (take t o m s h e)) =
    subst (λ (d : Config). IsDecided d.world) (sym e)
      (fire-IsDecided t o c.world (Reach-IsDecided r))
Reach-IsDecided (next {c} r (happens e q)) =
    subst (λ (d : Config). IsDecided d.world) (sym q)
      (handle-IsDecided e c.world (Reach-IsDecided r))
