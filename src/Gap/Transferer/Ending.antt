-- ===== src/Gap/Transferer/Ending.antt =====
-- TransferMachine.cc: why the machine stops, and how it is paused and ends.
use mathlib.Core.List.{Memᴰ}
use infinit_io.Base.{
  ℕ, get_elem?, ◌≡◌, refl, ◌∙◌, sym, ap, subst, Bool, true, false, not, ◌||◌, some, arith, all,
  all-mem, get_elem?-mem, ◌⊎◌, inl, inr,
}
use infinit_io.Gap.Transferer.Table.{
  State, cloud_synchronize, publish_interfaces, connection, wait_for_peer, transfer, paused,
  cloud_buffer, stopped, owner_finished, owner_canceled, owner_paused, Trigger, Action, opened,
  completed, caught, Transition, transitions, fail, nothing,
}
use infinit_io.Gap.Transferer.Run.{
  World, pausing, Outcome, interrupted, ended, threw, holds, enter, leave, act, Event, handle,
  Config, fire, Step, take, happens,
}

abbrev pub is_stopped : State → Bool
is_stopped stopped = true
is_stopped _ = false

-- The transaction is over: finished, canceled or failed, or completed for its owner.
abbrev pub IsOver : World → Type 0
IsOver w = (w.finished ≡ true) ⊎ (w.canceled ≡ true) ⊎ (w.failed ≡ true) ⊎ (w.is_completed ≡ true)

-- A transition into `stopped` waits for one of these, or makes the transaction fail.
abbrev ends : Trigger → Action → Bool
ends (opened owner_finished) a = true
ends (opened owner_canceled) a = true
ends completed a = true
ends caught fail = true
ends _ _ = false

abbrev into_stopped : Transition → Bool
into_stopped t = not (is_stopped t.target) || ends t.trigger t.action

all-into_stopped : all into_stopped transitions ≡ true
unfolding transitions
all-into_stopped = refl

-- What the machine leaves alone of its owner.
record Keeps (w w' : World) : Type 0 where
  finished : w'.finished ≡ w.finished
  canceled : w'.canceled ≡ w.canceled
  completed : w'.is_completed ≡ w.is_completed

act-Keeps : (a : Action) (o : Outcome) (w : World) → Keeps w (act a o w)
unfolding act
act-Keeps a o w = ground arith

leave-Keeps : (s : State) (o : Outcome) (w : World) → Keeps w (leave s o w)
unfolding leave
leave-Keeps s o w = ground arith

enter_stopped : (s : State) (w : World) → is_stopped s ≡ true → enter s w ≡ w
unfolding enter
enter_stopped stopped w h = refl
enter_stopped s w h = ground arith

fails : (o : Outcome) (w w' : World) → holds caught o w ≡ true → (act fail o w').failed ≡ true
unfolding holds act
fails (threw e) w w' h = refl
fails o w w' h = ground arith

ends-IsOver :
    (s : State) (g : Trigger) (a : Action) (o : Outcome) (w : World)
    → ends g a ≡ true
    → holds g o w ≡ true
    → IsOver (act a o (leave s o w))
unfolding holds
ends-IsOver s (opened owner_finished) a o w e h =
    inl ((act-Keeps a o _).finished ∙ (leave-Keeps s o w).finished ∙ h)
ends-IsOver s (opened owner_canceled) a o w e h =
    inr (inl ((act-Keeps a o _).canceled ∙ (leave-Keeps s o w).canceled ∙ h))
ends-IsOver s completed a o w e h =
    inr (inr (inr ((act-Keeps a o _).completed ∙ (leave-Keeps s o w).completed ∙ h)))
ends-IsOver s caught fail o w e h = inr (inr (inl (fails o w (leave s o w) h)))
ends-IsOver s g a o w e h = ground arith

fire-IsOver :
    (t : Transition) (o : Outcome) (w : World)
    → into_stopped t ≡ true
    → holds t.trigger o w ≡ true
    → is_stopped t.target ≡ true
    → IsOver (fire t o w).world
unfolding fire
fire-IsOver t o w i h s =
    subst IsOver (sym (enter_stopped t.target _ s))
      (ends-IsOver t.source t.trigger t.action o w (rw s at i) h)

-- The machine does not stop for nothing: at the step into `stopped` the transaction is finished,
-- canceled or failed, or its owner says that it is completed.
pub Step-IsOver :
    {c c' : Config}
    → Step c c'
    → is_stopped c.state ≡ false
    → is_stopped c'.state ≡ true
    → IsOver c'.world
unfolding fire
Step-IsOver {c} (take t o m s h e) before after =
    subst (λ (d : Config). IsOver d.world) (sym e)
      (fire-IsOver t o c.world (all-mem into_stopped t transitions all-into_stopped m) h
        (ap (λ (d : Config). is_stopped d.state) (sym e) ∙ after))
Step-IsOver {c} (happens e q) before after = ground (arith, ap (λ (d : Config). d.state) q)

-- The states from which the user can pause, and the index of the transition that does it.
abbrev pub Pausable : State → Type 0
Pausable stopped = ⊥
Pausable paused = ⊥
Pausable _ = Unit {0}

pause_mem :
    (s : State)
    → Pausable s
    → Memᴰ
        (record {
          source = s;
          target = paused;
          trigger = opened owner_paused;
          preempts = true;
          action = nothing;
        })
        transitions
unfolding transitions
pause_mem cloud_synchronize p = get_elem?-mem transitions 30 _ refl
pause_mem publish_interfaces p = get_elem?-mem transitions 31 _ refl
pause_mem connection p = get_elem?-mem transitions 32 _ refl
pause_mem wait_for_peer p = get_elem?-mem transitions 33 _ refl
pause_mem transfer p = get_elem?-mem transitions 34 _ refl
pause_mem cloud_buffer p = get_elem?-mem transitions 35 _ refl
pause_mem paused p = absurd p
pause_mem stopped p = absurd p

-- A pause is answered from every state in which the machine works: a step leads to `paused`, and
-- the user sees that.
pub pause-Step :
    (c : Config)
    → Pausable c.state
    → c.world.is_paused ≡ true
    → (c' : Config) × Step c c' × (c'.state ≡ paused) × (c'.world.status ≡ pausing)
unfolding fire enter holds
pause-Step c p h =
    let t : Transition = record {
      source = c.state;
      target = paused;
      trigger = opened owner_paused;
      preempts = true;
      action = nothing;
    } in
    (fire t interrupted c.world, take t interrupted (pause_mem c.state p) refl h refl, refl, refl)

pub data Steps (c : Config) : Config → Type 0 where
  here : Steps c c
  more : {d e : Config} → Steps c d → Step d e → Steps c e

abbrev at : State → World → Config
at s w = record { state = s; world = w }

-- The transition of a given index is taken when its source's action has ended.
by_index :
    (i : ℕ) (t : Transition) (w : World)
    → get_elem? transitions i ≡ some t
    → holds t.trigger ended w ≡ true
    → Step (at t.source w) (fire t ended w)
by_index i t w e h = take t ended (get_elem?-mem transitions i t e) refl h refl

-- An event, and then a transition that it allows.
after :
    (x : Event) (i : ℕ) (t : Transition) (w : World)
    → get_elem? transitions i ≡ some t
    → holds t.trigger ended (handle x w) ≡ true
    → Steps (at t.source w) (fire t ended (handle x w))
after x i t w e h = more (more here (happens x refl)) (by_index i t (handle x w) e h)

join : {c d e : Config} → Steps c d → Steps d e → Steps c e
join r here = r
join r (more s x) = more (join r s) x

stop_at : (s : State) (w : World) → (c : Config) × Steps (at s w) c × (c.state ≡ stopped)
unfolding transitions fire holds handle
stop_at cloud_synchronize w = (_, after Event.finish 0 _ w refl refl, refl)
stop_at publish_interfaces w = (_, after Event.cancel 21 _ w refl refl, refl)
stop_at connection w = (_, after Event.cancel 22 _ w refl refl, refl)
stop_at wait_for_peer w = (_, after Event.finish 10 _ w refl refl, refl)
stop_at transfer w = (_, after Event.finish 9 _ w refl refl, refl)
stop_at cloud_buffer w = (_, after (Event.progress true w.full) 12 _ w refl refl, refl)
stop_at stopped w = (at stopped w, here, refl)
stop_at paused w = (
  _,
  join (after (Event.pause false) 36 _ w refl refl) (after Event.finish 0 _ _ refl refl),
  refl,
)

-- The machine is never at a dead end: from every configuration some course of events and
-- transitions leads to `stopped`.
pub Steps-stopped : (c : Config) → (c' : Config) × Steps c c' × (c'.state ≡ stopped)
Steps-stopped c = stop_at c.state c.world
