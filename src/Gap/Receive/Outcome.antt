-- ===== src/Gap/Receive/Outcome.antt =====
-- TransactionMachine.cc: how a transaction ends, and what is shown of it.
use mathlib.Core.List.{Memᴰ}
use infinit_io.Base.{
  ℕ, ◌≡◌, refl, ◌∙◌, sym, ap, subst, Bool, true, false, ◌&&◌, some, arith, get_elem?, get_elem?-mem,
  if◌then◌else◌,
}
use infinit_io.Gap.Receive.Status.{Status, end_status}
use infinit_io.Gap.Receive.Table.{
  State, another_device, cancel, end, fail, finish, reject, transfer, wait_for_decision, accept,
  Transition, transitions, returned, nothing,
}
use infinit_io.Gap.Receive.Machine.{
  World, Outcome, ended, Parties, from_another, holds, finalize, end_transaction, enter, leave, act,
  Event, cancels, handle, Config, fire, Step, take, happens, Steps, start, next,
}

abbrev pub is_end : State → Bool
is_end end = true
is_end _ = false

enter-end :
    (s : State) (d : Parties) (w : World) → is_end s ≡ true → enter s d w ≡ end_transaction w
unfolding enter
enter-end end d w h = refl
enter-end s d w h = ground arith

-- The transaction is over, and what is shown is what its last status says.
abbrev pub IsShown : World → Type 0
IsShown w = (w.over ≡ true) × (w.shown ≡ end_status w.status)

end_transaction-IsShown : (w : World) → IsShown (end_transaction w)
unfolding end_transaction
end_transaction-IsShown w = (refl, refl)

pub fire-IsShown :
    (t : Transition) (o : Outcome) (d : Parties) (w : World)
    → is_end t.target ≡ true
    → IsShown (fire t o d w).world
unfolding fire
fire-IsShown t o d w h =
    subst IsShown (sym (enter-end t.target d left h)) (end_transaction-IsShown left)
  where
    left : World
    left = act t.action o (leave t.source o w)

-- The step into `end` ends the transaction, and shows it as its last status says.
pub Step-IsShown :
    {c c' : Config} → Step c c' → is_end c.state ≡ false → is_end c'.state ≡ true → IsShown c'.world
unfolding fire
Step-IsShown {c} (take t o d m s h e) before after =
    subst (λ (x : Config). IsShown x.world) (sym e)
      (fire-IsShown t o d c.world (ap (λ (x : Config). is_end x.state) (sym e) ∙ after))
Step-IsShown (happens e q) before after = ground (arith, ap (λ (d : Config). d.state) q)

-- The states that close a transaction, each with the status it gives.
abbrev pub Closing : State → Type 0
Closing finish = Unit {0}
Closing cancel = Unit {0}
Closing reject = Unit {0}
Closing fail = Unit {0}
Closing _ = ⊥

abbrev pub closing_status : State → Status
closing_status finish = Status.finished
closing_status cancel = Status.canceled
closing_status reject = Status.rejected
closing_status _ = Status.failed

-- The status that is left after meta was told.
abbrev pub left_status : State → Bool → World → Status
left_status s ok w = if w.has_id && ok then closing_status s else w.status

abbrev pub at : State → World → Config
at s w = record { state = s; world = w }

abbrev to_end : State → Transition
to_end s = record {
  source = s;
  target = end;
  trigger = returned;
  preempts = false;
  action = nothing;
}

to_end-mem : (s : State) → Closing s → Memᴰ (to_end s) transitions
unfolding transitions
to_end-mem finish v = get_elem?-mem transitions 11 _ refl
to_end-mem cancel v = get_elem?-mem transitions 12 _ refl
to_end-mem fail v = get_elem?-mem transitions 13 _ refl
to_end-mem reject v = get_elem?-mem transitions 14 _ refl
to_end-mem another_device v = absurd v
to_end-mem end v = absurd v
to_end-mem transfer v = absurd v
to_end-mem wait_for_decision v = absurd v
to_end-mem accept v = absurd v

leave-status :
    (s : State) (ok : Bool) (w : World)
    → Closing s
    → (leave s (ended ok) w).status ≡ left_status s ok w
unfolding leave finalize
leave-status s ok w v = ground arith

-- A transaction that is finished, canceled, rejected or failed closes in one step, whether or not
-- meta takes the new status. Where there is an id and meta takes it, that is the status, and what
-- the user sees is what it says. Otherwise the status stays, and the user sees what the old one
-- says.
pub close-shown :
    (s : State) (ok : Bool) (w : World)
    → Closing s
    → (c' : Config) × Step (at s w) c'
      × (c'.state ≡ end)
      × (c'.world.over ≡ true)
      × (c'.world.status ≡ left_status s ok w)
      × (c'.world.shown ≡ end_status (left_status s ok w))
unfolding fire enter end_transaction act holds
close-shown s ok w v = (
  fire (to_end s) (ended ok) from_another w,
  take (to_end s) (ended ok) from_another (to_end-mem s v) refl refl refl,
  refl,
  refl,
  leave-status s ok w v,
  ap end_status (leave-status s ok w v),
)

join : {c d e : Config} → Steps c d → Steps d e → Steps c e
join r start = r
join r (next s x) = next (join r s) x

by_index :
    (i : ℕ) (t : Transition) (w : World)
    → get_elem? transitions i ≡ some t
    → holds t.trigger (ended true) w ≡ true
    → Step (at t.source w) (fire t (ended true) from_another w)
by_index i t w e h = take t (ended true) from_another (get_elem?-mem transitions i t e) refl h refl

after :
    (x : Event) (i : ℕ) (t : Transition) (w : World)
    → get_elem? transitions i ≡ some t
    → holds t.trigger (ended true) (handle x w) ≡ true
    → Steps (at t.source w) (fire t (ended true) from_another (handle x w))
after x i t w e h = next (next start (happens x refl)) (by_index i t (handle x w) e h)

close : (s : State) (w : World) → Closing s → (c : Config) × Steps (at s w) c × (c.state ≡ end)
close s w v = let (c, r, e, _, _, _) = close-shown s true w v in (c, next start r, e)

-- A cancellation on the way, and then the end.
then_close :
    {s : State} {w : World} (w' : World)
    → Steps (at s w) (at cancel w')
    → (c : Config) × Steps (at s w) c × (c.state ≡ end)
then_close w' r = let (c, q, e) = close cancel w' tt in (c, join r q, e)

end_at : (s : State) (w : World) → (c : Config) × Steps (at s w) c × (c.state ≡ end)
unfolding transitions fire holds handle enter leave act
end_at finish w = close finish w tt
end_at cancel w = close cancel w tt
end_at reject w = close reject w tt
end_at fail w = close fail w tt
end_at end w = (at end w, start, refl)
end_at transfer w = then_close _ (after cancels 1 _ w refl refl)
end_at another_device w = then_close _ (after cancels 5 _ w refl refl)
end_at wait_for_decision w = then_close _ (after cancels 23 _ w refl refl)
end_at accept w = then_close _ (after cancels 25 _ w refl refl)

-- A transaction can always be brought to its end: from every configuration some course of events
-- and transitions leads to `end`.
pub Steps-end : (c : Config) → (c' : Config) × Steps c c' × (c'.state ≡ end)
Steps-end c = end_at c.state c.world
