-- ===== src/Gap/Receive/Settled.antt =====
-- TransactionMachine.cc and Transaction.cc: what is shown of a transaction that is over.
use infinit_io.Base.{
  ◌≡◌, refl, ◌∙◌, sym, ap, subst, Bool, true, false, not, inl, inr, arith, all, all-mem, Bool-cases,
}
use infinit_io.Gap.Receive.Status.{Status, ghost_uploaded, end_status, status_gap_from_meta}
use infinit_io.Gap.Receive.Table.{State, Action, Transition, transitions}
use infinit_io.Gap.Receive.Machine.{
  World, Outcome, Parties, enter, leave, act, Event, updates, handle, Config, fire, Step, take,
  happens, Steps, start, next,
}
use infinit_io.Gap.Receive.Outcome.{is_end, fire-IsShown}

abbrev pub is_final : Status → Bool
is_final Status.finished = true
is_final Status.canceled = true
is_final Status.failed = true
is_final Status.rejected = true
is_final ghost_uploaded = true
is_final _ = false

all-leaving : all (λ t. not (is_end t.source)) transitions ≡ true
unfolding transitions
all-leaving = refl

-- What is shown once it is over and its status is final.
abbrev pub Shows : World → Type 0
Shows w = w.over ≡ true → is_final w.status ≡ true → w.shown ≡ end_status w.status

record IsSettled (c : Config) : Type 0 where
  ended : c.world.over ≡ true → is_end c.state ≡ true
  shows : Shows c.world

status_gap_from_meta-end_status :
    (s : Status) → is_final s ≡ true → status_gap_from_meta s ≡ end_status s
unfolding status_gap_from_meta end_status
status_gap_from_meta-end_status s h = ground arith

handle-over : (e : Event) (w : World) → (handle e w).over ≡ w.over
unfolding handle
handle-over e w = ground arith

handle-Shows : (e : Event) (w : World) → Shows w → Shows (handle e w)
unfolding handle
handle-Shows (updates s b) w v o f = ground (arith, handle-over (updates s b) w, o, f, final)
  where
    final : is_final s ≡ true → status_gap_from_meta s ≡ end_status s
    final = status_gap_from_meta-end_status s
handle-Shows e w v o f = ground (arith, v)

leave-over : (s : State) (o : Outcome) (w : World) → (leave s o w).over ≡ w.over
unfolding leave
leave-over s o w = ground arith

act-over : (a : Action) (o : Outcome) (w : World) → (act a o w).over ≡ w.over
unfolding act
act-over a o w = ground arith

enter-over : (s : State) (d : Parties) (w : World) → is_end s ≡ false → (enter s d w).over ≡ w.over
unfolding enter
enter-over s d w h = ground arith

fire-over :
    (t : Transition) (o : Outcome) (d : Parties) (w : World)
    → is_end t.target ≡ false
    → (fire t o d w).world.over ≡ w.over
unfolding fire
fire-over t o d w h = enter-over t.target d _ h ∙ act-over t.action o _ ∙ leave-over t.source o w

fire-IsSettled :
    (t : Transition) (o : Outcome) (d : Parties) (w : World)
    → w.over ≡ false
    → IsSettled (fire t o d w)
fire-IsSettled t o d w h = elim (Bool-cases (is_end t.target)) [
  | inl last ↦ record { ended = λ e. ended_at last; shows = λ e f. (fire-IsShown t o d w last).1 }
  | inr more ↦
      let still = fire-over t o d w more ∙ h in
      record { ended = λ e. ground (arith, e, still); shows = λ e f. ground (arith, e, still) }
]
  where
    ended_at : is_end t.target ≡ true → is_end (fire t o d w).state ≡ true
    ended_at e = unfold fire in e

Step-IsSettled : {c c' : Config} → Step c c' → IsSettled c → IsSettled c'
Step-IsSettled {c} (take t o d m s h e) v =
    subst IsSettled (sym e) (fire-IsSettled t o d c.world (going v.ended))
  where
    going : (c.world.over ≡ true → is_end c.state ≡ true) → c.world.over ≡ false
    going f =
        ground
          (arith, f, all-mem (λ x. not (is_end x.source)) t transitions all-leaving m, ap is_end s)
Step-IsSettled {c} (happens e q) v = subst IsSettled (sym q) (record {
  ended = λ o. v.ended (sym (handle-over e c.world) ∙ o);
  shows = handle-Shows e c.world v.shows;
})

-- Whatever happens to a transaction that is not over, once it is over its machine is in `end`, and
-- from then on, whatever meta still reports, what is shown is what the status says wherever that
-- is final.
pub Steps-Shows :
    {c c' : Config}
    → Steps c c'
    → c.world.over ≡ false
    → c'.world.over ≡ true
    → (is_end c'.state ≡ true)
      × (is_final c'.world.status ≡ true → c'.world.shown ≡ end_status c'.world.status)
Steps-Shows {c} r h o = let v = settled r in (v.ended o, v.shows o)
  where
    settled : {d : Config} → Steps c d → IsSettled d
    settled start = record { ended = λ e. ground (arith, e, h); shows = λ e. ground (arith, e, h) }
    settled (next q s) = Step-IsSettled s (settled q)
