-- ===== src/Gap/Ghost/Waiting.antt =====
-- GhostReceiveMachine.cc: a ghost's machine before the files are in the cloud.
use infinit_io.Base.{◌≡◌, ◌∙◌, sym, ap, Bool, false, Option, none, some, arith, if_cases}
use infinit_io.Gap.Receive.Status.{Status}
use infinit_io.Gap.Ghost.Machine.{
  wait_for_cloud_upload, Ghost, status_update, on_transaction_update, Event, accepts, rejects,
  cancels, updates, taken, handle, Config, fire, fire_uploaded, Step, take, uploaded, happens,
  Steps, start, next,
}

-- An update closes the barrier nowhere.
abbrev IsKept : Bool → Option Ghost → Type 0
IsKept before none = Unit {0}
IsKept before (some h) = h.cloud_uploaded ≡ false → before ≡ false

status_update-IsKept : (s : Status) (g : Ghost) → IsKept g.cloud_uploaded (status_update s g)
unfolding status_update
status_update-IsKept s g = ground arith

on_transaction_update-IsKept :
    (s : Status) (b : Bool) (g : Ghost) → IsKept g.cloud_uploaded (on_transaction_update s b g)
unfolding on_transaction_update
on_transaction_update-IsKept s b g =
    if_cases (IsKept g.cloud_uploaded) g.world.over _ _ (λ _. λ h. h)
      (λ _. status_update-IsKept _ _)

taken-cloud_uploaded :
    (g : Ghost) (o : Option Ghost)
    → IsKept g.cloud_uploaded o
    → (taken g o).cloud_uploaded ≡ false
    → g.cloud_uploaded ≡ false
unfolding taken
taken-cloud_uploaded g none u h = h
taken-cloud_uploaded g (some d) u h = u h

handle-cloud_uploaded :
    (e : Event) (g : Ghost) → (handle e g).cloud_uploaded ≡ false → g.cloud_uploaded ≡ false
unfolding handle
handle-cloud_uploaded (accepts d) g h = h
handle-cloud_uploaded rejects g h = h
handle-cloud_uploaded cancels g h = h
handle-cloud_uploaded (updates s b) g h =
    taken-cloud_uploaded g (on_transaction_update s b g) (on_transaction_update-IsKept s b g) h

Step-cloud_uploaded :
    (c d : Config) → Step c d → d.ghost.cloud_uploaded ≡ false → c.ghost.cloud_uploaded ≡ false
unfolding fire fire_uploaded
Step-cloud_uploaded c d (take t o m s h e) u =
    sym (ap (λ (x : Config). x.ghost.cloud_uploaded) e) ∙ u
Step-cloud_uploaded c d (uploaded s h e) u = sym (ap (λ (x : Config). x.ghost.cloud_uploaded) e) ∙ u
Step-cloud_uploaded c d (happens v e) u =
    handle-cloud_uploaded v c.ghost (sym (ap (λ (x : Config). x.ghost.cloud_uploaded) e) ∙ u)

Step-waiting :
    (c d : Config)
    → Step c d
    → c.state ≡ wait_for_cloud_upload
    → c.ghost.cloud_uploaded ≡ false
    → d.state ≡ wait_for_cloud_upload
Step-waiting c d (take t o m s h e) w u = absurd (grind arith)
Step-waiting c d (uploaded s h e) w u = absurd (grind arith)
Step-waiting c d (happens v e) w u = ap (λ (x : Config). x.state) e ∙ w

-- As long as the machine has not been told that the files are in the cloud, every course of what the user
-- and meta do leaves a ghost's machine where it waits for them: a cancel, a reject and a status of meta that
-- is final only open barriers, on which this state has no transition.
pub Steps-waiting :
    (c d : Config)
    → c.state ≡ wait_for_cloud_upload
    → Steps c d
    → d.ghost.cloud_uploaded ≡ false
    → d.state ≡ wait_for_cloud_upload
Steps-waiting c d w start u = w
Steps-waiting c d w (next {d = e} more last) u =
    Step-waiting e d last (Steps-waiting c e w more (Step-cloud_uploaded e d last u))
      (Step-cloud_uploaded e d last u)
