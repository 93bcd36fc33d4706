-- ===== src/Examples/Receiving.antt =====
-- fist/src/surface/gap: the theorems at courses of a recipient's machine.
use infinit_io.Base.{◌≡◌, refl, ap, true, false, none, get_elem?-mem}
use infinit_io.Gap.Receive.Status.{Status, Shown, end_status}
use infinit_io.Gap.Receive.Table.{accept, cancel, end, transitions}
use infinit_io.Gap.Receive.Machine.{
  World, ended, from_another, holds, enter, leave, act, fire, accepts, handle, Config, Step, take,
  happens, Steps, start, next,
}
use infinit_io.Gap.Receive.Consent.{begin, is_agreed, consented, Steps-accepted}
use infinit_io.Gap.Receive.Settled.{is_final, Steps-Shows}
use infinit_io.Gap.Receive.Outcome.{is_end, Step-IsShown, at}

abbrev world : World
world = record {
  finished = false;
  rejected = false;
  canceled = false;
  failed = false;
  accepted = false;
  elsewhere = false;
  reset = false;
  has_id = true;
  this_device = false;
  status = Status.initialized;
  shown = Shown.new;
  over = false;
  failure_reason = none;
  output_dir = "";
}

-- The user accepts, and the machine moves on.
accepting : (c : Config) × ((r : Steps (begin from_another world) c) × (c.state ≡ accept))
unfolding transitions holds handle fire enter leave act
accepting = (
  _,
  (
    next (next start (happens (accepts none) refl))
        (take _ (ended true) from_another (get_elem?-mem transitions 19 _ refl) refl refl refl),
    refl,
  ),
)

Steps-accepted_example :
    (accepting.0.world.accepted ≡ true) × (consented from_another accepting.1.0 ≡ true)
Steps-accepted_example =
    Steps-accepted from_another world accepting.1.0 refl (ap is_agreed accepting.1.1)

-- Meta takes the cancellation.
closing : (w : World) × Step (at cancel world) (at end w)
unfolding transitions holds fire enter leave act
closing = (_, take _ (ended true) from_another (get_elem?-mem transitions 12 _ refl) refl refl refl)

Steps-Shows_example :
    (is_end end ≡ true)
    × (is_final closing.0.status ≡ true → closing.0.shown ≡ end_status closing.0.status)
Steps-Shows_example = Steps-Shows (next start closing.1) refl (Step-IsShown closing.1 refl refl).0
