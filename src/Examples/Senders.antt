-- ===== src/Examples/Senders.antt =====
-- fist/src/surface/gap: the theorems at courses of a sender's machine.
use infinit_io.Base.{◌≡◌, refl, true, false, none, get_elem?-mem}
use infinit_io.Gap.Receive.Status.{Status, Shown}
use infinit_io.Gap.Send.Table.{end, transitions, link}
use infinit_io.Gap.Send.Machine.{World, Facts, absent, quota_exceeded, holds, enter, leave, act}
use infinit_io.Gap.Send.Steps.{Config, fire, take, Steps, start, next}
use infinit_io.Gap.Send.Answered.{begin}
use infinit_io.Gap.Send.Payment.{asks_payment, Steps-no_payment}
use infinit_io.Gap.Choice.{is_uploaded, AreSame, Parties}

abbrev world : World
world = record {
  finished = false;
  rejected = false;
  canceled = false;
  failed = false;
  accepted = false;
  uploaded = false;
  reset = false;
  has_id = false;
  this_device = true;
  is_ghost = false;
  status = Status.created;
  shown = Shown.new;
  over = false;
  failure_reason = none;
}

abbrev facts : Facts
facts = record {
  to_self = false;
  online = true;
  online_elsewhere = false;
  ghost = false;
  total_size = 1000;
  max_cloud_buffer_size = 0;
  delay = absent;
}

-- Meta refuses a link, and the machine is at its end.
refused : (c : Config) × ((r : Steps link (begin world) c) × (c.state ≡ end))
unfolding transitions holds fire enter leave act
refused = (
  _,
  (
    next start (
        take _ facts (quota_exceeded "quota") facts (get_elem?-mem (transitions link) 31 _ refl)
          refl refl refl),
    refl,
  ),
)

Steps-no_payment_example : asks_payment refused.0.world.shown ≡ false
Steps-no_payment_example = Steps-no_payment refused.1.0 refl refused.1.1

-- The recipient on their second device.
abbrev parties : Parties
parties = record {
  me = 2;
  device = 5;
  sender = 1;
  sender_device = 3;
  recipient = 2;
  is_ghost = true;
  status = Status.accepted;
}

-- Meta says that the transaction has failed since.
abbrev parties_now : Parties
parties_now = record parties { status = Status.failed }

same : AreSame parties parties_now
unfolding is_uploaded
same = record {
  me = refl;
  device = refl;
  sender = refl;
  sender_device = refl;
  recipient = refl;
  is_ghost = refl;
  uploaded = refl;
}
