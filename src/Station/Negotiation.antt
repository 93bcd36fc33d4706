-- ===== src/Station/Negotiation.antt =====
-- Station.cc: the negotiations of a station with its peers, one thread each, and the hosts that it is
-- connected to. Passports are numbers with their order; what comes from the peer is in the events.
use infinit_io.Base.{ℕ, Bool, true, false, List, [], ◌∷◌, ◌==◌, ltb, if◌then◌else◌}

-- The `NegotiationStatus` that the peer answers, another one, or a network that fails.
pub data Answer : Type 0 where
  already_connected invalid succeeded other network_error : Answer

-- What `_negotiate` returns or throws. `asserts` is for its assertion on the hosts.
pub data Result : Type 0 where
  connected already bad_passport conflict bad_status network itself terminated asserts : Result

-- Where a thread is: it has not read the peer's passport, waits for another negotiation with that peer to
-- end, waits for the peer's answer, or is done. The flag says whether the peer's passport is valid.
pub data Stage : Type 0 where
  connecting : Stage
  waits : ℕ → Bool → Stage
  negotiates : ℕ → Bool → Stage
  done : Result → Stage

pub record Station : Type 0 where
  pub passport : ℕ
  pub hosts : ℕ → Bool
  pub negotiating : ℕ → Bool
  pub threads : ℕ → Stage

unfoldable pub set {ℓ} : {A : Type ℓ} → ℕ → A → (ℕ → A) → ℕ → A
set k a f j = if k == j then a else f j

unfoldable pub is_master : ℕ → Station → Bool
is_master r s = ltb s.passport r

unfoldable pub goes_to : ℕ → Stage → Station → Station
unfolding set
goes_to i stage s = record s { threads = set i stage s.threads }

-- The thread takes the negotiation with the peer.
unfoldable pub begin : ℕ → ℕ → Bool → Station → Station
unfolding goes_to set
begin i r v s = goes_to i (negotiates r v) (record s { negotiating = set r true s.negotiating })

-- The turn of the loop in which a master waits, and what a slave does.
unfoldable pub admit : ℕ → ℕ → Bool → Station → Station
unfolding is_master begin goes_to
admit i r v s =
    if is_master r s
    then (if s.negotiating r then goes_to i (waits r v) s else begin i r v s)
    else goes_to i (negotiates r v) s

unfoldable pub check_already : ℕ → ℕ → Bool → Station → Station
unfolding admit goes_to
check_already i r v s = if s.hosts r then goes_to i (done already) s else admit i r v s

-- `pop_negotiation`, which only a master sets.
unfoldable pub pop_negotiation : ℕ → Station → ℕ → Bool
unfolding is_master set
pop_negotiation r s = if is_master r s then set r false s.negotiating else s.negotiating

-- The end of `_negotiate`, by `return` or by an exception.
unfoldable pub finish : ℕ → ℕ → Result → Station → Station
unfolding pop_negotiation goes_to
finish i r x s = goes_to i (done x) (record s { negotiating = pop_negotiation r s })

unfoldable pub add_host : ℕ → ℕ → Station → Station
unfolding finish set
add_host i r s = finish i r connected (record s { hosts = set r true s.hosts })

unfoldable pub respond : ℕ → ℕ → Answer → Station → Station
unfolding is_master finish add_host
respond i r succeeded s =
    if s.hosts r then finish i r (if is_master r s then asserts else conflict) s else add_host i r s
respond i r already_connected s = finish i r already s
respond i r invalid s = finish i r bad_passport s
respond i r other s = finish i r bad_status s
respond i r network_error s = finish i r network s

-- A peer whose passport is not valid is told so, and its answer is not read.
unfoldable pub refuse : ℕ → ℕ → Answer → Station → Station
unfolding finish
refuse i r network_error s = finish i r network s
refuse i r _ s = finish i r bad_passport s

pub data Event : Type 0 where
  arrives : ℕ → ℕ → Bool → Event
  wakes : ℕ → Event
  answers : ℕ → Answer → Event
  terminates : ℕ → Event
  removes : ℕ → Event

-- What a thread does when the peer's passport has come.
unfoldable pub arrive : ℕ → ℕ → Bool → Stage → Station → Station
unfolding check_already goes_to
arrive i r v connecting s =
    if s.passport == r then goes_to i (done itself) s else check_already i r v s
arrive i r v _ s = s

-- `_negotiation_ended` is signalled.
unfoldable pub wake : ℕ → Stage → Station → Station
unfolding check_already
wake i (waits r v) s = check_already i r v s
wake i _ s = s

unfoldable pub answer : ℕ → Answer → Stage → Station → Station
unfolding respond refuse
answer i a (negotiates r v) s = if v then respond i r a s else refuse i r a s
answer i a _ s = s

unfoldable pub terminate : ℕ → Stage → Station → Station
unfolding finish goes_to
terminate i connecting s = goes_to i (done terminated) s
terminate i (waits r v) s = goes_to i (done terminated) s
terminate i (negotiates r v) s = finish i r terminated s
terminate i (done x) s = s

unfoldable pub step : Event → Station → Station
unfolding arrive wake answer terminate set
step (arrives i r v) s = arrive i r v (s.threads i) s
step (wakes i) s = wake i (s.threads i) s
step (answers i a) s = answer i a (s.threads i) s
step (terminates i) s = terminate i (s.threads i) s
step (removes r) s = record s { hosts = set r false s.hosts }

unfoldable pub new_station : ℕ → Station
new_station p = record {
  passport = p;
  hosts = λ r. false;
  negotiating = λ r. false;
  threads = λ i. connecting;
}

unfoldable pub run : List Event → Station → Station
unfolding step
run [] s = s
run (e ∷ r) s = run r (step e s)
