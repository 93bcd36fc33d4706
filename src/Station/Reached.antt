-- ===== src/Station/Reached.antt =====
-- Station.cc: what holds however the threads of the negotiations interleave.
use infinit_io.Base.{
  ℕ, ◌≡◌, refl, ap, ◌∙◌, Bool, false, List, [], ◌∷◌, ◌==◌, if◌then◌else◌, if_cases, arith,
}
use infinit_io.Station.Negotiation.{
  Answer, already_connected, invalid, succeeded, other, network_error, asserts, already,
  bad_passport, conflict, bad_status, network, itself, terminated, Stage, connecting, waits,
  negotiates, done, Station, is_master, respond, refuse, Event, arrives, wakes, answers, terminates,
  removes, arrive, wake, answer, terminate, step, new_station, run,
}
use infinit_io.Station.Alone.{
  leads, is_asserts, Alone, IsIdle, Negotiates, goes_to-Alone, finish-Alone, check_already-Alone,
  add_host-Alone, removes-Alone,
}

respond-Alone :
    (i r : ℕ) (a : Answer) (s : Station) → Alone s → Negotiates i r s → Alone (respond i r a s)
unfolding respond is_asserts
respond-Alone i r succeeded s w his =
    if_cases Alone (s.hosts r) _ _
      (λ there. finish-Alone i r (if is_master r s then asserts else conflict) s w his (
        if_cases (λ x. is_asserts (done x) ≡ false) (is_master r s) asserts conflict
          (λ m. absurd (ground (arith, his r, w.apart i r (ground (arith, his r))))) (λ _. refl)))
      (λ _. add_host-Alone i r s w his)
respond-Alone i r already_connected s w his = finish-Alone i r already s w his refl
respond-Alone i r invalid s w his = finish-Alone i r bad_passport s w his refl
respond-Alone i r other s w his = finish-Alone i r bad_status s w his refl
respond-Alone i r network_error s w his = finish-Alone i r network s w his refl

refuse-Alone :
    (i r : ℕ) (a : Answer) (s : Station) → Alone s → Negotiates i r s → Alone (refuse i r a s)
unfolding refuse is_asserts
refuse-Alone i r network_error s w his = finish-Alone i r network s w his refl
refuse-Alone i r already_connected s w his = finish-Alone i r bad_passport s w his refl
refuse-Alone i r invalid s w his = finish-Alone i r bad_passport s w his refl
refuse-Alone i r succeeded s w his = finish-Alone i r bad_passport s w his refl
refuse-Alone i r other s w his = finish-Alone i r bad_passport s w his refl

module _ (i : ℕ) (s : Station) (w : Alone s) where
  threads-IsIdle :
      (x : Stage) → s.threads i ≡ x → IsIdle s.passport x → IsIdle s.passport (s.threads i)
  threads-IsIdle x e h = λ q. ap (leads s.passport q) e ∙ h q

  threads-Negotiates : (r : ℕ) (v : Bool) → s.threads i ≡ negotiates r v → Negotiates i r s
  unfolding leads is_master
  threads-Negotiates r v e = λ q. ap (leads s.passport q) e

  arrive-Alone : (r : ℕ) (v : Bool) (x : Stage) → s.threads i ≡ x → Alone (arrive i r v x s)
  unfolding arrive leads is_asserts
  arrive-Alone r v connecting e =
      if_cases Alone (s.passport == r) _ _
        (λ _.
          goes_to-Alone i (done itself) s w (threads-IsIdle connecting e (λ q. refl)) (λ q. refl)
            refl)
        (λ _. check_already-Alone i r v s w (threads-IsIdle connecting e (λ q. refl)))
  arrive-Alone r v (waits q b) e = w
  arrive-Alone r v (negotiates q b) e = w
  arrive-Alone r v (done x) e = w

  wake-Alone : (x : Stage) → s.threads i ≡ x → Alone (wake i x s)
  unfolding wake leads
  wake-Alone connecting e = w
  wake-Alone (waits r v) e =
      check_already-Alone i r v s w (threads-IsIdle (waits r v) e (λ q. refl))
  wake-Alone (negotiates r v) e = w
  wake-Alone (done x) e = w

  answer-Alone : (a : Answer) (x : Stage) → s.threads i ≡ x → Alone (answer i a x s)
  unfolding answer
  answer-Alone a connecting e = w
  answer-Alone a (waits r v) e = w
  answer-Alone a (negotiates r v) e =
      if_cases Alone v _ _ (λ _. respond-Alone i r a s w (threads-Negotiates r v e))
        (λ _. refuse-Alone i r a s w (threads-Negotiates r v e))
  answer-Alone a (done x) e = w

  terminate-Alone : (x : Stage) → s.threads i ≡ x → Alone (terminate i x s)
  unfolding terminate leads is_asserts
  terminate-Alone connecting e =
      goes_to-Alone i (done terminated) s w (threads-IsIdle connecting e (λ q. refl)) (λ q. refl)
        refl
  terminate-Alone (waits r v) e =
      goes_to-Alone i (done terminated) s w (threads-IsIdle (waits r v) e (λ q. refl)) (λ q. refl)
        refl
  terminate-Alone (negotiates r v) e =
      finish-Alone i r terminated s w (threads-Negotiates r v e) refl
  terminate-Alone (done x) e = w

step-Alone : (e : Event) (s : Station) → Alone s → Alone (step e s)
unfolding step
step-Alone (arrives i r v) s w = arrive-Alone i s w r v (s.threads i) refl
step-Alone (wakes i) s w = wake-Alone i s w (s.threads i) refl
step-Alone (answers i a) s w = answer-Alone i s w a (s.threads i) refl
step-Alone (terminates i) s w = terminate-Alone i s w (s.threads i) refl
step-Alone (removes r) s w = removes-Alone r s w

new_station-Alone : (p : ℕ) → Alone (new_station p)
unfolding new_station leads is_asserts
new_station-Alone p = record {
  marked = λ i r h. absurd (ground (arith, h));
  one = λ i j r g h. absurd (ground (arith, h));
  apart = λ i r h. refl;
  sound = λ i. refl;
  led = λ r h. absurd (ground (arith, h));
}

run-kept : (es : List Event) (s : Station) → Alone s → Alone (run es s)
unfolding run
run-kept [] s w = w
run-kept (e ∷ es) s w = run-kept es (step e s) (step-Alone e s w)

-- However the negotiations of a station interleave, at most one thread negotiates as the master with a peer,
-- and only while that peer is no host; the peers so negotiated with are exactly those of
-- `_host_negotiating`; and the assertion on the hosts, after the peer has accepted, never fails.
pub run-Alone : (p : ℕ) (es : List Event) → Alone (run es (new_station p))
run-Alone p es = run-kept es (new_station p) (new_station-Alone p)
