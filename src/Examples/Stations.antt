-- ===== src/Examples/Stations.antt =====
-- station/src/station: the theorem on a station at two negotiations with one peer.
use infinit_io.Base.{◌≡◌, refl, true, List, [], ◌∷◌}
use infinit_io.Station.Negotiation.{
  succeeded, already, connected, done, Event, arrives, wakes, answers, new_station, run,
}
use infinit_io.Station.Alone.{Alone}
use infinit_io.Station.Reached.{run-Alone}

-- The second one waits for the first one, which succeeds.
abbrev two_negotiations : List Event
two_negotiations = arrives 0 9 true ∷ arrives 1 9 true ∷ answers 0 succeeded ∷ wakes 1 ∷ []

run-Alone_example : Alone (run two_negotiations (new_station 5))
run-Alone_example = run-Alone 5 two_negotiations

first_connected : (run two_negotiations (new_station 5)).threads 0 ≡ done connected
unfolding run new_station
first_connected = refl

second_refused : (run two_negotiations (new_station 5)).threads 1 ≡ done already
unfolding run new_station
second_refused = refl
