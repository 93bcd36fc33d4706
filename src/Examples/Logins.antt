-- ===== src/Examples/Logins.antt =====
-- oracles/trophonius: the theorems at two connections of one device.
use infinit_io.Base.{
  ◌≡◌, refl, true, false, none, some, [], ◌∷◌, ◌==◌, has, remove, find, erase, assign,
}
use infinit_io.Trophonius.User.{Device, Message, User, new_user, Answer, write, login, accept}
use infinit_io.Trophonius.Server.{
  Call, Trophonius, new_trophonius, find_device, insert_user, serve, set_user, delete_previous,
  remove_previous, enter_users, connect, logged, handle, answered, connected, client_step,
  client_turn, Event, step, Reach,
}
use infinit_io.Trophonius.Places.{Sound}
use infinit_io.Trophonius.Memory.{Reach-Sound}
use infinit_io.Trophonius.Login.{login_packet}
use infinit_io.Trophonius.Refusal.{refused-disconnects}
use infinit_io.Trophonius.Quiet.{Orderly, Reach-Orderly}

abbrev phone : Device
phone = record { user_id = 5; device_id = 6 }

-- The client 0 is logged in as the phone, whose login was granted.
abbrev granted_user : User
granted_user = record {
  device = some phone;
  registered = true;
  authentified = true;
  connecting = false;
  pinged = false;
  timeout = false;
  notifications = [];
  written = Message.granted ∷ [];
}

abbrev fresh_user : User
fresh_user = record {
  device = none;
  registered = false;
  authentified = false;
  connecting = false;
  pinged = false;
  timeout = true;
  notifications = [];
  written = [];
}

-- The client 1 has connected too.
abbrev two_clients : Trophonius
two_clients = record {
  allocated = 2;
  heap = (0, granted_user) ∷ (1, fresh_user) ∷ [];
  users = record { client = 0; device = phone } ∷ [];
  pending = 1 ∷ [];
  leaving = [];
  calls = Call.connects phone ∷ [];
}

reached : Reach two_clients
unfolding step new_trophonius new_user find_device insert_user serve set_user delete_previous
    remove_previous enter_users connect logged handle answered connected client_step client_turn has
    remove find erase assign login accept write
reached =
    Reach.later Event.accepted
      (Reach.later (Event.meta_answered 0 Answer.accepts)
        (Reach.later (Event.received 0 (login_packet phone))
          (Reach.later Event.accepted Reach.start refl) refl)
        refl)
      refl

Reach-Sound_example : Sound 1 two_clients
Reach-Sound_example = Reach-Sound two_clients 1 reached

Reach-Orderly_example : Orderly granted_user
unfolding find
Reach-Orderly_example = Reach-Orderly two_clients 0 granted_user reached refl

refused-disconnects_example :
    (s1 : Trophonius) × (s2 : Trophonius) × (step
        (Event.received 1 (login_packet phone))
        two_clients
      ≡ some s1)
    × (step (Event.meta_answered 1 Answer.refuses) s1 ≡ some s2)
    × (find_device phone s2.users ≡ none)
    × (find ◌==◌ 0 s1.heap ≡ none)
    × (s2.calls ≡ Call.connects phone ∷ [])
unfolding find has find_device
refused-disconnects_example =
    refused-disconnects 1 0 fresh_user phone two_clients reached refl refl refl refl
