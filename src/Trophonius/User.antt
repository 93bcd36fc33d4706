-- ===== src/Trophonius/User.antt =====
-- oracles/trophonius/server/src/infinit/oracles/trophonius/server/User.{hh,cc}: one connection of a
-- user, what its client sends, and what its threads do with it alone.
use infinit_io.Base.{ℕ, Bool, true, false, Option, none, some, List, [], ◌∷◌, ◌++◌}

-- The identifiers of a user and of one of its devices.
pub record Device : Type 0 where
  pub user_id : ℕ
  pub device_id : ℕ

-- What is written on the socket.
pub data Message : Type 0 where
  granted : Message
  refused : Message
  ping : Message
  echo : ℕ → Message
  notification : ℕ → Message

pub record User : Type 0 where
  pub device : Option Device
  pub registered : Bool
  pub authentified : Bool
  -- waits in `_handle` for meta to answer
  pub connecting : Bool
  pub pinged : Bool
  -- the deadline for the login is set
  pub timeout : Bool
  pub notifications : List ℕ
  pub written : List Message

unfoldable pub new_user : User
new_user = record {
  device = none;
  registered = false;
  authentified = false;
  connecting = false;
  pinged = false;
  timeout = true;
  notifications = [];
  written = [];
}

-- The fields of a packet that `_handle` looks at.
pub record Packet : Type 0 where
  pub notification_type : Bool
  pub ids : Option Device
  pub poke : Option ℕ

-- What meta answers to `connect`.
pub data Answer : Type 0 where
  accepts : Answer
  refuses : Answer
  fails : Answer

unfoldable pub write : Message → User → User
write m x = record x { written = x.written ++ m ∷ [] }

unfoldable pub notify : ℕ → User → User
notify k x = record x { notifications = x.notifications ++ k ∷ [] }

unfoldable pub login : Device → User → User
login d x = record x { device = some d; timeout = false; connecting = true }

unfoldable pub accept : User → User
unfolding write
accept x = record (write Message.granted x) {
  registered = true;
  authentified = true;
  connecting = false;
}
