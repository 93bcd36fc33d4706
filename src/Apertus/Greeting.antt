-- ===== src/Apertus/Greeting.antt =====
-- oracles/apertus/server/src/infinit/oracles/apertus/Accepter.cc, the first part of `_handle`, and
-- fist/src/surface/gap/Rounds.cc: what a client sends to be paired, and what the server reads.
use infinit_io.Base.{
  ℕ, ◌%◌, ◌≡◌, ◌<◌, refl, Bool, true, false, Option, none, some, List, [], ◌∷◌, ◌++◌, ◌==◌, leb,
  if◌then◌else◌, length, take, drop, length-append, take-append, take_all, drop-append, drop_all,
  arith,
}

abbrev pub Bytes : Type 0
Bytes = List ℕ

-- `Apertus::TID`.
abbrev pub Tid : Type 0
Tid = List ℕ

-- `FallbackRound::connect`: the version, the size in a `char`, and the transaction's identifier.
unfoldable pub greeting : Tid → Bytes
greeting uid = 0 ∷ length uid % 256 ∷ uid

-- `std::string(tid_array)`: the characters before the first null.
unfoldable pub c_string : Bytes → Tid
c_string [] = []
c_string (b ∷ bs) = let rest = c_string bs in if b == 0 then [] else b ∷ rest

-- The identifier, of a known size; `none` where the connection is closed before its last byte.
unfoldable pub read_tid : Bool → ℕ → Bytes → Option (Bool × Tid × Bytes)
read_tid sync size bs =
    if leb size (length bs) then some (sync, c_string (take size bs), drop size bs) else none

-- A new client's: the size comes first.
unfoldable pub read_size : Bytes → Option (Bool × Tid × Bytes)
unfolding read_tid
read_size [] = none
read_size (size ∷ bs) = read_tid true size bs

-- The whole greeting: whether the client waits for the synchronisation byte, its identifier, and
-- what it has sent after that. The version of an old client is the size.
unfoldable pub read_greeting : Bytes → Option (Bool × Tid × Bytes)
unfolding read_tid read_size
read_greeting [] = none
read_greeting (version ∷ bs) = if version == 0 then read_size bs else read_tid false version bs

-- An identifier that is a C string.
abbrev pub NoNull : Bytes → Type 0
NoNull [] = Unit
NoNull (b ∷ bs) = ((b == 0) ≡ false) × NoNull bs

c_string-NoNull : (bs : Bytes) → NoNull bs → c_string bs ≡ bs
unfolding c_string
c_string-NoNull [] h = refl
c_string-NoNull (b ∷ bs) (h, hs) = ground (arith, c_string-NoNull bs hs)

read_tid-exact :
    (sync : Bool) (uid rest : Bytes)
    → NoNull uid
    → read_tid sync (length uid) (uid ++ rest) ≡ some (sync, uid, rest)
unfolding read_tid
read_tid-exact sync uid rest h =
    let e : leb (length uid) (length (uid ++ rest)) ≡ true =
      ground (arith, length-append uid rest) in
    rw
      (
        e,
        take-append (length uid) uid rest (omega arith),
        take_all (length uid) uid (omega arith),
        drop-append (length uid) uid rest (omega arith),
        drop_all uid,
        c_string-NoNull uid h,
      )
      refl

-- What a client sends before anything else is read back as its transaction's identifier, where it
-- is shorter than 256 bytes and none of them is null; what it sends afterwards is left on the
-- socket.
pub read_greeting-greeting :
    (uid rest : Bytes)
    → NoNull uid
    → length uid < 256
    → read_greeting (greeting uid ++ rest) ≡ some (true, uid, rest)
unfolding read_greeting read_size greeting
read_greeting-greeting uid rest h lt =
    let e : length uid % 256 ≡ length uid = omega arith in
    rw (e, read_tid-exact true uid rest h) refl
