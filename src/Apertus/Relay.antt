-- ===== src/Apertus/Relay.antt =====
-- oracles/apertus/server/src/infinit/oracles/apertus/Transfer.cc: `_handle` in the two directions of
-- a transfer, whose threads take turns in any order.
use infinit_io.Base.{
  ◌≤◌, ◌-◌, if_cases, ◌<◌, ℕ, ◌+◌, ◌≡◌, refl, Bool, true, false, List, [], ◌∷◌, ◌++◌, if◌then◌else◌,
  length, take, drop, u32, take-drop, length-append, sym, ap, ◌∙◌, min, arith,
}
use mathlib.Core.List.{append_assoc, append-nil}
use infinit_io.Apertus.Greeting.{Bytes}

abbrev pub buff_size : ℕ
buff_size = 16777216

-- One direction: what the sender's socket still has to give, what is left to write of the block read last,
-- the size of that block, 0 once it is written, and what was written to the other.
pub record Side : Type 0 where
  pub unread : Bytes
  pub pending : Bytes
  pub block : ℕ
  pub written : Bytes

pub record Relay : Type 0 where
  pub ltr : Side
  pub rtl : Side
  pub bandwidth : ℕ
  pub running : Bool

-- A turn of a direction: `read_some` gives, or the write takes, at most this many bytes; or it throws, which
-- ends the transfer.
pub record Turn : Type 0 where
  pub from_left : Bool
  pub amount : ℕ
  pub throws : Bool

-- What is left of a block after a part of it was written: when nothing is, its size is added.
unfoldable pub wrote : Bytes → Bytes → Side → ℕ → Side × ℕ × Bool
wrote [] part d bandwidth = (
  record d { pending = []; block = 0; written = d.written ++ part },
  u32 (bandwidth + d.block),
  true,
)
wrote (b ∷ bs) part d bandwidth =
    (record d { pending = b ∷ bs; written = d.written ++ part }, bandwidth, true)

-- What `_handle` does in a turn that does not throw, with these bytes still to write.
unfoldable pub pass : Bytes → ℕ → Side → ℕ → Side × ℕ × Bool
unfolding wrote
pass [] amount d bandwidth =
    let size : ℕ = min amount buff_size in
    (
      record d {
        unread = drop size d.unread;
        pending = take size d.unread;
        block = length (take size d.unread);
      },
      bandwidth,
      true,
    )
pass (b ∷ bs) amount d bandwidth = wrote (drop amount (b ∷ bs)) (take amount (b ∷ bs)) d bandwidth

unfoldable pub forward : Turn → Side → ℕ → Side × ℕ × Bool
unfolding pass
forward t d bandwidth =
    if t.throws then (d, bandwidth, false) else pass d.pending t.amount d bandwidth

-- A turn of one of the two threads.
unfoldable pub forward_turn : Turn → Relay → Relay
unfolding forward
forward_turn t r =
    if t.from_left
    then (record r {
      ltr = (forward t r.ltr r.bandwidth).0;
      bandwidth = (forward t r.ltr r.bandwidth).1;
      running = (forward t r.ltr r.bandwidth).2;
    })
    else (record r {
      rtl = (forward t r.rtl r.bandwidth).0;
      bandwidth = (forward t r.rtl r.bandwidth).1;
      running = (forward t r.rtl r.bandwidth).2;
    })

-- Both threads are terminated when one of them throws.
unfoldable pub turn : Turn → Relay → Relay
unfolding forward_turn
turn t r = if r.running then forward_turn t r else r

unfoldable pub relay : List Turn → Relay → Relay
unfolding turn
relay [] r = r
relay (t ∷ ts) r = relay ts (turn t r)

unfoldable pub new_relay : Bytes → Bytes → ℕ → Relay
new_relay left right bandwidth = record {
  ltr = record { unread = left; pending = []; block = 0; written = [] };
  rtl = record { unread = right; pending = []; block = 0; written = [] };
  bandwidth = bandwidth;
  running = true;
}

-- What was written, what is left of the block that was read and what was not read are what was sent.
pub record Faithful (sent : Bytes) (d : Side) : Type 0 where
  pub kept : d.written ++ (d.pending ++ d.unread) ≡ sent
  pub among : d.block ≤ length d.written + length d.pending
  pub left_of : length d.pending ≤ d.block
  pub idle : d.pending ≡ [] → d.block ≡ 0

-- The bytes of the blocks that are written wholly.
unfoldable pub passed : Side → ℕ
passed d = length d.written + length d.pending - d.block

wrote-Faithful :
    (rest part whole : Bytes) (d : Side) (n : ℕ) (sent : Bytes)
    → part ++ rest ≡ whole
    → d.pending ≡ whole
    → Faithful sent d
    → Faithful sent (wrote rest part d n).0
unfolding wrote
wrote-Faithful [] part whole d n sent e p h = record {
  kept =
      append_assoc d.written part d.unread
      ∙ ap (λ u. d.written ++ (u ++ d.unread)) (sym (append-nil part) ∙ e ∙ sym p)
      ∙ h.kept;
  among = omega arith;
  left_of = omega arith;
  idle = λ _. refl;
}
wrote-Faithful (b ∷ bs) part whole d n sent e p h =
    let size = length-append part (b ∷ bs) in
    let all = ap length e in
    let old = ap length p in
    record {
      kept =
          append_assoc d.written part ((b ∷ bs) ++ d.unread)
          ∙ ap (◌++◌ d.written)
              (sym (append_assoc part (b ∷ bs) d.unread) ∙ ap (λ u. u ++ d.unread) (e ∙ sym p))
          ∙ h.kept;
      among = omega (arith, size, all, old, h.among, length-append d.written part);
      left_of = omega (arith, size, all, old, h.left_of);
      idle = λ z. absurd (omega (arith, ap length z));
    }

pass-Faithful :
    (xs : Bytes) (amount : ℕ) (d : Side) (n : ℕ) (sent : Bytes)
    → d.pending ≡ xs
    → Faithful sent d
    → Faithful sent (pass xs amount d n).0
unfolding pass
pass-Faithful [] amount d n sent e h =
    let size : ℕ = min amount buff_size in
    record {
      kept =
          ap (◌++◌ d.written) (take-drop size d.unread ∙ ap (λ u. u ++ d.unread) (sym e)) ∙ h.kept;
      among = omega arith;
      left_of = omega arith;
      idle = λ z. ap length z;
    }
pass-Faithful (b ∷ bs) amount d n sent e h =
    wrote-Faithful (drop amount (b ∷ bs)) (take amount (b ∷ bs)) (b ∷ bs) d n sent
      (take-drop amount (b ∷ bs)) e h

wrote-count :
    (rest part whole : Bytes) (d : Side) (n k : ℕ) (sent : Bytes)
    → part ++ rest ≡ whole
    → d.pending ≡ whole
    → Faithful sent d
    → n ≡ u32 (k + passed d)
    → (wrote rest part d n).1 ≡ u32 (k + passed (wrote rest part d n).0)
unfolding wrote passed
wrote-count [] part whole d n k sent e p h c = omega (
  arith,
  c,
  length-append d.written part,
  length-append part [],
  ap length e,
  ap length p,
  h.among,
)
wrote-count (b ∷ bs) part whole d n k sent e p h c =
    let same : length d.written + length d.pending ≡ length (d.written ++ part) + length (b ∷ bs) =
      omega (
        arith,
        length-append d.written part,
        length-append part (b ∷ bs),
        ap length e,
        ap length p,
      ) in
    c ∙ ap (λ u. u32 (k + (u - d.block))) same

pass-count :
    (xs : Bytes) (amount : ℕ) (d : Side) (n k : ℕ) (sent : Bytes)
    → d.pending ≡ xs
    → Faithful sent d
    → n ≡ u32 (k + passed d)
    → (pass xs amount d n).1 ≡ u32 (k + passed (pass xs amount d n).0)
unfolding pass passed
pass-count [] amount d n k sent e h c = omega (arith, c, ap length e, h.idle e)
pass-count (b ∷ bs) amount d n k sent e h c =
    wrote-count (drop amount (b ∷ bs)) (take amount (b ∷ bs)) (b ∷ bs) d n k sent
      (take-drop amount (b ∷ bs)) e h c

-- A transfer of what the two clients have sent, whose server's counter was `n` when it began.
pub record Relayed (left right : Bytes) (n : ℕ) (r : Relay) : Type 0 where
  pub to_right : Faithful left r.ltr
  pub to_left : Faithful right r.rtl
  pub counted : r.bandwidth ≡ u32 (n + passed r.ltr + passed r.rtl)

forward-Faithful :
    (t : Turn) (d : Side) (n : ℕ) (sent : Bytes) → Faithful sent d → Faithful sent (forward t d n).0
unfolding forward
forward-Faithful t d n sent h =
    if_cases (λ (x : Side × ℕ × Bool). Faithful sent x.0) t.throws _ _ (λ _. h)
      (λ _. pass-Faithful d.pending t.amount d n sent refl h)

forward-count :
    (t : Turn) (d : Side) (n k : ℕ) (sent : Bytes)
    → Faithful sent d
    → n ≡ u32 (k + passed d)
    → (forward t d n).1 ≡ u32 (k + passed (forward t d n).0)
unfolding forward
forward-count t d n k sent h c =
    if_cases (λ (x : Side × ℕ × Bool). x.1 ≡ u32 (k + passed x.0)) t.throws _ _ (λ _. c)
      (λ _. pass-count d.pending t.amount d n k sent refl h c)

forward_turn-Relayed :
    (left right : Bytes) (n : ℕ) (t : Turn) (r : Relay)
    → Relayed left right n r
    → Relayed left right n (forward_turn t r)
unfolding forward_turn
forward_turn-Relayed left right n t r i =
    if_cases (Relayed left right n) t.from_left _ _
      (λ _. record {
        to_right = forward-Faithful t r.ltr r.bandwidth left i.to_right;
        to_left = i.to_left;
        counted = omega (
          arith,
          forward-count t r.ltr r.bandwidth (n + passed r.rtl) left i.to_right
              (omega (arith, i.counted)),
        );
      })
      (λ _. record {
        to_right = i.to_right;
        to_left = forward-Faithful t r.rtl r.bandwidth right i.to_left;
        counted = forward-count t r.rtl r.bandwidth (n + passed r.ltr) right i.to_left i.counted;
      })

turn-Relayed :
    (left right : Bytes) (n : ℕ) (t : Turn) (r : Relay)
    → Relayed left right n r
    → Relayed left right n (turn t r)
unfolding turn
turn-Relayed left right n t r i =
    if_cases (Relayed left right n) r.running _ _ (λ _. forward_turn-Relayed left right n t r i)
      (λ _. i)

relay-Relayed :
    (left right : Bytes) (n : ℕ) (ts : List Turn) (r : Relay)
    → Relayed left right n r
    → Relayed left right n (relay ts r)
unfolding relay
relay-Relayed left right n [] r i = i
relay-Relayed left right n (t ∷ ts) r i =
    relay-Relayed left right n ts (turn t r) (turn-Relayed left right n t r i)

-- However the two directions of a transfer take turns, also where a write is cut half way, what has been
-- written to each client, what is left of the block read last and what was not read yet are together what
-- the other has sent, nothing lost, repeated or reordered; and the server's counter has grown by the bytes
-- of the blocks written wholly in both directions, modulo 2^32. The counter starts below 2^32.
pub relay_new :
    (left right : Bytes) (n : ℕ) (ts : List Turn)
    → n < 4294967296
    → Relayed left right n (relay ts (new_relay left right n))
unfolding new_relay passed
relay_new left right n ts lt = relay-Relayed left right n ts (new_relay left right n) (record {
  to_right = record { kept = refl; among = omega arith; left_of = omega arith; idle = λ _. refl };
  to_left = record { kept = refl; among = omega arith; left_of = omega arith; idle = λ _. refl };
  counted = omega (arith, lt);
})
