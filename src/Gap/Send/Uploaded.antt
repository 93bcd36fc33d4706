-- ===== src/Gap/Send/Uploaded.antt =====
-- PeerSendMachine.cc, `_cloud_operation`: which bytes are in the cloud, however the threads take
-- turns.
use infinit_io.Base.{
  ℕ, suc, ◌+◌, ◌<◌, ◌≤◌, ◌≡◌, ◌⊎◌, refl, Bool, true, false, List, arith, length, inl, inr,
  Bool-cases, subst, sym, has, u32,
}
use infinit_io.Gap.Send.Cloud.{
  Cursor, Position, Work, idle, putting, returned, Pipeline, put, before, start, claimed,
}
use infinit_io.Gap.Send.Cursor.{size_of, start_of}
use infinit_io.Gap.Send.Claiming.{Place, Handed, behind}
use infinit_io.Gap.Send.Workers.{
  bytes_before, covers, holds, is_returned, returns, returns_le, returns-put, returns-put_returned,
  put_inv, put_self, holds-put,
}

-- A byte is in the cloud.
abbrev pub Stored : ℕ → ℕ → Pipeline → Type 0
Stored f p s = has (covers f p) s.stored ≡ true

-- A thread is putting a byte.
abbrev pub InFlight : ℕ → ℕ → ℕ → (ℕ → Work) → Type 0
InFlight threads f p d = (i : ℕ) × (i ≤ threads) × (holds f p (d i) ≡ true)

pub record IsSound (files : List (ℕ × ℕ)) (threads : ℕ) (s : Pipeline) : Type 0 where
  pub place : Place files (returns s.doing (suc threads)) s.cursor
  pub kept :
      (f p : ℕ)
      → start_of files f ≤ p
      → p < size_of files f
      → behind f p s.cursor ≡ true
      → Stored f p s ⊎ InFlight threads f p s.doing
  pub ordered : (i : ℕ) (b : Position) → s.doing i ≡ putting b → before b (s.last i) ≡ false
  pub real :
      (i : ℕ) (b : Position)
      → s.doing i ≡ putting b
      → (b.1 < size_of files b.0) × (behind b.0 b.1 s.cursor ≡ true)
  pub lasts : (i : ℕ) → (s.last i).1 ≤ size_of files (s.last i).0
  pub passed : (i : ℕ) → (s.last i ≡ (0, 0)) ⊎ (behind (s.last i).0 (s.last i).1 s.cursor ≡ true)
  pub acked :
      (f p : ℕ)
      → start_of files f ≤ p
      → p < size_of files f
      → bytes_before files f p < s.acknowledge_position
      → Stored f p s
  pub ended : (i : ℕ) → s.doing i ≡ returned → length files < u32 (s.cursor.file + 1)

pub start-IsSound : (files : List (ℕ × ℕ)) (threads : ℕ) → IsSound files threads start
unfolding start
start-IsSound files threads = record {
  place = Place.fresh refl refl refl;
  kept = λ f p a b h. absurd (ground arith);
  ordered = λ i b h. absurd (ground arith);
  real = λ i b h. absurd (ground arith);
  lasts = λ i. omega arith;
  passed = λ i. inl refl;
  acked = λ f p a b h. absurd (omega arith);
  ended = λ i h. absurd (ground arith);
}

module _ (files : List (ℕ × ℕ)) (threads : ℕ) (few : length files + threads < 4294967293)
    (small : (f : ℕ) → size_of files f < 18446744073709289472) where
  -- A thread that finds no more files.
  returns-IsSound :
      (i : ℕ) (c : Cursor) (s : Pipeline)
      → i ≤ threads
      → s.doing i ≡ idle
      → IsSound files threads s
      → Handed files (returns s.doing (suc threads)) s.cursor (c, false)
      → IsSound files threads (claimed i (c, false) s)
  unfolding claimed put
  returns-IsSound i c s le h w g =
      let running : is_returned (s.doing i) ≡ false =
        subst (λ x. is_returned x ≡ false) (sym h) refl in
      let more = returns-put_returned s.doing i running (suc threads) (omega arith) in
      let (e0, e1, e2) = g.ended refl in
      record {
        place = Place.after e0 e1 (omega arith);
        kept = λ f p a b k. elim (w.kept f p a b (g.skips f p a b k)) [
          | inl x ↦ inl x
          | inr (j, lt, o) ↦ inr (
            j,
            lt,
            holds-put f p i j returned s.doing (subst (λ x. holds f p x ≡ false) (sym h) refl) o,
          )
        ];
        ordered = λ j b k. elim (put_inv i j returned (putting b) s.doing k) [
          | inl e ↦ absurd (ground (arith, e.1))
          | inr e ↦ w.ordered j b e.1
        ];
        real = λ j b k. elim (put_inv i j returned (putting b) s.doing k) [
          | inl e ↦ absurd (ground (arith, e.1))
          | inr e ↦ ((w.real j b e.1).0, g.keeps b.0 b.1 (w.real j b e.1).1)
        ];
        lasts = w.lasts;
        passed = λ j. elim (w.passed j) [
          | inl e ↦ inl e
          | inr e ↦ inr (g.keeps (s.last j).0 (s.last j).1 e)
        ];
        acked = w.acked;
        ended = λ j k. omega (arith, returns_le s.doing (suc threads));
      }

  -- A thread that claims a block.
  claims-IsSound :
      (i : ℕ) (c : Cursor) (s : Pipeline)
      → i ≤ threads
      → s.doing i ≡ idle
      → IsSound files threads s
      → Handed files (returns s.doing (suc threads)) s.cursor (c, true)
      → IsSound files threads (claimed i (c, true) s)
  unfolding claimed put
  claims-IsSound i c s le h w g =
      let b : Position = (c.file, c.position) in
      let c' : Cursor = (claimed i (c, true) s).cursor in
      let fits = small c.file in
      let (in_files, in_file) = g.inside refl in
      let running : is_returned (s.doing i) ≡ false =
        subst (λ x. is_returned x ≡ false) (sym h) refl in
      let same = returns-put s.doing i running (putting b) (suc threads) refl in
      let further : (f p : ℕ) → behind f p s.cursor ≡ true → behind f p c' ≡ true =
        λ (f p : ℕ) k. let k' = g.keeps f p k in ground arith in
      let new : (j : ℕ) → before b (s.last j) ≡ false = λ (j : ℕ). elim (w.passed j) [
        | inl e ↦ subst (λ x. before b x ≡ false) (sym e) (ground arith)
        | inr e ↦ let e' = g.keeps (s.last j).0 (s.last j).1 e in ground arith
      ] in
      record {
        place = Place.within in_files (g.placed refl);
        kept = λ f p x y k. elim (Bool-cases (covers f p b)) [
          | inl e ↦
              inr (i, le, subst (λ x. holds f p x ≡ true) (sym (put_self i (putting b) s.doing)) e)
          | inr e ↦ elim (w.kept f p x y (g.skips f p x y (ground arith))) [
            | inl z ↦ inl z
            | inr (j, lt, o) ↦ inr (
              j,
              lt,
              holds-put f p i j (putting b) s.doing (subst (λ x. holds f p x ≡ false) (sym h) refl)
                  o,
            )
          ]
        ];
        ordered = λ j d k. elim (put_inv i j (putting b) (putting d) s.doing k) [
          | inl e ↦ let same : b ≡ d = cc in subst (λ x. before x (s.last j) ≡ false) same (new j)
          | inr e ↦ w.ordered j d e.1
        ];
        real = λ j d k. elim (put_inv i j (putting b) (putting d) s.doing k) [
          | inl e ↦
              let same : b ≡ d = cc in
              subst (λ x. (x.1 < size_of files x.0) × (behind x.0 x.1 c' ≡ true)) same
                (in_file, ground arith)
          | inr e ↦ ((w.real j d e.1).0, further d.0 d.1 (w.real j d e.1).1)
        ];
        lasts = w.lasts;
        passed = λ j. elim (w.passed j) [
          | inl e ↦ inl e
          | inr e ↦ inr (further (s.last j).0 (s.last j).1 e)
        ];
        acked = w.acked;
        ended = λ j k. elim (put_inv i j (putting b) returned s.doing k) [
          | inl e ↦ absurd (ground (arith, e.1))
          | inr e ↦ absurd (omega (arith, w.ended j e.1, g.grows))
        ];
      }

  pub claimed-IsSound :
      (i : ℕ) (c : Cursor) (b : Bool) (s : Pipeline)
      → i ≤ threads
      → s.doing i ≡ idle
      → IsSound files threads s
      → Handed files (returns s.doing (suc threads)) s.cursor (c, b)
      → IsSound files threads (claimed i (c, b) s)
  claimed-IsSound i c true s = claims-IsSound i c s
  claimed-IsSound i c false s = returns-IsSound i c s
