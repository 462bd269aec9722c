-- ===== src/Fs/Logging.antt =====
-- fs.c and log.c: bmap, writei and dirlink with their calls of log_write, which may panic, and logs with room for them.
use native.Mathlib.Decide.{ℕ_discrete}
use schoolstuff.Base.{
  ℕ, ◌+◌, ◌-◌, ◌≤◌, ◌≡◌, refl, true, false, List, [], ◌∷◌, arith, ◌∙◌, length, take, Option, ◌++◌,
  ◌≢◌, sym, ap, length-append, ne→==,
}
use schoolstuff.Base.Outcome.{Outcome, ok, ◌>>=◌}
use schoolstuff.Log.{Log, log_size, log_write}
use schoolstuff.Log.Absorb.{Names, Logs, log_write_lem}
use mathlib.Core.Path.{subst}
use mathlib.Core.List.{append_assoc}
use schoolstuff.Kalloc.FreeList.{has}
use schoolstuff.Bcache.Ring.{has-append}
use schoolstuff.Fs.{Block, Volume, log_block}
use schoolstuff.Fs.Icache.{Cache}
use schoolstuff.Fs.Dir.{dirlink}
use schoolstuff.Fs.Inode.{Inode, Buffer, Devsw, bmap, writei}

-- log_write of each block of a list, whose last one comes first.
unfoldable pub log_all : List ℕ → Log → Outcome Log
log_all [] l = ok l
log_all (b ∷ bs) l = do l' ← log_all bs l; log_write b l'

-- The blocks that were handed to log_write between two volumes.
abbrev pub calls_between : Volume → Volume → List ℕ
calls_between v v' = take (length v'.logged - length v.logged) v'.logged

-- bmap, writei and dirlink in a transaction of the log `l`: the first call of log_write that panics is the end.
unfoldable pub logged_bmap : Inode → ℕ → Volume → Log → Outcome ((ℕ × Inode × Volume) × Log)
logged_bmap ip bn v l = do
  (addr, ip', v') ← bmap ip bn v
  l' ← log_all (calls_between v v') l
  ok ((addr, ip', v'), l')

unfoldable pub logged_writei :
    Devsw → Inode → Buffer → ℕ → ℕ → Volume → Log → Outcome ((Option ℕ × Inode × Volume) × Log)
logged_writei k ip src off n v l = do
  (r, ip', v') ← writei k ip src off n v
  l' ← log_all (calls_between v v') l
  ok ((r, ip', v'), l')

unfoldable pub logged_dirlink :
    Devsw → ℕ → Buffer → ℕ → Cache → Volume → Log → Outcome ((Option ℕ × Cache × Volume) × Log)
logged_dirlink k i name inum c v l = do
  (r, c', v') ← dirlink k i name inum c v
  l' ← log_all (calls_between v v') l
  ok ((r, c', v'), l')

-- A log in which `m` more blocks have room, inside a transaction.
pub record Room (m : ℕ) (l : Log) : Type 0 where
  pub limit : l.n + m ≤ log_size
  pub size : l.n + m ≤ l.size - 1
  pub open_op : 1 ≤ l.outstanding

-- The log after calls for the blocks of a list: it names them all.
pub record Filled (bs : List ℕ) (l l' : Log) : Type 0 where
  pub few : l'.n ≤ l.n + length bs
  pub same_size : l'.size ≡ l.size
  pub same_open : l'.outstanding ≡ l.outstanding
  pub names : (b : ℕ) → has b bs ≡ true → Names l' b

named-next :
    (x : ℕ) (bs : List ℕ) (l1 l' : Log)
    → Logs x l1 l'
    → ((b : ℕ) → has b bs ≡ true → Names l1 b)
    → (b : ℕ) → has b (x ∷ bs) ≡ true
    → Names l' b
named-next x bs l1 l' logs names b h = elim (ℕ_discrete b x) [
  | yes e ↦ subst (Names l') (sym e) logs.names
  | no ne ↦ logs.keeps b (names b (ground (arith, h)))
]

pub log_all-Filled :
    (bs : List ℕ) (m : ℕ) (l : Log)
    → length bs ≤ m
    → Room m l
    → (l' : Log) × (log_all bs l ≡ ok l') × Filled bs l l'
unfolding log_all
log_all-Filled [] m l le room = (
  l,
  refl,
  record {
    few = omega arith;
    same_size = refl;
    same_open = refl;
    names = λ b h. absurd (ground (arith, h));
  },
)
log_all-Filled (b ∷ bs) m l le room =
    let (l1, run, filled) = log_all-Filled bs m l (omega arith) room in
    let few = filled.few in
    let (l', run', logs) = log_write_lem b l1 (
      let a = room.limit in omega (arith, few, a),
      let a = room.size in let e = filled.same_size in omega (arith, few, a, e),
      let a = room.open_op in let e = filled.same_open in omega (arith, a, e),
    ) in
    (
      l',
      rw run run',
      record {
        few = let more = logs.grows.1 in omega (arith, few, more);
        same_size = logs.rest.1 ∙ filled.same_size;
        same_open = logs.rest.0 ∙ filled.same_open;
        names = named-next b bs l1 l' logs filled.names;
      },
    )

-- At most `m` calls have been made, and every block that has changed was handed to one of them.
pub record Calls (m : ℕ) (v v' : Volume) : Type 0 where
  pub blocks : List ℕ
  pub order : v'.logged ≡ blocks ++ v.logged
  pub few : length blocks ≤ m
  pub kept : (b : ℕ) → has b blocks ≡ false → v'.blocks b ≡ v.blocks b

pub Calls-none : (m : ℕ) (v : Volume) → Calls m v v
Calls-none m v = record { blocks = []; order = refl; few = omega arith; kept = λ b h. refl }

pub Calls-log_block : (a : ℕ) (d : Block) (v : Volume) → Calls 1 v (log_block a d v)
Calls-log_block a d v = record {
  blocks = a ∷ [];
  order = refl;
  few = omega arith;
  kept = λ b h. let ne : a ≢ b = ground (arith, h) in rw (ne→== a b ne) refl;
}

pub Calls-trans :
    (a b c : ℕ) (v v1 v2 : Volume) → Calls a v v1 → Calls b v1 v2 → a + b ≤ c → Calls c v v2
Calls-trans a b c v v1 v2 h h' le = record {
  blocks = h'.blocks ++ h.blocks;
  order =
      h'.order ∙ ap (λ l. h'.blocks ++ l) h.order ∙ sym (append_assoc h'.blocks h.blocks v.logged);
  few =
      let n = length-append h'.blocks h.blocks in
      let f = h.few in let f' = h'.few in omega (arith, n, f, f', le);
  kept = λ b no_call.
      let either = has-append b h'.blocks h.blocks in
      h'.kept b (ground (arith, either, no_call)) ∙ h.kept b (ground (arith, either, no_call));
}

pub Calls-weaken : (a c : ℕ) (v v' : Volume) → Calls a v v' → a ≤ c → Calls c v v'
Calls-weaken a c v v' h le =
    let f = h.few in
    record { blocks = h.blocks; order = h.order; few = omega (arith, f, le); kept = h.kept }

take-append : (xs ys : List ℕ) → take (length xs) (xs ++ ys) ≡ xs
take-append [] ys = refl
take-append (x ∷ xs) ys = ap (λ l. x ∷ l) (take-append xs ys)

pub Calls-between : (m : ℕ) (v v' : Volume) (h : Calls m v v') → calls_between v v' ≡ h.blocks
Calls-between m v v' h =
    let n = length-append h.blocks v.logged in
    let count : length (h.blocks ++ v.logged) - length v.logged ≡ length h.blocks =
      omega (arith, n) in
    rw (h.order, count) (take-append h.blocks v.logged)
