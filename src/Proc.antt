-- ===== src/Proc.antt =====
-- cs350/cs350-18f-lab6-base/proc.c and proc.h: the process table and the routines that change it.
-- A routine that runs under `ptable.lock` is one function; one that sleeps ends where it calls
-- `sched`. A pointer to a process is its index in the table.
pub mod Services
pub mod Life
pub mod Table
pub mod Exit
pub mod Wait
pub mod Fork
pub mod Kill
pub mod System
mod Tests
use schoolstuff.Base.{
  ℕ, zero, suc, ◌+◌, Bool, true, false, ◌&&◌, ◌||◌, Option, none, some, ltb, ◌==◌, if◌then◌else◌,
  update,
}

-- NPROC
abbrev pub nproc : ℕ
nproc = 64

-- `enum procstate`
pub data State : Type 0 where
  unused embryo sleeping runnable running zombie : State

-- What a process sleeps on: nothing, a process (its parent waits on itself), or another address.
pub data Chan : Type 0 where
  null : Chan
  proc : ℕ → Chan
  address : ℕ → Chan

-- `struct proc` without the saved registers (`tf`, `context`) and the name.
pub record Proc : Type 0 where
  pub sz : ℕ
  pub pgdir : ℕ
  pub kstack : ℕ
  pub state : State
  pub pid : ℕ
  pub parent : Option ℕ
  pub chan : Chan
  pub killed : Bool
  pub ofile : ℕ → ℕ
  pub cwd : ℕ

-- `ptable` with `nextpid` and `initproc`.
pub record Ptable : Type 0 where
  pub procs : ℕ → Proc
  pub nextpid : ℕ
  pub initproc : ℕ

abbrev pub is_unused : State → Bool
is_unused State.unused = true
is_unused _ = false

abbrev pub is_sleeping : State → Bool
is_sleeping State.sleeping = true
is_sleeping _ = false

abbrev pub is_zombie : State → Bool
is_zombie State.zombie = true
is_zombie _ = false

abbrev pub is_runnable : State → Bool
is_runnable State.runnable = true
is_runnable _ = false

abbrev pub is_running : State → Bool
is_running State.running = true
is_running _ = false

abbrev pub same_chan : Chan → Chan → Bool
same_chan Chan.null Chan.null = true
same_chan (Chan.proc i) (Chan.proc j) = i == j
same_chan (Chan.address a) (Chan.address b) = a == b
same_chan _ _ = false

-- A process as a channel, and a comparison of a `parent` field with a process.
abbrev pub chan_of : Option ℕ → Chan
chan_of none = Chan.null
chan_of (some i) = Chan.proc i

abbrev pub is_child_of : ℕ → Proc → Bool
is_child_of cur p = elim (p.parent) [ none ↦ false | some i ↦ i == cur ]

-- The loop body of `wakeup1`.
unfoldable pub wake : Chan → Proc → Proc
wake c p =
    if is_sleeping p.state && same_chan p.chan c then record p { state = State.runnable } else p

-- `for (p = ptable.proc; …; p++)` with a body that changes only `*p`: `n` rounds from slot `i`.
unfoldable pub each : (Proc → Proc) → ℕ → ℕ → (ℕ → Proc) → ℕ → Proc
each f zero i ps = ps
each f (suc n) i ps = each f n (i + 1) (update ps i (f (ps i)))

unfoldable pub wakeup1 : Chan → (ℕ → Proc) → ℕ → Proc
unfolding each wake
wakeup1 c ps = each (wake c) nproc 0 ps

-- `wakeup` takes the lock around `wakeup1`.
unfoldable pub wakeup : Chan → Ptable → Ptable
wakeup c t = record t { procs = wakeup1 c t.procs }

-- The search of `allocproc` for an UNUSED slot.
unfoldable pub find_unused : ℕ → ℕ → (ℕ → Proc) → Option ℕ
find_unused zero i ps = none
find_unused (suc n) i ps =
    let rest = find_unused n (i + 1) ps in if is_unused (ps i).state then some i else rest

-- The loop of `kill`: whether a slot with the pid was found, and the table.
abbrev pub kill_one : Proc → Proc
kill_one p =
    if is_sleeping p.state
    then record p { killed = true; state = State.runnable }
    else record p { killed = true }

unfoldable pub kill_from : ℕ → ℕ → ℕ → (ℕ → Proc) → Bool × (ℕ → Proc)
kill_from zero i pid ps = (false, ps)
kill_from (suc n) i pid ps =
    let rest = kill_from n (i + 1) pid ps in
    if (ps i).pid == pid then (true, update ps i (kill_one (ps i))) else rest

-- `kill`: true for 0 and false for -1.
unfoldable pub kill : ℕ → Ptable → Bool × Ptable
kill pid t = let (found, ps) = kill_from nproc 0 pid t.procs in (found, record t { procs = ps })

-- The part of `sleep` before `sched`, and the part after it.
unfoldable pub sleep : ℕ → Chan → Ptable → Ptable
sleep cur c t = record t {
  procs = update t.procs cur (record (t.procs cur) { chan = c; state = State.sleeping });
}

unfoldable pub end_sleep : ℕ → Ptable → Ptable
end_sleep cur t = record t {
  procs = update t.procs cur (record (t.procs cur) { chan = Chan.null });
}

-- `yield` before `sched`.
unfoldable pub yield_cpu : ℕ → Ptable → Ptable
yield_cpu cur t = record t {
  procs = update t.procs cur (record (t.procs cur) { state = State.runnable });
}

-- One round of the scan of `scheduler` at slot `i`: the process it switches to, if any.
unfoldable pub schedule : ℕ → Ptable → Option ℕ × Ptable
schedule i t =
    if is_runnable (t.procs i).state
    then (
      some i,
      record t { procs = update t.procs i (record (t.procs i) { state = State.running }) },
    )
    else (none, t)
