-- ===== src/Proc/Tests.antt =====
-- The theorems about processes at concrete tables.
use schoolstuff.Base.{
  ℕ, ◌+◌, ◌≡◌, refl, true, false, Option, none, some, arith, ◌==◌, if◌then◌else◌, update,
}
use schoolstuff.Base.Outcome.{ok}
use schoolstuff.Proc.{nproc, State, Chan, Proc, Ptable, find_unused, kill, schedule, yield_cpu}
use schoolstuff.Proc.Services.{Services}
use schoolstuff.Proc.Life.{
  fork_from, fork_into, give_stack, fork, dup_files, allocproc, exit_locked, wait_from, found,
}
use schoolstuff.Proc.Table.{is_zombie_child}
use schoolstuff.Proc.Wait.{exit_wakes_wait}
use schoolstuff.Proc.Fork.{ForkEffect, fork-effect}
use schoolstuff.Proc.Kill.{kill_unused}
use schoolstuff.Proc.System.{Inv, Reach, here, next, claims, gets_stack, forks, yields, runs}
use schoolstuff.Proc.System.Steps.{Reach-Inv}

-- A kernel with unlimited memory: the state counts the pages given out.
abbrev roomy : Services
roomy = record {
  Res = ℕ;
  kalloc = λ n. (4096, n + 1);
  kfree = λ a n. ok n;
  copyuvm = λ a b n. (4096, n);
  freevm = λ a n. ok n;
  filedup = λ a n. ok n;
  fileclose = λ a n. ok n;
  idup = λ a n. ok n;
  put_cwd = λ a n. ok n;
}

abbrev free_slot : Proc
free_slot = record {
  sz = 0;
  pgdir = 0;
  kstack = 0;
  state = State.unused;
  pid = 0;
  parent = none;
  chan = Chan.null;
  killed = false;
  ofile = λ fd. 0;
  cwd = 0;
}

abbrev init_proc : Proc
init_proc = record free_slot {
  state = State.running;
  pid = 1;
  pgdir = 4096;
  kstack = 4096;
  cwd = 1;
}

-- Only init, in slot 0.
abbrev booted : Ptable
booted = record { procs = λ j. if j == 0 then init_proc else free_slot; nextpid = 2; initproc = 0 }

-- A shell in slot 1 that waits for its child in slot 2.
abbrev shell : Proc
shell = record free_slot { state = State.sleeping; chan = Chan.proc 1; pid = 2; parent = some 0 }

abbrev command : Proc
command = record free_slot { state = State.running; pid = 3; parent = some 1 }

abbrev busy : Ptable
busy = record {
  procs = update (update (λ j. if j == 0 then init_proc else free_slot) 1 shell) 2 command;
  nextpid = 4;
  initproc = 0;
}

booted-Inv : Inv booted
booted-Inv = record {
  init_in = omega arith;
  init_live = refl;
  parents = λ j hj u ne. absurd (ground arith);
  pids_below = λ j hj u. ground arith;
  pids_unique = λ i j hi hj ui uj e. ground arith;
}

-- Init claims a slot and is switched out and in again before its child has a stack; the child is
-- then forked, init yields, and the scheduler switches to the child.
forked : (t : Ptable) × Reach roomy booted t
unfolding fork_from give_stack fork_into find_unused dup_files yield_cpu schedule
forked = (
  _,
  next
      (next
        (next
          (next
            (next
              (next (next here (claims 0 1 (omega arith, refl) refl (omega arith)))
                (yields 0 (omega arith, refl)))
              (runs 0 (omega arith)))
            (gets_stack 1 0 (omega arith) refl))
          (forks 0 1 1 (omega arith, refl) (omega arith) refl refl))
        (yields 0 (omega arith, refl)))
      (runs 1 (omega arith)),
)

Reach-Inv_example : Inv forked.0
Reach-Inv_example = Reach-Inv roomy booted-Inv forked.1

child_runs : ((forked.0.procs 1).state ≡ State.running) × ((forked.0.procs 1).pid ≡ 2)
unfolding forked schedule yield_cpu fork_from fork_into give_stack find_unused dup_files
child_runs = (refl, refl)

fork-effect_example : (res : Option ℕ) × (t' : Ptable) × ForkEffect 0 booted t' res
unfolding fork find_unused dup_files
fork-effect_example = (_, _, fork-effect roomy 0 booted 0 refl)

exit_wakes_wait_example :
    (((exit_locked 2 busy).procs 1).state ≡ State.runnable)
    × ((k : ℕ) × (wait_from 1 nproc 0 false (exit_locked 2 busy).procs ≡ found k)
        × (is_zombie_child 1 ((exit_locked 2 busy).procs k) ≡ true))
exit_wakes_wait_example =
    exit_wakes_wait 2 1 busy (omega arith) (omega arith) (omega arith) refl refl refl

kill_unused_example :
    let (hit, t') = kill 0 booted in
    let (slot, t'', _) = allocproc roomy t' 0 in
    (hit ≡ true) × (slot ≡ some 1) × ((t''.procs 1).killed ≡ true)
unfolding find_unused
kill_unused_example =
    kill_unused roomy 0 1 booted 0 refl (omega arith) refl refl (λ j h. ground arith) (omega arith)
