-- ===== src/Spinlock.antt =====
-- cs350/cs350-18f-lab6-base/spinlock.c: the locks that CPUs spin on, and the interrupts that are off
-- while a CPU holds one. A pointer to a CPU or a lock is its number; the names and the call stacks
-- that the locks keep for debugging are left out.
pub mod Exclusion
pub mod Safety
mod Tests
use schoolstuff.Base.{
  ℕ, ◌+◌, ◌-◌, Bool, true, false, not, ◌&&◌, Option, none, some, ◌==◌, if◌then◌else◌, update,
}
use schoolstuff.Base.Outcome.{Outcome, ok, panic, panic_if, ◌>>=◌, ◌>>◌}

-- `flag` is FL_IF of the flags register: interrupts are on.
pub record Cpu : Type 0 where
  pub ncli : ℕ
  pub intena : Bool
  pub flag : Bool

pub record Spinlock : Type 0 where
  pub locked : Bool
  pub cpu : Option ℕ

pub record Machine : Type 0 where
  pub cpus : ℕ → Cpu
  pub locks : ℕ → Spinlock

abbrev pub is_cpu : Option ℕ → ℕ → Bool
is_cpu none c = false
is_cpu (some d) c = d == c

abbrev pub holding : Spinlock → ℕ → Bool
holding lock c = lock.locked && is_cpu lock.cpu c

abbrev pub pushcli : Cpu → Cpu
pushcli c = record {
  ncli = c.ncli + 1;
  intena = if c.ncli == 0 then c.flag else c.intena;
  flag = false;
}

-- `ncli` is an int: taking one off 0 is negative.
unfoldable pub popcli : Cpu → Outcome Cpu
popcli c = do
  panic_if c.flag
  panic_if (c.ncli == 0)
  let left = c.ncli - 1
  ok (record c { ncli = left; flag = if (left == 0) && c.intena then true else c.flag })

-- `acquire` up to its loop, and one round of the loop: `none` means that the lock was taken.
unfoldable pub acquire_start : ℕ → ℕ → Machine → Outcome Machine
acquire_start c l m = do
  let cpus = update m.cpus c (pushcli (m.cpus c))
  panic_if (holding (m.locks l) c)
  ok (record m { cpus = cpus })

unfoldable pub acquire_try : ℕ → ℕ → Machine → Option Machine
acquire_try c l m =
    if (m.locks l).locked
    then none
    else some (record m { locks = update m.locks l (record { locked = true; cpu = some c }) })

unfoldable pub release : ℕ → ℕ → Machine → Outcome Machine
unfolding popcli
release c l m = do
  panic_if (not (holding (m.locks l) c))
  let locks = update m.locks l (record { locked = false; cpu = none })
  cpu ← popcli (m.cpus c)
  ok (record { cpus = update m.cpus c cpu; locks = locks })
