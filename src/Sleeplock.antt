-- ===== src/Sleeplock.antt =====
-- cs350/cs350-18f-lab6-base/sleeplock.c and sleeplock.h, over the process table of Proc. The address
-- of a lock, on which its processes sleep, is its number; its spin lock is held for a whole call, or for the part
-- of it up to `sleep`.
pub mod Safety
mod Tests
use schoolstuff.Base.{ℕ, Bool, true, false, ◌==◌, if◌then◌else◌, update}
use schoolstuff.Proc.{Chan, Proc, Ptable, sleep, wakeup}

-- `struct sleeplock` without its spin lock and its name.
pub record Sleeplock : Type 0 where
  pub locked : Bool
  pub pid : ℕ

abbrev pub initsleeplock : Sleeplock
initsleeplock = record { locked = false; pid = 0 }

-- The locks and the process table.
pub record Kernel : Type 0 where
  pub locks : ℕ → Sleeplock
  pub table : Ptable

-- How a run of `acquiresleep` ends: it returns, or it sleeps, and goes back to the test of the loop when
-- the process runs again.
pub data Acquired : Type 0 where
  takes : Kernel → Acquired
  sleeps : Kernel → Acquired

unfoldable pub acquiresleep : ℕ → ℕ → Kernel → Acquired
acquiresleep cur l k =
    let wait = sleeps (record k { table = sleep cur (Chan.address l) k.table }) in
    let take = takes (record k {
      locks = update k.locks l (record { locked = true; pid = (k.table.procs cur).pid });
    }) in
    if (k.locks l).locked then wait else take

unfoldable pub releasesleep : ℕ → Kernel → Kernel
releasesleep l k = record {
  locks = update k.locks l (record { locked = false; pid = 0 });
  table = wakeup (Chan.address l) k.table;
}

abbrev pub holdingsleep : ℕ → Kernel → Bool
holdingsleep l k = (k.locks l).locked
