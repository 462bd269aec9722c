-- ===== src/Sleeplock/Safety.antt =====
-- sleeplock.c: one process holds a lock at a time, and none sleeps on a lock that is free.
use schoolstuff.Base.{
  ℕ, ◌<◌, ◌≡◌, true, false, ◌&&◌, List, ◌∷◌, ◌++◌, if◌then◌else◌, update, length,
}
use schoolstuff.Proc.{Chan, Proc, Ptable, nproc, is_sleeping, same_chan, sleep}
use schoolstuff.Sleeplock.{Kernel, Acquired, takes, sleeps, acquiresleep, releasesleep}

-- The kernel with the processes that have acquired each lock and not released it yet.
pub record System : Type 0 where
  pub kernel : Kernel
  pub held : ℕ → List ℕ

-- Process `j` sleeps on lock `l`.
abbrev pub SleepsOn : ℕ → ℕ → Ptable → Type 0
SleepsOn j l t =
    (is_sleeping (t.procs j).state && same_chan (t.procs j).chan (Chan.address l)) ≡ true

-- A run of acquiresleep or releasesleep, or any change of the process table after which no more processes sleep on a
-- lock: kill, a wake-up, a context switch, the end of a sleep.
pub data Step (s : System) : System → Type 0 where
  acquires :
      (i l : ℕ) {k' : Kernel}
      → acquiresleep i l s.kernel ≡ takes k'
      → Step s (record { kernel = k'; held = update s.held l (i ∷ s.held l) })
  waits :
      (i l : ℕ) {k' : Kernel}
      → acquiresleep i l s.kernel ≡ sleeps k'
      → Step s (record s { kernel = k' })
  releases :
      (i l : ℕ) (before after : List ℕ)
      → s.held l ≡ before ++ i ∷ after
      → Step s
          (record { kernel = releasesleep l s.kernel; held = update s.held l (before ++ after) })
  others :
      (t' : Ptable)
      → ((j l : ℕ) → SleepsOn j l t' → SleepsOn j l s.kernel.table)
      → Step s (record s { kernel = record s.kernel { table = t' } })

pub data Reach (s : System) : System → Type 0 where
  here : Reach s s
  next : {u v : System} → Reach s u → Step u v → Reach s v

-- A lock is locked if and only if one process holds it, and locked if a process sleeps on it.
pub record Exclusion (s : System) : Type 0 where
  pub owner : (l : ℕ) → length (s.held l) ≡ (if (s.kernel.locks l).locked then 1 else 0)
  pub waited :
      (j l : ℕ) → j < nproc → SleepsOn j l s.kernel.table → (s.kernel.locks l).locked ≡ true

abbrev AcquireEnds : ℕ → ℕ → Kernel → Acquired → Type 0
AcquireEnds i l k (takes k') =
    ((k.locks l).locked ≡ false)
    × (k' ≡ record k {
      locks = update k.locks l (record { locked = true; pid = (k.table.procs i).pid });
    })
AcquireEnds i l k (sleeps k') =
    ((k.locks l).locked ≡ true) × (k' ≡ record k { table = sleep i (Chan.address l) k.table })

abbrev Sleeps : ℕ → Proc → Type 0
Sleeps l p = (is_sleeping p.state && same_chan p.chan (Chan.address l)) ≡ true
