-- ===== src/Spinlock/Tests.antt =====
-- The theorems about the spin locks at concrete inputs.
use schoolstuff.Base.{ℕ, ◌≡◌, refl, true, false, none, some, [], ◌∷◌, arith, update, count}
use schoolstuff.Spinlock.{Machine, pushcli, acquire_start, acquire_try}
use schoolstuff.Spinlock.Exclusion.{System, Step, Reach, Exclusive}
use schoolstuff.Spinlock.Safety.{mutual_exclusion}

-- No lock is held, and interrupts are on everywhere.
abbrev idle : Machine
idle = record {
  cpus = λ c. record { ncli = 0; intena = false; flag = true };
  locks = λ l. record { locked = false; cpu = none };
}

abbrev start : System
start = record { machine = idle; held = λ c. []; spins = λ c. none }

start-Exclusive : Exclusive start
start-Exclusive = record {
  depth = λ c. refl;
  off = λ c h. absurd (omega arith);
  owner = λ l c. refl;
}

-- CPU 1 starts to acquire lock 5, and takes it.
abbrev spinning : Machine
spinning = record idle { cpus = update idle.cpus 1 (pushcli (idle.cpus 1)) }

abbrev taken : Machine
taken = record spinning { locks = update idle.locks 5 (record { locked = true; cpu = some 1 }) }

abbrev held_once : System
held_once = record {
  machine = taken;
  held = update (λ c. []) 1 (5 ∷ []);
  spins = update (update (λ c. none) 1 (some 5)) 1 none;
}

takes_lock : Reach start held_once
unfolding acquire_start acquire_try
takes_lock =
    Reach.next (Reach.next Reach.here (Step.starts 1 5 refl refl)) (Step.takes 1 5 refl refl)

abbrev cpu : ℕ
cpu = 1

mutual_exclusion_example :
    (cpu ≡ cpu) × (count 5 (held_once.held 1) ≡ 1) × ((held_once.machine.cpus 1).flag ≡ false)
mutual_exclusion_example =
    mutual_exclusion held_once 5 1 1 start-Exclusive takes_lock (omega arith) (omega arith)
