-- ===== src/Sleeplock/Tests.antt =====
-- The theorem about sleep locks at a run of two processes.
use schoolstuff.Base.{◌+◌, ℕ, true, false, none, [], ◌∷◌, update}
use schoolstuff.Proc.{State, Chan, Proc, sleep}
use schoolstuff.Sleeplock.{initsleeplock, releasesleep}
use schoolstuff.Sleeplock.Safety.{System}

abbrev process : ℕ → Proc
process i = record {
  sz = 0;
  pgdir = 0;
  kstack = 0;
  state = State.running;
  pid = i + 1;
  parent = none;
  chan = Chan.null;
  killed = false;
  ofile = λ fd. 0;
  cwd = 0;
}

abbrev at_first : System
at_first = record {
  kernel = record {
    locks = λ l. initsleeplock;
    table = record { procs = process; nextpid = 65; initproc = 0 };
  };
  held = λ l. [];
}

-- Process 2 holds lock 7.
abbrev taken_by_two : System
taken_by_two = record {
  kernel = record at_first.kernel {
    locks = update at_first.kernel.locks 7 (record { locked = true; pid = 3 });
  };
  held = update at_first.held 7 (2 ∷ []);
}

-- Process 5 sleeps on it.
abbrev five_waits : System
five_waits = record taken_by_two {
  kernel = record taken_by_two.kernel {
    table = sleep 5 (Chan.address 7) taken_by_two.kernel.table;
  };
}

-- Process 2 has released it.
abbrev released : System
released = record { kernel = releasesleep 7 five_waits.kernel; held = update five_waits.held 7 [] }
