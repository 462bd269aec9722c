-- ===== src/Log/Tests.antt =====
-- The theorems about the log at concrete inputs.
use schoolstuff.Base.{
  ℕ, zero, suc, ◌+◌, ◌≤◌, ◌<◌, ◌≡◌, ◌≢◌, refl, true, false, some, List, [], ◌∷◌, All, arith, leb,
  ◌==◌, if◌then◌else◌, update, inl, inr, Bool-cases, ne→==,
}
use schoolstuff.Base.Outcome.{ok, panic}
use schoolstuff.Log.{Block, Store, boot, Log, commit, recover_from_log, begin_op, log_write}
use schoolstuff.Log.Loops.{IsData, last_slot, last_slot-none}
use schoolstuff.Log.Recovery.{Recovers, recover_crash}
use schoolstuff.Log.Crash.{Ready}
use schoolstuff.Log.Atomic.{restart, restarts, commit_atomic}
use schoolstuff.Log.Absorb.{Logs}
use schoolstuff.Log.Space.{Step, Reach, Fits, log_write-never_panics}
use schoolstuff.Log.TooBig.{log_writes, AllApart, log_write-too_big}

-- Blocks 50 and 51 are in the log, at blocks 2 to 32 of the disk.
abbrev two_blocks : Log
two_blocks = record {
  start = 2;
  size = 31;
  outstanding = 0;
  committing = true;
  n = 2;
  block = λ i. 50 + i;
}

-- They hold sevens in memory; the power is for the log, its header and one copy.
abbrev half_done : Store
half_done = record {
  disk = λ b w. 0;
  mem = update (update (λ b w. 0) 50 (λ w. 7)) 51 (λ w. 7);
  power = 4;
}

two_blocks-Ready : Ready two_blocks half_done
two_blocks-Ready = record {
  small = omega arith;
  home = λ j h. inr (omega arith);
  clean = refl;
  cached = λ b hb e.
      let first = last_slot-none 2 0 two_blocks.block b e 0 (omega arith) (omega arith) in
      let second = last_slot-none 2 0 two_blocks.block b e 1 (omega arith) (omega arith) in
      rw (ne→== 50 b first, ne→== 51 b second);
}

commit_atomic_example :
    let d =
      restart two_blocks 31
        (restarts two_blocks (1 ∷ 3 ∷ []) (commit two_blocks half_done).1.disk) in
    (d 2 0 ≡ 0)
    × ((b : ℕ)
        → IsData two_blocks b
        → d b ≡ (if leb 4 2 then half_done.disk b else half_done.mem b))
commit_atomic_example =
    commit_atomic two_blocks half_done (1 ∷ 3 ∷ []) 31 two_blocks-Ready (omega arith)

-- A disk whose log says that block 50 is to hold nines.
abbrev to_recover : ℕ → Block
to_recover = update (update (λ b w. 0) 2 (λ w. if w == 0 then 1 else 50)) 3 (λ w. 9)

to_recover-Recovers : Recovers two_blocks to_recover (update to_recover 50 (λ w. 9))
unfolding last_slot
to_recover-Recovers = record {
  small = omega arith;
  home = λ j h. let first : j ≡ 0 = omega arith in rw first (inr (omega arith));
  content = λ b hb. elim (Bool-cases (50 == b)) [ inl e ↦ rw e | inr e ↦ rw e ];
}

recover_crash_example :
    let d' = (recover_from_log two_blocks (boot to_recover 2)).1.disk in
    Recovers two_blocks d' (update to_recover 50 (λ w. 9))
    × (1 < 2
        → (d' 2 0 ≡ 0) × ((b : ℕ) → IsData two_blocks b → d' b ≡ update to_recover 50 (λ w. 9) b))
recover_crash_example =
    recover_crash two_blocks to_recover (update to_recover 50 (λ w. 9)) 2 to_recover-Recovers

abbrev idle : Log
idle = record { start = 2; size = 31; outstanding = 0; committing = false; n = 0; block = λ i. 0 }

abbrev opened : Log
opened = record idle { outstanding = 1 }

idle-Fits : Fits (record { log = idle; ops = [] })
idle-Fits = record {
  open_ops = refl;
  reserved = omega arith;
  budgets = tt;
  idle = λ e. refl;
  distinct = λ i j hi hj e. absurd (omega arith);
  size = omega arith;
}

opens : Reach (record { log = idle; ops = [] }) (record { log = opened; ops = 10 ∷ [] })
unfolding begin_op
opens = Reach.next Reach.here (Step.begins refl)

-- The operation logs block 77 twice, and ends, which commits.
abbrev logged_77 : Log
logged_77 = record opened { n = 1; block = update (λ i. 0) 0 77 }

abbrev logged_again : Log
logged_again = record opened { n = 1; block = update (update (λ i. 0) 0 77) 0 77 }

abbrev ended : Log
ended = record logged_again { outstanding = 0; committing = true }

log_write-never_panics_example : (l' : Log) × (log_write 77 opened ≡ ok l') × Logs 77 opened l'
log_write-never_panics_example = log_write-never_panics opened [] [] 9 77 idle-Fits opens

-- The numbers below `n`.
abbrev below : ℕ → List ℕ
below zero = []
below (suc n) = n ∷ below n

below-All : (n m : ℕ) → n ≤ m → All (λ c. c ≢ m) (below n)
below-All zero m h = tt
below-All (suc n) m h = (omega arith, below-All n m (omega arith))

below-AllApart : (n : ℕ) → AllApart (below n)
below-AllApart zero = tt
below-AllApart (suc n) = (below-All n n (omega arith), below-AllApart n)

log_write-too_big_example :
    let l = record idle { size = 30 } in
    (l1 : Log) × (l2 : Log) × (l3 : Log) × (l4 : Log) × (begin_op l ≡ some l1)
    × (begin_op l1 ≡ some l2)
    × (begin_op l2 ≡ some l3)
    × (log_writes (below 29) l3 ≡ ok l4)
    × (log_write 29 l4 ≡ panic)
log_write-too_big_example =
    log_write-too_big (record idle { size = 30 }) (below 29) 29 refl refl refl refl
      (below-AllApart 29) refl
