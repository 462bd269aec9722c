-- ===== src/Proc/System/Steps.antt =====
-- proc.c: what each step of the kernel's processes leaves of the process table, and runs of them.
use schoolstuff.Base.{ℕ, ◌<◌, Option, some, ◌≡◌, refl, true, arith, inl, inr, Bool-cases}
use schoolstuff.Base.Outcome.{OnOk, OnOk-ok}
use schoolstuff.Proc.{nproc, State, Proc, Ptable, is_runnable, end_sleep, yield_cpu, schedule}
use schoolstuff.Proc.Services.{Services}
use schoolstuff.Proc.Life.{fork_from, exit_locked}
use schoolstuff.Proc.System.Preserve.{Inv-set_proc, Inv-wakeup, Inv-kill, Inv-exit_locked}
use schoolstuff.Proc.System.Forks.{Inv-claim, Inv-give_stack, fork_into-Inv}
use schoolstuff.Proc.System.Waits.{Inv-wait, Inv-sleep}
use schoolstuff.Proc.Table.{find_unused-some}
use schoolstuff.Proc.System.{
  Runs, Step, claims, gets_stack, forks, sets_files, exits, waits, kills, sleeps, ends_sleep, wakes,
  yields, runs, Reach, here, next, Inv, Same,
}

Inv-end_sleep : (cur : ℕ) {t : Ptable} → Inv t → Inv (end_sleep cur t)
unfolding end_sleep
Inv-end_sleep cur v =
    Inv-set_proc cur _ v
      (record { pid = refl; parent = refl; live = refl; used = refl; born = refl })

Inv-yield_cpu : (cur : ℕ) {t : Ptable} → Inv t → Runs t cur → Inv (yield_cpu cur t)
unfolding yield_cpu
Inv-yield_cpu cur v run =
    Inv-set_proc cur _ v
      (record { pid = refl; parent = refl; live = rw run.1; used = rw run.1; born = rw run.1 })

Same-run : (p : Proc) → is_runnable p.state ≡ true → Same p (record p { state = State.running })
Same-run p e = ground arith

Inv-schedule : (i : ℕ) {t : Ptable} → Inv t → Inv (schedule i t).1
unfolding schedule
Inv-schedule i {t} v = elim (Bool-cases (is_runnable (t.procs i).state)) [
  | inl e ↦ rw e (Inv-set_proc i _ v (Same-run (t.procs i) e))
  | inr e ↦ rw e v
]

module _ (k : Services) where
  open k use {Res, kalloc, copyuvm, put_cwd}

  fork_from-Inv :
      (cur i : ℕ) (t : Ptable) (r : Res)
      → Inv t
      → Runs t cur
      → i < nproc
      → (t.procs i).state ≡ State.embryo
      → OnOk (λ (x : Option ℕ × Ptable × Res). Inv x.1) (fork_from k cur (some i, t, r))
  unfolding fork_from
  fork_from-Inv cur i t r v run hi em =
      let (pgdir, r1) = copyuvm (t.procs cur).pgdir (t.procs cur).sz r in
      fork_into-Inv k cur i t pgdir r1 v run hi em

  pub Step-Inv : {t t' : Ptable} → Step k t t' → Inv t → Inv t'
  Step-Inv {t} (claims cur i run h below) v =
      Inv-claim i t v (find_unused-some nproc 0 t.procs i h).2
  Step-Inv {t} (gets_stack i r hi em) v =
      let (page, r1) = kalloc r in Inv-give_stack k i t page r1 v hi em
  Step-Inv {t} (forks cur i r run hi em h) v =
      OnOk-ok (λ (x : Option ℕ × Ptable × Res). Inv x.1) (fork_from-Inv cur i t r v run hi em) h
  Step-Inv (sets_files cur files dir run) v =
      Inv-set_proc cur _ v
        (record { pid = refl; parent = refl; live = refl; used = refl; born = refl })
  Step-Inv (exits cur run other) v =
      Inv-exit_locked v run other (unfold exit_locked in refl) (unfold exit_locked in refl)
  Step-Inv (waits cur r run h) v = Inv-wait k r v run h
  Step-Inv (kills pid) v = Inv-kill pid v
  Step-Inv (sleeps cur c run) v = Inv-sleep cur c v run
  Step-Inv (ends_sleep cur run) v = Inv-end_sleep cur v
  Step-Inv (wakes c) v = Inv-wakeup c v
  Step-Inv (yields cur run) v = Inv-yield_cpu cur v run
  Step-Inv (runs i hi) v = Inv-schedule i v

  -- From a table in which init lives, every other process that is born (its slot neither UNUSED nor
  -- EMBRYO) has a live parent, and the pids of the slots in use, EMBRYO ones included, are distinct
  -- and below nextpid, every sequence of the steps of `Step` leads to such a table: allocproc's claim
  -- of a slot, its new stack and the rest of fork, each a step of its own, exit's change of its
  -- files and its locked part, wait, kill, sleep and its end, wakeup, yield and the scheduler's
  -- switch, in any order and whatever the calls to the other parts of the kernel return, as long as
  -- nextpid is below its largest value when a slot is claimed.
  pub Reach-Inv : {t t' : Ptable} → Inv t → Reach k t t' → Inv t'
  Reach-Inv v here = v
  Reach-Inv v (next r s) = Step-Inv s (Reach-Inv v r)
