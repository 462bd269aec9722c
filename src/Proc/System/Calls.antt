-- ===== src/Proc/System/Calls.antt =====
-- proc.c: whole calls of `fork` and `exit` are runs of the steps that they are made of.
use schoolstuff.Base.{
  ℕ, ◌<◌, ◌≡◌, ◌≢◌, refl, sym, ap, false, Option, none, some, arith, ◌==◌, inl, inr, Bool-cases,
  ==_refl, ne→==,
}
use schoolstuff.Base.Outcome.{Outcome, ok, panic, OnOk, OnOk-ok, OnOk->>=}
use schoolstuff.Proc.{nproc, State, Proc, Ptable, is_unused, find_unused}
use schoolstuff.Proc.Services.{Services}
use schoolstuff.Proc.Table.{find_unused-some}
use schoolstuff.Proc.Life.{
  fork, fork_from, allocproc, allocproc_at, give_stack, exit, close_files, nofile,
}
use schoolstuff.Proc.System.{
  Runs, Step, claims, gets_stack, forks, sets_files, exits, max_pid, Reach, here, next,
}

module _ (k : Services) where
  open k use {Res, kalloc, put_cwd}

  abbrev Forked : Ptable → Option ℕ × Ptable × Res → Type 0
  Forked t (res, t', r) = Reach k t t'

  -- The rest of fork, once its child has a stack.
  last_step :
      {t t1 : Ptable} (cur i : ℕ) (r : Res) (m : Outcome (Option ℕ × Ptable × Res))
      → Reach k t t1
      → Runs t1 cur
      → i < nproc
      → (t1.procs i).state ≡ State.embryo
      → fork_from k cur (some i, t1, r) ≡ m
      → OnOk (Forked t) m
  last_step cur i r panic before run hi em e = tt
  last_step cur i r (ok (res, t', r')) before run hi em e = next before (forks cur i r run hi em e)

  stack_step :
      {t t1 : Ptable} (cur i : ℕ) (r : Res) (page : ℕ) (r1 : Res)
      → Reach k t t1
      → Runs t1 cur
      → cur ≢ i
      → i < nproc
      → (t1.procs i).state ≡ State.embryo
      → kalloc r ≡ (page, r1)
      → OnOk (Forked t) (fork_from k cur (give_stack k i t1 (page, r1)))
  unfolding give_stack fork_from
  stack_step {t} {t1} cur i r page r1 before run ne hi em e =
      let called : Step k t1 (give_stack k i t1 (kalloc r)).1 = gets_stack i r hi em in
      let given = rw e at called in
      elim (Bool-cases (page == 0)) [
        | inl failed ↦ rw failed (next before (rw failed at given))
        | inr got ↦ rw got (
            last_step cur i r1 _ (next before (rw got at given))
              (run.0, rw (ne→== i cur (λ z. ne (sym z))) run.1) hi (rw (==_refl i) em) refl)
      ]

  claim_step :
      {t t1 : Ptable} (cur i : ℕ) (r : Res) (x : ℕ × Res)
      → Reach k t t1
      → Runs t1 cur
      → cur ≢ i
      → i < nproc
      → (t1.procs i).state ≡ State.embryo
      → kalloc r ≡ x
      → OnOk (Forked t) (fork_from k cur (give_stack k i t1 x))
  claim_step {t} {t1} cur i r (page, r1) before run ne hi em e =
      stack_step cur i r page r1 before run ne hi em e

  fork-Forked :
      (cur : ℕ) (t : Ptable) (r : Res) (found : Option ℕ)
      → Runs t cur
      → t.nextpid < max_pid
      → find_unused nproc 0 t.procs ≡ found
      → OnOk (Forked t) (fork_from k cur (allocproc_at k found t r))
  unfolding allocproc_at fork_from
  fork-Forked cur t r none run below e = here
  fork-Forked cur t r (some i) run below e =
      let (_, hi, free) = find_unused-some nproc 0 t.procs i e in
      let ne : cur ≢ i =
        λ z. cc (running_used (t.procs cur) run.1, ap (λ m. is_unused (t.procs m).state) z, free) in
      claim_step cur i r (kalloc r) (next here (claims cur i run e below))
        (run.0, rw (ne→== i cur (λ z. ne (sym z))) run.1) ne (omega (arith, hi))
        (rw (==_refl i) refl) refl
    where
      running_used : (p : Proc) → p.state ≡ State.running → is_unused p.state ≡ false
      running_used p e = rw e

  -- A whole call of fork that returns, with `nextpid` below its largest value, is a run of its steps.
  pub fork-Reach :
      {res : Option ℕ} {t t' : Ptable} {r' : Res} (cur : ℕ) (r : Res)
      → Runs t cur
      → t.nextpid < max_pid
      → fork k cur t r ≡ ok (res, t', r')
      → Reach k t t'
  unfolding fork allocproc
  fork-Reach {t = t} cur r run below h = OnOk-ok (Forked t) (fork-Forked cur t r _ run below refl) h

  exit-parts :
      (cur : ℕ) (t : Ptable) (r : Res)
      → Runs t cur
      → OnOk (λ (x : Ptable × Res). Reach k t x.0) (exit k cur t r)
  unfolding exit
  exit-parts cur t r run = elim (Bool-cases (cur == t.initproc)) [
    | inl is_init ↦ rw is_init tt
    | inr other ↦ rw other (
        OnOk->>= (λ (x : Ptable × Res). Reach k t x.0)
          (close_files k nofile 0 (t.procs cur).ofile r) _
          (λ x.
            OnOk->>= (λ (x : Ptable × Res). Reach k t x.0) (put_cwd (t.procs cur).cwd x.1) _
              (λ r2.
                next (next here (sets_files cur x.0 0 run))
                  (exits cur (run.0, rw (==_refl cur) run.1) (ground arith)))))
  ]

  -- A whole call of exit that returns is a run of its steps.
  pub exit-Reach :
      {t t' : Ptable} {r' : Res} (cur : ℕ) (r : Res)
      → Runs t cur
      → exit k cur t r ≡ ok (t', r')
      → Reach k t t'
  exit-Reach {t} cur r run h =
      OnOk-ok (λ (x : Ptable × Res). Reach k t x.0) (exit-parts cur t r run) h
