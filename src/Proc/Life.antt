-- ===== src/Proc/Life.antt =====
-- proc.c: how processes come and go. `allocproc`, `fork`, `exit` and `wait`.
use schoolstuff.Base.{
  ℕ, zero, suc, ◌+◌, Bool, true, false, ◌&&◌, ◌||◌, not, Option, none, some, ◌==◌, if◌then◌else◌,
  update,
}
use schoolstuff.Base.Outcome.{Outcome, ok, panic_if, ◌>>=◌, ◌>>◌}
use schoolstuff.Proc.{
  nproc, State, Chan, Proc, Ptable, is_zombie, chan_of, is_child_of, wakeup1, find_unused, sleep,
}
use schoolstuff.Proc.Services.{Services}

-- NOFILE
abbrev pub nofile : ℕ
nofile = 16

-- The exit loop over the table: the children of `cur` go to `init`, who is woken up for zombies.
abbrev pub adopt_one : ℕ → ℕ → ℕ → (ℕ → Proc) → ℕ → Proc
adopt_one cur init i ps =
    let ps' = update ps i (record (ps i) { parent = some init }) in
    if is_child_of cur (ps i)
    then (if is_zombie (ps i).state then wakeup1 (Chan.proc init) ps' else ps')
    else ps

unfoldable pub adopt_from : ℕ → ℕ → ℕ → ℕ → (ℕ → Proc) → ℕ → Proc
adopt_from cur init zero i ps = ps
adopt_from cur init (suc n) i ps = adopt_from cur init n (i + 1) (adopt_one cur init i ps)

-- `exit` from `acquire(&ptable.lock)` to `sched()`.
unfoldable pub exit_locked : ℕ → Ptable → Ptable
unfolding adopt_from
exit_locked cur t =
    let woken = wakeup1 (chan_of (t.procs cur).parent) t.procs in
    let adopted = adopt_from cur t.initproc nproc 0 woken in
    record t { procs = update adopted cur (record (adopted cur) { state = State.zombie }) }

-- What the scan of `wait` finds: a zombie child, or whether there are children at all.
pub data Scan : Type 0 where
  found : ℕ → Scan
  kids : Bool → Scan

unfoldable pub wait_from : ℕ → ℕ → ℕ → Bool → (ℕ → Proc) → Scan
wait_from cur zero i havekids ps = kids havekids
wait_from cur (suc n) i havekids ps =
    let rest = wait_from cur n (i + 1) (havekids || is_child_of cur (ps i)) ps in
    if is_child_of cur (ps i) && is_zombie (ps i).state then found i else rest

-- What `wait` leaves in the slot of a child that it has buried.
abbrev pub buried : Proc → Proc
buried p = record p { kstack = 0; pid = 0; parent = none; killed = false; state = State.unused }

-- How a run of `wait` ends: with a pid, with -1, or asleep on the caller.
pub data WaitEnd : Type 0 where
  reaped : ℕ → WaitEnd
  failed : WaitEnd
  asleep : WaitEnd

abbrev pub set_proc : ℕ → Proc → Ptable → Ptable
set_proc i p t = record t { procs = update t.procs i p }

-- The slot that `allocproc` takes before it releases the lock.
abbrev pub claim : ℕ → Ptable → Ptable
claim i t = record t {
  procs = update t.procs i (record (t.procs i) { state = State.embryo; pid = t.nextpid });
  nextpid = t.nextpid + 1;
}

module _ (k : Services) where
  open k use {Res, kalloc, kfree, copyuvm, freevm, filedup, fileclose, idup, put_cwd}

  -- `allocproc` once a slot is claimed, with the result of `kalloc`.
  unfoldable pub give_stack : ℕ → Ptable → ℕ × Res → Option ℕ × Ptable × Res
  give_stack i t (page, r) =
      if page == 0
      then (none, set_proc i (record (t.procs i) { kstack = 0; state = State.unused }) t, r)
      else (some i, set_proc i (record (t.procs i) { kstack = page }) t, r)

  -- `allocproc` after its search.
  unfoldable pub allocproc_at : Option ℕ → Ptable → Res → Option ℕ × Ptable × Res
  unfolding give_stack
  allocproc_at none t r = (none, t, r)
  allocproc_at (some i) t r = give_stack i (claim i t) (kalloc r)

  unfoldable pub allocproc : Ptable → Res → Option ℕ × Ptable × Res
  unfolding allocproc_at
  allocproc t r = allocproc_at (find_unused nproc 0 t.procs) t r

  -- `if (curproc->ofile[i]) np->ofile[i] = filedup(curproc->ofile[i])` for each descriptor.
  unfoldable pub dup_files : ℕ → ℕ → (ℕ → ℕ) → (ℕ → ℕ) → Res → Outcome ((ℕ → ℕ) × Res)
  dup_files zero fd src dst r = ok (dst, r)
  dup_files (suc n) fd src dst r = elim (src fd == 0) [
    | true ↦ dup_files n (fd + 1) src dst r
    | false ↦ do r' ← filedup (src fd) r; dup_files n (fd + 1) src (update dst fd (src fd)) r'
  ]

  -- `fork` once it has a slot `i`, with the result of `copyuvm`.
  unfoldable pub fork_into : ℕ → ℕ → Ptable → ℕ × Res → Outcome (Option ℕ × Ptable × Res)
  unfolding dup_files
  fork_into cur i t (pgdir, r) =
      let np = t.procs i in
      let parent = t.procs cur in
      let undone = record np { pgdir = 0; kstack = 0; state = State.unused } in
      if pgdir == 0 then (do r' ← kfree np.kstack r; ok (none, set_proc i undone t, r')) else (do
        (files, r1) ← dup_files nofile 0 parent.ofile np.ofile r
        r2 ← idup parent.cwd r1
        ok (
          some np.pid,
          set_proc i
              (record np {
                pgdir = pgdir;
                sz = parent.sz;
                parent = some cur;
                ofile = files;
                cwd = parent.cwd;
                state = State.runnable;
              })
              t,
          r2,
        ))

  -- `fork` after `allocproc`.
  unfoldable pub fork_from : ℕ → Option ℕ × Ptable × Res → Outcome (Option ℕ × Ptable × Res)
  unfolding fork_into
  fork_from cur (none, t, r) = ok (none, t, r)
  fork_from cur (some i, t, r) = fork_into cur i t (copyuvm (t.procs cur).pgdir (t.procs cur).sz r)

  -- `fork`: the child's pid, or `none` for -1.
  unfoldable pub fork : ℕ → Ptable → Res → Outcome (Option ℕ × Ptable × Res)
  unfolding allocproc fork_from
  fork cur t r = fork_from cur (allocproc t r)

  -- The loop of `exit` that closes the descriptors.
  unfoldable pub close_files : ℕ → ℕ → (ℕ → ℕ) → Res → Outcome ((ℕ → ℕ) × Res)
  close_files zero fd files r = ok (files, r)
  close_files (suc n) fd files r = elim (files fd == 0) [
    | true ↦ close_files n (fd + 1) files r
    | false ↦ do r' ← fileclose (files fd) r; close_files n (fd + 1) (update files fd 0) r'
  ]

  -- `exit` up to its call of `sched`.
  unfoldable pub exit : ℕ → Ptable → Res → Outcome (Ptable × Res)
  unfolding close_files exit_locked
  exit cur t r = do
    panic_if (cur == t.initproc)
    (files, r1) ← close_files nofile 0 (t.procs cur).ofile r
    r2 ← put_cwd (t.procs cur).cwd r1
    ok (exit_locked cur (set_proc cur (record (t.procs cur) { ofile = files; cwd = 0 }) t), r2)

  -- `wait` after a scan of the table.
  unfoldable pub wait_on : ℕ → Scan → Ptable → Res → Outcome (WaitEnd × Ptable × Res)
  wait_on cur (found i) t r = do
    r1 ← kfree (t.procs i).kstack r
    r2 ← freevm (t.procs i).pgdir r1
    ok (reaped (t.procs i).pid, set_proc i (buried (t.procs i)) t, r2)
  wait_on cur (kids havekids) t r =
      if not havekids || (t.procs cur).killed
      then ok (failed, t, r)
      else ok (asleep, sleep cur (Chan.proc cur) t, r)

  -- `wait` from the head of its loop.
  unfoldable pub wait : ℕ → Ptable → Res → Outcome (WaitEnd × Ptable × Res)
  unfolding wait_on
  wait cur t r = wait_on cur (wait_from cur nproc 0 false t.procs) t r
