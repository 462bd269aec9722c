-- ===== src/Proc/System.antt =====
-- proc.c: the process table under interleavings of the routines' critical sections. Each is run by a
-- process that is RUNNING, except the scheduler's, `wakeup` and `kill`. `fork` holds `ptable.lock`
-- only while it claims a slot, and later writes to that slot alone: other steps can come after the
-- claim, with the slot EMBRYO and without a parent, and after the new stack. `exit` closes its files
-- and leaves its directory without the lock, in steps of its own before `exit_locked`. The relation
-- allows more than the kernel does: a running process can go on with any EMBRYO slot. Pids are
-- natural numbers, and no slot is claimed when `nextpid`, an int, is at its largest value.
pub mod Preserve
pub mod Forks
pub mod Waits
pub mod Steps
pub mod Calls
use schoolstuff.Base.{
  ℕ, zero, suc, ◌+◌, ◌≤◌, ◌<◌, ◌≡◌, ◌≢◌, refl, Bool, true, false, Option, none, some, arith, ltb,
  ◌==◌, if◌then◌else◌, update, ◌⊎◌, inl, inr, Bool-cases, ◌∙◌, sym, lt→ltb, ne→==, ==_refl, ap,
}
use mathlib.Core.Path.{subst}
use native.Mathlib.Decide.{ℕ_discrete}
use schoolstuff.Base.Outcome.{Outcome, ok}
use schoolstuff.Proc.{
  nproc, State, Chan, Proc, Ptable, is_unused, is_sleeping, is_zombie, is_running, wake, wakeup1,
  wakeup, kill_one, find_unused, kill_from, kill, sleep, end_sleep, yield_cpu, schedule,
}
use schoolstuff.Proc.Services.{Services}
use schoolstuff.Proc.Life.{WaitEnd, claim, give_stack, fork_from, wait, exit_locked, set_proc}

-- A process that runs, can run or sleeps: one that will call `wait` or `exit` some day.
abbrev pub is_live : State → Bool
is_live State.sleeping = true
is_live State.runnable = true
is_live State.running = true
is_live _ = false

-- A process that `fork` is done with.
abbrev pub is_born : State → Bool
is_born State.unused = false
is_born State.embryo = false
is_born _ = true

-- Slot `i` holds a process that its CPU is running.
abbrev pub Runs : Ptable → ℕ → Type 0
Runs t i = (i < nproc) × ((t.procs i).state ≡ State.running)

-- INT_MAX
abbrev pub max_pid : ℕ
max_pid = 2147483647

pub data Step (k : Services) (t : Ptable) : Ptable → Type 0 where
  -- allocproc, up to its release of the lock
  claims :
      (cur i : ℕ)
      → Runs t cur
      → find_unused nproc 0 t.procs ≡ some i
      → t.nextpid < max_pid
      → Step k t (claim i t)
  -- allocproc, with the result of kalloc
  gets_stack :
      (i : ℕ) (r : k.Res)
      → i < nproc
      → (t.procs i).state ≡ State.embryo
      → Step k t (give_stack k i t (k.kalloc r)).1
  -- fork after allocproc
  forks :
      (cur i : ℕ) (r : k.Res) {res : Option ℕ} {t' : Ptable} {r' : k.Res}
      → Runs t cur
      → i < nproc
      → (t.procs i).state ≡ State.embryo
      → fork_from k cur (some i, t, r) ≡ ok (res, t', r')
      → Step k t t'
  -- exit and other calls, which change the caller's descriptors and directory
  sets_files :
      (cur : ℕ) (files : ℕ → ℕ) (dir : ℕ)
      → Runs t cur
      → Step k t (set_proc cur (record (t.procs cur) { ofile = files; cwd = dir }) t)
  -- exit, from its acquire of the lock to sched
  exits : (cur : ℕ) → Runs t cur → cur ≢ t.initproc → Step k t (exit_locked cur t)
  waits :
      (cur : ℕ) (r : k.Res) {e : WaitEnd} {t' : Ptable} {r' : k.Res}
      → Runs t cur
      → wait k cur t r ≡ ok (e, t', r')
      → Step k t t'
  kills : (pid : ℕ) → Step k t (kill pid t).1
  sleeps : (cur : ℕ) (c : Chan) → Runs t cur → Step k t (sleep cur c t)
  ends_sleep : (cur : ℕ) → Runs t cur → Step k t (end_sleep cur t)
  wakes : (c : Chan) → Step k t (wakeup c t)
  yields : (cur : ℕ) → Runs t cur → Step k t (yield_cpu cur t)
  runs : (i : ℕ) → i < nproc → Step k t (schedule i t).1

pub data Reach (k : Services) (t : Ptable) : Ptable → Type 0 where
  here : Reach k t t
  next : {u v : Ptable} → Reach k t u → Step k u v → Reach k t v

-- The parent of a process is live.
abbrev pub HasParent : Ptable → Proc → Type 0
HasParent t p = (q : ℕ) × (p.parent ≡ some q) × (q < nproc) × (is_live (t.procs q).state ≡ true)

pub record Inv (t : Ptable) : Type 0 where
  pub init_in : t.initproc < nproc
  pub init_live : is_live (t.procs t.initproc).state ≡ true
  pub parents :
      (j : ℕ)
      → j < nproc
      → is_born (t.procs j).state ≡ true
      → j ≢ t.initproc
      → HasParent t (t.procs j)
  pub pids_below :
      (j : ℕ) → j < nproc → is_unused (t.procs j).state ≡ false → (t.procs j).pid < t.nextpid
  pub pids_unique :
      (i j : ℕ)
      → i < nproc
      → j < nproc
      → is_unused (t.procs i).state ≡ false
      → is_unused (t.procs j).state ≡ false
      → (t.procs i).pid ≡ (t.procs j).pid
      → i ≡ j

-- What the invariant reads of a slot is unchanged.
pub record Same (p q : Proc) : Type 0 where
  pub pid : q.pid ≡ p.pid
  pub parent : q.parent ≡ p.parent
  pub live : is_live q.state ≡ is_live p.state
  pub used : is_unused q.state ≡ is_unused p.state
  pub born : is_born q.state ≡ is_born p.state

pub Same-refl : (p : Proc) → Same p p
Same-refl p = record { pid = refl; parent = refl; live = refl; used = refl; born = refl }

pub Inv-Same :
    {t t' : Ptable}
    → Inv t
    → t'.initproc ≡ t.initproc
    → t'.nextpid ≡ t.nextpid
    → ((j : ℕ) → j < nproc → Same (t.procs j) (t'.procs j))
    → Inv t'
Inv-Same {t} {t'} v ei en same = record {
  init_in = rw ei v.init_in;
  init_live = rw (ei, (same t.initproc v.init_in).live) v.init_live;
  parents = λ j hj u ne.
      let (q, e, hq, lq) = v.parents j hj (sym (same j hj).born ∙ u) (λ z. ne (z ∙ sym ei)) in
      (q, (same j hj).parent ∙ e, hq, (same q hq).live ∙ lq);
  pids_below = λ j hj u. rw (en, (same j hj).pid) (v.pids_below j hj (sym (same j hj).used ∙ u));
  pids_unique = λ i j hi hj ui uj e.
      v.pids_unique i j hi hj (sym (same i hi).used ∙ ui) (sym (same j hj).used ∙ uj)
        (sym (same i hi).pid ∙ e ∙ (same j hj).pid);
}

-- A change of one slot.
pub Same-update :
    (ps : ℕ → Proc) (i : ℕ) (p : Proc) → Same (ps i) p → (j : ℕ) → Same (ps j) (update ps i p j)
Same-update ps i p h j = elim (ℕ_discrete i j) [
  | yes e ↦ subst (λ m. Same (ps m) (update ps i p m)) e (rw (==_refl i) h)
  | no ne ↦ rw (ne→== i j ne) (Same-refl (ps j))
]

pub Same-wake : (c : Chan) (p : Proc) → Same p (wake c p)
unfolding wake
Same-wake c p = ground arith

Same-kill_one : (p : Proc) → Same p (kill_one p)
Same-kill_one p = ground arith

pub Same-kill_from :
    (n i pid : ℕ) (ps : ℕ → Proc) (j : ℕ) → Same (ps j) ((kill_from n i pid ps).1 j)
unfolding kill_from
Same-kill_from zero i pid ps j = Same-refl (ps j)
Same-kill_from (suc n) i pid ps j = elim (Bool-cases ((ps i).pid == pid)) [
  | inl e ↦ rw e (Same-update ps i (kill_one (ps i)) (Same-kill_one (ps i)) j)
  | inr e ↦ rw e (Same-kill_from n (i + 1) pid ps j)
]
