-- ===== src/Proc/System/Forks.antt =====
-- proc.c: the parts of `fork` keep the invariant of the process table, whichever of its calls fails.
use schoolstuff.Base.{
  ℕ, ◌+◌, ◌≤◌, ◌<◌, ◌≡◌, ◌≢◌, refl, true, false, arith, ◌==◌, update, inl, inr, Bool-cases, ◌∙◌,
  sym, ne→==, ==_refl, ap,
}
use native.Mathlib.Decide.{ℕ_discrete}
use schoolstuff.Base.Outcome.{OnOk, OnOk->>=}
use schoolstuff.Proc.{nproc, State, Proc, Ptable, is_unused}
use schoolstuff.Proc.Services.{Services}
use schoolstuff.Proc.Life.{claim, set_proc, give_stack, fork_into, dup_files, nofile}
use schoolstuff.Proc.System.{is_live, is_born, Runs, HasParent, Inv}

-- Another process in slot `i`, whose process was not live.
module _ (i next : ℕ) (t : Ptable) (p : Proc) (v : Inv t)
    (dead : is_live (t.procs i).state ≡ false) where
  abbrev filled : Ptable
  filled = record t { procs = update t.procs i p; nextpid = next }

  own : (j : ℕ) → i ≡ j → filled.procs j ≡ p
  own j e = rw (e, ==_refl j)

  other : (j : ℕ) → i ≢ j → filled.procs j ≡ t.procs j
  other j ne = rw (ne→== i j ne)

  kept_live : (q : ℕ) → is_live (t.procs q).state ≡ true → is_live (filled.procs q).state ≡ true
  kept_live q l = rw (other q (λ e. cc (ap (λ m. is_live (t.procs m).state) e, l, dead))) l

  kept_parent : (x : Proc) → HasParent t x → HasParent filled x
  kept_parent x (q, e, hq, lq) = (q, e, hq, kept_live q lq)

  -- A process that is in use has a pid of its own, and one that is born has a live parent.
  pub Inv-fill :
      t.nextpid ≤ next
      → (is_unused p.state ≡ false → p.pid < next)
      → (is_unused p.state ≡ false
          → (j : ℕ) → j < nproc
          → i ≢ j
          → is_unused (t.procs j).state ≡ false
          → p.pid ≢ (t.procs j).pid)
      → (is_born p.state ≡ true → HasParent t p)
      → Inv filled
  Inv-fill more below fresh parent = record {
    init_in = v.init_in;
    init_live = kept_live t.initproc v.init_live;
    parents = λ j hj u ne. elim (ℕ_discrete i j) [
      | yes e ↦ let o = own j e in rw o (kept_parent p (parent (rw o at u)))
      | no z ↦ let o = other j z in rw o (kept_parent (t.procs j) (v.parents j hj (rw o at u) ne))
    ];
    pids_below = λ j hj u. elim (ℕ_discrete i j) [
      | yes e ↦ let o = own j e in rw o (below (rw o at u))
      | no z ↦
          let o = other j z in
          rw o (let h = v.pids_below j hj (rw o at u) in omega (arith, h, more))
    ];
    pids_unique = λ a b ha hb ua ub e. elim (ℕ_discrete i a) [
      | yes ea ↦ elim (ℕ_discrete i b) [
        | yes eb ↦ sym ea ∙ eb
        | no nb ↦
            let oa = own a ea in
            let ob = other b nb in
            absurd (
              fresh (rw oa at ua) b hb nb (rw ob at ub)
                (ap (λ x. x.pid) (sym oa) ∙ e ∙ ap (λ x. x.pid) ob))
      ]
      | no na ↦ elim (ℕ_discrete i b) [
        | yes eb ↦
            let oa = other a na in
            let ob = own b eb in
            absurd (
              fresh (rw ob at ub) a ha na (rw oa at ua)
                (ap (λ x. x.pid) (sym ob) ∙ sym e ∙ ap (λ x. x.pid) oa))
        | no nb ↦
            let oa = other a na in
            let ob = other b nb in
            v.pids_unique a b ha hb (rw oa at ua) (rw ob at ub)
              (ap (λ x. x.pid) (sym oa) ∙ e ∙ ap (λ x. x.pid) ob)
      ]
    ];
  }

-- A slot that is given back.
pub Inv-given_back :
    (i : ℕ) (t : Ptable) (p : Proc)
    → Inv t
    → is_live (t.procs i).state ≡ false
    → p.state ≡ State.unused
    → Inv (set_proc i p t)
Inv-given_back i t p v dead free =
    Inv-fill i t.nextpid t p v dead (omega arith) (λ u. absurd (ground (arith, free, u)))
      (λ u. absurd (ground (arith, free, u))) (λ b. absurd (ground (arith, free, b)))

-- An EMBRYO that keeps its pid.
pub Inv-embryo :
    (i : ℕ) (t : Ptable) (p : Proc)
    → Inv t
    → i < nproc
    → (t.procs i).state ≡ State.embryo
    → p.pid ≡ (t.procs i).pid
    → (is_born p.state ≡ true → HasParent t p)
    → Inv (set_proc i p t)
Inv-embryo i t p v hi em same parent =
    let used : is_unused (t.procs i).state ≡ false = rw em refl in
    let below = v.pids_below i hi used in
    Inv-fill i t.nextpid t p v (rw em refl) (omega arith) (λ u. omega (arith, same, below))
      (λ u j hj ne uj e. ne (v.pids_unique i j hi hj used uj (sym same ∙ e))) parent

free_dead : (p : Proc) → is_unused p.state ≡ true → is_live p.state ≡ false
free_dead p u = ground arith

pub Inv-claim : (i : ℕ) (t : Ptable) → Inv t → is_unused (t.procs i).state ≡ true → Inv (claim i t)
Inv-claim i t v free =
    Inv-fill i (t.nextpid + 1) t (record (t.procs i) { state = State.embryo; pid = t.nextpid }) v
      (free_dead (t.procs i) free) (omega arith) (λ u. omega arith)
      (λ u j hj ne uj e. let h = v.pids_below j hj uj in omega (arith, e, h))
      (λ b. absurd (ground arith))

module _ (k : Services) where
  open k use {Res, kfree, filedup, idup}

  pub Inv-give_stack :
      (i : ℕ) (t : Ptable) (page : ℕ) (r : Res)
      → Inv t
      → i < nproc
      → (t.procs i).state ≡ State.embryo
      → Inv (give_stack k i t (page, r)).1
  unfolding give_stack
  Inv-give_stack i t page r v hi em = elim (Bool-cases (page == 0)) [
    | inl failed ↦ rw failed (Inv-given_back i t _ v (rw em refl) refl)
    | inr got ↦ rw got (Inv-embryo i t _ v hi em refl (λ b. absurd (ground (arith, em, b))))
  ]

  pub fork_into-Inv :
      (cur i : ℕ) (t : Ptable) (pgdir : ℕ) (r : Res)
      → Inv t
      → Runs t cur
      → i < nproc
      → (t.procs i).state ≡ State.embryo
      → OnOk (λ x. Inv x.1) (fork_into k cur i t (pgdir, r))
  unfolding fork_into
  fork_into-Inv cur i t pgdir r v run hi em = elim (Bool-cases (pgdir == 0)) [
    | inl failed ↦ rw failed (
        OnOk->>= (λ x. Inv x.1) (kfree (t.procs i).kstack r) _
          (λ r1. Inv-given_back i t _ v (rw em refl) refl))
    | inr got ↦ rw got (
        OnOk->>= (λ x. Inv x.1) (dup_files k nofile 0 (t.procs cur).ofile (t.procs i).ofile r) _
          (λ x.
            OnOk->>= (λ x. Inv x.1) (idup (t.procs cur).cwd x.1) _
              (λ r2. Inv-embryo i t _ v hi em refl (λ b. (cur, refl, run.0, rw run.1 refl)))))
  ]
