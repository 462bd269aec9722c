-- ===== src/Proc/System/Preserve.antt =====
-- proc.c: every step keeps the invariant of the process table.
use schoolstuff.Base.{
  ℕ, ◌<◌, ◌≡◌, ◌≢◌, refl, some, arith, ◌==◌, if◌then◌else◌, inl, inr, Bool-cases, ◌∙◌, sym, lt→ltb,
  ne→==, ==_refl, ap,
}
use mathlib.Core.Path.{subst}
use native.Mathlib.Decide.{ℕ_discrete}
use schoolstuff.Proc.{nproc, Chan, Proc, Ptable, is_unused, wake, wakeup, kill}
use schoolstuff.Proc.Life.{exit_locked, set_proc}
use schoolstuff.Proc.Table.{wakeup1-at, adopted}
use schoolstuff.Proc.Exit.{left_by, exit_locked-at}
use schoolstuff.Proc.System.{
  is_live, is_born, Runs, HasParent, Inv, Same, Inv-Same, Same-update, Same-wake, Same-kill_from,
}

pub Inv-wakeup : (c : Chan) {t : Ptable} → Inv t → Inv (wakeup c t)
unfolding wakeup
Inv-wakeup c {t} v =
    Inv-Same v refl refl
      λ j hj. rw (wakeup1-at c t.procs j, lt→ltb j nproc hj) (Same-wake c (t.procs j))

pub Inv-kill : (pid : ℕ) {t : Ptable} → Inv t → Inv (kill pid t).1
unfolding kill
Inv-kill pid {t} v = Inv-Same v refl refl λ j hj. Same-kill_from nproc 0 pid t.procs j

-- A change of one slot that the invariant does not see.
pub Inv-set_proc :
    (i : ℕ) (p : Proc) {t : Ptable} → Inv t → Same (t.procs i) p → Inv (set_proc i p t)
Inv-set_proc i p {t} v h = Inv-Same v refl refl λ j hj. Same-update t.procs i p h j

-- What `exit` leaves of a slot.
record Left (cur : ℕ) (t : Ptable) (p q : Proc) : Type 0 where
  pid : q.pid ≡ p.pid
  used : is_unused q.state ≡ is_unused p.state
  born : is_born q.state ≡ is_born p.state
  parent : (m : ℕ) → p.parent ≡ some m → q.parent ≡ some (if m == cur then t.initproc else m)

left_by-Left : (cur : ℕ) (t : Ptable) (p : Proc) → Left cur t p (left_by cur t p)
unfolding left_by adopted wake
left_by-Left cur t p = record {
  pid = ground arith;
  used = ground arith;
  born = ground arith;
  parent = λ m e. ground arith;
}

left_by-live : (cur : ℕ) (t : Ptable) (p : Proc) → is_live (left_by cur t p).state ≡ is_live p.state
unfolding left_by adopted wake
left_by-live cur t p = ground arith

module _ {cur : ℕ} {t : Ptable} (v : Inv t) (run : Runs t cur) (ne : cur ≢ t.initproc) where
  exited-Left : (j : ℕ) → j < nproc → Left cur t (t.procs j) ((exit_locked cur t).procs j)
  exited-Left j hj = elim (ℕ_discrete cur j) [
    | yes e ↦
        subst (λ m. Left cur t (t.procs m) ((exit_locked cur t).procs m)) e
          (rw (exit_locked-at cur t cur run.0 run.0, ==_refl cur)
            (let l = left_by-Left cur t (t.procs cur) in
              record { pid = l.pid; used = rw run.1; born = rw run.1; parent = l.parent }))
    | no q ↦ rw (exit_locked-at cur t j run.0 hj, ne→== cur j q) (left_by-Left cur t (t.procs j))
  ]

  exited-live :
      (j : ℕ)
      → j < nproc
      → cur ≢ j
      → is_live ((exit_locked cur t).procs j).state ≡ is_live (t.procs j).state
  exited-live j hj q =
      rw (exit_locked-at cur t j run.0 hj, ne→== cur j q) (left_by-live cur t (t.procs j))

  exited-parent :
      (j : ℕ)
      → j < nproc
      → HasParent t (t.procs j)
      → HasParent (exit_locked cur t) ((exit_locked cur t).procs j)
  exited-parent j hj (q, e, hq, lq) = elim (Bool-cases (q == cur)) [
    | inl own ↦ (
      t.initproc,
      (exited-Left j hj).parent q e ∙ ap some (rw own),
      v.init_in,
      exited-live t.initproc v.init_in ne ∙ v.init_live,
    )
    | inr other ↦ (
      q,
      (exited-Left j hj).parent q e ∙ ap some (rw other),
      hq,
      exited-live q hq (ground arith) ∙ lq,
    )
  ]

  pub Inv-exit_locked :
      (exit_locked cur t).initproc ≡ t.initproc
      → (exit_locked cur t).nextpid ≡ t.nextpid
      → Inv (exit_locked cur t)
  Inv-exit_locked ei en = record {
    init_in = rw ei v.init_in;
    init_live = rw ei (exited-live t.initproc v.init_in ne ∙ v.init_live);
    parents = λ j hj u z.
        exited-parent j hj (v.parents j hj (sym (exited-Left j hj).born ∙ u) (λ w. z (w ∙ sym ei)));
    pids_below = λ j hj u.
        rw (en, (exited-Left j hj).pid) (v.pids_below j hj (sym (exited-Left j hj).used ∙ u));
    pids_unique = λ i j hi hj ui uj e.
        v.pids_unique i j hi hj (sym (exited-Left i hi).used ∙ ui)
          (sym (exited-Left j hj).used ∙ uj)
          (sym (exited-Left i hi).pid ∙ e ∙ (exited-Left j hj).pid);
  }
