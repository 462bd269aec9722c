-- ===== src/Proc/Fork.antt =====
-- proc.c: what `fork` does to the process table, whichever of its calls fails.
use schoolstuff.Base.{
  ℕ, ◌+◌, ◌<◌, ◌≡◌, ◌≢◌, refl, true, Option, none, some, ◌==◌, ◌⊎◌, inl, inr, Bool-cases, sym,
  ne→==, ==_refl, ap,
}
use mathlib.Core.Path.{subst}
use schoolstuff.Base.Outcome.{ok, OnOk, OnOk-ok, OnOk->>=}
use schoolstuff.Proc.{nproc, State, Proc, Ptable, is_unused, find_unused}
use schoolstuff.Proc.Services.{Services}
use schoolstuff.Proc.Life.{
  claim, set_proc, allocproc_at, dup_files, fork_into, fork_from, fork, nofile,
}
use schoolstuff.Proc.Table.{find_unused-some}

-- Only slot `i`, which was UNUSED, has changed, and one pid is used up.
pub record Taken (t t' : Ptable) (i : ℕ) : Type 0 where
  pub in_range : i < nproc
  pub free : is_unused (t.procs i).state ≡ true
  pub others : (j : ℕ) → j ≢ i → t'.procs j ≡ t.procs j
  pub next : t'.nextpid ≡ t.nextpid + 1
  pub init : t'.initproc ≡ t.initproc

-- A runnable child of `cur` with a fresh pid.
pub record IsChild (cur pid : ℕ) (p : Proc) : Type 0 where
  pub ready : p.state ≡ State.runnable
  pub fresh : p.pid ≡ pid
  pub child : p.parent ≡ some cur

-- Nothing has changed; or a slot was taken and given back; or a child stands in it.
abbrev pub ForkEffect : ℕ → Ptable → Ptable → Option ℕ → Type 0
ForkEffect cur t t' res =
    ((res ≡ none) × (t' ≡ t))
    ⊎ ((i : ℕ) × Taken t t' i
        × ((res ≡ none) × (is_unused (t'.procs i).state ≡ true)
            ⊎ (res ≡ some t.nextpid) × IsChild cur t.nextpid (t'.procs i)))

Taken-set_proc : (t t' : Ptable) (i : ℕ) (p : Proc) → Taken t t' i → Taken t (set_proc i p t') i
Taken-set_proc t t' i p h = record {
  in_range = h.in_range;
  free = h.free;
  others = λ j ne. rw (ne→== i j (λ q. ne (sym q))) (h.others j ne);
  next = h.next;
  init = h.init;
}

Taken-claim : (i : ℕ) (t : Ptable) → find_unused nproc 0 t.procs ≡ some i → Taken t (claim i t) i
Taken-claim i t h = record {
  in_range = (find_unused-some nproc 0 t.procs i h).1;
  free = (find_unused-some nproc 0 t.procs i h).2;
  others = λ j ne. rw (ne→== i j (λ q. ne (sym q)));
  next = refl;
  init = refl;
}

-- A slot that was taken ends UNUSED again.
given_back :
    (cur i : ℕ) (t t' : Ptable) (p : Proc)
    → Taken t t' i
    → is_unused p.state ≡ true
    → ForkEffect cur t (set_proc i p t') none
given_back cur i t t' p h e = inr (i, Taken-set_proc t t' i p h, inl (refl, rw (==_refl i) e))

filled :
    (cur i : ℕ) (t t' : Ptable) (p : Proc)
    → Taken t t' i
    → IsChild cur t.nextpid p
    → ForkEffect cur t (set_proc i p t') (some p.pid)
filled cur i t t' p h c = inr (
  i,
  Taken-set_proc t t' i p h,
  inr (ap some c.fresh, subst (IsChild cur t.nextpid) (rw (==_refl i)) c),
)

module _ (k : Services) where
  open k use {Res, kalloc, kfree, copyuvm, filedup, idup}

  -- The result of a run of `fork` with the effect that it must have.
  abbrev Forked : ℕ → Ptable → Option ℕ × Ptable × Res → Type 0
  Forked cur t x = ForkEffect cur t x.1 x.0

  fork_into-effect :
      (cur i : ℕ) (t t' : Ptable) (space : ℕ × Res)
      → Taken t t' i
      → (t'.procs i).pid ≡ t.nextpid
      → OnOk (Forked cur t) (fork_into k cur i t' space)
  unfolding fork_into
  fork_into-effect cur i t t' (pgdir, r) h e = elim (Bool-cases (pgdir == 0)) [
    | inl no_memory ↦ rw no_memory (
        OnOk->>= (Forked cur t) (kfree (t'.procs i).kstack r) _
          (λ r'. given_back cur i t t' _ h refl))
    | inr memory ↦ rw memory (
        OnOk->>= (Forked cur t) (dup_files k nofile 0 (t'.procs cur).ofile (t'.procs i).ofile r) _
          (λ x.
            OnOk->>= (Forked cur t) (idup (t'.procs cur).cwd x.1) _
              (λ r2. filled cur i t t' _ h (record { ready = refl; fresh = e; child = refl }))))
  ]

  fork_from-Forked :
      (cur : ℕ) (t : Ptable) (r : Res) (o : Option ℕ)
      → find_unused nproc 0 t.procs ≡ o
      → OnOk (Forked cur t) (fork_from k cur (allocproc_at k o t r))
  unfolding fork_from allocproc_at
  fork_from-Forked cur t r none e = inl (refl, refl)
  fork_from-Forked cur t r (some i) e = elim (Bool-cases ((kalloc r).0 == 0)) [
    | inl no_page ↦ rw no_page (given_back cur i t (claim i t) _ (Taken-claim i t e) refl)
    | inr page ↦ rw page (
        fork_into-effect cur i t _ _ (Taken-set_proc t (claim i t) i _ (Taken-claim i t e))
          (rw (==_refl i)))
  ]

  -- What `fork` does when it returns: it leaves the table alone and returns -1; or it has used up a
  -- pid and an UNUSED slot is UNUSED again, and it returns -1; or that slot holds a RUNNABLE child of
  -- the caller with the fresh pid that it returns. No other slot changes.
  pub fork-effect :
      (cur : ℕ) (t : Ptable) (r : Res) {res : Option ℕ} {t' : Ptable} {r' : Res}
      → fork k cur t r ≡ ok (res, t', r')
      → ForkEffect cur t t' res
  unfolding fork
  fork-effect cur t r h = OnOk-ok (Forked cur t) (fork_from-Forked cur t r _ refl) h
