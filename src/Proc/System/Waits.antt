-- ===== src/Proc/System/Waits.antt =====
-- proc.c: `wait` keeps the invariant of the process table.
use schoolstuff.Base.{ℕ, ◌≡◌, refl, true, false, arith, inl, inr, Bool-cases, not, ◌||◌}
use schoolstuff.Base.Outcome.{ok, OnOk, OnOk-ok, OnOk->>=}
use schoolstuff.Proc.{nproc, Chan, Proc, Ptable, is_zombie, sleep}
use schoolstuff.Proc.Services.{Services}
use schoolstuff.Proc.Life.{WaitEnd, wait, set_proc, buried, found, kids, Scan, wait_from, wait_on}
use schoolstuff.Proc.Wait.{wait_from-found}
use schoolstuff.Proc.System.Preserve.{Inv-set_proc}
use schoolstuff.Proc.System.Forks.{Inv-given_back}
use schoolstuff.Proc.System.{is_live, Runs, Inv}

dead : (p : Proc) → is_zombie p.state ≡ true → is_live p.state ≡ false
dead p y = ground arith

-- A zombie is nobody's parent, so its slot can be given back.
pub Inv-bury :
    (i : ℕ) {t : Ptable}
    → Inv t
    → is_zombie (t.procs i).state ≡ true
    → Inv (set_proc i (buried (t.procs i)) t)
Inv-bury i {t} v z = Inv-given_back i t (buried (t.procs i)) v (dead (t.procs i) z) refl

-- `sleep` of a running process.
pub Inv-sleep : (cur : ℕ) (c : Chan) {t : Ptable} → Inv t → Runs t cur → Inv (sleep cur c t)
unfolding sleep
Inv-sleep cur c {t} v run =
    Inv-set_proc cur _ v
      (record { pid = refl; parent = refl; live = rw run.1; used = rw run.1; born = rw run.1 })

module _ (k : Services) where
  open k use {Res, kfree, freevm}

  wait_on-Inv :
      (cur : ℕ) (t : Ptable) (r : Res) (s : Scan)
      → Inv t
      → Runs t cur
      → wait_from cur nproc 0 false t.procs ≡ s
      → OnOk (λ x. Inv x.1) (wait_on k cur s t r)
  unfolding wait_on
  wait_on-Inv cur t r (found i) v run e =
      let (_, _, z) = wait_from-found cur nproc 0 false t.procs i e in
      OnOk->>= (λ x. Inv x.1) (kfree (t.procs i).kstack r) _
        (λ r1.
          OnOk->>= (λ x. Inv x.1) (freevm (t.procs i).pgdir r1) _
            (λ r2. Inv-bury i v (ground arith)))
  wait_on-Inv cur t r (kids b) v run e = elim (Bool-cases (not b || (t.procs cur).killed)) [
    | inl give_up ↦ rw give_up v
    | inr go_on ↦ rw go_on (Inv-sleep cur (Chan.proc cur) v run)
  ]

  pub Inv-wait :
      {cur : ℕ} {t : Ptable} (r : Res) {e : WaitEnd} {t' : Ptable} {r' : Res}
      → Inv t
      → Runs t cur
      → wait k cur t r ≡ ok (e, t', r')
      → Inv t'
  unfolding wait
  Inv-wait {cur} {t} r v run h =
      OnOk-ok (λ (x : WaitEnd × Ptable × Res). Inv x.1) (wait_on-Inv cur t r _ v run refl) h
