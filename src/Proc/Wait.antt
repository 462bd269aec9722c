-- ===== src/Proc/Wait.antt =====
-- proc.c: what `wait` finds, and that a parent that waits is woken up by `exit` and finds its child.
use schoolstuff.Base.{
  ℕ, zero, suc, ◌+◌, ◌≤◌, ◌<◌, ◌≡◌, ◌≢◌, refl, Bool, true, false, ◌||◌, some, arith, ◌⊎◌, inl, inr,
  Bool-cases, sym, ==_refl, ne→==, from_next,
}
use schoolstuff.Proc.{nproc, State, Chan, Proc, Ptable, is_child_of}
use schoolstuff.Proc.Life.{exit_locked, Scan, found, kids, wait_from}
use schoolstuff.Proc.Exit.{exit_locked-at, left_by-parent, left_by-parent_kept}
use schoolstuff.Proc.Table.{is_zombie_child}

-- The scan of `wait` stops at a zombie child in its range.
pub wait_from-found :
    (cur n i : ℕ) (b : Bool) (ps : ℕ → Proc) (k : ℕ)
    → wait_from cur n i b ps ≡ found k
    → (i ≤ k) × (k < i + n) × (is_zombie_child cur (ps k) ≡ true)
unfolding wait_from
wait_from-found cur zero i b ps k h = absurd (ground arith)
wait_from-found cur (suc n) i b ps k h = elim (Bool-cases (is_zombie_child cur (ps i))) [
  | inl here ↦ let e : found i ≡ found k = rw here at h in ground arith
  | inr no_zombie ↦
      let ih =
        wait_from-found cur n (i + 1) (b || is_child_of cur (ps i)) ps k (rw no_zombie at h) in
      ground arith
]

-- If it finds none, no slot in its range holds a zombie child, and the flag says whether there is
-- a child.
pub wait_from-kids :
    (cur n i : ℕ) (b c : Bool) (ps : ℕ → Proc)
    → wait_from cur n i b ps ≡ kids c
    → ((j : ℕ)
        → i ≤ j
        → j < i + n
        → (is_zombie_child cur (ps j) ≡ false) × (is_child_of cur (ps j) ≡ true → c ≡ true))
      × (b ≡ true → c ≡ true)
unfolding wait_from
wait_from-kids cur zero i b c ps h = ((λ j lo hi. absurd (omega arith)), (λ e. ground arith))
wait_from-kids cur (suc n) i b c ps h = elim (Bool-cases (is_zombie_child cur (ps i))) [
  | inl here ↦ absurd (ground arith)
  | inr no_zombie ↦
      let (later, flag) =
        wait_from-kids cur n (i + 1) (b || is_child_of cur (ps i)) c ps (rw no_zombie at h) in
      (
        from_next
            (λ j. (is_zombie_child cur (ps j) ≡ false) × (is_child_of cur (ps j) ≡ true → c ≡ true))
            i (i + suc n) (no_zombie, (λ e. flag (ground arith)))
            (λ j lo hi. later j lo (omega arith)),
        (λ e. flag (rw e)),
      )
]

Scan-cases : (s : Scan) → ((k : ℕ) × (s ≡ found k)) ⊎ ((c : Bool) × (s ≡ kids c))
Scan-cases (found k) = inl (k, refl)
Scan-cases (kids c) = inr (c, refl)

exited_child :
    (cur par : ℕ) (t : Ptable)
    → cur < nproc
    → par ≢ cur
    → (t.procs cur).parent ≡ some par
    → is_zombie_child par ((exit_locked cur t).procs cur) ≡ true
exited_child cur par t hc ne e =
    rw
      (exit_locked-at cur t cur hc hc, ==_refl cur, left_by-parent_kept cur par t e ne, ==_refl par)

-- No wake-up is lost between `exit` and `wait`: if the parent of the exiting process sleeps in
-- `wait`, then after `exit` it is RUNNABLE, and its next scan of the table finds a zombie child.
pub exit_wakes_wait :
    (cur par : ℕ) (t : Ptable)
    → cur < nproc
    → par < nproc
    → par ≢ cur
    → (t.procs cur).parent ≡ some par
    → (t.procs par).state ≡ State.sleeping
    → (t.procs par).chan ≡ Chan.proc par
    → (((exit_locked cur t).procs par).state ≡ State.runnable)
      × ((k : ℕ) × (wait_from par nproc 0 false (exit_locked cur t).procs ≡ found k)
          × (is_zombie_child par ((exit_locked cur t).procs k) ≡ true))
exit_wakes_wait cur par t hc hp ne e asleep c = (
  rw (exit_locked-at cur t par hc hp, ne→== cur par (λ q. ne (sym q)))
      (left_by-parent cur par t e asleep c),
  elim (Scan-cases (wait_from par nproc 0 false (exit_locked cur t).procs)) [
    | inl (k, scan) ↦
        (k, scan, (wait_from-found par nproc 0 false (exit_locked cur t).procs k scan).2)
    | inr (b, scan) ↦
        let none_left =
          (wait_from-kids par nproc 0 false b (exit_locked cur t).procs scan).0 cur (omega arith)
            (omega arith) in
        cc (exited_child cur par t hc ne e, none_left.0)
  ],
)
