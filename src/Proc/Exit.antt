-- ===== src/Proc/Exit.antt =====
-- proc.c: what `exit` leaves in each slot of the process table.
use schoolstuff.Base.{
  ℕ, ◌<◌, ◌≡◌, ◌≢◌, false, some, arith, ◌==◌, if◌then◌else◌, ◌⊎◌, inl, inr, Bool-cases, ◌∙◌, lt→ltb,
  le→leb, ==_refl,
}
use schoolstuff.Proc.{nproc, State, Chan, Proc, Ptable, chan_of, is_child_of, wake, wakeup1}
use schoolstuff.Proc.Life.{adopt_from, exit_locked}
use schoolstuff.Proc.Table.{
  wakeup1-at, adopt_from-at, adopted, has_zombie_child, has_zombie_child-ext, is_zombie_child-wake,
}

-- The slot `j` after the loop of `exit`, from the slot before `exit`.
unfoldable pub left_by : ℕ → Ptable → Proc → Proc
left_by cur t p =
    let q = adopted cur t.initproc (wake (chan_of (t.procs cur).parent) p) in
    if has_zombie_child cur nproc 0 t.procs then wake (Chan.proc t.initproc) q else q

-- `exit` slot by slot: the parent of `cur` is woken up, the children of `cur` go to init, who is
-- woken up if one of them is a zombie, and `cur` becomes a zombie.
pub exit_locked-at :
    (cur : ℕ) (t : Ptable) (j : ℕ)
    → cur < nproc
    → j < nproc
    → (exit_locked cur t).procs j ≡ (
        if cur == j
        then record (left_by cur t (t.procs cur)) { state = State.zombie }
        else left_by cur t (t.procs j))
unfolding exit_locked left_by
exit_locked-at cur t j hc hj = rw (at_slot cur hc, at_slot j hj)
  where
    woken : ℕ → Proc
    woken = wakeup1 (chan_of (t.procs cur).parent) t.procs

    children : has_zombie_child cur nproc 0 woken ≡ has_zombie_child cur nproc 0 t.procs
    children = has_zombie_child-ext cur nproc 0 woken t.procs (λ k a b.
        rw (wakeup1-at (chan_of (t.procs cur).parent) t.procs k, lt→ltb k nproc (omega arith))
          (is_zombie_child-wake _ cur (t.procs k)))

    at_slot :
        (k : ℕ) → k < nproc → adopt_from cur t.initproc nproc 0 woken k ≡ left_by cur t (t.procs k)
    at_slot k h =
        adopt_from-at cur t.initproc nproc 0 woken k h (omega arith)
        ∙ rw (
          children,
          wakeup1-at (chan_of (t.procs cur).parent) t.procs k,
          lt→ltb k nproc h,
          le→leb 0 k (omega arith),
        )

is_child_of-left_by :
    (cur : ℕ) (t : Ptable) (p : Proc) → t.initproc ≢ cur → is_child_of cur (left_by cur t p) ≡ false
unfolding left_by adopted wake
is_child_of-left_by cur t p ne = ground arith

-- After `exit` no process has the exiting process for its parent, so none is left that nobody
-- waits for, and the exiting process is a zombie.
pub exit_locked-childless :
    (cur : ℕ) (t : Ptable) (j : ℕ)
    → cur < nproc
    → t.initproc ≢ cur
    → j < nproc
    → (is_child_of cur ((exit_locked cur t).procs j) ≡ false)
      × (((exit_locked cur t).procs cur).state ≡ State.zombie)
exit_locked-childless cur t j hc ne hj =
    let kept = is_child_of-left_by cur t (t.procs j) ne in
    let own = is_child_of-left_by cur t (t.procs cur) ne in
    (
      rw (exit_locked-at cur t j hc hj)
          (elim (Bool-cases (cur == j)) [ inl e ↦ rw e own | inr e ↦ rw e kept ]),
      rw (exit_locked-at cur t cur hc hc, ==_refl cur),
    )

-- A slot other than the exiting process keeps its pid, and its state unless it is woken up.
pub left_by_lem :
    (cur : ℕ) (t : Ptable) (p : Proc)
    → ((left_by cur t p).pid ≡ p.pid)
      × (((left_by cur t p).state ≡ p.state)
          ⊎ ((p.state ≡ State.sleeping) × ((left_by cur t p).state ≡ State.runnable)))
unfolding left_by adopted wake
left_by_lem cur t p = ground arith

-- The parent that sleeps in `wait` is made runnable.
pub left_by-parent :
    (cur par : ℕ) (t : Ptable)
    → (t.procs cur).parent ≡ some par
    → (t.procs par).state ≡ State.sleeping
    → (t.procs par).chan ≡ Chan.proc par
    → (left_by cur t (t.procs par)).state ≡ State.runnable
unfolding left_by adopted wake
left_by-parent cur par t e s c = ground arith

-- The exiting process keeps its parent.
pub left_by-parent_kept :
    (cur par : ℕ) (t : Ptable)
    → (t.procs cur).parent ≡ some par
    → par ≢ cur
    → (left_by cur t (t.procs cur)).parent ≡ some par
unfolding left_by adopted wake
left_by-parent_kept cur par t e ne = ground arith
