-- ===== src/Proc/Kill.antt =====
-- proc.c: whom `kill` reaches, and what becomes of a slot that is not in use.
use mathlib.Core.Path.{subst}
use native.Mathlib.Decide.{ℕ_discrete}
use schoolstuff.Base.{
  ℕ, zero, suc, ◌+◌, ◌≤◌, ◌<◌, ◌≡◌, ◌≢◌, Bool, refl, true, false, some, arith, ◌==◌, if◌then◌else◌,
  update, ◌⊎◌, inl, inr, Bool-cases, sym, ne→==, ==_refl,
}
use schoolstuff.Proc.{nproc, Proc, Ptable, is_unused, find_unused, kill_one, kill_from, kill}
use schoolstuff.Proc.Services.{Services}
use schoolstuff.Proc.Life.{allocproc}
use schoolstuff.Proc.Table.{kill_from-found, kill_from-missing}

-- What `kill` may return and do: 0, and the first slot with the pid is marked, and made RUNNABLE if
-- it sleeps, while no other slot changes; or -1, no slot has the pid, and the table is unchanged.
abbrev pub KillEffect : ℕ → Ptable → Bool × Ptable → Type 0
KillEffect pid t (found, t') =
    (found ≡ true)
      × ((i : ℕ) × (i < nproc)
          × ((t.procs i).pid ≡ pid)
          × ((j : ℕ) → j < i → (t.procs j).pid ≢ pid)
          × (t'.procs ≡ update t.procs i (kill_one (t.procs i))))
    ⊎ (found ≡ false) × ((j : ℕ) → j < nproc → (t.procs j).pid ≢ pid) × (t'.procs ≡ t.procs)

-- For every pid and table `kill` either returns 0 and changes exactly the first slot with the pid,
-- which is marked as killed and made RUNNABLE if it sleeps; or it returns -1, no slot has the pid,
-- and the table is unchanged.
pub kill_lem : (pid : ℕ) (t : Ptable) → KillEffect pid t (kill pid t)
unfolding kill
kill_lem pid t = elim (Bool-cases (kill_from nproc 0 pid t.procs).0) [
  | inl hit ↦
      let (i, lo, hi, e, first, table) = kill_from-found nproc 0 pid t.procs hit in
      inl (hit, (i, hi, e, (λ j b. first j (omega arith) b), table))
  | inr miss ↦
      let (all, table) = kill_from-missing nproc 0 pid t.procs miss in
      inr (miss, (λ j b. all j (omega arith) b), table)
]

kill_from-first :
    (n lo i pid : ℕ) (ps : ℕ → Proc)
    → lo ≤ i
    → i < lo + n
    → ((j : ℕ) → lo ≤ j → j < i → (ps j).pid ≢ pid)
    → (ps i).pid ≡ pid
    → kill_from n lo pid ps ≡ (true, update ps i (kill_one (ps i)))
unfolding kill_from
kill_from-first zero lo i pid ps h1 h2 first e = absurd (omega arith)
kill_from-first (suc n) lo i pid ps h1 h2 first e = elim (ℕ_discrete lo i) [
  | yes q ↦
      subst
        (λ m.
          (if (ps m).pid == pid
            then (true, update ps m (kill_one (ps m)))
            else kill_from n (lo + 1) pid ps)
          ≡ (true, update ps i (kill_one (ps i))))
        (sym q) (rw (e, ==_refl pid))
  | no q ↦ rw (ne→== _ _ (first lo (omega arith) (omega arith))) (
      kill_from-first n (lo + 1) i pid ps (omega arith) (omega arith)
        (λ j a b. first j (omega arith) b) e)
]

find_unused-update :
    (n lo i : ℕ) (ps : ℕ → Proc) (p : Proc)
    → is_unused p.state ≡ is_unused (ps i).state
    → find_unused n lo (update ps i p) ≡ find_unused n lo ps
unfolding find_unused
find_unused-update zero lo i ps p h = refl
find_unused-update (suc n) lo i ps p h = rw (find_unused-update n (lo + 1) i ps p h, same) refl
  where
    same : is_unused (update ps i p lo).state ≡ is_unused (ps lo).state
    same = elim (ℕ_discrete i lo) [
      | yes q ↦
          subst (λ m. is_unused (update ps i p m).state ≡ is_unused (ps m).state) q
            (rw (==_refl i) h)
      | no q ↦ rw (ne→== i lo q)
    ]

kill_one-killed : (p : Proc) → (kill_one p).killed ≡ true
kill_one-killed p = ground arith

module _ (k : Services) where
  open k use {Res, kalloc}

  -- `kill` does not ask whether the slot that it finds is in use, and `allocproc` does not clear
  -- `killed`. So where the first UNUSED slot is also the first with the pid, as pid 0 is in every
  -- slot that `wait` has freed, `kill` returns 0 and the next process to be allocated is born killed.
  pub kill_unused :
      (pid i : ℕ) (t : Ptable) (r : Res)
      → find_unused nproc 0 t.procs ≡ some i
      → i < nproc
      → is_unused (t.procs i).state ≡ true
      → (t.procs i).pid ≡ pid
      → ((j : ℕ) → j < i → (t.procs j).pid ≢ pid)
      → (kalloc r).0 ≢ 0
      → let (found, t') = kill pid t in
        let (slot, t'', _) = allocproc k t' r in
        (found ≡ true) × (slot ≡ some i) × ((t''.procs i).killed ≡ true)
  unfolding kill allocproc
  kill_unused pid i t r e hi free same first page =
      let q = kill_one (t.procs i) in
      let unused_still : is_unused q.state ≡ is_unused (t.procs i).state = ground arith in
      rw
        (
          kill_from-first nproc 0 i pid t.procs (omega arith) hi (λ j a b. first j b) same,
          find_unused-update nproc 0 i t.procs q unused_still,
          e,
          ne→== _ 0 page,
          ==_refl i,
        )
        (refl, refl, kill_one-killed (t.procs i))
