-- ===== src/Spinlock/Safety.antt =====
-- spinlock.c: what follows for a CPU that holds a lock, and for pairs of pushcli and popcli.
use native.Mathlib.Decide.{ℕ_discrete}
use schoolstuff.Base.{
  ℕ, ◌+◌, ◌-◌, ◌≤◌, ◌≡◌, refl, Bool, true, false, ◌&&◌, List, [], ◌∷◌, arith, ◌==◌, if◌then◌else◌,
  inl, inr, Bool-cases, ◌∙◌, length, count,
}
use schoolstuff.Base.Outcome.{ok}
use schoolstuff.Spinlock.{Cpu, Machine, holding, pushcli, popcli, release}
use schoolstuff.Spinlock.Exclusion.{System, Reach, Exclusive, Reach-Exclusive, owned, held_alone}

count-le-length : (k : ℕ) (ks : List ℕ) → count k ks ≤ length ks
count-le-length k [] = omega arith
count-le-length k (x ∷ xs) = let ih = count-le-length k xs in ground arith

owned-true : (b : Bool) → 1 ≤ owned b → b ≡ true
owned-true true h = refl
owned-true false h = absurd (omega arith)

module _ (s : System) (inv : Exclusive s) (c l : ℕ) (has : 1 ≤ count l (s.held c)) where
  named : holding (s.machine.locks l) c ≡ true
  named = owned-true _ (omega (arith, inv.owner l c))

  deep : 1 ≤ (s.machine.cpus c).ncli
  deep = omega (arith, inv.depth c, count-le-length l (s.held c))

-- Whatever the CPUs did since a state that keeps the invariant, two CPUs that hold the same lock are
-- the same CPU; it holds the lock once, and its interrupts are off.
pub mutual_exclusion :
    {u : System} (s : System) (l c d : ℕ)
    → Exclusive u
    → Reach u s
    → 1 ≤ count l (s.held c)
    → 1 ≤ count l (s.held d)
    → (c ≡ d) × (count l (s.held c) ≡ 1) × ((s.machine.cpus c).flag ≡ false)
mutual_exclusion s l c d start reach hc hd =
    let inv = Reach-Exclusive start reach in
    let mine = named s inv c l hc in
    (
      elim (ℕ_discrete c d) [
        | yes e ↦ e
        | no ne ↦
            let not_d = held_alone (s.machine.locks l) c d mine ne in
            absurd (ground (arith, not_d, named s inv d l hd))
      ],
      inv.owner l c ∙ rw mine,
      inv.off c (deep s inv c l hc),
    )

-- Whatever the CPUs did since a state that keeps the invariant, release of a lock by the CPU that
-- holds it does not panic.
pub release-never_panics :
    {u : System} (s : System) (l c : ℕ)
    → Exclusive u
    → Reach u s
    → 1 ≤ count l (s.held c)
    → (m' : Machine) × (release c l s.machine ≡ ok m')
unfolding release popcli
release-never_panics s l c start reach hc =
    let inv = Reach-Exclusive start reach in
    let deep_c = deep s inv c l hc in
    let mine = named s inv c l hc in
    let off = inv.off c deep_c in
    let open_depth : ((s.machine.cpus c).ncli == 0) ≡ false = ground arith in
    rw (mine, off, open_depth) (_, refl)

-- popcli undoes pushcli on a CPU whose interrupts are off unless `ncli` is 0: the depth and the
-- interrupts are as before. In between, interrupts are off.
pub popcli-pushcli :
    (c : Cpu)
    → (1 ≤ c.ncli → c.flag ≡ false)
    → ((pushcli c).flag ≡ false)
      × (c' : Cpu) × (popcli (pushcli c) ≡ ok c')
      × (c'.ncli ≡ c.ncli)
      × (c'.flag ≡ c.flag)
unfolding popcli
popcli-pushcli c h =
    let deep : (c.ncli + 1 == 0) ≡ false = ground arith in
    rw deep (refl, _, refl, omega arith, restored)
  where
    restored :
        (if (c.ncli + 1 - 1 == 0) && (if c.ncli == 0 then c.flag else c.intena)
          then true
          else false)
        ≡ c.flag
    restored = elim (ℕ_discrete c.ncli 0) [
      | yes z ↦
          let top : (c.ncli == 0) ≡ true = ground arith in
          let back : (c.ncli + 1 - 1 == 0) ≡ true = ground arith in
          rw (top, back) (elim (Bool-cases c.flag) [ inl e ↦ rw e | inr e ↦ rw e ])
      | no nz ↦
          let back : (c.ncli + 1 - 1 == 0) ≡ false = ground arith in
          let off = h (omega arith) in rw (back, off)
    ]
