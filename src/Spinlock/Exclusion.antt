-- ===== src/Spinlock/Exclusion.antt =====
-- spinlock.c: at most one CPU holds a lock, with its interrupts off, whatever the CPUs do and in
-- whatever order.
use mathlib.Core.Path.{subst}
use native.Mathlib.Decide.{ℕ_discrete}
use schoolstuff.Base.{
  ℕ, ◌+◌, ◌≤◌, ◌≡◌, ◌≢◌, refl, Bool, true, false, Option, none, some, List, ◌∷◌, ◌++◌, arith,
  if◌then◌else◌, update, inl, inr, Bool-cases, ne→==, ==_refl, ap, ◌∙◌, length, length-append,
  count, count-middle,
}
use schoolstuff.Base.Outcome.{ok, OnOk, OnOk-ok}
use schoolstuff.Spinlock.{
  Cpu, Spinlock, Machine, is_cpu, holding, pushcli, popcli, acquire_start, acquire_try, release,
}

-- The machine with the locks that each CPU has acquired, and whether it spins on one.
pub record System : Type 0 where
  pub machine : Machine
  pub held : ℕ → List ℕ
  pub spins : ℕ → Option ℕ

pub data Step (s : System) : System → Type 0 where
  starts :
      (c l : ℕ) {m' : Machine}
      → s.spins c ≡ none
      → acquire_start c l s.machine ≡ ok m'
      → Step s (record s { machine = m'; spins = update s.spins c (some l) })
  takes :
      (c l : ℕ) {m' : Machine}
      → s.spins c ≡ some l
      → acquire_try c l s.machine ≡ some m'
      → Step s (record {
        machine = m';
        held = update s.held c (l ∷ s.held c);
        spins = update s.spins c none;
      })
  releases :
      (c l : ℕ) (before after : List ℕ) {m' : Machine}
      → s.spins c ≡ none
      → s.held c ≡ before ++ l ∷ after
      → release c l s.machine ≡ ok m'
      → Step s (record s { machine = m'; held = update s.held c (before ++ after) })

pub data Reach (s : System) : System → Type 0 where
  here : Reach s s
  next : {u v : System} → Reach s u → Step u v → Reach s v

abbrev pub waiting : Option ℕ → ℕ
waiting none = 0
waiting (some l) = 1

abbrev pub owned : Bool → ℕ
owned b = if b then 1 else 0

-- `ncli` counts the locks that a CPU holds or spins on, interrupts are off while there is one, and
-- the lock names the one CPU that holds it.
pub record Exclusive (s : System) : Type 0 where
  pub depth : (c : ℕ) → (s.machine.cpus c).ncli ≡ length (s.held c) + waiting (s.spins c)
  pub off : (c : ℕ) → 1 ≤ (s.machine.cpus c).ncli → (s.machine.cpus c).flag ≡ false
  pub owner : (l c : ℕ) → count l (s.held c) ≡ owned (holding (s.machine.locks l) c)

-- One CPU in the middle of its locks.
length-middle : (xs ys : List ℕ) (k : ℕ) → length (xs ++ k ∷ ys) ≡ length (xs ++ ys) + 1
length-middle xs ys k = omega (arith, length-append xs (k ∷ ys), length-append xs ys)

abbrev Started : ℕ → Machine → Machine → Type 0
Started c m m' = m' ≡ record m { cpus = update m.cpus c (pushcli (m.cpus c)) }

acquire_start-Started : (c l : ℕ) (m : Machine) → OnOk (Started c m) (acquire_start c l m)
unfolding acquire_start
acquire_start-Started c l m = elim (Bool-cases (holding (m.locks l) c)) [
  | inl h ↦ rw h tt
  | inr h ↦ rw h refl
]

starts-Exclusive :
    (s : System) (c l : ℕ)
    → s.spins c ≡ none
    → Exclusive s
    → Exclusive (record s {
      machine = record s.machine { cpus = update s.machine.cpus c (pushcli (s.machine.cpus c)) };
      spins = update s.spins c (some l);
    })
starts-Exclusive s c l idle inv =
    let w : waiting (s.spins c) ≡ 0 = rw idle in
    record {
      depth = λ d. elim (ℕ_discrete c d) [
        | yes e ↦ rw⁻¹ e (rw (==_refl c) (omega (arith, inv.depth c, w)))
        | no ne ↦ rw (ne→== c d ne) (inv.depth d)
      ];
      off = λ d. elim (ℕ_discrete c d) [
        | yes e ↦ rw⁻¹ e (rw (==_refl c) (λ h. refl))
        | no ne ↦ rw (ne→== c d ne) (inv.off d)
      ];
      owner = inv.owner;
    }

abbrev Taken : ℕ → ℕ → Machine → Option Machine → Type 0
Taken c l m none = Unit
Taken c l m (some m') =
    ((m.locks l).locked ≡ false)
    × (m' ≡ record m { locks = update m.locks l (record { locked = true; cpu = some c }) })

acquire_try-Taken : (c l : ℕ) (m : Machine) → Taken c l m (acquire_try c l m)
unfolding acquire_try
acquire_try-Taken c l m = elim (Bool-cases (m.locks l).locked) [
  | inl h ↦ rw h tt
  | inr h ↦ rw h (h, refl)
]

takes-Exclusive :
    (s : System) (c l : ℕ)
    → s.spins c ≡ some l
    → (s.machine.locks l).locked ≡ false
    → Exclusive s
    → Exclusive (record {
      machine = record s.machine {
        locks = update s.machine.locks l (record { locked = true; cpu = some c });
      };
      held = update s.held c (l ∷ s.held c);
      spins = update s.spins c none;
    })
takes-Exclusive s c l spinning free inv =
    let w : waiting (s.spins c) ≡ 1 = rw spinning in
    let nobody : (d : ℕ) → count l (s.held d) ≡ 0 = λ d. inv.owner l d ∙ rw free in
    record {
      depth = λ d. elim (ℕ_discrete c d) [
        | yes e ↦ rw⁻¹ e (rw (==_refl c) (omega (arith, inv.depth c, w)))
        | no ne ↦ rw (ne→== c d ne) (inv.depth d)
      ];
      off = inv.off;
      owner = λ k d. elim (ℕ_discrete l k) [
        | yes q ↦ elim (ℕ_discrete c d) [
          | yes e ↦ rw⁻¹ (q, e) (rw (==_refl c, ==_refl l, ==_refl c) (omega (arith, nobody c)))
          | no ne ↦ rw⁻¹ q (rw (ne→== c d ne, ==_refl l, ne→== c d ne) (nobody d))
        ]
        | no nq ↦ elim (ℕ_discrete c d) [
          | yes e ↦ rw⁻¹ e (rw (==_refl c, ne→== l k nq) (omega (arith, inv.owner k c)))
          | no ne ↦ rw (ne→== c d ne, ne→== l k nq) (inv.owner k d)
        ]
      ];
    }

record Released (c l : ℕ) (m m' : Machine) : Type 0 where
  cpu : Cpu
  after : m' ≡ record {
    cpus = update m.cpus c cpu;
    locks = update m.locks l (record { locked = false; cpu = none });
  }
  was_held : holding (m.locks l) c ≡ true
  less : cpu.ncli + 1 ≡ (m.cpus c).ncli
  still_off : 1 ≤ cpu.ncli → cpu.flag ≡ false

release-Released : (c l : ℕ) (m : Machine) → OnOk (Released c l m) (release c l m)
unfolding release popcli
release-Released c l m = elim (Bool-cases (holding (m.locks l) c)) [
  | inr h ↦ rw h tt
  | inl h ↦ elim (Bool-cases (m.cpus c).flag) [
    | inl on ↦ rw (h, on) tt
    | inr off ↦ elim (ℕ_discrete (m.cpus c).ncli 0) [
      | yes z ↦ rw (h, off, z) tt
      | no nz ↦
          rw (h, off, ne→== _ 0 nz)
            (record {
              cpu = _;
              after = refl;
              was_held = h;
              less = omega arith;
              still_off = λ pos. ground arith;
            })
    ]
  ]
]

-- A lock that one CPU holds is held by no other.
pub held_alone :
    (lock : Spinlock) (c d : ℕ) → holding lock c ≡ true → c ≢ d → holding lock d ≡ false
held_alone lock c d h ne = elim (Bool-cases lock.locked) [
  | inr free ↦ rw free
  | inl locked ↦ rw locked (is_cpu-alone lock.cpu c d (rw locked at h) ne)
]
  where
    is_cpu-alone : (o : Option ℕ) (c d : ℕ) → is_cpu o c ≡ true → c ≢ d → is_cpu o d ≡ false
    is_cpu-alone none c d h ne = refl
    is_cpu-alone (some e) c d h ne = ground arith

releases-Exclusive :
    (s : System) (c l : ℕ) (before after : List ℕ) (m' : Machine)
    → s.held c ≡ before ++ l ∷ after
    → Released c l s.machine m'
    → Exclusive s
    → Exclusive (record s { machine = m'; held = update s.held c (before ++ after) })
releases-Exclusive s c l before after m' mine rel inv = rw rel.after (
    let many : length (s.held c) ≡ length (before ++ after) + 1 =
      ap length mine ∙ length-middle before after l in
    record {
      depth = λ d. elim (ℕ_discrete c d) [
        | yes e ↦ rw⁻¹ e (rw (==_refl c) (omega (arith, inv.depth c, rel.less, many)))
        | no ne ↦ rw (ne→== c d ne) (inv.depth d)
      ];
      off = λ d. elim (ℕ_discrete c d) [
        | yes e ↦ rw⁻¹ e (rw (==_refl c) rel.still_off)
        | no ne ↦ rw (ne→== c d ne) (inv.off d)
      ];
      owner = λ k d. elim (ℕ_discrete l k) [
        | yes q ↦ elim (ℕ_discrete c d) [
          | yes e ↦
              let one : count l (s.held c) ≡ 1 = inv.owner l c ∙ rw rel.was_held in
              let rest : count l (s.held c) ≡ count l (before ++ after) + 1 =
                ap (count l) mine ∙ rw (==_refl l) at (count-middle l l before after) in
              rw⁻¹ (q, e) (rw (==_refl c, ==_refl l) (omega (arith, one, rest)))
          | no ne ↦ rw⁻¹ q (
              rw (ne→== c d ne, ==_refl l)
                (inv.owner l d ∙ rw (held_alone (s.machine.locks l) c d rel.was_held ne)))
        ]
        | no nq ↦ elim (ℕ_discrete c d) [
          | yes e ↦
              let rest : count k (s.held c) ≡ count k (before ++ after) + 0 =
                ap (count k) mine ∙ rw (ne→== l k nq) at (count-middle k l before after) in
              rw⁻¹ e (rw (==_refl c, ne→== l k nq) (omega (arith, inv.owner k c, rest)))
          | no ne ↦ rw (ne→== c d ne, ne→== l k nq) (inv.owner k d)
        ]
      ];
    })

Step-Exclusive : {u v : System} → Exclusive u → Step u v → Exclusive v
Step-Exclusive {u} inv (starts c l {m'} idle e) =
    let q = OnOk-ok (Started c u.machine) (acquire_start-Started c l u.machine) e in
    rw q (starts-Exclusive u c l idle inv)
Step-Exclusive {u} inv (takes c l {m'} spinning e) =
    let (free, q) = subst (Taken c l u.machine) e (acquire_try-Taken c l u.machine) in
    rw q (takes-Exclusive u c l spinning free inv)
Step-Exclusive {u} inv (releases c l before after {m'} idle mine e) =
    releases-Exclusive u c l before after m' mine
      (OnOk-ok (Released c l u.machine) (release-Released c l u.machine) e) inv

-- Every sequence of steps of acquire and release by any CPUs keeps this: `ncli` counts the locks
-- that a CPU holds or spins on, interrupts are off on a CPU while there is one, and a CPU has
-- acquired a lock once if the lock names it as its holder, and not at all if it does not.
pub Reach-Exclusive : {u v : System} → Exclusive u → Reach u v → Exclusive v
Reach-Exclusive inv here = inv
Reach-Exclusive inv (next reach step) = Step-Exclusive (Reach-Exclusive inv reach) step
