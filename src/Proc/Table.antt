-- ===== src/Proc/Table.antt =====
-- proc.c: what the loops over the process table do to each slot.
use mathlib.Core.Path.{ap₂, subst}
use native.Mathlib.Decide.{ℕ_discrete}
use schoolstuff.Base.{
  ℕ, zero, suc, ◌+◌, ◌≤◌, ◌<◌, ◌≡◌, ◌≢◌, refl, Bool, true, false, ◌&&◌, ◌||◌, some, arith, ltb, leb,
  ◌==◌, if◌then◌else◌, update, inl, inr, Bool-cases, ap, ==_refl, ne→==, lt→ltb, from_next, ◌∙◌,
  sym,
}
use schoolstuff.Proc.{
  nproc, Chan, Proc, is_zombie, is_unused, is_child_of, each, wake, wakeup1, find_unused, kill_one,
  kill_from,
}
use schoolstuff.Proc.Life.{adopt_one, adopt_from}

module _ (f : Proc → Proc) where
  -- The loop changes the slots of its range, each once, and no other.
  pub each-at :
      (n i : ℕ) (ps : ℕ → Proc) (j : ℕ)
      → each f n i ps j ≡ (if leb i j && ltb j (i + n) then f (ps j) else ps j)
  unfolding each
  each-at zero i ps j = ground arith
  each-at (suc n) i ps j = ground (arith, each-at n (i + 1) (update ps i (f (ps i))) j)

-- `wakeup1` makes RUNNABLE exactly the processes that sleep on the channel.
pub wakeup1-at :
    (c : Chan) (ps : ℕ → Proc) (j : ℕ)
    → wakeup1 c ps j ≡ (if ltb j nproc then wake c (ps j) else ps j)
unfolding wakeup1
wakeup1-at c ps j = each-at (wake c) nproc 0 ps j ∙ ground arith

-- The first UNUSED slot.
pub find_unused-some :
    (n i : ℕ) (ps : ℕ → Proc) (k : ℕ)
    → find_unused n i ps ≡ some k
    → (i ≤ k) × (k < i + n) × (is_unused (ps k).state ≡ true)
unfolding find_unused
find_unused-some zero i ps k h = absurd (ground arith)
find_unused-some (suc n) i ps k h = elim (Bool-cases (is_unused (ps i).state)) [
  | inl free ↦ ground arith
  | inr used ↦ let ih = find_unused-some n (i + 1) ps k (rw used at h) in ground arith
]

-- What `kill` does to the table, when it finds a slot with the pid.
pub kill_from-found :
    (n i pid : ℕ) (ps : ℕ → Proc)
    → (kill_from n i pid ps).0 ≡ true
    → (k : ℕ) × (i ≤ k)
      × (k < i + n)
      × ((ps k).pid ≡ pid)
      × ((j : ℕ) → i ≤ j → j < k → (ps j).pid ≢ pid)
      × ((kill_from n i pid ps).1 ≡ update ps k (kill_one (ps k)))
unfolding kill_from
kill_from-found zero i pid ps h = absurd (ground arith)
kill_from-found (suc n) i pid ps h = elim (Bool-cases ((ps i).pid == pid)) [
  | inl same ↦ (i, omega arith, omega arith, ground arith, (λ j a b. absurd (omega arith)), rw same)
  | inr other ↦
      let (k, lo, hi, e, first, table) = kill_from-found n (i + 1) pid ps (rw other at h) in
      (
        k,
        omega arith,
        omega arith,
        e,
        from_next (λ j. (ps j).pid ≢ pid) i k (ground arith) first,
        rw other table,
      )
]

pub kill_from-missing :
    (n i pid : ℕ) (ps : ℕ → Proc)
    → (kill_from n i pid ps).0 ≡ false
    → ((j : ℕ) → i ≤ j → j < i + n → (ps j).pid ≢ pid) × ((kill_from n i pid ps).1 ≡ ps)
unfolding kill_from
kill_from-missing zero i pid ps h = ((λ j a b. absurd (omega arith)), refl)
kill_from-missing (suc n) i pid ps h = elim (Bool-cases ((ps i).pid == pid)) [
  | inl same ↦ absurd (ground arith)
  | inr other ↦
      let (all, table) = kill_from-missing n (i + 1) pid ps (rw other at h) in
      (
        from_next (λ j. (ps j).pid ≢ pid) i (i + suc n) (ground arith)
            (λ j a b. all j a (omega arith)),
        rw other table,
      )
]

-- The table after `exit` has passed on the children of `cur`: a child's parent is `init`.
unfoldable pub adopted : ℕ → ℕ → Proc → Proc
adopted cur init p = if is_child_of cur p then record p { parent = some init } else p

-- Whether one of the slots in a range holds a zombie child of `cur`.
unfoldable pub has_zombie_child : ℕ → ℕ → ℕ → (ℕ → Proc) → Bool
has_zombie_child cur zero i ps = false
has_zombie_child cur (suc n) i ps =
    (is_child_of cur (ps i) && is_zombie (ps i).state) || has_zombie_child cur n (i + 1) ps

abbrev pub is_zombie_child : ℕ → Proc → Bool
is_zombie_child cur p = is_child_of cur p && is_zombie p.state

wake-wake : (c : Chan) (p : Proc) → wake c (wake c p) ≡ wake c p
unfolding wake
wake-wake c p = ground arith

wake-adopted :
    (c : Chan) (cur init : ℕ) (p : Proc) → wake c (adopted cur init p) ≡ adopted cur init (wake c p)
unfolding wake adopted
wake-adopted c cur init p = ground arith

pub is_zombie_child-wake :
    (c : Chan) (cur : ℕ) (p : Proc) → is_zombie_child cur (wake c p) ≡ is_zombie_child cur p
unfolding wake
is_zombie_child-wake c cur p = ground arith

adopt-child :
    (cur init i : ℕ) (ps : ℕ → Proc) (j : ℕ)
    → is_child_of cur (ps i) ≡ true
    → update ps i (record (ps i) { parent = some init }) j
      ≡ (if i == j then adopted cur init (ps j) else ps j)
unfolding adopted
adopt-child cur init i ps j child = elim (ℕ_discrete i j) [
  | yes q ↦
      subst
        (λ k.
          update ps i (record (ps i) { parent = some init }) k
          ≡ (if i == k then adopted cur init (ps k) else ps k))
        q (rw (==_refl i, child))
  | no q ↦ rw (ne→== i j q)
]

adopt-other :
    (cur init i : ℕ) (ps : ℕ → Proc) (j : ℕ)
    → is_child_of cur (ps i) ≡ false
    → ps j ≡ (if i == j then adopted cur init (ps j) else ps j)
unfolding adopted
adopt-other cur init i ps j other = elim (ℕ_discrete i j) [
  | yes q ↦
      subst (λ k. ps k ≡ (if i == k then adopted cur init (ps k) else ps k)) q
        (rw (==_refl i, other))
  | no q ↦ rw (ne→== i j q)
]

-- One round of the loop, slot by slot.
adopt_one-at :
    (cur init i : ℕ) (ps : ℕ → Proc) (j : ℕ)
    → j < nproc
    → adopt_one cur init i ps j ≡ (
        let p = if i == j then adopted cur init (ps j) else ps j in
        if is_zombie_child cur (ps i) then wake (Chan.proc init) p else p)
adopt_one-at cur init i ps j h = elim (Bool-cases (is_child_of cur (ps i))) [
  | inl child ↦ elim (Bool-cases (is_zombie (ps i).state)) [
    | inl dead ↦
        rw (child, dead)
          (wakeup1-at _ _ j
            ∙ rw (lt→ltb j nproc h)
                (ap (wake (Chan.proc init)) (adopt-child cur init i ps j child)))
    | inr alive ↦ rw (child, alive) (adopt-child cur init i ps j child)
  ]
  | inr other ↦ rw other (adopt-other cur init i ps j other)
]

pub has_zombie_child-ext :
    (cur n i : ℕ) (ps qs : ℕ → Proc)
    → ((j : ℕ) → i ≤ j → j < i + n → is_zombie_child cur (ps j) ≡ is_zombie_child cur (qs j))
    → has_zombie_child cur n i ps ≡ has_zombie_child cur n i qs
unfolding has_zombie_child
has_zombie_child-ext cur zero i ps qs h = refl
has_zombie_child-ext cur (suc n) i ps qs h =
    ap₂ ◌||◌ (h i (omega arith) (omega arith))
      (has_zombie_child-ext cur n (i + 1) ps qs (λ j a b. h j (omega arith) (omega arith)))

module _ {A : Type 0} (w a : A → A) (ww : (x : A) → w (w x) ≡ w x)
    (wa : (x : A) → w (a x) ≡ a (w x)) where
  -- Two rounds of an idempotent change that commutes with another.
  combine :
      (z later_z here later : Bool) (p : A)
      → (here && later) ≡ false
      → (let b = if here then a p else p in
          let q = if z then w b else b in
          let r = if later then a q else q in if later_z then w r else r)
        ≡ (let r = if here || later then a p else p in if z || later_z then w r else r)
  combine z lz true true p h = cc
  combine false false true false p h = refl
  combine false false false later p h = refl
  combine false true true false p h = refl
  combine false true false later p h = refl
  combine true false true false p h = refl
  combine true false false true p h = sym (wa p)
  combine true false false false p h = refl
  combine true true true false p h = ww (a p)
  combine true true false true p h = ap w (sym (wa p)) ∙ ww (a p)
  combine true true false false p h = ww p

-- A round leaves the zombie children in the other slots as they are.
is_zombie_child-adopt_one :
    (cur init i : ℕ) (ps : ℕ → Proc) (k : ℕ)
    → i < k
    → k < nproc
    → is_zombie_child cur (adopt_one cur init i ps k) ≡ is_zombie_child cur (ps k)
is_zombie_child-adopt_one cur init i ps k lo hi =
    rw (adopt_one-at cur init i ps k hi, ne→== i k (omega arith))
      (elim (Bool-cases (is_zombie_child cur (ps i))) [
        | inl z ↦ rw z (is_zombie_child-wake (Chan.proc init) cur (ps k))
        | inr z ↦ rw z
      ])

range-suc :
    (i n j : ℕ)
    → (leb i j && ltb j (i + suc n)) ≡ ((i == j) || (leb (i + 1) j && ltb j (i + 1 + n)))
range-suc i n j = ground arith

range_disjoint : (i n j : ℕ) → ((i == j) && (leb (i + 1) j && ltb j (i + 1 + n))) ≡ false
range_disjoint i n j = ground arith

-- What the loop of `exit` does to slot `j`: adoption if it is in the range, and a wake-up of `init`
-- if there was a zombie among the children.
pub adopt_from-at :
    (cur init n i : ℕ) (ps : ℕ → Proc) (j : ℕ)
    → j < nproc
    → i + n ≤ nproc
    → adopt_from cur init n i ps j ≡ (
        let p = if leb i j && ltb j (i + n) then adopted cur init (ps j) else ps j in
        if has_zombie_child cur n i ps then wake (Chan.proc init) p else p)
unfolding adopt_from has_zombie_child
adopt_from-at cur init zero i ps j h hn = ground arith
adopt_from-at cur init (suc n) i ps j h hn =
    adopt_from-at cur init n (i + 1) qs j h (omega arith)
    ∙ rw (children, adopt_one-at cur init i ps j h, range-suc i n j)
        (combine (wake c) (adopted cur init) (wake-wake c) (wake-adopted c cur init)
          (is_zombie_child cur (ps i)) (has_zombie_child cur n (i + 1) ps) (i == j)
          (leb (i + 1) j && ltb j (i + 1 + n)) (ps j) (range_disjoint i n j))
  where
    c : Chan
    c = Chan.proc init

    qs : ℕ → Proc
    qs = adopt_one cur init i ps

    children : has_zombie_child cur n (i + 1) qs ≡ has_zombie_child cur n (i + 1) ps
    children =
        has_zombie_child-ext cur n (i + 1) qs ps
          (λ k a b. is_zombie_child-adopt_one cur init i ps k (omega arith) (omega arith))
