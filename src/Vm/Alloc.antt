-- ===== src/Vm/Alloc.antt =====
-- vm.c: `allocuvm` maps all pages of its range, or takes back what it has mapped.
use mathlib.Core.Path.{subst}
use native.Mathlib.Decide.{dec_lt}
use schoolstuff.Base.{
  ℕ, zero, suc, ◌+◌, ◌-◌, ◌/◌, ◌%◌, ◌^◌, ◌≤◌, ◌<◌, ◌≡◌, ◌⊎◌, refl, Bool, true, false, List, [], ◌∷◌,
  arith, ltb, ◌==◌, if◌then◌else◌, add32, sub32, inl, inr, ne→==, ◌∙◌, sym, ap,
}
use schoolstuff.Base.Outcome.{Outcome, ok}
use schoolstuff.Kalloc.{Kmem, page_size, kernel_base, phys_stop, push_page, kalloc}
use schoolstuff.Kalloc.FreeList.{kalloc-nil, kfree-ok}
use schoolstuff.Vm.{v2p, pte_of, pte_wu, is_present, mappages, add_page, alloc_from}
use schoolstuff.Vm.Tables.{entry, Valid, Spares}
use schoolstuff.Vm.Walk.{page_positive, kalloc-cons}
use schoolstuff.Vm.Maps.{mapped, mappages_lem}
use schoolstuff.Vm.Users.{Space}
use schoolstuff.Vm.Take.{taken, taken-Valid, taken-entry}
use schoolstuff.Vm.Dealloc.{end_page, deallocuvm_lem}
use schoolstuff.Vm.Grow.{Grown, mapped-Grown}
use schoolstuff.Vm.Rollback.{Restored, rollback-Restored}
use schoolstuff.Vm.NoTable.{unmapped-Space, held-Foreign, freed-Restored}

one_entry :
    (q0 pa perm : ℕ) (old before : ℕ → ℕ) (m n q : ℕ)
    → m ≡ n
    → n ≡ 1
    → old q ≡ before q
    → mapped q0 m pa perm old q ≡ (if q0 == q then pte_of pa perm else before q)
one_entry q0 pa perm old before m n q e1 e2 h = ground (arith, e1, e2, h)

no_entry :
    (q0 pa perm : ℕ) (old before : ℕ → ℕ) (m n q : ℕ)
    → m < n
    → n ≡ 1
    → old q ≡ before q
    → mapped q0 m pa perm old q ≡ before q
no_entry q0 pa perm old before m n q e1 e2 h = ground (arith, e1, e2, h)

-- The page `mem` that has been taken is mapped at `a`, or there is no page table for it.
module _ (ke pgdir mem : ℕ) (xs : List ℕ) (s : Kmem) (space : Space ke pgdir (mem ∷ xs) s) (a : ℕ)
    (al : a % page_size ≡ 0) (a_ok : a < kernel_base)
    (absent : is_present (entry pgdir s (a / page_size)) ≡ false) where
  abbrev MapsOne : Type 0
  MapsOne =
      (done : Bool) × (s' : Kmem) × (xs' : List ℕ) × (mappages pgdir a page_size (v2p mem) pte_wu
          (taken ke pgdir mem xs s space.valid)
        ≡ ok (done, s'))
      × Valid ke pgdir xs' s'
      × Spares ke pgdir xs (taken ke pgdir mem xs s space.valid) xs' s'
      × (((done ≡ true)
            × ((q : ℕ)
                → q < 2 ^ 20
                → entry pgdir s' q
                  ≡ (if a / page_size == q then pte_of (v2p mem) pte_wu else entry pgdir s q)))
          ⊎ ((done ≡ false) × ((q : ℕ) → q < 2 ^ 20 → entry pgdir s' q ≡ entry pgdir s q)))

  maps_one : MapsOne
  maps_one =
      let valid = taken-Valid ke pgdir mem xs s space.valid in
      let g = space.valid.free.1 in
      let phys : sub32 mem kernel_base < phys_stop = g.physical in
      let aligned : mem % page_size ≡ 0 = space.valid.free.1.aligned in
      let n : ℕ = (a + page_size - 1) / page_size - a / page_size + 1 in
      let one : n ≡ 1 = omega arith in
      let (done, s', run, (m, xs', valid', spares, entries, end)) =
        mappages_lem ke pgdir a page_size (v2p mem) pte_wu xs (taken ke pgdir mem xs s space.valid)
          valid (omega arith) (omega arith) (omega (arith, aligned)) (omega arith) (omega arith)
          (λ q lo hi.
            let e : a / page_size ≡ q = omega arith in
            ap is_present (taken-entry ke pgdir mem xs s space.valid q (omega arith))
            ∙ ap (λ k. is_present (entry pgdir s k)) (sym e)
            ∙ absent) in
      (
        done,
        s',
        xs',
        run,
        valid',
        spares,
        elim end [
          | inl (d, all) ↦ inl (
            d,
            λ q h.
                entries q h
                ∙ one_entry (a / page_size) (v2p mem) pte_wu
                    (entry pgdir (taken ke pgdir mem xs s space.valid)) (entry pgdir s) m n q all
                    one (taken-entry ke pgdir mem xs s space.valid q h),
          )
          | inr (d, less, none) ↦ inr (
            d,
            λ q h.
                entries q h
                ∙ no_entry (a / page_size) (v2p mem) pte_wu
                    (entry pgdir (taken ke pgdir mem xs s space.valid)) (entry pgdir s) m n q less
                    one (taken-entry ke pgdir mem xs s space.valid q h),
          )
        ],
      )

-- What allocuvm comes to: the new size, or 0.
abbrev pub Allocated : ℕ → ℕ → List ℕ → Kmem → ℕ → ℕ → ℕ → Outcome (ℕ × Kmem) → Type 0
Allocated ke pgdir xs s lo hi newsz r =
    (sz : ℕ) × (s' : Kmem) × (xs' : List ℕ) × (r ≡ ok (sz, s'))
    × (((sz ≡ newsz) × Grown ke pgdir xs s lo hi xs' s')
        ⊎ ((sz ≡ 0) × Restored ke pgdir xs s lo hi xs' s'))

module _ (ke pgdir : ℕ) (above : kernel_base < ke) (oldsz newsz : ℕ) (small : newsz < kernel_base)
    (grows : oldsz ≤ newsz) (xs0 : List ℕ) (s0 : Kmem)
    (absent : (q : ℕ)
      → end_page oldsz ≤ q
      → q < end_page newsz
      → is_present (entry pgdir s0 q) ≡ false) where
  abbrev Goal : Outcome (ℕ × Kmem) → Type 0
  Goal = Allocated ke pgdir xs0 s0 (end_page oldsz) (end_page newsz) newsz

  -- Nothing is left of the free list.
  no_page :
      (more : Kmem → Outcome (ℕ × Kmem)) (a : ℕ) (xs : List ℕ) (s : Kmem)
      → a / page_size ≤ end_page newsz
      → Grown ke pgdir xs0 s0 (end_page oldsz) (a / page_size) xs s
      → Goal (add_page ke more pgdir oldsz newsz a (0, s))
  no_page more a xs s le g =
      let (xs', s', run, sh) =
        deallocuvm_lem ke pgdir newsz oldsz xs s above (omega arith) g.space in
      (
        0,
        s',
        xs',
        rw run refl,
        inr (
          refl,
          rollback-Restored ke pgdir xs0 s0 (end_page oldsz) (a / page_size) (end_page newsz) xs s
              xs' s' le (omega arith) absent g sh,
        ),
      )

  -- A page is left.
  with_page :
      (more : Kmem → Outcome (ℕ × Kmem)) (a mem : ℕ) (xs : List ℕ) (s : Kmem)
      → a % page_size ≡ 0
      → end_page oldsz ≤ a / page_size
      → a < newsz
      → (g : Grown ke pgdir xs0 s0 (end_page oldsz) (a / page_size) (mem ∷ xs) s)
      → ((xs1 : List ℕ) (s1 : Kmem)
          → Grown ke pgdir xs0 s0 (end_page oldsz) (a / page_size + 1) xs1 s1
          → Goal (more s1))
      → Goal (add_page ke more pgdir oldsz newsz a (mem, record s { freelist = s.word mem }))
  with_page more a mem xs s al lo lt g rest =
      let page = g.space.valid.free.1 in
      let pos : 1 ≤ mem = page_positive page in
      let none_here : is_present (entry pgdir s (a / page_size)) ≡ false =
        ap is_present (g.outside (a / page_size) (omega arith) (inr (omega arith)))
        ∙ absent (a / page_size) lo (omega arith) in
      let (done, s1, xs1, run, valid1, spares, end) =
        maps_one ke pgdir mem xs s g.space a al (omega arith) none_here in
      elim end [
        | inl (d, entries) ↦
            let grown =
              mapped-Grown ke pgdir mem xs s g.space (a / page_size) (omega arith) xs1 s1 valid1
                spares entries xs0 s0 (end_page oldsz) lo g in
            let (sz, s', xs', run', result) = rest xs1 s1 grown in
            (sz, s', xs', rw (ne→== mem 0 (omega (arith, pos)), run, d) run', result)
        | inr (d, same) ↦
            let space1 = unmapped-Space ke pgdir mem xs s g.space xs1 s1 valid1 spares same in
            let (xs2, s2, run2, sh) =
              deallocuvm_lem ke pgdir newsz oldsz xs1 s1 above (omega arith) space1 in
            let held =
              held-Foreign ke pgdir mem xs s g.space xs1 s1 valid1 spares same xs0 s0
                (end_page oldsz) (a / page_size) (end_page newsz) (omega arith) (omega arith) absent
                g xs2 s2 sh in
            (
              0,
              push_page mem s2,
              mem ∷ xs2,
              rw (ne→== mem 0 (omega (arith, pos)), run, d, run2, kfree-ok ke mem s2 held.page)
                  refl,
              inr (
                refl,
                freed-Restored ke pgdir mem xs s g.space xs1 s1 valid1 spares same xs0 s0
                    (end_page oldsz) (a / page_size) (end_page newsz) (omega arith) (omega arith)
                    absent g xs2 s2 sh,
              ),
            )
      ]

  round :
      (more : Kmem → Outcome (ℕ × Kmem)) (a : ℕ) (xs : List ℕ) (s : Kmem)
      → a % page_size ≡ 0
      → end_page oldsz ≤ a / page_size
      → a < newsz
      → Grown ke pgdir xs0 s0 (end_page oldsz) (a / page_size) xs s
      → ((xs1 : List ℕ) (s1 : Kmem)
          → Grown ke pgdir xs0 s0 (end_page oldsz) (a / page_size + 1) xs1 s1
          → Goal (more s1))
      → Goal (add_page ke more pgdir oldsz newsz a (kalloc s))
  round more a [] s al lo lt g rest =
      subst (λ r. Goal (add_page ke more pgdir oldsz newsz a r))
        (sym (kalloc-nil ke s g.space.valid.free)) (no_page more a [] s (omega arith) g)
  round more a (mem ∷ xs) s al lo lt g rest =
      subst (λ r. Goal (add_page ke more pgdir oldsz newsz a r))
        (sym (kalloc-cons ke s mem xs g.space.valid.free))
        (with_page more a mem xs s al lo lt g rest)

  pub alloc_from-Allocated :
      (fuel a : ℕ) (xs : List ℕ) (s : Kmem)
      → a % page_size ≡ 0
      → end_page oldsz ≤ a / page_size
      → a / page_size ≤ end_page newsz
      → end_page newsz - a / page_size < fuel
      → Grown ke pgdir xs0 s0 (end_page oldsz) (a / page_size) xs s
      → Goal (alloc_from ke fuel pgdir oldsz newsz a s)
  unfolding alloc_from
  alloc_from-Allocated zero a xs s al lo hi enough g = absurd (omega arith)
  alloc_from-Allocated (suc fuel) a xs s al lo hi enough g = elim (dec_lt a newsz) [
    | no done ↦
        let test : ltb a newsz ≡ false = ground arith in
        let last : a / page_size ≡ end_page newsz = omega arith in
        rw test (
          newsz,
          s,
          xs,
          refl,
          inl (refl, subst (λ c. Grown ke pgdir xs0 s0 (end_page oldsz) c xs s) last g),
        )
    | yes lt ↦
        let test : ltb a newsz ≡ true = ground arith in
        let next : add32 a page_size ≡ a + page_size = omega arith in
        let number : (a + page_size) / page_size ≡ a / page_size + 1 = omega arith in
        let step : Goal (
            add_page ke (alloc_from ke fuel pgdir oldsz newsz (a + page_size)) pgdir oldsz newsz a
              (kalloc s)) =
          round (alloc_from ke fuel pgdir oldsz newsz (a + page_size)) a xs s al lo lt g
            (λ xs1 s1 g1.
              alloc_from-Allocated fuel (a + page_size) xs1 s1 (omega arith) (omega arith)
                (omega arith) (omega arith)
                (subst (λ c. Grown ke pgdir xs0 s0 (end_page oldsz) c xs1 s1) (sym number) g1)) in
        rw test (
          subst
            (λ b.
              Goal (
                add_page ke (alloc_from ke fuel pgdir oldsz newsz b) pgdir oldsz newsz a
                  (kalloc s)))
            (sym next) step)
  ]
