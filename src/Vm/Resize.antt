-- ===== src/Vm/Resize.antt =====
-- growproc of proc.c: the pages of a process are those below its size.
use schoolstuff.Base.{
  ℕ, ◌+◌, ◌-◌, ◌^◌, ◌≤◌, ◌<◌, ◌≡◌, ◌≢◌, refl, Bool, true, false, ◌&&◌, List, arith, ltb, leb, ◌==◌,
  if◌then◌else◌, inl, inr, ◌∙◌, sym, ap, Bool-cases, add32, ne→==,
}
use mathlib.Core.Path.{subst}
use native.Mathlib.Decide.{ℕ_discrete, dec_lt, dec_le}
use schoolstuff.Base.Outcome.{Outcome, ok, ◌>>=◌}
use schoolstuff.Kalloc.{Kmem, kernel_base}
use schoolstuff.Vm.{is_present, deallocuvm, allocuvm, growproc, new_size}
use schoolstuff.Vm.Tables.{entry}
use schoolstuff.Vm.Users.{user_pages, Space}
use schoolstuff.Vm.Shrink.{Shrunk}
use schoolstuff.Vm.Dealloc.{end_page, deallocuvm_lem}
use schoolstuff.Vm.Grow.{Grown, Fresh-IsMapped}
use schoolstuff.Vm.Rollback.{Restored}
use schoolstuff.Vm.Sizes.{allocuvm_lem}

-- The pages below `sz`, and no others below KERNBASE, are mapped.
abbrev pub Sized : ℕ → ℕ → Kmem → Type 0
Sized pgdir sz s = (q : ℕ) → q < user_pages → is_present (entry pgdir s q) ≡ ltb q (end_page sz)

-- The size asked for; a decrement below 0 changes nothing.
abbrev pub asked : ℕ → ℕ → ℕ
asked sz n = if ltb n (2 ^ 31) then sz + n else if leb sz (add32 sz n) then sz else add32 sz n

abbrev pub Resized : ℕ → ℕ → ℕ → ℕ → Outcome (Bool × ℕ × Kmem) → Type 0
Resized ke pgdir sz n r =
    (done : Bool) × (sz' : ℕ) × (xs' : List ℕ) × (s' : Kmem) × (r ≡ ok (done, sz', s'))
    × Space ke pgdir xs' s'
    × Sized pgdir sz' s'
    × (sz' ≡ (if done then asked sz n else sz))

Grown-Sized :
    (ke pgdir sz newsz : ℕ) (xs xs' : List ℕ) (s s' : Kmem)
    → sz ≤ newsz
    → Grown ke pgdir xs s (end_page sz) (end_page newsz) xs' s'
    → Sized pgdir sz s
    → Sized pgdir newsz s'
Grown-Sized ke pgdir sz newsz xs xs' s s' le g sized q h = elim (dec_lt q (end_page sz)) [
  | yes old ↦ ap is_present (g.outside q (omega arith) (inl old)) ∙ sized q h ∙ (ground arith)
  | no past ↦ elim (dec_lt q (end_page newsz)) [
    | yes new ↦
        Fresh-IsMapped xs (entry pgdir s' q) s'.word (g.fresh q (omega arith) new) ∙ (ground arith)
    | no out ↦
        ap is_present (g.outside q (omega arith) (inr (omega arith))) ∙ sized q h ∙ (ground arith)
  ]
]

Restored-Sized :
    (ke pgdir sz newsz : ℕ) (xs xs' : List ℕ) (s s' : Kmem)
    → Restored ke pgdir xs s (end_page sz) (end_page newsz) xs' s'
    → Sized pgdir sz s
    → Sized pgdir sz s'
Restored-Sized ke pgdir sz newsz xs xs' s s' g sized q h = elim (dec_lt q (end_page sz)) [
  | yes old ↦ ap is_present (g.outside q (omega arith) (inl old)) ∙ sized q h
  | no past ↦ elim (dec_lt q (end_page newsz)) [
    | yes new ↦ g.gone q (omega arith) (omega arith) new ∙ (ground arith)
    | no out ↦ ap is_present (g.outside q (omega arith) (inr (omega arith))) ∙ sized q h
  ]
]

cut_present :
    (lo hi q e : ℕ)
    → lo ≤ hi
    → is_present e ≡ ltb q hi
    → is_present (if leb lo q && ltb q hi && is_present e then 0 else e) ≡ ltb q lo
cut_present lo hi q e le eq = elim (Bool-cases (is_present e)) [
  | inl there ↦
      let below : ltb q hi ≡ true = sym eq ∙ there in
      elim (dec_le lo q) [
        | yes cut ↦ let t : leb lo q ≡ true = ground arith in rw (t, below, there) (ground arith)
        | no under ↦ let t : leb lo q ≡ false = ground arith in rw t (there ∙ (ground arith))
      ]
  | inr absent ↦
      let above : ltb q hi ≡ false = sym eq ∙ absent in
      let kept : (leb lo q && ltb q hi && is_present e) ≡ false = ground arith in
      rw kept (absent ∙ (ground arith))
]

Shrunk-Sized :
    (ke pgdir sz newsz : ℕ) (xs xs' : List ℕ) (s s' : Kmem)
    → newsz ≤ sz
    → Shrunk ke pgdir xs s (end_page newsz) (end_page sz) xs' s'
    → Sized pgdir sz s
    → Sized pgdir newsz s'
Shrunk-Sized ke pgdir sz newsz xs xs' s s' le g sized q h =
    ap is_present (g.entries q (omega arith))
    ∙ cut_present (end_page newsz) (end_page sz) q (entry pgdir s q) (omega arith) (sized q h)

unchanged-Sized :
    (ke pgdir sz newsz : ℕ) (xs xs' : List ℕ) (s s' : Kmem)
    → sz ≤ newsz
    → Shrunk ke pgdir xs s (end_page newsz) (end_page sz) xs' s'
    → Sized pgdir sz s
    → Sized pgdir sz s'
unchanged-Sized ke pgdir sz newsz xs xs' s s' le g sized q h =
    let kept =
      nothing_between (end_page newsz) (end_page sz) q (is_present (entry pgdir s q))
        (omega arith) in
    ap is_present (g.entries q (omega arith) ∙ ap (λ c. if c then 0 else entry pgdir s q) kept)
    ∙ sized q h
  where
    nothing_between : (lo hi q : ℕ) (b : Bool) → hi ≤ lo → (leb lo q && ltb q hi && b) ≡ false
    nothing_between lo hi q b le = ground arith

allocuvm-high :
    (ke pgdir sz newsz : ℕ) (s : Kmem)
    → kernel_base ≤ newsz
    → allocuvm ke pgdir sz newsz s ≡ ok (0, s)
unfolding allocuvm
allocuvm-high ke pgdir sz newsz s h =
    let t : leb kernel_base newsz ≡ true = ground arith in rw t refl

growproc-grow :
    (ke pgdir sz n : ℕ) (s : Kmem)
    → n ≢ 0
    → n < 2 ^ 31
    → sz < kernel_base
    → growproc ke pgdir sz n s ≡ (allocuvm ke pgdir sz (sz + n) s >>= (λ r. ok (new_size sz r)))
unfolding growproc
growproc-grow ke pgdir sz n s some_bytes pos small =
    let t : ltb n (2 ^ 31) ≡ true = ground arith in
    let sum : add32 sz n ≡ sz + n = omega arith in rw (ne→== n 0 some_bytes, t, sum) refl

growproc-shrink :
    (ke pgdir sz n : ℕ) (s : Kmem)
    → n ≢ 0
    → ¬ (n < 2 ^ 31)
    → growproc ke pgdir sz n s
      ≡ (deallocuvm ke pgdir sz (add32 sz n) s >>= (λ r. ok (new_size sz r)))
unfolding growproc
growproc-shrink ke pgdir sz n s some_bytes neg =
    let t : ltb n (2 ^ 31) ≡ false = ground arith in rw (ne→== n 0 some_bytes, t) refl

-- growproc of a process whose pages are those below its size, to a new size that is not 0, does not panic, and its
-- pages are then again those below its size. Where it returns 0, the size has changed by `n`, or not at
-- all if it would fall below 0; where it returns -1, the size is as it was.
pub growproc_lem :
    (ke pgdir sz n : ℕ) (xs : List ℕ) (s : Kmem)
    → kernel_base < ke
    → sz < kernel_base
    → n < 2 ^ 32
    → add32 sz n ≢ 0
    → Space ke pgdir xs s
    → Sized pgdir sz s
    → Resized ke pgdir sz n (growproc ke pgdir sz n s)
unfolding growproc
growproc_lem ke pgdir sz n xs s above small word nonzero space sized = elim (ℕ_discrete n 0) [
  | yes none ↦
      let t : (n == 0) ≡ true = ground arith in
      let size : sz ≡ asked sz n = ground arith in rw t (true, sz, xs, s, refl, space, sized, size)
  | no some_bytes ↦ elim (dec_lt n (2 ^ 31)) [
    | yes pos ↦
        subst (Resized ke pgdir sz n) (sym (growproc-grow ke pgdir sz n s some_bytes pos small))
          (grows pos some_bytes)
    | no neg ↦
        subst (Resized ke pgdir sz n) (sym (growproc-shrink ke pgdir sz n s some_bytes neg))
          (shrinks neg)
  ]
]
  where
    grows :
        n < 2 ^ 31
        → n ≢ 0
        → Resized ke pgdir sz n (allocuvm ke pgdir sz (sz + n) s >>= (λ r. ok (new_size sz r)))
    grows pos some_bytes = elim (dec_le kernel_base (sz + n)) [
      | yes high ↦
          rw (allocuvm-high ke pgdir sz (sz + n) s high)
            (false, sz, xs, s, refl, space, sized, refl)
      | no low ↦
          let size : sz + n ≡ asked sz n = ground arith in
          let (r, s', xs', run, end) =
            allocuvm_lem ke pgdir sz (sz + n) xs s above (omega arith) (omega arith) space
              (λ q lo hi. sized q (omega arith) ∙ (ground arith)) in
          elim end [
            | inl (e, grown) ↦
                let run' : allocuvm ke pgdir sz (sz + n) s ≡ ok (sz + n, s') =
                  run ∙ ap (λ z. ok (z, s')) e in
                rw (run', ne→== (sz + n) 0 (omega arith))
                  (
                    true,
                    sz + n,
                    xs',
                    s',
                    refl,
                    grown.space,
                    Grown-Sized ke pgdir sz (sz + n) xs xs' s s' (omega arith) grown sized,
                    size,
                  )
            | inr (e, restored) ↦
                let run' : allocuvm ke pgdir sz (sz + n) s ≡ ok (0, s') =
                  run ∙ ap (λ z. ok (z, s')) e in
                rw run' (
                  false,
                  sz,
                  xs',
                  s',
                  refl,
                  restored.space,
                  Restored-Sized ke pgdir sz (sz + n) xs xs' s s' restored sized,
                  refl,
                )
          ]
    ]

    shrinks :
        ¬ (n < 2 ^ 31)
        → Resized ke pgdir sz n
            (deallocuvm ke pgdir sz (add32 sz n) s >>= (λ r. ok (new_size sz r)))
    shrinks neg =
        let t : ltb n (2 ^ 31) ≡ false = ground arith in
        let (xs', s', run, sh) =
          deallocuvm_lem ke pgdir sz (add32 sz n) xs s above (omega arith) space in
        elim (dec_le sz (add32 sz n)) [
          | yes under ↦
              let t2 : leb sz (add32 sz n) ≡ true = ground arith in
              let run' : deallocuvm ke pgdir sz (add32 sz n) s ≡ ok (sz, s') =
                run ∙ ap (λ c. ok ((if c then sz else add32 sz n), s')) t2 in
              let size : sz ≡ asked sz n = rw (t, t2) refl in
              let still = unchanged-Sized ke pgdir sz (add32 sz n) xs xs' s s' under sh sized in
              elim (ℕ_discrete sz 0) [
                | yes empty ↦
                    let t3 : (sz == 0) ≡ true = ground arith in
                    rw (run', t3) (false, sz, xs', s', refl, sh.space, still, refl)
                | no bytes ↦
                    rw (run', ne→== sz 0 bytes) (true, sz, xs', s', refl, sh.space, still, size)
              ]
          | no less ↦
              let t2 : leb sz (add32 sz n) ≡ false = ground arith in
              let run' : deallocuvm ke pgdir sz (add32 sz n) s ≡ ok (add32 sz n, s') =
                run ∙ ap (λ c. ok ((if c then sz else add32 sz n), s')) t2 in
              let size : add32 sz n ≡ asked sz n = rw (t, t2) refl in
              rw (run', ne→== (add32 sz n) 0 nonzero)
                (
                  true,
                  add32 sz n,
                  xs',
                  s',
                  refl,
                  sh.space,
                  Shrunk-Sized ke pgdir sz (add32 sz n) xs xs' s s' (omega arith) sh sized,
                  size,
                )
        ]

-- growproc of a process whose pages are those below its size, by exactly minus that size, does not panic. It returns -1
-- and leaves the size as it was, but no page below KERNBASE is mapped any more.
pub growproc-zero :
    (ke pgdir sz : ℕ) (xs : List ℕ) (s : Kmem)
    → kernel_base < ke
    → 1 ≤ sz
    → sz < kernel_base
    → Space ke pgdir xs s
    → Sized pgdir sz s
    → (xs' : List ℕ) × (s' : Kmem) × (growproc ke pgdir sz (2 ^ 32 - sz) s ≡ ok (false, sz, s'))
      × Space ke pgdir xs' s'
      × Sized pgdir 0 s'
growproc-zero ke pgdir sz xs s above pos small space sized =
    let zero_size : add32 sz (2 ^ 32 - sz) ≡ 0 = omega arith in
    let (xs', s', run, sh) = deallocuvm_lem ke pgdir sz 0 xs s above (omega arith) space in
    let t : leb sz 0 ≡ false = ground arith in
    let run' : deallocuvm ke pgdir sz (add32 sz (2 ^ 32 - sz)) s ≡ ok (0, s') =
      ap (λ z. deallocuvm ke pgdir sz z s) zero_size
      ∙ run
      ∙ ap (λ c. ok ((if c then sz else 0), s')) t in
    (
      xs',
      s',
      growproc-shrink ke pgdir sz (2 ^ 32 - sz) s (omega arith) (omega arith)
          ∙ ap (λ r. r >>= (λ z. ok (new_size sz z))) run',
      sh.space,
      Shrunk-Sized ke pgdir sz 0 xs xs' s s' (omega arith) sh sized,
    )
