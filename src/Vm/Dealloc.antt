-- ===== src/Vm/Dealloc.antt =====
-- vm.c: the loop of deallocuvm, which frees the pages of its range.
use mathlib.Core.Path.{subst}
use native.Mathlib.Decide.{dec_lt, dec_le}
use schoolstuff.Base.{
  ℕ, zero, suc, ◌+◌, ◌-◌, ◌*◌, ◌/◌, ◌%◌, ◌^◌, ◌≤◌, ◌<◌, ◌≡◌, ◌≢◌, refl, true, false, List, arith,
  ltb, leb, ◌==◌, if◌then◌else◌, add32, sub32, inl, inr, Bool-cases, ne→==, ◌∙◌, sym, ap,
}
use schoolstuff.Base.Outcome.{Outcome, ok, ◌>>=◌}
use schoolstuff.Kalloc.{Kmem, page_size, kernel_base, page_round_up}
use schoolstuff.Vm.{
  pdx, ptx, pg_addr, is_present, walkpgdir, drop_page, drop_entry, dealloc_from, deallocuvm,
  all_pages,
}
use schoolstuff.Vm.Tables.{dir_entry, HasTable, table_at, entry, entry-there, entry-none}
use schoolstuff.Vm.Users.{Space}
use schoolstuff.Vm.Walk.{page_positive}
use schoolstuff.Vm.Drop.{drop_page-runs, dropped-Space}
use schoolstuff.Vm.Shrink.{Shrunk, nothing-Shrunk, skip-Shrunk, drop-Shrunk}

abbrev pub Shrinks : ℕ → ℕ → List ℕ → Kmem → ℕ → ℕ → Outcome Kmem → Type 0
Shrinks ke pgdir xs s lo hi r =
    (xs' : List ℕ) × (s' : Kmem) × (r ≡ ok s') × Shrunk ke pgdir xs s lo hi xs' s'

-- The number of the page that the bytes up to `sz` end in, and of the next one.
abbrev pub end_page : ℕ → ℕ
end_page sz = (sz + (page_size - 1)) / page_size

walk_no_alloc :
    (pgdir va : ℕ) (s : Kmem)
    → (walkpgdir pgdir va false s).0 ≡ (
        if is_present (dir_entry pgdir s (pdx va))
        then table_at pgdir s (pdx va) + 4 * ptx va
        else 0)
unfolding walkpgdir
walk_no_alloc pgdir va s = elim (Bool-cases (is_present (dir_entry pgdir s (pdx va)))) [
  | inl there ↦ rw there refl
  | inr absent ↦ rw absent refl
]

-- A round of the loop at a page that is mapped, at one that is not, and where there is no page table.
round_mapped :
    (ke pte a : ℕ) (more : ℕ → Kmem → Outcome Kmem) (s s2 s' : Kmem)
    → pte ≢ 0
    → is_present (s.word pte) ≡ true
    → drop_page ke pte s ≡ ok s2
    → a + page_size < 2 ^ 32
    → more (a + page_size) s2 ≡ ok s'
    → drop_entry ke more a s pte ≡ ok s'
round_mapped ke pte a more s s2 s' nz there runs small run =
    let next : add32 a page_size ≡ a + page_size = omega arith in
    rw (ne→== pte 0 nz, there, runs, next) run

round_absent :
    (ke pte a : ℕ) (more : ℕ → Kmem → Outcome Kmem) (s s' : Kmem)
    → pte ≢ 0
    → is_present (s.word pte) ≡ false
    → a + page_size < 2 ^ 32
    → more (a + page_size) s ≡ ok s'
    → drop_entry ke more a s pte ≡ ok s'
round_absent ke pte a more s s' nz there small run =
    let next : add32 a page_size ≡ a + page_size = omega arith in
    rw (ne→== pte 0 nz, there, next) run

round_skip :
    (ke pte a : ℕ) (more : ℕ → Kmem → Outcome Kmem) (s s' : Kmem)
    → pte ≡ 0
    → a < kernel_base
    → more ((a / 2 ^ 22 + 1) * 2 ^ 22) s ≡ ok s'
    → drop_entry ke more a s pte ≡ ok s'
round_skip ke pte a more s s' null small run =
    let next : add32 (sub32 (pg_addr (pdx a + 1)) page_size) page_size ≡ (a / 2 ^ 22 + 1) * 2 ^ 22 =
      omega arith in
    let test : (pte == 0) ≡ true = ground arith in rw (test, next) run

pub slot_there :
    (pgdir a : ℕ) (s : Kmem)
    → pdx a ≡ a / page_size / 1024
    → ptx a ≡ a / page_size % 1024
    → HasTable pgdir s (a / page_size / 1024)
    → (walkpgdir pgdir a false s).0
      ≡ table_at pgdir s (a / page_size / 1024) + 4 * (a / page_size % 1024)
slot_there pgdir a s d t there =
    walk_no_alloc pgdir a s
    ∙ ap (λ x. if is_present (dir_entry pgdir s x) then table_at pgdir s x + 4 * ptx a else 0) d
    ∙ ap (λ b. if b then table_at pgdir s (a / page_size / 1024) + 4 * ptx a else 0) there
    ∙ ap (λ x. table_at pgdir s (a / page_size / 1024) + 4 * x) t

slot_none :
    (pgdir a : ℕ) (s : Kmem)
    → pdx a ≡ a / page_size / 1024
    → is_present (dir_entry pgdir s (a / page_size / 1024)) ≡ false
    → (walkpgdir pgdir a false s).0 ≡ 0
slot_none pgdir a s d absent =
    walk_no_alloc pgdir a s
    ∙ ap (λ x. if is_present (dir_entry pgdir s x) then table_at pgdir s x + 4 * ptx a else 0) d
    ∙ ap (λ b. if b then table_at pgdir s (a / page_size / 1024) + 4 * ptx a else 0) absent

module _ (ke pgdir : ℕ) (above : kernel_base < ke) (oldsz : ℕ) (small : oldsz ≤ kernel_base) where
  -- A round at a page that has a page table.
  table_round :
      (xs : List ℕ) (s : Kmem) (a : ℕ) (more : ℕ → Kmem → Outcome Kmem)
      → Space ke pgdir xs s
      → a % page_size ≡ 0
      → a < oldsz
      → HasTable pgdir s (a / page_size / 1024)
      → ((xs1 : List ℕ) (s1 : Kmem)
          → Space ke pgdir xs1 s1
          → Shrinks ke pgdir xs1 s1 (a / page_size + 1) (end_page oldsz) (more (a + page_size) s1))
      → Shrinks ke pgdir xs s (a / page_size) (end_page oldsz) (
          drop_entry ke more a s
            (table_at pgdir s (a / page_size / 1024) + 4 * (a / page_size % 1024)))
  table_round xs s a more space al lt there rest =
      let q : ℕ = a / page_size in
      let g = (space.valid.table (q / 1024) (omega arith) there).0 in
      let pos : 1 ≤ table_at pgdir s (q / 1024) = page_positive g in
      let nz : table_at pgdir s (a / page_size / 1024) + 4 * (a / page_size % 1024) ≢ 0 =
        omega (arith, pos) in
      let same = entry-there pgdir s q there in
      elim (Bool-cases (is_present (entry pgdir s q))) [
        | inl mapped ↦
            let runs = drop_page-runs ke pgdir above xs s space q (omega arith) mapped in
            let (xs', s', run, sh) =
              rest _ _ (dropped-Space ke pgdir above xs s space q (omega arith) mapped) in
            (
              xs',
              s',
              round_mapped ke _ a more s _ s' nz (ap is_present (sym same) ∙ mapped) runs
                  (omega arith) run,
              drop-Shrunk ke pgdir above xs s space q (omega arith) mapped (end_page oldsz) xs' s'
                  (omega arith) (omega arith) sh,
            )
        | inr absent ↦
            let (xs', s', run, sh) = rest xs s space in
            (
              xs',
              s',
              round_absent ke _ a more s s' nz (ap is_present (sym same) ∙ absent) (omega arith)
                  run,
              skip-Shrunk ke pgdir xs s q (q + 1) (end_page oldsz) xs' s' (omega arith)
                  (λ r h1 h2.
                    let e : r ≡ q = omega arith in
                    ap (λ x. is_present (entry pgdir s x)) e ∙ absent)
                  sh,
            )
      ]

  dealloc_from-Shrinks :
      (fuel a : ℕ) (xs : List ℕ) (s : Kmem)
      → Space ke pgdir xs s
      → a % page_size ≡ 0
      → a ≤ kernel_base
      → end_page oldsz - a / page_size < fuel
      → Shrinks ke pgdir xs s
          (a / page_size)
          (end_page oldsz)
          (dealloc_from ke fuel pgdir oldsz a s)
  unfolding dealloc_from
  dealloc_from-Shrinks zero a xs s space al top enough = absurd (omega arith)
  dealloc_from-Shrinks (suc fuel) a xs s space al top enough = elim (dec_lt a oldsz) [
    | no done ↦
        let test : ltb a oldsz ≡ false = ground arith in
        rw test (
          xs,
          s,
          refl,
          nothing-Shrunk ke pgdir xs s (a / page_size) (end_page oldsz) space (omega arith),
        )
    | yes lt ↦
        let test : ltb a oldsz ≡ true = ground arith in
        let d : pdx a ≡ a / page_size / 1024 = omega arith in
        let t : ptx a ≡ a / page_size % 1024 = omega arith in
        rw test (elim (Bool-cases (is_present (dir_entry pgdir s (a / page_size / 1024)))) [
          | inl there ↦
              let slot : (walkpgdir pgdir a false s).0
                  ≡ table_at pgdir s (a / page_size / 1024) + 4 * (a / page_size % 1024) =
                slot_there pgdir a s d t there in
              subst
                (λ p.
                  Shrinks ke pgdir xs s (a / page_size) (end_page oldsz)
                    (drop_entry ke (dealloc_from ke fuel pgdir oldsz) a s p))
                (sym slot)
                (table_round xs s a (dealloc_from ke fuel pgdir oldsz) space al lt there
                  (λ xs1 s1 space1.
                    let number : (a + page_size) / page_size ≡ a / page_size + 1 = omega arith in
                    rw number at (
                      dealloc_from-Shrinks fuel (a + page_size) xs1 s1 space1 (omega arith)
                        (omega arith) (omega arith))))
          | inr absent ↦
              let slot : (walkpgdir pgdir a false s).0 ≡ 0 = slot_none pgdir a s d absent in
              let b : ℕ = (a / 2 ^ 22 + 1) * 2 ^ 22 in
              let number : b / page_size ≡ (a / page_size / 1024 + 1) * 1024 = omega arith in
              let (xs', s', run, sh) =
                dealloc_from-Shrinks fuel b xs s space (omega arith) (omega arith) (omega arith) in
              (
                xs',
                s',
                round_skip ke _ a (dealloc_from ke fuel pgdir oldsz) s s' slot (omega arith) run,
                skip-Shrunk ke pgdir xs s (a / page_size) (b / page_size) (end_page oldsz) xs' s'
                    (omega arith)
                    (λ q h1 h2.
                      let same : q / 1024 ≡ a / page_size / 1024 = omega arith in
                      ap is_present (
                        entry-none pgdir s q
                          (ap (λ c. is_present (dir_entry pgdir s c)) same ∙ absent)))
                    sh,
              )
        ])
  ]

-- deallocuvm from `oldsz` to `newsz`, with `oldsz` at most KERNBASE, does not panic for a process whose mapped
-- pages below KERNBASE are distinct pages that kfree accepts, none of them free or a part of its page table, and
-- whose page tables are so too. It returns `newsz`, or `oldsz` where that is not larger. The pages after `newsz` up to
-- `oldsz` that were mapped are free, and no longer mapped; every other entry is as before, the
-- process is again of that kind, and the other pages of memory keep their contents.
pub deallocuvm_lem :
    (ke pgdir oldsz newsz : ℕ) (xs : List ℕ) (s : Kmem)
    → kernel_base < ke
    → oldsz ≤ kernel_base
    → Space ke pgdir xs s
    → (xs' : List ℕ) × (s' : Kmem) × (deallocuvm ke pgdir oldsz newsz s
        ≡ ok ((if leb oldsz newsz then oldsz else newsz), s'))
      × Shrunk ke pgdir xs s (end_page newsz) (end_page oldsz) xs' s'
unfolding deallocuvm
deallocuvm_lem ke pgdir oldsz newsz xs s above small space = elim (dec_le oldsz newsz) [
  | yes le ↦
      let test : leb oldsz newsz ≡ true = ground arith in
      rw test (
        xs,
        s,
        refl,
        nothing-Shrunk ke pgdir xs s (end_page newsz) (end_page oldsz) space (omega arith),
      )
  | no lt ↦
      let test : leb oldsz newsz ≡ false = ground arith in
      let start : page_round_up newsz / page_size ≡ end_page newsz = omega arith in
      let (xs', s', run, sh) =
        dealloc_from-Shrinks ke pgdir above oldsz small (suc all_pages) (page_round_up newsz) xs s
          space (omega arith) (omega arith) (omega arith) in
      (
        xs',
        s',
        rw test (ap (λ r. r >>= (λ s2. ok (newsz, s2))) run),
        subst (λ lo. Shrunk ke pgdir xs s lo (end_page oldsz) xs' s') start sh,
      )
]
