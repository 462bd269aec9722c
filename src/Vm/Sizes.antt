-- ===== src/Vm/Sizes.antt =====
-- vm.c: `allocuvm` and `deallocuvm` as growproc and exec call them.
use mathlib.Core.Path.{subst}
use schoolstuff.Base.{
  ℕ, suc, ◌/◌, ◌≤◌, ◌<◌, ◌≡◌, ◌⊎◌, false, List, arith, ltb, leb, if◌then◌else◌, inl, inr, ◌∙◌, sym,
  ap,
}
use schoolstuff.Base.Outcome.{ok}
use schoolstuff.Kalloc.{Kmem, page_size, kernel_base, page_round_up}
use schoolstuff.Vm.{is_present, deallocuvm, allocuvm, all_pages}
use schoolstuff.Vm.Tables.{entry}
use schoolstuff.Vm.Users.{Space}
use schoolstuff.Vm.Dealloc.{end_page, deallocuvm_lem}
use schoolstuff.Vm.Grow.{Grown, nothing-Grown}
use schoolstuff.Vm.Rollback.{Restored, rollback-Restored}
use schoolstuff.Vm.Alloc.{Allocated, alloc_from-Allocated}

-- allocuvm from `oldsz` to `newsz`, below KERNBASE and not smaller, does not panic where no page after
-- `oldsz` up to `newsz` is mapped. Either it returns `newsz`, and each of those pages is mapped, writable
-- by the user, to a page of its own that was free and now holds zeros; or it returns 0, and none of them is mapped. In
-- both cases no other entry changes, the pages of memory that were neither free nor page tables keep their contents, and
-- a page that was free is free, mapped in the range or a page table.
pub allocuvm_lem :
    (ke pgdir oldsz newsz : ℕ) (xs : List ℕ) (s : Kmem)
    → kernel_base < ke
    → oldsz ≤ newsz
    → newsz < kernel_base
    → Space ke pgdir xs s
    → ((q : ℕ) → end_page oldsz ≤ q → q < end_page newsz → is_present (entry pgdir s q) ≡ false)
    → Allocated ke pgdir xs s
        (end_page oldsz)
        (end_page newsz)
        newsz
        (allocuvm ke pgdir oldsz newsz s)
unfolding allocuvm
allocuvm_lem ke pgdir oldsz newsz xs s above grows small space absent =
    let t1 : leb kernel_base newsz ≡ false = ground arith in
    let t2 : ltb newsz oldsz ≡ false = ground arith in
    let start : page_round_up oldsz / page_size ≡ end_page oldsz = omega arith in
    let initial = nothing-Grown ke pgdir xs s (end_page oldsz) space in
    rw (t1, t2)
      (alloc_from-Allocated ke pgdir above oldsz newsz small grows xs s absent (suc all_pages)
        (page_round_up oldsz) xs s (omega arith) (omega arith) (omega arith) (omega arith)
        (subst (λ c. Grown ke pgdir xs s (end_page oldsz) c xs s) (sym start) initial))

-- Where allocuvm grows the memory from `oldsz` to `newsz`, deallocuvm then shrinks it to `oldsz` without a panic:
-- no page of the range is mapped, all other entries are as they were before both calls, and so are the contents of the pages
-- that were in use; each page that was free is free again, or was made a page table. Otherwise allocuvm returns 0.
pub allocuvm-deallocuvm :
    (ke pgdir oldsz newsz : ℕ) (xs : List ℕ) (s : Kmem)
    → kernel_base < ke
    → oldsz ≤ newsz
    → newsz < kernel_base
    → Space ke pgdir xs s
    → ((q : ℕ) → end_page oldsz ≤ q → q < end_page newsz → is_present (entry pgdir s q) ≡ false)
    → (sz : ℕ) × (s1 : Kmem) × (allocuvm ke pgdir oldsz newsz s ≡ ok (sz, s1))
      × (((sz ≡ newsz)
            × ((xs2 : List ℕ) × (s2 : Kmem) × (deallocuvm ke pgdir newsz oldsz s1 ≡ ok (oldsz, s2))
                × Restored ke pgdir xs s (end_page oldsz) (end_page newsz) xs2 s2))
          ⊎ (sz ≡ 0))
allocuvm-deallocuvm ke pgdir oldsz newsz xs s above grows small space absent =
    let (sz, s1, xs1, run, end) =
      allocuvm_lem ke pgdir oldsz newsz xs s above grows small space absent in
    let size : (if leb newsz oldsz then newsz else oldsz) ≡ oldsz = ground arith in
    (
      sz,
      s1,
      run,
      elim end [
        | inl (e, grown) ↦
            let (xs2, s2, run2, sh) =
              deallocuvm_lem ke pgdir newsz oldsz xs1 s1 above (omega arith) grown.space in
            inl (
              e,
              (
                xs2,
                s2,
                run2 ∙ ap (λ n. ok (n, s2)) size,
                rollback-Restored ke pgdir xs s (end_page oldsz) (end_page newsz) (end_page newsz)
                    xs1 s1 xs2 s2 (omega arith) (omega arith) absent grown sh,
              ),
            )
        | inr (e, restored) ↦ inr e
      ],
    )
