-- ===== src/Vm/Freevm.antt =====
-- vm.c: freevm frees every page of a process; clearpteu.
use schoolstuff.Base.{
  ℕ, ◌+◌, ◌*◌, ◌/◌, ◌%◌, ◌^◌, ◌≤◌, ◌<◌, ◌≡◌, ◌≢◌, refl, true, false, List, ◌∷◌, arith, ◌==◌,
  if◌then◌else◌, ne→==, ◌∙◌, sym, ap,
}
use schoolstuff.Base.Outcome.{ok}
use schoolstuff.Kalloc.{Kmem, page_size, kernel_base, push_page}
use schoolstuff.Kalloc.FreeList.{has, Free, push_page-Free, kfree-ok}
use schoolstuff.Vm.{p2v, pte_addr, is_present, store, freevm, clear_user, clearpteu}
use schoolstuff.Vm.Tables.{
  HasTable, table_at, entry, entry-there, Valid, Foreign, put-Valid, put-entry,
}
use schoolstuff.Vm.Walk.{page_positive}
use schoolstuff.Vm.Users.{user_pages, frame_at, IsMapped, Space, has-cons}
use schoolstuff.Vm.Shrink.{Spared}
use schoolstuff.Vm.Dealloc.{slot_there, deallocuvm_lem}
use schoolstuff.Vm.Free.{push_apart, Valid-Rest, free_tables-TablesFreed}

-- All pages of a process are free, once each, and all others are as before.
pub record Freed (ke pgdir : ℕ) (xs : List ℕ) (s : Kmem) (xs' : List ℕ) (s' : Kmem) : Type 0 where
  pub free : Free ke s' xs'
  pub kept : (x : ℕ) → has x xs ≡ true → has x xs' ≡ true
  pub frames : (q : ℕ) → q < user_pages → IsMapped pgdir s q → has (frame_at pgdir s q) xs' ≡ true
  pub tables : (d : ℕ) → d < 1024 → HasTable pgdir s d → has (table_at pgdir s d) xs' ≡ true
  pub dir : has pgdir xs' ≡ true
  pub others :
      (p : ℕ)
      → Foreign ke pgdir xs s p
      → ((q : ℕ) → q < user_pages → IsMapped pgdir s q → p ≢ frame_at pgdir s q)
      → (has p xs' ≡ false) × ((k : ℕ) → k < 1024 → s'.word (p + 4 * k) ≡ s.word (p + 4 * k))

-- freevm does not panic. Afterwards the pages of the process, its page tables and its page directory are on the free
-- list, which is still a chain of distinct pages; every page that is none of them and was in use
-- is not on the list, and keeps its contents.
pub freevm_lem :
    (ke pgdir : ℕ) (xs : List ℕ) (s : Kmem)
    → kernel_base < ke
    → Space ke pgdir xs s
    → (xs' : List ℕ) × (s' : Kmem) × (freevm ke pgdir s ≡ ok s') × Freed ke pgdir xs s xs' s'
unfolding freevm
freevm_lem ke pgdir xs s above space =
    let page = space.valid.dir in
    let pos : 1 ≤ pgdir = page_positive page in
    let (xs1, s1, run1, sh) =
      deallocuvm_lem ke pgdir kernel_base 0 xs s above (omega arith) space in
    let valid1 = sh.space.valid in
    let (xs2, s2, run2, t) =
      free_tables-TablesFreed ke pgdir 1024 0 xs1 s1 refl (Valid-Rest ke pgdir valid1) in
    let (dir_out, dir_same) =
      t.others pgdir page valid1.dir_out (λ d h0 h ht e. (valid1.table d h ht).2 (sym e)) in
    let run3 = kfree-ok ke pgdir s2 page in
    (
      pgdir ∷ xs2,
      push_page pgdir s2,
      rw (ne→== pgdir 0 (omega (arith, pos)), run1, run2, run3) refl,
      record {
        free = push_page-Free ke pgdir s2 xs2 t.free page dir_out;
        kept = λ x h. let there = t.kept x (sh.kept x h) in ground arith;
        frames = λ q h m.
            let there = t.kept (frame_at pgdir s q) (sh.freed q (omega arith) h m) in ground arith;
        tables = λ d h ht.
            let same = sh.dirs d h in
            let there : has (table_at pgdir s d) xs2 ≡ true =
              ap (λ w. has (p2v (pte_addr w)) xs2) (sym same)
              ∙ t.freed d (omega arith) h (ap is_present same ∙ ht) in
            ground arith;
        dir = ground arith;
        others = λ p f apart.
            let spared : Spared pgdir s 0 user_pages p = λ q h1 h2 m. apart q h2 m in
            let f1 = sh.foreign p f spared in
            let (out, same) = t.others p f.page f1.out (λ d h0 h ht. f1.no_table d h ht) in
            (
              has-cons p pgdir xs2 f.no_dir out,
              λ k h.
                  push_apart ke pgdir p k s2 page f.page f.no_dir h
                  ∙ same k h
                  ∙ sh.words p k f spared h,
            );
      },
    )

-- clearpteu of an address that has a page table clears PTE_U in the entry of its page, and no other entry.
pub clearpteu_lem :
    (ke pgdir va : ℕ) (xs : List ℕ) (s : Kmem)
    → va < 2 ^ 32
    → Valid ke pgdir xs s
    → HasTable pgdir s (va / page_size / 1024)
    → (s' : Kmem) × (clearpteu pgdir va s ≡ ok s')
      × Valid ke pgdir xs s'
      × ((q : ℕ)
          → q < 2 ^ 20
          → entry pgdir s' q ≡ (
              if va / page_size == q
              then clear_user (entry pgdir s (va / page_size))
              else entry pgdir s q))
unfolding clearpteu
clearpteu_lem ke pgdir va xs s small valid there =
    let v : ℕ = va / page_size in
    let at = slot_there pgdir va s (omega arith) (omega arith) there in
    let pos : 1 ≤ table_at pgdir s (v / 1024) =
      page_positive (valid.table (v / 1024) (omega arith) there).0 in
    let old : s.word (table_at pgdir s (v / 1024) + 4 * (v % 1024)) ≡ entry pgdir s v =
      sym (entry-there pgdir s v there) in
    let e : ℕ = clear_user (entry pgdir s v) in
    let number : v / 1024 * 1024 + v % 1024 ≡ v = omega arith in
    (
      store (table_at pgdir s (v / 1024) + 4 * (v % 1024)) e s,
      rw (at, ne→== (table_at pgdir s (v / 1024) + 4 * (v % 1024)) 0 (omega (arith, pos)), old)
          refl,
      put-Valid ke pgdir xs s valid (v / 1024) (v % 1024) e (omega arith) (omega arith) there,
      λ q h.
          put-entry ke pgdir xs s valid (v / 1024) (v % 1024) e (omega arith) (omega arith) there q
            h
          ∙ ap (λ c. if c == q then e else entry pgdir s q) number,
    )
