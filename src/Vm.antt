-- ===== src/Vm.antt =====
-- cs350/cs350-18f-lab6-base/vm.c and the macros of mmu.h and memlayout.h: page tables in the memory of
-- kalloc.c, which keeps the 32-bit word at each address. `kernel_end` and `data` are symbols of the
-- linker.
pub mod Tables
pub mod Walk
pub mod Maps
pub mod Users
pub mod Drop
pub mod Shrink
pub mod Dealloc
pub mod Take
pub mod Grow
pub mod Rollback
pub mod NoTable
pub mod Alloc
pub mod Sizes
pub mod Resize
pub mod Free
pub mod Freevm
mod Tests
use schoolstuff.Base.{
  ℕ, zero, suc, ◌+◌, ◌-◌, ◌*◌, ◌/◌, ◌%◌, ◌^◌, Bool, true, false, not, List, [], ◌∷◌, ltb, leb, ◌==◌,
  if◌then◌else◌, update, add32, sub32,
}
use schoolstuff.Base.Outcome.{Outcome, ok, panic, panic_if, ◌>>=◌, ◌>>◌}
use schoolstuff.Kalloc.{
  Kmem, page_size, kernel_base, phys_stop, page_round_up, fill_page, kalloc, kfree,
}

-- PDX, PTX, PGADDR of a directory index, PGROUNDDOWN
abbrev pub pdx : ℕ → ℕ
pdx va = va / 2 ^ 22 % 1024

abbrev pub ptx : ℕ → ℕ
ptx va = va / 2 ^ 12 % 1024

abbrev pub pg_addr : ℕ → ℕ
pg_addr d = d * 2 ^ 22 % 2 ^ 32

abbrev pub page_round_down : ℕ → ℕ
page_round_down a = a / page_size * page_size

-- PTE_W | PTE_U, the test of PTE_P and of PTE_U, PTE_ADDR
abbrev pub pte_wu : ℕ
pte_wu = 6

abbrev pub is_present : ℕ → Bool
is_present e = e % 2 == 1

abbrev pub is_user : ℕ → Bool
is_user e = e / 4 % 2 == 1

abbrev pub pte_addr : ℕ → ℕ
pte_addr e = e / page_size * page_size

-- `pa | perm | PTE_P`: `pa` is the address of a page, so that its bits and those of `perm` are apart.
abbrev pub pte_of : ℕ → ℕ → ℕ
pte_of pa perm = pa + (perm / 2 * 2 + 1)

-- P2V and V2P
abbrev pub p2v : ℕ → ℕ
p2v a = add32 a kernel_base

abbrev pub v2p : ℕ → ℕ
v2p a = sub32 a kernel_base

abbrev pub store : ℕ → ℕ → Kmem → Kmem
store a w s = record s { word = update s.word a w }

abbrev pub clear_page : ℕ → Kmem → Kmem
clear_page p s = record s { word = fill_page s.word p 0 }

-- The page table that `walkpgdir` makes.
abbrev pub new_table : ℕ → ℕ → ℕ × Kmem → ℕ × Kmem
new_table pde_at va (pg, s) =
    if pg == 0
    then (0, s)
    else (pg + 4 * ptx va, store pde_at (pte_of (v2p pg) pte_wu) (clear_page pg s))

-- The address of the entry, or a null pointer.
unfoldable pub walkpgdir : ℕ → ℕ → Bool → Kmem → ℕ × Kmem
walkpgdir pgdir va alloc s =
    let pde_at = pgdir + 4 * pdx va in
    let made = new_table pde_at va (kalloc s) in
    if is_present (s.word pde_at)
    then (p2v (pte_addr (s.word pde_at)) + 4 * ptx va, s)
    else if not alloc
    then (0, s)
    else made

-- The part of the loop of `mappages` after walkpgdir: `more` is the rest of the loop.
abbrev pub put_entry : (Kmem → Outcome (Bool × Kmem)) → Bool → ℕ → ℕ × Kmem → Outcome (Bool × Kmem)
put_entry more is_last e (pte, s) =
    let s' = store pte e s in
    let go_on = if is_last then ok (true, s') else more s' in
    if pte == 0 then ok (false, s) else if is_present (s.word pte) then panic else go_on

-- The loop of `mappages`, on fuel; true is 0 and false is -1.
unfoldable pub map_from : ℕ → ℕ → ℕ → ℕ → ℕ → ℕ → Kmem → Outcome (Bool × Kmem)
map_from zero pgdir a last pa perm s = panic
map_from (suc fuel) pgdir a last pa perm s =
    put_entry (map_from fuel pgdir (add32 a page_size) last (add32 pa page_size) perm) (a == last)
      (pte_of pa perm) (walkpgdir pgdir a true s)

-- No more rounds than the address space has pages.
abbrev pub all_pages : ℕ
all_pages = 2 ^ 20

unfoldable pub mappages : ℕ → ℕ → ℕ → ℕ → ℕ → Kmem → Outcome (Bool × Kmem)
mappages pgdir va size pa perm s =
    map_from all_pages pgdir (page_round_down va) (page_round_down (sub32 (add32 va size) 1)) pa
      perm s

-- What growproc makes of the result of allocuvm or deallocuvm: true is 0, and false -1.
abbrev pub new_size : ℕ → ℕ × Kmem → Bool × ℕ × Kmem
new_size sz (r, s) = if r == 0 then (false, sz, s) else (true, r, s)

module _ (kernel_end : ℕ) where
  -- A present entry of `deallocuvm`: its page is freed, then the entry is cleared.
  unfoldable pub drop_page : ℕ → Kmem → Outcome Kmem
  drop_page pte s = do
    let pa = pte_addr (s.word pte)
    panic_if (pa == 0)
    s' ← kfree kernel_end (p2v pa) s
    ok (store pte 0 s')

  -- A round of the loop of `deallocuvm`, after walkpgdir.
  abbrev pub drop_entry : (ℕ → Kmem → Outcome Kmem) → ℕ → Kmem → ℕ → Outcome Kmem
  drop_entry more a s pte =
      let next = add32 a page_size in
      let skip = more (add32 (sub32 (pg_addr (pdx a + 1)) page_size) page_size) s in
      let drop = do s' ← drop_page pte s; more next s'
      in let keep = more next s in
        if pte == 0 then skip else if is_present (s.word pte) then drop else keep

  unfoldable pub dealloc_from : ℕ → ℕ → ℕ → ℕ → Kmem → Outcome Kmem
  dealloc_from zero pgdir oldsz a s = panic
  dealloc_from (suc fuel) pgdir oldsz a s =
      let round = drop_entry (dealloc_from fuel pgdir oldsz) a s (walkpgdir pgdir a false s).0 in
      if ltb a oldsz then round else ok s

  unfoldable pub deallocuvm : ℕ → ℕ → ℕ → Kmem → Outcome (ℕ × Kmem)
  deallocuvm pgdir oldsz newsz s =
      let run = do
        s' ← dealloc_from (suc all_pages) pgdir oldsz (page_round_up newsz) s
        ok (newsz, s')
      in if leb oldsz newsz then ok (oldsz, s) else run

  -- A round of the loop of `allocuvm`, after kalloc.
  abbrev pub add_page : (Kmem → Outcome (ℕ × Kmem)) → ℕ → ℕ → ℕ → ℕ → ℕ × Kmem → Outcome (ℕ × Kmem)
  add_page more pgdir oldsz newsz a (mem, s) =
      let no_memory = do (sz, s') ← deallocuvm pgdir newsz oldsz s; ok (0, s')
      in let map_it = do
        (done, s1) ← mappages pgdir a page_size (v2p mem) pte_wu (clear_page mem s)
        let no_table = do
          (sz, s2) ← deallocuvm pgdir newsz oldsz s1
          s3 ← kfree kernel_end mem s2
          ok (0, s3)
        if not done then no_table else more s1
        in if mem == 0 then no_memory else map_it

  unfoldable pub alloc_from : ℕ → ℕ → ℕ → ℕ → ℕ → Kmem → Outcome (ℕ × Kmem)
  alloc_from zero pgdir oldsz newsz a s = panic
  alloc_from (suc fuel) pgdir oldsz newsz a s =
      let round =
        add_page (alloc_from fuel pgdir oldsz newsz (add32 a page_size)) pgdir oldsz newsz a
          (kalloc s) in
      if ltb a newsz then round else ok (newsz, s)

  unfoldable pub allocuvm : ℕ → ℕ → ℕ → Kmem → Outcome (ℕ × Kmem)
  allocuvm pgdir oldsz newsz s =
      let run = alloc_from (suc all_pages) pgdir oldsz newsz (page_round_up oldsz) s in
      if leb kernel_base newsz then ok (0, s) else if ltb newsz oldsz then ok (oldsz, s) else run

  -- `growproc` of proc.c, on the size of the process: `n` is an int.
  unfoldable pub growproc : ℕ → ℕ → ℕ → Kmem → Outcome (Bool × ℕ × Kmem)
  growproc pgdir sz n s =
      let grow = do r ← allocuvm pgdir sz (add32 sz n) s; ok (new_size sz r)
      in let shrink = do r ← deallocuvm pgdir sz (add32 sz n) s; ok (new_size sz r)
        in if n == 0 then ok (true, sz, s) else if ltb n (2 ^ 31) then grow else shrink

  -- The loop of `freevm` over the directory: `n` entries from `i` on.
  unfoldable pub free_tables : ℕ → ℕ → ℕ → Kmem → Outcome Kmem
  free_tables zero i pgdir s = ok s
  free_tables (suc n) i pgdir s = do
    let e = s.word (pgdir + 4 * i)
    s' ← if is_present e then kfree kernel_end (p2v (pte_addr e)) s else ok s
    free_tables n (i + 1) pgdir s'

  unfoldable pub freevm : ℕ → Kmem → Outcome Kmem
  freevm pgdir s = do
    panic_if (pgdir == 0)
    (sz, s1) ← deallocuvm pgdir kernel_base 0 s
    s2 ← free_tables 1024 0 pgdir s1
    kfree kernel_end pgdir s2

-- `*pte &= ~PTE_U`
abbrev pub clear_user : ℕ → ℕ
clear_user e = if is_user e then e - 4 else e

unfoldable pub clearpteu : ℕ → ℕ → Kmem → Outcome Kmem
clearpteu pgdir uva s =
    let pte = (walkpgdir pgdir uva false s).0 in
    if pte == 0 then panic else ok (store pte (clear_user (s.word pte)) s)
