-- ===== src/Kalloc.antt =====
-- cs350/cs350-18f-lab6-base/kalloc.c: the free list of physical pages, threaded through the pages
-- themselves. `kernel_end` is the linker's symbol `end`.
pub mod FreeList
pub mod Ranges
mod Tests
use schoolstuff.Base.{
  ℕ, zero, suc, ◌+◌, ◌-◌, ◌*◌, ◌/◌, ◌%◌, Bool, true, false, not, ◌&&◌, ◌||◌, ltb, leb, ◌==◌,
  if◌then◌else◌, add32, sub32, update,
}
use schoolstuff.Base.Outcome.{Outcome, ok, panic, panic_if, ◌>>=◌, ◌>>◌}

-- PGSIZE, KERNBASE and PHYSTOP
abbrev pub page_size : ℕ
page_size = 4096

abbrev pub kernel_base : ℕ
kernel_base = 0x80000000

abbrev pub phys_stop : ℕ
phys_stop = 0xE000000

-- `kmem` with the memory that the list runs through: the 32-bit word at each address.
pub record Kmem : Type 0 where
  pub use_lock : Bool
  pub freelist : ℕ
  pub word : ℕ → ℕ

-- `memset(v, c, PGSIZE)`: both are multiples of 4, so it stores words of four equal bytes.
abbrev pub fill_page : (ℕ → ℕ) → ℕ → ℕ → ℕ → ℕ
fill_page w v c a = if leb v a && ltb a (v + page_size) then c % 256 * 0x01010101 else w a

-- `r->next = kmem.freelist; kmem.freelist = r`, over a page of junk.
abbrev pub push_page : ℕ → Kmem → Kmem
push_page v s = record s { freelist = v; word = update (fill_page s.word v 1) v s.freelist }

-- `kalloc`: 0 when no page is left.
unfoldable pub kalloc : Kmem → ℕ × Kmem
kalloc s =
    if s.freelist == 0 then (0, s) else (s.freelist, record s { freelist = s.word s.freelist })

-- PGROUNDUP
abbrev pub page_round_up : ℕ → ℕ
page_round_up a = add32 a (page_size - 1) / page_size * page_size

module _ (kernel_end : ℕ) where
  -- The test of `kfree` before it takes a page.
  abbrev pub is_bad_page : ℕ → Bool
  is_bad_page v =
      not (v % page_size == 0) || ltb v kernel_end || leb phys_stop (sub32 v kernel_base)

  unfoldable pub kfree : ℕ → Kmem → Outcome Kmem
  kfree v s = do panic_if (is_bad_page v); ok (push_page v s)

  -- The loop of `freerange`, on fuel.
  pub free_pages : ℕ → ℕ → ℕ → Kmem → Outcome Kmem
  free_pages zero p vend s = panic
  free_pages (suc fuel) p vend s =
      let rest = kfree p s >>= free_pages fuel (add32 p page_size) vend in
      if leb (add32 p page_size) vend then rest else ok s

  -- A round takes a page, so `vend` rounds are more than enough.
  unfoldable pub freerange : ℕ → ℕ → Kmem → Outcome Kmem
  unfolding free_pages
  freerange vstart vend s = free_pages (suc vend) (page_round_up vstart) vend s

  unfoldable pub kinit1 : ℕ → ℕ → Kmem → Outcome Kmem
  unfolding freerange
  kinit1 vstart vend s = freerange vstart vend (record s { use_lock = false })

  unfoldable pub kinit2 : ℕ → ℕ → Kmem → Outcome Kmem
  unfolding freerange
  kinit2 vstart vend s = do s' ← freerange vstart vend s; ok (record s' { use_lock = true })
