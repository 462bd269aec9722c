-- ===== src/Kalloc/Ranges.antt =====
-- `freerange` frees exactly the whole pages of its range, and its fuel suffices.
use schoolstuff.Base.{
  ℕ, zero, suc, ◌+◌, ◌-◌, ◌/◌, ◌%◌, ◌^◌, ◌≤◌, ◌<◌, ◌≡◌, refl, false, List, ◌∷◌, arith, leb, le→leb,
  lt→leb, length, add32,
}
use schoolstuff.Base.Outcome.{Outcome, ok}
use schoolstuff.Kalloc.{
  Kmem, page_size, phys_stop, kernel_base, kfree, free_pages, freerange, page_round_up,
}
use schoolstuff.Kalloc.FreeList.{has, IsPage, Free, kfree-Free}

-- `n` pages from `p` on, the last one first, before `xs`.
abbrev pub stack_pages : ℕ → ℕ → List ℕ → List ℕ
stack_pages zero p xs = xs
stack_pages (suc n) p xs = stack_pages n (p + page_size) (p ∷ xs)

pub length-stack_pages : (n p : ℕ) (xs : List ℕ) → length (stack_pages n p xs) ≡ n + length xs
length-stack_pages zero p xs = omega arith
length-stack_pages (suc n) p xs = omega (arith, length-stack_pages n (p + page_size) (p ∷ xs))

module _ (kernel_end : ℕ) where
  -- The whole pages between `p` and `vend`.
  abbrev pub whole_pages : ℕ → ℕ → ℕ
  whole_pages p vend = (vend - p) / page_size

  -- A round of the loop that takes a page.
  free_pages-step :
      (fuel p vend : ℕ) (s s' : Kmem) {r : Outcome Kmem}
      → p < 2 ^ 32 - page_size
      → p + page_size ≤ vend
      → kfree kernel_end p s ≡ ok s'
      → free_pages kernel_end fuel (p + page_size) vend s' ≡ r
      → free_pages kernel_end (suc fuel) p vend s ≡ r
  unfolding free_pages
  free_pages-step fuel p vend s s' hp hv done rest =
      let e : add32 p page_size ≡ p + page_size = omega arith in rw (e, le→leb _ _ hv, done) rest

  free_pages-Free :
      (n fuel p vend : ℕ) (s : Kmem) (xs : List ℕ)
      → n ≡ whole_pages p vend
      → n < fuel
      → p % page_size ≡ 0
      → kernel_end ≤ p
      → kernel_base ≤ p
      → p < 2 ^ 32 - page_size
      → vend ≤ kernel_base + phys_stop
      → ((a : ℕ) → p ≤ a → a + page_size ≤ vend → has a xs ≡ false)
      → Free kernel_end s xs
      → (s' : Kmem) × (free_pages kernel_end fuel p vend s ≡ ok s')
        × Free kernel_end s' (stack_pages n p xs)
  unfolding free_pages
  free_pages-Free n zero p vend s xs en hf al ke kb hp hv out c = absurd (omega arith)
  free_pages-Free zero (suc fuel) p vend s xs en hf al ke kb hp hv out c =
      let t : leb (add32 p page_size) vend ≡ false = lt→leb _ _ (omega arith) in (s, rw t, c)
  free_pages-Free (suc n) (suc fuel) p vend s xs en hf al ke kb hp hv out c =
      let g : IsPage kernel_end p = omega arith in
      let (s1, done, c1) = kfree-Free kernel_end p s xs c g (out p (omega arith) (omega arith)) in
      let (s2, rest, c2) =
        free_pages-Free n fuel (p + page_size) vend s1 (p ∷ xs) (omega arith) (omega arith)
          (omega arith) (omega arith) (omega arith) (omega arith) hv
          (λ a h h2. ground (arith, out a)) c1 in
      (s2, free_pages-step fuel p vend s s1 hp (omega arith) done rest, c2)

  -- freerange from an address after the kernel on, up to one that is mapped at most, with no whole page of the range
  -- on the free list yet, returns without a panic: its fuel suffices. It frees exactly the whole pages of the
  -- range, each once, in front of the pages that were on the list.
  pub freerange_lem :
      (vstart vend : ℕ) (s : Kmem) (xs : List ℕ)
      → kernel_end ≤ vstart
      → kernel_base ≤ vstart
      → vstart ≤ kernel_base + phys_stop
      → vend ≤ kernel_base + phys_stop
      → ((a : ℕ) → vstart ≤ a → a + page_size ≤ vend → has a xs ≡ false)
      → Free kernel_end s xs
      → let p = page_round_up vstart in
        (s' : Kmem) × (freerange kernel_end vstart vend s ≡ ok s')
        × Free kernel_end s' (stack_pages (whole_pages p vend) p xs)
  unfolding freerange
  freerange_lem vstart vend s xs ke kb hs hv out c =
      free_pages-Free (whole_pages (page_round_up vstart) vend) (suc vend) (page_round_up vstart)
        vend s xs refl (omega arith) (omega arith) (omega arith) (omega arith) (omega arith) hv
        (λ a h h2. out a (omega arith) h2) c
