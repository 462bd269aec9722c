-- ===== src/Kalloc/FreeList.antt =====
-- The free list as a list of distinct pages, and what `kfree` and `kalloc` do to it.
use schoolstuff.Base.{
  ℕ, ◌+◌, ◌%◌, ◌^◌, ◌≤◌, ◌<◌, ◌≡◌, ◌≢◌, refl, Bool, true, false, ◌||◌, List, [], ◌∷◌, arith, ◌==◌,
  sub32, update, ==_refl, sym, ◌∙◌,
}
use schoolstuff.Base.Outcome.{ok, panic}
use schoolstuff.Kalloc.{
  Kmem, page_size, phys_stop, kernel_base, fill_page, push_page, is_bad_page, kfree, kalloc,
}

abbrev pub has : ℕ → List ℕ → Bool
has a [] = false
has a (x ∷ xs) = (a == x) || has a xs

module _ (kernel_end : ℕ) where
  -- An address that `kfree` accepts.
  pub record IsPage (v : ℕ) : Type 0 where
    pub aligned : v % page_size ≡ 0
    pub above : kernel_end ≤ v
    pub physical : sub32 v kernel_base < phys_stop
    pub word_sized : v < 2 ^ 32

  -- From `p` the `next` words lead through the distinct pages `xs` to 0.
  abbrev pub Chain : (ℕ → ℕ) → ℕ → List ℕ → Type 0
  Chain w p [] = p ≡ 0
  Chain w p (x ∷ xs) = (p ≡ x) × IsPage x × (has x xs ≡ false) × Chain w (w x) xs

  -- The free list of `s` is `xs`.
  abbrev pub Free : Kmem → List ℕ → Type 0
  Free s xs = Chain s.word s.freelist xs

  page_ne_zero : {v : ℕ} → IsPage v → v ≢ 0
  page_ne_zero g = omega arith

  accepts : {v : ℕ} → IsPage v → is_bad_page kernel_end v ≡ false
  accepts g = ground arith

  word_kept :
      (w : ℕ → ℕ) (v q x : ℕ) → IsPage v → IsPage x → v ≢ x → update (fill_page w v 1) v q x ≡ w x
  word_kept w v q x g gx ne =
      let e : ¬ ((v ≤ x) × (x < v + page_size)) = λ h. ne (omega arith) in ground arith

  -- Writing into one page leaves the chain through others alone.
  Chain-push :
      (w : ℕ → ℕ) (v q p : ℕ) (xs : List ℕ)
      → IsPage v
      → has v xs ≡ false
      → Chain w p xs
      → Chain (update (fill_page w v 1) v q) p xs
  Chain-push w v q p [] g out c = c
  Chain-push w v q p (x ∷ xs) g out c = (
    c.0,
    c.1,
    c.2,
    rw (word_kept w v q x g c.1 (ground arith)) (Chain-push w v q (w x) xs g (ground arith) c.3),
  )

  pub push_page-Free :
      (v : ℕ) (s : Kmem) (xs : List ℕ)
      → Free s xs
      → IsPage v
      → has v xs ≡ false
      → Free (push_page v s) (v ∷ xs)
  push_page-Free v s xs c g out =
      (refl, g, out, rw (==_refl v) (Chain-push s.word v s.freelist s.freelist xs g out c))

  pub kfree-ok : (v : ℕ) (s : Kmem) → IsPage v → kfree kernel_end v s ≡ ok (push_page v s)
  unfolding kfree
  kfree-ok v s g = rw (accepts g)

  pub kfree-Free :
      (v : ℕ) (s : Kmem) (xs : List ℕ)
      → Free s xs
      → IsPage v
      → has v xs ≡ false
      → (s' : Kmem) × (kfree kernel_end v s ≡ ok s') × Free s' (v ∷ xs)
  kfree-Free v s xs c g out = (push_page v s, kfree-ok v s g, push_page-Free v s xs c g out)

  -- A page outside the accepted range makes `kfree` panic.
  pub kfree-panic :
      (v : ℕ) (s : Kmem) → is_bad_page kernel_end v ≡ true → kfree kernel_end v s ≡ panic
  unfolding kfree
  kfree-panic v s bad = rw bad

  pub kalloc-Free :
      (s : Kmem) (x : ℕ) (xs : List ℕ) → Free s (x ∷ xs) → ((kalloc s).0 ≡ x) × Free (kalloc s).1 xs
  unfolding kalloc
  kalloc-Free s x xs c =
      let nz : s.freelist ≢ 0 = λ e. page_ne_zero c.1 (sym c.0 ∙ e) in
      let t : (s.freelist == 0) ≡ false = ground arith in rw t (c.0, rw c.0 c.3)

  pub kalloc-nil : (s : Kmem) → Free s [] → kalloc s ≡ (0, s)
  unfolding kalloc
  kalloc-nil s c = rw c

  -- What a caller sees of the allocator: `kfree` of a page that is not free puts it on the list,
  -- the next `kalloc` returns that page and leaves the list as it was.
  pub kfree-kalloc :
      (v : ℕ) (s : Kmem) (xs : List ℕ)
      → Free s xs
      → IsPage v
      → has v xs ≡ false
      → (s' : Kmem) × (kfree kernel_end v s ≡ ok s') × ((kalloc s').0 ≡ v) × Free (kalloc s').1 xs
  kfree-kalloc v s xs c g out =
      let (s', done, free) = kfree-Free v s xs c g out in
      let (first, rest) = kalloc-Free s' v xs free in (s', done, first, rest)
