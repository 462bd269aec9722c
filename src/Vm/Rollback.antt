-- ===== src/Vm/Rollback.antt =====
-- vm.c: `allocuvm` without memory calls deallocuvm, which takes the pages back that it has mapped.
use mathlib.Core.Path.{subst}
use native.Mathlib.Decide.{dec_lt}
use schoolstuff.Base.{
  ℕ, ◌+◌, ◌*◌, ◌^◌, ◌≤◌, ◌<◌, ◌≡◌, ◌⊎◌, true, false, ◌&&◌, List, arith, ltb, leb, if◌then◌else◌,
  inl, inr, ◌∙◌, sym, ap,
}
use schoolstuff.Kalloc.{Kmem}
use schoolstuff.Kalloc.FreeList.{has}
use schoolstuff.Vm.{p2v, pte_addr, is_present}
use schoolstuff.Vm.Tables.{dir_entry, entry, Foreign, IsTable}
use schoolstuff.Vm.Users.{frame_at, IsMapped, Space}
use schoolstuff.Vm.Shrink.{Shrunk, Spared}
use schoolstuff.Vm.Grow.{Grown, Fresh-IsMapped}

-- No page from number `lo` up to `hi` is mapped, and all else is as before; no page has been lost.
pub record Restored (ke pgdir : ℕ) (xs : List ℕ) (s : Kmem) (lo hi : ℕ) (xs' : List ℕ) (s' : Kmem)
    : Type 0 where
  pub space : Space ke pgdir xs' s'
  pub outside : (q : ℕ) → q < 2 ^ 20 → (q < lo) ⊎ (hi ≤ q) → entry pgdir s' q ≡ entry pgdir s q
  pub gone : (q : ℕ) → q < 2 ^ 20 → lo ≤ q → q < hi → is_present (entry pgdir s' q) ≡ false
  pub kept : (x : ℕ) → has x xs ≡ true → (has x xs' ≡ true) ⊎ IsTable pgdir s' x
  pub foreign : (p : ℕ) → Foreign ke pgdir xs s p → Foreign ke pgdir xs' s' p
  pub words :
      (p i : ℕ) → Foreign ke pgdir xs s p → i < 1024 → s'.word (p + 4 * i) ≡ s.word (p + 4 * i)

-- The entries after pages from `lo` up to `c` have been mapped to pages of `xs`.
pub record Trail (pgdir : ℕ) (xs : List ℕ) (s : Kmem) (lo c : ℕ) (s1 : Kmem) : Type 0 where
  pub outside : (q : ℕ) → q < 2 ^ 20 → (q < lo) ⊎ (c ≤ q) → entry pgdir s1 q ≡ entry pgdir s q
  pub mine : (q : ℕ) → lo ≤ q → q < c → IsMapped pgdir s1 q × (has (frame_at pgdir s1 q) xs ≡ true)

pub Grown-Trail :
    {ke pgdir : ℕ} {xs : List ℕ} {s : Kmem} {lo c : ℕ} {xs1 : List ℕ} {s1 : Kmem}
    → Grown ke pgdir xs s lo c xs1 s1
    → Trail pgdir xs s lo c s1
Grown-Trail {pgdir = pgdir} {xs = xs} {s1 = s1} g = record {
  outside = g.outside;
  mine = λ q h1 h2.
      (Fresh-IsMapped xs (entry pgdir s1 q) s1.word (g.fresh q h1 h2), (g.fresh q h1 h2).0);
}

pub Trail-same :
    {pgdir : ℕ} {xs : List ℕ} {s : Kmem} {lo c : ℕ} {s1 s2 : Kmem}
    → c ≤ 2 ^ 20
    → ((q : ℕ) → q < 2 ^ 20 → entry pgdir s2 q ≡ entry pgdir s1 q)
    → Trail pgdir xs s lo c s1
    → Trail pgdir xs s lo c s2
Trail-same {xs = xs} small same t = record {
  outside = λ q h out. same q h ∙ t.outside q h out;
  mine = λ q h1 h2.
      subst (λ e. (is_present e ≡ true) × (has (p2v (pte_addr e)) xs ≡ true))
        (sym (same q (omega arith))) (t.mine q h1 h2);
}

pub IsTable-same :
    (pgdir : ℕ) (s s' : Kmem) (x : ℕ)
    → ((d : ℕ) → d < 1024 → dir_entry pgdir s' d ≡ dir_entry pgdir s d)
    → IsTable pgdir s x
    → IsTable pgdir s' x
IsTable-same pgdir s s' x same (d, h, ht, e) =
    (d, h, ap is_present (same d h) ∙ ht, ap (λ w. p2v (pte_addr w)) (same d h) ∙ e)

module _ (ke pgdir : ℕ) (xs : List ℕ) (s : Kmem) (lo c hi : ℕ) (xs1 : List ℕ) (s1 : Kmem)
    (xs' : List ℕ) (s' : Kmem) (c_ok : c ≤ hi) (hi_ok : hi ≤ 2 ^ 20)
    (absent : (q : ℕ) → lo ≤ q → q < hi → is_present (entry pgdir s q) ≡ false)
    (trail : Trail pgdir xs s lo c s1) (sh : Shrunk ke pgdir xs1 s1 lo hi xs' s') where
  pub back-outside : (q : ℕ) → q < 2 ^ 20 → (q < lo) ⊎ (hi ≤ q) → entry pgdir s' q ≡ entry pgdir s q
  back-outside q h out =
      let test : (leb lo q && ltb q hi && is_present (entry pgdir s1 q)) ≡ false = elim out [
        | inl below ↦ ground arith
        | inr past ↦ ground arith
      ] in
      sh.entries q h
      ∙ rw test
          (trail.outside q h (elim out [ inl below ↦ inl below | inr past ↦ inr (omega arith) ]))

  pub back-gone : (q : ℕ) → q < 2 ^ 20 → lo ≤ q → q < hi → is_present (entry pgdir s' q) ≡ false
  back-gone q h h1 h2 = ap is_present (sh.entries q h) ∙ shown (entry pgdir s1 q)
    where
      shown : (e : ℕ) → is_present (if leb lo q && ltb q hi && is_present e then 0 else e) ≡ false
      shown e = ground arith

  spared : (p : ℕ) → Foreign ke pgdir xs s p → Spared pgdir s1 lo hi p
  spared p f q h1 h2 m = elim (dec_lt q c) [
    | yes lt ↦
        let out = f.out in
        let (m1, free) = trail.mine q h1 lt in
        λ e.
          let clash : true ≡ false = sym free ∙ ap (λ y. has y xs) (sym e) ∙ out in
          absurd (ground arith)
    | no past ↦
        let clash : true ≡ false =
          sym m
          ∙ ap is_present (trail.outside q (omega arith) (inr (omega arith)))
          ∙ absent q h1 h2 in
        absurd (ground arith)
  ]

  pub back-Foreign :
      (p : ℕ) → Foreign ke pgdir xs s p → Foreign ke pgdir xs1 s1 p → Foreign ke pgdir xs' s' p
  back-Foreign p f f1 = sh.foreign p f1 (spared p f)

  pub back-word :
      (p i : ℕ)
      → Foreign ke pgdir xs s p
      → Foreign ke pgdir xs1 s1 p
      → i < 1024
      → s'.word (p + 4 * i) ≡ s1.word (p + 4 * i)
  back-word p i f f1 h = sh.words p i f1 (spared p f) h

  -- What a page in use at `s1` has become.
  pub back-kept :
      (x : ℕ)
      → (has x xs1 ≡ true)
        ⊎ (IsTable pgdir s1 x ⊎ ((q : ℕ) × (lo ≤ q) × (q < c) × (frame_at pgdir s1 q ≡ x)))
      → (has x xs' ≡ true) ⊎ IsTable pgdir s' x
  back-kept x (inl h) = inl (sh.kept x h)
  back-kept x (inr (inl t)) = inr (IsTable-same pgdir s1 s' x sh.dirs t)
  back-kept x (inr (inr (q, h1, h2, e))) =
      inl (subst (λ y. has y xs' ≡ true) e (sh.freed q h1 (omega arith) (trail.mine q h1 h2).0))

pub rollback-Restored :
    (ke pgdir : ℕ) (xs : List ℕ) (s : Kmem) (lo c hi : ℕ) (xs1 : List ℕ) (s1 : Kmem) (xs' : List ℕ)
    (s' : Kmem)
    → c ≤ hi
    → hi ≤ 2 ^ 20
    → ((q : ℕ) → lo ≤ q → q < hi → is_present (entry pgdir s q) ≡ false)
    → Grown ke pgdir xs s lo c xs1 s1
    → Shrunk ke pgdir xs1 s1 lo hi xs' s'
    → Restored ke pgdir xs s lo hi xs' s'
rollback-Restored ke pgdir xs s lo c hi xs1 s1 xs' s' c_ok hi_ok absent g sh =
    let t = Grown-Trail g in
    record {
      space = sh.space;
      outside = back-outside ke pgdir xs s lo c hi xs1 s1 xs' s' c_ok hi_ok absent t sh;
      gone = back-gone ke pgdir xs s lo c hi xs1 s1 xs' s' c_ok hi_ok absent t sh;
      kept = λ x h.
          back-kept ke pgdir xs s lo c hi xs1 s1 xs' s' c_ok hi_ok absent t sh x (g.used x h);
      foreign = λ p f.
          back-Foreign ke pgdir xs s lo c hi xs1 s1 xs' s' c_ok hi_ok absent t sh p f
            (g.foreign p f);
      words = λ p i f h.
          back-word ke pgdir xs s lo c hi xs1 s1 xs' s' c_ok hi_ok absent t sh p i f (g.foreign p f)
            h
          ∙ g.words p i f h;
    }
