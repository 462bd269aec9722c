-- ===== src/Vm/NoTable.antt =====
-- vm.c: `allocuvm` where mappages finds no memory for a page table: deallocuvm, then kfree of the page.
use mathlib.Core.Path.{subst}
use native.Mathlib.Decide.{ℕ_discrete}
use schoolstuff.Base.{
  ℕ, ◌+◌, ◌*◌, ◌^◌, ◌≤◌, ◌<◌, ◌≡◌, ◌≢◌, ◌⊎◌, true, false, ◌&&◌, List, ◌∷◌, arith, ltb, leb, inl,
  inr, Bool-cases, ◌∙◌, sym, ap,
}
use schoolstuff.Kalloc.{Kmem, push_page}
use schoolstuff.Kalloc.FreeList.{has}
use schoolstuff.Vm.{p2v, pte_addr, is_present}
use schoolstuff.Vm.Tables.{entry, Valid, Foreign, Spares, IsTable}
use schoolstuff.Vm.Users.{
  user_pages, frame_at, IsMapped, Space, push-entry, push-dir_entry, push-Foreign, push-word,
  push-Space,
}
use schoolstuff.Vm.Take.{taken, taken-word, taken-dir_entry, taken-Foreign, mem-Foreign}
use schoolstuff.Vm.Shrink.{Shrunk}
use schoolstuff.Vm.Grow.{Grown}
use schoolstuff.Vm.Rollback.{
  Restored, Trail, Grown-Trail, Trail-same, IsTable-same, back-outside, back-gone, back-Foreign,
  back-word, back-kept,
}

-- `mem` has been taken and cleared, but no entry has changed since.
module _ (ke pgdir mem : ℕ) (xs : List ℕ) (s : Kmem) (space : Space ke pgdir (mem ∷ xs) s)
    (xs1 : List ℕ) (s1 : Kmem) (valid1 : Valid ke pgdir xs1 s1)
    (spares : Spares ke pgdir xs (taken ke pgdir mem xs s space.valid) xs1 s1)
    (same : (q : ℕ) → q < 2 ^ 20 → entry pgdir s1 q ≡ entry pgdir s q) where
  later-Foreign : (p : ℕ) → Foreign ke pgdir (mem ∷ xs) s p → Foreign ke pgdir xs1 s1 p
  later-Foreign p f = spares.foreign p (taken-Foreign ke pgdir mem xs s space.valid p f)

  later-word :
      (p i : ℕ)
      → Foreign ke pgdir (mem ∷ xs) s p
      → i < 1024
      → s1.word (p + 4 * i) ≡ s.word (p + 4 * i)
  later-word p i f h =
      let out = f.out in
      spares.words p i (taken-Foreign ke pgdir mem xs s space.valid p f) h
      ∙ taken-word ke pgdir mem xs s space.valid p i f.page (ground arith) h

  same-IsMapped :
      (q : ℕ)
      → q < user_pages
      → IsMapped pgdir s1 q
      → IsMapped pgdir s q × (frame_at pgdir s1 q ≡ frame_at pgdir s q)
  same-IsMapped q h m =
      let e = same q (omega arith) in (ap is_present (sym e) ∙ m, ap (λ w. p2v (pte_addr w)) e)

  pub unmapped-Space : Space ke pgdir xs1 s1
  unmapped-Space = record {
    valid = valid1;
    frame = λ q h m.
        let (m0, e) = same-IsMapped q h m in
        subst (Foreign ke pgdir xs1 s1) (sym e)
          (later-Foreign (frame_at pgdir s q) (space.frame q h m0));
    frame_inj = λ q r h h' m m' ne z.
        let (m0, e) = same-IsMapped q h m in
        let (m0', e') = same-IsMapped r h' m' in
        space.frame_inj q r h h' m0 m0' ne (sym e ∙ z ∙ e');
  }

  not_mem : (p : ℕ) → Foreign ke pgdir (mem ∷ xs) s p → p ≢ mem
  not_mem p f = let out = f.out in ground arith

  module _ (xs0 : List ℕ) (s0 : Kmem) (lo c hi : ℕ) (c_ok : c ≤ hi) (hi_ok : hi ≤ user_pages)
      (absent : (q : ℕ) → lo ≤ q → q < hi → is_present (entry pgdir s0 q) ≡ false)
      (so_far : Grown ke pgdir xs0 s0 lo c (mem ∷ xs) s) (xs2 : List ℕ) (s2 : Kmem)
      (sh : Shrunk ke pgdir xs1 s1 lo hi xs2 s2) where
    trail : Trail pgdir xs0 s0 lo c s1
    trail = Trail-same (omega arith) same (Grown-Trail so_far)

    still-IsMapped :
        (q : ℕ)
        → q < user_pages
        → IsMapped pgdir s2 q
        → IsMapped pgdir s1 q × (frame_at pgdir s2 q ≡ frame_at pgdir s1 q)
    still-IsMapped q h m =
        elim (Bool-cases (leb lo q && ltb q hi && is_present (entry pgdir s1 q))) [
          | inl gone ↦
              let zero_there : entry pgdir s2 q ≡ 0 = rw gone at (sh.entries q (omega arith)) in
              let clash : true ≡ false = sym m ∙ ap is_present zero_there in absurd (ground arith)
          | inr there ↦
              let e : entry pgdir s2 q ≡ entry pgdir s1 q =
                rw there at (sh.entries q (omega arith)) in
              (ap is_present (sym e) ∙ m, ap (λ w. p2v (pte_addr w)) e)
        ]

    pub held-Foreign : Foreign ke pgdir xs2 s2 mem
    held-Foreign =
        sh.foreign mem (spares.foreign mem (mem-Foreign ke pgdir mem xs s space.valid))
          (λ q h1 h2 m.
            let (m0, e) = same-IsMapped q (omega arith) m in
            λ z. not_mem (frame_at pgdir s q) (space.frame q (omega arith) m0) (sym e ∙ sym z))

    freed-Space : Space ke pgdir (mem ∷ xs2) (push_page mem s2)
    freed-Space = push-Space ke pgdir xs2 s2 sh.space.valid mem held-Foreign sh.space (λ q h m.
        let (m1, e1) = still-IsMapped q h m in
        let (m0, e) = same-IsMapped q h m1 in
        λ z. not_mem (frame_at pgdir s q) (space.frame q h m0) (sym e ∙ sym e1 ∙ z))

    freed-entry : (q : ℕ) → q < 2 ^ 20 → entry pgdir (push_page mem s2) q ≡ entry pgdir s2 q
    freed-entry = push-entry ke pgdir xs2 s2 sh.space.valid mem held-Foreign

    -- A page that was free at the start is free again, or was made a page table.
    freed-kept :
        (x : ℕ) → has x xs0 ≡ true → (has x (mem ∷ xs2) ≡ true) ⊎ IsTable pgdir (push_page mem s2) x
    freed-kept x h = elim (ℕ_discrete x mem) [
      | yes e ↦ inl (ground arith)
      | no ne ↦
          elim (back-kept ke pgdir xs0 s0 lo c hi xs1 s1 xs2 s2 c_ok (omega arith) absent trail sh x
            (at_start x ne (so_far.used x h))) [
              | inl free ↦ inl (ground arith)
              | inr table ↦ inr (
                  IsTable-same pgdir s2 (push_page mem s2) x
                    (push-dir_entry ke pgdir xs2 s2 sh.space.valid mem held-Foreign) table)
            ]
    ]
      where
        at_start :
            (x : ℕ)
            → x ≢ mem
            → (has x (mem ∷ xs) ≡ true)
              ⊎ (IsTable pgdir s x ⊎ ((q : ℕ) × (lo ≤ q) × (q < c) × (frame_at pgdir s q ≡ x)))
            → (has x xs1 ≡ true)
              ⊎ (IsTable pgdir s1 x ⊎ ((q : ℕ) × (lo ≤ q) × (q < c) × (frame_at pgdir s1 q ≡ x)))
        at_start x ne (inl there) = elim (spares.kept x (ground arith)) [
          | inl still ↦ inl still
          | inr table ↦ inr (inl table)
        ]
        at_start x ne (inr (inl (d, d_ok, ht, e))) =
            let eq = taken-dir_entry ke pgdir mem xs s space.valid d d_ok in
            let (ht', e') = spares.tables d d_ok (ap is_present eq ∙ ht) in
            inr (inl (d, d_ok, ht', e' ∙ ap (λ w. p2v (pte_addr w)) eq ∙ e))
        at_start x ne (inr (inr (q, h1, h2, e))) =
            inr (inr (q, h1, h2, ap (λ w. p2v (pte_addr w)) (same q (omega arith)) ∙ e))

    pub freed-Restored : Restored ke pgdir xs0 s0 lo hi (mem ∷ xs2) (push_page mem s2)
    freed-Restored = record {
      space = freed-Space;
      outside = λ q h out.
          freed-entry q h
          ∙ back-outside ke pgdir xs0 s0 lo c hi xs1 s1 xs2 s2 c_ok (omega arith) absent trail sh q
              h out;
      gone = λ q h h1 h2.
          ap is_present (freed-entry q h)
          ∙ back-gone ke pgdir xs0 s0 lo c hi xs1 s1 xs2 s2 c_ok (omega arith) absent trail sh q h
              h1 h2;
      kept = freed-kept;
      foreign = λ p f.
          let f1 = so_far.foreign p f in
          push-Foreign ke pgdir xs2 s2 sh.space.valid mem held-Foreign p
            (back-Foreign ke pgdir xs0 s0 lo c hi xs1 s1 xs2 s2 c_ok (omega arith) absent trail sh p
              f (later-Foreign p f1))
            (not_mem p f1);
      words = λ p i f h.
          let f1 = so_far.foreign p f in
          push-word ke pgdir xs2 s2 sh.space.valid mem held-Foreign p i f.page (not_mem p f1) h
          ∙ back-word ke pgdir xs0 s0 lo c hi xs1 s1 xs2 s2 c_ok (omega arith) absent trail sh p i f
              (later-Foreign p f1) h
          ∙ later-word p i f1 h
          ∙ so_far.words p i f h;
    }
