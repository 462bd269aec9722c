-- ===== src/Vm/Free.antt =====
-- vm.c: the loop of freevm, which frees the page tables.
use mathlib.Core.Path.{subst}
use native.Mathlib.Decide.{ℕ_discrete}
use schoolstuff.Base.{
  ℕ, zero, suc, ◌+◌, ◌*◌, ◌%◌, ◌≤◌, ◌<◌, ◌≡◌, ◌≢◌, refl, true, false, ◌&&◌, List, ◌∷◌, arith, ltb,
  leb, inl, inr, Bool-cases, ne→==, ◌∙◌, sym, ap,
}
use schoolstuff.Base.Outcome.{ok}
use schoolstuff.Kalloc.{Kmem, page_size, push_page}
use schoolstuff.Kalloc.FreeList.{has, IsPage, Free, push_page-Free, kfree-ok}
use schoolstuff.Vm.{p2v, pte_addr, is_present, free_tables}
use schoolstuff.Vm.Tables.{dir_entry, HasTable, table_at, Valid}
use schoolstuff.Vm.Users.{has-cons}

pub push_apart :
    (ke f p k : ℕ) (s : Kmem)
    → IsPage ke f
    → IsPage ke p
    → p ≢ f
    → k < 1024
    → (push_page f s).word (p + 4 * k) ≡ s.word (p + 4 * k)
push_apart ke f p k s gf gp ne h =
    let ap_ : p % page_size ≡ 0 = gp.aligned in
    let af : f % page_size ≡ 0 = gf.aligned in
    let outside : (leb f (p + 4 * k) && ltb (p + 4 * k) (f + page_size)) ≡ false = ground arith in
    rw (ne→== f (p + 4 * k) (omega arith), outside)

module _ (ke pgdir : ℕ) where
  -- The page tables from directory entry `i` on are pages of their own, and none is free.
  pub record Rest (i : ℕ) (xs : List ℕ) (s : Kmem) : Type 0 where
    dir : IsPage ke pgdir
    free : Free ke s xs
    dir_out : has pgdir xs ≡ false
    table :
        (d : ℕ)
        → i ≤ d
        → d < 1024
        → HasTable pgdir s d
        → IsPage ke (table_at pgdir s d)
          × (has (table_at pgdir s d) xs ≡ false)
          × (table_at pgdir s d ≢ pgdir)
    inj :
        (d e : ℕ)
        → i ≤ d
        → i ≤ e
        → d < 1024
        → e < 1024
        → HasTable pgdir s d
        → HasTable pgdir s e
        → d ≢ e
        → table_at pgdir s d ≢ table_at pgdir s e

  pub Valid-Rest : {xs : List ℕ} {s : Kmem} → Valid ke pgdir xs s → Rest 0 xs s
  Valid-Rest valid = record {
    dir = valid.dir;
    free = valid.free;
    dir_out = valid.dir_out;
    table = λ d h0 h ht. valid.table d h ht;
    inj = λ d e h0 h0' h h' ht ht' ne. valid.inj d e h h' ht ht' ne;
  }

  -- The page tables from entry `i` on have been freed, and no other page.
  pub record TablesFreed (i : ℕ) (xs : List ℕ) (s : Kmem) (xs' : List ℕ) (s' : Kmem) : Type 0 where
    pub free : Free ke s' xs'
    pub kept : (x : ℕ) → has x xs ≡ true → has x xs' ≡ true
    pub freed :
        (d : ℕ) → i ≤ d → d < 1024 → HasTable pgdir s d → has (table_at pgdir s d) xs' ≡ true
    pub others :
        (p : ℕ)
        → IsPage ke p
        → has p xs ≡ false
        → ((d : ℕ) → i ≤ d → d < 1024 → HasTable pgdir s d → p ≢ table_at pgdir s d)
        → (has p xs' ≡ false) × ((k : ℕ) → k < 1024 → s'.word (p + 4 * k) ≡ s.word (p + 4 * k))

  -- The loop passes an entry that is not present.
  pass-Rest : {i : ℕ} {xs : List ℕ} {s : Kmem} → Rest i xs s → Rest (i + 1) xs s
  pass-Rest r = record {
    dir = r.dir;
    free = r.free;
    dir_out = r.dir_out;
    table = λ d h0 h ht. r.table d (omega arith) h ht;
    inj = λ d e h0 h0' h h' ht ht' ne. r.inj d e (omega arith) (omega arith) h h' ht ht' ne;
  }

  pass-TablesFreed :
      {i : ℕ} {xs xs' : List ℕ} {s s' : Kmem}
      → is_present (dir_entry pgdir s i) ≡ false
      → TablesFreed (i + 1) xs s xs' s'
      → TablesFreed i xs s xs' s'
  pass-TablesFreed {i} {s = s} absent t = record {
    free = t.free;
    kept = t.kept;
    freed = λ d h0 h ht. t.freed d (past d h0 ht) h ht;
    others = λ p g out apart. t.others p g out (λ d h0 h ht. apart d (omega arith) h ht);
  }
    where
      past : (d : ℕ) → i ≤ d → HasTable pgdir s d → i + 1 ≤ d
      past d h0 ht = elim (ℕ_discrete i d) [
        | yes e ↦
            let clash : true ≡ false =
              sym ht ∙ ap (λ k. is_present (dir_entry pgdir s k)) (sym e) ∙ absent in
            absurd (ground arith)
        | no ne ↦ omega arith
      ]

  -- The loop frees the page table of an entry that is.
  module _ (i : ℕ) (i_ok : i < 1024) (xs : List ℕ) (s : Kmem) (rest : Rest i xs s)
      (there : HasTable pgdir s i) where
    abbrev table_i : ℕ
    table_i = table_at pgdir s i

    abbrev pushed : Kmem
    pushed = push_page table_i s

    i_page : IsPage ke table_i
    i_page = (rest.table i (omega arith) i_ok there).0

    pushed-word :
        (p k : ℕ)
        → IsPage ke p
        → p ≢ table_i
        → k < 1024
        → pushed.word (p + 4 * k) ≡ s.word (p + 4 * k)
    pushed-word p k g ne h = push_apart ke table_i p k s i_page g ne h

    pushed-dir : (d : ℕ) → d < 1024 → dir_entry pgdir pushed d ≡ dir_entry pgdir s d
    pushed-dir d h =
        pushed-word pgdir d rest.dir (λ e. (rest.table i (omega arith) i_ok there).2 (sym e)) h

    pushed_table :
        (d : ℕ)
        → d < 1024
        → HasTable pgdir pushed d
        → HasTable pgdir s d × (table_at pgdir pushed d ≡ table_at pgdir s d)
    pushed_table d h ht =
        let same = pushed-dir d h in
        (ap is_present (sym same) ∙ ht, ap (λ w. p2v (pte_addr w)) same)

    pushed-Rest : Rest (i + 1) (table_i ∷ xs) pushed
    pushed-Rest = record {
      dir = rest.dir;
      free =
          push_page-Free ke table_i s xs rest.free i_page (rest.table i (omega arith) i_ok there).1;
      dir_out =
          has-cons pgdir table_i xs (λ e. (rest.table i (omega arith) i_ok there).2 (sym e))
            rest.dir_out;
      table = λ d h0 h ht.
          let (old, e) = pushed_table d h ht in
          let (g, out, ne) = rest.table d (omega arith) h old in
          let apart = rest.inj d i (omega arith) (omega arith) h i_ok old there (omega arith) in
          subst (λ t. IsPage ke t × (has t (table_i ∷ xs) ≡ false) × (t ≢ pgdir)) (sym e)
            (g, has-cons (table_at pgdir s d) table_i xs apart out, ne);
      inj = λ d c h0 h0' h h' ht ht' ne z.
          let (old, e) = pushed_table d h ht in
          let (old', e') = pushed_table c h' ht' in
          rest.inj d c (omega arith) (omega arith) h h' old old' ne (sym e ∙ z ∙ e');
    }

    pushed-TablesFreed :
        (xs' : List ℕ) (s' : Kmem)
        → TablesFreed (i + 1) (table_i ∷ xs) pushed xs' s'
        → TablesFreed i xs s xs' s'
    pushed-TablesFreed xs' s' t = record {
      free = t.free;
      kept = λ x h. t.kept x (ground arith);
      freed = λ d h0 h ht. elim (ℕ_discrete i d) [
        | yes e ↦
            let first : has table_i (table_i ∷ xs) ≡ true = ground arith in
            ap (λ k. has (table_at pgdir s k) xs') (sym e) ∙ t.kept table_i first
        | no ne ↦
            let same = pushed-dir d h in
            ap (λ w. has (p2v (pte_addr w)) xs') (sym same)
            ∙ t.freed d (omega arith) h (ap is_present same ∙ ht)
      ];
      others = λ p g out apart.
          let ne = apart i (omega arith) i_ok there in
          let (out', same) = t.others p g (has-cons p table_i xs ne out) (λ d h0 h ht.
            let (old, e) = pushed_table d h ht in λ z. apart d (omega arith) h old (z ∙ e)) in
          (out', λ k h. same k h ∙ pushed-word p k g ne h);
    }

  pub free_tables-TablesFreed :
      (n i : ℕ) (xs : List ℕ) (s : Kmem)
      → i + n ≡ 1024
      → Rest i xs s
      → (xs' : List ℕ) × (s' : Kmem) × (free_tables ke n i pgdir s ≡ ok s')
        × TablesFreed i xs s xs' s'
  unfolding free_tables
  free_tables-TablesFreed zero i xs s count rest = (
    xs,
    s,
    refl,
    record {
      free = rest.free;
      kept = λ x h. h;
      freed = λ d h0 h. absurd (omega arith);
      others = λ p g out apart. (out, λ k h. refl);
    },
  )
  free_tables-TablesFreed (suc n) i xs s count rest =
      elim (Bool-cases (is_present (dir_entry pgdir s i))) [
        | inl there ↦
            let next = pushed-Rest i (omega arith) xs s rest there in
            let (xs', s', run, t) =
              free_tables-TablesFreed n (i + 1) (table_at pgdir s i ∷ xs)
                (push_page (table_at pgdir s i) s) (omega arith) next in
            (
              xs',
              s',
              rw
                  (
                    there,
                    kfree-ok ke (table_at pgdir s i) s
                        (rest.table i (omega arith) (omega arith) there).0,
                  )
                  run,
              pushed-TablesFreed i (omega arith) xs s rest there xs' s' t,
            )
        | inr absent ↦
            let (xs', s', run, t) =
              free_tables-TablesFreed n (i + 1) xs s (omega arith) (pass-Rest rest) in
            (xs', s', rw absent run, pass-TablesFreed absent t)
      ]
