-- ===== src/Vm/Take.antt =====
-- vm.c: a page that kalloc returns is cleared: it is then neither free nor a part of the page table.
use schoolstuff.Base.{
  ℕ, ◌+◌, ◌*◌, ◌/◌, ◌%◌, ◌^◌, ◌<◌, ◌≡◌, ◌≢◌, true, false, ◌&&◌, List, ◌∷◌, arith, ltb, leb, inl,
  inr, Bool-cases, ◌∙◌, sym, ap,
}
use schoolstuff.Kalloc.{Kmem, page_size}
use schoolstuff.Kalloc.FreeList.{has, IsPage, Chain}
use schoolstuff.Vm.{is_present, pte_addr, p2v, clear_page}
use schoolstuff.Vm.Tables.{
  dir_entry, table_at, entry, entry-there, entry-none, Valid, Foreign, Chain-frame, not_in,
}

module _ (ke pgdir mem : ℕ) (xs : List ℕ) (s : Kmem) (valid : Valid ke pgdir (mem ∷ xs) s) where
  abbrev pub taken : Kmem
  taken = clear_page mem (record s { freelist = s.word mem })

  taken_page : IsPage ke mem
  taken_page = valid.free.1

  pub taken-zero : (i : ℕ) → i < 1024 → taken.word (mem + 4 * i) ≡ 0
  taken-zero i h =
      let inside : (leb mem (mem + 4 * i) && ltb (mem + 4 * i) (mem + page_size)) ≡ true =
        ground arith in
      rw inside

  pub taken-word :
      (p i : ℕ) → IsPage ke p → p ≢ mem → i < 1024 → taken.word (p + 4 * i) ≡ s.word (p + 4 * i)
  taken-word p i g ne h =
      let ap_ : p % page_size ≡ 0 = g.aligned in
      let am : mem % page_size ≡ 0 = taken_page.aligned in
      let outside : (leb mem (p + 4 * i) && ltb (p + 4 * i) (mem + page_size)) ≡ false =
        ground arith in
      rw outside

  not_mem : (p : ℕ) → has p (mem ∷ xs) ≡ false → (p ≢ mem) × (has p xs ≡ false)
  not_mem p out = (ground arith, ground arith)

  pub taken-dir_entry : (c : ℕ) → c < 1024 → dir_entry pgdir taken c ≡ dir_entry pgdir s c
  taken-dir_entry c h = taken-word pgdir c valid.dir (not_mem pgdir valid.dir_out).0 h

  pub taken-Valid : Valid ke pgdir xs taken
  taken-Valid = record {
    dir = valid.dir;
    free = Chain-frame ke s.word taken.word (s.word mem) xs chain_word (rest_chain valid.free);
    dir_out = (not_mem pgdir valid.dir_out).1;
    table = λ c h ht.
        let same = taken-dir_entry c h in
        let (g, out, ne) = valid.table c h (ap is_present (sym same) ∙ ht) in
        rw same (g, (not_mem _ out).1, ne);
    inj = λ c c' h h' ht ht' ne.
        let same = taken-dir_entry c h in
        let same' = taken-dir_entry c' h' in
        rw (same, same')
          (valid.inj c c' h h' (ap is_present (sym same) ∙ ht) (ap is_present (sym same') ∙ ht')
            ne);
  }
    where
      chain_word : (x : ℕ) → IsPage ke x → has x xs ≡ true → taken.word x ≡ s.word x
      chain_word x gx h =
          let x0 : x + 4 * 0 ≡ x = omega arith in
          let ne : x ≢ mem = λ e. not_in ke x mem xs h valid.free.2 (sym e) in
          sym (ap taken.word x0) ∙ taken-word x 0 gx ne (omega arith) ∙ ap s.word x0

      rest_chain : Chain ke s.word s.freelist (mem ∷ xs) → Chain ke s.word (s.word mem) xs
      rest_chain c = c.3

  pub taken-Foreign : (p : ℕ) → Foreign ke pgdir (mem ∷ xs) s p → Foreign ke pgdir xs taken p
  taken-Foreign p f = record {
    page = f.page;
    out = (not_mem p f.out).1;
    no_dir = f.no_dir;
    no_table = λ c h ht.
        let same = taken-dir_entry c h in rw same (f.no_table c h (ap is_present (sym same) ∙ ht));
  }

  pub mem-Foreign : Foreign ke pgdir xs taken mem
  mem-Foreign = record {
    page = taken_page;
    out = valid.free.2;
    no_dir = λ e. (not_mem pgdir valid.dir_out).0 (sym e);
    no_table = λ c h ht.
        let same = taken-dir_entry c h in
        rw same (λ e. (not_mem _ (valid.table c h (ap is_present (sym same) ∙ ht)).1).0 (sym e));
  }

  pub taken-entry : (q : ℕ) → q < 2 ^ 20 → entry pgdir taken q ≡ entry pgdir s q
  taken-entry q h =
      let same = taken-dir_entry (q / 1024) (omega arith) in
      elim (Bool-cases (is_present (dir_entry pgdir s (q / 1024)))) [
        | inl there ↦
            let (g, out, ne) = valid.table (q / 1024) (omega arith) there in
            entry-there pgdir taken q (ap is_present same ∙ there)
            ∙ ap (λ w. taken.word (p2v (pte_addr w) + 4 * (q % 1024))) same
            ∙ taken-word (table_at pgdir s (q / 1024)) (q % 1024) g (not_mem _ out).0 (omega arith)
            ∙ sym (entry-there pgdir s q there)
        | inr absent ↦
            entry-none pgdir taken q (ap is_present same ∙ absent)
            ∙ sym (entry-none pgdir s q absent)
      ]
