-- ===== src/Vm/Walk.antt =====
-- vm.c: what `walkpgdir` returns, and the page table that it makes.
use native.Mathlib.Decide.{ℕ_discrete}
use schoolstuff.Base.{
  ℕ, ◌+◌, ◌*◌, ◌/◌, ◌%◌, ◌^◌, ◌≤◌, ◌<◌, ◌≡◌, ◌≢◌, ◌⊎◌, refl, true, false, ◌&&◌, List, [], ◌∷◌,
  arith, ltb, leb, ◌==◌, sub32, inl, inr, Bool-cases, ne→==, ==_refl, ◌∙◌, sym, ap,
}
use schoolstuff.Kalloc.{Kmem, page_size, kernel_base, phys_stop, kalloc}
use schoolstuff.Kalloc.FreeList.{has, IsPage, Chain, Free, kalloc-nil}
use schoolstuff.Vm.{
  pdx, ptx, pte_wu, is_present, pte_addr, pte_of, p2v, v2p, store, clear_page, new_table, walkpgdir,
}
use schoolstuff.Vm.Tables.{
  dir_entry, HasTable, table_at, entry, entry-there, entry-none, Valid, pages_apart, Chain-frame,
  not_in, Spares, nothing-Spares,
}

-- A page out of the allocator is what its entry refers to.
pub p2v-v2p :
    (ke pg perm : ℕ) → IsPage ke pg → perm < 4096 → p2v (pte_addr (pte_of (v2p pg) perm)) ≡ pg
p2v-v2p ke pg perm g h =
    let al : pg % page_size ≡ 0 = g.aligned in
    let phys : sub32 pg kernel_base < phys_stop = g.physical in
    let word : pg < 2 ^ 32 = g.word_sized in omega arith

module _ (ke pgdir pg : ℕ) (xs : List ℕ) (s : Kmem) (valid : Valid ke pgdir (pg ∷ xs) s) (d : ℕ)
    (d_ok : d < 1024) (absent : is_present (dir_entry pgdir s d) ≡ false) where
  abbrev pub grown : Kmem
  grown =
      store (pgdir + 4 * d) (pte_of (v2p pg) pte_wu)
        (clear_page pg (record s { freelist = s.word pg }))

  is_page : IsPage ke pg
  is_page = valid.free.1

  not_dir : pgdir ≢ pg
  not_dir = let out = valid.dir_out in ground arith

  grown-zero : (i : ℕ) → i < 1024 → grown.word (pg + 4 * i) ≡ 0
  grown-zero i h =
      let inside : (leb pg (pg + 4 * i) && ltb (pg + 4 * i) (pg + page_size)) ≡ true =
        ground arith in
      rw (
        ne→== (pgdir + 4 * d) (pg + 4 * i) (pages_apart ke d i valid.dir is_page not_dir d_ok h),
        inside,
      )

  grown-word :
      (p i : ℕ)
      → IsPage ke p
      → i < 1024
      → p ≢ pg
      → p + 4 * i ≢ pgdir + 4 * d
      → grown.word (p + 4 * i) ≡ s.word (p + 4 * i)
  grown-word p i g h ne ne' =
      let ap_ : p % page_size ≡ 0 = g.aligned in
      let aq : pg % page_size ≡ 0 = is_page.aligned in
      let outside : (leb pg (p + 4 * i) && ltb (p + 4 * i) (pg + page_size)) ≡ false =
        ground arith in
      rw (ne→== (pgdir + 4 * d) (p + 4 * i) (λ e. ne' (sym e)), outside)

  grown-dir_self : dir_entry pgdir grown d ≡ pte_of (v2p pg) pte_wu
  grown-dir_self = rw (==_refl (pgdir + 4 * d))

  grown-dir : (c : ℕ) → c < 1024 → c ≢ d → dir_entry pgdir grown c ≡ dir_entry pgdir s c
  grown-dir c h ne = grown-word pgdir c valid.dir h not_dir (omega arith)

  pub grown-table : HasTable pgdir grown d × (table_at pgdir grown d ≡ pg)
  grown-table =
      let al : pg % page_size ≡ 0 = is_page.aligned in
      let phys : sub32 pg kernel_base < phys_stop = is_page.physical in
      let odd : is_present (pte_of (v2p pg) pte_wu) ≡ true = ground arith in
      (
        ap is_present grown-dir_self ∙ odd,
        ap (λ w. p2v (pte_addr w)) grown-dir_self ∙ p2v-v2p ke pg pte_wu is_page (omega arith),
      )

  -- The page table of an entry of the new directory.
  TableOf : ℕ → Type 0
  TableOf c =
      ((c ≡ d) × (table_at pgdir grown c ≡ pg))
      ⊎ ((c ≢ d) × HasTable pgdir s c × (table_at pgdir grown c ≡ table_at pgdir s c))

  table_of : (c : ℕ) → c < 1024 → HasTable pgdir grown c → TableOf c
  unfolding TableOf
  table_of c h ht = elim (ℕ_discrete c d) [
    | yes e ↦ inl (e, ap (table_at pgdir grown) e ∙ grown-table.1)
    | no ne ↦
        let same = grown-dir c h ne in
        inr (ne, ap is_present (sym same) ∙ ht, ap (λ w. p2v (pte_addr w)) same)
  ]

  old_table :
      (c : ℕ)
      → c < 1024
      → HasTable pgdir s c
      → (table_at pgdir s c ≢ pg)
        × (has (table_at pgdir s c) xs ≡ false)
        × (table_at pgdir s c ≢ pgdir)
  old_table c h ht = let (g, out, ne) = valid.table c h ht in (ground arith, ground arith, ne)

  pub grown-Valid : Valid ke pgdir xs grown
  unfolding TableOf
  grown-Valid = record {
    dir = valid.dir;
    free = Chain-frame ke s.word grown.word (s.word pg) xs chain_word (rest_chain valid.free);
    dir_out = let out = valid.dir_out in ground arith;
    table = λ c h ht. elim (table_of c h ht) [
      | inl (e, t) ↦ rw t (is_page, valid.free.2, λ z. not_dir (sym z))
      | inr (ne, old, t) ↦
          let (apart, out, ne') = old_table c h old in rw t ((valid.table c h old).0, out, ne')
    ];
    inj = λ c c' h h' ht ht' ne. elim (table_of c h ht) [
      | inl (e, t) ↦ elim (table_of c' h' ht') [
        | inl (e', t') ↦ absurd (ne (e ∙ sym e'))
        | inr (ne', old', t') ↦ λ z. (old_table c' h' old').0 (sym t' ∙ sym z ∙ t)
      ]
      | inr (ne', old, t) ↦ elim (table_of c' h' ht') [
        | inl (e', t') ↦ λ z. (old_table c h old).0 (sym t ∙ z ∙ t')
        | inr (ne'', old', t') ↦ λ z. valid.inj c c' h h' old old' ne (sym t ∙ z ∙ t')
      ]
    ];
  }
    where
      chain_word : (x : ℕ) → IsPage ke x → has x xs ≡ true → grown.word x ≡ s.word x
      chain_word x gx h =
          let x0 : x + 4 * 0 ≡ x = omega arith in
          let out = valid.free.2 in
          let dir_out = valid.dir_out in
          let ne : x ≢ pg = λ e. not_in ke x pg xs h out (sym e) in
          let dir_apart : has pgdir xs ≡ false = ground arith in
          let ne' : x ≢ pgdir = λ e. not_in ke x pgdir xs h dir_apart (sym e) in
          sym (ap grown.word x0)
          ∙ grown-word x 0 gx (omega arith) ne
              (pages_apart ke 0 d gx valid.dir ne' (omega arith) d_ok)
          ∙ ap s.word x0

      rest_chain : Chain ke s.word s.freelist (pg ∷ xs) → Chain ke s.word (s.word pg) xs
      rest_chain c = c.3

  pub grown-Spares : Spares ke pgdir (pg ∷ xs) s xs grown
  unfolding TableOf
  grown-Spares = record {
    tables = λ c h ht.
        let ne : c ≢ d = λ e.
          let clash : true ≡ false =
            sym ht ∙ ap (λ k. is_present (dir_entry pgdir s k)) e ∙ absent in
          ground arith in
        let same = grown-dir c h ne in (ap is_present same ∙ ht, ap (λ w. p2v (pte_addr w)) same);
    fewer = λ x h. ground arith;
    kept = λ x h. elim (ℕ_discrete x pg) [
      | yes e ↦ inr (d, d_ok, grown-table.0, grown-table.1 ∙ sym e)
      | no ne ↦ inl (ground arith)
    ];
    foreign = λ p f.
        let out = f.out in
        record {
          page = f.page;
          out = ground arith;
          no_dir = f.no_dir;
          no_table = λ c h ht. elim (table_of c h ht) [
            | inl (e, t) ↦ rw t (ground arith)
            | inr (ne, old, t) ↦ rw t (f.no_table c h old)
          ];
        };
    words = λ p i f h.
        let out = f.out in
        grown-word p i f.page h (ground arith)
          (pages_apart ke i d f.page valid.dir f.no_dir h d_ok);
  }

  pub grown-entry : (q : ℕ) → q < 2 ^ 20 → entry pgdir grown q ≡ entry pgdir s q
  unfolding TableOf
  grown-entry q h = elim (Bool-cases (is_present (dir_entry pgdir grown (q / 1024)))) [
    | inl ht ↦ entry-there pgdir grown q ht ∙ elim (table_of (q / 1024) (omega arith) ht) [
      | inl (e, t) ↦
          ap (λ p. grown.word (p + 4 * (q % 1024))) t
          ∙ grown-zero (q % 1024) (omega arith)
          ∙ sym (entry-none pgdir s q (ap (λ c. is_present (dir_entry pgdir s c)) e ∙ absent))
      | inr (ne, old, t) ↦
          let (g, out, ne') = valid.table (q / 1024) (omega arith) old in
          ap (λ p. grown.word (p + 4 * (q % 1024))) t
          ∙ grown-word (table_at pgdir s (q / 1024)) (q % 1024) g (omega arith)
              (old_table (q / 1024) (omega arith) old).0
              (pages_apart ke (q % 1024) d g valid.dir ne' (omega arith) d_ok)
          ∙ sym (entry-there pgdir s q old)
    ]
    | inr none_there ↦
        let ne : q / 1024 ≢ d = λ e.
          let clash : true ≡ false =
            sym grown-table.0
            ∙ ap (λ c. is_present (dir_entry pgdir grown c)) (sym e)
            ∙ none_there in
          ground arith in
        let same = grown-dir (q / 1024) (omega arith) ne in
        entry-none pgdir grown q none_there
        ∙ sym (entry-none pgdir s q (ap is_present (sym same) ∙ none_there))
  ]

-- What walkpgdir with `alloc` comes to: a null pointer with no page left; or an entry's address, with the
-- entries of all pages as they were.
abbrev pub Walked : ℕ → ℕ → ℕ → List ℕ → Kmem → ℕ × Kmem → Type 0
Walked ke pgdir va xs s (pte, s') =
    ((pte ≡ 0) × (xs ≡ []) × (s' ≡ s))
    ⊎ ((xs' : List ℕ) × (pte ≢ 0)
        × Valid ke pgdir xs' s'
        × HasTable pgdir s' (pdx va)
        × (pte ≡ table_at pgdir s' (pdx va) + 4 * ptx va)
        × Spares ke pgdir xs s xs' s'
        × ((q : ℕ) → q < 2 ^ 20 → entry pgdir s' q ≡ entry pgdir s q))

pub page_positive : {ke p : ℕ} → IsPage ke p → 1 ≤ p
page_positive g = omega arith

pub kalloc-cons :
    (ke : ℕ) (s : Kmem) (x : ℕ) (xs : List ℕ)
    → Free ke s (x ∷ xs)
    → kalloc s ≡ (x, record s { freelist = s.word x })
unfolding kalloc
kalloc-cons ke s x xs c =
    let pos : 1 ≤ x = page_positive c.1 in
    let nz : s.freelist ≢ 0 = λ e. absurd (omega (arith, pos, c.0)) in
    let test : (s.freelist == 0) ≡ false = ground arith in
    rw test (ap (λ p. (p, record s { freelist = s.word p })) c.0)

new_table-Walked :
    (ke pgdir va : ℕ) (xs : List ℕ) (s : Kmem)
    → Valid ke pgdir xs s
    → is_present (dir_entry pgdir s (pdx va)) ≡ false
    → Walked ke pgdir va xs s (new_table (pgdir + 4 * pdx va) va (kalloc s))
new_table-Walked ke pgdir va [] s valid absent =
    rw (kalloc-nil ke s valid.free) (inl (refl, refl, refl))
new_table-Walked ke pgdir va (pg ∷ xs) s valid absent =
    let (there, t) = grown-table ke pgdir pg xs s valid (pdx va) (omega arith) absent in
    let pos : 1 ≤ pg = page_positive valid.free.1 in
    rw (kalloc-cons ke s pg xs valid.free, ne→== pg 0 (omega arith))
      (inr (
        xs,
        omega arith,
        grown-Valid ke pgdir pg xs s valid (pdx va) (omega arith) absent,
        there,
        ap (λ p. p + 4 * ptx va) (sym t),
        grown-Spares ke pgdir pg xs s valid (pdx va) (omega arith) absent,
        grown-entry ke pgdir pg xs s valid (pdx va) (omega arith) absent,
      ))

pub walkpgdir-Walked :
    (ke pgdir va : ℕ) (xs : List ℕ) (s : Kmem)
    → Valid ke pgdir xs s
    → Walked ke pgdir va xs s (walkpgdir pgdir va true s)
unfolding walkpgdir
walkpgdir-Walked ke pgdir va xs s valid =
    elim (Bool-cases (is_present (s.word (pgdir + 4 * pdx va)))) [
      | inl there ↦
          let (g, out, ne) = valid.table (pdx va) (omega arith) there in
          let pos : 1 ≤ table_at pgdir s (pdx va) = page_positive g in
          rw there (
            inr (
              xs,
              omega (arith, pos),
              valid,
              there,
              refl,
              nothing-Spares ke pgdir xs s,
              λ q h. refl,
            ))
      | inr absent ↦ rw absent (new_table-Walked ke pgdir va xs s valid absent)
    ]
