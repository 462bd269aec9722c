-- ===== src/Vm/Users.antt =====
-- vm.c: the pages of a process, below KERNBASE: each is mapped once, and is neither free nor a page table.
use mathlib.Core.Path.{subst}
use schoolstuff.Base.{
  ℕ, ◌+◌, ◌*◌, ◌/◌, ◌%◌, ◌^◌, ◌<◌, ◌≡◌, ◌≢◌, true, false, ◌&&◌, List, ◌∷◌, arith, ltb, leb, inl,
  inr, Bool-cases, ne→==, ◌∙◌, sym, ap,
}
use schoolstuff.Kalloc.{Kmem, page_size, push_page}
use schoolstuff.Kalloc.FreeList.{has, IsPage, push_page-Free}
use schoolstuff.Vm.{is_present, pte_addr, p2v}
use schoolstuff.Vm.Tables.{
  dir_entry, HasTable, table_at, entry, entry-there, entry-none, Valid, Foreign,
}

-- The pages below KERNBASE, and the page that number `q` is mapped to.
abbrev pub user_pages : ℕ
user_pages = 2 ^ 19

abbrev pub frame_at : ℕ → Kmem → ℕ → ℕ
frame_at pgdir s q = p2v (pte_addr (entry pgdir s q))

abbrev pub IsMapped : ℕ → Kmem → ℕ → Type 0
IsMapped pgdir s q = is_present (entry pgdir s q) ≡ true

pub record Space (ke pgdir : ℕ) (xs : List ℕ) (s : Kmem) : Type 0 where
  pub valid : Valid ke pgdir xs s
  pub frame :
      (q : ℕ) → q < user_pages → IsMapped pgdir s q → Foreign ke pgdir xs s (frame_at pgdir s q)
  pub frame_inj :
      (q r : ℕ)
      → q < user_pages
      → r < user_pages
      → IsMapped pgdir s q
      → IsMapped pgdir s r
      → q ≢ r
      → frame_at pgdir s q ≢ frame_at pgdir s r

pub mapped-table : (pgdir : ℕ) (s : Kmem) (q : ℕ) → IsMapped pgdir s q → HasTable pgdir s (q / 1024)
mapped-table pgdir s q m = elim (Bool-cases (is_present (dir_entry pgdir s (q / 1024)))) [
  | inl there ↦ there
  | inr absent ↦
      let clash : true ≡ false = sym m ∙ ap is_present (entry-none pgdir s q absent) in
      absurd (ground arith)
]

pub has-cons : (x f : ℕ) (xs : List ℕ) → x ≢ f → has x xs ≡ false → has x (f ∷ xs) ≡ false
has-cons x f xs ne out = rw (ne→== x f ne) out

-- A foreign page is freed.
module _ (ke pgdir : ℕ) (xs : List ℕ) (s : Kmem) (valid : Valid ke pgdir xs s) (f : ℕ)
    (ff : Foreign ke pgdir xs s f) where
  pub push-word :
      (p i : ℕ)
      → IsPage ke p
      → p ≢ f
      → i < 1024
      → (push_page f s).word (p + 4 * i) ≡ s.word (p + 4 * i)
  push-word p i g ne h =
      let ap_ : p % page_size ≡ 0 = g.aligned in
      let af : f % page_size ≡ 0 = ff.page.aligned in
      let outside : (leb f (p + 4 * i) && ltb (p + 4 * i) (f + page_size)) ≡ false = ground arith in
      rw (ne→== f (p + 4 * i) (omega arith), outside)

  pub push-dir_entry : (c : ℕ) → c < 1024 → dir_entry pgdir (push_page f s) c ≡ dir_entry pgdir s c
  push-dir_entry c h = push-word pgdir c valid.dir (λ e. ff.no_dir (sym e)) h

  pub push-Valid : Valid ke pgdir (f ∷ xs) (push_page f s)
  push-Valid = record {
    dir = valid.dir;
    free = push_page-Free ke f s xs valid.free ff.page ff.out;
    dir_out = has-cons pgdir f xs (λ e. ff.no_dir (sym e)) valid.dir_out;
    table = λ c h ht.
        let same = push-dir_entry c h in
        let old = ap is_present (sym same) ∙ ht in
        let (g, out, ne) = valid.table c h old in
        let out' = has-cons (table_at pgdir s c) f xs (λ e. ff.no_table c h old (sym e)) out in
        subst (λ t. IsPage ke t × (has t (f ∷ xs) ≡ false) × (t ≢ pgdir))
          (ap (λ w. p2v (pte_addr w)) (sym same)) (g, out', ne);
    inj = λ c c' h h' ht ht' ne.
        let same = push-dir_entry c h in
        let same' = push-dir_entry c' h' in
        rw (same, same')
          (valid.inj c c' h h' (ap is_present (sym same) ∙ ht) (ap is_present (sym same') ∙ ht')
            ne);
  }

  pub push-entry : (q : ℕ) → q < 2 ^ 20 → entry pgdir (push_page f s) q ≡ entry pgdir s q
  push-entry q h =
      let same = push-dir_entry (q / 1024) (omega arith) in
      elim (Bool-cases (is_present (dir_entry pgdir s (q / 1024)))) [
        | inl there ↦
            let (g, out, ne) = valid.table (q / 1024) (omega arith) there in
            entry-there pgdir (push_page f s) q (ap is_present same ∙ there)
            ∙ ap (λ w. (push_page f s).word (p2v (pte_addr w) + 4 * (q % 1024))) same
            ∙ push-word (table_at pgdir s (q / 1024)) (q % 1024) g
                (λ e. ff.no_table (q / 1024) (omega arith) there (sym e)) (omega arith)
            ∙ sym (entry-there pgdir s q there)
        | inr absent ↦
            entry-none pgdir (push_page f s) q (ap is_present same ∙ absent)
            ∙ sym (entry-none pgdir s q absent)
      ]

  pub push-Foreign :
      (p : ℕ) → Foreign ke pgdir xs s p → p ≢ f → Foreign ke pgdir (f ∷ xs) (push_page f s) p
  push-Foreign p fp ne = record {
    page = fp.page;
    out = has-cons p f xs ne fp.out;
    no_dir = fp.no_dir;
    no_table = λ c h ht.
        let same = push-dir_entry c h in rw same (fp.no_table c h (ap is_present (sym same) ∙ ht));
  }

  -- A foreign page that is mapped nowhere is freed.
  pub push-Space :
      Space ke pgdir xs s
      → ((q : ℕ) → q < user_pages → IsMapped pgdir s q → frame_at pgdir s q ≢ f)
      → Space ke pgdir (f ∷ xs) (push_page f s)
  push-Space space apart = record {
    valid = push-Valid;
    frame = λ q h m.
        let same = push-entry q (omega arith) in
        let before = ap is_present (sym same) ∙ m in
        subst (λ e. Foreign ke pgdir (f ∷ xs) (push_page f s) (p2v (pte_addr e))) (sym same)
          (push-Foreign (frame_at pgdir s q) (space.frame q h before) (apart q h before));
    frame_inj = λ q r h h' m m' ne e.
        let same = push-entry q (omega arith) in
        let same' = push-entry r (omega arith) in
        space.frame_inj q r h h' (ap is_present (sym same) ∙ m) (ap is_present (sym same') ∙ m') ne
          (ap (λ w. p2v (pte_addr w)) (sym same) ∙ e ∙ ap (λ w. p2v (pte_addr w)) same');
  }
