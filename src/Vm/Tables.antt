-- ===== src/Vm/Tables.antt =====
-- vm.c: a page directory with its page tables, each a page of its own that is not free.
use native.Mathlib.Decide.{ℕ_discrete}
use schoolstuff.Base.{
  ℕ, ◌+◌, ◌*◌, ◌/◌, ◌%◌, ◌^◌, ◌<◌, ◌≡◌, ◌≢◌, ◌⊎◌, refl, true, false, List, [], ◌∷◌, arith, ◌==◌,
  if◌then◌else◌, inl, inr, Bool-cases, ne→==, ◌∙◌, sym, ap,
}
use schoolstuff.Kalloc.{Kmem, page_size}
use schoolstuff.Kalloc.FreeList.{has, IsPage, Chain, Free}
use schoolstuff.Vm.{is_present, pte_addr, p2v, store}

-- The directory entry `d`, the page table that it refers to, and the entry of page number `q`.
abbrev pub dir_entry : ℕ → Kmem → ℕ → ℕ
dir_entry pgdir s d = s.word (pgdir + 4 * d)

abbrev pub HasTable : ℕ → Kmem → ℕ → Type 0
HasTable pgdir s d = is_present (dir_entry pgdir s d) ≡ true

abbrev pub table_at : ℕ → Kmem → ℕ → ℕ
table_at pgdir s d = p2v (pte_addr (dir_entry pgdir s d))

-- What the hardware finds for page number `q`: 0 is an entry that is not present.
unfoldable pub entry : ℕ → Kmem → ℕ → ℕ
entry pgdir s q =
    if is_present (dir_entry pgdir s (q / 1024))
    then s.word (table_at pgdir s (q / 1024) + 4 * (q % 1024))
    else 0

pub entry-there :
    (pgdir : ℕ) (s : Kmem) (q : ℕ)
    → HasTable pgdir s (q / 1024)
    → entry pgdir s q ≡ s.word (table_at pgdir s (q / 1024) + 4 * (q % 1024))
unfolding entry
entry-there pgdir s q there = rw there

pub entry-none :
    (pgdir : ℕ) (s : Kmem) (q : ℕ)
    → is_present (dir_entry pgdir s (q / 1024)) ≡ false
    → entry pgdir s q ≡ 0
unfolding entry
entry-none pgdir s q absent = rw absent

-- The page at `x` is a page table.
abbrev pub IsTable : ℕ → Kmem → ℕ → Type 0
IsTable pgdir s x = (d : ℕ) × (d < 1024) × HasTable pgdir s d × (table_at pgdir s d ≡ x)

module _ (ke : ℕ) where
  pub record Valid (pgdir : ℕ) (xs : List ℕ) (s : Kmem) : Type 0 where
    pub dir : IsPage ke pgdir
    pub free : Free ke s xs
    pub dir_out : has pgdir xs ≡ false
    pub table :
        (d : ℕ)
        → d < 1024
        → HasTable pgdir s d
        → IsPage ke (table_at pgdir s d)
          × (has (table_at pgdir s d) xs ≡ false)
          × (table_at pgdir s d ≢ pgdir)
    pub inj :
        (d e : ℕ)
        → d < 1024
        → e < 1024
        → HasTable pgdir s d
        → HasTable pgdir s e
        → d ≢ e
        → table_at pgdir s d ≢ table_at pgdir s e

  -- A page that is neither free nor a part of the page table.
  pub record Foreign (pgdir : ℕ) (xs : List ℕ) (s : Kmem) (p : ℕ) : Type 0 where
    pub page : IsPage ke p
    pub out : has p xs ≡ false
    pub no_dir : p ≢ pgdir
    pub no_table : (d : ℕ) → d < 1024 → HasTable pgdir s d → p ≢ table_at pgdir s d

  -- The pages that are neither stay so, with their contents; a page table stays where it is, and a page that
  -- is no longer free has become one.
  pub record Spares (pgdir : ℕ) (xs : List ℕ) (s : Kmem) (xs' : List ℕ) (s' : Kmem) : Type 0 where
    pub tables :
        (d : ℕ)
        → d < 1024
        → HasTable pgdir s d
        → HasTable pgdir s' d × (table_at pgdir s' d ≡ table_at pgdir s d)
    pub fewer : (x : ℕ) → has x xs' ≡ true → has x xs ≡ true
    pub kept : (x : ℕ) → has x xs ≡ true → (has x xs' ≡ true) ⊎ IsTable pgdir s' x
    pub foreign : (p : ℕ) → Foreign pgdir xs s p → Foreign pgdir xs' s' p
    pub words :
        (p i : ℕ) → Foreign pgdir xs s p → i < 1024 → s'.word (p + 4 * i) ≡ s.word (p + 4 * i)

  pub nothing-Spares : (pgdir : ℕ) (xs : List ℕ) (s : Kmem) → Spares pgdir xs s xs s
  nothing-Spares pgdir xs s = record {
    tables = λ d h ht. (ht, refl);
    fewer = λ x h. h;
    kept = λ x h. inl h;
    foreign = λ p f. f;
    words = λ p i f h. refl;
  }

  pub Spares-trans :
      {pgdir : ℕ} {xs xs1 xs' : List ℕ} {s s1 s' : Kmem}
      → Spares pgdir xs s xs1 s1
      → Spares pgdir xs1 s1 xs' s'
      → Spares pgdir xs s xs' s'
  Spares-trans a b = record {
    tables = λ d h ht.
        let (ht1, e1) = a.tables d h ht in let (ht2, e2) = b.tables d h ht1 in (ht2, e2 ∙ e1);
    fewer = λ x h. a.fewer x (b.fewer x h);
    kept = λ x h. elim (a.kept x h) [
      | inl h1 ↦ b.kept x h1
      | inr (d, d_ok, ht1, e1) ↦ let (ht2, e2) = b.tables d d_ok ht1 in inr (d, d_ok, ht2, e2 ∙ e1)
    ];
    foreign = λ p f. b.foreign p (a.foreign p f);
    words = λ p i f h. b.words p i (a.foreign p f) h ∙ a.words p i f h;
  }

  -- Words of different pages, and of one page.
  pub pages_apart :
      {p q : ℕ} (i j : ℕ)
      → IsPage ke p
      → IsPage ke q
      → p ≢ q
      → i < 1024
      → j < 1024
      → p + 4 * i ≢ q + 4 * j
  pages_apart {p} {q} i j gp gq ne hi hj e =
      let ap_ : p % page_size ≡ 0 = gp.aligned in
      let aq : q % page_size ≡ 0 = gq.aligned in ne (omega arith)

  -- A chain of pages survives any change of other words.
  pub Chain-frame :
      (w w' : ℕ → ℕ) (p : ℕ) (xs : List ℕ)
      → ((x : ℕ) → IsPage ke x → has x xs ≡ true → w' x ≡ w x)
      → Chain ke w p xs
      → Chain ke w' p xs
  Chain-frame w w' p [] same c = c
  Chain-frame w w' p (x ∷ xs) same c = (
    c.0,
    c.1,
    c.2,
    rw (same x c.1 (ground arith))
        (Chain-frame w w' (w x) xs (λ y gy h. same y gy (ground arith)) c.3),
  )

  pub not_in : (x y : ℕ) (xs : List ℕ) → has x xs ≡ true → has y xs ≡ false → y ≢ x
  not_in x y xs hx hy = ground arith

  module _ (pgdir : ℕ) (xs : List ℕ) (s : Kmem) (valid : Valid pgdir xs s) (d t e : ℕ)
      (d_ok : d < 1024) (t_ok : t < 1024) (there : HasTable pgdir s d) where
    abbrev pub slot_at : ℕ
    slot_at = table_at pgdir s d + 4 * t

    abbrev pub put : Kmem
    put = store slot_at e s

    table_d :
        IsPage ke (table_at pgdir s d)
        × (has (table_at pgdir s d) xs ≡ false)
        × (table_at pgdir s d ≢ pgdir)
    table_d = valid.table d d_ok there

    pub put-dir_entry : (c : ℕ) → c < 1024 → dir_entry pgdir put c ≡ dir_entry pgdir s c
    put-dir_entry c h =
        rw (ne→== slot_at (pgdir + 4 * c) (pages_apart t c table_d.0 valid.dir table_d.2 t_ok h))

    put-chain : (x : ℕ) → IsPage ke x → has x xs ≡ true → put.word x ≡ s.word x
    put-chain x gx h =
        let x0 : x + 4 * 0 ≡ x = omega arith in
        rw (
          ne→== slot_at x (λ c.
            pages_apart t 0 table_d.0 gx (not_in x _ xs h table_d.1) t_ok (omega arith)
              (c ∙ sym x0)))

    pub put-Valid : Valid pgdir xs put
    put-Valid = record {
      dir = valid.dir;
      free = Chain-frame s.word put.word s.freelist xs put-chain valid.free;
      dir_out = valid.dir_out;
      table = λ c h ht.
          let same = put-dir_entry c h in rw same (valid.table c h (ap is_present (sym same) ∙ ht));
      inj = λ c c' h h' ht ht' ne.
          let same = put-dir_entry c h in
          let same' = put-dir_entry c' h' in
          rw (same, same')
            (valid.inj c c' h h' (ap is_present (sym same) ∙ ht) (ap is_present (sym same') ∙ ht')
              ne);
    }

    pub put-Spares : Spares pgdir xs s xs put
    put-Spares = record {
      tables = λ c h ht. let same = put-dir_entry c h in rw same (ht, refl);
      fewer = λ x h. h;
      kept = λ x h. inl h;
      foreign = λ p f. record {
        page = f.page;
        out = f.out;
        no_dir = f.no_dir;
        no_table = λ c h ht.
            let same = put-dir_entry c h in
            rw same (f.no_table c h (ap is_present (sym same) ∙ ht));
      };
      words = λ p i f h. rw (
          ne→== slot_at (p + 4 * i)
            (pages_apart t i table_d.0 f.page (λ e. f.no_table d d_ok there (sym e)) t_ok h));
    }

    put-other :
        (c i : ℕ)
        → c < 1024
        → i < 1024
        → HasTable pgdir s c
        → d * 1024 + t ≢ c * 1024 + i
        → slot_at ≢ table_at pgdir s c + 4 * i
    put-other c i hc hi ht ne clash = elim (ℕ_discrete d c) [
      | yes q ↦
          let tables : table_at pgdir s d ≡ table_at pgdir s c = ap (table_at pgdir s) q in
          ne (omega (arith, tables, clash))
      | no apart ↦
          pages_apart t i table_d.0 (valid.table c hc ht).0 (valid.inj d c d_ok hc there ht apart)
            t_ok hi clash
    ]

    pub put-entry :
        (q : ℕ)
        → q < 2 ^ 20
        → entry pgdir put q ≡ (if d * 1024 + t == q then e else entry pgdir s q)
    put-entry q h = elim (Bool-cases (is_present (dir_entry pgdir s (q / 1024)))) [
      | inl ht ↦
          let same = put-dir_entry (q / 1024) (omega arith) in
          entry-there pgdir put q (ap is_present same ∙ ht)
          ∙ ap (λ w. put.word (p2v (pte_addr w) + 4 * (q % 1024))) same
          ∙ elim (ℕ_discrete (d * 1024 + t) q) [
            | yes at ↦
                let c : q / 1024 ≡ d = omega arith in
                let i : q % 1024 ≡ t = omega arith in
                let here : table_at pgdir s (q / 1024) + 4 * (q % 1024) ≡ slot_at =
                  ap (λ x. table_at pgdir s x + 4 * (q % 1024)) c
                  ∙ ap (λ x. table_at pgdir s d + 4 * x) i in
                let test : (d * 1024 + t == q) ≡ true = ground arith in
                let test' : (slot_at == table_at pgdir s (q / 1024) + 4 * (q % 1024)) ≡ true =
                  ground (arith, here) in
                rw (test, test')
            | no ne ↦
                let other =
                  put-other (q / 1024) (q % 1024) (omega arith) (omega arith) ht
                    (λ c. ne (omega arith)) in
                rw (ne→== (d * 1024 + t) q ne, ne→== slot_at _ other)
                  (sym (entry-there pgdir s q ht))
          ]
      | inr absent ↦
          let same = put-dir_entry (q / 1024) (omega arith) in
          let ne : d * 1024 + t ≢ q = λ at. absent_here (q / 1024) (omega arith) absent in
          entry-none pgdir put q (ap is_present same ∙ absent)
          ∙ rw (ne→== (d * 1024 + t) q ne) (sym (entry-none pgdir s q absent))
    ]
      where
        absent_here : (c : ℕ) → c ≡ d → is_present (dir_entry pgdir s c) ≡ false → ⊥
        absent_here c eq absent =
            let clash : true ≡ false =
              sym there ∙ ap (λ x. is_present (dir_entry pgdir s x)) (sym eq) ∙ absent in
            ground arith
