-- ===== src/Vm/Drop.antt =====
-- vm.c: one round of `deallocuvm`, which frees the page of a present entry and clears the entry.
use mathlib.Core.Path.{subst}
use native.Mathlib.Decide.{ℕ_discrete}
use schoolstuff.Base.{
  ℕ, ◌+◌, ◌*◌, ◌/◌, ◌%◌, ◌^◌, ◌≤◌, ◌<◌, ◌≡◌, ◌≢◌, refl, true, false, List, ◌∷◌, arith, ◌==◌,
  if◌then◌else◌, ne→==, ◌∙◌, sym, ap,
}
use schoolstuff.Base.Outcome.{ok}
use schoolstuff.Kalloc.{Kmem, kernel_base, push_page}
use schoolstuff.Kalloc.FreeList.{kfree-ok}
use schoolstuff.Vm.{is_present, pte_addr, p2v, store, drop_page}
use schoolstuff.Vm.Tables.{
  dir_entry, HasTable, table_at, entry, entry-there, Valid, Foreign, Spares, put-Valid, put-Spares,
  put-entry, put-dir_entry,
}
use schoolstuff.Vm.Users.{
  user_pages, frame_at, IsMapped, Space, mapped-table, push-Valid, push-dir_entry, push-entry,
  push-Foreign, push-word,
}

module _ (ke pgdir : ℕ) (above : kernel_base < ke) (xs : List ℕ) (s : Kmem)
    (space : Space ke pgdir xs s) (q : ℕ) (q_ok : q < user_pages)
    (mapped : IsMapped pgdir s q) where
  abbrev pub frame : ℕ
  frame = frame_at pgdir s q

  abbrev pub slot_of : ℕ
  slot_of = table_at pgdir s (q / 1024) + 4 * (q % 1024)

  abbrev pub freed : Kmem
  freed = push_page frame s

  abbrev pub dropped : Kmem
  dropped = store slot_of 0 freed

  pub frame-Foreign : Foreign ke pgdir xs s frame
  frame-Foreign = space.frame q q_ok mapped

  freed-Valid : Valid ke pgdir (frame ∷ xs) freed
  freed-Valid = push-Valid ke pgdir xs s space.valid frame frame-Foreign

  freed-dir : dir_entry pgdir freed (q / 1024) ≡ dir_entry pgdir s (q / 1024)
  freed-dir = push-dir_entry ke pgdir xs s space.valid frame frame-Foreign (q / 1024) (omega arith)

  freed-table : HasTable pgdir freed (q / 1024)
  freed-table = ap is_present freed-dir ∙ mapped-table pgdir s q mapped

  freed-slot : table_at pgdir freed (q / 1024) + 4 * (q % 1024) ≡ slot_of
  freed-slot = ap (λ w. p2v (pte_addr w) + 4 * (q % 1024)) freed-dir

  pub drop_page-runs : drop_page ke slot_of s ≡ ok dropped
  unfolding drop_page
  drop_page-runs =
      let same : s.word slot_of ≡ entry pgdir s q =
        sym (entry-there pgdir s q (mapped-table pgdir s q mapped)) in
      let page = frame-Foreign.page in
      let high : ke ≤ frame = page.above in
      let nz : (pte_addr (entry pgdir s q) == 0) ≡ false =
        ne→== _ 0
          (λ z. let low : frame ≡ kernel_base = ap p2v z in omega (arith, high, low, above)) in
      rw (same, nz, kfree-ok ke frame s page) refl

  pub dropped-Valid : Valid ke pgdir (frame ∷ xs) dropped
  dropped-Valid =
      subst (λ a. Valid ke pgdir (frame ∷ xs) (store a 0 freed)) freed-slot
        (put-Valid ke pgdir (frame ∷ xs) freed freed-Valid (q / 1024) (q % 1024) 0 (omega arith)
          (omega arith) freed-table)

  cleared-Spares : Spares ke pgdir (frame ∷ xs) freed (frame ∷ xs) dropped
  cleared-Spares =
      subst (λ a. Spares ke pgdir (frame ∷ xs) freed (frame ∷ xs) (store a 0 freed)) freed-slot
        (put-Spares ke pgdir (frame ∷ xs) freed freed-Valid (q / 1024) (q % 1024) 0 (omega arith)
          (omega arith) freed-table)

  pub dropped-entry :
      (r : ℕ) → r < 2 ^ 20 → entry pgdir dropped r ≡ (if q == r then 0 else entry pgdir s r)
  dropped-entry r h =
      let number : q / 1024 * 1024 + q % 1024 ≡ q = omega arith in
      ap (λ a. entry pgdir (store a 0 freed) r) (sym freed-slot)
      ∙ put-entry ke pgdir (frame ∷ xs) freed freed-Valid (q / 1024) (q % 1024) 0 (omega arith)
          (omega arith) freed-table r h
      ∙ ap (λ c. if c == r then 0 else entry pgdir freed r) number
      ∙ ap (λ e. if q == r then 0 else e)
          (push-entry ke pgdir xs s space.valid frame frame-Foreign r h)

  pub dropped-dir_entry : (c : ℕ) → c < 1024 → dir_entry pgdir dropped c ≡ dir_entry pgdir s c
  dropped-dir_entry c h =
      ap (λ a. dir_entry pgdir (store a 0 freed) c) (sym freed-slot)
      ∙ put-dir_entry ke pgdir (frame ∷ xs) freed freed-Valid (q / 1024) (q % 1024) 0 (omega arith)
          (omega arith) freed-table c h
      ∙ push-dir_entry ke pgdir xs s space.valid frame frame-Foreign c h

  pub dropped-Foreign :
      (p : ℕ) → Foreign ke pgdir xs s p → p ≢ frame → Foreign ke pgdir (frame ∷ xs) dropped p
  dropped-Foreign p f ne =
      cleared-Spares.foreign p (push-Foreign ke pgdir xs s space.valid frame frame-Foreign p f ne)

  pub dropped-word :
      (p i : ℕ)
      → Foreign ke pgdir xs s p
      → p ≢ frame
      → i < 1024
      → dropped.word (p + 4 * i) ≡ s.word (p + 4 * i)
  dropped-word p i f ne h =
      cleared-Spares.words p i (push-Foreign ke pgdir xs s space.valid frame frame-Foreign p f ne) h
      ∙ push-word ke pgdir xs s space.valid frame frame-Foreign p i f.page ne h

  -- What is mapped afterwards was mapped before, and not at `q`.
  still-IsMapped :
      (r : ℕ)
      → r < user_pages
      → IsMapped pgdir dropped r
      → (r ≢ q) × (entry pgdir dropped r ≡ entry pgdir s r)
  still-IsMapped r h m = elim (ℕ_discrete q r) [
    | yes e ↦
        let test : (q == r) ≡ true = ground arith in
        let gone : entry pgdir dropped r ≡ 0 = rw test at (dropped-entry r (omega arith)) in
        let clash : true ≡ false = sym m ∙ ap is_present gone in absurd (ground arith)
    | no ne ↦ ((λ e. ne (sym e)), rw (ne→== q r ne) at (dropped-entry r (omega arith)))
  ]

  pub dropped-Space : Space ke pgdir (frame ∷ xs) dropped
  dropped-Space = record {
    valid = dropped-Valid;
    frame = λ r h m.
        let (ne, same) = still-IsMapped r h m in
        let before = ap is_present (sym same) ∙ m in
        subst (λ e. Foreign ke pgdir (frame ∷ xs) dropped (p2v (pte_addr e))) (sym same)
          (dropped-Foreign (frame_at pgdir s r) (space.frame r h before)
            (space.frame_inj r q h q_ok before mapped ne));
    frame_inj = λ r t h h' m m' ne.
        let (ne1, same) = still-IsMapped r h m in
        let (ne2, same') = still-IsMapped t h' m' in
        λ e.
          space.frame_inj r t h h' (ap is_present (sym same) ∙ m) (ap is_present (sym same') ∙ m')
            ne (ap (λ w. p2v (pte_addr w)) (sym same) ∙ e ∙ ap (λ w. p2v (pte_addr w)) same');
  }
