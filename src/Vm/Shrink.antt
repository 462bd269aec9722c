-- ===== src/Vm/Shrink.antt =====
-- vm.c: deallocuvm frees the pages of its range, each once, and leaves the rest of the process alone.
use mathlib.Core.Path.{subst}
use native.Mathlib.Decide.{ℕ_discrete, dec_lt, dec_le}
use schoolstuff.Base.{
  ℕ, ◌+◌, ◌*◌, ◌^◌, ◌≤◌, ◌<◌, ◌≡◌, ◌≢◌, refl, true, false, ◌&&◌, List, ◌∷◌, arith, ltb, leb, ◌==◌,
  if◌then◌else◌, ne→==, ◌∙◌, sym, ap,
}
use schoolstuff.Kalloc.{Kmem, kernel_base}
use schoolstuff.Kalloc.FreeList.{has}
use schoolstuff.Vm.{p2v, pte_addr, is_present}
use schoolstuff.Vm.Tables.{dir_entry, entry, Foreign}
use schoolstuff.Vm.Users.{user_pages, frame_at, IsMapped, Space}
use schoolstuff.Vm.Drop.{
  frame, dropped, dropped-entry, dropped-Foreign, dropped-word, dropped-dir_entry,
}

-- A page that is not that of a page number in the range.
abbrev pub Spared : ℕ → Kmem → ℕ → ℕ → ℕ → Type 0
Spared pgdir s lo hi p = (q : ℕ) → lo ≤ q → q < hi → IsMapped pgdir s q → p ≢ frame_at pgdir s q

-- The pages from number `lo` up to `hi` have been unmapped and are free; all others are as before.
pub record Shrunk (ke pgdir : ℕ) (xs : List ℕ) (s : Kmem) (lo hi : ℕ) (xs' : List ℕ) (s' : Kmem)
    : Type 0 where
  pub space : Space ke pgdir xs' s'
  pub entries :
      (q : ℕ)
      → q < 2 ^ 20
      → entry pgdir s' q
        ≡ (if leb lo q && ltb q hi && is_present (entry pgdir s q) then 0 else entry pgdir s q)
  pub dirs : (d : ℕ) → d < 1024 → dir_entry pgdir s' d ≡ dir_entry pgdir s d
  pub freed : (q : ℕ) → lo ≤ q → q < hi → IsMapped pgdir s q → has (frame_at pgdir s q) xs' ≡ true
  pub kept : (x : ℕ) → has x xs ≡ true → has x xs' ≡ true
  pub foreign :
      (p : ℕ) → Foreign ke pgdir xs s p → Spared pgdir s lo hi p → Foreign ke pgdir xs' s' p
  pub words :
      (p i : ℕ)
      → Foreign ke pgdir xs s p
      → Spared pgdir s lo hi p
      → i < 1024
      → s'.word (p + 4 * i) ≡ s.word (p + 4 * i)

pub nothing-Shrunk :
    (ke pgdir : ℕ) (xs : List ℕ) (s : Kmem) (lo hi : ℕ)
    → Space ke pgdir xs s
    → hi ≤ lo
    → Shrunk ke pgdir xs s lo hi xs s
nothing-Shrunk ke pgdir xs s lo hi space le = record {
  space = space;
  entries = λ q h.
      let test : (leb lo q && ltb q hi && is_present (entry pgdir s q)) ≡ false = ground arith in
      rw test;
  dirs = λ d h. refl;
  freed = λ q h1 h2. absurd (omega arith);
  kept = λ x h. h;
  foreign = λ p f out. f;
  words = λ p i f out h. refl;
}

-- Nothing is mapped from `lo` to `mid`.
pub skip-Shrunk :
    (ke pgdir : ℕ) (xs : List ℕ) (s : Kmem) (lo mid hi : ℕ) (xs' : List ℕ) (s' : Kmem)
    → lo ≤ mid
    → ((q : ℕ) → lo ≤ q → q < mid → is_present (entry pgdir s q) ≡ false)
    → Shrunk ke pgdir xs s mid hi xs' s'
    → Shrunk ke pgdir xs s lo hi xs' s'
skip-Shrunk ke pgdir xs s lo mid hi xs' s' le absent sh = record {
  space = sh.space;
  entries = λ q h. sh.entries q h ∙ elim (dec_lt q mid) [
    | yes below ↦ elim (dec_le lo q) [
      | yes in_gap ↦ let none_there = absent q in_gap below in rw none_there (ground arith)
      | no under ↦
          let t1 : leb lo q ≡ false = ground arith in
          let t2 : leb mid q ≡ false = ground arith in rw (t1, t2)
    ]
    | no past ↦
        let t1 : leb lo q ≡ true = ground arith in
        let t2 : leb mid q ≡ true = ground arith in rw (t1, t2)
  ];
  dirs = sh.dirs;
  freed = λ q h1 h2 m. elim (dec_lt q mid) [
    | yes below ↦ let clash : true ≡ false = sym m ∙ absent q h1 below in absurd (ground arith)
    | no past ↦ sh.freed q (omega arith) h2 m
  ];
  kept = sh.kept;
  foreign = λ p f out. sh.foreign p f (λ q h1 h2 m. out q (omega arith) h2 m);
  words = λ p i f out h. sh.words p i f (λ q h1 h2 m. out q (omega arith) h2 m) h;
}

module _ (ke pgdir : ℕ) (above : kernel_base < ke) (xs : List ℕ) (s : Kmem)
    (space : Space ke pgdir xs s) (q : ℕ) (q_ok : q < user_pages) (mapped : IsMapped pgdir s q)
    (hi : ℕ) (xs' : List ℕ) (s' : Kmem) where
  abbrev s1 : Kmem
  s1 = dropped ke pgdir above xs s space q q_ok mapped

  abbrev f1 : ℕ
  f1 = frame ke pgdir above xs s space q q_ok mapped

  other_entry : (r : ℕ) → r < 2 ^ 20 → q ≢ r → entry pgdir s1 r ≡ entry pgdir s r
  other_entry r h ne =
      rw (ne→== q r ne) at (dropped-entry ke pgdir above xs s space q q_ok mapped r h)

  Spared-later : (p : ℕ) → hi ≤ 2 ^ 20 → Spared pgdir s q hi p → Spared pgdir s1 (q + 1) hi p
  Spared-later p small out r h1 h2 m =
      let same = other_entry r (omega arith) (omega arith) in
      subst (λ e. p ≢ p2v (pte_addr e)) (sym same)
        (out r (omega arith) h2 (ap is_present (sym same) ∙ m))

  pub drop-Shrunk :
      q < hi
      → hi ≤ 2 ^ 20
      → Shrunk ke pgdir (f1 ∷ xs) s1 (q + 1) hi xs' s'
      → Shrunk ke pgdir xs s q hi xs' s'
  drop-Shrunk lt small sh = record {
    space = sh.space;
    entries = λ r h. sh.entries r h ∙ elim (ℕ_discrete q r) [
      | yes e ↦
          let test : (q == r) ≡ true = ground arith in
          let gone : entry pgdir s1 r ≡ 0 =
            rw test at (dropped-entry ke pgdir above xs s space q q_ok mapped r h) in
          let here : is_present (entry pgdir s r) ≡ true = rw e at mapped in
          let t1 : leb q r ≡ true = ground arith in
          let t2 : ltb r hi ≡ true = ground arith in
          let t3 : leb (q + 1) r ≡ false = ground arith in rw (gone, here, t1, t2, t3) refl
      | no ne ↦ let t1 : leb (q + 1) r ≡ leb q r = ground arith in rw (other_entry r h ne, t1) refl
    ];
    dirs = λ d h. sh.dirs d h ∙ dropped-dir_entry ke pgdir above xs s space q q_ok mapped d h;
    freed = λ r h1 h2 m. elim (ℕ_discrete q r) [
      | yes e ↦ let first : has f1 (f1 ∷ xs) ≡ true = ground arith in rw e at (sh.kept f1 first)
      | no ne ↦
          let same = other_entry r (omega arith) ne in
          subst (λ e. has (p2v (pte_addr e)) xs' ≡ true) same
            (sh.freed r (omega arith) h2 (ap is_present same ∙ m))
    ];
    kept = λ x h. sh.kept x (ground arith);
    foreign = λ p f out.
        sh.foreign p
          (dropped-Foreign ke pgdir above xs s space q q_ok mapped p f
            (out q (omega arith) lt mapped))
          (Spared-later p small out);
    words = λ p i f out h.
        let ne = out q (omega arith) lt mapped in
        sh.words p i (dropped-Foreign ke pgdir above xs s space q q_ok mapped p f ne)
          (Spared-later p small out) h
        ∙ dropped-word ke pgdir above xs s space q q_ok mapped p i f ne h;
  }
