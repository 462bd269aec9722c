-- ===== src/Vm/Grow.antt =====
-- vm.c: a round of `allocuvm`, which maps a page that kalloc returned.
use mathlib.Core.Path.{subst}
use native.Mathlib.Decide.{ℕ_discrete}
use schoolstuff.Base.{
  ℕ, ◌+◌, ◌*◌, ◌%◌, ◌^◌, ◌≤◌, ◌<◌, ◌≡◌, ◌≢◌, ◌⊎◌, refl, true, List, ◌∷◌, arith, ◌==◌, if◌then◌else◌,
  inl, inr, ne→==, ==_refl, ◌∙◌, sym, ap,
}
use schoolstuff.Kalloc.{Kmem, page_size}
use schoolstuff.Kalloc.FreeList.{has, IsPage}
use schoolstuff.Vm.{p2v, v2p, pte_addr, pte_of, pte_wu, is_present}
use schoolstuff.Vm.Tables.{entry, Valid, Foreign, Spares, IsTable}
use schoolstuff.Vm.Walk.{p2v-v2p}
use schoolstuff.Vm.Users.{user_pages, frame_at, IsMapped, Space}
use schoolstuff.Vm.Take.{taken, taken-zero, taken-word, taken-dir_entry, taken-Foreign, mem-Foreign}

-- The entry of a page that was free before, is writable for the user, and holds zeros.
abbrev pub Fresh : List ℕ → ℕ → (ℕ → ℕ) → Type 0
Fresh xs e word =
    (has (p2v (pte_addr e)) xs ≡ true)
    × (e ≡ pte_of (v2p (p2v (pte_addr e))) pte_wu)
    × ((i : ℕ) → i < 1024 → word (p2v (pte_addr e) + 4 * i) ≡ 0)

pub Fresh-IsMapped : (xs : List ℕ) (e : ℕ) (word : ℕ → ℕ) → Fresh xs e word → is_present e ≡ true
Fresh-IsMapped xs e word (free, eq, z) =
    ap is_present eq ∙ odd (v2p (p2v (pte_addr e))) (omega arith)
  where
    odd : (pa : ℕ) → pa % page_size ≡ 0 → is_present (pte_of pa pte_wu) ≡ true
    odd pa al = ground arith

-- The pages from number `lo` up to `hi` have been mapped to free ones; no page has been lost.
pub record Grown (ke pgdir : ℕ) (xs : List ℕ) (s : Kmem) (lo hi : ℕ) (xs' : List ℕ) (s' : Kmem)
    : Type 0 where
  pub space : Space ke pgdir xs' s'
  pub outside : (q : ℕ) → q < 2 ^ 20 → (q < lo) ⊎ (hi ≤ q) → entry pgdir s' q ≡ entry pgdir s q
  pub fresh : (q : ℕ) → lo ≤ q → q < hi → Fresh xs (entry pgdir s' q) s'.word
  pub used :
      (x : ℕ)
      → has x xs ≡ true
      → (has x xs' ≡ true)
        ⊎ (IsTable pgdir s' x ⊎ ((q : ℕ) × (lo ≤ q) × (q < hi) × (frame_at pgdir s' q ≡ x)))
  pub fewer : (x : ℕ) → has x xs' ≡ true → has x xs ≡ true
  pub foreign : (p : ℕ) → Foreign ke pgdir xs s p → Foreign ke pgdir xs' s' p
  pub words :
      (p i : ℕ) → Foreign ke pgdir xs s p → i < 1024 → s'.word (p + 4 * i) ≡ s.word (p + 4 * i)

pub nothing-Grown :
    (ke pgdir : ℕ) (xs : List ℕ) (s : Kmem) (lo : ℕ)
    → Space ke pgdir xs s
    → Grown ke pgdir xs s lo lo xs s
nothing-Grown ke pgdir xs s lo space = record {
  space = space;
  outside = λ q h out. refl;
  fresh = λ q h1 h2. absurd (omega arith);
  used = λ x h. inl h;
  fewer = λ x h. h;
  foreign = λ p f. f;
  words = λ p i f h. refl;
}

-- `mem` is taken, cleared and mapped at page number `c`.
module _ (ke pgdir mem : ℕ) (xs : List ℕ) (s : Kmem) (space : Space ke pgdir (mem ∷ xs) s) (c : ℕ)
    (c_ok : c < user_pages) (xs' : List ℕ) (s' : Kmem) (valid' : Valid ke pgdir xs' s')
    (spares : Spares ke pgdir xs (taken ke pgdir mem xs s space.valid) xs' s')
    (entries : (q : ℕ)
      → q < 2 ^ 20
      → entry pgdir s' q ≡ (if c == q then pte_of (v2p mem) pte_wu else entry pgdir s q)) where
  mem_page : IsPage ke mem
  mem_page = space.valid.free.1

  at_new : entry pgdir s' c ≡ pte_of (v2p mem) pte_wu
  at_new = rw (==_refl c) at (entries c (omega arith))

  new_frame : frame_at pgdir s' c ≡ mem
  new_frame = ap (λ e. p2v (pte_addr e)) at_new ∙ p2v-v2p ke mem pte_wu mem_page (omega arith)

  at_other : (q : ℕ) → q < 2 ^ 20 → c ≢ q → entry pgdir s' q ≡ entry pgdir s q
  at_other q h ne = rw (ne→== c q ne) at (entries q h)

  pub later-Foreign : (p : ℕ) → Foreign ke pgdir (mem ∷ xs) s p → Foreign ke pgdir xs' s' p
  later-Foreign p f = spares.foreign p (taken-Foreign ke pgdir mem xs s space.valid p f)

  pub later-word :
      (p i : ℕ)
      → Foreign ke pgdir (mem ∷ xs) s p
      → i < 1024
      → s'.word (p + 4 * i) ≡ s.word (p + 4 * i)
  later-word p i f h =
      let out = f.out in
      spares.words p i (taken-Foreign ke pgdir mem xs s space.valid p f) h
      ∙ taken-word ke pgdir mem xs s space.valid p i f.page (ground arith) h

  FrameOf : ℕ → Type 0
  FrameOf q =
      ((c ≡ q) × (frame_at pgdir s' q ≡ mem))
      ⊎ ((c ≢ q) × IsMapped pgdir s q × (frame_at pgdir s' q ≡ frame_at pgdir s q))

  frame_of : (q : ℕ) → q < user_pages → IsMapped pgdir s' q → FrameOf q
  unfolding FrameOf
  frame_of q h m = elim (ℕ_discrete c q) [
    | yes e ↦ inl (e, ap (frame_at pgdir s') (sym e) ∙ new_frame)
    | no ne ↦
        let same = at_other q (omega arith) ne in
        inr (ne, ap is_present (sym same) ∙ m, ap (λ e. p2v (pte_addr e)) same)
  ]

  old_frame : (q : ℕ) → q < user_pages → IsMapped pgdir s q → frame_at pgdir s q ≢ mem
  old_frame q h m = let out = (space.frame q h m).out in ground arith

  pub mapped-Space : Space ke pgdir xs' s'
  unfolding FrameOf
  mapped-Space = record {
    valid = valid';
    frame = λ q h m. elim (frame_of q h m) [
      | inl (e, t) ↦
          subst (Foreign ke pgdir xs' s') (sym t)
            (spares.foreign mem (mem-Foreign ke pgdir mem xs s space.valid))
      | inr (ne, m0, t) ↦
          subst (Foreign ke pgdir xs' s') (sym t)
            (later-Foreign (frame_at pgdir s q) (space.frame q h m0))
    ];
    frame_inj = λ q r h h' m m' ne. elim (frame_of q h m) [
      | inl (e, t) ↦ elim (frame_of r h' m') [
        | inl (e', t') ↦ absurd (ne (sym e ∙ e'))
        | inr (ne', m0, t') ↦ λ z. old_frame r h' m0 (sym t' ∙ sym z ∙ t)
      ]
      | inr (ne1, m0, t) ↦ elim (frame_of r h' m') [
        | inl (e', t') ↦ λ z. old_frame q h m0 (sym t ∙ z ∙ t')
        | inr (ne', m1, t') ↦ λ z. space.frame_inj q r h h' m0 m1 ne (sym t ∙ z ∙ t')
      ]
    ];
  }

  module _ (xs0 : List ℕ) (s0 : Kmem) (lo : ℕ) (lo_ok : lo ≤ c)
      (so_far : Grown ke pgdir xs0 s0 lo c (mem ∷ xs) s) where
    mem_free : has mem xs0 ≡ true
    mem_free = so_far.fewer mem (ground arith)

    new-Fresh : Fresh xs0 (entry pgdir s' c) s'.word
    new-Fresh =
        let there : (has mem xs0 ≡ true)
            × (entry pgdir s' c ≡ pte_of (v2p mem) pte_wu)
            × ((i : ℕ) → i < 1024 → s'.word (mem + 4 * i) ≡ 0) =
          (
            mem_free,
            at_new,
            λ i h.
                spares.words mem i (mem-Foreign ke pgdir mem xs s space.valid) h
                ∙ taken-zero ke pgdir mem xs s space.valid i h,
          ) in
        subst
          (λ p.
            (has p xs0 ≡ true)
            × (entry pgdir s' c ≡ pte_of (v2p p) pte_wu)
            × ((i : ℕ) → i < 1024 → s'.word (p + 4 * i) ≡ 0))
          (sym new_frame) there

    old-Fresh : (q : ℕ) → lo ≤ q → q < c → Fresh xs0 (entry pgdir s' q) s'.word
    old-Fresh q h1 h2 =
        let (free, e, z) = so_far.fresh q h1 h2 in
        let f =
          space.frame q (omega arith)
            (Fresh-IsMapped xs0 (entry pgdir s q) s.word (so_far.fresh q h1 h2)) in
        subst (λ k. Fresh xs0 k s'.word) (sym (at_other q (omega arith) (omega arith)))
          (free, e, λ i h. later-word (frame_at pgdir s q) i f h ∙ z i h)

    pub mapped-Grown : Grown ke pgdir xs0 s0 lo (c + 1) xs' s'
    mapped-Grown = record {
      space = mapped-Space;
      outside = λ q h out.
          at_other q h (omega arith)
          ∙ so_far.outside q h (elim out [ inl below ↦ inl below | inr past ↦ inr (omega arith) ]);
      fresh = λ q h1 h2. elim (ℕ_discrete c q) [
        | yes e ↦ subst (λ k. Fresh xs0 (entry pgdir s' k) s'.word) e new-Fresh
        | no ne ↦ old-Fresh q h1 (omega arith)
      ];
      used = λ x h. elim (so_far.used x h) [
        | inl there ↦ elim (ℕ_discrete x mem) [
          | yes e ↦ inr (inr (c, lo_ok, omega arith, new_frame ∙ sym e))
          | no ne ↦ elim (spares.kept x (ground arith)) [
            | inl still ↦ inl still
            | inr table ↦ inr (inl table)
          ]
        ]
        | inr (inl (d, d_ok, ht, e)) ↦
            let same = taken-dir_entry ke pgdir mem xs s space.valid d d_ok in
            let (ht', e') = spares.tables d d_ok (ap is_present same ∙ ht) in
            inr (inl (d, d_ok, ht', e' ∙ ap (λ w. p2v (pte_addr w)) same ∙ e))
        | inr (inr (q, h1, h2, e)) ↦ inr (
            inr (
              q,
              h1,
              omega arith,
              ap (λ w. p2v (pte_addr w)) (at_other q (omega arith) (omega arith)) ∙ e,
            ))
      ];
      fewer = λ x h. so_far.fewer x (let there = spares.fewer x h in ground arith);
      foreign = λ p f. later-Foreign p (so_far.foreign p f);
      words = λ p i f h. later-word p i (so_far.foreign p f) h ∙ so_far.words p i f h;
    }
