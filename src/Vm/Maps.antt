-- ===== src/Vm/Maps.antt =====
-- vm.c: mappages maps the pages of its range, and no others.
use mathlib.Core.Path.{subst}
use native.Mathlib.Decide.{ℕ_discrete}
use schoolstuff.Base.{
  ℕ, zero, suc, ◌+◌, ◌-◌, ◌*◌, ◌/◌, ◌%◌, ◌^◌, ◌≤◌, ◌<◌, ◌≡◌, ◌⊎◌, refl, Bool, true, false, ◌&&◌,
  List, [], arith, ltb, leb, ◌==◌, if◌then◌else◌, add32, sub32, inl, inr, ne→==, ◌∙◌, sym, ap,
}
use schoolstuff.Base.Outcome.{Outcome, ok}
use schoolstuff.Kalloc.{Kmem, page_size}
use schoolstuff.Vm.{
  pdx, ptx, is_present, pte_of, store, walkpgdir, put_entry, map_from, all_pages, page_round_down,
  mappages,
}
use schoolstuff.Vm.Tables.{
  HasTable, table_at, dir_entry, entry, entry-there, Valid, Spares, nothing-Spares, Spares-trans,
  put-Spares, put-Valid, put-entry,
}
use schoolstuff.Vm.Walk.{Walked, walkpgdir-Walked}

-- The entries after `n` pages from page number `q0` on have been mapped to those from `pa` on.
abbrev pub mapped : ℕ → ℕ → ℕ → ℕ → (ℕ → ℕ) → ℕ → ℕ
mapped q0 n pa perm old q =
    if leb q0 q && ltb q (q0 + n) then pte_of (pa + (q - q0) * page_size) perm else old q

-- What mapping `n` pages comes to: all of them are mapped, or the first `m` are and no free page is left.
abbrev pub Mapped : ℕ → ℕ → ℕ → ℕ → ℕ → ℕ → List ℕ → Kmem → Bool → Kmem → Type 0
Mapped ke pgdir q0 n pa perm xs s done s' =
    (m : ℕ) × (xs' : List ℕ) × Valid ke pgdir xs' s'
    × Spares ke pgdir xs s xs' s'
    × ((q : ℕ) → q < 2 ^ 20 → entry pgdir s' q ≡ mapped q0 m pa perm (entry pgdir s) q)
    × (((done ≡ true) × (m ≡ n)) ⊎ ((done ≡ false) × (m < n) × (xs' ≡ [])))

-- One entry more.
step-entries :
    (q0 pa perm : ℕ) (old e1 e2 : ℕ → ℕ) (m : ℕ) (q : ℕ)
    → e1 q ≡ (if q0 == q then pte_of pa perm else old q)
    → e2 q ≡ mapped (q0 + 1) m (pa + page_size) perm e1 q
    → e2 q ≡ mapped q0 (suc m) pa perm old q
step-entries q0 pa perm old e1 e2 m q h1 h2 = ground (arith, h1, h2)

abbrev MapEnds : ℕ → ℕ → ℕ → ℕ → ℕ → ℕ → List ℕ → Kmem → Outcome (Bool × Kmem) → Type 0
MapEnds ke pgdir q0 n pa perm xs s r =
    (done : Bool) × (s' : Kmem) × (r ≡ ok (done, s')) × Mapped ke pgdir q0 n pa perm xs s done s'

-- An entry that walkpgdir has found is written.
module _ (ke pgdir a e : ℕ) (xs : List ℕ) (s s1 : Kmem) (pte : ℕ) (valid : Valid ke pgdir xs s1)
    (a_ok : a < 2 ^ 32) (there : HasTable pgdir s1 (pdx a))
    (at : pte ≡ table_at pgdir s1 (pdx a) + 4 * ptx a)
    (same : (q : ℕ) → q < 2 ^ 20 → entry pgdir s1 q ≡ entry pgdir s q) where
  pub written-Valid : Valid ke pgdir xs (store pte e s1)
  written-Valid =
      subst (λ p. Valid ke pgdir xs (store p e s1)) (sym at)
        (put-Valid ke pgdir xs s1 valid (pdx a) (ptx a) e (omega arith) (omega arith) there)

  pub written-Spares : Spares ke pgdir xs s1 xs (store pte e s1)
  written-Spares =
      subst (λ p. Spares ke pgdir xs s1 xs (store p e s1)) (sym at)
        (put-Spares ke pgdir xs s1 valid (pdx a) (ptx a) e (omega arith) (omega arith) there)

  pub written-entry :
      (q : ℕ)
      → q < 2 ^ 20
      → entry pgdir (store pte e s1) q ≡ (if a / page_size == q then e else entry pgdir s q)
  written-entry q h =
      let number : pdx a * 1024 + ptx a ≡ a / page_size = omega arith in
      ap (λ p. entry pgdir (store p e s1) q) at
      ∙ put-entry ke pgdir xs s1 valid (pdx a) (ptx a) e (omega arith) (omega arith) there q h
      ∙ ap (λ c. if c == q then e else entry pgdir s1 q) number
      ∙ ap (λ o. if a / page_size == q then e else o) (same q h)

  pub read-entry : s1.word pte ≡ entry pgdir s (a / page_size)
  read-entry =
      let d : a / page_size / 1024 ≡ pdx a = omega arith in
      let t : a / page_size % 1024 ≡ ptx a = omega arith in
      ap s1.word at ∙ sym (entry-at (a / page_size) d t) ∙ same (a / page_size) (omega arith)
    where
      entry-at :
          (q : ℕ)
          → q / 1024 ≡ pdx a
          → q % 1024 ≡ ptx a
          → entry pgdir s1 q ≡ s1.word (table_at pgdir s1 (pdx a) + 4 * ptx a)
      entry-at q d t =
          entry-there pgdir s1 q (ap (λ c. is_present (dir_entry pgdir s1 c)) d ∙ there)
          ∙ ap (λ c. s1.word (table_at pgdir s1 c + 4 * (q % 1024))) d
          ∙ ap (λ c. s1.word (table_at pgdir s1 (pdx a) + 4 * c)) t

Walked-MapEnds :
    (ke pgdir perm n a last pa : ℕ) (xs : List ℕ) (s : Kmem) (more : Kmem → Outcome (Bool × Kmem))
    (pte : ℕ) (s1 : Kmem)
    → Valid ke pgdir xs s
    → a % page_size ≡ 0
    → last ≡ a + n * page_size
    → last < 2 ^ 32
    → is_present (entry pgdir s (a / page_size)) ≡ false
    → ((xs2 : List ℕ) (s2 : Kmem) (k : ℕ)
        → n ≡ suc k
        → Valid ke pgdir xs2 s2
        → ((q : ℕ)
            → q < 2 ^ 20
            → entry pgdir s2 q ≡ (if a / page_size == q then pte_of pa perm else entry pgdir s q))
        → MapEnds ke pgdir (a / page_size + 1) (suc k) (pa + page_size) perm xs2 s2 (more s2))
    → Walked ke pgdir a xs s (pte, s1)
    → MapEnds ke pgdir
        (a / page_size)
        (suc n)
        pa
        perm
        xs
        s
        (put_entry more (a == last) (pte_of pa perm) (pte, s1))
Walked-MapEnds ke pgdir perm n a last pa xs s more pte s1 valid al at small absent rest
      (inl (z, nil, same)) =
    rw z (
      false,
      s1,
      refl,
      (
        0,
        xs,
        subst (Valid ke pgdir xs) (sym same) valid,
        subst (Spares ke pgdir xs s xs) (sym same) (nothing-Spares ke pgdir xs s),
        (λ q h. ap (λ k. entry pgdir k q) same ∙ ground arith),
        inr (refl, omega arith, nil),
      ),
    )
Walked-MapEnds ke pgdir perm n a last pa xs s more pte s1 valid al at small absent rest
      (inr (xs', nz, valid', there, slot, spares, same)) =
    let fresh : is_present (s1.word pte) ≡ false =
      ap is_present (read-entry ke pgdir a 0 xs' s s1 pte valid' (omega arith) there slot same)
      ∙ absent in
    let s2 : Kmem = store pte (pte_of pa perm) s1 in
    let valid2 =
      written-Valid ke pgdir a (pte_of pa perm) xs' s s1 pte valid' (omega arith) there slot same in
    let entries =
      written-entry ke pgdir a (pte_of pa perm) xs' s s1 pte valid' (omega arith) there slot same in
    let spares2 = Spares-trans ke spares (
      written-Spares ke pgdir a (pte_of pa perm) xs' s s1 pte valid' (omega arith) there slot
        same) in
    elim (ℕ_discrete a last) [
      | yes e ↦
          let test : (a == last) ≡ true = ground arith in
          let one : n ≡ 0 = omega arith in
          rw (ne→== pte 0 nz, fresh, test)
            (
              true,
              s2,
              refl,
              (
                1,
                xs',
                valid2,
                spares2,
                (λ q h. entries q h ∙ ground arith),
                inl (refl, omega arith),
              ),
            )
      | no ne ↦
          let k : ℕ = n - 1 in
          let count : n ≡ suc k = omega arith in
          let (done, s', run, (m, xs3, valid3, spares3, all, end)) =
            rest xs' s2 k count valid2 entries in
          rw (ne→== pte 0 nz, fresh, ne→== a last ne)
            (
              done,
              s',
              run,
              (
                suc m,
                xs3,
                valid3,
                Spares-trans ke spares2 spares3,
                (λ q h.
                    step-entries (a / page_size) pa perm (entry pgdir s) (entry pgdir s2)
                      (entry pgdir s') m q (entries q h) (all q h)),
                elim end [
                  | inl (e, c) ↦ inl (e, omega arith)
                  | inr (e, c, out) ↦ inr (e, omega arith, out)
                ],
              ),
            )
    ]

map_from-Mapped :
    (ke pgdir perm : ℕ) (fuel n a last pa : ℕ) (xs : List ℕ) (s : Kmem)
    → Valid ke pgdir xs s
    → n < fuel
    → a % page_size ≡ 0
    → last ≡ a + n * page_size
    → last < 2 ^ 32
    → pa + suc n * page_size ≤ 2 ^ 32
    → ((q : ℕ) → a / page_size ≤ q → q ≤ last / page_size → is_present (entry pgdir s q) ≡ false)
    → MapEnds ke pgdir (a / page_size) (suc n) pa perm xs s (map_from fuel pgdir a last pa perm s)
unfolding map_from
map_from-Mapped ke pgdir perm zero n a last pa xs s valid enough al at small phys absent =
    absurd (omega arith)
map_from-Mapped ke pgdir perm (suc fuel) n a last pa xs s valid enough al at small phys absent =
    let walked = walkpgdir-Walked ke pgdir a xs s valid in
    Walked-MapEnds ke pgdir perm n a last pa xs s
      (map_from fuel pgdir (add32 a page_size) last (add32 pa page_size) perm)
      (walkpgdir pgdir a true s).0 (walkpgdir pgdir a true s).1 valid al at small
      (absent (a / page_size) (omega arith) (omega arith))
      (λ xs2 s2 k count valid2 entries.
        let next : add32 a page_size ≡ a + page_size = omega arith in
        let next_pa : add32 pa page_size ≡ pa + page_size = omega arith in
        let number : (a + page_size) / page_size ≡ a / page_size + 1 = omega arith in
        let rest =
          map_from-Mapped ke pgdir perm fuel k (a + page_size) last (pa + page_size) xs2 s2 valid2
            (omega arith) (omega arith) (omega arith) small (omega arith)
            (λ q lo hi.
              ap is_present (entries q (omega arith))
              ∙ ap (λ b. is_present (if b then pte_of pa perm else entry pgdir s q))
                  (ne→== (a / page_size) q (omega arith))
              ∙ absent q (omega arith) hi) in
        rw (next, next_pa) (rw number at rest))
      walked

-- The pages that `size` bytes at `va` lie in.
abbrev pub pages_of : ℕ → ℕ → ℕ
pages_of va size = (va + size - 1) / page_size - va / page_size + 1

-- mappages of `size` > 0 bytes at `va`, none of whose pages is mapped yet, to the physical pages from `pa` on, the address
-- of a page, does not panic. It returns 0, and each page of the range is mapped to its physical page with
-- `perm`; or it returns -1, the pages of the range are mapped up to one of them, and no page of memory is
-- left. No other entry changes, the page table stays well-formed, and no page outside it and the free list
-- changes.
pub mappages_lem :
    (ke pgdir va size pa perm : ℕ) (xs : List ℕ) (s : Kmem)
    → Valid ke pgdir xs s
    → 1 ≤ size
    → va + size ≤ 2 ^ 32
    → pa % page_size ≡ 0
    → perm < page_size
    → pa + pages_of va size * page_size ≤ 2 ^ 32
    → ((q : ℕ)
        → va / page_size ≤ q
        → q < va / page_size + pages_of va size
        → is_present (entry pgdir s q) ≡ false)
    → (done : Bool) × (s' : Kmem) × (mappages pgdir va size pa perm s ≡ ok (done, s'))
      × Mapped ke pgdir (va / page_size) (pages_of va size) pa perm xs s done s'
unfolding mappages
mappages_lem ke pgdir va size pa perm xs s valid some_size small pa_page perm_flags phys absent =
    let n : ℕ = (va + size - 1) / page_size - va / page_size in
    let last : sub32 (add32 va size) 1 ≡ va + size - 1 = omega arith in
    let count : n + 1 ≡ suc n = omega arith in
    let number : page_round_down va / page_size ≡ va / page_size = omega arith in
    let base =
      map_from-Mapped ke pgdir perm all_pages n (page_round_down va)
        (page_round_down (va + size - 1)) pa xs s valid (omega arith) (omega arith) (omega arith)
        (omega arith) (omega arith) (λ q lo hi. absent q (omega arith) (omega arith)) in
    subst
      (λ l.
        MapEnds ke pgdir (va / page_size) (n + 1) pa perm xs s
          (map_from all_pages pgdir (page_round_down va) (page_round_down l) pa perm s))
      (sym last)
      (subst
        (λ c. MapEnds ke pgdir (va / page_size) c pa perm xs s (
          map_from all_pages pgdir (page_round_down va) (page_round_down (va + size - 1)) pa perm
            s))
        (sym count)
        (subst
          (λ q. MapEnds ke pgdir q (suc n) pa perm xs s (
            map_from all_pages pgdir (page_round_down va) (page_round_down (va + size - 1)) pa perm
              s))
          number base))
