-- ===== src/Bcache/Choice.antt =====
-- bio.c: which buffer bget takes, and what it does to it.
use mathlib.Core.Path.{subst}
use native.Mathlib.Decide.{ℕ_discrete}
use schoolstuff.Base.{
  ℕ, ◌+◌, ◌≡◌, ◌⊎◌, refl, Bool, true, false, List, [], ◌∷◌, ◌++◌, arith, update, inl, inr,
  Bool-cases, ◌∙◌, sym, ap, Option, none, some,
}
use schoolstuff.Base.Outcome.{Outcome, ok, panic}
use schoolstuff.Kalloc.FreeList.{has}
use schoolstuff.Bcache.{Buf, Bcache, holds, is_recyclable, recycled, bget}
use schoolstuff.Bcache.Scan.{Full, first, reversed, lookup, bget-lookup, first-none, has-reversed}

-- A buffer has the block; no process uses a buffer, and the log does not need it.
abbrev pub Caches : ℕ → ℕ → Buf → Type 0
Caches dev n v = (v.dev ≡ dev) × (v.blockno ≡ n)

abbrev pub Idle : Buf → Type 0
Idle v = (v.refcnt ≡ 0) × (v.is_dirty ≡ false)

-- The buffer `b` of the list has the property, and none before it.
abbrev pub FirstOf : (Buf → Type 0) → (ℕ → Buf) → List ℕ → ℕ → Type 0
FirstOf P buf xs b =
    (ls : List ℕ) × (rs : List ℕ) × (xs ≡ ls ++ (b ∷ rs))
    × P (buf b)
    × ((c : ℕ) → has c ls ≡ true → ¬ P (buf c))

-- The buffer `b` has the property, and none after it.
abbrev pub LastOf : (Buf → Type 0) → (ℕ → Buf) → List ℕ → ℕ → Type 0
LastOf P buf xs b =
    (ls : List ℕ) × (rs : List ℕ) × (xs ≡ ls ++ (b ∷ rs))
    × P (buf b)
    × ((c : ℕ) → has c rs ≡ true → ¬ P (buf c))

abbrev pub NoneOf : (Buf → Type 0) → (ℕ → Buf) → List ℕ → Type 0
NoneOf P buf xs = (c : ℕ) → has c xs ≡ true → ¬ P (buf c)

-- A test decides a property.
abbrev Decides : (Buf → Bool) → (Buf → Type 0) → Type 0
Decides test P = ((v : Buf) → test v ≡ true → P v) × ((v : Buf) → test v ≡ false → ¬ P v)

some_eq : {x b : ℕ} → some x ≡ some b → x ≡ b
some_eq e = ap (λ o. elim o [ none ↦ 0 | some y ↦ y ]) e

first-FirstOf :
    (test : Buf → Bool) (P : Buf → Type 0) (buf : ℕ → Buf) (xs : List ℕ) (b : ℕ)
    → Decides test P
    → first test buf xs ≡ some b
    → FirstOf P buf xs b
first-FirstOf test P buf [] b d e = absurd (ground arith)
first-FirstOf test P buf (x ∷ xs) b d e = elim (Bool-cases (test (buf x))) [
  | inl passed ↦
      let same : x ≡ b = some_eq (rw passed at e) in
      (
        [],
        xs,
        ap (λ y. y ∷ xs) same,
        subst (λ y. P (buf y)) same (d.0 (buf x) passed),
        λ c h. absurd (ground arith),
      )
  | inr failed ↦
      let (ls, rs, eq, p, before) = first-FirstOf test P buf xs b d (rw failed at e) in
      (
        x ∷ ls,
        rs,
        ap (λ ys. x ∷ ys) eq,
        p,
        λ c h. elim (ℕ_discrete c x) [
          | yes here_ ↦ subst (λ y. ¬ P (buf y)) (sym here_) (d.1 (buf x) failed)
          | no ne ↦ before c (ground arith)
        ],
      )
]

first-append :
    (test : Buf → Bool) (buf : ℕ → Buf) (xs : List ℕ) (x b : ℕ)
    → first test buf (xs ++ (x ∷ [])) ≡ some b
    → (first test buf xs ≡ some b) ⊎ ((first test buf xs ≡ none) × (x ≡ b) × (test (buf x) ≡ true))
first-append test buf [] x b e = elim (Bool-cases (test (buf x))) [
  | inl passed ↦ inr (refl, some_eq (rw passed at e), passed)
  | inr failed ↦ let clash : none ≡ some b = rw failed at e in absurd (ground arith)
]
first-append test buf (y ∷ ys) x b e = elim (Bool-cases (test (buf y))) [
  | inl passed ↦ inl (rw passed (rw passed at e))
  | inr failed ↦ rw failed (first-append test buf ys x b (rw failed at e))
]

first-LastOf :
    (test : Buf → Bool) (P : Buf → Type 0) (buf : ℕ → Buf) (xs : List ℕ) (b : ℕ)
    → Decides test P
    → first test buf (reversed xs) ≡ some b
    → LastOf P buf xs b
first-LastOf test P buf [] b d e = absurd (ground arith)
first-LastOf test P buf (x ∷ xs) b d e = elim (first-append test buf (reversed xs) x b e) [
  | inl later ↦
      let (ls, rs, eq, p, after) = first-LastOf test P buf xs b d later in
      (x ∷ ls, rs, ap (λ ys. x ∷ ys) eq, p, after)
  | inr (none_later, same, passed) ↦ (
    [],
    xs,
    ap (λ y. y ∷ xs) same,
    subst (λ y. P (buf y)) same (d.0 (buf x) passed),
    λ c h. d.1 (buf c) (first-none test buf (reversed xs) none_later c (has-reversed c xs ∙ h)),
  )
]

holds-Decides : (dev n : ℕ) → Decides (holds dev n) (Caches dev n)
holds-Decides dev n =
    ((λ v h. (ground arith, ground arith)), (λ v h (e1, e2). ground (arith, e1, e2)))

recyclable-Decides : Decides is_recyclable Idle
recyclable-Decides =
    ((λ v h. (ground arith, ground arith)), (λ v h (e1, e2). ground (arith, e1, e2)))

none-NoneOf :
    (test : Buf → Bool) (P : Buf → Type 0) (buf : ℕ → Buf) (xs : List ℕ)
    → Decides test P
    → first test buf xs ≡ none
    → NoneOf P buf xs
none-NoneOf test P buf xs d e c h = d.1 (buf c) (first-none test buf xs e c h)

-- The state with one buffer changed.
abbrev pub with_buf : ℕ → Buf → Bcache → Bcache
with_buf b v s = record { buf = update s.buf b v; prev = s.prev; next = s.next; disk = s.disk }

-- What bget of a block comes to.
abbrev pub Gets : ℕ → ℕ → Bcache → List ℕ → Outcome (ℕ × Bcache) → Type 0
Gets dev n s xs r =
    ((b : ℕ) × FirstOf (Caches dev n) s.buf xs b
      × (r ≡ ok (b, with_buf b (record (s.buf b) { refcnt = (s.buf b).refcnt + 1 }) s)))
    ⊎ (((b : ℕ) × NoneOf (Caches dev n) s.buf xs
          × LastOf Idle s.buf xs b
          × (r
              ≡ ok (
                b,
                with_buf b
                    (record {
                      is_valid = false;
                      is_dirty = false;
                      dev = dev;
                      blockno = n;
                      locked = (s.buf b).locked;
                      refcnt = 1;
                      bytes = (s.buf b).bytes;
                    })
                    s,
              )))
        ⊎ (NoneOf (Caches dev n) s.buf xs × NoneOf Idle s.buf xs × (r ≡ panic)))

options : (o : Option ℕ) → (o ≡ none) ⊎ ((b : ℕ) × (o ≡ some b))
options none = inl refl
options (some b) = inr (b, refl)

-- bget of a cache whose buffers are all in its list takes the most recently used buffer of that device and block
-- number, and counts a reference more to it. If there is none, it takes the least recently used buffer that has no
-- references and is not dirty, for the block, with one reference and without valid contents. It panics only if there is
-- none of those either. The other buffers, the list and the disk do not change.
pub bget_lem : (dev n : ℕ) (s : Bcache) (xs : List ℕ) → Full s xs → Gets dev n s xs (bget dev n s)
bget_lem dev n s xs full =
    let run = bget-lookup dev n s xs full in
    elim (options (first (holds dev n) s.buf xs)) [
      | inr (b, hit) ↦ inl (
        b,
        first-FirstOf (holds dev n) (Caches dev n) s.buf xs b (holds-Decides dev n) hit,
        run ∙ ap (lookup dev n s xs) hit,
      )
      | inl miss ↦
          let missing =
            none-NoneOf (holds dev n) (Caches dev n) s.buf xs (holds-Decides dev n) miss in
          elim (options (first is_recyclable s.buf (reversed xs))) [
            | inr (b, free) ↦ inr (
                inl (
                  b,
                  missing,
                  first-LastOf is_recyclable Idle s.buf xs b recyclable-Decides free,
                  run ∙ ap (lookup dev n s xs) miss ∙ ap (recycled dev n s) free,
                ))
            | inl busy ↦ inr (
                inr (
                  missing,
                  (λ c h.
                      none-NoneOf is_recyclable Idle s.buf (reversed xs) recyclable-Decides busy c
                        (has-reversed c xs ∙ h)),
                  run ∙ ap (lookup dev n s xs) miss ∙ ap (recycled dev n s) busy,
                ))
          ]
    ]
