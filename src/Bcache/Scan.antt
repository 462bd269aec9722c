-- ===== src/Bcache/Scan.antt =====
-- bio.c: the two loops of bget look through the list of the buffers, and through it backwards.
use schoolstuff.Base.{
  ℕ, zero, suc, ◌<◌, ◌≡◌, refl, Bool, true, false, List, [], ◌∷◌, ◌++◌, arith, ◌==◌, inl, inr,
  Bool-cases, ◌∙◌, sym, ap, length, length-append, Option, none, some, if◌then◌else◌,
}
use schoolstuff.Base.Outcome.{Outcome, ok}
use schoolstuff.Kalloc.FreeList.{has}
use schoolstuff.Bcache.{
  Buf, Bcache, head, nbuf, follow, holds, is_recyclable, share, recycled, use_found, bget,
}
use schoolstuff.Bcache.Ring.{Links, Ring, has-append}

-- The first buffer of a list that passes a test.
abbrev pub first : (Buf → Bool) → (ℕ → Buf) → List ℕ → Option ℕ
first test buf [] = none
first test buf (x ∷ xs) = if test (buf x) then some x else first test buf xs

abbrev pub reversed : List ℕ → List ℕ
reversed [] = []
reversed (x ∷ xs) = reversed xs ++ (x ∷ [])

pub has-reversed : (y : ℕ) (xs : List ℕ) → has y (reversed xs) ≡ has y xs
has-reversed y [] = refl
has-reversed y (x ∷ xs) =
    let ih = has-reversed y xs in
    let e = has-append y (reversed xs) (x ∷ []) in ground (arith, ih, e)

length-reversed : (xs : List ℕ) → length (reversed xs) ≡ length xs
length-reversed [] = refl
length-reversed (x ∷ xs) =
    let ih = length-reversed xs in
    let e = length-append (reversed xs) (x ∷ []) in omega (arith, ih, e)

Links-snoc :
    (nx pv : ℕ → ℕ) (a : ℕ) (xs : List ℕ) (b z : ℕ)
    → Links nx pv a xs b
    → nx b ≡ z
    → pv z ≡ b
    → Links nx pv a (xs ++ (b ∷ [])) z
Links-snoc nx pv a [] b z (l1, l2) e1 e2 = (l1, l2, (e1, e2))
Links-snoc nx pv a (x ∷ xs) b z (l1, l2, rest) e1 e2 =
    (l1, l2, Links-snoc nx pv x xs b z rest e1 e2)

-- The list from the other end.
Links-reversed :
    (nx pv : ℕ → ℕ) (a : ℕ) (xs : List ℕ) (z : ℕ)
    → Links nx pv a xs z
    → Links pv nx z (reversed xs) a
Links-reversed nx pv a [] z (l1, l2) = (l2, l1)
Links-reversed nx pv a (x ∷ xs) z (l1, l2, rest) =
    Links-snoc pv nx z (reversed xs) x a (Links-reversed nx pv x xs z rest) l2 l1

follow-first :
    (test : Buf → Bool) (buf : ℕ → Buf) (nx pv : ℕ → ℕ) (fuel a : ℕ) (xs : List ℕ)
    → length xs < fuel
    → has head xs ≡ false
    → Links nx pv a xs head
    → follow test nx buf fuel (nx a) ≡ ok (first test buf xs)
unfolding follow
follow-first test buf nx pv zero a xs enough out l = absurd (omega arith)
follow-first test buf nx pv (suc fuel) a [] enough out (l1, l2) =
    let t : (nx a == head) ≡ true = ground arith in rw t refl
follow-first test buf nx pv (suc fuel) a (x ∷ xs) enough out (l1, l2, rest) =
    let t : (x == head) ≡ false = ground arith in
    rw (l1, t, follow-first test buf nx pv fuel x xs (omega arith) (ground arith) rest)
      (elim (Bool-cases (test (buf x))) [
        | inl passed ↦ rw passed refl
        | inr failed ↦ rw failed refl
      ])

-- The buffers are all in the list.
pub record Full (s : Bcache) (xs : List ℕ) : Type 0 where
  pub ring : Ring s xs
  pub size : length xs ≡ nbuf
  pub all : (b : ℕ) → b < nbuf → has b xs ≡ true
  pub only : (b : ℕ) → has b xs ≡ true → b < nbuf

-- What bget is to do, over the list of the buffers from the most to the least recently used.
abbrev pub unused_last : ℕ → ℕ → Bcache → List ℕ → Outcome (ℕ × Bcache)
unused_last dev n s xs = recycled dev n s (first is_recyclable s.buf (reversed xs))

abbrev pub lookup : ℕ → ℕ → Bcache → List ℕ → Option ℕ → Outcome (ℕ × Bcache)
lookup dev n s xs (some b) = ok (b, share b s)
lookup dev n s xs none = unused_last dev n s xs

pub bget-lookup :
    (dev n : ℕ) (s : Bcache) (xs : List ℕ)
    → Full s xs
    → bget dev n s ≡ lookup dev n s xs (first (holds dev n) s.buf xs)
unfolding bget
bget-lookup dev n s xs full =
    let d = full.ring.apart in
    let size = full.size in
    let out : has head xs ≡ false = ground arith in
    let forward =
      follow-first (holds dev n) s.buf s.next s.prev (suc nbuf) head xs (omega (arith, size)) out
        full.ring.links in
    let size' = length-reversed xs in
    let out' : has head (reversed xs) ≡ false = has-reversed head xs ∙ out in
    let backward =
      follow-first is_recyclable s.buf s.prev s.next (suc nbuf) head (reversed xs)
        (omega (arith, size, size')) out'
        (Links-reversed s.next s.prev head xs head full.ring.links) in
    rw forward (cases (first (holds dev n) s.buf xs) backward)
  where
    cases :
        (o : Option ℕ)
        → follow is_recyclable s.prev s.buf (suc nbuf) (s.prev head)
          ≡ ok (first is_recyclable s.buf (reversed xs))
        → use_found dev n s o ≡ lookup dev n s xs o
    cases (some b) e = refl
    cases none e = rw e refl

-- What the first buffer that passes a test is.
pub first-some :
    (test : Buf → Bool) (buf : ℕ → Buf) (xs : List ℕ) (b : ℕ)
    → first test buf xs ≡ some b
    → (has b xs ≡ true) × (test (buf b) ≡ true)
first-some test buf [] b e = absurd (ground arith)
first-some test buf (x ∷ xs) b e = elim (Bool-cases (test (buf x))) [
  | inl passed ↦
      let same : x ≡ b = option_eq (rw passed at e) in
      (
        let t : (b == x) ≡ true = ground arith in rw t refl,
        ap (λ y. test (buf y)) (sym same) ∙ passed,
      )
  | inr failed ↦
      let (there, passes) = first-some test buf xs b (rw failed at e) in (ground arith, passes)
]
  where
    option_eq : {x b : ℕ} → some x ≡ some b → x ≡ b
    option_eq e = ap (λ o. elim o [ none ↦ 0 | some y ↦ y ]) e

pub first-none :
    (test : Buf → Bool) (buf : ℕ → Buf) (xs : List ℕ)
    → first test buf xs ≡ none
    → (b : ℕ) → has b xs ≡ true
    → test (buf b) ≡ false
first-none test buf [] e b h = absurd (ground arith)
first-none test buf (x ∷ xs) e b h = elim (Bool-cases (test (buf x))) [
  | inl passed ↦ let clash : some x ≡ none = rw passed at e in absurd (ground arith)
  | inr failed ↦ elim (Bool-cases (b == x)) [
    | inl same ↦ let e' : b ≡ x = ground arith in ap (λ y. test (buf y)) e' ∙ failed
    | inr apart ↦ first-none test buf xs (rw failed at e) b (ground arith)
  ]
]
