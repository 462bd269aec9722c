-- ===== src/Bcache/Ring.antt =====
-- bio.c: the links of the buffers as a list, most recently used first.
use native.Mathlib.Decide.{ℕ_discrete}
use schoolstuff.Base.{
  ℕ, ◌≡◌, ◌≢◌, refl, Bool, true, false, not, ◌&&◌, ◌||◌, List, [], ◌∷◌, ◌++◌, arith, ◌==◌, update,
  ne→==, ==_refl, ◌∙◌, sym, ap,
}
use schoolstuff.Kalloc.FreeList.{has}
use schoolstuff.Bcache.{Bcache, head}

-- `next` leads from `a` through the list to `z`, and `prev` back.
abbrev pub Links : (ℕ → ℕ) → (ℕ → ℕ) → ℕ → List ℕ → ℕ → Type 0
Links nx pv a [] z = (nx a ≡ z) × (pv z ≡ a)
Links nx pv a (x ∷ xs) z = (nx a ≡ x) × (pv x ≡ a) × Links nx pv x xs z

abbrev pub distinct : List ℕ → Bool
distinct [] = true
distinct (x ∷ xs) = not (has x xs) && distinct xs

pub record Ring (s : Bcache) (xs : List ℕ) : Type 0 where
  pub links : Links s.next s.prev head xs head
  pub apart : distinct (head ∷ xs) ≡ true

pub has-append : (y : ℕ) (xs ys : List ℕ) → has y (xs ++ ys) ≡ (has y xs || has y ys)
has-append y [] ys = refl
has-append y (x ∷ xs) ys = let ih = has-append y xs ys in ground (arith, ih)

-- An element and one that is not.
pub has-ne : (x y : ℕ) (xs : List ℕ) → has x xs ≡ true → has y xs ≡ false → y ≢ x
has-ne x y xs hx hy e =
    let clash : true ≡ false = sym hx ∙ ap (λ w. has w xs) (sym e) ∙ hy in ground arith

pub has-split :
    (b : ℕ) (xs : List ℕ) → has b xs ≡ true → (ls : List ℕ) × (rs : List ℕ) × (xs ≡ ls ++ (b ∷ rs))
has-split b [] h = absurd (ground arith)
has-split b (x ∷ xs) h = elim (ℕ_discrete b x) [
  | yes e ↦ ([], xs, ap (λ y. y ∷ xs) (sym e))
  | no ne ↦ let (ls, rs, e) = has-split b xs (ground arith) in (x ∷ ls, rs, ap (λ ys. x ∷ ys) e)
]

pub Links-frame :
    (nx pv nx' pv' : ℕ → ℕ) (a : ℕ) (xs : List ℕ) (z : ℕ)
    → ((y : ℕ) → has y (a ∷ xs) ≡ true → nx' y ≡ nx y)
    → ((y : ℕ) → has y (z ∷ xs) ≡ true → pv' y ≡ pv y)
    → Links nx pv a xs z
    → Links nx' pv' a xs z
Links-frame nx pv nx' pv' a [] z hn hp (l1, l2) =
    (hn a (ground arith) ∙ l1, hp z (ground arith) ∙ l2)
Links-frame nx pv nx' pv' a (x ∷ xs) z hn hp (l1, l2, rest) = (
  hn a (ground arith) ∙ l1,
  hp x (ground arith) ∙ l2,
  Links-frame nx pv nx' pv' x xs z (λ y h. hn y (ground arith)) (λ y h. hp y (ground arith)) rest,
)

pub Links-append :
    (nx pv : ℕ → ℕ) (a : ℕ) (xs : List ℕ) (b : ℕ) (ys : List ℕ) (z : ℕ)
    → Links nx pv a (xs ++ (b ∷ ys)) z
    → Links nx pv a xs b × Links nx pv b ys z
Links-append nx pv a [] b ys z (l1, l2, rest) = ((l1, l2), rest)
Links-append nx pv a (x ∷ xs) b ys z (l1, l2, rest) =
    let (left, right) = Links-append nx pv x xs b ys z rest in ((l1, l2, left), right)

-- The last element before `b`, and the first after it.
prev-has :
    (nx pv : ℕ → ℕ) (a : ℕ) (xs : List ℕ) (b : ℕ) → Links nx pv a xs b → has (pv b) (a ∷ xs) ≡ true
prev-has nx pv a [] b (l1, l2) = ground (arith, l2)
prev-has nx pv a (x ∷ xs) b (l1, l2, rest) =
    let ih = prev-has nx pv x xs b rest in ground (arith, ih)

pub next-has :
    (nx pv : ℕ → ℕ) (b : ℕ) (ys : List ℕ) (z : ℕ) → Links nx pv b ys z → has (nx b) (z ∷ ys) ≡ true
next-has nx pv b [] z (l1, l2) = ground (arith, l1)
next-has nx pv b (y ∷ ys) z (l1, l2, rest) = ground (arith, l1)

-- The links without `b`, where `n` is what follows it and `p` what comes before.
module _ (nx pv : ℕ → ℕ) (b n p : ℕ) where
  abbrev pub nx' : ℕ → ℕ
  nx' = update nx p n

  abbrev pub pv' : ℕ → ℕ
  pv' = update pv n p

  right_part :
      (ys : List ℕ) (z : ℕ)
      → n ≡ nx b
      → has p ys ≡ false
      → distinct ys ≡ true
      → has z ys ≡ false
      → Links nx pv b ys z
      → Links nx' pv' p ys z
  right_part [] z e out d zo (l1, l2) =
      let nz : n ≡ z = e ∙ l1 in rw (==_refl p, nz, ==_refl z) (refl, refl)
  right_part (y ∷ ys) z e out d zo (l1, l2, rest) =
      let ny : n ≡ y = e ∙ l1 in
      let same : (n == y) ≡ true = ground (arith, ny) in
      let n_out : has n ys ≡ false = ap (λ w. has w ys) ny ∙ (ground arith) in
      let n_last : has n (z ∷ ys) ≡ false = ground (arith, n_out, ny) in
      (
        rw (==_refl p) ny,
        rw same refl,
        Links-frame nx pv nx' pv' y ys z (λ w h. rw (ne→== p w (has-ne w p (y ∷ ys) h out)) refl)
            (λ w h. rw (ne→== n w (has-ne w n (z ∷ ys) h n_last)) refl) rest,
      )

  pub rejoin :
      (a : ℕ) (xs ys : List ℕ) (z : ℕ)
      → n ≡ nx b
      → p ≡ pv b
      → distinct (a ∷ (xs ++ ys)) ≡ true
      → has z (xs ++ ys) ≡ false
      → Links nx pv a xs b
      → Links nx pv b ys z
      → Links nx' pv' a (xs ++ ys) z
  rejoin a [] ys z e e' d zo (l1, l2) right =
      let pa : p ≡ a = e' ∙ l2 in
      rw (sym pa) (right_part ys z e (rw pa (ground arith)) (ground arith) zo right)
  rejoin a (x ∷ xs) ys z e e' d zo (l1, l2, left) right =
      let p_in = prev-has nx pv x xs b left in
      let n_in = next-has nx pv b ys z right in
      let split = has-append p xs ys in
      let split' = has-append x xs ys in
      let p_in' : has p (x ∷ xs) ≡ true = ap (λ w. has w (x ∷ xs)) e' ∙ p_in in
      let n_in' : has n (z ∷ ys) ≡ true = ap (λ w. has w (z ∷ ys)) e ∙ n_in in
      let p_ring : has p (x ∷ (xs ++ ys)) ≡ true = ground (arith, p_in', split) in
      let not_p : p ≢ a = λ c. has-ne p a (x ∷ (xs ++ ys)) p_ring (ground arith) (sym c) in
      let not_n : n ≢ x = λ c. has-ne n x (z ∷ ys) n_in' (ground (arith, split')) (sym c) in
      (
        rw (ne→== p a not_p) l1,
        rw (ne→== n x not_n) l2,
        rejoin x xs ys z e e' (ground arith) (ground arith) left right,
      )
