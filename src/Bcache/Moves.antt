-- ===== src/Bcache/Moves.antt =====
-- bio.c: binit, and how brelse moves a buffer to the front of the list.
use native.Mathlib.Decide.{ℕ_discrete}
use schoolstuff.Base.{
  ℕ, zero, suc, ◌+◌, ◌<◌, ◌≤◌, ◌≡◌, ◌≢◌, refl, true, false, List, [], ◌∷◌, ◌++◌, arith, ◌==◌, inl,
  inr, Bool-cases, ne→==, ==_refl, sym,
}
use mathlib.Core.Path.{subst}
use schoolstuff.Kalloc.FreeList.{has}
use schoolstuff.Bcache.{Bcache, head, nbuf, insert_first, unlink, insert_all, binit}
use schoolstuff.Bcache.Ring.{
  Links, distinct, Ring, has-append, has-ne, has-split, Links-frame, Links-append, next-has, rejoin,
}

pub insert-Ring :
    (b : ℕ) (s : Bcache) (xs : List ℕ)
    → Ring s xs
    → b ≢ head
    → has b xs ≡ false
    → Ring (insert_first b s) (b ∷ xs)
unfolding insert_first
insert-Ring b s [] r ne out =
    let (l1, l2) = r.links in
    let t : (b == head) ≡ false = ne→== b head ne in
    let t' : (head == b) ≡ false = ne→== head b (λ e. ne (sym e)) in
    record {
      links = (refl, rw (t, l1, t', ==_refl b) refl, (rw (t', ==_refl b) l1, rw (t, l1) refl));
      apart = ground arith;
    }
insert-Ring b s (x ∷ xs) r ne out =
    let (l1, l2, rest) = r.links in
    let d = r.apart in
    let t : (b == head) ≡ false = ne→== b head ne in
    let t' : (head == b) ≡ false = ne→== head b (λ e. ne (sym e)) in
    let b_x : (x == b) ≡ false = ground arith in
    let after = insert_first b s in
    let frame : Links after.next after.prev x xs head =
      Links-frame s.next s.prev after.next after.prev x xs head
        (λ y h.
          let y_head = has-ne y head (x ∷ xs) h (ground arith) in
          let y_b = has-ne y b (x ∷ xs) h out in rw (ne→== head y y_head, ne→== b y y_b) refl)
        (λ y h.
          let y_x = has-ne y x (head ∷ xs) h (ground arith) in
          let y_b = has-ne y b (head ∷ xs) h (ground arith) in
          rw (t, l1, ne→== x y y_x, ne→== b y y_b) refl)
        rest in
    record {
      links = (
        refl,
        rw (t, l1, b_x, ==_refl b) refl,
        (rw (t', ==_refl b) l1, rw (t, l1, ==_refl x) refl, frame),
      );
      apart = ground arith;
    }

distinct-drop :
    (b : ℕ) (ls rs : List ℕ)
    → distinct (ls ++ (b ∷ rs)) ≡ true
    → (distinct (ls ++ rs) ≡ true) × (has b (ls ++ rs) ≡ false)
distinct-drop b [] rs d = (ground arith, ground arith)
distinct-drop b (x ∷ ls) rs d =
    let (d', out) = distinct-drop b ls rs (ground arith) in
    let e1 = has-append x ls (b ∷ rs) in
    let e2 = has-append x ls rs in (ground (arith, e1, e2, d'), ground (arith, e1, out))

pub unlink-Ring :
    (b : ℕ) (s : Bcache) (ls rs : List ℕ)
    → Ring s (ls ++ (b ∷ rs))
    → Ring (unlink b s) (ls ++ rs) × (has b (ls ++ rs) ≡ false)
unfolding unlink
unlink-Ring b s ls rs r =
    let d = r.apart in
    let (d', out) = distinct-drop b ls rs (ground arith) in
    let (left, right) = Links-append s.next s.prev head ls b rs head r.links in
    let e1 = has-append head ls (b ∷ rs) in
    let e2 = has-append head ls rs in
    let e3 = has-append b ls rs in
    let head_out : has head (ls ++ rs) ≡ false = ground (arith, e1, e2) in
    let n_in = next-has s.next s.prev b rs head right in
    let b_out : has b (head ∷ rs) ≡ false = ground (arith, e1, e3, out) in
    let not_b : s.next b ≢ b = λ c. has-ne (s.next b) b (head ∷ rs) n_in b_out (sym c) in
    let all : distinct (head ∷ (ls ++ rs)) ≡ true = ground (arith, head_out, d') in
    (
      record {
        links = rw (ne→== (s.next b) b not_b) (
            rejoin s.next s.prev b (s.next b) (s.prev b) head ls rs head refl refl all head_out left
              right);
        apart = all;
      },
      out,
    )

-- `b` comes to the front, and the others keep their order.
pub move-Ring :
    (b : ℕ) (s : Bcache) (xs : List ℕ)
    → Ring s xs
    → has b xs ≡ true
    → (ls : List ℕ) × (rs : List ℕ) × (xs ≡ ls ++ (b ∷ rs))
      × Ring (insert_first b (unlink b s)) (b ∷ (ls ++ rs))
move-Ring b s xs r h =
    let (ls, rs, e) = has-split b xs h in
    let (r', out) = unlink-Ring b s ls rs (subst (Ring s) e r) in
    let d = r.apart in
    let b_head : b ≢ head = λ c. has-ne b head xs h (ground arith) (sym c) in
    (ls, rs, e, insert-Ring b (unlink b s) (ls ++ rs) r' b_head out)

-- The buffers from `b` on, each put in front of the list.
abbrev pub pushed : ℕ → ℕ → List ℕ → List ℕ
pushed zero b xs = xs
pushed (suc n) b xs = pushed n (b + 1) (b ∷ xs)

insert_all-Ring :
    (n b : ℕ) (s : Bcache) (xs : List ℕ)
    → b + n ≤ head
    → ((x : ℕ) → has x xs ≡ true → x < b)
    → Ring s xs
    → Ring (insert_all n b s) (pushed n b xs)
unfolding insert_all
insert_all-Ring zero b s xs le below r = r
insert_all-Ring (suc n) b s xs le below r =
    insert_all-Ring n (b + 1) (insert_first b s) (b ∷ xs) (omega arith)
      (λ x h. elim (ℕ_discrete x b) [
        | yes e ↦ omega arith
        | no ne ↦ let lt = below x (ground arith) in omega arith
      ])
      (insert-Ring b s xs r (omega arith) (new b below))
  where
    new : (b : ℕ) → ((x : ℕ) → has x xs ≡ true → x < b) → has b xs ≡ false
    new b below = elim (Bool-cases (has b xs)) [
      | inl there ↦ let lt = below b there in absurd (omega arith)
      | inr out ↦ out
    ]

pub binit-Ring : (s : Bcache) → Ring (binit s) (pushed nbuf 0 [])
unfolding binit
binit-Ring s =
    insert_all-Ring nbuf 0 _ [] (omega arith) (λ x h. absurd (ground arith))
      (record { links = (refl, refl); apart = refl })
