-- ===== src/Strings/Blocks.antt =====
-- string.c: `memset`, `memmove` and `memcmp` on blocks of bytes.
use native.Mathlib.Decide.{ℕ_discrete}
use schoolstuff.Base.{
  ℕ, zero, suc, ◌+◌, ◌-◌, ◌*◌, ◌/◌, ◌%◌, ◌^◌, ◌≤◌, ◌<◌, ◌≡◌, ◌≢◌, ◌⊎◌, refl, true, ◌&&◌, arith, ltb,
  leb, ◌==◌, if◌then◌else◌, update, sub32, inl, inr, Bool-cases, ne→==, ◌∙◌, sym, ap,
}
use schoolstuff.Strings.{
  Memory, stosb, store_word, stosl, spread, memset, memcmp, copy_down, copy_up, memmove,
}
use schoolstuff.Strings.Paste.{pasted, pasted-outside, pasted-front, pasted-back}

-- The bytes of the source are there until they are read.
copy_up-at :
    (n d s : ℕ) (m : Memory) (a : ℕ)
    → (d ≤ s) ⊎ (s + n ≤ d)
    → copy_up d s n m a ≡ pasted d n (λ i. m (s + i)) m a
unfolding copy_up
copy_up-at zero d s m a h = sym (pasted-outside d 0 (λ i. m (s + i)) m a (omega arith))
copy_up-at (suc n) d s m a h =
    copy_up-at n (d + 1) (s + 1) (update m d (m s)) a (omega arith)
    ∙ pasted-front d n (m s) (λ i. m (s + i)) (λ i. update m d (m s) (s + 1 + i)) m a
        (ap m (omega arith)) (λ i hi. rw (ne→== d (s + 1 + i) (omega arith)) (ap m (omega arith)))

copy_down-at :
    (n d s : ℕ) (m : Memory) (a : ℕ)
    → s ≤ d
    → copy_down (d + n) (s + n) n m a ≡ pasted d n (λ i. m (s + i)) m a
unfolding copy_down
copy_down-at zero d s m a h = sym (pasted-outside d 0 (λ i. m (s + i)) m a (omega arith))
copy_down-at (suc n) d s m a h =
    let dn : d + suc n - 1 ≡ d + n = omega arith in
    let sn : s + suc n - 1 ≡ s + n = omega arith in
    rw (dn, sn)
      (copy_down-at n d s (update m (d + n) (m (s + n))) a h
        ∙ pasted-back d n (m (s + n)) (λ i. m (s + i)) (λ i. update m (d + n) (m (s + n)) (s + i)) m
            a refl (λ i hi. rw (ne→== (d + n) (s + i) (omega arith)) refl))

-- memmove copies the `n` bytes that were at `src` to `dst`, however the two blocks overlap, and
-- changes no other byte.
pub memmove_lem :
    (dst src n : ℕ) (m : Memory) (a : ℕ)
    → memmove dst src n m a ≡ (if leb dst a && ltb a (dst + n) then m (src + (a - dst)) else m a)
unfolding memmove
memmove_lem dst src n m a = elim (Bool-cases (ltb src dst && ltb dst (src + n))) [
  | inl h ↦ rw h (copy_down-at n dst src m a (ground arith))
  | inr h ↦ rw h (copy_up-at n dst src m a (ground arith))
]

stosb-at : (n d c : ℕ) (m : Memory) (a : ℕ) → stosb d c n m a ≡ pasted d n (λ i. c % 256) m a
unfolding stosb
stosb-at zero d c m a = sym (pasted-outside d 0 (λ i. c % 256) m a (omega arith))
stosb-at (suc n) d c m a =
    stosb-at n (d + 1) c (update m d (c % 256)) a
    ∙ pasted-front d n (c % 256) (λ i. c % 256) (λ i. c % 256) m a refl (λ i hi. refl)

store_word-at :
    (d c : ℕ) (m : Memory) (a : ℕ) → c < 256 → store_word d (spread c) m a ≡ pasted d 4 (λ i. c) m a
unfolding store_word
store_word-at d c m a h =
    let b0 : spread c % 256 ≡ c = omega arith in
    let b1 : spread c / 2 ^ 8 % 256 ≡ c = omega arith in
    let b2 : spread c / 2 ^ 16 % 256 ≡ c = omega arith in
    let b3 : spread c / 2 ^ 24 % 256 ≡ c = omega arith in rw (b0, b1, b2, b3) (ground arith)

stosl-at :
    (cnt d c : ℕ) (m : Memory) (a : ℕ)
    → c < 256
    → stosl d (spread c) cnt m a ≡ pasted d (4 * cnt) (λ i. c) m a
unfolding stosl
stosl-at zero d c m a h = sym (pasted-outside d (4 * 0) (λ i. c) m a (omega arith))
stosl-at (suc cnt) d c m a h =
    let word = store_word-at d c m a h in
    stosl-at cnt (d + 4) c (store_word d (spread c) m) a h ∙ rw word (ground arith)

-- memset sets the `n` bytes at `dst` to the low byte of `c`, and no other byte, whether it stores
-- bytes or words.
pub memset_lem :
    (dst c n : ℕ) (m : Memory) (a : ℕ)
    → memset dst c n m a ≡ (if leb dst a && ltb a (dst + n) then c % 256 else m a)
unfolding memset
memset_lem dst c n m a = elim (Bool-cases ((dst % 4 == 0) && (n % 4 == 0))) [
  | inl h ↦
      let all : 4 * (n / 4) ≡ n = ground arith in
      rw h (stosl-at (n / 4) dst (c % 256) m a (omega arith) ∙ rw all refl)
  | inr h ↦ rw h (stosb-at n dst c m a)
]

-- The first `k` bytes at two addresses agree.
abbrev pub Agree : Memory → ℕ → ℕ → ℕ → Type 0
Agree m p q k = (j : ℕ) → j < k → m (p + j) ≡ m (q + j)

pub Agree-suc :
    (m : Memory) (p q k : ℕ) → m p ≡ m q → Agree m (p + 1) (q + 1) k → Agree m p q (suc k)
Agree-suc m p q k e rest j h = elim (ℕ_discrete j 0) [
  | yes first ↦
      let p0 : p + j ≡ p = omega arith in let q0 : q + j ≡ q = omega arith in rw (p0, q0) e
  | no later ↦
      let pj : p + 1 + (j - 1) ≡ p + j = omega arith in
      let qj : q + 1 + (j - 1) ≡ q + j = omega arith in rw (pj, qj) at (rest (j - 1) (omega arith))
]

-- The bytes number `i` differ, and `r` is their difference.
abbrev pub Differ : Memory → ℕ → ℕ → ℕ → ℕ → Type 0
Differ m p q i r = (m (p + i) ≢ m (q + i)) × (r ≡ sub32 (m (p + i)) (m (q + i))) × (r ≢ 0)

pub Differ-suc : (m : Memory) (p q i r : ℕ) → Differ m (p + 1) (q + 1) i r → Differ m p q (suc i) r
Differ-suc m p q i r d =
    let pi : p + 1 + i ≡ p + suc i = omega arith in
    let qi : q + 1 + i ≡ q + suc i = omega arith in rw (pi, qi) at d

pub Differ-zero :
    (m : Memory) (p q : ℕ) → m p < 256 → m q < 256 → m p ≢ m q → Differ m p q 0 (sub32 (m p) (m q))
Differ-zero m p q hp hq ne =
    let p0 : p + 0 ≡ p = omega arith in
    let q0 : q + 0 ≡ q = omega arith in rw (p0, q0) (ne, refl, omega arith)

-- memcmp of blocks of bytes is 0 and the blocks are equal; or it is not 0, and the difference of
-- the first two bytes that differ.
pub memcmp_lem :
    (m : Memory) (v1 v2 n : ℕ)
    → ((a : ℕ) → m a < 256)
    → ((memcmp m v1 v2 n ≡ 0) × Agree m v1 v2 n)
      ⊎ ((i : ℕ) × (i < n) × Agree m v1 v2 i × Differ m v1 v2 i (memcmp m v1 v2 n))
unfolding memcmp
memcmp_lem m v1 v2 zero bytes = inl (refl, λ i h. absurd (omega arith))
memcmp_lem m v1 v2 (suc n) bytes = elim (ℕ_discrete (m v1) (m v2)) [
  | no ne ↦ rw (ne→== _ _ ne) (
      inr
        (0, omega arith, λ j h. absurd (omega arith), Differ-zero m v1 v2 (bytes v1) (bytes v2) ne))
  | yes e ↦
      let test : (m v1 == m v2) ≡ true = ground arith in
      rw test (elim (memcmp_lem m (v1 + 1) (v2 + 1) n bytes) [
        | inl (r, agree) ↦ inl (r, Agree-suc m v1 v2 n e agree)
        | inr (i, hi, agree, differ) ↦
            inr (suc i, omega arith, Agree-suc m v1 v2 i e agree, Differ-suc m v1 v2 i _ differ)
      ])
]
