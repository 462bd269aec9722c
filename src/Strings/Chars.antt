-- ===== src/Strings/Chars.antt =====
-- string.c: the routines on C strings.
use native.Mathlib.Decide.{ℕ_discrete, dec_lt}
use schoolstuff.Base.{
  ℕ, zero, suc, ◌+◌, ◌-◌, ◌≤◌, ◌<◌, ◌≡◌, min, ◌≢◌, ◌⊎◌, refl, true, false, not, ◌&&◌, arith, ltb,
  leb, ◌==◌, if◌then◌else◌, update, inl, inr, ne→==, ◌∙◌, sym, ap,
}
use schoolstuff.Strings.{Memory, strncmp, zero_fill, strncpy, copy_string, safestrcpy, strlen}
use schoolstuff.Strings.Paste.{pasted, pasted-inside, pasted-outside, pasted-front}
use schoolstuff.Strings.Blocks.{Agree, Agree-suc, Differ, Differ-suc, Differ-zero}

-- The first `k` bytes at an address are not NUL.
abbrev pub IsText : Memory → ℕ → ℕ → Type 0
IsText m p k = (j : ℕ) → j < k → m (p + j) ≢ 0

pub IsText-suc : (m : Memory) (p k : ℕ) → m p ≢ 0 → IsText m (p + 1) k → IsText m p (suc k)
IsText-suc m p k first rest j h = elim (ℕ_discrete j 0) [
  | yes z ↦ let p0 : p + j ≡ p = omega arith in rw p0 first
  | no later ↦
      let pj : p + 1 + (j - 1) ≡ p + j = omega arith in rw pj at (rest (j - 1) (omega arith))
]

-- The string at an address is `k` bytes long, and a NUL follows, or it is cut off after `n` bytes.
abbrev pub Ends : Memory → ℕ → ℕ → ℕ → Type 0
Ends m p k n = IsText m p k × (k ≤ n) × ((m (p + k) ≡ 0) ⊎ (k ≡ n))

pub Ends-suc : (m : Memory) (p k n : ℕ) → m p ≢ 0 → Ends m (p + 1) k n → Ends m p (suc k) (suc n)
Ends-suc m p k n first (text, le, end) =
    let pk : p + 1 + k ≡ p + suc k = omega arith in
    (
      IsText-suc m p k first text,
      omega arith,
      elim end [ inl z ↦ inl (rw pk at z) | inr e ↦ inr (ap suc e) ],
    )

-- strncmp of strings of at most `n` bytes is 0 and they are equal up to a NUL or to `n` bytes; or
-- it is not 0, and the difference of the first two bytes that differ, with no NUL before them.
pub strncmp_lem :
    (m : Memory) (p q n : ℕ)
    → ((a : ℕ) → m a < 256)
    → ((strncmp m p q n ≡ 0) × (k : ℕ) × Ends m p k n × Ends m q k n × Agree m p q k)
      ⊎ ((i : ℕ) × (i < n) × IsText m p i × Agree m p q i × Differ m p q i (strncmp m p q n))
unfolding strncmp
strncmp_lem m p q zero bytes = inl (
  refl,
  0,
  (λ j h. absurd (omega arith), omega arith, inr refl),
  (λ j h. absurd (omega arith), omega arith, inr refl),
  λ j h. absurd (omega arith),
)
strncmp_lem m p q (suc n) bytes = elim (ℕ_discrete (m p) (m q)) [
  | no ne ↦
      let test : (not (m p == 0) && (m p == m q)) ≡ false = ground arith in
      rw test (
        inr (
          0,
          omega arith,
          λ j h. absurd (omega arith),
          λ j h. absurd (omega arith),
          Differ-zero m p q (bytes p) (bytes q) ne,
        ))
  | yes e ↦ elim (ℕ_discrete (m p) 0) [
    | yes z ↦
        let test : (not (m p == 0) && (m p == m q)) ≡ false = ground arith in
        let p0 : p + 0 ≡ p = omega arith in
        let q0 : q + 0 ≡ q = omega arith in
        rw test (
          inl (
            omega arith,
            0,
            (λ j h. absurd (omega arith), omega arith, inl (rw p0 z)),
            (λ j h. absurd (omega arith), omega arith, inl (rw q0 (sym e ∙ z))),
            λ j h. absurd (omega arith),
          ))
    | no nz ↦
        let test : (not (m p == 0) && (m p == m q)) ≡ true = ground arith in
        rw test (elim (strncmp_lem m (p + 1) (q + 1) n bytes) [
          | inl (r, k, ends_p, ends_q, agree) ↦ inl (
            r,
            suc k,
            Ends-suc m p k n nz ends_p,
            Ends-suc m q k n (omega arith) ends_q,
            Agree-suc m p q k e agree,
          )
          | inr (i, hi, text, agree, differ) ↦ inr (
            suc i,
            omega arith,
            IsText-suc m p i nz text,
            Agree-suc m p q i e agree,
            Differ-suc m p q i _ differ,
          )
        ])
  ]
]

-- The blocks of `n` bytes at the two addresses do not meet.
abbrev pub Apart : ℕ → ℕ → ℕ → Type 0
Apart s t n = (s + n ≤ t) ⊎ (t + n ≤ s)

-- A copied byte leaves the rest of the source alone.
Ends-tail :
    (m : Memory) (s t k n v : ℕ)
    → Apart s t (suc n)
    → Ends m t (suc k) (suc n)
    → Ends (update m s v) (t + 1) k n
Ends-tail m s t k n v apart (text, le, end) = (
  λ j h.
      let tj : t + 1 + j ≡ t + suc j = omega arith in
      rw (ne→== s (t + 1 + j) (omega arith), tj) (text (suc j) (omega arith)),
  omega arith,
  elim (ℕ_discrete k n) [
    | yes e ↦ inr e
    | no ne ↦ elim end [
      | inl z ↦
          let tk : t + 1 + k ≡ t + suc k = omega arith in
          inl (rw (ne→== s (t + 1 + k) (omega arith), tk) z)
      | inr e ↦ absurd (omega arith)
    ]
  ],
)

-- The `k` bytes of a string, then NULs.
abbrev pub padded : Memory → ℕ → ℕ → ℕ → ℕ
padded m t k i = if ltb i k then m (t + i) else 0

padded-suc :
    (m : Memory) (s t k n i : ℕ)
    → Apart s t (suc n)
    → i < n
    → padded (update m s (m t)) (t + 1) k i ≡ padded m t (suc k) (i + 1)
padded-suc m s t k n i apart h = elim (dec_lt i k) [
  | yes lt ↦
      let a : ltb i k ≡ true = ground arith in
      let b : ltb (i + 1) (suc k) ≡ true = ground arith in
      rw (a, b, ne→== s (t + 1 + i) (omega arith)) (ap m (omega arith))
  | no ge ↦
      let a : ltb i k ≡ false = ground arith in
      let b : ltb (i + 1) (suc k) ≡ false = ground arith in rw (a, b)
]

padded-zero : (m : Memory) (t k : ℕ) → padded m t (suc k) 0 ≡ m t
padded-zero m t k = let b : ltb 0 (suc k) ≡ true = ground arith in rw b (ap m (omega arith))

zero_fill-at : (n s : ℕ) (m : Memory) (a : ℕ) → zero_fill s n m a ≡ pasted s n (λ i. 0) m a
unfolding zero_fill
zero_fill-at zero s m a = sym (pasted-outside s 0 (λ i. 0) m a (omega arith))
zero_fill-at (suc n) s m a =
    zero_fill-at n (s + 1) (update m s 0) a
    ∙ pasted-front s n 0 (λ i. 0) (λ i. 0) m a refl (λ i hi. refl)

-- strncpy between blocks of `n` bytes that do not overlap writes the first `n` bytes of the string
-- and then NULs up to `n` bytes, and changes no other byte.
pub strncpy_lem :
    (s t n k : ℕ) (m : Memory) (a : ℕ)
    → Apart s t n
    → Ends m t k n
    → strncpy s t n m a ≡ pasted s n (padded m t k) m a
unfolding strncpy
strncpy_lem s t zero k m a apart ends = sym (pasted-outside s 0 (padded m t k) m a (omega arith))
strncpy_lem s t (suc n) zero m a apart (_, _, end) =
    let t0 : t + 0 ≡ t = omega arith in
    let nul : m t ≡ 0 = elim end [ inl z ↦ rw t0 at z | inr e ↦ absurd (omega arith) ] in
    rw nul (
      zero_fill-at n (s + 1) (update m s 0) a
      ∙ pasted-front s n 0 (padded m t 0) (λ i. 0) m a (ground arith) (λ i hi. ground arith))
strncpy_lem s t (suc n) (suc k) m a apart ends =
    let t0 : t + 0 ≡ t = omega arith in
    let first : m t ≢ 0 = rw t0 at (ends.0 0 (omega arith)) in
    rw (ne→== (m t) 0 first) (
      strncpy_lem (s + 1) (t + 1) n k (update m s (m t)) a (omega arith)
        (Ends-tail m s t k n (m t) apart ends)
      ∙ pasted-front s n (m t) (padded m t (suc k)) (padded (update m s (m t)) (t + 1) k) m a
          (sym (padded-zero m t k)) (λ i hi. padded-suc m s t k n i apart hi))

-- What the loop of `safestrcpy` has written of a string of `k` bytes, after at most `n` rounds.
copy_string-at :
    (s t n k : ℕ) (m : Memory)
    → Apart s t n
    → Ends m t k n
    → ((copy_string s t n m).0 ≡ s + min n (k + 1))
      × ((a : ℕ) → (copy_string s t n m).1 a ≡ pasted s (min n (k + 1)) (padded m t k) m a)
unfolding copy_string
copy_string-at s t zero k m apart ends =
    let none_left : min 0 (k + 1) ≡ 0 = omega arith in
    rw none_left (omega arith, λ a. sym (pasted-outside s 0 (padded m t k) m a (omega arith)))
copy_string-at s t (suc n) zero m apart (_, _, end) =
    let t0 : t + 0 ≡ t = omega arith in
    let nul : m t ≡ 0 = elim end [ inl z ↦ rw t0 at z | inr e ↦ absurd (omega arith) ] in
    let one : min (suc n) (0 + 1) ≡ 1 = omega arith in
    rw (nul, one)
      (
        refl,
        λ a.
            sym (pasted-outside (s + 1) 0 (λ i. 0) (update m s 0) a (omega arith))
            ∙ pasted-front s 0 0 (padded m t 0) (λ i. 0) m a (ground arith)
                (λ i hi. absurd (omega arith)),
      )
copy_string-at s t (suc n) (suc k) m apart ends =
    let t0 : t + 0 ≡ t = omega arith in
    let first : m t ≢ 0 = rw t0 at (ends.0 0 (omega arith)) in
    let (at_end, bytes) =
      copy_string-at (s + 1) (t + 1) n k (update m s (m t)) (omega arith)
        (Ends-tail m s t k n (m t) apart ends) in
    let rounds : min (suc n) (suc k + 1) ≡ suc (min n (k + 1)) = omega arith in
    rw (ne→== (m t) 0 first, rounds)
      (
        omega (arith, at_end),
        λ a.
            bytes a
            ∙ pasted-front s (min n (k + 1)) (m t) (padded m t (suc k))
                (padded (update m s (m t)) (t + 1) k) m a (sym (padded-zero m t k))
                (λ i hi. padded-suc m s t k n i apart (omega arith)),
      )

-- The last byte of a block is written last.
pasted-last :
    (d n : ℕ) (f : ℕ → ℕ) (m : Memory) (a : ℕ)
    → f n ≡ 0
    → (if d + n == a then 0 else pasted d n f m a) ≡ pasted d (n + 1) f m a
pasted-last d n f m a last = elim (ℕ_discrete (d + n) a) [
  | yes e ↦
      let test : (d + n == a) ≡ true = ground arith in
      rw test (
        sym (pasted-inside d (n + 1) f m a (omega arith) (omega arith) ∙ ap f (omega arith) ∙ last))
  | no ne ↦
      let same : (leb d a && ltb a (d + n)) ≡ (leb d a && ltb a (d + (n + 1))) = ground arith in
      rw (ne→== (d + n) a ne, same)
]

-- safestrcpy into a buffer of `n` > 0 bytes that does not overlap the source: for a string that is
-- cut off after at most n - 1 bytes, it writes those bytes and a NUL, one more NUL if there is
-- room, and changes no other byte.
pub safestrcpy_lem :
    (s t n k : ℕ) (m : Memory) (a : ℕ)
    → 0 < n
    → Apart s t (n - 1)
    → Ends m t k (n - 1)
    → safestrcpy s t n m a ≡ pasted s (min (n - 1) (k + 1) + 1) (padded m t k) m a
unfolding safestrcpy
safestrcpy_lem s t zero k m a pos apart ends = absurd (omega arith)
safestrcpy_lem s t (suc n) k m a pos apart ends =
    let n1 : suc n - 1 ≡ n = omega arith in
    let (at_end, bytes) = copy_string-at s t n k m (rw n1 at apart) (rw n1 at ends) in
    rw (at_end, n1, bytes a)
      (pasted-last s (min n (k + 1)) (padded m t k) m a (ground (arith, ends)))

-- With fuel for the string and its NUL, strlen is the number of bytes before the first NUL.
pub strlen_lem :
    (fuel : ℕ) (m : Memory) (s k : ℕ)
    → IsText m s k
    → m (s + k) ≡ 0
    → k < fuel
    → strlen fuel m s ≡ k
unfolding strlen
strlen_lem zero m s k text nul h = absurd (omega arith)
strlen_lem (suc fuel) m s zero text nul h = let s0 : s + 0 ≡ s = omega arith in rw (rw s0 at nul)
strlen_lem (suc fuel) m s (suc k) text nul h =
    let s0 : s + 0 ≡ s = omega arith in
    let first : m s ≢ 0 = rw s0 at (text 0 (omega arith)) in
    let sk : s + 1 + k ≡ s + suc k = omega arith in
    let rest =
      strlen_lem fuel m (s + 1) k
        (λ j hj. let sj : s + 1 + j ≡ s + suc j = omega arith in rw sj (text (suc j) (omega arith)))
        (rw sk nul) (omega arith) in
    rw (ne→== (m s) 0 first) (omega (arith, rest))
