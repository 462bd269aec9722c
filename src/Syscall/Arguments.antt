-- ===== src/Syscall/Arguments.antt =====
-- syscall.c: a pointer that a system call is given lies in the memory of the process.
use native.Mathlib.Decide.{ℕ_discrete, dec_lt, dec_le}
use schoolstuff.Base.{
  ℕ, zero, suc, ◌+◌, ◌-◌, ◌*◌, ◌^◌, ◌≤◌, ◌<◌, ◌≡◌, ◌⊎◌, refl, true, false, ◌||◌, Option, none, some,
  arith, ltb, leb, ◌==◌, add32, inl, inr, ne→==, ap, ◌∙◌,
}
use schoolstuff.Kalloc.{kernel_base}
use schoolstuff.Strings.{Memory}
use schoolstuff.Strings.Chars.{IsText, IsText-suc}
use schoolstuff.Fs.{word_at}
use schoolstuff.Syscall.{
  User, fetchint, scan, fetchstr, argint, check_block, argptr, with_length, argstr,
}

-- The address of argument `n`.
abbrev pub slot_of : ℕ → User → ℕ
slot_of n u = add32 (add32 u.esp 4) (4 * n)

-- argint returns the word at the argument's address, all four bytes of it in the process, or -1.
argint_lem :
    (n : ℕ) (u : User)
    → u.sz ≤ kernel_base
    → ((slot_of n u + 4 ≤ u.sz) × (argint n u ≡ some (word_at u.memory (slot_of n u))))
      ⊎ ((u.sz < slot_of n u + 4) × (argint n u ≡ none))
unfolding argint fetchint
argint_lem n u small = elim (dec_le (slot_of n u + 4) u.sz) [
  | yes in_it ↦
      let test : (leb u.sz (slot_of n u) || ltb u.sz (add32 (slot_of n u) 4)) ≡ false =
        ground arith in
      inl (in_it, rw test refl)
  | no out ↦
      let test : (leb u.sz (slot_of n u) || ltb u.sz (add32 (slot_of n u) 4)) ≡ true =
        ground arith in
      inr (omega arith, rw test refl)
]

abbrev Checked : ℕ → ℕ → ℕ → User → Option ℕ → Type 0
Checked a p size u r =
    ((r ≡ some p) × (a + 4 ≤ u.sz) × (size < 2 ^ 31) × (p < u.sz) × (p + size ≤ u.sz))
    ⊎ ((r ≡ none) × ((u.sz < a + 4) ⊎ (2 ^ 31 ≤ size) ⊎ (u.sz ≤ p) ⊎ (u.sz < p + size)))

check_lem :
    (a p size : ℕ) (u : User)
    → u.sz ≤ kernel_base
    → size < 2 ^ 32
    → a + 4 ≤ u.sz
    → Checked a p size u (check_block size u (some p))
check_lem a p size u small width in_it = elim (dec_lt size (2 ^ 31)) [
  | no negative ↦
      let test : (leb (2 ^ 31) size || leb u.sz p || ltb u.sz (add32 p size)) ≡ true =
        ground arith in
      rw test (inr (refl, inr (inl (omega arith))))
  | yes positive ↦ elim (dec_lt p u.sz) [
    | no outside ↦
        let test : (leb (2 ^ 31) size || leb u.sz p || ltb u.sz (add32 p size)) ≡ true =
          ground arith in
        rw test (inr (refl, inr (inr (inl (omega arith)))))
    | yes inside ↦ elim (dec_le (p + size) u.sz) [
      | yes fits ↦
          let test : (leb (2 ^ 31) size || leb u.sz p || ltb u.sz (add32 p size)) ≡ false =
            ground arith in
          rw test (inl (refl, in_it, positive, inside, fits))
      | no too_long ↦
          let test : (leb (2 ^ 31) size || leb u.sz p || ltb u.sz (add32 p size)) ≡ true =
            ground arith in
          rw test (inr (refl, inr (inr (inr (omega arith)))))
    ]
  ]
]

-- In a process below the kernel, argptr returns the pointer that the argument holds if the argument's word and the block of
-- `size` bytes at the pointer lie in the process, with a byte of it there and no wrap-around, and -1 in
-- every other case, a negative size and an argument beyond the process included.
pub argptr_lem :
    (n size : ℕ) (u : User)
    → u.sz ≤ kernel_base
    → size < 2 ^ 32
    → let p = word_at u.memory (slot_of n u) in
      ((argptr n size u ≡ some p)
        × (slot_of n u + 4 ≤ u.sz)
        × (size < 2 ^ 31)
        × (p < u.sz)
        × (p + size ≤ u.sz))
      ⊎ ((argptr n size u ≡ none)
          × ((u.sz < slot_of n u + 4) ⊎ (2 ^ 31 ≤ size) ⊎ (u.sz ≤ p) ⊎ (u.sz < p + size)))
unfolding argptr
argptr_lem n size u small width = elim (argint_lem n u small) [
  | inr (out, e) ↦ rw e (inr (refl, inl out))
  | inl (in_it, e) ↦
      rw e (check_lem (slot_of n u) (word_at u.memory (slot_of n u)) size u small width in_it)
]

-- The bytes that the loop of `fetchstr` passes.
scan_lem :
    (n s : ℕ) (m : Memory)
    → ((len : ℕ) × (scan n s m ≡ some len) × (len < n) × IsText m s len × (m (s + len) ≡ 0))
      ⊎ ((scan n s m ≡ none) × IsText m s n)
unfolding scan
scan_lem zero s m = inr (refl, λ j h. absurd (omega arith))
scan_lem (suc n) s m = elim (ℕ_discrete (m s) 0) [
  | yes nul ↦
      let test : (m s == 0) ≡ true = ground arith in
      rw test (inl (0, refl, omega arith, (λ j h. absurd (omega arith)), ap m (omega arith) ∙ nul))
  | no byte ↦ elim (scan_lem n (s + 1) m) [
    | inl (len, e, lt, text, nul) ↦
        rw (ne→== (m s) 0 byte, e)
          (inl (suc len, refl, omega arith, IsText-suc m s len byte text, ap m (omega arith) ∙ nul))
    | inr (e, text) ↦ rw (ne→== (m s) 0 byte, e) (inr (refl, IsText-suc m s n byte text))
  ]
]

-- In a process below the kernel, argstr returns the pointer that the argument holds and the length of the string there if
-- the argument's word lies in the process and so does the string with its NUL; and -1 if the word does not,
-- or the pointer does not, or no NUL follows it in the process.
pub argstr_lem :
    (n : ℕ) (u : User)
    → u.sz ≤ kernel_base
    → let p = word_at u.memory (slot_of n u) in
      ((len : ℕ) × (argstr n u ≡ some (p, len))
        × (slot_of n u + 4 ≤ u.sz)
        × (p + len < u.sz)
        × IsText u.memory p len
        × (u.memory (p + len) ≡ 0))
      ⊎ ((argstr n u ≡ none)
          × ((u.sz < slot_of n u + 4) ⊎ (u.sz ≤ p) ⊎ IsText u.memory p (u.sz - p)))
unfolding argstr fetchstr
argstr_lem n u small = elim (argint_lem n u small) [
  | inr (out, e) ↦ rw e (inr (refl, inl out))
  | inl (in_it, e) ↦ rw e (string_lem (slot_of n u) (word_at u.memory (slot_of n u)) in_it)
]
  where
    string_lem :
        (a p : ℕ)
        → a + 4 ≤ u.sz
        → ((len : ℕ) × (with_length p (fetchstr p u) ≡ some (p, len))
            × (a + 4 ≤ u.sz)
            × (p + len < u.sz)
            × IsText u.memory p len
            × (u.memory (p + len) ≡ 0))
          ⊎ ((with_length p (fetchstr p u) ≡ none)
              × ((u.sz < a + 4) ⊎ (u.sz ≤ p) ⊎ IsText u.memory p (u.sz - p)))
    string_lem a p in_it = elim (dec_lt p u.sz) [
      | no outside ↦
          let test : leb u.sz p ≡ true = ground arith in
          rw test (inr (refl, inr (inl (omega arith))))
      | yes inside ↦
          let test : leb u.sz p ≡ false = ground arith in
          elim (scan_lem (u.sz - p) p u.memory) [
            | inl (len, e, lt, text, nul) ↦
                rw (test, e) (inl (len, refl, in_it, omega arith, text, nul))
            | inr (e, text) ↦ rw (test, e) (inr (refl, inr (inr text)))
          ]
    ]
