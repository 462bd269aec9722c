-- ===== src/Fs/Links.antt =====
-- fs.c: a name that `dirlink` has entered is the one that `dirlookup` finds.
use native.Mathlib.Decide.{ℕ_discrete, dec_lt}
use schoolstuff.Base.{
  ℕ, zero, suc, ◌+◌, ◌-◌, ◌/◌, ◌%◌, ◌^◌, ◌≤◌, ◌<◌, ◌≡◌, ◌⊎◌, refl, true, false, arith, ltb,
  if◌then◌else◌, inl, inr, ne→==, ==_refl, ◌∙◌, sym, ap,
}
use schoolstuff.Strings.{Memory, strncmp}
use schoolstuff.Strings.Chars.{Ends, Ends-suc, padded, strncpy_lem}
use schoolstuff.Strings.Paste.{pasted-inside}
use schoolstuff.Fs.{half_at}
use schoolstuff.Fs.Inode.{Buffer}
use schoolstuff.Fs.Dir.{dirsiz, dirent_size, beside, namecmp, name_of, is_entry, new_entry}

-- The bytes at `q` are those at `p` up to `n` bytes or to a NUL.
abbrev Copied : Memory → ℕ → ℕ → ℕ → Type 0
Copied m p q zero = Unit
Copied m p q (suc n) = (m q ≡ m p) × ((m p ≡ 0) ⊎ Copied m (p + 1) (q + 1) n)

strncmp-Copied : (m : Memory) (p q n : ℕ) → Copied m p q n → strncmp m p q n ≡ 0
unfolding strncmp
strncmp-Copied m p q zero copied = refl
strncmp-Copied m p q (suc n) (same, more) = elim more [
  | inl nul ↦ rw (same, nul) (omega arith)
  | inr rest ↦ elim (ℕ_discrete (m p) 0) [
    | yes nul ↦ rw (same, nul) (omega arith)
    | no byte ↦
        rw (same, ne→== (m p) 0 byte, ==_refl (m p)) (strncmp-Copied m (p + 1) (q + 1) n rest)
  ]
]

-- The first NUL of `n` bytes, if there is one.
some_end : (m : Memory) (p n : ℕ) → (k : ℕ) × Ends m p k n
some_end m p zero = (0, (λ j h. absurd (omega arith), omega arith, inr refl))
some_end m p (suc n) = elim (ℕ_discrete (m p) 0) [
  | yes nul ↦
      let p0 : p + 0 ≡ p = omega arith in
      (0, (λ j h. absurd (omega arith), omega arith, inl (ap m p0 ∙ nul)))
  | no byte ↦ let (k, ends) = some_end m (p + 1) n in (suc k, Ends-suc m p k n byte ends)
]

padded-Copied :
    (m : Memory) (p q k n : ℕ)
    → ((i : ℕ) → i < n → m (q + i) ≡ (if ltb i k then m (p + i) else 0))
    → ((k < n) → m (p + k) ≡ 0)
    → Copied m p q n
padded-Copied m p q k zero bytes nul = tt
padded-Copied m p q zero (suc n) bytes nul =
    let p0 : m p ≡ 0 = ap m (omega arith) ∙ nul (omega arith) in
    let q0 : m q ≡ 0 = ap m (omega arith) ∙ bytes 0 (omega arith) in (q0 ∙ sym p0, inl p0)
padded-Copied m p q (suc k) (suc n) bytes nul =
    let p0 : p + 0 ≡ p = omega arith in
    let q0 : q ≡ q + 0 = omega arith in
    let first : ltb 0 (suc k) ≡ true = ground arith in
    let same : m q ≡ m p = ap m q0 ∙ rw first at (bytes 0 (omega arith)) ∙ ap m p0 in
    (
      same,
      inr (
          padded-Copied m (p + 1) (q + 1) k n (next_bytes m p q k n bytes)
            (λ h. ap m (omega arith) ∙ nul (omega arith))),
    )
  where
    next_bytes :
        (m : Memory) (p q k n : ℕ)
        → ((i : ℕ) → i < suc n → m (q + i) ≡ (if ltb i (suc k) then m (p + i) else 0))
        → (i : ℕ) → i < n
        → m (q + 1 + i) ≡ (if ltb i k then m (p + 1 + i) else 0)
    next_bytes m p q k n bytes i h =
        let at_next = bytes (i + 1) (omega arith) in
        let shift : q + 1 + i ≡ q + (i + 1) = omega arith in
        elim (dec_lt i k) [
          | yes lt ↦
              let t1 : ltb i k ≡ true = ground arith in
              let t2 : ltb (i + 1) (suc k) ≡ true = ground arith in
              rw t1 (ap m shift ∙ rw t2 at at_next ∙ ap m (omega arith))
          | no ge ↦
              let t1 : ltb i k ≡ false = ground arith in
              let t2 : ltb (i + 1) (suc k) ≡ false = ground arith in
              rw t1 (ap m shift ∙ rw t2 at at_next)
        ]

-- The entry that `dirlink` writes.
abbrev pub IsNew : Buffer → ℕ → Buffer → Type 0
IsNew name inum de = (j : ℕ) → j < dirent_size → de j ≡ new_entry name inum j

pub new_entry-inum :
    (name : Buffer) (inum : ℕ) (de : Buffer)
    → inum < 2 ^ 16
    → IsNew name inum de
    → half_at de 0 ≡ inum
unfolding new_entry
new_entry-inum name inum de small fresh =
    let lo : de 0 ≡ inum % 256 = fresh 0 (omega arith) in
    let hi : de 1 ≡ inum / 2 ^ 8 % 256 = fresh 1 (omega arith) in rw (lo, hi) (omega arith)

beside-low : (n : ℕ) (s t : Buffer) (i : ℕ) → i < n → beside n s t (0 + i) ≡ s i
beside-low n s t i h =
    let test : ltb (0 + i) n ≡ true = ground arith in rw test (ap s (omega arith))

beside-high : (n : ℕ) (s t : Buffer) (i : ℕ) → beside n s t (n + i) ≡ t i
beside-high n s t i =
    let test : ltb (n + i) n ≡ false = ground arith in rw test (ap t (omega arith))

new_entry-byte :
    (name : Buffer) (inum k i : ℕ)
    → Ends (beside dirent_size (λ i. 0) name) dirent_size k dirsiz
    → i < dirsiz
    → new_entry name inum (i + 2) ≡ (if ltb i k then name i else 0)
unfolding new_entry
new_entry-byte name inum k i ends h =
    let m : Memory = beside dirent_size (λ i. 0) name in
    let back : i + 2 - 2 ≡ i = omega arith in
    rw (ne→== 1 (i + 2) (omega arith), ne→== 0 (i + 2) (omega arith))
      (strncpy_lem 2 dirent_size dirsiz k m (i + 2) (inl (omega arith)) ends
        ∙ pasted-inside 2 dirsiz (padded m dirent_size k) m (i + 2) (omega arith) (omega arith)
        ∙ ap (padded m dirent_size k) back
        ∙ ap (λ b. if ltb i k then b else 0) (beside-high dirent_size (λ i. 0) name i))

new_entry-name :
    (name : Buffer) (inum : ℕ) (de : Buffer) → IsNew name inum de → namecmp name (name_of de) ≡ 0
unfolding namecmp
new_entry-name name inum de fresh =
    let (k, ends) = some_end (beside dirent_size (λ i. 0) name) dirent_size dirsiz in
    strncmp-Copied (beside dirsiz name (name_of de)) 0 dirsiz dirsiz (
      padded-Copied (beside dirsiz name (name_of de)) 0 dirsiz k dirsiz
        (λ i h.
          beside-high dirsiz name (name_of de) i
          ∙ fresh (i + 2) (omega arith)
          ∙ new_entry-byte name inum k i ends h
          ∙ ap (λ b. if ltb i k then b else 0) (sym (beside-low dirsiz name (name_of de) i h)))
        (λ h.
          beside-low dirsiz name (name_of de) k h
          ∙ sym (beside-high dirent_size (λ i. 0) name k)
          ∙ elim ends.2 [ inl z ↦ z | inr e ↦ absurd (omega arith) ]))

pub new_entry-IsEntry :
    (name : Buffer) (inum : ℕ) (de : Buffer)
    → 1 ≤ inum
    → inum < 2 ^ 16
    → IsNew name inum de
    → is_entry name de ≡ true
new_entry-IsEntry name inum de pos small fresh = rw (
  new_entry-inum name inum de small fresh,
  ne→== inum 0 (omega arith),
  new_entry-name name inum de fresh,
)
