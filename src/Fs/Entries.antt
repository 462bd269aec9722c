-- ===== src/Fs/Entries.antt =====
-- fs.c: the loops over the entries of a directory read what its content is.
use mathlib.Core.Path.{fun_ext}
use native.Mathlib.Decide.{ℕ_discrete, dec_lt}
use schoolstuff.Base.{
  ℕ, zero, suc, ◌+◌, ◌-◌, ◌*◌, ◌%◌, ◌≤◌, ◌<◌, ◌≡◌, ◌⊎◌, refl, true, false, Option, none, some,
  arith, ltb, ◌==◌, inl, inr, Bool-cases, ==→eq, ◌∙◌, ap, min, add32,
}
use schoolstuff.Base.Outcome.{Outcome, ok}
use schoolstuff.Strings.Paste.{pasted}
use schoolstuff.Fs.{Volume, half_at, max_file, block_size}
use schoolstuff.Fs.Inode.{Inode, Buffer, Devsw}
use schoolstuff.Fs.Slots.{content}
use schoolstuff.Fs.Content.{readi_lem}
use schoolstuff.Fs.Extend.{WellFormed}
use schoolstuff.Fs.Dir.{dirent_size, read_dirent, is_entry, dirlookup_from, find_empty}

-- The entry at an offset.
abbrev pub dirent_at : Inode → Volume → ℕ → Buffer
dirent_at ip v off = pasted 0 dirent_size (λ i. content ip v (off + i)) (λ i. 0)

-- Where an entry starts.
abbrev pub IsOffset : Inode → ℕ → Type 0
IsOffset ip o = (o % dirent_size ≡ 0) × (o < ip.size)

-- No entry of a range is in use with that name.
abbrev pub Absent : Inode → Volume → Buffer → ℕ → ℕ → Type 0
Absent ip v name lo hi =
    (o : ℕ) → lo ≤ o → o < hi → o % dirent_size ≡ 0 → is_entry name (dirent_at ip v o) ≡ false

-- The first entry with that name from an offset on, or none.
abbrev pub Finds : Inode → Volume → Buffer → ℕ → Outcome (Option (ℕ × ℕ) × Inode × Volume) → Type 0
Finds ip v name off run =
    ((run ≡ ok (none, ip, v)) × Absent ip v name off ip.size)
    ⊎ ((o : ℕ) × (run ≡ ok (some (o, half_at (dirent_at ip v o) 0), ip, v))
        × (off ≤ o)
        × IsOffset ip o
        × (is_entry name (dirent_at ip v o) ≡ true)
        × Absent ip v name off o)

module _ (k : Devsw) (meta : ℕ) (ip : Inode) (v : Volume) (wf : WellFormed meta ip v)
    (whole : ip.size % dirent_size ≡ 0) where
  read_dirent_lem :
      (off : ℕ)
      → off + dirent_size ≤ ip.size
      → read_dirent k off ip v ≡ ok (dirent_at ip v off, ip, v)
  unfolding read_dirent
  read_dirent_lem off h =
      let small : ip.size ≤ max_file * block_size = wf.small in
      let (de, run, bytes) =
        readi_lem k ip v off dirent_size (λ i. 0) wf.regular wf.dense small (omega arith)
          (omega arith) in
      let count : min dirent_size (ip.size - off) ≡ dirent_size = omega arith in
      let all : de ≡ dirent_at ip v off =
        fun_ext
          (λ a. bytes a ∙ ap (λ n. pasted 0 n (λ i. content ip v (off + i)) (λ i. 0) a) count) in
      rw (run, count) (ap (λ d. ok (d, ip, v)) all)

  pub dirlookup_from_lem :
      (fuel off : ℕ) (name : Buffer)
      → off % dirent_size ≡ 0
      → off ≤ ip.size
      → ip.size - off < fuel
      → Finds ip v name off (dirlookup_from fuel k off name ip v)
  unfolding dirlookup_from
  dirlookup_from_lem zero off name start le enough = absurd (omega arith)
  dirlookup_from_lem (suc fuel) off name start le enough = elim (dec_lt off ip.size) [
    | no end ↦
        let test : ltb off ip.size ≡ false = ground arith in
        rw test (inl (refl, λ o h1 h2 h3. absurd (omega arith)))
    | yes more ↦
        let test : ltb off ip.size ≡ true = ground arith in
        let small : ip.size ≤ max_file * block_size = wf.small in
        let read = read_dirent_lem off (omega arith) in
        let step : add32 off dirent_size ≡ off + dirent_size = omega arith in
        elim (Bool-cases (is_entry name (dirent_at ip v off))) [
          | inl here ↦
              rw (test, read, here)
                (inr
                  (off, refl, omega arith, (start, more), here, λ o h1 h2 h3. absurd (omega arith)))
          | inr not_here ↦
              let first_absent : (hi : ℕ)
                  → Absent ip v name (off + dirent_size) hi
                  → Absent ip v name off hi =
                λ hi absent o h1 h2 h3. elim (ℕ_discrete o off) [
                  | yes e ↦ rw e not_here
                  | no ne ↦ absent o (omega arith) h2 h3
                ] in
              rw (test, read, not_here, step)
                (elim (dirlookup_from_lem fuel (off + dirent_size) name (omega arith) (omega arith)
                  (omega arith)) [
                    | inl (run, absent) ↦ inl (run, first_absent ip.size absent)
                    | inr (o, run, lo, at, here, absent) ↦
                        inr (o, run, omega arith, at, here, first_absent o absent)
                  ])
        ]
  ]

  -- `find_empty` stops at the first entry that is not in use, or at the end.
  pub find_empty_lem :
      (fuel off : ℕ)
      → off % dirent_size ≡ 0
      → off ≤ ip.size
      → ip.size - off < fuel
      → (o : ℕ) × (find_empty fuel k off ip v ≡ ok (o, ip, v))
        × (o % dirent_size ≡ 0)
        × (o ≤ ip.size)
        × ((o < ip.size) → half_at (dirent_at ip v o) 0 ≡ 0)
  unfolding find_empty
  find_empty_lem zero off start le enough = absurd (omega arith)
  find_empty_lem (suc fuel) off start le enough = elim (dec_lt off ip.size) [
    | no end ↦
        let test : ltb off ip.size ≡ false = ground arith in
        rw test (off, refl, start, le, λ h. absurd (omega arith))
    | yes more ↦
        let test : ltb off ip.size ≡ true = ground arith in
        let small : ip.size ≤ max_file * block_size = wf.small in
        let read = read_dirent_lem off (omega arith) in
        let step : add32 off dirent_size ≡ off + dirent_size = omega arith in
        elim (Bool-cases (half_at (dirent_at ip v off) 0 == 0)) [
          | inl unused ↦ rw (test, read, unused) (off, refl, start, le, λ h. ==→eq _ 0 unused)
          | inr used ↦
              rw (test, read, used, step)
                (find_empty_lem fuel (off + dirent_size) (omega arith) (omega arith) (omega arith))
        ]
  ]
