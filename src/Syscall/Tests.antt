-- ===== src/Syscall/Tests.antt =====
-- The theorems about arguments at a small process.
use schoolstuff.Base.{ℕ, ◌+◌, ◌-◌, ◌^◌, ◌≤◌, ◌<◌, ◌≡◌, ◌⊎◌, none, some, arith, ◌==◌, if◌then◌else◌}
use schoolstuff.Strings.Chars.{IsText}
use schoolstuff.Fs.{word_at}
use schoolstuff.Syscall.{User, argptr, argstr}
use schoolstuff.Syscall.Arguments.{slot_of, argptr_lem, argstr_lem}

-- Its first argument is 16, where the string "a" is.
abbrev small : User
small = record {
  sz = 64;
  esp = 32;
  memory = λ i. if i == 36 then 16 else if i == 16 then 97 else 0;
}

argptr_lem_example :
    let p = word_at small.memory (slot_of 0 small) in
    ((argptr 0 20 small ≡ some p)
      × (slot_of 0 small + 4 ≤ 64)
      × (20 < 2 ^ 31)
      × (p < 64)
      × (p + 20 ≤ 64))
    ⊎ ((argptr 0 20 small ≡ none)
        × ((64 < slot_of 0 small + 4) ⊎ (2 ^ 31 ≤ 20) ⊎ (64 ≤ p) ⊎ (64 < p + 20)))
argptr_lem_example = argptr_lem 0 20 small (omega arith) (omega arith)

argstr_lem_example :
    let p = word_at small.memory (slot_of 0 small) in
    ((len : ℕ) × (argstr 0 small ≡ some (p, len))
      × (slot_of 0 small + 4 ≤ 64)
      × (p + len < 64)
      × IsText small.memory p len
      × (small.memory (p + len) ≡ 0))
    ⊎ ((argstr 0 small ≡ none)
        × ((64 < slot_of 0 small + 4) ⊎ (64 ≤ p) ⊎ IsText small.memory p (64 - p)))
argstr_lem_example = argstr_lem 0 small (omega arith)
