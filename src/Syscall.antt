-- ===== src/Syscall.antt =====
-- cs350/cs350-18f-lab6-base/syscall.c: the arguments of system calls, fetched from the memory of the
-- process. A negative int is its 32-bit pattern.
pub mod Arguments
mod Tests
use schoolstuff.Base.{
  ℕ, zero, suc, ◌+◌, ◌-◌, ◌*◌, ◌^◌, Bool, true, false, ◌||◌, Option, none, some, ltb, leb, ◌==◌,
  if◌then◌else◌, add32,
}
use schoolstuff.Strings.{Memory}
use schoolstuff.Fs.{word_at}

-- What the routines read of the current process: its size, its saved stack pointer and its memory.
pub record User : Type 0 where
  pub sz : ℕ
  pub esp : ℕ
  pub memory : Memory

unfoldable pub fetchint : ℕ → User → Option ℕ
fetchint addr u =
    if leb u.sz addr || ltb u.sz (add32 addr 4) then none else some (word_at u.memory addr)

abbrev pub one_more : Option ℕ → Option ℕ
one_more none = none
one_more (some n) = some (suc n)

-- The loop of `fetchstr` over the `n` bytes up to `ep`: the bytes before the NUL.
unfoldable pub scan : ℕ → ℕ → Memory → Option ℕ
scan zero s m = none
scan (suc n) s m = let rest = scan n (s + 1) m in if m s == 0 then some 0 else one_more rest

unfoldable pub fetchstr : ℕ → User → Option ℕ
fetchstr addr u =
    let found = scan (u.sz - addr) addr u.memory in if leb u.sz addr then none else found

unfoldable pub argint : ℕ → User → Option ℕ
argint n u = fetchint (add32 (add32 u.esp 4) (4 * n)) u

abbrev pub check_block : ℕ → User → Option ℕ → Option ℕ
check_block size u none = none
check_block size u (some i) =
    if leb (2 ^ 31) size || leb u.sz i || ltb u.sz (add32 i size) then none else some i

unfoldable pub argptr : ℕ → ℕ → User → Option ℕ
argptr n size u = check_block size u (argint n u)

-- The pointer, with the length that `fetchstr` returns.
abbrev pub with_length : ℕ → Option ℕ → Option (ℕ × ℕ)
with_length addr none = none
with_length addr (some len) = some (addr, len)

abbrev pub check_string : User → Option ℕ → Option (ℕ × ℕ)
check_string u none = none
check_string u (some addr) = with_length addr (fetchstr addr u)

unfoldable pub argstr : ℕ → User → Option (ℕ × ℕ)
argstr n u = check_string u (argint n u)
