-- ===== src/Files.antt =====
-- cs350/cs350-18f-lab6-base/file.c and file.h: the table of open files and its reference counts. A
-- pointer to a file is its index in the table, and one to a pipe or an inode is a number.
pub mod Counts
pub mod Io
mod Tests
use schoolstuff.Base.{
  ℕ, zero, suc, ◌+◌, ◌-◌, Bool, true, false, Option, none, some, ltb, ◌==◌, if◌then◌else◌, update,
}
use schoolstuff.Base.Outcome.{Outcome, ok, panic, panic_if, ◌>>=◌, ◌>>◌}

-- NFILE
abbrev pub nfile : ℕ
nfile = 100

pub data Kind : Type 0 where
  fd_none fd_pipe fd_inode : Kind

pub record File : Type 0 where
  pub kind : Kind
  pub ref : ℕ
  pub readable : Bool
  pub writable : Bool
  pub pipe : ℕ
  pub ip : ℕ
  pub off : ℕ

abbrev pub Ftable : Type 0
Ftable = ℕ → File

-- The search of `filealloc`, `n` slots from `i` on.
unfoldable pub find_free : ℕ → ℕ → Ftable → Option ℕ
find_free zero i t = none
find_free (suc n) i t = let rest = find_free n (i + 1) t in if (t i).ref == 0 then some i else rest

abbrev pub alloc_at : Ftable → Option ℕ → Option (ℕ × Ftable)
alloc_at t none = none
alloc_at t (some i) = some (i, update t i (record (t i) { ref = 1 }))

-- `none` is a null pointer.
unfoldable pub filealloc : Ftable → Option (ℕ × Ftable)
unfolding find_free
filealloc t = alloc_at t (find_free nfile 0 t)

unfoldable pub filedup : ℕ → Ftable → Outcome Ftable
filedup i t = do panic_if (ltb (t i).ref 1); ok (update t i (record (t i) { ref = (t i).ref + 1 }))

-- What the last `fileclose` of a file closes: the end of a pipe, or an inode.
pub data Release : Type 0 where
  nothing : Release
  closes_pipe : ℕ → Bool → Release
  puts_inode : ℕ → Release

abbrev pub release_of : File → Release
release_of f = elim f.kind [
  | Kind.fd_none ↦ nothing
  | Kind.fd_pipe ↦ closes_pipe f.pipe f.writable
  | Kind.fd_inode ↦ puts_inode f.ip
]

unfoldable pub fileclose : ℕ → Ftable → Outcome (Ftable × Release)
fileclose i t = do
  panic_if (ltb (t i).ref 1)
  let left = (t i).ref - 1
  ok (
      if ltb 0 left
      then (update t i (record (t i) { ref = left }), nothing)
      else (update t i (record (t i) { kind = Kind.fd_none; ref = 0 }), release_of (t i)))
