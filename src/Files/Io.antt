-- ===== src/Files/Io.antt =====
-- file.c: filestat, fileread and filewrite. `ip` is the inode that the file refers to, `f->ip`. What
-- begin_op and end_op do is in Log: here they leave the volume as it is.
pub mod Chunks
pub mod Reread
mod Tests
use schoolstuff.Base.{
  ℕ, zero, suc, ◌+◌, ◌-◌, ◌*◌, ◌/◌, Bool, true, false, not, Option, none, some, ltb, ◌==◌,
  if◌then◌else◌, min, add32,
}
use schoolstuff.Base.Outcome.{Outcome, ok, panic, panic_if, ◌>>=◌, ◌>>◌}
use schoolstuff.Log.{max_op_blocks}
use schoolstuff.Fs.{Volume}
use schoolstuff.Fs.Inode.{Inode, Buffer, Devsw, ilock, readi, writei}
use schoolstuff.Fs.Icache.{Stat, stati}
use schoolstuff.Files.{Kind, File}

-- `none` is -1. Of a pipe, the result is the call of piperead or pipewrite that is left to do.
pub data Call (A : Type 0) : Type 0 where
  returns : Option ℕ → A → Call A
  on_pipe : ℕ → Call A

-- The tests of fileread and filewrite, and what they do with an inode.
abbrev pub by_kind : {A : Type 0} → Bool → Kind → ℕ → A → Outcome (Call A) → Outcome (Call A)
by_kind false kind p a run = ok (returns none a)
by_kind true Kind.fd_none p a run = panic
by_kind true Kind.fd_pipe p a run = ok (on_pipe p)
by_kind true Kind.fd_inode p a run = run

unfoldable pub filestat : File → Inode → Volume → Outcome (Option Stat × Inode)
filestat f ip v = elim f.kind [
  | Kind.fd_none ↦ ok (none, ip)
  | Kind.fd_pipe ↦ ok (none, ip)
  | Kind.fd_inode ↦ do ip' ← ilock ip v; ok (some (stati ip'), ip')
]

-- `if(r > 0) f->off += r`
abbrev pub advance : File → Option ℕ → File
advance f none = f
advance f (some r) = if ltb 0 r then record f { off = add32 f.off r } else f

unfoldable pub read_inode :
    Devsw → File → Inode → ℕ → Buffer → Volume → Outcome (Call (Buffer × File × Inode × Volume))
read_inode k f ip n dst v = do
  ip1 ← ilock ip v
  (r, dst', ip', v') ← readi k ip1 f.off n v dst
  ok (returns r (dst', advance f r, ip', v'))

unfoldable pub fileread :
    Devsw → File → Inode → ℕ → Buffer → Volume → Outcome (Call (Buffer × File × Inode × Volume))
fileread k f ip n dst v =
    by_kind f.readable f.kind f.pipe (dst, f, ip, v) (read_inode k f ip n dst v)

-- `max` of `filewrite`
abbrev pub chunk : ℕ
chunk = (max_op_blocks - 1 - 1 - 2) / 2 * 512

-- After a writei of `n1` bytes: the loop goes on, breaks or panics.
abbrev pub after_write :
    (ℕ → Outcome (ℕ × File × Inode × Volume))
    → ℕ
    → ℕ
    → File
    → Inode
    → Volume
    → Option ℕ
    → Outcome (ℕ × File × Inode × Volume)
after_write more i n1 f ip v none = ok (i, f, ip, v)
after_write more i n1 f ip v (some r) = if not (r == n1) then panic else more r

-- The loop of `filewrite`, on fuel: `i`, and what the file and its inode have become.
unfoldable pub write_chunks :
    ℕ → Devsw → ℕ → ℕ → Buffer → File → Inode → Volume → Outcome (ℕ × File × Inode × Volume)
write_chunks zero k i n addr f ip v = panic
write_chunks (suc fuel) k i n addr f ip v =
    let n1 = min (n - i) chunk in
    let write = do
      ip1 ← ilock ip v
      (r, ip', v') ← writei k ip1 (λ j. addr (i + j)) f.off n1 v
      after_write (λ r. write_chunks fuel k (i + r) n addr (advance f (some r)) ip' v') i n1 f ip'
          v' r
    in if ltb i n then write else ok (i, f, ip, v)

unfoldable pub write_inode :
    Devsw → File → Inode → Buffer → ℕ → Volume → Outcome (Call (File × Inode × Volume))
write_inode k f ip addr n v = do
  (i, f', ip', v') ← write_chunks (suc n) k 0 n addr f ip v
  ok (returns (if i == n then some n else none) (f', ip', v'))

unfoldable pub filewrite :
    Devsw → File → Inode → Buffer → ℕ → Volume → Outcome (Call (File × Inode × Volume))
filewrite k f ip addr n v =
    by_kind f.writable f.kind f.pipe (f, ip, v) (write_inode k f ip addr n v)
