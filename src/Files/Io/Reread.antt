-- ===== src/Files/Io/Reread.antt =====
-- file.c: what filewrite wrote, fileread reads back.
use schoolstuff.Base.{ℕ, ◌+◌, ◌-◌, ◌*◌, ◌/◌, ◌≤◌, ◌<◌, ◌≡◌, refl, true, some, min, arith, ◌∙◌, ap}
use schoolstuff.Base.Outcome.{ok}
use schoolstuff.Strings.Paste.{pasted-inside}
use schoolstuff.Fs.{Volume, max_file, block_size}
use schoolstuff.Fs.Blocks.{free_below}
use schoolstuff.Fs.Inode.{Inode, Buffer, Devsw, ilock, readi}
use schoolstuff.Fs.Slots.{content}
use schoolstuff.Fs.Content.{readi_lem}
use schoolstuff.Files.{Kind, File}
use schoolstuff.Files.Io.{returns, advance, chunk, read_inode, fileread, filewrite}
use schoolstuff.Files.Io.Chunks.{Open, Stored, ilock-Open, moved, by_kind-inode, filewrite_lem}

fileread-inode :
    (k : Devsw) (g : File) (ip : Inode) (n : ℕ) (dst : Buffer) (v : Volume)
    → g.kind ≡ Kind.fd_inode
    → g.readable ≡ true
    → fileread k g ip n dst v ≡ read_inode k g ip n dst v
unfolding fileread
fileread-inode k g ip n dst v kind readable =
    by_kind-inode g.pipe kind readable (dst, g, ip, v) (read_inode k g ip n dst v)

fileread-run :
    (k : Devsw) (g : File) (ip : Inode) (n : ℕ) (dst dst' : Buffer) (v : Volume)
    → g.kind ≡ Kind.fd_inode
    → g.readable ≡ true
    → ilock ip v ≡ ok ip
    → readi k ip g.off n v dst ≡ ok (some n, dst', ip, v)
    → fileread k g ip n dst v ≡ ok (returns (some n) (dst', advance g (some n), ip, v))
unfolding read_inode
fileread-run k g ip n dst dst' v kind readable lock run =
    fileread-inode k g ip n dst v kind readable ∙ rw (lock, run) refl

reread :
    (meta : ℕ) (k : Devsw) (ip : Inode) (v : Volume) (off n : ℕ) (src dst : Buffer) (ip' : Inode)
    (v' : Volume)
    → off ≤ ip.size
    → off + n ≤ max_file * block_size
    → Stored meta ip v off n src ip' v'
    → (dst' : Buffer) × (readi k ip' off n v' dst ≡ ok (some n, dst', ip', v'))
      × ((i : ℕ) → i < n → dst' i ≡ src i)
reread meta k ip v off n src dst ip' v' start small stored =
    let wf' = stored.opened.well_formed in
    let reach : off + n ≤ ip'.size = ground (arith, stored.size) in
    let (dst', back, bytes) =
      readi_lem k ip' v' off n dst wf'.regular wf'.dense wf'.small (omega arith) (omega arith) in
    let count : min n (ip'.size - off) ≡ n = omega arith in
    (
      dst',
      rw count at back,
      λ i h.
          bytes i
          ∙ pasted-inside 0 (min n (ip'.size - off)) (λ j. content ip' v' (off + j)) dst i
              (omega arith) (omega arith)
          ∙ stored.bytes (off + (i - 0)) (omega arith)
          ∙ pasted-inside off n src (content ip v) (off + (i - 0)) (omega arith) (omega arith)
          ∙ ap src (omega arith),
    )

-- After a filewrite of `n` bytes to an open inode that is writable, well-formed and not a device, from
-- an offset within it up to what a file can hold and with eight free blocks for each chunk, a fileread
-- of `n` bytes through an open file of the same inode that is readable, with its offset where the write
-- began, returns `n` and the bytes that were written, and moves that file's offset.
pub fileread-filewrite :
    (meta : ℕ) (k : Devsw) (f g : File) (ip : Inode) (addr dst : Buffer) (n : ℕ) (v : Volume)
    → f.kind ≡ Kind.fd_inode
    → f.writable ≡ true
    → g.kind ≡ Kind.fd_inode
    → g.readable ≡ true
    → g.off ≡ f.off
    → Open meta ip v
    → f.off ≤ ip.size
    → f.off + n ≤ max_file * block_size
    → 8 * ((n + (chunk - 1)) / chunk) ≤ free_below v.sb.size v
    → (ip' : Inode) × (v' : Volume) × (dst' : Buffer) × (filewrite k f ip addr n v
        ≡ ok (returns (some n) (moved f (f.off + n), ip', v')))
      × (fileread k g ip' n dst v' ≡ ok (returns (some n) (dst', advance g (some n), ip', v')))
      × ((i : ℕ) → i < n → dst' i ≡ addr i)
fileread-filewrite meta k f g ip addr dst n v kind writable kind_g readable same opened start small
      free =
    let (ip', v', run, stored) =
      filewrite_lem meta k f ip addr n v kind writable opened start small free in
    let (dst', back, bytes) = reread meta k ip v f.off n addr dst ip' v' start small stored in
    (
      ip',
      v',
      dst',
      run,
      fileread-run k g ip' n dst dst' v' kind_g readable (ilock-Open meta ip' v' stored.opened)
          (ap (λ o. readi k ip' o n v' dst) same ∙ back),
      bytes,
    )
