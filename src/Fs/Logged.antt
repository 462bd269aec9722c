-- ===== src/Fs/Logged.antt =====
-- fs.c and log.c: bmap, writei and readi in a transaction, where every call of log_write may panic.
use schoolstuff.Base.{
  ◌≢◌, Bool-cases, ℕ, ◌+◌, ◌-◌, ◌*◌, ◌/◌, ◌≤◌, ◌<◌, ◌≡◌, ◌⊎◌, refl, some, arith, inl, inr,
}
use schoolstuff.Base.Outcome.{Outcome, ok, panic, OnOk-ok}
use schoolstuff.Log.{Log}
use schoolstuff.Log.Absorb.{Names}
use schoolstuff.Kalloc.FreeList.{has}
use schoolstuff.Fs.{block_size, max_file, Volume}
use schoolstuff.Fs.Blocks.{free_below}
use schoolstuff.Fs.Inode.{Inode, Buffer, Devsw, readi}
use schoolstuff.Fs.Slots.{Layout, Owns}
use schoolstuff.Fs.Bmap.{Mapped, bmap_lem}
use schoolstuff.Fs.Extend.{WellFormed, Extends, writei_lem, readi-writei}
use schoolstuff.Fs.Called.{bmap-Calls, write_calls, writei-Calls, Ended}
use schoolstuff.Fs.Logging.{
  log_all, calls_between, Calls-between, logged_bmap, logged_writei, Room, log_all-Filled, Calls,
}

-- The log names every block whose bytes are not what they were.
abbrev pub NamesChanges : Volume → Volume → Log → Type 0
NamesChanges v v' l' = (b : ℕ) → v'.blocks b ≢ v.blocks b → Names l' b

-- The calls of log_write between two volumes, in a log with room for them.
pub log_all-ok :
    (m : ℕ) (v v' : Volume) (l : Log)
    → Calls m v v'
    → Room m l
    → (l' : Log) × (log_all (calls_between v v') l ≡ ok l')
      × NamesChanges v v' l'
      × (l'.n ≤ l.n + m)
log_all-ok m v v' l calls room =
    let few = calls.few in
    let (l', run, filled) = log_all-Filled calls.blocks m l few room in
    let h = filled.few in
    (
      l',
      rw (Calls-between m v v' calls) run,
      λ b changed. elim (Bool-cases (has b calls.blocks)) [
        | inl called ↦ filled.names b called
        | inr not_called ↦ absurd (changed (calls.kept b not_called))
      ],
      omega (arith, h, few),
    )

-- What bmap comes to in a transaction: a panic with fewer than two free blocks, or the file with a
-- block of its own behind slot `bn`, and five more blocks in the log at most.
abbrev pub LoggedMaps : ℕ → Inode → Volume → ℕ → Log → Outcome ((ℕ × Inode × Volume) × Log) → Type 0
LoggedMaps meta ip v bn l r =
    ((r ≡ panic) × (free_below v.sb.size v < 2))
    ⊎ ((addr : ℕ) × (ip' : Inode) × (v' : Volume) × (l' : Log) × (r ≡ ok ((addr, ip', v'), l'))
        × Mapped meta ip v ip' v' bn addr 2
        × NamesChanges v v' l'
        × (l'.n ≤ l.n + 5))

-- For a disk with a proper layout (Layout), a file that owns its blocks (Owns), a block number below
-- MAXFILE and a transaction whose log has room for five more blocks, bmap, with every one of its
-- calls of log_write, panics only with fewer than two free blocks. Otherwise it returns a block, not
-- block 0, that is now the file's block of that number; the contents of the file are as before,
-- holes and all, it owns its blocks again, and the log has five more blocks at most and names every
-- block that has changed.
pub logged_bmap_lem :
    (meta : ℕ) (ip : Inode) (v : Volume) (l : Log) (bn : ℕ)
    → Layout v.sb meta
    → Owns meta ip v
    → bn < max_file
    → Room 5 l
    → LoggedMaps meta ip v bn l (logged_bmap ip bn v l)
unfolding logged_bmap
logged_bmap_lem meta ip v l bn layout owns small room =
    elim (bmap_lem meta ip v layout owns bn small) [
      | inl (e, none_free) ↦ rw e (inl (refl, none_free))
      | inr (addr, ip', v', e, mapped) ↦
          let calls : Calls 5 v v' =
            OnOk-ok (λ (addr1, ip1, v1). Calls 5 v v1) (bmap-Calls ip bn v) e in
          let (l', run, named, few) = log_all-ok 5 v v' l calls room in
          rw (e, run) (inr (addr, ip', v', l', refl, mapped, named, few))
    ]

-- writei into a well-formed file, from an offset within it up to one that a file can have, with two
-- free blocks for each block that it touches, inside a transaction whose log has room for six blocks
-- for each of them and one for the inode, makes all its calls of log_write without a panic and
-- returns `n`. The bytes from `off` on are then those of the caller and the others are as before, the
-- size is the larger of the old one and the end of the write, and the file is well-formed again: its
-- blocks are its own, all in use and without holes. The log has grown by that room at most, and names
-- every block that has changed.
pub logged_writei_lem :
    (k : Devsw) (meta : ℕ) (ip : Inode) (v : Volume) (l : Log) (src : Buffer) (off n : ℕ)
    → WellFormed meta ip v
    → off ≤ ip.size
    → off + n ≤ max_file * block_size
    → 2 * ((off + n + 511) / block_size - off / block_size) ≤ free_below v.sb.size v
    → Room (write_calls off n) l
    → (ip' : Inode) × (v' : Volume) × (l' : Log) × (logged_writei k ip src off n v l
        ≡ ok ((some n, ip', v'), l'))
      × Extends meta ip v off n src ip' v'
      × NamesChanges v v' l'
      × (l'.n ≤ l.n + write_calls off n)
unfolding logged_writei
logged_writei_lem k meta ip v l src off n wf start small free room =
    let (ip', v', run, ext) = writei_lem k meta ip v src off n wf start small free in
    let calls : Calls (write_calls off n) v v' =
      OnOk-ok (Ended (write_calls off n) v) (writei-Calls k ip src off n v) run in
    let (l', logs, named, few) = log_all-ok (write_calls off n) v v' l calls room in
    (ip', v', l', rw (run, logs) refl, ext, named, few)

-- What writei wrote in a transaction, readi reads back. For a write of `n` bytes into a well-formed
-- file, from an offset within it up to one that a file can have, with two free blocks for each block
-- that it touches, inside a transaction whose log has room for six blocks for each of them and one for
-- the inode: writei with all its calls of log_write returns `n`, the log then names every block that
-- has changed, and readi of the file after it returns `n` and the same `n` bytes from the same offset.
pub readi-logged_writei :
    (k : Devsw) (meta : ℕ) (ip : Inode) (v : Volume) (l : Log) (src dst : Buffer) (off n : ℕ)
    → WellFormed meta ip v
    → off ≤ ip.size
    → off + n ≤ max_file * block_size
    → 2 * ((off + n + 511) / block_size - off / block_size) ≤ free_below v.sb.size v
    → Room (write_calls off n) l
    → (ip' : Inode) × (v' : Volume) × (l' : Log) × (dst' : Buffer) × (logged_writei k ip src off n v
          l
        ≡ ok ((some n, ip', v'), l'))
      × NamesChanges v v' l'
      × (readi k ip' off n v' dst ≡ ok (some n, dst', ip', v'))
      × ((i : ℕ) → i < n → dst' i ≡ src i)
unfolding logged_writei
readi-logged_writei k meta ip v l src dst off n wf start small free room =
    let (ip', v', dst', run, back, bytes) =
      readi-writei k meta ip v src dst off n wf start small free in
    let calls : Calls (write_calls off n) v v' =
      OnOk-ok (Ended (write_calls off n) v) (writei-Calls k ip src off n v) run in
    let (l', logs, named, few) = log_all-ok (write_calls off n) v v' l calls room in
    (ip', v', l', dst', rw (run, logs) refl, named, back, bytes)
